-- ===== src/Hub/Store/Listing.antt =====
-- `list_current`: what a board lists, and that it always lists.
use mathlib.Core.List.{Perm}
use mathlib.Core.Path.{fun_ext, subst}
use the_grid.Prelude.{
  ℕ, ◌≡◌, refl, ap, not, List, [], ◌∷◌, filter, map, ltb, leb, ℕ_eq, list_eq, arith, All,
}
use the_grid.Prelude.Result.{ok, reraise}
use the_grid.Bytes.{require_bytes}
use the_grid.Hub.Store.Rows.{MessageRow, order_by_age}
use the_grid.Hub.Store.Order.{
  IsOrdered, order_by_age-IsOrdered, order_by_age-perm, All-order_by_age,
}
use the_grid.Hub.Store.Invariant.{IsValid, IsRow, cleanup_locked-IsValid}
use the_grid.Hub.Store.{
  BoardStore, StoredBoardRecord, cleanup_locked, list_current, current_rows, stored_from_row,
  stored_from_rows, make_encrypted_board_record, make_stored_board_record, is_expired,
}

-- The record that a row stands for.
pub record_of : MessageRow → StoredBoardRecord
record_of r = record {
  encrypted = record {
    message_id = r.message_id;
    display_token = r.id_token;
    ciphertext = r.ciphertext;
  };
  created_at = r.created_at;
  expires_at = r.expires_at;
}

stored_from_row-record_of : (r : MessageRow) → IsRow r → stored_from_row r ≡ ok (record_of r)
unfolding stored_from_row record_of make_encrypted_board_record make_stored_board_record reraise
    require_bytes
stored_from_row-record_of r w = ground (arith, w.0)

stored_from_rows-map :
    (rs : List MessageRow) → All IsRow rs → stored_from_rows rs ≡ ok (map record_of rs)
unfolding stored_from_rows
stored_from_rows-map [] w = refl
stored_from_rows-map (r ∷ rs) w = rw (stored_from_row-record_of r w.0, stored_from_rows-map rs w.1)

kept_rows :
    (timestamp : ℕ) (rs : List MessageRow)
    → filter (λ r. not (is_expired timestamp r)) rs ≡ filter (λ r. ltb timestamp r.expires_at) rs
unfolding is_expired
kept_rows timestamp rs = ap (λ p. filter p rs) (fun_ext λ r. ground arith)

-- On a valid board `list_current` succeeds. It lists the messages that have not expired, each once
-- and the oldest first, and returns the ids of those that have.
pub list_current_lem :
    (s : BoardStore) (timestamp : ℕ)
    → IsValid s
    → (rows : List MessageRow) × ((list_current s timestamp).1
        ≡ ok (
          map record_of rows,
          map (λ r. r.message_id) (filter (λ r. leb r.expires_at timestamp) s.messages),
        ))
      × IsOrdered rows
      × Perm rows (filter (λ r. ltb timestamp r.expires_at) s.messages)
unfolding list_current current_rows cleanup_locked
list_current_lem s timestamp v = (
  order_by_age (cleanup_locked s timestamp).0.messages,
  rw (
      stored_from_rows-map _
        (All-order_by_age IsRow _ (cleanup_locked-IsValid s timestamp v).rows)),
  order_by_age-IsOrdered _,
  subst (λ l. Perm (order_by_age (cleanup_locked s timestamp).0.messages) l)
      (kept_rows timestamp s.messages) (order_by_age-perm _),
)
