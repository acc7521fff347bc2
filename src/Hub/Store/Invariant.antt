-- ===== src/Hub/Store/Invariant.antt =====
-- What the board's tables hold at every time: the invariant that every method keeps.
use the_grid.Prelude.{
  ℕ, ◌+◌, ◌≤◌, ◌≡◌, true, false, not, none, List, [], ◌∷◌, length, All, All-append, All-filter, leb,
  ltb, arith, length-append, length-filter-le, list_eq, ℕ_eq, inl, inr, Option-cases, Bool-cases,
  ltb→lt, refl,
}
use the_grid.Prelude.Dict.{
  lookup, lookup-append, HasUniqueKeys, insert-HasUniqueKeys, retain-HasUniqueKeys,
}
use the_grid.Bytes.{Bytes}
use the_grid.Hub.Store.Rows.{
  MessageRow, has_message, delete_message, oldest, HasUniqueIds, filter-HasUniqueIds,
  append-HasUniqueIds, has_message-filter, has_message-append, oldest-has_message, oldest-none,
  length-delete_message,
}
use the_grid.Hub.Store.{
  BoardStore, EncryptedBoardRecord, board_capacity, board_lifetime_seconds, cleanup_locked,
  enforce_capacity, insert_post, new_row,
}

-- What `EncryptedBoardRecord.__post_init__` leaves of a record.
pub record IsRecord (message_id display_token ciphertext : Bytes) : Type 0 where
  pub id_length : length message_id ≡ 16
  pub token_length : length display_token ≡ 16
  pub tagged : 16 ≤ length ciphertext

abbrev pub IsRow : MessageRow → Type 0
IsRow r =
    IsRecord r.message_id r.id_token r.ciphertext
    × (r.expires_at ≡ r.created_at + board_lifetime_seconds)

-- Every id of a message has been recorded as seen.
abbrev pub AreSeen : List (Bytes × ℕ) → List MessageRow → Type 0
AreSeen seen ms = (i : Bytes) → lookup i seen ≡ none → has_message i ms ≡ false

pub record IsValid (s : BoardStore) : Type 0 where
  pub unique_ids : HasUniqueIds s.messages
  pub unique_tokens : HasUniqueKeys s.cooldowns
  pub seen : AreSeen s.seen_ids s.messages
  pub rows : All IsRow s.messages
  pub bounded : length s.messages ≤ board_capacity

pub cleanup_locked-IsValid :
    (s : BoardStore) (timestamp : ℕ) → IsValid s → IsValid (cleanup_locked s timestamp).0
unfolding cleanup_locked
cleanup_locked-IsValid s timestamp v = record {
  unique_ids = filter-HasUniqueIds _ s.messages v.unique_ids;
  unique_tokens = retain-HasUniqueKeys _ s.cooldowns v.unique_tokens;
  seen = λ i h. has_message-filter _ i s.messages (v.seen i h);
  rows = All-filter IsRow _ s.messages v.rows;
  bounded =
      omega (arith, v.bounded, length-filter-le (λ r. not (leb r.expires_at timestamp)) s.messages);
}

-- Before the eviction there may be one message too many.
record IsOverfull (s : BoardStore) : Type 0 where
  unique_ids : HasUniqueIds s.messages
  unique_tokens : HasUniqueKeys s.cooldowns
  seen : AreSeen s.seen_ids s.messages
  rows : All IsRow s.messages
  bounded : length s.messages ≤ board_capacity + 1

insert_post-AreSeen :
    (s : BoardStore) (r : EncryptedBoardRecord) (timestamp : ℕ)
    → AreSeen s.seen_ids s.messages
    → AreSeen (insert_post s r timestamp).seen_ids (insert_post s r timestamp).messages
unfolding insert_post has_message
insert_post-AreSeen s r timestamp seen i h = ground (
  arith,
  lookup-append r.message_id i timestamp s.seen_ids,
  has_message-append i s.messages (new_row r timestamp ∷ []),
  seen i,
)

insert_post-IsOverfull :
    (s : BoardStore) (r : EncryptedBoardRecord) (timestamp : ℕ)
    → IsValid s
    → IsRecord r.message_id r.display_token r.ciphertext
    → lookup r.message_id s.seen_ids ≡ none
    → IsOverfull (insert_post s r timestamp)
unfolding insert_post
insert_post-IsOverfull s r timestamp v w new = record {
  unique_ids = append-HasUniqueIds s.messages _ v.unique_ids (v.seen r.message_id new);
  unique_tokens = insert-HasUniqueKeys r.display_token _ s.cooldowns v.unique_tokens;
  seen = insert_post-AreSeen s r timestamp v.seen;
  rows = All-append IsRow s.messages _ v.rows ((w, refl), tt);
  bounded = omega (arith, v.bounded, length-append s.messages (_ ∷ []));
}

evict-IsValid :
    (s : BoardStore) (i : Bytes)
    → IsOverfull s
    → has_message i s.messages ≡ true
    → IsValid (record s { messages = delete_message i s.messages })
unfolding delete_message
evict-IsValid s i v there = record {
  unique_ids = filter-HasUniqueIds _ s.messages v.unique_ids;
  unique_tokens = v.unique_tokens;
  seen = λ j h. has_message-filter _ j s.messages (v.seen j h);
  rows = All-filter IsRow _ s.messages v.rows;
  bounded = omega (arith, v.bounded, length-delete_message i s.messages there);
}

settle-IsValid : (s : BoardStore) → IsOverfull s → length s.messages ≤ board_capacity → IsValid s
settle-IsValid s v h = record {
  unique_ids = v.unique_ids;
  unique_tokens = v.unique_tokens;
  seen = v.seen;
  rows = v.rows;
  bounded = h;
}

enforce_capacity-IsValid :
    (s : BoardStore) (removed : List Bytes) → IsOverfull s → IsValid (enforce_capacity s removed).0
unfolding enforce_capacity
enforce_capacity-IsValid s removed v = elim (Bool-cases (ltb board_capacity (length s.messages))) [
  | inr few ↦ rw few (settle-IsValid s v (ground arith))
  | inl many ↦ rw many (elim (Option-cases (oldest s.messages)) [
    | inl none_left ↦ absurd (omega (arith, oldest-none s.messages none_left, ltb→lt _ _ many))
    | inr (r, found) ↦
        rw found (evict-IsValid s r.message_id v (oldest-has_message s.messages r found))
  ])
]

pub insert_post-IsValid :
    (s : BoardStore) (r : EncryptedBoardRecord) (timestamp : ℕ) (removed : List Bytes)
    → IsValid s
    → IsRecord r.message_id r.display_token r.ciphertext
    → lookup r.message_id s.seen_ids ≡ none
    → IsValid (enforce_capacity (insert_post s r timestamp) removed).0
insert_post-IsValid s r timestamp removed v w new =
    enforce_capacity-IsValid _ removed (insert_post-IsOverfull s r timestamp v w new)
