-- ===== src/Hub/Store.antt =====
-- `BoardStore` of hub.py: the SQLite tables as lists of rows, and each method as a function of the
-- tables. A method's time is an argument, as `now` is in the source. What a failing disk or
-- database does (`sqlite3.Error` other than a broken primary key) is left out.
pub mod Rows
pub mod Invariant
pub mod Posting
pub mod History
pub mod Order
pub mod Listing
pub mod Eviction
pub mod Generation
mod Tests
use the_grid.Prelude.{
  ℕ, ◌+◌, ◌-◌, ◌*◌, Bool, true, false, not, ◌||◌, Option, none, some, List, [], ◌∷◌, ◌++◌, map,
  length, filter, ltb, leb, ◌==◌, ℕ_eq, list_eq, if◌then◌else◌, max,
}
use the_grid.Prelude.Dict.{lookup, insert, retain}
use the_grid.Prelude.Result.{
  Result, ok, err, board_crypto_error, board_store_error, invalid_record, duplicate_message,
  database, value_error, raise_if, reraise, ◌>>=◌, ◌>>◌,
}
use the_grid.Bytes.{Bytes, require_bytes}
use Rows.{MessageRow, CooldownRow, order_by_age, oldest, has_message, delete_message}

abbrev pub board_capacity : ℕ
board_capacity = 24

abbrev pub board_lifetime_seconds : ℕ
board_lifetime_seconds = 86400

abbrev pub board_cooldown_seconds : ℕ
board_cooldown_seconds = 86400

abbrev pub max_board_ciphertext_bytes : ℕ
max_board_ciphertext_bytes = 8 * 1024

pub record EncryptedBoardRecord : Type 0 where
  pub message_id : Bytes
  pub display_token : Bytes
  pub ciphertext : Bytes

pub record StoredBoardRecord : Type 0 where
  pub encrypted : EncryptedBoardRecord
  pub created_at : ℕ
  pub expires_at : ℕ

pub record BoardPostResult : Type 0 where
  pub accepted : Bool
  pub stored : Option StoredBoardRecord
  pub removed_message_ids : List Bytes
  pub next_post_at : Option ℕ

-- The tables `board_messages`, `board_seen_ids`, `board_cooldowns` and `board_meta`.
pub record BoardStore : Type 0 where
  pub messages : List MessageRow
  pub seen_ids : List (Bytes × ℕ)
  pub cooldowns : List (Bytes × CooldownRow)
  pub access_generation : Option Bytes

abbrev pub new_store : BoardStore
new_store = record { messages = []; seen_ids = []; cooldowns = []; access_generation = none }

-- `EncryptedBoardRecord.__post_init__`
pub make_encrypted_board_record : Bytes → Bytes → Bytes → Result EncryptedBoardRecord
make_encrypted_board_record message_id display_token ciphertext = do
  checked_id ← reraise (require_bytes message_id (some 16)) (board_crypto_error invalid_record)
  checked_token ←
      reraise (require_bytes display_token (some 16)) (board_crypto_error invalid_record)
  raise_if (ltb (length ciphertext) 16) (board_crypto_error invalid_record)
  ok (record { message_id = checked_id; display_token = checked_token; ciphertext = ciphertext })

-- `StoredBoardRecord.__post_init__`
pub make_stored_board_record : EncryptedBoardRecord → ℕ → ℕ → Result StoredBoardRecord
make_stored_board_record encrypted created_at expires_at = do
  raise_if (not (expires_at == created_at + board_lifetime_seconds)) value_error
  ok (record { encrypted = encrypted; created_at = created_at; expires_at = expires_at })

is_expired : ℕ → MessageRow → Bool
is_expired timestamp row = leb row.expires_at timestamp

-- `_cleanup_locked`: the tables after both DELETEs, and the ids that the SELECT found before them.
pub cleanup_locked : BoardStore → ℕ → BoardStore × List Bytes
unfolding is_expired
cleanup_locked s timestamp = (
  record s {
    messages = filter (λ r. not (is_expired timestamp r)) s.messages;
    cooldowns = retain (λ _ c. not (leb c.next_post_at timestamp)) s.cooldowns;
  },
  map (λ r. r.message_id) (filter (is_expired timestamp) s.messages),
)

-- The eviction behind the INSERTs; `removed` grows by the id that goes.
pub enforce_capacity : BoardStore → List Bytes → BoardStore × List Bytes
enforce_capacity s removed =
    if ltb board_capacity (length s.messages)
    then (elim (oldest s.messages) [
      | none ↦ (s, removed)
      | some r ↦ (
        record s { messages = delete_message r.message_id s.messages },
        removed ++ r.message_id ∷ [],
      )
    ])
    else (s, removed)

new_row : EncryptedBoardRecord → ℕ → MessageRow
new_row r timestamp = record {
  message_id = r.message_id;
  id_token = r.display_token;
  created_at = timestamp;
  expires_at = timestamp + board_lifetime_seconds;
  ciphertext = r.ciphertext;
}

-- The three INSERTs.
pub insert_post : BoardStore → EncryptedBoardRecord → ℕ → BoardStore
unfolding new_row
insert_post s r timestamp = record s {
  messages = s.messages ++ new_row r timestamp ∷ [];
  seen_ids = s.seen_ids ++ (r.message_id, timestamp) ∷ [];
  cooldowns =
      insert r.display_token
        (record { last_post_at = timestamp; next_post_at = timestamp + board_cooldown_seconds })
        s.cooldowns;
}

accept : BoardStore → EncryptedBoardRecord → ℕ → List Bytes → BoardStore × Result BoardPostResult
accept s r timestamp removed =
    let (s', removed') = enforce_capacity (insert_post s r timestamp) removed in
    (
      s',
      (do
        stored ← make_stored_board_record r timestamp (timestamp + board_lifetime_seconds)
        ok (record {
          accepted = true;
          stored = some stored;
          removed_message_ids = removed';
          next_post_at = some (timestamp + board_cooldown_seconds);
        })),
    )

refuse : ℕ → List Bytes → Result BoardPostResult
refuse next_post_at removed = ok (record {
  accepted = false;
  stored = none;
  removed_message_ids = removed;
  next_post_at = some next_post_at;
})

-- Behind the duplicate test. A primary key that is taken rolls back to `s₀`, the tables as they
-- were before the transaction.
insert_or_refuse :
    BoardStore
    → BoardStore
    → EncryptedBoardRecord
    → ℕ
    → List Bytes
    → Option CooldownRow
    → BoardStore × Result BoardPostResult
unfolding accept refuse
insert_or_refuse s₀ s r timestamp removed none =
    if has_message r.message_id s.messages
    then (s₀, err (board_store_error duplicate_message))
    else accept s r timestamp removed
insert_or_refuse s₀ s r timestamp removed (some c) =
    if ltb timestamp c.next_post_at
    then (s, refuse c.next_post_at removed)
    else if has_message r.message_id s.messages
    then (s₀, err (board_store_error duplicate_message))
    else accept s r timestamp removed

-- A duplicate commits the cleanup and then raises.
post_cleaned :
    BoardStore
    → BoardStore
    → EncryptedBoardRecord
    → ℕ
    → List Bytes
    → Option ℕ
    → BoardStore × Result BoardPostResult
unfolding insert_or_refuse
post_cleaned s₀ s r timestamp removed (some first_seen_at) =
    (s, err (board_store_error duplicate_message))
post_cleaned s₀ s r timestamp removed none =
    insert_or_refuse s₀ s r timestamp removed (lookup r.display_token s.cooldowns)

pub post : BoardStore → EncryptedBoardRecord → ℕ → BoardStore × Result BoardPostResult
unfolding post_cleaned
post s r timestamp =
    if ltb max_board_ciphertext_bytes (length r.ciphertext)
    then (s, err (board_store_error invalid_record))
    else let (cleaned, removed) = cleanup_locked s timestamp in
      post_cleaned s cleaned r timestamp removed (lookup r.message_id cleaned.seen_ids)

pub cleanup : BoardStore → ℕ → BoardStore × List Bytes
cleanup s timestamp = cleanup_locked s timestamp

-- `_stored_from_row`
stored_from_row : MessageRow → Result StoredBoardRecord
stored_from_row row =
    reraise
      (do
        encrypted ← make_encrypted_board_record row.message_id row.id_token row.ciphertext
        make_stored_board_record encrypted row.created_at row.expires_at)
      (board_store_error database)

stored_from_rows : List MessageRow → Result (List StoredBoardRecord)
stored_from_rows [] = ok []
stored_from_rows (row ∷ rows) = do
  stored ← stored_from_row row
  rest ← stored_from_rows rows
  ok (stored ∷ rest)

-- The rows that the SELECT of `list_current` returns, oldest first.
pub current_rows : BoardStore → ℕ → List MessageRow
current_rows s timestamp = order_by_age (cleanup_locked s timestamp).0.messages

pub list_current : BoardStore → ℕ → BoardStore × Result (List StoredBoardRecord × List Bytes)
unfolding current_rows stored_from_rows stored_from_row
list_current s timestamp =
    let (cleaned, removed) = cleanup_locked s timestamp in
    (cleaned, (do records ← stored_from_rows (current_rows s timestamp); ok (records, removed)))

unfoldable pub cooldown_remaining : BoardStore → Bytes → ℕ → Result ℕ
cooldown_remaining s display_token timestamp = do
  checked ← require_bytes display_token (some 16)
  ok (elim (lookup checked s.cooldowns) [ none ↦ 0 | some c ↦ max 0 (c.next_post_at - timestamp) ])

unfoldable pub counts : BoardStore → ℕ × ℕ
counts s = (length s.messages, length s.cooldowns)

is_empty {ℓ} : {A : Type ℓ} → List A → Bool
is_empty [] = true
is_empty (x ∷ xs) = false

-- Whether `bind_access_generation` clears the tables.
unfoldable pub generation_changed : BoardStore → Bytes → Option Bytes → Bool
unfolding is_empty
generation_changed s generation none =
    not (is_empty s.messages) || not (is_empty s.cooldowns) || not (is_empty s.seen_ids)
generation_changed s generation (some bound) = not (bound == generation)

unfoldable pub rebind : BoardStore → Bytes → Bool → BoardStore
rebind s generation true = record new_store { access_generation = some generation }
rebind s generation false = record s { access_generation = some generation }

-- The transaction of `bind_access_generation`, behind the check of its argument.
unfoldable pub bind_checked : BoardStore → Result Bytes → BoardStore × Result Bool
unfolding generation_changed rebind
bind_checked s (err e) = (s, err e)
bind_checked s (ok generation) =
    let changed = generation_changed s generation s.access_generation in
    (rebind s generation changed, ok changed)

pub bind_access_generation : BoardStore → Bytes → BoardStore × Result Bool
unfolding bind_checked
bind_access_generation s access_generation =
    bind_checked s (require_bytes access_generation (some 16))
