-- ===== src/Hub/Store/Posting.antt =====
-- `post`, branch by branch.
use the_grid.Prelude.{
  ℕ, ◌+◌, ◌≡◌, Bool, true, false, not, Option, none, some, length, leb, ltb, arith, list_eq, ℕ_eq,
  refl, if◌then◌else◌,
}
use the_grid.Prelude.Dict.{lookup, lookup-retain}
use the_grid.Prelude.Result.{
  Result, ok, err, board_store_error, invalid_record, duplicate_message, ◌>>=◌,
}
use the_grid.Bytes.{Bytes}
use the_grid.Hub.Store.Rows.{has_message}
use the_grid.Hub.Store.Invariant.{IsValid, IsRecord, cleanup_locked-IsValid, insert_post-IsValid}
use the_grid.Hub.Store.{
  BoardStore, EncryptedBoardRecord, BoardPostResult, board_cooldown_seconds, cleanup_locked,
  max_board_ciphertext_bytes, post, make_stored_board_record,
}

abbrev pub IsPostable : EncryptedBoardRecord → Type 0
IsPostable r = IsRecord r.message_id r.display_token r.ciphertext

module _ (s : BoardStore) (timestamp : ℕ) where
  -- The cleanup keeps a cooldown that still runs, and drops every other.
  pub lookup-cleanup_locked :
      (token : Bytes)
      → IsValid s
      → lookup token (cleanup_locked s timestamp).0.cooldowns ≡ elim (lookup token s.cooldowns) [
        | none ↦ none
        | some c ↦ if ltb timestamp c.next_post_at then some c else none
      ]
  unfolding cleanup_locked
  lookup-cleanup_locked token v = ground (
    arith,
    lookup-retain (λ _ c. not (leb c.next_post_at timestamp)) token s.cooldowns v.unique_tokens,
  )

  pub seen_ids-cleanup_locked : (cleanup_locked s timestamp).0.seen_ids ≡ s.seen_ids
  unfolding cleanup_locked
  seen_ids-cleanup_locked = refl

  -- An id that is new to `board_seen_ids` is never a taken primary key.
  pub has_message-cleanup_locked :
      (i : Bytes)
      → IsValid s
      → lookup i s.seen_ids ≡ none
      → has_message i (cleanup_locked s timestamp).0.messages ≡ false
  unfolding cleanup_locked
  has_message-cleanup_locked i v new = (cleanup_locked-IsValid s timestamp v).seen i new

-- What a client is told, read off the tables before the call.
unfoldable pub expected_reply : BoardStore → EncryptedBoardRecord → ℕ → Result (Bool × Option ℕ)
expected_reply s r timestamp =
    if ltb max_board_ciphertext_bytes (length r.ciphertext)
    then err (board_store_error invalid_record)
    else elim (lookup r.message_id s.seen_ids) [
      | some _ ↦ err (board_store_error duplicate_message)
      | none ↦ elim (lookup r.display_token s.cooldowns) [
        | none ↦ ok (true, some (timestamp + board_cooldown_seconds))
        | some c ↦
            if ltb timestamp c.next_post_at
            then ok (false, some c.next_post_at)
            else ok (true, some (timestamp + board_cooldown_seconds))
      ]
    ]

unfoldable pub reply_of : Result BoardPostResult → Result (Bool × Option ℕ)
reply_of m = m >>= λ p. ok (p.accepted, p.next_post_at)

-- On a valid board `post` replies as `expected_reply` says: a ciphertext of more than 8192 bytes is
-- an invalid record, a message id that was seen is a duplicate, a display token with a cooldown that
-- still runs is refused until its end, and any other post is accepted with the next one 86400
-- seconds later.
pub post-expected_reply :
    (s : BoardStore) (r : EncryptedBoardRecord) (timestamp : ℕ)
    → IsValid s
    → reply_of (post s r timestamp).1 ≡ expected_reply s r timestamp
unfolding post expected_reply reply_of make_stored_board_record
post-expected_reply s r timestamp v = ground (
  arith,
  lookup-cleanup_locked s timestamp r.display_token v,
  seen_ids-cleanup_locked s timestamp,
  has_message-cleanup_locked s timestamp r.message_id v,
)

pub post-IsValid :
    (s : BoardStore) (r : EncryptedBoardRecord) (timestamp : ℕ)
    → IsValid s
    → IsPostable r
    → IsValid (post s r timestamp).0
unfolding post
post-IsValid s r timestamp v w = ground (
  arith,
  v,
  cleanup_locked-IsValid s timestamp v,
  seen_ids-cleanup_locked s timestamp,
  insert_post-IsValid (cleanup_locked s timestamp).0 r timestamp (cleanup_locked s timestamp).1,
)
