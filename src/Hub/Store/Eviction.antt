-- ===== src/Hub/Store/Eviction.antt =====
-- Which message goes at capacity, and which removals nobody is told of.
use the_grid.Prelude.{
  ℕ, ◌≤◌, ◌<◌, ◌≡◌, refl, Bool, true, false, not, none, some, List, [], ◌∷◌, ◌++◌, length, filter,
  map, leb, ltb, ◌==◌, ℕ_eq, list_eq, arith, All, All-filter, Bool-cases, Option-cases, inl, inr,
  ◌⊎◌, contains, length-append, list_beq_iff, ltb→lt,
}
use the_grid.Prelude.Dict.{lookup}
use the_grid.Prelude.Result.{ok, err, board_store_error, duplicate_message}
use the_grid.Bytes.{Bytes}
use the_grid.Hub.Store.Rows.{
  MessageRow, has_message, is_before, oldest, oldest-none, delete_message,
  has_message-delete_message, has_message-append,
}
use the_grid.Hub.Store.Order.{IsBefore, oldest-IsBefore, All-oldest}
use the_grid.Hub.Store.Invariant.{IsValid}
use the_grid.Hub.Store.Posting.{seen_ids-cleanup_locked, has_message-cleanup_locked}
use the_grid.Hub.Store.{
  BoardStore, EncryptedBoardRecord, BoardPostResult, board_capacity, cleanup_locked, cleanup, post,
  insert_post, enforce_capacity, new_row, max_board_ciphertext_bytes, is_expired,
}

-- The table behind the INSERTs and the eviction.
module _ (s : BoardStore) (r : EncryptedBoardRecord) (timestamp : ℕ) (removed : List Bytes) where
  -- An accepted post ends with the INSERTs and the eviction on the cleaned tables.
  abbrev settled : BoardStore × List Bytes
  settled = enforce_capacity (insert_post s r timestamp) removed

  settled_few :
      length s.messages < board_capacity → has_message r.message_id settled.0.messages ≡ true
  unfolding enforce_capacity insert_post has_message
  settled_few few = ground (
    arith,
    length-append s.messages (new_row r timestamp ∷ []),
    has_message-append r.message_id s.messages (new_row r timestamp ∷ []),
    list_beq_iff r.message_id r.message_id,
  )

  settled_many :
      (x : MessageRow)
      → board_capacity ≤ length s.messages
      → oldest (s.messages ++ new_row r timestamp ∷ []) ≡ some x
      → settled ≡ (
        record (insert_post s r timestamp) {
          messages = delete_message x.message_id (s.messages ++ new_row r timestamp ∷ []);
        },
        removed ++ x.message_id ∷ [],
      )
  unfolding enforce_capacity insert_post
  settled_many x many found =
      ground (arith, length-append s.messages (new_row r timestamp ∷ []), found)

post-settled :
    (s : BoardStore) (r : EncryptedBoardRecord) (timestamp : ℕ) (p : BoardPostResult)
    → (post s r timestamp).1 ≡ ok p
    → p.accepted ≡ true
    → let cleaned = cleanup_locked s timestamp in
      ((post s r timestamp).0 ≡ (settled cleaned.0 r timestamp cleaned.1).0)
      × (p.removed_message_ids ≡ (settled cleaned.0 r timestamp cleaned.1).1)
      × (lookup r.message_id s.seen_ids ≡ none)
unfolding post
post-settled s r timestamp p h accepted = (
  ground (arith, seen_ids-cleanup_locked s timestamp),
  ground (arith, seen_ids-cleanup_locked s timestamp),
  ground (arith, seen_ids-cleanup_locked s timestamp),
)

old_or_new {κ} :
    (Q : MessageRow → Type κ) (n : MessageRow) (rs : List MessageRow)
    → All Q rs
    → All (λ x. Q x ⊎ (x ≡ n)) (rs ++ n ∷ [])
old_or_new Q n [] h = (inr refl, tt)
old_or_new Q n (x ∷ xs) h = (inl h.0, old_or_new Q n xs h.1)

abbrev IsOlder : Bytes → ℕ → MessageRow → Type 0
IsOlder i timestamp x = (x.created_at < timestamp) × ((x.message_id == i) ≡ false)

IsOlder-rows :
    (i : Bytes) (timestamp : ℕ) (rs : List MessageRow)
    → has_message i rs ≡ false
    → All (λ x. x.created_at < timestamp) rs
    → All (IsOlder i timestamp) rs
unfolding has_message
IsOlder-rows i timestamp [] new young = tt
IsOlder-rows i timestamp (x ∷ xs) new young =
    ((young.0, ground arith), IsOlder-rows i timestamp xs (ground arith) young.1)

-- A row made now is not before a row that was made earlier.
not_before_older :
    (n : MessageRow) (rs ys : List MessageRow)
    → 0 < length rs
    → All (λ x. x.created_at < n.created_at) rs
    → All (IsBefore n) (rs ++ ys)
    → ⊥
not_before_older n [] ys some_row young before = omega arith
not_before_older n (x ∷ xs) ys some_row young before =
    unfold is_before in ground (arith, young.0, before.0)

has_message-new_row :
    (rs : List MessageRow) (r : EncryptedBoardRecord) (timestamp : ℕ)
    → has_message r.message_id (rs ++ new_row r timestamp ∷ []) ≡ true
unfolding has_message new_row
has_message-new_row rs r timestamp = ground (
  arith,
  has_message-append r.message_id rs (new_row r timestamp ∷ []),
  list_beq_iff r.message_id r.message_id,
)

settled_older :
    (s : BoardStore) (r : EncryptedBoardRecord) (timestamp : ℕ) (removed : List Bytes)
    → has_message r.message_id s.messages ≡ false
    → All (λ x. x.created_at < timestamp) s.messages
    → board_capacity ≤ length s.messages
    → has_message r.message_id (settled s r timestamp removed).0.messages ≡ true
unfolding new_row
settled_older s r timestamp removed new young many =
    elim (Option-cases (oldest (s.messages ++ n ∷ []))) [
      | inl e ↦ absurd (omega (arith, oldest-none _ e, length-append s.messages (n ∷ [])))
      | inr (x, e) ↦
          elim (All-oldest _ _ x e (old_or_new _ n s.messages (IsOlder-rows _ _ _ new young))) [
            | inl older ↦ rw (settled_many s r timestamp removed x many e) (
                ground (
                  arith,
                  has_message-delete_message x.message_id r.message_id (s.messages ++ n ∷ []),
                  has_message-new_row s.messages r timestamp,
                  older.1,
                ))
            | inr same ↦ absurd (
                not_before_older n s.messages (n ∷ []) (omega arith) young
                  (rw same at (oldest-IsBefore _ x e)))
          ]
    ]
  where
    n : MessageRow
    n = new_row r timestamp

-- A message that has not expired was posted at an earlier second.
abbrev pub IsEarlier : ℕ → MessageRow → Type 0
IsEarlier timestamp x = timestamp < x.expires_at → x.created_at < timestamp

younger_rows :
    (timestamp : ℕ) (rs : List MessageRow)
    → All (IsEarlier timestamp) rs
    → All (λ x. x.created_at < timestamp) (filter (λ x. not (is_expired timestamp x)) rs)
unfolding filter is_expired
younger_rows timestamp [] young = tt
younger_rows timestamp (x ∷ xs) young = elim (Bool-cases (leb x.expires_at timestamp)) [
  | inl over ↦ rw over (younger_rows timestamp xs young.1)
  | inr lasts ↦ rw lasts (young.0 (ground (arith, lasts)), younger_rows timestamp xs young.1)
]

younger_cleaned :
    (s : BoardStore) (timestamp : ℕ)
    → All (IsEarlier timestamp) s.messages
    → All (λ x. x.created_at < timestamp) (cleanup_locked s timestamp).0.messages
unfolding cleanup_locked
younger_cleaned s timestamp young = younger_rows timestamp s.messages young

-- An accepted post is on a valid board afterwards, if every message that had not expired was posted
-- at an earlier second.
pub accepted_is_stored :
    (s : BoardStore) (r : EncryptedBoardRecord) (timestamp : ℕ) (p : BoardPostResult)
    → IsValid s
    → (post s r timestamp).1 ≡ ok p
    → p.accepted ≡ true
    → All (IsEarlier timestamp) s.messages
    → has_message r.message_id (post s r timestamp).0.messages ≡ true
accepted_is_stored s r timestamp p v h accepted young =
    let (e, _, new) = post-settled s r timestamp p h accepted in
    let absent = has_message-cleanup_locked s timestamp r.message_id v new in
    rw e (elim (Bool-cases (ltb (length (cleanup_locked s timestamp).0.messages) board_capacity)) [
      | inl few ↦ settled_few _ r timestamp _ (ltb→lt _ _ few)
      | inr many ↦
          settled_older _ r timestamp _ absent (younger_cleaned s timestamp young) (ground arith)
    ])

All-last :
    (P : MessageRow → Type 0) (xs : List MessageRow) (n : MessageRow) → All P (xs ++ n ∷ []) → P n
All-last P [] n h = h.0
All-last P (x ∷ xs) n h = All-last P xs n h.1

settled_newer :
    (s : BoardStore) (r : EncryptedBoardRecord) (timestamp : ℕ) (removed : List Bytes)
    → All (λ x. timestamp < x.created_at) s.messages
    → board_capacity ≤ length s.messages
    → (has_message r.message_id (settled s r timestamp removed).0.messages ≡ false)
      × ((settled s r timestamp removed).1 ≡ removed ++ r.message_id ∷ [])
unfolding new_row
settled_newer s r timestamp removed old many = elim (Option-cases (oldest (s.messages ++ n ∷ []))) [
  | inl e ↦ absurd (omega (arith, oldest-none _ e, length-append s.messages (n ∷ [])))
  | inr (x, e) ↦ elim (All-oldest _ _ x e (old_or_new _ n s.messages old)) [
    | inl newer ↦
        let first : IsBefore x n = All-last _ s.messages n (oldest-IsBefore _ x e) in
        absurd (unfold is_before in ground (arith, first, newer))
    | inr same ↦
        rw (settled_many s r timestamp removed x many e, same)
          (
            ground (
              arith,
              has_message-delete_message r.message_id r.message_id (s.messages ++ n ∷ []),
              list_beq_iff r.message_id r.message_id,
            ),
            refl,
          )
  ]
]
  where
    n : MessageRow
    n = new_row r timestamp

newer_cleaned :
    (s : BoardStore) (timestamp : ℕ)
    → All (λ x. timestamp < x.created_at) s.messages
    → All (λ x. timestamp < x.created_at) (cleanup_locked s timestamp).0.messages
unfolding cleanup_locked
newer_cleaned s timestamp old = All-filter _ _ s.messages old

-- An accepted post is evicted by its own transaction if the board is full of messages that bear a
-- later time, as after the clock was set back: its id is the last that is reported as removed.
pub accepted_is_evicted :
    (s : BoardStore) (r : EncryptedBoardRecord) (timestamp : ℕ) (p : BoardPostResult)
    → (post s r timestamp).1 ≡ ok p
    → p.accepted ≡ true
    → All (λ x. timestamp < x.created_at) s.messages
    → board_capacity ≤ length (cleanup_locked s timestamp).0.messages
    → (has_message r.message_id (post s r timestamp).0.messages ≡ false)
      × (p.removed_message_ids ≡ (cleanup_locked s timestamp).1 ++ r.message_id ∷ [])
accepted_is_evicted s r timestamp p h accepted old full =
    let (e, e', _) = post-settled s r timestamp p h accepted in
    let (gone, told) =
      settled_newer _ r timestamp (cleanup_locked s timestamp).1 (newer_cleaned s timestamp old)
        full in
    rw (e, e') (gone, told)

-- The messages that a cleanup reports are messages of the table.
contains_ids :
    (p : MessageRow → Bool) (i : Bytes) (rs : List MessageRow)
    → has_message i rs ≡ false
    → contains i (map (λ x. x.message_id) (filter p rs)) ≡ false
unfolding contains has_message filter
contains_ids p i [] h = refl
contains_ids p i (x ∷ xs) h = ground (arith, contains_ids p i xs)

abbrev pub HasExpired : Bytes → ℕ → MessageRow → Type 0
HasExpired i timestamp x = (x.message_id == i) ≡ true → x.expires_at ≤ timestamp

expired_is_gone :
    (i : Bytes) (timestamp : ℕ) (rs : List MessageRow)
    → All (HasExpired i timestamp) rs
    → has_message i (filter (λ x. not (is_expired timestamp x)) rs) ≡ false
unfolding filter has_message is_expired
expired_is_gone i timestamp [] h = refl
expired_is_gone i timestamp (x ∷ xs) h = ground (arith, h.0, expired_is_gone i timestamp xs h.1)

post-duplicate :
    (s : BoardStore) (r : EncryptedBoardRecord) (timestamp t : ℕ)
    → length r.ciphertext ≤ max_board_ciphertext_bytes
    → lookup r.message_id s.seen_ids ≡ some t
    → post s r timestamp
      ≡ ((cleanup_locked s timestamp).0, err (board_store_error duplicate_message))
unfolding post
post-duplicate s r timestamp t short seen = ground (arith, seen_ids-cleanup_locked s timestamp)

-- A post of a seen id, with a ciphertext of at most 8192 bytes, raises the duplicate error, which
-- carries no ids. A message id whose rows have all expired is gone from the table afterwards, and no
-- later cleanup reports it.
pub duplicate_forgets_removed :
    (s : BoardStore) (r : EncryptedBoardRecord) (timestamp t : ℕ) (i : Bytes)
    → length r.ciphertext ≤ max_board_ciphertext_bytes
    → lookup r.message_id s.seen_ids ≡ some t
    → All (HasExpired i timestamp) s.messages
    → ((post s r timestamp).1 ≡ err (board_store_error duplicate_message))
      × (has_message i (post s r timestamp).0.messages ≡ false)
      × ((later : ℕ) → contains i (cleanup (post s r timestamp).0 later).1 ≡ false)
unfolding cleanup cleanup_locked
duplicate_forgets_removed s r timestamp t i short seen expired =
    let gone = expired_is_gone i timestamp s.messages expired in
    rw (post-duplicate s r timestamp t short seen)
      (refl, gone, λ later. contains_ids (is_expired later) i _ gone)
