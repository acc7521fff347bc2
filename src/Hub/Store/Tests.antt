-- ===== src/Hub/Store/Tests.antt =====
-- Runs of a board, and the theorems at them.
use the_grid.Prelude.{
  ℕ, zero, suc, ◌+◌, ◌≤◌, ◌<◌, ◌≡◌, refl, true, false, none, some, List, [], ◌∷◌, ◌++◌, length, map,
  filter, ltb, leb, contains, arith, all, All, list_beq, ℕ_eq, list_eq,
}
use mathlib.Core.List.{Perm}
use the_grid.Prelude.Dict.{lookup, insert, retain}
use the_grid.Prelude.Result.{ok, err, board_store_error, duplicate_message}
use the_grid.Bytes.{Bytes, require_bytes}
use the_grid.Hub.Store.{
  BoardStore, EncryptedBoardRecord, BoardPostResult, StoredBoardRecord, board_capacity,
  board_cooldown_seconds, new_store, post, post_cleaned, insert_or_refuse, accept, refuse,
  insert_post, new_row, enforce_capacity, cleanup_locked, is_expired, make_stored_board_record,
  cleanup, list_current, current_rows, bind_access_generation, bind_checked, generation_changed,
  rebind,
}
use the_grid.Hub.Store.Rows.{
  MessageRow, has_message, is_before, blob_le, oldest, place, order_by_age, delete_message,
}
use the_grid.Hub.Store.Invariant.{IsValid}
use the_grid.Hub.Store.Order.{IsOrdered}
use the_grid.Hub.Store.Posting.{
  IsPostable, expected_reply, reply_of, post-expected_reply, post-IsValid,
}
use the_grid.Hub.Store.History.{
  BoardCall, IsCall, posts, lists, binds, step, run, run-IsValid, one_post_per_cooldown, no_replay,
}
use the_grid.Hub.Store.Listing.{record_of, list_current_lem}
use the_grid.Hub.Store.Eviction.{
  IsEarlier, accepted_is_stored, accepted_is_evicted, duplicate_forgets_removed,
}
use the_grid.Hub.Store.Generation.{IsCleared, bind_new_generation, bind_same_generation}

abbrev block : ℕ → ℕ → Bytes
block zero x = []
block (suc n) x = x ∷ block n x

abbrev note : ℕ → ℕ → EncryptedBoardRecord
note i token = record {
  message_id = block 16 i;
  display_token = block 16 token;
  ciphertext = block 20 7;
}

abbrev stored_note : ℕ → ℕ → ℕ → StoredBoardRecord
stored_note i token t = record { encrypted = note i token; created_at = t; expires_at = t + 86400 }

abbrev accepted_note : ℕ → ℕ → ℕ → List Bytes → BoardPostResult
accepted_note i token t removed = record {
  accepted = true;
  stored = some (stored_note i token t);
  removed_message_ids = removed;
  next_post_at = some (t + 86400);
}

note-IsPostable : (i token : ℕ) → IsPostable (note i token)
note-IsPostable i token = record { id_length = refl; token_length = refl; tagged = omega arith }

new_store-IsValid : IsValid new_store
unfolding has_message
new_store-IsValid = record {
  unique_ids = tt;
  unique_tokens = tt;
  seen = λ i h. refl;
  rows = tt;
  bounded = omega arith;
}

first_post : (post new_store (note 1 2) 10).1 ≡ ok (accepted_note 1 2 10 [])
unfolding post post_cleaned insert_or_refuse accept refuse insert_post new_row enforce_capacity
    cleanup_locked make_stored_board_record is_expired lookup insert retain has_message filter
    oldest order_by_age place is_before blob_le delete_message list_beq
first_post = refl

post-expected_reply_example :
    reply_of (post (post new_store (note 1 2) 10).0 (note 3 2) 20).1
    ≡ expected_reply (post new_store (note 1 2) 10).0 (note 3 2) 20
post-expected_reply_example =
    post-expected_reply (post new_store (note 1 2) 10).0 (note 3 2) 20
      (post-IsValid new_store (note 1 2) 10 new_store-IsValid (note-IsPostable 1 2))

abbrev busy : List (ℕ × BoardCall)
busy =
    (10, posts (note 1 2))
    ∷ (90000, lists)
    ∷ (20, posts (note 3 2))
    ∷ (30, binds (block 16 4))
    ∷ (40, posts (note 1 2))
    ∷ []

run-IsValid_example : IsValid (run new_store busy)
run-IsValid_example =
    run-IsValid new_store busy new_store-IsValid
      (note-IsPostable 1 2, (tt, (note-IsPostable 3 2, (tt, (note-IsPostable 1 2, tt)))))

abbrev refused_until : ℕ → BoardPostResult
refused_until t = record {
  accepted = false;
  stored = none;
  removed_message_ids = [];
  next_post_at = some t;
}

-- A board that is bound to a generation, and its first post.
abbrev bound_store : BoardStore
bound_store = record new_store { access_generation = some (block 16 4) }

bound_store-IsValid : IsValid bound_store
unfolding has_message
bound_store-IsValid = record {
  unique_ids = tt;
  unique_tokens = tt;
  seen = λ i h. refl;
  rows = tt;
  bounded = omega arith;
}

bound_post : (post bound_store (note 1 2) 10).1 ≡ ok (accepted_note 1 2 10 [])
unfolding post post_cleaned insert_or_refuse accept refuse insert_post new_row enforce_capacity
    cleanup_locked make_stored_board_record is_expired lookup insert retain has_message filter
    oldest order_by_age place is_before blob_le delete_message list_beq
bound_post = refl

abbrev quiet : List (ℕ × BoardCall)
quiet = (11, lists) ∷ (12, binds (block 16 4)) ∷ []

second_post :
    (post (run (post bound_store (note 1 2) 10).0 quiet) (note 3 2) 20).1 ≡ ok (refused_until 86410)
unfolding post post_cleaned insert_or_refuse accept refuse insert_post new_row enforce_capacity
    cleanup_locked make_stored_board_record is_expired lookup insert retain has_message filter
    oldest order_by_age place is_before blob_le delete_message list_beq run step list_current
    current_rows bind_access_generation bind_checked generation_changed rebind require_bytes
second_post = refl

one_post_per_cooldown_example :
    ((refused_until 86410).accepted ≡ false)
    × ((refused_until 86410).next_post_at ≡ some (10 + board_cooldown_seconds))
one_post_per_cooldown_example =
    one_post_per_cooldown bound_store (note 1 2) 10 (accepted_note 1 2 10 []) (block 16 4) quiet
      (note 3 2) 20 (refused_until 86410) bound_store-IsValid (refl, (tt, (refl, tt)))
      (note-IsPostable 1 2) bound_post refl (tt, (tt, tt)) (omega arith, (omega arith, tt)) refl
      (omega arith) second_post

abbrev later_calls : List (ℕ × BoardCall)
later_calls = (200000, lists) ∷ (200000, binds (block 16 4)) ∷ []

no_replay_example :
    (post (run (post bound_store (note 1 2) 10).0 later_calls) (note 1 5) 200001).1
    ≡ err (board_store_error duplicate_message)
no_replay_example =
    no_replay bound_store (note 1 2) 10 (accepted_note 1 2 10 []) (block 16 4) later_calls
      (note 1 5) 200001 (refl, (tt, (refl, tt))) bound_post refl refl (omega arith)

list_current_example :
    (rows : List MessageRow) × ((list_current (post new_store (note 1 2) 10).0 20).1
      ≡ ok (
        map record_of rows,
        map
            (λ r. r.message_id)
            (filter (λ r. leb r.expires_at 20) (post new_store (note 1 2) 10).0.messages),
      ))
    × IsOrdered rows
    × Perm rows (filter (λ r. ltb 20 r.expires_at) (post new_store (note 1 2) 10).0.messages)
list_current_example =
    list_current_lem (post new_store (note 1 2) 10).0 20
      (post-IsValid new_store (note 1 2) 10 new_store-IsValid (note-IsPostable 1 2))

-- A board that as many posts have filled, each at its own second.
abbrev filling : ℕ → List (ℕ × BoardCall)
filling zero = []
filling (suc n) = (suc n, posts (note n n)) ∷ filling n

filling-IsCall : (n : ℕ) → All IsCall (filling n)
filling-IsCall zero = tt
filling-IsCall (suc n) = (note-IsPostable n n, filling-IsCall n)

abbrev filled_board : BoardStore
filled_board = run new_store (filling 24)

all-IsEarlier :
    (t : ℕ) (rs : List MessageRow) → all (λ x. ltb x.created_at t) rs ≡ true → All (IsEarlier t) rs
unfolding all
all-IsEarlier t [] h = tt
all-IsEarlier t (x ∷ xs) h = ((λ _. ground (arith, h)), all-IsEarlier t xs (ground (arith, h)))

filled_board-earlier : all (λ x. ltb x.created_at 100) filled_board.messages ≡ true
unfolding post post_cleaned insert_or_refuse accept refuse insert_post new_row enforce_capacity
    cleanup_locked make_stored_board_record is_expired lookup insert retain has_message filter
    oldest order_by_age place is_before blob_le delete_message list_beq run step all
filled_board-earlier = refl

-- The post at 1 is the oldest, and is evicted.
next_post : (post filled_board (note 90 90) 100).1 ≡ ok (accepted_note 90 90 100 (block 16 0 ∷ []))
unfolding post post_cleaned insert_or_refuse accept refuse insert_post new_row enforce_capacity
    cleanup_locked make_stored_board_record is_expired lookup insert retain has_message filter
    oldest order_by_age place is_before blob_le delete_message list_beq run step
next_post = refl

accepted_is_stored_example :
    has_message (block 16 90) (post filled_board (note 90 90) 100).0.messages ≡ true
accepted_is_stored_example =
    accepted_is_stored filled_board (note 90 90) 100 (accepted_note 90 90 100 (block 16 0 ∷ []))
      (run-IsValid new_store (filling 24) new_store-IsValid (filling-IsCall 24)) next_post refl
      (all-IsEarlier 100 filled_board.messages filled_board-earlier)

-- A board full of messages that were posted at 100.
abbrev later_rows : ℕ → List MessageRow
later_rows zero = []
later_rows (suc n) =
    record {
      message_id = block 16 n;
      id_token = block 16 n;
      created_at = 100;
      expires_at = 86500;
      ciphertext = block 20 7;
    }
    ∷ later_rows n

later_rows-late : (n : ℕ) → All (λ x. 50 < x.created_at) (later_rows n)
later_rows-late zero = tt
later_rows-late (suc n) = (omega arith, later_rows-late n)

abbrev full_board : BoardStore
full_board = record {
  messages = later_rows 24;
  seen_ids = [];
  cooldowns = [];
  access_generation = none;
}

late_post : (post full_board (note 90 90) 50).1 ≡ ok (accepted_note 90 90 50 (block 16 90 ∷ []))
unfolding post post_cleaned insert_or_refuse accept refuse insert_post new_row enforce_capacity
    cleanup_locked make_stored_board_record is_expired lookup insert retain has_message filter
    oldest order_by_age place is_before blob_le delete_message list_beq
late_post = refl

full_after_cleanup : board_capacity ≤ length (cleanup_locked full_board 50).0.messages
unfolding post post_cleaned insert_or_refuse accept refuse insert_post new_row enforce_capacity
    cleanup_locked make_stored_board_record is_expired lookup insert retain has_message filter
    oldest order_by_age place is_before blob_le delete_message list_beq
full_after_cleanup = omega arith

nothing_removed : (cleanup_locked full_board 50).1 ≡ []
unfolding post post_cleaned insert_or_refuse accept refuse insert_post new_row enforce_capacity
    cleanup_locked make_stored_board_record is_expired lookup insert retain has_message filter
    oldest order_by_age place is_before blob_le delete_message list_beq
nothing_removed = refl

accepted_is_evicted_example :
    (has_message (block 16 90) (post full_board (note 90 90) 50).0.messages ≡ false)
    × ((block 16 90 ∷ []) ≡ (cleanup_locked full_board 50).1 ++ block 16 90 ∷ [])
accepted_is_evicted_example =
    accepted_is_evicted full_board (note 90 90) 50 (accepted_note 90 90 50 (block 16 90 ∷ []))
      late_post refl (later_rows-late 24) full_after_cleanup

abbrev seen_board : BoardStore
seen_board = record {
  messages = later_rows 1;
  seen_ids = (block 16 5, 3) ∷ [];
  cooldowns = [];
  access_generation = none;
}

five_seen : lookup (block 16 5) seen_board.seen_ids ≡ some 3
unfolding lookup list_beq
five_seen = refl

duplicate_forgets_removed_example :
    ((post seen_board (note 5 6) 90000).1 ≡ err (board_store_error duplicate_message))
    × (has_message (block 16 0) (post seen_board (note 5 6) 90000).0.messages ≡ false)
    × ((later : ℕ)
        → contains (block 16 0) (cleanup (post seen_board (note 5 6) 90000).0 later).1 ≡ false)
duplicate_forgets_removed_example =
    duplicate_forgets_removed seen_board (note 5 6) 90000 3 (block 16 0) (omega arith) five_seen
      ((λ _. omega arith), tt)

bind_new_generation_example :
    IsCleared (bind_access_generation full_board (block 16 4)).0
    × ((bind_access_generation full_board (block 16 4)).0.access_generation ≡ some (block 16 4))
bind_new_generation_example = bind_new_generation full_board (block 16 4) refl (λ h. cc)

bind_same_generation_example :
    bind_access_generation
      (record full_board { access_generation = some (block 16 4) })
      (block 16 4)
    ≡ (record full_board { access_generation = some (block 16 4) }, ok false)
bind_same_generation_example =
    bind_same_generation (record full_board { access_generation = some (block 16 4) }) (block 16 4)
      refl refl
