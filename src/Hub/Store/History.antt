-- ===== src/Hub/Store/History.antt =====
-- Any sequence of calls of a `BoardStore`, each with its own time, in whatever order the clock gave
-- them.
use the_grid.Prelude.{
  ℕ, ◌+◌, ◌≤◌, ◌<◌, ◌≡◌, true, false, none, some, List, [], ◌∷◌, length, All, arith, list_eq, ℕ_eq,
  if◌then◌else◌, ◌==◌, list_beq_iff, Bool, refl, sym, ap, ◌∙◌,
}
use the_grid.Prelude.Dict.{lookup, lookup-insert, lookup-append}
use the_grid.Prelude.Result.{Result, ok, err, board_store_error, duplicate_message}
use the_grid.Bytes.{Bytes, require_bytes}
use the_grid.Hub.Store.Rows.{CooldownRow, has_message}
use the_grid.Hub.Store.Generation.{bind_kept_generation}
use the_grid.Hub.Store.Invariant.{IsValid, cleanup_locked-IsValid}
use the_grid.Hub.Store.Posting.{
  IsPostable, post-IsValid, post-expected_reply, expected_reply, reply_of, lookup-cleanup_locked,
  seen_ids-cleanup_locked,
}
use the_grid.Hub.Store.{
  BoardStore, EncryptedBoardRecord, BoardPostResult, board_cooldown_seconds, cleanup_locked,
  cleanup, list_current, post, insert_post, enforce_capacity, max_board_ciphertext_bytes,
  bind_access_generation, bind_checked, rebind, generation_changed,
}

pub data BoardCall : Type 0 where
  posts : EncryptedBoardRecord → BoardCall
  cleans lists : BoardCall
  binds : Bytes → BoardCall

unfoldable pub step : BoardStore → ℕ × BoardCall → BoardStore
unfolding cleanup list_current bind_access_generation
step s (timestamp, posts r) = (post s r timestamp).0
step s (timestamp, cleans) = (cleanup s timestamp).0
step s (timestamp, lists) = (list_current s timestamp).0
step s (timestamp, binds generation) = (bind_access_generation s generation).0

unfoldable pub run : BoardStore → List (ℕ × BoardCall) → BoardStore
run s [] = s
run s (c ∷ cs) = run (step s c) cs

abbrev pub IsCall : ℕ × BoardCall → Type 0
IsCall (timestamp, posts r) = IsPostable r
IsCall (timestamp, cleans) = Unit
IsCall (timestamp, lists) = Unit
IsCall (timestamp, binds generation) = Unit

rebind-IsValid :
    (s : BoardStore) (g : Bytes) (changed : Bool) → IsValid s → IsValid (rebind s g changed)
unfolding rebind has_message
rebind-IsValid s g true v = record {
  unique_ids = tt;
  unique_tokens = tt;
  seen = λ i h. refl;
  rows = tt;
  bounded = omega arith;
}
rebind-IsValid s g false v = record {
  unique_ids = v.unique_ids;
  unique_tokens = v.unique_tokens;
  seen = v.seen;
  rows = v.rows;
  bounded = v.bounded;
}

checked-IsValid : (s : BoardStore) (r : Result Bytes) → IsValid s → IsValid (bind_checked s r).0
unfolding bind_checked
checked-IsValid s (err e) v = v
checked-IsValid s (ok g) v = rebind-IsValid s g (generation_changed s g s.access_generation) v

bind-IsValid : (s : BoardStore) (g : Bytes) → IsValid s → IsValid (bind_access_generation s g).0
unfolding bind_access_generation
bind-IsValid s g v = checked-IsValid s (require_bytes g (some 16)) v

step-IsValid : (s : BoardStore) (c : ℕ × BoardCall) → IsValid s → IsCall c → IsValid (step s c)
unfolding step
step-IsValid s (timestamp, posts r) v w = post-IsValid s r timestamp v w
step-IsValid s (timestamp, cleans) v w = cleanup_locked-IsValid s timestamp v
step-IsValid s (timestamp, lists) v w = cleanup_locked-IsValid s timestamp v
step-IsValid s (timestamp, binds generation) v w = bind-IsValid s generation v

-- A valid board stays valid through all calls of `post` with a record of valid form, `cleanup`,
-- `list_current` and `bind_access_generation`, in whatever order and at whatever times.
pub run-IsValid :
    (s : BoardStore) (cs : List (ℕ × BoardCall)) → IsValid s → All IsCall cs → IsValid (run s cs)
unfolding run
run-IsValid s [] v w = v
run-IsValid s (c ∷ cs) v w = run-IsValid (step s c) cs (step-IsValid s c v w.0) w.1

-- What the inserts and the eviction leave of the other tables.
module _ (s : BoardStore) (r : EncryptedBoardRecord) (timestamp : ℕ) (removed : List Bytes) where
  lookup-insert_post :
      (token : Bytes)
      → lookup token (enforce_capacity (insert_post s r timestamp) removed).0.cooldowns ≡ (
          if r.display_token == token
          then some (record {
            last_post_at = timestamp;
            next_post_at = timestamp + board_cooldown_seconds;
          })
          else lookup token s.cooldowns)
  unfolding enforce_capacity insert_post
  lookup-insert_post token = ground (
    arith,
    lookup-insert r.display_token token
        (record { last_post_at = timestamp; next_post_at = timestamp + board_cooldown_seconds })
        s.cooldowns,
  )

  generation-insert_post :
      (enforce_capacity (insert_post s r timestamp) removed).0.access_generation
      ≡ s.access_generation
  unfolding enforce_capacity insert_post
  generation-insert_post = ground arith

  seen_ids-insert_post :
      (i : Bytes)
      → lookup i (enforce_capacity (insert_post s r timestamp) removed).0.seen_ids
        ≡ elim (lookup i s.seen_ids) [
          | some t ↦ some t
          | none ↦ if r.message_id == i then some timestamp else none
        ]
  unfolding enforce_capacity insert_post
  seen_ids-insert_post i = ground (arith, lookup-append r.message_id i timestamp s.seen_ids)

-- A call that binds the board binds it to this generation.
abbrev pub Keeps : Bytes → ℕ × BoardCall → Type 0
Keeps g (timestamp, binds generation) = generation ≡ g
Keeps g _ = Unit

-- Such calls leave the board bound to the generation.
step-generation :
    (s : BoardStore) (c : ℕ × BoardCall) (g : Bytes)
    → s.access_generation ≡ some g
    → Keeps g c
    → (step s c).access_generation ≡ some g
unfolding step post cleanup_locked
step-generation s (timestamp, posts r) g h k = ground (
  arith,
  h,
  generation-insert_post (cleanup_locked s timestamp).0 r timestamp (cleanup_locked s timestamp).1,
)
step-generation s (timestamp, cleans) g h k = h
step-generation s (timestamp, lists) g h k = h
step-generation s (timestamp, binds generation) g h k =
    rw (bind_kept_generation s generation (h ∙ ap some (sym k))) h

-- The board is bound to `g`, and no call of the list binds it to another generation.
abbrev pub KeepsAll : Bytes → BoardStore → List (ℕ × BoardCall) → Type 0
KeepsAll g s cs = (s.access_generation ≡ some g) × All (Keeps g) cs

-- A cooldown that runs is kept by every call before its end, a refused post of its own included.
step-cooldown :
    (s : BoardStore) (c : ℕ × BoardCall) (g token : Bytes) (row : CooldownRow)
    → IsValid s
    → s.access_generation ≡ some g
    → Keeps g c
    → lookup token s.cooldowns ≡ some row
    → c.0 < row.next_post_at
    → lookup token (step s c).cooldowns ≡ some row
unfolding step post
step-cooldown s (timestamp, posts r) g token row v bound k h early = ground (
  arith,
  lookup-cleanup_locked s timestamp token v,
  lookup-insert_post (cleanup_locked s timestamp).0 r timestamp (cleanup_locked s timestamp).1
      token,
  list_beq_iff r.display_token token,
)
step-cooldown s (timestamp, binds generation) g token row v bound k h early =
    rw (bind_kept_generation s generation (bound ∙ ap some (sym k))) h
step-cooldown s (timestamp, cleans) g token row v bound k h early =
    ground (arith, lookup-cleanup_locked s timestamp token v)
step-cooldown s (timestamp, lists) g token row v bound k h early =
    ground (arith, lookup-cleanup_locked s timestamp token v)

abbrev pub IsBefore : ℕ → ℕ × BoardCall → Type 0
IsBefore end c = c.0 < end

run-cooldown :
    (s : BoardStore) (cs : List (ℕ × BoardCall)) (g token : Bytes) (row : CooldownRow)
    → IsValid s
    → KeepsAll g s cs
    → All IsCall cs
    → All (IsBefore row.next_post_at) cs
    → lookup token s.cooldowns ≡ some row
    → lookup token (run s cs).cooldowns ≡ some row
unfolding run
run-cooldown s [] g token row v k w early h = h
run-cooldown s (c ∷ cs) g token row v (bound, k) w early h =
    run-cooldown (step s c) cs g token row (step-IsValid s c v w.0)
      (step-generation s c g bound k.0, k.1) w.1 early.1
      (step-cooldown s c g token row v bound k.0 h early.0)

posted-bound :
    (s : BoardStore) (r : EncryptedBoardRecord) (t : ℕ) (g : Bytes)
    → s.access_generation ≡ some g
    → (post s r t).0.access_generation ≡ some g
posted-bound s r t g bound = unfold step in step-generation s (t, posts r) g bound tt

-- An accepted post starts its cooldown.
post-cooldown :
    (s : BoardStore) (r : EncryptedBoardRecord) (timestamp : ℕ) (p : BoardPostResult)
    → (post s r timestamp).1 ≡ ok p
    → p.accepted ≡ true
    → lookup r.display_token (post s r timestamp).0.cooldowns
      ≡ some
          (record { last_post_at = timestamp; next_post_at = timestamp + board_cooldown_seconds })
unfolding post
post-cooldown s r timestamp p h accepted = ground (
  arith,
  lookup-insert_post (cleanup_locked s timestamp).0 r timestamp (cleanup_locked s timestamp).1
      r.display_token,
  list_beq_iff r.display_token r.display_token,
)

-- On a valid board that is bound to an access generation, let a post of a record of valid form be
-- accepted at `t`. Through whatever calls follow before `t + 86400`, with posts of valid form and no
-- binding to another generation, no post under the same display token is accepted before
-- `t + 86400`: one that is answered at all is told that time.
pub one_post_per_cooldown :
    (s : BoardStore) (r : EncryptedBoardRecord) (t : ℕ) (p : BoardPostResult) (g : Bytes)
    (cs : List (ℕ × BoardCall)) (r' : EncryptedBoardRecord) (t' : ℕ) (p' : BoardPostResult)
    → IsValid s
    → KeepsAll g s cs
    → IsPostable r
    → (post s r t).1 ≡ ok p
    → p.accepted ≡ true
    → All IsCall cs
    → All (IsBefore (t + board_cooldown_seconds)) cs
    → r'.display_token ≡ r.display_token
    → t' < t + board_cooldown_seconds
    → (post (run (post s r t).0 cs) r' t').1 ≡ ok p'
    → (p'.accepted ≡ false) × (p'.next_post_at ≡ some (t + board_cooldown_seconds))
unfolding expected_reply reply_of
one_post_per_cooldown s r t p g cs r' t' p' v (bound, k) w h accepted calls early same before h' =
    let v₁ = post-IsValid s r t v w in
    let kept =
      run-cooldown (post s r t).0 cs g r.display_token _ v₁ (posted-bound s r t g bound, k) calls
        early (post-cooldown s r t p h accepted) in
    ground (
      arith,
      kept,
      post-expected_reply (run (post s r t).0 cs) r' t' (run-IsValid (post s r t).0 cs v₁ calls),
    )

-- An id that was seen once stays seen.
step-seen :
    (s : BoardStore) (c : ℕ × BoardCall) (g i : Bytes) (t : ℕ)
    → s.access_generation ≡ some g
    → Keeps g c
    → lookup i s.seen_ids ≡ some t
    → lookup i (step s c).seen_ids ≡ some t
unfolding step post
step-seen s (timestamp, posts r) g i t bound k h = ground (
  arith,
  seen_ids-cleanup_locked s timestamp,
  seen_ids-insert_post (cleanup_locked s timestamp).0 r timestamp (cleanup_locked s timestamp).1 i,
)
step-seen s (timestamp, binds generation) g i t bound k h =
    rw (bind_kept_generation s generation (bound ∙ ap some (sym k))) h
step-seen s (timestamp, cleans) g i t bound k h =
    ground (arith, seen_ids-cleanup_locked s timestamp)
step-seen s (timestamp, lists) g i t bound k h = ground (arith, seen_ids-cleanup_locked s timestamp)

run-seen :
    (s : BoardStore) (cs : List (ℕ × BoardCall)) (g i : Bytes) (t : ℕ)
    → KeepsAll g s cs
    → lookup i s.seen_ids ≡ some t
    → lookup i (run s cs).seen_ids ≡ some t
unfolding run
run-seen s [] g i t k h = h
run-seen s (c ∷ cs) g i t (bound, k) h =
    run-seen (step s c) cs g i t (step-generation s c g bound k.0, k.1)
      (step-seen s c g i t bound k.0 h)

-- An accepted post records its id as seen.
post-seen :
    (s : BoardStore) (r : EncryptedBoardRecord) (timestamp : ℕ) (p : BoardPostResult)
    → (post s r timestamp).1 ≡ ok p
    → p.accepted ≡ true
    → lookup r.message_id (post s r timestamp).0.seen_ids ≡ some timestamp
unfolding post
post-seen s r timestamp p h accepted = ground (
  arith,
  seen_ids-cleanup_locked s timestamp,
  seen_ids-insert_post (cleanup_locked s timestamp).0 r timestamp (cleanup_locked s timestamp).1
      r.message_id,
  list_beq_iff r.message_id r.message_id,
)

-- On a board that is bound to an access generation, after an accepted post, through whatever calls
-- and at whatever times, but no binding to another generation, a post with the same message id and
-- a ciphertext of at most 8192 bytes is refused as a duplicate, even once the message and its
-- cooldown are gone.
pub no_replay :
    (s : BoardStore) (r : EncryptedBoardRecord) (t : ℕ) (p : BoardPostResult) (g : Bytes)
    (cs : List (ℕ × BoardCall)) (r' : EncryptedBoardRecord) (t' : ℕ)
    → KeepsAll g s cs
    → (post s r t).1 ≡ ok p
    → p.accepted ≡ true
    → r'.message_id ≡ r.message_id
    → length r'.ciphertext ≤ max_board_ciphertext_bytes
    → (post (run (post s r t).0 cs) r' t').1 ≡ err (board_store_error duplicate_message)
unfolding post
no_replay s r t p g cs r' t' (bound, k) h accepted same short =
    let kept =
      run-seen (post s r t).0 cs g r.message_id t (posted-bound s r t g bound, k)
        (post-seen s r t p h accepted) in
    ground (arith, kept, seen_ids-cleanup_locked (run (post s r t).0 cs) t')
