-- ===== src/Relay/RateLimiter/Window.antt =====
-- How many events a limiter without increasing delays lets through.
use the_grid.Prelude.{
  ℕ, ◌≤◌, ◌<◌, ◌≡◌, refl, Bool, false, List, [], ◌∷◌, ◌++◌, if◌then◌else◌, arith, inl, inr, ◌==◌,
  ℕ_eq, list_eq, Bool-cases, list_beq_iff, sym,
}
use mathlib.Core.Path.{subst}
use the_grid.Prelude.Dict.{lookup, lookup-remove_self}
use the_grid.Prelude.Result.{ok, value_error, raise_if-eq-ok}
use the_grid.Text.{Text}
use the_grid.Relay.RateLimiter.{
  WindowRateLimiter, bucket_of, block_of, retry_after, record_event, prune, new_limiter,
}
use the_grid.Relay.RateLimiter.Spacing.{get_elem?, IsSpaced}
use the_grid.Relay.RateLimiter.Tracking.{IsTracked, retry_after-IsTracked, prune-IsTracked}
use the_grid.Relay.RateLimiter.Recording.{record_event-IsTracked, other_event-IsTracked}

-- An attempt as `join_waiting_room` makes it, recorded if the key is not blocked, or the pruning of
-- the maintenance loop, each at its time.
pub data Event : Type 0 where
  attempt : ℕ → Text → Event
  maintenance : ℕ → Event

abbrev time_of : Event → ℕ
time_of (attempt t key) = t
time_of (maintenance t) = t

-- The limiter after an event, and whether the event is a recorded attempt of the key.
unfoldable pub step : Text → WindowRateLimiter → Event → WindowRateLimiter × Bool
unfolding retry_after record_event prune
step k l (attempt t key) =
    let (checked, retry) = retry_after l t key in
    if retry == 0 then ((record_event checked t key).0, key == k) else (checked, false)
step k l (maintenance t) = (prune l t, false)

-- The times of the recorded attempts of a key, behind those already seen.
unfoldable pub recorded : Text → WindowRateLimiter → List ℕ → List Event → List ℕ
unfolding step
recorded k l seen [] = seen
recorded k l seen (e ∷ events) =
    let (next, counts) = step k l e in
    recorded k next (if counts then seen ++ time_of e ∷ [] else seen) events

-- The clock does not go back.
abbrev pub IsOrdered : ℕ → List Event → Type 0
IsOrdered now [] = Unit
IsOrdered now (e ∷ events) = (now ≤ time_of e) × IsOrdered (time_of e) events

free_after :
    (j : Text) (t : ℕ) (l : WindowRateLimiter)
    → ((retry_after l t j).1 ≡ 0)
    → block_of (retry_after l t j).0 j ≤ t
unfolding retry_after block_of
free_after j t l h = ground (arith, lookup-remove_self j l.blocked_until)

-- The settings of a limiter stay.
record_event-settings :
    (l : WindowRateLimiter) (t : ℕ) (j : Text)
    → ((record_event l t j).0.limit ≡ l.limit) × ((record_event l t j).0.window ≡ l.window)
unfolding record_event retry_after
record_event-settings l t j = ground arith

step-settings :
    (k : Text) (l : WindowRateLimiter) (e : Event)
    → ((step k l e).0.limit ≡ l.limit) × ((step k l e).0.window ≡ l.window)
unfolding step retry_after prune
step-settings k l (attempt t j) = ground (arith, record_event-settings (retry_after l t j).0 t j)
step-settings k l (maintenance t) = (refl, refl)

retry_after-positive :
    (l : WindowRateLimiter) (t : ℕ) (j : Text) → 0 < l.limit → 0 < (retry_after l t j).0.limit
unfolding retry_after
retry_after-positive l t j h = ground arith

attempt-IsTracked :
    (k j : Text) (t : ℕ) (l : WindowRateLimiter) (seen : List ℕ)
    → IsTracked k t l seen
    → 0 < l.limit
    → block_of l j ≤ t
    → IsTracked k t (record_event l t j).0 (if j == k then seen ++ t ∷ [] else seen)
attempt-IsTracked k j t l seen h positive free = elim (Bool-cases (j == k)) [
  | inr other ↦ rw other (other_event-IsTracked k j t t l seen h (omega arith) other)
  | inl same ↦
      let path : j ≡ k = (list_beq_iff j k).0 same in
      rw same (
        subst (λ x. IsTracked k t (record_event l t x).0 (seen ++ t ∷ [])) (sym path)
          (record_event-IsTracked k t t l seen h (omega arith) positive
            (subst (λ x. block_of l x ≤ t) path free)))
]

step-IsTracked :
    (k : Text) (now : ℕ) (l : WindowRateLimiter) (seen : List ℕ) (e : Event)
    → IsTracked k now l seen
    → now ≤ time_of e
    → 0 < l.limit
    → IsTracked k
        (time_of e)
        (step k l e).0
        (if (step k l e).1 then seen ++ time_of e ∷ [] else seen)
unfolding step
step-IsTracked k now l seen (maintenance t) h later positive =
    prune-IsTracked k now t l seen h later positive
step-IsTracked k now l seen (attempt t j) h later positive =
    let m = retry_after l t j in
    let waited = retry_after-IsTracked k j now t l seen h later in
    elim (Bool-cases (m.1 == 0)) [
      | inr blocked ↦ rw blocked waited
      | inl free ↦ rw free (
          attempt-IsTracked k j t m.0 seen waited (retry_after-positive l t j positive)
            (free_after j t l (ground (arith, free))))
    ]

tracked-IsSpaced :
    (k : Text) (now : ℕ) (l : WindowRateLimiter) (seen : List ℕ) (events : List Event)
    → IsTracked k now l seen
    → 0 < l.limit
    → IsOrdered now events
    → IsSpaced l.limit l.window (recorded k l seen events)
unfolding recorded
tracked-IsSpaced k now l seen [] h positive ordered = h.spaced
tracked-IsSpaced k now l seen (e ∷ events) h positive ordered =
    let (limit, window) = step-settings k l e in
    let next = step-IsTracked k now l seen e h ordered.0 positive in
    let rest =
      tracked-IsSpaced k (time_of e) (step k l e).0 _ events next (rw limit positive) ordered.1 in
    subst (λ w. IsSpaced l.limit w (recorded k l seen (e ∷ events))) window
      (subst (λ n. IsSpaced n (step k l e).0.window (recorded k l seen (e ∷ events))) limit rest)

new-IsTracked :
    (k : Text) (l : WindowRateLimiter)
    → l.increasing_delay ≡ false
    → l.events ≡ []
    → l.blocked_until ≡ []
    → IsTracked k 0 l []
unfolding bucket_of get_elem? lookup
new-IsTracked k l plain none_yet no_blocks = record {
  plain = plain;
  unique = rw none_yet tt;
  unique_blocks = rw no_blocks tt;
  old = [];
  split = rw none_yet refl;
  aged = tt;
  fits = rw none_yet (omega arith);
  full = λ t rest e n. ground (arith, e, none_yet);
  spaced = λ i a b p q. cc;
}

-- However the attempts and the maintenance are ordered, no more than `limit` attempts of one key
-- are recorded within any window: of `limit + 1` of them in a row the last comes at least a window
-- after the first. The limiter is new, does not increase its delays, and the clock does not go
-- back.
pub recorded-IsSpaced :
    (limit window : ℕ) (l : WindowRateLimiter) (k : Text) (events : List Event)
    → new_limiter limit window false ≡ ok l
    → IsOrdered 0 events
    → IsSpaced limit window (recorded k l [] events)
unfolding new_limiter
recorded-IsSpaced limit window l k events h ordered =
    let (some_limit, h₁) = raise_if-eq-ok (limit == 0) value_error _ h in
    let (some_window, h₂) = raise_if-eq-ok (window == 0) value_error _ h₁ in
    let l₀ : WindowRateLimiter = record {
      limit = limit;
      window = window;
      increasing_delay = false;
      events = [];
      blocked_until = [];
    } in
    let same : l₀ ≡ l = ground (arith, h₂) in
    subst (λ m. IsSpaced limit window (recorded k m [] events)) same
      (tracked-IsSpaced k 0 l₀ [] events (new-IsTracked k l₀ refl refl refl)
        (ground (arith, some_limit)) ordered)
