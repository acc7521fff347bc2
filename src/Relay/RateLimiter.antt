-- ===== src/Relay/RateLimiter.antt =====
-- `_WindowRateLimiter` of relay.py. A time is a number of milliseconds and an argument, where the
-- source calls its clock; the results are in seconds, as there.
pub mod Spacing
mod Tracking
mod Recording
pub mod Window
pub mod Backoff
use the_grid.Prelude.{
  ℕ, ◌+◌, ◌-◌, ◌*◌, ◌/◌, ◌^◌, Bool, ◌&&◌, Option, none, some, List, [], ◌∷◌, ◌++◌, length, ltb, leb,
  ◌==◌, ℕ_eq, list_eq, if◌then◌else◌, max, min, not,
}
use the_grid.Prelude.Dict.{lookup, insert, remove, retain}
use the_grid.Prelude.Result.{Result, ok, err, overflow_error, value_error, raise_if, ◌>>◌}
use the_grid.Text.{Text}

pub record WindowRateLimiter : Type 0 where
  pub limit : ℕ
  pub window : ℕ
  pub increasing_delay : Bool
  pub events : List (Text × List ℕ)
  pub blocked_until : List (Text × ℕ)

-- `__init__`
unfoldable pub new_limiter : ℕ → ℕ → Bool → Result WindowRateLimiter
new_limiter limit window increasing_delay = do
  raise_if (limit == 0) value_error
  raise_if (window == 0) value_error
  ok (record {
    limit = limit;
    window = window;
    increasing_delay = increasing_delay;
    events = [];
    blocked_until = [];
  })

-- `self._events[key]` of a defaultdict, and `self._blocked_until.get(key, 0.0)`
unfoldable pub bucket_of : WindowRateLimiter → Text → List ℕ
unfolding lookup
bucket_of l key = elim (lookup key l.events) [ none ↦ [] | some bucket ↦ bucket ]

unfoldable pub block_of : WindowRateLimiter → Text → ℕ
unfolding lookup
block_of l key = elim (lookup key l.blocked_until) [ none ↦ 0 | some blocked ↦ blocked ]

unfoldable pub retry_after : WindowRateLimiter → ℕ → Text → WindowRateLimiter × ℕ
unfolding block_of remove
retry_after l now key =
    let blocked = block_of l key in
    if leb blocked now
    then (record l { blocked_until = remove key l.blocked_until }, 0)
    else (l, max 1 ((blocked - now + 999) / 1000))

-- `while bucket and bucket[0] <= cutoff: bucket.popleft()`, the cutoff being `now - window`.
unfoldable pub drop_old : ℕ → ℕ → List ℕ → List ℕ
drop_old window now [] = []
drop_old window now (t ∷ bucket) =
    let rest = drop_old window now bucket in if leb (t + window) now then rest else t ∷ bucket

-- `float(2 ** excess)` raises OverflowError from `excess` 1024 on.
unfoldable pub overflows : WindowRateLimiter → List ℕ → Bool
overflows l bucket = l.increasing_delay && leb 1024 (length bucket - l.limit)

-- The delay for a bucket that has reached the limit, if nothing overflows.
unfoldable pub delay_of : WindowRateLimiter → ℕ → List ℕ → ℕ
delay_of l now [] = 1000
delay_of l now (oldest ∷ bucket) =
    if l.increasing_delay
    then min 60000 (1000 * 2 ^ (length (oldest ∷ bucket) - l.limit))
    else max 1000 (l.window + oldest - now)

-- What `record` returns or raises. The event is kept even when the delay overflows.
unfoldable pub record_event : WindowRateLimiter → ℕ → Text → WindowRateLimiter × Result ℕ
unfolding bucket_of block_of drop_old overflows delay_of insert retry_after
record_event l now key =
    let bucket = drop_old l.window now (bucket_of l key) ++ now ∷ [] in
    let counted = record l { events = insert key bucket l.events } in
    if ltb (length bucket) l.limit
    then (counted, ok 0)
    else if overflows l bucket
    then (counted, err overflow_error)
    else let (blocked, retry) =
        retry_after
          (record counted {
            blocked_until =
                insert key (max (block_of l key) (now + delay_of l now bucket)) l.blocked_until;
          })
          now key in
      (blocked, ok retry)

unfoldable pub clear : WindowRateLimiter → Text → WindowRateLimiter
unfolding remove
clear l key = record l { events = remove key l.events; blocked_until = remove key l.blocked_until }

-- The first loop of `prune`.
unfoldable pub prune_events : ℕ → ℕ → List (Text × List ℕ) → List (Text × List ℕ)
unfolding drop_old
prune_events window now [] = []
prune_events window now ((key, bucket) ∷ events) =
    let rest = prune_events window now events in
    elim (drop_old window now bucket) [ [] ↦ rest | t ∷ kept ↦ (key, t ∷ kept) ∷ rest ]

unfoldable pub prune : WindowRateLimiter → ℕ → WindowRateLimiter
unfolding prune_events retain
prune l now = record l {
  events = prune_events l.window now l.events;
  blocked_until = retain (λ _ blocked. not (leb blocked now)) l.blocked_until;
}
