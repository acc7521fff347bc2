-- ===== src/Relay/RateLimiter/Backoff.antt =====
-- The delays of a limiter whose delays increase.
use the_grid.Prelude.{
  ℕ, zero, suc, ◌+◌, ◌-◌, ◌*◌, ◌/◌, ◌^◌, ◌≤◌, ◌<◌, ◌≡◌, true, List, [], ◌∷◌, ◌++◌, length, min, max,
  ltb, if◌then◌else◌, ◌↔◌, arith, length-append, ℕ_eq, list_eq,
}
use the_grid.Prelude.Dict.{lookup-insert_self}
use the_grid.Prelude.Result.{ok}
use the_grid.Text.{Text}
use the_grid.Relay.RateLimiter.{
  WindowRateLimiter, bucket_of, block_of, retry_after, drop_old, delay_of, overflows, record_event,
}

-- The events that count at `now`, a new one included.
abbrev pub count_at : WindowRateLimiter → ℕ → Text → ℕ
count_at l now key = length (drop_old l.window now (bucket_of l key)) + 1

-- The delay in seconds at that count.
abbrev pub penalty : WindowRateLimiter → ℕ → Text → ℕ
penalty l now key =
    if ltb (count_at l now key) l.limit then 0 else min 60 (2 ^ (count_at l now key - l.limit))

delay_of_increasing :
    (l : WindowRateLimiter) (now t : ℕ) (bucket : List ℕ)
    → l.increasing_delay ≡ true
    → delay_of l now (bucket ++ t ∷ []) ≡ min 60000 (1000 * 2 ^ (length bucket + 1 - l.limit))
unfolding delay_of
delay_of_increasing l now t [] h = ground (arith, h)
delay_of_increasing l now t (x ∷ bucket) h = ground (arith, h, length-append bucket (t ∷ []))

whole_seconds :
    (p now blocked : ℕ)
    → 1 ≤ p
    → blocked ≤ now
    → max 1 ((max blocked (now + min 60000 (1000 * p)) - now + 999) / 1000) ≡ min 60 p
whole_seconds p now blocked h i = ground arith

two_pow_pos : (n : ℕ) → 1 ≤ 2 ^ n
two_pow_pos zero = omega arith
two_pow_pos (suc n) = omega (arith, two_pow_pos n)

-- With increasing delays, over a key that is not blocked and with fewer than 1024 events above the
-- limit, recording a failure answers with its penalty in seconds: none below the limit, then 1, 2, 4
-- and so on up to 60. The key stays blocked for exactly that long.
pub record_event-penalty :
    (l : WindowRateLimiter) (now later : ℕ) (key : Text)
    → l.increasing_delay ≡ true
    → block_of l key ≤ now
    → now ≤ later
    → count_at l now key < l.limit + 1024
    → ((record_event l now key).1 ≡ ok (penalty l now key))
      × (((retry_after (record_event l now key).0 later key).1 ≡ 0)
          ↔ (now + penalty l now key * 1000 ≤ later))
unfolding record_event retry_after block_of overflows
record_event-penalty l now later key increasing free after few =
    let old = drop_old l.window now (bucket_of l key) in
    let power = 2 ^ (length old + 1 - l.limit) in
    let delay : delay_of l now (old ++ now ∷ []) ≡ min 60000 (1000 * power) =
      delay_of_increasing l now now old increasing in
    let size : length (old ++ now ∷ []) ≡ length old + 1 = length-append old (now ∷ []) in
    let blocked = max (block_of l key) (now + delay_of l now (old ++ now ∷ [])) in
    let found = lookup-insert_self key blocked l.blocked_until in
    ground (
      arith,
      found,
      size,
      delay,
      free,
      after,
      few,
      whole_seconds power now (block_of l key) (two_pow_pos (length old + 1 - l.limit)) free,
      two_pow_pos (length old + 1 - l.limit),
    )
