-- ===== src/Relay/RateLimiter/Recording.antt =====
-- What a limiter knows of the recorded times of one key, when one is added.
use the_grid.Prelude.{
  ℕ, ◌+◌, ◌≤◌, ◌<◌, ◌≡◌, refl, false, none, some, List, [], ◌∷◌, ◌++◌, length, max, ltb, arith, inl,
  inr, length-append, All-append, ◌==◌, ℕ_eq, list_eq, Bool-cases, ap, sym, ◌∙◌,
}
use mathlib.Core.Path.{subst}
use mathlib.Core.List.{append_assoc}
use the_grid.Prelude.Dict.{
  lookup, insert, lookup-insert, lookup-insert_self, HasUniqueKeys, insert-HasUniqueKeys,
}
use the_grid.Text.{Text}
use the_grid.Relay.RateLimiter.{
  WindowRateLimiter, bucket_of, block_of, drop_old, overflows, delay_of, record_event,
}
use the_grid.Relay.RateLimiter.Spacing.{
  IsSpaced, drop_old-split, All-later, full_bucket, IsSpaced-append,
}
use the_grid.Relay.RateLimiter.Tracking.{IsTracked, wait-IsTracked, retry_after-IsTracked}

pub block_in : Text → List (Text × ℕ) → ℕ
block_in k blocks = elim (lookup k blocks) [ none ↦ 0 | some blocked ↦ blocked ]

pub counted_bucket :
    (k : Text) (bucket : List ℕ) (l : WindowRateLimiter) (blocks : List (Text × ℕ))
    → bucket_of (record l { events = insert k bucket l.events; blocked_until = blocks }) k ≡ bucket
unfolding bucket_of
counted_bucket k bucket l blocks = ground (arith, lookup-insert_self k bucket l.events)

-- The key's bucket gets a new time, with the blocks that `record` then keeps.
pub counted-IsTracked :
    (k : Text) (now t : ℕ) (l : WindowRateLimiter) (seen : List ℕ) (blocks : List (Text × ℕ))
    → IsTracked k now l seen
    → now ≤ t
    → 0 < l.limit
    → block_of l k ≤ t
    → HasUniqueKeys blocks
    → ((x : ℕ) (rest : List ℕ)
        → drop_old l.window t (bucket_of l k) ++ t ∷ [] ≡ x ∷ rest
        → length (drop_old l.window t (bucket_of l k) ++ t ∷ []) ≡ l.limit
        → x + l.window ≤ max t (block_in k blocks))
    → IsTracked k t
        (record l {
          events = insert k (drop_old l.window t (bucket_of l k) ++ t ∷ []) l.events;
          blocked_until = blocks;
        })
        (seen ++ t ∷ [])
unfolding bucket_of block_of block_in
counted-IsTracked k now t l seen blocks h later positive free unique block =
    let bucket = bucket_of l k in
    let kept = drop_old l.window t bucket in
    let (gone, same, aged, young) = drop_old-split l.window t bucket in
    let short =
      full_bucket l.window t l.limit (block_of l k) bucket gone kept same h.fits free positive
        (λ x rest e n. omega (arith, h.full x rest e n, later)) young in
    let found = counted_bucket k (kept ++ t ∷ []) l blocks in
    let all_old =
      All-append (λ x. x + l.window ≤ t) h.old gone (All-later l.window now t h.old later h.aged)
        aged in
    let parts : seen ≡ (h.old ++ gone) ++ kept =
      h.split ∙ ap (◌++◌ h.old) same ∙ sym (append_assoc h.old gone kept) in
    record {
      plain = h.plain;
      unique = insert-HasUniqueKeys k (kept ++ t ∷ []) l.events h.unique;
      unique_blocks = unique;
      old = h.old ++ gone;
      split = rw found (ap (λ s. s ++ t ∷ []) parts ∙ append_assoc (h.old ++ gone) kept (t ∷ []));
      aged = all_old;
      fits = rw found (omega (arith, short, length-append kept (t ∷ [])));
      full = λ x rest e n. block x rest (sym found ∙ e) (ap length (sym found) ∙ n);
      spaced = rw parts (
          IsSpaced-append l.limit l.window t (h.old ++ gone) kept
            (subst (IsSpaced l.limit l.window) parts h.spaced) all_old short);
    }

overflows_not :
    (l : WindowRateLimiter) (bucket : List ℕ)
    → l.increasing_delay ≡ false
    → overflows l bucket ≡ false
unfolding overflows
overflows_not l bucket plain = ground (arith, plain)

pub plain_delay :
    (l : WindowRateLimiter) (t : ℕ) (bucket : List ℕ) (x : ℕ) (rest : List ℕ)
    → l.increasing_delay ≡ false
    → bucket ≡ x ∷ rest
    → x + l.window ≤ t + delay_of l t bucket
unfolding delay_of
plain_delay l t bucket x rest plain e = rw e (ground (arith, plain))

pub full_block :
    (k : Text) (t : ℕ) (l : WindowRateLimiter) (bucket : List ℕ) (x : ℕ) (rest : List ℕ)
    → l.increasing_delay ≡ false
    → bucket ≡ x ∷ rest
    → x + l.window
      ≤ max t (block_in k (insert k (max (block_of l k) (t + delay_of l t bucket)) l.blocked_until))
unfolding block_in
full_block k t l bucket x rest plain e =
    let block = max (block_of l k) (t + delay_of l t bucket) in
    ground
      (arith, lookup-insert_self k block l.blocked_until, plain_delay l t bucket x rest plain e)

pub record_event-IsTracked :
    (k : Text) (now t : ℕ) (l : WindowRateLimiter) (seen : List ℕ)
    → IsTracked k now l seen
    → now ≤ t
    → 0 < l.limit
    → block_of l k ≤ t
    → IsTracked k t (record_event l t k).0 (seen ++ t ∷ [])
unfolding record_event block_in bucket_of block_of
record_event-IsTracked k now t l seen h later positive free =
    let bucket = drop_old l.window t (bucket_of l k) ++ t ∷ [] in
    let blocks = insert k (max (block_of l k) (t + delay_of l t bucket)) l.blocked_until in
    elim (Bool-cases (ltb (length bucket) l.limit)) [
      | inl short ↦ rw short (
          counted-IsTracked k now t l seen l.blocked_until h later positive free h.unique_blocks
            (λ x rest e n. absurd (ground (arith, short, n))))
      | inr full ↦
          rw (full, overflows_not l bucket h.plain)
            (retry_after-IsTracked k k t t
              (record l { events = insert k bucket l.events; blocked_until = blocks })
              (seen ++ t ∷ [])
              (counted-IsTracked k now t l seen blocks h later positive free
                (insert-HasUniqueKeys k (max (block_of l k) (t + delay_of l t bucket))
                  l.blocked_until h.unique_blocks)
                (λ x rest e n. full_block k t l bucket x rest h.plain e))
              (omega arith))
    ]

pub other_event-IsTracked :
    (k j : Text) (now t : ℕ) (l : WindowRateLimiter) (seen : List ℕ)
    → IsTracked k now l seen
    → now ≤ t
    → (j == k) ≡ false
    → IsTracked k t (record_event l t j).0 seen
unfolding record_event bucket_of block_of
other_event-IsTracked k j now t l seen h later other =
    let bucket = drop_old l.window t (bucket_of l j) ++ t ∷ [] in
    let block = max (block_of l j) (t + delay_of l t bucket) in
    let unique = insert-HasUniqueKeys j bucket l.events h.unique in
    let same = lookup-insert j k bucket l.events in
    elim (Bool-cases (ltb (length bucket) l.limit)) [
      | inl short ↦ rw short (
          wait-IsTracked k now t l seen (insert j bucket l.events) l.blocked_until h later unique
            h.unique_blocks (ground (arith, same, other)) refl)
      | inr full ↦
          rw (full, overflows_not l bucket h.plain)
            (retry_after-IsTracked k j t t
              (record l {
                events = insert j bucket l.events;
                blocked_until = insert j block l.blocked_until;
              })
              seen
              (wait-IsTracked k now t l seen (insert j bucket l.events)
                (insert j block l.blocked_until) h later unique
                (insert-HasUniqueKeys j block l.blocked_until h.unique_blocks)
                (ground (arith, same, other))
                (ground (arith, lookup-insert j k block l.blocked_until, other)))
              (omega arith))
    ]
