-- ===== src/Relay/RateLimiter/Tracking.antt =====
-- What a limiter knows of the recorded times of one key, while they only age.
use the_grid.Prelude.{
  ℕ, ◌+◌, ◌≤◌, ◌<◌, ◌≡◌, refl, false, not, none, some, List, [], ◌∷◌, ◌++◌, length, All, max, leb,
  arith, inl, inr, length-append, All-append, ℕ_eq, list_eq, Bool-cases, list_beq_iff, ap, sym, ◌∙◌,
}
use mathlib.Core.List.{append_assoc}
use the_grid.Prelude.Dict.{
  lookup, lookup-remove, HasUniqueKeys, remove-HasUniqueKeys, retain-HasUniqueKeys, lookup-retain,
  remove,
}
use the_grid.Text.{Text}
use the_grid.Relay.RateLimiter.{
  WindowRateLimiter, bucket_of, block_of, retry_after, drop_old, prune, prune_events,
}
use the_grid.Relay.RateLimiter.Spacing.{IsSpaced, drop_old-split, All-later, nothing_gone}

-- The state of a limiter over one key, after the recorded times `seen`: what its bucket has lost is
-- a window old, and a full bucket blocks until its oldest time is.
pub record IsTracked (k : Text) (now : ℕ) (l : WindowRateLimiter) (seen : List ℕ) : Type 0 where
  pub plain : l.increasing_delay ≡ false
  pub unique : HasUniqueKeys l.events
  pub unique_blocks : HasUniqueKeys l.blocked_until
  pub old : List ℕ
  pub split : seen ≡ old ++ bucket_of l k
  pub aged : All (λ t. t + l.window ≤ now) old
  pub fits : length (bucket_of l k) ≤ l.limit
  pub full :
      (t : ℕ) (rest : List ℕ)
      → bucket_of l k ≡ t ∷ rest
      → length (bucket_of l k) ≡ l.limit
      → t + l.window ≤ max now (block_of l k)
  pub spaced : IsSpaced l.limit l.window seen

-- Nothing happens to the bucket of the key, and its block only lapses.
pub wait-IsTracked :
    (k : Text) (now t : ℕ) (l : WindowRateLimiter) (seen : List ℕ) (events : List (Text × List ℕ))
    (blocks : List (Text × ℕ))
    → IsTracked k now l seen
    → now ≤ t
    → HasUniqueKeys events
    → HasUniqueKeys blocks
    → bucket_of (record l { events = events; blocked_until = blocks }) k ≡ bucket_of l k
    → max t (block_of l k)
      ≡ max t (block_of (record l { events = events; blocked_until = blocks }) k)
    → IsTracked k t (record l { events = events; blocked_until = blocks }) seen
wait-IsTracked k now t l seen events blocks h later u v same lapse = record {
  plain = h.plain;
  unique = u;
  unique_blocks = v;
  old = h.old;
  split = rw same h.split;
  aged = All-later l.window now t h.old later h.aged;
  fits = rw same h.fits;
  full = λ x rest e n.
      let block = h.full x rest (sym same ∙ e) (ap length (sym same) ∙ n) in
      omega (arith, block, lapse);
  spaced = h.spaced;
}

pub removed_block :
    (k j : Text) (t : ℕ) (l : WindowRateLimiter)
    → block_of l j ≤ t
    → max t (block_of l k)
      ≡ max t (block_of (record l { blocked_until = remove j l.blocked_until }) k)
unfolding block_of
removed_block k j t l h = ground (arith, lookup-remove j k l.blocked_until, list_beq_iff j k)

pub retry_after-IsTracked :
    (k j : Text) (now t : ℕ) (l : WindowRateLimiter) (seen : List ℕ)
    → IsTracked k now l seen
    → now ≤ t
    → IsTracked k t (retry_after l t j).0 seen
unfolding retry_after bucket_of
retry_after-IsTracked k j now t l seen h later = elim (Bool-cases (leb (block_of l j) t)) [
  | inl free ↦ rw free (
      wait-IsTracked k now t l seen l.events (remove j l.blocked_until) h later h.unique
        (remove-HasUniqueKeys j l.blocked_until h.unique_blocks) refl
        (removed_block k j t l (ground (arith, free))))
  | inr blocked ↦ rw blocked (
      wait-IsTracked k now t l seen l.events l.blocked_until h later h.unique h.unique_blocks refl
        refl)
]

pub pruned_absent :
    (window t : ℕ) (k : Text) (events : List (Text × List ℕ))
    → lookup k events ≡ none
    → lookup k (prune_events window t events) ≡ none
unfolding prune_events lookup
pruned_absent window t k [] h = refl
pruned_absent window t k ((j, bucket) ∷ events) h = ground (arith, pruned_absent window t k events)

pub prune_events-HasUniqueKeys :
    (window t : ℕ) (events : List (Text × List ℕ))
    → HasUniqueKeys events
    → HasUniqueKeys (prune_events window t events)
unfolding prune_events
prune_events-HasUniqueKeys window t [] h = tt
prune_events-HasUniqueKeys window t ((j, bucket) ∷ events) h =
    ground
      (arith, prune_events-HasUniqueKeys window t events h.1, pruned_absent window t j events h.0)

pub bucket_in : Text → List (Text × List ℕ) → List ℕ
bucket_in k events = elim (lookup k events) [ none ↦ [] | some bucket ↦ bucket ]

pub pruned_bucket :
    (window t : ℕ) (k : Text) (events : List (Text × List ℕ))
    → HasUniqueKeys events
    → bucket_in k (prune_events window t events) ≡ drop_old window t (bucket_in k events)
unfolding prune_events lookup bucket_in
pruned_bucket window t k [] h = refl
pruned_bucket window t k ((j, bucket) ∷ events) h = ground (
  arith,
  pruned_bucket window t k events h.1,
  pruned_absent window t j events h.0,
  list_beq_iff j k,
)

pub lapsed_block :
    (k : Text) (t : ℕ) (l : WindowRateLimiter)
    → HasUniqueKeys l.blocked_until
    → max t (block_of l k) ≡ max t (block_of (prune l t) k)
unfolding block_of prune
lapsed_block k t l u =
    ground (arith, lookup-retain (λ _ blocked. not (leb blocked t)) k l.blocked_until u)

pub prune-IsTracked :
    (k : Text) (now t : ℕ) (l : WindowRateLimiter) (seen : List ℕ)
    → IsTracked k now l seen
    → now ≤ t
    → 0 < l.limit
    → IsTracked k t (prune l t) seen
unfolding prune bucket_of block_of bucket_in
prune-IsTracked k now t l seen h later positive =
    let (gone, same, aged, young) = drop_old-split l.window t (bucket_of l k) in
    let kept : bucket_of (prune l t) k ≡ drop_old l.window t (bucket_of l k) =
      pruned_bucket l.window t k l.events h.unique in
    let fewer : length (bucket_of l k)
        ≡ length gone + length (drop_old l.window t (bucket_of l k)) =
      ap length same ∙ length-append gone (drop_old l.window t (bucket_of l k)) in
    record {
      plain = h.plain;
      unique = prune_events-HasUniqueKeys l.window t l.events h.unique;
      unique_blocks =
          retain-HasUniqueKeys (λ _ blocked. not (leb blocked t)) l.blocked_until h.unique_blocks;
      old = h.old ++ gone;
      split = rw kept (
          h.split
          ∙ ap (◌++◌ h.old) same
          ∙ sym (append_assoc h.old gone (drop_old l.window t (bucket_of l k))));
      aged =
          All-append (λ x. x + l.window ≤ t) h.old gone
            (All-later l.window now t h.old later h.aged) aged;
      fits = rw kept (omega (arith, fewer, h.fits));
      full = λ x rest e n.
          let whole =
            nothing_gone (bucket_of l k) gone (drop_old l.window t (bucket_of l k)) x rest same
              (sym kept ∙ e) (omega (arith, ap length kept, n, h.fits)) in
          let block = h.full x rest whole (omega (arith, ap length kept, n, h.fits, fewer)) in
          omega (arith, block, later, lapsed_block k t l h.unique_blocks);
      spaced = h.spaced;
    }
