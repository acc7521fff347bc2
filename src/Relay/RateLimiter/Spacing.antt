-- ===== src/Relay/RateLimiter/Spacing.antt =====
-- Times that lie a window apart, and the pruning of a bucket.
use the_grid.Prelude.{
  ℕ, zero, suc, ◌+◌, ◌≤◌, ◌<◌, ◌≡◌, refl, Option, none, some, List, [], ◌∷◌, ◌++◌, length, All, max,
  ltb, leb, if◌then◌else◌, arith, inl, inr, length-append, ◌==◌, ℕ_eq, list_eq, Bool-cases, ap, ◌∙◌,
}
use mathlib.Core.Path.{subst}
use the_grid.Relay.RateLimiter.{drop_old}

unfoldable pub get_elem? : List ℕ → ℕ → Option ℕ
get_elem? [] i = none
get_elem? (x ∷ xs) zero = some x
get_elem? (x ∷ xs) (suc i) = get_elem? xs i

-- Of any `limit + 1` recorded attempts the last is a whole window after the first.
abbrev pub IsSpaced : ℕ → ℕ → List ℕ → Type 0
IsSpaced limit window ts =
    (i a b : ℕ) → get_elem? ts i ≡ some a → get_elem? ts (i + limit) ≡ some b → a + window ≤ b

pub get_elem?-append :
    (xs : List ℕ) (x : ℕ) (i : ℕ)
    → get_elem? (xs ++ x ∷ []) i
      ≡ (if ltb i (length xs) then get_elem? xs i else if i == length xs then some x else none)
unfolding get_elem?
get_elem?-append [] x zero = refl
get_elem?-append [] x (suc i) = ground arith
get_elem?-append (y ∷ xs) x zero = ground arith
get_elem?-append (y ∷ xs) x (suc i) = ground (arith, get_elem?-append xs x i)

pub get_elem?-old :
    (old bucket : List ℕ) (P : ℕ → Type 0) (i a : ℕ)
    → All P old
    → i < length old
    → get_elem? (old ++ bucket) i ≡ some a
    → P a
unfolding get_elem?
get_elem?-old [] bucket P i a h j e = absurd (omega arith)
get_elem?-old (x ∷ old) bucket P zero a h j e =
    let same : x ≡ a = ground (arith, e) in subst P same h.0
get_elem?-old (x ∷ old) bucket P (suc i) a h j e =
    get_elem?-old old bucket P i a h.1 (omega arith) e

-- A prefix of the bucket goes, which is a window old; what stays is empty or begins within it.
pub drop_old-split :
    (window now : ℕ) (bucket : List ℕ)
    → (gone : List ℕ) × (bucket ≡ gone ++ drop_old window now bucket)
      × All (λ t. t + window ≤ now) gone
      × ((t : ℕ) (rest : List ℕ) → drop_old window now bucket ≡ t ∷ rest → now < t + window)
unfolding drop_old
drop_old-split window now [] = ([], refl, tt, λ t rest h. cc)
drop_old-split window now (t ∷ bucket) =
    let (gone, same, aged, young) = drop_old-split window now bucket in
    elim (Bool-cases (leb (t + window) now)) [
      | inl h ↦ (
        t ∷ gone,
        rw h (ap (◌∷◌ t) same),
        (ground (arith, h), aged),
        λ x rest e. young x rest (ground (arith, h, e)),
      )
      | inr h ↦ ([], rw h refl, tt, λ x rest e. ground (arith, h, e))
    ]

pub All-later :
    (window now later : ℕ) (ts : List ℕ)
    → now ≤ later
    → All (λ t. t + window ≤ now) ts
    → All (λ t. t + window ≤ later) ts
All-later window now later [] h a = tt
All-later window now later (t ∷ ts) h a = (omega (arith, a.0), All-later window now later ts h a.1)

pub full_bucket :
    (window t limit block : ℕ) (bucket gone kept : List ℕ)
    → bucket ≡ gone ++ kept
    → length bucket ≤ limit
    → block ≤ t
    → 0 < limit
    → ((x : ℕ) (rest : List ℕ)
        → bucket ≡ x ∷ rest
        → length bucket ≡ limit
        → x + window ≤ max t block)
    → ((x : ℕ) (rest : List ℕ) → kept ≡ x ∷ rest → t < x + window)
    → length kept < limit
full_bucket window t limit block bucket gone [] same fits free positive full young = positive
full_bucket window t limit block bucket [] (x ∷ kept) same fits free positive full young =
    ground (arith, full x kept same, young x kept refl, ap length same)
full_bucket window t limit block bucket (y ∷ gone) (x ∷ kept) same fits free positive full young =
    omega (arith, ap length same, length-append gone (x ∷ kept))

pub nothing_gone :
    (bucket gone kept : List ℕ) (x : ℕ) (rest : List ℕ)
    → bucket ≡ gone ++ kept
    → kept ≡ x ∷ rest
    → length bucket ≤ length kept
    → bucket ≡ x ∷ rest
nothing_gone bucket [] kept x rest same e n = same ∙ e
nothing_gone bucket (y ∷ gone) kept x rest same e n =
    absurd (omega (arith, ap length same, length-append gone kept, n))

pub IsSpaced-append :
    (limit window t : ℕ) (gone kept : List ℕ)
    → IsSpaced limit window (gone ++ kept)
    → All (λ x. x + window ≤ t) gone
    → length kept < limit
    → IsSpaced limit window ((gone ++ kept) ++ t ∷ [])
IsSpaced-append limit window t gone kept h aged short i a b p q =
    let n = length-append gone kept in
    let at-i = get_elem?-append (gone ++ kept) t i in
    let at-j = get_elem?-append (gone ++ kept) t (i + limit) in
    ground
      (arith, n, at-i, at-j, p, q, h i a b, get_elem?-old gone kept (λ x. x + window ≤ t) i a aged)
