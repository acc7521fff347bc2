-- ===== src/Hub/Store/Order.antt =====
-- The order of the board's rows is total, and `order_by_age` sorts by it.
use mathlib.Core.List.{Perm}
use mathlib.Core.List.Perm
use mathlib.Core.Path.{subst}
use the_grid.Prelude.{
  ◌≡◌, refl, true, false, none, some, List, [], ◌∷◌, ℕ_eq, list_eq, arith, All, Bool-cases, inl,
  inr,
}
use the_grid.Bytes.{Bytes}
use the_grid.Hub.Store.Rows.{MessageRow, blob_le, is_before, place, order_by_age, oldest}

blob_le-total : (xs ys : Bytes) → blob_le xs ys ≡ false → blob_le ys xs ≡ true
unfolding blob_le
blob_le-total [] ys h = cc
blob_le-total (x ∷ xs) [] h = refl
blob_le-total (x ∷ xs) (y ∷ ys) h = ground (arith, blob_le-total xs ys)

blob_le_trans :
    (xs ys zs : Bytes) → blob_le xs ys ≡ true → blob_le ys zs ≡ true → blob_le xs zs ≡ true
unfolding blob_le
blob_le_trans [] ys zs p q = refl
blob_le_trans (x ∷ xs) [] zs p q = cc
blob_le_trans (x ∷ xs) (y ∷ ys) [] p q = cc
blob_le_trans (x ∷ xs) (y ∷ ys) (z ∷ zs) p q = ground (arith, blob_le_trans xs ys zs)

pub is_before-total : (a b : MessageRow) → is_before a b ≡ false → is_before b a ≡ true
unfolding is_before
is_before-total a b h = ground (arith, blob_le-total a.message_id b.message_id)

is_before_trans :
    (a b c : MessageRow) → is_before a b ≡ true → is_before b c ≡ true → is_before a c ≡ true
unfolding is_before
is_before_trans a b c p q = ground (arith, blob_le_trans a.message_id b.message_id c.message_id)

abbrev pub IsBefore : MessageRow → MessageRow → Type 0
IsBefore a b = is_before a b ≡ true

abbrev pub IsOrdered : List MessageRow → Type 0
IsOrdered [] = Unit
IsOrdered (r ∷ rs) = All (IsBefore r) rs × IsOrdered rs

All-IsBefore :
    (a b : MessageRow) (rs : List MessageRow)
    → IsBefore a b
    → All (IsBefore b) rs
    → All (IsBefore a) rs
All-IsBefore a b [] h k = tt
All-IsBefore a b (r ∷ rs) h k = (is_before_trans a b r h k.0, All-IsBefore a b rs h k.1)

All-place :
    (P : MessageRow → Type 0) (r : MessageRow) (rs : List MessageRow)
    → P r
    → All P rs
    → All P (place r rs)
unfolding place
All-place P r [] h k = (h, tt)
All-place P r (x ∷ xs) h k = elim (Bool-cases (is_before r x)) [
  | inl e ↦ rw e (h, k)
  | inr e ↦ rw e (k.0, All-place P r xs h k.1)
]

place-IsOrdered : (r : MessageRow) (rs : List MessageRow) → IsOrdered rs → IsOrdered (place r rs)
unfolding place
place-IsOrdered r [] o = (tt, tt)
place-IsOrdered r (x ∷ xs) o = elim (Bool-cases (is_before r x)) [
  | inl e ↦ rw e ((e, All-IsBefore r x xs e o.0), o)
  | inr e ↦ rw e (All-place (IsBefore x) r xs (is_before-total r x e) o.0, place-IsOrdered r xs o.1)
]

pub order_by_age-IsOrdered : (rs : List MessageRow) → IsOrdered (order_by_age rs)
unfolding order_by_age
order_by_age-IsOrdered [] = tt
order_by_age-IsOrdered (r ∷ rs) = place-IsOrdered r (order_by_age rs) (order_by_age-IsOrdered rs)

place-perm : (r : MessageRow) (rs : List MessageRow) → Perm (place r rs) (r ∷ rs)
unfolding place
place-perm r [] = Perm.refl (r ∷ [])
place-perm r (x ∷ xs) = elim (Bool-cases (is_before r x)) [
  | inl e ↦ rw e (Perm.refl (r ∷ x ∷ xs))
  | inr e ↦ rw e (Perm.trans (Perm.cons x (place-perm r xs)) (Perm.swap r x xs))
]

pub order_by_age-perm : (rs : List MessageRow) → Perm (order_by_age rs) rs
unfolding order_by_age
order_by_age-perm [] = Perm.refl []
order_by_age-perm (r ∷ rs) =
    Perm.trans (place-perm r (order_by_age rs)) (Perm.cons r (order_by_age-perm rs))

All-place_inv :
    (P : MessageRow → Type 0) (r : MessageRow) (rs : List MessageRow)
    → All P (place r rs)
    → P r × All P rs
unfolding place
All-place_inv P r [] h = (h.0, tt)
All-place_inv P r (x ∷ xs) h = elim (Bool-cases (is_before r x)) [
  | inl e ↦ rw e at h
  | inr e ↦
      let h' : P x × All P (place r xs) = rw e at h in
      let (p, k) = All-place_inv P r xs h'.1 in (p, (h'.0, k))
]

All-order_by_age_inv :
    (P : MessageRow → Type 0) (rs : List MessageRow) → All P (order_by_age rs) → All P rs
unfolding order_by_age
All-order_by_age_inv P [] h = tt
All-order_by_age_inv P (r ∷ rs) h =
    let (p, k) = All-place_inv P r (order_by_age rs) h in (p, All-order_by_age_inv P rs k)

pub All-order_by_age :
    (P : MessageRow → Type 0) (rs : List MessageRow) → All P rs → All P (order_by_age rs)
unfolding order_by_age
All-order_by_age P [] h = tt
All-order_by_age P (r ∷ rs) h = All-place P r (order_by_age rs) h.0 (All-order_by_age P rs h.1)

is_before_refl : (r : MessageRow) → is_before r r ≡ true
is_before_refl r = elim (Bool-cases (is_before r r)) [ inl e ↦ e | inr e ↦ is_before-total r r e ]

-- The first row of an ordered table is before all of it.
head-IsBefore :
    (l : List MessageRow) (r : MessageRow) (rest : List MessageRow)
    → l ≡ r ∷ rest
    → IsOrdered l
    → All (IsBefore r) l
head-IsBefore [] r rest e o = tt
head-IsBefore (x ∷ xs) r rest e o =
    let same : x ≡ r = ground arith in (rw same (is_before_refl r), rw same at o.0)

oldest-head :
    (rs : List MessageRow) (r : MessageRow)
    → oldest rs ≡ some r
    → (rest : List MessageRow) × (order_by_age rs ≡ r ∷ rest)
unfolding oldest
oldest-head rs r h = go (order_by_age rs) h
  where
    go :
        (l : List MessageRow)
        → (elim l [ [] ↦ none | x ∷ _ ↦ some x ]) ≡ some r
        → (rest : List MessageRow) × (l ≡ r ∷ rest)
    go [] e = cc
    go (x ∷ xs) e = (xs, cc)

-- The row that is evicted is before every row of the table.
pub oldest-IsBefore :
    (rs : List MessageRow) (r : MessageRow) → oldest rs ≡ some r → All (IsBefore r) rs
oldest-IsBefore rs r h =
    let (rest, e) = oldest-head rs r h in
    All-order_by_age_inv (IsBefore r) rs
      (head-IsBefore (order_by_age rs) r rest e (order_by_age-IsOrdered rs))

-- The evicted row is a row of the table.
pub All-oldest :
    (P : MessageRow → Type 0) (rs : List MessageRow) (r : MessageRow)
    → oldest rs ≡ some r
    → All P rs
    → P r
All-oldest P rs r h k =
    let (rest, e) = oldest-head rs r h in
    let l : All P (r ∷ rest) = subst (All P) e (All-order_by_age P rs k) in l.0
