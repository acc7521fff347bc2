-- ===== src/Hub/Store/Rows.antt =====
-- The rows of the board's tables, their order and the statements on `board_messages`.
use the_grid.Prelude.{
  ℕ, ◌+◌, ◌≤◌, ◌≡◌, refl, Bool, true, false, not, ◌&&◌, ◌||◌, Option, none, some, List, [], ◌∷◌,
  ◌++◌, length, filter, ltb, ◌==◌, ℕ_eq, list_eq, if◌then◌else◌, arith, ap, ◌∙◌, list_beq_iff,
  length-filter-le,
}
use the_grid.Bytes.{Bytes}

pub record MessageRow : Type 0 where
  pub message_id : Bytes
  pub id_token : Bytes
  pub created_at : ℕ
  pub expires_at : ℕ
  pub ciphertext : Bytes

pub record CooldownRow : Type 0 where
  pub last_post_at : ℕ
  pub next_post_at : ℕ

-- SQLite's order of BLOBs is that of memcmp, a prefix first.
unfoldable pub blob_le : Bytes → Bytes → Bool
blob_le [] ys = true
blob_le (x ∷ xs) [] = false
blob_le (x ∷ xs) (y ∷ ys) = ltb x y || x == y && blob_le xs ys

-- `ORDER BY created_at ASC, message_id ASC`
unfoldable pub is_before : MessageRow → MessageRow → Bool
is_before a b =
    ltb a.created_at b.created_at
    || a.created_at == b.created_at && blob_le a.message_id b.message_id

unfoldable pub place : MessageRow → List MessageRow → List MessageRow
place r [] = r ∷ []
place r (x ∷ xs) = let rest = place r xs in if is_before r x then r ∷ x ∷ xs else x ∷ rest

unfoldable pub order_by_age : List MessageRow → List MessageRow
unfolding place
order_by_age [] = []
order_by_age (r ∷ rs) = place r (order_by_age rs)

-- `… ORDER BY … LIMIT 1`
unfoldable pub oldest : List MessageRow → Option MessageRow
oldest rs = elim (order_by_age rs) [ [] ↦ none | r ∷ _ ↦ some r ]

-- Whether the primary key is taken.
unfoldable pub has_message : Bytes → List MessageRow → Bool
has_message i [] = false
has_message i (r ∷ rs) = r.message_id == i || has_message i rs

-- `DELETE FROM board_messages WHERE message_id = ?`
unfoldable pub delete_message : Bytes → List MessageRow → List MessageRow
delete_message i = filter (λ r. not (r.message_id == i))

-- The messages of a table are told apart by their ids.
abbrev pub HasUniqueIds : List MessageRow → Type 0
HasUniqueIds [] = Unit
HasUniqueIds (r ∷ rs) = (has_message r.message_id rs ≡ false) × HasUniqueIds rs

pub has_message-append :
    (i : Bytes) (xs ys : List MessageRow)
    → has_message i (xs ++ ys) ≡ (has_message i xs || has_message i ys)
unfolding has_message
has_message-append i [] ys = refl
has_message-append i (x ∷ xs) ys = ground (arith, has_message-append i xs ys)

pub has_message-filter :
    (p : MessageRow → Bool) (i : Bytes) (rs : List MessageRow)
    → has_message i rs ≡ false
    → has_message i (filter p rs) ≡ false
unfolding has_message filter
has_message-filter p i [] h = refl
has_message-filter p i (r ∷ rs) h = ground (arith, has_message-filter p i rs)

pub filter-HasUniqueIds :
    (p : MessageRow → Bool) (rs : List MessageRow) → HasUniqueIds rs → HasUniqueIds (filter p rs)
unfolding filter
filter-HasUniqueIds p [] u = tt
filter-HasUniqueIds p (r ∷ rs) u =
    ground (arith, filter-HasUniqueIds p rs u.1, has_message-filter p r.message_id rs u.0)

pub append-HasUniqueIds :
    (rs : List MessageRow) (r : MessageRow)
    → HasUniqueIds rs
    → has_message r.message_id rs ≡ false
    → HasUniqueIds (rs ++ r ∷ [])
unfolding has_message
append-HasUniqueIds [] r u h = (refl, tt)
append-HasUniqueIds (x ∷ xs) r u h = ground (
  arith,
  append-HasUniqueIds xs r u.1,
  has_message-append x.message_id xs (r ∷ []),
  list_beq_iff x.message_id r.message_id,
  list_beq_iff r.message_id x.message_id,
)

has_message-place :
    (i : Bytes) (r : MessageRow) (rs : List MessageRow)
    → has_message i (place r rs) ≡ has_message i (r ∷ rs)
unfolding has_message place
has_message-place i r [] = refl
has_message-place i r (x ∷ xs) = ground (arith, has_message-place i r xs)

-- Sorting changes no membership.
pub has_message-order_by_age :
    (i : Bytes) (rs : List MessageRow) → has_message i (order_by_age rs) ≡ has_message i rs
unfolding order_by_age has_message
has_message-order_by_age i [] = refl
has_message-order_by_age i (r ∷ rs) =
    has_message-place i r (order_by_age rs)
    ∙ ap (λ b. r.message_id == i || b) (has_message-order_by_age i rs)

pub oldest-has_message :
    (rs : List MessageRow) (r : MessageRow)
    → oldest rs ≡ some r
    → has_message r.message_id rs ≡ true
unfolding oldest has_message
oldest-has_message rs r h =
    ground (arith, has_message-order_by_age r.message_id rs, list_beq_iff r.message_id r.message_id)

pub length-delete_message :
    (i : Bytes) (rs : List MessageRow)
    → has_message i rs ≡ true
    → length (delete_message i rs) + 1 ≤ length rs
unfolding has_message delete_message filter
length-delete_message i [] h = cc
length-delete_message i (r ∷ rs) h =
    ground (arith, length-delete_message i rs, length-filter-le (λ x. not (x.message_id == i)) rs)

pub has_message-delete_message :
    (i j : Bytes) (rs : List MessageRow)
    → has_message j (delete_message i rs) ≡ (if i == j then false else has_message j rs)
unfolding has_message delete_message filter
has_message-delete_message i j [] = ground arith
has_message-delete_message i j (r ∷ rs) = ground (
  arith,
  has_message-delete_message i j rs,
  list_beq_iff i j,
  list_beq_iff r.message_id i,
  list_beq_iff r.message_id j,
)

length-place : (r : MessageRow) (rs : List MessageRow) → length (place r rs) ≡ length rs + 1
unfolding place
length-place r [] = refl
length-place r (x ∷ xs) = ground (arith, length-place r xs)

pub length-order_by_age : (rs : List MessageRow) → length (order_by_age rs) ≡ length rs
unfolding order_by_age
length-order_by_age [] = refl
length-order_by_age (r ∷ rs) =
    omega (arith, length-place r (order_by_age rs), length-order_by_age rs)

-- Only the empty table has no oldest row.
pub oldest-none : (rs : List MessageRow) → oldest rs ≡ none → length rs ≡ 0
unfolding oldest
oldest-none rs h = ground (arith, length-order_by_age rs)
