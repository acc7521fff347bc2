-- ===== src/Sessions/Verification/Injective.antt =====
-- Which seeds show one code.
use the_grid.Prelude.{
  ℕ, zero, suc, ◌+◌, ◌*◌, ◌/◌, ◌%◌, ◌^◌, ◌<◌, ◌≡◌, refl, ap, sym, ◌∙◌, [], ◌∷◌, length, take, arith,
  Bool, true, if◌then◌else◌, ◌==◌, ℕ_eq, ◌&&◌, ◌↔◌, some, Bool-cases, inl, inr,
}
use the_grid.Prelude.Result.{ok, >>=-eq-ok}
use the_grid.Bytes.{Bytes, IsBytes, from_bytes, require_bytes, require_bytes-eq-ok}
use the_grid.Text.{Text}
use the_grid.Sessions.Verification.{
  verification_alphabet, get_or, code_char, code_of, verification_code_from_seed,
}

-- Where a character stands.
place_of : Text → ℕ → ℕ
place_of [] x = 0
place_of (y ∷ ys) x = if y == x then 0 else suc (place_of ys x)

-- The characters below `n` stand where they were taken from.
are_in_place : ℕ → Bool
are_in_place zero = true
are_in_place (suc k) =
    place_of verification_alphabet (get_or verification_alphabet k 0) == k && are_in_place k

all_in_place : are_in_place 32 ≡ true
unfolding are_in_place place_of
all_in_place = refl

place_of-get_or :
    (n k : ℕ)
    → k < n
    → are_in_place n ≡ true
    → place_of verification_alphabet (get_or verification_alphabet k 0) ≡ k
unfolding are_in_place
place_of-get_or zero k h p = absurd (omega arith)
place_of-get_or (suc n) k h p = elim (Bool-cases (k == n)) [
  | inl e ↦ let same : k ≡ n = ground arith in rw same (ground (arith, p))
  | inr e ↦ place_of-get_or n k (ground arith) (ground (arith, p))
]

get_or-injective :
    (k n : ℕ)
    → k < 32
    → n < 32
    → get_or verification_alphabet k 0 ≡ get_or verification_alphabet n 0
    → k ≡ n
get_or-injective k n hk hn h =
    sym (place_of-get_or 32 k hk all_in_place)
    ∙ ap (place_of verification_alphabet) h
    ∙ place_of-get_or 32 n hn all_in_place

code_char-injective :
    (x y shift : ℕ)
    → code_char x shift ≡ code_char y shift
    → x / 2 ^ shift % 32 ≡ y / 2 ^ shift % 32
unfolding code_char
code_char-injective x y shift h =
    get_or-injective (x / 2 ^ shift % 32) (y / 2 ^ shift % 32) (omega arith) (omega arith) h

digits :
    (x y : ℕ)
    → x < 2 ^ 40
    → y < 2 ^ 40
    → x / 2 ^ 35 % 32 ≡ y / 2 ^ 35 % 32
    → x / 2 ^ 30 % 32 ≡ y / 2 ^ 30 % 32
    → x / 2 ^ 25 % 32 ≡ y / 2 ^ 25 % 32
    → x / 2 ^ 20 % 32 ≡ y / 2 ^ 20 % 32
    → x / 2 ^ 15 % 32 ≡ y / 2 ^ 15 % 32
    → x / 2 ^ 10 % 32 ≡ y / 2 ^ 10 % 32
    → x / 2 ^ 5 % 32 ≡ y / 2 ^ 5 % 32
    → x / 2 ^ 0 % 32 ≡ y / 2 ^ 0 % 32
    → x ≡ y
digits x y hx hy a b c d e f g h = omega arith

code_of-injective : (x y : ℕ) → x < 2 ^ 40 → y < 2 ^ 40 → code_of x ≡ code_of y → x ≡ y
unfolding code_of
code_of-injective x y hx hy h =
    digits x y hx hy (code_char-injective x y 35 (cc (h))) (code_char-injective x y 30 (cc (h)))
      (code_char-injective x y 25 (cc (h))) (code_char-injective x y 20 (cc (h)))
      (code_char-injective x y 15 (cc (h))) (code_char-injective x y 10 (cc (h)))
      (code_char-injective x y 5 (cc (h))) (code_char-injective x y 0 (cc (h)))

-- The number that five bytes hold.
from_bytes_5 :
    (a b c d e : ℕ)
    → from_bytes (a ∷ b ∷ c ∷ d ∷ e ∷ []) ≡ (((a * 256 + b) * 256 + c) * 256 + d) * 256 + e
unfolding from_bytes
from_bytes_5 a b c d e = omega arith

bytes_5-injective :
    (a b c d e a' b' c' d' e' : ℕ)
    → IsBytes (a ∷ b ∷ c ∷ d ∷ e ∷ [])
    → IsBytes (a' ∷ b' ∷ c' ∷ d' ∷ e' ∷ [])
    → code_of (from_bytes (a ∷ b ∷ c ∷ d ∷ e ∷ []))
      ≡ code_of (from_bytes (a' ∷ b' ∷ c' ∷ d' ∷ e' ∷ []))
    → (a ∷ b ∷ c ∷ d ∷ e ∷ []) ≡ (a' ∷ b' ∷ c' ∷ d' ∷ e' ∷ [])
bytes_5-injective a b c d e a' b' c' d' e' w w' h =
    let n = from_bytes_5 a b c d e in
    let n' = from_bytes_5 a' b' c' d' e' in
    let same =
      code_of-injective (from_bytes (a ∷ b ∷ c ∷ d ∷ e ∷ []))
        (from_bytes (a' ∷ b' ∷ c' ∷ d' ∷ e' ∷ []))
        (omega (arith, n, w.0, w.1.0, w.1.1.0, w.1.1.1.0, w.1.1.1.1.0))
        (omega (arith, n', w'.0, w'.1.0, w'.1.1.0, w'.1.1.1.0, w'.1.1.1.1.0)) h in
    let ea : a ≡ a' = omega (
      arith, n, n', same, w.0, w.1.0, w.1.1.0, w.1.1.1.0, w.1.1.1.1.0, w'.0, w'.1.0, w'.1.1.0,
      w'.1.1.1.0, w'.1.1.1.1.0,
    ) in
    let eb : b ≡ b' = omega (
      arith, n, n', same, w.0, w.1.0, w.1.1.0, w.1.1.1.0, w.1.1.1.1.0, w'.0, w'.1.0, w'.1.1.0,
      w'.1.1.1.0, w'.1.1.1.1.0, ea,
    ) in
    let ec : c ≡ c' = omega (
      arith, n, n', same, w.0, w.1.0, w.1.1.0, w.1.1.1.0, w.1.1.1.1.0, w'.0, w'.1.0, w'.1.1.0,
      w'.1.1.1.0, w'.1.1.1.1.0, ea, eb,
    ) in
    let ed : d ≡ d' = omega (
      arith, n, n', same, w.0, w.1.0, w.1.1.0, w.1.1.1.0, w.1.1.1.1.0, w'.0, w'.1.0, w'.1.1.0,
      w'.1.1.1.0, w'.1.1.1.1.0, ea, eb, ec,
    ) in
    let ee : e ≡ e' = omega (
      arith, n, n', same, w.0, w.1.0, w.1.1.0, w.1.1.1.0, w.1.1.1.1.0, w'.0, w'.1.0, w'.1.1.0,
      w'.1.1.1.0, w'.1.1.1.1.0, ea, eb, ec, ed,
    ) in
    cc (ea, eb, ec, ed, ee)

-- A seed of 32 bytes begins with five of them.
first_five :
    (seed : Bytes)
    → length seed ≡ 32
    → IsBytes seed
    → (a b c d e : ℕ) × (take 5 seed ≡ a ∷ b ∷ c ∷ d ∷ e ∷ []) × IsBytes (a ∷ b ∷ c ∷ d ∷ e ∷ [])
first_five [] h w = absurd (omega arith)
first_five (a ∷ []) h w = absurd (omega arith)
first_five (a ∷ b ∷ []) h w = absurd (omega arith)
first_five (a ∷ b ∷ c ∷ []) h w = absurd (omega arith)
first_five (a ∷ b ∷ c ∷ d ∷ []) h w = absurd (omega arith)
first_five (a ∷ b ∷ c ∷ d ∷ e ∷ rest) h w =
    (a, b, c, d, e, refl, (w.0, (w.1.0, (w.1.1.0, (w.1.1.1.0, (w.1.1.1.1.0, tt))))))

code_inv :
    (seed : Bytes) (code : Text)
    → verification_code_from_seed seed ≡ ok code
    → (length seed ≡ 32) × (code_of (from_bytes (take 5 seed)) ≡ code)
unfolding verification_code_from_seed
code_inv seed code h =
    let (raw, e, r) = >>=-eq-ok (require_bytes seed (some 32)) _ h in
    let (same, long) = require_bytes-eq-ok seed 32 raw e in (long, rw same (ground (arith, r)))

-- Two seeds of bytes show the same verification code just when their first five bytes, that is 40
-- bits, are the same: no two of these values share a code.
pub same_code_iff :
    (seed seed' : Bytes) (code code' : Text)
    → IsBytes seed
    → IsBytes seed'
    → verification_code_from_seed seed ≡ ok code
    → verification_code_from_seed seed' ≡ ok code'
    → (code ≡ code') ↔ (take 5 seed ≡ take 5 seed')
same_code_iff seed seed' code code' w w' h h' =
    let (long, shown) = code_inv seed code h in
    let (long', shown') = code_inv seed' code' h' in
    let (a, b, c, d, e, five, ws) = first_five seed long w in
    let (a', b', c', d', e', five', ws') = first_five seed' long' w' in
    (
      λ same.
          five
          ∙ bytes_5-injective a b c d e a' b' c' d' e' ws ws' (
              ap (λ t. code_of (from_bytes t)) (sym five)
              ∙ shown
              ∙ same
              ∙ sym shown'
              ∙ ap (λ t. code_of (from_bytes t)) five')
          ∙ sym five',
      λ same. sym shown ∙ ap (λ t. code_of (from_bytes t)) same ∙ shown',
    )
