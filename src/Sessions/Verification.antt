-- ===== src/Sessions/Verification.antt =====
-- `verification_code_from_seed` of sessions.py: the code that two people compare.
pub mod Injective
use the_grid.Prelude.{
  ℕ, zero, suc, ◌/◌, ◌%◌, ◌^◌, ◌≡◌, refl, [], ◌∷◌, ◌++◌, length, take, map, some,
}
use the_grid.Prelude.Result.{Result, ok, ◌>>=◌}
use the_grid.Bytes.{Bytes, from_bytes, require_bytes}
use the_grid.Text.{Text, codes}
use the_grid.Crypto.{require_bytes_of_length}

abbrev pub verification_alphabet : Text
verification_alphabet = codes "23456789ABCDEFGHJKLMNPQRSTUVWXYZ"

abbrev pub get_or : Text → ℕ → ℕ → ℕ
get_or [] i d = d
get_or (x ∷ xs) zero d = x
get_or (x ∷ xs) (suc i) d = get_or xs i d

-- The character of `(value >> shift) & 0x1F`; the index lies in the alphabet.
code_char : ℕ → ℕ → ℕ
code_char value shift = get_or verification_alphabet (value / 2 ^ shift % 32) 0

code_of : ℕ → Text
unfolding code_char
code_of value =
    map (code_char value) (35 ∷ 30 ∷ 25 ∷ 20 ∷ [])
    ++ b'-' ∷ map (code_char value) (15 ∷ 10 ∷ 5 ∷ 0 ∷ [])

unfoldable pub verification_code_from_seed : Bytes → Result Text
unfolding code_of
verification_code_from_seed seed = do
  raw ← require_bytes seed (some 32)
  ok (code_of (from_bytes (take 5 raw)))

pub verification_code_total :
    (seed : Bytes) → length seed ≡ 32 → (code : Text) × (verification_code_from_seed seed ≡ ok code)
unfolding verification_code_from_seed
verification_code_total seed h =
    (code_of (from_bytes (take 5 seed)), rw (require_bytes_of_length seed 32 h) refl)
