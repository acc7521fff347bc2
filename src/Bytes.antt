-- ===== src/Bytes.antt =====
-- Python `bytes` as a list of numbers, with `int.to_bytes(n, "big")` and `int.from_bytes(b, "big")`.
use the_grid.Prelude.{
  ℕ, zero, suc, ◌+◌, ◌*◌, ◌/◌, ◌%◌, ◌^◌, ◌<◌, ◌≡◌, refl, List, [], ◌∷◌, length, All, Option, none,
  some, not, ◌==◌, ℕ_eq, arith,
}
use the_grid.Prelude.Result.{
  Result, ok, value_error, raise_if, ◌>>◌, IsCaught, is_type_or_value_error,
}

abbrev pub Bytes : Type 0
Bytes = List ℕ

-- Every element is below 256.
abbrev pub IsBytes : Bytes → Type 0
IsBytes = All (λ b. b < 256)

-- protocol.py:require_bytes on a value that is bytes: the optional length check. What the source
-- tests with `isinstance` holds by typing here and everywhere below.
unfoldable pub require_bytes : Bytes → Option ℕ → Result Bytes
require_bytes value none = ok value
require_bytes value (some n) = do raise_if (not (length value == n)) value_error; ok value

-- `value.to_bytes(width, "big")` of a value below 256 ^ width.
unfoldable pub to_bytes : ℕ → ℕ → Bytes
to_bytes zero value = []
to_bytes (suc width) value = (value / 256 ^ width) % 256 ∷ to_bytes width value

-- `int.from_bytes(data, "big")`
unfoldable pub from_bytes : Bytes → ℕ
from_bytes [] = 0
from_bytes (b ∷ data') = b * 256 ^ length data' + from_bytes data'

pub length-to_bytes : (width value : ℕ) → length (to_bytes width value) ≡ width
unfolding to_bytes
length-to_bytes zero value = refl
length-to_bytes (suc width) value = omega (arith, length-to_bytes width value)

pub require_bytes-eq-ok :
    (value : Bytes) (n : ℕ) (checked : Bytes)
    → require_bytes value (some n) ≡ ok checked
    → (value ≡ checked) × (length value ≡ n)
unfolding require_bytes
require_bytes-eq-ok value n checked h = ground arith

pub require_bytes-IsCaught : (value : Bytes) (n : ℕ) → IsCaught (require_bytes value (some n))
unfolding require_bytes is_type_or_value_error
require_bytes-IsCaught value n = ground arith
