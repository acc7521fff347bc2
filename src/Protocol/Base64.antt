-- ===== src/Protocol/Base64.antt =====
-- `b64url_encode` and `b64url_decode` of protocol.py, with what they use of Python's base64.
pub mod RoundTrip
use the_grid.Prelude.{
  ℕ, ◌+◌, ◌-◌, ◌*◌, ◌/◌, ◌%◌, ◌<◌, ◌≡◌, refl, Bool, true, false, not, ◌&&◌, ◌||◌, Option, none,
  some, List, [], ◌∷◌, length, all, ltb, leb, ◌==◌, ℕ_eq, list_eq, if◌then◌else◌, arith, ◌↔◌, ◌≢◌,
  ap, inl, inr, sym, ◌∙◌, beq_refl, list_beq_iff,
}
use the_grid.Prelude.Result.{
  Result, ok, err, encoding_error, raise_if, raise_if-eq-ok, >>=-eq-ok, ◌>>=◌, ◌>>◌, IsCaught,
  is_type_or_value_error,
}
use the_grid.Bytes.{Bytes, IsBytes}
use the_grid.Text.{Text, is_ascii}

-- The character of a number below 64 in `A` to `Z`, `a` to `z`, `0` to `9`, `-`, `_`.
unfoldable pub char_of : ℕ → ℕ
char_of n =
    if ltb n 26
    then n + b'A'
    else if ltb n 52
    then n - 26 + b'a'
    else if ltb n 62
    then n - 52 + b'0'
    else if n == 62
    then b'-'
    else b'_'

-- Its inverse on the alphabet.
unfoldable pub digit_of : ℕ → ℕ
digit_of c =
    if leb b'a' c
    then c - b'a' + 26
    else if c == b'_'
    then 63
    else if leb b'A' c
    then c - b'A'
    else if leb b'0' c
    then c - b'0' + 52
    else 62

-- `char in alphabet`
unfoldable pub in_alphabet : ℕ → Bool
in_alphabet c =
    leb b'A' c && leb c b'Z'
    || leb b'a' c && leb c b'z'
    || leb b'0' c && leb c b'9'
    || c == b'-'
    || c == b'_'

-- `base64.urlsafe_b64encode(value).rstrip(b"=")`: four characters for three bytes; two or three
-- for what is left over.
unfoldable pub b64url_encode : Bytes → Text
unfolding char_of
b64url_encode [] = []
b64url_encode (a ∷ []) = char_of (a / 4) ∷ char_of (a % 4 * 16) ∷ []
b64url_encode (a ∷ b ∷ []) =
    char_of (a / 4) ∷ char_of (a % 4 * 16 + b / 16) ∷ char_of (b % 16 * 4) ∷ []
b64url_encode (a ∷ b ∷ c ∷ rest) =
    char_of (a / 4)
    ∷ char_of (a % 4 * 16 + b / 16)
    ∷ char_of (b % 16 * 4 + c / 64)
    ∷ char_of (c % 64)
    ∷ b64url_encode rest

unfoldable pub first : ℕ → ℕ → ℕ
unfolding digit_of
first x y = digit_of x * 4 + digit_of y / 16

unfoldable pub second : ℕ → ℕ → ℕ
unfolding digit_of
second y z = digit_of y % 16 * 16 + digit_of z / 4

unfoldable pub third : ℕ → ℕ → ℕ
unfolding digit_of
third z w = digit_of z % 4 * 64 + digit_of w

-- `base64.b64decode(value + padding, altchars=b"-_", validate=True)` on text of the alphabet, the
-- padding filling the last group; a group of one character is binascii.Error.
unfoldable pub b64decode : Text → Option Bytes
unfolding first second third
b64decode [] = some []
b64decode (x ∷ []) = none
b64decode (x ∷ y ∷ []) = some (first x y ∷ [])
b64decode (x ∷ y ∷ z ∷ []) = some (first x y ∷ second y z ∷ [])
b64decode (x ∷ y ∷ z ∷ w ∷ rest) = elim (b64decode rest) [
  | none ↦ none
  | some bytes ↦ some (first x y ∷ second y z ∷ third z w ∷ bytes)
]

unfoldable pub decoded_text : Text → Result Bytes
unfolding b64decode
decoded_text value = elim (b64decode value) [ none ↦ err encoding_error | some bytes ↦ ok bytes ]

unfoldable pub check_length : Option ℕ → Bytes → Result Bytes
check_length none decoded = ok decoded
check_length (some expected) decoded = do
  raise_if (not (length decoded == expected)) encoding_error
  ok decoded

unfoldable pub is_malformed : Text → Bool
unfolding is_ascii in_alphabet all
is_malformed value =
    value == []
    || not (all (λ c. not (c == b'=')) value)
    || not (is_ascii value)
    || not (all in_alphabet value)

-- The checks up to the one for canonicity: the text is what its bytes are encoded to.
unfoldable pub canonical_bytes : Text → Result Bytes
unfolding is_malformed decoded_text b64url_encode
canonical_bytes value = do
  raise_if (is_malformed value) encoding_error
  decoded ← decoded_text value
  raise_if (not (b64url_encode decoded == value)) encoding_error
  ok decoded

unfoldable pub b64url_decode : Text → Option ℕ → Result Bytes
unfolding canonical_bytes check_length
b64url_decode value expected_length = do
  decoded ← canonical_bytes value
  check_length expected_length decoded
