-- ===== src/Protocol/Base64/RoundTrip.antt =====
-- Decoding of encoded bytes, and the texts that are decoded to given bytes.
use the_grid.Prelude.{
  ℕ, ◌+◌, ◌*◌, ◌/◌, ◌%◌, ◌<◌, ◌≡◌, refl, Bool, true, false, not, ◌&&◌, none, some, [], ◌∷◌, length,
  all, ltb, ◌==◌, ℕ_eq, list_eq, arith, ◌↔◌, ◌≢◌, ap, sym, ◌∙◌, beq_refl, list_beq_iff,
}
use the_grid.Prelude.Result.{Result, ok, err, encoding_error, raise_if-eq-ok, >>=-eq-ok, ◌>>=◌}
use the_grid.Bytes.{Bytes, IsBytes}
use the_grid.Text.{Text, is_ascii}
use the_grid.Protocol.Base64.{
  char_of, digit_of, in_alphabet, b64url_encode, first, second, third, b64decode, decoded_text,
  check_length, is_malformed, canonical_bytes, b64url_decode,
}

digit_of-char_of : (n : ℕ) → n < 64 → digit_of (char_of n) ≡ n
unfolding digit_of char_of
digit_of-char_of n h = ground arith

-- What the encoder writes passes the tests of the decoder.
is_clean : ℕ → Bool
is_clean c = in_alphabet c && not (c == b'=') && ltb c 0x80

char_of-is_clean : (n : ℕ) → is_clean (char_of n) ≡ true
unfolding char_of in_alphabet is_clean
char_of-is_clean n = ground arith

all-is_clean : (bytes : Bytes) → all is_clean (b64url_encode bytes) ≡ true
unfolding b64url_encode all
all-is_clean [] = refl
all-is_clean (a ∷ []) = ground (arith, char_of-is_clean (a / 4), char_of-is_clean (a % 4 * 16))
all-is_clean (a ∷ b ∷ []) = ground (
  arith,
  char_of-is_clean (a / 4),
  char_of-is_clean (a % 4 * 16 + b / 16),
  char_of-is_clean (b % 16 * 4),
)
all-is_clean (a ∷ b ∷ c ∷ rest) = ground (
  arith,
  char_of-is_clean (a / 4),
  char_of-is_clean (a % 4 * 16 + b / 16),
  char_of-is_clean (b % 16 * 4 + c / 64),
  char_of-is_clean (c % 64),
  all-is_clean rest,
)

all-is_clean_parts :
    (v : Text)
    → all is_clean v ≡ true
    → (all in_alphabet v ≡ true)
      × (all (λ c. not (c == b'=')) v ≡ true)
      × (all (λ c. ltb c 0x80) v ≡ true)
unfolding all is_clean
all-is_clean_parts [] h = (refl, refl, refl)
all-is_clean_parts (x ∷ v) h =
    let (h₁, h₂) : (is_clean x ≡ true) × (all is_clean v ≡ true) = ground arith in
    let (a, b, c) = all-is_clean_parts v h₂ in ground (arith, h₁, a, b, c)

clean-not-malformed : (v : Text) → v ≢ [] → all is_clean v ≡ true → is_malformed v ≡ false
unfolding is_malformed is_ascii
clean-not-malformed v n h =
    let (a, b, c) = all-is_clean_parts v h in ground (arith, a, b, c, list_beq_iff v [])

b64url_encode-nonempty : (bytes : Bytes) → bytes ≢ [] → b64url_encode bytes ≢ []
unfolding b64url_encode
b64url_encode-nonempty [] n h = n refl
b64url_encode-nonempty (a ∷ []) n h = cc
b64url_encode-nonempty (a ∷ b ∷ []) n h = cc
b64url_encode-nonempty (a ∷ b ∷ c ∷ rest) n h = cc

first-char_of : (x y : ℕ) → x < 64 → y < 64 → first (char_of x) (char_of y) ≡ x * 4 + y / 16
unfolding first
first-char_of x y h i = rw (digit_of-char_of x h, digit_of-char_of y i) refl

second-char_of : (y z : ℕ) → y < 64 → z < 64 → second (char_of y) (char_of z) ≡ y % 16 * 16 + z / 4
unfolding second
second-char_of y z h i = rw (digit_of-char_of y h, digit_of-char_of z i) refl

third-char_of : (z w : ℕ) → z < 64 → w < 64 → third (char_of z) (char_of w) ≡ z % 4 * 64 + w
unfolding third
third-char_of z w h i = rw (digit_of-char_of z h, digit_of-char_of w i) refl

first_byte :
    (a b : ℕ) → a < 256 → b < 256 → first (char_of (a / 4)) (char_of (a % 4 * 16 + b / 16)) ≡ a
first_byte a b h i =
    first-char_of (a / 4) (a % 4 * 16 + b / 16) (omega arith) (omega arith) ∙ omega arith

second_byte :
    (a b c : ℕ)
    → a < 256
    → b < 256
    → c < 256
    → second (char_of (a % 4 * 16 + b / 16)) (char_of (b % 16 * 4 + c / 64)) ≡ b
second_byte a b c h i j =
    second-char_of (a % 4 * 16 + b / 16) (b % 16 * 4 + c / 64) (omega arith) (omega arith)
    ∙ omega arith

third_byte :
    (b c : ℕ) → b < 256 → c < 256 → third (char_of (b % 16 * 4 + c / 64)) (char_of (c % 64)) ≡ c
third_byte b c h i =
    third-char_of (b % 16 * 4 + c / 64) (c % 64) (omega arith) (omega arith) ∙ omega arith

b64decode-encode : (bytes : Bytes) → IsBytes bytes → b64decode (b64url_encode bytes) ≡ some bytes
unfolding b64decode b64url_encode
b64decode-encode [] h = refl
b64decode-encode (a ∷ []) h =
    ap (λ x. some (x ∷ []))
      (first-char_of (a / 4) (a % 4 * 16) (omega (arith, h.0)) (omega arith) ∙ omega (arith, h.0))
b64decode-encode (a ∷ b ∷ []) h =
    rw
      (
        first_byte a b h.0 h.1.0,
        second-char_of (a % 4 * 16 + b / 16) (b % 16 * 4) (omega (arith, h.1.0)) (omega arith),
      )
      (ap (λ x. some (a ∷ x ∷ [])) (omega (arith, h.0, h.1.0)))
b64decode-encode (a ∷ b ∷ c ∷ rest) h =
    rw
      (
        b64decode-encode rest h.1.1.1,
        first_byte a b h.0 h.1.0,
        second_byte a b c h.0 h.1.0 h.1.1.0,
        third_byte b c h.1.0 h.1.1.0,
      )
      refl

nonempty-decoded :
    (v : Text) (bytes : Bytes) → is_malformed v ≡ false → b64url_encode bytes ≡ v → bytes ≢ []
unfolding is_malformed b64url_encode
nonempty-decoded v [] fine h n = ground (arith, fine, h, list_beq_iff v [])
nonempty-decoded v (a ∷ bytes) fine h n = cc

canonical_bytes_iff :
    (v : Text) (bytes : Bytes)
    → IsBytes bytes
    → (canonical_bytes v ≡ ok bytes) ↔ ((b64url_encode bytes ≡ v) × (bytes ≢ []))
unfolding canonical_bytes decoded_text
canonical_bytes_iff v bytes b = (
  λ h.
      let (fine, h₁) = raise_if-eq-ok (is_malformed v) encoding_error _ h in
      let (d, e, h₂) = >>=-eq-ok (decoded_text v) _ h₁ in
      let (same, h₃) = raise_if-eq-ok (not (b64url_encode d == v)) encoding_error (ok d) h₂ in
      let value : d ≡ bytes = ground arith in
      let back : b64url_encode d ≡ v = ground (arith, same, list_beq_iff (b64url_encode d) v) in
      let encoded = ap b64url_encode (sym value) ∙ back in
      (encoded, nonempty-decoded v bytes fine encoded),
  λ (same, n). rw (← same) (
      ground (
        arith,
        clean-not-malformed (b64url_encode bytes) (b64url_encode-nonempty bytes n)
            (all-is_clean bytes),
        b64decode-encode bytes b,
        beq_refl {A = Text} (b64url_encode bytes),
      )),
)

-- Text is decoded, without an expected length, to given bytes exactly when it is the encoding of
-- them and they are not empty.
pub b64url_decode_iff :
    (v : Text) (bytes : Bytes)
    → IsBytes bytes
    → (b64url_decode v none ≡ ok bytes) ↔ ((b64url_encode bytes ≡ v) × (bytes ≢ []))
unfolding b64url_decode check_length
b64url_decode_iff v bytes b =
    let (f, g) = canonical_bytes_iff v bytes b in (λ h. f (ground arith), λ h. ground (arith, g h))

checked-sized :
    (m : Result Bytes) (size : ℕ) (bytes : Bytes)
    → ((m >>= check_length (some size)) ≡ ok bytes)
      ↔ (((m >>= check_length none) ≡ ok bytes) × (length bytes ≡ size))
unfolding check_length
checked-sized (ok d) size bytes = (λ h. ground arith, λ h. ground arith)
checked-sized (err x) size bytes = (λ h. cc, λ h. cc)

pub b64url_decode_sized :
    (t : Text) (size : ℕ) (bytes : Bytes)
    → (b64url_decode t (some size) ≡ ok bytes)
      ↔ ((b64url_decode t none ≡ ok bytes) × (length bytes ≡ size))
unfolding b64url_decode
b64url_decode_sized t size bytes = checked-sized (canonical_bytes t) size bytes
