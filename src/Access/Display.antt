-- ===== src/Access/Display.antt =====
-- `normalise_display_id` and `derive_display_token` of access.py.
use the_grid.Prelude.{
  ℕ, ◌≡◌, refl, Bool, true, not, ◌||◌, some, [], ◌∷◌, map, length, take, all, any, contains, ltb,
  ◌==◌, ℕ_eq, list_eq, arith, ◌↔◌, ◌&&◌, leb, true,
}
use the_grid.Prelude.Result.{
  Result, ok, access_error, invalid_display, raise_if, raise_if-eq-ok, IsCaught,
  is_type_or_value_error, ◌>>=◌, ◌>>◌,
}
use the_grid.Bytes.{Bytes, require_bytes}
use the_grid.Text.{Text, codes, is_ascii, upper, to_upper}
use the_grid.Crypto.{Primitives, hmac_sha256}

-- The letters A to Z and the digits 2 to 9.
abbrev pub display_id_alphabet : Text
display_id_alphabet = codes "ABCDEFGHIJKLMNOPQRSTUVWXYZ23456789"

abbrev pub display_id_length : ℕ
display_id_length = 3

-- The test on the upper-case text.
is_misfit : Text → Bool
is_misfit normalised =
    not (length normalised == display_id_length)
    || any (λ c. not (contains c display_id_alphabet)) normalised

unfoldable pub normalise_display_id : Text → Result Text
unfolding is_misfit
normalise_display_id value = do
  raise_if (not (is_ascii value)) (access_error invalid_display)
  let normalised = upper value
  raise_if (is_misfit normalised) (access_error invalid_display)
  ok normalised

-- The token of sixteen bytes under which a display id is known to the server.
unfoldable pub derive_display_token : Primitives → Bytes → Text → Result Bytes
derive_display_token c display_token_key display_id = do
  key ← require_bytes display_token_key (some 32)
  normalised ← normalise_display_id display_id
  digest ← hmac_sha256 c key normalised
  ok (take 16 digest)

to_upper_idem : (x : ℕ) → to_upper (to_upper x) ≡ to_upper x
unfolding to_upper
to_upper_idem x = ground arith

to_upper-ascii : (x : ℕ) → ltb x 0x80 ≡ true → ltb (to_upper x) 0x80 ≡ true
unfolding to_upper
to_upper-ascii x h = ground arith

map-to_upper_idem : (v : Text) → map to_upper (map to_upper v) ≡ map to_upper v
map-to_upper_idem [] = refl
map-to_upper_idem (x ∷ xs) = cc (to_upper_idem x, map-to_upper_idem xs)

all-to_upper :
    (v : Text) → all (λ x. ltb x 0x80) v ≡ true → all (λ x. ltb x 0x80) (map to_upper v) ≡ true
unfolding all
all-to_upper [] h = refl
all-to_upper (x ∷ xs) h = ground (arith, to_upper-ascii x, all-to_upper xs)

-- A normalised display id is normal, has three characters and is ASCII.
pub normalise_display_id_idem :
    (v n : Text)
    → normalise_display_id v ≡ ok n
    → (normalise_display_id n ≡ ok n) × (n ≡ upper v) × (length n ≡ 3) × (is_ascii n ≡ true)
unfolding normalise_display_id upper is_ascii
normalise_display_id_idem v n h =
    let (ascii, h₁) = raise_if-eq-ok (not (is_ascii v)) (access_error invalid_display) _ h in
    let (fits, h₂) =
      raise_if-eq-ok (is_misfit (upper v)) (access_error invalid_display) (ok (upper v)) h₁ in
    let same : map to_upper v ≡ n = ground arith in
    let small : all (λ x. ltb x 0x80) (map to_upper v) ≡ true = all-to_upper v (ground arith) in
    rw (← same)
      (ground (arith, map-to_upper_idem v, small, fits), refl, ground (arith, fits), small)

-- A letter from A to Z or a digit from 2 to 9.
unfoldable pub is_id_char : ℕ → Bool
is_id_char c = leb b'A' c && leb c b'Z' || leb b'2' c && leb c b'9'

contains-alphabet : (c : ℕ) → contains c display_id_alphabet ≡ is_id_char c
unfolding contains is_id_char
contains-alphabet c = ground arith

strangers : (v : Text) → any (λ c. not (contains c display_id_alphabet)) v ≡ not (all is_id_char v)
unfolding any all
strangers [] = refl
strangers (c ∷ v) = ground (arith, contains-alphabet c, strangers v)

-- A text is accepted as the display id `n` exactly if it is ASCII, `n` is what upper case makes of
-- it, and `n` has three characters, each a letter from A to Z or a digit from 2 to 9.
pub normalise_display_id_iff :
    (v n : Text)
    → normalise_display_id v ≡ ok n
      ↔ (is_ascii v ≡ true) × (n ≡ upper v) × (length n ≡ 3) × (all is_id_char n ≡ true)
unfolding normalise_display_id is_misfit
normalise_display_id_iff v n =
    (λ h. ground (arith, h, strangers (upper v)), λ h. ground (arith, h, strangers (upper v)))

pub normalise_display_id-IsCaught : (v : Text) → IsCaught (normalise_display_id v)
unfolding normalise_display_id is_type_or_value_error
normalise_display_id-IsCaught v = ground (arith)
