-- ===== src/Sessions/Frames.antt =====
-- `EncryptedSessionFrame`, `session_nonce` and `session_associated_data`.
use the_grid.Prelude.{
  ℕ, ◌^◌, ◌<◌, ◌≡◌, refl, sym, ◌∙◌, ◌||◌, some, [], ◌∷◌, ◌++◌, length, ltb, leb, ℕ_eq, list_eq,
  arith, length-append, lt→not-leb, Bool-cases, inl, inr, take, drop, take-append_of_length,
  drop-append_of_length,
}
use the_grid.Prelude.Result.{
  Result, ok, value_error, session_error, invalid_frame, raise_if, reraise, ◌>>=◌, ◌>>◌,
}
use the_grid.Bytes.{Bytes, to_bytes, from_bytes, require_bytes, length-to_bytes}
use the_grid.Text.{codes}
use the_grid.Crypto.{require_bytes_of_length}
use the_grid.Protocol.Fields.{encode_fields}
use the_grid.Sessions.Types.{
  SessionDirection, creator_to_joiner, joiner_to_creator, direction_code, direction_prefix,
  protocol_version_bytes,
}

pub record EncryptedSessionFrame : Type 0 where
  pub session_id : Bytes
  pub direction : SessionDirection
  pub counter : ℕ
  pub body : Bytes

-- protocol.py:require_uint on a value that is no negative number, and `uint64_bytes`.
unfoldable pub require_uint : ℕ → ℕ → Result ℕ
require_uint value bits = do raise_if (leb bits 0 || leb (2 ^ bits) value) value_error; ok value

unfoldable pub uint64_bytes : ℕ → Result Bytes
unfolding require_uint
uint64_bytes value = do checked ← require_uint value 64; ok (to_bytes 8 checked)

-- `EncryptedSessionFrame.__post_init__`
unfoldable pub make_encrypted_session_frame :
    Bytes → SessionDirection → ℕ → Bytes → Result EncryptedSessionFrame
make_encrypted_session_frame session_id direction counter body = do
  checked_id ← reraise (require_bytes session_id (some 16)) (session_error invalid_frame)
  checked_counter ← reraise (require_uint counter 64) (session_error invalid_frame)
  raise_if (ltb (length body) 16) (session_error invalid_frame)
  ok (record {
    session_id = checked_id;
    direction = direction;
    counter = checked_counter;
    body = body;
  })

abbrev pub session_data_aad_domain : Bytes
session_data_aad_domain = codes "session-data-aad-v1"

unfoldable pub session_associated_data : Bytes → SessionDirection → ℕ → Result Bytes
session_associated_data session_id direction counter = do
  checked_id ← require_bytes session_id (some 16)
  counter_bytes ← uint64_bytes counter
  encode_fields session_data_aad_domain
      (protocol_version_bytes ∷ checked_id ∷ direction_code direction ∷ counter_bytes ∷ [])

-- Four bytes of the direction and eight of the counter.
unfoldable pub session_nonce : SessionDirection → ℕ → Result Bytes
session_nonce direction counter = do
  counter_bytes ← uint64_bytes counter
  require_bytes (direction_prefix direction ++ counter_bytes) (some 12)

pub uint64_bytes-ok : (n : ℕ) → n < 2 ^ 64 → uint64_bytes n ≡ ok (to_bytes 8 n)
unfolding uint64_bytes
uint64_bytes-ok n h = rw (lt→not-leb (2 ^ 64) n h)

length-direction_prefix : (d : SessionDirection) → length (direction_prefix d) ≡ 4
unfolding direction_prefix
length-direction_prefix creator_to_joiner = refl
length-direction_prefix joiner_to_creator = refl

pub session_nonce-ok :
    (d : SessionDirection) (n : ℕ)
    → n < 2 ^ 64
    → session_nonce d n ≡ ok (direction_prefix d ++ to_bytes 8 n)
unfolding session_nonce
session_nonce-ok d n h = rw (uint64_bytes-ok n h) (
    require_bytes_of_length _ 12 (
      omega (
        arith,
        length-append (direction_prefix d) (to_bytes 8 n),
        length-direction_prefix d,
        length-to_bytes 8 n,
      )))

session_nonce_inv :
    (d : SessionDirection) (n : ℕ) (nonce : Bytes)
    → session_nonce d n ≡ ok nonce
    → (n < 2 ^ 64) × (direction_prefix d ++ to_bytes 8 n ≡ nonce)
session_nonce_inv d n nonce h = elim (Bool-cases (leb (2 ^ 64) n)) [
  | inl e ↦ absurd (unfold session_nonce uint64_bytes in ground (arith, e, h))
  | inr e ↦ let small : n < 2 ^ 64 = ground arith in (small, cc (session_nonce-ok d n small))
]

direction_prefix-injective :
    (d₁ d₂ : SessionDirection) → direction_prefix d₁ ≡ direction_prefix d₂ → d₁ ≡ d₂
unfolding direction_prefix
direction_prefix-injective creator_to_joiner creator_to_joiner h = refl
direction_prefix-injective creator_to_joiner joiner_to_creator h = absurd (ground arith)
direction_prefix-injective joiner_to_creator creator_to_joiner h = absurd (ground arith)
direction_prefix-injective joiner_to_creator joiner_to_creator h = refl

from_bytes-to_bytes_8 : (n : ℕ) → n < 2 ^ 64 → from_bytes (to_bytes 8 n) ≡ n
unfolding from_bytes to_bytes
from_bytes-to_bytes_8 n h = omega arith

-- What a nonce holds: its first four bytes and its last eight.
nonce_parts :
    (d : SessionDirection) (n : ℕ) (nonce : Bytes)
    → session_nonce d n ≡ ok nonce
    → (take 4 nonce ≡ direction_prefix d) × (from_bytes (drop 4 nonce) ≡ n)
nonce_parts d n nonce h =
    let (small, e) = session_nonce_inv d n nonce h in
    let four = length-direction_prefix d in
    rw
      (
        ← e,
        take-append_of_length 4 (direction_prefix d) (to_bytes 8 n) four,
        drop-append_of_length 4 (direction_prefix d) (to_bytes 8 n) four,
      )
      (refl, from_bytes-to_bytes_8 n small)

-- No two frames of one session share a nonce, unless they share the direction and the counter.
pub session_nonce-injective :
    (d₁ d₂ : SessionDirection) (n₁ n₂ : ℕ) (nonce : Bytes)
    → session_nonce d₁ n₁ ≡ ok nonce
    → session_nonce d₂ n₂ ≡ ok nonce
    → (d₁ ≡ d₂) × (n₁ ≡ n₂)
session_nonce-injective d₁ d₂ n₁ n₂ nonce h₁ h₂ =
    let (p₁, q₁) = nonce_parts d₁ n₁ nonce h₁ in
    let (p₂, q₂) = nonce_parts d₂ n₂ nonce h₂ in
    (direction_prefix-injective d₁ d₂ (sym p₁ ∙ p₂), sym q₁ ∙ q₂)
