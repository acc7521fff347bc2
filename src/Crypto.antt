-- ===== src/Crypto.antt =====
-- crypto.py. The primitives belong to the `cryptography` package and to OpenSSL (hashlib, hmac), so
-- they are parameters: `Primitives` has the calls that the program makes, `Laws` what their
-- documentation promises. The wrappers with their length checks are translated.
use the_grid.Prelude.{
  ℕ, ◌+◌, ◌*◌, ◌≡◌, Bool, not, ◌||◌, Option, some, length, ltb, leb, ◌==◌, list_eq, ℕ_eq, arith,
  map,
}
use the_grid.Prelude.Result.{Result, ok, value_error, raise_if, ◌>>=◌, ◌>>◌}
use the_grid.Bytes.{Bytes, require_bytes}

pub record Primitives : Type 0 where
  -- hashlib.sha256(value).digest()
  pub sha256_digest : Bytes → Bytes
  -- hmac.new(key, value, hashlib.sha256).digest()
  pub hmac_digest : Bytes → Bytes → Bytes
  -- Scrypt(salt, length=32, n, r, p).derive(secret)
  pub scrypt_derive : Bytes → Bytes → Bytes
  -- HKDF(SHA256, length, salt, info).derive(material)
  pub hkdf_derive : Bytes → Option Bytes → Bytes → ℕ → Bytes
  -- ChaCha20Poly1305(key).encrypt(nonce, plaintext, aad)
  pub aead_encrypt : Bytes → Bytes → Bytes → Bytes → Bytes
  -- ChaCha20Poly1305(key).decrypt(nonce, ciphertext, aad); `none` is InvalidTag
  pub aead_decrypt : Bytes → Bytes → Bytes → Bytes → Option Bytes
  -- private_key.public_key().public_bytes(Raw, Raw), of an X25519 private key
  pub public_bytes : Bytes → Bytes
  -- private_key.exchange(X25519PublicKey.from_public_bytes(public)); `none` is ValueError
  pub exchange : Bytes → Bytes → Option Bytes

pub record Laws (c : Primitives) : Type 0 where
  pub length-sha256_digest : (value : Bytes) → length (c.sha256_digest value) ≡ 32
  pub length-hmac_digest : (key value : Bytes) → length (c.hmac_digest key value) ≡ 32
  pub length-scrypt_derive : (secret salt : Bytes) → length (c.scrypt_derive secret salt) ≡ 32
  pub length-hkdf_derive :
      (material : Bytes) (salt : Option Bytes) (info : Bytes) (n : ℕ)
      → length (c.hkdf_derive material salt info n) ≡ n
  pub aead_decrypt-aead_encrypt :
      (key nonce plaintext aad : Bytes)
      → c.aead_decrypt key nonce (c.aead_encrypt key nonce plaintext aad) aad ≡ some plaintext
  -- The tag of sixteen bytes is part of the ciphertext.
  pub length-aead_encrypt :
      (key nonce plaintext aad : Bytes)
      → length (c.aead_encrypt key nonce plaintext aad) ≡ length plaintext + 16
  pub length-public_bytes : (private : Bytes) → length (c.public_bytes private) ≡ 32
  pub length-exchange :
      (private public shared : Bytes) → c.exchange private public ≡ some shared → length shared ≡ 32
  -- Diffie-Hellman.
  pub exchange_comm :
      (a b : Bytes) → c.exchange a (c.public_bytes b) ≡ c.exchange b (c.public_bytes a)

module _ (c : Primitives) where
  unfoldable pub sha256 : Bytes → Bytes
  sha256 value = c.sha256_digest value

  unfoldable pub hmac_sha256 : Bytes → Bytes → Result Bytes
  hmac_sha256 key value = do checked ← require_bytes key (some 32); ok (c.hmac_digest checked value)

  unfoldable pub scrypt_sha256_profile : Bytes → Bytes → Result Bytes
  scrypt_sha256_profile secret salt = do
    salt_bytes ← require_bytes salt (some 32)
    ok (c.scrypt_derive secret salt_bytes)

  unfoldable pub hkdf_sha256 : Bytes → Bytes → Option Bytes → ℕ → Result Bytes
  hkdf_sha256 key_material info salt n = do
    raise_if (not (leb 1 n) || ltb (255 * 32) n) value_error
    ok (c.hkdf_derive key_material salt info n)

-- `hmac.compare_digest`
unfoldable pub constant_time_equal : Bytes → Bytes → Bool
constant_time_equal left right = left == right

-- The source is asked for `n` bytes, and what it returns must have that length.
unfoldable pub random_bytes : ℕ → (ℕ → Bytes) → Result Bytes
random_bytes n source = do raise_if (leb n 0) value_error; require_bytes (source n) (some n)

-- `zeroise`: every byte of the buffer becomes 0.
unfoldable pub zeroise : Bytes → Bytes
zeroise value = map (λ _. 0) value

pub require_bytes_of_length :
    (value : Bytes) (n : ℕ) → length value ≡ n → require_bytes value (some n) ≡ ok value
unfolding require_bytes
require_bytes_of_length value n h = ground arith

module _ (c : Primitives) where
  pub hmac_sha256-ok :
      (key value : Bytes) → length key ≡ 32 → hmac_sha256 c key value ≡ ok (c.hmac_digest key value)
  unfolding hmac_sha256
  hmac_sha256-ok key value h = rw (require_bytes_of_length key 32 h)
