-- ===== src/Tests/Toy.antt =====
-- Primitives that keep the laws, and keep no secret.
use the_grid.Prelude.{
  ℕ, zero, suc, ◌+◌, ◌-◌, ◌≡◌, refl, ap, Option, none, some, [], ◌∷◌, ◌++◌, length, take,
  length-append, take-append_of_length, ltb, arith, if◌then◌else◌, le→not-ltb,
}
use the_grid.Bytes.{Bytes}
use the_grid.Crypto.{Primitives, Laws}

abbrev pub block : ℕ → ℕ → Bytes
block zero x = []
block (suc n) x = x ∷ block n x

abbrev untag : Bytes → Option Bytes
untag body = if ltb (length body) 16 then none else some (take (length body - 16) body)

abbrev pub toy : Primitives
toy = record {
  sha256_digest = λ value. block 32 1;
  hmac_digest = λ key value. block 32 2;
  scrypt_derive = λ secret salt. block 32 3;
  hkdf_derive = λ material salt info n. block n 4;
  aead_encrypt = λ key nonce plaintext aad. plaintext ++ block 16 5;
  aead_decrypt = λ key nonce body aad. untag body;
  public_bytes = λ private. block 32 6;
  exchange = λ private public. some (block 32 7);
}

length-block : (n x : ℕ) → length (block n x) ≡ n
length-block zero x = refl
length-block (suc n) x = ap suc (length-block n x)

untag-append : (p : Bytes) → untag (p ++ block 16 5) ≡ some p
untag-append p =
    let long : length (p ++ block 16 5) ≡ length p + 16 = length-append p (block 16 5) in
    rw (le→not-ltb (length (p ++ block 16 5)) 16 (omega (arith, long))) (
      ap some (
        take-append_of_length (length (p ++ block 16 5) - 16) p (block 16 5) (omega (arith, long))))

pub toy-Laws : Laws toy
toy-Laws = record {
  length-sha256_digest = λ value. refl;
  length-hmac_digest = λ key value. refl;
  length-scrypt_derive = λ secret salt. refl;
  length-hkdf_derive = λ material salt info n. length-block n 4;
  aead_decrypt-aead_encrypt = λ key nonce plaintext aad. untag-append plaintext;
  length-aead_encrypt = λ key nonce plaintext aad. length-append plaintext (block 16 5);
  length-public_bytes = λ private. refl;
  length-exchange = λ private public shared h. ground (arith, h);
  exchange_comm = λ a b. refl;
}
