-- ===== src/Protocol/Fields.antt =====
-- `encode_fields` and `decode_fields` of protocol.py.
pub mod RoundTrip
pub mod Total
pub mod Canonical
pub mod Errors
use the_grid.Prelude.{
  ℕ, zero, suc, ◌+◌, ◌^◌, Bool, true, false, not, ◌||◌, List, [], ◌∷◌, ◌++◌, length, take, drop,
  any, all, ltb, leb, ◌==◌, ℕ_eq, list_eq,
}
use the_grid.Prelude.Result.{Result, ok, err, encoding_error, raise_if, ◌>>=◌, ◌>>◌}
use the_grid.Bytes.{Bytes, to_bytes, from_bytes}

abbrev pub max_crypto_field_bytes : ℕ
max_crypto_field_bytes = 2 ^ 20

abbrev pub max_crypto_fields : ℕ
max_crypto_fields = 64

-- `PROTOCOL_VERSION_BYTES`
abbrev pub protocol_version_bytes : Bytes
protocol_version_bytes = 0 ∷ 1 ∷ []

unfoldable pub is_empty : Bytes → Bool
is_empty [] = true
is_empty (b ∷ bs) = false

-- The loop that appends each field behind its length.
pub encode_items : List Bytes → Result Bytes
encode_items [] = ok []
encode_items (item ∷ items) = do
  raise_if (ltb max_crypto_field_bytes (length item)) encoding_error
  rest ← encode_items items
  ok (to_bytes 4 (length item) ++ (item ++ rest))

-- The two tests on the domain: non-empty ASCII, then printable.
unfoldable pub check_domain : Bytes → Result (Unit {0})
unfolding is_empty any all
check_domain domain = do
  raise_if (is_empty domain || not (all (λ b. ltb b 0x80) domain)) encoding_error
  raise_if (any (λ b. ltb b 0x21 || ltb 0x7e b) domain) encoding_error

pub encode_fields : Bytes → List Bytes → Result Bytes
encode_fields domain fields = do
  check_domain domain
  raise_if (ltb max_crypto_fields (length (domain ∷ fields))) encoding_error
  encoded ← encode_items (domain ∷ fields)
  ok (to_bytes 2 (length (domain ∷ fields)) ++ encoded)

-- The loop of `count` rounds; the second argument is `data[offset:]`, and what is left of it comes
-- back beside the values.
pub decode_items : ℕ → Bytes → Result (List Bytes × Bytes)
decode_items zero rest = ok ([], rest)
decode_items (suc count) rest = do
  raise_if (ltb (length rest) 4) encoding_error
  let size = from_bytes (take 4 rest)
  let body = drop 4 rest
  raise_if (ltb max_crypto_field_bytes size || ltb (length body) size) encoding_error
  (values, after) ← decode_items count (drop size body)
  ok (take size body ∷ values, after)

-- The tests behind the loop: no trailing bytes, and the expected domain in front.
pub finish_fields : Bytes → List Bytes × Bytes → Result (List Bytes)
finish_fields domain (values, b ∷ after) = err encoding_error
finish_fields domain ([], []) = err encoding_error
finish_fields domain (value ∷ values, []) = do
  raise_if (not (value == domain)) encoding_error
  ok values

pub decode_fields : Bytes → Bytes → ℕ → Result (List Bytes)
unfolding finish_fields
decode_fields encoded expected_domain expected_fields = do
  raise_if (leb max_crypto_fields expected_fields) encoding_error
  raise_if (ltb (length encoded) 2) encoding_error
  let count = from_bytes (take 2 encoded)
  raise_if (not (count == expected_fields + 1)) encoding_error
  parsed ← decode_items count (drop 2 encoded)
  finish_fields expected_domain parsed
