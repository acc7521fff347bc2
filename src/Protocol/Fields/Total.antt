-- ===== src/Protocol/Fields/Total.antt =====
-- Which domains and fields can be encoded.
use the_grid.Prelude.{◌≤◌, ◌<◌, ◌≡◌, refl, List, [], ◌∷◌, ◌++◌, length, All, le→not-ltb}
use the_grid.Prelude.Result.{ok}
use the_grid.Bytes.{Bytes, to_bytes}
use the_grid.Protocol.Fields.{
  encode_items, encode_fields, check_domain, max_crypto_field_bytes, max_crypto_fields,
}

encode_items_total :
    (items : List Bytes)
    → All (λ f. length f ≤ max_crypto_field_bytes) items
    → (e : Bytes) × (encode_items items ≡ ok e)
unfolding encode_items
encode_items_total [] h = ([], refl)
encode_items_total (item ∷ items) h =
    let (e, p) = encode_items_total items h.1 in
    (
      to_bytes 4 (length item) ++ (item ++ e),
      rw (le→not-ltb max_crypto_field_bytes (length item) h.0, p),
    )

-- A valid domain with at most 63 fields, none over 2 ^ 20 bytes, has an encoding.
pub encode_fields_total :
    (domain : Bytes) (fields : List Bytes)
    → check_domain domain ≡ ok tt
    → All (λ f. length f ≤ max_crypto_field_bytes) (domain ∷ fields)
    → length fields < max_crypto_fields
    → (e : Bytes) × (encode_fields domain fields ≡ ok e)
unfolding encode_fields
encode_fields_total domain fields valid fits few =
    let (e, p) = encode_items_total (domain ∷ fields) fits in
    (
      to_bytes 2 (length (domain ∷ fields)) ++ e,
      rw (valid, le→not-ltb max_crypto_fields (length (domain ∷ fields)) few, p),
    )
