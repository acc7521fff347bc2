-- ===== src/Protocol/Fields/RoundTrip.antt =====
-- Decoding undoes encoding, and an encoding determines its domain and fields.
use the_grid.Prelude.{
  ℕ, suc, ◌+◌, ◌≤◌, ◌<◌, ◌≡◌, refl, List, [], ◌∷◌, ◌++◌, length, take, drop, arith, ltb, beq_refl,
  length-append, take-append_of_length, drop-append_of_length, list_eq, ℕ_eq,
}
use the_grid.Prelude.Result.{ok, encoding_error, >>=-eq-ok, raise_if-eq-ok}
use the_grid.Bytes.{Bytes, to_bytes, from_bytes, length-to_bytes}
use the_grid.Protocol.Fields.{
  encode_items, encode_fields, check_domain, decode_items, decode_fields, max_crypto_field_bytes,
}
use mathlib.Core.List.{append-nil, append_assoc}
use native.Mathlib.Numerals.{add-one}

from_bytes-to_bytes_4 : (n : ℕ) → n < 4294967296 → from_bytes (to_bytes 4 n) ≡ n
unfolding from_bytes to_bytes
from_bytes-to_bytes_4 n h = omega arith

from_bytes-to_bytes_2 : (n : ℕ) → n < 65536 → from_bytes (to_bytes 2 n) ≡ n
unfolding from_bytes to_bytes
from_bytes-to_bytes_2 n h = omega arith

-- One field behind a header of four bytes that holds its length.
decode_item :
    (count : ℕ) (header item rest : Bytes) (values : List Bytes) (after : Bytes)
    → length header ≡ 4
    → from_bytes header ≡ length item
    → length item ≤ max_crypto_field_bytes
    → decode_items count rest ≡ ok (values, after)
    → decode_items (suc count) (header ++ (item ++ rest)) ≡ ok (item ∷ values, after)
unfolding decode_items
decode_item count header item rest values after four size fits h =
    rw
      (
        take-append_of_length 4 header (item ++ rest) four,
        drop-append_of_length 4 header (item ++ rest) four,
        size,
        take-append_of_length (length item) item rest refl,
        drop-append_of_length (length item) item rest refl,
        length-append header (item ++ rest),
        length-append item rest,
        four,
        h,
      )
      (ground arith)

encode_items_inv :
    (item : Bytes) (items : List Bytes) (e : Bytes)
    → encode_items (item ∷ items) ≡ ok e
    → (rest : Bytes) × (length item ≤ max_crypto_field_bytes)
      × (encode_items items ≡ ok rest)
      × (to_bytes 4 (length item) ++ (item ++ rest) ≡ e)
unfolding encode_items
encode_items_inv item items e h =
    let (fits, k) = raise_if-eq-ok (ltb max_crypto_field_bytes (length item)) encoding_error _ h in
    let (rest, p, q) = >>=-eq-ok (encode_items items) _ k in (rest, ground arith, p, ground arith)

decode_items-encode_items :
    (items : List Bytes) (e after : Bytes)
    → encode_items items ≡ ok e
    → decode_items (length items) (e ++ after) ≡ ok (items, after)
decode_items-encode_items [] e after h = unfold encode_items decode_items in ground arith
decode_items-encode_items (item ∷ items) e after h =
    let (rest, fits, p, q) = encode_items_inv item items e h in
    rw (← q, append_assoc, append_assoc)
      (decode_item (length items) (to_bytes 4 (length item)) item (rest ++ after) items after
        (length-to_bytes 4 (length item)) (from_bytes-to_bytes_4 (length item) (omega arith)) fits
        (decode_items-encode_items items rest after p))

-- What a successful encoding says of its parts.
encode_fields_inv :
    (domain : Bytes) (fields : List Bytes) (e : Bytes)
    → encode_fields domain fields ≡ ok e
    → (body : Bytes) × (length fields < 64)
      × (encode_items (domain ∷ fields) ≡ ok body)
      × (to_bytes 2 (length fields + 1) ++ body ≡ e)
unfolding encode_fields
encode_fields_inv domain fields e h =
    let (u, checked, h₁) = >>=-eq-ok (check_domain domain) _ h in
    let (few, h₂) = raise_if-eq-ok (ltb 64 (length (domain ∷ fields))) encoding_error _ h₁ in
    let (body, p, q) = >>=-eq-ok (encode_items (domain ∷ fields)) _ h₂ in
    (body, ground arith, p, ground arith)

-- The count and the items, read back from a successful encoding.
decode_items-encode_fields :
    (domain : Bytes) (fields : List Bytes) (e : Bytes)
    → encode_fields domain fields ≡ ok e
    → (from_bytes (take 2 e) ≡ length fields + 1)
      × (length fields < 64)
      × (2 ≤ length e)
      × (decode_items (length fields + 1) (drop 2 e) ≡ ok (domain ∷ fields, []))
decode_items-encode_fields domain fields e h =
    let (body, few, p, q) = encode_fields_inv domain fields e h in
    let header : Bytes = to_bytes 2 (length fields + 1) in
    let two : length header ≡ 2 = length-to_bytes 2 (length fields + 1) in
    let items = decode_items-encode_items (domain ∷ fields) body [] p in
    rw (← q) (
      rw (take-append_of_length 2 header body two)
          (from_bytes-to_bytes_2 (length fields + 1) (omega arith)),
      few,
      omega (arith, length-append header body),
      rw (drop-append_of_length 2 header body two, add-one) (rw append-nil at items),
    )

-- Any reader that expects as many fields and the same domain gets back exactly the fields.
pub decode_fields-encode_fields :
    (domain : Bytes) (fields : List Bytes) (encoded : Bytes)
    → encode_fields domain fields ≡ ok encoded
    → decode_fields encoded domain (length fields) ≡ ok fields
unfolding decode_fields
decode_fields-encode_fields domain fields encoded h =
    let (count, few, long, items) = decode_items-encode_fields domain fields encoded h in
    rw (count, items) (ground (arith, beq_refl {A = Bytes} domain))

-- Two encodings that agree have the same domain and the same fields.
pub encode_fields-injective :
    (d₁ d₂ : Bytes) (fs₁ fs₂ : List Bytes) (encoded : Bytes)
    → encode_fields d₁ fs₁ ≡ ok encoded
    → encode_fields d₂ fs₂ ≡ ok encoded
    → (d₁ ≡ d₂) × (fs₁ ≡ fs₂)
encode_fields-injective d₁ d₂ fs₁ fs₂ encoded h₁ h₂ =
    let (count₁, few₁, long₁, items₁) = decode_items-encode_fields d₁ fs₁ encoded h₁ in
    let (count₂, few₂, long₂, items₂) = decode_items-encode_fields d₂ fs₂ encoded h₂ in
    (cc (count₁, count₂, items₁, items₂), cc (count₁, count₂, items₁, items₂))
