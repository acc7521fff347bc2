-- ===== src/Protocol/Fields/Canonical.antt =====
-- Decoding accepts nothing but what encoding makes.
use the_grid.Prelude.{
  ℕ, zero, suc, ◌+◌, ◌≤◌, ◌≡◌, ◌↔◌, refl, sym, ap, ◌∙◌, List, [], ◌∷◌, ◌++◌, length, take, drop,
  arith, ltb, leb, ◌||◌, ◌==◌, ℕ_eq, list_eq, list_beq_iff, not,
}
use the_grid.Prelude.Result.{ok, encoding_error, >>=-eq-ok, raise_if-eq-ok}
use the_grid.Bytes.{Bytes, IsBytes, to_bytes, from_bytes}
use the_grid.Protocol.Fields.{
  encode_items, encode_fields, check_domain, decode_items, decode_fields, finish_fields,
  max_crypto_field_bytes,
}
use the_grid.Protocol.Fields.RoundTrip.{decode_fields-encode_fields}
use mathlib.Core.Path.{subst}
use mathlib.Core.List.{append-nil, append_assoc}

length-take : (n : ℕ) (xs : Bytes) → n ≤ length xs → length (take n xs) ≡ n
length-take zero xs h = refl
length-take (suc n) [] h = absurd (omega arith)
length-take (suc n) (x ∷ xs) h = ap suc (length-take n xs (omega arith))

take-drop : (n : ℕ) (xs : Bytes) → take n xs ++ drop n xs ≡ xs
take-drop zero xs = refl
take-drop (suc n) [] = refl
take-drop (suc n) (x ∷ xs) = ap (◌∷◌ x) (take-drop n xs)

take-IsBytes : (n : ℕ) (xs : Bytes) → IsBytes xs → IsBytes (take n xs)
take-IsBytes zero xs h = tt
take-IsBytes (suc n) [] h = tt
take-IsBytes (suc n) (x ∷ xs) h = (h.0, take-IsBytes n xs h.1)

drop-IsBytes : (n : ℕ) (xs : Bytes) → IsBytes xs → IsBytes (drop n xs)
drop-IsBytes zero xs h = h
drop-IsBytes (suc n) [] h = tt
drop-IsBytes (suc n) (x ∷ xs) h = drop-IsBytes n xs h.1

to_bytes-from_bytes_2 : (h : Bytes) → length h ≡ 2 → IsBytes h → to_bytes 2 (from_bytes h) ≡ h
unfolding to_bytes from_bytes
to_bytes-from_bytes_2 [] n h = absurd (omega arith)
to_bytes-from_bytes_2 (a ∷ []) n h = absurd (omega arith)
to_bytes-from_bytes_2 (a ∷ b ∷ []) n h = ground (arith, h)
to_bytes-from_bytes_2 (a ∷ b ∷ x ∷ y) n h = absurd (omega arith)

to_bytes-from_bytes_4 : (h : Bytes) → length h ≡ 4 → IsBytes h → to_bytes 4 (from_bytes h) ≡ h
unfolding to_bytes from_bytes
to_bytes-from_bytes_4 [] n h = absurd (omega arith)
to_bytes-from_bytes_4 (a ∷ []) n h = absurd (omega arith)
to_bytes-from_bytes_4 (a ∷ b ∷ []) n h = absurd (omega arith)
to_bytes-from_bytes_4 (a ∷ b ∷ c ∷ []) n h = absurd (omega arith)
to_bytes-from_bytes_4 (a ∷ b ∷ c ∷ d ∷ []) n h = ground (arith, h)
to_bytes-from_bytes_4 (a ∷ b ∷ c ∷ d ∷ x ∷ y) n h = absurd (omega arith)

encode_item :
    (item : Bytes) (items : List Bytes) (e : Bytes)
    → length item ≤ max_crypto_field_bytes
    → encode_items items ≡ ok e
    → encode_items (item ∷ items) ≡ ok (to_bytes 4 (length item) ++ (item ++ e))
unfolding encode_items
encode_item item items e fits h = ground (arith, fits, h)

-- The items in front of what is left are encoded by the bytes in front of it.
abbrev Decoded : ℕ → Bytes → List Bytes × Bytes → Type 0
Decoded count rest parsed =
    (e : Bytes) × (encode_items parsed.0 ≡ ok e)
    × (e ++ parsed.1 ≡ rest)
    × (length parsed.0 ≡ count)

item-Decoded :
    (count : ℕ) (rest : Bytes) (parsed : List Bytes × Bytes)
    → IsBytes rest
    → 4 ≤ length rest
    → from_bytes (take 4 rest) ≤ max_crypto_field_bytes
    → from_bytes (take 4 rest) ≤ length (drop 4 rest)
    → let size = from_bytes (take 4 rest) in
      let body = drop 4 rest in
      Decoded count (drop size body) parsed
      → Decoded (suc count) rest (take size body ∷ parsed.0, parsed.1)
item-Decoded count rest (values, after) bytes long fits inside (e, made, joined, counted) =
    let size = from_bytes (take 4 rest) in
    let body = drop 4 rest in
    let item = take size body in
    let four : length item ≡ size = length-take size body inside in
    let header : to_bytes 4 (length item) ≡ take 4 rest =
      ap (to_bytes 4) four
      ∙ to_bytes-from_bytes_4 (take 4 rest) (length-take 4 rest long) (take-IsBytes 4 rest bytes) in
    (
      to_bytes 4 (length item) ++ (item ++ e),
      encode_item item values e (omega (arith, four, fits)) made,
      rw (append_assoc, append_assoc, joined, take-drop size body, header) (take-drop 4 rest),
      ap suc counted,
    )

decode_items-Decoded :
    (count : ℕ) (rest : Bytes) (parsed : List Bytes × Bytes)
    → IsBytes rest
    → decode_items count rest ≡ ok parsed
    → Decoded count rest parsed
unfolding decode_items encode_items
decode_items-Decoded zero rest parsed bytes h =
    let same : ([], rest) ≡ parsed = ground (arith, h) in
    subst (Decoded zero rest) same ([], refl, refl, refl)
decode_items-Decoded (suc count) rest parsed bytes h =
    let size = from_bytes (take 4 rest) in
    let body = drop 4 rest in
    let (long, h₁) = raise_if-eq-ok (ltb (length rest) 4) encoding_error _ h in
    let (fits, h₂) =
      raise_if-eq-ok (ltb max_crypto_field_bytes size || ltb (length body) size) encoding_error _
        h₁ in
    let (inner, read, h₃) = >>=-eq-ok (decode_items count (drop size body)) _ h₂ in
    let same : (take size body ∷ inner.0, inner.1) ≡ parsed = ground (arith, h₃) in
    subst (Decoded (suc count) rest) same (
      item-Decoded count rest inner bytes (ground (arith, long)) (ground (arith, fits))
        (ground (arith, fits))
        (decode_items-Decoded count (drop size body) inner
          (drop-IsBytes size body (drop-IsBytes 4 rest bytes)) read))

finish_fields-eq-ok :
    (domain : Bytes) (parsed : List Bytes × Bytes) (fields : List Bytes)
    → finish_fields domain parsed ≡ ok fields
    → (parsed.0 ≡ domain ∷ fields) × (parsed.1 ≡ [])
unfolding finish_fields
finish_fields-eq-ok domain (values, b ∷ after) fields h = cc
finish_fields-eq-ok domain ([], []) fields h = cc
finish_fields-eq-ok domain (value ∷ values, []) fields h =
    (ground (arith, h, list_beq_iff value domain), refl)

decode_fields-encoded :
    (encoded domain : Bytes) (n : ℕ) (fields : List Bytes)
    → IsBytes encoded
    → check_domain domain ≡ ok tt
    → decode_fields encoded domain n ≡ ok fields
    → encode_fields domain fields ≡ ok encoded
unfolding decode_fields encode_fields
decode_fields-encoded encoded domain n fields bytes checked h =
    let count = from_bytes (take 2 encoded) in
    let (few, h₁) = raise_if-eq-ok (leb 64 n) encoding_error _ h in
    let (long, h₂) = raise_if-eq-ok (ltb (length encoded) 2) encoding_error _ h₁ in
    let (exact, h₃) = raise_if-eq-ok (not (count == n + 1)) encoding_error _ h₂ in
    let (parsed, read, h₄) = >>=-eq-ok (decode_items count (drop 2 encoded)) _ h₃ in
    let (values, rest) = finish_fields-eq-ok domain parsed fields h₄ in
    let (e, made, joined, counted) =
      decode_items-Decoded count (drop 2 encoded) parsed (drop-IsBytes 2 encoded bytes) read in
    let items : encode_items (domain ∷ fields) ≡ ok e = ap encode_items (sym values) ∙ made in
    let number : length (domain ∷ fields) ≡ count = ap length (sym values) ∙ counted in
    let behind : e ≡ drop 2 encoded = sym (append-nil e) ∙ ap (λ x. e ++ x) (sym rest) ∙ joined in
    let header : to_bytes 2 (length (domain ∷ fields)) ≡ take 2 encoded =
      ap (to_bytes 2) number
      ∙ to_bytes-from_bytes_2 (take 2 encoded) (length-take 2 encoded (ground (arith, long)))
          (take-IsBytes 2 encoded bytes) in
    let whole : to_bytes 2 (length (domain ∷ fields)) ++ e ≡ encoded =
      ap (λ x. x ++ e) header ∙ ap (λ x. take 2 encoded ++ x) behind ∙ take-drop 2 encoded in
    ground (arith, checked, items, whole, number, exact, few)

-- Let `encoded` be bytes and the domain one that can be encoded. Then decoding with this domain and
-- this number of fields gives the fields exactly if they are encoded to these very bytes.
pub decode_fields_iff :
    (encoded domain : Bytes) (fields : List Bytes)
    → IsBytes encoded
    → check_domain domain ≡ ok tt
    → decode_fields encoded domain (length fields) ≡ ok fields
      ↔ encode_fields domain fields ≡ ok encoded
decode_fields_iff encoded domain fields bytes checked = (
  decode_fields-encoded encoded domain (length fields) fields bytes checked,
  decode_fields-encode_fields domain fields encoded,
)
