-- ===== src/Tests/Encoding.antt =====
-- Small encodings.
use the_grid.Prelude.{◌≡◌, refl, true, some, [], ◌∷◌, length, arith, any, all, contains, ◌++◌, ◌↔◌}
use the_grid.Prelude.Result.{ok}
use the_grid.Bytes.{Bytes}
use the_grid.Text.{codes, upper, is_ascii}
use the_grid.Text.Utf8.{utf8_encode, utf8_decode, utf8_decode-utf8_encode}
use the_grid.Access.Display.{normalise_display_id, normalise_display_id_iff, is_id_char}
use the_grid.Protocol.Fields.{encode_fields, decode_fields, check_domain}
use the_grid.Protocol.Fields.Total.{encode_fields_total}
use the_grid.Protocol.Fields.Canonical.{decode_fields_iff}
use the_grid.Protocol.Fields.RoundTrip.{decode_fields-encode_fields, encode_fields-injective}
use the_grid.Sessions.Types.{identity}
use the_grid.Sessions.Payload.{
  session_payload_domain, encode_session_payload, decode_session_payload, received_value,
  encode_identity_total, decode_session_payload-encode_session_payload,
}
use the_grid.Tests.Toy.{block}

abbrev domain : Bytes
domain = codes "ab"

domain-checked : check_domain domain ≡ ok tt
unfolding check_domain any all
domain-checked = refl

abbrev encoded : (e : Bytes) × (encode_fields domain (block 3 7 ∷ []) ≡ ok e)
encoded = encode_fields_total domain (block 3 7 ∷ []) domain-checked (omega arith) (omega arith)

-- Two bytes of count, and then each item behind four bytes of length.
abbrev written : Bytes
written = 0 ∷ 2 ∷ 0 ∷ 0 ∷ 0 ∷ 2 ∷ 97 ∷ 98 ∷ 0 ∷ 0 ∷ 0 ∷ 3 ∷ 7 ∷ 7 ∷ 7 ∷ []

decode_fields_iff_example :
    decode_fields written domain 1 ≡ ok (block 3 7 ∷ [])
    ↔ encode_fields domain (block 3 7 ∷ []) ≡ ok written
decode_fields_iff_example =
    decode_fields_iff written domain (block 3 7 ∷ []) (omega arith) domain-checked

decode_fields-encode_fields_example : decode_fields encoded.0 domain 1 ≡ ok (block 3 7 ∷ [])
decode_fields-encode_fields_example =
    decode_fields-encode_fields domain (block 3 7 ∷ []) encoded.0 encoded.1

encode_fields-injective_example : (domain ≡ domain) × ((block 3 7 ∷ []) ≡ (block 3 7 ∷ []))
encode_fields-injective_example =
    encode_fields-injective domain domain (block 3 7 ∷ []) (block 3 7 ∷ []) encoded.0 encoded.1
      encoded.1

-- A euro sign and an a.
euro : utf8_encode (0x20AC ∷ 97 ∷ []) ≡ some (0xE2 ∷ 0x82 ∷ 0xAC ∷ 97 ∷ [])
unfolding utf8_encode
euro = refl

utf8_decode-utf8_encode_example :
    utf8_decode (0xE2 ∷ 0x82 ∷ 0xAC ∷ 97 ∷ []) ≡ some (0x20AC ∷ 97 ∷ [])
utf8_decode-utf8_encode_example =
    utf8_decode-utf8_encode (0x20AC ∷ 97 ∷ []) (0xE2 ∷ 0x82 ∷ 0xAC ∷ 97 ∷ []) euro

abc : normalise_display_id (codes "aB2") ≡ ok (codes "AB2")
unfolding normalise_display_id upper is_ascii any contains
abc = refl

ab2-normal : normalise_display_id (codes "AB2") ≡ ok (codes "AB2")
unfolding normalise_display_id upper is_ascii any contains
ab2-normal = refl

normalise_display_id_iff_example :
    normalise_display_id (codes "aB2") ≡ ok (codes "AB2")
    ↔ (is_ascii (codes "aB2") ≡ true)
      × (codes "AB2" ≡ upper (codes "aB2"))
      × (length (codes "AB2") ≡ 3)
      × (all is_id_char (codes "AB2") ≡ true)
normalise_display_id_iff_example = normalise_display_id_iff (codes "aB2") (codes "AB2")

abbrev payload : (p : Bytes) × (encode_session_payload identity (codes "AB2") ≡ ok p)
payload = encode_identity_total (codes "AB2") ab2-normal refl

session_payload_example :
    decode_session_payload payload.0
    ≡ ok (record { event_type = identity; value = received_value identity (codes "AB2") })
session_payload_example =
    decode_session_payload-encode_session_payload identity (codes "AB2") payload.0 payload.1

-- The payload of the text `hi`.
abbrev hi_payload : Bytes
hi_payload =
    0 ∷ 4 ∷ 0 ∷ 0 ∷ 0 ∷ 18 ∷ session_payload_domain
    ++ 0 ∷ 0 ∷ 0 ∷ 2 ∷ 0 ∷ 1 ∷ 0 ∷ 0 ∷ 0 ∷ 1 ∷ 2 ∷ 0 ∷ 0 ∷ 0 ∷ 2 ∷ codes "hi"
