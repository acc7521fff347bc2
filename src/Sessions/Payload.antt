-- ===== src/Sessions/Payload.antt =====
-- `_encode_session_payload` and `_decode_session_payload`.
pub mod Errors
pub mod Exact
use the_grid.Prelude.{
  ℕ, ◌≤◌, ◌≡◌, refl, ap, Bool, true, false, not, ◌||◌, Option, none, some, List, [], ◌∷◌, length,
  ltb, ◌==◌, ℕ_eq, list_eq, contains, arith, if◌then◌else◌, Option-cases, inl, inr, list_beq,
  list_beq_iff,
}
use the_grid.Prelude.Result.{
  Error, Result, ok, err, session_error, invalid_payload, too_long, raise_if, reraise, ◌>>=◌, ◌>>◌,
  >>=-eq-ok, raise_if-eq-ok, type_error, value_error,
}
use the_grid.Bytes.{Bytes}
use the_grid.Text.{Text, codes, upper, is_ascii, decode_ascii}
use the_grid.Text.Utf8.{utf8_encode, utf8_decode, utf8_decode-utf8_encode}
use the_grid.Models.{
  CloseReason, close_reason_of, close_reason_value, close_reason_of-close_reason_value,
  is_ascii-close_reason_value, close_reason_value_of,
}
use the_grid.Access.Display.{normalise_display_id, normalise_display_id_idem}
use the_grid.Protocol.Fields.{encode_fields, decode_fields, check_domain, max_crypto_field_bytes}
use the_grid.Protocol.Fields.Total.{encode_fields_total}
use the_grid.Protocol.Fields.RoundTrip.{decode_fields-encode_fields}
use the_grid.Sessions.Types.{
  SessionEventType, identity, text, close, SessionEvent, session_text_max_bytes,
  protocol_version_bytes, event_code, event_from_code,
}

abbrev pub session_payload_domain : Bytes
session_payload_domain = codes "session-payload-v1"

-- `m`, or the error where it is `none`: the source catches the exception of a codec or an enum.
abbrev pub some_or {ℓ} : {A : Type ℓ} → Option A → Error → Result A
some_or none e = err e
some_or (some a) e = ok a

encode_text_body : Text → Result Bytes
encode_text_body value = do
  raise_if (contains 0 value) (session_error invalid_payload)
  body ← some_or (utf8_encode value) (session_error invalid_payload)
  raise_if (ltb session_text_max_bytes (length body)) (session_error too_long)
  ok body

-- The body that the type of the event asks for.
encode_body : SessionEventType → Text → Result Bytes
unfolding encode_text_body
encode_body identity value = normalise_display_id value
encode_body text value = encode_text_body value
encode_body close value = do
  reason ← some_or (close_reason_of value) (session_error invalid_payload)
  ok (close_reason_value reason)

pub encode_session_payload : SessionEventType → Text → Result Bytes
encode_session_payload event_type value = do
  body ← encode_body event_type value
  encode_fields session_payload_domain (protocol_version_bytes ∷ event_code event_type ∷ body ∷ [])

pub decode_text_body : Bytes → Result Text
decode_text_body body = do
  raise_if (ltb session_text_max_bytes (length body)) (session_error too_long)
  value ← some_or (utf8_decode body) (session_error invalid_payload)
  raise_if (contains 0 value) (session_error invalid_payload)
  ok value

pub decode_body : SessionEventType → Bytes → Result Text
unfolding decode_text_body
decode_body identity body =
    reraise
      (do
        value ← some_or (decode_ascii body) (session_error invalid_payload)
        normalise_display_id value)
      (session_error invalid_payload)
decode_body text body = decode_text_body body
decode_body close body = do
  value ← some_or (decode_ascii body) (session_error invalid_payload)
  reason ← some_or (close_reason_of value) (session_error invalid_payload)
  ok (close_reason_value reason)

-- Behind the unpacking of the three fields.
pub decode_event : List Bytes → Result SessionEvent
decode_event (version ∷ type_code ∷ body ∷ []) = do
  raise_if (not (version == protocol_version_bytes)) (session_error invalid_payload)
  event_type ← some_or (event_from_code type_code) (session_error invalid_payload)
  value ← decode_body event_type body
  ok (record { event_type = event_type; value = value })
decode_event fields = err (session_error invalid_payload)

pub decode_session_payload : Bytes → Result SessionEvent
decode_session_payload encoded = do
  fields ← reraise (decode_fields encoded session_payload_domain 3) (session_error invalid_payload)
  decode_event fields

-- What the peer reads: an identity in upper case, all else as it was sent.
unfoldable pub received_value : SessionEventType → Text → Text
received_value identity value = upper value
received_value text value = value
received_value close value = value

decode_text_body-encode_text_body :
    (value : Text) (body : Bytes)
    → encode_text_body value ≡ ok body
    → decode_text_body body ≡ ok value
unfolding encode_text_body decode_text_body
decode_text_body-encode_text_body value body h =
    let (clean, h₁) = raise_if-eq-ok (contains 0 value) (session_error invalid_payload) _ h in
    let (b, e, h₂) = >>=-eq-ok (some_or (utf8_encode value) (session_error invalid_payload)) _ h₁ in
    let (short, h₃) =
      raise_if-eq-ok (ltb session_text_max_bytes (length b)) (session_error too_long) (ok b) h₂ in
    let same : b ≡ body = ground (arith, h₃) in
    let encoded : utf8_encode value ≡ some body = ground (arith, e, same) in
    rw (← same, short, utf8_decode-utf8_encode value b (ground (arith, e)), clean)

decode_body-encode_body :
    (event_type : SessionEventType) (value : Text) (body : Bytes)
    → encode_body event_type value ≡ ok body
    → decode_body event_type body ≡ ok (received_value event_type value)
unfolding encode_body decode_body received_value reraise decode_ascii
decode_body-encode_body identity value body h =
    let (normal, same, _, ascii) = normalise_display_id_idem value body h in
    rw (ascii, normal, same)
decode_body-encode_body text value body h = decode_text_body-encode_text_body value body h
decode_body-encode_body close value body h = elim (Option-cases (close_reason_of value)) [
  | inl e ↦ absurd (ground (arith, e))
  | inr (r, e) ↦
      let same : close_reason_value r ≡ body = ground (arith, e) in
      rw (
        ← same,
        is_ascii-close_reason_value r,
        close_reason_of-close_reason_value r,
        close_reason_value_of value r e,
      )
]

pub event_from_code-event_code : (e : SessionEventType) → event_from_code (event_code e) ≡ some e
unfolding event_from_code list_beq
event_from_code-event_code identity = refl
event_from_code-event_code text = refl
event_from_code-event_code close = refl

-- A payload that could be encoded is read back as the same type of event, with its value, an
-- identity in upper case.
pub decode_session_payload-encode_session_payload :
    (event_type : SessionEventType) (value : Text) (payload : Bytes)
    → encode_session_payload event_type value ≡ ok payload
    → decode_session_payload payload
      ≡ ok (record { event_type = event_type; value = received_value event_type value })
unfolding encode_session_payload decode_session_payload decode_event reraise
decode_session_payload-encode_session_payload event_type value payload h =
    let (body, e, h₁) = >>=-eq-ok (encode_body event_type value) _ h in
    rw
      (
        decode_fields-encode_fields session_payload_domain
            (protocol_version_bytes ∷ event_code event_type ∷ body ∷ []) payload h₁,
        reraise,
        event_from_code-event_code event_type,
        decode_body-encode_body event_type value body e,
      )
      (unfold list_beq in refl)

-- A normal display id has a payload.
pub encode_identity_total :
    (id : Text)
    → normalise_display_id id ≡ ok id
    → length id ≡ 3
    → (payload : Bytes) × (encode_session_payload identity id ≡ ok payload)
unfolding encode_session_payload encode_body
encode_identity_total id normal three =
    let (payload, e) =
      encode_fields_total session_payload_domain
        (protocol_version_bytes ∷ event_code identity ∷ id ∷ []) (unfold check_domain in refl)
        (unfold event_code in omega (arith, three)) (omega arith) in
    (payload, rw normal e)
