-- ===== src/Sessions/Channel.antt =====
-- `LiveSessionChannel` of sessions.py. Each method takes the channel and returns it beside what it
-- returns or raises: what was written before an exception stays written.
pub mod Link
pub mod Guard
pub mod Calls
pub mod Delivery
pub mod Direction
pub mod Network
pub mod Introduction
use the_grid.Prelude.{
  ℕ, ◌+◌, ◌≡◌, Bool, true, false, not, ◌&&◌, ◌||◌, Option, none, some, List, [], ltb, ◌==◌, ℕ_eq,
  if◌then◌else◌,
}
use the_grid.Prelude.Result.{
  Result, ok, err, Error, SessionErrorCode, session_error, session_integrity_error, invalid_state,
  invalid_frame, invalid_payload, invalid_tag, wrong_session, wrong_direction, counter, discarded,
  raise_if, ◌>>=◌, ◌>>◌, is_type_or_value_error,
}
use the_grid.Bytes.{Bytes}
use the_grid.Text.{Text}
use the_grid.Models.{CloseReason, close_reason_value}
use the_grid.Crypto.{Primitives, constant_time_equal, zeroise}
use the_grid.Access.Display.{normalise_display_id}
use the_grid.Sessions.Types.{
  SessionRole, creator, same_role, SessionDirection, creator_to_joiner, joiner_to_creator,
  same_direction, SessionEventType, identity, text, close, SessionEvent, session_counter_max,
}
use the_grid.Sessions.Frames.{
  EncryptedSessionFrame, make_encrypted_session_frame, session_nonce, session_associated_data,
}
use the_grid.Sessions.Verification.{verification_code_from_seed}
use the_grid.Sessions.Payload.{encode_session_payload, decode_session_payload}

-- The keys and ids that both participants derive, and the code that they compare.
pub record SessionMaterial : Type 0 where
  pub creator_to_joiner_key : Bytes
  pub joiner_to_creator_key : Bytes
  pub session_id : Bytes
  pub verification_seed : Bytes

pub record Channel : Type 0 where
  pub role : SessionRole
  pub session_id : Bytes
  pub verification_code : Text
  pub send_direction : SessionDirection
  pub receive_direction : SessionDirection
  pub send_key : Bytes
  pub receive_key : Bytes
  pub send_counter : ℕ
  pub receive_counter : ℕ
  pub local_identity_sent : Bool
  pub peer_identity_received : Bool
  pub local_display_id : Option Text
  pub peer_display_id : Option Text
  pub is_discarded : Bool
  pub has_failed : Bool

-- `LiveSessionChannel.__init__`
unfoldable pub new_channel : SessionMaterial → SessionRole → Result Channel
new_channel material role = do
  verification_code ← verification_code_from_seed material.verification_seed
  let is_creator = same_role role creator
  ok (record {
    role = role;
    session_id = material.session_id;
    verification_code = verification_code;
    send_direction = if is_creator then creator_to_joiner else joiner_to_creator;
    receive_direction = if is_creator then joiner_to_creator else creator_to_joiner;
    send_key =
        if is_creator then material.creator_to_joiner_key else material.joiner_to_creator_key;
    receive_key =
        if is_creator then material.joiner_to_creator_key else material.creator_to_joiner_key;
    send_counter = 0;
    receive_counter = 0;
    local_identity_sent = false;
    peer_identity_received = false;
    local_display_id = none;
    peer_display_id = none;
    is_discarded = false;
    has_failed = false;
  })

unfoldable pub is_active : Channel → Bool
is_active ch =
    not ch.is_discarded && not ch.has_failed && ch.local_identity_sent && ch.peer_identity_received

-- `_require_usable` passes.
unfoldable pub is_usable : Channel → Bool
is_usable ch = not (ch.is_discarded || ch.has_failed)

unfoldable pub discard : Channel → Channel
discard ch = if ch.is_discarded then ch else (record ch {
  send_key = zeroise ch.send_key;
  receive_key = zeroise ch.receive_key;
  send_counter = 0;
  receive_counter = 0;
  local_identity_sent = false;
  peer_identity_received = false;
  local_display_id = none;
  peer_display_id = none;
  verification_code = [];
  is_discarded = true;
})

-- `_fail`: it always raises.
unfoldable pub fail : Channel → SessionErrorCode → Channel × Result SessionEvent
unfolding discard
fail ch code = (discard (record ch { has_failed = true }), err (session_integrity_error code))

-- The nonce, the associated data and the body of the next frame.
unfoldable pub sealed_body : Primitives → Channel → Bytes → Result Bytes
sealed_body c ch payload = do
  nonce ← session_nonce ch.send_direction ch.send_counter
  aad ← session_associated_data ch.session_id ch.send_direction ch.send_counter
  ok (c.aead_encrypt ch.send_key nonce payload aad)

unfoldable pub encrypt_payload :
    Primitives → Channel → Bytes → Channel × Result EncryptedSessionFrame
encrypt_payload c ch payload =
    if ltb session_counter_max ch.send_counter
    then (ch, err (session_error invalid_state))
    else (elim (sealed_body c ch payload) [
      | err e ↦ (ch, err e)
      | ok body ↦ (
        record ch { send_counter = ch.send_counter + 1 },
        make_encrypted_session_frame ch.session_id ch.send_direction ch.send_counter body,
      )
    ])

-- The id that is announced, and its payload.
unfoldable pub identity_payload : Text → Result (Text × Bytes)
identity_payload display_id = do
  checked ← normalise_display_id display_id
  payload ← encode_session_payload identity checked
  ok (checked, payload)

-- `encrypt_identity` behind its guards.
unfoldable pub send_identity :
    Primitives → Channel → Text → Bytes → Channel × Result EncryptedSessionFrame
send_identity c ch checked payload =
    let (ch', frame) = encrypt_payload c ch payload in
    elim frame [
      | err e ↦ (ch', err e)
      | ok f ↦ (record ch' { local_identity_sent = true; local_display_id = some checked }, ok f)
    ]

unfoldable pub encrypt_identity :
    Primitives → Channel → Text → Channel × Result EncryptedSessionFrame
unfolding send_identity
encrypt_identity c ch display_id =
    if not (is_usable ch)
    then (ch, err (session_error discarded))
    else if ch.local_identity_sent || not (ch.send_counter == 0)
    then (ch, err (session_error invalid_state))
    else (elim (identity_payload display_id) [
      | err e ↦ (ch, err e)
      | ok (checked, payload) ↦ send_identity c ch checked payload
    ])

unfoldable pub encrypt_text : Primitives → Channel → Text → Channel × Result EncryptedSessionFrame
encrypt_text c ch value =
    if not (is_usable ch)
    then (ch, err (session_error discarded))
    else if not (is_active ch)
    then (ch, err (session_error invalid_state))
    else (elim (encode_session_payload text value) [
      | err e ↦ (ch, err e)
      | ok payload ↦ encrypt_payload c ch payload
    ])

-- `encrypt_close` discards the channel only if its frame could be made.
unfoldable pub send_close : Primitives → Channel → Bytes → Channel × Result EncryptedSessionFrame
send_close c ch payload =
    let (ch', frame) = encrypt_payload c ch payload in
    elim frame [ err e ↦ (ch', err e) | ok f ↦ (discard ch', ok f) ]

unfoldable pub encrypt_close :
    Primitives → Channel → CloseReason → Channel × Result EncryptedSessionFrame
unfolding send_close
encrypt_close c ch reason =
    if not (is_usable ch)
    then (ch, err (session_error discarded))
    else (elim (encode_session_payload close (close_reason_value reason)) [
      | err e ↦ (ch, err e)
      | ok payload ↦ send_close c ch payload
    ])

-- `_validate_received_event`: the identity comes first and once, and a text only after both.
unfoldable pub validate_received_event : Channel → SessionEventType → Result (Unit {0})
validate_received_event ch identity =
    raise_if ch.peer_identity_received (session_error invalid_payload)
validate_received_event ch text =
    raise_if (not ch.peer_identity_received || not ch.local_identity_sent)
      (session_error invalid_payload)
validate_received_event ch close = ok tt

-- What is left of the channel after an event.
unfoldable pub after_event : Channel → SessionEvent → Channel
unfolding discard
after_event ch event =
    let counted = record ch { receive_counter = ch.receive_counter + 1 } in
    elim event.event_type [
      | identity ↦ record counted {
        peer_identity_received = true;
        peer_display_id = some event.value;
      }
      | text ↦ counted
      | close ↦ discard counted
    ]

-- Decoding and validation; every exception of the two is caught.
unfoldable pub checked_event : Channel → Bytes → Result SessionEvent
checked_event ch plaintext = do
  event ← decode_session_payload plaintext
  validate_received_event ch event.event_type
  ok event

unfoldable pub accept_plaintext : Channel → Bytes → Channel × Result SessionEvent
unfolding fail after_event
accept_plaintext ch plaintext = elim (checked_event ch plaintext) [
  | err e ↦ if is_type_or_value_error e then fail ch invalid_payload else (ch, err e)
  | ok event ↦ (after_event ch event, ok event)
]

-- The nonce and the associated data of a frame in hand.
unfoldable pub opening : Channel → EncryptedSessionFrame → Result (Bytes × Bytes)
opening ch frame = do
  nonce ← session_nonce frame.direction frame.counter
  aad ← session_associated_data ch.session_id frame.direction frame.counter
  ok (nonce, aad)

unfoldable pub open_frame :
    Primitives → Channel → EncryptedSessionFrame → Channel × Result SessionEvent
unfolding accept_plaintext
open_frame c ch frame = elim (opening ch frame) [
  | err e ↦ (ch, err e)
  | ok (nonce, aad) ↦ elim (c.aead_decrypt ch.receive_key nonce frame.body aad) [
    | none ↦ fail ch invalid_tag
    | some plaintext ↦ accept_plaintext ch plaintext
  ]
]

unfoldable pub decrypt_frame :
    Primitives → Channel → EncryptedSessionFrame → Channel × Result SessionEvent
unfolding open_frame
decrypt_frame c ch frame =
    if not (is_usable ch)
    then (ch, err (session_error discarded))
    else if not (constant_time_equal frame.session_id ch.session_id)
    then fail ch wrong_session
    else if not (same_direction frame.direction ch.receive_direction)
    then fail ch wrong_direction
    else if not (frame.counter == ch.receive_counter)
    then fail ch counter
    else open_frame c ch frame
