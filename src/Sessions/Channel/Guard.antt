-- ===== src/Sessions/Channel/Guard.antt =====
-- What `decrypt_frame` lets through, and what a channel is after it has refused a frame.
use the_grid.Prelude.{
  ◌^◌, ◌<◌, ◌≡◌, refl, sym, ap, ◌∙◌, true, false, none, some, [], length, ◌==◌, ℕ_eq, list_eq,
  arith, Bool-cases, Option-cases, inl, inr, ◌⊎◌, list_beq_iff,
}
use the_grid.Prelude.Result.{
  Result, ok, err, Error, SessionErrorCode, session_integrity_error, wrong_session, wrong_direction,
  counter, invalid_tag, invalid_payload, is_type_or_value_error, IsCaught, >>=-IsCaught,
  err-IsCaught, Result-cases, >>=-eq-ok,
}
use the_grid.Bytes.{Bytes}
use the_grid.Crypto.{Primitives, constant_time_equal, zeroise}
use the_grid.Sessions.Types.{
  SessionDirection, creator_to_joiner, joiner_to_creator, same_direction, SessionEventType,
  SessionEvent, identity, text, close,
}
use the_grid.Sessions.Frames.{
  EncryptedSessionFrame, session_nonce, session_nonce-ok, session_associated_data,
}
use the_grid.Sessions.Payload.{decode_session_payload}
use the_grid.Sessions.Payload.Errors.{decode_session_payload-IsCaught}
use the_grid.Sessions.Channel.{
  Channel, is_usable, discard, fail, validate_received_event, after_event, checked_event,
  accept_plaintext, opening, open_frame, decrypt_frame,
}
use the_grid.Sessions.Channel.Link.{session_associated_data_total}

-- What is left of a channel that has refused a frame: nothing that could send, receive or be shown.
pub record IsDead (before after : Channel) : Type 0 where
  pub failed : after.has_failed ≡ true
  pub gone : after.is_discarded ≡ true
  pub send_key : after.send_key ≡ zeroise before.send_key
  pub receive_key : after.receive_key ≡ zeroise before.receive_key
  pub verification_code : after.verification_code ≡ []
  pub local_display_id : after.local_display_id ≡ none
  pub peer_display_id : after.peer_display_id ≡ none

-- What holds of a frame that a channel takes for an event.
pub record IsAuthentic (c : Primitives) (ch : Channel) (frame : EncryptedSessionFrame)
    (event : SessionEvent) : Type 0 where
  pub nonce : Bytes
  pub aad : Bytes
  pub plaintext : Bytes
  pub session : frame.session_id ≡ ch.session_id
  pub direction : frame.direction ≡ ch.receive_direction
  pub in_turn : frame.counter ≡ ch.receive_counter
  pub nonce_made : session_nonce frame.direction frame.counter ≡ ok nonce
  pub aad_made : session_associated_data ch.session_id frame.direction frame.counter ≡ ok aad
  pub opened : c.aead_decrypt ch.receive_key nonce frame.body aad ≡ some plaintext
  pub decoded : decode_session_payload plaintext ≡ ok event
  pub allowed : validate_received_event ch event.event_type ≡ ok tt

same_direction-eq : (d e : SessionDirection) → same_direction d e ≡ true → d ≡ e
unfolding same_direction
same_direction-eq creator_to_joiner creator_to_joiner h = refl
same_direction-eq creator_to_joiner joiner_to_creator h = cc
same_direction-eq joiner_to_creator creator_to_joiner h = cc
same_direction-eq joiner_to_creator joiner_to_creator h = refl

usable-parts :
    (ch : Channel) → is_usable ch ≡ true → (ch.is_discarded ≡ false) × (ch.has_failed ≡ false)
unfolding is_usable
usable-parts ch h = ground (arith)

-- A failure leaves a dead channel.
fail-IsDead :
    (ch : Channel) (code : SessionErrorCode)
    → is_usable ch ≡ true
    → (after : Channel) × (fail ch code ≡ (after, err (session_integrity_error code)))
      × IsDead ch after
unfolding fail discard
fail-IsDead ch code h =
    let live = (usable-parts ch h).0 in
    (
      record (record ch { has_failed = true }) {
        send_key = zeroise ch.send_key;
        receive_key = zeroise ch.receive_key;
        send_counter = 0;
        receive_counter = 0;
        local_identity_sent = false;
        peer_identity_received = false;
        local_display_id = none;
        peer_display_id = none;
        verification_code = [];
        is_discarded = true;
      },
      rw live refl,
      record {
        failed = refl;
        gone = refl;
        send_key = refl;
        receive_key = refl;
        verification_code = refl;
        local_display_id = refl;
        peer_display_id = refl;
      },
    )

validate_received_event-IsCaught :
    (ch : Channel) (t : SessionEventType) → IsCaught (validate_received_event ch t)
unfolding validate_received_event is_type_or_value_error
validate_received_event-IsCaught ch identity = ground (arith)
validate_received_event-IsCaught ch text = ground (arith)
validate_received_event-IsCaught ch close = tt

checked_event-IsCaught : (ch : Channel) (plaintext : Bytes) → IsCaught (checked_event ch plaintext)
unfolding checked_event
checked_event-IsCaught ch plaintext =
    search (>>=-IsCaught, decode_session_payload-IsCaught, validate_received_event-IsCaught)

checked_event_inv :
    (ch : Channel) (plaintext : Bytes) (event : SessionEvent)
    → checked_event ch plaintext ≡ ok event
    → (decode_session_payload plaintext ≡ ok event)
      × (validate_received_event ch event.event_type ≡ ok tt)
unfolding checked_event
checked_event_inv ch plaintext event h =
    let (e, d, r) = >>=-eq-ok (decode_session_payload plaintext) _ h in
    let (u, v, s) = >>=-eq-ok (validate_received_event ch e.event_type) _ r in
    let same : e ≡ event = ground (arith, s) in
    (d ∙ ap ok same, ap (λ x. validate_received_event ch x.event_type) (sym same) ∙ v)

-- Either the frame is authentic and its event is what comes back, or the channel is dead.
abbrev pub Outcome :
    Primitives → Channel → EncryptedSessionFrame → Channel × Result SessionEvent → Type 0
Outcome c ch frame outcome =
    ((event : SessionEvent) × (outcome ≡ (after_event ch event, ok event))
      × IsAuthentic c ch frame event)
    ⊎ ((after : Channel) × (code : SessionErrorCode) × (outcome
          ≡ (after, err (session_integrity_error code)))
        × IsDead ch after)

module _ (c : Primitives) (ch : Channel) (frame : EncryptedSessionFrame)
    (usable : is_usable ch ≡ true) where
  refuse :
      (outcome : Channel × Result SessionEvent) (code : SessionErrorCode)
      → outcome ≡ fail ch code
      → Outcome c ch frame outcome
  refuse outcome code h =
      let (after, e, dead) = fail-IsDead ch code usable in inr (after, code, h ∙ e, dead)

  accept_plaintext-err :
      (plaintext : Bytes) (e : Error)
      → checked_event ch plaintext ≡ err e
      → accept_plaintext ch plaintext ≡ fail ch invalid_payload
  unfolding accept_plaintext
  accept_plaintext-err plaintext e h = ground (
    arith,
    h,
    err-IsCaught (checked_event ch plaintext) e (checked_event-IsCaught ch plaintext) h,
  )

  accept_plaintext-ok :
      (plaintext : Bytes) (event : SessionEvent)
      → checked_event ch plaintext ≡ ok event
      → accept_plaintext ch plaintext ≡ (after_event ch event, ok event)
  unfolding accept_plaintext
  accept_plaintext-ok plaintext event h = ground (arith, h)

  opening_total :
      length ch.session_id ≡ 16
      → frame.counter < 2 ^ 64
      → (nonce : Bytes) × (aad : Bytes) × (session_nonce frame.direction frame.counter ≡ ok nonce)
        × (session_associated_data ch.session_id frame.direction frame.counter ≡ ok aad)
        × (opening ch frame ≡ ok (nonce, aad))
  unfolding opening
  opening_total sixteen small =
      let (aad, e) =
        session_associated_data_total ch.session_id frame.direction frame.counter sixteen small in
      let n = session_nonce-ok frame.direction frame.counter small in (_, aad, n, e, rw (n, e) refl)

  open_frame-none :
      (nonce aad : Bytes)
      → opening ch frame ≡ ok (nonce, aad)
      → c.aead_decrypt ch.receive_key nonce frame.body aad ≡ none
      → open_frame c ch frame ≡ fail ch invalid_tag
  unfolding open_frame
  open_frame-none nonce aad h e = ground (arith, h, e)

  open_frame-some :
      (nonce aad plaintext : Bytes)
      → opening ch frame ≡ ok (nonce, aad)
      → c.aead_decrypt ch.receive_key nonce frame.body aad ≡ some plaintext
      → open_frame c ch frame ≡ accept_plaintext ch plaintext
  unfolding open_frame
  open_frame-some nonce aad plaintext h e = ground (arith, h, e)

  open_frame-Outcome :
      length ch.session_id ≡ 16
      → frame.counter < 2 ^ 64
      → frame.session_id ≡ ch.session_id
      → frame.direction ≡ ch.receive_direction
      → frame.counter ≡ ch.receive_counter
      → Outcome c ch frame (open_frame c ch frame)
  open_frame-Outcome sixteen small s d n =
      let (nonce, aad, hn, ha, ho) = opening_total sixteen small in
      elim (Option-cases (c.aead_decrypt ch.receive_key nonce frame.body aad)) [
        | inl e ↦ refuse _ invalid_tag (open_frame-none nonce aad ho e)
        | inr (plaintext, e) ↦ elim (Result-cases (checked_event ch plaintext)) [
          | inr (x, h) ↦
              refuse _ invalid_payload
                (open_frame-some nonce aad plaintext ho e ∙ accept_plaintext-err plaintext x h)
          | inl (event, h) ↦
              let (decoded, allowed) = checked_event_inv ch plaintext event h in
              inl (
                event,
                open_frame-some nonce aad plaintext ho e ∙ accept_plaintext-ok plaintext event h,
                record {
                  nonce = nonce;
                  aad = aad;
                  plaintext = plaintext;
                  session = s;
                  direction = d;
                  in_turn = n;
                  nonce_made = hn;
                  aad_made = ha;
                  opened = e;
                  decoded = decoded;
                  allowed = allowed;
                },
              )
        ]
      ]

-- On a usable channel whose session id has sixteen bytes and whose counter fits in 64 bits,
-- `decrypt_frame` returns an event only for a frame of this session and direction, with the counter
-- that is next, whose body opens under the receive key and decodes to that event, which is allowed
-- in the channel's state. On every other frame it raises an integrity error and leaves a channel
-- that has failed, is discarded and has its keys zeroed.
pub decrypt_frame_outcome :
    (c : Primitives) (ch : Channel) (frame : EncryptedSessionFrame)
    → is_usable ch ≡ true
    → length ch.session_id ≡ 16
    → ch.receive_counter < 2 ^ 64
    → Outcome c ch frame (decrypt_frame c ch frame)
unfolding decrypt_frame constant_time_equal
decrypt_frame_outcome c ch frame usable sixteen small =
    elim (Bool-cases (frame.session_id == ch.session_id)) [
      | inr s ↦ refuse c ch frame usable _ wrong_session (rw (usable, s) refl)
      | inl s ↦ elim (Bool-cases (same_direction frame.direction ch.receive_direction)) [
        | inr d ↦ refuse c ch frame usable _ wrong_direction (rw (usable, s, d) refl)
        | inl d ↦ elim (Bool-cases (frame.counter == ch.receive_counter)) [
          | inr n ↦ refuse c ch frame usable _ counter (rw (usable, s, d, n) refl)
          | inl n ↦
              let same : frame.counter ≡ ch.receive_counter = ground arith in
              rw (usable, s, d, n)
                (open_frame-Outcome c ch frame usable sixteen (omega (arith, same))
                  ((list_beq_iff frame.session_id ch.session_id).0 s)
                  (same_direction-eq frame.direction ch.receive_direction d) same)
        ]
      ]
    ]
