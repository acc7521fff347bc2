-- ===== src/Sessions/Channel/Introduction.antt =====
-- Two fresh channels exchange their identities and are active from then on.
use the_grid.Prelude.{◌+◌, ◌≡◌, refl, sym, ap, ◌∙◌, true, false, some, length, arith, ℕ_eq}
use the_grid.Prelude.Result.{ok}
use the_grid.Bytes.{Bytes}
use the_grid.Text.{Text}
use the_grid.Crypto.{Primitives, Laws}
use the_grid.Access.Display.{normalise_display_id, normalise_display_id_idem}
use the_grid.Sessions.Types.{SessionEvent, identity}
use the_grid.Sessions.Frames.{EncryptedSessionFrame}
use the_grid.Sessions.Payload.{
  decode_session_payload, decode_session_payload-encode_session_payload, received_value,
  encode_identity_total,
}
use the_grid.Sessions.Channel.{
  Channel, is_active, is_usable, encrypt_payload, encrypt_identity, send_identity, identity_payload,
  decrypt_frame, accept_plaintext, checked_event, after_event, validate_received_event,
}
use the_grid.Sessions.Channel.Link.{IsLinked, transfer}

-- A channel of which nothing has been sent or received.
pub record IsFresh (ch : Channel) : Type 0 where
  pub live : ch.is_discarded ≡ false
  pub sound : ch.has_failed ≡ false
  pub sends_first : ch.send_counter ≡ 0
  pub receives_first : ch.receive_counter ≡ 0
  pub unsent : ch.local_identity_sent ≡ false
  pub unreceived : ch.peer_identity_received ≡ false

-- The channel after it has announced `id`.
abbrev pub announced : Channel → Text → Channel
announced ch id = record (record ch { send_counter = ch.send_counter + 1 }) {
  local_identity_sent = true;
  local_display_id = some id;
}

-- The channel after the peer has announced `id`.
abbrev pub introduced : Channel → Text → Channel
introduced ch id = record (record ch { receive_counter = ch.receive_counter + 1 }) {
  peer_identity_received = true;
  peer_display_id = some id;
}

abbrev pub identity_event : Text → SessionEvent
identity_event id = record { event_type = identity; value = id }

-- The payload of a normal id, and what it is read as.
identity_payload_total :
    (value id : Text)
    → normalise_display_id value ≡ ok id
    → (payload : Bytes) × (identity_payload value ≡ ok (id, payload))
      × (decode_session_payload payload ≡ ok (identity_event id))
unfolding identity_payload
identity_payload_total value id h =
    let (normal, same, three, _) = normalise_display_id_idem value id h in
    let (upper_same, same', _, _) = normalise_display_id_idem id id normal in
    let (payload, e) = encode_identity_total id normal three in
    (
      payload,
      rw (h, e) refl,
      unfold received_value in
          decode_session_payload-encode_session_payload identity id payload e
          ∙ ap (λ x. ok (identity_event x)) (sym same'),
    )

accept_identity :
    (ch : Channel) (payload : Bytes) (id : Text)
    → ch.peer_identity_received ≡ false
    → decode_session_payload payload ≡ ok (identity_event id)
    → accept_plaintext ch payload ≡ (introduced ch id, ok (identity_event id))
unfolding accept_plaintext checked_event after_event validate_received_event
accept_identity ch payload id h e = ground (arith, h, e)

module _ (c : Primitives) where
  encrypt_identity-ok :
      (ch : Channel) (value id : Text) (payload : Bytes) (frame : EncryptedSessionFrame)
      → IsFresh ch
      → identity_payload value ≡ ok (id, payload)
      → encrypt_payload c ch payload ≡ (record ch { send_counter = ch.send_counter + 1 }, ok frame)
      → encrypt_identity c ch value ≡ (announced ch id, ok frame)
  unfolding encrypt_identity send_identity is_usable
  encrypt_identity-ok ch value id payload frame f h e =
      ground (arith, f.live, f.sound, f.sends_first, f.unsent, h, e)

module _ (c : Primitives) (laws : Laws c) where
  -- What one side announces is read by the other, before or after its own announcement.
  announce :
      (a : Channel) (value id : Text)
      → IsFresh a
      → length a.session_id ≡ 16
      → normalise_display_id value ≡ ok id
      → (frame : EncryptedSessionFrame) × (encrypt_identity c a value ≡ (announced a id, ok frame))
        × ((b : Channel)
            → IsLinked a b
            → is_usable b ≡ true
            → b.peer_identity_received ≡ false
            → decrypt_frame c b frame ≡ (introduced b id, ok (identity_event id)))
  announce a value id f sixteen h =
      let (payload, e, d) = identity_payload_total value id h in
      let (frame, sent, opened) =
        transfer c laws a payload sixteen (omega (arith, f.sends_first)) in
      (
        frame,
        encrypt_identity-ok c a value id payload frame f e sent,
        λ b l u p. opened b l u ∙ accept_identity b payload id p d,
      )

pub record Introduced (c : Primitives) (a b : Channel)
    (creator_value joiner_value creator_id joiner_id : Text) : Type 0 where
  pub creator_frame : EncryptedSessionFrame
  pub joiner_frame : EncryptedSessionFrame
  pub creator_announces :
      encrypt_identity c a creator_value ≡ (announced a creator_id, ok creator_frame)
  pub joiner_announces :
      encrypt_identity c b joiner_value ≡ (announced b joiner_id, ok joiner_frame)
  pub creator_reads :
      decrypt_frame c (announced a creator_id) joiner_frame
      ≡ (introduced (announced a creator_id) joiner_id, ok (identity_event joiner_id))
  pub joiner_reads :
      decrypt_frame c (announced b joiner_id) creator_frame
      ≡ (introduced (announced b joiner_id) creator_id, ok (identity_event creator_id))
  pub creator_is_active : is_active (introduced (announced a creator_id) joiner_id) ≡ true
  pub joiner_is_active : is_active (introduced (announced b joiner_id) creator_id) ≡ true

-- Two fresh channels that are linked both ways, with a session id of sixteen bytes, announce their
-- display ids and read each other's; each then shows the other's id in its normal form, and both are
-- active.
pub introduction :
    (c : Primitives) (laws : Laws c) (a b : Channel)
    (creator_value joiner_value creator_id joiner_id : Text)
    → IsFresh a
    → IsFresh b
    → IsLinked a b
    → IsLinked b a
    → length a.session_id ≡ 16
    → normalise_display_id creator_value ≡ ok creator_id
    → normalise_display_id joiner_value ≡ ok joiner_id
    → Introduced c a b creator_value joiner_value creator_id joiner_id
unfolding is_usable is_active
introduction c laws a b creator_value joiner_value creator_id joiner_id fa fb ab ba sixteen ha hb =
    let (frame_a, sent_a, read_a) = announce c laws a creator_value creator_id fa sixteen ha in
    let (frame_b, sent_b, read_b) =
      announce c laws b joiner_value joiner_id fb (omega (arith, sixteen, ap length ab.session))
        hb in
    record {
      creator_frame = frame_a;
      joiner_frame = frame_b;
      creator_announces = sent_a;
      joiner_announces = sent_b;
      creator_reads =
          read_b (announced a creator_id)
            (record {
              session = ba.session;
              direction = ba.direction;
              key = ba.key;
              counters = ba.counters;
            })
            (ground (arith, fa.live, fa.sound)) fa.unreceived;
      joiner_reads =
          read_a (announced b joiner_id)
            (record {
              session = ab.session;
              direction = ab.direction;
              key = ab.key;
              counters = ab.counters;
            })
            (ground (arith, fb.live, fb.sound)) fb.unreceived;
      creator_is_active = ground (arith, fa.live, fa.sound);
      joiner_is_active = ground (arith, fb.live, fb.sound);
    }
