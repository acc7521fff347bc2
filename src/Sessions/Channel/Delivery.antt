-- ===== src/Sessions/Channel/Delivery.antt =====
-- Two active channels over a network that keeps the order of each direction: whatever the schedule
-- of sends and receives, texts arrive whole and in order, and no channel fails.
use the_grid.Prelude.{
  ℕ, ◌+◌, ◌≡◌, refl, sym, ap, ◌∙◌, true, List, [], ◌∷◌, ◌++◌, length, ltb, arith, Bool-cases, inl,
  inr, ◌⊎◌,
}
use the_grid.Prelude.Result.{ok, err, Error, Result-cases, session_error, invalid_state}
use the_grid.Bytes.{Bytes}
use the_grid.Text.{Text}
use the_grid.Crypto.{Primitives, Laws}
use the_grid.Sessions.Types.{SessionDirection, SessionEvent, text, session_counter_max}
use the_grid.Sessions.Frames.{EncryptedSessionFrame}
use the_grid.Sessions.Payload.{
  encode_session_payload, decode_session_payload, decode_session_payload-encode_session_payload,
  received_value,
}
use the_grid.Sessions.Channel.{
  Channel, encrypt_payload, encrypt_text, decrypt_frame, accept_plaintext, checked_event,
  after_event, is_usable, is_active, validate_received_event,
}
use the_grid.Sessions.Channel.Link.{transfer}

-- One direction of a session.
pub record Line : Type 0 where
  pub session_id : Bytes
  pub direction : SessionDirection
  pub key : Bytes

-- The channel sends on the line, and its next frame has the counter `n`.
pub record Speaks (l : Line) (a : Channel) (n : ℕ) : Type 0 where
  pub active : is_active a ≡ true
  pub session : a.session_id ≡ l.session_id
  pub direction : a.send_direction ≡ l.direction
  pub key : a.send_key ≡ l.key
  pub counter : a.send_counter ≡ n

-- The channel receives on the line, and expects the counter `n`.
pub record Listens (l : Line) (b : Channel) (n : ℕ) : Type 0 where
  pub active : is_active b ≡ true
  pub session : b.session_id ≡ l.session_id
  pub direction : b.receive_direction ≡ l.direction
  pub key : b.receive_key ≡ l.key
  pub counter : b.receive_counter ≡ n

abbrev pub text_event : Text → SessionEvent
text_event value = record { event_type = text; value = value }

module _ (c : Primitives) where
  -- Whoever listens for the counter `n` reads `value` off the frame and goes on.
  abbrev pub Opens : Line → ℕ → EncryptedSessionFrame → Text → Type 0
  Opens l n frame value =
      (b : Channel)
      → Listens l b n
      → decrypt_frame c b frame ≡ (record b { receive_counter = n + 1 }, ok (text_event value))

  -- The frames of a queue open one after the other, from the counter `n` up to `m`.
  abbrev pub Flight : Line → ℕ → List EncryptedSessionFrame → List Text → ℕ → Type 0
  Flight l n [] [] m = n ≡ m
  Flight l n [] (v ∷ vs) m = ⊥
  Flight l n (f ∷ fs) [] m = ⊥
  Flight l n (f ∷ fs) (v ∷ vs) m = Opens l n f v × Flight l (n + 1) fs vs m

  pub Flight-send :
      (l : Line) (n m : ℕ) (fs : List EncryptedSessionFrame) (vs : List Text)
      (f : EncryptedSessionFrame) (v : Text)
      → Flight l n fs vs m
      → Opens l m f v
      → Flight l n (fs ++ f ∷ []) (vs ++ v ∷ []) (m + 1)
  Flight-send l n m [] [] f v h o = rw h (o, refl)
  Flight-send l n m [] (w ∷ vs) f v h o = absurd h
  Flight-send l n m (g ∷ fs) [] f v h o = absurd h
  Flight-send l n m (g ∷ fs) (w ∷ vs) f v h o = (h.0, Flight-send l (n + 1) m fs vs f v h.1 o)

module _ (c : Primitives) (l : Line) where
  pub Flight-length :
      (n m : ℕ) (fs : List EncryptedSessionFrame) (vs : List Text)
      → Flight c l n fs vs m
      → length vs ≡ length fs
  Flight-length n m [] [] h = refl
  Flight-length n m [] (v ∷ vs) h = absurd h
  Flight-length n m (f ∷ fs) [] h = absurd h
  Flight-length n m (f ∷ fs) (v ∷ vs) h = omega (arith, Flight-length (n + 1) m fs vs h.1)

is_usable-is_active : (b : Channel) → is_active b ≡ true → is_usable b ≡ true
unfolding is_usable is_active
is_usable-is_active b h = ground arith

accept_text :
    (b : Channel) (payload : Bytes) (value : Text)
    → is_active b ≡ true
    → decode_session_payload payload ≡ ok (text_event value)
    → accept_plaintext b payload
      ≡ (record b { receive_counter = b.receive_counter + 1 }, ok (text_event value))
unfolding accept_plaintext checked_event after_event validate_received_event is_active
accept_text b payload value active h = ground (arith, h)

module _ (c : Primitives) where
  -- `encrypt_text` on an active channel.
  encrypt_text-active :
      (a : Channel) (value : Text)
      → is_active a ≡ true
      → encrypt_text c a value ≡ elim (encode_session_payload text value) [
        | err e ↦ (a, err e)
        | ok payload ↦ encrypt_payload c a payload
      ]
  unfolding encrypt_text
  encrypt_text-active a value h = rw (is_usable-is_active a h, h)

  encrypt_payload-exhausted :
      (a : Channel) (payload : Bytes)
      → ltb session_counter_max a.send_counter ≡ true
      → encrypt_payload c a payload ≡ (a, err (session_error invalid_state))
  unfolding encrypt_payload
  encrypt_payload-exhausted a payload h = ground (arith, h)

module _ (c : Primitives) (laws : Laws c) where
  -- A text that can be sent moves the counter on and opens for the listener; one that cannot
  -- changes nothing.
  pub encrypt_text-Opens :
      (l : Line) (a : Channel) (n : ℕ) (value : Text)
      → length l.session_id ≡ 16
      → Speaks l a n
      → ((e : Error) × (encrypt_text c a value ≡ (a, err e)))
        ⊎ ((f : EncryptedSessionFrame) × (encrypt_text c a value
              ≡ (record a { send_counter = a.send_counter + 1 }, ok f))
            × Opens c l n f value)
  encrypt_text-Opens l a n value sixteen s =
      elim (Result-cases (encode_session_payload text value)) [
        | inr (e, h) ↦ inl (e, ground (arith, encrypt_text-active c a value s.active, h))
        | inl (payload, h) ↦ elim (Bool-cases (ltb session_counter_max a.send_counter)) [
          | inl full ↦ inl (
            session_error invalid_state,
            ground (
              arith,
              encrypt_text-active c a value s.active,
              h,
              encrypt_payload-exhausted c a payload full,
            ),
          )
          | inr room ↦
              let (f, sent, opened) =
                transfer c laws a payload (omega (arith, ap length s.session, sixteen))
                  (ground arith) in
              inr (
                f,
                ground (arith, encrypt_text-active c a value s.active, h, sent),
                λ b r.
                    opened b
                      (record {
                        session = r.session ∙ sym s.session;
                        direction = r.direction ∙ sym s.direction;
                        key = r.key ∙ sym s.key;
                        counters = r.counter ∙ sym s.counter;
                      })
                      (is_usable-is_active b r.active)
                    ∙ accept_text b payload value r.active (reads payload h)
                    ∙ ap (λ k. (record b { receive_counter = k + 1 }, ok (text_event value)))
                        r.counter,
              )
        ]
      ]
    where
      reads :
          (payload : Bytes)
          → encode_session_payload text value ≡ ok payload
          → decode_session_payload payload ≡ ok (text_event value)
      reads payload h =
          unfold received_value in
          decode_session_payload-encode_session_payload text value payload h
