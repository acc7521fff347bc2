-- ===== src/Sessions/Channel/Calls.antt =====
-- A channel under any sequence of calls.
use the_grid.Prelude.{
  ℕ, ◌+◌, ◌≤◌, ◌≡◌, true, Option, none, some, List, [], ◌∷◌, ℕ_eq, list_eq, arith, Bool-cases, inl,
  inr,
}
use the_grid.Prelude.Result.{
  Result, ok, err, Error, session_error, session_integrity_error, wrong_session, wrong_direction,
  counter, discarded,
}
use the_grid.Text.{Text}
use the_grid.Models.{CloseReason}
use the_grid.Crypto.{Primitives, constant_time_equal}
use the_grid.Sessions.Types.{same_direction, SessionEvent}
use the_grid.Sessions.Frames.{EncryptedSessionFrame}
use the_grid.Sessions.Channel.{
  Channel, is_usable, discard, fail, after_event, accept_plaintext, open_frame, decrypt_frame,
  encrypt_payload, encrypt_identity, send_identity, encrypt_text, send_close, encrypt_close,
}

pub data ChannelCall : Type 0 where
  calls_encrypt_identity calls_encrypt_text : Text → ChannelCall
  calls_encrypt_close : CloseReason → ChannelCall
  calls_decrypt_frame : EncryptedSessionFrame → ChannelCall
  calls_discard : ChannelCall

-- What the call raised, if it raised.
abbrev pub raised : {A : Type 0} → Channel × Result A → Channel × Option Error
raised (ch, ok a) = (ch, none)
raised (ch, err e) = (ch, some e)

unfoldable pub step : Primitives → Channel → ChannelCall → Channel × Option Error
unfolding encrypt_identity encrypt_text encrypt_close decrypt_frame discard
step c ch (calls_encrypt_identity value) = raised (encrypt_identity c ch value)
step c ch (calls_encrypt_text value) = raised (encrypt_text c ch value)
step c ch (calls_encrypt_close reason) = raised (encrypt_close c ch reason)
step c ch (calls_decrypt_frame frame) = raised (decrypt_frame c ch frame)
step c ch calls_discard = (discard ch, none)

unfoldable pub run : Primitives → Channel → List ChannelCall → Channel
unfolding step
run c ch [] = ch
run c ch (call ∷ calls) = run c (step c ch call).0 calls

-- A usable channel expects the counter `n` or a later one.
abbrev IsPast : ℕ → Channel → Type 0
IsPast n ch = is_usable ch ≡ true → n ≤ ch.receive_counter

module _ (c : Primitives) where
  decrypt_frame-IsPast :
      (n : ℕ) (ch : Channel) (frame : EncryptedSessionFrame)
      → IsPast n ch
      → IsPast n (decrypt_frame c ch frame).0
  unfolding decrypt_frame open_frame accept_plaintext after_event fail discard is_usable
  decrypt_frame-IsPast n ch frame h = ground (arith, h)

  encrypt_text-IsPast :
      (n : ℕ) (ch : Channel) (value : Text) → IsPast n ch → IsPast n (encrypt_text c ch value).0
  unfolding encrypt_text encrypt_payload is_usable
  encrypt_text-IsPast n ch value h = ground (arith, h)

  encrypt_identity-IsPast :
      (n : ℕ) (ch : Channel) (value : Text) → IsPast n ch → IsPast n (encrypt_identity c ch value).0
  unfolding encrypt_identity send_identity encrypt_payload is_usable
  encrypt_identity-IsPast n ch value h = ground (arith, h)

  encrypt_close-IsPast :
      (n : ℕ) (ch : Channel) (value : CloseReason)
      → IsPast n ch
      → IsPast n (encrypt_close c ch value).0
  unfolding encrypt_close send_close encrypt_payload is_usable discard
  encrypt_close-IsPast n ch value h = ground (arith, h)

  raised-IsPast :
      {A : Type 0} (n : ℕ) (r : Channel × Result A) → IsPast n r.0 → IsPast n (raised r).0
  raised-IsPast n (ch, ok a) h = h
  raised-IsPast n (ch, err e) h = h

  discard-IsPast : (n : ℕ) (ch : Channel) → IsPast n ch → IsPast n (discard ch)
  unfolding discard is_usable
  discard-IsPast n ch h = ground (arith, h)

  step-IsPast :
      (n : ℕ) (ch : Channel) (call : ChannelCall) → IsPast n ch → IsPast n (step c ch call).0
  unfolding step
  step-IsPast n ch (calls_encrypt_identity value) h =
      raised-IsPast n (encrypt_identity c ch value) (encrypt_identity-IsPast n ch value h)
  step-IsPast n ch (calls_encrypt_text value) h =
      raised-IsPast n (encrypt_text c ch value) (encrypt_text-IsPast n ch value h)
  step-IsPast n ch (calls_encrypt_close reason) h =
      raised-IsPast n (encrypt_close c ch reason) (encrypt_close-IsPast n ch reason h)
  step-IsPast n ch (calls_decrypt_frame frame) h =
      raised-IsPast n (decrypt_frame c ch frame) (decrypt_frame-IsPast n ch frame h)
  step-IsPast n ch calls_discard h = discard-IsPast n ch h

  run-IsPast :
      (n : ℕ) (ch : Channel) (calls : List ChannelCall) → IsPast n ch → IsPast n (run c ch calls)
  unfolding run
  run-IsPast n ch [] h = h
  run-IsPast n ch (call ∷ calls) h = run-IsPast n (step c ch call).0 calls (step-IsPast n ch call h)

  accepted-IsPast :
      (ch after : Channel) (frame : EncryptedSessionFrame) (event : SessionEvent)
      → decrypt_frame c ch frame ≡ (after, ok event)
      → IsPast (frame.counter + 1) after
  unfolding decrypt_frame open_frame accept_plaintext after_event fail discard is_usable
  accepted-IsPast ch after frame event h = ground (arith, h)

  past-refuses :
      (ch : Channel) (frame : EncryptedSessionFrame)
      → IsPast (frame.counter + 1) ch
      → (e : Error) × ((decrypt_frame c ch frame).1 ≡ err e)
  unfolding decrypt_frame fail is_usable
  past-refuses ch frame h = elim (Bool-cases (is_usable ch)) [
    | inr u ↦ (session_error discarded, ground (arith, u))
    | inl u ↦ elim (Bool-cases (constant_time_equal frame.session_id ch.session_id)) [
      | inr s ↦ (session_integrity_error wrong_session, ground (arith, u, s))
      | inl s ↦ elim (Bool-cases (same_direction frame.direction ch.receive_direction)) [
        | inr d ↦ (session_integrity_error wrong_direction, ground (arith, u, s, d))
        | inl d ↦ (session_integrity_error counter, ground (arith, u, s, d, h u))
      ]
    ]
  ]

-- A frame that was accepted is refused ever after: whatever calls follow, a second `decrypt_frame`
-- of it, or of another frame with its counter, raises.
pub no_frame_twice :
    (c : Primitives) (ch after : Channel) (frame frame' : EncryptedSessionFrame)
    (event : SessionEvent) (calls : List ChannelCall)
    → decrypt_frame c ch frame ≡ (after, ok event)
    → frame'.counter ≡ frame.counter
    → (e : Error) × ((decrypt_frame c (run c after calls) frame').1 ≡ err e)
no_frame_twice c ch after frame frame' event calls h same =
    past-refuses c (run c after calls) frame' (
      rw same
        (run-IsPast c (frame.counter + 1) after calls (accepted-IsPast c ch after frame event h)))

-- What a call of a discarded channel raises.
abbrev pub raised_when_discarded : ChannelCall → Option Error
raised_when_discarded (calls_encrypt_identity value) = some (session_error discarded)
raised_when_discarded (calls_encrypt_text value) = some (session_error discarded)
raised_when_discarded (calls_encrypt_close reason) = some (session_error discarded)
raised_when_discarded (calls_decrypt_frame frame) = some (session_error discarded)
raised_when_discarded calls_discard = none

step-discarded :
    (c : Primitives) (ch : Channel) (call : ChannelCall)
    → ch.is_discarded ≡ true
    → step c ch call ≡ (ch, raised_when_discarded call)
unfolding step encrypt_identity encrypt_text encrypt_close decrypt_frame discard is_usable
step-discarded c ch (calls_encrypt_identity value) h = ground (arith, h)
step-discarded c ch (calls_encrypt_text value) h = ground (arith, h)
step-discarded c ch (calls_encrypt_close reason) h = ground (arith, h)
step-discarded c ch (calls_decrypt_frame frame) h = ground (arith, h)
step-discarded c ch calls_discard h = ground (arith, h)

-- A discarded channel stays what it is under any calls, and every method but `discard` raises.
pub discarded_is_final :
    (c : Primitives) (ch : Channel) (calls : List ChannelCall) (call : ChannelCall)
    → ch.is_discarded ≡ true
    → step c (run c ch calls) call ≡ (ch, raised_when_discarded call)
unfolding run
discarded_is_final c ch [] call h = step-discarded c ch call h
discarded_is_final c ch (next ∷ calls) call h =
    rw (step-discarded c ch next h) (discarded_is_final c ch calls call h)
