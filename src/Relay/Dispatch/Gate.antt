-- ===== src/Relay/Dispatch/Gate.antt =====
-- What `_handle_frame` keeps before a connection has proved the access phrase: whatever the queue,
-- the greeting and the proof keep.
use the_grid.Prelude.{
  ℕ, ◌≡◌, Bool, true, false, not, Option, some, ◌==◌, ℕ_eq, list_eq, if◌then◌else◌,
}
use the_grid.Prelude.Dict.{lookup}
use the_grid.Prelude.Result.{Result, ok, err, Error, is_type_or_value_error}
use the_grid.Bytes.{Bytes}
use the_grid.Text.{Text, codes}
use the_grid.Crypto.{Primitives}
use the_grid.Access.Proof.{AccessChallengeVerifier}
use the_grid.Protocol.Frames.{Frame, require_frame_string, require_request_id}
use the_grid.Relay.State.{RelayServer, Action}
use the_grid.Relay.Events.{send_event, send_error, send_response}
use the_grid.Relay.Handlers.{handle_hello, handle_access_proof, greet, answer_proof}
use the_grid.Relay.Keeps.{
  Keeps, IgnoresQueue, check-keeps, if-keeps, branch-keeps, >>=-Keeps, lift-Keeps, return-Keeps,
  get-Keeps, modify-Keeps, send_event-Keeps, send_response-Keeps, send_error-Keeps,
}
use the_grid.Relay.Dispatch.{
  Draws, handle_frame, handle_body, handle_typed, handle_phase, handle_ping, handle_pong, refuse,
  caught, is_board_store_error, except, is_protocol_version, optional_request_id,
}

locked-keeps :
    (P : RelayServer → Type 0) (b : Bool) (x y : RelayServer × Result Bool)
    → b ≡ false
    → P x.0
    → P (if not b then x else y).0
locked-keeps P true x y h k = cc
locked-keeps P false x y h k = k

pub except-keeps :
    (P : RelayServer → Type 0) (done : RelayServer × Result Bool) (handler : Error → Action Bool)
    → P done.0
    → ((e : Error) → P (handler e done.0).0)
    → P (except done handler).0
unfolding except
except-keeps P (t, ok keep_open) handler h k = h
except-keeps P (t, err e) handler h k = k e

module _ (P : RelayServer → Type 0) (c : ℕ) (ignores : IgnoresQueue c P)
    (greets : (verifier : AccessChallengeVerifier) (s : RelayServer)
      → P s
      → P (greet c verifier s)) where
  sent-Keeps : (frame : Frame) → Keeps P (send_event c frame)
  sent-Keeps frame = send_event-Keeps P c ignores frame

  pub response-Keeps :
      (request_id frame_type : Text) (fields : Frame)
      → Keeps P (send_response c request_id frame_type fields)
  response-Keeps request_id frame_type fields =
      send_response-Keeps P c ignores request_id frame_type fields

  error-Keeps : (request_id : Option Text) (code : Text) → Keeps P (send_error c request_id code)
  error-Keeps request_id code = send_error-Keeps P c ignores request_id code

  refuse-Keeps : (request_id : Option Text) (code : Text) → Keeps P (refuse c request_id code)
  unfolding refuse
  refuse-Keeps request_id code = search (>>=-Keeps, return-Keeps, error-Keeps) depth 9

  hello-Keeps :
      (now : ℕ) (challenge : Bytes) (frame : Frame) (request_id : Text)
      → Keeps P (handle_hello c now challenge frame request_id)
  unfolding handle_hello
  hello-Keeps now challenge frame request_id =
      search (>>=-Keeps, lift-Keeps, get-Keeps, return-Keeps, modify-Keeps, greets, response-Keeps)
        depth 30

  pub answer-Keeps :
      (request_id : Text) (answer : Bool) (retry : ℕ)
      → Keeps P (answer_proof c request_id answer retry)
  unfolding answer_proof
  answer-Keeps request_id answer retry = search (response-Keeps)

  caught-Keeps :
      (p : Primitives) (draws : Draws) (now : ℕ) (frame : Frame) (e : Error)
      → Keeps (P) (caught p draws c now frame e)
  unfolding caught
  caught-Keeps p draws now frame e s h =
      if-keeps P (is_board_store_error e) _ _ (error-Keeps _ _ s h)
        (if-keeps P (is_type_or_value_error e) _ _ (error-Keeps _ _ s h) h)

  module _ (p : Primitives) (draws : Draws) (now : ℕ) (frame : Frame) where
    phase-keeps :
        (frame_type request_id : Text) (s : RelayServer)
        → (s.heap c).authenticated ≡ false
        → P s
        → ((r : Text) → P (handle_access_proof p c now frame r s).0)
        → P (handle_phase p draws c now frame frame_type request_id s).0
    unfolding handle_phase
    phase-keeps frame_type request_id s locked h proves =
        if-keeps P (not (s.heap c).hello_seen) _ _
          (if-keeps P (frame_type == codes "hello") _ _
            (hello-Keeps now draws.new_challenge frame request_id s h)
            (refuse-Keeps (some request_id) (codes "protocol_state") s h))
          (locked-keeps P (s.heap c).authenticated _ _ locked (
            if-keeps P (frame_type == codes "access_proof") _ _ (proves request_id)
              (refuse-Keeps (some request_id) (codes "protocol_state") s h)))

    ping-Keeps : Keeps (P) (handle_ping p draws c now frame)
    unfolding handle_ping
    ping-Keeps = search (>>=-Keeps, lift-Keeps, return-Keeps, sent-Keeps) depth 20

    pong-Keeps : Keeps (P) (handle_pong p draws c now frame)
    unfolding handle_pong
    pong-Keeps = search (>>=-Keeps, lift-Keeps) depth 20

    typed-keeps :
        (frame_type : Text) (s : RelayServer)
        → (s.heap c).authenticated ≡ false
        → P s
        → ((r : Text) → P (handle_access_proof p c now frame r s).0)
        → P (handle_typed p draws c now frame frame_type s).0
    unfolding handle_typed
    typed-keeps frame_type s locked h proves =
        branch-keeps P (frame_type == codes "ping") (handle_ping p draws c now frame) _ s
          (ping-Keeps s h)
          (branch-keeps P (frame_type == codes "pong") (handle_pong p draws c now frame) _ s
            (pong-Keeps s h)
            (check-keeps P (require_request_id frame)
              (λ r. handle_phase p draws c now frame frame_type r) s h
              (λ request_id. phase-keeps frame_type request_id s locked h proves)))

    body-keeps :
        (s : RelayServer)
        → (s.heap c).authenticated ≡ false
        → P s
        → ((r : Text) → P (handle_access_proof p c now frame r s).0)
        → P (handle_body p draws c now frame s).0
    unfolding handle_body
    body-keeps s locked h proves =
        check-keeps P (require_frame_string frame (codes "type") 64 true)
          (λ frame_type.
            if is_protocol_version (lookup (codes "v") frame)
            then handle_typed p draws c now frame frame_type
            else refuse c (optional_request_id frame) (codes "unsupported_protocol"))
          s h
          (λ frame_type.
            branch-keeps P (is_protocol_version (lookup (codes "v") frame))
              (handle_typed p draws c now frame frame_type)
              (refuse c (optional_request_id frame) (codes "unsupported_protocol")) s
              (typed-keeps frame_type s locked h proves)
              (refuse-Keeps (optional_request_id frame) (codes "unsupported_protocol") s h))

    -- Of a connection that has not proved the access phrase, a frame keeps what its access proof
    -- keeps.
    pub handle_frame-keeps :
        (s : RelayServer)
        → (s.heap c).authenticated ≡ false
        → P s
        → ((r : Text) → P (handle_access_proof p c now frame r s).0)
        → P (handle_frame p draws c now frame s).0
    unfolding handle_frame
    handle_frame-keeps s locked h proves =
        let done = body-keeps s locked h proves in
        except-keeps P (handle_body p draws c now frame s) (caught p draws c now frame) done
          (λ e. caught-Keeps p draws now frame e _ done)
