-- ===== src/Relay/Dispatch/References.antt =====
-- `_handle_frame` keeps the references between connections, rooms and routes.
use the_grid.Prelude.{
  ℕ, ◌≡◌, true, not, Option, none, some, ◌==◌, ℕ_eq, list_eq, if◌then◌else◌, is_none,
}
use the_grid.Prelude.Dict.{lookup}
use the_grid.Prelude.Result.{Error, is_type_or_value_error}
use the_grid.Text.{Text, codes}
use the_grid.Crypto.{Primitives}
use the_grid.Protocol.Frames.{Frame, require_frame_string, require_request_id}
use the_grid.Relay.State.{RelayServer, ◌>>◌, return}
use the_grid.Relay.Events.{send_error}
use the_grid.Relay.BoardHandlers.{handle_board_list, handle_board_subscribe, handle_board_post}
use the_grid.Relay.SessionHandlers.{
  handle_session_wait, handle_session_cancel, handle_session_join, handle_session_handshake,
  handle_session_data, handle_session_close,
}
use the_grid.Relay.Keeps.{
  Keeps, >>=-Keeps, lift-Keeps, return-Keeps, check-keeps, if-keeps, branch-keeps,
}
use the_grid.Relay.Consistency.{IsConsistent}
use the_grid.Relay.Consistency.Closing.{send-IsConsistent}
use the_grid.Relay.Consistency.Running.{
  error-IsConsistent, hello-IsConsistent, proof-IsConsistent, display-IsConsistent,
}
use the_grid.Relay.Consistency.Serving.{
  list-IsConsistent, subscription-IsConsistent, post-IsConsistent,
}
use the_grid.Relay.Consistency.Meeting.{
  wait-IsConsistent, cancel-IsConsistent, join-IsConsistent, handshake-IsConsistent,
  data-IsConsistent, close-IsConsistent,
}
use the_grid.Relay.Dispatch.{
  Draws, handle_frame, handle_body, handle_typed, handle_phase, handle_ping, handle_pong, refuse,
  caught, handle_request, is_board_store_error, is_protocol_version, optional_request_id,
}
use the_grid.Relay.Dispatch.Gate.{except-keeps}

module _ (p : Primitives) (draws : Draws) (c now : ℕ) (frame : Frame) where
  refuse-IsConsistent :
      (request_id : Option Text) (code : Text) → Keeps IsConsistent (refuse c request_id code)
  unfolding refuse
  refuse-IsConsistent request_id code = search (>>=-Keeps, return-Keeps, error-IsConsistent) depth 9

  ping-IsConsistent : Keeps IsConsistent (handle_ping p draws c now frame)
  unfolding handle_ping
  ping-IsConsistent = search (>>=-Keeps, lift-Keeps, return-Keeps, send-IsConsistent) depth 20

  pong-IsConsistent : Keeps IsConsistent (handle_pong p draws c now frame)
  unfolding handle_pong
  pong-IsConsistent = search (>>=-Keeps, lift-Keeps) depth 20

  caught-IsConsistent : (e : Error) → Keeps IsConsistent (caught p draws c now frame e)
  unfolding caught
  caught-IsConsistent e s h =
      if-keeps IsConsistent (is_board_store_error e) _ _ (error-IsConsistent c _ _ s h)
        (if-keeps IsConsistent (is_type_or_value_error e) _ _ (error-IsConsistent c _ _ s h) h)

  unsupported-IsConsistent :
      (r : Text)
      → Keeps IsConsistent (send_error c (some r) (codes "unsupported_frame") >> return true)
  unsupported-IsConsistent r = search (>>=-Keeps, return-Keeps, error-IsConsistent) depth 9

  module _ (s : RelayServer) (h : IsConsistent s)
      (new : lookup draws.new_pair_id s.routes ≡ none) where
    request-IsConsistent :
        (frame_type r : Text) → IsConsistent (handle_request p draws c now frame frame_type r s).0
    unfolding handle_request
    request-IsConsistent frame_type r =
        branch-keeps IsConsistent (frame_type == codes "board_list")
          (handle_board_list c now frame r) _ s (list-IsConsistent c now frame r s h)
          (branch-keeps IsConsistent (frame_type == codes "board_subscribe")
            (handle_board_subscribe c frame r) _ s (subscription-IsConsistent c frame r s h)
            (branch-keeps IsConsistent (frame_type == codes "board_post")
              (handle_board_post c now frame r) _ s (post-IsConsistent c now frame r s h)
              (branch-keeps IsConsistent (frame_type == codes "session_wait")
                (handle_session_wait c now frame r) _ s (wait-IsConsistent c now frame r s h)
                (branch-keeps IsConsistent (frame_type == codes "session_cancel")
                  (handle_session_cancel c r) _ s (cancel-IsConsistent c r s h)
                  (branch-keeps IsConsistent (frame_type == codes "session_join")
                    (handle_session_join c now draws.new_pair_id frame r) _ s
                    (join-IsConsistent c now draws.new_pair_id frame r s h new)
                    (branch-keeps IsConsistent (frame_type == codes "session_handshake")
                      (handle_session_handshake c now frame r) _ s
                      (handshake-IsConsistent c now frame r s h)
                      (branch-keeps IsConsistent (frame_type == codes "session_data")
                        (handle_session_data c frame r) _ s (data-IsConsistent c frame r s h)
                        (branch-keeps IsConsistent (frame_type == codes "session_close")
                          (handle_session_close c frame r) _ s (close-IsConsistent c frame r s h)
                          ((unsupported-IsConsistent r s h))))))))))

    phase-IsConsistent :
        (frame_type r : Text) → IsConsistent (handle_phase p draws c now frame frame_type r s).0
    unfolding handle_phase
    phase-IsConsistent frame_type r =
        let refused = refuse-IsConsistent (some r) (codes "protocol_state") s h in
        if-keeps IsConsistent (not (s.heap c).hello_seen) _ _
          (if-keeps IsConsistent (frame_type == codes "hello") _ _
            (hello-IsConsistent c now draws.new_challenge frame r s h) refused)
          (if-keeps IsConsistent (not (s.heap c).authenticated) _ _
            (if-keeps IsConsistent (frame_type == codes "access_proof") _ _
              (proof-IsConsistent p c now frame r s h) refused)
            (if-keeps IsConsistent (is_none (s.heap c).display_token) _ _
              (if-keeps IsConsistent (frame_type == codes "display_reserve") _ _
                (display-IsConsistent c now frame r s h) refused)
              (request-IsConsistent frame_type r)))

    typed-IsConsistent :
        (frame_type : Text) → IsConsistent (handle_typed p draws c now frame frame_type s).0
    unfolding handle_typed
    typed-IsConsistent frame_type =
        branch-keeps IsConsistent (frame_type == codes "ping") (handle_ping p draws c now frame) _ s
          (ping-IsConsistent s h)
          (branch-keeps IsConsistent (frame_type == codes "pong") (handle_pong p draws c now frame)
            _ s (pong-IsConsistent s h)
            (check-keeps IsConsistent (require_request_id frame)
              (λ r. handle_phase p draws c now frame frame_type r) s h
              (phase-IsConsistent frame_type)))

    body-IsConsistent : IsConsistent (handle_body p draws c now frame s).0
    unfolding handle_body
    body-IsConsistent =
        let refused = refuse c (optional_request_id frame) (codes "unsupported_protocol") in
        check-keeps IsConsistent (require_frame_string frame (codes "type") 64 true)
          (λ frame_type.
            if is_protocol_version (lookup (codes "v") frame)
            then handle_typed p draws c now frame frame_type
            else refused)
          s h
          (λ frame_type.
            branch-keeps IsConsistent (is_protocol_version (lookup (codes "v") frame))
              (handle_typed p draws c now frame frame_type) refused s
              (typed-IsConsistent frame_type)
              (refuse-IsConsistent (optional_request_id frame) (codes "unsupported_protocol") s h))

    -- A frame keeps the references, if the pair id that is drawn for it is new.
    pub handle_frame-IsConsistent : IsConsistent (handle_frame p draws c now frame s).0
    unfolding handle_frame
    handle_frame-IsConsistent =
        except-keeps IsConsistent (handle_body p draws c now frame s) (caught p draws c now frame)
          body-IsConsistent (λ e. caught-IsConsistent e _ body-IsConsistent)
