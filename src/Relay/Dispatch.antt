-- ===== src/Relay/Dispatch.antt =====
-- `_handle_frame` of relay.py: what a connection may send, and when.
mod Gate
pub mod Phases
pub mod Admission
pub mod References
use the_grid.Prelude.{
  ℕ, zero, suc, ◌+◌, ◌-◌, ◌*◌, ◌/◌, ◌^◌, Bool, true, false, ◌&&◌, ◌||◌, not, Option, none, some,
  List, [], ◌∷◌, ◌++◌, all, length, drop, ltb, leb, ◌==◌, ℕ_eq, list_eq, if◌then◌else◌, option_is,
  is_none,
}
use the_grid.Prelude.Dict.{lookup}
use the_grid.Prelude.Result.{
  Result, ok, err, Error, frame_error, invalid, too_large, board_store_error, duplicate_message,
  is_type_or_value_error,
}
use the_grid.Bytes.{Bytes}
use the_grid.Text.{Text, codes, is_ascii}
use the_grid.Crypto.{Primitives}
use the_grid.Access.Proof.{AccessChallengeVerifier, new_access_challenge_verifier, verify}
use the_grid.Hub.Store.{
  EncryptedBoardRecord, StoredBoardRecord, BoardPostResult, make_encrypted_board_record,
  cooldown_remaining, board_capacity, board_lifetime_seconds, board_cooldown_seconds, post,
  list_current,
}
use the_grid.Sessions.Types.{SessionRole, creator, joiner, session_text_max_bytes}
use the_grid.Sessions.Handshake.{HandshakeHello}
use the_grid.Protocol.Base64.{b64url_encode}
use the_grid.Protocol.Frames.{
  Value, null, boolean, number, real, string, array, object, Items, end, item, Members, last,
  member, Frame, make_frame, require_frame_string, require_frame_int, require_frame_bytes,
  require_request_id, default_maximum,
}
use the_grid.Protocol.Json.{encode_outer_frame}
use the_grid.Relay.RateLimiter.{retry_after, record_event, clear}
use the_grid.Relay.State.{
  RelayLimits, RelayConnection, RelayServer, Action, ◌>>=◌, ◌>>◌, return, lift, get, modify,
  raise_if, set_connection,
}
use the_grid.Relay.Events.{send_event, send_error}
use the_grid.Relay.Displays.{reserve_display}
use the_grid.Relay.Routing.{create_waiting_room, cancel_waiting_room, join_waiting_room}
use the_grid.Relay.Checks.{role_value, hello_from_frame, direction_from}
use the_grid.Relay.Routes.{mark_handshake_proof, route_session_data, close_session_route}
use the_grid.Relay.Lifecycle.{stored_record_mapping, broadcast_board_update, broadcast_board_remove}
use the_grid.Relay.Handlers.{handle_hello, handle_access_proof, handle_display_reserve}
use the_grid.Relay.BoardHandlers.{handle_board_list, handle_board_subscribe, handle_board_post}
use the_grid.Relay.SessionHandlers.{
  handle_session_wait, handle_session_cancel, handle_session_join, handle_session_handshake,
  handle_session_data, handle_session_close,
}

-- What the random source gives to one call.
pub record Draws : Type 0 where
  pub new_challenge : Bytes
  pub new_pair_id : Bytes

-- `frame.get("v") != PROTOCOL_VERSION`: True and 1.0 equal 1 in Python.
is_protocol_version : Option Value → Bool
is_protocol_version (some (number n)) = n == 1
is_protocol_version (some (boolean b)) = b
is_protocol_version (some (real t)) = t == 1000
is_protocol_version _ = false

-- `_optional_request_id`
optional_request_id : Frame → Option Text
unfolding lookup require_request_id
optional_request_id frame = elim (lookup (codes "request_id") frame) [
  | none ↦ none
  | some value ↦ elim (require_request_id frame) [ err e ↦ none | ok request_id ↦ some request_id ]
]

refuse : ℕ → Option Text → Text → Action Bool
unfolding send_error
refuse c request_id code = do send_error c request_id code; return false

-- `try: ... except ... as exc: handler(exc)`
unfoldable pub except :
    RelayServer × Result Bool → (Error → Action Bool) → RelayServer × Result Bool
except (t, ok keep_open) handler = (t, ok keep_open)
except (t, err e) handler = handler e t

is_board_store_error : Error → Bool
is_board_store_error (board_store_error code) = true
is_board_store_error e = false

module _ (p : Primitives) (draws : Draws) (c now : ℕ) (frame : Frame) where
  handle_ping : Action Bool
  unfolding require_frame_bytes make_frame b64url_encode send_event
  handle_ping = do
    nonce ← lift (require_frame_bytes frame (codes "nonce") none (some 64))
    pong ← lift (make_frame (codes "pong") ((codes "nonce", string (b64url_encode nonce)) ∷ []))
    send_event c pong
    return true

  handle_pong : Action Bool
  unfolding require_frame_bytes
  handle_pong = do
    nonce ← lift (require_frame_bytes frame (codes "nonce") none (some 64))
    return true

  -- The table of handlers, for a connection that has a display token.
  unfoldable pub handle_request : Text → Text → Action Bool
  unfolding handle_board_list handle_board_subscribe handle_board_post handle_session_wait
      handle_session_cancel handle_session_join handle_session_handshake handle_session_data
      handle_session_close send_error
  handle_request frame_type request_id =
      if frame_type == codes "board_list"
      then handle_board_list c now frame request_id
      else if frame_type == codes "board_subscribe"
      then handle_board_subscribe c frame request_id
      else if frame_type == codes "board_post"
      then handle_board_post c now frame request_id
      else if frame_type == codes "session_wait"
      then handle_session_wait c now frame request_id
      else if frame_type == codes "session_cancel"
      then handle_session_cancel c request_id
      else if frame_type == codes "session_join"
      then handle_session_join c now draws.new_pair_id frame request_id
      else if frame_type == codes "session_handshake"
      then handle_session_handshake c now frame request_id
      else if frame_type == codes "session_data"
      then handle_session_data c frame request_id
      else if frame_type == codes "session_close"
      then handle_session_close c frame request_id
      else (send_error c (some request_id) (codes "unsupported_frame") >> return true)

  -- The three phases before: hello, proof, display token.
  unfoldable pub handle_phase : Text → Text → Action Bool
  unfolding refuse handle_hello handle_access_proof handle_display_reserve handle_request is_none
  handle_phase frame_type request_id s =
      let connection = s.heap c in
      if not connection.hello_seen
      then (if frame_type == codes "hello"
          then handle_hello c now draws.new_challenge frame request_id s
          else refuse c (some request_id) (codes "protocol_state") s)
      else if not connection.authenticated
      then (if frame_type == codes "access_proof"
          then handle_access_proof p c now frame request_id s
          else refuse c (some request_id) (codes "protocol_state") s)
      else if is_none connection.display_token
      then (if frame_type == codes "display_reserve"
          then handle_display_reserve c now frame request_id s
          else refuse c (some request_id) (codes "protocol_state") s)
      else handle_request frame_type request_id s

  -- The body of the `try`, with the request id that an error is answered under.
  handle_typed : Text → Action Bool
  unfolding handle_ping handle_pong require_request_id handle_phase
  handle_typed frame_type =
      if frame_type == codes "ping"
      then handle_ping
      else if frame_type == codes "pong"
      then handle_pong
      else (lift (require_request_id frame) >>= λ request_id. handle_phase frame_type request_id)

  handle_body : Action Bool
  unfolding require_frame_string is_protocol_version lookup refuse optional_request_id handle_typed
  handle_body = lift (require_frame_string frame (codes "type") 64 true) >>= λ frame_type.
      if is_protocol_version (lookup (codes "v") frame)
      then handle_typed frame_type
      else refuse c (optional_request_id frame) (codes "unsupported_protocol")

  -- The request id that is known when an error is caught: that of a ping or pong is not read, nor is
  -- one behind a bad type.
  known_request_id : Option Text
  unfolding require_frame_string is_protocol_version lookup optional_request_id require_request_id
  known_request_id = elim (require_frame_string frame (codes "type") 64 true) [
    | err e ↦ none
    | ok frame_type ↦
        if frame_type == codes "ping" || frame_type == codes "pong"
        then (if is_protocol_version (lookup (codes "v") frame)
            then none
            else optional_request_id frame)
        else optional_request_id frame
  ]

  -- The two `except` clauses: an answer is tried, and the connection goes. Other errors go on.
  caught : Error → RelayServer → RelayServer × Result Bool
  unfolding send_error known_request_id is_type_or_value_error is_board_store_error
  caught e s =
      if is_board_store_error e
      then ((send_error c known_request_id (codes "server_state") s).0, ok false)
      else if is_type_or_value_error e
      then ((send_error c known_request_id (codes "invalid_frame") s).0, ok false)
      else (s, err e)

  unfoldable pub handle_frame : Action Bool
  unfolding handle_body caught except
  handle_frame s = except (handle_body s) caught
