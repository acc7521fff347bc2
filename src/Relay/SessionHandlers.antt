-- ===== src/Relay/SessionHandlers.antt =====
-- The handlers of relay.py for the frames of live sessions.
use the_grid.Prelude.{
  ℕ, ◌-◌, ◌*◌, ◌^◌, Bool, true, false, Option, none, some, [], ◌∷◌, ℕ_eq, list_eq,
}
use the_grid.Bytes.{Bytes}
use the_grid.Text.{Text, codes}
use the_grid.Sessions.Types.{SessionRole, creator, joiner}
use the_grid.Sessions.Handshake.{HandshakeHello}
use the_grid.Protocol.Base64.{b64url_encode}
use the_grid.Protocol.Frames.{
  boolean, string, Frame, make_frame, require_frame_string, require_frame_int, require_frame_bytes,
}
use the_grid.Relay.State.{SessionRoute, Action, ◌>>=◌, ◌>>◌, return, lift, get, modify}
use the_grid.Relay.Events.{send_event, send_response}
use the_grid.Relay.Routing.{create_waiting_room, cancel_waiting_room, join_waiting_room}
use the_grid.Relay.Checks.{role_value, hello_from_frame, direction_from}
use the_grid.Relay.Routes.{mark_handshake_proof, route_session_data, close_session_route}

unfoldable pub answer : ℕ → Text → Text → Bool → Action Bool
unfolding send_response
answer c request_id frame_type result = do
  send_response c request_id frame_type ((codes "ok", boolean result) ∷ [])
  return true

unfoldable pub handle_session_wait : ℕ → ℕ → Frame → Text → Action Bool
unfolding require_frame_bytes hello_from_frame create_waiting_room answer
handle_session_wait c now frame request_id = do
  room_id ← lift (require_frame_bytes frame (codes "room_id") (some 16) none)
  hello ← lift (hello_from_frame frame creator)
  s ← get
  modify (λ u. (create_waiting_room c now room_id hello u).0)
  answer c request_id (codes "session_wait") (create_waiting_room c now room_id hello s).1

unfoldable pub handle_session_cancel : ℕ → Text → Action Bool
unfolding cancel_waiting_room answer
handle_session_cancel c request_id = do
  s ← get
  modify (λ u. (cancel_waiting_room c u).0)
  answer c request_id (codes "session_cancel") (cancel_waiting_room c s).1

-- The event that tells one end of a new route of the other's hello.
unfoldable pub send_pair :
    ℕ → SessionRoute → SessionRole → SessionRole → HandshakeHello → Action (Unit {0})
unfolding make_frame b64url_encode role_value send_event
send_pair c route role peer_role hello = do
  frame ← lift (
      make_frame (codes "session_pair") (
        (codes "pair_id", string (b64url_encode route.pair_id))
        ∷ (codes "role", string (role_value role))
        ∷ (codes "peer_role", string (role_value peer_role))
        ∷ (codes "peer_nonce", string (b64url_encode hello.nonce))
        ∷ (codes "peer_public_key", string (b64url_encode hello.public_key))
        ∷ []))
  send_event c frame

unfoldable pub answer_join : ℕ → Text → Option SessionRoute → Action Bool
unfolding answer send_response b64url_encode send_pair
answer_join c request_id none = answer c request_id (codes "session_join") false
answer_join c request_id (some route) = do
  send_response c request_id (codes "session_join")
      ((codes "ok", boolean true) ∷ (codes "pair_id", string (b64url_encode route.pair_id)) ∷ [])
  send_pair route.route_creator route creator joiner route.joiner_hello
  send_pair route.route_joiner route joiner creator route.creator_hello
  return true

-- `_handle_session_join`; `pair_id` is what the random source gives.
unfoldable pub handle_session_join : ℕ → ℕ → Bytes → Frame → Text → Action Bool
unfolding require_frame_bytes hello_from_frame join_waiting_room answer_join
handle_session_join c now pair_id frame request_id = do
  room_id ← lift (require_frame_bytes frame (codes "room_id") (some 16) none)
  hello ← lift (hello_from_frame frame joiner)
  s ← get
  modify (λ u. (join_waiting_room c now pair_id room_id hello u).0)
  route ← lift ((join_waiting_room c now pair_id room_id hello s).1)
  answer_join c request_id route

unfoldable pub handle_session_handshake : ℕ → ℕ → Frame → Text → Action Bool
unfolding require_frame_bytes mark_handshake_proof answer
handle_session_handshake c now frame request_id = do
  pair_id ← lift (require_frame_bytes frame (codes "pair_id") (some 16) none)
  proof ← lift (require_frame_bytes frame (codes "proof") (some 32) none)
  mark_handshake_proof c now pair_id proof
  answer c request_id (codes "session_handshake") true

unfoldable pub handle_session_data : ℕ → Frame → Text → Action Bool
unfolding require_frame_bytes require_frame_string direction_from require_frame_int
    route_session_data answer
handle_session_data c frame request_id = do
  pair_id ← lift (require_frame_bytes frame (codes "pair_id") (some 16) none)
  session_id ← lift (require_frame_bytes frame (codes "session_id") (some 16) none)
  direction_text ← lift (require_frame_string frame (codes "direction") 64 true)
  direction ← lift (direction_from direction_text)
  counter ← lift (require_frame_int frame (codes "counter") 0 (2 ^ 64 - 1))
  body ← lift (require_frame_bytes frame (codes "body") none (some (8 * 1024)))
  route_session_data c pair_id session_id direction counter body
  answer c request_id (codes "session_data") true

-- The answer comes before the route is looked up.
unfoldable pub handle_session_close : ℕ → Frame → Text → Action Bool
unfolding require_frame_bytes answer close_session_route
handle_session_close c frame request_id = do
  pair_id ← lift (require_frame_bytes frame (codes "pair_id") (some 16) none)
  answered ← answer c request_id (codes "session_close") true
  close_session_route c pair_id
  return true
