-- ===== src/Relay/Checks.antt =====
-- The checks of relay.py on a session route, and the frames that it carries.
use the_grid.Prelude.{
  ℕ, true, ◌||◌, not, none, some, [], ◌∷◌, ◌==◌, ℕ_eq, list_eq, if◌then◌else◌, option_is,
}
use the_grid.Prelude.Dict.{lookup}
use the_grid.Prelude.Result.{Result, ok, err, frame_error, invalid, raise_if, ◌>>=◌, ◌>>◌}
use the_grid.Bytes.{Bytes}
use the_grid.Text.{Text, codes}
use the_grid.Sessions.Types.{
  SessionRole, creator, joiner, SessionDirection, creator_to_joiner, joiner_to_creator,
  same_direction,
}
use the_grid.Protocol.Base64.{b64url_encode}
use the_grid.Sessions.Types.{same_role}
use the_grid.Sessions.Handshake.{HandshakeHello, make_handshake_hello}
use the_grid.Protocol.Frames.{require_frame_string, require_frame_bytes}
use the_grid.Protocol.Frames.{number, string, Frame, make_frame}
use the_grid.Relay.State.{RelayServer, SessionRoute, active, role_of}

-- `role.value` and `direction.value`
unfoldable pub role_value : SessionRole → Text
role_value creator = codes "creator"
role_value joiner = codes "joiner"

unfoldable pub direction_value : SessionDirection → Text
direction_value creator_to_joiner = codes "creator_to_joiner"
direction_value joiner_to_creator = codes "joiner_to_creator"

unfoldable pub route_for : ℕ → Bytes → RelayServer → Result SessionRoute
unfolding lookup
route_for c pair_id s = elim (lookup pair_id s.routes) [
  | none ↦ err (frame_error invalid)
  | some route ↦
      if c == route.route_creator || c == route.route_joiner
      then ok route
      else err (frame_error invalid)
]

unfoldable pub close_frame : Bytes → Text → Result Frame
unfolding make_frame b64url_encode
close_frame pair_id reason =
    make_frame (codes "session_close")
      ((codes "pair_id", string (b64url_encode pair_id)) ∷ (codes "reason", string reason) ∷ [])

-- The route with the proof of a role marked as sent; an error if it was before.
unfoldable pub mark_proof : SessionRole → SessionRoute → Result SessionRoute
mark_proof creator route =
    if route.creator_proof_sent
    then err (frame_error invalid)
    else ok (record route { creator_proof_sent = true })
mark_proof joiner route =
    if route.joiner_proof_sent
    then err (frame_error invalid)
    else ok (record route { joiner_proof_sent = true })

unfoldable pub proof_frame : Bytes → SessionRole → Bytes → Result Frame
unfolding make_frame b64url_encode role_value
proof_frame pair_id role proof = make_frame (codes "session_handshake") (
    (codes "pair_id", string (b64url_encode pair_id))
    ∷ (codes "role", string (role_value role))
    ∷ (codes "proof", string (b64url_encode proof))
    ∷ [])

unfoldable pub expected_direction : SessionRole → SessionDirection
expected_direction creator = creator_to_joiner
expected_direction joiner = joiner_to_creator

-- The session id of a route is the first that comes; another is an error.
unfoldable pub bind_session : Bytes → SessionRoute → Result SessionRoute
unfolding option_is
bind_session session_id route = elim (route.session_id) [
  | none ↦ ok (record route { session_id = some session_id })
  | some bound ↦ if bound == session_id then ok route else err (frame_error invalid)
]

unfoldable pub data_frame : Bytes → Bytes → SessionDirection → ℕ → Bytes → Result Frame
unfolding make_frame b64url_encode direction_value
data_frame pair_id session_id direction counter body = make_frame (codes "session_data") (
    (codes "pair_id", string (b64url_encode pair_id))
    ∷ (codes "session_id", string (b64url_encode session_id))
    ∷ (codes "direction", string (direction_value direction))
    ∷ (codes "counter", number counter)
    ∷ (codes "body", string (b64url_encode body))
    ∷ [])

-- The checks of `route_session_data`: the route, with its session id bound.
unfoldable pub data_route : ℕ → Bytes → Bytes → SessionDirection → RelayServer → Result SessionRoute
unfolding route_for active role_of expected_direction same_direction bind_session
data_route c pair_id session_id direction s = do
  route ← route_for c pair_id s
  raise_if (not (active route)) (frame_error invalid)
  role ← role_of route c
  raise_if (not (same_direction direction (expected_direction role))) (frame_error invalid)
  bind_session session_id route

-- `SessionRole(role_text)` and `SessionDirection(direction_text)`; ValueError is FrameError here.
role_from : Text → Result SessionRole
unfolding role_value
role_from text =
    if text == role_value creator
    then ok creator
    else if text == role_value joiner
    then ok joiner
    else err (frame_error invalid)

unfoldable pub direction_from : Text → Result SessionDirection
unfolding direction_value
direction_from text =
    if text == direction_value creator_to_joiner
    then ok creator_to_joiner
    else if text == direction_value joiner_to_creator
    then ok joiner_to_creator
    else err (frame_error invalid)

-- `_hello_from_frame`
unfoldable pub hello_from_frame : Frame → SessionRole → Result HandshakeHello
unfolding require_frame_string role_from same_role require_frame_bytes make_handshake_hello
hello_from_frame frame expected_role = do
  role_text ← require_frame_string frame (codes "role") 16 true
  role ← role_from role_text
  raise_if (not (same_role role expected_role)) (frame_error invalid)
  nonce ← require_frame_bytes frame (codes "handshake_nonce") (some 16) none
  public_key ← require_frame_bytes frame (codes "public_key") (some 32) none
  make_handshake_hello role nonce public_key
