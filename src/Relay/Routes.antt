-- ===== src/Relay/Routes.antt =====
-- What runs over a session route of relay.py: proofs, data and its end.
pub mod Delivery
use the_grid.Prelude.{
  ℕ, ◌+◌, Bool, true, false, ◌&&◌, ◌||◌, not, Option, none, some, List, [], ◌∷◌, ◌++◌, filter, any,
  ltb, leb, ◌==◌, ℕ_eq, list_eq, if◌then◌else◌, option_is, is_none,
}
use the_grid.Prelude.Dict.{lookup, insert, remove}
use the_grid.Prelude.Result.{Result, ok, err, frame_error, invalid}
use the_grid.Bytes.{Bytes}
use the_grid.Text.{Text, codes}
use the_grid.Sessions.Types.{
  SessionRole, creator, joiner, SessionDirection, creator_to_joiner, joiner_to_creator,
  same_direction,
}
use the_grid.Protocol.Base64.{b64url_encode}
use the_grid.Protocol.Frames.{Value, number, string, Frame, make_frame}
use the_grid.Relay.State.{
  RelayConnection, RelayServer, WaitingRoom, SessionRoute, Action, ◌>>=◌, ◌>>◌, return, lift, get,
  modify, raise_if, set_connection, active, peer_of, role_of,
}
use the_grid.Relay.Events.{send_event, try_send}
use the_grid.Relay.Routing.{is_over, drop_room}
use the_grid.Relay.Checks.{
  role_value, direction_value, route_for, close_frame, mark_proof, proof_frame, expected_direction,
  bind_session, data_frame, data_route,
}

unfoldable pub set_route : Bytes → SessionRoute → RelayServer → RelayServer
unfolding insert
set_route pair_id route s = record s { routes = insert pair_id route s.routes }

unfoldable pub leave_route : ℕ → RelayServer → RelayServer
unfolding set_connection
leave_route c s = set_connection c (record (s.heap c) { pair_id = none }) s

-- The loop of `_close_route` over the two ends; `try_send` refuses a closed connection.
unfoldable pub notify : Result Frame → Option ℕ → List ℕ → RelayServer → RelayServer
unfolding try_send option_is
notify (err e) source recipients s = s
notify (ok frame) source [] s = s
notify (ok frame) source (c ∷ recipients) s =
    notify (ok frame) source recipients (if option_is source c then s else try_send c frame s)

-- `_close_route` with the route that has been taken out.
unfoldable pub end_route : Bytes → Text → Option ℕ → Option SessionRoute → RelayServer → RelayServer
unfolding close_frame notify leave_route
end_route pair_id reason source none s = s
end_route pair_id reason source (some route) s =
    notify (close_frame pair_id reason) source (route.route_creator ∷ route.route_joiner ∷ [])
      (leave_route route.route_joiner (leave_route route.route_creator s))

-- `_close_route`
unfoldable pub close_route : Bytes → Text → Option ℕ → RelayServer → RelayServer
unfolding end_route lookup remove
close_route pair_id reason source s =
    end_route pair_id reason source (lookup pair_id s.routes)
      (record s { routes = remove pair_id s.routes })

-- The route of a handshake that is late is closed, and its proof is refused.
unfoldable pub refuse_late : Bool → Bytes → Action (Unit {0})
unfolding close_route
refuse_late true pair_id s =
    (close_route pair_id (codes "handshake_timeout") none s, err (frame_error invalid))
refuse_late false pair_id s = (s, ok tt)

unfoldable pub deadline_passed : ℕ → Bytes → SessionRoute → Action (Unit {0})
unfolding refuse_late
deadline_passed now pair_id route = refuse_late (ltb route.handshake_deadline now) pair_id

-- `peer = route.peer_of(connection)` and the event to it.
unfoldable pub forward : ℕ → SessionRoute → Result Frame → Action (Unit {0})
unfolding peer_of send_event
forward c route made = do peer ← lift (peer_of route c); frame ← lift made; send_event peer frame

unfoldable pub mark_handshake_proof : ℕ → ℕ → Bytes → Bytes → Action (Unit {0})
unfolding deadline_passed route_for mark_proof set_route proof_frame forward role_of
mark_handshake_proof c now pair_id proof = do
  s ← get
  route ← lift (route_for c pair_id s)
  deadline_passed now pair_id route
  role ← lift (role_of route c)
  marked ← lift (mark_proof role route)
  modify (set_route pair_id marked)
  forward c route (proof_frame pair_id role proof)

unfoldable pub route_session_data :
    ℕ → Bytes → Bytes → SessionDirection → ℕ → Bytes → Action (Unit {0})
unfolding data_route set_route data_frame forward
route_session_data c pair_id session_id direction counter body = do
  s ← get
  bound ← lift (data_route c pair_id session_id direction s)
  modify (set_route pair_id bound)
  forward c bound (data_frame pair_id session_id direction counter body)

unfoldable pub close_session_route : ℕ → Bytes → Action (Unit {0})
unfolding route_for close_route
close_session_route c pair_id = do
  s ← get
  route ← lift (route_for c pair_id s)
  modify (close_route pair_id (codes "peer_close") (some c))
