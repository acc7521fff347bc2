-- ===== src/Relay/Consistency/Upkeep.antt =====
-- Maintenance, a change of access and the end of a server keep the references.
use the_grid.Prelude.{
  ℕ, ◌≡◌, refl, true, not, ◌&&◌, none, List, [], ◌∷◌, ℕ_eq, list_eq, if◌then◌else◌, arith, leb,
}
use the_grid.Prelude.Dict.{lookup}
use the_grid.Bytes.{Bytes}
use the_grid.Text.{codes}
use the_grid.Access.Proof.{AccessContext, AccessVerifierState}
use the_grid.Relay.RateLimiter.{WindowRateLimiter}
use the_grid.Relay.State.{RelayServer, WaitingRoom, SessionRoute, ◌>>=◌, ◌>>◌, get, modify, active}
use the_grid.Relay.Displays.{prune_reservations}
use the_grid.Relay.Routing.{is_over, drop_room}
use the_grid.Relay.Routes.{close_route}
use the_grid.Relay.Lifecycle.{
  forget_all, close_server, rotate_access, expire_rooms, tell_expired, expire_routes,
  expire_sessions, maintain,
}
use the_grid.Relay.Keeps.{Keeps, >>=-Keeps, lift-Keeps, get-Keeps, modify-Keeps, if-keeps}
use the_grid.Relay.Consistency.{IsConsistent}
use the_grid.Relay.Consistency.Rooms.{drop_room-IsConsistent}
use the_grid.Relay.Consistency.Closing.{send-IsConsistent, close_route-IsConsistent}
use the_grid.Relay.Consistency.Running.{board-IsConsistent, reservations-IsConsistent}
use the_grid.Relay.Consistency.Serving.{remove-IsConsistent}
use the_grid.Relay.Consistency.Leaving.{chosen-IsConsistent}

expire_rooms-IsConsistent :
    (now : ℕ) (rooms : List (Bytes × WaitingRoom)) (s : RelayServer)
    → IsConsistent s
    → IsConsistent (expire_rooms now rooms s).0
unfolding expire_rooms
expire_rooms-IsConsistent now [] s h = h
expire_rooms-IsConsistent now ((id, room) ∷ rooms) s h =
    let after = if is_over now room s then drop_room id room s else s in
    let kept : IsConsistent after =
      chosen-IsConsistent (is_over now room s) _ s (drop_room-IsConsistent id room s h) h in
    let rest = expire_rooms-IsConsistent now rooms after kept in
    if-keeps IsConsistent (is_over now room s && not (s.heap room.room_creator).closed) _ _ rest
      rest

tell_expired-IsConsistent : (rooms : List WaitingRoom) → Keeps IsConsistent (tell_expired rooms)
unfolding tell_expired
tell_expired-IsConsistent [] = λ s h. h
tell_expired-IsConsistent (room ∷ rooms) =
    search (>>=-Keeps, lift-Keeps, send-IsConsistent, tell_expired-IsConsistent rooms) depth 20

expire_routes-IsConsistent :
    (now : ℕ) (routes : List (Bytes × SessionRoute)) (s : RelayServer)
    → IsConsistent s
    → IsConsistent (expire_routes now routes s)
unfolding expire_routes
expire_routes-IsConsistent now [] s h = h
expire_routes-IsConsistent now ((id, route) ∷ routes) s h =
    let late = not (active route) && leb route.handshake_deadline now in
    expire_routes-IsConsistent now routes
      (if late then close_route id (codes "handshake_timeout") none s else s)
      (chosen-IsConsistent late _ s
        (close_route-IsConsistent id (codes "handshake_timeout") none s h) h)

expire_sessions-IsConsistent : (now : ℕ) → Keeps IsConsistent (expire_sessions now)
unfolding expire_sessions
expire_sessions-IsConsistent now s h =
    let (after, expired) = expire_rooms now s.waiting_rooms s in
    let told : Keeps IsConsistent
        (do tell_expired expired; told ← get; modify (expire_routes now told.routes)) =
      search
        (
          >>=-Keeps,
          tell_expired-IsConsistent,
          get-Keeps,
          modify-Keeps,
          expire_routes-IsConsistent now,
        )
        depth 20 in
    told after (expire_rooms-IsConsistent now s.waiting_rooms s h)

limiters-IsConsistent :
    (s : RelayServer) (l m : WindowRateLimiter)
    → IsConsistent s
    → IsConsistent (record s { access_limiter = l; join_limiter = m })
limiters-IsConsistent s l m h = record { rooms = h.rooms; routes = h.routes }

prune_reservations-IsConsistent :
    (now : ℕ) (s : RelayServer) → IsConsistent s → IsConsistent (prune_reservations now s)
unfolding prune_reservations
prune_reservations-IsConsistent now s h = reservations-IsConsistent s _ h

pub maintain-IsConsistent : (now : ℕ) → Keeps IsConsistent (maintain now)
unfolding maintain
maintain-IsConsistent now =
    search
      (
        >>=-Keeps, get-Keeps, modify-Keeps, prune_reservations-IsConsistent, limiters-IsConsistent,
        board-IsConsistent, remove-IsConsistent, expire_sessions-IsConsistent,
      )
      depth 40

forgotten-IsConsistent : (s : RelayServer) → s.waiting_rooms ≡ [] → s.routes ≡ [] → IsConsistent s
unfolding lookup
forgotten-IsConsistent s no_rooms no_routes = record {
  rooms = λ id room found. absurd (ground (arith, found, no_rooms, no_routes));
  routes = λ id route found. absurd (ground (arith, found, no_rooms, no_routes));
}

ends-IsConsistent : (s : RelayServer) → IsConsistent (forget_all s)
unfolding forget_all
ends-IsConsistent s = forgotten-IsConsistent _ refl refl

pub close_server-IsConsistent : (s : RelayServer) → IsConsistent s → IsConsistent (close_server s)
unfolding close_server
close_server-IsConsistent s h =
    chosen-IsConsistent s.closing s (forget_all (record s { closing = true })) h
      (ends-IsConsistent (record s { closing = true }))

changed-IsConsistent :
    (s : RelayServer) (context : AccessContext) (v : AccessVerifierState) (n : ℕ)
    (l m : WindowRateLimiter)
    → IsConsistent s
    → IsConsistent (record s {
      context = context;
      verifier_state = v;
      board_sequence = n;
      access_limiter = l;
      join_limiter = m;
    })
changed-IsConsistent s context v n l m h = record { rooms = h.rooms; routes = h.routes }

pub rotate_access-IsConsistent :
    (context : AccessContext) (v : AccessVerifierState)
    → Keeps IsConsistent (rotate_access context v)
unfolding rotate_access
rotate_access-IsConsistent context v =
    search
      (
        >>=-Keeps, get-Keeps, lift-Keeps, modify-Keeps, ends-IsConsistent, board-IsConsistent,
        changed-IsConsistent,
      )
      depth 60
