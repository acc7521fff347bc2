-- ===== src/Relay/Lifecycle.antt =====
-- How connections come and go in relay.py, its maintenance, and a change of access.
use the_grid.Prelude.{
  Option, ℕ, ◌+◌, ◌/◌, Bool, true, false, ◌&&◌, ◌||◌, not, none, some, List, [], ◌∷◌, filter,
  length, leb, ◌==◌, ℕ_eq, list_eq, if◌then◌else◌,
}
use the_grid.Prelude.Dict.{lookup, remove}
use the_grid.Prelude.Result.{relay_error}
use the_grid.Bytes.{Bytes}
use the_grid.Text.{Text, codes}
use the_grid.Access.Proof.{AccessContext, AccessVerifierState}
use the_grid.Hub.Store.{StoredBoardRecord, cleanup, bind_access_generation}
use the_grid.Protocol.Base64.{b64url_encode}
use the_grid.Protocol.Frames.{
  Value, number, string, array, object, Items, end, item, last, member, make_frame,
}
use the_grid.Relay.RateLimiter.{prune}
use the_grid.Relay.State.{
  RelayServer, WaitingRoom, SessionRoute, Action, ◌>>=◌, ◌>>◌, return, lift, get, modify, raise_if,
  set_connection, active, new_connection,
}
use the_grid.Relay.Startup.{new_access_limiter, new_join_limiter}
use the_grid.Relay.Events.{send_event, close_connection, broadcast_to_subscribers}
use the_grid.Relay.Displays.{prune_reservations, release_display}
use the_grid.Relay.Routing.{is_over, drop_room}
use the_grid.Relay.Routes.{close_route}

-- `_accept`: the object of a new connection gets the number that is passed. False is the refusal.
unfoldable pub accept : ℕ → Text → RelayServer → RelayServer × Bool
unfolding set_connection
accept c peer_key s =
    if s.closing || s.rotating || leb s.limits.max_connections (length s.connections)
    then (s, false)
    else (
      set_connection c (new_connection peer_key) (record s { connections = c ∷ s.connections }),
      true,
    )

-- `self._connections.discard(connection)`
unfoldable pub discard : ℕ → RelayServer → RelayServer
unfolding filter
discard c s = record s { connections = filter (λ j. not (j == c)) s.connections }

unfoldable pub release_found : ℕ → Bytes → Option WaitingRoom → RelayServer → RelayServer
unfolding remove
release_found c room_id none s = s
release_found c room_id (some room) s =
    if room.room_creator == c
    then record s { waiting_rooms = remove room_id s.waiting_rooms }
    else s

unfoldable pub release_room : ℕ → Option Bytes → RelayServer → RelayServer
unfolding release_found lookup
release_room c none s = s
release_room c (some room_id) s = release_found c room_id (lookup room_id s.waiting_rooms) s

unfoldable pub release_route : ℕ → Option Bytes → RelayServer → RelayServer
unfolding close_route
release_route c none s = s
release_route c (some pair_id) s = close_route pair_id (codes "peer_disconnect") (some c) s

-- `_connection_closed`
unfoldable pub connection_closed : ℕ → ℕ → RelayServer → RelayServer
unfolding discard release_display release_room release_route
connection_closed c now s =
    let left = release_display c now (discard c s) in
    release_route c (s.heap c).pair_id (release_room c (s.heap c).waiting_room_id left)

-- The end of `_RelayConnection.run`: `close`, and then `_connection_closed`.
unfoldable pub disconnect : ℕ → ℕ → RelayServer → RelayServer
unfolding close_connection connection_closed
disconnect c now s = connection_closed c now (close_connection c s)

-- The calls of `close` that the gathering of them awaits.
unfoldable pub close_all : List ℕ → RelayServer → RelayServer
unfolding close_connection
close_all [] s = s
close_all (c ∷ connections) s = close_all connections (close_connection c s)

unfoldable pub forget_all : RelayServer → RelayServer
unfolding close_all
forget_all s = record (close_all s.connections s) {
  connections = [];
  waiting_rooms = [];
  routes = [];
  reservations = [];
}

-- `RelayServer.close`; the board is closed as a file.
unfoldable pub close_server : RelayServer → RelayServer
unfolding forget_all
close_server s = if s.closing then s else forget_all (record s { closing = true })

-- `rotate_access`; connections that come meanwhile are refused, as `_rotating` says until its end.
unfoldable pub rotate_access : AccessContext → AccessVerifierState → Action (Unit {0})
unfolding forget_all new_access_limiter new_join_limiter
rotate_access context verifier_state = do
  s ← get
  raise_if (not (context.server_id == s.context.server_id)) relay_error
  raise_if (not (context.access_generation == verifier_state.access_generation)) relay_error
  raise_if (context.access_generation == s.context.access_generation) relay_error
  modify forget_all
  forgotten ← get
  let bound = bind_access_generation forgotten.board context.access_generation
  modify (λ u. record u { board = bound.0 })
  changed ← lift (bound.1)
  access_limiter ← lift new_access_limiter
  join_limiter ← lift new_join_limiter
  modify (λ u. record u {
    context = context;
    verifier_state = verifier_state;
    board_sequence = u.board_sequence + 1;
    access_limiter = access_limiter;
    join_limiter = join_limiter;
  })

ids : List Bytes → Items
unfolding b64url_encode
ids [] = end
ids (id ∷ rest) = item (string (b64url_encode id)) (ids rest)

-- `_stored_record_mapping`
unfoldable pub stored_record_mapping : StoredBoardRecord → Value
unfolding b64url_encode
stored_record_mapping stored = object (
    member (codes "message_id") (string (b64url_encode stored.encrypted.message_id)) (
      member (codes "display_token") (string (b64url_encode stored.encrypted.display_token)) (
        member (codes "created_at") (number stored.created_at) (
          member (codes "expires_at") (number stored.expires_at) (
            member (codes "ciphertext") (string (b64url_encode stored.encrypted.ciphertext))
              last)))))

unfoldable pub next_sequence : RelayServer → RelayServer
next_sequence s = record s { board_sequence = s.board_sequence + 1 }

unfoldable pub broadcast_board_update : StoredBoardRecord → Action (Unit {0})
unfolding next_sequence make_frame stored_record_mapping broadcast_to_subscribers
broadcast_board_update stored = do
  modify next_sequence
  s ← get
  frame ← lift (
      make_frame (codes "board_update") (
        (codes "sequence", number s.board_sequence)
        ∷ (codes "record", stored_record_mapping stored)
        ∷ []))
  modify (broadcast_to_subscribers frame)

unfoldable pub announce_removed : List Bytes → Action (Unit {0})
unfolding next_sequence make_frame ids broadcast_to_subscribers
announce_removed message_ids = do
  modify next_sequence
  s ← get
  frame ← lift (
      make_frame (codes "board_remove") (
        (codes "sequence", number s.board_sequence)
        ∷ (codes "message_ids", array (ids message_ids))
        ∷ []))
  modify (broadcast_to_subscribers frame)

unfoldable pub broadcast_board_remove : List Bytes → Action (Unit {0})
unfolding announce_removed
broadcast_board_remove [] = return tt
broadcast_board_remove (id ∷ message_ids) = announce_removed (id ∷ message_ids)

-- The first loop of `_expire_sessions`: what it leaves, and the rooms whose creator is to be told.
unfoldable pub expire_rooms :
    ℕ → List (Bytes × WaitingRoom) → RelayServer → RelayServer × List WaitingRoom
unfolding is_over drop_room
expire_rooms now [] s = (s, [])
expire_rooms now ((room_id, room) ∷ rooms) s =
    let (after, expired) =
      expire_rooms now rooms (if is_over now room s then drop_room room_id room s else s) in
    if is_over now room s && not (s.heap room.room_creator).closed
    then (after, room ∷ expired)
    else (after, expired)

-- The second loop: an error ends the call.
unfoldable pub tell_expired : List WaitingRoom → Action (Unit {0})
unfolding make_frame send_event
tell_expired [] = return tt
tell_expired (room ∷ rooms) = do
  frame ←
      lift
        (make_frame (codes "session_close") ((codes "reason", string (codes "wait_timeout")) ∷ []))
  send_event room.room_creator frame
  tell_expired rooms

-- The third loop, over `list(self._routes.items())`.
unfoldable pub expire_routes : ℕ → List (Bytes × SessionRoute) → RelayServer → RelayServer
unfolding active close_route
expire_routes now [] s = s
expire_routes now ((pair_id, route) ∷ routes) s = expire_routes now routes (
    if not (active route) && leb route.handshake_deadline now
    then close_route pair_id (codes "handshake_timeout") none s
    else s)

unfoldable pub expire_sessions : ℕ → Action (Unit {0})
unfolding expire_rooms tell_expired expire_routes
expire_sessions now s =
    let (after, expired) = expire_rooms now s.waiting_rooms s in
    (do tell_expired expired; told ← get; modify (expire_routes now told.routes)) after

-- One round of `_maintenance_loop`; the board counts in seconds.
unfoldable pub maintain : ℕ → Action (Unit {0})
unfolding prune_reservations prune broadcast_board_remove expire_sessions
maintain now = do
  modify (prune_reservations now)
  modify (λ s. record s {
    access_limiter = prune s.access_limiter now;
    join_limiter = prune s.join_limiter now;
  })
  s ← get
  let cleaned = cleanup s.board (now / 1000)
  modify (λ u. record u { board = cleaned.0 })
  broadcast_board_remove cleaned.1
  expire_sessions now
