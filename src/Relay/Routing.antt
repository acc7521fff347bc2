-- ===== src/Relay/Routing.antt =====
-- Waiting rooms and session routes of relay.py.
use the_grid.Prelude.{
  ℕ, ◌+◌, Bool, true, false, ◌||◌, not, Option, none, some, List, [], ◌∷◌, any, leb, ◌==◌, ℕ_eq,
  list_eq, if◌then◌else◌, option_is, is_none,
}
use the_grid.Prelude.Dict.{lookup, insert, remove}
use the_grid.Prelude.Result.{Result, ok, err}
use the_grid.Bytes.{Bytes}
use the_grid.Sessions.Handshake.{HandshakeHello}
use the_grid.Relay.RateLimiter.{retry_after, record_event}
use the_grid.Relay.State.{RelayConnection, RelayServer, WaitingRoom, SessionRoute, set_connection}

-- The waiting room leaves the dict, and its creator if it still refers to it.
unfoldable pub drop_room : Bytes → WaitingRoom → RelayServer → RelayServer
unfolding remove set_connection option_is
drop_room room_id room s =
    let creator = s.heap room.room_creator in
    let dropped = record s { waiting_rooms = remove room_id s.waiting_rooms } in
    if option_is creator.waiting_room_id room_id
    then set_connection room.room_creator (record creator { waiting_room_id = none }) dropped
    else dropped

unfoldable pub is_over : ℕ → WaitingRoom → RelayServer → Bool
is_over now room s = leb room.expires_at now || (s.heap room.room_creator).closed

-- The loop over `list(self._waiting_rooms.items())`.
unfoldable pub drop_rooms : ℕ → List (Bytes × WaitingRoom) → RelayServer → RelayServer
unfolding is_over drop_room
drop_rooms now [] s = s
drop_rooms now ((room_id, room) ∷ rooms) s =
    drop_rooms now rooms (if is_over now room s then drop_room room_id room s else s)

-- `_cleanup_sessions`
unfoldable pub cleanup_sessions : ℕ → RelayServer → RelayServer
unfolding drop_rooms
cleanup_sessions now s = drop_rooms now s.waiting_rooms s

unfoldable pub is_taken : Bytes → RelayServer → Bool
unfolding lookup any
is_taken room_id s =
    not (is_none (lookup room_id s.waiting_rooms))
    || any (λ (_, route). route.room_id == room_id) s.routes

unfoldable pub is_engaged : RelayConnection → Bool
is_engaged x = not (is_none x.waiting_room_id) || not (is_none x.pair_id)

unfoldable pub create_waiting_room :
    ℕ → ℕ → Bytes → HandshakeHello → RelayServer → RelayServer × Bool
unfolding cleanup_sessions is_taken is_engaged insert set_connection
create_waiting_room c now room_id hello s₀ =
    let s = cleanup_sessions now s₀ in
    if is_engaged (s.heap c) || is_taken room_id s then (s, false) else (
      set_connection c (record (s.heap c) { waiting_room_id = some room_id })
          (record s {
            waiting_rooms =
                insert room_id
                  (record {
                    room_id = room_id;
                    room_creator = c;
                    hello = hello;
                    expires_at = now + s.limits.session_wait_timeout;
                  })
                  s.waiting_rooms;
          }),
      true,
    )

unfoldable pub forget_room : ℕ → RelayServer → RelayServer
unfolding set_connection
forget_room c s = set_connection c (record (s.heap c) { waiting_room_id = none }) s

-- `cancel_waiting_room` with the room id of the connection, and with the room that has it.
unfoldable pub cancel_room : ℕ → Bytes → Option WaitingRoom → RelayServer → RelayServer × Bool
unfolding forget_room remove
cancel_room c room_id none s = (forget_room c s, false)
cancel_room c room_id (some room) s =
    if room.room_creator == c
    then (forget_room c (record s { waiting_rooms = remove room_id s.waiting_rooms }), true)
    else (forget_room c s, false)

unfoldable pub cancel_own : ℕ → Option Bytes → RelayServer → RelayServer × Bool
unfolding cancel_room lookup
cancel_own c none s = (s, false)
cancel_own c (some room_id) s = cancel_room c room_id (lookup room_id s.waiting_rooms) s

unfoldable pub cancel_waiting_room : ℕ → RelayServer → RelayServer × Bool
unfolding cancel_own
cancel_waiting_room c s = cancel_own c (s.heap c).waiting_room_id s

-- The part of `join_waiting_room` that pairs the two; `pair_id` is what `secrets.token_bytes` gives.
unfoldable pub pair_with :
    ℕ → ℕ → Bytes → Bytes → HandshakeHello → WaitingRoom → RelayServer → RelayServer × SessionRoute
unfolding insert set_connection
pair_with c now pair_id room_id hello room s =
    let route : SessionRoute = record {
      pair_id = pair_id;
      room_id = room_id;
      route_creator = room.room_creator;
      route_joiner = c;
      creator_hello = room.hello;
      joiner_hello = hello;
      handshake_deadline = now + s.limits.session_handshake_timeout;
      creator_proof_sent = false;
      joiner_proof_sent = false;
      session_id = none;
    } in
    let routed = record s { routes = insert pair_id route s.routes } in
    let left =
      set_connection room.room_creator
        (record (routed.heap room.room_creator) { waiting_room_id = none; pair_id = some pair_id })
        routed in
    (set_connection c (record (left.heap c) { pair_id = some pair_id }) left, route)

-- `join_waiting_room` with the room that has been taken out, whose creator must still be free.
unfoldable pub join_room :
    ℕ
    → ℕ
    → Bytes
    → Bytes
    → HandshakeHello
    → Option WaitingRoom
    → RelayServer
    → RelayServer × Option SessionRoute
unfolding pair_with is_none
join_room c now pair_id room_id hello none s = (s, none)
join_room c now pair_id room_id hello (some room) s =
    if (s.heap room.room_creator).closed || not (is_none (s.heap room.room_creator).pair_id)
    then (s, none)
    else (
      (pair_with c now pair_id room_id hello room s).0,
      some (pair_with c now pair_id room_id hello room s).1,
    )

-- The rest of `join_waiting_room`, once the attempt is counted.
unfoldable pub join_counted :
    ℕ → ℕ → Bytes → Bytes → HandshakeHello → RelayServer → RelayServer × Option SessionRoute
unfolding cleanup_sessions is_engaged join_room lookup remove
join_counted c now pair_id room_id hello s₀ =
    let s = cleanup_sessions now s₀ in
    if is_engaged (s.heap c)
    then (s, none)
    else join_room c now pair_id room_id hello (lookup room_id s.waiting_rooms)
        (record s { waiting_rooms = remove room_id s.waiting_rooms })

-- The same behind what the limiter's `record` returned or raised.
unfoldable pub join_recorded :
    ℕ
    → ℕ
    → Bytes
    → Bytes
    → HandshakeHello
    → Result ℕ
    → RelayServer
    → RelayServer × Result (Option SessionRoute)
unfolding join_counted
join_recorded c now pair_id room_id hello (err e) s = (s, err e)
join_recorded c now pair_id room_id hello (ok retry) s =
    let (joined, route) = join_counted c now pair_id room_id hello s in (joined, ok route)

unfoldable pub join_waiting_room :
    ℕ
    → ℕ
    → Bytes
    → Bytes
    → HandshakeHello
    → RelayServer
    → RelayServer × Result (Option SessionRoute)
unfolding join_recorded retry_after record_event
join_waiting_room c now pair_id room_id hello s =
    let key = (s.heap c).peer_key in
    let (checked, retry) = retry_after s.join_limiter now key in
    let (limiter, recorded) = record_event checked now key in
    if retry == 0
    then join_recorded c now pair_id room_id hello recorded (record s { join_limiter = limiter })
    else (record s { join_limiter = checked }, ok none)
