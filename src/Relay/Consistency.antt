-- ===== src/Relay/Consistency.antt =====
-- Rooms, routes and connections of the relay refer to one another as they should.
pub mod Closing
pub mod Running
pub mod Rooms
pub mod Joining
pub mod Leaving
pub mod Upkeep
pub mod Serving
pub mod Meeting
use the_grid.Prelude.{
  ℕ, ◌≡◌, refl, Bool, true, false, not, ◌&&◌, ◌||◌, Option, none, some, List, [], ◌∷◌, ◌++◌, ◌==◌,
  ℕ_eq, list_eq, if◌then◌else◌, arith, Bool-cases, Option-cases, inl, inr, sym, ◌∙◌, ap, is_none,
  option_is, option_is-eq, option_is-eq, list_beq_iff, nat_eq_iff, leb,
}
use the_grid.Prelude.Dict.{
  lookup, insert, remove, lookup-insert, lookup-remove, lookup-insert_self, lookup-remove_self,
}
use the_grid.Bytes.{Bytes}
use the_grid.Text.{Text, codes}
use the_grid.Protocol.Frames.{Frame}
use the_grid.Sessions.Handshake.{HandshakeHello}
use the_grid.Relay.State.{RelayServer, RelayConnection, WaitingRoom, SessionRoute, set_connection}
use the_grid.Relay.Routing.{
  drop_room, drop_rooms, is_over, cleanup_sessions, create_waiting_room, cancel_waiting_room,
  cancel_own, cancel_room, join_room, join_waiting_room, forget_room, pair_with, join_counted,
  is_engaged, is_taken,
}
use the_grid.Relay.RateLimiter.{WindowRateLimiter, retry_after, record_event}
use the_grid.Relay.Keeps.{if-keeps, Keeps, IgnoresQueue, queue}

-- The creator of a waiting room refers to it and is on no route. Both ends of a route refer to it,
-- and they differ.
pub record IsConsistent (s : RelayServer) : Type 0 where
  pub rooms :
      (id : Bytes) (room : WaitingRoom)
      → lookup id s.waiting_rooms ≡ some room
      → ((s.heap room.room_creator).waiting_room_id ≡ some id)
        × ((s.heap room.room_creator).pair_id ≡ none)
  pub routes :
      (id : Bytes) (route : SessionRoute)
      → lookup id s.routes ≡ some route
      → ((s.heap route.route_creator).pair_id ≡ some id)
        × ((s.heap route.route_joiner).pair_id ≡ some id)
        × ((route.route_creator == route.route_joiner) ≡ false)

-- An assignment that leaves the references of a connection.
pub assign-IsConsistent :
    (c : ℕ) (x : RelayConnection) (s : RelayServer)
    → IsConsistent s
    → x.waiting_room_id ≡ (s.heap c).waiting_room_id
    → x.pair_id ≡ (s.heap c).pair_id
    → IsConsistent (set_connection c x s)
unfolding set_connection
assign-IsConsistent c x s h w p = record {
  rooms =
      λ id room found. ground (arith, w, p, h.rooms id room found, nat_eq_iff room.room_creator c);
  routes = λ id route found. ground (
    arith,
    p,
    h.routes id route found,
    nat_eq_iff route.route_creator c,
    nat_eq_iff route.route_joiner c,
  );
}

-- A waiting room goes.
pub remove_room-IsConsistent :
    (id : Bytes) (s : RelayServer)
    → IsConsistent s
    → IsConsistent (record s { waiting_rooms = remove id s.waiting_rooms })
remove_room-IsConsistent id s h = record {
  rooms =
      λ j room found. h.rooms j room (ground (arith, found, lookup-remove id j s.waiting_rooms));
  routes = h.routes;
}
