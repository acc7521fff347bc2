-- ===== src/Relay/Consistency/Leaving.antt =====
-- A connection that comes, waits or goes keeps the references.
use the_grid.Prelude.{
  ℕ, ◌≡◌, refl, Bool, true, false, ◌||◌, Option, none, some, List, [], ◌∷◌, ◌==◌, ℕ_eq, list_eq,
  if◌then◌else◌, length, leb, sym,
}
use the_grid.Prelude.Dict.{lookup}
use the_grid.Bytes.{Bytes}
use the_grid.Text.{Text, codes}
use the_grid.Protocol.Frames.{Frame}
use the_grid.Relay.State.{RelayServer, WaitingRoom, DisplayReservation, new_connection}
use the_grid.Relay.Events.{close_connection, pop_outbound}
use the_grid.Relay.Displays.{renew, lease, release, release_display}
use the_grid.Relay.Lifecycle.{
  accept, discard, release_found, release_room, release_route, connection_closed, disconnect,
}
use the_grid.Relay.Keeps.{if-keeps}
use the_grid.Relay.Consistency.{IsConsistent, assign-IsConsistent, remove_room-IsConsistent}
use the_grid.Relay.Consistency.Closing.{close_route-IsConsistent}
use the_grid.Relay.Consistency.Running.{reservations-IsConsistent}

pub chosen-IsConsistent :
    (b : Bool) (s t : RelayServer)
    → IsConsistent s
    → IsConsistent t
    → IsConsistent (if b then s else t)
chosen-IsConsistent true s t h k = h
chosen-IsConsistent false s t h k = k

connections-IsConsistent :
    (s : RelayServer) (cs : List ℕ) → IsConsistent s → IsConsistent (record s { connections = cs })
connections-IsConsistent s cs h = record { rooms = h.rooms; routes = h.routes }

pub accept-IsConsistent :
    (c : ℕ) (peer_key : Text) (s : RelayServer)
    → IsConsistent s
    → (s.heap c).waiting_room_id ≡ none
    → (s.heap c).pair_id ≡ none
    → IsConsistent (accept c peer_key s).0
unfolding accept
accept-IsConsistent c peer_key s h w p =
    if-keeps IsConsistent
      (s.closing || s.rotating || leb s.limits.max_connections (length s.connections)) (s, false)
      (_, true) h
      (assign-IsConsistent c (new_connection peer_key)
        (record s { connections = c ∷ s.connections })
        (connections-IsConsistent s (c ∷ s.connections) h) (sym w) (sym p))

pub renew-IsConsistent :
    (c now : ℕ) (own : Option (Bytes × DisplayReservation)) (s : RelayServer)
    → IsConsistent s
    → IsConsistent (renew c now own s)
unfolding renew lease
renew-IsConsistent c now none s h = h
renew-IsConsistent c now (some (token, r)) s h = reservations-IsConsistent s _ h

release-IsConsistent :
    (now : ℕ) (own : Option (Bytes × DisplayReservation)) (s : RelayServer)
    → IsConsistent s
    → IsConsistent (release now own s)
unfolding release
release-IsConsistent now none s h = h
release-IsConsistent now (some (token, r)) s h = reservations-IsConsistent s _ h

pub closed-IsConsistent :
    (c : ℕ) (s : RelayServer) → IsConsistent s → IsConsistent (close_connection c s)
unfolding close_connection
closed-IsConsistent c s h =
    chosen-IsConsistent (s.heap c).closed s _ h (assign-IsConsistent c _ s h refl refl)

release_found-IsConsistent :
    (c : ℕ) (id : Bytes) (found : Option WaitingRoom) (s : RelayServer)
    → IsConsistent s
    → IsConsistent (release_found c id found s)
unfolding release_found
release_found-IsConsistent c id none s h = h
release_found-IsConsistent c id (some room) s h =
    chosen-IsConsistent (room.room_creator == c) _ s (remove_room-IsConsistent id s h) h

release_room-IsConsistent :
    (c : ℕ) (own : Option Bytes) (s : RelayServer)
    → IsConsistent s
    → IsConsistent (release_room c own s)
unfolding release_room
release_room-IsConsistent c none s h = h
release_room-IsConsistent c (some id) s h =
    release_found-IsConsistent c id (lookup id s.waiting_rooms) s h

release_route-IsConsistent :
    (c : ℕ) (own : Option Bytes) (s : RelayServer)
    → IsConsistent s
    → IsConsistent (release_route c own s)
unfolding release_route
release_route-IsConsistent c none s h = h
release_route-IsConsistent c (some id) s h =
    close_route-IsConsistent id (codes "peer_disconnect") (some c) s h

pub disconnect-IsConsistent :
    (c now : ℕ) (s : RelayServer) → IsConsistent s → IsConsistent (disconnect c now s)
unfolding disconnect connection_closed discard release_display
disconnect-IsConsistent c now s h = release_route-IsConsistent c _ _ (
    release_room-IsConsistent c _ _
      (release-IsConsistent now _ _ (connections-IsConsistent _ _ (closed-IsConsistent c s h))))

pub pop_outbound-IsConsistent :
    (c : ℕ) (queued : List (Option Frame)) (s : RelayServer)
    → IsConsistent s
    → IsConsistent (pop_outbound c queued s).0
unfolding pop_outbound
pop_outbound-IsConsistent c [] s h = h
pop_outbound-IsConsistent c (next ∷ rest) s h = assign-IsConsistent c _ s h refl refl

pub renew-routes :
    (c now : ℕ) (own : Option (Bytes × DisplayReservation)) (s : RelayServer)
    → (renew c now own s).routes ≡ s.routes
unfolding renew lease
renew-routes c now none s = refl
renew-routes c now (some (token, r)) s = refl
