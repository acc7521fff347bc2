-- ===== src/Relay/History.antt =====
-- Whatever happens to a relay: frames, connections that come and go, the writers, maintenance,
-- rotation and the end.
use the_grid.Prelude.{ℕ, ◌≡◌, none, List, [], ◌∷◌, ℕ_eq, list_eq}
use the_grid.Prelude.Dict.{lookup}
use the_grid.Text.{Text}
use the_grid.Crypto.{Primitives}
use the_grid.Access.Proof.{AccessContext, AccessVerifierState}
use the_grid.Protocol.Frames.{Frame}
use the_grid.Relay.State.{RelayServer}
use the_grid.Relay.Events.{close_connection, take_outbound}
use the_grid.Relay.Displays.{touch_display, own_reservation}
use the_grid.Relay.Lifecycle.{accept, disconnect, close_server, rotate_access, maintain}
use the_grid.Relay.Consistency.{IsConsistent}
use the_grid.Relay.Dispatch.{Draws, handle_frame}
use the_grid.Relay.Dispatch.References.{handle_frame-IsConsistent}
use the_grid.Relay.Consistency.Leaving.{
  accept-IsConsistent, renew-IsConsistent, closed-IsConsistent, disconnect-IsConsistent,
  pop_outbound-IsConsistent, renew-routes,
}
use the_grid.Relay.Consistency.Upkeep.{
  maintain-IsConsistent, close_server-IsConsistent, rotate_access-IsConsistent,
}

pub data Event : Type 0 where
  accepted : ℕ → Text → Event
  received : Draws → ℕ → ℕ → Frame → Event
  written : ℕ → Event
  closing : ℕ → Event
  disconnected : ℕ → ℕ → Event
  maintained : ℕ → Event
  rotated : AccessContext → AccessVerifierState → Event
  stopped : Event

-- A frame renews the lease of the display before it is handled.
unfoldable pub step : Primitives → RelayServer → Event → RelayServer
unfolding accept touch_display handle_frame take_outbound close_connection disconnect maintain
    rotate_access close_server
step p s (accepted c peer_key) = (accept c peer_key s).0
step p s (received draws c now frame) = (handle_frame p draws c now frame (touch_display c now s)).0
step p s (written c) = (take_outbound c s).0
step p s (closing c) = close_connection c s
step p s (disconnected c now) = disconnect c now s
step p s (maintained now) = (maintain now s).0
step p s (rotated context verifier_state) = (rotate_access context verifier_state s).0
step p s stopped = close_server s

unfoldable pub run : Primitives → RelayServer → List Event → RelayServer
unfolding step
run p s [] = s
run p s (e ∷ events) = run p (step p s e) events

-- What the random source and the numbering of connections owe: a pair id is not that of a route,
-- and the number of a new connection is not that of one in a room or on a route.
abbrev pub IsFresh : RelayServer → Event → Type 0
IsFresh s (accepted c peer_key) = ((s.heap c).waiting_room_id ≡ none) × ((s.heap c).pair_id ≡ none)
IsFresh s (received draws c now frame) = lookup draws.new_pair_id s.routes ≡ none
IsFresh s _ = Unit

abbrev pub AllFresh : Primitives → RelayServer → List Event → Type 0
AllFresh p s [] = Unit
AllFresh p s (e ∷ events) = IsFresh s e × AllFresh p (step p s e) events

step-IsConsistent :
    (p : Primitives) (s : RelayServer) (e : Event)
    → IsConsistent s
    → IsFresh s e
    → IsConsistent (step p s e)
unfolding step touch_display take_outbound
step-IsConsistent p s (accepted c peer_key) h (w, u) = accept-IsConsistent c peer_key s h w u
step-IsConsistent p s (received draws c now frame) h f =
    handle_frame-IsConsistent p draws c now frame (touch_display c now s)
      (renew-IsConsistent c now (own_reservation c s) s h)
      (rw (renew-routes c now (own_reservation c s) s) f)
step-IsConsistent p s (written c) h f = pop_outbound-IsConsistent c (s.heap c).outbound s h
step-IsConsistent p s (closing c) h f = closed-IsConsistent c s h
step-IsConsistent p s (disconnected c now) h f = disconnect-IsConsistent c now s h
step-IsConsistent p s (maintained now) h f = maintain-IsConsistent now s h
step-IsConsistent p s (rotated context v) h f = rotate_access-IsConsistent context v s h
step-IsConsistent p s stopped h f = close_server-IsConsistent s h

-- A server whose rooms, routes and connections refer to one another as they should, with the creator
-- of a room waiting in it and on no route, and with two different ends of each route that refer to
-- it, stays so through each sequence of events, if each number that a new connection gets is that
-- of a connection without a room or a route, and each pair id that is drawn is not that of a route.
pub run-IsConsistent :
    (p : Primitives) (s : RelayServer) (events : List Event)
    → IsConsistent s
    → AllFresh p s events
    → IsConsistent (run p s events)
unfolding run
run-IsConsistent p s [] h fresh = h
run-IsConsistent p s (e ∷ events) h (f, fresh) =
    run-IsConsistent p (step p s e) events (step-IsConsistent p s e h f) fresh
