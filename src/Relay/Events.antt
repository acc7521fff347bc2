-- ===== src/Relay/Events.antt =====
-- What relay.py sends: events, responses and errors, each by the bounded queue of a connection.
use the_grid.Prelude.{
  ℕ, true, ◌&&◌, not, Option, none, some, List, [], ◌∷◌, ◌++◌, length, ltb, if◌then◌else◌,
}
use the_grid.Prelude.Result.{ok, err, connection_error}
use the_grid.Text.{Text, codes}
use the_grid.Protocol.Frames.{string, Frame, make_frame}
use the_grid.Relay.State.{RelayServer, Action, ◌>>=◌, lift, set_connection}

unfoldable pub send_event : ℕ → Frame → Action (Unit {0})
unfolding set_connection
send_event c frame s =
    let connection = s.heap c in
    if connection.closed
    then (s, err connection_error)
    else if ltb (length connection.outbound) s.limits.outbound_queue
    then (
      set_connection c (record connection { outbound = connection.outbound ++ some frame ∷ [] }) s,
      ok tt,
    )
    else (set_connection c (record connection { close_requested = true }) s, err connection_error)

-- `try: await connection.send_event(frame) except Exception: pass`
unfoldable pub try_send : ℕ → Frame → RelayServer → RelayServer
unfolding send_event
try_send c frame s = (send_event c frame s).0

unfoldable pub send_response : ℕ → Text → Text → Frame → Action (Unit {0})
unfolding send_event make_frame
send_response c request_id frame_type fields = do
  frame ← lift (make_frame frame_type ((codes "request_id", string request_id) ∷ fields))
  send_event c frame

error_fields : Option Text → Text → Frame
error_fields none code = (codes "code", string code) ∷ []
error_fields (some request_id) code =
    (codes "code", string code) ∷ (codes "request_id", string request_id) ∷ []

unfoldable pub send_error : ℕ → Option Text → Text → Action (Unit {0})
unfolding send_event make_frame error_fields
send_error c request_id code = do
  frame ← lift (make_frame (codes "error") (error_fields request_id code))
  send_event c frame

-- `_RelayConnection.close`, as far as the server sees it: the tasks and the socket are left out.
unfoldable pub close_connection : ℕ → RelayServer → RelayServer
unfolding set_connection
close_connection c s =
    let connection = s.heap c in
    if connection.closed
    then s
    else set_connection c
        (record connection {
          closed = true;
          outbound =
              if ltb (length connection.outbound) s.limits.outbound_queue
              then connection.outbound ++ none ∷ []
              else connection.outbound;
        })
        s

-- The writer takes one element of the queue.
unfoldable pub pop_outbound : ℕ → List (Option Frame) → RelayServer → RelayServer × Option Frame
unfolding set_connection
pop_outbound c [] s = (s, none)
pop_outbound c (next ∷ rest) s = (set_connection c (record (s.heap c) { outbound = rest }) s, next)

unfoldable pub take_outbound : ℕ → RelayServer → RelayServer × Option Frame
unfolding pop_outbound
take_outbound c s = pop_outbound c (s.heap c).outbound s

-- `_broadcast_to_subscribers`: to each in its turn, and what one raises is dropped.
unfoldable pub broadcast : Frame → List ℕ → RelayServer → RelayServer
unfolding try_send
broadcast frame [] s = s
broadcast frame (c ∷ connections) s =
    let wanted = (s.heap c).board_subscribed && not (s.heap c).closed in
    broadcast frame connections (if wanted then try_send c frame s else s)

unfoldable pub broadcast_to_subscribers : Frame → RelayServer → RelayServer
unfolding broadcast
broadcast_to_subscribers frame s = broadcast frame s.connections s
