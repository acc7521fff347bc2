-- ===== src/Relay/Consistency/Meeting.antt =====
-- The handlers of sessions keep the references.
use the_grid.Prelude.{ℕ, ◌≡◌, Bool, Option, none, some, ℕ_eq, list_eq}
use the_grid.Prelude.Dict.{lookup}
use the_grid.Bytes.{Bytes}
use the_grid.Text.{Text, codes}
use the_grid.Sessions.Types.{SessionRole, joiner}
use the_grid.Sessions.Handshake.{HandshakeHello}
use the_grid.Protocol.Frames.{Frame, require_frame_bytes}
use the_grid.Relay.State.{RelayServer, SessionRoute, Action, lift, ◌>>=◌}
use the_grid.Relay.Checks.{hello_from_frame}
use the_grid.Relay.Routing.{join_waiting_room}
use the_grid.Relay.SessionHandlers.{
  answer, send_pair, answer_join, handle_session_wait, handle_session_cancel, handle_session_join,
  handle_session_handshake, handle_session_data, handle_session_close,
}
use the_grid.Relay.Keeps.{
  Keeps, >>=-Keeps, lift-Keeps, return-Keeps, get-Keeps, modify-Keeps, check-keeps,
}
use the_grid.Relay.Consistency.{IsConsistent}
use the_grid.Relay.Consistency.Rooms.{
  create_waiting_room-IsConsistent, cancel_waiting_room-IsConsistent,
}
use the_grid.Relay.Consistency.Joining.{join_waiting_room-IsConsistent}
use the_grid.Relay.Consistency.Closing.{
  send-IsConsistent, mark_handshake_proof-IsConsistent, route_session_data-IsConsistent,
  close_session_route-IsConsistent,
}
use the_grid.Relay.Consistency.Running.{respond-IsConsistent}

answer-IsConsistent :
    (c : ℕ) (request_id frame_type : Text) (result : Bool)
    → Keeps IsConsistent (answer c request_id frame_type result)
unfolding answer
answer-IsConsistent c request_id frame_type result =
    search (>>=-Keeps, return-Keeps, respond-IsConsistent) depth 9

pub wait-IsConsistent :
    (c now : ℕ) (frame : Frame) (request_id : Text)
    → Keeps IsConsistent (handle_session_wait c now frame request_id)
unfolding handle_session_wait
wait-IsConsistent c now frame request_id =
    search
      (
        >>=-Keeps, lift-Keeps, get-Keeps, modify-Keeps, create_waiting_room-IsConsistent,
        answer-IsConsistent,
      )
      depth 30

pub cancel-IsConsistent :
    (c : ℕ) (request_id : Text) → Keeps IsConsistent (handle_session_cancel c request_id)
unfolding handle_session_cancel
cancel-IsConsistent c request_id =
    search
      (>>=-Keeps, get-Keeps, modify-Keeps, cancel_waiting_room-IsConsistent, answer-IsConsistent)
      depth 30

send_pair-IsConsistent :
    (c : ℕ) (route : SessionRoute) (role peer_role : SessionRole) (hello : HandshakeHello)
    → Keeps IsConsistent (send_pair c route role peer_role hello)
unfolding send_pair
send_pair-IsConsistent c route role peer_role hello =
    search (>>=-Keeps, lift-Keeps, send-IsConsistent) depth 9

answer_join-IsConsistent :
    (c : ℕ) (request_id : Text) (made : Option SessionRoute)
    → Keeps IsConsistent (answer_join c request_id made)
unfolding answer_join
answer_join-IsConsistent c request_id none = answer-IsConsistent c request_id _ _
answer_join-IsConsistent c request_id (some route) =
    search (>>=-Keeps, return-Keeps, respond-IsConsistent, send_pair-IsConsistent) depth 20

pub join-IsConsistent :
    (c now : ℕ) (pair_id : Bytes) (frame : Frame) (request_id : Text) (s : RelayServer)
    → IsConsistent s
    → lookup pair_id s.routes ≡ none
    → IsConsistent (handle_session_join c now pair_id frame request_id s).0
unfolding handle_session_join
join-IsConsistent c now pair_id frame request_id s h new =
    let paired : Bytes → HandshakeHello → Action Bool = λ id hello t.
      (lift ((join_waiting_room c now pair_id id hello t).1) >>= answer_join c request_id)
        (join_waiting_room c now pair_id id hello t).0 in
    check-keeps IsConsistent (require_frame_bytes frame (codes "room_id") (some 16) none)
      (λ id. lift (hello_from_frame frame joiner) >>= paired id) s h
      (λ id. check-keeps IsConsistent (hello_from_frame frame joiner) (paired id) s h (λ hello.
        let (joined, made) = join_waiting_room c now pair_id id hello s in
        let good : IsConsistent joined =
          join_waiting_room-IsConsistent c now pair_id id hello s h new in
        check-keeps IsConsistent made (answer_join c request_id) joined good
          (λ route. answer_join-IsConsistent c request_id route joined good)))

pub handshake-IsConsistent :
    (c now : ℕ) (frame : Frame) (request_id : Text)
    → Keeps IsConsistent (handle_session_handshake c now frame request_id)
unfolding handle_session_handshake
handshake-IsConsistent c now frame request_id =
    search (>>=-Keeps, lift-Keeps, mark_handshake_proof-IsConsistent, answer-IsConsistent) depth 30

pub data-IsConsistent :
    (c : ℕ) (frame : Frame) (request_id : Text)
    → Keeps IsConsistent (handle_session_data c frame request_id)
unfolding handle_session_data
data-IsConsistent c frame request_id =
    search (>>=-Keeps, lift-Keeps, route_session_data-IsConsistent, answer-IsConsistent) depth 40

pub close-IsConsistent :
    (c : ℕ) (frame : Frame) (request_id : Text)
    → Keeps IsConsistent (handle_session_close c frame request_id)
unfolding handle_session_close
close-IsConsistent c frame request_id =
    search
      (>>=-Keeps, lift-Keeps, return-Keeps, close_session_route-IsConsistent, answer-IsConsistent)
      depth 30
