-- ===== src/Relay/Consistency/Running.antt =====
-- The handlers of a hello, a proof and a display token keep the references.
use the_grid.Prelude.{
  ℕ, refl, Bool, true, false, Option, none, some, List, ℕ_eq, list_eq, option_is,
}
use the_grid.Bytes.{Bytes}
use the_grid.Text.{Text}
use the_grid.Crypto.{Primitives}
use the_grid.Access.Proof.{AccessChallengeVerifier}
use the_grid.Hub.Store.{BoardStore}
use the_grid.Protocol.Frames.{Frame}
use the_grid.Relay.RateLimiter.{WindowRateLimiter}
use the_grid.Relay.State.{RelayServer, DisplayReservation}
use the_grid.Relay.Events.{send_response, send_error, broadcast_to_subscribers}
use the_grid.Relay.Displays.{lease, reserve_over, reserve_display, prune_reservations}
use the_grid.Relay.Handlers.{
  handle_hello, handle_access_proof, handle_display_reserve, greet, answer_proof, spend, admit,
  count_failure, judge_proof, weigh_proof, check_proof, keep_token,
}
use the_grid.Relay.Keeps.{
  Keeps, >>=-Keeps, lift-Keeps, return-Keeps, get-Keeps, modify-Keeps, if-Keeps,
  send_response-Keeps, send_error-Keeps, broadcast-Keeps, if-keeps,
}
use the_grid.Relay.Consistency.{IsConsistent, assign-IsConsistent}
use the_grid.Relay.Consistency.Closing.{queue-IsConsistent}

-- What is neither a connection, a room nor a route does not matter.
pub board-IsConsistent :
    (s : RelayServer) (b : BoardStore) → IsConsistent s → IsConsistent (record s { board = b })
board-IsConsistent s b h = record { rooms = h.rooms; routes = h.routes }

pub limiter-IsConsistent :
    (s : RelayServer) (l : WindowRateLimiter)
    → IsConsistent s
    → IsConsistent (record s { access_limiter = l })
limiter-IsConsistent s l h = record { rooms = h.rooms; routes = h.routes }

pub sequence-IsConsistent :
    (s : RelayServer) (n : ℕ) → IsConsistent s → IsConsistent (record s { board_sequence = n })
sequence-IsConsistent s n h = record { rooms = h.rooms; routes = h.routes }

pub reservations-IsConsistent :
    (s : RelayServer) (r : List (Bytes × DisplayReservation))
    → IsConsistent s
    → IsConsistent (record s { reservations = r })
reservations-IsConsistent s r h = record { rooms = h.rooms; routes = h.routes }

pub respond-IsConsistent :
    (c : ℕ) (request_id frame_type : Text) (fields : Frame)
    → Keeps IsConsistent (send_response c request_id frame_type fields)
respond-IsConsistent c = send_response-Keeps IsConsistent c (queue-IsConsistent c)

pub error-IsConsistent :
    (c : ℕ) (request_id : Option Text) (code : Text)
    → Keeps IsConsistent (send_error c request_id code)
error-IsConsistent c = send_error-Keeps IsConsistent c (queue-IsConsistent c)

pub broadcast-IsConsistent :
    (frame : Frame) (s : RelayServer)
    → IsConsistent s
    → IsConsistent (broadcast_to_subscribers frame s)
unfolding broadcast_to_subscribers
broadcast-IsConsistent frame s h =
    broadcast-Keeps IsConsistent queue-IsConsistent frame s.connections s h

greet-IsConsistent :
    (c : ℕ) (v : AccessChallengeVerifier) (s : RelayServer)
    → IsConsistent s
    → IsConsistent (greet c v s)
unfolding greet
greet-IsConsistent c v s h = assign-IsConsistent c _ s h refl refl

spend-IsConsistent :
    (c : ℕ) (v : AccessChallengeVerifier) (s : RelayServer)
    → IsConsistent s
    → IsConsistent (spend c v s)
unfolding spend
spend-IsConsistent c v s h = assign-IsConsistent c _ s h refl refl

admit-IsConsistent : (c : ℕ) (s : RelayServer) → IsConsistent s → IsConsistent (admit c s)
unfolding admit
admit-IsConsistent c s h = assign-IsConsistent c _ _ (limiter-IsConsistent s _ h) refl refl

token-IsConsistent :
    (c : ℕ) (token : Bytes) (s : RelayServer) → IsConsistent s → IsConsistent (keep_token c token s)
unfolding keep_token
token-IsConsistent c token s h = assign-IsConsistent c _ s h refl refl

pub hello-IsConsistent :
    (c now : ℕ) (challenge : Bytes) (frame : Frame) (request_id : Text)
    → Keeps IsConsistent (handle_hello c now challenge frame request_id)
unfolding handle_hello
hello-IsConsistent c now challenge frame request_id =
    search
      (
        >>=-Keeps, lift-Keeps, get-Keeps, return-Keeps, modify-Keeps, greet-IsConsistent,
        respond-IsConsistent,
      )
      depth 30

answer_proof-IsConsistent :
    (c : ℕ) (request_id : Text) (good : Bool) (retry : ℕ)
    → Keeps IsConsistent (answer_proof c request_id good retry)
unfolding answer_proof
answer_proof-IsConsistent c request_id good retry = search (respond-IsConsistent)

judge_proof-IsConsistent :
    (c now : ℕ) (request_id : Text) (good : Bool)
    → Keeps IsConsistent (judge_proof c now request_id good)
unfolding judge_proof count_failure
judge_proof-IsConsistent c now request_id true =
    search (>>=-Keeps, return-Keeps, admit-IsConsistent, answer_proof-IsConsistent) depth 20
judge_proof-IsConsistent c now request_id false =
    search
      (
        >>=-Keeps, return-Keeps, get-Keeps, modify-Keeps, limiter-IsConsistent,
        answer_proof-IsConsistent,
      )
      depth 20

check_proof-IsConsistent :
    (p : Primitives) (c now : ℕ) (frame : Frame) (request_id : Text)
    → Keeps IsConsistent (check_proof p c now frame request_id)
unfolding check_proof weigh_proof
check_proof-IsConsistent p c now frame request_id =
    search
      (>>=-Keeps, lift-Keeps, get-Keeps, modify-Keeps, spend-IsConsistent, judge_proof-IsConsistent)
      depth 40

pub proof-IsConsistent :
    (p : Primitives) (c now : ℕ) (frame : Frame) (request_id : Text)
    → Keeps IsConsistent (handle_access_proof p c now frame request_id)
unfolding handle_access_proof
proof-IsConsistent p c now frame request_id =
    search
      (
        >>=-Keeps, lift-Keeps, get-Keeps, return-Keeps, modify-Keeps, if-Keeps,
        limiter-IsConsistent, answer_proof-IsConsistent, check_proof-IsConsistent,
      )
      depth 40

reserve_over-IsConsistent :
    (c now : ℕ) (token : Bytes) (found : Option DisplayReservation) (s : RelayServer)
    → IsConsistent s
    → IsConsistent (reserve_over c now token found s).0
unfolding reserve_over lease
reserve_over-IsConsistent c now token none s h = reservations-IsConsistent s _ h
reserve_over-IsConsistent c now token (some existing) s h =
    if-keeps IsConsistent (option_is existing.connection c) (lease c now token s, true) (s, false)
      (reservations-IsConsistent s _ h) h

reserve-IsConsistent :
    (c now : ℕ) (token : Bytes) (s : RelayServer)
    → IsConsistent s
    → IsConsistent (reserve_display c now token s).0
unfolding reserve_display reserve_over prune_reservations lease
reserve-IsConsistent c now token s h =
    reserve_over-IsConsistent c now token _ _ (reservations-IsConsistent s _ h)

pub display-IsConsistent :
    (c now : ℕ) (frame : Frame) (request_id : Text)
    → Keeps IsConsistent (handle_display_reserve c now frame request_id)
unfolding handle_display_reserve
display-IsConsistent c now frame request_id =
    search
      (
        >>=-Keeps, lift-Keeps, get-Keeps, return-Keeps, modify-Keeps, if-Keeps,
        reserve-IsConsistent, token-IsConsistent, respond-IsConsistent,
      )
      depth 40
