-- ===== src/Relay/Dispatch/Phases.antt =====
-- What a connection cannot do before it has proved the access phrase.
use the_grid.Prelude.{ℕ, ◌≡◌, refl, Bool, true, false, ◌==◌, ℕ_eq, list_eq, arith}
use the_grid.Text.{Text}
use the_grid.Crypto.{Primitives}
use the_grid.Access.Proof.{AccessChallengeVerifier}
use the_grid.Protocol.Frames.{Frame}
use the_grid.Relay.State.{RelayConnection, RelayServer, set_connection}
use the_grid.Relay.Handlers.{
  judge_proof, weigh_proof, count_failure, handle_access_proof, check_proof, greet, spend, admit,
  answer_proof,
}
use the_grid.Relay.RateLimiter.{WindowRateLimiter}
use the_grid.Relay.Keeps.{
  Keeps, IgnoresQueue, queue, >>=-Keeps, lift-Keeps, return-Keeps, get-Keeps, modify-Keeps,
  if-Keeps,
}
use the_grid.Relay.Dispatch.Gate.{answer-Keeps, handle_frame-keeps}
use the_grid.Relay.Dispatch.{Draws, handle_frame}

-- The server differs only in its limiters, the queue of one connection and how far that has come
-- with its hello and its proof.
pub record IsUntouched (c : ℕ) (s t : RelayServer) : Type 0 where
  pub board : t.board ≡ s.board
  pub board_sequence : t.board_sequence ≡ s.board_sequence
  pub connections : t.connections ≡ s.connections
  pub reservations : t.reservations ≡ s.reservations
  pub waiting_rooms : t.waiting_rooms ≡ s.waiting_rooms
  pub routes : t.routes ≡ s.routes
  pub others : (j : ℕ) → (j == c) ≡ false → t.heap j ≡ s.heap j
  pub display_token : (t.heap c).display_token ≡ (s.heap c).display_token
  pub board_subscribed : (t.heap c).board_subscribed ≡ (s.heap c).board_subscribed
  pub waiting_room_id : (t.heap c).waiting_room_id ≡ (s.heap c).waiting_room_id
  pub pair_id : (t.heap c).pair_id ≡ (s.heap c).pair_id

module _ (c : ℕ) (s₀ : RelayServer) where
  IsUntouched-refl : IsUntouched c s₀ s₀
  IsUntouched-refl = record {
    board = refl;
    board_sequence = refl;
    connections = refl;
    reservations = refl;
    waiting_rooms = refl;
    routes = refl;
    others = λ j h. refl;
    display_token = refl;
    board_subscribed = refl;
    waiting_room_id = refl;
    pair_id = refl;
  }

  -- An assignment to the connection that leaves those fields.
  assign-IsUntouched :
      (x : RelayConnection) (s : RelayServer)
      → IsUntouched c s₀ s
      → x.display_token ≡ (s.heap c).display_token
      → x.board_subscribed ≡ (s.heap c).board_subscribed
      → x.waiting_room_id ≡ (s.heap c).waiting_room_id
      → x.pair_id ≡ (s.heap c).pair_id
      → IsUntouched c s₀ (set_connection c x s)
  unfolding set_connection
  assign-IsUntouched x s h a b d e = record {
    board = h.board;
    board_sequence = h.board_sequence;
    connections = h.connections;
    reservations = h.reservations;
    waiting_rooms = h.waiting_rooms;
    routes = h.routes;
    others = λ j other. ground (arith, other, h.others j other);
    display_token = ground (arith, a, h.display_token);
    board_subscribed = ground (arith, b, h.board_subscribed);
    waiting_room_id = ground (arith, d, h.waiting_room_id);
    pair_id = ground (arith, e, h.pair_id);
  }

  queue-IsUntouched : IgnoresQueue c (IsUntouched c s₀)
  unfolding queue
  queue-IsUntouched outbound requested s h = assign-IsUntouched _ s h refl refl refl refl

  greet-IsUntouched :
      (verifier : AccessChallengeVerifier) (s : RelayServer)
      → IsUntouched c s₀ s
      → IsUntouched c s₀ (greet c verifier s)
  unfolding greet
  greet-IsUntouched verifier s h = assign-IsUntouched _ s h refl refl refl refl

  spend-IsUntouched :
      (verifier : AccessChallengeVerifier) (s : RelayServer)
      → IsUntouched c s₀ s
      → IsUntouched c s₀ (spend c verifier s)
  unfolding spend
  spend-IsUntouched verifier s h = assign-IsUntouched _ s h refl refl refl refl

  limit-IsUntouched :
      (s : RelayServer) (l : WindowRateLimiter)
      → IsUntouched c s₀ s
      → IsUntouched c s₀ (record s { access_limiter = l })
  limit-IsUntouched s l h = record {
    board = h.board;
    board_sequence = h.board_sequence;
    connections = h.connections;
    reservations = h.reservations;
    waiting_rooms = h.waiting_rooms;
    routes = h.routes;
    others = h.others;
    display_token = h.display_token;
    board_subscribed = h.board_subscribed;
    waiting_room_id = h.waiting_room_id;
    pair_id = h.pair_id;
  }

  admit-IsUntouched : (s : RelayServer) → IsUntouched c s₀ s → IsUntouched c s₀ (admit c s)
  unfolding admit
  admit-IsUntouched s h = assign-IsUntouched _ _ (limit-IsUntouched s _ h) refl refl refl refl

  answers-IsUntouched :
      (request_id : Text) (answer : Bool) (retry : ℕ)
      → Keeps (IsUntouched c s₀) (answer_proof c request_id answer retry)
  answers-IsUntouched = answer-Keeps (IsUntouched c s₀) c queue-IsUntouched greet-IsUntouched

  judge_proof-IsUntouched :
      (now : ℕ) (request_id : Text) (good : Bool)
      → Keeps (IsUntouched c s₀) (judge_proof c now request_id good)
  unfolding judge_proof count_failure
  judge_proof-IsUntouched now request_id true =
      search (>>=-Keeps, return-Keeps, admit-IsUntouched, answers-IsUntouched) depth 20
  judge_proof-IsUntouched now request_id false =
      search
        (
          >>=-Keeps, return-Keeps, lift-Keeps, get-Keeps, modify-Keeps, limit-IsUntouched,
          answers-IsUntouched,
        )
        depth 20

  check_proof-IsUntouched :
      (p : Primitives) (now : ℕ) (frame : Frame) (request_id : Text)
      → Keeps (IsUntouched c s₀) (check_proof p c now frame request_id)
  unfolding check_proof weigh_proof
  check_proof-IsUntouched p now frame request_id =
      search
        (>>=-Keeps, lift-Keeps, get-Keeps, modify-Keeps, spend-IsUntouched, judge_proof-IsUntouched)
        depth 40

  proof-IsUntouched :
      (p : Primitives) (now : ℕ) (frame : Frame) (request_id : Text)
      → Keeps (IsUntouched c s₀) (handle_access_proof p c now frame request_id)
  unfolding handle_access_proof
  proof-IsUntouched p now frame request_id =
      search
        (
          >>=-Keeps, lift-Keeps, get-Keeps, return-Keeps, modify-Keeps, if-Keeps, limit-IsUntouched,
          answers-IsUntouched, check_proof-IsUntouched,
        )
        depth 40

-- Until a connection has proved the access phrase, whatever frame it sends changes neither the
-- board nor its sequence, no reservation, no waiting room and no route, nothing of any other
-- connection, and does not give the connection itself a display token, a subscription, a room or a
-- route.
pub handle_frame-IsUntouched :
    (p : Primitives) (draws : Draws) (c now : ℕ) (frame : Frame) (s : RelayServer)
    → (s.heap c).authenticated ≡ false
    → IsUntouched c s (handle_frame p draws c now frame s).0
unfolding handle_frame
handle_frame-IsUntouched p draws c now frame s locked =
    handle_frame-keeps (IsUntouched c s) c (queue-IsUntouched c s) (greet-IsUntouched c s) p draws
      now frame s locked (IsUntouched-refl c s)
      (λ r. proof-IsUntouched c s p now frame r s (IsUntouched-refl c s))
