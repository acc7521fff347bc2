-- ===== src/Tests/Relay.antt =====
-- The theorems on relay.py and its frames at concrete inputs.
use the_grid.Prelude.{
  ℕ, zero, suc, ◌≡◌, ◌≢◌, ◌↔◌, ◌≤◌, ◌<◌, ◌*◌, ap, ◌∙◌, ◌+◌, refl, Bool, true, false, none, some,
  List, [], ◌∷◌, arith, length, all, any, list_beq, ◌==◌, ℕ_eq, list_eq, if◌then◌else◌,
  list_beq_iff,
}
use the_grid.Prelude.Dict.{lookup, insert}
use the_grid.Prelude.Result.{Result, ok}
use the_grid.Bytes.{Bytes, IsBytes, require_bytes}
use the_grid.Text.{codes, is_ascii}
use the_grid.Crypto.{hmac_sha256}
use the_grid.Access.Proof.{verify, create_access_proof}
use the_grid.Hub.Store.{new_store}
use the_grid.Sessions.Types.{creator_to_joiner, creator, joiner, SessionRole}
use the_grid.Sessions.Handshake.{HandshakeHello}
use the_grid.Protocol.Base64.{b64url_encode}
use the_grid.Protocol.Frames.{Frame, string, number, require_frame_bytes, require_frame_int}
use the_grid.Protocol.Frames.Access.{require_frame_int_iff, require_frame_bytes_iff}
use the_grid.Relay.RateLimiter.{
  WindowRateLimiter, new_limiter, block_of, bucket_of, drop_old, record_event, retry_after,
}
use the_grid.Relay.RateLimiter.Backoff.{record_event-penalty, penalty, count_at}
use the_grid.Relay.RateLimiter.Window.{Event, attempt, maintenance, recorded, recorded-IsSpaced}
use the_grid.Relay.RateLimiter.Spacing.{IsSpaced}
use the_grid.Relay.State.{RelayServer, RelayConnection, SessionRoute, WaitingRoom, new_connection}
use the_grid.Relay.State.{Action, lift, ◌>>=◌}
use the_grid.Relay.Handlers.{
  judge_proof, weigh_proof, check_proof, spend, challenge_of, handle_access_proof,
}
use the_grid.Relay.Routes.{route_session_data}
use the_grid.Relay.Dispatch.{handle_frame, Draws}
use the_grid.Relay.Consistency.{IsConsistent}
use the_grid.Relay.History as History
use the_grid.Relay.History.{run, step, AllFresh, run-IsConsistent}
use the_grid.Relay.Dispatch.Phases.{IsUntouched, handle_frame-IsUntouched}
use the_grid.Relay.Dispatch.Admission.{IsProved, handle_frame-authenticates}
use the_grid.Access.Proof.Message.{access_proof_message_total}
use the_grid.Access.Proof.Challenge.{verify-create}
use the_grid.Tests.Toy.{block, toy}
use the_grid.Tests.Admission.{context, setup, verifier}

abbrev id_field : Frame
id_field = (codes "room_id", string (codes "AQID")) ∷ (codes "n", number 3) ∷ []

abbrev three_bytes : Bytes
three_bytes = 1 ∷ 2 ∷ 3 ∷ []

require_frame_bytes_iff_example :
    (require_frame_bytes id_field (codes "room_id") (some 3) none ≡ ok three_bytes) ↔ (
      (lookup (codes "room_id") id_field ≡ some (string (b64url_encode three_bytes)))
      × (length three_bytes ≡ 3)
      × (three_bytes ≢ []))
require_frame_bytes_iff_example =
    require_frame_bytes_iff id_field (codes "room_id") 3 three_bytes
      (omega arith, (omega arith, (omega arith, tt)))

require_frame_int_iff_example :
    (require_frame_int id_field (codes "n") 0 9 ≡ ok 3)
    ↔ ((lookup (codes "n") id_field ≡ some (number 3)) × (0 ≤ 3) × (3 ≤ 9))
require_frame_int_iff_example = require_frame_int_iff id_field (codes "n") 0 9 3

abbrev strict : WindowRateLimiter
strict = record {
  limit = 2;
  window = 1000;
  increasing_delay = false;
  events = [];
  blocked_until = [];
}

abbrev attempts : List Event
attempts =
    attempt 5 (codes "a")
    ∷ attempt 7 (codes "a")
    ∷ attempt 9 (codes "b")
    ∷ attempt 900 (codes "a")
    ∷ maintenance 1000
    ∷ attempt 2000 (codes "a")
    ∷ []

strict-new : new_limiter 2 1000 false ≡ ok strict
unfolding new_limiter
strict-new = refl

recorded-IsSpaced_example : IsSpaced 2 1000 (recorded (codes "a") strict [] attempts)
recorded-IsSpaced_example =
    recorded-IsSpaced 2 1000 strict (codes "a") attempts strict-new
      (omega arith, (omega arith, (omega arith, (omega arith, (omega arith, (omega arith, tt))))))

abbrev doubling : WindowRateLimiter
doubling = record {
  limit = 2;
  window = 1000;
  increasing_delay = true;
  events = (codes "a", 90 ∷ 95 ∷ 98 ∷ []) ∷ [];
  blocked_until = [];
}

doubling-free : block_of doubling (codes "a") ≤ 100
unfolding block_of lookup
doubling-free = omega arith

few_events : count_at doubling 100 (codes "a") < doubling.limit + 1024
unfolding bucket_of lookup drop_old list_beq
few_events = omega arith

record_event-penalty_example :
    ((record_event doubling 100 (codes "a")).1 ≡ ok (penalty doubling 100 (codes "a")))
    × (((retry_after (record_event doubling 100 (codes "a")).0 300 (codes "a")).1 ≡ 0)
        ↔ (100 + penalty doubling 100 (codes "a") * 1000 ≤ 300))
record_event-penalty_example =
    record_event-penalty doubling 100 300 (codes "a") refl doubling-free (omega arith) few_events

-- A server of two connections: 1 has been greeted, and 2 and 3 share an active route.
abbrev hello : SessionRole → HandshakeHello
hello role = record { role = role; nonce = block 16 1; public_key = block 32 2 }

abbrev route : SessionRoute
route = record {
  pair_id = block 16 8;
  room_id = block 16 7;
  route_creator = 2;
  route_joiner = 3;
  creator_hello = hello creator;
  joiner_hello = hello joiner;
  handshake_deadline = 30000;
  creator_proof_sent = true;
  joiner_proof_sent = true;
  session_id = none;
}

abbrev connection : ℕ → RelayConnection
connection c = record (new_connection (codes "peer")) {
  hello_seen = true;
  challenge = some verifier;
  pair_id = some (block 16 8);
}

abbrev server : RelayServer
server = record {
  context = context;
  verifier_state = setup.verifier_state;
  limits = (record {
    max_connections = 64;
    max_frame_bytes = 16384;
    outbound_queue = 64;
    heartbeat_interval = 30000;
    dead_timeout = 90000;
    display_lease_timeout = 90000;
    session_wait_timeout = 900000;
    session_handshake_timeout = 30000;
    maintenance_interval = 1000;
  });
  board = new_store;
  heap = connection;
  connections = 3 ∷ 2 ∷ 1 ∷ [];
  reservations = [];
  waiting_rooms = [];
  routes = (block 16 8, route) ∷ [];
  board_sequence = 4;
  closing = false;
  rotating = false;
  access_limiter = doubling;
  join_limiter = strict;
}

abbrev data_sent : RelayServer
data_sent = (route_session_data 2 (block 16 8) (block 16 5) creator_to_joiner 0 (1 ∷ []) server).0

abbrev proof_frame : Frame
proof_frame =
    (codes "v", number 1)
    ∷ (codes "type", string (codes "access_proof"))
    ∷ (codes "request_id", string (codes "r1"))
    ∷ (codes "client_nonce", string (b64url_encode (block 16 6)))
    ∷ (codes "proof", string (b64url_encode (block 32 2)))
    ∷ []

abbrev draws : Draws
draws = record { new_challenge = block 32 5; new_pair_id = block 16 3 }

handle_frame-IsUntouched_example :
    IsUntouched 1 server (handle_frame toy draws 1 500 proof_frame server).0
handle_frame-IsUntouched_example = handle_frame-IsUntouched toy draws 1 500 proof_frame server refl

block-IsBytes : (n x : ℕ) → x < 256 → IsBytes (block n x)
block-IsBytes zero x h = tt
block-IsBytes (suc n) x h = (h, block-IsBytes n x h)

proof-made :
    create_access_proof toy (block 32 4) context (block 32 5) (block 16 6) ≡ ok (block 32 2)
unfolding create_access_proof require_bytes hmac_sha256
proof-made =
    rw (access_proof_message_total context (block 32 5) (block 16 6) refl refl refl refl).1 refl

proof-verified :
    verify toy verifier (block 16 6) (block 32 2) ≡ (record verifier { consumed = true }, ok true)
proof-verified = verify-create toy verifier (block 16 6) (block 32 2) refl refl refl proof-made

-- A check that succeeds goes on with its value.
lift-ok :
    {A : Type 0} (r : Result A) (next : A → Action Bool) (s : RelayServer) (a : A)
    → r ≡ ok a
    → (lift r >>= next) s ≡ next a s
lift-ok r next s a h = rw h refl

nonce-read : require_frame_bytes proof_frame (codes "client_nonce") (some 16) none ≡ ok (block 16 6)
unfolding lookup list_beq
nonce-read =
    (require_frame_bytes_iff proof_frame (codes "client_nonce") 16 (block 16 6)
        (block-IsBytes 16 6 (omega arith))).1
      (refl, refl, λ h. cc)

proof-read : require_frame_bytes proof_frame (codes "proof") (some 32) none ≡ ok (block 32 2)
unfolding lookup list_beq
proof-read =
    (require_frame_bytes_iff proof_frame (codes "proof") 32 (block 32 2)
        (block-IsBytes 32 2 (omega arith))).1
      (refl, refl, λ h. cc)

abbrev unblocked : RelayServer
unblocked = record server {
  access_limiter = (retry_after server.access_limiter 500 (codes "peer")).0;
}

abbrev admitted : RelayServer × Result Bool
admitted =
    judge_proof 1 500 (codes "r1") true (spend 1 (record verifier { consumed = true }) unblocked)

weighed : weigh_proof toy 1 500 (codes "r1") verifier (block 16 6) (block 32 2) unblocked ≡ admitted
unfolding weigh_proof
weighed =
    lift-ok (verify toy verifier (block 16 6) (block 32 2)).1 (judge_proof 1 500 (codes "r1"))
      (spend 1 (verify toy verifier (block 16 6) (block 32 2)).0 unblocked) true
      (ap (λ w. w.1) proof-verified)
    ∙ ap (λ w. judge_proof 1 500 (codes "r1") true (spend 1 w.0 unblocked)) proof-verified

checked : check_proof toy 1 500 proof_frame (codes "r1") unblocked ≡ admitted
unfolding check_proof challenge_of
checked =
    let nonce = require_frame_bytes proof_frame (codes "client_nonce") (some 16) none in
    let proof = require_frame_bytes proof_frame (codes "proof") (some 32) none in
    let weigh = weigh_proof toy 1 500 (codes "r1") in
    lift-ok nonce (λ n. lift proof >>= weigh verifier n) unblocked (block 16 6) nonce-read
    ∙ lift-ok proof (weigh verifier (block 16 6)) unblocked (block 32 2) proof-read
    ∙ weighed

proved : handle_access_proof toy 1 500 proof_frame (codes "r1") server ≡ admitted
unfolding handle_access_proof retry_after block_of lookup
proved = checked

proof_frame-authenticates :
    ((handle_frame toy draws 1 500 proof_frame server).0.heap 1).authenticated ≡ true
unfolding handle_frame list_beq lookup all any is_ascii insert
proof_frame-authenticates = rw proved refl

handle_frame-authenticates_example : IsProved toy 1 proof_frame server
handle_frame-authenticates_example =
    handle_frame-authenticates toy draws 1 500 proof_frame server refl proof_frame-authenticates

-- Two connections that may make requests; 1 waits in a room.
abbrev room : WaitingRoom
room = record { room_id = block 16 7; room_creator = 1; hello = hello creator; expires_at = 900000 }

abbrev waits : ℕ → RelayConnection
waits c = record (new_connection (codes "peer")) {
  hello_seen = true;
  authenticated = true;
  display_token = some (block 16 (suc c));
  waiting_room_id = if c == 1 then some (block 16 7) else none;
}

abbrev open_server : RelayServer
open_server = record server { heap = waits; waiting_rooms = (block 16 7, room) ∷ []; routes = [] }

open_server-IsConsistent : IsConsistent open_server
unfolding lookup
open_server-IsConsistent = record {
  rooms = λ id found_room found. ground (arith, found, list_beq_iff (block 16 7) id);
  routes = λ id found_route found. absurd (ground (arith, found));
}

abbrev join_frame : Frame
join_frame =
    (codes "v", number 1)
    ∷ (codes "type", string (codes "session_join"))
    ∷ (codes "request_id", string (codes "r1"))
    ∷ (codes "role", string (codes "joiner"))
    ∷ (codes "room_id", string (b64url_encode (block 16 7)))
    ∷ (codes "handshake_nonce", string (b64url_encode (block 16 1)))
    ∷ (codes "public_key", string (b64url_encode (block 32 2)))
    ∷ []

abbrev meeting : List History.Event
meeting =
    History.accepted 5 (codes "peer")
    ∷ History.received draws 2 600 join_frame
    ∷ History.written 1
    ∷ History.maintained 700
    ∷ History.disconnected 1 800
    ∷ []

meeting-AllFresh : AllFresh toy open_server meeting
unfolding step lookup
meeting-AllFresh = ((refl, refl), (refl, (tt, (tt, (tt, tt)))))

run-IsConsistent_example : IsConsistent (run toy open_server meeting)
run-IsConsistent_example =
    run-IsConsistent toy open_server meeting open_server-IsConsistent meeting-AllFresh
