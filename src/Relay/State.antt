-- ===== src/Relay/State.antt =====
-- The state of the relay in relay.py: `RelayServer` with the objects it holds, and calls as actions.
-- A connection is an object that others refer to, so it is a number here, and `heap` has its
-- fields; `is` on connections is equality of the numbers.
use the_grid.Prelude.{ℕ, Bool, false, ◌&&◌, Option, none, List, [], ◌==◌, ℕ_eq, if◌then◌else◌}
use the_grid.Prelude.Result.{Result, ok, err, Error, value_error, relay_error, frame_error, invalid}
use the_grid.Prelude.Result as R
use the_grid.Bytes.{Bytes}
use the_grid.Text.{Text}
use the_grid.Access.Proof.{AccessContext, AccessVerifierState, AccessChallengeVerifier}
use the_grid.Hub.Store.{BoardStore}
use the_grid.Sessions.Types.{SessionRole, creator, joiner}
use the_grid.Sessions.Handshake.{HandshakeHello}
use the_grid.Protocol.Frames.{Frame}
use the_grid.Relay.RateLimiter.{WindowRateLimiter}

-- `RelayLimits`, with times in milliseconds.
pub record RelayLimits : Type 0 where
  pub max_connections : ℕ
  pub max_frame_bytes : ℕ
  pub outbound_queue : ℕ
  pub heartbeat_interval : ℕ
  pub dead_timeout : ℕ
  pub display_lease_timeout : ℕ
  pub session_wait_timeout : ℕ
  pub session_handshake_timeout : ℕ
  pub maintenance_interval : ℕ

-- `_DisplayReservation`; its token is its key.
pub record DisplayReservation : Type 0 where
  pub connection : Option ℕ
  pub expires_at : ℕ

-- `_WaitingRoom`
pub record WaitingRoom : Type 0 where
  pub room_id : Bytes
  pub room_creator : ℕ
  pub hello : HandshakeHello
  pub expires_at : ℕ

-- `_SessionRoute`
pub record SessionRoute : Type 0 where
  pub pair_id : Bytes
  pub room_id : Bytes
  pub route_creator : ℕ
  pub route_joiner : ℕ
  pub creator_hello : HandshakeHello
  pub joiner_hello : HandshakeHello
  pub handshake_deadline : ℕ
  pub creator_proof_sent : Bool
  pub joiner_proof_sent : Bool
  pub session_id : Option Bytes

-- `_RelayConnection`. The queue holds frames and at last None; `close_requested` stands for the task
-- that `send_event` creates to close the connection.
pub record RelayConnection : Type 0 where
  pub peer_key : Text
  pub hello_seen : Bool
  pub authenticated : Bool
  pub challenge : Option AccessChallengeVerifier
  pub display_token : Option Bytes
  pub board_subscribed : Bool
  pub waiting_room_id : Option Bytes
  pub pair_id : Option Bytes
  pub closed : Bool
  pub close_requested : Bool
  pub outbound : List (Option Frame)

-- `__init__` of a connection
abbrev pub new_connection : Text → RelayConnection
new_connection peer_key = record {
  peer_key = peer_key;
  hello_seen = false;
  authenticated = false;
  challenge = none;
  display_token = none;
  board_subscribed = false;
  waiting_room_id = none;
  pair_id = none;
  closed = false;
  close_requested = false;
  outbound = [];
}

pub record RelayServer : Type 0 where
  pub context : AccessContext
  pub verifier_state : AccessVerifierState
  pub limits : RelayLimits
  pub board : BoardStore
  pub heap : ℕ → RelayConnection
  pub connections : List ℕ
  pub reservations : List (Bytes × DisplayReservation)
  pub waiting_rooms : List (Bytes × WaitingRoom)
  pub routes : List (Bytes × SessionRoute)
  pub board_sequence : ℕ
  pub closing : Bool
  pub rotating : Bool
  pub access_limiter : WindowRateLimiter
  pub join_limiter : WindowRateLimiter

-- A call on the server: what it leaves behind, and what it returns or raises.
abbrev pub Action {ℓ} : Type ℓ → Type ℓ
Action A = RelayServer → RelayServer × Result A

infixl 5 ◌>>=◌ ◌>>◌
abbrev pub ◌>>=◌ {ℓ κ} : {A : Type ℓ} {B : Type κ} → Action A → (A → Action B) → Action B
◌>>=◌ m next s =
    let (after, result) = m s in elim result [ err e ↦ (after, err e) | ok a ↦ next a after ]

abbrev pub ◌>>◌ {ℓ} : {B : Type ℓ} → Action (Unit {0}) → Action B → Action B
first >> second = first >>= λ _. second

abbrev pub return {ℓ} : {A : Type ℓ} → A → Action A
return a s = (s, ok a)

abbrev pub lift {ℓ} : {A : Type ℓ} → Result A → Action A
lift r s = (s, r)

abbrev pub get : Action RelayServer
get s = (s, ok s)

abbrev pub modify : (RelayServer → RelayServer) → Action (Unit {0})
modify f s = (f s, ok tt)

-- `if test: raise e`
abbrev pub raise_if : Bool → Error → Action (Unit {0})
raise_if test e = lift (R.raise_if test e)

-- Assignment to the fields of a connection.
unfoldable pub set_connection : ℕ → RelayConnection → RelayServer → RelayServer
set_connection c x s = record s { heap = λ j. if j == c then x else s.heap j }

-- `active`, `peer_of` and `role_of` of a route
unfoldable pub active : SessionRoute → Bool
active r = r.creator_proof_sent && r.joiner_proof_sent

unfoldable pub peer_of : SessionRoute → ℕ → Result ℕ
peer_of r c =
    if c == r.route_creator
    then ok r.route_joiner
    else if c == r.route_joiner
    then ok r.route_creator
    else err relay_error

unfoldable pub role_of : SessionRoute → ℕ → Result SessionRole
role_of r c =
    if c == r.route_creator
    then ok creator
    else if c == r.route_joiner
    then ok joiner
    else err relay_error
