-- ===== src/Relay/Handlers.antt =====
-- The handlers of relay.py for the frames of a client. Each returns whether the connection stays.
use the_grid.Prelude.{
  ℕ, suc, ◌/◌, Bool, true, false, ◌&&◌, not, Option, none, some, [], ◌∷◌, length, leb, ◌==◌, ℕ_eq,
  list_eq, if◌then◌else◌,
}
use the_grid.Prelude.Dict.{lookup}
use the_grid.Prelude.Result.{Result, ok, err, frame_error, invalid}
use the_grid.Bytes.{Bytes}
use the_grid.Text.{Text, codes, is_ascii}
use the_grid.Crypto.{Primitives}
use the_grid.Access.Proof.{AccessChallengeVerifier, new_access_challenge_verifier, verify}
use the_grid.Hub.Store.{
  cooldown_remaining, board_capacity, board_lifetime_seconds, board_cooldown_seconds,
}
use the_grid.Sessions.Types.{session_text_max_bytes}
use the_grid.Protocol.Base64.{b64url_encode}
use the_grid.Protocol.Frames.{
  Value, boolean, number, real, string, array, object, Items, end, item, last, member, Frame,
  require_frame_string, require_frame_bytes,
}
use the_grid.Relay.RateLimiter.{retry_after, record_event, clear}
use the_grid.Relay.State.{
  RelayLimits, RelayServer, Action, ◌>>=◌, ◌>>◌, return, lift, get, modify, set_connection,
}
use the_grid.Relay.Events.{send_response}
use the_grid.Relay.Displays.{reserve_display}

is_capability : Value → Bool
unfolding is_ascii
is_capability (string text) = not (text == []) && leb (length text) 64 && is_ascii text
is_capability _ = false

count : Items → ℕ
count end = 0
count (item value items) = suc (count items)

all_capabilities : Items → Bool
unfolding is_capability
all_capabilities end = true
all_capabilities (item value items) = is_capability value && all_capabilities items

-- The checks of the capabilities in `_handle_hello`.
check_capabilities : Option Value → Result (Unit {0})
unfolding count all_capabilities
check_capabilities (some (array items)) =
    if leb (count items) 32 && all_capabilities items then ok tt else err (frame_error invalid)
check_capabilities _ = err (frame_error invalid)

-- `public_mapping` of the limits; `int` of a time is in seconds.
public_mapping : RelayLimits → Value
public_mapping l = object (
    member (codes "max_connections") (number l.max_connections) (
      member (codes "max_frame_bytes") (number l.max_frame_bytes) (
        member (codes "board_capacity") (number board_capacity) (
          member (codes "board_lifetime_seconds") (number board_lifetime_seconds) (
            member (codes "board_cooldown_seconds") (number board_cooldown_seconds) (
              member (codes "board_text_max_bytes") (number 1024) (
                member (codes "session_text_max_bytes") (number session_text_max_bytes) (
                  member (codes "session_wait_timeout_seconds")
                    (number (l.session_wait_timeout / 1000))
                    (member (codes "session_handshake_timeout_seconds")
                      (number (l.session_handshake_timeout / 1000))
                      (member (codes "display_lease_timeout_seconds")
                        (number (l.display_lease_timeout / 1000))
                        (member (codes "heartbeat_interval_seconds") (real l.heartbeat_interval) (
                          member (codes "dead_timeout_seconds") (real l.dead_timeout)
                            last))))))))))))

unfoldable pub greet : ℕ → AccessChallengeVerifier → RelayServer → RelayServer
unfolding set_connection
greet c challenge s =
    set_connection c (record (s.heap c) { challenge = some challenge; hello_seen = true }) s

-- `_handle_hello`; `challenge` is what the random source gives.
unfoldable pub handle_hello : ℕ → ℕ → Bytes → Frame → Text → Action Bool
unfolding require_frame_string check_capabilities lookup new_access_challenge_verifier greet
    b64url_encode public_mapping send_response
handle_hello c now challenge frame request_id = do
  version ← lift (require_frame_string frame (codes "client_version") 64 true)
  lift (check_capabilities (lookup (codes "capabilities") frame))
  s ← get
  verifier ← lift (new_access_challenge_verifier s.context s.verifier_state challenge)
  modify (greet c verifier)
  send_response c request_id (codes "hello") (
      (codes "server_id", string (b64url_encode s.context.server_id))
      ∷ (codes "access_generation", string (b64url_encode s.context.access_generation))
      ∷ (codes "server_time", number (now / 1000))
      ∷ (codes "limits", public_mapping s.limits)
      ∷ (codes "heartbeat_interval", real s.limits.heartbeat_interval)
      ∷ (codes "access_challenge", string (b64url_encode verifier.challenge))
      ∷ [])
  return true

unfoldable pub answer_proof : ℕ → Text → Bool → ℕ → Action (Unit {0})
unfolding send_response
answer_proof c request_id answer retry =
    send_response c request_id (codes "access_proof")
      ((codes "ok", boolean answer) ∷ (codes "retry_after", number retry) ∷ [])

-- `self.challenge`, if there is one, spent by its use.
unfoldable pub challenge_of : ℕ → RelayServer → Result AccessChallengeVerifier
challenge_of c s = elim ((s.heap c).challenge) [
  | none ↦ err (frame_error invalid)
  | some challenge ↦ ok challenge
]

unfoldable pub spend : ℕ → AccessChallengeVerifier → RelayServer → RelayServer
unfolding set_connection
spend c challenge s = set_connection c (record (s.heap c) { challenge = some challenge }) s

unfoldable pub admit : ℕ → RelayServer → RelayServer
unfolding clear set_connection
admit c s =
    set_connection c (record (s.heap c) { authenticated = true })
      (record s { access_limiter = clear s.access_limiter (s.heap c).peer_key })

unfoldable pub count_failure : ℕ → ℕ → RelayServer → RelayServer
unfolding record_event
count_failure c now s = record s {
  access_limiter = (record_event s.access_limiter now (s.heap c).peer_key).0;
}

-- The end of `_handle_access_proof`: a good proof admits, another is counted.
unfoldable pub judge_proof : ℕ → ℕ → Text → Bool → Action Bool
unfolding admit answer_proof count_failure record_event
judge_proof c now request_id true = do
  modify (admit c)
  answer_proof c request_id true 0
  return true
judge_proof c now request_id false = do
  s ← get
  modify (count_failure c now)
  retry ← lift ((record_event s.access_limiter now (s.heap c).peer_key).1)
  answer_proof c request_id false retry
  return false

unfoldable pub weigh_proof :
    Primitives → ℕ → ℕ → Text → AccessChallengeVerifier → Bytes → Bytes → Action Bool
unfolding verify spend judge_proof
weigh_proof p c now request_id challenge nonce proof = do
  modify (spend c (verify p challenge nonce proof).0)
  good ← lift ((verify p challenge nonce proof).1)
  judge_proof c now request_id good

-- `_handle_access_proof`, past the limiter.
unfoldable pub check_proof : Primitives → ℕ → ℕ → Frame → Text → Action Bool
unfolding challenge_of require_frame_bytes weigh_proof
check_proof p c now frame request_id = do
  s ← get
  challenge ← lift (challenge_of c s)
  nonce ← lift (require_frame_bytes frame (codes "client_nonce") (some 16) none)
  proof ← lift (require_frame_bytes frame (codes "proof") (some 32) none)
  weigh_proof p c now request_id challenge nonce proof

unfoldable pub handle_access_proof : Primitives → ℕ → ℕ → Frame → Text → Action Bool
unfolding retry_after answer_proof check_proof
handle_access_proof p c now frame request_id = do
  s ← get
  let (checked, retry) = retry_after s.access_limiter now (s.heap c).peer_key
  modify (λ u. record u { access_limiter = checked })
  if retry == 0
      then check_proof p c now frame request_id
      else (do answer_proof c request_id false retry; return false)

unfoldable pub keep_token : ℕ → Bytes → RelayServer → RelayServer
unfolding set_connection
keep_token c token s = set_connection c (record (s.heap c) { display_token = some token }) s

unfoldable pub handle_display_reserve : ℕ → ℕ → Frame → Text → Action Bool
unfolding require_frame_bytes reserve_display send_response keep_token cooldown_remaining
handle_display_reserve c now frame request_id = do
  token ← lift (require_frame_bytes frame (codes "display_token") (some 16) none)
  s ← get
  modify (λ u. (reserve_display c now token u).0)
  if (reserve_display c now token s).1
      then (do
        modify (keep_token c token)
        u ← get
        remaining ← lift (cooldown_remaining u.board token (now / 1000))
        send_response c request_id (codes "display_reserve")
            ((codes "ok", boolean true) ∷ (codes "post_remaining", number remaining) ∷ [])
        return true)
      else (do
        send_response c request_id (codes "display_reserve") ((codes "ok", boolean false) ∷ [])
        return true)
