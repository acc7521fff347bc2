-- ===== src/Relay/Startup.antt =====
-- The checks of relay.py before a server runs: its limits and its arguments.
use the_grid.Prelude.{ℕ, ◌*◌, Bool, true, false, ◌&&◌, ◌||◌, not, [], ltb, leb, ◌==◌, ℕ_eq, list_eq}
use the_grid.Prelude.Result.{Result, ok, value_error, relay_error, raise_if, ◌>>=◌, ◌>>◌}
use the_grid.Text.{Text}
use the_grid.Access.Proof.{AccessContext, AccessVerifierState}
use the_grid.Hub.Store.{BoardStore}
use the_grid.Relay.RateLimiter.{WindowRateLimiter, new_limiter}
use the_grid.Relay.State.{RelayLimits, RelayServer, new_connection}

-- `RelayLimits.__post_init__`; a number of milliseconds is positive when it is not 0.
unfoldable pub make_relay_limits : RelayLimits → Result RelayLimits
make_relay_limits l = do
  raise_if (l.max_connections == 0 || l.max_frame_bytes == 0 || l.outbound_queue == 0) value_error
  raise_if (ltb l.max_frame_bytes (12 * 1024) || ltb (16 * 1024) l.max_frame_bytes) value_error
  raise_if
      (l.heartbeat_interval == 0
        || l.dead_timeout == 0
        || l.display_lease_timeout == 0
        || l.session_wait_timeout == 0
        || l.session_handshake_timeout == 0
        || l.maintenance_interval == 0)
      value_error
  raise_if (leb l.dead_timeout l.heartbeat_interval) value_error
  ok l

-- `_access_limiter` and `_join_limiter`
unfoldable pub new_access_limiter : Result WindowRateLimiter
unfolding new_limiter
new_access_limiter = new_limiter 5 (10 * 60 * 1000) true

unfoldable pub new_join_limiter : Result WindowRateLimiter
unfolding new_limiter
new_join_limiter = new_limiter 20 (10 * 60 * 1000) false

-- `__init__` of the server. Whether a host is loopback is asked of Python's ipaddress, so it is an
-- argument; `tls` says that there is an SSL context, and `board` is the store that is opened last.
unfoldable pub new_relay_server :
    (Text → Bool)
    → AccessContext
    → AccessVerifierState
    → BoardStore
    → Text
    → ℕ
    → Bool
    → Bool
    → RelayLimits
    → Result RelayServer
unfolding new_access_limiter new_join_limiter
new_relay_server is_loopback_host context verifier_state board host port tls allow_plain limits = do
  raise_if (not (context.access_generation == verifier_state.access_generation)) relay_error
  raise_if (host == []) value_error
  raise_if (ltb 65535 port) value_error
  raise_if (not tls && not allow_plain) relay_error
  raise_if (not tls && not (is_loopback_host host)) relay_error
  raise_if (tls && allow_plain) relay_error
  access_limiter ← new_access_limiter
  join_limiter ← new_join_limiter
  ok (record {
    context = context;
    verifier_state = verifier_state;
    limits = limits;
    board = board;
    heap = λ _. new_connection [];
    connections = [];
    reservations = [];
    waiting_rooms = [];
    routes = [];
    board_sequence = 0;
    closing = false;
    rotating = false;
    access_limiter = access_limiter;
    join_limiter = join_limiter;
  })
