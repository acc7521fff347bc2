-- ===== src/Relay.antt =====
-- relay.py: the rate limiter (RateLimiter), the state of the server (State).
pub mod RateLimiter
pub mod State
pub mod Startup
pub mod Events
pub mod Displays
pub mod Routing
pub mod Checks
pub mod Routes
pub mod Lifecycle
pub mod Handlers
pub mod BoardHandlers
pub mod SessionHandlers
pub mod Dispatch
pub mod Keeps
pub mod Consistency
pub mod History
