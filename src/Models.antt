-- ===== src/Models.antt =====
-- models.py: the reasons to close a session.
use the_grid.Prelude.{
  ◌≡◌, refl, true, Option, none, some, ◌==◌, ℕ_eq, list_eq, if◌then◌else◌, arith, list_beq_iff,
  list_beq,
}
use the_grid.Text.{Text, codes, is_ascii}

pub data CloseReason : Type 0 where
  user_end application_exit peer_close server_disconnect timeout integrity_failure : CloseReason

-- `reason.value`
unfoldable pub close_reason_value : CloseReason → Text
close_reason_value user_end = codes "user_end"
close_reason_value application_exit = codes "application_exit"
close_reason_value peer_close = codes "peer_close"
close_reason_value server_disconnect = codes "server_disconnect"
close_reason_value timeout = codes "timeout"
close_reason_value integrity_failure = codes "integrity_failure"

-- `CloseReason(value)`; `none` is ValueError.
unfoldable pub close_reason_of : Text → Option CloseReason
unfolding close_reason_value
close_reason_of value =
    if value == close_reason_value user_end
    then some user_end
    else if value == close_reason_value application_exit
    then some application_exit
    else if value == close_reason_value peer_close
    then some peer_close
    else if value == close_reason_value server_disconnect
    then some server_disconnect
    else if value == close_reason_value timeout
    then some timeout
    else if value == close_reason_value integrity_failure
    then some integrity_failure
    else none

pub close_reason_of-close_reason_value :
    (r : CloseReason) → close_reason_of (close_reason_value r) ≡ some r
unfolding close_reason_of list_beq
close_reason_of-close_reason_value user_end = refl
close_reason_of-close_reason_value application_exit = refl
close_reason_of-close_reason_value peer_close = refl
close_reason_of-close_reason_value server_disconnect = refl
close_reason_of-close_reason_value timeout = refl
close_reason_of-close_reason_value integrity_failure = refl

pub is_ascii-close_reason_value : (r : CloseReason) → is_ascii (close_reason_value r) ≡ true
unfolding is_ascii close_reason_value
is_ascii-close_reason_value user_end = refl
is_ascii-close_reason_value _ = refl

pub close_reason_value_of :
    (v : Text) (r : CloseReason) → close_reason_of v ≡ some r → close_reason_value r ≡ v
unfolding close_reason_of
close_reason_value_of v r h = ground (
  arith,
  list_beq_iff v (close_reason_value user_end),
  list_beq_iff v (close_reason_value application_exit),
  list_beq_iff v (close_reason_value peer_close),
  list_beq_iff v (close_reason_value server_disconnect),
  list_beq_iff v (close_reason_value timeout),
  list_beq_iff v (close_reason_value integrity_failure),
)
