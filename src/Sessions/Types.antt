-- ===== src/Sessions/Types.antt =====
-- The enumerations and byte codes of sessions.py.
use the_grid.Prelude.{
  ℕ, ◌^◌, ◌-◌, Bool, true, false, Option, none, some, [], ◌∷◌, ◌==◌, ℕ_eq, list_eq, if◌then◌else◌,
}
use the_grid.Bytes.{Bytes}
use the_grid.Text.{Text}
pub use the_grid.Protocol.Fields.{protocol_version_bytes}

pub data SessionRole : Type 0 where
  creator joiner : SessionRole

pub data SessionDirection : Type 0 where
  creator_to_joiner joiner_to_creator : SessionDirection

pub data SessionEventType : Type 0 where
  identity text close : SessionEventType

pub record SessionEvent : Type 0 where
  pub event_type : SessionEventType
  pub value : Text

-- `is` on members of an enumeration.
unfoldable pub same_role : SessionRole → SessionRole → Bool
same_role creator creator = true
same_role joiner joiner = true
same_role _ _ = false

unfoldable pub same_direction : SessionDirection → SessionDirection → Bool
same_direction creator_to_joiner creator_to_joiner = true
same_direction joiner_to_creator joiner_to_creator = true
same_direction _ _ = false

abbrev pub session_text_max_bytes : ℕ
session_text_max_bytes = 4096

abbrev pub session_counter_max : ℕ
session_counter_max = 2 ^ 64 - 1

-- `_ROLE_CODE`, `_DIRECTION_CODE`, `_DIRECTION_PREFIX`, `_EVENT_CODE` and `_EVENT_FROM_CODE`
unfoldable pub role_code : SessionRole → Bytes
role_code creator = 1 ∷ []
role_code joiner = 2 ∷ []

unfoldable pub direction_code : SessionDirection → Bytes
direction_code creator_to_joiner = 1 ∷ []
direction_code joiner_to_creator = 2 ∷ []

unfoldable pub direction_prefix : SessionDirection → Bytes
direction_prefix creator_to_joiner = 0 ∷ 0 ∷ 0 ∷ 1 ∷ []
direction_prefix joiner_to_creator = 0 ∷ 0 ∷ 0 ∷ 2 ∷ []

unfoldable pub event_code : SessionEventType → Bytes
event_code identity = 1 ∷ []
event_code text = 2 ∷ []
event_code close = 3 ∷ []

unfoldable pub event_from_code : Bytes → Option SessionEventType
unfolding event_code
event_from_code b =
    if b == event_code identity
    then some identity
    else if b == event_code text
    then some text
    else if b == event_code close
    then some close
    else none
