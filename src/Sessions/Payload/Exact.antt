-- ===== src/Sessions/Payload/Exact.antt =====
-- Which payloads `_decode_session_payload` accepts.
use the_grid.Prelude.{
  ◌≤◌, ◌≡◌, true, false, some, List, [], ◌∷◌, length, all, contains, ℕ_eq, list_eq,
}
use the_grid.Prelude.Result.{Result}
use the_grid.Bytes.{Bytes}
use the_grid.Text.{Text, upper, is_ascii}
use the_grid.Text.Utf8.{utf8_decode}
use the_grid.Models.{CloseReason, close_reason_value}
use the_grid.Access.Display.{is_id_char}
use the_grid.Sessions.Types.{
  SessionEventType, identity, text, close, SessionEvent, session_text_max_bytes,
  protocol_version_bytes, event_code,
}

-- An identity is the upper case of three ASCII letters or digits that a display id may have; a text
-- is UTF-8 of bounded length without NUL; a close is the name of a reason.
abbrev pub Carries : SessionEventType → Bytes → Text → Type 0
Carries identity body value =
    (is_ascii body ≡ true)
    × (value ≡ upper body)
    × (length value ≡ 3)
    × (all is_id_char value ≡ true)
Carries text body value =
    (utf8_decode body ≡ some value)
    × (length body ≤ session_text_max_bytes)
    × (contains 0 value ≡ false)
Carries close body value =
    (reason : CloseReason) × (body ≡ close_reason_value reason) × (value ≡ body)

abbrev parts : SessionEventType → Bytes → List Bytes
parts t body = protocol_version_bytes ∷ event_code t ∷ body ∷ []

abbrev Described : List Bytes → SessionEvent → Type 0
Described fields event =
    (body : Bytes) × (fields ≡ parts event.event_type body)
    × Carries event.event_type body event.value
