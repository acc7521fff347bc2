-- ===== src/Sessions/Payload/Errors.antt =====
-- The exceptions of `_decode_session_payload`: those that a channel catches.
use the_grid.Prelude.{◌≡◌, refl, true, Option, none, some, List, [], ◌∷◌}
use the_grid.Prelude.Result.{
  session_error, invalid_payload, is_type_or_value_error, IsCaught, >>=-IsCaught, raise_if-IsCaught,
  reraise-IsCaught, SessionErrorCode,
}
use the_grid.Bytes.{Bytes}
use the_grid.Access.Display.{normalise_display_id-IsCaught}
use the_grid.Protocol.Fields.Errors.{decode_fields-IsCaught}
use the_grid.Sessions.Types.{SessionEventType, identity, text, close}
use the_grid.Sessions.Payload.{
  some_or, decode_text_body, decode_body, decode_event, decode_session_payload,
}

session_error-caught : (e : SessionErrorCode) → is_type_or_value_error (session_error e) ≡ true
unfolding is_type_or_value_error
session_error-caught e = refl

some_or-IsCaught {ℓ} :
    {A : Type ℓ} (m : Option A) (e : SessionErrorCode) → IsCaught (some_or m (session_error e))
some_or-IsCaught none e = session_error-caught e
some_or-IsCaught (some a) e = tt

ruleset caught =
    (>>=-IsCaught, raise_if-IsCaught, reraise-IsCaught, some_or-IsCaught, session_error-caught)

decode_body-IsCaught : (t : SessionEventType) (body : Bytes) → IsCaught (decode_body t body)
unfolding decode_body decode_text_body
decode_body-IsCaught identity body = search (caught, normalise_display_id-IsCaught) depth 9
decode_body-IsCaught text body = search (caught) depth 9
decode_body-IsCaught close body = search (caught) depth 9

decode_event-IsCaught : (fields : List Bytes) → IsCaught (decode_event fields)
unfolding decode_event
decode_event-IsCaught (version ∷ type_code ∷ body ∷ []) =
    search (caught, decode_body-IsCaught) depth 9
decode_event-IsCaught [] = session_error-caught invalid_payload
decode_event-IsCaught (a ∷ []) = session_error-caught invalid_payload
decode_event-IsCaught (a ∷ b ∷ []) = session_error-caught invalid_payload
decode_event-IsCaught (a ∷ b ∷ d ∷ e ∷ fields) = session_error-caught invalid_payload

-- Whatever bytes a peer has sealed, decoding them raises nothing but a TypeError or a ValueError.
pub decode_session_payload-IsCaught : (payload : Bytes) → IsCaught (decode_session_payload payload)
unfolding decode_session_payload
decode_session_payload-IsCaught payload =
    search (caught, decode_fields-IsCaught, decode_event-IsCaught) depth 9
