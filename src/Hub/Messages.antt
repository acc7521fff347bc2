-- ===== src/Hub/Messages.antt =====
-- The keys and the associated data of board messages, from hub.py.
use the_grid.Prelude.{◌≡◌, List, [], ◌∷◌, some}
use the_grid.Prelude.Result.{Result, ok, ◌>>=◌, >>=-eq-ok}
use the_grid.Bytes.{Bytes, require_bytes, require_bytes-eq-ok}
use the_grid.Text.{codes}
use the_grid.Crypto.{Primitives, hkdf_sha256}
use the_grid.Protocol.Fields.{encode_fields, protocol_version_bytes}
use the_grid.Protocol.Fields.RoundTrip.{encode_fields-injective}
use the_grid.Access.Proof.{AccessContext}

abbrev pub board_aad_domain : Bytes
board_aad_domain = codes "board-aad-v1"

abbrev pub board_fields : AccessContext → Bytes → Bytes → List Bytes
board_fields context message_id display_token =
    protocol_version_bytes ∷ context.server_id ∷ context.access_generation ∷ message_id
    ∷ display_token ∷ []

unfoldable pub board_associated_data : AccessContext → Bytes → Bytes → Result Bytes
board_associated_data context message_id display_token = do
  checked_id ← require_bytes message_id (some 16)
  checked_token ← require_bytes display_token (some 16)
  encode_fields board_aad_domain (board_fields context checked_id checked_token)

unfoldable pub derive_board_message_key : Primitives → Bytes → Bytes → Result Bytes
derive_board_message_key c board_master_key message_id = do
  checked_message_id ← require_bytes message_id (some 16)
  checked_key ← require_bytes board_master_key (some 32)
  hkdf_sha256 c checked_key (codes "board-message-v1") (some checked_message_id) 32

board_associated_data_inv :
    (context : AccessContext) (message_id display_token aad : Bytes)
    → board_associated_data context message_id display_token ≡ ok aad
    → encode_fields board_aad_domain (board_fields context message_id display_token) ≡ ok aad
unfolding board_associated_data
board_associated_data_inv context message_id display_token aad h =
    let (i, e, h₁) = >>=-eq-ok (require_bytes message_id (some 16)) _ h in
    let (t, e', h₂) = >>=-eq-ok (require_bytes display_token (some 16)) _ h₁ in
    rw ((require_bytes-eq-ok message_id 16 i e).0, (require_bytes-eq-ok display_token 16 t e').0) h₂

-- The associated data of two board records are the same bytes only if they agree on the server, the
-- generation, the message id and the display token.
pub board_associated_data-injective :
    (a b : AccessContext) (message_id message_id' display_token display_token' aad : Bytes)
    → board_associated_data a message_id display_token ≡ ok aad
    → board_associated_data b message_id' display_token' ≡ ok aad
    → (a ≡ b) × (message_id ≡ message_id') × (display_token ≡ display_token')
board_associated_data-injective a b message_id message_id' display_token display_token' aad h h' =
    let same : board_fields a message_id display_token ≡ board_fields b message_id' display_token' =
      (encode_fields-injective _ _ _ _ aad
        (board_associated_data_inv a message_id display_token aad h)
        (board_associated_data_inv b message_id' display_token' aad h')).1 in
    (cc (same), cc (same), cc (same))
