-- ===== src/Access/Proof/Message.antt =====
-- The message of an access proof.
use the_grid.Prelude.{◌≡◌, refl, some, [], ◌∷◌, length, ℕ_eq, list_eq, arith}
use the_grid.Prelude.Result.{ok, >>=-eq-ok}
use the_grid.Bytes.{Bytes, require_bytes, require_bytes-eq-ok}
use the_grid.Crypto.{require_bytes_of_length}
use the_grid.Protocol.Fields.{encode_fields, check_domain}
use the_grid.Protocol.Fields.Total.{encode_fields_total}
use the_grid.Protocol.Fields.RoundTrip.{encode_fields-injective}
use the_grid.Access.Proof.{
  AccessContext, access_proof_domain, access_proof_message, protocol_version_bytes,
}

pub access_proof_message_total :
    (context : AccessContext) (challenge nonce : Bytes)
    → length context.server_id ≡ 32
    → length context.access_generation ≡ 16
    → length challenge ≡ 32
    → length nonce ≡ 16
    → (message : Bytes) × (access_proof_message context challenge nonce ≡ ok message)
unfolding access_proof_message
access_proof_message_total context challenge nonce hs hg hc hn =
    let (message, e) =
      encode_fields_total access_proof_domain
        (protocol_version_bytes ∷ context.server_id ∷ context.access_generation ∷ challenge ∷ nonce
          ∷ [])
        (unfold check_domain in refl) (omega (arith, hs, hg, hc, hn)) (omega arith) in
    (message, rw (require_bytes_of_length challenge 32 hc, require_bytes_of_length nonce 16 hn) e)

access_proof_message_inv :
    (context : AccessContext) (challenge nonce message : Bytes)
    → access_proof_message context challenge nonce ≡ ok message
    → encode_fields access_proof_domain (
        protocol_version_bytes ∷ context.server_id ∷ context.access_generation ∷ challenge ∷ nonce
        ∷ [])
      ≡ ok message
unfolding access_proof_message
access_proof_message_inv context challenge nonce message h =
    let (ch, ec, h₁) = >>=-eq-ok (require_bytes challenge (some 32)) _ h in
    let (n, en, h₂) = >>=-eq-ok (require_bytes nonce (some 16)) _ h₁ in
    let (same, _) = require_bytes-eq-ok challenge 32 ch ec in
    let (same', _) = require_bytes-eq-ok nonce 16 n en in rw (same, same') h₂

-- Two messages of access proofs are the same bytes only if they agree on the server, the
-- generation, the challenge and the client's nonce.
pub access_proof_message-injective :
    (a b : AccessContext) (challenge challenge' nonce nonce' message : Bytes)
    → access_proof_message a challenge nonce ≡ ok message
    → access_proof_message b challenge' nonce' ≡ ok message
    → (a ≡ b) × (challenge ≡ challenge') × (nonce ≡ nonce')
access_proof_message-injective a b challenge challenge' nonce nonce' message h h' =
    let same : (protocol_version_bytes ∷ a.server_id ∷ a.access_generation ∷ challenge ∷ nonce ∷ [])
        ≡ (protocol_version_bytes ∷ b.server_id ∷ b.access_generation ∷ challenge' ∷ nonce' ∷ []) =
      (encode_fields-injective _ _ _ _ message
        (access_proof_message_inv a challenge nonce message h)
        (access_proof_message_inv b challenge' nonce' message h')).1 in
    (cc (same), cc (same), cc (same))
