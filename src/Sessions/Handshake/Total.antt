-- ===== src/Sessions/Handshake/Total.antt =====
-- The steps of a handshake succeed on inputs of the right lengths.
use the_grid.Prelude.{
  ℕ, ◌≤◌, ◌≡◌, refl, true, none, some, [], ◌∷◌, length, ℕ_eq, list_eq, arith, beq_refl,
}
use the_grid.Prelude.Result.{ok}
use the_grid.Bytes.{Bytes}
use the_grid.Text.{codes}
use the_grid.Crypto.{
  Primitives, Laws, sha256, hmac_sha256-ok, hkdf_sha256, constant_time_equal,
  require_bytes_of_length,
}
use the_grid.Protocol.Fields.{check_domain, max_crypto_field_bytes}
use the_grid.Protocol.Fields.Total.{encode_fields_total}
use the_grid.Sessions.Types.{SessionRole, creator, joiner, role_code, protocol_version_bytes}
use the_grid.Sessions.Channel.{SessionMaterial}
use the_grid.Sessions.Handshake.{
  HandshakeHello, SessionPhraseMaterial, Participant, make_handshake_hello, make_session_material,
  new_participant, transcript_of, build_handshake_transcript, create_handshake_proof,
  expected_and_supplied, verify_handshake_proof, derive_session_material, create_proof,
  shared_secret, agree, finalise, session_transcript_domain, session_proof_domain,
}

constant_time_equal_refl : (x : Bytes) → constant_time_equal x x ≡ true
unfolding constant_time_equal
constant_time_equal_refl x = beq_refl x

role_code-short : (r : SessionRole) → length (role_code r) ≤ max_crypto_field_bytes
unfolding role_code
role_code-short creator = omega arith
role_code-short joiner = omega arith

-- What both sides know before the handshake.
pub record Setting : Type 0 where
  pub server_id : Bytes
  pub pair_id : Bytes
  pub phrase : SessionPhraseMaterial
  pub creator_key : Bytes
  pub creator_nonce : Bytes
  pub joiner_key : Bytes
  pub joiner_nonce : Bytes

pub record IsSetting (s : Setting) : Type 0 where
  pub length-server_id : length s.server_id ≡ 32
  pub length-pair_id : length s.pair_id ≡ 16
  pub length-authentication_key : length s.phrase.authentication_key ≡ 32
  pub length-room_id : length s.phrase.room_id ≡ 16
  pub length-creator_nonce : length s.creator_nonce ≡ 16
  pub length-joiner_nonce : length s.joiner_nonce ≡ 16

module _ (c : Primitives) where
  abbrev pub participant : SessionRole → Bytes → Bytes → Participant
  participant role private_key nonce = record {
    hello = record { role = role; nonce = nonce; public_key = c.public_bytes private_key };
    private_key = some private_key;
  }

  abbrev pub creator_of : Setting → Participant
  creator_of s = participant creator s.creator_key s.creator_nonce

  abbrev pub joiner_of : Setting → Participant
  joiner_of s = participant joiner s.joiner_key s.joiner_nonce

module _ (c : Primitives) (laws : Laws c) where
  pub new_participant-ok :
      (role : SessionRole) (private_key nonce : Bytes)
      → length nonce ≡ 16
      → new_participant c role private_key nonce ≡ ok (participant c role private_key nonce)
  unfolding new_participant make_handshake_hello
  new_participant-ok role private_key nonce h = rw (
    require_bytes_of_length nonce 16 h,
    require_bytes_of_length _ 32 (laws.length-public_bytes private_key),
  )

  pub transcript_total :
      (s : Setting)
      → IsSetting s
      → (t : Bytes) × (build_handshake_transcript s.server_id s.phrase.room_id s.pair_id
            (creator_of c s).hello
            (joiner_of c s).hello
          ≡ ok t)
        × (build_handshake_transcript s.server_id s.phrase.room_id s.pair_id
              (joiner_of c s).hello
              (creator_of c s).hello
            ≡ ok t)
  unfolding build_handshake_transcript
  transcript_total s i =
      let (t, e) =
        encode_fields_total session_transcript_domain
          (protocol_version_bytes
            ∷ s.server_id
            ∷ s.phrase.room_id
            ∷ s.pair_id
            ∷ role_code creator
            ∷ s.creator_nonce
            ∷ c.public_bytes s.creator_key
            ∷ role_code joiner
            ∷ s.joiner_nonce
            ∷ c.public_bytes s.joiner_key
            ∷ [])
          (unfold check_domain in refl)
          (omega (
            arith,
            i.length-server_id,
            i.length-room_id,
            i.length-pair_id,
            i.length-creator_nonce,
            i.length-joiner_nonce,
            role_code-short creator,
            role_code-short joiner,
            laws.length-public_bytes s.creator_key,
            laws.length-public_bytes s.joiner_key,
          ))
          (omega arith) in
      let built : transcript_of s.server_id s.phrase.room_id s.pair_id
            (some ((creator_of c s).hello, (joiner_of c s).hello))
          ≡ ok t =
        unfold transcript_of in
        rw
          (
            require_bytes_of_length s.server_id 32 i.length-server_id,
            require_bytes_of_length s.phrase.room_id 16 i.length-room_id,
            require_bytes_of_length s.pair_id 16 i.length-pair_id,
          )
          e in
      (t, built, built)

  pub proof_total :
      (key : Bytes) (role : SessionRole) (t : Bytes)
      → length key ≡ 32
      → (p : Bytes) × (create_handshake_proof c key role t ≡ ok p) × (length p ≡ 32)
  unfolding create_handshake_proof sha256
  proof_total key role t h =
      let (message, e) =
        encode_fields_total session_proof_domain
          (protocol_version_bytes ∷ role_code role ∷ sha256 c t ∷ []) (unfold check_domain in refl)
          (omega (arith, role_code-short role, laws.length-sha256_digest t)) (omega arith) in
      (
        c.hmac_digest key message,
        rw (e, require_bytes_of_length key 32 h, hmac_sha256-ok c key message h),
        laws.length-hmac_digest key message,
      )

  -- The proof of a role is taken for that role.
  pub verify-create :
      (key : Bytes) (role : SessionRole) (t p : Bytes)
      → create_handshake_proof c key role t ≡ ok p
      → length p ≡ 32
      → verify_handshake_proof c key role t p ≡ ok true
  unfolding verify_handshake_proof expected_and_supplied
  verify-create key role t p h n =
      ground (arith, h, require_bytes_of_length p 32 n, constant_time_equal_refl p)

  pub material_total :
      (shared t : Bytes)
      → length shared ≡ 32
      → (m : SessionMaterial) × (derive_session_material c shared t ≡ ok m)
        × (length m.session_id ≡ 16)
        × (length m.verification_seed ≡ 32)
  unfolding derive_session_material make_session_material hkdf_sha256
  material_total shared t h =
      let derived = λ (info : Bytes) (n : ℕ). c.hkdf_derive shared (some (sha256 c t)) info n in
      let length-derived =
        λ (info : Bytes) (n : ℕ). laws.length-hkdf_derive shared (some (sha256 c t)) info n in
      (
        record {
          creator_to_joiner_key = derived (codes "session-c2j-v1") 32;
          joiner_to_creator_key = derived (codes "session-j2c-v1") 32;
          session_id = derived (codes "session-id-v1") 16;
          verification_seed = derived (codes "session-verify-v1") 32;
        },
        rw (
          require_bytes_of_length shared 32 h,
          require_bytes_of_length _ 32 (length-derived (codes "session-c2j-v1") 32),
          require_bytes_of_length _ 32 (length-derived (codes "session-j2c-v1") 32),
          require_bytes_of_length _ 16 (length-derived (codes "session-id-v1") 16),
          require_bytes_of_length _ 32 (length-derived (codes "session-verify-v1") 32),
        ),
        length-derived (codes "session-id-v1") 16,
        length-derived (codes "session-verify-v1") 32,
      )

  pub create_proof-ok :
      (p : Participant) (m : SessionPhraseMaterial) (server_id pair_id private_key t proof : Bytes)
      (peer : HandshakeHello)
      → p.private_key ≡ some private_key
      → build_handshake_transcript server_id m.room_id pair_id p.hello peer ≡ ok t
      → create_handshake_proof c m.authentication_key p.hello.role t ≡ ok proof
      → create_proof c p m server_id pair_id peer ≡ ok proof
  unfolding create_proof
  create_proof-ok p m server_id pair_id private_key t proof peer k b h = rw (k, b) h

  -- A participant whose peer has proved to know the phrase finalises.
  pub finalise-ok :
      (role : SessionRole) (m : SessionPhraseMaterial)
      (server_id pair_id private_key nonce t proof shared : Bytes) (peer : HandshakeHello)
      (material : SessionMaterial)
      → build_handshake_transcript server_id m.room_id pair_id
          (participant c role private_key nonce).hello
          peer
        ≡ ok t
      → verify_handshake_proof c m.authentication_key peer.role t proof ≡ ok true
      → c.exchange private_key peer.public_key ≡ some shared
      → derive_session_material c shared t ≡ ok material
      → finalise c (participant c role private_key nonce) m server_id pair_id peer proof
        ≡ (record (participant c role private_key nonce) { private_key = none }, ok material)
  unfolding finalise agree shared_secret
  finalise-ok role m server_id pair_id private_key nonce t proof shared peer material b v x d =
      ground (arith, b, v, constant_time_equal_refl (c.public_bytes private_key), x, d)
