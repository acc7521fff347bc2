-- ===== src/Sessions/Handshake.antt =====
-- `HandshakeHello`, `HandshakeParticipant` and the functions of the handshake of sessions.py. An
-- X25519 private key is the bytes of it, and its operations are those of `Primitives`.
pub mod Total
pub mod Transcript
pub mod Agreement
use the_grid.Prelude.{
  ℕ, ◌≡◌, Bool, true, false, not, Option, none, some, List, [], ◌∷◌, ◌++◌, ◌==◌, ℕ_eq, list_eq,
  take, if◌then◌else◌,
}
use the_grid.Prelude.Result.{
  Result, ok, err, Error, value_error, session_error, invalid_handshake, proof_failed,
  key_exchange_failed, discarded, raise_if, ◌>>=◌, ◌>>◌, is_type_or_value_error,
}
use the_grid.Bytes.{Bytes, require_bytes}
use the_grid.Text.{Text, codes}
use the_grid.Crypto.{
  Primitives, sha256, hmac_sha256, hkdf_sha256, scrypt_sha256_profile, constant_time_equal,
  random_bytes,
}
use the_grid.Phrases.{normalise_phrase}
use the_grid.Protocol.Fields.{encode_fields}
use the_grid.Sessions.Types.{SessionRole, creator, joiner, role_code, protocol_version_bytes}
use the_grid.Sessions.Channel.{SessionMaterial}

pub record HandshakeHello : Type 0 where
  pub role : SessionRole
  pub nonce : Bytes
  pub public_key : Bytes

-- `HandshakeHello.__post_init__`
unfoldable pub make_handshake_hello : SessionRole → Bytes → Bytes → Result HandshakeHello
make_handshake_hello role nonce public_key = do
  checked_nonce ← require_bytes nonce (some 16)
  checked_key ← require_bytes public_key (some 32)
  ok (record { role = role; nonce = checked_nonce; public_key = checked_key })

pub record SessionPhraseMaterial : Type 0 where
  pub authentication_key : Bytes
  pub room_id : Bytes

-- `SessionPhraseMaterial.__post_init__`
unfoldable pub make_session_phrase_material : Bytes → Bytes → Result SessionPhraseMaterial
make_session_phrase_material authentication_key room_id = do
  checked_key ← require_bytes authentication_key (some 32)
  checked_id ← require_bytes room_id (some 16)
  ok (record { authentication_key = checked_key; room_id = checked_id })

-- `SessionMaterial.__post_init__`
unfoldable pub make_session_material : Bytes → Bytes → Bytes → Bytes → Result SessionMaterial
make_session_material creator_to_joiner_key joiner_to_creator_key session_id verification_seed = do
  checked_out ← require_bytes creator_to_joiner_key (some 32)
  checked_in ← require_bytes joiner_to_creator_key (some 32)
  checked_id ← require_bytes session_id (some 16)
  checked_seed ← require_bytes verification_seed (some 32)
  ok (record {
    creator_to_joiner_key = checked_out;
    joiner_to_creator_key = checked_in;
    session_id = checked_id;
    verification_seed = checked_seed;
  })

pub record Participant : Type 0 where
  pub hello : HandshakeHello
  pub private_key : Option Bytes

abbrev pub session_transcript_domain : Bytes
session_transcript_domain = codes "session-handshake-v1"

abbrev pub session_proof_domain : Bytes
session_proof_domain = codes "session-proof-v1"

-- `by_role`: the creator's hello, then the joiner's.
unfoldable pub by_role : HandshakeHello → HandshakeHello → Option (HandshakeHello × HandshakeHello)
by_role first second = roles first.role second.role
  where
    roles : SessionRole → SessionRole → Option (HandshakeHello × HandshakeHello)
    roles creator joiner = some (first, second)
    roles joiner creator = some (second, first)
    roles _ _ = none

-- The transcript of the creator's and the joiner's hello.
unfoldable pub transcript_of :
    Bytes → Bytes → Bytes → Option (HandshakeHello × HandshakeHello) → Result Bytes
transcript_of server_id room_id pair_id none = err (session_error invalid_handshake)
transcript_of server_id room_id pair_id (some (c, j)) = do
  checked_server ← require_bytes server_id (some 32)
  checked_room ← require_bytes room_id (some 16)
  checked_pair ← require_bytes pair_id (some 16)
  encode_fields session_transcript_domain (
      protocol_version_bytes
      ∷ checked_server
      ∷ checked_room
      ∷ checked_pair
      ∷ role_code creator
      ∷ c.nonce
      ∷ c.public_key
      ∷ role_code joiner
      ∷ j.nonce
      ∷ j.public_key
      ∷ [])

unfoldable pub build_handshake_transcript :
    Bytes → Bytes → Bytes → HandshakeHello → HandshakeHello → Result Bytes
unfolding transcript_of by_role
build_handshake_transcript server_id room_id pair_id first second =
    transcript_of server_id room_id pair_id (by_role first second)

module _ (c : Primitives) where
  -- `HandshakeParticipant.__init__`
  unfoldable pub new_participant : SessionRole → Bytes → Bytes → Result Participant
  unfolding make_handshake_hello
  new_participant role private_key nonce = do
    hello ← make_handshake_hello role nonce (c.public_bytes private_key)
    ok (record { hello = hello; private_key = some private_key })

  -- `HandshakeParticipant.generate`, on the private key that was generated.
  unfoldable pub generate : SessionRole → Bytes → (ℕ → Bytes) → Result Participant
  unfolding new_participant
  generate role private_key random_source = do
    nonce ← random_bytes 16 random_source
    new_participant role private_key nonce

  -- `HandshakeParticipant._from_test_values`
  unfoldable pub from_test_values : SessionRole → Bytes → Bytes → Result Participant
  unfolding new_participant
  from_test_values role private_key_bytes nonce = do
    private_key ← require_bytes private_key_bytes (some 32)
    checked_nonce ← require_bytes nonce (some 16)
    new_participant role private_key checked_nonce

  unfoldable pub derive_session_phrase_root : Text → Bytes → Result Bytes
  derive_session_phrase_root phrase server_id = do
    checked_server_id ← require_bytes server_id (some 32)
    normalised ← normalise_phrase phrase
    scrypt_sha256_profile c normalised (sha256 c (codes "comm-kdf-v1" ++ checked_server_id))

  -- The proof key and the room of a phrase.
  unfoldable pub derive_session_phrase_material : Text → Bytes → Result SessionPhraseMaterial
  unfolding derive_session_phrase_root make_session_phrase_material
  derive_session_phrase_material phrase server_id = do
    root ← derive_session_phrase_root phrase server_id
    auth_key ← hkdf_sha256 c root (codes "session-auth-v1") none 32
    digest ← hmac_sha256 c auth_key (codes "room-id-v1")
    make_session_phrase_material auth_key (take 16 digest)

  unfoldable pub create_handshake_proof : Bytes → SessionRole → Bytes → Result Bytes
  create_handshake_proof authentication_key role transcript = do
    message ←
        encode_fields session_proof_domain
          (protocol_version_bytes ∷ role_code role ∷ sha256 c transcript ∷ [])
    checked_key ← require_bytes authentication_key (some 32)
    hmac_sha256 c checked_key message

  unfoldable pub expected_and_supplied :
      Bytes → SessionRole → Bytes → Bytes → Result (Bytes × Bytes)
  unfolding create_handshake_proof
  expected_and_supplied authentication_key role transcript proof = do
    expected ← create_handshake_proof authentication_key role transcript
    supplied ← require_bytes proof (some 32)
    ok (expected, supplied)

  unfoldable pub verify_handshake_proof : Bytes → SessionRole → Bytes → Bytes → Result Bool
  unfolding expected_and_supplied
  verify_handshake_proof authentication_key role transcript proof =
      elim (expected_and_supplied authentication_key role transcript proof) [
        | err e ↦ if is_type_or_value_error e then ok false else err e
        | ok (expected, supplied) ↦ ok (constant_time_equal expected supplied)
      ]

  unfoldable pub derive_session_material : Bytes → Bytes → Result SessionMaterial
  unfolding make_session_material
  derive_session_material shared_secret transcript = do
    shared ← require_bytes shared_secret (some 32)
    let salt = some (sha256 c transcript)
    creator_to_joiner_key ← hkdf_sha256 c shared (codes "session-c2j-v1") salt 32
    joiner_to_creator_key ← hkdf_sha256 c shared (codes "session-j2c-v1") salt 32
    session_id ← hkdf_sha256 c shared (codes "session-id-v1") salt 16
    verification_seed ← hkdf_sha256 c shared (codes "session-verify-v1") salt 32
    make_session_material creator_to_joiner_key joiner_to_creator_key session_id verification_seed

  unfoldable pub create_proof :
      Participant → SessionPhraseMaterial → Bytes → Bytes → HandshakeHello → Result Bytes
  unfolding build_handshake_transcript create_handshake_proof
  create_proof p material server_id pair_id peer_hello = elim p.private_key [
    | none ↦ err (session_error discarded)
    | some private_key ↦ do
      transcript ← build_handshake_transcript server_id material.room_id pair_id p.hello peer_hello
      create_handshake_proof material.authentication_key p.hello.role transcript
  ]

  -- `private_key.exchange`, every ValueError of it passed on as a failed key exchange.
  unfoldable pub shared_secret : Bytes → Bytes → Result Bytes
  shared_secret private_key public_key = elim (c.exchange private_key public_key) [
    | none ↦ err (session_error key_exchange_failed)
    | some shared ↦ ok shared
  ]

  -- The `try` block of `finalise`.
  unfoldable pub agree :
      Participant
      → Bytes
      → SessionPhraseMaterial
      → Bytes
      → Bytes
      → HandshakeHello
      → Bytes
      → Result SessionMaterial
  unfolding build_handshake_transcript verify_handshake_proof derive_session_material shared_secret
  agree p private_key material server_id pair_id peer_hello peer_proof = do
    transcript ← build_handshake_transcript server_id material.room_id pair_id p.hello peer_hello
    proved ←
        verify_handshake_proof material.authentication_key peer_hello.role transcript peer_proof
    raise_if (not proved) (session_error proof_failed)
    raise_if (not (constant_time_equal (c.public_bytes private_key) p.hello.public_key))
        (session_error invalid_handshake)
    shared ← shared_secret private_key peer_hello.public_key
    derive_session_material shared transcript

  -- The private key is gone after the call, whatever the `try` block did.
  unfoldable pub finalise :
      Participant
      → SessionPhraseMaterial
      → Bytes
      → Bytes
      → HandshakeHello
      → Bytes
      → Participant × Result SessionMaterial
  unfolding agree
  finalise p material server_id pair_id peer_hello peer_proof = elim p.private_key [
    | none ↦ (p, err (session_error discarded))
    | some private_key ↦ (
      record p { private_key = none },
      agree p private_key material server_id pair_id peer_hello peer_proof,
    )
  ]
