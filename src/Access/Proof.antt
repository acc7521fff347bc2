-- ===== src/Access/Proof.antt =====
-- The access generation of access.py: contexts, keys, the verifier state, proofs and the one-use
-- challenge verifier.
pub mod Message
pub mod Challenge
pub mod Admission
use the_grid.Prelude.{
  ℕ, ◌≡◌, Bool, true, false, not, Option, none, some, List, [], ◌∷◌, ◌++◌, ◌==◌, ℕ_eq, list_eq,
  if◌then◌else◌,
}
use the_grid.Prelude.Result.{
  Result, ok, err, access_error, invalid_context, invalid_state, raise_if, ◌>>=◌, ◌>>◌,
  is_type_or_value_error,
}
use the_grid.Bytes.{Bytes, require_bytes}
use the_grid.Text.{Text, codes}
use the_grid.Phrases.{normalise_phrase, generate_phrase}
use the_grid.Crypto.{
  Primitives, sha256, hmac_sha256, hkdf_sha256, scrypt_sha256_profile, constant_time_equal,
  random_bytes,
}
pub use the_grid.Protocol.Fields.{protocol_version_bytes}
use the_grid.Protocol.Fields.{encode_fields}

pub record AccessContext : Type 0 where
  pub server_id : Bytes
  pub access_generation : Bytes

-- `AccessContext.__post_init__`
unfoldable pub make_access_context : Bytes → Bytes → Result AccessContext
make_access_context server_id access_generation = do
  checked_id ← require_bytes server_id (some 32)
  checked_generation ← require_bytes access_generation (some 16)
  ok (record { server_id = checked_id; access_generation = checked_generation })

pub record AccessKeys : Type 0 where
  pub authentication_key : Bytes
  pub board_master_key : Bytes
  pub display_token_key : Bytes

-- `AccessKeys.__post_init__`
unfoldable pub make_access_keys : Bytes → Bytes → Bytes → Result AccessKeys
make_access_keys authentication_key board_master_key display_token_key = do
  checked_authentication ← require_bytes authentication_key (some 32)
  checked_board ← require_bytes board_master_key (some 32)
  checked_display ← require_bytes display_token_key (some 32)
  ok (record {
    authentication_key = checked_authentication;
    board_master_key = checked_board;
    display_token_key = checked_display;
  })

pub record AccessVerifierState : Type 0 where
  pub access_generation : Bytes
  pub verifier_key : Bytes

-- `AccessVerifierState.__post_init__`; the version is the default, 1.
unfoldable pub make_access_verifier_state : Bytes → Bytes → Result AccessVerifierState
make_access_verifier_state access_generation verifier_key = do
  checked_generation ← require_bytes access_generation (some 16)
  checked_key ← require_bytes verifier_key (some 32)
  ok (record { access_generation = checked_generation; verifier_key = checked_key })

pub record AccessSetup : Type 0 where
  pub phrase : Text
  pub context : AccessContext
  pub verifier_state : AccessVerifierState

-- `AccessSetup.__post_init__`
unfoldable pub make_access_setup : Text → AccessContext → AccessVerifierState → Result AccessSetup
make_access_setup phrase context verifier_state = do
  normalised ← normalise_phrase phrase
  raise_if (not (normalised == phrase)) (access_error invalid_state)
  raise_if (not (context.access_generation == verifier_state.access_generation))
      (access_error invalid_state)
  ok (record { phrase = phrase; context = context; verifier_state = verifier_state })

abbrev pub access_proof_domain : Bytes
access_proof_domain = codes "access-proof-v1"

unfoldable pub access_proof_message : AccessContext → Bytes → Bytes → Result Bytes
access_proof_message context challenge client_nonce = do
  checked_challenge ← require_bytes challenge (some 32)
  checked_nonce ← require_bytes client_nonce (some 16)
  encode_fields access_proof_domain (
      protocol_version_bytes ∷ context.server_id ∷ context.access_generation ∷ checked_challenge
      ∷ checked_nonce ∷ [])

pub record AccessChallengeVerifier : Type 0 where
  pub context : AccessContext
  pub challenge : Bytes
  pub verifier_key : Bytes
  pub consumed : Bool

-- `AccessChallengeVerifier.__init__`
unfoldable pub new_access_challenge_verifier :
    AccessContext → AccessVerifierState → Bytes → Result AccessChallengeVerifier
new_access_challenge_verifier context verifier_state challenge = do
  raise_if (not (context.access_generation == verifier_state.access_generation))
      (access_error invalid_context)
  checked_challenge ← require_bytes challenge (some 32)
  ok (record {
    context = context;
    challenge = checked_challenge;
    verifier_key = verifier_state.verifier_key;
    consumed = false;
  })

module _ (c : Primitives) where
  unfoldable pub create_access_proof : Bytes → AccessContext → Bytes → Bytes → Result Bytes
  unfolding access_proof_message
  create_access_proof authentication_key context challenge client_nonce = do
    key ← require_bytes authentication_key (some 32)
    message ← access_proof_message context challenge client_nonce
    hmac_sha256 c key message

  -- The `try` block of `verify`: the expected and the supplied proof.
  unfoldable pub expected_and_supplied :
      AccessChallengeVerifier → Bytes → Bytes → Result (Bytes × Bytes)
  unfolding create_access_proof
  expected_and_supplied v client_nonce proof = do
    nonce ← require_bytes client_nonce (some 16)
    supplied ← require_bytes proof (some 32)
    expected ← create_access_proof v.verifier_key v.context v.challenge nonce
    ok (expected, supplied)

  unfoldable pub compare_proof : AccessChallengeVerifier → Bytes → Bytes → Result Bool
  unfolding expected_and_supplied
  compare_proof v client_nonce proof = elim (expected_and_supplied v client_nonce proof) [
    | err e ↦ if is_type_or_value_error e then ok false else err e
    | ok (expected, supplied) ↦ ok (constant_time_equal expected supplied)
  ]

  -- `AccessChallengeVerifier.verify`: the challenge is spent before anything is compared.
  unfoldable pub verify :
      AccessChallengeVerifier → Bytes → Bytes → AccessChallengeVerifier × Result Bool
  unfolding compare_proof
  verify v client_nonce proof =
      if v.consumed
      then (v, ok false)
      else (record v { consumed = true }, compare_proof v client_nonce proof)

  unfoldable pub derive_access_root : Text → AccessContext → Result Bytes
  derive_access_root phrase context = do
    normalised ← normalise_phrase phrase
    let salt = sha256 c (codes "access-kdf-v1" ++ (context.server_id ++ context.access_generation))
    scrypt_sha256_profile c normalised salt

  unfoldable pub derive_access_keys : Text → AccessContext → Result AccessKeys
  unfolding derive_access_root make_access_keys
  derive_access_keys phrase context = do
    root ← derive_access_root phrase context
    authentication_key ← hkdf_sha256 c root (codes "access-auth-v1") none 32
    board_master_key ← hkdf_sha256 c root (codes "board-master-v1") none 32
    display_token_key ← hkdf_sha256 c root (codes "display-token-v1") none 32
    make_access_keys authentication_key board_master_key display_token_key

  -- `_create_access_setup`, on what the sampler and the random source return.
  unfoldable pub create_access_setup :
      List Text → Bytes → Option (List Text) → (ℕ → Bytes) → Result AccessSetup
  unfolding make_access_context make_access_verifier_state make_access_setup derive_access_keys
  create_access_setup words server_id sampled random_source = do
    phrase ← generate_phrase words sampled
    generation ← random_bytes 16 random_source
    context ← make_access_context server_id generation
    keys ← derive_access_keys phrase context
    state ← make_access_verifier_state generation keys.authentication_key
    make_access_setup phrase context state

  unfoldable pub rotate_access :
      List Text → Bytes → Option (List Text) → (ℕ → Bytes) → Result AccessSetup
  unfolding create_access_setup
  rotate_access words server_id sampled random_source = do
    checked_id ← require_bytes server_id (some 32)
    create_access_setup words checked_id sampled random_source

  -- The random source is asked twice: `first` answers for the server id, `second` for the rest.
  unfoldable pub create_initial_access :
      List Text → Option (List Text) → (ℕ → Bytes) → (ℕ → Bytes) → Result AccessSetup
  unfolding create_access_setup
  create_initial_access words sampled first second = do
    server_id ← random_bytes 32 first
    create_access_setup words server_id sampled second
