-- ===== src/Access/Proof/Admission.antt =====
-- Who knows the phrase of a setup is let in.
use the_grid.Prelude.{
  ℕ, ◌≡◌, refl, sym, ◌∙◌, true, false, not, Option, List, length, ◌==◌, ℕ_eq, list_eq, arith,
  beq_refl,
}
use the_grid.Prelude.Result.{ok, access_error, invalid_state, >>=-eq-ok, raise_if-eq-ok}
use the_grid.Bytes.{Bytes, require_bytes}
use the_grid.Text.{Text}
use the_grid.Phrases.{generate_phrase, normalise_phrase}
use the_grid.Crypto.{Primitives, Laws, hmac_sha256-ok, random_bytes, require_bytes_of_length}
use the_grid.Access.Proof.{
  AccessContext, AccessKeys, AccessSetup, AccessVerifierState, AccessChallengeVerifier,
  make_access_context, make_access_verifier_state, make_access_setup, new_access_challenge_verifier,
  create_access_proof, verify, derive_access_keys, create_access_setup,
}
use the_grid.Access.Proof.Message.{access_proof_message_total}
use the_grid.Access.Proof.Challenge.{verify-create}

make_access_context_inv :
    (server_id generation : Bytes) (context : AccessContext)
    → make_access_context server_id generation ≡ ok context
    → (context.access_generation ≡ generation)
      × (length context.server_id ≡ 32)
      × (length context.access_generation ≡ 16)
unfolding make_access_context require_bytes
make_access_context_inv server_id generation context h =
    (ground (arith, h), ground (arith, h), ground (arith, h))

make_access_verifier_state_inv :
    (generation key : Bytes) (state : AccessVerifierState)
    → make_access_verifier_state generation key ≡ ok state
    → (state.access_generation ≡ generation) × (state.verifier_key ≡ key) × (length key ≡ 32)
unfolding make_access_verifier_state require_bytes
make_access_verifier_state_inv generation key state h =
    (ground (arith, h), ground (arith, h), ground (arith, h))

make_access_setup_inv :
    (phrase : Text) (context : AccessContext) (state : AccessVerifierState) (setup : AccessSetup)
    → make_access_setup phrase context state ≡ ok setup
    → setup ≡ record { phrase = phrase; context = context; verifier_state = state }
unfolding make_access_setup
make_access_setup_inv phrase context state setup h =
    let (normalised, e, h₁) = >>=-eq-ok (normalise_phrase phrase) _ h in
    let (t, h₂) = raise_if-eq-ok (not (normalised == phrase)) (access_error invalid_state) _ h₁ in
    ground (arith, h₂)

module _ (c : Primitives) where
  -- What a setup holds: the verifier key is the key that its phrase gives.
  setup_inv :
      (words : List Text) (server_id : Bytes) (sampled : Option (List Text)) (source : ℕ → Bytes)
      (setup : AccessSetup)
      → create_access_setup c words server_id sampled source ≡ ok setup
      → (keys : AccessKeys) × (derive_access_keys c setup.phrase setup.context ≡ ok keys)
        × (setup.verifier_state.verifier_key ≡ keys.authentication_key)
        × (length keys.authentication_key ≡ 32)
        × (setup.context.access_generation ≡ setup.verifier_state.access_generation)
        × (length setup.context.server_id ≡ 32)
        × (length setup.context.access_generation ≡ 16)
  unfolding create_access_setup make_access_context make_access_verifier_state make_access_setup
  setup_inv words server_id sampled source setup h =
      let (phrase, e₁, h₁) = >>=-eq-ok (generate_phrase words sampled) _ h in
      let (generation, e₂, h₂) = >>=-eq-ok (random_bytes 16 source) _ h₁ in
      let (context, e₃, h₃) = >>=-eq-ok (make_access_context server_id generation) _ h₂ in
      let (keys, e₄, h₄) = >>=-eq-ok (derive_access_keys c phrase context) _ h₃ in
      let (state, e₅, h₅) =
        >>=-eq-ok (make_access_verifier_state generation keys.authentication_key) _ h₄ in
      let same = make_access_setup_inv phrase context state setup h₅ in
      let (g, ls, lg) = make_access_context_inv server_id generation context e₃ in
      let (g', k, lk) =
        make_access_verifier_state_inv generation keys.authentication_key state e₅ in
      rw same (keys, e₄, k, lk, g ∙ sym g', ls, lg)

-- Whoever knows the phrase of a new setup derives its keys, and the proof made with them is taken by
-- every challenge verifier of that setup, whatever the challenge and the client's nonce of the right
-- lengths are; the verifier is consumed by it.
pub setup_admits :
    (c : Primitives) (laws : Laws c) (words : List Text) (server_id : Bytes)
    (sampled : Option (List Text)) (source : ℕ → Bytes) (setup : AccessSetup)
    (challenge nonce : Bytes)
    → create_access_setup c words server_id sampled source ≡ ok setup
    → length challenge ≡ 32
    → length nonce ≡ 16
    → (keys : AccessKeys) × (v : AccessChallengeVerifier) × (proof : Bytes) × (derive_access_keys c
          setup.phrase setup.context
        ≡ ok keys)
      × (new_access_challenge_verifier setup.context setup.verifier_state challenge ≡ ok v)
      × (create_access_proof c keys.authentication_key setup.context challenge nonce ≡ ok proof)
      × (verify c v nonce proof ≡ (record v { consumed = true }, ok true))
unfolding new_access_challenge_verifier create_access_proof
setup_admits c laws words server_id sampled source setup challenge nonce h hc hn =
    let (keys, derived, key, long, generation, ls, lg) =
      setup_inv c words server_id sampled source setup h in
    let (message, e) = access_proof_message_total setup.context challenge nonce ls lg hc hn in
    let proof = c.hmac_digest keys.authentication_key message in
    let made : create_access_proof c keys.authentication_key setup.context challenge nonce
        ≡ ok proof =
      rw (require_bytes_of_length keys.authentication_key 32 long, e)
        (hmac_sha256-ok c keys.authentication_key message long) in
    (
      keys,
      record {
        context = setup.context;
        challenge = challenge;
        verifier_key = setup.verifier_state.verifier_key;
        consumed = false;
      },
      proof,
      derived,
      rw (generation, require_bytes_of_length challenge 32 hc)
          (ground (arith, beq_refl {A = Bytes} setup.verifier_state.access_generation)),
      made,
      verify-create c _ nonce proof refl hn
          (laws.length-hmac_digest keys.authentication_key message) (rw key made),
    )
