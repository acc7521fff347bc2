-- ===== src/Access/Proof/Challenge.antt =====
-- A challenge verifier: what it takes for a proof, and that it does so once.
use the_grid.Prelude.{
  ◌≡◌, ◌↔◌, refl, sym, ap, ◌∙◌, Bool, true, false, some, List, [], ◌∷◌, length, ℕ_eq, list_eq,
  arith, inl, inr, list_beq_iff, beq_refl, map,
}
use the_grid.Prelude.Result.{
  Result, ok, err, Error, >>=-eq-ok, Result-cases, IsCaught, >>=-IsCaught, err-IsCaught,
}
use the_grid.Bytes.{Bytes, require_bytes, require_bytes-eq-ok, require_bytes-IsCaught}
use the_grid.Crypto.{
  Primitives, Laws, hmac_sha256, hmac_sha256-ok, constant_time_equal, require_bytes_of_length,
}
use the_grid.Protocol.Fields.Errors.{encode_fields-IsCaught}
use the_grid.Access.Proof.{
  AccessContext, AccessChallengeVerifier, access_proof_message, create_access_proof,
  expected_and_supplied, compare_proof, verify,
}

module _ (c : Primitives) where
  create_access_proof_inv :
      (laws : Laws c) (key : Bytes) (context : AccessContext) (challenge nonce proof : Bytes)
      → create_access_proof c key context challenge nonce ≡ ok proof
      → length proof ≡ 32
  unfolding create_access_proof
  create_access_proof_inv laws key context challenge nonce proof h =
      let (k, e, h₁) = >>=-eq-ok (require_bytes key (some 32)) _ h in
      let (message, e', h₂) = >>=-eq-ok (access_proof_message context challenge nonce) _ h₁ in
      let (same, long) = require_bytes-eq-ok key 32 k e in
      let made : ok (c.hmac_digest k message) ≡ ok proof =
        sym (hmac_sha256-ok c k message (rw (← same) long)) ∙ h₂ in
      let value : c.hmac_digest k message ≡ proof = ground (arith, made) in
      rw (← value) (laws.length-hmac_digest k message)

  pub verify-create :
      (v : AccessChallengeVerifier) (nonce proof : Bytes)
      → v.consumed ≡ false
      → length nonce ≡ 16
      → length proof ≡ 32
      → create_access_proof c v.verifier_key v.context v.challenge nonce ≡ ok proof
      → verify c v nonce proof ≡ (record v { consumed = true }, ok true)
  unfolding verify compare_proof expected_and_supplied constant_time_equal
  verify-create v nonce proof fresh hn hp h = ground (
    arith,
    h,
    fresh,
    require_bytes_of_length nonce 16 hn,
    require_bytes_of_length proof 32 hp,
    beq_refl {A = Bytes} proof,
  )

create_access_proof-IsCaught :
    (c : Primitives) (key : Bytes) (context : AccessContext) (challenge nonce : Bytes)
    → IsCaught (create_access_proof c key context challenge nonce)
unfolding create_access_proof access_proof_message hmac_sha256
create_access_proof-IsCaught c key context challenge nonce =
    search (>>=-IsCaught, require_bytes-IsCaught, encode_fields-IsCaught) depth 9

expected_and_supplied-IsCaught :
    (c : Primitives) (v : AccessChallengeVerifier) (nonce proof : Bytes)
    → IsCaught (expected_and_supplied c v nonce proof)
unfolding expected_and_supplied
expected_and_supplied-IsCaught c v nonce proof =
    search (>>=-IsCaught, require_bytes-IsCaught, create_access_proof-IsCaught) depth 9

expected_and_supplied_inv :
    (c : Primitives) (v : AccessChallengeVerifier) (nonce proof expected supplied : Bytes)
    → expected_and_supplied c v nonce proof ≡ ok (expected, supplied)
    → (length nonce ≡ 16)
      × (supplied ≡ proof)
      × (create_access_proof c v.verifier_key v.context v.challenge nonce ≡ ok expected)
unfolding expected_and_supplied
expected_and_supplied_inv c v nonce proof expected supplied h =
    let (n, e, h₁) = >>=-eq-ok (require_bytes nonce (some 16)) _ h in
    let (s, e', h₂) = >>=-eq-ok (require_bytes proof (some 32)) _ h₁ in
    let (x, e'', h₃) =
      >>=-eq-ok (create_access_proof c v.verifier_key v.context v.challenge n) _ h₂ in
    let (same, long) = require_bytes-eq-ok nonce 16 n e in
    let (same', _) = require_bytes-eq-ok proof 32 s e' in
    (long, ground (arith, h₃, same'), ground (arith, h₃, e'', same))

module _ (c : Primitives) (v : AccessChallengeVerifier) (nonce proof : Bytes)
    (fresh : v.consumed ≡ false) where
  verify-err :
      (e : Error)
      → expected_and_supplied c v nonce proof ≡ err e
      → verify c v nonce proof ≡ (record v { consumed = true }, ok false)
  unfolding verify compare_proof
  verify-err e h = ground (
    arith,
    fresh,
    h,
    err-IsCaught (expected_and_supplied c v nonce proof) e
        (expected_and_supplied-IsCaught c v nonce proof) h,
  )

  verify-ok :
      (expected supplied : Bytes)
      → expected_and_supplied c v nonce proof ≡ ok (expected, supplied)
      → verify c v nonce proof
        ≡ (record v { consumed = true }, ok (constant_time_equal expected supplied))
  unfolding verify compare_proof
  verify-ok expected supplied h = ground (arith, fresh, h)

  accepted-true :
      (laws : Laws c) (accepted : Bool)
      → verify c v nonce proof ≡ (record v { consumed = true }, ok accepted)
      → (length nonce ≡ 16)
        × (create_access_proof c v.verifier_key v.context v.challenge nonce ≡ ok proof)
      → accepted ≡ true
  accepted-true laws accepted e (hn, made) =
      let long =
        create_access_proof_inv c laws v.verifier_key v.context v.challenge nonce proof made in
      let same : ok accepted ≡ ok true =
        ap (λ r. r.1) (sym e ∙ verify-create c v nonce proof fresh hn long made) in
      ground (arith, same)

-- The first `verify` of a challenge never raises and consumes the challenge. It is true just when
-- the nonce has sixteen bytes and the proof is the one that the verifier's key makes of its
-- context, its challenge and that nonce.
pub verify_iff :
    (c : Primitives) (laws : Laws c) (v : AccessChallengeVerifier) (nonce proof : Bytes)
    → v.consumed ≡ false
    → (accepted : Bool) × (verify c v nonce proof ≡ (record v { consumed = true }, ok accepted))
      × ((accepted ≡ true) ↔ (
          (length nonce ≡ 16)
          × (create_access_proof c v.verifier_key v.context v.challenge nonce ≡ ok proof)))
verify_iff c laws v nonce proof fresh =
    elim (Result-cases (expected_and_supplied c v nonce proof)) [
      | inr (e, h) ↦
          let failed = verify-err c v nonce proof fresh e h in
          (
            false,
            failed,
            (λ p. absurd (ground arith), accepted-true c v nonce proof fresh laws false failed),
          )
      | inl ((x, s), h) ↦
          let done = verify-ok c v nonce proof fresh x s h in
          let (hn, same, made) = expected_and_supplied_inv c v nonce proof x s h in
          (
            constant_time_equal x s,
            done,
            (
              λ p. (
                hn,
                made ∙ ap ok ((list_beq_iff x s).0 (unfold constant_time_equal in p) ∙ same),
              ),
              accepted-true c v nonce proof fresh laws (constant_time_equal x s) done,
            ),
          )
    ]

-- The replies of a verifier to a list of attempts.
unfoldable pub replies :
    Primitives → AccessChallengeVerifier → List (Bytes × Bytes) → List (Result Bool)
unfolding verify
replies c v [] = []
replies c v ((nonce, proof) ∷ attempts) =
    let (v', reply) = verify c v nonce proof in reply ∷ replies c v' attempts

replies-consumed :
    (c : Primitives) (v : AccessChallengeVerifier) (attempts : List (Bytes × Bytes))
    → v.consumed ≡ true
    → replies c v attempts ≡ map (λ _. ok false) attempts
unfolding replies
replies-consumed c v [] h = refl
replies-consumed c v ((nonce, proof) ∷ attempts) h =
    let again : verify c v nonce proof ≡ (v, ok false) = unfold verify in rw h refl in
    rw again (ap (◌∷◌ (ok false)) (replies-consumed c v attempts h))

verify-consumed :
    (c : Primitives) (v : AccessChallengeVerifier) (nonce proof : Bytes)
    → (verify c v nonce proof).0.consumed ≡ true
unfolding verify
verify-consumed c v nonce proof = ground arith

-- A challenge serves one attempt: whatever the first was, every later one is answered with false.
pub one_attempt :
    (c : Primitives) (v : AccessChallengeVerifier) (nonce proof : Bytes)
    (attempts : List (Bytes × Bytes))
    → replies c v ((nonce, proof) ∷ attempts)
      ≡ (verify c v nonce proof).1 ∷ map (λ _. ok false) attempts
unfolding replies
one_attempt c v nonce proof attempts =
    ap (◌∷◌ (verify c v nonce proof).1)
      (replies-consumed c (verify c v nonce proof).0 attempts (verify-consumed c v nonce proof))
