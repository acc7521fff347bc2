-- ===== src/Relay/Dispatch/Admission.antt =====
-- How a connection comes to be authenticated.
use the_grid.Prelude.{
  ℕ, ◌≡◌, refl, Bool, true, false, none, some, ◌==◌, ℕ_eq, list_eq, arith, sym, ◌∙◌, ap,
}
use the_grid.Prelude.Result.{ok}
use the_grid.Bytes.{Bytes}
use the_grid.Text.{Text, codes}
use the_grid.Crypto.{Primitives}
use the_grid.Access.Proof.{AccessChallengeVerifier, verify}
use the_grid.Protocol.Frames.{Frame, require_frame_bytes}
use the_grid.Relay.State.{
  Action, RelayConnection, RelayServer, ◌>>=◌, ◌>>◌, return, lift, set_connection,
}
use the_grid.Relay.Handlers.{
  challenge_of, judge_proof, weigh_proof, count_failure, handle_access_proof, check_proof, greet,
  spend, admit, answer_proof,
}
use the_grid.Relay.RateLimiter.{WindowRateLimiter, retry_after, record_event}
use the_grid.Relay.Keeps.{
  check-keeps, Keeps, IgnoresQueue, queue, found-keeps, branch-keeps, >>=-Keeps, return-Keeps,
}
use the_grid.Relay.Dispatch.Gate.{answer-Keeps, handle_frame-keeps}
use the_grid.Relay.Dispatch.{Draws, handle_frame}

-- The proof that a connection has sent answers the challenge that it was given.
pub record IsProved (p : Primitives) (c : ℕ) (frame : Frame) (s : RelayServer) : Type 0 where
  pub challenge : AccessChallengeVerifier
  pub nonce : Bytes
  pub proof : Bytes
  pub given : (s.heap c).challenge ≡ some challenge
  pub sent_nonce : require_frame_bytes frame (codes "client_nonce") (some 16) none ≡ ok nonce
  pub sent_proof : require_frame_bytes frame (codes "proof") (some 32) none ≡ ok proof
  pub verified : (verify p challenge nonce proof).1 ≡ ok true

module _ (p : Primitives) (c : ℕ) (frame : Frame) (s₀ : RelayServer) where
  -- Authenticated only if proved.
  abbrev Earned : RelayServer → Type 0
  Earned t = (t.heap c).authenticated ≡ true → IsProved p c frame s₀

  assign-Earned :
      (x : RelayConnection) (s : RelayServer)
      → Earned s
      → x.authenticated ≡ (s.heap c).authenticated
      → Earned (set_connection c x s)
  unfolding set_connection
  assign-Earned x s h same now_true = h (ground (arith, same, now_true))

  queue-Earned : IgnoresQueue c Earned
  unfolding queue
  queue-Earned outbound requested s h = assign-Earned _ s h refl

  greet-Earned : (v : AccessChallengeVerifier) (s : RelayServer) → Earned s → Earned (greet c v s)
  unfolding greet
  greet-Earned v s h = assign-Earned _ s h refl

  spend-Earned : (v : AccessChallengeVerifier) (s : RelayServer) → Earned s → Earned (spend c v s)
  unfolding spend
  spend-Earned v s h = assign-Earned _ s h refl

  limit-Earned :
      (s : RelayServer) (l : WindowRateLimiter)
      → Earned s
      → Earned (record s { access_limiter = l })
  limit-Earned s l h = h

  answers-Earned :
      (request_id : Text) (answer : Bool) (retry : ℕ)
      → Keeps Earned (answer_proof c request_id answer retry)
  answers-Earned = answer-Keeps Earned c queue-Earned greet-Earned

  challenge_of-eq-ok :
      (s : RelayServer) (v : AccessChallengeVerifier)
      → challenge_of c s ≡ ok v
      → (s.heap c).challenge ≡ some v
  unfolding challenge_of
  challenge_of-eq-ok s v h = ground (arith, h)

  judge_proof-Earned :
      (now : ℕ) (request_id : Text) (good : Bool)
      → (good ≡ true → IsProved p c frame s₀)
      → Keeps Earned (judge_proof c now request_id good)
  unfolding judge_proof count_failure
  judge_proof-Earned now request_id true proved = λ s h.
      >>=-Keeps Earned (answer_proof c request_id true 0) (λ _. return true)
        (answers-Earned request_id true 0) (λ _. return-Keeps Earned true) (admit c s)
        (λ _. proved refl)
  judge_proof-Earned now request_id false proved = λ s h.
      let answered : ℕ → Action Bool =
        λ retry. answer_proof c request_id false retry >> return false in
      check-keeps Earned (record_event s.access_limiter now (s.heap c).peer_key).1 answered
        (count_failure c now s) h
        (λ retry.
          >>=-Keeps Earned (answer_proof c request_id false retry) (λ _. return false)
            (answers-Earned request_id false retry) (λ _. return-Keeps Earned false)
            (count_failure c now s) h)

  weigh_proof-Earned :
      (now : ℕ) (request_id : Text) (challenge : AccessChallengeVerifier) (nonce proof : Bytes)
      → ((verify p challenge nonce proof).1 ≡ ok true → IsProved p c frame s₀)
      → Keeps Earned (weigh_proof p c now request_id challenge nonce proof)
  unfolding weigh_proof
  weigh_proof-Earned now request_id challenge nonce proof proved s h =
      let spent = spend-Earned (verify p challenge nonce proof).0 s h in
      found-keeps Earned ((verify p challenge nonce proof).1) (judge_proof c now request_id)
        (spend c (verify p challenge nonce proof).0 s) spent
        (λ good verified.
          judge_proof-Earned now request_id good (λ e. proved (verified ∙ ap ok e)) _ spent)

  check_proof-Earned :
      (now : ℕ) (request_id : Text) (s : RelayServer)
      → (s.heap c).challenge ≡ (s₀.heap c).challenge
      → Earned s
      → Earned (check_proof p c now frame request_id s).0
  unfolding check_proof
  check_proof-Earned now request_id s same h =
      let sent_nonce = require_frame_bytes frame (codes "client_nonce") (some 16) none in
      let sent_proof = require_frame_bytes frame (codes "proof") (some 32) none in
      let weigh = weigh_proof p c now request_id in
      found-keeps Earned (challenge_of c s)
        (λ challenge. lift sent_nonce >>= λ nonce. lift sent_proof >>= weigh challenge nonce) s h
        (λ challenge given.
          found-keeps Earned sent_nonce (λ nonce. lift sent_proof >>= weigh challenge nonce) s h
            (λ nonce e₁. found-keeps Earned sent_proof (weigh challenge nonce) s h (λ proof e₂.
              weigh_proof-Earned now request_id challenge nonce proof
                (λ verified. record {
                  challenge = challenge;
                  nonce = nonce;
                  proof = proof;
                  given = sym same ∙ challenge_of-eq-ok s challenge given;
                  sent_nonce = e₁;
                  sent_proof = e₂;
                  verified = verified;
                })
                s h)))

  proof-Earned :
      (now : ℕ) (request_id : Text)
      → Earned s₀
      → Earned (handle_access_proof p c now frame request_id s₀).0
  unfolding handle_access_proof
  proof-Earned now request_id h =
      let (checked, retry) = retry_after s₀.access_limiter now (s₀.heap c).peer_key in
      branch-keeps Earned (retry == 0) (check_proof p c now frame request_id)
        (answer_proof c request_id false retry >> return false)
        (record s₀ { access_limiter = checked })
        (check_proof-Earned now request_id (record s₀ { access_limiter = checked }) refl h)
        (>>=-Keeps Earned (answer_proof c request_id false retry) (λ _. return false)
          (answers-Earned request_id false retry) (λ _. return-Keeps Earned false)
          (record s₀ { access_limiter = checked }) h)

-- A frame makes a connection authenticated only if it carries a nonce and a proof that the challenge
-- which the connection was given verifies.
pub handle_frame-authenticates :
    (p : Primitives) (draws : Draws) (c now : ℕ) (frame : Frame) (s : RelayServer)
    → (s.heap c).authenticated ≡ false
    → ((handle_frame p draws c now frame s).0.heap c).authenticated ≡ true
    → IsProved p c frame s
handle_frame-authenticates p draws c now frame s locked =
    let none_yet : Earned p c frame s s = λ h. ground (arith, h, locked) in
    handle_frame-keeps (Earned p c frame s) c (queue-Earned p c frame s) (greet-Earned p c frame s)
      p draws now frame s locked none_yet (λ r. proof-Earned p c frame s now r none_yet)
