-- ===== src/Tests/Admission.antt =====
-- An access generation of four words.
use the_grid.Prelude.{
  arith, ◌≡◌, ◌↔◌, refl, Bool, true, false, Option, some, List, [], ◌∷◌, length, map, list_beq, any,
  all, contains, all_distinct,
}
use the_grid.Prelude.Result.{ok}
use the_grid.Bytes.{Bytes, require_bytes}
use the_grid.Text.{Text, codes, is_ascii, lower}
use the_grid.Phrases.{generate_phrase, normalise_phrase}
use the_grid.Crypto.{sha256, random_bytes, scrypt_sha256_profile, hkdf_sha256}
use the_grid.Access.Proof.{
  AccessContext, AccessKeys, AccessSetup, AccessChallengeVerifier, new_access_challenge_verifier,
  create_access_proof, verify, derive_access_keys, create_access_setup, make_access_context,
  make_access_keys, make_access_verifier_state, make_access_setup, derive_access_root,
}
use the_grid.Access.Proof.Message.{access_proof_message_total, access_proof_message-injective}
use the_grid.Access.Proof.Challenge.{verify_iff, replies, one_attempt}
use the_grid.Access.Proof.Admission.{setup_admits}
use the_grid.Protocol.Fields.{check_domain}
use the_grid.Protocol.Fields.Total.{encode_fields_total}
use the_grid.Hub.Messages.{
  board_aad_domain, board_fields, board_associated_data, board_associated_data-injective,
}
use the_grid.Tests.Toy.{block, toy, toy-Laws}

abbrev pub words : List Text
words = codes "echo" ∷ codes "alpha" ∷ codes "bravo" ∷ codes "delta" ∷ codes "golf" ∷ []

abbrev sampled : Option (List Text)
sampled = some (codes "alpha" ∷ codes "delta" ∷ codes "echo" ∷ codes "bravo" ∷ [])

abbrev pub context : AccessContext
context = record { server_id = block 32 1; access_generation = block 16 9 }

abbrev pub setup : AccessSetup
setup = record {
  phrase = codes "alpha delta echo bravo";
  context = context;
  verifier_state = record { access_generation = block 16 9; verifier_key = block 32 4 };
}

setup-made : create_access_setup toy words (block 32 1) sampled (λ n. block n 9) ≡ ok setup
unfolding create_access_setup generate_phrase normalise_phrase random_bytes make_access_context
    make_access_keys make_access_verifier_state make_access_setup derive_access_root
    derive_access_keys is_ascii lower any all contains all_distinct list_beq require_bytes
    scrypt_sha256_profile hkdf_sha256 sha256
setup-made = refl

setup_admits_example :
    (keys : AccessKeys) × (v : AccessChallengeVerifier) × (proof : Bytes) × (derive_access_keys toy
        setup.phrase setup.context
      ≡ ok keys)
    × (new_access_challenge_verifier setup.context setup.verifier_state (block 32 5) ≡ ok v)
    × (create_access_proof toy keys.authentication_key setup.context (block 32 5) (block 16 6)
        ≡ ok proof)
    × (verify toy v (block 16 6) proof ≡ (record v { consumed = true }, ok true))
setup_admits_example =
    setup_admits toy toy-Laws words (block 32 1) sampled (λ n. block n 9) setup (block 32 5)
      (block 16 6) setup-made refl refl

abbrev pub verifier : AccessChallengeVerifier
verifier = record {
  context = context;
  challenge = block 32 5;
  verifier_key = block 32 4;
  consumed = false;
}

verify_iff_example :
    (accepted : Bool) × (verify toy verifier (block 16 6) (block 31 2)
      ≡ (record verifier { consumed = true }, ok accepted))
    × ((accepted ≡ true) ↔ (
        (length (block 16 6) ≡ 16)
        × (create_access_proof toy verifier.verifier_key verifier.context verifier.challenge
              (block 16 6)
            ≡ ok (block 31 2))))
verify_iff_example = verify_iff toy toy-Laws verifier (block 16 6) (block 31 2) refl

one_attempt_example :
    replies toy verifier ((block 16 6, block 32 2) ∷ (block 16 6, block 32 2) ∷ [])
    ≡ (verify toy verifier (block 16 6) (block 32 2)).1
      ∷ map {A = Bytes × Bytes} (λ _. ok false) ((block 16 6, block 32 2) ∷ [])
one_attempt_example =
    one_attempt toy verifier (block 16 6) (block 32 2) ((block 16 6, block 32 2) ∷ [])

access_proof_message-injective_example :
    (context ≡ context) × (block 32 5 ≡ block 32 5) × (block 16 6 ≡ block 16 6)
access_proof_message-injective_example =
    access_proof_message-injective context context (block 32 5) (block 32 5) (block 16 6)
      (block 16 6)
      (access_proof_message_total context (block 32 5) (block 16 6) refl refl refl refl).0
      (access_proof_message_total context (block 32 5) (block 16 6) refl refl refl refl).1
      (access_proof_message_total context (block 32 5) (block 16 6) refl refl refl refl).1

board_aad : (e : Bytes) × (board_associated_data context (block 16 1) (block 16 2) ≡ ok e)
unfolding board_associated_data check_domain any all require_bytes
board_aad =
    encode_fields_total board_aad_domain (board_fields context (block 16 1) (block 16 2)) refl
      (omega arith) (omega arith)

board_associated_data-injective_example :
    (context ≡ context) × (block 16 1 ≡ block 16 1) × (block 16 2 ≡ block 16 2)
board_associated_data-injective_example =
    board_associated_data-injective context context (block 16 1) (block 16 1) (block 16 2)
      (block 16 2) board_aad.0 board_aad.1 board_aad.1
