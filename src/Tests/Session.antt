-- ===== src/Tests/Session.antt =====
-- A session between ABC and XYZ.
use the_grid.Prelude.{
  take, ◌↔◌, ℕ, ◌≡◌, refl, true, false, none, List, [], ◌∷◌, ◌++◌, length, map, arith, any,
  contains,
}
use the_grid.Prelude.Result.{ok, err, Error}
use the_grid.Bytes.{Bytes, to_bytes}
use the_grid.Text.{Text, codes, upper, is_ascii}
use the_grid.Access.Display.{normalise_display_id}
use the_grid.Sessions.Types.{
  identity, SessionEvent, SessionRole, creator, joiner, SessionDirection, direction_prefix,
  creator_to_joiner, joiner_to_creator,
}
use the_grid.Sessions.Frames.{
  EncryptedSessionFrame, session_nonce, session_nonce-ok, session_nonce-injective,
}
use the_grid.Sessions.Channel.{Channel, is_active, is_usable, decrypt_frame}
use the_grid.Sessions.Payload.{encode_session_payload, received_value, encode_identity_total}
use the_grid.Sessions.Channel.Link.{IsLinked}
use the_grid.Sessions.Channel.Guard.{Outcome, decrypt_frame_outcome}
use the_grid.Sessions.Channel.Calls.{
  calls_encrypt_text, calls_discard, calls_decrypt_frame, step, run, raised_when_discarded,
  no_frame_twice, discarded_is_final,
}
use the_grid.Sessions.Channel.Delivery.{Line, text_event}
use the_grid.Sessions.Channel.Network as Net
use the_grid.Sessions.Channel.Network.{
  Network, Act, creator_sends, joiner_sends, creator_receives, joiner_receives, IsJoined, start,
  delivery,
}
use the_grid.Sessions.Channel.Introduction.{
  IsFresh, Introduced, announced, introduced, identity_event, introduction,
}
use the_grid.Sessions.Handshake.{by_role}
use the_grid.Sessions.Handshake.Total.{Setting, IsSetting, transcript_total, creator_of, joiner_of}
use the_grid.Sessions.Handshake.Transcript.{build_handshake_transcript-injective}
use the_grid.Sessions.Handshake.Agreement.{Agreed, handshake_agreement}
use the_grid.Sessions.Conversation.{conversation}
use the_grid.Sessions.Verification.{verification_code_total}
use the_grid.Sessions.Verification.Injective.{same_code_iff}
use the_grid.Tests.Toy.{block, toy, toy-Laws}

abbrev setting : Setting
setting = record {
  server_id = block 32 1;
  pair_id = block 16 2;
  phrase = record { authentication_key = block 32 3; room_id = block 16 4 };
  creator_key = block 32 5;
  creator_nonce = block 16 6;
  joiner_key = block 32 7;
  joiner_nonce = block 16 8;
}

setting-IsSetting : IsSetting setting
setting-IsSetting = record {
  length-server_id = refl;
  length-pair_id = refl;
  length-authentication_key = refl;
  length-room_id = refl;
  length-creator_nonce = refl;
  length-joiner_nonce = refl;
}

handshake_agreement_example : Agreed toy setting
handshake_agreement_example =
    handshake_agreement toy toy-Laws setting (block 32 7) setting-IsSetting refl

abbrev fresh : SessionRole → SessionDirection → SessionDirection → Bytes → Bytes → Channel
fresh role out into send_key receive_key = record {
  role = role;
  session_id = block 16 9;
  verification_code = codes "2222-2222";
  send_direction = out;
  receive_direction = into;
  send_key = send_key;
  receive_key = receive_key;
  send_counter = 0;
  receive_counter = 0;
  local_identity_sent = false;
  peer_identity_received = false;
  local_display_id = none;
  peer_display_id = none;
  is_discarded = false;
  has_failed = false;
}

abbrev alice : Channel
alice = fresh creator creator_to_joiner joiner_to_creator (block 32 1) (block 32 2)

abbrev bob : Channel
bob = fresh joiner joiner_to_creator creator_to_joiner (block 32 2) (block 32 1)

alice-IsFresh : IsFresh alice
alice-IsFresh = record {
  live = refl;
  sound = refl;
  sends_first = refl;
  receives_first = refl;
  unsent = refl;
  unreceived = refl;
}

bob-IsFresh : IsFresh bob
bob-IsFresh = record {
  live = refl;
  sound = refl;
  sends_first = refl;
  receives_first = refl;
  unsent = refl;
  unreceived = refl;
}

alice_to_bob : IsLinked alice bob
alice_to_bob = record { session = refl; direction = refl; key = refl; counters = refl }

bob_to_alice : IsLinked bob alice
bob_to_alice = record { session = refl; direction = refl; key = refl; counters = refl }

abc_normal : normalise_display_id (codes "abc") ≡ ok (codes "ABC")
unfolding normalise_display_id upper is_ascii any contains
abc_normal = refl

xyz_normal : normalise_display_id (codes "XyZ") ≡ ok (codes "XYZ")
unfolding normalise_display_id upper is_ascii any contains
xyz_normal = refl

introduction_example :
    Introduced toy alice bob (codes "abc") (codes "XyZ") (codes "ABC") (codes "XYZ")
introduction_example =
    introduction toy toy-Laws alice bob (codes "abc") (codes "XyZ") (codes "ABC") (codes "XYZ")
      alice-IsFresh bob-IsFresh alice_to_bob bob_to_alice refl abc_normal xyz_normal

abbrev after_alice : Channel
after_alice = introduced (announced alice (codes "ABC")) (codes "XYZ")

abbrev after_bob : Channel
after_bob = introduced (announced bob (codes "XYZ")) (codes "ABC")

abbrev to_bob : Line
to_bob = record { session_id = block 16 9; direction = creator_to_joiner; key = block 32 1 }

abbrev to_alice : Line
to_alice = record { session_id = block 16 9; direction = joiner_to_creator; key = block 32 2 }

after-IsJoined : IsJoined to_bob to_alice after_alice after_bob
unfolding is_active
after-IsJoined = record {
  creator_speaks = record {
    active = refl;
    session = refl;
    direction = refl;
    key = refl;
    counter = refl;
  };
  joiner_listens = record {
    active = refl;
    session = refl;
    direction = refl;
    key = refl;
    counter = refl;
  };
  joiner_speaks = record {
    active = refl;
    session = refl;
    direction = refl;
    key = refl;
    counter = refl;
  };
  creator_listens = record {
    active = refl;
    session = refl;
    direction = refl;
    key = refl;
    counter = refl;
  };
}

abbrev schedule : List Act
schedule =
    creator_sends (codes "hello")
    ∷ joiner_sends (codes "hi")
    ∷ creator_sends (codes "bye")
    ∷ joiner_receives
    ∷ creator_receives
    ∷ []

delivery_example :
    let w = Net.run toy (start after_alice after_bob) schedule in
    ((pending : List Text) × (w.creator_sent ≡ w.joiner_got ++ map text_event pending)
      × (length pending ≡ length w.to_joiner))
    × ((pending : List Text) × (w.joiner_sent ≡ w.creator_got ++ map text_event pending)
        × (length pending ≡ length w.to_creator))
    × (is_active w.creator ≡ true)
    × (is_active w.joiner ≡ true)
delivery_example =
    delivery toy toy-Laws to_bob to_alice after_alice after_bob schedule refl refl after-IsJoined

conversation_example :
    (g : Agreed toy setting) × Introduced toy g.creator_channel g.joiner_channel
      (codes "abc")
      (codes "XyZ")
      (codes "ABC")
      (codes "XYZ")
    × (let w =
          Net.run toy
            (start
              (introduced (announced g.creator_channel (codes "ABC")) (codes "XYZ"))
              (introduced (announced g.joiner_channel (codes "XYZ")) (codes "ABC")))
            schedule in
        ((pending : List Text) × (w.creator_sent ≡ w.joiner_got ++ map text_event pending)
          × (length pending ≡ length w.to_joiner))
        × ((pending : List Text) × (w.joiner_sent ≡ w.creator_got ++ map text_event pending)
            × (length pending ≡ length w.to_creator))
        × (is_active w.creator ≡ true)
        × (is_active w.joiner ≡ true))
conversation_example =
    conversation toy toy-Laws setting (block 32 7) (codes "abc") (codes "XyZ") (codes "ABC")
      (codes "XYZ") schedule setting-IsSetting refl abc_normal xyz_normal

-- A frame that alice has not sent.
abbrev forged : EncryptedSessionFrame
forged = record {
  session_id = block 16 9;
  direction = creator_to_joiner;
  counter = 0;
  body = block 20 0;
}

bob-usable : is_usable bob ≡ true
unfolding is_usable
bob-usable = refl

decrypt_frame_outcome_example : Outcome toy bob forged (decrypt_frame toy bob forged)
decrypt_frame_outcome_example = decrypt_frame_outcome toy bob forged bob-usable refl (omega arith)

abbrev hello : Introduced toy alice bob (codes "abc") (codes "XyZ") (codes "ABC") (codes "XYZ")
hello =
    introduction toy toy-Laws alice bob (codes "abc") (codes "XyZ") (codes "ABC") (codes "XYZ")
      alice-IsFresh bob-IsFresh alice_to_bob bob_to_alice refl abc_normal xyz_normal

no_frame_twice_example :
    (e : Error) × ((decrypt_frame toy
        (run toy after_bob (calls_encrypt_text (codes "hi") ∷ []))
        hello.creator_frame).1
      ≡ err e)
no_frame_twice_example =
    no_frame_twice toy (announced bob (codes "XYZ")) after_bob hello.creator_frame
      hello.creator_frame (identity_event (codes "ABC")) (calls_encrypt_text (codes "hi") ∷ [])
      hello.joiner_reads refl

abbrev gone : Channel
gone = record bob { is_discarded = true }

discarded_is_final_example :
    step toy
      (run toy gone (calls_discard ∷ calls_encrypt_text (codes "hi") ∷ []))
      (calls_decrypt_frame forged)
    ≡ (gone, raised_when_discarded (calls_decrypt_frame forged))
discarded_is_final_example =
    discarded_is_final toy gone (calls_discard ∷ calls_encrypt_text (codes "hi") ∷ [])
      (calls_decrypt_frame forged) refl

shouted_normal : normalise_display_id (codes "ABC") ≡ ok (codes "ABC")
unfolding normalise_display_id upper is_ascii any contains
shouted_normal = refl

abbrev hello_payload : (p : Bytes) × (encode_session_payload identity (codes "ABC") ≡ ok p)
hello_payload = encode_identity_total (codes "ABC") shouted_normal refl

abbrev hello_event : SessionEvent
hello_event = record { event_type = identity; value = received_value identity (codes "ABC") }

abbrev sent_before : ℕ
sent_before = 258

abbrev late_nonce : Bytes
late_nonce = 0 ∷ 0 ∷ 0 ∷ 1 ∷ 0 ∷ 0 ∷ 0 ∷ 0 ∷ 0 ∷ 0 ∷ 1 ∷ 2 ∷ []

late_nonce-made : session_nonce creator_to_joiner sent_before ≡ ok late_nonce
unfolding direction_prefix to_bytes
late_nonce-made = session_nonce-ok creator_to_joiner sent_before (omega arith)

session_nonce-injective_example :
    (creator_to_joiner ≡ creator_to_joiner) × (sent_before ≡ sent_before)
session_nonce-injective_example =
    session_nonce-injective creator_to_joiner creator_to_joiner sent_before sent_before late_nonce
      late_nonce-made late_nonce-made

transcript_example :
    (setting.server_id ≡ setting.server_id)
    × (setting.phrase.room_id ≡ setting.phrase.room_id)
    × (setting.pair_id ≡ setting.pair_id)
    × (by_role (creator_of toy setting).hello (joiner_of toy setting).hello
        ≡ by_role (joiner_of toy setting).hello (creator_of toy setting).hello)
transcript_example =
    build_handshake_transcript-injective setting.server_id setting.server_id setting.phrase.room_id
      setting.phrase.room_id setting.pair_id setting.pair_id
      (transcript_total toy toy-Laws setting setting-IsSetting).0 (creator_of toy setting).hello
      (joiner_of toy setting).hello (joiner_of toy setting).hello (creator_of toy setting).hello
      (transcript_total toy toy-Laws setting setting-IsSetting).1
      (transcript_total toy toy-Laws setting setting-IsSetting).2

same_code_example :
    ((verification_code_total (block 32 1) refl).0 ≡ (verification_code_total (block 32 2) refl).0)
    ↔ (take 5 (block 32 1) ≡ take 5 (block 32 2))
same_code_example =
    same_code_iff (block 32 1) (block 32 2) (verification_code_total (block 32 1) refl).0
      (verification_code_total (block 32 2) refl).0 (omega arith) (omega arith)
      (verification_code_total (block 32 1) refl).1 (verification_code_total (block 32 2) refl).1
