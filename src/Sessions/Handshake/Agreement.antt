-- ===== src/Sessions/Handshake/Agreement.antt =====
-- Two participants that know one phrase derive one session, and their channels are linked.
use the_grid.Prelude.{◌≡◌, refl, ap, ◌∙◌, false, none, some, length, ℕ_eq, list_eq}
use the_grid.Prelude.Result.{ok}
use the_grid.Bytes.{Bytes}
use the_grid.Text.{Text}
use the_grid.Crypto.{Primitives, Laws}
use the_grid.Sessions.Types.{
  SessionRole, creator, joiner, SessionDirection, creator_to_joiner, joiner_to_creator, same_role,
}
use the_grid.Sessions.Verification.{verification_code_from_seed, verification_code_total}
use the_grid.Sessions.Channel.{SessionMaterial, Channel, new_channel}
use the_grid.Sessions.Channel.Link.{IsLinked}
use the_grid.Sessions.Channel.Introduction.{IsFresh}
use the_grid.Sessions.Handshake.{Participant, new_participant, create_proof, finalise}
use the_grid.Sessions.Handshake.Total.{
  Setting, IsSetting, creator_of, joiner_of, new_participant-ok, transcript_total, proof_total,
  verify-create, material_total, create_proof-ok, finalise-ok,
}

module _ (c : Primitives) where
  -- What a handshake comes to: both participants, their proofs, the one material that both
  -- finalise to, without their private keys from then on, and the two channels made of it.
  pub record Agreed (s : Setting) : Type 0 where
    pub creator_side : Participant
    pub joiner_side : Participant
    pub creator_proof : Bytes
    pub joiner_proof : Bytes
    pub material : SessionMaterial
    pub creator_channel : Channel
    pub joiner_channel : Channel
    pub creator_is_made : new_participant c creator s.creator_key s.creator_nonce ≡ ok creator_side
    pub joiner_is_made : new_participant c joiner s.joiner_key s.joiner_nonce ≡ ok joiner_side
    pub creator_proves :
        create_proof c creator_side s.phrase s.server_id s.pair_id joiner_side.hello
        ≡ ok creator_proof
    pub joiner_proves :
        create_proof c joiner_side s.phrase s.server_id s.pair_id creator_side.hello
        ≡ ok joiner_proof
    pub creator_finalises :
        finalise c creator_side s.phrase s.server_id s.pair_id joiner_side.hello joiner_proof
        ≡ (record creator_side { private_key = none }, ok material)
    pub joiner_finalises :
        finalise c joiner_side s.phrase s.server_id s.pair_id creator_side.hello creator_proof
        ≡ (record joiner_side { private_key = none }, ok material)
    pub creator_opens : new_channel material creator ≡ ok creator_channel
    pub joiner_opens : new_channel material joiner ≡ ok joiner_channel
    pub creator_is_fresh : IsFresh creator_channel
    pub joiner_is_fresh : IsFresh joiner_channel
    pub outward : IsLinked creator_channel joiner_channel
    pub inward : IsLinked joiner_channel creator_channel
    pub codes_agree : creator_channel.verification_code ≡ joiner_channel.verification_code
    pub length-session_id : length creator_channel.session_id ≡ 16

abbrev fresh_channel :
    SessionMaterial
    → Text
    → SessionRole
    → SessionDirection
    → SessionDirection
    → Bytes
    → Bytes
    → Channel
fresh_channel m code role out into send_key receive_key = record {
  role = role;
  session_id = m.session_id;
  verification_code = code;
  send_direction = out;
  receive_direction = into;
  send_key = send_key;
  receive_key = receive_key;
  send_counter = 0;
  receive_counter = 0;
  local_identity_sent = false;
  peer_identity_received = false;
  local_display_id = none;
  peer_display_id = none;
  is_discarded = false;
  has_failed = false;
}

-- The two channels that one material makes.
pub channels_linked :
    (m : SessionMaterial)
    → length m.verification_seed ≡ 32
    → (a : Channel) × (b : Channel) × (new_channel m creator ≡ ok a)
      × (new_channel m joiner ≡ ok b)
      × IsFresh a
      × IsFresh b
      × IsLinked a b
      × IsLinked b a
      × (a.verification_code ≡ b.verification_code)
      × (a.session_id ≡ m.session_id)
unfolding new_channel verification_code_from_seed same_role
channels_linked m h =
    let (code, e) = verification_code_total m.verification_seed h in
    let out = m.creator_to_joiner_key in
    let into = m.joiner_to_creator_key in
    (
      fresh_channel m code creator creator_to_joiner joiner_to_creator out into,
      fresh_channel m code joiner joiner_to_creator creator_to_joiner into out,
      rw e refl,
      rw e refl,
      record {
        live = refl;
        sound = refl;
        sends_first = refl;
        receives_first = refl;
        unsent = refl;
        unreceived = refl;
      },
      record {
        live = refl;
        sound = refl;
        sends_first = refl;
        receives_first = refl;
        unsent = refl;
        unreceived = refl;
      },
      record { session = refl; direction = refl; key = refl; counters = refl },
      record { session = refl; direction = refl; key = refl; counters = refl },
      refl,
      refl,
    )

-- When the X25519 exchange of the two keys has a result, two participants that know the same phrase
-- material, server id and pair id make hellos and proofs, both finalise to one material and lose
-- their private keys, and the channels made of it are linked both ways and show the same code.
pub handshake_agreement :
    (c : Primitives) (laws : Laws c) (s : Setting) (shared : Bytes)
    → IsSetting s
    → c.exchange s.creator_key (c.public_bytes s.joiner_key) ≡ some shared
    → Agreed c s
handshake_agreement c laws s shared i x =
    let k = s.phrase.authentication_key in
    let (t, ta, tb) = transcript_total c laws s i in
    let (pa, ea, na) = proof_total c laws k creator t i.length-authentication_key in
    let (pb, eb, nb) = proof_total c laws k joiner t i.length-authentication_key in
    let (m, em, ns, nv) =
      material_total c laws shared t (laws.length-exchange s.creator_key _ shared x) in
    let (a, b, ca, cb, na', nb', ab, ba, v, id) = channels_linked m nv in
    record {
      creator_side = creator_of c s;
      joiner_side = joiner_of c s;
      creator_proof = pa;
      joiner_proof = pb;
      material = m;
      creator_channel = a;
      joiner_channel = b;
      creator_is_made =
          new_participant-ok c laws creator s.creator_key s.creator_nonce i.length-creator_nonce;
      joiner_is_made =
          new_participant-ok c laws joiner s.joiner_key s.joiner_nonce i.length-joiner_nonce;
      creator_proves =
          create_proof-ok c laws (creator_of c s) s.phrase s.server_id s.pair_id s.creator_key t pa
            (joiner_of c s).hello refl ta ea;
      joiner_proves =
          create_proof-ok c laws (joiner_of c s) s.phrase s.server_id s.pair_id s.joiner_key t pb
            (creator_of c s).hello refl tb eb;
      creator_finalises =
          finalise-ok c laws creator s.phrase s.server_id s.pair_id s.creator_key s.creator_nonce t
            pb shared (joiner_of c s).hello m ta (verify-create c laws k joiner t pb eb nb) x em;
      joiner_finalises =
          finalise-ok c laws joiner s.phrase s.server_id s.pair_id s.joiner_key s.joiner_nonce t pa
            shared (creator_of c s).hello m tb (verify-create c laws k creator t pa ea na)
            (laws.exchange_comm s.joiner_key s.creator_key ∙ x) em;
      creator_opens = ca;
      joiner_opens = cb;
      creator_is_fresh = na';
      joiner_is_fresh = nb';
      outward = ab;
      inward = ba;
      codes_agree = v;
      length-session_id = ap length id ∙ ns;
    }
