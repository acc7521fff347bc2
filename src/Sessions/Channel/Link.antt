-- ===== src/Sessions/Channel/Link.antt =====
-- Two channels of one session: what one seals the other opens, and what is sent is delivered.
use the_grid.Prelude.{
  ℕ, ◌+◌, ◌^◌, ◌≤◌, ◌<◌, ◌≡◌, refl, sym, Bool, true, false, not, Option, none, some, List, [], ◌∷◌,
  length, ltb, leb, ◌==◌, ℕ_eq, list_eq, arith, if◌then◌else◌, beq_refl, le→not-ltb, lt→not-leb,
  list_beq_iff, ◌++◌,
}
use the_grid.Prelude.Result.{Result, ok, err, ◌>>=◌, ◌>>◌}
use the_grid.Bytes.{Bytes, to_bytes, length-to_bytes}
use the_grid.Crypto.{Primitives, Laws, constant_time_equal, require_bytes_of_length}
use the_grid.Protocol.Fields.{check_domain, max_crypto_field_bytes}
use the_grid.Protocol.Fields.Total.{encode_fields_total}
use the_grid.Text.{Text}
use the_grid.Sessions.Types.{
  SessionDirection, direction_code, direction_prefix, same_direction, protocol_version_bytes,
}
use the_grid.Sessions.Frames.{
  EncryptedSessionFrame, make_encrypted_session_frame, session_nonce, session_nonce-ok,
  session_associated_data, uint64_bytes-ok, session_data_aad_domain, require_uint,
}
use the_grid.Sessions.Channel.{
  Channel, sealed_body, encrypt_payload, decrypt_frame, opening, open_frame, accept_plaintext,
  is_usable,
}

-- `a` sends where `b` receives.
pub record IsLinked (a b : Channel) : Type 0 where
  pub session : b.session_id ≡ a.session_id
  pub direction : b.receive_direction ≡ a.send_direction
  pub key : b.receive_key ≡ a.send_key
  pub counters : b.receive_counter ≡ a.send_counter

direction_code-short : (d : SessionDirection) → length (direction_code d) ≤ max_crypto_field_bytes
unfolding direction_code
direction_code-short SessionDirection.creator_to_joiner = omega arith
direction_code-short SessionDirection.joiner_to_creator = omega arith

pub session_associated_data_total :
    (session_id : Bytes) (d : SessionDirection) (n : ℕ)
    → length session_id ≡ 16
    → n < 2 ^ 64
    → (aad : Bytes) × (session_associated_data session_id d n ≡ ok aad)
unfolding session_associated_data
session_associated_data_total session_id d n h small =
    let (aad, e) =
      encode_fields_total session_data_aad_domain
        (protocol_version_bytes ∷ session_id ∷ direction_code d ∷ to_bytes 8 n ∷ [])
        (unfold check_domain in refl)
        (omega (arith, h, direction_code-short d, length-to_bytes 8 n)) (omega arith) in
    (aad, rw (require_bytes_of_length session_id 16 h, uint64_bytes-ok n small) e)

same_direction_refl : (d : SessionDirection) → same_direction d d ≡ true
unfolding same_direction
same_direction_refl SessionDirection.creator_to_joiner = refl
same_direction_refl SessionDirection.joiner_to_creator = refl

make_frame_ok :
    (session_id : Bytes) (d : SessionDirection) (n : ℕ) (body : Bytes)
    → length session_id ≡ 16
    → n < 2 ^ 64
    → 16 ≤ length body
    → make_encrypted_session_frame session_id d n body
      ≡ ok (record { session_id = session_id; direction = d; counter = n; body = body })
unfolding make_encrypted_session_frame require_uint the_grid.Prelude.Result.reraise
make_frame_ok session_id d n body h small long = rw (
  require_bytes_of_length session_id 16 h,
  lt→not-leb (2 ^ 64) n small,
  le→not-ltb (length body) 16 long,
)

module _ (c : Primitives) where
  seal :
      (a : Channel) (payload nonce aad : Bytes)
      → length a.session_id ≡ 16
      → a.send_counter < 2 ^ 64
      → session_nonce a.send_direction a.send_counter ≡ ok nonce
      → session_associated_data a.session_id a.send_direction a.send_counter ≡ ok aad
      → 16 ≤ length (c.aead_encrypt a.send_key nonce payload aad)
      → encrypt_payload c a payload ≡ (
        record a { send_counter = a.send_counter + 1 },
        ok (record {
          session_id = a.session_id;
          direction = a.send_direction;
          counter = a.send_counter;
          body = c.aead_encrypt a.send_key nonce payload aad;
        }),
      )
  unfolding encrypt_payload sealed_body
  seal a payload nonce aad sixteen small n d long = ground (
    arith,
    n,
    d,
    make_frame_ok a.session_id a.send_direction a.send_counter
        (c.aead_encrypt a.send_key nonce payload aad) sixteen small long,
  )

  unseal :
      (b : Channel) (frame : EncryptedSessionFrame) (payload nonce aad : Bytes)
      → is_usable b ≡ true
      → frame.session_id ≡ b.session_id
      → frame.direction ≡ b.receive_direction
      → frame.counter ≡ b.receive_counter
      → session_nonce frame.direction frame.counter ≡ ok nonce
      → session_associated_data b.session_id frame.direction frame.counter ≡ ok aad
      → c.aead_decrypt b.receive_key nonce frame.body aad ≡ some payload
      → decrypt_frame c b frame ≡ accept_plaintext b payload
  unfolding decrypt_frame open_frame opening constant_time_equal
  unseal b frame payload nonce aad usable s d n hn ha hp = ground (
    arith,
    list_beq_iff frame.session_id b.session_id,
    same_direction_refl b.receive_direction,
    hn,
    ha,
    hp,
  )

module _ (c : Primitives) (laws : Laws c) where
  pub transfer :
      (a : Channel) (payload : Bytes)
      → length a.session_id ≡ 16
      → a.send_counter < 2 ^ 64
      → (frame : EncryptedSessionFrame) × (encrypt_payload c a payload
          ≡ (record a { send_counter = a.send_counter + 1 }, ok frame))
        × ((b : Channel)
            → IsLinked a b
            → is_usable b ≡ true
            → decrypt_frame c b frame ≡ accept_plaintext b payload)
  transfer a payload sixteen small =
      let (aad, ha) =
        session_associated_data_total a.session_id a.send_direction a.send_counter sixteen small in
      let nonce : Bytes = direction_prefix a.send_direction ++ to_bytes 8 a.send_counter in
      let hn = session_nonce-ok a.send_direction a.send_counter small in
      (
        _,
        seal c a payload nonce aad sixteen small hn ha
            (omega (arith, laws.length-aead_encrypt a.send_key nonce payload aad)),
        λ b l usable.
            unseal c b _ payload nonce aad usable (sym l.session) (sym l.direction) (sym l.counters)
              hn (cc (ha, l.session))
              (cc (laws.aead_decrypt-aead_encrypt a.send_key nonce payload aad, l.key)),
      )
