-- ===== src/Sessions/Handshake/Transcript.antt =====
-- A transcript determines all that the two sides have agreed on.
use the_grid.Prelude.{◌≡◌, refl, sym, ap, ◌∙◌, arith, Option, none, some, List, [], ◌∷◌}
use the_grid.Prelude.Result.{ok, >>=-eq-ok}
use the_grid.Bytes.{Bytes, require_bytes, require_bytes-eq-ok}
use the_grid.Protocol.Fields.{encode_fields}
use the_grid.Protocol.Fields.RoundTrip.{encode_fields-injective}
use the_grid.Sessions.Types.{creator, joiner, role_code, protocol_version_bytes}
use the_grid.Sessions.Handshake.{
  HandshakeHello, by_role, transcript_of, build_handshake_transcript, session_transcript_domain,
}

-- The fields of a transcript.
fields : Bytes → Bytes → Bytes → HandshakeHello → HandshakeHello → List Bytes
fields server_id room_id pair_id c j =
    protocol_version_bytes
    ∷ server_id
    ∷ room_id
    ∷ pair_id
    ∷ role_code creator
    ∷ c.nonce
    ∷ c.public_key
    ∷ role_code joiner
    ∷ j.nonce
    ∷ j.public_key
    ∷ []

transcript_of_inv :
    (server_id room_id pair_id t : Bytes) (hellos : Option (HandshakeHello × HandshakeHello))
    → transcript_of server_id room_id pair_id hellos ≡ ok t
    → (c : HandshakeHello) × (j : HandshakeHello) × (hellos ≡ some (c, j))
      × (encode_fields session_transcript_domain (fields server_id room_id pair_id c j) ≡ ok t)
unfolding transcript_of fields
transcript_of_inv server_id room_id pair_id t none h = cc
transcript_of_inv server_id room_id pair_id t (some (c, j)) h =
    let (s, e₁, h₁) = >>=-eq-ok (require_bytes server_id (some 32)) _ h in
    let (r, e₂, h₂) = >>=-eq-ok (require_bytes room_id (some 16)) _ h₁ in
    let (p, e₃, h₃) = >>=-eq-ok (require_bytes pair_id (some 16)) _ h₂ in
    (
      c,
      j,
      refl,
      rw
          (
            (require_bytes-eq-ok server_id 32 s e₁).0,
            (require_bytes-eq-ok room_id 16 r e₂).0,
            (require_bytes-eq-ok pair_id 16 p e₃).0,
          )
          h₃,
    )

by_role-roles :
    (a b c j : HandshakeHello) → by_role a b ≡ some (c, j) → (c.role ≡ creator) × (j.role ≡ joiner)
unfolding by_role
by_role-roles a b c j h = (ground (arith, h), ground (arith, h))

fields-injective :
    (s s' r r' p p' : Bytes) (c c' j j' : HandshakeHello)
    → fields s r p c j ≡ fields s' r' p' c' j'
    → (s ≡ s')
      × (r ≡ r')
      × (p ≡ p')
      × (c.nonce ≡ c'.nonce)
      × (c.public_key ≡ c'.public_key)
      × (j.nonce ≡ j'.nonce)
      × (j.public_key ≡ j'.public_key)
unfolding fields
fields-injective s s' r r' p p' c c' j j' h =
    (cc (h), cc (h), cc (h), cc (h), cc (h), cc (h), cc (h))

-- Two transcripts are the same bytes only if they agree on the server id, the room, the pair and the
-- hello of the creator and of the joiner: role, nonce and public key.
pub build_handshake_transcript-injective :
    (server_id server_id' room_id room_id' pair_id pair_id' t : Bytes)
    (first first' second second' : HandshakeHello)
    → build_handshake_transcript server_id room_id pair_id first second ≡ ok t
    → build_handshake_transcript server_id' room_id' pair_id' first' second' ≡ ok t
    → (server_id ≡ server_id')
      × (room_id ≡ room_id')
      × (pair_id ≡ pair_id')
      × (by_role first second ≡ by_role first' second')
unfolding build_handshake_transcript
build_handshake_transcript-injective s s' r r' p p' t first first' second second' h h' =
    let (c, j, e, x) = transcript_of_inv s r p t (by_role first second) h in
    let (c', j', e', x') = transcript_of_inv s' r' p' t (by_role first' second') h' in
    let same = (encode_fields-injective _ _ _ _ t x x').1 in
    let (es, er, ep, cn, ck, jn, jk) = fields-injective s s' r r' p p' c c' j j' same in
    let (cr, jr) = by_role-roles first second c j e in
    let (cr', jr') = by_role-roles first' second' c' j' e' in
    (
      es,
      er,
      ep,
      e
          ∙ ap some (λ i. (
            record { role = (cr ∙ sym cr') i; nonce = cn i; public_key = ck i },
            record { role = (jr ∙ sym jr') i; nonce = jn i; public_key = jk i },
          ))
          ∙ sym e',
    )
