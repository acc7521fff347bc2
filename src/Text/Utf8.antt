-- ===== src/Text/Utf8.antt =====
-- `encode("utf-8", errors="strict")` and `decode("utf-8", errors="strict")`.

use the_grid.Prelude.{
  ℕ, zero, suc, ◌+◌, ◌-◌, ◌*◌, ◌/◌, ◌%◌, ◌≤◌, ◌<◌, ◌≡◌, refl, Bool, true, false, ◌&&◌, ◌||◌, Option,
  none, some, List, [], ◌∷◌, ◌++◌, ltb, leb, if◌then◌else◌, arith, Bool-cases, inl, inr, le→leb,
  lt→ltb, le→not-ltb, Option-cases,
}
use the_grid.Bytes.{Bytes}

-- What is no Unicode scalar value has no encoding: surrogates, and what lies above U+10FFFF.
unfoldable pub is_scalar : ℕ → Bool
is_scalar c = ltb c 0xd800 || leb 0xe000 c && ltb c 0x110000

-- The continuation byte that holds the six bits above `unit`.
tail_byte : ℕ → ℕ → ℕ
tail_byte c unit = 0x80 + c / unit % 64

encode_char : ℕ → Bytes
unfolding tail_byte
encode_char c =
    if ltb c 0x80
    then c ∷ []
    else if ltb c 0x800
    then (0xc0 + c / 64) ∷ tail_byte c 1 ∷ []
    else if ltb c 0x10000
    then (0xe0 + c / 4096) ∷ tail_byte c 64 ∷ tail_byte c 1 ∷ []
    else (0xf0 + c / 262144) ∷ tail_byte c 4096 ∷ tail_byte c 64 ∷ tail_byte c 1 ∷ []

unfoldable pub utf8_encode : List ℕ → Option Bytes
unfolding encode_char is_scalar
utf8_encode [] = some []
utf8_encode (c ∷ cs) = elim (is_scalar c) [
  | false ↦ none
  | true ↦ elim (utf8_encode cs) [ none ↦ none | some bs ↦ some (encode_char c ++ bs) ]
]

put : ℕ → Option (List ℕ) → Option (List ℕ)
put c none = none
put c (some cs) = some (c ∷ cs)

-- A code point is complete: it may not be overlong, a surrogate or too large.
finish : ℕ → ℕ → Option (List ℕ) → Option (List ℕ)
unfolding put
finish low c rest = if leb low c && is_scalar c then put c rest else none

-- The decoder expects `need` continuation bytes of a code point that is `acc` so far and must
-- reach `low`.
decode_from : ℕ → ℕ → ℕ → Bytes → Option (List ℕ)
unfolding finish
decode_from zero acc low [] = some []
decode_from (suc need) acc low [] = none
decode_from zero acc low (b ∷ bs) =
    let one = put b (decode_from 0 0 0 bs) in
    let two = decode_from 1 (b - 0xc0) 0x80 bs in
    let three = decode_from 2 (b - 0xe0) 0x800 bs in
    let four = decode_from 3 (b - 0xf0) 0x10000 bs in
    if ltb b 0x80
    then one
    else if ltb b 0xc0
    then none
    else if ltb b 0xe0
    then two
    else if ltb b 0xf0
    then three
    else if ltb b 0xf8
    then four
    else none
decode_from (suc need) acc low (b ∷ bs) =
    let more = decode_from need (acc * 64 + (b - 0x80)) low bs in
    let last = finish low (acc * 64 + (b - 0x80)) (decode_from 0 0 0 bs) in
    if leb 0x80 b && ltb b 0xc0 then (elim need [ zero ↦ last | suc n ↦ more ]) else none

unfoldable pub utf8_decode : Bytes → Option (List ℕ)
unfolding decode_from
utf8_decode = decode_from 0 0 0

-- One continuation byte, and the last one.
decode_tail :
    (need acc low t : ℕ) (bs : Bytes)
    → t < 64
    → decode_from (suc (suc need)) acc low ((0x80 + t) ∷ bs)
      ≡ decode_from (suc need) (acc * 64 + t) low bs
unfolding decode_from
decode_tail need acc low t bs h = let e : 0x80 + t - 0x80 ≡ t = omega arith in rw e (ground arith)

decode_last :
    (acc low t : ℕ) (bs : Bytes)
    → t < 64
    → decode_from 1 acc low ((0x80 + t) ∷ bs) ≡ finish low (acc * 64 + t) (decode_from 0 0 0 bs)
unfolding decode_from
decode_last acc low t bs h = let e : 0x80 + t - 0x80 ≡ t = omega arith in rw e (ground arith)

decode_two :
    (t : ℕ) (bs : Bytes) → t < 32 → decode_from 0 0 0 ((0xc0 + t) ∷ bs) ≡ decode_from 1 t 0x80 bs
unfolding decode_from
decode_two t bs h =
    let e : 0xc0 + t - 0xc0 ≡ t = omega arith in
    rw (
      e,
      le→not-ltb (0xc0 + t) 0x80 (omega arith),
      le→not-ltb (0xc0 + t) 0xc0 (omega arith),
      lt→ltb (0xc0 + t) 0xe0 (omega arith),
    )

decode_three :
    (t : ℕ) (bs : Bytes) → t < 16 → decode_from 0 0 0 ((0xe0 + t) ∷ bs) ≡ decode_from 2 t 0x800 bs
unfolding decode_from
decode_three t bs h =
    let e : 0xe0 + t - 0xe0 ≡ t = omega arith in
    rw (
      e,
      le→not-ltb (0xe0 + t) 0x80 (omega arith),
      le→not-ltb (0xe0 + t) 0xc0 (omega arith),
      le→not-ltb (0xe0 + t) 0xe0 (omega arith),
      lt→ltb (0xe0 + t) 0xf0 (omega arith),
    )

decode_four :
    (t : ℕ) (bs : Bytes) → t < 8 → decode_from 0 0 0 ((0xf0 + t) ∷ bs) ≡ decode_from 3 t 0x10000 bs
unfolding decode_from
decode_four t bs h =
    let e : 0xf0 + t - 0xf0 ≡ t = omega arith in
    rw (
      e,
      le→not-ltb (0xf0 + t) 0x80 (omega arith),
      le→not-ltb (0xf0 + t) 0xc0 (omega arith),
      le→not-ltb (0xf0 + t) 0xe0 (omega arith),
      le→not-ltb (0xf0 + t) 0xf0 (omega arith),
      lt→ltb (0xf0 + t) 0xf8 (omega arith),
    )

finish_whole :
    (low c d : ℕ) (rest : Option (List ℕ))
    → d ≡ c
    → low ≤ c
    → is_scalar c ≡ true
    → finish low d rest ≡ put c rest
unfolding finish
finish_whole low c d rest e h s = rw (e, s, le→leb low c h)

scalar_bound : (c : ℕ) → is_scalar c ≡ true → c < 0x110000
unfolding is_scalar
scalar_bound c h = ground arith

decode-encode_char :
    (c : ℕ) (bs : Bytes)
    → is_scalar c ≡ true
    → decode_from 0 0 0 (encode_char c ++ bs) ≡ put c (decode_from 0 0 0 bs)
unfolding encode_char
decode-encode_char c bs h = elim (Bool-cases (ltb c 0x80)) [
  | inl e ↦ rw e (unfold decode_from in ground arith)
  | inr e ↦ rw e (elim (Bool-cases (ltb c 0x800)) [
    | inl e₂ ↦
        rw
          (
            e₂,
            decode_two (c / 64) _ (ground arith),
            decode_last _ 0x80 (c / 1 % 64) bs (omega arith),
          )
          (finish_whole 0x80 c _ _ (omega arith) (ground arith) h)
    | inr e₂ ↦ rw e₂ (elim (Bool-cases (ltb c 0x10000)) [
      | inl e₃ ↦
          rw
            (
              e₃,
              decode_three (c / 4096) _ (ground arith),
              decode_tail 0 _ 0x800 (c / 64 % 64) _ (omega arith),
              decode_last _ 0x800 (c / 1 % 64) bs (omega arith),
            )
            (finish_whole 0x800 c _ _ (omega arith) (ground arith) h)
      | inr e₃ ↦
          rw
            (
              e₃,
              decode_four (c / 262144) _ (omega (arith, scalar_bound c h)),
              decode_tail 1 _ 0x10000 (c / 4096 % 64) _ (omega arith),
              decode_tail 0 _ 0x10000 (c / 64 % 64) _ (omega arith),
              decode_last _ 0x10000 (c / 1 % 64) bs (omega arith),
            )
            (finish_whole 0x10000 c _ _ (omega arith) (ground arith) h)
    ])
  ])
]

-- Decoding undoes encoding.
pub utf8_decode-utf8_encode :
    (text : List ℕ) (bs : Bytes) → utf8_encode text ≡ some bs → utf8_decode bs ≡ some text
unfolding utf8_encode utf8_decode
utf8_decode-utf8_encode [] bs h = unfold decode_from in ground arith
utf8_decode-utf8_encode (c ∷ cs) bs h = elim (Bool-cases (is_scalar c)) [
  | inr e ↦ absurd (ground (arith, e))
  | inl e ↦ elim (Option-cases (utf8_encode cs)) [
    | inl e₂ ↦ absurd (ground (arith, e, e₂))
    | inr (rest, e₂) ↦
        let whole : encode_char c ++ rest ≡ bs = ground (arith, e, e₂) in
        rw (← whole, decode-encode_char c rest e, utf8_decode-utf8_encode cs rest e₂)
          (unfold put in refl)
  ]
]
