-- ===== src/Terminal.antt =====
-- The text that terminal.py lets into the terminal, and how it writes a duration.
use the_grid.Prelude.{
  ℕ, ◌/◌, ◌%◌, ◌≡◌, refl, Bool, true, false, not, ◌&&◌, ◌||◌, [], ◌∷◌, ◌++◌, all, any, ltb, leb,
  ◌==◌, ℕ_eq, if◌then◌else◌, arith, ap, sym, ◌∙◌,
}
use the_grid.Prelude.Result.{Result, ok, terminal_text_error, raise_if, raise_if-eq-ok, ◌>>◌}
use the_grid.Text.{Text, codes}
use the_grid.Protocol.Json.{decimal, hex_digit}

-- `str.replace` of a carriage return with its line feed.
unfoldable replace_line_ends : Text → Text
replace_line_ends [] = []
replace_line_ends (c ∷ []) = c ∷ []
replace_line_ends (c ∷ d ∷ text) = elim (c == 13 && d == 10) [
  | true ↦ 10 ∷ replace_line_ends text
  | false ↦ c ∷ replace_line_ends (d ∷ text)
]

unfoldable each : (ℕ → Text) → Text → Text
each f [] = []
each f (c ∷ text) = f c ++ each f text

-- `str.replace` of one character.
unfoldable replace : ℕ → Text → Text → Text
unfolding each
replace old new = each (λ c. if c == old then new else c ∷ [])

unfoldable spaced : Text → Text
unfolding replace replace_line_ends
spaced value = replace 9 (codes "    ") (replace 13 (codes "\n") (replace_line_ends value))

-- The character as it is shown: a control character becomes its hexadecimal code.
unfoldable shown : ℕ → Text
unfolding hex_digit
shown c =
    if c == 10
    then c ∷ []
    else if c == 27
    then codes "\\x1b"
    else if ltb c 0x20 || c == 0x7F
    then b'\\' ∷ b'x' ∷ hex_digit (c / 16) ∷ hex_digit (c % 16) ∷ []
    else c ∷ []

unfoldable sanitise_user_text : Text → Result Text
unfolding spaced each shown
sanitise_user_text value = do
  let text = spaced value
  raise_if (any (λ c. c == 0) text) terminal_text_error
  ok (each shown text)

-- A negative number of seconds counts as 0, and so is none here.
unfoldable format_duration : ℕ → Text
unfolding decimal
format_duration seconds =
    let hours = seconds / 3600 in
    let minutes = seconds % 3600 / 60 in
    if not (hours == 0)
    then decimal hours ++ codes "h " ++ decimal minutes ++ codes "m"
    else if not (minutes == 0)
    then decimal minutes ++ codes "m"
    else if seconds % 60 == 0
    then codes "available"
    else codes "less than 1m"

-- A line feed, or a character from U+0020 on but U+007F.
unfoldable is_safe : ℕ → Bool
is_safe c = c == 10 || leb 0x20 c && not (c == 0x7F)

all-++ : (p : ℕ → Bool) (s t : Text) → all p s ≡ true → all p t ≡ true → all p (s ++ t) ≡ true
unfolding all
all-++ p [] t h k = k
all-++ p (c ∷ s) t h k = ground (arith, h, k, all-++ p s t)

shown-safe : (c : ℕ) → all is_safe (shown c) ≡ true
unfolding shown hex_digit all is_safe
shown-safe c = ground arith

each-safe : (text : Text) → all is_safe (each shown text) ≡ true
unfolding each all
each-safe [] = refl
each-safe (c ∷ text) = all-++ is_safe (shown c) (each shown text) (shown-safe c) (each-safe text)

-- A function that leaves each safe character leaves a safe text.
each-leaves :
    (f : ℕ → Text)
    → ((c : ℕ) → is_safe c ≡ true → f c ≡ c ∷ [])
    → (text : Text) → all is_safe text ≡ true
    → each f text ≡ text
unfolding each all
each-leaves f h [] safe = refl
each-leaves f h (c ∷ text) safe =
    let kept : f c ≡ c ∷ [] = h c (ground (arith, safe)) in
    let rest : each f text ≡ text = each-leaves f h text (ground (arith, safe)) in
    rw (kept, rest) refl

line_ends-leaves : (text : Text) → all is_safe text ≡ true → replace_line_ends text ≡ text
unfolding replace_line_ends all is_safe
line_ends-leaves [] safe = refl
line_ends-leaves (c ∷ []) safe = refl
line_ends-leaves (c ∷ d ∷ text) safe =
    let plain : (c == 13 && d == 10) ≡ false = ground (arith, safe) in
    let rest : replace_line_ends (d ∷ text) ≡ d ∷ text =
      line_ends-leaves (d ∷ text) (ground (arith, safe)) in
    rw (replace_line_ends, plain) (ap (λ t. c ∷ t) rest)

spaced-leaves : (text : Text) → all is_safe text ≡ true → spaced text ≡ text
unfolding spaced replace is_safe
spaced-leaves text safe = rw (line_ends-leaves text safe) (
    rw
      (each-leaves (λ c. if c == 13 then codes "\n" else c ∷ []) (λ c h. ground (arith, h)) text
        safe)
      (each-leaves (λ c. if c == 9 then codes "    " else c ∷ []) (λ c h. ground (arith, h)) text
        safe))

shown-leaves : (c : ℕ) → is_safe c ≡ true → shown c ≡ c ∷ []
unfolding shown is_safe
shown-leaves c safe = ground (arith, safe)

no_nul : (text : Text) → all is_safe text ≡ true → any (λ c. c == 0) text ≡ false
unfolding all any is_safe
no_nul [] safe = refl
no_nul (c ∷ text) safe = ground (arith, safe, no_nul text)

sanitised-stays : (text : Text) → all is_safe text ≡ true → sanitise_user_text text ≡ ok text
unfolding sanitise_user_text
sanitised-stays text safe =
    rw (spaced-leaves text safe)
      (rw (no_nul text safe) (ap ok (each-leaves shown shown-leaves text safe)))

-- Text that has been sanitised has no character below U+0020 but line feeds, has no U+007F, and is
-- returned as it is by another call.
sanitise_user_text_idem :
    (value safe : Text)
    → sanitise_user_text value ≡ ok safe
    → (all is_safe safe ≡ true) × (sanitise_user_text safe ≡ ok safe)
unfolding sanitise_user_text
sanitise_user_text_idem value safe h =
    let text = spaced value in
    let (_, made) =
      raise_if-eq-ok (any (λ c. c == 0) text) terminal_text_error (ok (each shown text)) h in
    let same : each shown text ≡ safe = cc in
    let good : all is_safe safe ≡ true = ap (all is_safe) (sym same) ∙ each-safe text in
    (good, sanitised-stays safe good)
