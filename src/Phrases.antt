-- ===== src/Phrases.antt =====
-- phrases.py: the normal form of a phrase of four words, and the generator on an approved list. The
-- packaged word list is data, so the words are a parameter.
use mathlib.Core.List.{reverse}
use the_grid.Prelude.{
  ℕ, Bool, true, false, not, ◌&&◌, ◌||◌, Option, none, some, List, [], ◌∷◌, ◌++◌, length, all, any,
  contains, all_distinct, leb, ◌==◌, ℕ_eq, list_eq, if◌then◌else◌,
}
use the_grid.Prelude.Result.{
  Result, ok, err, phrase_error, malformed, generator, word_list_error, missing, checksum, encoding,
  content, raise_if, ◌>>=◌, ◌>>◌,
}
use the_grid.Bytes.{Bytes}
use the_grid.Text.Utf8.{utf8_decode}
use the_grid.Text.{Text, codes, is_ascii, lower}

abbrev pub approved_wordlist_sha256 : Text
approved_wordlist_sha256 = codes "99b2c78777db24127047b1535e13da44b7c89f24d387a1041ef09627c7ca0bc5"

-- `_ASCII_WHITESPACE`
unfoldable pub is_space : ℕ → Bool
is_space x = contains x (32 ∷ 9 ∷ 13 ∷ 10 ∷ 12 ∷ 11 ∷ [])

unfoldable pub is_letter : ℕ → Bool
is_letter x = leb b'a' x && leb x b'z'

unfoldable pub is_separator : ℕ → Bool
unfolding is_space
is_separator x = is_space x || x == b'-'

-- A character of `_ALLOWED_RECEIVED_PATTERN`.
unfoldable pub is_allowed : ℕ → Bool
unfolding is_separator is_letter
is_allowed x = is_letter x || (leb b'A' x && leb x b'Z') || is_separator x

unfoldable pub drop_spaces : Text → Text
unfolding is_space
drop_spaces [] = []
drop_spaces (x ∷ xs) = let rest = drop_spaces xs in if is_space x then rest else x ∷ xs

-- `value.strip(_ASCII_WHITESPACE)`
unfoldable pub strip : Text → Text
unfolding drop_spaces
strip value = reverse (drop_spaces (reverse (drop_spaces value)))

unfoldable pub starts_with_dash : Text → Bool
starts_with_dash [] = false
starts_with_dash (x ∷ xs) = x == b'-'

-- `_SEPARATOR_PATTERN.sub(" ", value)`; the flag says whether a separator stands in front.
unfoldable pub collapse : Bool → Text → Text
unfolding is_separator
collapse seen [] = []
collapse seen (x ∷ xs) =
    let rest = collapse (is_separator x) xs in
    if not (is_separator x) then x ∷ rest else if seen then rest else 32 ∷ rest

push : ℕ → List Text → List Text
push x [] = (x ∷ []) ∷ []
push x (word ∷ words) = (x ∷ word) ∷ words

-- `value.split(" ")`
unfoldable pub split : Text → List Text
unfolding push
split [] = [] ∷ []
split (x ∷ xs) = let rest = split xs in if x == 32 then [] ∷ rest else push x rest

-- `" ".join(words)`
unfoldable pub join : List Text → Text
join [] = []
join (word ∷ []) = word
join (word ∷ next ∷ words) = word ++ 32 ∷ join (next ∷ words)

unfoldable pub is_blank : Text → Bool
is_blank [] = true
is_blank (x ∷ xs) = false

-- `_WORD_PATTERN.fullmatch(word)`
unfoldable pub is_word : Text → Bool
unfolding is_blank is_letter all
is_word word = not (is_blank word) && all is_letter word

unfoldable pub check_parts : List Text → Result (List Text)
unfolding is_word any
check_parts parts = do
  raise_if (not (length parts == 4)) (phrase_error malformed)
  raise_if (not (all_distinct parts)) (phrase_error malformed)
  raise_if (any (λ word. not (is_word word)) parts) (phrase_error malformed)
  ok parts

unfoldable pub normalise_phrase_words : Text → Result (List Text)
unfolding strip starts_with_dash is_allowed collapse split check_parts is_blank all
normalise_phrase_words value = do
  raise_if (not (is_ascii value)) (phrase_error malformed)
  let stripped = strip value
  raise_if (is_blank stripped || starts_with_dash stripped || starts_with_dash (reverse stripped))
      (phrase_error malformed)
  raise_if (not (all is_allowed stripped)) (phrase_error malformed)
  check_parts (split (collapse false (lower stripped)))

unfoldable pub normalise_phrase : Text → Result Text
unfolding normalise_phrase_words join
normalise_phrase value = do words ← normalise_phrase_words value; ok (join words)

-- `generate_phrase` on the approved words and what the sampler has returned; `none` is a sampler
-- that raised.
unfoldable pub generate_phrase : List Text → Option (List Text) → Result Text
unfolding join any
generate_phrase words none = err (phrase_error generator)
generate_phrase words (some selected) = do
  raise_if (not (length selected == 4)) (phrase_error generator)
  raise_if (not (all_distinct selected)) (phrase_error generator)
  raise_if (any (λ word. not (contains word words)) selected) (phrase_error generator)
  ok (join selected)

-- What ends a line for `str.splitlines`.
is_line_end : ℕ → Bool
is_line_end x = contains x (10 ∷ 11 ∷ 12 ∷ 13 ∷ 0x1c ∷ 0x1d ∷ 0x1e ∷ 0x85 ∷ 0x2028 ∷ 0x2029 ∷ [])

-- `value.splitlines()`; `line` is the line so far, reversed, and the flag says that a carriage
-- return has just ended a line.
lines_from : Bool → Text → Text → List Text
unfolding is_line_end
lines_from after_return line [] = if is_blank line then [] else reverse line ∷ []
lines_from after_return line (x ∷ xs) =
    let skipped = lines_from false line xs in
    let ended = lines_from (x == 13) [] xs in
    let grown = lines_from false (x ∷ line) xs in
    if after_return && x == 10
    then skipped
    else if is_line_end x
    then reverse line ∷ ended
    else grown

unfoldable pub split_lines : Text → List Text
unfolding lines_from
split_lines value = lines_from false [] value

-- `_validate_approved_wordlist`; `hexdigest` is hashlib.sha256(data).hexdigest().
unfoldable pub validate_approved_wordlist : (Bytes → Text) → Bytes → Result (List Text)
unfolding split_lines is_word any
validate_approved_wordlist hexdigest data' = do
  raise_if (not (hexdigest data' == approved_wordlist_sha256)) (word_list_error checksum)
  value ← decoded (utf8_decode data')
  let words = split_lines value
  raise_if (not (length words == 2048)) (word_list_error content)
  raise_if (not (all_distinct words)) (word_list_error content)
  raise_if (any (λ word. not (is_word word)) words) (word_list_error content)
  ok words
  where
    decoded : Option Text → Result Text
    decoded none = err (word_list_error encoding)
    decoded (some value) = ok value

-- `load_approved_words` on what the package resource holds; `none` is a resource that is missing.
unfoldable pub load_approved_words : (Bytes → Text) → Option Bytes → Result (List Text)
unfolding validate_approved_wordlist
load_approved_words hexdigest none = err (word_list_error missing)
load_approved_words hexdigest (some data') = validate_approved_wordlist hexdigest data'
