-- ===== src/Protocol/Json.antt =====
-- `json.dumps(value, ensure_ascii=False, sort_keys=True, separators=(",", ":"))` as protocol.py calls
-- it, and `encode_outer_frame`.
use the_grid.Prelude.{
  ℕ, zero, suc, ◌+◌, ◌/◌, ◌%◌, Bool, true, false, ◌&&◌, ◌||◌, none, some, List, [], ◌∷◌, ◌++◌,
  length, ltb, leb, ◌==◌, ℕ_eq, if◌then◌else◌,
}
use the_grid.Prelude.Result.{
  Result, ok, err, frame_error, invalid, too_large, raise_if, ◌>>=◌, ◌>>◌,
}
use the_grid.Bytes.{Bytes}
use the_grid.Text.{Text, codes}
use the_grid.Text.Utf8.{utf8_encode}
use the_grid.Protocol.Frames.{
  Value, null, boolean, number, negative, real, string, array, object, Items, end, item, Members,
  last, member, Frame, validate_frame_limit, validate_outer_basics,
}

-- The decimal digits of a number; as many steps as the number are enough.
digits : ℕ → ℕ → Text
digits zero n = (n % 10 + b'0') ∷ []
digits (suc fuel) n = elim (ltb n 10) [
  | true ↦ (n + b'0') ∷ []
  | false ↦ digits fuel (n / 10) ++ (n % 10 + b'0') ∷ []
]

unfoldable pub decimal : ℕ → Text
unfolding digits
decimal n = digits n n

-- The digits behind the point, without zeros at the end but for the first.
fraction : ℕ → Text
fraction t =
    if t % 10 == 0
    then (if t / 10 % 10 == 0
        then (t / 100 + b'0') ∷ []
        else (t / 100 + b'0') ∷ (t / 10 % 10 + b'0') ∷ [])
    else (t / 100 + b'0') ∷ (t / 10 % 10 + b'0') ∷ (t % 10 + b'0') ∷ []

unfoldable pub hex_digit : ℕ → ℕ
hex_digit n = if ltb n 10 then n + b'0' else n + 87

-- One character inside quotes.
escaped : ℕ → Text
unfolding hex_digit
escaped c =
    if c == b'"'
    then codes "\\\""
    else if c == b'\\'
    then codes "\\\\"
    else if leb 32 c
    then c ∷ []
    else if c == 10
    then codes "\\n"
    else if c == 13
    then codes "\\r"
    else if c == 9
    then codes "\\t"
    else if c == 8
    then codes "\\b"
    else if c == 12
    then codes "\\f"
    else codes "\\u00" ++ hex_digit (c / 16) ∷ hex_digit (c % 16) ∷ []

all_escaped : Text → Text
unfolding escaped
all_escaped [] = []
all_escaped (c ∷ text) = escaped c ++ all_escaped text

quoted : Text → Text
unfolding all_escaped
quoted text = b'"' ∷ all_escaped text ++ b'"' ∷ []

-- The order of Python's str.
before : Text → Text → Bool
before [] _ = true
before (c ∷ text) [] = false
before (c ∷ text) (d ∷ other) = ltb c d || c == d && before text other

-- Members that are written already, by their keys.
insert_sorted : Text → Text → List (Text × Text) → List (Text × Text)
unfolding before
insert_sorted key value [] = (key, value) ∷ []
insert_sorted key value ((k, v) ∷ rest) =
    let later = insert_sorted key value rest in
    if before key k then (key, value) ∷ (k, v) ∷ rest else (k, v) ∷ later

more_members : List (Text × Text) → Text
unfolding quoted
more_members [] = []
more_members ((k, v) ∷ rest) = b',' ∷ quoted k ++ b':' ∷ v ++ more_members rest

braces : List (Text × Text) → Text
unfolding more_members
braces [] = codes "{}"
braces ((k, v) ∷ rest) = b'{' ∷ quoted k ++ b':' ∷ v ++ more_members rest ++ b'}' ∷ []

unfoldable mutual
  unfolding decimal fraction quoted insert_sorted braces

  pub dumps : Value → Text
  dumps null = codes "null"
  dumps (boolean true) = codes "true"
  dumps (boolean false) = codes "false"
  dumps (number n) = decimal n
  dumps (negative n) = b'-' ∷ decimal n
  dumps (real t) = decimal (t / 1000) ++ b'.' ∷ fraction (t % 1000)
  dumps (string text) = quoted text
  dumps (array end) = codes "[]"
  dumps (array (item value items)) = b'[' ∷ dumps value ++ more_items items
  dumps (object members) = braces (sorted_members members)

  more_items : Items → Text
  more_items end = b']' ∷ []
  more_items (item value items) = b',' ∷ dumps value ++ more_items items

  sorted_members : Members → List (Text × Text)
  sorted_members last = []
  sorted_members (member key value members) =
      insert_sorted key (dumps value) (sorted_members members)

unfoldable pub as_members : Frame → Members
as_members [] = last
as_members ((key, value) ∷ frame) = member key value (as_members frame)

-- The text of a frame in UTF-8, and the LF behind it; a surrogate is UnicodeError.
unfoldable pub encoded_line : Frame → Result Bytes
unfolding dumps as_members utf8_encode
encoded_line frame = elim (utf8_encode (dumps (object (as_members frame)))) [
  | none ↦ err (frame_error invalid)
  | some bytes ↦ ok (bytes ++ 10 ∷ [])
]

unfoldable pub encode_outer_frame : Frame → ℕ → Result Bytes
unfolding validate_frame_limit validate_outer_basics encoded_line
encode_outer_frame frame max_bytes = do
  checked_limit ← validate_frame_limit max_bytes
  validate_outer_basics frame
  encoded ← encoded_line frame
  raise_if (ltb checked_limit (length encoded)) (frame_error too_large)
  ok encoded
