-- ===== src/Protocol/Frames.antt =====
-- Outer frames of protocol.py: JSON objects in memory, their construction and the checked access to
-- their fields. The text of the JSON is left to Python's json.
pub mod Access
use the_grid.Prelude.{
  ℕ, ◌-◌, ◌*◌, ◌^◌, ◌≡◌, refl, Bool, true, false, not, ◌&&◌, ◌||◌, Option, none, some, List, [],
  ◌∷◌, ◌++◌, length, any, all, contains, ltb, leb, ◌==◌, ℕ_eq, list_eq,
}
use the_grid.Prelude.Dict.{lookup, insert}
use the_grid.Prelude.Result.{
  Result, ok, err, frame_error, invalid, value_error, raise_if, reraise, ◌>>=◌, ◌>>◌,
}
use the_grid.Bytes.{Bytes}
use the_grid.Text.{Text, codes, is_ascii}
use the_grid.Protocol.Base64.{b64url_decode, in_alphabet}

-- A JSON value. `real` is a float that is not negative, in thousandths.
mutual
  pub data Value : Type 0 where
    null : Value
    boolean : Bool → Value
    number : ℕ → Value
    negative : ℕ → Value
    real : ℕ → Value
    string : Text → Value
    array : Items → Value
    object : Members → Value

  pub data Items : Type 0 where
    end : Items
    item : Value → Items → Items

  pub data Members : Type 0 where
    last : Members
    member : Text → Value → Members → Members

-- A frame is a dict from names to values.
abbrev pub Frame : Type 0
Frame = List (Text × Value)

abbrev pub protocol_version : ℕ
protocol_version = 1

abbrev pub max_outer_frame_bytes : ℕ
max_outer_frame_bytes = 16 * 1024

is_type_char : ℕ → Bool
is_type_char c = leb b'a' c && leb c b'z' || leb b'0' c && leb c b'9' || c == b'_'

is_version : Option Value → Bool
is_version (some (number n)) = leb n 65535
is_version _ = false

is_frame_type : Option Value → Bool
unfolding is_type_char is_ascii all
is_frame_type (some (string t)) =
    not (t == []) && leb (length t) 64 && is_ascii t && all is_type_char t
is_frame_type _ = false

-- `_validate_outer_basics`
unfoldable pub validate_outer_basics : Frame → Result (Unit {0})
unfolding is_version is_frame_type lookup
validate_outer_basics frame = do
  raise_if (not (is_version (lookup (codes "v") frame))) (frame_error invalid)
  raise_if (not (is_frame_type (lookup (codes "type") frame))) (frame_error invalid)
  ok tt

-- `value.update(fields)`
unfoldable pub update : Frame → Frame → Frame
unfolding insert
update value [] = value
update value ((k, v) ∷ fields) = update (insert k v value) fields

unfoldable pub make_frame : Text → Frame → Result Frame
unfolding update validate_outer_basics
make_frame frame_type fields = do
  let value =
      update ((codes "v", number protocol_version) ∷ (codes "type", string frame_type) ∷ []) fields
  validate_outer_basics value
  ok value

-- `_validate_frame_limit`
unfoldable pub validate_frame_limit : ℕ → Result ℕ
validate_frame_limit value = do
  raise_if (ltb value 128 || ltb max_outer_frame_bytes value) value_error
  ok value

-- `_strict_frame_object`: the pairs of a JSON object, no name twice.
strict_members : List (Text × Value) → Frame → Result Frame
unfolding lookup insert
strict_members [] result = ok result
strict_members ((key, value) ∷ pairs) result = elim (lookup key result) [
  | some v ↦ err (frame_error invalid)
  | none ↦ strict_members pairs (insert key value result)
]

unfoldable pub strict_frame_object : List (Text × Value) → Result Frame
unfolding strict_members
strict_frame_object pairs = strict_members pairs []

is_control : ℕ → Bool
is_control c = c == 0 || c == b'\r' || c == b'\n'

checked_string : Option Value → ℕ → Bool → Result Text
unfolding is_control any is_ascii
checked_string (some (string value)) max_chars ascii_only = do
  raise_if (value == [] || ltb max_chars (length value)) (frame_error invalid)
  raise_if (any is_control value) (frame_error invalid)
  raise_if (ascii_only && not (is_ascii value)) (frame_error invalid)
  ok value
checked_string _ max_chars ascii_only = err (frame_error invalid)

unfoldable pub require_frame_string : Frame → Text → ℕ → Bool → Result Text
unfolding checked_string lookup
require_frame_string frame name max_chars ascii_only =
    checked_string (lookup name frame) max_chars ascii_only

unfoldable pub require_request_id : Frame → Result Text
unfolding require_frame_string in_alphabet any
require_request_id frame = do
  value ← require_frame_string frame (codes "request_id") 64 true
  raise_if (any (λ c. not (in_alphabet c)) value) (frame_error invalid)
  ok value

unfoldable pub checked_int : Option Value → ℕ → ℕ → Result ℕ
checked_int (some (number value)) minimum maximum = do
  raise_if (ltb value minimum || ltb maximum value) (frame_error invalid)
  ok value
checked_int _ minimum maximum = err (frame_error invalid)

abbrev pub default_maximum : ℕ
default_maximum = 2 ^ 63 - 1

-- No caller passes a negative minimum.
unfoldable pub require_frame_int : Frame → Text → ℕ → ℕ → Result ℕ
unfolding checked_int lookup
require_frame_int frame name minimum maximum = checked_int (lookup name frame) minimum maximum

checked_bool : Option Value → Result Bool
checked_bool (some (boolean value)) = ok value
checked_bool _ = err (frame_error invalid)

unfoldable pub require_frame_bool : Frame → Text → Result Bool
unfolding checked_bool lookup
require_frame_bool frame name = checked_bool (lookup name frame)

unfoldable pub check_max_length : Option ℕ → Bytes → Result Bytes
check_max_length none decoded = ok decoded
check_max_length (some max_length) decoded = do
  raise_if (ltb max_length (length decoded)) (frame_error invalid)
  ok decoded

unfoldable pub checked_bytes : Option Value → Option ℕ → Option ℕ → Result Bytes
unfolding reraise b64url_decode check_max_length
checked_bytes (some (string value)) expected_length max_length = do
  decoded ← reraise (b64url_decode value expected_length) (frame_error invalid)
  check_max_length max_length decoded
checked_bytes _ expected_length max_length = err (frame_error invalid)

unfoldable pub require_frame_bytes : Frame → Text → Option ℕ → Option ℕ → Result Bytes
unfolding checked_bytes lookup
require_frame_bytes frame name expected_length max_length =
    checked_bytes (lookup name frame) expected_length max_length
