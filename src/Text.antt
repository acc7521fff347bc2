-- ===== src/Text.antt =====
-- Python `str` as a list of code points, and what the program uses of it: ASCII tests, case and the
-- codecs (UTF-8 in Utf8).
pub mod Utf8
use Prim.Native.Char.{code}
use Prim.Native.String.{String}
use the_grid.Prelude.{
  ℕ, ◌+◌, ◌-◌, ◌≤◌, ◌<◌, Bool, ◌&&◌, List, [], ◌∷◌, map, all, ltb, leb, if◌then◌else◌, Option, none,
  some,
}
use the_grid.Bytes.{Bytes}

abbrev pub Text : Type 0
Text = List ℕ

-- The code points of a literal; its bytes too, if it is ASCII.
abbrev pub codes : String → List ℕ
codes String.[] = []
codes (String.◌∷◌ c s) = code c ∷ codes s

-- `value.isascii()`
unfoldable pub is_ascii : Text → Bool
unfolding all
is_ascii = all (λ c. ltb c 0x80)

is_lower : ℕ → Bool
is_lower c = leb b'a' c && leb c b'z'

is_upper : ℕ → Bool
is_upper c = leb b'A' c && leb c b'Z'

-- `upper` and `lower` on ASCII.
unfoldable pub to_upper : ℕ → ℕ
unfolding is_lower
to_upper c = if is_lower c then c - 32 else c

unfoldable pub to_lower : ℕ → ℕ
unfolding is_upper
to_lower c = if is_upper c then c + 32 else c

unfoldable pub upper : Text → Text
unfolding to_upper
upper = map to_upper

unfoldable pub lower : Text → Text
unfolding to_lower
lower = map to_lower

-- `data.decode("ascii", errors="strict")`
unfoldable pub decode_ascii : Bytes → Option Text
unfolding is_ascii
decode_ascii data' = if is_ascii data' then some data' else none
