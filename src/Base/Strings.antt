-- ===== src/Base/Strings.antt =====
-- Operations of JavaScript's strings on native texts, for names, messages and tags.
pub mod Trim
use Prim.Native.Char.{Char, code}
use Prim.Native.String.{String}
use mathlib.Core.Bool.{Bool, true, false, ◌&&◌}
use mathlib.Core.List.{[], ◌∷◌}
use Prim.Native.Nat.{ℕ, ◌+◌, ◌-◌, ◌/◌, ◌%◌, Ordering}
use shared_dev_context_layer.Base.Tests.{leb, if◌then◌else◌, string_Eq}
use shared_dev_context_layer.Base.Text.{Text, is_space}

-- The code points of a text.
abbrev pub codes : String → Text
codes String.[] = []
codes (String.◌∷◌ c s) = code c ∷ codes s

abbrev pub is_empty : String → Bool
is_empty String.[] = true
is_empty (String.◌∷◌ c s) = false

-- All white space: `trim` leaves nothing.
unfoldable pub is_blank_str : String → Bool
unfolding is_space
is_blank_str String.[] = true
is_blank_str (String.◌∷◌ c s) = is_space (code c) && is_blank_str s

trim_left : String → String
unfolding is_space
trim_left String.[] = String.[]
trim_left (String.◌∷◌ c s) =
    let rest = trim_left s in if is_space (code c) then rest else String.◌∷◌ c s

trim_right : String → String
unfolding is_space is_blank_str
trim_right String.[] = String.[]
trim_right (String.◌∷◌ c s) =
    if is_space (code c) && is_blank_str s then String.[] else String.◌∷◌ c (trim_right s)

-- `text.trim()`
unfoldable pub trim_str : String → String
unfolding trim_left trim_right
trim_str s = trim_right (trim_left s)

-- A text with one more character.
abbrev pub snoc : String → Char → String
snoc String.[] d = String.◌∷◌ d String.[]
snoc (String.◌∷◌ c s) d = String.◌∷◌ c (snoc s d)

-- What depends on the language of the environment, as `toLowerCase` and `localeCompare` of the
-- platform give it.
pub record Locale : Type 0 where
  pub to_lower : String → String
  pub locale_compare : String → String → Ordering

-- `a.localeCompare(b) <= 0`, the test by which a sort places `a` before `b`.
abbrev pub locale_le : Locale → String → String → Bool
locale_le l a b = elim (l.locale_compare a b) [ Ordering.gt ↦ false | _ ↦ true ]

-- The UTF-16 code units of a character and of a text.
abbrev pub units_of : ℕ → Text → Text
units_of c t =
    if leb 65536 c then (55296 + (c - 65536) / 1024) ∷ (56320 + (c - 65536) % 1024) ∷ t else c ∷ t

unfoldable pub utf16 : String → Text
utf16 String.[] = []
utf16 (String.◌∷◌ c s) = units_of (code c) (utf16 s)
