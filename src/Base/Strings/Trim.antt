-- ===== src/Base/Strings/Trim.antt =====
-- Texts that trimming leaves as they are.
use Prim.Native.Char.{Char, code}
use Prim.Native.String
use mathlib.Core.Path.{◌≡◌, refl, ap}
use mathlib.Core.Bool.{false, ◌&&◌}
use native.Mathlib.Omega.{arith}
use shared_dev_context_layer.Base.Tests.{if◌then◌else◌}
use shared_dev_context_layer.Base.Text.{is_space}
use shared_dev_context_layer.Base.Strings.{is_blank_str, trim_left, trim_right, trim_str, snoc}

is_blank_str-ends :
    (s : String.String) (d : Char) → is_space (code d) ≡ false → is_blank_str (snoc s d) ≡ false
unfolding is_blank_str
is_blank_str-ends String.[] d h = rw h refl
is_blank_str-ends (String.◌∷◌ c s) d h = ground (arith, is_blank_str-ends s d h)

kept_head :
    (c : Char) (t : String.String)
    → (if is_space (code c) && false then String.[] else String.◌∷◌ c t) ≡ String.◌∷◌ c t
kept_head c t = ground arith

trim_right-ends :
    (s : String.String) (d : Char) → is_space (code d) ≡ false → trim_right (snoc s d) ≡ snoc s d
unfolding trim_right
trim_right-ends String.[] d h = rw h refl
trim_right-ends (String.◌∷◌ c s) d h =
    rw (is_blank_str-ends s d h, trim_right-ends s d h) (kept_head c (snoc s d))

-- Nothing is trimmed off a text that starts and ends with other than white space.
pub trim_str-ends :
    (c : Char) (s : String.String) (d : Char)
    → is_space (code c) ≡ false
    → is_space (code d) ≡ false
    → let t = String.◌∷◌ c (snoc s d) in trim_str t ≡ t
unfolding trim_str trim_left trim_right
trim_str-ends c s d h k =
    rw (h, trim_left, is_space, snoc)
      (rw (h, trim_right) (ap (λ t. String.◌∷◌ c t) (trim_right-ends s d k)))

-- No white space at all.
abbrev pub Solid : String.String → Type 0
Solid String.[] = Unit
Solid (String.◌∷◌ c s) = (is_space (code c) ≡ false) × Solid s

trim_right-Solid : (s : String.String) → Solid s → trim_right s ≡ s
unfolding trim_right
trim_right-Solid String.[] h = refl
trim_right-Solid (String.◌∷◌ c s) (k, h) =
    rw (k, trim_right) (ap (λ t. String.◌∷◌ c t) (trim_right-Solid s h))

pub trim_str-Solid : (s : String.String) → Solid s → trim_str s ≡ s
unfolding trim_str trim_left
trim_str-Solid String.[] h = trim_right-Solid String.[] h
trim_str-Solid (String.◌∷◌ c s) (k, h) =
    rw (k, trim_left) (trim_right-Solid (String.◌∷◌ c s) (k, h))
