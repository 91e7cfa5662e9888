-- ===== src/Base/Text.antt =====
-- Texts whose characters are counted, cut or classified: lists of UTF-16 code units, with the
-- operations of JavaScript's strings that the program uses.
use Prim.Native.Nat.{ℕ, zero, suc, ◌+◌, ◌-◌, ◌≤◌}
use mathlib.Core.Path.{◌≡◌, refl, ap}
use mathlib.Core.Bool.{Bool, true, ◌&&◌, ◌||◌}
use mathlib.Core.List.{List, [], ◌∷◌}
use native.Mathlib.Omega.{arith}
use native.Mathlib.Nat.{zero-add, suc-add}
use shared_dev_context_layer.Base.Tests.{leb, nat_eq, if◌then◌else◌}
use shared_dev_context_layer.Base.Lists.{length, take, drop}

abbrev pub Text : Type 0
Text = List ℕ

-- WhiteSpace and LineTerminator of ECMAScript: what `trim` and `\s` match.
unfoldable pub is_space : ℕ → Bool
is_space c =
    (leb 9 c && leb c 13)
    || nat_eq c 32
    || nat_eq c 160
    || nat_eq c 5760
    || (leb 8192 c && leb c 8202)
    || nat_eq c 8232
    || nat_eq c 8233
    || nat_eq c 8239
    || nat_eq c 8287
    || nat_eq c 12288
    || nat_eq c 65279

-- `text.trim()` is empty
unfoldable pub is_blank : Text → Bool
unfolding is_space
is_blank [] = true
is_blank (c ∷ t) = is_space c && is_blank t

unfoldable pub trim_start : Text → Text
unfolding is_space
trim_start [] = []
trim_start (c ∷ t) = let rest = trim_start t in if is_space c then rest else c ∷ t

-- Drops a blank end: a character stays if it or something behind it is not white.
unfoldable pub trim_end : Text → Text
unfolding is_space is_blank
trim_end [] = []
trim_end (c ∷ t) = if is_space c && is_blank t then [] else c ∷ trim_end t

unfoldable pub trim : Text → Text
unfolding trim_start trim_end
trim t = trim_end (trim_start t)

-- `text.slice(start, end)` for start ≤ end
abbrev pub slice : Text → ℕ → ℕ → Text
slice t start end = take (end - start) (drop start t)

pub take_all : (n : ℕ) (t : Text) → length t ≤ n → take n t ≡ t
take_all zero [] h = refl
take_all zero (c ∷ t) h = absurd (omega arith)
take_all (suc n) [] h = refl
take_all (suc n) (c ∷ t) h = ap (λ u. c ∷ u) (take_all n t (omega arith))

pub take-take : (m n : ℕ) (t : Text) → m ≤ n → take m (take n t) ≡ take m t
take-take zero n t h = refl
take-take (suc m) zero t h = absurd (omega arith)
take-take (suc m) (suc n) [] h = refl
take-take (suc m) (suc n) (c ∷ t) h = ap (λ u. c ∷ u) (take-take m n t (omega arith))

pub drop-drop : (m n : ℕ) (t : Text) → drop n (drop m t) ≡ drop (m + n) t
drop-drop zero n t = rw zero-add
drop-drop (suc m) n (c ∷ t) = rw suc-add (drop-drop m n t)
drop-drop (suc m) zero [] = rw suc-add
drop-drop (suc m) (suc n) [] = rw suc-add
