-- ===== src/PostRun/Timeout.antt =====
-- The test `isTimeoutMessage` of vscode-extension/src/local/executionOutcomeClassifier.ts (the same
-- two expressions stand in postRunReconciler.ts): /\btime(?:d)?\s*out\b/i or /\btimeout\b/i.
-- A text is scanned by its code points: of the characters that the expressions tell apart, none
-- lies outside the first plane.
pub mod Subsumed
use shared_dev_context_layer.Base.{
  ℕ, ◌-◌, String, Bool, true, false, ◌&&◌, ◌||◌, not, Option, none, some, List, [], ◌∷◌, leb,
  nat_eq, if◌then◌else◌,
}
use shared_dev_context_layer.Base.Text.{Text, is_space}
use shared_dev_context_layer.Base.Strings.{codes}

-- \w
is_word : ℕ → Bool
is_word c =
    (leb 48 c && leb c 57) || (leb 65 c && leb c 90) || nat_eq c 95 || (leb 97 c && leb c 122)

-- `c` matches the lower case letter `l` under the flag i.
is_letter : ℕ → ℕ → Bool
is_letter l c = nat_eq c l || nat_eq c (l - 32)

-- A literal in lower case at the start of a text: what follows it.
after_letters : List ℕ → Text → Option Text
after_letters [] t = some t
after_letters (l ∷ ls) [] = none
after_letters (l ∷ ls) (c ∷ t) =
    let rest = after_letters ls t in if is_letter l c then rest else none

-- \b behind a word character
at_word_end : Text → Bool
at_word_end [] = true
at_word_end (c ∷ t) = not (is_word c)

ends_word : Option Text → Bool
ends_word none = false
ends_word (some t) = at_word_end t

abbrev out : List ℕ
out = b'o' ∷ b'u' ∷ b't' ∷ []

abbrev time : List ℕ
time = b't' ∷ b'i' ∷ b'm' ∷ b'e' ∷ []

-- \s*out\b; `out` does not start with white space, so the greedy match is the only one.
spaced_out : Text → Bool
spaced_out [] = false
spaced_out (c ∷ t) =
    let later = spaced_out t in if is_space c then later else ends_word (after_letters out (c ∷ t))

-- (?:d)?\s*out\b
timed_rest : Text → Bool
timed_rest [] = false
timed_rest (c ∷ t) = (is_letter b'd' c && spaced_out t) || spaced_out (c ∷ t)

timed : Option Text → Bool
timed none = false
timed (some t) = timed_rest t

-- time(?:d)?\s*out\b and timeout\b at the start of a text
pub time_out_here : Text → Bool
time_out_here t = timed (after_letters time t)

timeout_here : Text → Bool
timeout_here t = ends_word (after_letters (b't' ∷ b'i' ∷ b'm' ∷ b'e' ∷ b'o' ∷ b'u' ∷ b't' ∷ []) t)

-- The leftmost match after a word boundary; `inside` says that a word character stands before.
pub scan : (Text → Bool) → Bool → Text → Bool
scan here inside [] = false
scan here inside (c ∷ t) = (not inside && here (c ∷ t)) || scan here (is_word c) t

pub matches_timeout : Text → Bool
matches_timeout t = scan time_out_here false t || scan timeout_here false t

unfoldable pub is_timeout_message : Option String → Bool
is_timeout_message none = false
is_timeout_message (some s) = matches_timeout (codes s)
