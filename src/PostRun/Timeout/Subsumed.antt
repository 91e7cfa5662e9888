-- ===== src/PostRun/Timeout/Subsumed.antt =====
-- The second expression of the timeout test finds nothing that the first does not find.
use shared_dev_context_layer.Base.{
  ℕ, Bool, true, false, ◌&&◌, ◌||◌, Option, none, some, List, [], ◌∷◌, ◌++◌, ◌≡◌, refl, arith,
  Bool-cases, inl, inr,
}
use mathlib.Core.Bool.{false≢true}
use shared_dev_context_layer.Base.Text.{Text, is_space}
use shared_dev_context_layer.PostRun.Timeout.{
  is_letter, after_letters, ends_word, out, time, spaced_out, timed_rest, timed, time_out_here,
  timeout_here, is_word, scan, matches_timeout,
}

-- What follows two literals, one after the other.
abbrev then_letters : List ℕ → Option Text → Option Text
then_letters ms none = none
then_letters ms (some t) = after_letters ms t

after_letters-append :
    (ls ms : List ℕ) (t : Text) → after_letters (ls ++ ms) t ≡ then_letters ms (after_letters ls t)
unfolding after_letters
after_letters-append [] ms t = refl
after_letters-append (l ∷ ls) ms [] = refl
after_letters-append (l ∷ ls) ms (c ∷ t) = elim (Bool-cases (is_letter l c)) [
  | inl e ↦ rw e (after_letters-append ls ms t)
  | inr e ↦ rw e refl
]

letter_o : (c : ℕ) → is_letter b'o' c ≡ true → is_space c ≡ false
unfolding is_letter is_space
letter_o c h = ground arith

or_right : (a b : Bool) → b ≡ true → (a || b) ≡ true
or_right a b h = ground arith

out_found : (t : Text) → ends_word (after_letters out t) ≡ true → timed_rest t ≡ true
unfolding ends_word after_letters timed_rest spaced_out
out_found [] h = ground arith
out_found (c ∷ t) h = elim (Bool-cases (is_letter b'o' c)) [
  | inl e ↦ rw (letter_o c e) (or_right (is_letter b'd' c && spaced_out t) _ h)
  | inr e ↦ absurd (false≢true (rw (e, after_letters) at h))
]

found_here : (o : Option Text) → ends_word (then_letters out o) ≡ true → timed o ≡ true
unfolding timed ends_word
found_here none h = h
found_here (some t) h = out_found t h

timeout_here-here : (t : Text) → timeout_here t ≡ true → time_out_here t ≡ true
unfolding timeout_here time_out_here
timeout_here-here t h =
    found_here (after_letters time t) (rw (after_letters-append time out t) at h)

scan_mono :
    (inside : Bool) (t : Text)
    → scan timeout_here inside t ≡ true
    → scan time_out_here inside t ≡ true
unfolding scan
scan_mono inside [] h = h
scan_mono inside (c ∷ t) h = ground (arith, timeout_here-here (c ∷ t), scan_mono (is_word c) t)

-- A text is a timeout message exactly when the first of the two expressions matches it.
pub matches_timeout_once : (t : Text) → matches_timeout t ≡ scan time_out_here false t
unfolding matches_timeout
matches_timeout_once t = ground (arith, scan_mono false t)
