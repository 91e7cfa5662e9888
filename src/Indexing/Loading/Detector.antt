-- ===== src/Indexing/Loading/Detector.antt =====
-- Which contents count as text.
use shared_dev_context_layer.Base.{
  ℕ, ◌*◌, ◌<◌, min, ◌≡◌, ◌≢◌, ◌↔◌, ◌⊎◌, inl, inr, true, none, some, List, [], ◌∷◌, length, take,
  nat_eq, filter_by, All, arith, Bool-cases, refl,
}
use mathlib.Core.Bool.{false≢true}
use shared_dev_context_layer.Indexing.Loading.{
  is_suspicious, count_suspicious, few_suspicious, is_likely_text,
}

abbrev pub NoZero : List ℕ → Type 0
NoZero bytes = All (λ b. b ≢ 0) bytes

-- The count is there exactly without a zero byte, and counts the suspicious bytes.
count_suspicious-counts :
    (bytes : List ℕ)
    → (NoZero bytes × (count_suspicious bytes ≡ some (length (filter_by is_suspicious bytes))))
      ⊎ ((count_suspicious bytes ≡ none) × (NoZero bytes → ◌≡◌ {A = ℕ} 0 1))
unfolding count_suspicious
count_suspicious-counts [] = inl (tt, refl)
count_suspicious-counts (b ∷ bs) = elim (count_suspicious-counts bs) [
  | inr (none_found, zero_there) ↦ inr (rw none_found refl, λ h. zero_there h.1)
  | inl (clean, counted) ↦ elim (Bool-cases (nat_eq b 0)) [
    | inl z ↦ inr (rw (counted, z) refl, λ h. ground (arith, h.0))
    | inr z ↦ elim (Bool-cases (is_suspicious b)) [
      | inl s ↦ inl ((λ e. ground arith, clean), rw (counted, z, s) refl)
      | inr s ↦ inl ((λ e. ground arith, clean), rw (counted, z, s) refl)
    ]
  ]
]

few_suspicious_iff :
    (sample_size n : ℕ) → (few_suspicious sample_size (some n) ≡ true) ↔ (n * 10 < sample_size)
few_suspicious_iff sample_size n = ground arith

zero_one : ◌≢◌ {A = ℕ} 0 1
zero_one h = omega arith

-- A content that is not empty counts as text exactly when its first 4096 bytes have no zero byte
-- and fewer than a tenth of them are suspicious.
pub is_likely_text_iff :
    (bytes : List ℕ)
    → let sample = take 4096 bytes in
      bytes ≢ []
      → (is_likely_text bytes ≡ true)
        ↔ (NoZero sample × (length (filter_by is_suspicious sample) * 10 < min (length bytes) 4096))
unfolding is_likely_text
is_likely_text_iff [] h = absurd (h refl)
is_likely_text_iff (b ∷ bs) h = elim (count_suspicious-counts (take 4096 (b ∷ bs))) [
  | inl (clean, counted) ↦
      rw counted (λ e. (clean, (few_suspicious_iff _ _).0 e), λ p. (few_suspicious_iff _ _).1 p.1)
  | inr (none_found, zero_there) ↦
      rw none_found (λ e. absurd (false≢true e), λ p. absurd (zero_one (zero_there p.0)))
]
