-- ===== src/Base/Sorting/Filtered.antt =====
-- Filtered lists.
use mathlib.Core.Path.{◌≡◌, refl, subst}
use mathlib.Core.Logic.{◌≢◌, ◌⊎◌, inl, inr}
use mathlib.Core.Bool.{Bool, true, false}
use mathlib.Core.List.{List, [], ◌∷◌}
use native.Mathlib.Omega.{arith}
use shared_dev_context_layer.Base.Tests.{Bool-cases, Eq, equals→eq}
use shared_dev_context_layer.Base.Lists.{All, All-mono, filter_by}
use shared_dev_context_layer.Base.Sorting.{Distinct, includes}

module _ {ℓ} {A : Type ℓ} (f : A → Bool) where
  pub filter-All {κ} : (P : A → Type κ) (xs : List A) → All P xs → All P (filter_by f xs)
  filter-All P [] h = tt
  filter-All P (x ∷ xs) (p, h) = elim (Bool-cases (f x)) [
    | inl e ↦ rw e (p, filter-All P xs h)
    | inr e ↦ rw e (filter-All P xs h)
  ]

  pub filter-Distinct : (xs : List A) → Distinct xs → Distinct (filter_by f xs)
  filter-Distinct [] h = tt
  filter-Distinct (x ∷ xs) (apart, h) = elim (Bool-cases (f x)) [
    | inl e ↦ rw e (filter-All (λ y. y ≢ x) xs apart, filter-Distinct xs h)
    | inr e ↦ rw e (filter-Distinct xs h)
  ]

  module _ ⦃e : Eq A⦄ where
    -- What is left passes the test.
    pub includes-filter : (x : A) (xs : List A) → includes (filter_by f xs) x ≡ true → f x ≡ true
    includes-filter x [] h = ground (h, arith)
    includes-filter x (y ∷ xs) h = elim (Bool-cases (f y)) [
      | inr fails ↦ includes-filter x xs (rw fails at h)
      | inl passes ↦ elim (Bool-cases (e.equals y x)) [
        | inl same ↦ subst (λ z. f z ≡ true) (equals→eq y x same) passes
        | inr other ↦ includes-filter x xs (rw (passes, other) at h)
      ]
    ]

    abbrev pub IsLeft : List A → A → Type 0
    IsLeft xs x = (f x ≡ false) ⊎ (includes (filter_by f xs) x ≡ true)

    IsLeft-cons : (y x : A) (xs : List A) → IsLeft xs x → IsLeft (y ∷ xs) x
    IsLeft-cons y x xs (inl fails) = inl fails
    IsLeft-cons y x xs (inr left) = elim (Bool-cases (f y)) [
      | inl e ↦ inr (rw (e, left) (ground arith))
      | inr e ↦ inr (rw (e, left) refl)
    ]

    first-IsLeft : (x : A) (xs : List A) → IsLeft (x ∷ xs) x
    first-IsLeft x xs = elim (Bool-cases (f x)) [
      | inl passes ↦ inr (rw (passes, (e.equals_iff x x).1 refl) (ground arith))
      | inr fails ↦ inl fails
    ]

    -- What passes the test is left.
    pub filter-IsLeft : (xs : List A) → All (IsLeft xs) xs
    filter-IsLeft [] = tt
    filter-IsLeft (x ∷ xs) = (
      first-IsLeft x xs,
      All-mono (IsLeft xs) (IsLeft (x ∷ xs)) (λ y. IsLeft-cons x y xs) xs (filter-IsLeft xs),
    )
