-- ===== src/Base/Sorting/Sorted.antt =====
-- A sorted list is in order.
use mathlib.Core.Path.{◌≡◌}
use mathlib.Core.Logic.{inl, inr}
use mathlib.Core.Bool.{Bool, true, false}
use mathlib.Core.List.{List, [], ◌∷◌}
use shared_dev_context_layer.Base.Tests.{Bool-cases}
use shared_dev_context_layer.Base.Lists.{All, All-mono}
use shared_dev_context_layer.Base.Sorting.{insert_sorted, insert_sorted-All, sort}

module _ {ℓ κ} {A : Type ℓ} (le : A → A → Bool) (R : A → A → Type κ) where
  -- Each element is related to all that follow.
  unfoldable pub Ordered : List A → Type κ
  Ordered [] = Unit
  Ordered (x ∷ xs) = All (R x) xs × Ordered xs

  module _ (trans : (x y z : A) → R x y → R y z → R x z) (yes : (x y : A) → le x y ≡ true → R x y)
      (no : (x y : A) → le x y ≡ false → R y x) where
    insert_sorted-Ordered : (x : A) (ys : List A) → Ordered ys → Ordered (insert_sorted le x ys)
    unfolding insert_sorted Ordered
    insert_sorted-Ordered x [] h = (tt, tt)
    insert_sorted-Ordered x (y ∷ ys) (after, h) = elim (Bool-cases (le x y)) [
      | inl e ↦
          rw (e, Ordered)
            (
              (yes x y e, All-mono (R y) (R x) (λ z r. trans x y z (yes x y e) r) ys after),
              (after, h),
            )
      | inr e ↦
          rw (e, Ordered)
            (insert_sorted-All le (R y) x ys (no x y e) after, insert_sorted-Ordered x ys h)
    ]

    pub sort-Ordered : (xs : List A) → Ordered (sort le xs)
    unfolding sort Ordered
    sort-Ordered [] = tt
    sort-Ordered (x ∷ xs) = insert_sorted-Ordered x (sort le xs) (sort-Ordered xs)
