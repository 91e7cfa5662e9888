-- ===== src/Base/Sorting.antt =====
-- `Array.prototype.sort` (stable) as insertion sort, and `[...new Set(xs)]`.
pub mod Sorted
pub mod Filtered
use mathlib.Core.Path.{◌≡◌, sym, refl, subst}
use mathlib.Core.Logic.{◌≢◌, inl, inr}
use mathlib.Core.Bool.{Bool, true, false, false≢true}
use mathlib.Core.List.{List, [], ◌∷◌, Perm}
use mathlib.Core.List.Perm
use native.Mathlib.Omega.{arith}
use shared_dev_context_layer.Base.Tests.{if◌then◌else◌, Bool-cases, Eq, equals→eq}
use Prim.Native.Nat.{suc}
use shared_dev_context_layer.Base.Lists.{All, All-mono, any, length}

module _ {ℓ} {A : Type ℓ} (le : A → A → Bool) where
  pub insert_sorted : A → List A → List A
  insert_sorted x [] = x ∷ []
  insert_sorted x (y ∷ ys) = if le x y then x ∷ y ∷ ys else y ∷ insert_sorted x ys

  unfoldable pub sort : List A → List A
  unfolding insert_sorted
  sort [] = []
  sort (x ∷ xs) = insert_sorted x (sort xs)

  insert_sorted-perm : (x : A) (ys : List A) → Perm (insert_sorted x ys) (x ∷ ys)
  unfolding insert_sorted
  insert_sorted-perm x [] = Perm.refl (x ∷ [])
  insert_sorted-perm x (y ∷ ys) = elim (Bool-cases (le x y)) [
    | inl e ↦ rw e (Perm.refl (x ∷ y ∷ ys))
    | inr e ↦ rw e (Perm.trans (Perm.cons y (insert_sorted-perm x ys)) (Perm.swap x y ys))
  ]

  -- Sorting moves the elements about, and neither drops nor adds any.
  pub sort-perm : (xs : List A) → Perm (sort xs) xs
  unfolding sort
  sort-perm [] = Perm.refl []
  sort-perm (x ∷ xs) = Perm.trans (insert_sorted-perm x (sort xs)) (Perm.cons x (sort-perm xs))

  length-insert_sorted : (x : A) (ys : List A) → length (insert_sorted x ys) ≡ suc (length ys)
  unfolding insert_sorted
  length-insert_sorted x [] = refl
  length-insert_sorted x (y ∷ ys) = ground (arith, length-insert_sorted x ys)

  pub length-sort : (xs : List A) → length (sort xs) ≡ length xs
  unfolding sort
  length-sort [] = refl
  length-sort (x ∷ xs) = omega (arith, length-insert_sorted x (sort xs), length-sort xs)

  module _ {κ} (P : A → Type κ) where
    All-insert_sorted : (x : A) (ys : List A) → All P (insert_sorted x ys) → P x × All P ys
    unfolding insert_sorted
    All-insert_sorted x [] h = h
    All-insert_sorted x (y ∷ ys) h = elim (Bool-cases (le x y)) [
      | inl e ↦ rw (e, insert_sorted) at h
      | inr e ↦
          let (p, rest) = rw (e, insert_sorted) at h in
          let (q, others) = All-insert_sorted x ys rest in (q, (p, others))
    ]

    -- What holds of all elements of the sorted list holds of all of the list.
    pub All-sort : (xs : List A) → All P (sort xs) → All P xs
    unfolding sort
    All-sort [] h = tt
    All-sort (x ∷ xs) h = let (p, rest) = All-insert_sorted x (sort xs) h in (p, All-sort xs rest)

    insert_sorted-All : (x : A) (ys : List A) → P x → All P ys → All P (insert_sorted x ys)
    unfolding insert_sorted
    insert_sorted-All x [] p h = (p, tt)
    insert_sorted-All x (y ∷ ys) p (q, h) = elim (Bool-cases (le x y)) [
      | inl e ↦ rw e (p, (q, h))
      | inr e ↦ rw e (q, insert_sorted-All x ys p h)
    ]

    -- And the other way round.
    pub sort-All : (xs : List A) → All P xs → All P (sort xs)
    unfolding sort
    sort-All [] h = tt
    sort-All (x ∷ xs) (p, h) = insert_sorted-All x (sort xs) p (sort-All xs h)

-- The first occurrence of each element, in order.
module _ {ℓ} {A : Type ℓ} ⦃e : Eq A⦄ where
  abbrev pub includes : List A → A → Bool
  includes xs x = any (λ y. e.equals y x) xs

  unique_from : List A → List A → List A
  unique_from seen [] = []
  unique_from seen (x ∷ xs) = elim (includes seen x) [
    | true ↦ unique_from seen xs
    | false ↦ x ∷ unique_from (x ∷ seen) xs
  ]

  unfoldable pub unique : List A → List A
  unfolding unique_from
  unique xs = unique_from [] xs

  module _ {κ} (P : A → Type κ) where
    old_or_new :
        (seen : List A) (x y : A)
        → ((z : A) → includes seen z ≡ true → P z)
        → P x
        → includes (x ∷ seen) y ≡ true
        → P y
    old_or_new seen x y old p m = elim (Bool-cases (e.equals x y)) [
      | inl same ↦ subst P (equals→eq x y same) p
      | inr other ↦ old y (rw other at m)
    ]

    All-unique_from :
        (seen xs : List A)
        → ((y : A) → includes seen y ≡ true → P y)
        → All P (unique_from seen xs)
        → All P xs
    unfolding unique_from
    All-unique_from seen [] old h = tt
    All-unique_from seen (x ∷ xs) old h = elim (Bool-cases (includes seen x)) [
      | inl e ↦ (old x e, All-unique_from seen xs old (rw (e, unique_from) at h))
      | inr e ↦
          let (p, rest) = rw (e, unique_from) at h in
          (p, All-unique_from (x ∷ seen) xs (λ y m. old_or_new seen x y old p m) rest)
    ]

    pub All-unique : (xs : List A) → All P (unique xs) → All P xs
    unfolding unique
    All-unique xs h = All-unique_from [] xs (λ y m. absurd (false≢true m)) h

    unique_from-All : (seen xs : List A) → All P xs → All P (unique_from seen xs)
    unfolding unique_from
    unique_from-All seen [] h = tt
    unique_from-All seen (x ∷ xs) (p, h) = elim (Bool-cases (includes seen x)) [
      | inl e ↦ rw (e, All) (unique_from-All seen xs h)
      | inr e ↦ rw (e, All) (p, unique_from-All (x ∷ seen) xs h)
    ]

    pub unique-All : (xs : List A) → All P xs → All P (unique xs)
    unfolding unique
    unique-All xs h = unique_from-All [] xs h

-- No element comes twice.
abbrev pub Distinct {ℓ} : {A : Type ℓ} → List A → Type ℓ
Distinct [] = Unit
Distinct (x ∷ xs) = All (λ y. y ≢ x) xs × Distinct xs

module _ {ℓ} {A : Type ℓ} (le : A → A → Bool) where
  insert_sorted-Distinct :
      (x : A) (ys : List A) → All (λ y. y ≢ x) ys → Distinct ys → Distinct (insert_sorted le x ys)
  unfolding insert_sorted
  insert_sorted-Distinct x [] apart h = (tt, tt)
  insert_sorted-Distinct x (y ∷ ys) (ne, apart) (first, h) = elim (Bool-cases (le x y)) [
    | inl e ↦ rw e ((ne, apart), (first, h))
    | inr e ↦ rw e (
      insert_sorted-All le (λ z. z ≢ y) x ys (λ same. ne (sym same)) first,
      insert_sorted-Distinct x ys apart h,
    )
  ]

  pub sort-Distinct : (xs : List A) → Distinct xs → Distinct (sort le xs)
  unfolding sort
  sort-Distinct [] h = tt
  sort-Distinct (x ∷ xs) (apart, h) =
      insert_sorted-Distinct x (sort le xs) (sort-All le (λ y. y ≢ x) xs apart) (sort-Distinct xs h)

module _ {ℓ} {A : Type ℓ} ⦃e : Eq A⦄ where
  unique_from-fresh : (seen xs : List A) → All (λ y. includes seen y ≡ false) (unique_from seen xs)
  unfolding unique_from
  unique_from-fresh seen [] = tt
  unique_from-fresh seen (x ∷ xs) = elim (Bool-cases (includes seen x)) [
    | inl h ↦ rw (h, All) (unique_from-fresh seen xs)
    | inr h ↦
        rw (h, All)
          (
            h,
            All-mono (λ y. includes (x ∷ seen) y ≡ false) (λ y. includes seen y ≡ false)
                (λ y k. ground arith) (unique_from (x ∷ seen) xs) (unique_from-fresh (x ∷ seen) xs),
          )
  ]

  unique_from-Distinct : (seen xs : List A) → Distinct (unique_from seen xs)
  unfolding unique_from
  unique_from-Distinct seen [] = tt
  unique_from-Distinct seen (x ∷ xs) = elim (Bool-cases (includes seen x)) [
    | inl h ↦ rw (h, Distinct) (unique_from-Distinct seen xs)
    | inr h ↦
        rw (h, Distinct)
          (
            All-mono (λ y. includes (x ∷ seen) y ≡ false) (λ y. y ≢ x)
                (λ y k same. ground (arith, (e.equals_iff x y).1 (sym same)))
                (unique_from (x ∷ seen) xs) (unique_from-fresh (x ∷ seen) xs),
            unique_from-Distinct (x ∷ seen) xs,
          )
  ]

  pub unique-Distinct : (xs : List A) → Distinct (unique xs)
  unfolding unique
  unique-Distinct xs = unique_from-Distinct [] xs
