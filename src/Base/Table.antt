-- ===== src/Base/Table.antt =====
-- A table with a primary key, as an association list: what the SQL statements read and write.
use mathlib.Core.Path.{◌≡◌, refl}
use mathlib.Core.Logic.{◌⊎◌, ◌≢◌}
use mathlib.Core.Option.{Option, none, some}
use mathlib.Core.Bool.{Bool, true, false}
use mathlib.Core.List.{List, [], ◌∷◌}
use native.Mathlib.Omega.{arith}
use shared_dev_context_layer.Base.Tests.{Eq, if◌then◌else◌}

-- What an UPDATE with a further test makes of the row at its key, and whether it updated it.
abbrev pub updated {ℓ} : {V : Type ℓ} → (V → Bool) → (V → V) → Option V → Option V × Bool
updated test f none = (none, false)
updated test f (some v) = if test v then (some (f v), true) else (some v, false)

-- The same of INSERT … ON CONFLICT DO NOTHING.
abbrev pub inserted {ℓ} : {V : Type ℓ} → V → Option V → Option V × Bool
inserted v none = (some v, true)
inserted v (some w) = (some w, false)

module _ {ℓ κ} {K : Type ℓ} {V : Type κ} ⦃e : Eq K⦄ where
  unfoldable pub lookup : K → List (K × V) → Option V
  lookup key [] = none
  lookup key ((first, value) ∷ rows) = if e.equals first key then some value else lookup key rows

  -- DELETE by key.
  unfoldable pub remove : K → List (K × V) → List (K × V)
  remove k [] = []
  remove k ((j, w) ∷ m) = let rest = remove k m in if e.equals j k then rest else (j, w) ∷ rest

  -- INSERT, or UPDATE of the row that has the key.
  unfoldable pub insert : K → V → List (K × V) → List (K × V)
  insert key new [] = (key, new) ∷ []
  insert key new ((first, value) ∷ rows) =
      let rest = (first, value) ∷ insert key new rows in
      if e.equals first key then (key, new) ∷ rows else rest

  pub lookup-insert :
      (key other : K) (new : V) (rows : List (K × V))
      → lookup other (insert key new rows)
        ≡ (if e.equals key other then some new else lookup other rows)
  unfolding lookup insert
  lookup-insert key other new [] = refl
  lookup-insert key other new ((first, value) ∷ rows) =
      let rest = lookup-insert key other new rows in
      ground (arith, rest, e.equals_iff key other, e.equals_iff first key, e.equals_iff first other)

  -- A row found after an insertion is the inserted one or was there.
  pub found-insert :
      (key other : K) (new value : V) (rows : List (K × V))
      → lookup other (insert key new rows) ≡ some value
      → ((key ≡ other) × (new ≡ value)) ⊎ ((key ≢ other) × (lookup other rows ≡ some value))
  found-insert key other new value rows h =
      ground (arith, lookup-insert key other new rows, e.equals_iff key other)

  pub lookup-insert_self :
      (key : K) (new : V) (rows : List (K × V)) → lookup key (insert key new rows) ≡ some new
  lookup-insert_self key new rows =
      ground (arith, lookup-insert key key new rows, e.equals_iff key key)

  pub lookup-insert_other :
      (key other : K) (new : V) (rows : List (K × V))
      → other ≢ key
      → lookup other (insert key new rows) ≡ lookup other rows
  lookup-insert_other key other new rows h =
      ground (arith, lookup-insert key other new rows, e.equals_iff key other)

  pub lookup-remove :
      (k j : K) (m : List (K × V))
      → lookup j (remove k m) ≡ (if e.equals k j then none else lookup j m)
  unfolding lookup remove
  lookup-remove k j [] = ground arith
  lookup-remove k j ((i, w) ∷ m) =
      ground (arith, e.equals_iff k j, e.equals_iff i k, e.equals_iff i j, lookup-remove k j m)

  -- UPDATE … WHERE key = k AND test; the answer is whether a row was updated.
  update_on : K → (V → Bool) → (V → V) → List (K × V) → Option V → List (K × V) × Bool
  update_on k test f m none = (m, false)
  update_on k test f m (some v) = if test v then (insert k (f v) m, true) else (m, false)

  unfoldable pub update_where : K → (V → Bool) → (V → V) → List (K × V) → List (K × V) × Bool
  unfolding update_on
  update_where k test f m = update_on k test f m (lookup k m)

  -- INSERT … ON CONFLICT DO NOTHING.
  absent_on : K → V → List (K × V) → Option V → List (K × V) × Bool
  absent_on k v m none = (insert k v m, true)
  absent_on k v m (some w) = (m, false)

  unfoldable pub insert_absent : K → V → List (K × V) → List (K × V) × Bool
  unfolding absent_on
  insert_absent k v m = absent_on k v m (lookup k m)

  update_on_lem :
      (k j : K) (test : V → Bool) (f : V → V) (m : List (K × V)) (o : Option V)
      → lookup k m ≡ o
      → ((update_on k test f m o).1 ≡ (updated test f o).1)
        × (lookup j (update_on k test f m o).0
            ≡ (if e.equals k j then (updated test f o).0 else lookup j m))
  unfolding update_on
  update_on_lem k j test f m none h = ground (arith, e.equals_iff k j)
  update_on_lem k j test f m (some v) h =
      ground (arith, e.equals_iff k j, lookup-insert k j (f v) m)

  absent_on_lem :
      (k j : K) (v : V) (m : List (K × V)) (o : Option V)
      → lookup k m ≡ o
      → ((absent_on k v m o).1 ≡ (inserted v o).1)
        × (lookup j (absent_on k v m o).0 ≡ (if e.equals k j then (inserted v o).0 else lookup j m))
  unfolding absent_on
  absent_on_lem k j v m none h = ground (arith, e.equals_iff k j, lookup-insert k j v m)
  absent_on_lem k j v m (some w) h = ground (arith, e.equals_iff k j)

  pub lookup-update_where :
      (k j : K) (test : V → Bool) (f : V → V) (m : List (K × V))
      → ((update_where k test f m).1 ≡ (updated test f (lookup k m)).1)
        × (lookup j (update_where k test f m).0
            ≡ (if e.equals k j then (updated test f (lookup k m)).0 else lookup j m))
  unfolding update_where
  lookup-update_where k j test f m = update_on_lem k j test f m (lookup k m) refl

  pub lookup-insert_absent :
      (k j : K) (v : V) (m : List (K × V))
      → ((insert_absent k v m).1 ≡ (inserted v (lookup k m)).1)
        × (lookup j (insert_absent k v m).0
            ≡ (if e.equals k j then (inserted v (lookup k m)).0 else lookup j m))
  unfolding insert_absent
  lookup-insert_absent k j v m = absent_on_lem k j v m (lookup k m) refl

  update_on_refused :
      (k : K) (test : V → Bool) (f : V → V) (m : List (K × V)) (o : Option V)
      → (update_on k test f m o).1 ≡ false
      → (update_on k test f m o).0 ≡ m
  unfolding update_on
  update_on_refused k test f m none h = refl
  update_on_refused k test f m (some v) h = ground arith

  pub update_where_refused :
      (k : K) (test : V → Bool) (f : V → V) (m : List (K × V))
      → (update_where k test f m).1 ≡ false
      → (update_where k test f m).0 ≡ m
  unfolding update_where
  update_where_refused k test f m h = update_on_refused k test f m (lookup k m) h

  absent_on_refused :
      (k : K) (v : V) (m : List (K × V)) (o : Option V)
      → (absent_on k v m o).1 ≡ false
      → (absent_on k v m o).0 ≡ m
  unfolding absent_on
  absent_on_refused k v m none h = cc
  absent_on_refused k v m (some w) h = refl

  pub insert_absent_refused :
      (k : K) (v : V) (m : List (K × V))
      → (insert_absent k v m).1 ≡ false
      → (insert_absent k v m).0 ≡ m
  unfolding insert_absent
  insert_absent_refused k v m h = absent_on_refused k v m (lookup k m) h
