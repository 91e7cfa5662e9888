-- ===== src/Paths/NormalForm.antt =====
-- The form of a normalized path.
use Prim.Native.Char.{code}
use shared_dev_context_layer.Base.{
  String, ◌≡◌, refl, ◌≢◌, false, ◌&&◌, ◌||◌, nat_eq, string_Eq, ◌==◌, arith, Bool-cases, ◌⊎◌, inl,
  inr,
}
use shared_dev_context_layer.Base.Strings.{trim_str, is_empty}
use shared_dev_context_layer.Paths.{
  is_slash, is_backslash, normalize_slashes, skip_slashes, strip_dot_prefix, starts_slash,
  collapse_separators, only_slashes, strip_trailing, normalize_project_path,
}

-- No backslash.
abbrev pub Posix : String → Type 0
Posix String.[] = Unit
Posix (String.◌∷◌ c s) = (is_backslash c ≡ false) × Posix s

-- No two slashes stand together, and none at the end.
abbrev pub SingleSlashes : String → Type 0
SingleSlashes String.[] = Unit
SingleSlashes (String.◌∷◌ c s) =
    ((is_slash c ≡ false) ⊎ ((starts_slash s ≡ false) × (is_empty s ≡ false))) × SingleSlashes s

normalize_slashes-Posix : (s : String) → Posix (normalize_slashes s)
unfolding normalize_slashes
normalize_slashes-Posix String.[] = tt
normalize_slashes-Posix (String.◌∷◌ c s) = elim (Bool-cases (is_backslash c)) [
  | inl e ↦ rw e (refl, normalize_slashes-Posix s)
  | inr e ↦ rw e (e, normalize_slashes-Posix s)
]

skip_slashes-Posix : (s : String) → Posix s → Posix (skip_slashes s)
unfolding skip_slashes
skip_slashes-Posix String.[] h = tt
skip_slashes-Posix (String.◌∷◌ c s) h = elim (Bool-cases (is_slash c)) [
  | inl e ↦ rw e (skip_slashes-Posix s h.1)
  | inr e ↦ rw e h
]

strip_dot_prefix-Posix : (s : String) → Posix s → Posix (strip_dot_prefix s)
unfolding strip_dot_prefix
strip_dot_prefix-Posix (String.◌∷◌ c (String.◌∷◌ d s)) h =
    elim (Bool-cases (nat_eq (code c) b'.' && is_slash d)) [
      | inl e ↦ rw e (skip_slashes-Posix s h.1.1)
      | inr e ↦ rw e h
    ]
strip_dot_prefix-Posix String.[] h = h
strip_dot_prefix-Posix (String.◌∷◌ c String.[]) h = h

collapse-Posix : (s : String) → Posix s → Posix (collapse_separators s)
unfolding collapse_separators
collapse-Posix String.[] h = tt
collapse-Posix (String.◌∷◌ c s) h = elim (Bool-cases (is_slash c && starts_slash s)) [
  | inl e ↦ rw e (collapse-Posix s h.1)
  | inr e ↦ rw e (h.0, collapse-Posix s h.1)
]

strip_trailing-Posix : (s : String) → Posix s → Posix (strip_trailing s)
unfolding strip_trailing
strip_trailing-Posix String.[] h = tt
strip_trailing-Posix (String.◌∷◌ c s) h = elim (Bool-cases (is_slash c && only_slashes s)) [
  | inl e ↦ rw e tt
  | inr e ↦ rw e (h.0, strip_trailing-Posix s h.1)
]

-- Of a text whose runs of slashes are single.
abbrev Collapsed : String → Type 0
Collapsed String.[] = Unit
Collapsed (String.◌∷◌ c s) = ((is_slash c ≡ false) ⊎ (starts_slash s ≡ false)) × Collapsed s

collapse-starts : (s : String) → starts_slash (collapse_separators s) ≡ starts_slash s
unfolding collapse_separators
collapse-starts String.[] = refl
collapse-starts (String.◌∷◌ c s) = ground (arith, collapse-starts s)

collapse-Collapsed : (s : String) → Collapsed (collapse_separators s)
unfolding collapse_separators
collapse-Collapsed String.[] = tt
collapse-Collapsed (String.◌∷◌ c s) = elim (Bool-cases (is_slash c && starts_slash s)) [
  | inl e ↦ rw e (collapse-Collapsed s)
  | inr e ↦ rw e (ground (arith, collapse-starts s), collapse-Collapsed s)
]

strip_trailing-starts :
    (s : String) → starts_slash s ≡ false → starts_slash (strip_trailing s) ≡ false
unfolding strip_trailing
strip_trailing-starts String.[] h = refl
strip_trailing-starts (String.◌∷◌ c s) h = ground arith

strip_trailing-empty : (s : String) → only_slashes s ≡ false → is_empty (strip_trailing s) ≡ false
unfolding strip_trailing
strip_trailing-empty String.[] h = cc
strip_trailing-empty (String.◌∷◌ c s) h = ground arith

strip_trailing-SingleSlashes : (s : String) → Collapsed s → SingleSlashes (strip_trailing s)
unfolding strip_trailing
strip_trailing-SingleSlashes String.[] h = tt
strip_trailing-SingleSlashes (String.◌∷◌ c s) h = elim (Bool-cases (is_slash c && only_slashes s)) [
  | inl e ↦ rw e tt
  | inr e ↦ rw e (
    ground (arith, strip_trailing-starts s, strip_trailing-empty s),
    strip_trailing-SingleSlashes s h.1,
  )
]

empty-ne-dot : ◌≢◌ {A = String} "" "."
empty-ne-dot = ground (arith, string_Eq.equals_iff "" ".")

-- A normalized path has no backslash, no two slashes together and none at its end, and is not ".".
pub normalize_project_path_form :
    (raw : String)
    → let path = normalize_project_path raw in Posix path × SingleSlashes path × (path ≢ ".")
unfolding normalize_project_path
normalize_project_path_form raw =
    let trimmed = normalize_slashes (trim_str raw) in
    let whole = strip_trailing (collapse_separators (strip_dot_prefix trimmed)) in
    let posix : Posix whole =
      strip_trailing-Posix (collapse_separators (strip_dot_prefix trimmed)) (
        collapse-Posix (strip_dot_prefix trimmed)
          (strip_dot_prefix-Posix trimmed (normalize_slashes-Posix (trim_str raw)))) in
    let single : SingleSlashes whole =
      strip_trailing-SingleSlashes (collapse_separators (strip_dot_prefix trimmed))
        (collapse-Collapsed (strip_dot_prefix trimmed)) in
    elim (Bool-cases (is_empty trimmed)) [
      | inl blank ↦ rw blank (tt, tt, empty-ne-dot)
      | inr filled ↦ elim (Bool-cases (is_empty whole || whole == ".")) [
        | inl nothing ↦ rw (filled, nothing) (tt, tt, empty-ne-dot)
        | inr path ↦
            rw (filled, path) (posix, single, λ e. ground (arith, string_Eq.equals_iff whole "."))
      ]
    ]
