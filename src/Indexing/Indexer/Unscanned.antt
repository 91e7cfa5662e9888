-- ===== src/Indexing/Indexer/Unscanned.antt =====
-- The paths that a full run deletes: those of active rows that it did not scan.
use shared_dev_context_layer.Base.{
  String, false, some, List, [], ◌∷◌, ◌≡◌, ◌≢◌, refl, ◌∙◌, ap, string_Eq, All, arith, Bool-cases,
  All-mono, inl, inr, map, subst, ◌==◌,
}
use shared_dev_context_layer.Base.Sorting.{includes}
use shared_dev_context_layer.Base.Table.{lookup}
use shared_dev_context_layer.Paths.{normalize_project_path}
use shared_dev_context_layer.Persistence.IndexStore.{FileRow, file_key_Eq, file_key}
use shared_dev_context_layer.Indexing.Indexer.{IndexedFileCandidate, unscanned}
use shared_dev_context_layer.Indexing.Indexer.Deletion.{IsNormal}

-- The stored paths of a project are normal, as the scanner writes them.
abbrev pub NormalRows : List (String × FileRow) → Type 0
NormalRows rows = All (λ entry. IsNormal entry.0) rows

pub unscanned-All :
    (candidates : List IndexedFileCandidate) (rows : List (String × FileRow))
    → NormalRows rows
    → All
        (λ q. IsNormal q × (includes (map (λ c. c.relative_path) candidates) q ≡ false))
        (unscanned candidates rows)
unfolding unscanned
unscanned-All candidates [] normal = tt
unscanned-All candidates ((path, row) ∷ rows) (n, normal) =
    let rest = unscanned-All candidates rows normal in
    elim (Bool-cases row.is_deleted) [
      | inl d ↦ rw (d, All) rest
      | inr d ↦ elim (Bool-cases (includes (map (λ c. c.relative_path) candidates) path)) [
        | inl e ↦ rw (d, e, All) rest
        | inr e ↦ rw (d, e, All) ((n, e), rest)
      ]
    ]

module _ (P : String → Type 0) (candidates : List IndexedFileCandidate) where
  unscanned-head :
      (path : String) (row : FileRow) (rows : List (String × FileRow))
      → row.is_deleted ≡ false
      → includes (map (λ c. c.relative_path) candidates) path ≡ false
      → All P (unscanned candidates ((path, row) ∷ rows))
      → P path
  unfolding unscanned
  unscanned-head path row rows d e h = (rw (d, e, unscanned, All) at h).0

  unscanned-tail :
      (path : String) (row : FileRow) (rows : List (String × FileRow))
      → All P (unscanned candidates ((path, row) ∷ rows))
      → All P (unscanned candidates rows)
  unfolding unscanned
  unscanned-tail path row rows h = elim (Bool-cases row.is_deleted) [
    | inl d ↦ rw (d, unscanned, All) at h
    | inr d ↦ elim (Bool-cases (includes (map (λ c. c.relative_path) candidates) path)) [
      | inl e ↦ rw (d, e, unscanned, All) at h
      | inr e ↦ (rw (d, e, unscanned, All) at h).1
    ]
  ]

  -- An active row that is not scanned is among the paths to delete.
  pub unscanned-has :
      (rows : List (String × FileRow)) (path : String) (row : FileRow)
      → lookup path rows ≡ some row
      → row.is_deleted ≡ false
      → includes (map (λ c. c.relative_path) candidates) path ≡ false
      → All P (unscanned candidates rows)
      → P path
  unfolding lookup
  unscanned-has [] path row found active out h = cc
  unscanned-has ((q, r) ∷ rows) path row found active out h = elim (Bool-cases (q == path)) [
    | inl s ↦
        let same = (string_Eq.equals_iff q path).0 s in
        unscanned-head path r rows (ground (arith, rw (s, lookup) at found)) out
          (subst (λ p. All P (unscanned candidates ((p, r) ∷ rows))) same h)
    | inr s ↦
        unscanned-has rows path row (rw (s, lookup) at found) active out (unscanned-tail q r rows h)
  ]

pub not_scanned :
    (candidates : List IndexedFileCandidate) (path : String)
    → All (λ c. c.relative_path ≢ path) candidates
    → includes (map (λ c. c.relative_path) candidates) path ≡ false
not_scanned [] path apart = refl
not_scanned (c ∷ cs) path (ne, apart) =
    ground (arith, not_scanned cs path apart, string_Eq.equals_iff c.relative_path path)

-- No deleted path is the one of a candidate.
pub deleted_apart :
    (candidates : List IndexedFileCandidate) (raw : List String)
    → All (λ q. includes (map (λ c. c.relative_path) candidates) q ≡ false) raw
    → All (λ c. All (λ q. c.relative_path ≢ q) raw) candidates
deleted_apart [] raw h = tt
deleted_apart (c ∷ cs) raw h = (
  All-mono _ (λ q. c.relative_path ≢ q)
      (λ q e. ground (arith, string_Eq.equals_iff c.relative_path q)) raw h,
  deleted_apart cs raw (
      All-mono _ (λ q. includes (map (λ d. d.relative_path) cs) q ≡ false) (λ q e. ground arith) raw
        h),
)

pub normal_apart :
    (project_id path : String) (raw : List String)
    → All IsNormal raw
    → All (λ q. path ≢ q) raw
    → All (λ q. file_key project_id path ≢ file_key project_id (normalize_project_path q)) raw
normal_apart project_id path [] normal apart = tt
normal_apart project_id path (q ∷ qs) (n, normal) (ne, apart) =
    (λ e. ne (ap (λ key. key.path) e ∙ n.0), normal_apart project_id path qs normal apart)
