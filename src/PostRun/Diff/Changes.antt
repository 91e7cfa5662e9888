-- ===== src/PostRun/Diff/Changes.antt =====
-- The comparison counts every change.
use shared_dev_context_layer.Base.{
  ℕ, ◌+◌, String, Bool, ◌≡◌, refl, sym, ◌∙◌, ◌↔◌, inl, inr, true, not, Option, none, some, List, [],
  ◌∷◌, ◌++◌, map, arith, length, length-append, All, Bool-cases, string_Eq, nat_eq, nat_eq_iff,
  subst, filter_by, if◌then◌else◌,
}
use shared_dev_context_layer.Base.Table.{lookup}
use shared_dev_context_layer.Base.Strings.{Locale, locale_le}
use shared_dev_context_layer.Base.Sorting.{
  sort, length-sort, All-sort, All-unique, Distinct, includes, sort-Distinct, unique-Distinct,
}
use shared_dev_context_layer.Base.Sorting.Filtered.{
  filter-Distinct, includes-filter, IsLeft, filter-IsLeft,
}
use shared_dev_context_layer.Paths.{path_le}
use shared_dev_context_layer.PostRun.Diff.{
  WorkspaceFileSnapshotEntry, EntryMap, ChangeKind, created, modified, deleted, unchanged, no_path,
  path_of, kind_of, DiffLists, add_path, diff_keys, summary, diff_key_list, to_comparable_map,
  analyze,
}
use shared_dev_context_layer.PostRun.Diff.Moved.{
  last_at, Unmoved, change, kind_of_iff, lookup-to_comparable_map,
}

-- How many of the keys changed between two maps.
abbrev pub changes : EntryMap → EntryMap → List String → ℕ
changes before after [] = 0
changes before after (key ∷ keys) =
    change (kind_of (lookup key before) (lookup key after)) + changes before after keys

abbrev changed_total : DiffLists → ℕ
changed_total lists =
    length lists.created_paths + (length lists.modified_paths + length lists.deleted_paths)

add_path-total :
    (kind : ChangeKind) (path : String) (lists : DiffLists)
    → changed_total (add_path kind path lists) ≡ change kind + changed_total lists
unfolding add_path
add_path-total created path lists = omega arith
add_path-total modified path lists = omega arith
add_path-total deleted path lists = omega arith
add_path-total unchanged path lists = omega arith
add_path-total no_path path lists = omega arith

diff_keys-total :
    (before after : EntryMap) (keys : List String)
    → changed_total (diff_keys before after keys) ≡ changes before after keys
unfolding diff_keys
diff_keys-total before after [] = omega arith
diff_keys-total before after (key ∷ keys) =
    let b = lookup key before in
    let a = lookup key after in
    omega (
      arith,
      add_path-total (kind_of b a) (path_of b a) (diff_keys before after keys),
      diff_keys-total before after keys,
    )

summary-count :
    (locale : Locale) (lists : DiffLists)
    → (summary locale lists).changed_files_count ≡ changed_total lists
unfolding summary
summary-count locale lists =
    let le = path_le locale in
    omega (
      arith,
      length-sort le (
          sort le lists.created_paths
          ++ (sort le lists.modified_paths ++ sort le lists.deleted_paths)),
      length-append (sort le lists.created_paths)
          (sort le lists.modified_paths ++ sort le lists.deleted_paths),
      length-append (sort le lists.modified_paths) (sort le lists.deleted_paths),
      length-sort le lists.created_paths,
      length-sort le lists.modified_paths,
      length-sort le lists.deleted_paths,
    )

analyze-changes :
    (locale : Locale) (before after : List WorkspaceFileSnapshotEntry)
    → let b = to_comparable_map locale before in
      let a = to_comparable_map locale after in
      (analyze locale before after).changed_files_count ≡ changes b a (diff_key_list locale b a)
unfolding analyze
analyze-changes locale before after =
    let b = to_comparable_map locale before in
    let a = to_comparable_map locale after in
    summary-count locale (diff_keys b a (diff_key_list locale b a))
    ∙ diff_keys-total b a (diff_key_list locale b a)

-- The lists of the result have as many paths as the count says.
pub analyze-changed :
    (locale : Locale) (before after : List WorkspaceFileSnapshotEntry)
    → let diff = analyze locale before after in
      diff.changed_files_count
      ≡ length (diff.created_files ++ (diff.modified_files ++ diff.deleted_files))
unfolding analyze summary
analyze-changed locale before after =
    let le = path_le locale in
    let b = to_comparable_map locale before in
    let a = to_comparable_map locale after in
    let lists = diff_keys b a (diff_key_list locale b a) in
    length-sort le
      (sort le lists.created_paths ++ (sort le lists.modified_paths ++ sort le lists.deleted_paths))

-- No change at a key.
abbrev IsQuiet : EntryMap → EntryMap → String → Type 0
IsQuiet before after key = change (kind_of (lookup key before) (lookup key after)) ≡ 0

IsQuiet-keys :
    (before after : EntryMap) (keys : List String)
    → changes before after keys ≡ 0
    → All (IsQuiet before after) keys
IsQuiet-keys before after [] h = tt
IsQuiet-keys before after (key ∷ keys) h =
    (omega arith, IsQuiet-keys before after keys (omega arith))

changes-IsQuiet :
    (before after : EntryMap) (keys : List String)
    → ((key : String) → IsQuiet before after key)
    → changes before after keys ≡ 0
changes-IsQuiet before after [] h = refl
changes-IsQuiet before after (key ∷ keys) h =
    omega (arith, h key, changes-IsQuiet before after keys h)

All-append : (P : String → Type 0) (xs ys : List String) → All P (xs ++ ys) → All P xs × All P ys
All-append P [] ys h = (tt, h)
All-append P (x ∷ xs) ys (p, h) = let (left, right) = All-append P xs ys h in ((p, left), right)

-- What holds of all keys of a map holds of each key with an entry.
All-keys :
    (P : String → Type 0) (key : String) (m : EntryMap) {e : WorkspaceFileSnapshotEntry}
    → All P (map (λ entry. entry.0) m)
    → lookup key m ≡ some e
    → P key
unfolding lookup
All-keys P key [] h found = cc
All-keys P key ((j, v) ∷ m) h found = elim (Bool-cases (string_Eq.equals j key)) [
  | inl same ↦ subst P ((string_Eq.equals_iff j key).0 same) h.0
  | inr other ↦ All-keys P key m h.1 (rw other at found)
]

-- What holds of all keys of the comparison holds of each key that one of the maps has.
All-diff_keys :
    (locale : Locale) (before after : EntryMap) (P : String → Type 0)
    → All P (diff_key_list locale before after)
    → ((key : String) → lookup key before ≡ none → lookup key after ≡ none → P key)
    → (key : String) (b a : Option WorkspaceFileSnapshotEntry) → lookup key before ≡ b
    → lookup key after ≡ a
    → P key
unfolding diff_key_list
All-diff_keys locale before after P h absent key none none eb ea = absent key eb ea
All-diff_keys locale before after P h absent key (some b) a eb ea =
    let (of_before, _) =
      All-append P (map (λ e. e.0) before) (map (λ e. e.0) after)
        (All-unique P _ (All-sort (locale_le locale) P _ h)) in
    All-keys P key before of_before eb
All-diff_keys locale before after P h absent key none (some a) eb ea =
    let (_, of_after) =
      All-append P (map (λ e. e.0) before) (map (λ e. e.0) after)
        (All-unique P _ (All-sort (locale_le locale) P _ h)) in
    All-keys P key after of_after ea

abbrev moved : EntryMap → EntryMap → String → Bool
moved before after key = not (nat_eq (change (kind_of (lookup key before) (lookup key after))) 0)

change_bit : (kind : ChangeKind) → change kind ≡ (if not (nat_eq (change kind) 0) then 1 else 0)
change_bit created = refl
change_bit modified = refl
change_bit deleted = refl
change_bit unchanged = refl
change_bit no_path = refl

changes-length :
    (before after : EntryMap) (keys : List String)
    → changes before after keys ≡ length (filter_by (moved before after) keys)
changes-length before after [] = refl
changes-length before after (key ∷ keys) =
    let bit = change_bit (kind_of (lookup key before) (lookup key after)) in
    elim (Bool-cases (moved before after key)) [
      | inl e ↦ rw e (omega (arith, rw e at bit, changes-length before after keys))
      | inr e ↦ rw e (omega (arith, rw e at bit, changes-length before after keys))
    ]

-- The code finds no change at the two entries of a key where nothing has moved.
quiet_iff :
    (locale : Locale) (before after : List WorkspaceFileSnapshotEntry) (key : String)
    → IsQuiet (to_comparable_map locale before) (to_comparable_map locale after) key
      ↔ Unmoved (last_at locale key before) (last_at locale key after)
quiet_iff locale before after key =
    rw (lookup-to_comparable_map locale key before, lookup-to_comparable_map locale key after)
      (kind_of_iff (last_at locale key before) (last_at locale key after))

diff_key_list-Distinct :
    (locale : Locale) (before after : EntryMap) → Distinct (diff_key_list locale before after)
unfolding diff_key_list
diff_key_list-Distinct locale before after = sort-Distinct (locale_le locale) _ (unique-Distinct _)

none-quiet :
    (before after : EntryMap) (key : String)
    → lookup key before ≡ none
    → lookup key after ≡ none
    → IsQuiet before after key
none-quiet before after key eb ea = rw (eb, ea) ((kind_of_iff none none).1 tt)

-- The comparison counts no change exactly where there is none: at each comparable path the last
-- entries of the two snapshots say that no file is there, or the same in both, with equal hashes or,
-- where a hash is missing, with all data equal. Entries without a path do not count.
pub analyze_complete :
    (locale : Locale) (before after : List WorkspaceFileSnapshotEntry)
    → ((analyze locale before after).changed_files_count ≡ 0)
      ↔ ((key : String) → Unmoved (last_at locale key before) (last_at locale key after))
analyze_complete locale before after =
    let b = to_comparable_map locale before in
    let a = to_comparable_map locale after in
    let keys = diff_key_list locale b a in
    (
      λ h key. (quiet_iff locale before after key).0 (
          All-diff_keys locale b a (IsQuiet b a)
            (IsQuiet-keys b a keys (sym (analyze-changes locale before after) ∙ h)) (none-quiet b a)
            key (lookup key b) (lookup key a) refl refl),
      λ unmoved.
          analyze-changes locale before after
          ∙ changes-IsQuiet b a keys (λ key. (quiet_iff locale before after key).1 (unmoved key)),
    )

module _ (locale : Locale) (before after : List WorkspaceFileSnapshotEntry) where
  abbrev before_map : EntryMap
  before_map = to_comparable_map locale before

  abbrev after_map : EntryMap
  after_map = to_comparable_map locale after

  abbrev moved_keys : List String
  moved_keys = filter_by (moved before_map after_map) (diff_key_list locale before_map after_map)

  moved_keys-includes :
      (key : String)
      → includes moved_keys key ≡ true
      → ¬ Unmoved (last_at locale key before) (last_at locale key after)
  moved_keys-includes key h unmoved =
      let left =
        includes-filter (moved before_map after_map) key (diff_key_list locale before_map after_map)
          h in
      let quiet = (quiet_iff locale before after key).1 unmoved in
      ground (arith, left, (nat_eq_iff _ 0).1 quiet)

  includes-moved :
      (key : String)
      → ¬ Unmoved (last_at locale key before) (last_at locale key after)
      → includes moved_keys key ≡ true
  includes-moved key change_here =
      let keys = diff_key_list locale before_map after_map in
      elim (All-diff_keys locale before_map after_map (IsLeft (moved before_map after_map) keys)
        (filter-IsLeft (moved before_map after_map) keys)
        (λ k eb ea. inl (rw (none-quiet before_map after_map k eb ea) refl)) key
        (lookup key before_map) (lookup key after_map) refl refl) [
          | inr left ↦ left
          | inl quiet ↦ absurd (
              change_here (
                (quiet_iff locale before after key).0 ((nat_eq_iff _ 0).0 (ground (arith, quiet)))))
        ]

-- The number of changed files is that of the comparable paths, each taken once, at which something
-- has moved between the last entries of the two snapshots: a file was created, deleted or modified.
pub analyze-count :
    (locale : Locale) (before after : List WorkspaceFileSnapshotEntry)
    → (keys : List String) × Distinct keys
      × ((key : String)
          → (includes keys key ≡ true)
            ↔ (¬ Unmoved (last_at locale key before) (last_at locale key after)))
      × ((analyze locale before after).changed_files_count ≡ length keys)
analyze-count locale before after =
    let b = to_comparable_map locale before in
    let a = to_comparable_map locale after in
    (
      moved_keys locale before after,
      filter-Distinct (moved b a) (diff_key_list locale b a) (diff_key_list-Distinct locale b a),
      λ key. (moved_keys-includes locale before after key, includes-moved locale before after key),
      analyze-changes locale before after ∙ changes-length b a (diff_key_list locale b a),
    )
