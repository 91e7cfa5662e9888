-- ===== src/PostRun/Diff/Moved.antt =====
-- What a change between two snapshots is, described on the entries of the snapshots.
use shared_dev_context_layer.Base.{
  ℕ, String, Bool, true, false, ◌&&◌, ◌||◌, not, Option, none, some, List, [], ◌∷◌, ◌≡◌, refl, ◌∙◌,
  ◌↔◌, ◌⊎◌, inl, inr, sym, if◌then◌else◌, ◌==◌, string_Eq, nat_eq, nat_eq_iff, arith, ap,
}
use shared_dev_context_layer.Base.Table.{lookup, insert, lookup-insert}
use shared_dev_context_layer.Base.Strings.{Locale, is_empty}
use shared_dev_context_layer.Paths.{to_comparable_path_key}
use shared_dev_context_layer.PostRun.Diff.{
  WorkspaceFileSnapshotEntry, EntryMap, same_text, is_truthy, has_entry_changed, ChangeKind,
  created, modified, deleted, unchanged, no_path, kind_of, comparable_map_from, to_comparable_map,
}

abbrev pub or_before :
    Option WorkspaceFileSnapshotEntry
    → Option WorkspaceFileSnapshotEntry
    → Option WorkspaceFileSnapshotEntry
or_before none before = before
or_before (some later) before = some later

-- The last entry with this comparable path.
abbrev pub last_at :
    Locale → String → List WorkspaceFileSnapshotEntry → Option WorkspaceFileSnapshotEntry
last_at locale key [] = none
last_at locale key (entry ∷ entries) =
    let later = last_at locale key entries in
    or_before later
      (if to_comparable_path_key locale entry.relative_path == key then some entry else none)

-- The hashes are there and agree, or everything that is known agrees.
abbrev pub SameContent : WorkspaceFileSnapshotEntry → WorkspaceFileSnapshotEntry → Type 0
SameContent before after =
    ((hash : String) × (before.content_hash ≡ some hash)
      × (after.content_hash ≡ some hash)
      × (is_empty hash ≡ false))
    ⊎ ((before.content_hash ≡ after.content_hash)
        × (before.size_bytes ≡ after.size_bytes)
        × (before.modified_at ≡ after.modified_at))

-- No file is at this place in either snapshot, or the same in both; or the newer entry has no path.
abbrev pub Unmoved : Option WorkspaceFileSnapshotEntry → Option WorkspaceFileSnapshotEntry → Type 0
Unmoved none none = Unit
Unmoved (some before) none = (is_empty before.relative_path ≡ true) ⊎ (before.exists ≡ false)
Unmoved none (some after) = (is_empty after.relative_path ≡ true) ⊎ (after.exists ≡ false)
Unmoved (some before) (some after) =
    (is_empty after.relative_path ≡ true)
    ⊎ ((before.exists ≡ false) × (after.exists ≡ false))
    ⊎ ((before.exists ≡ true) × (after.exists ≡ true) × SameContent before after)

-- 1 for a change, 0 for none.
abbrev pub change : ChangeKind → ℕ
change created = 1
change modified = 1
change deleted = 1
change unchanged = 0
change no_path = 0

same_text_iff : (a b : Option String) → (same_text a b ≡ true) ↔ (a ≡ b)
same_text_iff none none = (λ h. refl, λ h. refl)
same_text_iff none (some b) = ground arith
same_text_iff (some a) none = ground arith
same_text_iff (some a) (some b) = ground (arith, string_Eq.equals_iff a b)

truthy_some :
    (o : Option String)
    → is_truthy o ≡ true
    → (hash : String) × (o ≡ some hash) × (is_empty hash ≡ false)
truthy_some none h = ground arith
truthy_some (some s) h = (s, refl, ground arith)

if_unchanged :
    (t s z m : Bool)
    → (if t then not s else if not s then true else not z || not m) ≡ false
    → (s ≡ true) × ((t ≡ true) ⊎ ((z ≡ true) × (m ≡ true)))
if_unchanged t s z m h = ground arith

all_same :
    (t s z m : Bool)
    → s ≡ true
    → z ≡ true
    → m ≡ true
    → (if t then not s else if not s then true else not z || not m) ≡ false
all_same t s z m hs hz hm = ground arith

and_left : (a b : Bool) → (a && b) ≡ true → a ≡ true
and_left a b h = ground arith

unchanged-SameContent :
    (b a : WorkspaceFileSnapshotEntry) → has_entry_changed b a ≡ false → SameContent b a
unfolding has_entry_changed
unchanged-SameContent b a h =
    let (same, rest) =
      if_unchanged (is_truthy b.content_hash && is_truthy a.content_hash)
        (same_text b.content_hash a.content_hash) (nat_eq b.size_bytes a.size_bytes)
        (same_text b.modified_at a.modified_at) h in
    let equal = (same_text_iff b.content_hash a.content_hash).0 same in
    elim rest [
      | inl both ↦
          let (hash, is, filled) =
            truthy_some b.content_hash
              (and_left (is_truthy b.content_hash) (is_truthy a.content_hash) both) in
          inl (hash, is, sym equal ∙ is, filled)
      | inr (size, time) ↦ inr (
        equal,
        (nat_eq_iff b.size_bytes a.size_bytes).0 size,
        (same_text_iff b.modified_at a.modified_at).0 time,
      )
    ]

same_hash :
    (b a : Option String) (hash : String)
    → b ≡ some hash
    → a ≡ some hash
    → is_empty hash ≡ false
    → (is_truthy b ≡ true) × (is_truthy a ≡ true) × (same_text b a ≡ true)
same_hash b a hash eb ea filled =
    (rw (eb, filled) refl, rw (ea, filled) refl, (same_text_iff b a).1 (eb ∙ sym ea))

truthy_same :
    (t u s z m : Bool)
    → t ≡ true
    → u ≡ true
    → s ≡ true
    → (if t && u then not s else if not s then true else not z || not m) ≡ false
truthy_same t u s z m ht hu hs = ground arith

SameContent-unchanged :
    (b a : WorkspaceFileSnapshotEntry) → SameContent b a → has_entry_changed b a ≡ false
unfolding has_entry_changed
SameContent-unchanged b a (inl (hash, eb, ea, filled)) =
    let (tb, ta, same) = same_hash b.content_hash a.content_hash hash eb ea filled in
    truthy_same (is_truthy b.content_hash) (is_truthy a.content_hash)
      (same_text b.content_hash a.content_hash) (nat_eq b.size_bytes a.size_bytes)
      (same_text b.modified_at a.modified_at) tb ta same
SameContent-unchanged b a (inr (hash, size, time)) =
    all_same (is_truthy b.content_hash && is_truthy a.content_hash)
      (same_text b.content_hash a.content_hash) (nat_eq b.size_bytes a.size_bytes)
      (same_text b.modified_at a.modified_at) ((same_text_iff b.content_hash a.content_hash).1 hash)
      ((nat_eq_iff b.size_bytes a.size_bytes).1 size)
      ((same_text_iff b.modified_at a.modified_at).1 time)

both_iff :
    (e be ae f : Bool)
    → (change (
          if e
          then no_path
          else if not be && ae
          then created
          else if be && not ae
          then deleted
          else if be && ae
          then (if f then modified else unchanged)
          else unchanged)
        ≡ 0)
      ↔ ((e ≡ true) ⊎ ((be ≡ false) × (ae ≡ false)) ⊎ ((be ≡ true) × (ae ≡ true) × (f ≡ false)))
both_iff e be ae f = ground arith

-- The code finds no change where nothing has moved, and only there.
pub kind_of_iff :
    (b a : Option WorkspaceFileSnapshotEntry) → (change (kind_of b a) ≡ 0) ↔ Unmoved b a
unfolding kind_of
kind_of_iff none none = (λ h. tt, λ h. ground arith)
kind_of_iff (some b) none = ground arith
kind_of_iff none (some a) = ground arith
kind_of_iff (some b) (some a) =
    let bools = both_iff (is_empty a.relative_path) b.exists a.exists (has_entry_changed b a) in
    (
      λ h. elim (bools.0 h) [
        | inl nameless ↦ inl nameless
        | inr (inl gone) ↦ inr (inl gone)
        | inr (inr (eb, ea, same)) ↦ inr (inr (eb, ea, unchanged-SameContent b a same))
      ],
      λ u. bools.1 (elim u [
        | inl nameless ↦ inl nameless
        | inr (inl gone) ↦ inr (inl gone)
        | inr (inr (eb, ea, same)) ↦ inr (inr (eb, ea, SameContent-unchanged b a same))
      ]),
    )

or_before_if :
    (later : Option WorkspaceFileSnapshotEntry) (same : Bool) (entry : WorkspaceFileSnapshotEntry)
    (old : Option WorkspaceFileSnapshotEntry)
    → or_before later (if same then some entry else old)
      ≡ or_before (or_before later (if same then some entry else none)) old
or_before_if none true entry old = refl
or_before_if none false entry old = refl
or_before_if (some later) same entry old = refl

comparable_map_from-lookup :
    (locale : Locale) (key : String) (m : EntryMap) (entries : List WorkspaceFileSnapshotEntry)
    → lookup key (comparable_map_from locale m entries)
      ≡ or_before (last_at locale key entries) (lookup key m)
unfolding comparable_map_from
comparable_map_from-lookup locale key m [] = refl
comparable_map_from-lookup locale key m (entry ∷ entries) =
    let k = to_comparable_path_key locale entry.relative_path in
    comparable_map_from-lookup locale key (insert k entry m) entries
    ∙ ap (or_before (last_at locale key entries)) (lookup-insert k key entry m)
    ∙ or_before_if (last_at locale key entries) (k == key) entry (lookup key m)

or_before-none : (o : Option WorkspaceFileSnapshotEntry) → or_before o none ≡ o
or_before-none none = refl
or_before-none (some e) = refl

-- The map of a snapshot has at each key the last entry with it.
pub lookup-to_comparable_map :
    (locale : Locale) (key : String) (entries : List WorkspaceFileSnapshotEntry)
    → lookup key (to_comparable_map locale entries) ≡ last_at locale key entries
unfolding to_comparable_map lookup
lookup-to_comparable_map locale key entries =
    comparable_map_from-lookup locale key [] entries ∙ or_before-none (last_at locale key entries)
