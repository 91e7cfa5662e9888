-- ===== src/PostRun/Reconciler/Flow.antt =====
-- What a reconciliation does to the index, and what its outcome says of it.
use shared_dev_context_layer.Base.{
  ℕ, ◌≤◌, String, ◌≡◌, ◌≢◌, refl, sym, ◌∙◌, ◌↔◌, true, false, List, [], ◌∷◌, ◌++◌, arith, length,
  string_Eq, All, subst,
}
use shared_dev_context_layer.Base.Strings.{Locale}
use shared_dev_context_layer.Base.Sorting.{unique, All-sort, All-unique}
use shared_dev_context_layer.Paths.{path_le}
use shared_dev_context_layer.PostRun.Types.{
  ReindexMode, scoped, fallback_full, skipped, applied_changes,
}
use shared_dev_context_layer.PostRun.Diff.{WorkspaceFileSnapshotEntry, analyze}
use shared_dev_context_layer.PostRun.Diff.Changes.{analyze-changed}
use shared_dev_context_layer.PostRun.Classifier.Outcome.{applied_changes_iff}
use shared_dev_context_layer.PostRun.Reconciler.{
  Indexed, done, threw, Ports, run_fallback_full_reindex, full_result, after_scoped,
  run_post_run_reindex, compute_changed_paths, reconcile, seed_paths, classifier_input,
}

full_result-mode :
    (changed : List String) (reason : String) (answer : Indexed)
    → let r = full_result changed reason answer in
      (r.mode ≡ fallback_full) × (r.changed_paths ≡ changed)
full_result-mode changed reason (done message) = (refl, refl)
full_result-mode changed reason (threw error) = (refl, refl)

module _ {S : Type 0} (ports : Ports S) where
  -- The scoped reindex was tried, and gave a message.
  abbrev pub ScopedDone : ℕ → List String → S → Type 0
  ScopedDone max_paths changed s =
      (changed ≢ [])
      × (length changed ≤ max_paths)
      × ((message : String) × ((ports.run_index_by_paths changed s).1 ≡ done message))

  run_fallback_full_reindex-mode :
      (changed : List String) (reason : String) (s : S)
      → let r = (run_fallback_full_reindex ports changed reason s).1 in
        (r.mode ≡ fallback_full) × (r.changed_paths ≡ changed)
  unfolding run_fallback_full_reindex
  run_fallback_full_reindex-mode changed reason s =
      full_result-mode changed reason (ports.run_index s).1

  after_scoped-mode :
      (changed : List String) (s : S) (answer : Indexed)
      → let r = (after_scoped ports changed s answer).1 in
        ((r.mode ≡ scoped) ↔ ((message : String) × (answer ≡ done message)))
        × (r.mode ≢ skipped)
        × (r.mode ≢ fallback_full → r.ok ≡ true)
        × (r.changed_paths ≡ changed)
  unfolding after_scoped
  after_scoped-mode changed s (done message) = ground arith
  after_scoped-mode changed s (threw error) =
      ground (arith, run_fallback_full_reindex-mode changed error s)

  -- The reindex is skipped exactly when no path changed, and scoped exactly when some did, no more
  -- than the limit, and the scoped reindex gave a message; otherwise it is a full one. One that is
  -- not full is successful, and the changed paths are reported on every branch.
  pub run_post_run_reindex-mode :
      (max_paths : ℕ) (changed : List String) (s : S)
      → let r = (run_post_run_reindex ports max_paths changed s).1 in
        ((r.mode ≡ skipped) ↔ (changed ≡ []))
        × ((r.mode ≡ scoped) ↔ ScopedDone max_paths changed s)
        × (r.mode ≢ fallback_full → r.ok ≡ true)
        × (r.changed_paths ≡ changed)
  unfolding run_post_run_reindex
  run_post_run_reindex-mode max_paths [] s = ground arith
  run_post_run_reindex-mode max_paths (p ∷ ps) s =
      let (s', answer) = ports.run_index_by_paths (p ∷ ps) s in
      ground (
        arith,
        run_fallback_full_reindex-mode (p ∷ ps) "changed_paths_limit_exceeded" s,
        after_scoped-mode (p ∷ ps) s' answer,
      )

-- Nothing is in the list.
abbrev Empty : List String → Type 0
Empty xs = All (λ x. ◌≡◌ {A = ℕ} 0 1) xs

length-Empty : (xs : List String) → Empty xs → length xs ≡ 0
length-Empty [] h = refl
length-Empty (x ∷ xs) h = omega (arith, h.0)

-- Without changed paths the comparison has counted no change.
compute_changed_paths-none :
    (locale : Locale) (before after : List WorkspaceFileSnapshotEntry)
    → compute_changed_paths locale (analyze locale before after) ≡ []
    → (analyze locale before after).changed_files_count ≡ 0
unfolding compute_changed_paths
compute_changed_paths-none locale before after h =
    let diff = analyze locale before after in
    let raw = diff.created_files ++ (diff.modified_files ++ diff.deleted_files) in
    analyze-changed locale before after
    ∙ length-Empty raw (
        All-unique (λ x. ◌≡◌ {A = ℕ} 0 1) raw
          (All-sort (path_le locale) (λ x. ◌≡◌ {A = ℕ} 0 1) (unique raw) (subst Empty (sym h) tt)))

only_scoped : (mode : ReindexMode) → mode ≢ skipped → mode ≢ fallback_full → mode ≡ scoped
only_scoped mode h k = ground arith

-- The world after the run and the second capture.
unfoldable pub before_reindex : {S : Type 0} → Ports S → S → S
before_reindex ports s =
    let (s1, before) = ports.capture [] s in
    let (s2, execution) = ports.execute s1 in (ports.capture (seed_paths ports before) s2).0

-- Where the outcome of a reconciled run is "applied_changes", the run ended well, was not cancelled,
-- its error is no timeout, and its changed paths, some and no more than the limit, were given to a
-- scoped run of the indexer in the world after the second capture, which answered with a message and
-- not with an error.
pub reconcile-applied :
    {S : Type 0} (ports : Ports S) (locale : Locale) (max_paths : ℕ) (s : S)
    → let r = (reconcile ports locale max_paths s).1 in
      r.classification.outcome ≡ applied_changes
      → (r.execution_result.ok ≡ true)
        × (r.execution_result.cancelled ≡ false)
        × (r.timeout_flag ≡ false)
        × (r.reindex_result.mode ≡ scoped)
        × (r.reindex_result.ok ≡ true)
        × ScopedDone ports max_paths r.reindex_result.changed_paths (before_reindex ports s)
unfolding reconcile before_reindex
reconcile-applied ports locale max_paths s h =
    let (s1, before) = ports.capture [] s in
    let (s2, execution) = ports.execute s1 in
    let (s3, after) = ports.capture (seed_paths ports before) s2 in
    let diff = analyze locale before after in
    let changed = compute_changed_paths locale diff in
    let (s4, reindex) = run_post_run_reindex ports max_paths changed s3 in
    let (finished, clean) =
      (applied_changes_iff locale (classifier_input ports locale execution diff reindex)).0 h in
    let (skip, scope, done_well, paths) = run_post_run_reindex-mode ports max_paths changed s3 in
    let nonempty =
      λ (e : changed ≡ []). finished.changed (compute_changed_paths-none locale before after e) in
    let only = only_scoped reindex.mode (λ e. nonempty (skip.0 e)) clean.scoped_reindex in
    (
      finished.succeeded,
      finished.uncancelled,
      finished.in_time,
      only,
      clean.reindexed,
      subst (λ ps. ScopedDone ports max_paths ps s3) (sym paths) (scope.0 only),
    )
