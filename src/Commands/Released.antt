-- ===== src/Commands/Released.antt =====
-- The lock of a run is gone when the run is over.
use shared_dev_context_layer.Base.{
  ℕ, ◌≡◌, ◌≢◌, ◌∙◌, ◌⊎◌, inl, inr, String, Option, none, some, ◌==◌, string_Eq, arith, Bool-cases,
  sym,
}
use shared_dev_context_layer.Base.Table.{lookup}
use shared_dev_context_layer.Persistence.RunLock.{LockTable, LockRow, ReleaseInput, release, serve}
use shared_dev_context_layer.Persistence.RunLock.Lease.{
  lease_step, serve_same, serve_other, same_project,
}
use shared_dev_context_layer.Persistence.RunLock.Fencing.{NotHeldBy}
use shared_dev_context_layer.Persistence.TaskState.{TaskStore}
use shared_dev_context_layer.Persistence.Records.{Records}
use shared_dev_context_layer.Commands.Types.{LocalCommandResult}
use shared_dev_context_layer.Commands.Session.{
  Result, value, threw, catching, Turn, Fault, works, fails, unanswered, Tables, Session, enter,
  answer_with, call, recover,
}
use shared_dev_context_layer.Commands.Deps.{Deps}
use shared_dev_context_layer.Commands.Guards.{ensure_local_profile}
use shared_dev_context_layer.Commands.Calls.{release_call, run_name, return_pushed}
use shared_dev_context_layer.Commands.Run.{
  no_locals, run_environment, on_exception, release_held, clean_up, run_unblocked, local_run_codex,
}
use shared_dev_context_layer.Commands.Reports.{push_result}
use shared_dev_context_layer.Commands.Quiet.{IsQuiet, on_exception-Keeps}
use shared_dev_context_layer.Commands.Invariant.{IsInvariant}
use shared_dev_context_layer.Commands.Invariant.Locked.{run_locking-Keeps}
use shared_dev_context_layer.Commands.Invariant.Unlocked.{run_environment-Ends}
use shared_dev_context_layer.Commands.Invariant.Writing.{persist_ending-Keeps, any_write-Keeps}

-- No project is locked under `id`.
abbrev pub NoLock : String → LockTable → Type 0
NoLock id locks = (project : String) → NotHeldBy id (lookup project locks)

-- The call reaches the database, even if its answer is lost.
abbrev pub IsDone : Fault → Type 0
IsDone works = Unit
IsDone (unanswered e) = Unit
IsDone (fails e) = ⊥

-- The session when `localRunCodex` comes to its `finally`.
abbrev pub at_clean_up : (deps : Deps) (turns : ℕ → Turn) → Session → Session
at_clean_up deps turns s =
    (catching (run_environment deps turns) (on_exception deps turns)
      (record s { locals = no_locals })).1

lease_step_release_other :
    (id : String) (now : ℕ) (i : ReleaseInput) (o : Option LockRow)
    → NotHeldBy id o
    → NotHeldBy id (lease_step now (release i) o).0
unfolding lease_step
lease_step_release_other id now i none free = tt
lease_step_release_other id now i (some row) free = elim (Bool-cases (row.lock_id == i.lock_id)) [
  | inl e ↦ rw e tt
  | inr e ↦ rw e free
]

lease_step_release_own :
    (now : ℕ) (i : ReleaseInput) (o : Option LockRow)
    → NotHeldBy i.lock_id (lease_step now (release i) o).0
unfolding lease_step
lease_step_release_own now i none = tt
lease_step_release_own now i (some row) = elim (Bool-cases (row.lock_id == i.lock_id)) [
  | inl e ↦ rw e tt
  | inr e ↦ rw e (λ same. ground (arith, string_Eq.equals_iff row.lock_id i.lock_id))
]

-- A release frees no lock id.
release-NotHeldBy :
    (id q : String) (now : ℕ) (i : ReleaseInput) (t : LockTable)
    → NotHeldBy id (lookup q t)
    → NotHeldBy id (lookup q (serve now (release i) t).0)
release-NotHeldBy id q now i t free = elim (same_project q (release i)) [
  | inl mine ↦
      let (_, lease) = serve_same q now (release i) t mine in
      rw lease (lease_step_release_other id now i (lookup q t) free)
  | inr other ↦ rw (serve_other q now (release i) t other) free
]

release-NoLock :
    (id p : String) (now : ℕ) (t : LockTable)
    → ((q : String) → q ≢ p → NotHeldBy id (lookup q t))
    → NoLock id (serve now (release (record { project_id = p; lock_id = id })) t).0
release-NoLock id p now t elsewhere q =
    let i : ReleaseInput = record { project_id = p; lock_id = id } in
    elim (same_project q (release i)) [
      | inl mine ↦
          let (_, lease) = serve_same q now (release i) t mine in
          rw lease (lease_step_release_own now i (lookup q t))
      | inr other ↦ rw (serve_other q now (release i) t other) (elsewhere q (λ e. other (sym e)))
    ]

module _ (deps : Deps) (turns : ℕ → Turn)
    (others : (n : ℕ) (t : Tables) (q : String)
      → NotHeldBy deps.lock_uuid (lookup q t.locks)
      → NotHeldBy deps.lock_uuid (lookup q ((turns n).others t).locks)) where
  -- This run does not hold a lock, or only that of project `p`, which it is going to release.
  abbrev IsFree : Session → Type 0
  IsFree s = NoLock deps.lock_uuid s.tables.locks

  record HoldsOnly (p : String) (s : Session) : Type 0 where
    project : s.locals.project_id_for_lock ≡ some p
    lock : s.locals.lock_id ≡ some deps.lock_uuid
    elsewhere : (q : String) → q ≢ p → NotHeldBy deps.lock_uuid (lookup q s.tables.locks)

  abbrev IsReleasable : Session → Type 0
  IsReleasable s = IsFree s ⊎ ((p : String) × HoldsOnly p s)

  IsFree-IsQuiet : IsQuiet deps turns IsFree
  IsFree-IsQuiet = record {
    enters = λ s free q. others s.calls s.tables q (free q);
    claims = λ s t free. free;
    pushes = λ s result is_error free. free;
    environs = λ s environment action state free. free;
    connects = λ s status problem free. free;
    aborts = λ s b free. free;
    counts = λ s n free. free;
    flags = λ s l _ _ _ _ free. free;
  }

  HoldsOnly-IsQuiet : (p : String) → IsQuiet deps turns (HoldsOnly p)
  HoldsOnly-IsQuiet p = record {
    enters = λ s h. record {
      project = h.project;
      lock = h.lock;
      elsewhere = λ q ne. others s.calls s.tables q (h.elsewhere q ne);
    };
    claims = λ s t h. record { project = h.project; lock = h.lock; elsewhere = h.elsewhere };
    pushes = λ s _ _ h. record { project = h.project; lock = h.lock; elsewhere = h.elsewhere };
    environs = λ s _ _ _ h. record { project = h.project; lock = h.lock; elsewhere = h.elsewhere };
    connects = λ s _ _ h. record { project = h.project; lock = h.lock; elsewhere = h.elsewhere };
    aborts = λ s b h. record { project = h.project; lock = h.lock; elsewhere = h.elsewhere };
    counts = λ s n h. record { project = h.project; lock = h.lock; elsewhere = h.elsewhere };
    flags = λ s l lock project _ _ h. record {
      project = project ∙ h.project;
      lock = lock ∙ h.lock;
      elsewhere = h.elsewhere;
    };
  }

  HoldsOnly-tasks :
      (p : String) (s : Session) (t : TaskStore)
      → HoldsOnly p s
      → HoldsOnly p (record s { tables = record s.tables { tasks = t } })
  HoldsOnly-tasks p s t h = record { project = h.project; lock = h.lock; elsewhere = h.elsewhere }

  HoldsOnly-records :
      (p : String) (s : Session) (r : Records)
      → HoldsOnly p s
      → HoldsOnly p (record s { records = r })
  HoldsOnly-records p s r h = record { project = h.project; lock = h.lock; elsewhere = h.elsewhere }

  HoldsOnly-IsInvariant : (p task : String) → IsInvariant deps turns p task (HoldsOnly p)
  HoldsOnly-IsInvariant p task =
      let quiet = HoldsOnly-IsQuiet p in
      record {
        locked = record {
          quiet = quiet;
          served = λ s now r mine _ h. record {
            project = h.project;
            lock = h.lock;
            elsewhere = λ q ne.
                rw (serve_other q now r s.tables.locks (λ same. ne (sym same ∙ mine)))
                  (h.elsewhere q ne);
          };
          saves = λ input.
              any_write-Keeps deps turns (HoldsOnly p) quiet.enters (HoldsOnly-records p) _;
        };
        tasks = λ from to s t _ h. HoldsOnly-tasks p s t h;
        persists = persist_ending-Keeps deps turns (HoldsOnly p) quiet.enters (HoldsOnly-records p);
      }

  ends-IsReleasable : (s : Session) → IsFree s → IsReleasable (run_environment deps turns s).1
  ends-IsReleasable =
      run_environment-Ends deps turns IsFree
        (λ (r : Result LocalCommandResult × Session). IsReleasable r.1) IsFree-IsQuiet
        (λ s l free. free) (λ r s free. inl free)
        (λ environment draft p run_key s project lock free. inr (
          p,
          run_locking-Keeps deps turns p (HoldsOnly p) environment draft run_key
              (HoldsOnly-IsInvariant p draft.id)
              (λ t d h. record { project = h.project; lock = h.lock; elsewhere = h.elsewhere })
              (λ t h. record { project = h.project; lock = h.lock; elsewhere = h.elsewhere }) s
              (record { project = project; lock = lock; elsewhere = λ q ne. free q }),
        ))

  recover-IsReleasable :
      (r : Result LocalCommandResult × Session)
      → IsReleasable r.1
      → IsReleasable (recover (on_exception deps turns) r).1
  recover-IsReleasable (value a, s) h = h
  recover-IsReleasable (threw e, s) (inl free) =
      inl (on_exception-Keeps deps turns IsFree IsFree-IsQuiet (λ _ _ t u _ i. i) e s free)
  recover-IsReleasable (threw e, s) (inr (p, h)) = inr (
    p,
    on_exception-Keeps deps turns (HoldsOnly p) (HoldsOnly-IsQuiet p)
        (λ _ _ t u _ j. HoldsOnly-tasks p t u j) e s h,
  )

  release_call-IsFree :
      (p : String) (turn : Turn) (s : Session)
      → ((q : String) → q ≢ p → NotHeldBy deps.lock_uuid (lookup q s.tables.locks))
      → NoLock deps.lock_uuid (release_call p deps.lock_uuid turn s.tables).0.locks
  unfolding release_call serve
  release_call-IsFree p turn s elsewhere =
      release-NoLock deps.lock_uuid p turn.now s.tables.locks elsewhere

  answered-IsFree :
      (fault : Fault) (p : String) (turn : Turn) (s : Session)
      → IsDone fault
      → ((q : String) → q ≢ p → NotHeldBy deps.lock_uuid (lookup q s.tables.locks))
      → IsFree (answer_with fault (release_call p deps.lock_uuid) turn s).1
  answered-IsFree works p turn s done elsewhere = release_call-IsFree p turn s elsewhere
  answered-IsFree (unanswered e) p turn s done elsewhere = release_call-IsFree p turn s elsewhere
  answered-IsFree (fails e) p turn s done elsewhere = absurd done

  any_release-IsFree :
      (fault : Fault) (p lock : String) (turn : Turn) (s : Session)
      → IsFree s
      → IsFree (answer_with fault (release_call p lock) turn s).1
  unfolding release_call serve
  any_release-IsFree works p lock turn s free q =
      release-NotHeldBy deps.lock_uuid q turn.now (record { project_id = p; lock_id = lock })
        s.tables.locks (free q)
  any_release-IsFree (unanswered e) p lock turn s free q =
      release-NotHeldBy deps.lock_uuid q turn.now (record { project_id = p; lock_id = lock })
        s.tables.locks (free q)
  any_release-IsFree (fails e) p lock turn s free q = free q

  release_held-IsFree :
      (s : Session) (project lock : Option String)
      → IsFree s
      → IsFree (release_held deps turns project lock s).1
  unfolding release_held call
  release_held-IsFree s (some p) (some lock) free =
      let turn = turns s.calls in
      any_release-IsFree turn.fault p lock turn (enter turn s)
        (λ q. others s.calls s.tables q (free q))
  release_held-IsFree s none _ free = free
  release_held-IsFree s (some p) none free = free

  release_held_own :
      (s : Session) (p : String) (project lock : Option String)
      → project ≡ some p
      → lock ≡ some deps.lock_uuid
      → IsDone (turns s.calls).fault
      → ((q : String) → q ≢ p → NotHeldBy deps.lock_uuid (lookup q s.tables.locks))
      → IsFree (release_held deps turns project lock s).1
  unfolding release_held call
  release_held_own s p project lock of_project of_lock done elsewhere =
      let turn = turns s.calls in
      rw (of_project, of_lock)
        (answered-IsFree turn.fault p turn (enter turn s) done
          (λ q ne. others s.calls s.tables q (elsewhere q ne)))

  clean_up-IsFree :
      (s : Session)
      → IsDone (turns s.calls).fault
      → IsReleasable s
      → IsFree (clean_up deps turns s).1
  unfolding clean_up
  clean_up-IsFree s done (inl free) =
      release_held-IsFree s s.locals.project_id_for_lock s.locals.lock_id free
  clean_up-IsFree s done (inr (p, h)) =
      release_held_own s p s.locals.project_id_for_lock s.locals.lock_id h.project h.lock done
        h.elsewhere

  run_unblocked-IsFree :
      (s : Session) (o : Option LocalCommandResult)
      → IsFree s
      → IsDone (turns (at_clean_up deps turns s).calls).fault
      → IsFree (run_unblocked deps turns o s).1
  unfolding run_unblocked return_pushed push_result
  run_unblocked-IsFree s (some refusal) free done = free
  run_unblocked-IsFree s none free done =
      let start = record s { locals = no_locals } in
      clean_up-IsFree (at_clean_up deps turns s) done
        (recover-IsReleasable (run_environment deps turns start) (ends-IsReleasable start free))

-- Whatever the other clients do short of locking a project under this run's new lock id, whichever
-- calls fail or lose their answer, and however the run ends: if no project is locked under that id
-- before, and the call by which the run releases its lock reaches the database, then no project is
-- locked under it afterwards.
pub local_run_codex-releases :
    (deps : Deps) (turns : ℕ → Turn) (s : Session)
    → ((n : ℕ) (t : Tables) (q : String)
        → NotHeldBy deps.lock_uuid (lookup q t.locks)
        → NotHeldBy deps.lock_uuid (lookup q ((turns n).others t).locks))
    → NoLock deps.lock_uuid s.tables.locks
    → IsDone (turns (at_clean_up deps turns s).calls).fault
    → NoLock deps.lock_uuid (local_run_codex deps turns s).1.tables.locks
unfolding local_run_codex
local_run_codex-releases deps turns s others free done =
    run_unblocked-IsFree deps turns others s (ensure_local_profile deps run_name) free done
