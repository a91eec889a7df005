-- ===== src/TechnicalQc/Workers/Authority.antt =====
-- Which calls of a worker change the tasks of technical_qc.py: those of a running task under its own
-- claim and lease, whose project, item, version and playback file still fit it.
use mathlib.Core.Path.{ap, ◌∙◌}
use video_review.Base.{
  ℕ, ◌≡◌, ◌⊎◌, refl, Bool, true, false, Option, none, some, List, ltb, arith, Bool-cases, inl, inr,
  eq_of_test, ◌>>◌, is_negative, ok, raise_if, value_error, ◌||◌,
}
use video_review.TechnicalQc.Tasks.{
  QcTask, QcTables, QcClaim, holds_claim, task_at, if_claimed, if_matching, matches_claim,
  lock_active_claim, write_claimed, completed_task, probed_task, update_technical_qc_progress,
  renew_technical_qc_lease, complete_technical_qc_task, persist_technical_qc_probe,
  fail_technical_qc_task,
}
use video_review.TechnicalQc.Workers.Rights.{Authorized, holds_claim-Authorized}
use video_review.TechnicalQc.Workers.{
  progress, renew, complete_task, persist_probe, fail, WorkerCall, worker_effect, answered,
}

-- The task and the claim that a call names.
abbrev pub task_of : WorkerCall → ℕ
task_of (progress id claim ms) = id
task_of (renew id claim lease) = id
task_of (complete_task c) = c.task_id
task_of (persist_probe id claim probe) = id
task_of (fail id claim code retryable delay) = id

abbrev pub claim_of : WorkerCall → ℕ
claim_of (progress id claim ms) = claim
claim_of (renew id claim lease) = claim
claim_of (complete_task c) = c.claim_id
claim_of (persist_probe id claim probe) = claim
claim_of (fail id claim code retryable delay) = claim

-- The row is the one that was claimed, as a completion tells.
abbrev pub IsSame : WorkerCall → QcTask → Type 0
IsSame (complete_task c) t =
    (t.project_ref_id ≡ c.project_ref_id)
    × (t.review_item_id ≡ c.review_item_id)
    × (t.version_id ≡ c.version_id)
    × (t.input_file_id ≡ c.input_file_id)
    × (t.rule_version ≡ c.rule_version)
IsSame (progress id claim ms) t = Unit
IsSame (renew id claim lease) t = Unit
IsSame (persist_probe id claim probe) t = Unit
IsSame (fail id claim code retryable delay) t = Unit

matches_claim-IsSame :
    (c : QcClaim) (t : QcTask) → matches_claim c t ≡ true → IsSame (complete_task c) t
matches_claim-IsSame c t h = (
  eq_of_test t.project_ref_id c.project_ref_id (ground arith),
  eq_of_test t.review_item_id c.review_item_id (ground arith),
  eq_of_test t.version_id c.version_id (ground arith),
  eq_of_test t.input_file_id c.input_file_id (ground arith),
  eq_of_test t.rule_version c.rule_version (ground arith),
)

-- What a claim finds at a row: nothing, or a row with all that the worker must hold.
if_claimed-cases :
    (s : QcTables) (claim now : ℕ) (o : Option QcTask)
    → (if_claimed s claim now o ≡ none)
      ⊎ ((t : QcTask) × (o ≡ some t)
          × (if_claimed s claim now o ≡ some t)
          × Authorized s claim now t)
if_claimed-cases s claim now none = inl refl
if_claimed-cases s claim now (some t) = elim (Bool-cases (holds_claim s claim now t)) [
  | inl holds ↦ inr (t, refl, rw holds refl, holds_claim-Authorized s claim now t holds)
  | inr stale ↦ inl (rw stale refl)
]

answered-unless :
    (tasks : List QcTask) (b : Bool)
    → answered tasks (raise_if b value_error >> ok (false, tasks)) ≡ tasks
answered-unless tasks true = refl
answered-unless tasks false = refl

-- A call that finds no row under its claim.
unclaimed-unchanged :
    (max_attempts : ℕ) (s : QcTables) (now : ℕ) (c : WorkerCall) (tasks : List QcTask)
    → if_claimed s (claim_of c) now (task_at (task_of c) tasks) ≡ none
    → worker_effect max_attempts s now c tasks ≡ tasks
unfolding update_technical_qc_progress renew_technical_qc_lease complete_technical_qc_task
    persist_technical_qc_probe fail_technical_qc_task lock_active_claim
unclaimed-unchanged max_attempts s now (progress id claim ms) tasks h =
    rw (update_technical_qc_progress, lock_active_claim, h) (answered-unless tasks (is_negative ms))
unclaimed-unchanged max_attempts s now (renew id claim lease) tasks h =
    rw (renew_technical_qc_lease, lock_active_claim, h) (answered-unless tasks (ltb lease 1))
unclaimed-unchanged max_attempts s now (complete_task c) tasks h =
    ap (λ o. (write_claimed (completed_task now) tasks (if_matching c o)).1) h
unclaimed-unchanged max_attempts s now (persist_probe id claim probe) tasks h =
    ap (λ o. (write_claimed (probed_task probe now) tasks o).1) h
unclaimed-unchanged max_attempts s now (fail id claim code retryable delay) tasks h =
    rw (fail_technical_qc_task, lock_active_claim, h)
      (answered-unless tasks (ltb max_attempts 1 || ltb delay 1))

-- A call leaves the tasks as they are, or the task that it names is running under the claim of the
-- call, its lease ends later, its project is open, its item has its version as the current one,
-- the version has its file for playback, and the playback task of that file is ready; and a
-- completion names the project, the item, the version, the file and the rules of the row.
pub worker_effect-Authorized :
    (max_attempts : ℕ) (s : QcTables) (now : ℕ) (c : WorkerCall) (tasks : List QcTask)
    → (worker_effect max_attempts s now c tasks ≡ tasks)
      ⊎ ((t : QcTask) × (task_at (task_of c) tasks ≡ some t)
          × Authorized s (claim_of c) now t
          × IsSame c t)
unfolding complete_technical_qc_task lock_active_claim
worker_effect-Authorized max_attempts s now c tasks =
    elim (if_claimed-cases s (claim_of c) now (task_at (task_of c) tasks)) [
      | inl lost ↦ inl (unclaimed-unchanged max_attempts s now c tasks lost)
      | inr (t, at_id, found, holds) ↦ go c t at_id found holds
    ]
  where
    go :
        (c : WorkerCall) (t : QcTask)
        → task_at (task_of c) tasks ≡ some t
        → if_claimed s (claim_of c) now (task_at (task_of c) tasks) ≡ some t
        → Authorized s (claim_of c) now t
        → (worker_effect max_attempts s now c tasks ≡ tasks)
          ⊎ ((u : QcTask) × (task_at (task_of c) tasks ≡ some u)
              × Authorized s (claim_of c) now u
              × IsSame c u)
    go (progress id claim ms) t at_id found holds = inr (t, at_id, holds, tt)
    go (renew id claim lease) t at_id found holds = inr (t, at_id, holds, tt)
    go (persist_probe id claim probe) t at_id found holds = inr (t, at_id, holds, tt)
    go (fail id claim code retryable delay) t at_id found holds = inr (t, at_id, holds, tt)
    go (complete_task k) t at_id found holds = elim (Bool-cases (matches_claim k t)) [
      | inl same ↦ inr (t, at_id, holds, matches_claim-IsSame k t same)
      | inr other ↦
          let left : if_matching k (some t) ≡ none = rw other refl in
          inl (
            (ap (λ o. (write_claimed (completed_task now) tasks (if_matching k o)).1) found)
            ∙ (ap (λ o. (write_claimed (completed_task now) tasks o).1) left))
    ]
