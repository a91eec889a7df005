-- ===== src/TechnicalQc/Workers.antt =====
-- Calls of workers on the tasks of the technical check, in any order. A call that raises changes
-- nothing.
mod Rights
mod Authority
mod Examples
use video_review.Base.{
  ℕ, ◌≤◌, ◌≡◌, refl, Bool, true, false, ◌&&◌, Option, none, some, List, [], ◌∷◌, if◌then◌else◌, min,
  max, arith, Bool-cases, inl, inr, All, All-write_at, All-row_at, ◌>>=◌, ◌>>◌, ℤ, is_negative,
  pos_part, Result, ok, err, Ensures, Ensures-bind, raise_if, value_error, ltb, ◌||◌, leb, is_some,
}
use mathlib.Core.Path.{sym, ap}
use video_review.TechnicalQc.Tasks.{
  QcStatus, queued, running, complete, failed, QcTask, QcTables, QcClaim, QcMediaProbe, is_running,
  holds_claim, task_at, if_claimed, if_matching, matches_claim, lock_active_claim, write_claimed,
  progressed_task, renewed_task, completed_task, probed_task, failed_task,
  update_technical_qc_progress, renew_technical_qc_lease, complete_technical_qc_task,
  persist_technical_qc_probe, fail_technical_qc_task,
}
use video_review.TechnicalQc.Claims.{
  ClaimSettings, ClaimRun, reconcile_expired_technical_qc_tasks, claim_technical_qc_tasks,
}
use video_review.TechnicalQc.Claims.Sound.{IsSoundTask, is_complete}

-- The arguments of each call, after the time and the tables.
pub data WorkerCall : Type 0 where
  progress : ℕ → ℕ → ℤ → WorkerCall
  renew : ℕ → ℕ → ℕ → WorkerCall
  complete_task : QcClaim → WorkerCall
  persist_probe : ℕ → ℕ → QcMediaProbe → WorkerCall
  -- the task, the claim, the error code, whether it can be retried, the delay
  fail : ℕ → ℕ → List ℕ → Bool → ℕ → WorkerCall

abbrev pub answered : List QcTask → Result (Bool × List QcTask) → List QcTask
answered tasks (err code) = tasks
answered tasks (ok (answer, t)) = t

abbrev pub worker_effect : ℕ → QcTables → ℕ → WorkerCall → List QcTask → List QcTask
worker_effect max_attempts s now (progress id claim ms) tasks =
    answered tasks (update_technical_qc_progress s id claim ms now tasks)
worker_effect max_attempts s now (renew id claim lease_seconds) tasks =
    answered tasks (renew_technical_qc_lease s id claim lease_seconds now tasks)
worker_effect max_attempts s now (complete_task claim) tasks =
    (complete_technical_qc_task s claim now tasks).1
worker_effect max_attempts s now (persist_probe id claim probe) tasks =
    (persist_technical_qc_probe s id claim probe now tasks).1
worker_effect max_attempts s now (fail id claim code retryable delay) tasks =
    answered tasks (fail_technical_qc_task s id claim code retryable max_attempts delay now tasks)

-- A call with its time and the tables that it finds.
pub record Visit : Type 0 where
  pub now : ℕ
  pub tables : QcTables
  pub call : WorkerCall

abbrev pub worker_effects : ℕ → List Visit → List QcTask → List QcTask
worker_effects max_attempts [] tasks = tasks
worker_effects max_attempts (v ∷ vs) tasks =
    worker_effects max_attempts vs (worker_effect max_attempts v.tables v.now v.call tasks)

running_not_complete : (s : QcStatus) → is_running s ≡ true → is_complete s ≡ false
running_not_complete running e = refl
running_not_complete complete e = cc
running_not_complete queued e = cc
running_not_complete failed e = cc

-- What the probe of a media file has passed: no frame count and no duration is zero.
abbrev IsMeasured : QcMediaProbe → Type 0
IsMeasured probe =
    (1 ≤ probe.video_frame_count) × (1 ≤ probe.video_duration_ms) × (1 ≤ probe.total_ms)

abbrev pub Measured : WorkerCall → Type 0
Measured (persist_probe id claim probe) = IsMeasured probe
Measured (progress id claim ms) = Unit
Measured (renew id claim lease_seconds) = Unit
Measured (complete_task claim) = Unit
Measured (fail id claim code retryable delay) = Unit

module _ (max_attempts : ℕ) where
  -- A task that is running, as a worker finds it under its claim.
  abbrev Working : QcTask → Type 0
  Working t = IsSoundTask max_attempts t × (is_running t.status ≡ true)

  abbrev Locked : Option QcTask → Type 0
  Locked none = Unit
  Locked (some t) = Working t

  if_claimed-Locked :
      (s : QcTables) (claim_id now : ℕ) (tasks : List QcTask) (id : ℕ)
      → All (IsSoundTask max_attempts) tasks
      → Locked (if_claimed s claim_id now (task_at id tasks))
  if_claimed-Locked s claim_id now tasks id h = go (task_at id tasks) refl
    where
      go : (o : Option QcTask) → task_at id tasks ≡ o → Locked (if_claimed s claim_id now o)
      go none e = tt
      go (some t) e = elim (Bool-cases (holds_claim s claim_id now t)) [
        | inl holds ↦
            rw holds
              (All-row_at (λ u. u.id) (IsSoundTask max_attempts) id tasks t h e, ground arith)
        | inr stale ↦ rw stale tt
      ]

  write_claimed-IsSoundTask :
      (edit : QcTask → QcTask) (tasks : List QcTask) (o : Option QcTask)
      → ((t : QcTask) → Working t → IsSoundTask max_attempts (edit t))
      → Locked o
      → All (IsSoundTask max_attempts) tasks
      → All (IsSoundTask max_attempts) (write_claimed edit tasks o).1
  write_claimed-IsSoundTask edit tasks none f k h = h
  write_claimed-IsSoundTask edit tasks (some t) f k h =
      All-write_at (λ u. u.id) (IsSoundTask max_attempts) (edit t) tasks (f t k) h

  matching-Locked : (c : QcClaim) (o : Option QcTask) → Locked o → Locked (if_matching c o)
  matching-Locked c none h = tt
  matching-Locked c (some t) h = elim (Bool-cases (matches_claim c t)) [
    | inl same ↦ rw same h
    | inr other ↦ rw other tt
  ]

  answered-All :
      (tasks : List QcTask) (r : Result (Bool × List QcTask))
      → All (IsSoundTask max_attempts) tasks
      → Ensures (λ a. All (IsSoundTask max_attempts) a.1) r
      → All (IsSoundTask max_attempts) (answered tasks r)
  answered-All tasks (ok (a, t)) h k = k
  answered-All tasks (err code) h k = h

  progressed-IsSoundTask :
      (ms now : ℕ) (t : QcTask) → Working t → IsSoundTask max_attempts (progressed_task ms now t)
  progressed-IsSoundTask ms now t (h, runs) = record {
    claim_given = h.claim_given;
    lease_given = h.lease_given;
    progress = omega arith;
    positive = h.positive;
    probe_facts = h.probe_facts;
    completion = h.completion;
    all_processed = λ e. let here = running_not_complete t.status runs in cc;
    attempted = h.attempted;
  }

  renewed-IsSoundTask :
      (lease now : ℕ) (t : QcTask) → Working t → IsSoundTask max_attempts (renewed_task lease now t)
  renewed-IsSoundTask lease now t (h, runs) = record {
    claim_given = h.claim_given;
    lease_given = sym runs;
    progress = h.progress;
    positive = h.positive;
    probe_facts = h.probe_facts;
    completion = h.completion;
    all_processed = h.all_processed;
    attempted = h.attempted;
  }

  completed-IsSoundTask :
      (now : ℕ) (t : QcTask) → Working t → IsSoundTask max_attempts (completed_task now t)
  completed-IsSoundTask now t (h, runs) = record {
    claim_given = refl;
    lease_given = refl;
    progress = omega arith;
    positive = h.positive;
    probe_facts = h.probe_facts;
    completion = refl;
    all_processed = λ e. refl;
    attempted = h.attempted;
  }

  probed-IsSoundTask :
      (probe : QcMediaProbe) (now : ℕ) (t : QcTask)
      → IsMeasured probe
      → Working t
      → IsSoundTask max_attempts (probed_task probe now t)
  probed-IsSoundTask probe now t facts (h, runs) = record {
    claim_given = h.claim_given;
    lease_given = h.lease_given;
    progress = omega arith;
    positive = facts.2;
    probe_facts = facts;
    completion = h.completion;
    all_processed = λ e. let here = running_not_complete t.status runs in cc;
    attempted = h.attempted;
  }

  failed-IsSoundTask :
      (code : List ℕ) (retryable : Bool) (limit delay now : ℕ) (t : QcTask)
      → Working t
      → IsSoundTask max_attempts (failed_task code retryable limit delay now t)
  failed-IsSoundTask code retryable limit delay now t (h, runs) = record {
    claim_given = refl;
    lease_given = refl;
    progress = h.progress;
    positive = h.positive;
    probe_facts = h.probe_facts;
    completion = rw (h.completion, running_not_complete t.status runs) refl;
    all_processed = λ e. cc;
    attempted = h.attempted;
  }

  worker_effect-IsSoundTask :
      (s : QcTables) (now : ℕ) (c : WorkerCall) (tasks : List QcTask)
      → Measured c
      → All (IsSoundTask max_attempts) tasks
      → All (IsSoundTask max_attempts) (worker_effect max_attempts s now c tasks)
  unfolding update_technical_qc_progress renew_technical_qc_lease complete_technical_qc_task
      persist_technical_qc_probe fail_technical_qc_task lock_active_claim
  worker_effect-IsSoundTask s now (progress id claim ms) tasks facts h =
      answered-All tasks (update_technical_qc_progress s id claim ms now tasks) h (
        Ensures-bind _ (raise_if (is_negative ms) value_error) _ λ a e.
          write_claimed-IsSoundTask (progressed_task (pos_part ms) now) tasks _
            (progressed-IsSoundTask (pos_part ms) now) (if_claimed-Locked s claim now tasks id h) h)
  worker_effect-IsSoundTask s now (renew id claim lease) tasks facts h =
      answered-All tasks (renew_technical_qc_lease s id claim lease now tasks) h (
        Ensures-bind _ (raise_if (ltb lease 1) value_error) _ λ a e.
          write_claimed-IsSoundTask (renewed_task lease now) tasks _ (renewed-IsSoundTask lease now)
            (if_claimed-Locked s claim now tasks id h) h)
  worker_effect-IsSoundTask s now (complete_task c) tasks facts h =
      write_claimed-IsSoundTask (completed_task now) tasks _ (completed-IsSoundTask now)
        (matching-Locked c _ (if_claimed-Locked s c.claim_id now tasks c.task_id h)) h
  worker_effect-IsSoundTask s now (persist_probe id claim probe) tasks facts h =
      write_claimed-IsSoundTask (probed_task probe now) tasks _
        (λ t k. probed-IsSoundTask probe now t facts k) (if_claimed-Locked s claim now tasks id h) h
  worker_effect-IsSoundTask s now (fail id claim code retryable delay) tasks facts h =
      answered-All tasks
        (fail_technical_qc_task s id claim code retryable max_attempts delay now tasks) h
        (Ensures-bind _ (raise_if (ltb max_attempts 1 || ltb delay 1) value_error) _ λ a e.
          write_claimed-IsSoundTask (failed_task code retryable max_attempts delay now) tasks _
            (failed-IsSoundTask code retryable max_attempts delay now)
            (if_claimed-Locked s claim now tasks id h) h)

  -- If every task meets the check constraints on claims, progress, probe facts and completion and
  -- has at most `max_attempts` attempts, then every task does after any calls of workers at any
  -- times and with any tables, if the three numbers of each probe that they persist are positive.
  pub worker_effects-IsSoundTask :
      (vs : List Visit) (tasks : List QcTask)
      → All (λ v. Measured v.call) vs
      → All (IsSoundTask max_attempts) tasks
      → All (IsSoundTask max_attempts) (worker_effects max_attempts vs tasks)
  worker_effects-IsSoundTask [] tasks facts h = h
  worker_effects-IsSoundTask (v ∷ vs) tasks facts h =
      worker_effects-IsSoundTask vs (worker_effect max_attempts v.tables v.now v.call tasks) facts.1
        (worker_effect-IsSoundTask v.tables v.now v.call tasks facts.0 h)
