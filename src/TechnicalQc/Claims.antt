-- ===== src/TechnicalQc/Claims.antt =====
-- `reconcile_expired_technical_qc_tasks` and `claim_technical_qc_tasks` of technical_qc.py. The new
-- claim identifiers, and the tasks for which the database reports that another transaction runs a
-- task of the same item, are arguments.
pub mod Sound
pub mod Runs
pub mod Counts
pub mod Lowered
pub mod Bounded
use video_review.Base.{
  ℕ, zero, suc, ◌+◌, ◌-◌, ◌*◌, Bool, true, false, not, ◌&&◌, ◌||◌, Option, none, some, List, [],
  ◌∷◌, ◌++◌, ltb, leb, ◌==◌, if◌then◌else◌, max, filter, take, sort_by, length, count_where, Result,
  ok, err, raise_if, ◌>>=◌, ◌>>◌, value_error,
}
use video_review.TechnicalQc.Tasks.{
  QcStatus, queued, failed, running, complete, QcTask, QcTables, QcClaim, is_running, write_task,
  seconds,
}
use video_review.TechnicalQc.Selection.{then_by, claim_candidates, Selection, select_tasks}

abbrev ended : ℕ → Option ℕ → Bool
ended now none = false
ended now (some expires) = leb expires now

abbrev expiry : Option ℕ → ℕ
expiry none = 0
expiry (some expires) = expires

-- `TECHNICAL_QC_ATTEMPTS_EXHAUSTED` and `TECHNICAL_QC_WORKER_INTERRUPTED`, numbered.
abbrev attempts_exhausted : List ℕ
attempts_exhausted = 1 ∷ []

abbrev worker_interrupted : List ℕ
worker_interrupted = 2 ∷ []

abbrev pub reconciled_task : ℕ → ℕ → QcTask → QcTask
reconciled_task max_attempts now t = record t {
  claim_id = none;
  lease_expires_at = none;
  updated_at = now;
  status = if leb max_attempts t.attempts then failed else queued;
  error_code =
      some (if leb max_attempts t.attempts then attempts_exhausted else worker_interrupted);
  next_attempt_at = none;
}

abbrev pub write_each : (QcTask → QcTask) → List QcTask → List QcTask → List QcTask
write_each edit [] tasks = tasks
write_each edit (t ∷ ts) tasks = write_each edit ts (write_task (edit t) tasks)

-- The running tasks whose lease is over, the oldest leases first.
abbrev pub expired_tasks : ℕ → ℕ → List QcTask → List QcTask
expired_tasks now batch_size tasks = take batch_size (
    sort_by (λ t u. then_by (expiry t.lease_expires_at) (expiry u.lease_expires_at) (ltb t.id u.id))
      (filter (λ t. is_running t.status && ended now t.lease_expires_at) tasks))

unfoldable pub reconcile_expired_technical_qc_tasks :
    ℕ → ℕ → ℕ → List QcTask → Result (ℕ × List QcTask)
reconcile_expired_technical_qc_tasks now max_attempts batch_size tasks = do
  raise_if (ltb max_attempts 1 || ltb batch_size 1) value_error
  let expired = expired_tasks now batch_size tasks
  ok (length expired, write_each (reconciled_task max_attempts now) expired tasks)

abbrev or_now : Option ℕ → ℕ → Option ℕ
or_now none now = some now
or_now (some t) now = some t

abbrev pub claimed_task : ℕ → ℕ → ℕ → QcTask → QcTask
claimed_task lease_seconds now claim_id t = record t {
  status = running;
  claim_id = some claim_id;
  lease_expires_at = some (now + seconds lease_seconds);
  attempts = t.attempts + 1;
  error_code = none;
  next_attempt_at = none;
  started_at = or_now t.started_at now;
  updated_at = now;
}

-- `_claim_payload`
abbrev pub claim_payload : ℕ → QcTask → QcClaim
claim_payload claim_id t = record {
  task_id = t.id;
  claim_id = claim_id;
  project_ref_id = t.project_ref_id;
  review_item_id = t.review_item_id;
  version_id = t.version_id;
  input_file_id = t.input_file_id;
  rule_version = t.rule_version;
}

pub record ClaimSettings : Type 0 where
  pub limit : ℕ
  pub per_project_limit : ℕ
  pub lease_seconds : ℕ
  pub max_attempts : ℕ
  pub candidate_scan_limit : ℕ

pub record ClaimRun : Type 0 where
  pub tasks : List QcTask
  pub claims : List QcClaim
  pub conflicted_item_ids : List ℕ
  pub transition_attempts : ℕ

-- One transition in its nested transaction, which a conflict rolls back.
abbrev pub transition : ClaimSettings → ℕ → (ℕ → ℕ) → (ℕ → Bool) → QcTask → ClaimRun → ClaimRun
transition m now new_claim conflicts t r =
    if conflicts r.transition_attempts
    then record r {
      conflicted_item_ids = t.review_item_id ∷ r.conflicted_item_ids;
      transition_attempts = r.transition_attempts + 1;
    }
    else record r {
      tasks =
          write_task (claimed_task m.lease_seconds now (new_claim r.transition_attempts) t) r.tasks;
      claims = r.claims ++ claim_payload (new_claim r.transition_attempts) t ∷ [];
      transition_attempts = r.transition_attempts + 1;
    }

abbrev pub has_room : ClaimSettings → ClaimRun → Bool
has_room m r = ltb (length r.claims) m.limit && ltb r.transition_attempts m.candidate_scan_limit

abbrev pub transitions :
    ClaimSettings → ℕ → (ℕ → ℕ) → (ℕ → Bool) → List QcTask → ClaimRun → ClaimRun
transitions m now new_claim conflicts [] r = r
transitions m now new_claim conflicts (t ∷ ts) r =
    let rest =
      transitions m now new_claim conflicts ts (transition m now new_claim conflicts t r) in
    if has_room m r then rest else r

abbrev pub running_of_project : List QcTask → ℕ → ℕ
running_of_project tasks p = count_where (λ t. is_running t.status && t.project_ref_id == p) tasks

abbrev pub running_items : List QcTask → List ℕ
running_items [] = []
running_items (t ∷ ts) =
    let rest = running_items ts in if is_running t.status then t.review_item_id ∷ rest else rest

-- The tasks that the next round of transitions goes through.
unfoldable pub next_selection : QcTables → ClaimSettings → ℕ → ClaimRun → List QcTask
next_selection s m now r =
    (select_tasks s (m.limit - length r.claims) m.per_project_limit (running_of_project r.tasks)
      (running_items r.tasks ++ r.conflicted_item_ids)
      (claim_candidates s now m.max_attempts m.candidate_scan_limit
        (max 8 (m.per_project_limit * 2)) r.tasks)).selected

abbrev pub is_empty : List QcTask → Bool
is_empty [] = true
is_empty (t ∷ ts) = false

-- The outer `while`; each round makes one transition at least.
unfoldable pub claim_rounds :
    ℕ → QcTables → ClaimSettings → ℕ → (ℕ → ℕ) → (ℕ → Bool) → ClaimRun → ClaimRun
claim_rounds zero s m now new_claim conflicts r = r
claim_rounds (suc fuel) s m now new_claim conflicts r =
    let selected = next_selection s m now r in
    let rest =
      claim_rounds fuel s m now new_claim conflicts
        (transitions m now new_claim conflicts selected r) in
    if not (has_room m r) then r else if is_empty selected then r else rest

unfoldable pub claim_technical_qc_tasks :
    QcTables → ClaimSettings → ℕ → (ℕ → ℕ) → (ℕ → Bool) → List QcTask → Result ClaimRun
claim_technical_qc_tasks s m now new_claim conflicts tasks = do
  raise_if
      (ltb m.limit 1 || ltb m.per_project_limit 1 || ltb m.lease_seconds 1 || ltb m.max_attempts 1)
      value_error
  (n, reconciled) ←
      reconcile_expired_technical_qc_tasks now m.max_attempts m.candidate_scan_limit tasks
  ok (
      claim_rounds m.candidate_scan_limit s m now new_claim conflicts (record {
        tasks = reconciled;
        claims = [];
        conflicted_item_ids = [];
        transition_attempts = 0;
      }))
