-- ===== src/TechnicalQc/Workers/Examples.antt =====
-- Three tasks of two projects that are claimed, worked on and lost.
use video_review.Base.{
  ℕ, ◌+◌, ◌≤◌, ◌≡◌, ◌⊎◌, refl, true, false, none, some, List, [], ◌∷◌, max, arith, All, length,
  Result, ok, err, Returns, pos, map, ltb, if◌then◌else◌, ◌-◌,
}
use video_review.Review.Store.{active, in_review}
use video_review.TechnicalQc.Tasks.{
  queued, running, QcTask, QcTables, QcMediaProbe, task_at, update_technical_qc_progress,
  renew_technical_qc_lease, fail_technical_qc_task, lock_active_claim, persist_technical_qc_probe,
}
use video_review.TechnicalQc.Selection.{
  mem, claim_candidates, select_pass, select_rounds, select_tasks,
}
use video_review.TechnicalQc.Selection.Limits.{of_project, of_item, one_if, select_tasks-limited}
use video_review.TechnicalQc.Claims.{
  ClaimSettings, ClaimRun, reconcile_expired_technical_qc_tasks, next_selection, claim_rounds,
  claim_technical_qc_tasks, running_of_project,
}
use video_review.TechnicalQc.Claims.Sound.{IsSoundTask}
use video_review.TechnicalQc.Claims.Bounded.{running_of_item, claim_technical_qc_tasks-bounded}
use video_review.TechnicalQc.Claims.Runs.{Stops, claim_technical_qc_tasks-Returns}
use video_review.TechnicalQc.Workers.{
  progress, renew, fail, Visit, worker_effect, worker_effects, worker_effects-IsSoundTask, Measured,
  persist_probe,
}
use video_review.TechnicalQc.Workers.Authority.{IsSame, worker_effect-Authorized}
use video_review.TechnicalQc.Workers.Rights.{Authorized}

-- The task of item `item` and version `item + 100`.
abbrev task : ℕ → ℕ → ℕ → QcTask
task id project item = record {
  id = id;
  project_ref_id = project;
  review_item_id = item;
  version_id = item + 100;
  input_file_id = 7;
  status = queued;
  claim_id = none;
  lease_expires_at = none;
  processed_ms = 0;
  total_ms = 900;
  video_frame_count = none;
  video_duration_ms = none;
  container_duration_ms = none;
  error_code = none;
  rule_version = 1;
  attempts = 0;
  next_attempt_at = none;
  created_at = id;
  updated_at = 0;
  started_at = none;
  completed_at = none;
}

abbrev project_of : ℕ → ℕ
project_of item = if ltb item 20 then 1 else 2

-- Items below 20 are of project 1, the others of project 2.
abbrev tables : QcTables
tables = record {
  projects = λ k. some (record {
    project_code = 1;
    project_name = 2;
    description = 0;
    lifecycle_status = active;
    deleted_at = none;
    fps_num = none;
    fps_den = none;
    lock_version = 1;
    updated_at = 0;
  });
  items = λ k. some (record {
    project_ref_id = project_of k;
    item_code = 1;
    episode_no = some k;
    title = 1;
    workflow_status = in_review;
    current_version_id = some (k + 100);
    active_finalization_id = none;
    lock_version = 1;
    updated_at = 0;
  });
  current_version_is_current = λ k. true;
  versions = λ k. some (record {
    project_ref_id = project_of (k - 100);
    review_item_id = k - 100;
    previous_version_id = none;
    version_no = 1;
    is_current = true;
    original_file_id = 3;
    sha256 = 4;
    responsible_editor_id = 5;
    responsible_editor_name_snapshot = 6;
    playback_asset_id = some 7;
    version_note = none;
    change_summary = none;
  });
  playback_tasks = λ k. some (record {
    project_ref_id = project_of (k - 100);
    review_item_id = k - 100;
    is_ready = true;
    output_file_id = some 7;
  });
  has_file = λ k. true;
}

abbrev tasks : List QcTask
tasks = task 1 1 11 ∷ task 2 1 12 ∷ task 3 2 21 ∷ []

abbrev claim_settings : ClaimSettings
claim_settings = record {
  limit = 2;
  per_project_limit = 1;
  lease_seconds = 60;
  max_attempts = 3;
  candidate_scan_limit = 4;
}

abbrev claimed_tasks : Result ClaimRun → List QcTask
claimed_tasks (ok r) = r.tasks
claimed_tasks (err code) = []

abbrev selected_ids : List QcTask → List ℕ
selected_ids = map (λ t. t.id)

-- One task of each project, though the first project has two.
selection_run :
    selected_ids
      (select_tasks tables 2 1 (λ p. 0) [] (claim_candidates tables 5 3 4 8 tasks)).selected
    ≡ 1 ∷ 3 ∷ []
unfolding select_tasks select_rounds select_pass claim_candidates
selection_run = refl

claim_run :
    map
      (λ t. t.claim_id)
      (claimed_tasks
        (claim_technical_qc_tasks tables claim_settings 5 (λ n. n + 90) (λ n. false) tasks))
    ≡ some 90 ∷ none ∷ some 91 ∷ []
unfolding claim_technical_qc_tasks reconcile_expired_technical_qc_tasks claim_rounds next_selection
    select_tasks select_rounds select_pass claim_candidates
claim_run = refl

select_tasks-limited_example :
    (length (select_tasks tables 2 1 (λ p. 0) (12 ∷ []) tasks).selected ≤ 2)
    × ((p : ℕ)
        → 0 + of_project p (select_tasks tables 2 1 (λ p. 0) (12 ∷ []) tasks).selected ≤ max 0 1)
    × ((k : ℕ)
        → of_item k (select_tasks tables 2 1 (λ p. 0) (12 ∷ []) tasks).selected
            + one_if (mem k (12 ∷ []))
          ≤ 1)
select_tasks-limited_example = select_tasks-limited tables 2 1 (λ p. 0) (12 ∷ []) tasks

task-IsSoundTask : (id project item : ℕ) → IsSoundTask 3 (task id project item)
task-IsSoundTask id project item = record {
  claim_given = refl;
  lease_given = refl;
  progress = omega arith;
  positive = omega arith;
  probe_facts = tt;
  completion = refl;
  all_processed = λ e. cc;
  attempted = omega arith;
}

tasks-IsSoundTask : All (IsSoundTask 3) tasks
tasks-IsSoundTask =
    (task-IsSoundTask 1 1 11, (task-IsSoundTask 2 1 12, (task-IsSoundTask 3 2 21, tt)))

claim_technical_qc_tasks-Returns_example :
    Returns
      (λ r.
        All (IsSoundTask 3) r.tasks
        × (length r.claims ≤ 2)
        × Stops tables claim_settings 5 (λ n. n + 90) (λ n. false) r)
      (claim_technical_qc_tasks tables claim_settings 5 (λ n. n + 90) (λ n. false) tasks)
claim_technical_qc_tasks-Returns_example =
    claim_technical_qc_tasks-Returns tables claim_settings 5 (λ n. n + 90) (λ n. false) tasks
      (omega arith) (omega arith) (omega arith) (omega arith) (omega arith) tasks-IsSoundTask

claim_technical_qc_tasks-bounded_example :
    Returns
      (λ r.
        ((p : ℕ) → running_of_project r.tasks p ≤ max (running_of_project tasks p) 1)
        × ((k : ℕ) → running_of_item r.tasks k ≤ max (running_of_item tasks k) 1))
      (claim_technical_qc_tasks tables claim_settings 5 (λ n. n + 90) (λ n. false) tasks)
claim_technical_qc_tasks-bounded_example =
    claim_technical_qc_tasks-bounded tables claim_settings 5 (λ n. n + 90) (λ n. false) tasks
      (omega arith) (omega arith) (omega arith) (omega arith) (omega arith)
      (refl, (refl, (refl, tt)))

abbrev running_task : QcTask
running_task = record (task 1 1 11) {
  status = running;
  claim_id = some 90;
  lease_expires_at = some 60;
  attempts = 1;
}

running_task-IsSoundTask : IsSoundTask 3 running_task
running_task-IsSoundTask = record {
  claim_given = refl;
  lease_given = refl;
  progress = omega arith;
  positive = omega arith;
  probe_facts = tt;
  completion = refl;
  all_processed = λ e. cc;
  attempted = omega arith;
}

abbrev probe : QcMediaProbe
probe = record { video_frame_count = 20; video_duration_ms = 800; total_ms = 900 }

abbrev visits : List Visit
visits =
    record { now = 10; tables = tables; call = progress 1 90 (pos 500) }
    ∷ record { now = 20; tables = tables; call = renew 1 90 60 }
    ∷ record { now = 25; tables = tables; call = persist_probe 1 90 probe }
    ∷ record { now = 30; tables = tables; call = fail 1 90 (4 ∷ []) true 5 }
    ∷ []

visits-Measured : All (λ v. Measured v.call) visits
visits-Measured = (tt, (tt, ((omega arith, omega arith, omega arith), (tt, tt))))

visits_run :
    map (λ t. t.next_attempt_at) (worker_effects 3 visits (running_task ∷ [])) ≡ some 5000030 ∷ []
unfolding update_technical_qc_progress renew_technical_qc_lease fail_technical_qc_task
    persist_technical_qc_probe lock_active_claim
visits_run = refl

worker_effects-IsSoundTask_example :
    All (IsSoundTask 3) (worker_effects 3 visits (running_task ∷ []))
worker_effects-IsSoundTask_example =
    worker_effects-IsSoundTask 3 visits (running_task ∷ []) visits-Measured
      (running_task-IsSoundTask, tt)

-- The lease is over.
worker_effect-Authorized_example :
    (worker_effect 3 tables 60 (progress 1 90 (pos 700)) (running_task ∷ []) ≡ running_task ∷ [])
    ⊎ ((t : QcTask) × (task_at 1 (running_task ∷ []) ≡ some t)
        × Authorized tables 90 60 t
        × IsSame (progress 1 90 (pos 700)) t)
worker_effect-Authorized_example =
    worker_effect-Authorized 3 tables 60 (progress 1 90 (pos 700)) (running_task ∷ [])
