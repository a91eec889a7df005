-- ===== src/TechnicalQc/Tasks.antt =====
-- The tasks of the technical check: the rows of `technical_qc_tasks` and the operations of
-- technical_qc.py on one task, which a worker makes under its claim. Identifiers are numbers, a
-- time is a number of microseconds, and an error code is a text, which is a list of numbers.
use video_review.Base.{
  ℕ, ◌+◌, ◌*◌, Bool, true, false, ◌&&◌, ◌||◌, Option, none, some, List, ltb, ◌==◌, opt_eq, is_none,
  if◌then◌else◌, min, max, ℤ, is_negative, pos_part, Result, ok, raise_if, ◌>>◌, value_error,
  row_at, write_at, take,
}
use video_review.Review.Store.{Project, Item, Version, Lifecycle, active, archived}

-- `timedelta(seconds=n)`
abbrev pub seconds : ℕ → ℕ
seconds n = n * 1000000

pub data QcStatus : Type 0 where
  queued running complete failed : QcStatus

pub record QcTask : Type 0 where
  pub id : ℕ
  pub project_ref_id : ℕ
  pub review_item_id : ℕ
  pub version_id : ℕ
  pub input_file_id : ℕ
  pub status : QcStatus
  pub claim_id : Option ℕ
  pub lease_expires_at : Option ℕ
  pub processed_ms : ℕ
  pub total_ms : ℕ
  pub video_frame_count : Option ℕ
  pub video_duration_ms : Option ℕ
  pub container_duration_ms : Option ℕ
  pub error_code : Option (List ℕ)
  pub rule_version : ℕ
  pub attempts : ℕ
  pub next_attempt_at : Option ℕ
  pub created_at : ℕ
  pub updated_at : ℕ
  pub started_at : Option ℕ
  pub completed_at : Option ℕ

-- The row of `media_derivative_tasks` of kind `playback_faststart` of a version.
pub record PlaybackTask : Type 0 where
  pub project_ref_id : ℕ
  pub review_item_id : ℕ
  pub is_ready : Bool
  pub output_file_id : Option ℕ

-- The tables that a task is joined with.
pub record QcTables : Type 0 where
  pub projects : ℕ → Option Project
  pub items : ℕ → Option Item
  -- `current_version_is_current` of an item
  pub current_version_is_current : ℕ → Bool
  pub versions : ℕ → Option Version
  pub playback_tasks : ℕ → Option PlaybackTask
  -- whether `file_objects` has this row
  pub has_file : ℕ → Bool

abbrev pub is_running : QcStatus → Bool
is_running running = true
is_running _ = false

abbrev pub is_active : Lifecycle → Bool
is_active active = true
is_active archived = false

-- `deleted_at.is_(None)` and `lifecycle_status == "active"`
abbrev pub project_is_active : Option Project → Bool
project_is_active none = false
project_is_active (some p) = is_none p.deleted_at && is_active p.lifecycle_status

abbrev pub item_is_current : QcTables → QcTask → Option Item → Bool
item_is_current s t none = false
item_is_current s t (some i) =
    i.project_ref_id == t.project_ref_id
    && opt_eq i.current_version_id (some t.version_id)
    && s.current_version_is_current t.review_item_id

abbrev pub version_is_current : QcTask → Option Version → Bool
version_is_current t none = false
version_is_current t (some v) =
    v.project_ref_id == t.project_ref_id
    && v.review_item_id == t.review_item_id
    && v.is_current
    && opt_eq v.playback_asset_id (some t.input_file_id)

abbrev pub playback_is_ready : QcTask → Option PlaybackTask → Bool
playback_is_ready t none = false
playback_is_ready t (some d) =
    d.project_ref_id == t.project_ref_id
    && d.review_item_id == t.review_item_id
    && d.is_ready
    && opt_eq d.output_file_id (some t.input_file_id)

-- The joins and conditions of `_lock_active_technical_qc_claim` on the other tables.
abbrev has_authority : QcTables → QcTask → Bool
has_authority s t =
    project_is_active (s.projects t.project_ref_id)
    && item_is_current s t (s.items t.review_item_id)
    && version_is_current t (s.versions t.version_id)
    && playback_is_ready t (s.playback_tasks t.version_id)

-- `expires_at > at`
abbrev pub ends_after : Option ℕ → ℕ → Bool
ends_after none now = false
ends_after (some expires) now = ltb now expires

abbrev pub holds_claim : QcTables → ℕ → ℕ → QcTask → Bool
holds_claim s claim_id now t =
    is_running t.status
    && opt_eq t.claim_id (some claim_id)
    && ends_after t.lease_expires_at now
    && has_authority s t

abbrev pub task_at : ℕ → List QcTask → Option QcTask
task_at = row_at (λ t. t.id)

abbrev pub write_task : QcTask → List QcTask → List QcTask
write_task = write_at (λ t. t.id)

abbrev pub if_claimed : QcTables → ℕ → ℕ → Option QcTask → Option QcTask
if_claimed s claim_id now none = none
if_claimed s claim_id now (some t) = if holds_claim s claim_id now t then some t else none

unfoldable pub lock_active_claim : QcTables → ℕ → ℕ → ℕ → List QcTask → Option QcTask
lock_active_claim s task_id claim_id now tasks = if_claimed s claim_id now (task_at task_id tasks)

-- The write under a claim, and the answer whether the claim still stood.
abbrev pub write_claimed : (QcTask → QcTask) → List QcTask → Option QcTask → Bool × List QcTask
write_claimed edit tasks none = (false, tasks)
write_claimed edit tasks (some t) = (true, write_task (edit t) tasks)

abbrev pub progressed_task : ℕ → ℕ → QcTask → QcTask
progressed_task processed_ms now t = record t {
  processed_ms = min t.total_ms (max t.processed_ms processed_ms);
  updated_at = now;
}

unfoldable pub update_technical_qc_progress :
    QcTables → ℕ → ℕ → ℤ → ℕ → List QcTask → Result (Bool × List QcTask)
update_technical_qc_progress s task_id claim_id processed_ms now tasks = do
  raise_if (is_negative processed_ms) value_error
  ok (
      write_claimed (progressed_task (pos_part processed_ms) now) tasks
        (lock_active_claim s task_id claim_id now tasks))

abbrev pub renewed_task : ℕ → ℕ → QcTask → QcTask
renewed_task lease_seconds now t = record t {
  lease_expires_at = some (now + seconds lease_seconds);
  updated_at = now;
}

unfoldable pub renew_technical_qc_lease :
    QcTables → ℕ → ℕ → ℕ → ℕ → List QcTask → Result (Bool × List QcTask)
renew_technical_qc_lease s task_id claim_id lease_seconds now tasks = do
  raise_if (ltb lease_seconds 1) value_error
  ok (
      write_claimed (renewed_task lease_seconds now) tasks
        (lock_active_claim s task_id claim_id now tasks))

-- The claim that a worker holds, as far as the completion compares it with the row.
pub record QcClaim : Type 0 where
  pub task_id : ℕ
  pub claim_id : ℕ
  pub project_ref_id : ℕ
  pub review_item_id : ℕ
  pub version_id : ℕ
  pub input_file_id : ℕ
  pub rule_version : ℕ

abbrev pub matches_claim : QcClaim → QcTask → Bool
matches_claim c t =
    t.project_ref_id == c.project_ref_id
    && t.review_item_id == c.review_item_id
    && t.version_id == c.version_id
    && t.input_file_id == c.input_file_id
    && t.rule_version == c.rule_version

abbrev pub completed_task : ℕ → QcTask → QcTask
completed_task now t = record t {
  status = complete;
  processed_ms = t.total_ms;
  claim_id = none;
  lease_expires_at = none;
  completed_at = some now;
  updated_at = now;
}

abbrev pub if_matching : QcClaim → Option QcTask → Option QcTask
if_matching c none = none
if_matching c (some t) = if matches_claim c t then some t else none

unfoldable pub complete_technical_qc_task :
    QcTables → QcClaim → ℕ → List QcTask → Bool × List QcTask
complete_technical_qc_task s c now tasks =
    write_claimed (completed_task now) tasks
      (if_matching c (lock_active_claim s c.task_id c.claim_id now tasks))

pub record QcMediaProbe : Type 0 where
  pub video_frame_count : ℕ
  pub video_duration_ms : ℕ
  pub total_ms : ℕ

abbrev pub probed_task : QcMediaProbe → ℕ → QcTask → QcTask
probed_task probe now t = record t {
  video_frame_count = some probe.video_frame_count;
  video_duration_ms = some probe.video_duration_ms;
  container_duration_ms = some probe.total_ms;
  total_ms = probe.total_ms;
  processed_ms = min t.processed_ms probe.total_ms;
  updated_at = now;
}

unfoldable pub persist_technical_qc_probe :
    QcTables → ℕ → ℕ → QcMediaProbe → ℕ → List QcTask → Bool × List QcTask
persist_technical_qc_probe s task_id claim_id probe now tasks =
    write_claimed (probed_task probe now) tasks (lock_active_claim s task_id claim_id now tasks)

-- `error_code[:64]`, and a next attempt if one is left.
abbrev pub failed_task : List ℕ → Bool → ℕ → ℕ → ℕ → QcTask → QcTask
failed_task error_code retryable max_attempts retry_delay_seconds now t = record t {
  status = failed;
  claim_id = none;
  lease_expires_at = none;
  error_code = some (take 64 error_code);
  next_attempt_at =
      if retryable && ltb t.attempts max_attempts
      then some (now + seconds retry_delay_seconds)
      else none;
  updated_at = now;
}

unfoldable pub fail_technical_qc_task :
    QcTables → ℕ → ℕ → List ℕ → Bool → ℕ → ℕ → ℕ → List QcTask → Result (Bool × List QcTask)
fail_technical_qc_task s task_id claim_id error_code retryable max_attempts retry_delay_seconds now
      tasks =
    do
      raise_if (ltb max_attempts 1 || ltb retry_delay_seconds 1) value_error
      ok (
          write_claimed (failed_task error_code retryable max_attempts retry_delay_seconds now)
            tasks (lock_active_claim s task_id claim_id now tasks))
