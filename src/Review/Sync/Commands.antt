-- ===== src/Review/Sync/Commands.antt =====
-- The dispatch of infra/repositories.py and histories, against open issues and statuses.
use video_review.Base.{
  ℕ, Bool, not, ◌&&◌, Option, some, ◌==◌, opt_eq, is_some, ◌||◌, Result, ok, err, raise_if, Ensures,
  Ensures-bind, Ensures-ok, resource_state_conflict, responsible_editor_required,
  project_frame_rate_locked,
}
use video_review.Review.Store.{
  Lifecycle, active, archived, EventType, project_archived, project_restored, Store, Env,
}
use video_review.Review.Guards.{
  get_project, assert_project_active, expect_lock, get_responsible_editor, add_event,
}
use video_review.Review.Projects.{
  write_project, set_lifecycle, is_archived, create_project, update_project,
  lock_project_frame_rate, archive_project, restore_project, create_responsible_editor,
  rename_responsible_editor,
}
use video_review.Review.Execute.{
  Command, handle, reported, execute, create_project_command, update_project_command,
  lock_project_frame_rate_command, create_responsible_editor_command,
  rename_responsible_editor_command, archive_project_command, restore_project_command,
  create_review_item_command, update_review_item_command, upload_review_version_command,
  start_review_command, create_review_issue_command, update_review_issue_command,
  add_review_message_command, resolve_issue_command, reopen_issue_command,
  soft_delete_issue_command, finalize_version_command, finalize_project_command,
  revoke_finalization_command, revoke_project_finalization_command,
}
use video_review.Review.History.{History, start, next}
use video_review.Review.Sync.{IsSynced}
use video_review.Review.Sync.Issues.{
  create_review_issue-IsSynced, update_review_issue-IsSynced, add_review_message-IsSynced,
  resolve_issue-IsSynced, reopen_issue-IsSynced, soft_delete_issue-IsSynced,
}
use video_review.Review.Sync.Items.{
  IsUnused, create_review_item-IsSynced, update_review_item-IsSynced,
  upload_review_version-IsSynced, start_review-IsSynced,
}
use video_review.Review.Sync.Finalize.{
  finalize_version-IsSynced, finalize_project-IsSynced, revoke_finalization-IsSynced,
  revoke_project_finalization-IsSynced,
}

update_project-IsSynced :
    (env : Env) (s : Store) (project : ℕ) (code : Option ℕ) (name description : ℕ) (v : Option ℕ)
    → IsSynced s
    → Ensures IsSynced (update_project env s project code name description v)
unfolding update_project write_project add_event
update_project-IsSynced env s project code name description v h =
    Ensures-bind IsSynced (get_project s project) _ λ p read.
      Ensures-bind IsSynced (assert_project_active p) _ λ u active.
        Ensures-bind IsSynced (expect_lock p.lock_version v) _ λ u lock.
          Ensures-bind IsSynced
            (raise_if (is_some code && not (opt_eq code (some p.project_code)))
              resource_state_conflict)
            _ λ u same. record { fits = h.fits }

lock_project_frame_rate-IsSynced :
    (env : Env) (s : Store) (project num den : ℕ) (v : Option ℕ)
    → IsSynced s
    → Ensures IsSynced (lock_project_frame_rate env s project num den v)
unfolding lock_project_frame_rate write_project add_event
lock_project_frame_rate-IsSynced env s project num den v h =
    Ensures-bind IsSynced (get_project s project) _ λ p read.
      Ensures-bind IsSynced (assert_project_active p) _ λ u active.
        Ensures-bind IsSynced (expect_lock p.lock_version v) _ λ u lock.
          Ensures-bind IsSynced
            (raise_if (is_some p.fps_num || is_some p.fps_den) project_frame_rate_locked) _
            λ u free. record { fits = h.fits }

set_lifecycle-IsSynced :
    (env : Env) (s : Store) (project : ℕ) (v : Option ℕ) (target : Lifecycle)
    (wrong : Lifecycle → Bool) (event : EventType)
    → IsSynced s
    → Ensures IsSynced (set_lifecycle env s project v target wrong event)
unfolding set_lifecycle write_project add_event
set_lifecycle-IsSynced env s project v target wrong event h =
    Ensures-bind IsSynced (get_project s project) _ λ p read.
      Ensures-bind IsSynced (expect_lock p.lock_version v) _ λ u lock.
        Ensures-bind IsSynced (raise_if (is_some p.deleted_at) resource_state_conflict) _ λ u live.
          Ensures-bind IsSynced (raise_if (wrong p.lifecycle_status) resource_state_conflict) _
            λ u right. record { fits = h.fits }

create_responsible_editor-IsSynced :
    (env : Env) (s : Store) (name : ℕ)
    → IsSynced s
    → Ensures IsSynced (create_responsible_editor env s name)
unfolding create_responsible_editor
create_responsible_editor-IsSynced env s name h =
    Ensures-bind IsSynced (raise_if (name == 0) responsible_editor_required) _
      λ u named. record { fits = h.fits }

rename_responsible_editor-IsSynced :
    (env : Env) (s : Store) (editor name : ℕ) (v : Option ℕ)
    → IsSynced s
    → Ensures IsSynced (rename_responsible_editor env s editor name v)
unfolding rename_responsible_editor
rename_responsible_editor-IsSynced env s editor name v h =
    Ensures-bind IsSynced (get_responsible_editor s editor) _ λ e read.
      Ensures-bind IsSynced (expect_lock e.lock_version v) _ λ u lock.
        Ensures-bind IsSynced (raise_if (name == 0) responsible_editor_required) _
          λ u named. record { fits = h.fits }

handle-IsSynced :
    (env : Env) (s : Store) (c : Command) (v : Option ℕ)
    → IsUnused env.new_version_id s
    → IsSynced s
    → Ensures IsSynced (handle env s c v)
unfolding handle create_project archive_project restore_project write_project add_event
handle-IsSynced env s (create_project_command code name description num den) v unused h = record {
  fits = h.fits;
}
handle-IsSynced env s (update_project_command project code name description) v unused h =
    update_project-IsSynced env s project code name description v h
handle-IsSynced env s (lock_project_frame_rate_command project num den) v unused h =
    lock_project_frame_rate-IsSynced env s project num den v h
handle-IsSynced env s (create_responsible_editor_command name) v unused h =
    create_responsible_editor-IsSynced env s name h
handle-IsSynced env s (rename_responsible_editor_command editor name) v unused h =
    rename_responsible_editor-IsSynced env s editor name v h
handle-IsSynced env s (archive_project_command project) v unused h =
    set_lifecycle-IsSynced env s project v archived is_archived project_archived h
handle-IsSynced env s (restore_project_command project) v unused h =
    set_lifecycle-IsSynced env s project v active (λ l. not (is_archived l)) project_restored h
handle-IsSynced env s (create_review_item_command project code episode title version) v unused h =
    create_review_item-IsSynced env s project code episode title version unused h
handle-IsSynced env s (update_review_item_command has_episode has_title project key episode title) v
      unused h =
    update_review_item-IsSynced env s has_episode has_title project key episode title v h
handle-IsSynced env s (upload_review_version_command project key version) v unused h =
    upload_review_version-IsSynced env s project key version v unused h
handle-IsSynced env s (start_review_command project key) v unused h =
    start_review-IsSynced env s project key v h
handle-IsSynced env s (create_review_issue_command issue) v unused h =
    create_review_issue-IsSynced env s issue v h
handle-IsSynced env s (update_review_issue_command path content annotation) v unused h =
    update_review_issue-IsSynced env s path content annotation v h
handle-IsSynced env s (add_review_message_command path content) v unused h =
    add_review_message-IsSynced env s path content h
handle-IsSynced env s (resolve_issue_command path) v unused h =
    resolve_issue-IsSynced env s path v h
handle-IsSynced env s (reopen_issue_command path) v unused h = reopen_issue-IsSynced env s path v h
handle-IsSynced env s (soft_delete_issue_command path) v unused h =
    soft_delete_issue-IsSynced env s path v h
handle-IsSynced env s (finalize_version_command confirmed project key version) v unused h =
    finalize_version-IsSynced env s confirmed project key version v h
handle-IsSynced env s (finalize_project_command confirmed project) v unused h =
    finalize_project-IsSynced env s confirmed project v h
handle-IsSynced env s (revoke_finalization_command confirmed project key) v unused h =
    revoke_finalization-IsSynced env s confirmed project key v h
handle-IsSynced env s (revoke_project_finalization_command confirmed project) v unused h =
    revoke_project_finalization-IsSynced env s confirmed project v h

reported-Ensures : (r : Result Store) → Ensures IsSynced r → Ensures IsSynced (reported r)
unfolding reported
reported-Ensures (ok s) h = h
reported-Ensures (err code) h = tt

-- A command that succeeds keeps `IsSynced`, if no issue refers to the identifier for a new version.
pub execute-IsSynced :
    (env : Env) (s : Store) (c : Command) (v : Option ℕ)
    → IsUnused env.new_version_id s
    → IsSynced s
    → Ensures IsSynced (execute env s c v)
unfolding execute
execute-IsSynced env s c v unused h =
    reported-Ensures (handle env s c v) (handle-IsSynced env s c v unused h)

-- If in a store every item waiting for review has no open issue on its current version and every
-- item with requested changes has one, then this holds after every history of successful commands
-- with unused identifiers.
pub History-IsSynced : (s t : Store) → History s t → IsSynced s → IsSynced t
History-IsSynced s t start h = h
History-IsSynced s t (next {t = before} env c v past fresh e) h =
    Ensures-ok IsSynced (execute env before c v)
      (execute-IsSynced env before c v fresh.version (History-IsSynced s before past h)) e
