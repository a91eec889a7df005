-- ===== src/Review/Workflow/Commands.antt =====
-- The steps of items under the commands of Review/Execute.
use video_review.Base.{
  refl, ℕ, Bool, not, ◌&&◌, Option, some, ◌==◌, opt_eq, is_some, ◌||◌, Result, ok, err, raise_if,
  Ensures, Ensures-bind, resource_state_conflict, responsible_editor_required,
  project_frame_rate_locked,
}
use video_review.Review.Store.{
  Lifecycle, active, archived, EventType, project_archived, project_restored, Store, Env,
}
use video_review.Review.Guards.{
  get_project, assert_project_active, expect_lock, get_responsible_editor, add_event,
}
use video_review.Review.Projects.{
  write_project, set_lifecycle, is_archived, create_project, update_project,
  lock_project_frame_rate, archive_project, restore_project, create_responsible_editor,
  rename_responsible_editor,
}
use video_review.Review.Execute.{
  Command, handle, reported, execute, create_project_command, update_project_command,
  lock_project_frame_rate_command, create_responsible_editor_command,
  rename_responsible_editor_command, archive_project_command, restore_project_command,
  create_review_item_command, update_review_item_command, upload_review_version_command,
  start_review_command, create_review_issue_command, update_review_issue_command,
  add_review_message_command, resolve_issue_command, reopen_issue_command,
  soft_delete_issue_command, finalize_version_command, finalize_project_command,
  revoke_finalization_command, revoke_project_finalization_command,
}
use video_review.Review.Workflow.{Act, working, approving, revoking, Step, Moves, kept, single}
use video_review.Review.Workflow.Issues.{
  create_review_issue-Step, update_review_issue-Step, add_review_message-Step, resolve_issue-Step,
  reopen_issue-Step, soft_delete_issue-Step,
}
use video_review.Review.Workflow.Items.{
  create_review_item-Step, update_review_item-Step, upload_review_version-Step, start_review-Step,
}
use video_review.Review.Workflow.Finalize.{finalize_version-Step, finalize_project-Steps}
use video_review.Review.Workflow.Revoke.{
  revoke_finalization-Steps, revoke_project_finalization-Steps,
}

update_project-Step :
    (env : Env) (s : Store) (project : ℕ) (code : Option ℕ) (name description : ℕ) (v : Option ℕ)
    → Ensures (λ t. Step env s t working) (update_project env s project code name description v)
unfolding update_project write_project add_event
update_project-Step env s project code name description v =
    Ensures-bind (λ t. Step env s t working) (get_project s project) _
      λ p read.
        Ensures-bind (λ t. Step env s t working) (assert_project_active p) _
          λ u active.
            Ensures-bind (λ t. Step env s t working) (expect_lock p.lock_version v) _
              λ u lock.
                Ensures-bind (λ t. Step env s t working)
                  (raise_if (is_some code && not (opt_eq code (some p.project_code)))
                    resource_state_conflict)
                  _ λ u same. kept refl refl

lock_project_frame_rate-Step :
    (env : Env) (s : Store) (project num den : ℕ) (v : Option ℕ)
    → Ensures (λ t. Step env s t working) (lock_project_frame_rate env s project num den v)
unfolding lock_project_frame_rate write_project add_event
lock_project_frame_rate-Step env s project num den v =
    Ensures-bind (λ t. Step env s t working) (get_project s project) _
      λ p read.
        Ensures-bind (λ t. Step env s t working) (assert_project_active p) _
          λ u active.
            Ensures-bind (λ t. Step env s t working) (expect_lock p.lock_version v) _
              λ u lock.
                Ensures-bind (λ t. Step env s t working)
                  (raise_if (is_some p.fps_num || is_some p.fps_den) project_frame_rate_locked) _
                  λ u free. kept refl refl

set_lifecycle-Step :
    (env : Env) (s : Store) (project : ℕ) (v : Option ℕ) (target : Lifecycle)
    (wrong : Lifecycle → Bool) (event : EventType)
    → Ensures (λ t. Step env s t working) (set_lifecycle env s project v target wrong event)
unfolding set_lifecycle write_project add_event
set_lifecycle-Step env s project v target wrong event =
    Ensures-bind (λ t. Step env s t working) (get_project s project) _
      λ p read.
        Ensures-bind (λ t. Step env s t working) (expect_lock p.lock_version v) _
          λ u lock.
            Ensures-bind (λ t. Step env s t working)
              (raise_if (is_some p.deleted_at) resource_state_conflict) _
              λ u live.
                Ensures-bind (λ t. Step env s t working)
                  (raise_if (wrong p.lifecycle_status) resource_state_conflict) _
                  λ u right. kept refl refl

create_responsible_editor-Step :
    (env : Env) (s : Store) (name : ℕ)
    → Ensures (λ t. Step env s t working) (create_responsible_editor env s name)
unfolding create_responsible_editor
create_responsible_editor-Step env s name =
    Ensures-bind (λ t. Step env s t working) (raise_if (name == 0) responsible_editor_required) _
      λ u named. kept refl refl

rename_responsible_editor-Step :
    (env : Env) (s : Store) (editor name : ℕ) (v : Option ℕ)
    → Ensures (λ t. Step env s t working) (rename_responsible_editor env s editor name v)
unfolding rename_responsible_editor
rename_responsible_editor-Step env s editor name v =
    Ensures-bind (λ t. Step env s t working) (get_responsible_editor s editor) _
      λ e read.
        Ensures-bind (λ t. Step env s t working) (expect_lock e.lock_version v) _
          λ u lock.
            Ensures-bind (λ t. Step env s t working)
              (raise_if (name == 0) responsible_editor_required) _ λ u named. kept refl refl

-- The kind of a command.
abbrev pub act_of : Command → Act
act_of (create_project_command _ _ _ _ _) = working
act_of (update_project_command _ _ _ _) = working
act_of (lock_project_frame_rate_command _ _ _) = working
act_of (create_responsible_editor_command _) = working
act_of (rename_responsible_editor_command _ _) = working
act_of (archive_project_command _) = working
act_of (restore_project_command _) = working
act_of (create_review_item_command _ _ _ _ _) = working
act_of (update_review_item_command _ _ _ _ _ _) = working
act_of (upload_review_version_command _ _ _) = working
act_of (start_review_command _ _) = working
act_of (create_review_issue_command _) = working
act_of (update_review_issue_command _ _ _) = working
act_of (add_review_message_command _ _) = working
act_of (resolve_issue_command _) = working
act_of (reopen_issue_command _) = working
act_of (soft_delete_issue_command _) = working
act_of (finalize_version_command _ _ _ _) = approving
act_of (finalize_project_command _ _) = approving
act_of (revoke_finalization_command _ _ _) = revoking
act_of (revoke_project_finalization_command _ _) = revoking

handle-Moves :
    (env : Env) (s : Store) (c : Command) (v : Option ℕ)
    → Ensures (Moves env s (act_of c)) (handle env s c v)
unfolding handle create_project archive_project restore_project write_project add_event
handle-Moves env s (create_project_command code name description num den) v = kept refl refl
handle-Moves env s (update_project_command project code name description) v =
    update_project-Step env s project code name description v
handle-Moves env s (lock_project_frame_rate_command project num den) v =
    lock_project_frame_rate-Step env s project num den v
handle-Moves env s (create_responsible_editor_command name) v =
    create_responsible_editor-Step env s name
handle-Moves env s (rename_responsible_editor_command editor name) v =
    rename_responsible_editor-Step env s editor name v
handle-Moves env s (archive_project_command project) v =
    set_lifecycle-Step env s project v archived is_archived project_archived
handle-Moves env s (restore_project_command project) v =
    set_lifecycle-Step env s project v active (λ l. not (is_archived l)) project_restored
handle-Moves env s (create_review_item_command project code episode title version) v =
    create_review_item-Step env s project code episode title version
handle-Moves env s (update_review_item_command has_episode has_title project key episode title) v =
    update_review_item-Step env s has_episode has_title project key episode title v
handle-Moves env s (upload_review_version_command project key version) v =
    upload_review_version-Step env s project key version v
handle-Moves env s (start_review_command project key) v = start_review-Step env s project key v
handle-Moves env s (create_review_issue_command issue) v = create_review_issue-Step env s issue v
handle-Moves env s (update_review_issue_command path content annotation) v =
    update_review_issue-Step env s path content annotation v
handle-Moves env s (add_review_message_command path content) v =
    add_review_message-Step env s path content
handle-Moves env s (resolve_issue_command path) v = resolve_issue-Step env s path v
handle-Moves env s (reopen_issue_command path) v = reopen_issue-Step env s path v
handle-Moves env s (soft_delete_issue_command path) v = soft_delete_issue-Step env s path v
handle-Moves env s (finalize_version_command confirmed project key version) v =
    single env approving s _ (finalize_version-Step env s confirmed project key version v)
handle-Moves env s (finalize_project_command confirmed project) v =
    finalize_project-Steps env s confirmed project v
handle-Moves env s (revoke_finalization_command confirmed project key) v =
    single env revoking s _ (revoke_finalization-Steps env s confirmed project key v)
handle-Moves env s (revoke_project_finalization_command confirmed project) v =
    revoke_project_finalization-Steps env s confirmed project v

reported-Moves :
    (env : Env) (s : Store) (act : Act) (r : Result Store)
    → Ensures (Moves env s act) r
    → Ensures (Moves env s act) (reported r)
unfolding reported
reported-Moves env s act (ok t) h = h
reported-Moves env s act (err code) h = tt

-- A command that succeeds takes only the steps that the workflow of items allows to its kind,
-- where the command is not a deletion of a project or of items, a rerun of the technical check, a
-- cleanup of a finalization or a preparation of a package: a finalization approves open items and
-- binds them to new finalizations of their current versions, a revocation reopens approved items
-- and revokes their finalizations, and each of the others creates an open item, edits one open
-- item, or leaves items and finalizations alone.
pub execute-Moves :
    (env : Env) (s : Store) (c : Command) (v : Option ℕ)
    → Ensures (Moves env s (act_of c)) (execute env s c v)
unfolding execute
execute-Moves env s c v =
    reported-Moves env s (act_of c) (handle env s c v) (handle-Moves env s c v)
