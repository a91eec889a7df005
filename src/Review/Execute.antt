-- ===== src/Review/Execute.antt =====
-- `execute` of infra/repositories.py: the commands of the review workflow and their handlers. Six
-- commands of `execute` have no constructor here: `DeleteProject`, `DeleteReviewItem` and
-- `DeleteReviewItemsBatch`, which remove rows and files, `RerunProjectTechnicalQc`,
-- `RetryFinalizationCleanup` and `PrepareFinalizedPackage`.
use video_review.Base.{ℕ, Bool, Option, Result, ok, err, Code, validation_error, key_error}
use video_review.Review.Store.{Store, Env}
use video_review.Review.Issues.{
  IssuePath, NewIssue, create_review_issue, update_review_issue, add_review_message, resolve_issue,
  reopen_issue, soft_delete_issue,
}
use video_review.Review.Projects.{
  create_project, update_project, lock_project_frame_rate, archive_project, restore_project,
  create_responsible_editor, rename_responsible_editor,
}
use video_review.Review.Items.{
  NewVersion, create_review_item, update_review_item, upload_review_version, start_review,
}
use video_review.Review.Finalize.{finalize_version, finalize_project}
use video_review.Review.Revoke.{revoke_finalization, revoke_project_finalization}

pub data Command : Type 0 where
  create_project_command : ℕ → ℕ → ℕ → ℕ → ℕ → Command
  update_project_command : ℕ → Option ℕ → ℕ → ℕ → Command
  lock_project_frame_rate_command : ℕ → ℕ → ℕ → Command
  create_responsible_editor_command : ℕ → Command
  rename_responsible_editor_command : ℕ → ℕ → Command
  archive_project_command : ℕ → Command
  restore_project_command : ℕ → Command
  create_review_item_command : ℕ → ℕ → Option ℕ → ℕ → NewVersion → Command
  update_review_item_command : Bool → Bool → ℕ → ℕ → Option ℕ → Option ℕ → Command
  upload_review_version_command : ℕ → ℕ → NewVersion → Command
  start_review_command : ℕ → ℕ → Command
  create_review_issue_command : NewIssue → Command
  update_review_issue_command : IssuePath → Option ℕ → Option ℕ → Command
  add_review_message_command : IssuePath → ℕ → Command
  resolve_issue_command : IssuePath → Command
  reopen_issue_command : IssuePath → Command
  soft_delete_issue_command : IssuePath → Command
  finalize_version_command : Bool → ℕ → ℕ → ℕ → Command
  finalize_project_command : Bool → ℕ → Command
  revoke_finalization_command : Bool → ℕ → ℕ → Command
  revoke_project_finalization_command : Bool → ℕ → Command

-- The entry of `handlers` for the command, with the expected version of the request.
unfoldable pub handle : Env → Store → Command → Option ℕ → Result Store
unfolding create_project update_project lock_project_frame_rate create_responsible_editor
    rename_responsible_editor archive_project restore_project create_review_item update_review_item
    upload_review_version start_review create_review_issue update_review_issue add_review_message
    resolve_issue reopen_issue soft_delete_issue finalize_version finalize_project
    revoke_finalization revoke_project_finalization
handle env s (create_project_command code name description num den) v =
    create_project env s code name description num den
handle env s (update_project_command project code name description) v =
    update_project env s project code name description v
handle env s (lock_project_frame_rate_command project num den) v =
    lock_project_frame_rate env s project num den v
handle env s (create_responsible_editor_command name) v = create_responsible_editor env s name
handle env s (rename_responsible_editor_command editor name) v =
    rename_responsible_editor env s editor name v
handle env s (archive_project_command project) v = archive_project env s project v
handle env s (restore_project_command project) v = restore_project env s project v
handle env s (create_review_item_command project code episode title version) v =
    create_review_item env s project code episode title version
handle env s (update_review_item_command has_episode has_title project key episode title) v =
    update_review_item env s has_episode has_title project key episode title v
handle env s (upload_review_version_command project key version) v =
    upload_review_version env s project key version v
handle env s (start_review_command project key) v = start_review env s project key v
handle env s (create_review_issue_command issue) v = create_review_issue env s issue v
handle env s (update_review_issue_command path content annotation) v =
    update_review_issue env s path content annotation v
handle env s (add_review_message_command path content) v = add_review_message env s path content
handle env s (resolve_issue_command path) v = resolve_issue env s path v
handle env s (reopen_issue_command path) v = reopen_issue env s path v
handle env s (soft_delete_issue_command path) v = soft_delete_issue env s path v
handle env s (finalize_version_command confirmed project key version) v =
    finalize_version env s confirmed project key version v
handle env s (finalize_project_command confirmed project) v =
    finalize_project env s confirmed project v
handle env s (revoke_finalization_command confirmed project key) v =
    revoke_finalization env s confirmed project key v
handle env s (revoke_project_finalization_command confirmed project) v =
    revoke_project_finalization env s confirmed project v

-- A `KeyError` of a handler is reported as a validation error.
reported_code : Code → Code
reported_code key_error = validation_error
reported_code code = code

unfoldable pub reported : Result Store → Result Store
unfolding reported_code
reported (ok s) = ok s
reported (err code) = err (reported_code code)

unfoldable pub execute : Env → Store → Command → Option ℕ → Result Store
unfolding handle reported
execute env s c v = reported (handle env s c v)
