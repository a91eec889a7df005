-- ===== src/Review/Issues.antt =====
-- The commands on issues of infra/repositories.py: creating, updating, replying, resolving,
-- reopening and deleting. A command returns the tables as it leaves them.
use video_review.Base.{
  ℕ, ◌+◌, max, Bool, true, false, not, Option, none, some, List, [], ◌∷◌, ◌++◌, ◌==◌, is_some,
  if◌then◌else◌, Result, ok, raise_if, ◌>>=◌, ◌>>◌, resource_not_found, resource_state_conflict,
}
use video_review.Review.Store.{
  Workflow, pending_review, in_review, IssueStatus, unresolved, resolved, Item, Issue, Revision,
  Message, issue_created, issue_updated, message_added, issue_resolved, issue_reopened,
  issue_deleted, session_started, EventType, Store, Env,
}
use video_review.Review.Guards.{
  or_empty, truthy, found, put, update_where, get_project, get_item, get_version, get_issue,
  is_issue, is_finalized, ensure_not_finalized, ensure_current_version, ensure_issue_writable,
  expect_lock, assert_project_active, assert_playback_ready, sync_item_workflow_for_current_issues,
  add_event,
}

-- The path of a request on one issue.
pub record IssuePath : Type 0 where
  pub project_ref_id : ℕ
  pub review_item_id : ℕ
  pub version_id : ℕ
  pub issue_id : ℕ

-- An annotation that is absent or empty is `none`.
pub record NewIssue : Type 0 where
  pub project_ref_id : ℕ
  pub review_item_id : ℕ
  pub version_id : ℕ
  pub timestamp_ms : ℕ
  pub frame_number : ℕ
  pub content : ℕ
  pub annotation : Option ℕ

max_issue_no : ℕ → List Issue → ℕ
max_issue_no review_item_id [] = 0
max_issue_no review_item_id (i ∷ is) =
    let rest = max_issue_no review_item_id is in
    if i.review_item_id == review_item_id then max i.issue_no rest else rest

-- The new identifier, and the row behind the others.
annotation_id : Env → Option ℕ → Option ℕ
annotation_id env none = none
annotation_id env (some drawing) = some env.new_annotation_id

unfoldable pub create_annotation_if_present : Env → ℕ → ℕ → ℕ → Option ℕ → Store → Store
create_annotation_if_present env issue_id timestamp_ms frame_number none s = s
create_annotation_if_present env issue_id timestamp_ms frame_number (some drawing) s = record s {
  annotations =
      s.annotations
      ++ record {
        id = env.new_annotation_id;
        issue_id = issue_id;
        timestamp_ms = timestamp_ms;
        frame_number = frame_number;
        drawing = drawing;
      }
        ∷ [];
}

unfoldable pub is_pending : Workflow → Bool
is_pending pending_review = true
is_pending _ = false

unfoldable pub record_review_issue_created : ℕ → ℕ → ℕ → ℕ → Bool → Store → Store
record_review_issue_created project_ref_id review_item_id item_lock_version issue_id started_review
      s =
    add_event issue_created project_ref_id issue_id 1 (
      if started_review
      then add_event session_started project_ref_id review_item_id item_lock_version s
      else s)

-- The issue and its first revision, as `create_review_issue` inserts them.
unfoldable pub insert_issue : Env → NewIssue → Store → Store
unfolding max_issue_no annotation_id create_annotation_if_present
insert_issue env p s =
    let issue : Issue = record {
      id = env.new_issue_id;
      project_ref_id = p.project_ref_id;
      review_item_id = p.review_item_id;
      version_id = p.version_id;
      issue_no = max_issue_no p.review_item_id s.issues + 1;
      status = unresolved;
      current_revision_id = env.new_revision_id;
      timestamp_ms = p.timestamp_ms;
      frame_number = p.frame_number;
      deleted_at = none;
      lock_version = 1;
      updated_at = env.now;
    } in
    let revision : Revision = record {
      issue_id = env.new_issue_id;
      revision_no = 1;
      content = p.content;
      annotation_set_id = annotation_id env p.annotation;
    } in
    let t = record s { issues = s.issues ++ issue ∷ [] } in
    let u =
      create_annotation_if_present env env.new_issue_id p.timestamp_ms p.frame_number p.annotation
        t in
    record u { revisions = put env.new_revision_id revision u.revisions }

unfoldable pub create_review_issue : Env → Store → NewIssue → Option ℕ → Result Store
unfolding insert_issue is_pending record_review_issue_created
create_review_issue env s p expected_version = do
  project ← get_project s p.project_ref_id
  assert_project_active project
  item ← get_item s p.project_ref_id p.review_item_id
  expect_lock item.lock_version expected_version
  version ← get_version s p.project_ref_id p.review_item_id p.version_id
  ensure_current_version p.version_id (or_empty item.current_version_id)
  assert_playback_ready env s version
  ensure_not_finalized item.workflow_status
  let started_review = is_pending item.workflow_status
  let started_item : Item = record item {
    workflow_status = if started_review then in_review else item.workflow_status;
  }
  t ← sync_item_workflow_for_current_issues env (insert_issue env p s) p.review_item_id started_item
  ok (
      record_review_issue_created p.project_ref_id p.review_item_id (item.lock_version + 1)
        env.new_issue_id started_review t)

-- Change the row of the issue.
unfoldable pub change_issue : IssuePath → (Issue → Issue) → Store → Store
change_issue p change s = record s {
  issues =
      update_where (is_issue p.project_ref_id p.review_item_id p.version_id p.issue_id) change
        s.issues;
}

-- The checks that updating, resolving, reopening and deleting share, in their order. `writable` is
-- the check of the command, made between reading the issue and the check of its version.
abbrev pub locked_issue :
    Store → IssuePath → Bool → (Item → Issue → Result (Unit {0})) → Option ℕ → Result (Item × Issue)
locked_issue s p include_deleted writable expected_version = do
  project ← get_project s p.project_ref_id
  assert_project_active project
  item ← get_item s p.project_ref_id p.review_item_id
  issue ← get_issue s p.project_ref_id p.review_item_id p.version_id p.issue_id include_deleted
  writable item issue
  ensure_current_version issue.version_id (or_empty item.current_version_id)
  expect_lock issue.lock_version expected_version
  ok (item, issue)

-- `_get_revision`: the revision with this key, if it is one of the issue.
pub revision_of : ℕ → Option Revision → Option Revision
revision_of issue_id none = none
revision_of issue_id (some r) = if r.issue_id == issue_id then some r else none

-- The writes of `update_review_issue`.
unfoldable pub updated_issue :
    Env → Store → IssuePath → Option ℕ → Option ℕ → Issue → Revision → Store
unfolding change_issue annotation_id create_annotation_if_present
updated_issue env s p content annotation issue current =
    let t =
      create_annotation_if_present env issue.id issue.timestamp_ms issue.frame_number annotation
        s in
    let revision : Revision = record {
      issue_id = issue.id;
      revision_no = current.revision_no + 1;
      content = if truthy content then or_empty content else current.content;
      annotation_set_id =
          if is_some annotation then annotation_id env annotation else current.annotation_set_id;
    } in
    add_event issue_updated issue.project_ref_id issue.id (issue.lock_version + 1) (
      change_issue p
        (λ i. record i {
          current_revision_id = env.new_revision_id;
          lock_version = issue.lock_version + 1;
          updated_at = env.now;
        })
        (record t { revisions = put env.new_revision_id revision t.revisions }))

unfoldable pub update_review_issue :
    Env → Store → IssuePath → Option ℕ → Option ℕ → Option ℕ → Result Store
unfolding revision_of updated_issue
update_review_issue env s p content annotation expected_version = do
  r ← locked_issue s p false (ensure_issue_writable s) expected_version
  current ← found resource_not_found (revision_of r.1.id (s.revisions r.1.current_revision_id))
  ok (updated_issue env s p content annotation r.1 current)

unfoldable pub add_review_message : Env → Store → IssuePath → ℕ → Result Store
add_review_message env s p content = do
  r ← locked_issue s p false (λ item issue. ensure_not_finalized item.workflow_status) none
  let issue = r.1
  let message : Message = record { id = env.new_message_id; issue_id = issue.id; content = content }
  ok (
      add_event message_added issue.project_ref_id issue.id issue.lock_version
        (record s { messages = s.messages ++ message ∷ [] }))

abbrev pub is_resolved : IssueStatus → Bool
is_resolved resolved = true
is_resolved unresolved = false

-- `if item.workflow_status != "finalized": sync`, and then the event.
unfoldable pub sync_and_record : Env → EventType → ℕ → Item → Issue → Store → Result Store
sync_and_record env event_type review_item_id item issue s = do
  t ←
      (if is_finalized item.workflow_status
        then ok s
        else sync_item_workflow_for_current_issues env s review_item_id item)
  ok (add_event event_type issue.project_ref_id issue.id (issue.lock_version + 1) t)

unfoldable pub resolve_issue : Env → Store → IssuePath → Option ℕ → Result Store
unfolding change_issue sync_and_record
resolve_issue env s p expected_version = do
  r ← locked_issue s p false (ensure_issue_writable s) expected_version
  let issue = r.1
  if is_resolved issue.status
      then ok s
      else sync_and_record env issue_resolved p.review_item_id r.0 issue (
          change_issue p
            (λ i. record i {
              status = resolved;
              lock_version = issue.lock_version + 1;
              updated_at = env.now;
            })
            s)

unfoldable pub reopen_issue : Env → Store → IssuePath → Option ℕ → Result Store
unfolding change_issue sync_and_record
reopen_issue env s p expected_version = do
  r ←
      locked_issue s p false (λ item issue. ensure_not_finalized item.workflow_status)
        expected_version
  let issue = r.1
  if not (is_resolved issue.status)
      then ok s
      else sync_and_record env issue_reopened p.review_item_id r.0 issue (
          change_issue p
            (λ i. record i {
              status = unresolved;
              lock_version = issue.lock_version + 1;
              updated_at = env.now;
            })
            s)

unfoldable pub soft_delete_issue : Env → Store → IssuePath → Option ℕ → Result Store
unfolding change_issue sync_and_record
soft_delete_issue env s p expected_version = do
  r ← locked_issue s p true (ensure_issue_writable s) expected_version
  let issue = r.1
  raise_if (is_some issue.deleted_at) resource_state_conflict
  sync_and_record env issue_deleted p.review_item_id r.0 issue (
      change_issue p
        (λ i. record i {
          deleted_at = some env.now;
          lock_version = issue.lock_version + 1;
          updated_at = env.now;
        })
        s)
