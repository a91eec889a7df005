-- ===== src/Review/Guards.antt =====
-- Reading rows and refusing commands: the `_get_` and `_assert_` methods of infra/repositories.py,
-- domain/invariants.py, and the workflow synchronisation of infra/issue_workflow.py.
use video_review.Base.{
  ℕ, ◌+◌, max, Bool, true, false, not, ◌&&◌, ◌||◌, Option, none, some, List, [], ◌∷◌, ◌++◌, ltb,
  ◌==◌, opt_eq, is_none, is_some, if◌then◌else◌, count_where, Code, Result, ok, err, raise_if,
  ◌>>=◌, ◌>>◌, resource_not_found, resource_state_conflict, review_item_finalized,
  version_not_current, optimistic_lock_conflict, playback_not_ready, version_file_not_ready,
  principal_permission_denied, responsible_editor_not_found,
}
use video_review.Review.Store.{
  active, archived, Workflow, pending_review, in_review, changes_requested, finalized, unresolved,
  resolved, Project, Editor, File, Item, Version, Issue, Finding, Event, EventType, Store, Env,
}

-- The value of an optional text as Python's `x or ""` gives it.
abbrev pub or_empty : Option ℕ → ℕ
or_empty none = 0
or_empty (some n) = n

-- The truth of an optional text.
abbrev pub truthy : Option ℕ → Bool
truthy none = false
truthy (some n) = not (n == 0)

abbrev pub found {ℓ} : {A : Type ℓ} → Code → Option A → Result A
found code none = err code
found code (some a) = ok a

-- Write one row of a table that is read by its key.
abbrev pub put {ℓ} : {A : Type ℓ} → ℕ → A → (ℕ → Option A) → ℕ → Option A
put key row table = λ k. if key == k then some row else table k

-- The first row that passes the test, and the table with each such row changed.
module _ {ℓ} {A : Type ℓ} (test : A → Bool) where
  abbrev pub find : List A → Option A
  find [] = none
  find (x ∷ xs) = if test x then some x else find xs

  abbrev pub update_where : (A → A) → List A → List A
  update_where f [] = []
  update_where f (x ∷ xs) = (if test x then f x else x) ∷ update_where f xs

unfoldable pub get_project : Store → ℕ → Result Project
get_project s project_ref_id = found resource_not_found (s.projects project_ref_id)

-- `select ... where id and project_ref_id`
of_project : ℕ → Option Item → Option Item
of_project project_ref_id none = none
of_project project_ref_id (some item) =
    if item.project_ref_id == project_ref_id then some item else none

unfoldable pub get_item : Store → ℕ → ℕ → Result Item
unfolding of_project
get_item s project_ref_id review_item_id =
    found resource_not_found (of_project project_ref_id (s.items review_item_id))

of_item : ℕ → ℕ → Option Version → Option Version
of_item project_ref_id review_item_id none = none
of_item project_ref_id review_item_id (some version) =
    if version.project_ref_id == project_ref_id && version.review_item_id == review_item_id
    then some version
    else none

unfoldable pub get_version : Store → ℕ → ℕ → ℕ → Result Version
unfolding of_item
get_version s project_ref_id review_item_id version_id =
    found resource_not_found (of_item project_ref_id review_item_id (s.versions version_id))

-- The conditions of the query in `_get_issue`.
unfoldable pub is_issue : ℕ → ℕ → ℕ → ℕ → Issue → Bool
is_issue project_ref_id review_item_id version_id issue_id i =
    i.id == issue_id
    && i.project_ref_id == project_ref_id
    && i.review_item_id == review_item_id
    && i.version_id == version_id

unfoldable pub get_issue : Store → ℕ → ℕ → ℕ → ℕ → Bool → Result Issue
unfolding is_issue
get_issue s project_ref_id review_item_id version_id issue_id include_deleted = do
  issue ←
      found resource_not_found
        (find (is_issue project_ref_id review_item_id version_id issue_id) s.issues)
  raise_if (is_some issue.deleted_at && not include_deleted) resource_not_found
  ok issue

is_linked : Issue → Finding → Bool
is_linked issue f =
    f.issue_id == issue.id
    && f.project_ref_id == issue.project_ref_id
    && f.review_item_id == issue.review_item_id
    && f.version_id == issue.version_id

technical_qc_issue_is_linked : Store → Issue → Bool
unfolding is_linked
technical_qc_issue_is_linked s issue = is_some (find (is_linked issue) s.findings)

abbrev pub is_finalized : Workflow → Bool
is_finalized finalized = true
is_finalized _ = false

unfoldable pub ensure_not_finalized : Workflow → Result (Unit {0})
ensure_not_finalized status = raise_if (is_finalized status) review_item_finalized

unfoldable pub ensure_can_upload_version : Workflow → ℕ → Result (Unit {0})
unfolding ensure_not_finalized
ensure_can_upload_version status current_issue_count = do
  ensure_not_finalized status
  raise_if (ltb current_issue_count 1) resource_state_conflict

unfoldable pub ensure_current_version : ℕ → ℕ → Result (Unit {0})
ensure_current_version target_version_id current_version_id =
    raise_if (not (target_version_id == current_version_id)) version_not_current

-- The three other statuses are all finalizable.
abbrev is_finalizable : Workflow → Bool
is_finalizable pending_review = true
is_finalizable in_review = true
is_finalizable changes_requested = true
is_finalizable finalized = false

unfoldable pub ensure_finalizable : Workflow → Result (Unit {0})
unfolding ensure_not_finalized
ensure_finalizable status = do
  ensure_not_finalized status
  raise_if (not (is_finalizable status)) resource_state_conflict

unfoldable pub ensure_issue_writable : Store → Item → Issue → Result (Unit {0})
unfolding technical_qc_issue_is_linked ensure_not_finalized
ensure_issue_writable s item issue =
    if is_finalized item.workflow_status && technical_qc_issue_is_linked s issue
    then ok tt
    else ensure_not_finalized item.workflow_status

unfoldable pub expect_lock : ℕ → Option ℕ → Result (Unit {0})
expect_lock lock_version none = ok tt
expect_lock lock_version (some expected) =
    raise_if (not (lock_version == expected)) optimistic_lock_conflict

unfoldable pub assert_project_active : Project → Result (Unit {0})
assert_project_active p = do
  raise_if (is_some p.deleted_at) resource_state_conflict
  elim p.lifecycle_status [ active ↦ ok tt | archived ↦ err resource_state_conflict ]

-- An empty or unknown playback file is not ready.
playback_asset_is_ready : Env → Store → Option ℕ → Bool
playback_asset_is_ready env s asset =
    truthy asset && is_some (s.files (or_empty asset)) && env.readable (or_empty asset)

unfoldable pub assert_playback_ready : Env → Store → Version → Result (Unit {0})
unfolding playback_asset_is_ready
assert_playback_ready env s v =
    raise_if (not (playback_asset_is_ready env s v.playback_asset_id)) playback_not_ready

pub get_ready_file : Env → Store → ℕ → Result File
get_ready_file env s file_id = do
  file ← found version_file_not_ready (s.files file_id)
  raise_if
      (not (truthy env.principal_id)
        || not (opt_eq file.owner_principal_id env.principal_id)
        || not (file.owner_principal_kind == env.principal_kind))
      principal_permission_denied
  ok file

pub get_responsible_editor : Store → ℕ → Result Editor
get_responsible_editor s editor_id = found responsible_editor_not_found (s.editors editor_id)

-- Unresolved issues of the item's version that are not deleted.
unfoldable pub is_open_issue : ℕ → ℕ → Issue → Bool
is_open_issue review_item_id version_id i =
    i.review_item_id == review_item_id
    && i.version_id == version_id
    && elim i.status [ unresolved ↦ true | resolved ↦ false ]
    && is_none i.deleted_at

abbrev pub synced_status : ℕ → Workflow
synced_status open_count = if ltb 0 open_count then changes_requested else in_review

unfoldable pub sync_item_workflow_for_current_issues : Env → Store → ℕ → Item → Result Store
unfolding is_open_issue
sync_item_workflow_for_current_issues env s review_item_id item = do
  raise_if (is_finalized item.workflow_status) review_item_finalized
  raise_if (not (truthy item.current_version_id)) resource_state_conflict
  ok (record s {
    items =
        put review_item_id
          (record item {
            workflow_status = synced_status (
                count_where (is_open_issue review_item_id (or_empty item.current_version_id))
                  s.issues);
            lock_version = item.lock_version + 1;
            updated_at = env.now;
          })
          s.items;
  })

max_sequence : List Event → ℕ
max_sequence [] = 0
max_sequence (e ∷ es) = max e.sequence (max_sequence es)

-- `_event`: the persisted and the pending events are one list here.
unfoldable pub add_event : EventType → ℕ → ℕ → ℕ → Store → Store
unfolding max_sequence
add_event event_type project_ref_id aggregate_id aggregate_version s = record s {
  events =
      s.events
      ++ record {
        event_type = event_type;
        project_ref_id = project_ref_id;
        aggregate_id = aggregate_id;
        aggregate_version = aggregate_version;
        sequence = max_sequence s.events + 1;
      }
        ∷ [];
}
