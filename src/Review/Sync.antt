-- ===== src/Review/Sync.antt =====
-- The workflow status of every item against its open issues, and what single writes do to it.
pub mod Issues
pub mod Items
pub mod Finalize
pub mod Commands
use mathlib.Core.Path.{subst}
use video_review.Base.{
  ℕ, zero, suc, ◌+◌, ◌≤◌, ◌<◌, ◌≡◌, ◌≢◌, refl, Bool, true, false, not, ◌&&◌, Option, none, some,
  List, [], ◌∷◌, ◌++◌, ◌==◌, ltb, is_some, if◌then◌else◌, count_where, count_where-append, Result,
  ok, err, raise_if, ◌>>=◌, ◌>>◌, arith, Bool-cases, inl, inr, some_eq, eq_of_test, Ensures,
  Ensures-bind, Ensures-then, Ensures-if, resource_not_found, resource_state_conflict,
}
use video_review.Review.Store.{
  Workflow, pending_review, in_review, changes_requested, finalized, Item, Issue, Revision,
  IssueStatus, unresolved, resolved, Store, Env, EventType, issue_resolved, issue_reopened,
  issue_deleted,
}
use video_review.Review.Guards.{
  or_empty, truthy, put, update_where, is_finalized, is_issue, is_open_issue, synced_status,
  sync_item_workflow_for_current_issues, add_event, ensure_issue_writable, ensure_not_finalized,
  get_project, found, get_item, get_version, assert_project_active, expect_lock,
  ensure_current_version, assert_playback_ready,
}
use video_review.Review.Issues.{
  IssuePath, NewIssue, locked_issue, change_issue, insert_issue, create_annotation_if_present,
  record_review_issue_created, is_pending, is_resolved, sync_and_record, create_review_issue,
  updated_issue, revision_of, update_review_issue, add_review_message, resolve_issue, reopen_issue,
  soft_delete_issue,
}
use video_review.Review.Facts.{
  count_where-update_where, is_issue-fields, get_item-row, IsLocked, locked_issue-IsLocked,
}

-- How many issues of the item's current version are open.
abbrev pub open_count : Store → ℕ → Item → ℕ
open_count s k item = count_where (is_open_issue k (or_empty item.current_version_id)) s.issues

-- An item waiting for review has no open issue, one with requested changes has an open issue.
abbrev pub StatusFits : Workflow → ℕ → Type 0
StatusFits pending_review n = n ≡ 0
StatusFits in_review n = Unit {0}
StatusFits changes_requested n = 0 < n
StatusFits finalized n = Unit {0}

pub record IsSynced (s : Store) : Type 0 where
  pub fits :
      (k : ℕ) (item : Item)
      → s.items k ≡ some item
      → StatusFits item.workflow_status (open_count s k item)

-- The same for every item but one.
pub record IsSyncedBut (key : ℕ) (s : Store) : Type 0 where
  pub fits :
      (k : ℕ) (item : Item)
      → key ≢ k
      → s.items k ≡ some item
      → StatusFits item.workflow_status (open_count s k item)

pub IsSynced-but : (key : ℕ) (s : Store) → IsSynced s → IsSyncedBut key s
IsSynced-but key s h = record { fits = λ k item ne row. h.fits k item row }

synced_status-fits : (n : ℕ) → StatusFits (synced_status n) n
synced_status-fits n = ground arith

-- Writing one row whose status fits completes the rest.
pub put-IsSynced :
    (key : ℕ) (row : Item) (s t : Store)
    → t.items ≡ put key row s.items
    → t.issues ≡ s.issues
    → IsSyncedBut key s
    → StatusFits row.workflow_status (open_count s key row)
    → IsSynced t
put-IsSynced key row s t items issues h fit = record {
  fits = λ k item e. go k item (rw items at e);
}
  where
    go :
        (k : ℕ) (item : Item)
        → put key row s.items k ≡ some item
        → StatusFits item.workflow_status (open_count t k item)
    go k item e = elim (Bool-cases (key == k)) [
      | inl same ↦ rw issues (
          subst (λ r. StatusFits r.workflow_status (open_count s k r)) (some_eq (rw same at e))
            (subst (λ j. StatusFits row.workflow_status (open_count s j row))
              (eq_of_test key k same) fit))
      | inr other ↦ rw issues (h.fits k item (ground arith) (rw other at e))
    ]

pub synchronised :
    (env : Env) (s : Store) (key : ℕ) (item : Item)
    → IsSyncedBut key s
    → Ensures IsSynced (sync_item_workflow_for_current_issues env s key item)
unfolding sync_item_workflow_for_current_issues
synchronised env s key item h =
    Ensures-bind IsSynced (raise_if (is_finalized item.workflow_status) _) _ λ u open_item.
      Ensures-bind IsSynced
        (raise_if (not (truthy item.current_version_id)) resource_state_conflict) _
        λ v has_version. put-IsSynced key _ s _ refl refl h (synced_status-fits _)

-- An annotation touches neither items nor issues.
pub annotation_tables :
    (env : Env) (id ms frame : ℕ) (a : Option ℕ) (s : Store)
    → ((create_annotation_if_present env id ms frame a s).items ≡ s.items)
      × ((create_annotation_if_present env id ms frame a s).issues ≡ s.issues)
unfolding create_annotation_if_present
annotation_tables env id ms frame none s = (refl, refl)
annotation_tables env id ms frame (some d) s = (refl, refl)

pub same_tables : (s t : Store) → t.items ≡ s.items → t.issues ≡ s.issues → IsSynced s → IsSynced t
same_tables s t items issues h = record {
  fits = λ k item e. rw issues (h.fits k item (rw items at e));
}
