-- ===== src/Review/Workflow/Issues.antt =====
-- The steps of an item under the commands on issues of infra/repositories.py.
use video_review.Base.{
  ℕ, ◌+◌, ◌≡◌, refl, ap, Bool, true, false, not, Option, none, some, is_some, if◌then◌else◌, Result,
  ok, raise_if, arith, Bool-cases, inl, inr, Ensures, Ensures-bind, Ensures-then, Ensures-if,
  resource_not_found, resource_state_conflict, review_item_finalized,
}
use video_review.Review.Store.{
  Workflow, in_review, Item, Issue, Revision, Store, Env, EventType, issue_resolved, issue_reopened,
  issue_deleted,
}
use video_review.Review.Guards.{
  or_empty, truthy, put, found, is_finalized, synced_status, sync_item_workflow_for_current_issues,
  add_event, ensure_issue_writable, ensure_not_finalized, get_project, get_item, get_version,
  assert_project_active, expect_lock, ensure_current_version, assert_playback_ready,
}
use video_review.Review.Issues.{
  IssuePath, NewIssue, locked_issue, change_issue, insert_issue, create_annotation_if_present,
  record_review_issue_created, is_pending, is_resolved, sync_and_record, create_review_issue,
  updated_issue, revision_of, update_review_issue, add_review_message, resolve_issue, reopen_issue,
  soft_delete_issue,
}
use video_review.Review.Facts.{get_item-row, IsLocked, locked_issue-IsLocked}
use video_review.Review.Workflow.{Step, working, kept, edited, same_rows}

synced_status-open : (n : ℕ) → is_finalized (synced_status n) ≡ false
synced_status-open n = ground arith

pub ensure_not_finalized-open :
    (w : Workflow) → ensure_not_finalized w ≡ ok tt → is_finalized w ≡ false
unfolding ensure_not_finalized
ensure_not_finalized-open w h = ground arith

-- The synchronisation of a row that differs from the stored one in its status only.
synchronised-Step :
    (env : Env) (s u : Store) (key : ℕ) (old item : Item)
    → s.items key ≡ some old
    → is_finalized old.workflow_status ≡ false
    → item.project_ref_id ≡ old.project_ref_id
    → item.active_finalization_id ≡ old.active_finalization_id
    → item.lock_version ≡ old.lock_version
    → item.current_version_id ≡ old.current_version_id
    → u.items ≡ s.items
    → u.finalizations ≡ s.finalizations
    → Ensures (λ t. Step env s t working) (sync_item_workflow_for_current_issues env u key item)
unfolding sync_item_workflow_for_current_issues
synchronised-Step env s u key old item row was_open project approval lock version items
      finalizations =
    Ensures-bind P (raise_if (is_finalized item.workflow_status) review_item_finalized) _
      λ a open_item.
        Ensures-bind P (raise_if (not (truthy item.current_version_id)) resource_state_conflict) _
          λ b has_version.
            edited key old _ row
              (record {
                was_open = was_open;
                still_open = synced_status-open _;
                same_project = project;
                same_finalization = approval;
                versioned = λ h. rw version h;
                lock = ap (λ n. n + 1) lock;
              })
              (ap (put key _) items) finalizations
  where
    P : Store → Type 0
    P t = Step env s t working

sync_and_record-Step :
    (env : Env) (event : EventType) (key : ℕ) (item : Item) (issue : Issue) (s u : Store)
    → s.items key ≡ some item
    → u.items ≡ s.items
    → u.finalizations ≡ s.finalizations
    → Ensures (λ t. Step env s t working) (sync_and_record env event key item issue u)
unfolding sync_and_record add_event
sync_and_record-Step env event key item issue s u row items finalizations =
    elim (Bool-cases (is_finalized item.workflow_status)) [
      | inl done ↦ rw done (kept items finalizations)
      | inr writable ↦ rw writable (
          Ensures-then P P (sync_item_workflow_for_current_issues env u key item) _
            (synchronised-Step env s u key item item row writable refl refl refl refl items
              finalizations)
            (λ t k. same_rows env working s t _ refl refl k))
    ]
  where
    P : Store → Type 0
    P t = Step env s t working

pub resolve_issue-Step :
    (env : Env) (s : Store) (p : IssuePath) (v : Option ℕ)
    → Ensures (λ t. Step env s t working) (resolve_issue env s p v)
unfolding resolve_issue change_issue
resolve_issue-Step env s p v =
    Ensures-then (IsLocked s p false (ensure_issue_writable s) v) (λ t. Step env s t working)
      (locked_issue s p false (ensure_issue_writable s) v) _
      (locked_issue-IsLocked s p false (ensure_issue_writable s) v)
      λ r l.
        Ensures-if (λ t. Step env s t working) (is_resolved r.1.status) _ _ (λ e. kept refl refl)
          (λ e.
            sync_and_record-Step env issue_resolved p.review_item_id r.0 r.1 s _ l.item_row refl
              refl)

pub reopen_issue-Step :
    (env : Env) (s : Store) (p : IssuePath) (v : Option ℕ)
    → Ensures (λ t. Step env s t working) (reopen_issue env s p v)
unfolding reopen_issue change_issue
reopen_issue-Step env s p v =
    Ensures-then (IsLocked s p false writable v) (λ t. Step env s t working)
      (locked_issue s p false writable v) _ (locked_issue-IsLocked s p false writable v)
      λ r l.
        Ensures-if (λ t. Step env s t working) (not (is_resolved r.1.status)) _ _
          (λ e. kept refl refl)
          (λ e.
            sync_and_record-Step env issue_reopened p.review_item_id r.0 r.1 s _ l.item_row refl
              refl)
  where
    writable : Item → Issue → Result (Unit {0})
    writable item issue = ensure_not_finalized item.workflow_status

pub soft_delete_issue-Step :
    (env : Env) (s : Store) (p : IssuePath) (v : Option ℕ)
    → Ensures (λ t. Step env s t working) (soft_delete_issue env s p v)
unfolding soft_delete_issue change_issue
soft_delete_issue-Step env s p v =
    Ensures-then (IsLocked s p true (ensure_issue_writable s) v) (λ t. Step env s t working)
      (locked_issue s p true (ensure_issue_writable s) v) _
      (locked_issue-IsLocked s p true (ensure_issue_writable s) v)
      λ r l.
        Ensures-bind (λ t. Step env s t working)
          (raise_if (is_some r.1.deleted_at) resource_state_conflict) _
          λ u live.
            sync_and_record-Step env issue_deleted p.review_item_id r.0 r.1 s _ l.item_row refl refl

annotation_rows :
    (env : Env) (id ms frame : ℕ) (a : Option ℕ) (s : Store)
    → ((create_annotation_if_present env id ms frame a s).items ≡ s.items)
      × ((create_annotation_if_present env id ms frame a s).finalizations ≡ s.finalizations)
unfolding create_annotation_if_present
annotation_rows env id ms frame none s = (refl, refl)
annotation_rows env id ms frame (some d) s = (refl, refl)

pub update_review_issue-Step :
    (env : Env) (s : Store) (p : IssuePath) (content annotation v : Option ℕ)
    → Ensures (λ t. Step env s t working) (update_review_issue env s p content annotation v)
unfolding update_review_issue updated_issue change_issue add_event
update_review_issue-Step env s p content annotation v =
    Ensures-then (IsLocked s p false (ensure_issue_writable s) v) (λ t. Step env s t working)
      (locked_issue s p false (ensure_issue_writable s) v) _
      (locked_issue-IsLocked s p false (ensure_issue_writable s) v)
      λ r l.
        Ensures-bind (λ t. Step env s t working)
          (found resource_not_found (revision_of r.1.id (s.revisions r.1.current_revision_id))) _
          λ current has. go r.1 current
  where
    go :
        (issue : Issue) (current : Revision)
        → Step env s (updated_issue env s p content annotation issue current) working
    go issue current =
        kept (annotation_rows env _ _ _ annotation s).0 (annotation_rows env _ _ _ annotation s).1

pub add_review_message-Step :
    (env : Env) (s : Store) (p : IssuePath) (content : ℕ)
    → Ensures (λ t. Step env s t working) (add_review_message env s p content)
unfolding add_review_message add_event
add_review_message-Step env s p content =
    Ensures-bind (λ t. Step env s t working)
      (locked_issue s p false (λ item issue. ensure_not_finalized item.workflow_status) none) _
      λ r l. kept refl refl

insert_issue-rows :
    (env : Env) (p : NewIssue) (s : Store)
    → ((insert_issue env p s).items ≡ s.items)
      × ((insert_issue env p s).finalizations ≡ s.finalizations)
unfolding insert_issue
insert_issue-rows env p s = annotation_rows env _ _ _ p.annotation _

recorded-Step :
    (env : Env) (project item lock issue : ℕ) (started : Bool) (s t : Store)
    → Step env s t working
    → Step env s (record_review_issue_created project item lock issue started t) working
unfolding record_review_issue_created add_event
recorded-Step env project item lock issue true s t k = same_rows env working s t _ refl refl k
recorded-Step env project item lock issue false s t k = same_rows env working s t _ refl refl k

pub create_review_issue-Step :
    (env : Env) (s : Store) (p : NewIssue) (v : Option ℕ)
    → Ensures (λ t. Step env s t working) (create_review_issue env s p v)
unfolding create_review_issue
create_review_issue-Step env s p v =
    Ensures-bind P (get_project s p.project_ref_id) _ λ project read.
      Ensures-bind P (assert_project_active project) _ λ a1 active.
        Ensures-bind P (get_item s p.project_ref_id p.review_item_id) _ λ item item_read.
          Ensures-bind P (expect_lock item.lock_version v) _ λ a2 lock.
            Ensures-bind P (get_version s p.project_ref_id p.review_item_id p.version_id) _
              λ version version_read.
                Ensures-bind P
                  (ensure_current_version p.version_id (or_empty item.current_version_id)) _
                  λ a3 current.
                    Ensures-bind P (assert_playback_ready env s version) _ λ a4 playable.
                      Ensures-bind P (ensure_not_finalized item.workflow_status) _ λ a5 writable.
                        Ensures-then P P
                          (sync_item_workflow_for_current_issues env (insert_issue env p s)
                            p.review_item_id
                            (record item {
                              workflow_status =
                                  if is_pending item.workflow_status
                                  then in_review
                                  else item.workflow_status;
                            }))
                          _
                          (synchronised-Step env s _ p.review_item_id item _
                            (get_item-row s p.project_ref_id p.review_item_id item_read).0
                            (ensure_not_finalized-open _ writable) refl refl refl refl
                            (insert_issue-rows env p s).0 (insert_issue-rows env p s).1)
                          λ t k. recorded-Step env _ _ _ _ (is_pending item.workflow_status) s t k
  where
    P : Store → Type 0
    P t = Step env s t working
