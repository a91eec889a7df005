-- ===== src/Review/Sync/Issues.antt =====
-- The commands on issues of infra/repositories.py, against open issues and statuses.
use mathlib.Core.Path.{subst}
use video_review.Base.{
  ℕ, ◌≡◌, refl, Bool, true, false, not, Option, none, some, ◌==◌, is_some, if◌then◌else◌,
  count_where-append, Result, raise_if, arith, Bool-cases, inl, inr, some_eq, eq_of_test, Ensures,
  Ensures-bind, Ensures-then, Ensures-if, resource_not_found, resource_state_conflict,
}
use video_review.Review.Store.{
  in_review, Item, Issue, Revision, Store, Env, EventType, issue_resolved, issue_reopened,
  issue_deleted,
}
use video_review.Review.Guards.{
  or_empty, is_finalized, is_issue, is_open_issue, sync_item_workflow_for_current_issues, add_event,
  ensure_issue_writable, ensure_not_finalized, get_project, found, get_item, get_version,
  assert_project_active, expect_lock, ensure_current_version, assert_playback_ready,
}
use video_review.Review.Issues.{
  IssuePath, NewIssue, locked_issue, change_issue, insert_issue, record_review_issue_created,
  is_pending, is_resolved, sync_and_record, create_review_issue, updated_issue, revision_of,
  update_review_issue, add_review_message, resolve_issue, reopen_issue, soft_delete_issue,
}
use video_review.Review.Facts.{count_where-update_where, IsLocked, locked_issue-IsLocked}
use video_review.Review.Sync.{
  StatusFits, IsSynced, IsSyncedBut, synchronised, annotation_tables, same_tables,
}

-- A change of issues that all belong to one item.
change_issue-but :
    (p : IssuePath) (change : Issue → Issue) (s : Store)
    → ((i : Issue) → (change i).review_item_id ≡ i.review_item_id)
    → IsSynced s
    → IsSyncedBut p.review_item_id (change_issue p change s)
unfolding change_issue is_issue is_open_issue
change_issue-but p change s keeps h = record {
  fits = λ k item ne row.
      rw
        (count_where-update_where
          (is_issue p.project_ref_id p.review_item_id p.version_id p.issue_id)
          (is_open_issue k (or_empty item.current_version_id)) change s.issues
          (λ i e. ground (arith, keeps i)))
        (h.fits k item row);
}

-- Where the item is finalized its status fits any count.
finalized-IsSynced :
    (key : ℕ) (item : Item) (s : Store)
    → s.items key ≡ some item
    → is_finalized item.workflow_status ≡ true
    → IsSyncedBut key s
    → IsSynced s
finalized-IsSynced key item s row done h = record {
  fits = λ k other e. elim (Bool-cases (key == k)) [
    | inl same ↦
        let here : some item ≡ some other = rw (← row, eq_of_test key k same) e in
        ground (arith, some_eq here)
    | inr different ↦ h.fits k other (ground arith) e
  ];
}

sync_and_record-IsSynced :
    (env : Env) (event : EventType) (key : ℕ) (item : Item) (issue : Issue) (s : Store)
    → s.items key ≡ some item
    → IsSyncedBut key s
    → Ensures IsSynced (sync_and_record env event key item issue s)
unfolding sync_and_record add_event
sync_and_record-IsSynced env event key item issue s row h =
    elim (Bool-cases (is_finalized item.workflow_status)) [
      | inl done ↦ rw done (record { fits = (finalized-IsSynced key item s row done h).fits })
      | inr writable ↦ rw writable (
          Ensures-then IsSynced IsSynced (sync_item_workflow_for_current_issues env s key item) _
            (synchronised env s key item h) (λ t k. record { fits = k.fits }))
    ]

pub resolve_issue-IsSynced :
    (env : Env) (s : Store) (p : IssuePath) (v : Option ℕ)
    → IsSynced s
    → Ensures IsSynced (resolve_issue env s p v)
unfolding resolve_issue
resolve_issue-IsSynced env s p v h =
    Ensures-then (IsLocked s p false (ensure_issue_writable s) v) IsSynced
      (locked_issue s p false (ensure_issue_writable s) v) _
      (locked_issue-IsLocked s p false (ensure_issue_writable s) v)
      λ r l.
        Ensures-if IsSynced (is_resolved r.1.status) _ _ (λ e. h)
          (λ e.
            sync_and_record-IsSynced env issue_resolved p.review_item_id r.0 r.1 _ l.item_row
              (change_issue-but p _ s (λ i. refl) h))

pub reopen_issue-IsSynced :
    (env : Env) (s : Store) (p : IssuePath) (v : Option ℕ)
    → IsSynced s
    → Ensures IsSynced (reopen_issue env s p v)
unfolding reopen_issue
reopen_issue-IsSynced env s p v h =
    Ensures-then (IsLocked s p false writable v) IsSynced (locked_issue s p false writable v) _
      (locked_issue-IsLocked s p false writable v)
      λ r l.
        Ensures-if IsSynced (not (is_resolved r.1.status)) _ _ (λ e. h)
          (λ e.
            sync_and_record-IsSynced env issue_reopened p.review_item_id r.0 r.1 _ l.item_row
              (change_issue-but p _ s (λ i. refl) h))
  where
    writable : Item → Issue → Result (Unit {0})
    writable item issue = ensure_not_finalized item.workflow_status

pub soft_delete_issue-IsSynced :
    (env : Env) (s : Store) (p : IssuePath) (v : Option ℕ)
    → IsSynced s
    → Ensures IsSynced (soft_delete_issue env s p v)
unfolding soft_delete_issue
soft_delete_issue-IsSynced env s p v h =
    Ensures-then (IsLocked s p true (ensure_issue_writable s) v) IsSynced
      (locked_issue s p true (ensure_issue_writable s) v) _
      (locked_issue-IsLocked s p true (ensure_issue_writable s) v)
      λ r l.
        Ensures-bind IsSynced (raise_if (is_some r.1.deleted_at) resource_state_conflict) _
          λ u live.
            sync_and_record-IsSynced env issue_deleted p.review_item_id r.0 r.1 _ l.item_row
              (change_issue-but p _ s (λ i. refl) h)

-- A change that leaves every issue as open as it was.
change_issue-IsSynced :
    (p : IssuePath) (change : Issue → Issue) (s : Store)
    → ((k v : ℕ) (i : Issue) → is_open_issue k v (change i) ≡ is_open_issue k v i)
    → IsSynced s
    → IsSynced (change_issue p change s)
unfolding change_issue
change_issue-IsSynced p change s keeps h = record {
  fits = λ k item row.
      rw
        (count_where-update_where
          (is_issue p.project_ref_id p.review_item_id p.version_id p.issue_id)
          (is_open_issue k (or_empty item.current_version_id)) change s.issues
          (λ i e. keeps k (or_empty item.current_version_id) i))
        (h.fits k item row);
}

pub update_review_issue-IsSynced :
    (env : Env) (s : Store) (p : IssuePath) (content annotation v : Option ℕ)
    → IsSynced s
    → Ensures IsSynced (update_review_issue env s p content annotation v)
unfolding update_review_issue updated_issue add_event is_open_issue
update_review_issue-IsSynced env s p content annotation v h =
    Ensures-then (IsLocked s p false (ensure_issue_writable s) v) IsSynced
      (locked_issue s p false (ensure_issue_writable s) v) _
      (locked_issue-IsLocked s p false (ensure_issue_writable s) v)
      λ r l.
        Ensures-bind IsSynced
          (found resource_not_found (revision_of r.1.id (s.revisions r.1.current_revision_id))) _
          λ current has. go r.1 current
  where
    go :
        (issue : Issue) (current : Revision)
        → IsSynced (updated_issue env s p content annotation issue current)
    go issue current =
        change_issue-IsSynced p _ _ (λ k w i. refl)
          (same_tables s _ (annotation_tables env _ _ _ annotation s).0
            (annotation_tables env _ _ _ annotation s).1 h)

pub add_review_message-IsSynced :
    (env : Env) (s : Store) (p : IssuePath) (content : ℕ)
    → IsSynced s
    → Ensures IsSynced (add_review_message env s p content)
unfolding add_review_message add_event
add_review_message-IsSynced env s p content h =
    Ensures-bind IsSynced
      (locked_issue s p false (λ item issue. ensure_not_finalized item.workflow_status) none) _
      λ r l. record { fits = h.fits }

insert_issue-but :
    (env : Env) (p : NewIssue) (s : Store)
    → IsSynced s
    → IsSyncedBut p.review_item_id (insert_issue env p s)
unfolding insert_issue is_open_issue
insert_issue-but env p s h = record {
  fits = λ k item ne row.
      rw ((annotation_tables env _ _ _ p.annotation _).1, count_where-append)
        (subst (StatusFits item.workflow_status) (ground arith)
          (h.fits k item (rw (annotation_tables env _ _ _ p.annotation _).0 at row)));
}

recorded-IsSynced :
    (project item lock issue : ℕ) (started : Bool) (s : Store)
    → IsSynced s
    → IsSynced (record_review_issue_created project item lock issue started s)
unfolding record_review_issue_created add_event
recorded-IsSynced project item lock issue true s h = record { fits = h.fits }
recorded-IsSynced project item lock issue false s h = record { fits = h.fits }

pub create_review_issue-IsSynced :
    (env : Env) (s : Store) (p : NewIssue) (v : Option ℕ)
    → IsSynced s
    → Ensures IsSynced (create_review_issue env s p v)
unfolding create_review_issue record_review_issue_created add_event
create_review_issue-IsSynced env s p v h =
    Ensures-bind IsSynced (get_project s p.project_ref_id) _ λ project read.
      Ensures-bind IsSynced (assert_project_active project) _ λ a1 active.
        Ensures-bind IsSynced (get_item s p.project_ref_id p.review_item_id) _ λ item item_read.
          Ensures-bind IsSynced (expect_lock item.lock_version v) _ λ a2 lock.
            Ensures-bind IsSynced (get_version s p.project_ref_id p.review_item_id p.version_id) _
              λ version version_read.
                Ensures-bind IsSynced
                  (ensure_current_version p.version_id (or_empty item.current_version_id)) _
                  λ a3 current.
                    Ensures-bind IsSynced (assert_playback_ready env s version) _ λ a4 playable.
                      Ensures-bind IsSynced (ensure_not_finalized item.workflow_status) _
                        λ a5 writable.
                          Ensures-then IsSynced IsSynced
                            (sync_item_workflow_for_current_issues env (insert_issue env p s)
                              p.review_item_id
                              (record item {
                                workflow_status =
                                    if is_pending item.workflow_status
                                    then in_review
                                    else item.workflow_status;
                              }))
                            _ (synchronised env _ _ _ (insert_issue-but env p s h))
                            λ t k. recorded-IsSynced _ _ _ _ (is_pending item.workflow_status) t k
