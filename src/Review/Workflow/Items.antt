-- ===== src/Review/Workflow/Items.antt =====
-- The steps of an item under the commands on items of infra/repositories.py.
use video_review.Base.{
  ok, ℕ, ◌≡◌, refl, Bool, not, ◌||◌, Option, count_where, raise_if, arith, Bool-cases, inl, inr,
  Ensures, Ensures-bind, Bool-cases, inl, inr, validation_error, arith, ◌≡◌, refl, false, raise_if,
  not, ◌||◌, validation_error,
}
use video_review.Review.Store.{Workflow, Store, Env}
use video_review.Review.Guards.{
  is_finalized, or_empty, add_event, ensure_not_finalized, get_project, get_item, get_version,
  assert_project_active, expect_lock, assert_playback_ready, ensure_can_upload_version,
  get_ready_file, get_responsible_editor,
}
use video_review.Review.Issues.{is_pending}
use video_review.Review.Items.{
  NewVersion, authoritative_binding_probe, create_version, create_review_item, update_review_item,
  is_counted_issue, regroup_thumbnails, upload_review_version, start_review,
}
use video_review.Review.Facts.{get_item-row}
use video_review.Review.Workflow.{Step, working, kept, created, edited}
use video_review.Review.Workflow.Issues.{ensure_not_finalized-open}

ensure_can_upload_version-open :
    (w : Workflow) (n : ℕ) → ensure_can_upload_version w n ≡ ok tt → is_finalized w ≡ false
unfolding ensure_can_upload_version
ensure_can_upload_version-open w n h = ground arith

pub update_review_item-Step :
    (env : Env) (s : Store) (a b : Bool) (project key : ℕ) (episode title v : Option ℕ)
    → Ensures (λ t. Step env s t working) (update_review_item env s a b project key episode title v)
unfolding update_review_item add_event
update_review_item-Step env s a b project key episode title v =
    Ensures-bind P (raise_if (not (a || b)) validation_error) _ λ u given.
      Ensures-bind P (get_project s project) _ λ p read.
        Ensures-bind P (assert_project_active p) _ λ u active.
          Ensures-bind P (get_item s project key) _ λ item item_read.
            Ensures-bind P (ensure_not_finalized item.workflow_status) _ λ u writable.
              Ensures-bind P (expect_lock item.lock_version v) _ λ u lock.
                edited key item _ (get_item-row s project key item_read).0
                  (record {
                    was_open = ensure_not_finalized-open _ writable;
                    still_open = ensure_not_finalized-open _ writable;
                    same_project = refl;
                    same_finalization = refl;
                    versioned = λ h. h;
                    lock = refl;
                  })
                  refl refl
  where
    P : Store → Type 0
    P t = Step env s t working

pub start_review-Step :
    (env : Env) (s : Store) (project key : ℕ) (v : Option ℕ)
    → Ensures (λ t. Step env s t working) (start_review env s project key v)
unfolding start_review add_event
start_review-Step env s project key v = Ensures-bind P (get_project s project) _ λ p read.
    Ensures-bind P (assert_project_active p) _ λ u active.
      Ensures-bind P (get_item s project key) _ λ item item_read.
        Ensures-bind P (get_version s project key (or_empty item.current_version_id)) _
          λ version version_read.
            Ensures-bind P (assert_playback_ready env s version) _ λ u playable.
              Ensures-bind P (expect_lock item.lock_version v) _ λ u lock.
                Ensures-bind P (ensure_not_finalized item.workflow_status) _ λ u writable.
                  elim (Bool-cases (is_pending item.workflow_status)) [
                    | inl e ↦ rw e (
                        edited key item _ (get_item-row s project key item_read).0
                          (record {
                            was_open = ensure_not_finalized-open _ writable;
                            still_open = refl;
                            same_project = refl;
                            same_finalization = refl;
                            versioned = λ h. h;
                            lock = refl;
                          })
                          refl refl)
                    | inr e ↦ rw e (kept refl refl)
                  ]
  where
    P : Store → Type 0
    P t = Step env s t working

pub create_review_item-Step :
    (env : Env) (s : Store) (project code : ℕ) (episode : Option ℕ) (title : ℕ) (n : NewVersion)
    → Ensures (λ t. Step env s t working) (create_review_item env s project code episode title n)
unfolding create_review_item create_version add_event
create_review_item-Step env s project code episode title n =
    Ensures-bind P (get_project s project) _ λ p read.
      Ensures-bind P (assert_project_active p) _ λ u active.
        Ensures-bind P (get_ready_file env s n.original_file_id) _ λ file file_read.
          Ensures-bind P (authoritative_binding_probe env p n.original_file_id file) _ λ u probed.
            Ensures-bind P (get_responsible_editor s n.responsible_editor_id) _
              λ editor editor_read. created _ refl refl refl refl refl
  where
    P : Store → Type 0
    P t = Step env s t working

pub upload_review_version-Step :
    (env : Env) (s : Store) (project key : ℕ) (n : NewVersion) (v : Option ℕ)
    → Ensures (λ t. Step env s t working) (upload_review_version env s project key n v)
unfolding upload_review_version create_version regroup_thumbnails add_event
upload_review_version-Step env s project key n v =
    Ensures-bind P (get_project s project) _ λ p read.
      Ensures-bind P (assert_project_active p) _ λ u active.
        Ensures-bind P (get_item s project key) _ λ item item_read.
          Ensures-bind P (expect_lock item.lock_version v) _ λ u lock.
            Ensures-bind P (get_version s project key (or_empty item.current_version_id)) _
              λ current current_read.
                Ensures-bind P
                  (ensure_can_upload_version item.workflow_status (
                    count_where (is_counted_issue key (or_empty item.current_version_id)) s.issues))
                  _
                  λ u can.
                    Ensures-bind P (get_ready_file env s n.original_file_id) _ λ file file_read.
                      Ensures-bind P (authoritative_binding_probe env p n.original_file_id file) _
                        λ u probed.
                          Ensures-bind P (get_responsible_editor s n.responsible_editor_id) _
                            λ editor editor_read.
                              edited key item _ (get_item-row s project key item_read).0
                                (record {
                                  was_open = ensure_can_upload_version-open _ _ can;
                                  still_open = refl;
                                  same_project = refl;
                                  same_finalization = refl;
                                  versioned = λ h. refl;
                                  lock = refl;
                                })
                                refl refl
  where
    P : Store → Type 0
    P t = Step env s t working
