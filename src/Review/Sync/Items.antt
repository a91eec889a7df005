-- ===== src/Review/Sync/Items.antt =====
-- The commands on items of infra/repositories.py, against open issues and statuses.
use video_review.Base.{
  ℕ, ◌≡◌, ◌≢◌, refl, Bool, not, ◌||◌, Option, List, [], ◌∷◌, count_where, All, raise_if, arith,
  Bool-cases, inl, inr, Ensures, Ensures-bind, validation_error,
}
use video_review.Review.Store.{Issue, Store, Env}
use video_review.Review.Guards.{
  or_empty, is_open_issue, add_event, ensure_not_finalized, get_project, get_item, get_version,
  assert_project_active, expect_lock, assert_playback_ready, ensure_can_upload_version,
  get_ready_file, get_responsible_editor,
}
use video_review.Review.Issues.{is_pending}
use video_review.Review.Items.{
  NewVersion, authoritative_binding_probe, create_version, create_review_item, update_review_item,
  is_counted_issue, regroup_thumbnails, upload_review_version, start_review,
}
use video_review.Review.Facts.{get_item-row}
use video_review.Review.Sync.{IsSynced, IsSynced-but, put-IsSynced}

-- No issue is of the version that a command is about to create.
abbrev pub IsUnused : ℕ → Store → Type 0
IsUnused version_id s = All (λ i. i.version_id ≢ version_id) s.issues

unused-count :
    (k version_id : ℕ) (is : List Issue)
    → All (λ i. i.version_id ≢ version_id) is
    → count_where (is_open_issue k version_id) is ≡ 0
unfolding is_open_issue
unused-count k version_id [] h = refl
unused-count k version_id (i ∷ is) h = ground (arith, unused-count k version_id is h.1)

pub update_review_item-IsSynced :
    (env : Env) (s : Store) (a b : Bool) (project key : ℕ) (episode title v : Option ℕ)
    → IsSynced s
    → Ensures IsSynced (update_review_item env s a b project key episode title v)
unfolding update_review_item add_event
update_review_item-IsSynced env s a b project key episode title v h =
    Ensures-bind IsSynced (raise_if (not (a || b)) validation_error) _ λ u given.
      Ensures-bind IsSynced (get_project s project) _ λ p read.
        Ensures-bind IsSynced (assert_project_active p) _ λ u active.
          Ensures-bind IsSynced (get_item s project key) _ λ item item_read.
            Ensures-bind IsSynced (ensure_not_finalized item.workflow_status) _ λ u writable.
              Ensures-bind IsSynced (expect_lock item.lock_version v) _ λ u lock.
                put-IsSynced key _ s _ refl refl (IsSynced-but key s h)
                  (h.fits key item (get_item-row s project key item_read).0)

pub start_review-IsSynced :
    (env : Env) (s : Store) (project key : ℕ) (v : Option ℕ)
    → IsSynced s
    → Ensures IsSynced (start_review env s project key v)
unfolding start_review add_event
start_review-IsSynced env s project key v h =
    Ensures-bind IsSynced (get_project s project) _ λ p read.
      Ensures-bind IsSynced (assert_project_active p) _ λ u active.
        Ensures-bind IsSynced (get_item s project key) _ λ item item_read.
          Ensures-bind IsSynced (get_version s project key (or_empty item.current_version_id)) _
            λ version version_read.
              Ensures-bind IsSynced (assert_playback_ready env s version) _ λ u playable.
                Ensures-bind IsSynced (expect_lock item.lock_version v) _ λ u lock.
                  Ensures-bind IsSynced (ensure_not_finalized item.workflow_status) _ λ u writable.
                    elim (Bool-cases (is_pending item.workflow_status)) [
                      | inl e ↦ rw e (put-IsSynced key _ s _ refl refl (IsSynced-but key s h) tt)
                      | inr e ↦ rw e h
                    ]

pub create_review_item-IsSynced :
    (env : Env) (s : Store) (project code : ℕ) (episode : Option ℕ) (title : ℕ) (n : NewVersion)
    → IsUnused env.new_version_id s
    → IsSynced s
    → Ensures IsSynced (create_review_item env s project code episode title n)
unfolding create_review_item create_version add_event
create_review_item-IsSynced env s project code episode title n unused h =
    Ensures-bind IsSynced (get_project s project) _ λ p read.
      Ensures-bind IsSynced (assert_project_active p) _ λ u active.
        Ensures-bind IsSynced (get_ready_file env s n.original_file_id) _ λ file file_read.
          Ensures-bind IsSynced (authoritative_binding_probe env p n.original_file_id file) _
            λ u probed.
              Ensures-bind IsSynced (get_responsible_editor s n.responsible_editor_id) _
                λ editor editor_read.
                  put-IsSynced env.new_item_id _ s _ refl refl (IsSynced-but env.new_item_id s h)
                    (unused-count env.new_item_id env.new_version_id s.issues unused)

pub upload_review_version-IsSynced :
    (env : Env) (s : Store) (project key : ℕ) (n : NewVersion) (v : Option ℕ)
    → IsUnused env.new_version_id s
    → IsSynced s
    → Ensures IsSynced (upload_review_version env s project key n v)
unfolding upload_review_version create_version regroup_thumbnails add_event
upload_review_version-IsSynced env s project key n v unused h =
    Ensures-bind IsSynced (get_project s project) _ λ p read.
      Ensures-bind IsSynced (assert_project_active p) _ λ u active.
        Ensures-bind IsSynced (get_item s project key) _ λ item item_read.
          Ensures-bind IsSynced (expect_lock item.lock_version v) _ λ u lock.
            Ensures-bind IsSynced (get_version s project key (or_empty item.current_version_id)) _
              λ current current_read.
                Ensures-bind IsSynced
                  (ensure_can_upload_version item.workflow_status (
                    count_where (is_counted_issue key (or_empty item.current_version_id)) s.issues))
                  _
                  λ u can.
                    Ensures-bind IsSynced (get_ready_file env s n.original_file_id) _
                      λ file file_read.
                        Ensures-bind IsSynced
                          (authoritative_binding_probe env p n.original_file_id file) _
                          λ u probed.
                            Ensures-bind IsSynced (get_responsible_editor s n.responsible_editor_id)
                              _
                              λ editor editor_read.
                                put-IsSynced key _ s _ refl refl (IsSynced-but key s h)
                                  (unused-count key env.new_version_id s.issues unused)
