-- ===== src/Review/Workflow/Finalize.antt =====
-- The steps of items under `finalize_version` and `finalize_project`.
use video_review.Base.{
  ◌≡◌, refl, sym, arith, true, false, ◌&&◌, List, [], ◌∷◌, none, some, ok, err,
  resource_state_conflict, Result, ℕ, refl, Bool, true, false, not, ◌&&◌, Option, none, some, List,
  [], ◌∷◌, ◌==◌, is_some, is_none, raise_if, Ensures, Ensures-bind, Ensures-then, Ensures-if,
  resource_state_conflict, validation_error, review_item_finalized, package_source_missing,
  file_hash_mismatch,
}
use video_review.Review.Store.{Workflow, Item, Store, Env}
use video_review.Review.Guards.{
  or_empty, truthy, found, find, is_finalized, add_event, get_project, get_item, get_version,
  assert_project_active, expect_lock, ensure_current_version, assert_playback_ready,
  ensure_finalizable,
}
use video_review.Review.Finalize.{
  finalization_of, finalize_locked_item, finalize_version, finalize_target, finalize_targets,
  has_target, touch_project, finalize_project, is_pending_cleanup,
  locked_project_finalization_authority,
}
use video_review.Review.Facts.{get_item-row, ensure_current_version-eq}
use video_review.Review.Workflow.{
  Act, kept, Step, Steps, no_more, more, single, approving, approved,
}

ensure_finalizable-open : (w : Workflow) → ensure_finalizable w ≡ ok tt → is_finalized w ≡ false
unfolding ensure_finalizable
ensure_finalizable-open w h = ground arith

finalize_locked_item-Step :
    (env : Env) (s : Store) (project key : ℕ) (item : Item) (version_id : ℕ)
    → s.items key ≡ some item
    → item.project_ref_id ≡ project
    → Ensures (λ t. Step env s t approving) (finalize_locked_item env s project key item version_id)
unfolding finalize_locked_item finalization_of add_event
finalize_locked_item-Step env s project key item version_id row same_project =
    Ensures-bind P (get_version s project key version_id) _ λ version read.
      Ensures-bind P (ensure_current_version version_id (or_empty item.current_version_id)) _
        λ u current. Ensures-bind P (assert_playback_ready env s version) _ λ u playable.
          Ensures-bind P (ensure_finalizable item.workflow_status) _ λ u finalizable.
            Ensures-bind P
              (raise_if (is_some (find (is_pending_cleanup project key) s.invalidations))
                resource_state_conflict)
              _
              λ u clean.
                Ensures-bind P (raise_if (truthy item.active_finalization_id) review_item_finalized)
                  _
                  λ u fresh.
                    Ensures-bind P (found package_source_missing (s.files version.original_file_id))
                      _
                      λ file file_read.
                        Ensures-bind P (env.stored_sha256 version.original_file_id) _
                          λ sha256 hashed.
                            Ensures-bind P
                              (raise_if (not (sha256 == version.sha256)) file_hash_mismatch) _
                              λ u same.
                                approved key item _ _ row
                                  (record {
                                    was_open = ensure_finalizable-open _ finalizable;
                                    approved = refl;
                                    same_project = refl;
                                    same_version = refl;
                                    finalization = refl;
                                    lock = refl;
                                    stands = refl;
                                    of_item = refl;
                                    of_project = sym same_project;
                                    of_version = ensure_current_version-eq _ _ current;
                                  })
                                  refl refl
  where
    P : Store → Type 0
    P t = Step env s t approving

pub finalize_version-Step :
    (env : Env) (s : Store) (confirmed : Bool) (project key version_id : ℕ) (v : Option ℕ)
    → Ensures
        (λ t. Step env s t approving)
        (finalize_version env s confirmed project key version_id v)
unfolding finalize_version
finalize_version-Step env s confirmed project key version_id v =
    Ensures-bind P (raise_if (not confirmed) validation_error) _ λ u sure.
      Ensures-bind P (get_project s project) _ λ p read.
        Ensures-bind P (assert_project_active p) _ λ u active.
          Ensures-bind P (get_item s project key) _ λ item item_read.
            Ensures-bind P (expect_lock item.lock_version v) _ λ u lock.
              finalize_locked_item-Step env s project key item version_id
                (get_item-row s project key item_read).0 (get_item-row s project key item_read).1
  where
    P : Store → Type 0
    P t = Step env s t approving

same_project : (a b : ℕ) (x : Bool) → (a == b && x) ≡ true → a ≡ b
same_project a b x h = ground arith

pub finalize_target-Steps :
    (env : Env) (s : Store) (project key : ℕ) (row : Option Item)
    → s.items key ≡ row
    → Ensures (λ t. Steps env approving s t) (finalize_target env s project key row)
unfolding finalize_target
finalize_target-Steps env s project key none e = no_more
finalize_target-Steps env s project key (some item) e =
    Ensures-if P (item.project_ref_id == project && not (is_finalized item.workflow_status)) _ _
      (λ h.
        Ensures-bind P (raise_if (is_none item.current_version_id) resource_state_conflict) _
          λ u has. single env approving s _ (
            finalize_locked_item-Step env s project key item (or_empty item.current_version_id) e
              (same_project _ _ _ h)))
      (λ h. no_more)
  where
    P : Store → Type 0
    P t = Steps env approving s t

append-Steps :
    (env : Env) (act : Act) (s t u : Store)
    → Steps env act s t
    → Steps env act t u
    → Steps env act s u
append-Steps env act s t u no_more k = k
append-Steps env act s t u (more {t = mid} a rest) k = more a (append-Steps env act mid t u rest k)

pub weaken :
    (env : Env) (act : Act) (s t : Store) (r : Result Store)
    → Steps env act s t
    → Ensures (Steps env act t) r
    → Ensures (Steps env act s) r
weaken env act s t (ok u) past k = append-Steps env act s t u past k
weaken env act s t (err code) past k = tt

pub finalize_targets-Steps :
    (env : Env) (project : ℕ) (keys : List ℕ) (s : Store)
    → Ensures (Steps env approving s) (finalize_targets env project keys s)
unfolding finalize_targets
finalize_targets-Steps env project [] s = no_more
finalize_targets-Steps env project (k ∷ ks) s =
    Ensures-then (Steps env approving s) (Steps env approving s)
      (finalize_target env s project k (s.items k)) (finalize_targets env project ks)
      (finalize_target-Steps env s project k (s.items k) refl)
      λ t past.
        weaken env approving s t (finalize_targets env project ks t) past
          (finalize_targets-Steps env project ks t)

-- The project's own row is no part of a step.
pub touched :
    (env : Env) (act : Act) (s t u : Store)
    → u.items ≡ t.items
    → u.finalizations ≡ t.finalizations
    → Steps env act s t
    → Steps env act s u
touched env act s t u i f no_more = more (kept i f) no_more
touched env act s t u i f (more {t = mid} a rest) = more a (touched env act mid t u i f rest)

pub finalize_project-Steps :
    (env : Env) (s : Store) (confirmed : Bool) (project : ℕ) (v : Option ℕ)
    → Ensures (Steps env approving s) (finalize_project env s confirmed project v)
unfolding finalize_project touch_project
finalize_project-Steps env s confirmed project v =
    Ensures-bind P (raise_if (not confirmed) validation_error) _ λ u sure.
      Ensures-bind P (get_project s project) _ λ p read.
        Ensures-bind P (assert_project_active p) _ λ u active.
          Ensures-bind P (expect_lock p.lock_version v) _ λ u lock.
            Ensures-bind P (locked_project_finalization_authority s project) _ λ u authority.
              Ensures-if P (has_target s false project s.item_ids) _ _
                (λ e.
                  Ensures-then P P (finalize_targets env project s.item_ids s) _
                    (finalize_targets-Steps env project s.item_ids s)
                    λ t past. touched env approving s t _ refl refl past)
                (λ e. no_more)
  where
    P : Store → Type 0
    P = Steps env approving s
