-- ===== src/Review/Sync/Finalize.antt =====
-- Finalizing and revoking in infra/repositories.py, against open issues and statuses.
use video_review.Base.{
  ℕ, refl, Bool, true, false, not, ◌&&◌, ◌||◌, Option, none, some, List, [], ◌∷◌, ◌==◌, is_some,
  is_none, raise_if, Ensures, Ensures-bind, Ensures-then, Ensures-if, resource_state_conflict,
  validation_error, review_item_finalized, package_source_missing, file_hash_mismatch, key_error,
}
use video_review.Review.Store.{Item, Store, Env, Finalization}
use video_review.Review.Guards.{
  or_empty, truthy, found, find, is_finalized, add_event, get_project, get_item, get_version,
  assert_project_active, expect_lock, ensure_current_version, assert_playback_ready,
  ensure_finalizable,
}
use video_review.Review.Finalize.{
  finalize_locked_item, finalize_version, finalize_target, finalize_targets, has_target,
  touch_project, finalize_project, is_pending_cleanup, locked_project_finalization_authority,
}
use video_review.Review.Revoke.{
  revoke_locked_finalization, standing_of, revoke_finalization, revoke_target, revoke_targets,
  revoke_project_finalization,
}
use video_review.Review.Sync.{IsSynced, IsSynced-but, put-IsSynced}

finalize_locked_item-IsSynced :
    (env : Env) (s : Store) (project key : ℕ) (item : Item) (version_id : ℕ)
    → IsSynced s
    → Ensures IsSynced (finalize_locked_item env s project key item version_id)
unfolding finalize_locked_item add_event
finalize_locked_item-IsSynced env s project key item version_id h =
    Ensures-bind IsSynced (get_version s project key version_id) _ λ version read.
      Ensures-bind IsSynced (ensure_current_version version_id (or_empty item.current_version_id)) _
        λ u current. Ensures-bind IsSynced (assert_playback_ready env s version) _ λ u playable.
          Ensures-bind IsSynced (ensure_finalizable item.workflow_status) _ λ u finalizable.
            Ensures-bind IsSynced
              (raise_if (is_some (find (is_pending_cleanup project key) s.invalidations))
                resource_state_conflict)
              _
              λ u clean.
                Ensures-bind IsSynced
                  (raise_if (truthy item.active_finalization_id) review_item_finalized) _
                  λ u fresh.
                    Ensures-bind IsSynced
                      (found package_source_missing (s.files version.original_file_id)) _
                      λ file file_read.
                        Ensures-bind IsSynced (env.stored_sha256 version.original_file_id) _
                          λ sha256 hashed.
                            Ensures-bind IsSynced
                              (raise_if (not (sha256 == version.sha256)) file_hash_mismatch) _
                              λ u same. put-IsSynced key _ s _ refl refl (IsSynced-but key s h) tt

pub finalize_version-IsSynced :
    (env : Env) (s : Store) (confirmed : Bool) (project key version_id : ℕ) (v : Option ℕ)
    → IsSynced s
    → Ensures IsSynced (finalize_version env s confirmed project key version_id v)
unfolding finalize_version
finalize_version-IsSynced env s confirmed project key version_id v h =
    Ensures-bind IsSynced (raise_if (not confirmed) validation_error) _ λ u sure.
      Ensures-bind IsSynced (get_project s project) _ λ p read.
        Ensures-bind IsSynced (assert_project_active p) _ λ u active.
          Ensures-bind IsSynced (get_item s project key) _ λ item item_read.
            Ensures-bind IsSynced (expect_lock item.lock_version v) _
              λ u lock. finalize_locked_item-IsSynced env s project key item version_id h

finalize_target-IsSynced :
    (env : Env) (s : Store) (project key : ℕ) (row : Option Item)
    → IsSynced s
    → Ensures IsSynced (finalize_target env s project key row)
unfolding finalize_target
finalize_target-IsSynced env s project key none h = h
finalize_target-IsSynced env s project key (some item) h =
    Ensures-if IsSynced (item.project_ref_id == project && not (is_finalized item.workflow_status))
      _ _
      (λ e.
        Ensures-bind IsSynced (raise_if (is_none item.current_version_id) resource_state_conflict) _
          λ u has.
            finalize_locked_item-IsSynced env s project key item (or_empty item.current_version_id)
              h)
      (λ e. h)

finalize_targets-IsSynced :
    (env : Env) (project : ℕ) (keys : List ℕ) (s : Store)
    → IsSynced s
    → Ensures IsSynced (finalize_targets env project keys s)
unfolding finalize_targets
finalize_targets-IsSynced env project [] s h = h
finalize_targets-IsSynced env project (k ∷ ks) s h =
    Ensures-then IsSynced IsSynced (finalize_target env s project k (s.items k))
      (finalize_targets env project ks) (finalize_target-IsSynced env s project k (s.items k) h)
      λ t ht. finalize_targets-IsSynced env project ks t ht

pub finalize_project-IsSynced :
    (env : Env) (s : Store) (confirmed : Bool) (project : ℕ) (v : Option ℕ)
    → IsSynced s
    → Ensures IsSynced (finalize_project env s confirmed project v)
unfolding finalize_project touch_project
finalize_project-IsSynced env s confirmed project v h =
    Ensures-bind IsSynced (raise_if (not confirmed) validation_error) _ λ u sure.
      Ensures-bind IsSynced (get_project s project) _ λ p read.
        Ensures-bind IsSynced (assert_project_active p) _ λ u active.
          Ensures-bind IsSynced (expect_lock p.lock_version v) _ λ u lock.
            Ensures-bind IsSynced (locked_project_finalization_authority s project) _ λ u authority.
              Ensures-if IsSynced (has_target s false project s.item_ids) _ _
                (λ e.
                  Ensures-then IsSynced IsSynced (finalize_targets env project s.item_ids s) _
                    (finalize_targets-IsSynced env project s.item_ids s h)
                    λ t ht. record { fits = ht.fits })
                (λ e. h)

revoke_locked_finalization-IsSynced :
    (env : Env) (s : Store) (project key : ℕ) (item : Item) (id : ℕ) (f : Finalization)
    → IsSynced s
    → IsSynced (revoke_locked_finalization env s project key item id f)
unfolding revoke_locked_finalization add_event
revoke_locked_finalization-IsSynced env s project key item id f h =
    put-IsSynced key _ s _ refl refl (IsSynced-but key s h) tt

pub revoke_finalization-IsSynced :
    (env : Env) (s : Store) (confirmed : Bool) (project key : ℕ) (v : Option ℕ)
    → IsSynced s
    → Ensures IsSynced (revoke_finalization env s confirmed project key v)
unfolding revoke_finalization
revoke_finalization-IsSynced env s confirmed project key v h =
    Ensures-bind IsSynced (raise_if (not confirmed) validation_error) _ λ u sure.
      Ensures-bind IsSynced (get_project s project) _ λ p read.
        Ensures-bind IsSynced (assert_project_active p) _ λ u active.
          Ensures-bind IsSynced (get_item s project key) _ λ item item_read.
            Ensures-bind IsSynced (expect_lock item.lock_version v) _ λ u lock.
              Ensures-bind IsSynced
                (raise_if
                  (not (is_finalized item.workflow_status)
                    || not (truthy item.active_finalization_id))
                  resource_state_conflict)
                _
                λ u done.
                  Ensures-bind IsSynced
                    (found resource_state_conflict (
                      standing_of project key
                        (s.finalizations (or_empty item.active_finalization_id))))
                    _ λ f stands. revoke_locked_finalization-IsSynced env s project key item _ f h

revoke_target-IsSynced :
    (env : Env) (s : Store) (project key : ℕ) (row : Option Item)
    → IsSynced s
    → Ensures IsSynced (revoke_target env s project key row)
unfolding revoke_target
revoke_target-IsSynced env s project key none h = h
revoke_target-IsSynced env s project key (some item) h =
    Ensures-if IsSynced (item.project_ref_id == project && is_finalized item.workflow_status) _ _
      (λ e.
        Ensures-bind IsSynced
          (found key_error (s.finalizations (or_empty item.active_finalization_id))) _
          λ f has. revoke_locked_finalization-IsSynced env s project key item _ f h)
      (λ e. h)

revoke_targets-IsSynced :
    (env : Env) (project : ℕ) (keys : List ℕ) (s : Store)
    → IsSynced s
    → Ensures IsSynced (revoke_targets env project keys s)
unfolding revoke_targets
revoke_targets-IsSynced env project [] s h = h
revoke_targets-IsSynced env project (k ∷ ks) s h =
    Ensures-then IsSynced IsSynced (revoke_target env s project k (s.items k))
      (revoke_targets env project ks) (revoke_target-IsSynced env s project k (s.items k) h)
      λ t ht. revoke_targets-IsSynced env project ks t ht

pub revoke_project_finalization-IsSynced :
    (env : Env) (s : Store) (confirmed : Bool) (project : ℕ) (v : Option ℕ)
    → IsSynced s
    → Ensures IsSynced (revoke_project_finalization env s confirmed project v)
unfolding revoke_project_finalization touch_project
revoke_project_finalization-IsSynced env s confirmed project v h =
    Ensures-bind IsSynced (raise_if (not confirmed) validation_error) _ λ u sure.
      Ensures-bind IsSynced (get_project s project) _ λ p read.
        Ensures-bind IsSynced (assert_project_active p) _ λ u active.
          Ensures-bind IsSynced (expect_lock p.lock_version v) _ λ u lock.
            Ensures-bind IsSynced (locked_project_finalization_authority s project) _ λ u authority.
              Ensures-if IsSynced (has_target s true project s.item_ids) _ _
                (λ e.
                  Ensures-then IsSynced IsSynced (revoke_targets env project s.item_ids s) _
                    (revoke_targets-IsSynced env project s.item_ids s h)
                    λ t ht. record { fits = ht.fits })
                (λ e. h)
