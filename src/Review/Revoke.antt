-- ===== src/Review/Revoke.antt =====
-- Revoking finalizations: `_locked_project_packages`, `_revoke_locked_finalization` and the two
-- commands that call it in infra/repositories.py. The summary that the project command returns is
-- not modelled.
use video_review.Base.{
  ℕ, ◌+◌, ◌-◌, Bool, true, false, not, ◌&&◌, ◌||◌, Option, none, some, List, [], ◌∷◌, ◌++◌, ◌==◌,
  is_none, if◌then◌else◌, Result, ok, raise_if, ◌>>=◌, ◌>>◌, resource_state_conflict,
  validation_error, key_error,
}
use video_review.Review.Store.{
  in_review, revoked, PackageStatus, invalidated, Item, Finalization, Package, Invalidation,
  invalidated_by_revoke, finalization_revoked, Store, Env,
}
use video_review.Review.Guards.{
  or_empty, truthy, found, put, get_project, get_item, is_finalized, expect_lock,
  assert_project_active, add_event,
}
use video_review.Review.Finalize.{
  is_standing, has_target, touch_project, locked_project_finalization_authority,
}

-- The packages of `_locked_project_packages`; a package has one of the five statuses listed there.
is_revocable : ℕ → Package → Bool
is_revocable project_ref_id p = p.project_ref_id == project_ref_id && is_none p.storage_reclaimed_at

contains : ℕ → List ℕ → Bool
contains n [] = false
contains n (m ∷ ms) = n == m || contains n ms

abbrev is_invalidated : PackageStatus → Bool
is_invalidated invalidated = true
is_invalidated _ = false

-- The row as the revocation of a finalization in it leaves it.
invalidate_package : ℕ → ℕ → Package → Package
invalidate_package now finalization_id p = if is_invalidated p.status then p else record p {
  status = invalidated;
  expires_at = now - 1;
  next_build_attempt_at = none;
  build_lease_id = none;
  build_lease_expires_at = none;
  download_session_hash = none;
  download_session_expires_at = none;
  download_lease_id = none;
  download_lease_expires_at = none;
  failure_details = some (invalidated_by_revoke finalization_id);
  updated_at = now;
}

abbrev is_hit : ℕ → ℕ → Package → Bool
is_hit project_ref_id finalization_id p =
    is_revocable project_ref_id p && contains finalization_id p.finalization_ids

invalidate_packages : ℕ → ℕ → ℕ → List Package → List Package
unfolding is_revocable contains invalidate_package
invalidate_packages now project_ref_id finalization_id [] = []
invalidate_packages now project_ref_id finalization_id (p ∷ ps) =
    (if is_hit project_ref_id finalization_id p
      then invalidate_package now finalization_id p
      else p)
    ∷ invalidate_packages now project_ref_id finalization_id ps

new_invalidations : ℕ → ℕ → ℕ → List Package → List Invalidation
unfolding is_revocable contains
new_invalidations project_ref_id review_item_id finalization_id [] = []
new_invalidations project_ref_id review_item_id finalization_id (p ∷ ps) =
    let rest = new_invalidations project_ref_id review_item_id finalization_id ps in
    if is_hit project_ref_id finalization_id p
    then record {
      project_ref_id = project_ref_id;
      review_item_id = review_item_id;
      finalization_id = finalization_id;
      package_id = p.id;
      cleanup_complete = false;
    }
      ∷ rest
    else rest

unfoldable pub revoke_locked_finalization : Env → Store → ℕ → ℕ → Item → ℕ → Finalization → Store
unfolding invalidate_packages new_invalidations
revoke_locked_finalization env s project_ref_id review_item_id item finalization_id f =
    add_event finalization_revoked project_ref_id review_item_id (item.lock_version + 1) (record s {
      items =
          put review_item_id
            (record item {
              workflow_status = in_review;
              active_finalization_id = none;
              lock_version = item.lock_version + 1;
              updated_at = env.now;
            })
            s.items;
      packages = invalidate_packages env.now project_ref_id finalization_id s.packages;
      invalidations =
          s.invalidations
          ++ new_invalidations project_ref_id review_item_id finalization_id s.packages;
      finalizations =
          put finalization_id (record f { status = revoked; revoked_at = some env.now })
            s.finalizations;
    })

-- `select ... where id, project_ref_id, review_item_id, status == "active"`
unfoldable pub standing_of : ℕ → ℕ → Option Finalization → Option Finalization
standing_of project_ref_id review_item_id none = none
standing_of project_ref_id review_item_id (some f) =
    if f.project_ref_id == project_ref_id
      && f.review_item_id == review_item_id
      && is_standing f.status
    then some f
    else none

unfoldable pub revoke_finalization : Env → Store → Bool → ℕ → ℕ → Option ℕ → Result Store
unfolding standing_of revoke_locked_finalization
revoke_finalization env s confirmed project_ref_id review_item_id expected_version = do
  raise_if (not confirmed) validation_error
  project ← get_project s project_ref_id
  assert_project_active project
  item ← get_item s project_ref_id review_item_id
  expect_lock item.lock_version expected_version
  raise_if (not (is_finalized item.workflow_status) || not (truthy item.active_finalization_id))
      resource_state_conflict
  let id = or_empty item.active_finalization_id
  f ← found resource_state_conflict (standing_of project_ref_id review_item_id (s.finalizations id))
  ok (revoke_locked_finalization env s project_ref_id review_item_id item id f)

-- The loop of `revoke_project_finalization`; the authority check has found each finalization.
unfoldable pub revoke_target : Env → Store → ℕ → ℕ → Option Item → Result Store
unfolding revoke_locked_finalization
revoke_target env s project_ref_id review_item_id none = ok s
revoke_target env s project_ref_id review_item_id (some item) =
    if item.project_ref_id == project_ref_id && is_finalized item.workflow_status
    then (do
      let id = or_empty item.active_finalization_id
      f ← found key_error (s.finalizations id)
      ok (revoke_locked_finalization env s project_ref_id review_item_id item id f))
    else ok s

unfoldable pub revoke_targets : Env → ℕ → List ℕ → Store → Result Store
unfolding revoke_target
revoke_targets env project_ref_id [] s = ok s
revoke_targets env project_ref_id (k ∷ ks) s = do
  t ← revoke_target env s project_ref_id k (s.items k)
  revoke_targets env project_ref_id ks t

unfoldable pub revoke_project_finalization : Env → Store → Bool → ℕ → Option ℕ → Result Store
unfolding revoke_targets
revoke_project_finalization env s confirmed project_ref_id expected_version = do
  raise_if (not confirmed) validation_error
  project ← get_project s project_ref_id
  assert_project_active project
  expect_lock project.lock_version expected_version
  locked_project_finalization_authority s project_ref_id
  if has_target s true project_ref_id s.item_ids
      then (do
        t ← revoke_targets env project_ref_id s.item_ids s
        ok (touch_project env project_ref_id project t))
      else ok s
