-- ===== src/Review/Finalize.antt =====
-- Finalizing: `_locked_project_finalization_authority`, `_finalize_locked_item` and the two
-- commands that call it in infra/repositories.py. The summary that `finalize_project` returns is
-- not modelled.
use video_review.Base.{
  ℕ, ◌+◌, Bool, true, false, not, ◌&&◌, ◌||◌, Option, none, some, List, [], ◌∷◌, ◌++◌, ◌==◌, opt_eq,
  is_some, is_none, if◌then◌else◌, Result, ok, raise_if, ◌>>=◌, ◌>>◌, resource_state_conflict,
  validation_error, review_item_finalized, package_source_missing, file_hash_mismatch,
}
use video_review.Review.Store.{
  finalized, FinalizationStatus, standing, revoked, Project, Item, Version, Finalization,
  Invalidation, version_finalized, Store, Env,
}
use video_review.Review.Guards.{
  or_empty, truthy, found, put, find, get_project, get_item, get_version, is_finalized,
  ensure_finalizable, ensure_current_version, expect_lock, assert_project_active,
  assert_playback_ready, add_event,
}

abbrev pub is_standing : FinalizationStatus → Bool
is_standing standing = true
is_standing revoked = false

-- The finalization stands, and is of this item and its current version.
unfoldable pub agrees : ℕ → ℕ → Item → Option Finalization → Bool
agrees project_ref_id item_id item none = false
agrees project_ref_id item_id item (some f) =
    is_standing f.status
    && f.project_ref_id == project_ref_id
    && f.review_item_id == item_id
    && opt_eq (some f.version_id) item.current_version_id

-- The body of the first loop.
unfoldable pub item_agrees : Store → ℕ → ℕ → Option Item → Bool
unfolding agrees
item_agrees s project_ref_id item_id none = true
item_agrees s project_ref_id item_id (some item) =
    if not (item.project_ref_id == project_ref_id)
    then true
    else if is_finalized item.workflow_status
    then is_some item.active_finalization_id
      && agrees project_ref_id item_id item (s.finalizations (or_empty item.active_finalization_id))
    else is_none item.active_finalization_id

-- The item that a standing finalization names points back at it.
unfoldable pub points_back : ℕ → ℕ → Finalization → Option Item → Bool
points_back project_ref_id finalization_id f none = false
points_back project_ref_id finalization_id f (some item) =
    item.project_ref_id == project_ref_id
    && is_finalized item.workflow_status
    && opt_eq item.active_finalization_id (some finalization_id)
    && opt_eq item.current_version_id (some f.version_id)

-- The body of the second loop.
unfoldable pub finalization_agrees : Store → ℕ → ℕ → Option Finalization → Bool
unfolding points_back
finalization_agrees s project_ref_id finalization_id none = true
finalization_agrees s project_ref_id finalization_id (some f) =
    not (f.project_ref_id == project_ref_id && is_standing f.status)
    || points_back project_ref_id finalization_id f (s.items f.review_item_id)

unfoldable pub all_items_agree : Store → ℕ → List ℕ → Bool
unfolding item_agrees
all_items_agree s project_ref_id [] = true
all_items_agree s project_ref_id (k ∷ ks) =
    item_agrees s project_ref_id k (s.items k) && all_items_agree s project_ref_id ks

unfoldable pub all_finalizations_agree : Store → ℕ → List ℕ → Bool
unfolding finalization_agrees
all_finalizations_agree s project_ref_id [] = true
all_finalizations_agree s project_ref_id (k ∷ ks) =
    finalization_agrees s project_ref_id k (s.finalizations k)
    && all_finalizations_agree s project_ref_id ks

unfoldable pub locked_project_finalization_authority : Store → ℕ → Result (Unit {0})
unfolding all_items_agree all_finalizations_agree
locked_project_finalization_authority s project_ref_id = do
  raise_if (not (all_items_agree s project_ref_id s.item_ids)) resource_state_conflict
  raise_if (not (all_finalizations_agree s project_ref_id s.finalization_ids))
      resource_state_conflict

pub is_pending_cleanup : ℕ → ℕ → Invalidation → Bool
is_pending_cleanup project_ref_id review_item_id i =
    i.project_ref_id == project_ref_id
    && i.review_item_id == review_item_id
    && not i.cleanup_complete

-- The finalization that `_finalize_locked_item` inserts.
unfoldable pub finalization_of : ℕ → ℕ → ℕ → Version → Finalization
finalization_of project_ref_id review_item_id version_id v = record {
  project_ref_id = project_ref_id;
  review_item_id = review_item_id;
  version_id = version_id;
  version_no = v.version_no;
  original_file_id = v.original_file_id;
  sha256 = v.sha256;
  status = standing;
  revoked_at = none;
}

unfoldable pub finalize_locked_item : Env → Store → ℕ → ℕ → Item → ℕ → Result Store
unfolding is_pending_cleanup finalization_of
finalize_locked_item env s project_ref_id review_item_id item version_id = do
  version ← get_version s project_ref_id review_item_id version_id
  ensure_current_version version_id (or_empty item.current_version_id)
  assert_playback_ready env s version
  ensure_finalizable item.workflow_status
  raise_if (is_some (find (is_pending_cleanup project_ref_id review_item_id) s.invalidations))
      resource_state_conflict
  raise_if (truthy item.active_finalization_id) review_item_finalized
  file ← found package_source_missing (s.files version.original_file_id)
  sha256 ← env.stored_sha256 version.original_file_id
  raise_if (not (sha256 == version.sha256)) file_hash_mismatch
  let id = env.new_finalization_id review_item_id
  ok (
      add_event version_finalized project_ref_id review_item_id (item.lock_version + 1) (record s {
        finalizations =
            put id (finalization_of project_ref_id review_item_id version_id version)
              s.finalizations;
        finalization_ids = s.finalization_ids ++ id ∷ [];
        items =
            put review_item_id
              (record item {
                workflow_status = finalized;
                active_finalization_id = some id;
                lock_version = item.lock_version + 1;
                updated_at = env.now;
              })
              s.items;
      }))

unfoldable pub finalize_version : Env → Store → Bool → ℕ → ℕ → ℕ → Option ℕ → Result Store
unfolding finalize_locked_item
finalize_version env s confirmed project_ref_id review_item_id version_id expected_version = do
  raise_if (not confirmed) validation_error
  project ← get_project s project_ref_id
  assert_project_active project
  item ← get_item s project_ref_id review_item_id
  expect_lock item.lock_version expected_version
  finalize_locked_item env s project_ref_id review_item_id item version_id

-- The loop of `finalize_project` over the items of the project that are not finalized.
unfoldable pub finalize_target : Env → Store → ℕ → ℕ → Option Item → Result Store
unfolding finalize_locked_item
finalize_target env s project_ref_id review_item_id none = ok s
finalize_target env s project_ref_id review_item_id (some item) =
    if item.project_ref_id == project_ref_id && not (is_finalized item.workflow_status)
    then (do
      raise_if (is_none item.current_version_id) resource_state_conflict
      finalize_locked_item env s project_ref_id review_item_id item
          (or_empty item.current_version_id))
    else ok s

unfoldable pub finalize_targets : Env → ℕ → List ℕ → Store → Result Store
unfolding finalize_target
finalize_targets env project_ref_id [] s = ok s
finalize_targets env project_ref_id (k ∷ ks) s = do
  t ← finalize_target env s project_ref_id k (s.items k)
  finalize_targets env project_ref_id ks t

unfoldable pub is_target : Bool → ℕ → Option Item → Bool
is_target wanted project_ref_id none = false
is_target wanted project_ref_id (some item) =
    item.project_ref_id == project_ref_id
    && (if wanted
        then is_finalized item.workflow_status
        else not (is_finalized item.workflow_status))

-- Whether the project has an item whose being finalized is `wanted`.
unfoldable pub has_target : Store → Bool → ℕ → List ℕ → Bool
unfolding is_target
has_target s wanted project_ref_id [] = false
has_target s wanted project_ref_id (k ∷ ks) =
    is_target wanted project_ref_id (s.items k) || has_target s wanted project_ref_id ks

unfoldable pub touch_project : Env → ℕ → Project → Store → Store
touch_project env project_ref_id p s = record s {
  projects =
      put project_ref_id (record p { lock_version = p.lock_version + 1; updated_at = env.now })
        s.projects;
}

unfoldable pub finalize_project : Env → Store → Bool → ℕ → Option ℕ → Result Store
unfolding finalize_targets has_target touch_project
finalize_project env s confirmed project_ref_id expected_version = do
  raise_if (not confirmed) validation_error
  project ← get_project s project_ref_id
  assert_project_active project
  expect_lock project.lock_version expected_version
  locked_project_finalization_authority s project_ref_id
  if has_target s false project_ref_id s.item_ids
      then (do
        t ← finalize_targets env project_ref_id s.item_ids s
        ok (touch_project env project_ref_id project t))
      else ok s
