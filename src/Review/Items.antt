-- ===== src/Review/Items.antt =====
-- The commands on items and versions of infra/repositories.py. The unique
-- constraints of the database, which turn into a state conflict, are not modelled.
use video_review.Base.{
  ℕ, ◌+◌, Bool, true, false, not, ◌&&◌, ◌||◌, Option, none, some, List, [], ◌∷◌, ◌++◌, ltb, ◌==◌,
  opt_eq, is_some, is_none, if◌then◌else◌, count_where, Result, ok, raise_if, ◌>>=◌, ◌>>◌,
  validation_error, project_frame_rate_required, media_frame_rate_not_allowed,
  media_frame_rate_mismatch, file_hash_mismatch,
}
use video_review.Review.Store.{
  pending_review, in_review, Project, File, Item, Version, Issue, DerivativeTask, TaskKind,
  playback_faststart, thumbnail, item_created, item_updated, version_uploaded, session_started,
  Store, Probe, Env,
}
use video_review.Review.Guards.{
  or_empty, put, get_project, get_item, get_version, ensure_not_finalized,
  ensure_can_upload_version, expect_lock, assert_project_active, assert_playback_ready,
  get_ready_file, get_responsible_editor, add_event,
}
use video_review.Review.Issues.{is_pending}

-- ALLOWED_FRAME_RATE_PAIRS of review_contracts/generated.py
is_allowed_rate : ℕ → ℕ → Bool
is_allowed_rate num den =
    num == 24000 && den == 1001
    || num == 24 && den == 1
    || num == 25 && den == 1
    || num == 30000 && den == 1001
    || num == 30 && den == 1
    || num == 50 && den == 1
    || num == 60000 && den == 1001
    || num == 60 && den == 1

same_media : Probe → File → Bool
same_media p f =
    p.duration_ms == f.duration_ms
    && p.width == f.width
    && p.height == f.height
    && p.fps_num == f.fps_num
    && p.fps_den == f.fps_den

pub authoritative_binding_probe : Env → Project → ℕ → File → Result (Unit {0})
unfolding is_allowed_rate same_media
authoritative_binding_probe env project file_id file = do
  raise_if (is_none project.fps_num || is_none project.fps_den) project_frame_rate_required
  probe ← env.probe file_id
  raise_if (not (is_allowed_rate probe.fps_num probe.fps_den)) media_frame_rate_not_allowed
  raise_if
      (not (
        opt_eq (some probe.fps_num) project.fps_num && opt_eq (some probe.fps_den) project.fps_den))
      media_frame_rate_mismatch
  raise_if (not (same_media probe file)) file_hash_mismatch

-- `change_summary` is the payload's, or its `supersede_reason` in its place.
pub record NewVersion : Type 0 where
  pub original_file_id : ℕ
  pub responsible_editor_id : ℕ
  pub version_note : Option ℕ
  pub change_summary : Option ℕ

derivative_task : ℕ → ℕ → ℕ → TaskKind → DerivativeTask
derivative_task project_ref_id review_item_id version_id kind = record {
  project_ref_id = project_ref_id;
  review_item_id = review_item_id;
  version_id = version_id;
  kind = kind;
  queued = true;
}

unfoldable pub create_version : Env → ℕ → ℕ → File → Option ℕ → ℕ → NewVersion → ℕ → Store → Store
unfolding derivative_task
create_version env project_ref_id review_item_id file previous_version_id version_no p editor_name
      s =
    record s {
      versions =
          put env.new_version_id
            (record {
              project_ref_id = project_ref_id;
              review_item_id = review_item_id;
              previous_version_id = previous_version_id;
              version_no = version_no;
              is_current = true;
              original_file_id = p.original_file_id;
              sha256 = file.sha256;
              responsible_editor_id = p.responsible_editor_id;
              responsible_editor_name_snapshot = editor_name;
              playback_asset_id = none;
              version_note = p.version_note;
              change_summary = p.change_summary;
            })
            s.versions;
      thumbnails = λ v. if env.new_version_id == v then none else s.thumbnails v;
      tasks =
          s.tasks
          ++ derivative_task project_ref_id review_item_id env.new_version_id playback_faststart
            ∷ derivative_task project_ref_id review_item_id env.new_version_id thumbnail
            ∷ [];
    }

-- A new key in its place among the ascending ones.
insert_key : ℕ → List ℕ → List ℕ
insert_key key [] = key ∷ []
insert_key key (k ∷ ks) =
    let rest = insert_key key ks in if ltb key k then key ∷ k ∷ ks else k ∷ rest

unfoldable pub create_review_item : Env → Store → ℕ → ℕ → Option ℕ → ℕ → NewVersion → Result Store
unfolding authoritative_binding_probe create_version insert_key
create_review_item env s project_ref_id item_code episode_no title p = do
  project ← get_project s project_ref_id
  assert_project_active project
  file ← get_ready_file env s p.original_file_id
  authoritative_binding_probe env project p.original_file_id file
  editor ← get_responsible_editor s p.responsible_editor_id
  let item : Item = record {
    project_ref_id = project_ref_id;
    item_code = item_code;
    episode_no = episode_no;
    title = title;
    workflow_status = pending_review;
    current_version_id = some env.new_version_id;
    active_finalization_id = none;
    lock_version = 1;
    updated_at = env.now;
  }
  let t =
      create_version env project_ref_id env.new_item_id file none 1
        (record p { change_summary = none }) editor.display_name s
  ok (
      add_event version_uploaded project_ref_id env.new_version_id 1 (
        add_event item_created project_ref_id env.new_item_id 1 (record t {
          items = put env.new_item_id item t.items;
          item_ids = insert_key env.new_item_id t.item_ids;
        })))

-- A field that is absent or `None` in the payload is `none`; the first two arguments say whether
-- the payload has the fields.
unfoldable pub update_review_item :
    Env → Store → Bool → Bool → ℕ → ℕ → Option ℕ → Option ℕ → Option ℕ → Result Store
update_review_item env s has_episode_no has_title project_ref_id review_item_id episode_no title
      expected_version =
    do
      raise_if (not (has_episode_no || has_title)) validation_error
      project ← get_project s project_ref_id
      assert_project_active project
      item ← get_item s project_ref_id review_item_id
      ensure_not_finalized item.workflow_status
      expect_lock item.lock_version expected_version
      let changed : Item = record item {
        episode_no = if has_episode_no && is_some episode_no then episode_no else item.episode_no;
        title = if has_title && is_some title then or_empty title else item.title;
        lock_version = item.lock_version + 1;
        updated_at = env.now;
      }
      ok (
          add_event item_updated project_ref_id review_item_id (item.lock_version + 1)
            (record s { items = put review_item_id changed s.items }))

-- `update(ReviewVersionModel).where(review_item_id, is_current).values(is_current=False)`
demote : ℕ → Option Version → Option Version
demote review_item_id none = none
demote review_item_id (some v) =
    if v.review_item_id == review_item_id && v.is_current
    then some (record v { is_current = false })
    else some v

pub is_counted_issue : ℕ → ℕ → Issue → Bool
is_counted_issue review_item_id version_id i =
    i.review_item_id == review_item_id && i.version_id == version_id && is_none i.deleted_at

-- `reconcile_project_thumbnail_groups`, which writes derivative tasks and thumbnails.
unfoldable pub regroup_thumbnails : Env → ℕ → Store → Store
regroup_thumbnails env project_ref_id s =
    let (tasks, thumbnails) = env.regroup project_ref_id s.tasks s.thumbnails in
    record s { tasks = tasks; thumbnails = thumbnails }

unfoldable pub upload_review_version : Env → Store → ℕ → ℕ → NewVersion → Option ℕ → Result Store
unfolding is_counted_issue authoritative_binding_probe create_version demote regroup_thumbnails
upload_review_version env s project_ref_id review_item_id p expected_version = do
  project ← get_project s project_ref_id
  assert_project_active project
  item ← get_item s project_ref_id review_item_id
  expect_lock item.lock_version expected_version
  current ← get_version s project_ref_id review_item_id (or_empty item.current_version_id)
  let current_id = or_empty item.current_version_id
  ensure_can_upload_version item.workflow_status
      (count_where (is_counted_issue review_item_id current_id) s.issues)
  file ← get_ready_file env s p.original_file_id
  authoritative_binding_probe env project p.original_file_id file
  editor ← get_responsible_editor s p.responsible_editor_id
  let t = record s { versions = λ v. demote review_item_id (s.versions v) }
  let u =
      create_version env project_ref_id review_item_id file (some current_id)
        (current.version_no + 1) p editor.display_name t
  let changed : Item = record item {
    current_version_id = some env.new_version_id;
    workflow_status = pending_review;
    lock_version = item.lock_version + 1;
    updated_at = env.now;
  }
  ok (
      add_event version_uploaded project_ref_id env.new_version_id 1 (
        regroup_thumbnails env project_ref_id
          (record u { items = put review_item_id changed u.items })))

unfoldable pub start_review : Env → Store → ℕ → ℕ → Option ℕ → Result Store
unfolding is_pending
start_review env s project_ref_id review_item_id expected_version = do
  project ← get_project s project_ref_id
  assert_project_active project
  item ← get_item s project_ref_id review_item_id
  version ← get_version s project_ref_id review_item_id (or_empty item.current_version_id)
  assert_playback_ready env s version
  expect_lock item.lock_version expected_version
  ensure_not_finalized item.workflow_status
  ok (
      if is_pending item.workflow_status
      then add_event session_started project_ref_id review_item_id (item.lock_version + 1)
          (record s {
            items =
                put review_item_id
                  (record item {
                    workflow_status = in_review;
                    lock_version = item.lock_version + 1;
                    updated_at = env.now;
                  })
                  s.items;
          })
      else s)
