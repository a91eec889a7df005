-- ===== src/Review/Projects.antt =====
-- The commands on projects and responsible editors of infra/repositories.py. The unique
-- constraints of the database, which turn into a state conflict, are not modelled.
use video_review.Base.{
  ℕ, ◌+◌, Bool, true, false, not, ◌&&◌, ◌||◌, Option, none, some, ◌==◌, opt_eq, is_some, Result, ok,
  raise_if, ◌>>=◌, ◌>>◌, resource_state_conflict, responsible_editor_required,
  project_frame_rate_locked,
}
use video_review.Review.Store.{
  Lifecycle, active, archived, Project, EventType, project_created, project_updated,
  project_archived, project_restored, Store, Env,
}
use video_review.Review.Guards.{
  put, get_project, expect_lock, assert_project_active, get_responsible_editor, add_event,
}

unfoldable pub write_project : ℕ → Project → Store → Store
write_project key p s = record s { projects = put key p s.projects }

-- The payload of CreateProject has passed the request schema, which fixes the frame rate.
unfoldable pub create_project : Env → Store → ℕ → ℕ → ℕ → ℕ → ℕ → Result Store
unfolding write_project
create_project env s project_code name description num den = ok (
    add_event project_created env.new_project_id env.new_project_id 1 (
      write_project env.new_project_id
        (record {
          project_code = project_code;
          project_name = name;
          description = description;
          lifecycle_status = active;
          deleted_at = none;
          fps_num = some num;
          fps_den = some den;
          lock_version = 1;
          updated_at = env.now;
        })
        s))

unfoldable pub update_project : Env → Store → ℕ → Option ℕ → ℕ → ℕ → Option ℕ → Result Store
unfolding write_project
update_project env s project_ref_id project_code name description expected_version = do
  p ← get_project s project_ref_id
  assert_project_active p
  expect_lock p.lock_version expected_version
  raise_if (is_some project_code && not (opt_eq project_code (some p.project_code)))
      resource_state_conflict
  ok (
      add_event project_updated project_ref_id project_ref_id (p.lock_version + 1) (
        write_project project_ref_id
          (record p {
            project_name = name;
            description = description;
            lock_version = p.lock_version + 1;
            updated_at = env.now;
          })
          s))

unfoldable pub lock_project_frame_rate : Env → Store → ℕ → ℕ → ℕ → Option ℕ → Result Store
unfolding write_project
lock_project_frame_rate env s project_ref_id num den expected_version = do
  p ← get_project s project_ref_id
  assert_project_active p
  expect_lock p.lock_version expected_version
  raise_if (is_some p.fps_num || is_some p.fps_den) project_frame_rate_locked
  ok (
      add_event project_updated project_ref_id project_ref_id (p.lock_version + 1) (
        write_project project_ref_id
          (record p {
            fps_num = some num;
            fps_den = some den;
            lock_version = p.lock_version + 1;
            updated_at = env.now;
          })
          s))

-- The checks that archiving and restoring share, and their write.
unfoldable pub set_lifecycle :
    Env → Store → ℕ → Option ℕ → Lifecycle → (Lifecycle → Bool) → EventType → Result Store
unfolding write_project
set_lifecycle env s project_ref_id expected_version target wrong event_type = do
  p ← get_project s project_ref_id
  expect_lock p.lock_version expected_version
  raise_if (is_some p.deleted_at) resource_state_conflict
  raise_if (wrong p.lifecycle_status) resource_state_conflict
  ok (
      add_event event_type project_ref_id project_ref_id (p.lock_version + 1) (
        write_project project_ref_id
          (record p {
            lifecycle_status = target;
            lock_version = p.lock_version + 1;
            updated_at = env.now;
          })
          s))

abbrev pub is_archived : Lifecycle → Bool
is_archived active = false
is_archived archived = true

unfoldable pub archive_project : Env → Store → ℕ → Option ℕ → Result Store
unfolding set_lifecycle
archive_project env s project_ref_id expected_version =
    set_lifecycle env s project_ref_id expected_version archived is_archived project_archived

unfoldable pub restore_project : Env → Store → ℕ → Option ℕ → Result Store
unfolding set_lifecycle
restore_project env s project_ref_id expected_version =
    set_lifecycle env s project_ref_id expected_version active (λ l. not (is_archived l))
      project_restored

-- The name arrives stripped; an empty one is refused.
unfoldable pub create_responsible_editor : Env → Store → ℕ → Result Store
create_responsible_editor env s display_name = do
  raise_if (display_name == 0) responsible_editor_required
  ok (record s {
    editors =
        put env.new_editor_id
          (record { display_name = display_name; lock_version = 1; updated_at = env.now })
          s.editors;
  })

unfoldable pub rename_responsible_editor : Env → Store → ℕ → ℕ → Option ℕ → Result Store
rename_responsible_editor env s editor_id display_name expected_version = do
  editor ← get_responsible_editor s editor_id
  expect_lock editor.lock_version expected_version
  raise_if (display_name == 0) responsible_editor_required
  ok (record s {
    editors =
        put editor_id
          (record {
            display_name = display_name;
            lock_version = editor.lock_version + 1;
            updated_at = env.now;
          })
          s.editors;
  })
