-- ===== src/Review/Examples/Stage.antt =====
-- A small store: a project with one item, whose version can be played; and requests.
use video_review.Base.{
  ℕ, ◌+◌, ◌*◌, true, Option, none, some, [], ◌∷◌, ◌==◌, if◌then◌else◌, Result, ok,
}
use video_review.Review.Store.{active, pending_review, File, Item, Project, Store, Env, Probe}

abbrev pub row {ℓ} : {A : Type ℓ} → ℕ → A → ℕ → Option A
row key a k = if key == k then some a else none

abbrev pub media : File
media = record {
  owner_principal_id = some 9;
  owner_principal_kind = 1;
  file_size = 1000;
  sha256 = 77;
  duration_ms = 4000;
  width = 1920;
  height = 1080;
  fps_num = 25;
  fps_den = 1;
}

abbrev pub probe_of : ℕ → Result Probe
probe_of id =
    ok (record { duration_ms = 4000; width = 1920; height = 1080; fps_num = 25; fps_den = 1 })

-- The request number `n`.
abbrev pub request : ℕ → Env
request n = record {
  now = 1000 + n;
  principal_id = some 9;
  principal_kind = 1;
  new_project_id = 100 * n + 1;
  new_editor_id = 100 * n + 2;
  new_item_id = 100 * n + 3;
  new_version_id = 100 * n + 4;
  new_issue_id = 100 * n + 5;
  new_revision_id = 100 * n + 6;
  new_annotation_id = 100 * n + 7;
  new_message_id = 100 * n + 8;
  new_finalization_id = λ k. 100 * n + 9 + k;
  readable = λ id. true;
  stored_sha256 = λ id. ok 77;
  probe = probe_of;
  regroup = λ id tasks thumbnails. (tasks, thumbnails);
}

abbrev pub first_project : Project
first_project = record {
  project_code = 11;
  project_name = 12;
  description = 0;
  lifecycle_status = active;
  deleted_at = none;
  fps_num = some 25;
  fps_den = some 1;
  lock_version = 1;
  updated_at = 0;
}

abbrev pub first_item : Item
first_item = record {
  project_ref_id = 1;
  item_code = 14;
  episode_no = none;
  title = 15;
  workflow_status = pending_review;
  current_version_id = some 3;
  active_finalization_id = none;
  lock_version = 1;
  updated_at = 0;
}

abbrev pub stage : Store
stage = record {
  projects = row 1 first_project;
  editors = row 6 (record { display_name = 13; lock_version = 1; updated_at = 0 });
  files = row 5 media;
  items = row 2 first_item;
  item_ids = 2 ∷ [];
  versions = row 3 (record {
    project_ref_id = 1;
    review_item_id = 2;
    previous_version_id = none;
    version_no = 1;
    is_current = true;
    original_file_id = 5;
    sha256 = 77;
    responsible_editor_id = 6;
    responsible_editor_name_snapshot = 13;
    playback_asset_id = some 5;
    version_note = none;
    change_summary = none;
  });
  thumbnails = λ k. none;
  issues = [];
  revisions = λ k. none;
  annotations = [];
  messages = [];
  finalizations = λ k. none;
  finalization_ids = [];
  packages = [];
  invalidations = [];
  findings = [];
  tasks = [];
  events = [];
}
