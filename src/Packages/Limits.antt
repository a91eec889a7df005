-- ===== src/Packages/Limits.antt =====
-- The space of packages: the estimates of settings.py and infra/repositories.py, and the end of
-- `prepare_package`, where a new package is admitted to the queue. Names of archive members are
-- given by the lengths of their encodings.
pub mod Capacity
use video_review.Base.{
  ℕ, ◌+◌, ◌*◌, Bool, true, false, Option, none, some, List, [], ◌∷◌, ◌++◌, ltb, leb, if◌then◌else◌,
  length, count_where, Result, ok, err, raise_if, ◌>>=◌, ◌>>◌, file_too_large,
  resource_state_conflict, value_error,
}
use video_review.Review.Store.{preparing}
use video_review.Packages.{
  Snapshot, PackageSettings, PackageEvent, event_of, package_requested, is_preparing,
  active_package_storage_reservation_bytes, pending_package_storage_reservation_bytes,
}
use video_review.Packages.Builds.{Disk, ensure_package_filesystem_headroom}

abbrev zip_stored_base_overhead_bytes : ℕ
zip_stored_base_overhead_bytes = 1024

abbrev zip_stored_entry_overhead_bytes : ℕ
zip_stored_entry_overhead_bytes = 512

abbrev pub zip_max_archive_name_bytes : ℕ
zip_max_archive_name_bytes = 65535

unfoldable pub estimate_zip_stored_storage_bytes : ℕ → ℕ → ℕ → ℕ
estimate_zip_stored_storage_bytes total_bytes file_count encoded_name_bytes =
    total_bytes
    + zip_stored_base_overhead_bytes
    + file_count * zip_stored_entry_overhead_bytes
    + encoded_name_bytes * 2

unfoldable pub minimum_package_storage_bytes : ℕ → ℕ → ℕ
minimum_package_storage_bytes max_package_bytes max_package_files =
    estimate_zip_stored_storage_bytes max_package_bytes max_package_files
      (max_package_files * zip_max_archive_name_bytes)

abbrev pub sum : List ℕ → ℕ
sum [] = 0
sum (n ∷ ns) = n + sum ns

unfoldable pub estimate_package_storage_bytes : ℕ → List ℕ → ℕ
estimate_package_storage_bytes total_bytes archive_names =
    estimate_zip_stored_storage_bytes total_bytes (length archive_names) (sum archive_names)

-- The finalizations are given by their file sizes.
unfoldable pub validate_package_limits : List ℕ → PackageSettings → Result ℕ
validate_package_limits finalizations m = do
  raise_if (ltb m.max_package_files (length finalizations)) file_too_large
  raise_if (ltb m.max_package_bytes (sum finalizations)) file_too_large
  ok (sum finalizations)

abbrev new_snapshot : PackageSettings → ℕ → ℕ → ℕ → ℕ → ℕ → ℕ → Snapshot
new_snapshot m now id project_ref_id storage_path total_bytes storage_bytes = record {
  id = id;
  project_ref_id = project_ref_id;
  status = preparing;
  storage_path = storage_path;
  expires_at = now + m.package_ttl;
  total_bytes = total_bytes;
  storage_bytes = storage_bytes;
  storage_reclaimed_at = none;
  sha256 = none;
  build_attempts = 0;
  next_build_attempt_at = none;
  build_lease_id = none;
  build_lease_expires_at = none;
  failure_details = none;
  download_session_hash = none;
  download_session_expires_at = none;
  download_lease_id = none;
  download_lease_expires_at = none;
  last_download_finished_at = none;
  updated_at = now;
}

-- `validate_package_storage_capacity` of the settings.
abbrev pub validate_package_storage_capacity : PackageSettings → Result (Unit {0})
validate_package_storage_capacity m =
    raise_if
      (ltb m.max_package_storage_bytes
        (minimum_package_storage_bytes m.max_package_bytes m.max_package_files))
      value_error

-- A package that is to be prepared: its new identifier and path, the sizes of its files and the
-- lengths of their names in the archive.
pub record PackageRequest : Type 0 where
  pub id : ℕ
  pub project_ref_id : ℕ
  pub storage_path : ℕ
  pub file_sizes : List ℕ
  pub archive_names : List ℕ

-- From the count of pending builds to the new row.
unfoldable pub admit_package :
    PackageSettings
    → ℕ
    → Disk
    → PackageRequest
    → List Snapshot
    → Result (PackageEvent × List Snapshot)
admit_package m now disk q rows = do
  total_bytes ← validate_package_limits q.file_sizes m
  let estimated_storage_bytes = estimate_package_storage_bytes total_bytes q.archive_names
  raise_if (leb m.max_pending_package_builds (count_where (λ p. is_preparing p.status) rows))
      resource_state_conflict
  raise_if
      (ltb m.max_package_storage_bytes
        (active_package_storage_reservation_bytes rows + estimated_storage_bytes))
      file_too_large
  ensure_package_filesystem_headroom m disk (pending_package_storage_reservation_bytes none rows)
      estimated_storage_bytes
  let p =
      new_snapshot m now q.id q.project_ref_id q.storage_path total_bytes estimated_storage_bytes
  ok (event_of package_requested none p, rows ++ p ∷ [])
