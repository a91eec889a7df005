-- ===== src/Packages/Limits/Capacity.antt =====
-- A package within the limits, against the capacity that the settings demand.
use video_review.Base.{
  ℕ, ◌+◌, ◌*◌, ◌≤◌, ◌<◌, ◌≡◌, false, List, [], ◌∷◌, length, count_where, count_where-append, ok,
  Returns, ltb, leb, arith, All, none,
}
use video_review.Packages.{
  Snapshot, PackageSettings, is_preparing, active_package_storage_reservation_bytes,
  pending_package_storage_reservation_bytes,
}
use video_review.Packages.Builds.{Disk, ensure_package_filesystem_headroom}
use video_review.Packages.Limits.{
  zip_max_archive_name_bytes, estimate_zip_stored_storage_bytes, minimum_package_storage_bytes, sum,
  estimate_package_storage_bytes, validate_package_limits, validate_package_storage_capacity,
  PackageRequest, admit_package,
}

sum_bounded :
    (ns : List ℕ)
    → All (λ n. n ≤ zip_max_archive_name_bytes) ns
    → sum ns ≤ length ns * zip_max_archive_name_bytes
sum_bounded [] h = omega arith
sum_bounded (n ∷ ns) h = omega (arith, sum_bounded ns h.1, h.0)

-- The number of packages that are being built.
abbrev pub pending_builds : List Snapshot → ℕ
pending_builds rows = count_where (λ p. is_preparing p.status) rows

within_limits-estimate :
    (m : PackageSettings) (q : PackageRequest)
    → validate_package_storage_capacity m ≡ ok tt
    → length q.file_sizes ≤ m.max_package_files
    → sum q.file_sizes ≤ m.max_package_bytes
    → length q.archive_names ≡ length q.file_sizes
    → All (λ n. n ≤ zip_max_archive_name_bytes) q.archive_names
    → estimate_package_storage_bytes (sum q.file_sizes) q.archive_names
      ≤ m.max_package_storage_bytes
unfolding estimate_package_storage_bytes estimate_zip_stored_storage_bytes
    minimum_package_storage_bytes
within_limits-estimate m q capacity files bytes same names =
    ground (arith, sum_bounded q.archive_names names)

-- If the settings pass `validate_package_storage_capacity` and no bytes are reserved, a package
-- within the limits on files and bytes, with one archive name of at most 65535 bytes for each
-- file, is admitted when the queue is not full and the file system has headroom, and is then one
-- more pending build.
pub admit_package-Returns :
    (m : PackageSettings) (now : ℕ) (disk : Disk) (q : PackageRequest) (rows : List Snapshot)
    → validate_package_storage_capacity m ≡ ok tt
    → length q.file_sizes ≤ m.max_package_files
    → sum q.file_sizes ≤ m.max_package_bytes
    → length q.archive_names ≡ length q.file_sizes
    → All (λ n. n ≤ zip_max_archive_name_bytes) q.archive_names
    → active_package_storage_reservation_bytes rows ≡ 0
    → pending_builds rows < m.max_pending_package_builds
    → ensure_package_filesystem_headroom m disk
        (pending_package_storage_reservation_bytes none rows)
        (estimate_package_storage_bytes (sum q.file_sizes) q.archive_names)
      ≡ ok tt
    → Returns
        (λ at. pending_builds at.1 ≡ pending_builds rows + 1)
        (admit_package m now disk q rows)
unfolding admit_package validate_package_limits
admit_package-Returns m now disk q rows capacity files bytes same names empty queue room =
    let fits = within_limits-estimate m q capacity files bytes same names in
    let few : ltb m.max_package_files (length q.file_sizes) ≡ false = ground arith in
    let small : ltb m.max_package_bytes (sum q.file_sizes) ≡ false = ground arith in
    let short : leb m.max_pending_package_builds (pending_builds rows) ≡ false = ground arith in
    let inside : ltb m.max_package_storage_bytes (
          active_package_storage_reservation_bytes rows
          + estimate_package_storage_bytes (sum q.file_sizes) q.archive_names)
        ≡ false =
      ground arith in
    rw (few, small, short, inside, room, admit_package, validate_package_limits)
      (count_where-append (λ p. is_preparing p.status) rows _)
