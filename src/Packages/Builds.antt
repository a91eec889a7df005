-- ===== src/Packages/Builds.antt =====
-- Building packages: `claim_package_build`, `publish_prepared_package` and
-- `record_package_build_failure` of infra/repositories.py. The clock, the new lease identifier and
-- what the file system answers are arguments.
use video_review.Base.{
  ℕ, ◌+◌, Bool, true, false, not, ◌&&◌, ◌||◌, Option, none, some, List, ltb, leb, ◌==◌, opt_eq,
  if◌then◌else◌, Code, Result, ok, err, raise_if, ◌>>=◌, storage_unavailable,
}
use video_review.Review.Store.{ready, failed}
use video_review.Packages.{
  Text, Snapshot, BuildAttempt, Failure, reported, build_lease_expired, build_interrupted,
  build_retry_scheduled, attempt_failure, uncaused, caused, PackageSettings, PackageEvent, event_of,
  package_ready, package_failed, is_live, is_later, is_preparing, row, write, sum_of, other_than,
  reserved, pending_package_storage_reservation_bytes,
}

abbrev pub if_preparing : Option Snapshot → Option Snapshot
if_preparing none = none
if_preparing (some p) = if is_preparing p.status then some p else none

-- The row, if it is being built: `where(id == package_id, status == "preparing")`.
abbrev pub preparing_row : ℕ → List Snapshot → Option Snapshot
preparing_row id rows = if_preparing (row id rows)

pub data ClaimOutcome : Type 0 where
  claim_skipped : ClaimOutcome
  claim_failed : PackageEvent → ClaimOutcome
  -- with the identifier of the new lease
  claimed : ℕ → ClaimOutcome

-- The lease was not given back, and its time is over.
abbrev lease_is_expired : Option ℕ → Option ℕ → ℕ → Bool
lease_is_expired none expires now = false
lease_is_expired (some id) none now = false
lease_is_expired (some id) (some expires) now = leb expires now

abbrev expired_lease_failure : PackageSettings → ℕ → Snapshot → Option Failure
expired_lease_failure m now p =
    if lease_is_expired p.build_lease_id p.build_lease_expires_at now
    then some (
        attempt_failure (record {
          error_code = build_lease_expired;
          attempt = p.build_attempts;
          retryable = ltb p.build_attempts m.package_worker_max_attempts;
          storage_reclaimed = false;
        }))
    else none

-- `expired_lease_failure or snapshot.failure_details`
abbrev or_else {ℓ} : {A : Type ℓ} → Option A → Option A → Option A
or_else none y = y
or_else (some x) y = some x

abbrev interruption : Option Failure → Failure
interruption none = uncaused build_interrupted
interruption (some f) = caused build_interrupted f

-- The attempts are used up.
abbrev pub interrupt : PackageSettings → ℕ → Snapshot → Snapshot
interrupt m now p = record p {
  status = failed;
  sha256 = none;
  next_build_attempt_at = none;
  build_lease_id = none;
  build_lease_expires_at = none;
  failure_details = some (interruption (or_else (expired_lease_failure m now p) p.failure_details));
  updated_at = now;
}

abbrev scheduled : Option Failure → Option Failure → Option Failure
scheduled none details = details
scheduled (some f) details = some (caused build_retry_scheduled f)

abbrev pub lease_build : PackageSettings → ℕ → ℕ → Snapshot → Snapshot
lease_build m now lease_id p = record p {
  failure_details = scheduled (expired_lease_failure m now p) p.failure_details;
  build_attempts = p.build_attempts + 1;
  next_build_attempt_at = some (now + m.package_worker_retry_delay);
  build_lease_id = some lease_id;
  build_lease_expires_at = some (now + m.package_worker_retry_delay);
  updated_at = now;
}

-- A build is under way, or the next attempt is not due.
abbrev pub is_waiting : ℕ → Snapshot → Bool
is_waiting now p =
    is_live p.build_lease_id p.build_lease_expires_at now || is_later p.next_build_attempt_at now

unfoldable pub claim_package_build :
    PackageSettings → ℕ → ℕ → ℕ → List Snapshot → ClaimOutcome × List Snapshot
claim_package_build m now lease_id package_id rows = elim (preparing_row package_id rows) [
  | none ↦ (claim_skipped, rows)
  | some p ↦
      if is_waiting now p
      then (claim_skipped, rows)
      else if leb m.package_worker_max_attempts p.build_attempts
      then (
        claim_failed (event_of package_failed (some build_interrupted) p),
        write (interrupt m now p) rows,
      )
      else (claimed lease_id, write (lease_build m now lease_id p) rows)
]

-- A path in the package root: `<id>.zip`, `<id>.<lease>.staging.zip`, or any other.
pub data ArchivePath : Type 0 where
  canonical : ℕ → ArchivePath
  staging : ℕ → ℕ → ArchivePath
  elsewhere : ℕ → ArchivePath

abbrev pub is_canonical : ℕ → ArchivePath → Bool
is_canonical id (canonical i) = i == id
is_canonical id _ = false

abbrev pub is_staging : ℕ → ℕ → ArchivePath → Bool
is_staging id lease_id (staging i l) = i == id && l == lease_id
is_staging id lease_id _ = false

pub record Artifact : Type 0 where
  pub package_id : ℕ
  pub lease_id : ℕ
  pub storage_path : ArchivePath
  pub canonical_path : ArchivePath
  pub sha256 : Text
  pub storage_bytes : ℕ
  pub device : ℕ
  pub inode : ℕ

pub record FileStat : Type 0 where
  pub regular : Bool
  pub device : ℕ
  pub inode : ℕ
  pub size : ℕ

-- What the file system answers to one publication; `none` is an error or a missing file.
pub record Disk : Type 0 where
  -- `pin_regular_file` of the staging file
  pub pinned : Option FileStat
  -- `storage_roots_share_filesystem`
  pub shared_filesystem : Result Bool
  pub free_bytes : Option ℕ
  -- `active_upload_storage_reservation_bytes`
  pub upload_reserved_bytes : ℕ
  -- `os.stat` before and after the replacement
  pub staged : Option FileStat
  -- before it, `none` for an error and `some none` for a missing file
  pub replaced_file : Option (Option FileStat)
  pub published : Option FileStat
  -- `os.replace` and `os.fsync`
  pub replaces : Bool
  pub syncs : Bool

-- The file is the one that the builder wrote.
abbrev is_file_of : Artifact → FileStat → Bool
is_file_of a f = f.device == a.device && f.inode == a.inode && f.size == a.storage_bytes

abbrev pub pinned_matches : Artifact → Option FileStat → Bool
pinned_matches a none = false
pinned_matches a (some f) = is_file_of a f

abbrev stat_matches : Artifact → Option FileStat → Bool
stat_matches a none = false
stat_matches a (some f) = f.regular && is_file_of a f

-- A missing file is no obstacle, and an existing one is replaced only if it is a regular one.
abbrev is_replaceable : Option (Option FileStat) → Bool
is_replaceable none = false
is_replaceable (some none) = true
is_replaceable (some (some f)) = f.regular

abbrev pub ensure_package_filesystem_headroom : PackageSettings → Disk → ℕ → ℕ → Result (Unit {0})
ensure_package_filesystem_headroom m disk package_future_reserved_bytes requested_bytes =
    disk.shared_filesystem >>= λ shared. elim disk.free_bytes [
      | none ↦ err storage_unavailable
      | some free ↦
          raise_if
            (ltb free (
              (if shared then m.upload_storage_low_watermark_bytes else 0)
              + package_future_reserved_bytes
              + (if shared then disk.upload_reserved_bytes else 0)
              + requested_bytes))
            storage_unavailable
    ]

pub data PublishOutcome : Type 0 where
  publish_skipped artifact_invalid quota_exceeded no_storage : PublishOutcome
  published_ready : PackageEvent → PublishOutcome

-- `"storage_unavailable" if exc.code == "STORAGE_UNAVAILABLE" else "quota_exceeded"`
abbrev headroom_outcome : Code → PublishOutcome
headroom_outcome storage_unavailable = no_storage
headroom_outcome _ = quota_exceeded

abbrev pub publish_row : ℕ → Artifact → Snapshot → Snapshot
publish_row now a p = record p {
  sha256 = some a.sha256;
  storage_bytes = a.storage_bytes;
  storage_reclaimed_at = none;
  status = ready;
  next_build_attempt_at = none;
  build_lease_id = none;
  build_lease_expires_at = none;
  updated_at = now;
}

-- The stat of the staging file, the replacement and the stat of the result.
abbrev pub replaced : Artifact → Disk → Bool
replaced a disk =
    stat_matches a disk.staged
    && is_replaceable disk.replaced_file
    && disk.replaces
    && stat_matches a disk.published
    && disk.syncs

-- The rest of the publication, once the free space is known.
abbrev pub publish_if_room :
    ℕ
    → Disk
    → Artifact
    → Snapshot
    → List Snapshot
    → Result (Unit {0})
    → PublishOutcome × List Snapshot
publish_if_room now disk a p rows (err code) = (headroom_outcome code, rows)
publish_if_room now disk a p rows (ok done) =
    if not (replaced a disk)
    then (artifact_invalid, rows)
    else (published_ready (event_of package_ready none p), write (publish_row now a p) rows)

-- The checks and the publication after the lease is found valid.
unfoldable pub publish_leased :
    PackageSettings
    → ℕ
    → Disk
    → Artifact
    → Snapshot
    → List Snapshot
    → PublishOutcome × List Snapshot
publish_leased m now disk a p rows =
    if not (is_canonical p.id a.canonical_path)
    then (artifact_invalid, rows)
    else if not (is_staging p.id a.lease_id a.storage_path)
    then (artifact_invalid, rows)
    else if not (pinned_matches a disk.pinned)
    then (artifact_invalid, rows)
    else if ltb m.max_package_storage_bytes
        (sum_of (other_than p.id reserved) rows + a.storage_bytes)
    then (quota_exceeded, rows)
    else publish_if_room now disk a p rows (
        ensure_package_filesystem_headroom m disk
          (pending_package_storage_reservation_bytes (some p.id) rows) 0)

unfoldable pub publish_prepared_package :
    PackageSettings → ℕ → Disk → Artifact → List Snapshot → PublishOutcome × List Snapshot
publish_prepared_package m now disk a rows = elim (preparing_row a.package_id rows) [
  | none ↦ (publish_skipped, rows)
  | some p ↦
      if not (opt_eq p.build_lease_id (some a.lease_id))
      then (publish_skipped, rows)
      else publish_leased m now disk a p rows
]

pub data FailureOutcome : Type 0 where
  failure_skipped failure_retry : FailureOutcome
  failure_final : PackageEvent → FailureOutcome

abbrev pub retry_row : PackageSettings → ℕ → BuildAttempt → Snapshot → Snapshot
retry_row m now attempt_failed p = record p {
  updated_at = now;
  next_build_attempt_at = some (now + m.package_worker_retry_delay);
  build_lease_id = none;
  build_lease_expires_at = none;
  failure_details = some (caused build_retry_scheduled (attempt_failure attempt_failed));
}

abbrev pub fail_row : ℕ → BuildAttempt → Snapshot → Snapshot
fail_row now attempt_failed p = record p {
  updated_at = now;
  status = failed;
  storage_bytes = if attempt_failed.storage_reclaimed then 0 else p.storage_bytes;
  storage_reclaimed_at =
      if attempt_failed.storage_reclaimed then some now else p.storage_reclaimed_at;
  sha256 = none;
  next_build_attempt_at = none;
  build_lease_id = none;
  build_lease_expires_at = none;
  failure_details = some (attempt_failure attempt_failed);
}

pub record Report : Type 0 where
  pub package_id : ℕ
  pub lease_id : ℕ
  pub error_code : ℕ
  pub retryable : Bool
  pub storage_reclaimed : Bool

abbrev pub attempt_of : Report → Snapshot → BuildAttempt
attempt_of r p = record {
  error_code = reported r.error_code;
  attempt = p.build_attempts;
  retryable = r.retryable;
  storage_reclaimed = r.storage_reclaimed;
}

unfoldable pub record_package_build_failure :
    PackageSettings → ℕ → Report → List Snapshot → FailureOutcome × List Snapshot
record_package_build_failure m now r rows = elim (preparing_row r.package_id rows) [
  | none ↦ (failure_skipped, rows)
  | some p ↦
      if not (opt_eq p.build_lease_id (some r.lease_id))
      then (failure_skipped, rows)
      else if r.retryable && ltb p.build_attempts m.package_worker_max_attempts
      then (failure_retry, write (retry_row m now (attempt_of r p) p) rows)
      else (
        failure_final (event_of package_failed (some (reported r.error_code)) p),
        write (fail_row now (attempt_of r p) p) rows,
      )
]
