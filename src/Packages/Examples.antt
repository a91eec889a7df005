-- ===== src/Packages/Examples.antt =====
-- A package that is requested, built and downloaded, and what may come in between.
use video_review.Base.{
  zero, suc, ℕ, ◌+◌, ◌≤◌, ◌≡◌, ◌≢◌, refl, true, false, Option, none, some, List, [], ◌∷◌, Result,
  ok, err, arith, All, Returns,
}
use video_review.Review.Store.{Project, active, ready}
use video_review.Packages.{
  Text, Snapshot, PackageSettings, row, active_package_storage_reservation_bytes,
  pending_package_storage_reservation_bytes,
}
use video_review.Packages.Builds.{
  Disk, FileStat, Artifact, Report, canonical, staging, claim_package_build,
  publish_prepared_package, publish_leased, publish_skipped, record_package_build_failure,
  failure_skipped,
}
use video_review.Packages.Downloads.{
  mark_package_download_session_verified, renew_package_download_lease, Digests, JsonValue,
  json_text, json_number, FileIdentity, PackageFiles, identified, Grant,
  authorize_package_download_session, begin_package_download,
}
use video_review.Packages.Limits.{
  PackageRequest, admit_package, validate_package_limits, estimate_package_storage_bytes,
  estimate_zip_stored_storage_bytes, minimum_package_storage_bytes,
}
use video_review.Packages.Limits.Capacity.{pending_builds, admit_package-Returns}
use video_review.Packages.Operations.{
  Call, admit, claim, publish, authorize, mark_verified, renew, effects,
}
use video_review.Packages.Sound.{IsSound, effects-IsSound}
use video_review.Packages.Quota.{effects-reserved}
use video_review.Packages.Exclusive.{second_download-refused}
use video_review.Packages.Fencing.{leases_of, lost_lease-skipped, leases_bounded}
use video_review.Packages.Sessions.{NoCollision, unmarked_session-Unverified}
use video_review.Packages.Crashes.{Visit, claims, is_failed, abandoned_builds-fail}

abbrev settings : PackageSettings
settings = record {
  max_package_files = 2;
  max_package_bytes = 100;
  max_package_storage_bytes = 300000;
  max_pending_package_builds = 8;
  package_worker_max_attempts = 2;
  package_worker_retry_delay = 30;
  package_download_session_ttl = 120;
  package_download_lease = 50;
  package_download_cooldown = 10;
  package_ttl = 1000;
  upload_storage_low_watermark_bytes = 10;
}

-- A text is spelled out between marks, so that nothing is lost.
abbrev spell : Text → Text → Text
spell [] rest = 1 ∷ rest
spell (c ∷ cs) rest = 2 ∷ c ∷ spell cs rest

abbrev spell_all : List JsonValue → Text
spell_all [] = []
spell_all (json_number n ∷ vs) = 3 ∷ n ∷ spell_all vs
spell_all (json_text t ∷ vs) = 4 ∷ spell t (spell_all vs)

spell_eq : (t u v w : Text) → spell t v ≡ spell u w → (t ≡ u) × (v ≡ w)
spell_eq [] [] v w h = (refl, cc)
spell_eq [] (c ∷ cs) v w h = cc
spell_eq (b ∷ bs) [] v w h = cc
spell_eq (b ∷ bs) (c ∷ cs) v w h =
    let (same, rest) = spell_eq bs cs v w (cc) in
    let head : b ≡ c = cc in (rw (head, same) refl, rest)

spell_all_eq : (xs ys : List JsonValue) → spell_all xs ≡ spell_all ys → xs ≡ ys
spell_all_eq [] [] h = refl
spell_all_eq [] (json_number n ∷ ys) h = cc
spell_all_eq [] (json_text t ∷ ys) h = cc
spell_all_eq (json_number n ∷ xs) [] h = cc
spell_all_eq (json_text t ∷ xs) [] h = cc
spell_all_eq (json_number n ∷ xs) (json_number k ∷ ys) h =
    let head : n ≡ k = cc in rw (head, spell_all_eq xs ys (cc)) refl
spell_all_eq (json_number n ∷ xs) (json_text t ∷ ys) h = cc
spell_all_eq (json_text t ∷ xs) (json_number n ∷ ys) h = cc
spell_all_eq (json_text t ∷ xs) (json_text u ∷ ys) h =
    let (head, rest) = spell_eq t u (spell_all xs) (spell_all ys) (cc) in
    rw (head, spell_all_eq xs ys rest) refl

abbrev digests : Digests
digests = record { dumps = spell_all; sha256 = λ t. t }

abbrev projects : ℕ → Option Project
projects k = some (record {
  project_code = 1;
  project_name = 2;
  description = 0;
  lifecycle_status = active;
  deleted_at = none;
  fps_num = none;
  fps_den = none;
  lock_version = 1;
  updated_at = 0;
})

abbrev stat : FileStat
stat = record { regular = true; device = 1; inode = 7; size = 60 }

abbrev disk : Disk
disk = record {
  pinned = some stat;
  shared_filesystem = ok true;
  free_bytes = some 1000000;
  upload_reserved_bytes = 5;
  staged = some stat;
  replaced_file = some none;
  published = some stat;
  replaces = true;
  syncs = true;
}

abbrev request : PackageRequest
request = record {
  id = 9;
  project_ref_id = 1;
  storage_path = 90;
  file_sizes = 20 ∷ 30 ∷ [];
  archive_names = 12 ∷ 12 ∷ [];
}

abbrev digits : ℕ → Text
digits zero = []
digits (suc n) = 5 ∷ digits n

abbrev digest : Text
digest = digits 64

abbrev artifact : Artifact
artifact = record {
  package_id = 9;
  lease_id = 41;
  storage_path = staging 9 41;
  canonical_path = canonical 9;
  sha256 = digest;
  storage_bytes = 60;
  device = 1;
  inode = 7;
}

abbrev identity : FileIdentity
identity = record { device = 1; inode = 7; ctime_ns = 3; mtime_ns = 4; size = 60 }

abbrev files : PackageFiles
files = record {
  well_named = true;
  expected_path = some 90;
  actual_path = some 90;
  pin = identified identity;
}

-- Requested, built and authorized.
abbrev preparation : List Call
preparation =
    admit 0 disk request
    ∷ claim 1 41 9
    ∷ publish 5 disk artifact
    ∷ authorize 6 projects files (7 ∷ []) 1 9
    ∷ []

abbrev built : Snapshot
built = record {
  id = 9;
  project_ref_id = 1;
  status = ready;
  storage_path = 90;
  expires_at = 1000;
  total_bytes = 50;
  storage_bytes = 60;
  storage_reclaimed_at = none;
  sha256 = some digest;
  build_attempts = 1;
  next_build_attempt_at = none;
  build_lease_id = none;
  build_lease_expires_at = none;
  failure_details = none;
  download_session_hash = some (
      spell_all (
        json_text (102 ∷ 114 ∷ 101 ∷ 115 ∷ 104 ∷ [])
        ∷ json_number 1
        ∷ json_number 7
        ∷ json_number 3
        ∷ json_number 4
        ∷ json_number 60
        ∷ json_text (7 ∷ [])
        ∷ []));
  download_session_expires_at = some 126;
  download_lease_id = none;
  download_lease_expires_at = none;
  last_download_finished_at = none;
  updated_at = 6;
}

preparation_run : effects settings digests preparation [] ≡ built ∷ []
unfolding admit_package validate_package_limits estimate_package_storage_bytes
    estimate_zip_stored_storage_bytes active_package_storage_reservation_bytes
    pending_package_storage_reservation_bytes claim_package_build publish_prepared_package
    publish_leased authorize_package_download_session
preparation_run = refl

effects-IsSound_example : All (IsSound settings digests) (effects settings digests preparation [])
effects-IsSound_example =
    effects-IsSound settings digests preparation [] (tt, (tt, (refl, (tt, tt)))) tt

effects-reserved_example :
    active_package_storage_reservation_bytes (effects settings digests preparation [])
    ≤ settings.max_package_storage_bytes
unfolding active_package_storage_reservation_bytes
effects-reserved_example =
    effects-reserved settings digests preparation [] (refl, (tt, (tt, (tt, tt)))) tt (omega arith)

abbrev downloading : List Snapshot
downloading =
    (record built {
      download_session_hash = some (
          spell_all (
            json_text (115 ∷ 116 ∷ 97 ∷ 114 ∷ 116 ∷ 101 ∷ 100 ∷ [])
            ∷ json_number 1
            ∷ json_number 7
            ∷ json_number 3
            ∷ json_number 4
            ∷ json_number 60
            ∷ json_text (7 ∷ [])
            ∷ []));
      download_lease_id = some 51;
      download_lease_expires_at = some 60;
      updated_at = 10;
    })
    ∷ []

abbrev grant : Grant
grant = record {
  sha256 = some digest;
  lease_id = 51;
  storage_bytes = 60;
  integrity_verified = false;
  file_identity = identity;
}

first_download :
    begin_package_download settings digests projects files 10 51 1 9 (7 ∷ []) false (built ∷ [])
    ≡ ok (grant, downloading)
unfolding begin_package_download
first_download = refl

abbrev interruptions : List Call
interruptions = renew 20 9 51 ∷ mark_verified 30 files 9 51 (7 ∷ []) (5 ∷ 6 ∷ []) identity ∷ []

second_download-refused_example :
    begin_package_download settings digests projects files 40 52 1 9
      (7 ∷ [])
      true
      (effects settings digests interruptions downloading)
    ≢ ok (grant, downloading)
second_download-refused_example =
    second_download-refused settings digests (built ∷ []) downloading grant 10 51 projects files 1 9
      (7 ∷ []) false interruptions 40 52 projects files 1 (7 ∷ []) true (grant, downloading)
      first_download ((omega arith, omega arith), ((omega arith, omega arith), tt)) (tt, (tt, tt))
      (omega arith)

abbrev report : Report
report = record {
  package_id = 9;
  lease_id = 41;
  error_code = 3;
  retryable = true;
  storage_reclaimed = false;
}

-- The worker with lease 41 was late: the build was claimed again with lease 42.
abbrev reclaimed : List Snapshot
reclaimed = effects settings digests (admit 0 disk request ∷ claim 1 41 9 ∷ claim 31 42 9 ∷ []) []

lost_lease-skipped_example :
    (publish_prepared_package settings 80 disk artifact
        (effects settings digests (claim 61 43 9 ∷ []) reclaimed)
      ≡ (publish_skipped, effects settings digests (claim 61 43 9 ∷ []) reclaimed))
    × (record_package_build_failure settings 80 report
          (effects settings digests (claim 61 43 9 ∷ []) reclaimed)
        ≡ (failure_skipped, effects settings digests (claim 61 43 9 ∷ []) reclaimed))
unfolding admit_package validate_package_limits estimate_package_storage_bytes
    estimate_zip_stored_storage_bytes active_package_storage_reservation_bytes
    pending_package_storage_reservation_bytes claim_package_build
lost_lease-skipped_example =
    lost_lease-skipped settings digests (claim 61 43 9 ∷ []) reclaimed 80 disk artifact report
      (_, refl, refl) ((λ e. ground (arith, e)), tt) refl refl

leases_bounded_example :
    leases_of settings digests 9 (claim 61 43 9 ∷ claim 91 44 9 ∷ []) reclaimed + 2 ≤ 2
unfolding admit_package validate_package_limits estimate_package_storage_bytes
    estimate_zip_stored_storage_bytes active_package_storage_reservation_bytes
    pending_package_storage_reservation_bytes claim_package_build
leases_bounded_example =
    leases_bounded settings digests (claim 61 43 9 ∷ claim 91 44 9 ∷ []) reclaimed 9 _ refl
      (omega arith)

digests_safe : NoCollision digests
digests_safe = spell_all_eq

-- The file of another build.
abbrev other_identity : FileIdentity
other_identity = record { device = 1; inode = 8; ctime_ns = 3; mtime_ns = 4; size = 60 }

-- The same authorization anew, and a report about another file under a lease that is not held.
abbrev unmarked : List Call
unmarked =
    authorize 8 projects files (7 ∷ []) 1 9
    ∷ mark_verified 9 files 9 51 (7 ∷ []) digest other_identity
    ∷ renew 9 9 51
    ∷ []

abbrev rows_of : Result (Grant × List Snapshot) → List Snapshot
rows_of (ok (g, rows)) = rows
rows_of (err code) = []

unmarked_session-Unverified_example : grant.integrity_verified ≡ false
unfolding begin_package_download authorize_package_download_session
    mark_package_download_session_verified renew_package_download_lease
unmarked_session-Unverified_example =
    unmarked_session-Unverified settings digests digests_safe unmarked (built ∷ [])
      (rows_of (
        begin_package_download settings digests projects files 10 51 1 9 (7 ∷ []) false
          (effects settings digests unmarked (built ∷ []))))
      9 (7 ∷ []) built 10 51 projects files 1 false grant refl (λ e. cc)
      (tt, ((λ same e. cc), (tt, tt))) refl

abbrev visits : List Visit
visits =
    record { now = 1; lease_id = 41 }
    ∷ record { now = 31; lease_id = 42 }
    ∷ record { now = 61; lease_id = 43 }
    ∷ []

abbrev requested : List Snapshot
requested = effects settings digests (admit 0 disk request ∷ []) []

abandoned_builds-fail_example :
    (q : Snapshot) × (row 9 (effects settings digests (claims 9 visits) requested) ≡ some q)
    × (is_failed q.status ≡ true)
unfolding admit_package validate_package_limits estimate_package_storage_bytes
    estimate_zip_stored_storage_bytes active_package_storage_reservation_bytes
    pending_package_storage_reservation_bytes
abandoned_builds-fail_example =
    abandoned_builds-fail settings digests visits requested 9 0 _ refl refl (λ now h. refl)
      (omega arith, (omega arith, (omega arith, tt))) (omega arith) (omega arith)

admit_package-Returns_example :
    Returns
      (λ at. pending_builds at.1 ≡ pending_builds [] + 1)
      (admit_package settings 0 disk request [])
unfolding minimum_package_storage_bytes active_package_storage_reservation_bytes
    estimate_package_storage_bytes estimate_zip_stored_storage_bytes
    pending_package_storage_reservation_bytes
admit_package-Returns_example =
    admit_package-Returns settings 0 disk request [] refl (omega arith) (omega arith) refl
      (omega arith, (omega arith, tt)) refl (omega arith) refl
