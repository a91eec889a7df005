-- ===== src/Packages/Operations.antt =====
-- One call of an operation on packages, by whichever process, and its effect on the table. An
-- operation that raises is rolled back; the rows of one call are locked, so that concurrent calls
-- are a list of operations.
use video_review.Base.{ℕ, Bool, Option, List, [], ◌∷◌, Result, ok, err}
use video_review.Review.Store.{Project}
use video_review.Packages.{Text, Snapshot, PackageSettings}
use video_review.Packages.Builds.{
  Disk, Artifact, Report, claim_package_build, publish_prepared_package,
  record_package_build_failure,
}
use video_review.Packages.Downloads.{
  Digests, PackageFiles, FileIdentity, authorize_package_download_session, begin_package_download,
  mark_package_download_session_verified, renew_package_download_lease,
  release_package_download_lease,
}
use video_review.Packages.Limits.{PackageRequest, admit_package}

pub data Call : Type 0 where
  -- the clock, what the file system answers, the request
  admit : ℕ → Disk → PackageRequest → Call
  -- the clock, the new lease, the package
  claim : ℕ → ℕ → ℕ → Call
  publish : ℕ → Disk → Artifact → Call
  report_failure : ℕ → Report → Call
  -- the clock, the projects, the files, the token, the project, the package
  authorize : ℕ → (ℕ → Option Project) → PackageFiles → Text → ℕ → ℕ → Call
  -- the clock, the new lease, the projects, the files, the project, the package, the token, whether
  -- the download is resumed
  begin : ℕ → ℕ → (ℕ → Option Project) → PackageFiles → ℕ → ℕ → Text → Bool → Call
  -- the clock, the files, the package, the lease, the token, the digest, the identity
  mark_verified : ℕ → PackageFiles → ℕ → ℕ → Text → Text → FileIdentity → Call
  -- the clock, the package, the lease
  renew : ℕ → ℕ → ℕ → Call
  -- and whether the download was completed
  release : ℕ → ℕ → ℕ → Bool → Call

-- The rows that a call leaves.
abbrev pub kept {ℓ} : {A : Type ℓ} → List Snapshot → Result (A × List Snapshot) → List Snapshot
kept rows (err code) = rows
kept rows (ok (answer, t)) = t

abbrev pub effect : PackageSettings → Digests → Call → List Snapshot → List Snapshot
effect m d (admit now disk q) rows = kept rows (admit_package m now disk q rows)
effect m d (claim now lease_id id) rows = (claim_package_build m now lease_id id rows).1
effect m d (publish now disk a) rows = (publish_prepared_package m now disk a rows).1
effect m d (report_failure now r) rows = (record_package_build_failure m now r rows).1
effect m d (authorize now projects files token project id) rows =
    kept rows (authorize_package_download_session m d projects files now token project id rows)
effect m d (begin now lease_id projects files project id token is_resume) rows =
    kept rows
      (begin_package_download m d projects files now lease_id project id token is_resume rows)
effect m d (mark_verified now files id lease_id token expected f) rows =
    kept rows (mark_package_download_session_verified d files now id lease_id token expected f rows)
effect m d (renew now id lease_id) rows = (renew_package_download_lease m now id lease_id rows).1
effect m d (release now id lease_id completed) rows =
    (release_package_download_lease now id lease_id completed rows).1

abbrev pub effects : PackageSettings → Digests → List Call → List Snapshot → List Snapshot
effects m d [] rows = rows
effects m d (c ∷ cs) rows = effects m d cs (effect m d c rows)
