-- ===== src/Packages/Edits.antt =====
-- What the operations on packages may do to the table: each call leaves it, adds a new row, or
-- makes one edit of one row.
pub mod Effects
pub mod Guards
pub mod Transfers
pub mod Calls
use video_review.Base.{
  ℕ, ◌+◌, ◌≤◌, ◌<◌, ◌≡◌, refl, Bool, true, false, not, ◌&&◌, ◌||◌, Option, none, some, List, [],
  ◌∷◌, ◌++◌, ltb, leb, ◌==◌, opt_eq, is_none, is_some, if◌then◌else◌, min, Result, ok, err, ◌>>=◌,
  ◌>>◌, raise_if, arith, Ensures, Ensures-bind, Bool-cases, inl, inr,
}
use video_review.Review.Store.{preparing, ready, failed, Project}
use video_review.Packages.{
  Text, text_eq, Snapshot, PackageSettings, is_live, is_preparing, is_ready, row, write, sum_of,
  other_than, reserved,
}
use video_review.Packages.Builds.{
  Disk, Artifact, Report, is_waiting, interrupt, lease_build, publish_row, retry_row, fail_row,
  attempt_of, preparing_row, claim_package_build, publish_prepared_package, publish_leased,
  record_package_build_failure, ensure_package_filesystem_headroom,
}
use video_review.Packages.Downloads.{
  Digests, PackageFiles, FileIdentity, SessionState, fresh, verified, started,
  package_download_session_hash, session_state, begin_row, leased_row,
}
use video_review.Packages.Limits.{PackageRequest}
use video_review.Packages.Operations.{
  Call, admit, claim, publish, report_failure, authorize, begin, mark_verified, renew, release,
  effect,
}

module _ (m : PackageSettings) (d : Digests) (rows : List Snapshot) where
  -- The edits of a row `p` that a call may make.
  pub data Edit (p : Snapshot) : Call → Snapshot → Type 0 where
    interrupted :
        (now lease_id id : ℕ)
        → is_preparing p.status ≡ true
        → is_waiting now p ≡ false
        → m.package_worker_max_attempts ≤ p.build_attempts
        → Edit p (claim now lease_id id) (interrupt m now p)
    leased :
        (now lease_id id : ℕ)
        → is_preparing p.status ≡ true
        → is_waiting now p ≡ false
        → p.build_attempts < m.package_worker_max_attempts
        → Edit p (claim now lease_id id) (lease_build m now lease_id p)
    published :
        (now : ℕ) (disk : Disk) (a : Artifact)
        → is_preparing p.status ≡ true
        → opt_eq p.build_lease_id (some a.lease_id) ≡ true
        → sum_of (other_than p.id reserved) rows + a.storage_bytes ≤ m.max_package_storage_bytes
        → Edit p (publish now disk a) (publish_row now a p)
    retried :
        (now : ℕ) (r : Report)
        → is_preparing p.status ≡ true
        → opt_eq p.build_lease_id (some r.lease_id) ≡ true
        → p.build_attempts < m.package_worker_max_attempts
        → Edit p (report_failure now r) (retry_row m now (attempt_of r p) p)
    given_up :
        (now : ℕ) (r : Report)
        → is_preparing p.status ≡ true
        → opt_eq p.build_lease_id (some r.lease_id) ≡ true
        → Edit p (report_failure now r) (fail_row now (attempt_of r p) p)
    authorized :
        (now : ℕ) (projects : ℕ → Option Project) (files : PackageFiles) (token : Text)
        (project id expires : ℕ) (f : FileIdentity)
        → is_live p.download_lease_id p.download_lease_expires_at now ≡ false
        → Edit p (authorize now projects files token project id) (record p {
          download_session_hash = some (package_download_session_hash d token fresh f);
          download_session_expires_at = some expires;
          updated_at = now;
        })
    begun :
        (now lease_id : ℕ) (projects : ℕ → Option Project) (files : PackageFiles) (project id : ℕ)
        (token : Text) (is_resume : Bool) (f : FileIdentity) (state : SessionState) (stored : Text)
        → p.download_session_hash ≡ some stored
        → is_some p.download_session_expires_at ≡ true
        → session_state d token f stored ≡ some state
        → is_live p.download_lease_id p.download_lease_expires_at now ≡ false
        → Edit p
            (begin now lease_id projects files project id token is_resume)
            (begin_row m d now lease_id token f state p)
    marked :
        (now : ℕ) (files : PackageFiles) (id lease_id : ℕ) (token expected : Text)
        (verified_identity current : FileIdentity)
        → opt_eq p.download_lease_id (some lease_id) ≡ true
        → is_none p.download_session_hash ≡ false
        → p.sha256 ≡ some expected
        → current ≡ verified_identity
        → Edit p (mark_verified now files id lease_id token expected verified_identity) (record p {
          download_session_hash = some (package_download_session_hash d token verified current);
          updated_at = now;
        })
    renewed :
        (now id lease_id : ℕ)
        → opt_eq p.download_lease_id (some lease_id) ≡ true
        → Edit p (renew now id lease_id) (record p {
          download_lease_expires_at = some (now + m.package_download_lease);
          updated_at = now;
        })
    released :
        (now id lease_id : ℕ) (completed : Bool)
        → opt_eq p.download_lease_id (some lease_id) ≡ true
        → Edit p (release now id lease_id completed) (record p {
          download_lease_id = none;
          download_lease_expires_at = none;
          last_download_finished_at = if completed then some now else p.last_download_finished_at;
          updated_at = now;
        })

  -- A row that `prepare_package` adds has no lease, no session and no attempt, and fits.
  pub record IsNew (p : Snapshot) : Type 0 where
    pub building : p.status ≡ preparing
    pub attempts : p.build_attempts ≡ 0
    pub build_lease : p.build_lease_id ≡ none
    pub build_lease_expires : p.build_lease_expires_at ≡ none
    pub session : p.download_session_hash ≡ none
    pub session_expires : p.download_session_expires_at ≡ none
    pub download_lease : p.download_lease_id ≡ none
    pub download_lease_expires : p.download_lease_expires_at ≡ none
    pub fits : sum_of reserved rows + p.storage_bytes ≤ m.max_package_storage_bytes
    pub unreclaimed : p.storage_reclaimed_at ≡ none
    pub no_digest : p.sha256 ≡ none

  pub data Outcome (c : Call) (t : List Snapshot) : Type 0 where
    unchanged : t ≡ rows → Outcome c t
    added :
        (now : ℕ) (disk : Disk) (q : PackageRequest) (p : Snapshot)
        → c ≡ admit now disk q
        → p.id ≡ q.id
        → IsNew p
        → t ≡ rows ++ p ∷ []
        → Outcome c t
    edited :
        (p q : Snapshot)
        → row p.id rows ≡ some p
        → q.id ≡ p.id
        → Edit p c q
        → t ≡ write q rows
        → Outcome c t
