-- ===== src/Packages.antt =====
-- The project packages: the rows of `package_snapshots` (infra/sqlalchemy_models.py) and what the
-- package operations of infra/repositories.py read of them. Identifiers are numbers; digests and
-- download tokens are texts, which are lists of numbers; a time is a number of microseconds.
pub mod Builds
pub mod Downloads
pub mod Limits
pub mod Operations
pub mod Edits
pub mod Rows
mod Examples
pub mod Crashes
pub mod Sessions
pub mod Fencing
pub mod Exclusive
pub mod Quota
pub mod Sound
pub mod Tracking
use video_review.Base.{
  ℕ, ◌+◌, Bool, true, false, ◌&&◌, Option, none, some, List, [], ◌∷◌, ltb, ◌==◌, is_none,
  if◌then◌else◌,
}
use video_review.Review.Store.{PackageStatus, preparing, ready}

abbrev pub Text : Type 0
Text = List ℕ

abbrev pub text_eq : Text → Text → Bool
text_eq [] [] = true
text_eq [] (c ∷ cs) = false
text_eq (b ∷ bs) [] = false
text_eq (b ∷ bs) (c ∷ cs) = b == c && text_eq bs cs

-- The `error_code` of `failure_details`: one that a worker reports, or one of the operations'.
pub data FailureCode : Type 0 where
  reported : ℕ → FailureCode
  build_lease_expired build_interrupted build_retry_scheduled : FailureCode

pub record BuildAttempt : Type 0 where
  pub error_code : FailureCode
  pub attempt : ℕ
  pub retryable : Bool
  pub storage_reclaimed : Bool

-- `failure_details`, with the `last_failure` that two of its forms carry.
pub data Failure : Type 0 where
  attempt_failure : BuildAttempt → Failure
  -- `last_failure` is null
  uncaused : FailureCode → Failure
  caused : FailureCode → Failure → Failure

pub record Snapshot : Type 0 where
  pub id : ℕ
  pub project_ref_id : ℕ
  pub status : PackageStatus
  pub storage_path : ℕ
  pub expires_at : ℕ
  pub total_bytes : ℕ
  pub storage_bytes : ℕ
  pub storage_reclaimed_at : Option ℕ
  pub sha256 : Option Text
  pub build_attempts : ℕ
  pub next_build_attempt_at : Option ℕ
  pub build_lease_id : Option ℕ
  pub build_lease_expires_at : Option ℕ
  pub failure_details : Option Failure
  pub download_session_hash : Option Text
  pub download_session_expires_at : Option ℕ
  pub download_lease_id : Option ℕ
  pub download_lease_expires_at : Option ℕ
  pub last_download_finished_at : Option ℕ
  pub updated_at : ℕ

-- An event that a call adds to the outbox, which is a part of the call's answer; the error code is
-- its payload.
pub data PackageEventType : Type 0 where
  package_requested package_ready package_failed : PackageEventType

pub record PackageEvent : Type 0 where
  pub event_type : PackageEventType
  pub project_ref_id : ℕ
  pub package_id : ℕ
  pub error_code : Option FailureCode

abbrev pub event_of : PackageEventType → Option FailureCode → Snapshot → PackageEvent
event_of event_type error_code p = record {
  event_type = event_type;
  project_ref_id = p.project_ref_id;
  package_id = p.id;
  error_code = error_code;
}

-- The settings of the packages; durations are in microseconds.
pub record PackageSettings : Type 0 where
  pub max_package_files : ℕ
  pub max_package_bytes : ℕ
  pub max_package_storage_bytes : ℕ
  pub max_pending_package_builds : ℕ
  pub package_worker_max_attempts : ℕ
  pub package_worker_retry_delay : ℕ
  pub package_download_session_ttl : ℕ
  pub package_download_lease : ℕ
  pub package_download_cooldown : ℕ
  pub package_ttl : ℕ
  pub upload_storage_low_watermark_bytes : ℕ

-- `id is not None and expires_at is not None and expires_at > now`
abbrev pub is_live : Option ℕ → Option ℕ → ℕ → Bool
is_live none expires now = false
is_live (some id) none now = false
is_live (some id) (some expires) now = ltb now expires

-- `expires_at is not None and expires_at > now`
abbrev pub is_later : Option ℕ → ℕ → Bool
is_later none now = false
is_later (some t) now = ltb now t

abbrev pub is_preparing : PackageStatus → Bool
is_preparing preparing = true
is_preparing _ = false

abbrev pub is_ready : PackageStatus → Bool
is_ready ready = true
is_ready _ = false

-- `is_(None)` of `storage_reclaimed_at`: the bytes of the row are reserved.
abbrev pub reserved : Snapshot → ℕ
reserved p = if is_none p.storage_reclaimed_at then p.storage_bytes else 0

-- The same of the rows that are still being built.
abbrev pending : Snapshot → ℕ
pending p = if is_preparing p.status then reserved p else 0

abbrev pub sum_of : (Snapshot → ℕ) → List Snapshot → ℕ
sum_of f [] = 0
sum_of f (p ∷ ps) = f p + sum_of f ps

-- The sums that leave out the row with this identifier.
abbrev pub other_than : ℕ → (Snapshot → ℕ) → Snapshot → ℕ
other_than id f p = if p.id == id then 0 else f p

pub active_package_storage_reservation_bytes : List Snapshot → ℕ
active_package_storage_reservation_bytes = sum_of reserved

pub pending_package_storage_reservation_bytes : Option ℕ → List Snapshot → ℕ
pending_package_storage_reservation_bytes none = sum_of pending
pending_package_storage_reservation_bytes (some id) = sum_of (other_than id pending)

-- `session.get`, and the row that a query by primary key locks.
abbrev pub row : ℕ → List Snapshot → Option Snapshot
row id [] = none
row id (p ∷ ps) = if p.id == id then some p else row id ps

-- The flush of a changed row.
abbrev pub write : Snapshot → List Snapshot → List Snapshot
write p [] = []
write p (q ∷ qs) = if q.id == p.id then p ∷ qs else q ∷ write p qs
