-- ===== src/Review/Store.antt =====
-- The tables that the review commands of infra/repositories.py read and write, one record for each
-- model of infra/sqlalchemy_models.py with the columns that those commands use. Identifiers and
-- texts are numbers, 0 being the empty text; a time is a number of microseconds. A table that is
-- read by its primary key is a function from keys; one that is searched is a list.
use video_review.Base.{ℕ, Bool, Option, List, Result}

pub data Lifecycle : Type 0 where
  active archived : Lifecycle

pub data Workflow : Type 0 where
  pending_review in_review changes_requested finalized : Workflow

pub data IssueStatus : Type 0 where
  unresolved resolved : IssueStatus

pub data FinalizationStatus : Type 0 where
  standing revoked : FinalizationStatus

pub data PackageStatus : Type 0 where
  preparing ready failed expired invalidated : PackageStatus

pub record Project : Type 0 where
  pub project_code : ℕ
  pub project_name : ℕ
  pub description : ℕ
  pub lifecycle_status : Lifecycle
  pub deleted_at : Option ℕ
  pub fps_num : Option ℕ
  pub fps_den : Option ℕ
  pub lock_version : ℕ
  pub updated_at : ℕ

pub record Editor : Type 0 where
  pub display_name : ℕ
  pub lock_version : ℕ
  pub updated_at : ℕ

pub record File : Type 0 where
  pub owner_principal_id : Option ℕ
  pub owner_principal_kind : ℕ
  pub file_size : ℕ
  pub sha256 : ℕ
  pub duration_ms : ℕ
  pub width : ℕ
  pub height : ℕ
  pub fps_num : ℕ
  pub fps_den : ℕ

pub record Item : Type 0 where
  pub project_ref_id : ℕ
  pub item_code : ℕ
  pub episode_no : Option ℕ
  pub title : ℕ
  pub workflow_status : Workflow
  pub current_version_id : Option ℕ
  pub active_finalization_id : Option ℕ
  pub lock_version : ℕ
  pub updated_at : ℕ

pub record Version : Type 0 where
  pub project_ref_id : ℕ
  pub review_item_id : ℕ
  pub previous_version_id : Option ℕ
  pub version_no : ℕ
  pub is_current : Bool
  pub original_file_id : ℕ
  pub sha256 : ℕ
  pub responsible_editor_id : ℕ
  pub responsible_editor_name_snapshot : ℕ
  pub playback_asset_id : Option ℕ
  pub version_note : Option ℕ
  pub change_summary : Option ℕ

pub record Issue : Type 0 where
  pub id : ℕ
  pub project_ref_id : ℕ
  pub review_item_id : ℕ
  pub version_id : ℕ
  pub issue_no : ℕ
  pub status : IssueStatus
  pub current_revision_id : ℕ
  pub timestamp_ms : ℕ
  pub frame_number : ℕ
  pub deleted_at : Option ℕ
  pub lock_version : ℕ
  pub updated_at : ℕ

pub record Revision : Type 0 where
  pub issue_id : ℕ
  pub revision_no : ℕ
  pub content : ℕ
  pub annotation_set_id : Option ℕ

pub record Annotation : Type 0 where
  pub id : ℕ
  pub issue_id : ℕ
  pub timestamp_ms : ℕ
  pub frame_number : ℕ
  pub drawing : ℕ

pub record Message : Type 0 where
  pub id : ℕ
  pub issue_id : ℕ
  pub content : ℕ

pub record Finalization : Type 0 where
  pub project_ref_id : ℕ
  pub review_item_id : ℕ
  pub version_id : ℕ
  pub version_no : ℕ
  pub original_file_id : ℕ
  pub sha256 : ℕ
  pub status : FinalizationStatus
  pub revoked_at : Option ℕ

-- `failure_details` of a package: the revocation of this finalization, or another failure code.
pub data PackageFailure : Type 0 where
  invalidated_by_revoke : ℕ → PackageFailure
  other_failure : ℕ → PackageFailure

pub record Package : Type 0 where
  pub id : ℕ
  pub project_ref_id : ℕ
  pub status : PackageStatus
  -- the `finalization_id` of each entry of `items`
  pub finalization_ids : List ℕ
  pub expires_at : ℕ
  pub next_build_attempt_at : Option ℕ
  pub build_lease_id : Option ℕ
  pub build_lease_expires_at : Option ℕ
  pub download_session_hash : Option ℕ
  pub download_session_expires_at : Option ℕ
  pub download_lease_id : Option ℕ
  pub download_lease_expires_at : Option ℕ
  pub storage_reclaimed_at : Option ℕ
  pub failure_details : Option PackageFailure
  pub updated_at : ℕ

pub record Invalidation : Type 0 where
  pub project_ref_id : ℕ
  pub review_item_id : ℕ
  pub finalization_id : ℕ
  pub package_id : ℕ
  pub cleanup_complete : Bool

-- A row of `technical_qc_findings`, as far as issues refer to it.
pub record Finding : Type 0 where
  pub issue_id : ℕ
  pub project_ref_id : ℕ
  pub review_item_id : ℕ
  pub version_id : ℕ

pub data TaskKind : Type 0 where
  playback_faststart thumbnail : TaskKind

pub record DerivativeTask : Type 0 where
  pub project_ref_id : ℕ
  pub review_item_id : ℕ
  pub version_id : ℕ
  pub kind : TaskKind
  pub queued : Bool

pub data EventType : Type 0 where
  project_created project_updated project_archived project_restored : EventType
  item_created item_updated version_uploaded session_started : EventType
  issue_created issue_updated message_added issue_resolved issue_reopened issue_deleted : EventType
  version_finalized finalization_revoked : EventType

pub record Event : Type 0 where
  pub event_type : EventType
  pub project_ref_id : ℕ
  pub aggregate_id : ℕ
  pub aggregate_version : ℕ
  pub sequence : ℕ

pub record Store : Type 0 where
  pub projects : ℕ → Option Project
  pub editors : ℕ → Option Editor
  pub files : ℕ → Option File
  pub items : ℕ → Option Item
  -- the keys of `items`, in their order
  pub item_ids : List ℕ
  pub versions : ℕ → Option Version
  -- `thumbnail_asset_id` of each version
  pub thumbnails : ℕ → Option ℕ
  pub issues : List Issue
  pub revisions : ℕ → Option Revision
  pub annotations : List Annotation
  pub messages : List Message
  pub finalizations : ℕ → Option Finalization
  pub finalization_ids : List ℕ
  pub packages : List Package
  pub invalidations : List Invalidation
  pub findings : List Finding
  pub tasks : List DerivativeTask
  pub events : List Event

-- What `probe_media` reports.
pub record Probe : Type 0 where
  pub duration_ms : ℕ
  pub width : ℕ
  pub height : ℕ
  pub fps_num : ℕ
  pub fps_den : ℕ

-- The request and what the commands take from outside the database: the clock, the identifiers of
-- `new_id`, the managed files, the media probe, and the regrouping of thumbnails, which may only
-- write derivative tasks and thumbnails.
pub record Env : Type 0 where
  pub now : ℕ
  pub principal_id : Option ℕ
  pub principal_kind : ℕ
  pub new_project_id : ℕ
  pub new_editor_id : ℕ
  pub new_item_id : ℕ
  pub new_version_id : ℕ
  pub new_issue_id : ℕ
  pub new_revision_id : ℕ
  pub new_annotation_id : ℕ
  pub new_message_id : ℕ
  -- for the item with this identifier
  pub new_finalization_id : ℕ → ℕ
  -- `_playback_file_is_ready` of the file with this identifier
  pub readable : ℕ → Bool
  -- `contained_storage_path` and `regular_file_sha256` of that file
  pub stored_sha256 : ℕ → Result ℕ
  -- opening the file, checking its identity around `probe_media`
  pub probe : ℕ → Result Probe
  pub regroup : ℕ → List DerivativeTask → (ℕ → Option ℕ) → List DerivativeTask × (ℕ → Option ℕ)
