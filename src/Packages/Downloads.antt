-- ===== src/Packages/Downloads.antt =====
-- Downloading packages: the sessions and leases of infra/repositories.py, from
-- `authorize_package_download_session` to `release_package_download_lease`. The digest functions
-- and what the file system answers are arguments.
use video_review.Base.{
  ℕ, ◌+◌, Bool, true, false, not, ◌&&◌, ◌||◌, Option, none, some, List, [], ◌∷◌, ltb, leb, ◌==◌,
  opt_eq, is_none, is_some, if◌then◌else◌, min, Result, ok, err, raise_if, ◌>>=◌, ◌>>◌,
  storage_unavailable, resource_not_found, package_expired, package_not_ready,
  resource_state_conflict, package_source_missing, principal_permission_denied, file_hash_mismatch,
}
use video_review.Review.Store.{Project}
use video_review.Packages.{Text, text_eq, Snapshot, PackageSettings, is_live, is_ready, row, write}

pub data SessionState : Type 0 where
  fresh started verified : SessionState

pub record FileIdentity : Type 0 where
  pub device : ℕ
  pub inode : ℕ
  pub ctime_ns : ℕ
  pub mtime_ns : ℕ
  pub size : ℕ

abbrev pub identity_eq : FileIdentity → FileIdentity → Bool
identity_eq a b =
    a.device == b.device
    && a.inode == b.inode
    && a.ctime_ns == b.ctime_ns
    && a.mtime_ns == b.mtime_ns
    && a.size == b.size

pub data JsonValue : Type 0 where
  json_text : Text → JsonValue
  json_number : ℕ → JsonValue

-- `json.dumps` of a list, and `hashlib.sha256(...).hexdigest()`.
pub record Digests : Type 0 where
  pub dumps : List JsonValue → Text
  pub sha256 : Text → Text

abbrev state_name : SessionState → Text
state_name fresh = 102 ∷ 114 ∷ 101 ∷ 115 ∷ 104 ∷ []
state_name started = 115 ∷ 116 ∷ 97 ∷ 114 ∷ 116 ∷ 101 ∷ 100 ∷ []
state_name verified = 118 ∷ 101 ∷ 114 ∷ 105 ∷ 102 ∷ 105 ∷ 101 ∷ 100 ∷ []

-- The list `[state, *file_identity, session_token]`.
abbrev pub session_payload : Text → SessionState → FileIdentity → List JsonValue
session_payload token state f =
    json_text (state_name state)
    ∷ json_number f.device
    ∷ json_number f.inode
    ∷ json_number f.ctime_ns
    ∷ json_number f.mtime_ns
    ∷ json_number f.size
    ∷ json_text token
    ∷ []

abbrev pub package_download_session_hash : Digests → Text → SessionState → FileIdentity → Text
package_download_session_hash d token state f = d.sha256 (d.dumps (session_payload token state f))

-- What `pin_regular_file` finds: an error, no file, a file without an identity, or a file.
pub data Pin : Type 0 where
  unreadable absent unidentified : Pin
  identified : FileIdentity → Pin

-- What the file system answers to one request.
pub record PackageFiles : Type 0 where
  -- the pattern `pkg_[0-9a-f]{32}` of the identifier
  pub well_named : Bool
  -- `contained_path` of `<id>.zip` and of the row's path; `none` is an unsafe path
  pub expected_path : Option ℕ
  pub actual_path : Option ℕ
  pub pin : Pin

abbrev pinned_identity : Pin → Result FileIdentity
pinned_identity unreadable = err storage_unavailable
pinned_identity absent = err package_source_missing
pinned_identity unidentified = err storage_unavailable
pinned_identity (identified f) = ok f

abbrev same_path : Option ℕ → Option ℕ → Bool
same_path none path = false
same_path (some p) path = opt_eq (some p) path

abbrev pub package_download_file_identity : PackageFiles → Snapshot → Result FileIdentity
package_download_file_identity files p = do
  raise_if (not files.well_named) storage_unavailable
  raise_if (not (same_path files.expected_path files.actual_path)) storage_unavailable
  raise_if (is_some p.storage_reclaimed_at) package_source_missing
  pinned_identity files.pin

-- `_assert_project_visible(_get_project(...))`
abbrev pub project_is_visible : Option Project → Result (Unit {0})
project_is_visible none = err resource_not_found
project_is_visible (some project) = raise_if (is_some project.deleted_at) resource_not_found

abbrev pub of_package : ℕ → Option Snapshot → Result Snapshot
of_package project_ref_id none = err resource_not_found
of_package project_ref_id (some p) =
    raise_if (not (p.project_ref_id == project_ref_id)) resource_not_found >> ok p

-- The row of a package of a visible project.
abbrev pub visible_row : (ℕ → Option Project) → ℕ → ℕ → List Snapshot → Result Snapshot
visible_row projects project_ref_id package_id rows = do
  project_is_visible (projects project_ref_id)
  of_package project_ref_id (row package_id rows)

unfoldable pub authorize_package_download_session :
    PackageSettings
    → Digests
    → (ℕ → Option Project)
    → PackageFiles
    → ℕ
    → Text
    → ℕ
    → ℕ
    → List Snapshot
    → Result (ℕ × List Snapshot)
authorize_package_download_session m d projects files now token project_ref_id package_id rows = do
  p ← visible_row projects project_ref_id package_id rows
  raise_if (leb p.expires_at now) package_expired
  raise_if (not (is_ready p.status)) package_not_ready
  raise_if (is_none p.sha256) storage_unavailable
  raise_if (is_live p.download_lease_id p.download_lease_expires_at now) resource_state_conflict
  file_identity ← package_download_file_identity files p
  let expires_at = min p.expires_at (now + m.package_download_session_ttl)
  ok (
    expires_at,
    write
        (record p {
          download_session_hash = some (package_download_session_hash d token fresh file_identity);
          download_session_expires_at = some expires_at;
          updated_at = now;
        })
        rows,
  )

lock_package_download_storage_bytes : (ℕ → Option Project) → ℕ → ℕ → ℕ → List Snapshot → Result ℕ
lock_package_download_storage_bytes projects now project_ref_id package_id rows = do
  p ← visible_row projects project_ref_id package_id rows
  raise_if (leb p.expires_at now) package_expired
  raise_if (not (is_ready p.status)) package_not_ready
  ok p.storage_bytes

-- The first state whose digest is the stored one, and `fresh` for the digest of the token alone.
abbrev pub session_state : Digests → Text → FileIdentity → Text → Option SessionState
session_state d token f stored =
    if text_eq stored (package_download_session_hash d token fresh f)
    then some fresh
    else if text_eq stored (package_download_session_hash d token started f)
    then some started
    else if text_eq stored (package_download_session_hash d token verified f)
    then some verified
    else if text_eq stored (d.sha256 token)
    then some fresh
    else none

abbrev pub is_fresh : SessionState → Bool
is_fresh fresh = true
is_fresh _ = false

abbrev pub is_verified : SessionState → Bool
is_verified verified = true
is_verified _ = false

abbrev pub require_state : Option SessionState → Result SessionState
require_state none = err principal_permission_denied
require_state (some state) = ok state

-- The stored digest of a session that is not over.
abbrev pub session_hash : ℕ → Option Text → Option ℕ → Result Text
session_hash now none expires = err principal_permission_denied
session_hash now (some stored) none = err principal_permission_denied
session_hash now (some stored) (some expires) =
    raise_if (leb expires now) principal_permission_denied >> ok stored

-- `last_download_finished_at is not None and last + cooldown > now`
abbrev pub is_cooling : ℕ → Option ℕ → ℕ → Bool
is_cooling cooldown none now = false
is_cooling cooldown (some finished) now = ltb now (finished + cooldown)

-- The part of the answer that the operations below take up again.
pub record Grant : Type 0 where
  pub sha256 : Option Text
  pub lease_id : ℕ
  pub storage_bytes : ℕ
  pub integrity_verified : Bool
  pub file_identity : FileIdentity

abbrev pub begin_row :
    PackageSettings → Digests → ℕ → ℕ → Text → FileIdentity → SessionState → Snapshot → Snapshot
begin_row m d now lease_id token f state p = record p {
  download_session_hash =
      if is_fresh state
      then some (package_download_session_hash d token started f)
      else p.download_session_hash;
  download_lease_id = some lease_id;
  download_lease_expires_at = some (now + m.package_download_lease);
  updated_at = now;
}

unfoldable pub begin_package_download :
    PackageSettings
    → Digests
    → (ℕ → Option Project)
    → PackageFiles
    → ℕ
    → ℕ
    → ℕ
    → ℕ
    → Text
    → Bool
    → List Snapshot
    → Result (Grant × List Snapshot)
begin_package_download m d projects files now lease_id project_ref_id package_id token is_resume
      rows =
    do
      p ← visible_row projects project_ref_id package_id rows
      raise_if (leb p.expires_at now) package_expired
      stored ← session_hash now p.download_session_hash p.download_session_expires_at
      raise_if (not (is_ready p.status) || is_none p.sha256) package_not_ready
      f ← package_download_file_identity files p
      raise_if (not (f.size == p.storage_bytes)) file_hash_mismatch
      state ← require_state (session_state d token f stored)
      raise_if (is_resume && is_fresh state) resource_state_conflict
      raise_if (is_live p.download_lease_id p.download_lease_expires_at now) resource_state_conflict
      raise_if (is_cooling m.package_download_cooldown p.last_download_finished_at now)
          resource_state_conflict
      ok (
        record {
          sha256 = p.sha256;
          lease_id = lease_id;
          storage_bytes = p.storage_bytes;
          integrity_verified = is_verified state;
          file_identity = f;
        },
        write (begin_row m d now lease_id token f state p) rows,
      )

abbrev pub if_leased : ℕ → Option Snapshot → Option Snapshot
if_leased lease_id none = none
if_leased lease_id (some p) = if opt_eq p.download_lease_id (some lease_id) then some p else none

-- `where(id == package_id, download_lease_id == lease_id)`
abbrev pub leased_row : ℕ → ℕ → List Snapshot → Option Snapshot
leased_row package_id lease_id rows = if_leased lease_id (row package_id rows)

abbrev pub is_text : Text → Option Text → Bool
is_text t none = false
is_text t (some u) = text_eq u t

-- The writes and the answer once the row and its file are known.
abbrev pub verify_session :
    Digests
    → ℕ
    → Text
    → FileIdentity
    → FileIdentity
    → Snapshot
    → List Snapshot
    → Bool × List Snapshot
verify_session d now token verified_identity current p rows =
    if not (identity_eq current verified_identity) || not (current.size == p.storage_bytes)
    then (false, rows)
    else if not (
        is_text (package_download_session_hash d token started current) p.download_session_hash
        || is_text (package_download_session_hash d token verified current) p.download_session_hash)
    then (false, rows)
    else (
      true,
      write
          (record p {
            download_session_hash = some (package_download_session_hash d token verified current);
            updated_at = now;
          })
          rows,
    )

unfoldable pub mark_package_download_session_verified :
    Digests
    → PackageFiles
    → ℕ
    → ℕ
    → ℕ
    → Text
    → Text
    → FileIdentity
    → List Snapshot
    → Result (Bool × List Snapshot)
mark_package_download_session_verified d files now package_id lease_id token expected_sha256
      verified_identity rows =
    elim (leased_row package_id lease_id rows) [
      | none ↦ ok (false, rows)
      | some p ↦
          if not (is_ready p.status)
            || is_none p.download_session_hash
            || not (is_text expected_sha256 p.sha256)
          then ok (false, rows)
          else package_download_file_identity files p >>= λ current.
              ok (verify_session d now token verified_identity current p rows)
    ]

unfoldable pub renew_package_download_lease :
    PackageSettings → ℕ → ℕ → ℕ → List Snapshot → Bool × List Snapshot
renew_package_download_lease m now package_id lease_id rows =
    elim (leased_row package_id lease_id rows) [
      | none ↦ (false, rows)
      | some p ↦
          if not (is_ready p.status) || is_some p.storage_reclaimed_at then (false, rows) else (
            true,
            write
                (record p {
                  download_lease_expires_at = some (now + m.package_download_lease);
                  updated_at = now;
                })
                rows,
          )
    ]

unfoldable pub release_package_download_lease :
    ℕ → ℕ → ℕ → Bool → List Snapshot → Bool × List Snapshot
release_package_download_lease now package_id lease_id completed rows =
    elim (leased_row package_id lease_id rows) [
      | none ↦ (false, rows)
      | some p ↦ (
        true,
        write
            (record p {
              download_lease_id = none;
              download_lease_expires_at = none;
              last_download_finished_at =
                  if completed then some now else p.last_download_finished_at;
              updated_at = now;
            })
            rows,
      )
    ]
