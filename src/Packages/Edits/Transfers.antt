-- ===== src/Packages/Edits/Transfers.antt =====
-- The operations on downloads make the edits of Packages/Edits.
use video_review.Base.{
  ℕ, ◌≡◌, refl, Bool, true, false, not, ◌&&◌, ◌||◌, Option, none, some, List, leb, ◌==◌, opt_eq,
  is_none, is_some, Result, ok, err, ◌>>=◌, raise_if, arith, Ensures, Ensures-bind, Bool-cases, inl,
  inr, eq_of_test, resource_state_conflict, package_expired, package_not_ready, file_hash_mismatch,
  storage_unavailable,
}
use video_review.Review.Store.{Project}
use video_review.Packages.{Text, Snapshot, PackageSettings, is_live, is_ready, row, write}
use video_review.Packages.Downloads.{
  Digests, PackageFiles, FileIdentity, Grant, is_verified, identity_eq, SessionState, started,
  verified, package_download_session_hash, session_state, begin_row, leased_row, visible_row,
  package_download_file_identity, session_hash, require_state, is_fresh, is_cooling, is_text,
  verify_session, authorize_package_download_session, begin_package_download,
  mark_package_download_session_verified, renew_package_download_lease,
  release_package_download_lease,
}
use video_review.Packages.Operations.{
  Call, authorize, begin, mark_verified, renew, release, effect, kept,
}
use video_review.Packages.Rows.{found_row, leased_row-row}
use video_review.Packages.Edits.Guards.{
  visible_row-row, session_hash-some, require_state-some, identity_of_test, is_text-some,
}
use video_review.Packages.Edits.{
  authorized, begun, marked, renewed, released, Outcome, unchanged, edited,
}

module _ (m : PackageSettings) (d : Digests) (rows : List Snapshot) where
  pub Outcome-kept {ℓ} :
      {A : Type ℓ} (c : Call) (r : Result (A × List Snapshot))
      → Ensures (λ at. Outcome m d rows c at.1) r
      → Outcome m d rows c (kept rows r)
  Outcome-kept c (ok (a, t)) h = h
  Outcome-kept c (err code) h = unchanged refl

  pub authorize-Outcome :
      (now : ℕ) (projects : ℕ → Option Project) (files : PackageFiles) (token : Text)
      (project id : ℕ)
      → Outcome m d rows
          (authorize now projects files token project id)
          (effect m d (authorize now projects files token project id) rows)
  unfolding authorize_package_download_session
  authorize-Outcome now projects files token project id =
      Outcome-kept _
        (authorize_package_download_session m d projects files now token project id rows)
        (Ensures-bind _ (visible_row projects project id rows) _ λ p at.
          Ensures-bind _ (raise_if (leb p.expires_at now) package_expired) _ λ a e.
            Ensures-bind _ (raise_if (not (is_ready p.status)) package_not_ready) _ λ b f.
              Ensures-bind _ (raise_if (is_none p.sha256) storage_unavailable) _ λ c g.
                Ensures-bind _
                  (raise_if (is_live p.download_lease_id p.download_lease_expires_at now)
                    resource_state_conflict)
                  _
                  λ k free. Ensures-bind _ (package_download_file_identity files p) _ λ f h.
                    edited p _ (found_row id rows p (visible_row-row projects project id rows p at))
                      refl (authorized now projects files token project id _ f (ground arith)) refl)

  -- The answer of a download that begins.
  abbrev pub begun_grant : ℕ → FileIdentity → SessionState → Snapshot → Grant
  begun_grant lease_id f state p = record {
    sha256 = p.sha256;
    lease_id = lease_id;
    storage_bytes = p.storage_bytes;
    integrity_verified = is_verified state;
    file_identity = f;
  }

  -- What holds when a download begins.
  pub record Begins (now id : ℕ) (token : Text) (p : Snapshot) (f : FileIdentity)
      (state : SessionState) (stored : Text) : Type 0 where
    pub found : row id rows ≡ some p
    pub session : p.download_session_hash ≡ some stored
    pub expires : is_some p.download_session_expires_at ≡ true
    pub state_found : session_state d token f stored ≡ some state
    pub free : is_live p.download_lease_id p.download_lease_expires_at now ≡ false
    pub is_intact : f.size ≡ p.storage_bytes

  pub begin-Ensures :
      (P : Grant × List Snapshot → Type 0) (now lease_id : ℕ) (projects : ℕ → Option Project)
      (files : PackageFiles) (project id : ℕ) (token : Text) (is_resume : Bool)
      → ((p : Snapshot) (f : FileIdentity) (state : SessionState) (stored : Text)
          → Begins now id token p f state stored
          → P (
            begun_grant lease_id f state p,
            write (begin_row m d now lease_id token f state p) rows,
          ))
      → Ensures P
          (begin_package_download m d projects files now lease_id project id token is_resume rows)
  unfolding begin_package_download
  begin-Ensures P now lease_id projects files project id token is_resume done =
      Ensures-bind P (visible_row projects project id rows) _ λ p at.
        Ensures-bind P (raise_if (leb p.expires_at now) package_expired) _ λ a ea.
          Ensures-bind P (session_hash now p.download_session_hash p.download_session_expires_at) _
            λ stored es.
              Ensures-bind P
                (raise_if (not (is_ready p.status) || is_none p.sha256) package_not_ready) _
                λ b eb. Ensures-bind P (package_download_file_identity files p) _ λ f ef.
                  Ensures-bind P (raise_if (not (f.size == p.storage_bytes)) file_hash_mismatch) _
                    λ c ec.
                      Ensures-bind P (require_state (session_state d token f stored)) _ λ state et.
                        Ensures-bind P
                          (raise_if (is_resume && is_fresh state) resource_state_conflict) _
                          λ g eg.
                            Ensures-bind P
                              (raise_if
                                (is_live p.download_lease_id p.download_lease_expires_at now)
                                resource_state_conflict)
                              _
                              λ k free.
                                Ensures-bind P
                                  (raise_if
                                    (is_cooling m.package_download_cooldown
                                      p.last_download_finished_at now)
                                    resource_state_conflict)
                                  _
                                  λ l el. done p f state stored (record {
                                    found = visible_row-row projects project id rows p at;
                                    session = (session_hash-some now _ _ stored es).0;
                                    expires = (session_hash-some now _ _ stored es).1;
                                    state_found = require_state-some _ state et;
                                    free = ground arith;
                                    is_intact = eq_of_test f.size p.storage_bytes (ground arith);
                                  })

  pub begin-Outcome :
      (now lease_id : ℕ) (projects : ℕ → Option Project) (files : PackageFiles) (project id : ℕ)
      (token : Text) (is_resume : Bool)
      → Outcome m d rows
          (begin now lease_id projects files project id token is_resume)
          (effect m d (begin now lease_id projects files project id token is_resume) rows)
  begin-Outcome now lease_id projects files project id token is_resume =
      Outcome-kept _
        (begin_package_download m d projects files now lease_id project id token is_resume rows)
        (begin-Ensures
          (λ at.
            Outcome m d rows (begin now lease_id projects files project id token is_resume) at.1)
          now lease_id projects files project id token is_resume
          λ p f state stored h.
            edited p _ (found_row id rows p h.found) refl
              (begun now lease_id projects files project id token is_resume f state stored h.session
                h.expires h.state_found h.free)
              refl)

  pub mark-Outcome :
      (now : ℕ) (files : PackageFiles) (id lease_id : ℕ) (token expected : Text)
      (verified_identity : FileIdentity)
      → Outcome m d rows
          (mark_verified now files id lease_id token expected verified_identity)
          (effect m d (mark_verified now files id lease_id token expected verified_identity) rows)
  unfolding mark_package_download_session_verified
  mark-Outcome now files id lease_id token expected verified_identity =
      go (leased_row id lease_id rows) refl
    where
      go_verify :
          (p : Snapshot) (current : FileIdentity)
          → row p.id rows ≡ some p
          → opt_eq p.download_lease_id (some lease_id) ≡ true
          → is_none p.download_session_hash ≡ false
          → p.sha256 ≡ some expected
          → Outcome m d rows
              (mark_verified now files id lease_id token expected verified_identity)
              (verify_session d now token verified_identity current p rows).1
      go_verify p current at holds session sha =
          elim (Bool-cases (
            not (identity_eq current verified_identity) || not (current.size == p.storage_bytes))) [
              | inl bad ↦ rw bad (unchanged refl)
              | inr same ↦
                  elim (Bool-cases (
                    not (
                      is_text (package_download_session_hash d token started current)
                        p.download_session_hash
                      || is_text (package_download_session_hash d token verified current)
                          p.download_session_hash))) [
                            | inl bad ↦ rw (same, bad) (unchanged refl)
                            | inr good ↦
                                rw (same, good)
                                  (edited p _ at refl
                                    (marked now files id lease_id token expected verified_identity
                                      current holds session sha
                                      (identity_of_test current verified_identity (ground arith)))
                                    refl)
                          ]
            ]

      go :
          (o : Option Snapshot)
          → leased_row id lease_id rows ≡ o
          → Outcome m d rows
              (mark_verified now files id lease_id token expected verified_identity)
              (effect m d
                (mark_verified now files id lease_id token expected verified_identity)
                rows)
      go none e = rw (e, mark_package_download_session_verified) (unchanged refl)
      go (some p) e =
          let (at, holds) = leased_row-row id lease_id rows p e in
          elim (Bool-cases (
            not (is_ready p.status)
            || is_none p.download_session_hash
            || not (is_text expected p.sha256))) [
              | inl bad ↦ rw (e, bad, mark_package_download_session_verified) (unchanged refl)
              | inr good ↦
                  rw (e, good, mark_package_download_session_verified)
                    (Outcome-kept _
                      (package_download_file_identity files p >>= λ current.
                        ok (verify_session d now token verified_identity current p rows))
                      (Ensures-bind _ (package_download_file_identity files p) _ λ current ec.
                        go_verify p current at holds (ground arith)
                          (is_text-some expected p.sha256 (ground arith))))
            ]

  pub renew-Outcome :
      (now id lease_id : ℕ)
      → Outcome m d rows (renew now id lease_id) (effect m d (renew now id lease_id) rows)
  unfolding renew_package_download_lease
  renew-Outcome now id lease_id = go (leased_row id lease_id rows) refl
    where
      go :
          (o : Option Snapshot)
          → leased_row id lease_id rows ≡ o
          → Outcome m d rows (renew now id lease_id) (effect m d (renew now id lease_id) rows)
      go none e = rw (e, effect, renew_package_download_lease) (unchanged refl)
      go (some p) e =
          let (at, holds) = leased_row-row id lease_id rows p e in
          elim (Bool-cases (not (is_ready p.status) || is_some p.storage_reclaimed_at)) [
            | inl bad ↦ rw (e, bad, effect, renew_package_download_lease) (unchanged refl)
            | inr good ↦
                rw (e, good, effect, renew_package_download_lease)
                  (edited p _ at refl (renewed now id lease_id holds) refl)
          ]

  pub release-Outcome :
      (now id lease_id : ℕ) (completed : Bool)
      → Outcome m d rows
          (release now id lease_id completed)
          (effect m d (release now id lease_id completed) rows)
  unfolding release_package_download_lease
  release-Outcome now id lease_id completed = go (leased_row id lease_id rows) refl
    where
      go :
          (o : Option Snapshot)
          → leased_row id lease_id rows ≡ o
          → Outcome m d rows
              (release now id lease_id completed)
              (effect m d (release now id lease_id completed) rows)
      go none e = rw (e, effect, release_package_download_lease) (unchanged refl)
      go (some p) e =
          let (at, holds) = leased_row-row id lease_id rows p e in
          rw (e, effect, release_package_download_lease)
            (edited p _ at refl (released now id lease_id completed holds) refl)
