-- ===== src/Packages/Sessions.antt =====
-- Download sessions over time: when the integrity of a package counts as verified. The digests are
-- those of infra/repositories.py.
use mathlib.Core.Path.{subst, ap}
use video_review.Base.{
  ℕ, ◌≡◌, ◌≢◌, inl, inr, refl, true, false, Bool, Option, none, some, List, [], ◌∷◌, if◌then◌else◌,
  Bool-cases, All, some_eq, ok, Ensures-ok,
}
use video_review.Review.Store.{Project}
use video_review.Packages.{Text, text_eq, Snapshot, PackageSettings, row}
use video_review.Packages.Downloads.{
  Digests, JsonValue, FileIdentity, PackageFiles, SessionState, fresh, started, verified, Grant,
  is_verified, session_payload, package_download_session_hash, session_state, is_fresh,
  begin_package_download,
}
use video_review.Packages.Operations.{Call, mark_verified, effect, effects}
use video_review.Packages.Edits.{
  Edit, interrupted, leased, published, retried, given_up, authorized, begun, marked, renewed,
  released,
}
use video_review.Packages.Edits.Guards.{text_of_test}
use video_review.Packages.Edits.Transfers.{begin-Ensures}
use video_review.Packages.Tracking.{effect-Next}

-- No two different payloads have the same digest.
abbrev pub NoCollision : Digests → Type 0
NoCollision d = (xs ys : List JsonValue) → d.sha256 (d.dumps xs) ≡ d.sha256 (d.dumps ys) → xs ≡ ys

-- The call does not report the verification of this file under this token.
abbrev pub Unverified : Text → FileIdentity → Call → Type 0
Unverified token f (mark_verified now files id lease_id t expected g) = (t ≡ token) → g ≢ f
Unverified token f _ = Unit

payload_eq :
    (t u : Text) (f g : FileIdentity) (s : SessionState)
    → session_payload t s f ≡ session_payload u verified g
    → (t ≡ u) × (f ≡ g)
payload_eq t u f g s h =
    let a : f.device ≡ g.device = cc in
    let b : f.inode ≡ g.inode = cc in
    let c : f.ctime_ns ≡ g.ctime_ns = cc in
    let e : f.mtime_ns ≡ g.mtime_ns = cc in
    let k : f.size ≡ g.size = cc in (cc, rw (a, b, c, e, k) refl)

fresh_payload :
    (t u : Text) (f g : FileIdentity) → session_payload t fresh f ≡ session_payload u verified g → ⊥
fresh_payload t u f g h = cc

started_payload :
    (t u : Text) (f g : FileIdentity)
    → session_payload t started f ≡ session_payload u verified g
    → ⊥
started_payload t u f g h = cc

module _ (m : PackageSettings) (d : Digests) (safe : NoCollision d) where
  -- The stored digest is not the one of a verified session for this file and token.
  abbrev pub IsUnverified : Text → FileIdentity → Option Text → Type 0
  IsUnverified token f stored = stored ≢ some (package_download_session_hash d token verified f)

  Edit-Unverified :
      (rows : List Snapshot) (token : Text) (f : FileIdentity) (p q : Snapshot) (c : Call)
      → IsUnverified token f p.download_session_hash
      → Unverified token f c
      → Edit m d rows p c q
      → IsUnverified token f q.download_session_hash
  Edit-Unverified rows token f p q c h n
        (authorized now projects files t project id expires g free) =
      λ e. fresh_payload t token g f (safe _ _ (some_eq e))
  Edit-Unverified rows token f p q c h n
        (begun now lease projects files project id t is_resume g state stored there expires found
          free) =
      begun_unverified (is_fresh state)
    where
      begun_unverified :
          (b : Bool)
          → IsUnverified token f (
              if b
              then some (package_download_session_hash d t started g)
              else p.download_session_hash)
      begun_unverified true = λ e. started_payload t token g f (safe _ _ (some_eq e))
      begun_unverified false = h
  Edit-Unverified rows token f p q c h n
        (marked now files id lease t expected identity current holds session sha same) =
      λ e.
        let (token_same, file_same) =
          payload_eq t token current f verified (safe _ _ (some_eq e)) in
        n token_same (rw (← same) file_same)
  Edit-Unverified rows token f p q c h n (interrupted now lease id building due used) = h
  Edit-Unverified rows token f p q c h n (leased now lease id building due more) = h
  Edit-Unverified rows token f p q c h n (published now disk a building holds fits) = h
  Edit-Unverified rows token f p q c h n (retried now r building holds more) = h
  Edit-Unverified rows token f p q c h n (given_up now r building holds) = h
  Edit-Unverified rows token f p q c h n (renewed now id lease holds) = h
  Edit-Unverified rows token f p q c h n (released now id lease completed holds) = h

  effects-Unverified :
      (calls : List Call) (rows : List Snapshot) (id : ℕ) (token : Text) (f : FileIdentity)
      (p : Snapshot)
      → row id rows ≡ some p
      → IsUnverified token f p.download_session_hash
      → All (Unverified token f) calls
      → (q : Snapshot) × (row id (effects m d calls rows) ≡ some q)
        × IsUnverified token f q.download_session_hash
  effects-Unverified [] rows id token f p found h n = (p, found, h)
  effects-Unverified (c ∷ cs) rows id token f p found h n =
      elim (effect-Next m d rows id p c found) [
        | inl same ↦ effects-Unverified cs (effect m d c rows) id token f p same h n.1
        | inr (q, there, edit) ↦
            effects-Unverified cs (effect m d c rows) id token f q there
              (Edit-Unverified rows token f p q c h n.0 edit) n.1
      ]

  session_state-Unverified :
      (token : Text) (f : FileIdentity) (state : SessionState) (stored : Text)
      → session_state d token f stored ≡ some state
      → IsUnverified token f (some stored)
      → is_verified state ≡ false
  session_state-Unverified token f state stored h n =
      elim (Bool-cases (text_eq stored (package_download_session_hash d token fresh f))) [
        | inl e ↦ of_state fresh (rw e at h) refl
        | inr e ↦
            elim (Bool-cases (text_eq stored (package_download_session_hash d token started f))) [
              | inl g ↦ of_state started (rw (e, g) at h) refl
              | inr g ↦
                  elim (Bool-cases
                    (text_eq stored (package_download_session_hash d token verified f))) [
                      | inl k ↦ absurd (n (ap some (text_of_test stored _ k)))
                      | inr k ↦ elim (Bool-cases (text_eq stored (d.sha256 token))) [
                        | inl l ↦ of_state fresh (rw (e, g, k, l) at h) refl
                        | inr l ↦ let here : none ≡ some state = rw (e, g, k, l) at h in cc
                      ]
                    ]
            ]
      ]
    where
      of_state :
          (s : SessionState)
          → some s ≡ some state
          → is_verified s ≡ false
          → is_verified state ≡ false
      of_state s e u = rw (← some_eq e) u

  -- If no two payloads have the same digest, a session that is not yet verified for a token and a
  -- file is not taken for verified after any calls that do not mark just this token and file as
  -- verified.
  pub unmarked_session-Unverified :
      (calls : List Call) (rows t : List Snapshot) (id : ℕ) (token : Text) (p : Snapshot)
      (now lease_id : ℕ) (projects : ℕ → Option Project) (files : PackageFiles) (project : ℕ)
      (is_resume : Bool) (grant : Grant)
      → row id rows ≡ some p
      → IsUnverified token grant.file_identity p.download_session_hash
      → All (Unverified token grant.file_identity) calls
      → begin_package_download m d projects files now lease_id project id token is_resume
          (effects m d calls rows)
        ≡ ok (grant, t)
      → grant.integrity_verified ≡ false
  unmarked_session-Unverified calls rows t id token p now lease_id projects files project is_resume
        grant found h n begins =
      Ensures-ok (λ at. Conclusion at.0)
        (begin_package_download m d projects files now lease_id project id token is_resume
          (effects m d calls rows))
        (begin-Ensures m d (effects m d calls rows) (λ at. Conclusion at.0) now lease_id projects
          files project id token is_resume
          λ q f state stored b same.
            session_state-Unverified token f state stored b.state_found
              (rw same (still_unverified q stored b.found b.session)))
        begins refl
    where
      still_unverified :
          (q : Snapshot) (stored : Text)
          → row id (effects m d calls rows) ≡ some q
          → q.download_session_hash ≡ some stored
          → IsUnverified token grant.file_identity (some stored)
      still_unverified q stored there session =
          let (r, at_end, k) =
            effects-Unverified calls rows id token grant.file_identity p found h n in
          let same : r ≡ q = some_eq (rw (← at_end) there) in
          rw (← session)
            (subst (λ x. IsUnverified token grant.file_identity x.download_session_hash) same k)

      Conclusion : Grant → Type 0
      Conclusion g = g.file_identity ≡ grant.file_identity → g.integrity_verified ≡ false
