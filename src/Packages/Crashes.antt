-- ===== src/Packages/Crashes.antt =====
-- Workers that claim a build and never come back.
use video_review.Base.{
  ℕ, ◌+◌, ◌≤◌, ◌<◌, ◌≡◌, inl, inr, refl, true, false, Bool, some, List, [], ◌∷◌, arith, Bool-cases,
  if◌then◌else◌, length, leb,
}
use video_review.Review.Store.{PackageStatus, preparing, ready, failed}
use video_review.Packages.{Snapshot, PackageSettings, row, write, is_preparing}
use video_review.Packages.Builds.{claim_package_build, is_waiting, interrupt, lease_build}
use video_review.Packages.Downloads.{Digests}
use video_review.Packages.Operations.{Call, claim, effect, effects}
use video_review.Packages.Edits.{Edit, interrupted, leased}
use video_review.Packages.Exclusive.{test_of_eq}
use video_review.Packages.Rows.{row-id, row-write, found_row}
use video_review.Packages.Tracking.{effect-Next}

abbrev pub is_failed : PackageStatus → Bool
is_failed failed = true
is_failed _ = false

not_building : (s : PackageStatus) → is_failed s ≡ true → is_preparing s ≡ true → ⊥
not_building failed h k = cc
not_building preparing h k = cc
not_building ready h k = cc
not_building _ h k = cc

-- A claim at a time, with a new lease.
pub record Visit : Type 0 where
  pub now : ℕ
  pub lease_id : ℕ

abbrev pub claims : ℕ → List Visit → List Call
claims id [] = []
claims id (v ∷ vs) = claim v.now v.lease_id id ∷ claims id vs

module _ (m : PackageSettings) (d : Digests) where
  -- The first visit is at `due` or later, and each next one when the delay is over.
  abbrev pub Spaced : ℕ → List Visit → Type 0
  Spaced due [] = Unit
  Spaced due (v ∷ vs) = (due ≤ v.now) × Spaced (v.now + m.package_worker_retry_delay) vs

  -- From `due` on, the build can be claimed.
  abbrev pub IsDue : ℕ → Snapshot → Type 0
  IsDue due p = (now : ℕ) → due ≤ now → is_waiting now p ≡ false

  abbrev HasFailed : ℕ → List Snapshot → Type 0
  HasFailed id rows = (q : Snapshot) × (row id rows ≡ some q) × (is_failed q.status ≡ true)

  Edit-HasFailed :
      (rows : List Snapshot) (p : Snapshot) (now lease_id id : ℕ) (q : Snapshot)
      → is_failed p.status ≡ true
      → Edit m d rows p (claim now lease_id id) q
      → ⊥
  Edit-HasFailed rows p now lease_id id q h (interrupted now_ lease id_ building due used) =
      not_building p.status h building
  Edit-HasFailed rows p now lease_id id q h (leased now_ lease id_ building due more) =
      not_building p.status h building

  claims-HasFailed :
      (vs : List Visit) (rows : List Snapshot) (id : ℕ)
      → HasFailed id rows
      → HasFailed id (effects m d (claims id vs) rows)
  claims-HasFailed [] rows id h = h
  claims-HasFailed (v ∷ vs) rows id (q, found, h) =
      claims-HasFailed vs (effect m d (claim v.now v.lease_id id) rows) id
        (elim (effect-Next m d rows id q (claim v.now v.lease_id id) found) [
          | inl same ↦ (q, same, h)
          | inr (r, there, edit) ↦ absurd (Edit-HasFailed rows q v.now v.lease_id id r h edit)
        ])

  -- The row after a claim that is due.
  due_claim :
      (rows : List Snapshot) (id : ℕ) (p : Snapshot) (v : Visit)
      → row id rows ≡ some p
      → is_preparing p.status ≡ true
      → is_waiting v.now p ≡ false
      → row id (effect m d (claim v.now v.lease_id id) rows)
        ≡ some (
            if leb m.package_worker_max_attempts p.build_attempts
            then interrupt m v.now p
            else lease_build m v.now v.lease_id p)
  unfolding claim_package_build
  due_claim rows id p v found building due =
      elim (Bool-cases (leb m.package_worker_max_attempts p.build_attempts)) [
        | inl used ↦
            rw (used, effect, claim_package_build, found, building, due, used)
              (written (interrupt m v.now p) refl)
        | inr more ↦
            rw (more, effect, claim_package_build, found, building, due, more)
              (written (lease_build m v.now v.lease_id p) refl)
      ]
    where
      written : (q : Snapshot) → q.id ≡ p.id → row id (write q rows) ≡ some q
      written q same =
          rw
            (
              row-write rows p q id (rw same (found_row id rows p found)),
              test_of_eq q.id id (rw same (row-id id rows p found)),
            )
            refl

  -- If a package in preparation with at most `package_worker_max_attempts` attempts is due, and
  -- workers claim it again and again, each when the delay of the one before is over, and never
  -- come back, then it has failed after as many claims as exceed the attempts that were left.
  pub abandoned_builds-fail :
      (vs : List Visit) (rows : List Snapshot) (id due : ℕ) (p : Snapshot)
      → row id rows ≡ some p
      → is_preparing p.status ≡ true
      → IsDue due p
      → Spaced due vs
      → m.package_worker_max_attempts < p.build_attempts + length vs
      → p.build_attempts ≤ m.package_worker_max_attempts
      → (q : Snapshot) × (row id (effects m d (claims id vs) rows) ≡ some q)
        × (is_failed q.status ≡ true)
  abandoned_builds-fail [] rows id due p found building is_due spaced enough within =
      absurd (omega arith)
  abandoned_builds-fail (v ∷ vs) rows id due p found building is_due spaced enough within =
      elim (Bool-cases (leb m.package_worker_max_attempts p.build_attempts)) [
        | inl used ↦
            claims-HasFailed vs (effect m d (claim v.now v.lease_id id) rows) id
              (interrupt m v.now p, at_once used, refl)
        | inr more ↦
            abandoned_builds-fail vs (effect m d (claim v.now v.lease_id id) rows) id
              (v.now + m.package_worker_retry_delay) (lease_build m v.now v.lease_id p) (again more)
              building (λ now h. ground arith) spaced.1 (omega arith) (ground arith)
      ]
    where
      at_once :
          leb m.package_worker_max_attempts p.build_attempts ≡ true
          → row id (effect m d (claim v.now v.lease_id id) rows) ≡ some (interrupt m v.now p)
      at_once used = rw (due_claim rows id p v found building (is_due v.now spaced.0), used) refl

      again :
          leb m.package_worker_max_attempts p.build_attempts ≡ false
          → row id (effect m d (claim v.now v.lease_id id) rows)
            ≡ some (lease_build m v.now v.lease_id p)
      again more = rw (due_claim rows id p v found building (is_due v.now spaced.0), more) refl
