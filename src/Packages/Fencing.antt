-- ===== src/Packages/Fencing.antt =====
-- Build leases over time: a worker that has lost its lease, and how often a package is leased.
use mathlib.Core.Path.{subst}
use video_review.Base.{
  ℕ, ◌+◌, ◌≤◌, ◌≡◌, ◌≢◌, inl, inr, refl, true, false, Bool, ◌&&◌, some, List, [], ◌∷◌, ◌==◌, opt_eq,
  if◌then◌else◌, arith, Bool-cases, All, leb, eq_of_test,
}
use video_review.Packages.{Snapshot, PackageSettings, row, is_preparing}
use video_review.Packages.Builds.{
  Artifact, Report, Disk, ClaimOutcome, claimed, claim_package_build, is_waiting, lease_build,
  publish_prepared_package, publish_skipped, record_package_build_failure, failure_skipped,
}
use video_review.Packages.Downloads.{Digests}
use video_review.Packages.Operations.{
  Call, admit, claim, publish, report_failure, authorize, begin, mark_verified, renew, release,
  effect, effects,
}
use video_review.Packages.Edits.{Edit, interrupted, leased, published, retried, given_up}
use video_review.Packages.Rows.{row-id, row-write, found_row}
use video_review.Packages.Exclusive.{test_of_eq}
use video_review.Packages.Tracking.{effect-Next}

-- A claim does not take this lease: the identifiers of leases are new.
abbrev pub NewLease : ℕ → Call → Type 0
NewLease lease_id (claim now other id) = other ≢ lease_id
NewLease lease_id _ = Unit

-- The package is not leased under this identifier.
abbrev pub IsLost : ℕ → ℕ → List Snapshot → Type 0
IsLost id lease_id rows =
    (p : Snapshot) × (row id rows ≡ some p) × (opt_eq p.build_lease_id (some lease_id) ≡ false)

module _ (m : PackageSettings) (d : Digests) where
  Edit-lost :
      (rows : List Snapshot) (lease_id : ℕ) (p q : Snapshot) (c : Call)
      → opt_eq p.build_lease_id (some lease_id) ≡ false
      → NewLease lease_id c
      → Edit m d rows p c q
      → opt_eq q.build_lease_id (some lease_id) ≡ false
  Edit-lost rows lease_id p q c h n (interrupted now lease id building due used) = refl
  Edit-lost rows lease_id p q c h n (leased now lease id building due more) = ground arith
  Edit-lost rows lease_id p q c h n (published now disk a building holds fits) = refl
  Edit-lost rows lease_id p q c h n (retried now r building holds more) = refl
  Edit-lost rows lease_id p q c h n (given_up now r building holds) = refl
  Edit-lost rows lease_id p q c h n _ = h

  effects-IsLost :
      (calls : List Call) (rows : List Snapshot) (id lease_id : ℕ)
      → IsLost id lease_id rows
      → All (NewLease lease_id) calls
      → IsLost id lease_id (effects m d calls rows)
  effects-IsLost [] rows id lease_id h n = h
  effects-IsLost (c ∷ cs) rows id lease_id (p, at, h) n =
      effects-IsLost cs (effect m d c rows) id lease_id
        (elim (effect-Next m d rows id p c at) [
          | inl same ↦ (p, same, h)
          | inr (q, there, edit) ↦ (q, there, Edit-lost rows lease_id p q c h n.0 edit)
        ])
        n.1

  publish-skipped :
      (rows : List Snapshot) (now : ℕ) (disk : Disk) (a : Artifact)
      → IsLost a.package_id a.lease_id rows
      → publish_prepared_package m now disk a rows ≡ (publish_skipped, rows)
  unfolding publish_prepared_package
  publish-skipped rows now disk a (p, at, lost) = elim (Bool-cases (is_preparing p.status)) [
    | inl building ↦ rw (at, building, lost, publish_prepared_package) refl
    | inr other ↦ rw (at, other, publish_prepared_package) refl
  ]

  report-skipped :
      (rows : List Snapshot) (now : ℕ) (r : Report)
      → IsLost r.package_id r.lease_id rows
      → record_package_build_failure m now r rows ≡ (failure_skipped, rows)
  unfolding record_package_build_failure
  report-skipped rows now r (p, at, lost) = elim (Bool-cases (is_preparing p.status)) [
    | inl building ↦ rw (at, building, lost, record_package_build_failure) refl
    | inr other ↦ rw (at, other, record_package_build_failure) refl
  ]

  -- A worker whose lease is not the build lease of the package can, after any further calls that
  -- do not take its lease identifier anew, neither publish the package nor report a failure of it:
  -- both calls are skipped and leave the table as it is.
  pub lost_lease-skipped :
      (calls : List Call) (rows : List Snapshot) (now : ℕ) (disk : Disk) (a : Artifact) (r : Report)
      → IsLost a.package_id a.lease_id rows
      → All (NewLease a.lease_id) calls
      → r.package_id ≡ a.package_id
      → r.lease_id ≡ a.lease_id
      → (publish_prepared_package m now disk a (effects m d calls rows)
          ≡ (publish_skipped, effects m d calls rows))
        × (record_package_build_failure m now r (effects m d calls rows)
            ≡ (failure_skipped, effects m d calls rows))
  lost_lease-skipped calls rows now disk a r h n same_package same_lease =
      let lost = effects-IsLost calls rows a.package_id a.lease_id h n in
      (
        publish-skipped (effects m d calls rows) now disk a lost,
        report-skipped (effects m d calls rows) now r (rw (same_package, same_lease) lost),
      )

  abbrev is_claimed : ClaimOutcome → Bool
  is_claimed (claimed lease_id) = true
  is_claimed _ = false

  -- The call leases this package for a build.
  abbrev is_lease : ℕ → Call → List Snapshot → Bool
  is_lease id (claim now lease_id package_id) rows =
      package_id == id && is_claimed (claim_package_build m now lease_id package_id rows).0
  is_lease id _ rows = false

  -- How many of the calls lease this package.
  abbrev pub leases_of : ℕ → List Call → List Snapshot → ℕ
  leases_of id [] rows = 0
  leases_of id (c ∷ cs) rows =
      (if is_lease id c rows then 1 else 0) + leases_of id cs (effect m d c rows)

  -- The attempts of the package do not fall, and stay within the limit.
  abbrev Attempts : ℕ → ℕ → List Snapshot → Type 0
  Attempts id n rows =
      (q : Snapshot) × (row id rows ≡ some q)
      × (n ≤ q.build_attempts)
      × (q.build_attempts ≤ m.package_worker_max_attempts)

  Edit-attempts :
      (rows : List Snapshot) (p q : Snapshot) (c : Call)
      → p.build_attempts ≤ m.package_worker_max_attempts
      → Edit m d rows p c q
      → (p.build_attempts ≤ q.build_attempts) × (q.build_attempts ≤ m.package_worker_max_attempts)
  Edit-attempts rows p q c h (leased now lease id building due more) = (omega arith, omega arith)
  Edit-attempts rows p q c h (interrupted now lease id building due used) = (omega arith, h)
  Edit-attempts rows p q c h (published now disk a building holds fits) = (omega arith, h)
  Edit-attempts rows p q c h (retried now r building holds more) = (omega arith, h)
  Edit-attempts rows p q c h (given_up now r building holds) = (omega arith, h)
  Edit-attempts rows p q c h _ = (omega arith, h)

  effect-Attempts :
      (rows : List Snapshot) (id : ℕ) (p : Snapshot) (c : Call)
      → row id rows ≡ some p
      → p.build_attempts ≤ m.package_worker_max_attempts
      → Attempts id p.build_attempts (effect m d c rows)
  effect-Attempts rows id p c at h = elim (effect-Next m d rows id p c at) [
    | inl same ↦ (p, same, omega arith, h)
    | inr (q, there, edit) ↦
        let (more, within) = Edit-attempts rows p q c h edit in (q, there, more, within)
  ]

  -- A claim that takes effect counts one more attempt.
  lease-Attempts :
      (rows : List Snapshot) (now lease_id id : ℕ) (p : Snapshot)
      → row id rows ≡ some p
      → p.id ≡ id
      → is_claimed (claim_package_build m now lease_id id rows).0 ≡ true
      → Attempts id (p.build_attempts + 1) (claim_package_build m now lease_id id rows).1
  unfolding claim_package_build
  lease-Attempts rows now lease_id id p found here h = elim (Bool-cases (is_preparing p.status)) [
    | inr other ↦ let no_claim : false ≡ true = rw (found, other, claim_package_build) at h in cc
    | inl building ↦ elim (Bool-cases (is_waiting now p)) [
      | inl busy ↦
          let no_claim : false ≡ true = rw (found, building, busy, claim_package_build) at h in cc
      | inr due ↦ elim (Bool-cases (leb m.package_worker_max_attempts p.build_attempts)) [
        | inl used ↦
            let no_claim : false ≡ true =
              rw (found, building, due, used, claim_package_build) at h in
            cc
        | inr more ↦
            rw (found, building, due, more, claim_package_build)
              (
                lease_build m now lease_id p,
                rw
                    (
                      row-write rows p (lease_build m now lease_id p) id
                          (found_row id rows p found),
                      test_of_eq p.id id here,
                    )
                    refl,
                omega arith,
                ground arith,
              )
      ]
    ]
  ]

  is_lease-Attempts :
      (rows : List Snapshot) (id : ℕ) (p : Snapshot) (c : Call)
      → row id rows ≡ some p
      → is_lease id c rows ≡ true
      → Attempts id (p.build_attempts + 1) (effect m d c rows)
  is_lease-Attempts rows id p (claim now lease_id package_id) found h =
      let same : package_id ≡ id = eq_of_test package_id id (ground arith) in
      subst
        (λ k. Attempts k (p.build_attempts + 1) (effect m d (claim now lease_id package_id) rows))
        same
        (lease-Attempts rows now lease_id package_id p (rw same found)
          (rw same (row-id id rows p found)) (ground arith))
  is_lease-Attempts rows id p (admit now disk q) found h = cc
  is_lease-Attempts rows id p (publish now disk a) found h = cc
  is_lease-Attempts rows id p (report_failure now r) found h = cc
  is_lease-Attempts rows id p (authorize now projects files token project id_) found h = cc
  is_lease-Attempts rows id p (begin now lease projects files project id_ token is_resume) found h =
      cc
  is_lease-Attempts rows id p (mark_verified now files id_ lease token expected f) found h = cc
  is_lease-Attempts rows id p (renew now id_ lease) found h = cc
  is_lease-Attempts rows id p (release now id_ lease completed) found h = cc

  -- A package with at most `package_worker_max_attempts` attempts is leased for a build by any
  -- calls on packages at most as often as attempts are left.
  pub leases_bounded :
      (calls : List Call) (rows : List Snapshot) (id : ℕ) (p : Snapshot)
      → row id rows ≡ some p
      → p.build_attempts ≤ m.package_worker_max_attempts
      → leases_of id calls rows + p.build_attempts ≤ m.package_worker_max_attempts
  leases_bounded [] rows id p at h = omega arith
  leases_bounded (c ∷ cs) rows id p at h = elim (Bool-cases (is_lease id c rows)) [
    | inl leases ↦
        let (q, there, more, within) = is_lease-Attempts rows id p c at leases in
        rw leases (omega (arith, leases_bounded cs (effect m d c rows) id q there within))
    | inr other ↦
        let (q, there, more, within) = effect-Attempts rows id p c at h in
        rw other (omega (arith, leases_bounded cs (effect m d c rows) id q there within))
  ]
