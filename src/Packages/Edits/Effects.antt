-- ===== src/Packages/Edits/Effects.antt =====
-- The operations on packages make the edits of Packages/Edits.
use video_review.Base.{
  ℕ, ◌+◌, ◌≤◌, ◌≡◌, refl, true, not, ◌&&◌, Option, none, some, List, ltb, leb, opt_eq, Result, ok,
  err, arith, Bool-cases, inl, inr,
}
use video_review.Packages.{
  Snapshot, PackageSettings, is_preparing, row, sum_of, other_than, reserved,
}
use video_review.Packages.Builds.{
  Disk, Artifact, Report, is_waiting, preparing_row, claim_package_build, publish_prepared_package,
  publish_leased, record_package_build_failure, is_canonical, is_staging, pinned_matches, replaced,
  publish_if_room,
}
use video_review.Packages.Downloads.{Digests}
use video_review.Packages.Operations.{claim, publish, report_failure}
use video_review.Packages.Rows.{preparing_row-row}
use video_review.Packages.Edits.{
  interrupted, leased, published, retried, given_up, Outcome, unchanged, edited,
}

module _ (m : PackageSettings) (d : Digests) (rows : List Snapshot) where
  pub claim-Outcome :
      (now lease_id id : ℕ)
      → Outcome m d rows (claim now lease_id id) (claim_package_build m now lease_id id rows).1
  unfolding claim_package_build
  claim-Outcome now lease_id id = go (preparing_row id rows) refl
    where
      go :
          (o : Option Snapshot)
          → preparing_row id rows ≡ o
          → Outcome m d rows (claim now lease_id id) (claim_package_build m now lease_id id rows).1
      go none e = rw (e, claim_package_build) (unchanged refl)
      go (some p) e =
          let (at, building) = preparing_row-row id rows p e in
          elim (Bool-cases (is_waiting now p)) [
            | inl busy ↦ rw (e, busy, claim_package_build) (unchanged refl)
            | inr due ↦ elim (Bool-cases (leb m.package_worker_max_attempts p.build_attempts)) [
              | inl used ↦
                  rw (e, due, used, claim_package_build)
                    (edited p _ at refl (interrupted now lease_id id building due (ground arith))
                      refl)
              | inr more ↦
                  rw (e, due, more, claim_package_build)
                    (edited p _ at refl (leased now lease_id id building due (ground arith)) refl)
            ]
          ]

  pub publish-Outcome :
      (now : ℕ) (disk : Disk) (a : Artifact)
      → Outcome m d rows (publish now disk a) (publish_prepared_package m now disk a rows).1
  unfolding publish_prepared_package publish_leased
  publish-Outcome now disk a = go (preparing_row a.package_id rows) refl
    where
      go_headroom :
          (p : Snapshot)
          → row p.id rows ≡ some p
          → is_preparing p.status ≡ true
          → opt_eq p.build_lease_id (some a.lease_id) ≡ true
          → sum_of (other_than p.id reserved) rows + a.storage_bytes ≤ m.max_package_storage_bytes
          → (r : Result (Unit {0}))
          → Outcome m d rows (publish now disk a) (publish_if_room now disk a p rows r).1
      go_headroom p at building holds fits (err code) = unchanged refl
      go_headroom p at building holds fits (ok done) = elim (Bool-cases (not (replaced a disk))) [
        | inl bad ↦ rw bad (unchanged refl)
        | inr good ↦ rw good (edited p _ at refl (published now disk a building holds fits) refl)
      ]

      leased_publish-Outcome :
          (p : Snapshot)
          → row p.id rows ≡ some p
          → is_preparing p.status ≡ true
          → opt_eq p.build_lease_id (some a.lease_id) ≡ true
          → Outcome m d rows (publish now disk a) (publish_leased m now disk a p rows).1
      leased_publish-Outcome p at building holds =
          elim (Bool-cases (not (is_canonical p.id a.canonical_path))) [
            | inl bad ↦ rw (bad, publish_leased) (unchanged refl)
            | inr named ↦ elim (Bool-cases (not (is_staging p.id a.lease_id a.storage_path))) [
              | inl bad ↦ rw (named, bad, publish_leased) (unchanged refl)
              | inr staged ↦ elim (Bool-cases (not (pinned_matches a disk.pinned))) [
                | inl bad ↦ rw (named, staged, bad, publish_leased) (unchanged refl)
                | inr pinned ↦
                    elim (Bool-cases (
                      ltb m.max_package_storage_bytes
                        (sum_of (other_than p.id reserved) rows + a.storage_bytes))) [
                          | inl full ↦
                              rw (named, staged, pinned, full, publish_leased) (unchanged refl)
                          | inr fits ↦
                              rw (named, staged, pinned, fits, publish_leased)
                                (go_headroom p at building holds (ground arith) _)
                        ]
              ]
            ]
          ]

      go :
          (o : Option Snapshot)
          → preparing_row a.package_id rows ≡ o
          → Outcome m d rows (publish now disk a) (publish_prepared_package m now disk a rows).1
      go none e = rw (e, publish_prepared_package) (unchanged refl)
      go (some p) e =
          let (at, building) = preparing_row-row a.package_id rows p e in
          elim (Bool-cases (opt_eq p.build_lease_id (some a.lease_id))) [
            | inl holds ↦
                rw (e, holds, publish_prepared_package) (leased_publish-Outcome p at building holds)
            | inr stale ↦ rw (e, stale, publish_prepared_package) (unchanged refl)
          ]

  pub report_failure-Outcome :
      (now : ℕ) (r : Report)
      → Outcome m d rows (report_failure now r) (record_package_build_failure m now r rows).1
  unfolding record_package_build_failure
  report_failure-Outcome now r = go (preparing_row r.package_id rows) refl
    where
      go :
          (o : Option Snapshot)
          → preparing_row r.package_id rows ≡ o
          → Outcome m d rows (report_failure now r) (record_package_build_failure m now r rows).1
      go none e = rw (e, record_package_build_failure) (unchanged refl)
      go (some p) e =
          let (at, building) = preparing_row-row r.package_id rows p e in
          elim (Bool-cases (opt_eq p.build_lease_id (some r.lease_id))) [
            | inr stale ↦ rw (e, stale, record_package_build_failure) (unchanged refl)
            | inl holds ↦
                elim (Bool-cases
                  (r.retryable && ltb p.build_attempts m.package_worker_max_attempts)) [
                    | inl again ↦
                        rw (e, holds, again, record_package_build_failure)
                          (edited p _ at refl (retried now r building holds (ground arith)) refl)
                    | inr over ↦
                        rw (e, holds, over, record_package_build_failure)
                          (edited p _ at refl (given_up now r building holds) refl)
                  ]
          ]
