-- ===== src/Packages/Edits/Calls.antt =====
-- Every call on packages makes one of the edits of Packages/Edits.
use video_review.Base.{
  ℕ, ◌+◌, refl, none, List, ltb, leb, raise_if, arith, Ensures-bind, count_where,
  resource_state_conflict, file_too_large,
}
use video_review.Packages.{
  Snapshot, PackageSettings, is_preparing, active_package_storage_reservation_bytes,
  pending_package_storage_reservation_bytes,
}
use video_review.Packages.Builds.{Disk, ensure_package_filesystem_headroom}
use video_review.Packages.Downloads.{Digests}
use video_review.Packages.Limits.{
  PackageRequest, admit_package, estimate_package_storage_bytes, validate_package_limits,
}
use video_review.Packages.Operations.{
  Call, admit, claim, publish, report_failure, authorize, begin, mark_verified, renew, release,
  effect,
}
use video_review.Packages.Edits.Effects.{claim-Outcome, publish-Outcome, report_failure-Outcome}
use video_review.Packages.Edits.Transfers.{
  authorize-Outcome, begin-Outcome, mark-Outcome, renew-Outcome, release-Outcome, Outcome-kept,
}
use video_review.Packages.Edits.{Outcome, added}

module _ (m : PackageSettings) (d : Digests) (rows : List Snapshot) where
  admit-Outcome :
      (now : ℕ) (disk : Disk) (q : PackageRequest)
      → Outcome m d rows (admit now disk q) (effect m d (admit now disk q) rows)
  unfolding admit_package active_package_storage_reservation_bytes
  admit-Outcome now disk q =
      Outcome-kept m d rows (admit now disk q) (admit_package m now disk q rows) (
        Ensures-bind _ (validate_package_limits q.file_sizes m) _ λ total et.
          Ensures-bind _
            (raise_if
              (leb m.max_pending_package_builds (count_where (λ p. is_preparing p.status) rows))
              resource_state_conflict)
            _
            λ a ea.
              Ensures-bind _
                (raise_if
                  (ltb m.max_package_storage_bytes (
                    active_package_storage_reservation_bytes rows
                    + estimate_package_storage_bytes total q.archive_names))
                  file_too_large)
                _
                λ b eb.
                  Ensures-bind _
                    (ensure_package_filesystem_headroom m disk
                      (pending_package_storage_reservation_bytes none rows)
                      (estimate_package_storage_bytes total q.archive_names))
                    _
                    λ c ec.
                      added now disk q _ refl refl
                        (record {
                          building = refl;
                          attempts = refl;
                          build_lease = refl;
                          build_lease_expires = refl;
                          session = refl;
                          session_expires = refl;
                          download_lease = refl;
                          download_lease_expires = refl;
                          fits = ground arith;
                          unreclaimed = refl;
                          no_digest = refl;
                        })
                        refl)

  pub effect-Outcome : (c : Call) → Outcome m d rows c (effect m d c rows)
  effect-Outcome (admit now disk q) = admit-Outcome now disk q
  effect-Outcome (claim now lease_id id) = claim-Outcome m d rows now lease_id id
  effect-Outcome (publish now disk a) = publish-Outcome m d rows now disk a
  effect-Outcome (report_failure now r) = report_failure-Outcome m d rows now r
  effect-Outcome (authorize now projects files token project id) =
      authorize-Outcome m d rows now projects files token project id
  effect-Outcome (begin now lease_id projects files project id token is_resume) =
      begin-Outcome m d rows now lease_id projects files project id token is_resume
  effect-Outcome (mark_verified now files id lease_id token expected f) =
      mark-Outcome m d rows now files id lease_id token expected f
  effect-Outcome (renew now id lease_id) = renew-Outcome m d rows now id lease_id
  effect-Outcome (release now id lease_id completed) =
      release-Outcome m d rows now id lease_id completed
