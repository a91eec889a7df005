-- ===== src/Admission/Examples.antt =====
-- A small run of the limiter of upload_parts.py.
use video_review.Base.{ℕ, ◌≤◌, ◌≡◌, refl, true, List, [], ◌∷◌, length, count_where, Returns}
use video_review.Admission.{
  Limits, Operation, acquire, acquire_exclusive, release, release_exclusively, step, run, new_world,
}
use video_review.Admission.Counts.{live, live_of, live_on, IsExact}
use video_review.Admission.Releases.{release-IsExact}
use video_review.Admission.Bounds.{run-new_world-IsExact, in_flight_bounded}

abbrev limits : Limits
limits = record { max_per_principal = 2; max_per_upload = 1; max_total = 3 }

-- The second request for upload 7 is refused, and so is the exclusive one; releasing twice counts
-- once, and then upload 7 can be held exclusively.
abbrev script : List Operation
script =
    acquire 1 7 limits
    ∷ acquire 1 7 limits
    ∷ acquire_exclusive 7
    ∷ acquire 1 8 limits
    ∷ release 0
    ∷ release 0
    ∷ acquire_exclusive 7
    ∷ acquire 2 7 limits
    ∷ []

script_leases :
    (length (run new_world script).parts ≡ 2)
    × (length (run new_world script).exclusives ≡ 1)
    × ((run new_world script).limiter.active_total ≡ 1)
    × ((run new_world script).limiter.exclusive_uploads 7 ≡ true)
unfolding run step
script_leases = (refl, refl, refl, refl)

release-IsExact_example :
    Returns IsExact (step (run new_world script) (release 0))
    × Returns IsExact (step (run new_world script) (release_exclusively 0))
release-IsExact_example = release-IsExact (run new_world script) 0 (run-new_world-IsExact script)

run-new_world-IsExact_example : IsExact (run new_world script)
run-new_world-IsExact_example = run-new_world-IsExact script

in_flight_bounded_example :
    (count_where live (run new_world script).parts ≤ 3)
    × ((k : ℕ) → count_where (live_of k) (run new_world script).parts ≤ 2)
    × ((u : ℕ) → count_where (live_on u) (run new_world script).parts ≤ 1)
in_flight_bounded_example =
    in_flight_bounded limits script (refl, (refl, (tt, (refl, (tt, (tt, (tt, (refl, tt))))))))
