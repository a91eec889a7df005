-- ===== src/Admission/Bounds.antt =====
-- The limits of the requests against what is in flight.
use video_review.Base.{
  ℕ, ◌≤◌, ◌≡◌, refl, true, false, ◌||◌, Option, none, some, List, [], ◌∷◌, ltb, ◌==◌, set, min, All,
  count_where, Result, ok, err, ◌>>=◌, arith, Bool-cases, inl, inr, Ensures,
}
use video_review.Admission.{
  Limiter, get_zero, Limits, PartLease, ExclusiveLease, grant, refuses, try_acquire,
  try_acquire_exclusive, release_part, release_exclusive, World, new_world, Operation, acquire,
  acquire_exclusive, release, release_exclusively, add_part, add_exclusive, release_part_lease,
  release_exclusive_lease, step, settle, run,
}
use video_review.Admission.Counts.{live, live_of, live_on, IsExact, new_world-IsExact}
use video_review.Admission.Releases.{step-IsExact}

module _ (m : Limits) where
  -- The counters stay within the limits.
  record IsWithin (s : Limiter) : Type 0 where
    total : s.active_total ≤ m.max_total
    of_principal : (k : ℕ) → get_zero (s.active_by_principal k) ≤ m.max_per_principal
    on_upload : (u : ℕ) → get_zero (s.active_by_upload u) ≤ m.max_per_upload

  grant-IsWithin :
      (s : Limiter) (p u : ℕ) → IsWithin s → refuses s p u m ≡ false → IsWithin (grant s p u)
  unfolding refuses
  grant-IsWithin s p u h room = record {
    total = ground arith;
    of_principal = λ k. ground (arith, h.of_principal k);
    on_upload = λ k. ground (arith, h.on_upload k);
  }

  release_part-IsWithin :
      (s : Limiter) (p u : ℕ) → IsWithin s → Ensures IsWithin (release_part s p u)
  unfolding release_part
  release_part-IsWithin s p u h = go (s.active_by_principal p) (s.active_by_upload u) refl refl
    where
      go :
          (a b : Option ℕ)
          → s.active_by_principal p ≡ a
          → s.active_by_upload u ≡ b
          → Ensures IsWithin (release_part s p u)
      go none b ea eb = rw (ea, release_part) tt
      go (some a) none ea eb = rw (ea, eb, release_part) tt
      go (some a) (some b) ea eb =
          rw (ea, eb, release_part)
            (record {
              total = omega (arith, h.total);
              of_principal = λ k. ground (arith, h.of_principal k, h.of_principal p);
              on_upload = λ k. ground (arith, h.on_upload k, h.on_upload u);
            })

  -- Every admission request uses these limits.
  abbrev pub UsesLimits : Operation → Type 0
  UsesLimits (acquire p u limits) = limits ≡ m
  UsesLimits _ = Unit

  release_part_lease-IsWithin :
      (w : World) (i : ℕ) (o : Option PartLease)
      → IsWithin w.limiter
      → IsWithin (settle w (release_part_lease w i o)).limiter
  unfolding release_part_lease
  release_part_lease-IsWithin w i none h = h
  release_part_lease-IsWithin w i (some l) h = elim (Bool-cases l.released) [
    | inl done ↦ rw done h
    | inr open_yet ↦ rw open_yet (
        go (release_part w.limiter l.principal_key l.upload_id)
          (release_part-IsWithin w.limiter l.principal_key l.upload_id h))
  ]
    where
      go :
          (r : Result Limiter)
          → Ensures IsWithin r
          → IsWithin
              (settle w (
                r >>= λ s. ok (record w {
                  limiter = s;
                  parts = set w.parts i (record l { released = true });
                }))).limiter
      go (ok s) k = k
      go (err c) k = h

  release_exclusive_lease-IsWithin :
      (w : World) (i : ℕ) (o : Option ExclusiveLease)
      → IsWithin w.limiter
      → IsWithin (settle w (release_exclusive_lease w i o)).limiter
  unfolding release_exclusive_lease release_exclusive
  release_exclusive_lease-IsWithin w i none h = h
  release_exclusive_lease-IsWithin w i (some l) h = elim (Bool-cases l.released) [
    | inl done ↦ rw done h
    | inr open_yet ↦ elim (Bool-cases (w.limiter.exclusive_uploads l.upload_id)) [
      | inl held ↦
          rw (open_yet, held)
            (record { total = h.total; of_principal = h.of_principal; on_upload = h.on_upload })
      | inr free ↦ rw (open_yet, free) h
    ]
  ]

  step-IsWithin :
      (w : World) (op : Operation)
      → UsesLimits op
      → IsWithin w.limiter
      → IsWithin (settle w (step w op)).limiter
  unfolding step try_acquire try_acquire_exclusive add_part add_exclusive
  step-IsWithin w (acquire p u limits) e h =
      rw e
        (elim (Bool-cases
          (p == 0 || ltb (min m.max_per_principal (min m.max_per_upload m.max_total)) 1)) [
            | inl bad ↦ rw bad h
            | inr good ↦ elim (Bool-cases (refuses w.limiter p u m)) [
              | inl full ↦ rw (good, full) h
              | inr room ↦ rw (good, room) (grant-IsWithin w.limiter p u h room)
            ]
          ])
  step-IsWithin w (acquire_exclusive u) e h = elim (Bool-cases (u == 0)) [
    | inl bad ↦ rw bad h
    | inr good ↦
        elim (Bool-cases
          (w.limiter.exclusive_uploads u || ltb 0 (get_zero (w.limiter.active_by_upload u)))) [
            | inl held ↦ rw (good, held) h
            | inr free ↦
                rw (good, free)
                  (record {
                    total = h.total;
                    of_principal = h.of_principal;
                    on_upload = h.on_upload;
                  })
          ]
  ]
  step-IsWithin w (release i) e h = release_part_lease-IsWithin w i _ h
  step-IsWithin w (release_exclusively i) e h = release_exclusive_lease-IsWithin w i _ h

  run-IsWithin :
      (w : World) (ops : List Operation)
      → All UsesLimits ops
      → IsWithin w.limiter
      → IsWithin (run w ops).limiter
  unfolding run
  run-IsWithin w [] e h = h
  run-IsWithin w (op ∷ ops) e h =
      run-IsWithin (settle w (step w op)) ops e.1 (step-IsWithin w op e.0 h)

settle-IsExact :
    (w : World) (r : Result World) → IsExact w → Ensures IsExact r → IsExact (settle w r)
settle-IsExact w (ok w') h k = k
settle-IsExact w (err c) h k = h

run-IsExact : (w : World) (ops : List Operation) → IsExact w → IsExact (run w ops)
unfolding run
run-IsExact w [] h = h
run-IsExact w (op ∷ ops) h =
    run-IsExact (settle w (step w op)) ops (settle-IsExact w _ h (step-IsExact w op h))

-- After any operations from the empty limiter, in any order and with any repeated releases, the
-- dictionaries hold exactly the unreleased leases, and no upload has a part lease while it is held
-- exclusively.
pub run-new_world-IsExact : (ops : List Operation) → IsExact (run new_world ops)
run-new_world-IsExact ops = run-IsExact new_world ops new_world-IsExact

-- If every request uses the limits `m`, then after any operations from the empty limiter there are
-- at most `max_total` unreleased leases, at most `max_per_principal` of any principal and at most
-- `max_per_upload` of any upload.
pub in_flight_bounded :
    (m : Limits) (ops : List Operation)
    → All (UsesLimits m) ops
    → let w = run new_world ops in
      (count_where live w.parts ≤ m.max_total)
      × ((k : ℕ) → count_where (live_of k) w.parts ≤ m.max_per_principal)
      × ((u : ℕ) → count_where (live_on u) w.parts ≤ m.max_per_upload)
in_flight_bounded m ops e =
    let exact = run-new_world-IsExact ops in
    let within = run-IsWithin m new_world ops e (record {
      total = omega arith;
      of_principal = λ k. omega arith;
      on_upload = λ u. omega arith;
    }) in
    (
      ground (arith, exact.total, within.total),
      λ k. ground (arith, exact.by_principal k, within.of_principal k),
      λ u. ground (arith, exact.by_upload u, within.on_upload u),
    )
