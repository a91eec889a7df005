-- ===== src/TechnicalQc/Claims/Runs.antt =====
-- The rounds of `claim_technical_qc_tasks`: what they keep, and when they stop.
use video_review.Base.{
  ℕ, zero, suc, ◌+◌, ◌≤◌, ◌<◌, ◌≡◌, ◌⊎◌, inl, inr, refl, Bool, true, false, ◌||◌, List, [], ◌∷◌,
  ltb, arith, Bool-cases, All, All-write_at, length, length-append, Returns, Returns-bind, raise_if,
  value_error,
}
use video_review.TechnicalQc.Tasks.{QcTask, QcTables}
use video_review.TechnicalQc.Selection.Limits.{select_tasks-IsFair}
use video_review.TechnicalQc.Claims.{
  reconcile_expired_technical_qc_tasks, claim_payload, ClaimSettings, ClaimRun, transition,
  transitions, has_room, next_selection, is_empty, claim_rounds, claim_technical_qc_tasks,
}
use video_review.TechnicalQc.Claims.Sound.{
  IsSoundTask, Claimable, claimed-IsSoundTask, claim_candidates-Claimable, reconcile-IsSoundTask,
}

module _ (s : QcTables) (m : ClaimSettings) (now : ℕ) (new_claim : ℕ → ℕ)
    (conflicts : ℕ → Bool) where
  -- The rows are sound, and there are not too many claims.
  record IsRun (r : ClaimRun) : Type 0 where
    pub sound : All (IsSoundTask m.max_attempts) r.tasks
    pub limited : length r.claims ≤ m.limit

  -- Why the rounds stop: enough claims, enough transitions, or no task left to select.
  abbrev pub Stops : ClaimRun → Type 0
  Stops r =
      (length r.claims ≡ m.limit)
      ⊎ ((m.candidate_scan_limit ≤ r.transition_attempts)
          ⊎ (is_empty (next_selection s m now r) ≡ true))

  next_selection-Claimable :
      (r : ClaimRun) → IsRun r → All (Claimable m.max_attempts now) (next_selection s m now r)
  unfolding next_selection
  next_selection-Claimable r h =
      (select_tasks-IsFair (Claimable m.max_attempts now) _ _ _ _ s _
        (claim_candidates-Claimable m.max_attempts s now _ _ r.tasks h.sound)).all

  transition-IsRun :
      (t : QcTask) (r : ClaimRun)
      → Claimable m.max_attempts now t
      → has_room m r ≡ true
      → IsRun r
      → IsRun (transition m now new_claim conflicts t r)
  transition-IsRun t r k room h = elim (Bool-cases (conflicts r.transition_attempts)) [
    | inl e ↦ rw e (record { sound = h.sound; limited = h.limited })
    | inr e ↦ rw e (record {
      sound =
          All-write_at (λ u. u.id) (IsSoundTask m.max_attempts) _ r.tasks
            (claimed-IsSoundTask m.max_attempts m.lease_seconds now _ t k) h.sound;
      limited =
          ground (
            arith,
            length-append r.claims (claim_payload (new_claim r.transition_attempts) t ∷ []),
          );
    })
  ]

  transitions-IsRun :
      (ts : List QcTask) (r : ClaimRun)
      → All (Claimable m.max_attempts now) ts
      → IsRun r
      → IsRun (transitions m now new_claim conflicts ts r)
  transitions-IsRun [] r k h = h
  transitions-IsRun (t ∷ ts) r k h = elim (Bool-cases (has_room m r)) [
    | inl e ↦ rw e (
        transitions-IsRun ts (transition m now new_claim conflicts t r) k.1
          (transition-IsRun t r k.0 e h))
    | inr e ↦ rw e h
  ]

  transition-more :
      (t : QcTask) (r : ClaimRun)
      → (transition m now new_claim conflicts t r).transition_attempts ≡ r.transition_attempts + 1
  transition-more t r = elim (Bool-cases (conflicts r.transition_attempts)) [
    | inl e ↦ rw e refl
    | inr e ↦ rw e refl
  ]

  transitions-no_less :
      (ts : List QcTask) (r : ClaimRun)
      → r.transition_attempts ≤ (transitions m now new_claim conflicts ts r).transition_attempts
  transitions-no_less [] r = omega arith
  transitions-no_less (t ∷ ts) r = elim (Bool-cases (has_room m r)) [
    | inl e ↦ rw e (
        omega (
          arith,
          transition-more t r,
          transitions-no_less ts (transition m now new_claim conflicts t r),
        ))
    | inr e ↦ rw e (omega arith)
  ]

  transitions-more :
      (ts : List QcTask) (r : ClaimRun)
      → is_empty ts ≡ false
      → has_room m r ≡ true
      → r.transition_attempts < (transitions m now new_claim conflicts ts r).transition_attempts
  transitions-more [] r h room = cc
  transitions-more (t ∷ ts) r h room = rw room (
      omega (
        arith,
        transition-more t r,
        transitions-no_less ts (transition m now new_claim conflicts t r),
      ))

  full-Stops : (r : ClaimRun) → IsRun r → has_room m r ≡ false → Stops r
  full-Stops r h e = elim (Bool-cases (ltb r.transition_attempts m.candidate_scan_limit)) [
    | inl more ↦ inl (ground (arith, h.limited))
    | inr over ↦ inr (inl (ground arith))
  ]

  claim_rounds-Stops :
      (fuel : ℕ) (r : ClaimRun)
      → IsRun r
      → m.candidate_scan_limit ≤ fuel + r.transition_attempts
      → IsRun (claim_rounds fuel s m now new_claim conflicts r)
        × Stops (claim_rounds fuel s m now new_claim conflicts r)
  unfolding claim_rounds
  claim_rounds-Stops zero r h enough = (h, inr (inl (omega arith)))
  claim_rounds-Stops (suc fuel) r h enough = elim (Bool-cases (has_room m r)) [
    | inr full ↦ rw (full, claim_rounds) (h, full-Stops r h full)
    | inl room ↦ elim (Bool-cases (is_empty (next_selection s m now r))) [
      | inl empty ↦ rw (room, empty, claim_rounds) (h, inr (inr empty))
      | inr some_left ↦
          rw (room, some_left, claim_rounds)
            (claim_rounds-Stops fuel
              (transitions m now new_claim conflicts (next_selection s m now r) r)
              (transitions-IsRun _ r (next_selection-Claimable r h) h)
              (omega (arith, transitions-more (next_selection s m now r) r some_left room)))
    ]
  ]

  -- If the bounds are positive and every task meets the check constraints on claims, progress,
  -- probe facts and completion and has at most `max_attempts` attempts, then
  -- `claim_technical_qc_tasks` returns, every task still does after it, there are at most `limit`
  -- claims, and it stopped since there were `limit` claims, or `candidate_scan_limit` transitions,
  -- or no task was left to select.
  pub claim_technical_qc_tasks-Returns :
      (tasks : List QcTask)
      → 1 ≤ m.limit
      → 1 ≤ m.per_project_limit
      → 1 ≤ m.lease_seconds
      → 1 ≤ m.max_attempts
      → 1 ≤ m.candidate_scan_limit
      → All (IsSoundTask m.max_attempts) tasks
      → Returns
          (λ r. All (IsSoundTask m.max_attempts) r.tasks × (length r.claims ≤ m.limit) × Stops r)
          (claim_technical_qc_tasks s m now new_claim conflicts tasks)
  unfolding claim_technical_qc_tasks
  claim_technical_qc_tasks-Returns tasks a b c d e h =
      let positive : (ltb m.limit 1
            || ltb m.per_project_limit 1
            || ltb m.lease_seconds 1
            || ltb m.max_attempts 1)
          ≡ false =
        ground arith in
      Returns-bind (λ u. Unit {0}) Result_ok
        (raise_if
          (ltb m.limit 1
            || ltb m.per_project_limit 1
            || ltb m.lease_seconds 1
            || ltb m.max_attempts 1)
          value_error)
        _ (rw positive tt)
        λ u v.
          Returns-bind (λ x. All (IsSoundTask m.max_attempts) x.1) Result_ok
            (reconcile_expired_technical_qc_tasks now m.max_attempts m.candidate_scan_limit tasks) _
            (reconcile-IsSoundTask m.max_attempts now m.candidate_scan_limit tasks d e h)
            λ x k.
              let (run, stops) =
                claim_rounds-Stops m.candidate_scan_limit _
                  (record { sound = k; limited = omega arith }) (omega arith) in
              (run.sound, run.limited, stops)
    where
      Result_ok : ClaimRun → Type 0
      Result_ok r = All (IsSoundTask m.max_attempts) r.tasks × (length r.claims ≤ m.limit) × Stops r
