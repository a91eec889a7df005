-- ===== src/TechnicalQc/Claims/Counts.antt =====
-- How many tasks of a project and of an item run after `claim_technical_qc_tasks`.
use mathlib.Core.Path.{subst}
use video_review.Base.{
  ℕ, ◌+◌, ◌≤◌, ◌≡◌, refl, Bool, true, false, ◌&&◌, Option, some, List, [], ◌∷◌, ◌==◌, arith,
  Bool-cases, inl, inr, some_eq, eq_of_test, All, HasKeys, HasKeys-All, HasKeys-write_at,
  row_at-write_at, count_where-write_at, count_where,
}
use video_review.TechnicalQc.Tasks.{
  QcStatus, queued, running, complete, failed, QcTask, QcTables, is_running, task_at,
}
use video_review.TechnicalQc.Selection.{is_claimable, is_due, claim_candidates}
use video_review.TechnicalQc.Selection.Limits.{of_item, one_if}
use video_review.TechnicalQc.Claims.{
  claimed_task, ClaimSettings, ClaimRun, transition, transitions, has_room,
}
use video_review.TechnicalQc.Claims.Sound.{All-filter_test, All-candidates_of}

-- A row of the table that is not running.
abbrev pub IsIdle : List QcTask → QcTask → Type 0
IsIdle tasks t = (task_at t.id tasks ≡ some t) × (is_running t.status ≡ false)

-- The running tasks that pass a test.
abbrev pub running_where : (QcTask → Bool) → List QcTask → ℕ
running_where q = count_where (λ t. is_running t.status && q t)

due_idle :
    (now : ℕ) (s : QcStatus) (next : Option ℕ) → is_due now s next ≡ true → is_running s ≡ false
due_idle now queued next h = refl
due_idle now failed next h = refl
due_idle now complete next h = refl
due_idle now running next h = cc

module _ (s : QcTables) (m : ClaimSettings) (now : ℕ) (new_claim : ℕ → ℕ)
    (conflicts : ℕ → Bool) where
  abbrev after : QcTask → ClaimRun → ClaimRun
  after = transition m now new_claim conflicts

  abbrev pub after_all : List QcTask → ClaimRun → ClaimRun
  after_all = transitions m now new_claim conflicts

  pub claim_candidates-IsIdle :
      (limit per_project : ℕ) (tasks : List QcTask)
      → HasKeys (λ t. t.id) tasks
      → All (IsIdle tasks) (claim_candidates s now m.max_attempts limit per_project tasks)
  unfolding claim_candidates
  claim_candidates-IsIdle limit per_project tasks keys =
      All-candidates_of m.max_attempts (IsIdle tasks) s _ limit per_project _ []
        (All-filter_test m.max_attempts (λ t. task_at t.id tasks ≡ some t) (IsIdle tasks)
          (is_claimable s now m.max_attempts)
          (λ t k e. (k, due_idle now t.status t.next_attempt_at (ground arith))) tasks
          (HasKeys-All (λ t. t.id) tasks keys))
        tt

  after-HasKeys :
      (t : QcTask) (r : ClaimRun)
      → HasKeys (λ u. u.id) r.tasks
      → HasKeys (λ u. u.id) (after t r).tasks
  after-HasKeys t r keys = elim (Bool-cases (conflicts r.transition_attempts)) [
    | inl e ↦ rw e keys
    | inr e ↦ rw e (HasKeys-write_at (λ u. u.id) r.tasks _ keys)
  ]

  -- Two rows of different items have different identifiers.
  apart_ids :
      (tasks : List QcTask) (t u : QcTask)
      → IsIdle tasks t
      → IsIdle tasks u
      → (t.review_item_id == u.review_item_id) ≡ false
      → (t.id == u.id) ≡ false
  apart_ids tasks t u a b apart = elim (Bool-cases (t.id == u.id)) [
    | inr e ↦ e
    | inl e ↦
        let same : t ≡ u = some_eq (rw (← a.0, eq_of_test t.id u.id e) b.0) in
        absurd (different same)
  ]
    where
      different : t ≡ u → ⊥
      different same =
          let here : (u.review_item_id == u.review_item_id) ≡ false =
            subst (λ v. (v.review_item_id == u.review_item_id) ≡ false) same apart in
          ground (arith, here)

  after-IsIdle :
      (t : QcTask) (us : List QcTask) (r : ClaimRun)
      → IsIdle r.tasks t
      → All (IsIdle r.tasks) us
      → of_item t.review_item_id us ≡ 0
      → All (IsIdle (after t r).tasks) us
  after-IsIdle t [] r idle h other = tt
  after-IsIdle t (u ∷ us) r idle h other =
      let apart : (u.review_item_id == t.review_item_id) ≡ false = ground arith in
      (keeps apart, after-IsIdle t us r idle h.1 (ground arith))
    where
      keeps : (u.review_item_id == t.review_item_id) ≡ false → IsIdle (after t r).tasks u
      keeps apart = elim (Bool-cases (conflicts r.transition_attempts)) [
        | inl e ↦ rw e h.0
        | inr e ↦
            let ids : (t.id == u.id) ≡ false = apart_ids r.tasks t u idle h.0 (ground arith) in
            rw e (
              rw
                  (
                    row_at-write_at (λ v. v.id) r.tasks t
                        (claimed_task m.lease_seconds now (new_claim r.transition_attempts) t) u.id
                        idle.0,
                    ids,
                  )
                  h.0.0,
              h.0.1,
            )
      ]

  module _ (q : QcTask → Bool)
      (kept : (claim_id : ℕ) (t : QcTask)
        → q (claimed_task m.lease_seconds now claim_id t) ≡ q t) where
    after-running_where :
        (t : QcTask) (r : ClaimRun)
        → IsIdle r.tasks t
        → running_where q (after t r).tasks ≤ running_where q r.tasks + one_if (q t)
    after-running_where t r idle = elim (Bool-cases (conflicts r.transition_attempts)) [
      | inl e ↦ rw e (omega arith)
      | inr e ↦ rw e (
          ground (
            arith,
            count_where-write_at (λ v. v.id) (λ v. is_running v.status && q v) r.tasks t
                (claimed_task m.lease_seconds now (new_claim r.transition_attempts) t) idle.0,
            kept (new_claim r.transition_attempts) t,
          ))
    ]

    pub after_all-running_where :
        (ts : List QcTask) (r : ClaimRun)
        → All (IsIdle r.tasks) ts
        → ((k : ℕ) → of_item k ts ≤ 1)
        → running_where q (after_all ts r).tasks ≤ running_where q r.tasks + count_where q ts
    after_all-running_where [] r h distinct = omega arith
    after_all-running_where (t ∷ ts) r h distinct = elim (Bool-cases (has_room m r)) [
      | inr full ↦ rw full (omega arith)
      | inl room ↦ rw room (
          omega (
            arith,
            after-running_where t r h.0,
            after_all-running_where ts (after t r)
                (after-IsIdle t ts r h.0 h.1 (alone (distinct t.review_item_id)))
                (λ k. fewer k (distinct k)),
          ))
    ]
      where
        alone : of_item t.review_item_id (t ∷ ts) ≤ 1 → of_item t.review_item_id ts ≡ 0
        alone k = ground (arith, k)

        fewer : (k : ℕ) → of_item k (t ∷ ts) ≤ 1 → of_item k ts ≤ 1
        fewer k h = omega arith

  pub after_all-HasKeys :
      (ts : List QcTask) (r : ClaimRun)
      → HasKeys (λ u. u.id) r.tasks
      → HasKeys (λ u. u.id) (after_all ts r).tasks
  after_all-HasKeys [] r keys = keys
  after_all-HasKeys (t ∷ ts) r keys = elim (Bool-cases (has_room m r)) [
    | inl room ↦ rw room (after_all-HasKeys ts (after t r) (after-HasKeys t r keys))
    | inr full ↦ rw full keys
  ]
