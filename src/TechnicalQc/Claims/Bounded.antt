-- ===== src/TechnicalQc/Claims/Bounded.antt =====
-- The limits on running tasks that `claim_technical_qc_tasks` of technical_qc.py keeps, over its
-- rounds and the reconciliation before them.
use video_review.Base.{
  ℕ, zero, suc, ◌+◌, ◌-◌, ◌*◌, ◌≤◌, ◌≡◌, refl, Bool, false, ◌&&◌, ◌||◌, List, [], ◌∷◌, ◌++◌, ltb,
  ◌==◌, max, arith, Bool-cases, inl, inr, All, HasKeys, count_where, length, Returns, Returns-bind,
  raise_if, value_error,
}
use video_review.TechnicalQc.Tasks.{QcTask, QcTables, is_running}
use video_review.TechnicalQc.Selection.{mem, claim_candidates, select_tasks}
use video_review.TechnicalQc.Selection.Limits.{
  of_project, of_item, one_if, one_if-bounded, select_tasks-IsFair,
}
use video_review.TechnicalQc.Claims.{
  reconcile_expired_technical_qc_tasks, reconciled_task, expired_tasks, ClaimSettings, ClaimRun,
  transitions, has_room, next_selection, running_of_project, running_items, is_empty, claim_rounds,
  claim_technical_qc_tasks,
}
use video_review.TechnicalQc.Claims.Lowered.{
  reconciled-idle, write_each-HasKeys, write_each-no_more,
}
use video_review.TechnicalQc.Claims.Counts.{
  IsIdle, claim_candidates-IsIdle, after_all-running_where, after_all-HasKeys,
}

abbrev pub running_of_item : List QcTask → ℕ → ℕ
running_of_item tasks k = count_where (λ t. is_running t.status && t.review_item_id == k) tasks

-- An item that is not among the running ones has no running task.
running_of_item-free :
    (k : ℕ) (ts : List QcTask) (more : List ℕ)
    → mem k (running_items ts ++ more) ≡ false
    → running_of_item ts k ≡ 0
running_of_item-free k [] more h = refl
running_of_item-free k (t ∷ ts) more h = elim (Bool-cases (is_running t.status)) [
  | inl e ↦
      let apart : (t.review_item_id == k) ≡ false = front (rw e at h) in
      rw (e, apart) (omega (arith, running_of_item-free k ts more (back (rw e at h))))
  | inr e ↦ rw e (omega (arith, running_of_item-free k ts more (rw e at h)))
]
  where
    front :
        (t.review_item_id == k || mem k (running_items ts ++ more)) ≡ false
        → (t.review_item_id == k) ≡ false
    front g = ground (arith, g)

    back :
        (t.review_item_id == k || mem k (running_items ts ++ more)) ≡ false
        → mem k (running_items ts ++ more) ≡ false
    back g = ground (arith, g)

module _ (s : QcTables) (m : ClaimSettings) (now : ℕ) (new_claim : ℕ → ℕ)
    (conflicts : ℕ → Bool) where
  abbrev active : ClaimRun → List ℕ
  active r = running_items r.tasks ++ r.conflicted_item_ids

  -- What a round of transitions goes through.
  record IsRound (r : ClaimRun) (selected : List QcTask) : Type 0 where
    idle : All (IsIdle r.tasks) selected
    of_projects :
        (p : ℕ)
        → running_of_project r.tasks p + of_project p selected
          ≤ max (running_of_project r.tasks p) m.per_project_limit
    of_items : (k : ℕ) → of_item k selected + one_if (mem k (active r)) ≤ 1

  next_selection-IsRound :
      (r : ClaimRun) → HasKeys (λ t. t.id) r.tasks → IsRound r (next_selection s m now r)
  unfolding next_selection
  next_selection-IsRound r keys =
      let candidates =
        claim_candidates s now m.max_attempts m.candidate_scan_limit
          (max 8 (m.per_project_limit * 2)) r.tasks in
      let h =
        select_tasks-IsFair (IsIdle r.tasks) (m.limit - length r.claims) m.per_project_limit
          (running_of_project r.tasks) (active r) s candidates
          (claim_candidates-IsIdle s m now new_claim conflicts m.candidate_scan_limit
            (max 8 (m.per_project_limit * 2)) r.tasks keys) in
      record {
        idle = h.all;
        of_projects = h.within_project;
        of_items = λ k. omega (
          arith,
          h.one_of_item k,
          one_if-bounded (
              mem k
                (select_tasks s (m.limit - length r.claims) m.per_project_limit
                  (running_of_project r.tasks) (active r) candidates).active_items),
        );
      }

  abbrev after_round : ClaimRun → ClaimRun
  after_round r = transitions m now new_claim conflicts (next_selection s m now r) r

  round-running_of_project :
      (r : ClaimRun) (p : ℕ)
      → HasKeys (λ t. t.id) r.tasks
      → running_of_project (after_round r).tasks p
        ≤ max (running_of_project r.tasks p) m.per_project_limit
  round-running_of_project r p keys =
      let h = next_selection-IsRound r keys in
      let more =
        after_all-running_where s m now new_claim conflicts (λ t. t.project_ref_id == p)
          (λ c t. refl) (next_selection s m now r) r h.idle (λ k. omega (arith, h.of_items k)) in
      omega (arith, more, h.of_projects p)

  round-running_of_item :
      (r : ClaimRun) (k : ℕ)
      → HasKeys (λ t. t.id) r.tasks
      → running_of_item (after_round r).tasks k ≤ max (running_of_item r.tasks k) 1
  round-running_of_item r k keys =
      let h = next_selection-IsRound r keys in
      let more =
        after_all-running_where s m now new_claim conflicts (λ t. t.review_item_id == k)
          (λ c t. refl) (next_selection s m now r) r h.idle (λ j. omega (arith, h.of_items j)) in
      elim (Bool-cases (mem k (active r))) [
        | inl e ↦
            let nothing : of_item k (next_selection s m now r) ≡ 0 =
              ground (arith, e, h.of_items k) in
            omega (arith, more, nothing)
        | inr e ↦
            let free = running_of_item-free k r.tasks r.conflicted_item_ids e in
            omega (arith, more, free, h.of_items k)
      ]

  -- The numbers of running tasks are within bounds.
  pub record Within (projects items : ℕ → ℕ) (tasks : List QcTask) : Type 0 where
    keys : HasKeys (λ t. t.id) tasks
    of_projects : (p : ℕ) → running_of_project tasks p ≤ max (projects p) m.per_project_limit
    of_items : (k : ℕ) → running_of_item tasks k ≤ max (items k) 1

  claim_rounds-Within :
      (projects items : ℕ → ℕ) (fuel : ℕ) (r : ClaimRun)
      → Within projects items r.tasks
      → Within projects items (claim_rounds fuel s m now new_claim conflicts r).tasks
  unfolding claim_rounds
  claim_rounds-Within projects items zero r h = h
  claim_rounds-Within projects items (suc fuel) r h = elim (Bool-cases (has_room m r)) [
    | inr full ↦ rw (full, claim_rounds) h
    | inl room ↦ elim (Bool-cases (is_empty (next_selection s m now r))) [
      | inl empty ↦ rw (room, empty, claim_rounds) h
      | inr some_left ↦
          rw (room, some_left, claim_rounds)
            (claim_rounds-Within projects items fuel (after_round r) (record {
              keys =
                  after_all-HasKeys s m now new_claim conflicts (next_selection s m now r) r h.keys;
              of_projects =
                  λ p. omega (arith, round-running_of_project r p h.keys, h.of_projects p);
              of_items = λ k. omega (arith, round-running_of_item r k h.keys, h.of_items k);
            }))
    ]
  ]

  reconcile-Within :
      (tasks : List QcTask)
      → 1 ≤ m.max_attempts
      → 1 ≤ m.candidate_scan_limit
      → HasKeys (λ t. t.id) tasks
      → Returns
          (λ r. Within (running_of_project tasks) (running_of_item tasks) r.1)
          (reconcile_expired_technical_qc_tasks now m.max_attempts m.candidate_scan_limit tasks)
  unfolding reconcile_expired_technical_qc_tasks
  reconcile-Within tasks a b h =
      let bounded : (ltb m.max_attempts 1 || ltb m.candidate_scan_limit 1) ≡ false = ground arith in
      let edit = reconciled_task m.max_attempts now in
      let expired = expired_tasks now m.candidate_scan_limit tasks in
      let idle = reconciled-idle m.max_attempts now in
      Returns-bind (λ u. Unit {0})
        (λ r. Within (running_of_project tasks) (running_of_item tasks) r.1)
        (raise_if (ltb m.max_attempts 1 || ltb m.candidate_scan_limit 1) value_error) _
        (rw bounded tt)
        λ u e. record {
          keys = write_each-HasKeys edit expired tasks h;
          of_projects = λ p.
              omega
                (arith, write_each-no_more edit (λ t. t.project_ref_id == p) expired tasks idle);
          of_items = λ k.
              omega
                (arith, write_each-no_more edit (λ t. t.review_item_id == k) expired tasks idle);
        }

  -- If the bounds are positive and no two tasks have the same identifier, then
  -- `claim_technical_qc_tasks` returns, and after it the running tasks of each project are at most
  -- the larger of their number before and `per_project_limit`, and those of each item at most the
  -- larger of their number before and one.
  pub claim_technical_qc_tasks-bounded :
      (tasks : List QcTask)
      → 1 ≤ m.limit
      → 1 ≤ m.per_project_limit
      → 1 ≤ m.lease_seconds
      → 1 ≤ m.max_attempts
      → 1 ≤ m.candidate_scan_limit
      → HasKeys (λ t. t.id) tasks
      → Returns
          (λ r.
            ((p : ℕ)
              → running_of_project r.tasks p ≤ max (running_of_project tasks p) m.per_project_limit)
            × ((k : ℕ) → running_of_item r.tasks k ≤ max (running_of_item tasks k) 1))
          (claim_technical_qc_tasks s m now new_claim conflicts tasks)
  unfolding claim_technical_qc_tasks
  claim_technical_qc_tasks-bounded tasks a b c d e h =
      let positive : (ltb m.limit 1
            || ltb m.per_project_limit 1
            || ltb m.lease_seconds 1
            || ltb m.max_attempts 1)
          ≡ false =
        ground arith in
      Returns-bind (λ u. Unit {0}) Bounded
        (raise_if
          (ltb m.limit 1
            || ltb m.per_project_limit 1
            || ltb m.lease_seconds 1
            || ltb m.max_attempts 1)
          value_error)
        _ (rw positive tt)
        λ u v.
          Returns-bind (λ x. Within (running_of_project tasks) (running_of_item tasks) x.1) Bounded
            (reconcile_expired_technical_qc_tasks now m.max_attempts m.candidate_scan_limit tasks) _
            (reconcile-Within tasks d e h)
            λ x k.
              let within =
                claim_rounds-Within (running_of_project tasks) (running_of_item tasks)
                  m.candidate_scan_limit _ k in
              (within.of_projects, within.of_items)
    where
      Bounded : ClaimRun → Type 0
      Bounded r =
          ((p : ℕ)
            → running_of_project r.tasks p ≤ max (running_of_project tasks p) m.per_project_limit)
          × ((k : ℕ) → running_of_item r.tasks k ≤ max (running_of_item tasks k) 1)
