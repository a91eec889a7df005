-- ===== src/TechnicalQc/Claims/Sound.antt =====
-- The check constraints of `technical_qc_tasks` (infra/sqlalchemy_models.py) and the limits of a
-- claim, over the operations on tasks.
use video_review.Base.{
  ℕ, ◌≤◌, ◌<◌, ◌≡◌, inl, inr, refl, Bool, true, false, ◌||◌, Option, none, some, List, [], ◌∷◌, ltb,
  leb, is_some, arith, Bool-cases, All, All-append, All-sort_by, All-filter, All-take, All-write_at,
  length, filter, Returns, Returns-bind, raise_if, value_error,
}
use video_review.TechnicalQc.Tasks.{
  QcStatus, queued, running, complete, failed, QcTask, QcTables, is_running, write_task,
}
use video_review.TechnicalQc.Selection.{is_claimable, is_due, claim_candidates, candidates_of}
use video_review.TechnicalQc.Claims.{
  reconciled_task, write_each, expired_tasks, reconcile_expired_technical_qc_tasks, claimed_task,
}

abbrev pub is_complete : QcStatus → Bool
is_complete complete = true
is_complete _ = false

-- No fact of a probe is known, or all are, and they are positive.
abbrev pub ProbeFacts : Option ℕ → Option ℕ → Option ℕ → Type 0
ProbeFacts none none none = Unit
ProbeFacts (some a) (some b) (some c) = (1 ≤ a) × (1 ≤ b) × (1 ≤ c)
ProbeFacts _ _ _ = ⊥

module _ (max_attempts : ℕ) where
  pub record IsSoundTask (t : QcTask) : Type 0 where
    -- `ck_technical_qc_tasks_claim`
    pub claim_given : is_some t.claim_id ≡ is_running t.status
    pub lease_given : is_some t.lease_expires_at ≡ is_running t.status
    -- `ck_technical_qc_tasks_progress`
    pub progress : t.processed_ms ≤ t.total_ms
    pub positive : 1 ≤ t.total_ms
    -- `ck_technical_qc_tasks_probe_facts`
    pub probe_facts : ProbeFacts t.video_frame_count t.video_duration_ms t.container_duration_ms
    -- `ck_technical_qc_tasks_completed`
    pub completion : is_some t.completed_at ≡ is_complete t.status
    pub all_processed : is_complete t.status ≡ true → t.processed_ms ≡ t.total_ms
    pub attempted : t.attempts ≤ max_attempts

  running_incomplete :
      (t : QcTask) → IsSoundTask t → is_running t.status ≡ true → is_some t.completed_at ≡ false
  running_incomplete t h e = rw h.completion (go t.status e)
    where
      go : (s : QcStatus) → is_running s ≡ true → is_complete s ≡ false
      go running e = refl
      go complete e = cc
      go queued e = refl
      go failed e = refl

  due_incomplete :
      (t : QcTask) (now : ℕ)
      → IsSoundTask t
      → is_due now t.status t.next_attempt_at ≡ true
      → is_some t.completed_at ≡ false
  due_incomplete t now h e = rw h.completion (go t.status t.next_attempt_at e)
    where
      go : (s : QcStatus) (next : Option ℕ) → is_due now s next ≡ true → is_complete s ≡ false
      go running next e = refl
      go complete next e = cc
      go queued next e = refl
      go failed next e = refl

  reconciled-IsSoundTask :
      (now : ℕ) (t : QcTask)
      → IsSoundTask t
      → is_running t.status ≡ true
      → IsSoundTask (reconciled_task max_attempts now t)
  reconciled-IsSoundTask now t h e = elim (Bool-cases (leb max_attempts t.attempts)) [
    | inl used ↦ record {
      claim_given = rw used refl;
      lease_given = rw used refl;
      progress = h.progress;
      positive = h.positive;
      probe_facts = h.probe_facts;
      completion = rw (used, running_incomplete t h e) refl;
      all_processed = rw used (λ k. cc);
      attempted = h.attempted;
    }
    | inr more ↦ record {
      claim_given = rw more refl;
      lease_given = rw more refl;
      progress = h.progress;
      positive = h.positive;
      probe_facts = h.probe_facts;
      completion = rw (more, running_incomplete t h e) refl;
      all_processed = rw more (λ k. cc);
      attempted = h.attempted;
    }
  ]

  -- A task that a claim may take.
  abbrev pub Claimable : ℕ → QcTask → Type 0
  Claimable now t =
      IsSoundTask t × (t.attempts < max_attempts) × (is_due now t.status t.next_attempt_at ≡ true)

  pub claimed-IsSoundTask :
      (lease_seconds now claim_id : ℕ) (t : QcTask)
      → Claimable now t
      → IsSoundTask (claimed_task lease_seconds now claim_id t)
  claimed-IsSoundTask lease_seconds now claim_id t (h, below, due) = record {
    claim_given = refl;
    lease_given = refl;
    progress = h.progress;
    positive = h.positive;
    probe_facts = h.probe_facts;
    completion = due_incomplete t now h due;
    all_processed = λ k. cc;
    attempted = omega arith;
  }

  write_each-IsSoundTask :
      (edit : QcTask → QcTask) (ts tasks : List QcTask)
      → All (λ t. IsSoundTask (edit t)) ts
      → All IsSoundTask tasks
      → All IsSoundTask (write_each edit ts tasks)
  write_each-IsSoundTask edit [] tasks h k = k
  write_each-IsSoundTask edit (t ∷ ts) tasks h k =
      write_each-IsSoundTask edit ts (write_task (edit t) tasks) h.1
        (All-write_at (λ u. u.id) IsSoundTask (edit t) tasks h.0 k)

  -- The rows that pass a test, with a property.
  pub All-filter_test :
      (P Q : QcTask → Type 0) (p : QcTask → Bool)
      → ((t : QcTask) → P t → p t ≡ true → Q t)
      → (ts : List QcTask) → All P ts
      → All Q (filter p ts)
  All-filter_test P Q p f [] h = tt
  All-filter_test P Q p f (t ∷ ts) h = elim (Bool-cases (p t)) [
    | inl e ↦ rw e (f t h.0 e, All-filter_test P Q p f ts h.1)
    | inr e ↦ rw e (All-filter_test P Q p f ts h.1)
  ]

  pub reconcile-IsSoundTask :
      (now batch_size : ℕ) (tasks : List QcTask)
      → 1 ≤ max_attempts
      → 1 ≤ batch_size
      → All IsSoundTask tasks
      → Returns
          (λ r. All IsSoundTask r.1)
          (reconcile_expired_technical_qc_tasks now max_attempts batch_size tasks)
  unfolding reconcile_expired_technical_qc_tasks
  reconcile-IsSoundTask now batch_size tasks a b h =
      let bounded : (ltb max_attempts 1 || ltb batch_size 1) ≡ false = ground arith in
      Returns-bind (λ u. Unit {0}) (λ r. All IsSoundTask r.1)
        (raise_if (ltb max_attempts 1 || ltb batch_size 1) value_error) _ (rw bounded tt)
        λ u e.
          write_each-IsSoundTask (reconciled_task max_attempts now)
            (expired_tasks now batch_size tasks) tasks
            (All-take Reconciles batch_size _ (
              All-sort_by Reconciles _ _ (
                All-filter_test IsSoundTask Reconciles _
                  (λ t k r. reconciled-IsSoundTask now t k (ground arith)) tasks h)))
            h
    where
      Reconciles : QcTask → Type 0
      Reconciles t = IsSoundTask (reconciled_task max_attempts now t)

  pub All-candidates_of :
      (P : QcTask → Type 0) (s : QcTables) (claimable : List QcTask) (limit per_project : ℕ)
      (projects : List ℕ) (rows : List QcTask)
      → All P claimable
      → All P rows
      → All P (candidates_of s claimable limit per_project projects rows)
  All-candidates_of P s claimable limit per_project [] rows h k = k
  All-candidates_of P s claimable limit per_project (p ∷ ps) rows h k =
      elim (Bool-cases (leb limit (length rows))) [
        | inl full ↦ rw full k
        | inr free ↦ rw free (
            All-candidates_of P s claimable limit per_project ps _ h (
              All-append P rows _ k
                (All-take P _ _ (All-sort_by P _ _ (All-filter P _ claimable h)))))
      ]

  pub claim_candidates-Claimable :
      (s : QcTables) (now limit per_project : ℕ) (tasks : List QcTask)
      → All IsSoundTask tasks
      → All (Claimable now) (claim_candidates s now max_attempts limit per_project tasks)
  unfolding claim_candidates
  claim_candidates-Claimable s now limit per_project tasks h =
      All-candidates_of (Claimable now) s _ limit per_project _ []
        (All-filter_test IsSoundTask (Claimable now) (is_claimable s now max_attempts)
          (λ t k e. (k, ground arith, ground arith)) tasks h)
        tt
