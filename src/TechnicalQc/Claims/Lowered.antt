-- ===== src/TechnicalQc/Claims/Lowered.antt =====
-- What `reconcile_expired_technical_qc_tasks` of technical_qc.py leaves of the running tasks.
use video_review.Base.{
  ℕ, ◌≤◌, ◌≡◌, refl, Bool, false, ◌&&◌, List, [], ◌∷◌, leb, arith, Bool-cases, inl, inr, HasKeys,
  HasKeys-write_at, write_at-no_more,
}
use video_review.TechnicalQc.Tasks.{QcTask, is_running, write_task}
use video_review.TechnicalQc.Claims.{reconciled_task, write_each}
use video_review.TechnicalQc.Claims.Counts.{running_where}

pub reconciled-idle :
    (max_attempts now : ℕ) (t : QcTask)
    → is_running (reconciled_task max_attempts now t).status ≡ false
reconciled-idle max_attempts now t = elim (Bool-cases (leb max_attempts t.attempts)) [
  | inl e ↦ rw e refl
  | inr e ↦ rw e refl
]

module _ (edit : QcTask → QcTask) where
  pub write_each-HasKeys :
      (ts tasks : List QcTask)
      → HasKeys (λ t. t.id) tasks
      → HasKeys (λ t. t.id) (write_each edit ts tasks)
  write_each-HasKeys [] tasks h = h
  write_each-HasKeys (t ∷ ts) tasks h =
      write_each-HasKeys ts (write_task (edit t) tasks)
        (HasKeys-write_at (λ u. u.id) tasks (edit t) h)

  pub write_each-no_more :
      (q : QcTask → Bool) (ts tasks : List QcTask)
      → ((t : QcTask) → is_running (edit t).status ≡ false)
      → running_where q (write_each edit ts tasks) ≤ running_where q tasks
  write_each-no_more q [] tasks h = omega arith
  write_each-no_more q (t ∷ ts) tasks h =
      let idle : (is_running (edit t).status && q (edit t)) ≡ false = rw (h t) refl in
      omega (
        arith,
        write_each-no_more q ts (write_task (edit t) tasks) h,
        write_at-no_more (λ u. u.id) (λ u. is_running u.status && q u) tasks (edit t) idle,
      )
