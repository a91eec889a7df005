-- ===== src/Review/Workflow/Agreement/Histories.antt =====
-- Commands and histories, against approved items and standing finalizations.
use video_review.Base.{
  Ensures-ok, ℕ, ◌≡◌, refl, Bool, true, false, Option, none, some, ◌==◌, inl, inr, Result, ok, err,
  Ensures, Bool-cases, eq_of_test, arith,
}
use video_review.Review.Store.{Item, Store, Env}
use video_review.Review.Guards.{is_finalized}
use video_review.Review.Execute.{Command, execute}
use video_review.Review.Workflow.{
  Act, working, approving, revoking, Step, kept, created, edited, approved, reopened, Steps,
  no_more, more, Moves, is_working, same_row, no_row, other_row,
}
use video_review.Review.Workflow.Commands.{act_of, execute-Moves}
use video_review.Review.History.{IsFresh, History, start, next}
use video_review.Review.Workflow.Agreement.{IsAgreed, persists}
use video_review.Review.Workflow.Agreement.Writes.{
  other_finalization, written_row, open_write-IsAgreed, approved-IsAgreed, revoked-IsAgreed,
}

-- The identifiers of new finalizations, for the items that are open.
record AreFree (env : Env) (s : Store) : Type 0 where
  free :
      (k : ℕ) (item : Item)
      → s.items k ≡ some item
      → is_finalized item.workflow_status ≡ false
      → s.finalizations (env.new_finalization_id k) ≡ none
  distinct : (j k : ℕ) → env.new_finalization_id j ≡ env.new_finalization_id k → j ≡ k

abbrev is_approving : Act → Bool
is_approving working = false
is_approving approving = true
is_approving revoking = false

kept-IsAgreed :
    (s t : Store) → t.items ≡ s.items → t.finalizations ≡ s.finalizations → IsAgreed s → IsAgreed t
kept-IsAgreed s t items fs h = record {
  versioned = λ k item row. h.versioned k item (rw items at row);
  open_item = λ k item row still. h.open_item k item (rw items at row) still;
  of_item = λ k item row done.
      let (id, f, b) = h.of_item k item (rw items at row) done in
      (id, f, persists s t id k item f (rw items refl) (rw fs refl) b);
  of_finalization = λ id f row stands.
      let (k, item, b) = h.of_finalization id f (rw fs at row) stands in
      (k, item, persists s t id k item f (rw items refl) (rw fs refl) b);
}

step-IsAgreed :
    (env : Env) (act : Act) (s t : Store)
    → (is_working act ≡ true → s.items env.new_item_id ≡ none)
    → (is_approving act ≡ true → AreFree env s)
    → IsAgreed s
    → Step env s t act
    → IsAgreed t
step-IsAgreed env act s t free ids h (kept items fs) = kept-IsAgreed s t items fs h
step-IsAgreed env act s t free ids h (created new is_open no_f has_version items fs) =
    open_write-IsAgreed s t env.new_item_id new
      (λ item row.
        absurd (no_row s.items env.new_item_id env.new_item_id item (free refl) row (ground arith)))
      is_open no_f has_version items fs h
step-IsAgreed env act s t free ids h (edited key old new at edit items fs) =
    open_write-IsAgreed s t key new
      (λ item row. ground (arith, same_row s.items key key old item at row, edit.was_open))
      edit.still_open (rw edit.same_finalization (h.open_item key old at edit.was_open))
      (edit.versioned (h.versioned key old at)) items fs h
step-IsAgreed env act s t free ids h (approved key old new f at approval items fs) =
    approved-IsAgreed s t (env.new_finalization_id key) key old new f at
      ((ids refl).free key old at approval.was_open) approval items fs h
step-IsAgreed env act s t free ids h (reopened key old new f g at has end items fs) =
    revoked-IsAgreed s t key old new f g at end items fs h

-- After an approval, the identifiers of the other open items are still free.
step-AreFree : (env : Env) (s t : Store) → AreFree env s → Step env s t approving → AreFree env t
step-AreFree env s t h (kept items fs) = record {
  free = λ k item row is_open. rw fs (h.free k item (rw items at row) is_open);
  distinct = h.distinct;
}
step-AreFree env s t h (approved key old new f at approval items fs) = record {
  free = λ k item row is_open. elim (Bool-cases (key == k)) [
    | inl e ↦ ground (arith, written_row s t key k new item items e row, approval.approved)
    | inr e ↦
        rw
          (other_finalization s t (env.new_finalization_id key) (env.new_finalization_id k) f fs
            (different k e))
          (h.free k item (rw (other_row s t key k new items e) at row) is_open)
  ];
  distinct = h.distinct;
}
  where
    different :
        (k : ℕ)
        → (key == k) ≡ false
        → (env.new_finalization_id key == env.new_finalization_id k) ≡ false
    different k e = elim (Bool-cases (env.new_finalization_id key == env.new_finalization_id k)) [
      | inl same ↦ ground (arith, h.distinct key k (eq_of_test _ _ same))
      | inr other ↦ other
    ]

approvals-IsAgreed :
    (env : Env) (s t : Store) → AreFree env s → IsAgreed s → Steps env approving s t → IsAgreed t
approvals-IsAgreed env s t ids h no_more = h
approvals-IsAgreed env s t ids h (more {t = mid} a rest) =
    approvals-IsAgreed env mid t (step-AreFree env s mid ids a)
      (step-IsAgreed env approving s mid (λ w. ground arith) (λ w. ids) h a) rest

revocations-IsAgreed : (env : Env) (s t : Store) → IsAgreed s → Steps env revoking s t → IsAgreed t
revocations-IsAgreed env s t h no_more = h
revocations-IsAgreed env s t h (more {t = mid} a rest) =
    revocations-IsAgreed env mid t
      (step-IsAgreed env revoking s mid (λ w. ground arith) (λ w. ground arith) h a) rest

Moves-IsAgreed :
    (env : Env) (act : Act) (s t : Store)
    → IsFresh env s
    → IsAgreed s
    → Moves env s act t
    → IsAgreed t
Moves-IsAgreed env working s t fresh h m =
    step-IsAgreed env working s t (λ w. fresh.item) (λ w. ground arith) h m
Moves-IsAgreed env approving s t fresh h m =
    approvals-IsAgreed env s t (record { free = fresh.finalizations; distinct = fresh.distinct }) h
      m
Moves-IsAgreed env revoking s t fresh h m = revocations-IsAgreed env s t h m

execute-IsAgreed :
    (env : Env) (s : Store) (c : Command) (v : Option ℕ)
    → IsFresh env s
    → IsAgreed s
    → Ensures IsAgreed (execute env s c v)
execute-IsAgreed env s c v fresh h = go (execute env s c v) (execute-Moves env s c v)
  where
    go : (r : Result Store) → Ensures (Moves env s (act_of c)) r → Ensures IsAgreed r
    go (ok t) m = Moves-IsAgreed env (act_of c) s t fresh h m
    go (err code) m = tt

-- If every item has a current version, every open item names no finalization, every finalized item
-- names a standing finalization of its current version, and every standing finalization is named
-- so, then all this holds after every history of successful commands with unused identifiers.
pub History-IsAgreed : (s t : Store) → History s t → IsAgreed s → IsAgreed t
History-IsAgreed s t start h = h
History-IsAgreed s t (next {t = before} env c v past fresh e) h =
    Ensures-ok IsAgreed (execute env before c v)
      (execute-IsAgreed env before c v fresh (History-IsAgreed s before past h)) e
