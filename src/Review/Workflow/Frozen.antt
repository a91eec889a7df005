-- ===== src/Review/Workflow/Frozen.antt =====
-- The rows of approved items under the commands of infra/repositories.py.
use video_review.Base.{
  ℕ, ◌≡◌, refl, Bool, true, false, Option, none, some, ◌==◌, inl, inr, Result, ok, err, Ensures,
  Bool-cases, arith,
}
use video_review.Review.Store.{Item, Store, Env}
use video_review.Review.Guards.{put, is_finalized}
use video_review.Review.Execute.{Command, execute}
use video_review.Review.Workflow.{
  Act, working, approving, revoking, Step, kept, created, edited, approved, reopened, Steps,
  no_more, more, Moves, is_working, same_row, no_row, other_row,
}
use video_review.Review.Workflow.Commands.{act_of, execute-Moves}

-- A row written over an open one is not the approved one.
open_row-other :
    (s t : Store) (key k : ℕ) (old new item : Item)
    → s.items key ≡ some old
    → is_finalized old.workflow_status ≡ false
    → t.items ≡ put key new s.items
    → s.items k ≡ some item
    → is_finalized item.workflow_status ≡ true
    → t.items k ≡ some item
open_row-other s t key k old new item at was_open items row done = elim (Bool-cases (key == k)) [
  | inl e ↦ ground (arith, same_row s.items key k old item at row e)
  | inr e ↦ rw (other_row s t key k new items e) row
]

abbrev pub is_revoking : Act → Bool
is_revoking working = false
is_revoking approving = false
is_revoking revoking = true

Step-frozen :
    (env : Env) (act : Act) (s t : Store) (k : ℕ) (item : Item)
    → (is_working act ≡ true → s.items env.new_item_id ≡ none)
    → is_revoking act ≡ false
    → s.items k ≡ some item
    → is_finalized item.workflow_status ≡ true
    → Step env s t act
    → t.items k ≡ some item
Step-frozen env act s t k item free stays row done (kept items f) = rw items row
Step-frozen env act s t k item free stays row done
      (created new open_item none_yet versioned items f) =
    elim (Bool-cases (env.new_item_id == k)) [
      | inl e ↦ absurd (no_row s.items env.new_item_id k item (free refl) row e)
      | inr e ↦ rw (other_row s t _ k new items e) row
    ]
Step-frozen env act s t k item free stays row done (edited key old new at edit items f) =
    open_row-other s t key k old new item at edit.was_open items row done
Step-frozen env act s t k item free stays row done (approved key old new f at approval items g) =
    open_row-other s t key k old new item at approval.was_open items row done
Step-frozen env act s t k item free stays row done (reopened key old new f g at has end items h) =
    ground (arith, stays)

pub Steps-frozen :
    (env : Env) (act : Act) (s t : Store) (k : ℕ) (item : Item)
    → is_working act ≡ false
    → is_revoking act ≡ false
    → s.items k ≡ some item
    → is_finalized item.workflow_status ≡ true
    → Steps env act s t
    → t.items k ≡ some item
Steps-frozen env act s t k item other stays row done no_more = row
Steps-frozen env act s t k item other stays row done (more {t = mid} a rest) =
    Steps-frozen env act mid t k item other stays
      (Step-frozen env act s mid k item (λ w. ground arith) stays row done a) done rest

Moves-frozen :
    (env : Env) (act : Act) (s t : Store) (k : ℕ) (item : Item)
    → s.items env.new_item_id ≡ none
    → is_revoking act ≡ false
    → s.items k ≡ some item
    → is_finalized item.workflow_status ≡ true
    → Moves env s act t
    → t.items k ≡ some item
Moves-frozen env working s t k item free stays row done m =
    Step-frozen env working s t k item (λ w. free) stays row done m
Moves-frozen env approving s t k item free stays row done m =
    Steps-frozen env approving s t k item refl stays row done m
Moves-frozen env revoking s t k item free stays row done m = ground (arith, stays)

-- A successful command that is no revocation leaves the row of every finalized item exactly as it
-- was, if the identifier for a new item is not in use.
pub execute_frozen :
    (env : Env) (s : Store) (c : Command) (v : Option ℕ) (k : ℕ) (item : Item)
    → s.items env.new_item_id ≡ none
    → is_revoking (act_of c) ≡ false
    → s.items k ≡ some item
    → is_finalized item.workflow_status ≡ true
    → Ensures (λ t. t.items k ≡ some item) (execute env s c v)
execute_frozen env s c v k item free stays row done =
    go (execute env s c v) (execute-Moves env s c v)
  where
    go :
        (r : Result Store)
        → Ensures (Moves env s (act_of c)) r
        → Ensures (λ t. t.items k ≡ some item) r
    go (ok t) m = Moves-frozen env (act_of c) s t k item free stays row done m
    go (err code) m = tt
