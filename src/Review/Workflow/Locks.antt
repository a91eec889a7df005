-- ===== src/Review/Workflow/Locks.antt =====
-- The lock version of an item against its row: what an optimistic client relies on.
use video_review.Base.{
  ℕ, ◌+◌, ◌<◌, ◌≡◌, ◌⊎◌, inl, inr, refl, true, false, Option, none, some, ◌==◌, Result, ok, err,
  Ensures, Bool-cases, arith,
}
use video_review.Review.Store.{Item, Store, Env}
use video_review.Review.Guards.{put}
use video_review.Review.Execute.{Command, execute}
use video_review.Review.Workflow.{
  Act, working, approving, revoking, Step, kept, created, edited, approved, reopened, Steps,
  no_more, more, Moves, is_working, same_row, no_row, other_row, new_row,
}
use video_review.Review.Workflow.Commands.{act_of, execute-Moves}

-- The same row, or one with a larger lock version.
abbrev Later : Item → Item → Type 0
Later old new = (old.lock_version < new.lock_version) ⊎ (new ≡ old)

Later-then : (a b c : Item) → Later a b → Later b c → Later a c
Later-then a b c (inl h) (inl k) = inl (omega arith)
Later-then a b c (inl h) (inr k) = inl (rw k h)
Later-then a b c (inr h) k = rw (← h) k

-- The row of the item `k` in `t` is `old` or a later one.
abbrev pub Continues : ℕ → Item → Store → Type 0
Continues k old t = (new : Item) × (t.items k ≡ some new) × Later old new

written-Continues :
    (s t : Store) (key k : ℕ) (old new item : Item)
    → s.items key ≡ some old
    → new.lock_version ≡ old.lock_version + 1
    → t.items ≡ put key new s.items
    → s.items k ≡ some item
    → Continues k item t
written-Continues s t key k old new item at lock items row = elim (Bool-cases (key == k)) [
  | inl e ↦ (
    new,
    new_row s t key k new items e,
    inl (rw (← same_row s.items key k old item at row e) (omega (arith, lock))),
  )
  | inr e ↦ (item, rw (other_row s t key k new items e) row, inr refl)
]

step-Continues :
    (env : Env) (act : Act) (s t : Store) (k : ℕ) (item : Item)
    → (is_working act ≡ true → s.items env.new_item_id ≡ none)
    → s.items k ≡ some item
    → Step env s t act
    → Continues k item t
step-Continues env act s t k item free row (kept items f) = (item, rw items row, inr refl)
step-Continues env act s t k item free row
      (created new open_item no_finalization versioned items f) =
    elim (Bool-cases (env.new_item_id == k)) [
      | inl e ↦ absurd (no_row s.items env.new_item_id k item (free refl) row e)
      | inr e ↦ (item, rw (other_row s t _ k new items e) row, inr refl)
    ]
step-Continues env act s t k item free row (edited key old new at edit items f) =
    written-Continues s t key k old new item at edit.lock items row
step-Continues env act s t k item free row (approved key old new f at approval items g) =
    written-Continues s t key k old new item at approval.lock items row
step-Continues env act s t k item free row (reopened key old new f g at has end items h) =
    written-Continues s t key k old new item at end.lock items row

Steps-Continues :
    (env : Env) (act : Act) (s t : Store) (k : ℕ) (item : Item)
    → is_working act ≡ false
    → s.items k ≡ some item
    → Steps env act s t
    → Continues k item t
Steps-Continues env act s t k item other row no_more = (item, row, inr refl)
Steps-Continues env act s t k item other row (more {t = mid} a rest) =
    let (next, at, later) = step-Continues env act s mid k item (λ w. ground arith) row a in
    let (last, at_last, later_last) = Steps-Continues env act mid t k next other at rest in
    (last, at_last, Later-then item next last later later_last)

Moves-Continues :
    (env : Env) (act : Act) (s t : Store) (k : ℕ) (item : Item)
    → s.items env.new_item_id ≡ none
    → s.items k ≡ some item
    → Moves env s act t
    → Continues k item t
Moves-Continues env working s t k item free row m =
    step-Continues env working s t k item (λ w. free) row m
Moves-Continues env approving s t k item free row m =
    Steps-Continues env approving s t k item refl row m
Moves-Continues env revoking s t k item free row m =
    Steps-Continues env revoking s t k item refl row m

-- After a command that succeeds and is not a deletion of a project or of items, a rerun of the
-- technical check, a cleanup of a finalization or a preparation of a package, every item that was
-- there is still there, with the same row or with a larger lock version, if the identifier for a
-- new item is not in use.
pub execute-Continues :
    (env : Env) (s : Store) (c : Command) (v : Option ℕ) (k : ℕ) (item : Item)
    → s.items env.new_item_id ≡ none
    → s.items k ≡ some item
    → Ensures (Continues k item) (execute env s c v)
execute-Continues env s c v k item free row = go (execute env s c v) (execute-Moves env s c v)
  where
    go : (r : Result Store) → Ensures (Moves env s (act_of c)) r → Ensures (Continues k item) r
    go (ok t) m = Moves-Continues env (act_of c) s t k item free row m
    go (err code) m = tt
