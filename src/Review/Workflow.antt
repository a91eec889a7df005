-- ===== src/Review/Workflow.antt =====
-- The life of an item, apart from the commands of infra/repositories.py: it is created, edited
-- while it is open, approved by a finalization, and reopened by the revocation of that
-- finalization.
pub mod Issues
pub mod Items
pub mod Finalize
pub mod Revoke
pub mod Commands
pub mod Frozen
pub mod Locks
pub mod Agreement
pub mod Complete
use video_review.Base.{
  ℕ, ◌+◌, ◌≡◌, true, false, Option, none, some, is_some, Result, err, Ensures, raise_if, ok, Code,
  Bool, arith, ◌==◌, some_eq, eq_of_test, refl,
}
use video_review.Review.Store.{
  pending_review, in_review, finalized, standing, revoked, Item, Finalization, Store, Env,
}
use video_review.Review.Guards.{or_empty, is_finalized, put}

pub data Act : Type 0 where
  working approving revoking : Act

-- A change of an open item.
pub record IsEdit (old new : Item) : Type 0 where
  pub was_open : is_finalized old.workflow_status ≡ false
  pub still_open : is_finalized new.workflow_status ≡ false
  pub same_project : new.project_ref_id ≡ old.project_ref_id
  pub same_finalization : new.active_finalization_id ≡ old.active_finalization_id
  pub versioned : is_some old.current_version_id ≡ true → is_some new.current_version_id ≡ true
  pub lock : new.lock_version ≡ old.lock_version + 1

-- The finalization `id` of the current version of the item `key`.
pub record IsApproval (key id : ℕ) (old new : Item) (f : Finalization) : Type 0 where
  pub was_open : is_finalized old.workflow_status ≡ false
  pub approved : new.workflow_status ≡ finalized
  pub same_project : new.project_ref_id ≡ old.project_ref_id
  pub same_version : new.current_version_id ≡ old.current_version_id
  pub finalization : new.active_finalization_id ≡ some id
  pub lock : new.lock_version ≡ old.lock_version + 1
  pub stands : f.status ≡ standing
  pub of_item : f.review_item_id ≡ key
  pub of_project : f.project_ref_id ≡ old.project_ref_id
  pub of_version : f.version_id ≡ or_empty old.current_version_id

-- The item is open again, its finalization `f` is revoked as `g`.
pub record IsRevocation (old new : Item) (f g : Finalization) : Type 0 where
  pub was_approved : is_finalized old.workflow_status ≡ true
  pub reopened : new.workflow_status ≡ in_review
  pub same_project : new.project_ref_id ≡ old.project_ref_id
  pub same_version : new.current_version_id ≡ old.current_version_id
  pub no_finalization : new.active_finalization_id ≡ none
  pub lock : new.lock_version ≡ old.lock_version + 1
  pub ended : g.status ≡ revoked

pub data Step (env : Env) (s t : Store) : Act → Type 0 where
  kept : {act : Act} → t.items ≡ s.items → t.finalizations ≡ s.finalizations → Step env s t act
  created :
      (new : Item)
      → is_finalized new.workflow_status ≡ false
      → new.active_finalization_id ≡ none
      → is_some new.current_version_id ≡ true
      → t.items ≡ put env.new_item_id new s.items
      → t.finalizations ≡ s.finalizations
      → Step env s t working
  edited :
      (key : ℕ) (old new : Item)
      → s.items key ≡ some old
      → IsEdit old new
      → t.items ≡ put key new s.items
      → t.finalizations ≡ s.finalizations
      → Step env s t working
  approved :
      (key : ℕ) (old new : Item) (f : Finalization)
      → s.items key ≡ some old
      → IsApproval key (env.new_finalization_id key) old new f
      → t.items ≡ put key new s.items
      → t.finalizations ≡ put (env.new_finalization_id key) f s.finalizations
      → Step env s t approving
  reopened :
      (key : ℕ) (old new : Item) (f g : Finalization)
      → s.items key ≡ some old
      → s.finalizations (or_empty old.active_finalization_id) ≡ some f
      → IsRevocation old new f g
      → t.items ≡ put key new s.items
      → t.finalizations ≡ put (or_empty old.active_finalization_id) g s.finalizations
      → Step env s t revoking

-- Steps of one kind, one after another.
pub data Steps (env : Env) (act : Act) : Store → Store → Type 0 where
  no_more : {s : Store} → Steps env act s s
  more : {s t u : Store} → Step env s t act → Steps env act t u → Steps env act s u

-- What a command of this kind takes: one step, or several.
abbrev pub Moves : Env → Store → Act → Store → Type 0
Moves env s working t = Step env s t working
Moves env s approving t = Steps env approving s t
Moves env s revoking t = Steps env revoking s t

pub single :
    (env : Env) (act : Act) (s : Store) (r : Result Store)
    → Ensures (λ t. Step env s t act) r
    → Ensures (Steps env act s) r
single env act s (ok t) k = more k no_more
single env act s (err code) k = tt

-- A step says nothing of the other tables.
pub same_rows :
    (env : Env) (act : Act) (s t u : Store)
    → u.items ≡ t.items
    → u.finalizations ≡ t.finalizations
    → Step env s t act
    → Step env s u act
same_rows env act s t u i f (kept a b) = kept (rw i a) (rw f b)
same_rows env act s t u i f (created new x y z a b) = created new x y z (rw i a) (rw f b)
same_rows env act s t u i f (edited key old new x y a b) = edited key old new x y (rw i a) (rw f b)
same_rows env act s t u i f (approved key old new g x y a b) =
    approved key old new g x y (rw i a) (rw f b)
same_rows env act s t u i f (reopened key old new g h x y z a b) =
    reopened key old new g h x y z (rw i a) (rw f b)

raise_if-passes : (b : Bool) (code : Code) → raise_if b code ≡ ok tt → b ≡ false
raise_if-passes b code h = ground arith

abbrev pub is_working : Act → Bool
is_working working = true
is_working approving = false
is_working revoking = false

-- Rows of one table at one key.
pub same_row :
    (table : ℕ → Option Item) (key k : ℕ) (a b : Item)
    → table key ≡ some a
    → table k ≡ some b
    → (key == k) ≡ true
    → a ≡ b
same_row table key k a b ha hb e = some_eq (rw (← ha, eq_of_test key k e) hb)

pub no_row :
    (table : ℕ → Option Item) (key k : ℕ) (b : Item)
    → table key ≡ none
    → table k ≡ some b
    → (key == k) ≡ true
    → ⊥
no_row table key k b free hb e =
    let here : none ≡ some b = rw (← free, eq_of_test key k e) hb in ground (arith, here)

-- The row of another key stays, and a row that was not there is no row of before.
pub other_row :
    (s t : Store) (key k : ℕ) (new : Item)
    → t.items ≡ put key new s.items
    → (key == k) ≡ false
    → t.items k ≡ s.items k
other_row s t key k new items e = rw (items, e) refl

pub new_row :
    (s t : Store) (key k : ℕ) (new : Item)
    → t.items ≡ put key new s.items
    → (key == k) ≡ true
    → t.items k ≡ some new
new_row s t key k new items e = rw (items, e) refl
