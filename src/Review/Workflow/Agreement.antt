-- ===== src/Review/Workflow/Agreement.antt =====
-- Approved items against standing finalizations: what `_locked_project_finalization_authority` of
-- infra/repositories.py checks before a project is finalized or revoked, for the whole store.
pub mod Writes
pub mod Histories
pub mod Authority
pub mod Revocable
use video_review.Base.{
  ℕ, ◌+◌, ◌≡◌, ◌≢◌, refl, sym, Bool, true, false, Option, none, some, is_some, ◌==◌, inl, inr,
  Result, ok, err, Ensures, Bool-cases, some_eq, eq_of_test, arith,
}
use video_review.Review.Store.{Item, Finalization, standing, revoked, Store, Env}
use video_review.Review.Guards.{or_empty, put, is_finalized}
use video_review.Review.Execute.{Command, execute}
use video_review.Review.Workflow.{
  Act, working, approving, revoking, Step, kept, created, edited, approved, reopened, IsApproval,
  IsRevocation, Steps, no_more, more, Moves, is_working, same_row, no_row, other_row, new_row,
}
use video_review.Review.Workflow.Commands.{act_of, execute-Moves}

-- The finalization `id` approves the current version of the item `k`.
pub record IsBound (s : Store) (id k : ℕ) (item : Item) (f : Finalization) : Type 0 where
  pub row : s.items k ≡ some item
  pub finalization : s.finalizations id ≡ some f
  pub is_done : is_finalized item.workflow_status ≡ true
  pub stands : f.status ≡ standing
  pub names : item.active_finalization_id ≡ some id
  pub of_item : f.review_item_id ≡ k
  pub of_project : f.project_ref_id ≡ item.project_ref_id
  pub of_version : item.current_version_id ≡ some f.version_id

pub record IsAgreed (s : Store) : Type 0 where
  pub versioned :
      (k : ℕ) (item : Item) → s.items k ≡ some item → is_some item.current_version_id ≡ true
  pub open_item :
      (k : ℕ) (item : Item)
      → s.items k ≡ some item
      → is_finalized item.workflow_status ≡ false
      → item.active_finalization_id ≡ none
  pub of_item :
      (k : ℕ) (item : Item)
      → s.items k ≡ some item
      → is_finalized item.workflow_status ≡ true
      → (id : ℕ) × (f : Finalization) × IsBound s id k item f
  pub of_finalization :
      (id : ℕ) (f : Finalization)
      → s.finalizations id ≡ some f
      → f.status ≡ standing
      → (k : ℕ) × (item : Item) × IsBound s id k item f

pub persists :
    (s t : Store) (id k : ℕ) (item : Item) (f : Finalization)
    → t.items k ≡ s.items k
    → t.finalizations id ≡ s.finalizations id
    → IsBound s id k item f
    → IsBound t id k item f
persists s t id k item f same_item same_f b = record {
  row = rw same_item b.row;
  finalization = rw same_f b.finalization;
  is_done = b.is_done;
  stands = b.stands;
  names = b.names;
  of_item = b.of_item;
  of_project = b.of_project;
  of_version = b.of_version;
}
