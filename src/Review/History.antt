-- ===== src/Review/History.antt =====
-- Histories of commands. A command that fails is rolled back by its caller, so that a history has
-- the successful ones; the identifiers that a command takes for new rows are not in use.
use video_review.Base.{ℕ, ◌≡◌, ◌≢◌, false, Option, none, some, ok, All}
use video_review.Review.Store.{Item, Store, Env}
use video_review.Review.Guards.{is_finalized}
use video_review.Review.Execute.{Command, execute}

-- What a command may rely on of the identifiers in its environment.
pub record IsFresh (env : Env) (s : Store) : Type 0 where
  pub version : All (λ i. i.version_id ≢ env.new_version_id) s.issues
  pub item : s.items env.new_item_id ≡ none
  pub finalizations :
      (k : ℕ) (item : Item)
      → s.items k ≡ some item
      → is_finalized item.workflow_status ≡ false
      → s.finalizations (env.new_finalization_id k) ≡ none
  pub distinct : (j k : ℕ) → env.new_finalization_id j ≡ env.new_finalization_id k → j ≡ k

pub data History (s : Store) : Store → Type 0 where
  start : History s s
  next :
      {t u : Store} (env : Env) (c : Command) (v : Option ℕ)
      → History s t
      → IsFresh env t
      → execute env t c v ≡ ok u
      → History s u
