-- ===== src/Review/Workflow/Revoke.antt =====
-- The steps of items under `revoke_finalization` and `revoke_project_finalization`.
use video_review.Base.{
  ◌≡◌, refl, arith, true, ◌&&◌, List, [], ◌∷◌, none, some, ok, ◌||◌, resource_state_conflict,
  key_error, ℕ, refl, Bool, true, not, ◌&&◌, ◌||◌, Option, none, some, List, [], ◌∷◌, ◌==◌,
  raise_if, Ensures, Ensures-bind, Ensures-then, Ensures-if, resource_state_conflict,
  validation_error, key_error,
}
use video_review.Review.Store.{Workflow, Item, Store, Env, Finalization}
use video_review.Review.Guards.{
  or_empty, truthy, found, is_finalized, add_event, get_project, get_item, assert_project_active,
  expect_lock,
}
use video_review.Review.Finalize.{has_target, touch_project, locked_project_finalization_authority}
use video_review.Review.Revoke.{
  revoke_locked_finalization, standing_of, revoke_finalization, revoke_target, revoke_targets,
  revoke_project_finalization,
}
use video_review.Review.Facts.{get_item-row}
use video_review.Review.Workflow.{Step, Steps, no_more, more, revoking, reopened}
use video_review.Review.Workflow.Finalize.{touched, weaken}

revoke_locked_finalization-Step :
    (env : Env) (s : Store) (project key : ℕ) (item : Item) (f : Finalization)
    → s.items key ≡ some item
    → is_finalized item.workflow_status ≡ true
    → s.finalizations (or_empty item.active_finalization_id) ≡ some f
    → Step env s
        (revoke_locked_finalization env s project key item (or_empty item.active_finalization_id) f)
        revoking
unfolding revoke_locked_finalization add_event
revoke_locked_finalization-Step env s project key item f row done has =
    reopened key item _ f _ row has
      (record {
        was_approved = done;
        reopened = refl;
        same_project = refl;
        same_version = refl;
        no_finalization = refl;
        lock = refl;
        ended = refl;
      })
      refl refl

standing_of-row :
    (project key : ℕ) (o : Option Finalization) {f : Finalization}
    → found resource_state_conflict (standing_of project key o) ≡ ok f
    → o ≡ some f
unfolding standing_of
standing_of-row project key o h = ground arith

is_finalized-passes :
    (w : Workflow) (x : Bool)
    → raise_if (not (is_finalized w) || x) resource_state_conflict ≡ ok tt
    → is_finalized w ≡ true
is_finalized-passes w x h = ground arith

pub revoke_finalization-Steps :
    (env : Env) (s : Store) (confirmed : Bool) (project key : ℕ) (v : Option ℕ)
    → Ensures (λ t. Step env s t revoking) (revoke_finalization env s confirmed project key v)
unfolding revoke_finalization
revoke_finalization-Steps env s confirmed project key v =
    Ensures-bind P (raise_if (not confirmed) validation_error) _ λ u sure.
      Ensures-bind P (get_project s project) _ λ p read.
        Ensures-bind P (assert_project_active p) _ λ u active.
          Ensures-bind P (get_item s project key) _ λ item item_read.
            Ensures-bind P (expect_lock item.lock_version v) _ λ u lock.
              Ensures-bind P
                (raise_if
                  (not (is_finalized item.workflow_status)
                    || not (truthy item.active_finalization_id))
                  resource_state_conflict)
                _
                λ u done.
                  Ensures-bind P
                    (found resource_state_conflict (
                      standing_of project key
                        (s.finalizations (or_empty item.active_finalization_id))))
                    _
                    λ f stands.
                      revoke_locked_finalization-Step env s project key item f
                        (get_item-row s project key item_read).0
                        (is_finalized-passes item.workflow_status _ done)
                        (standing_of-row project key _ stands)
  where
    P : Store → Type 0
    P t = Step env s t revoking

found-row : (o : Option Finalization) {f : Finalization} → found key_error o ≡ ok f → o ≡ some f
found-row o h = ground arith

both : (a x : Bool) → (a && x) ≡ true → x ≡ true
both a x h = ground arith

revoke_target-Steps :
    (env : Env) (s : Store) (project key : ℕ) (row : Option Item)
    → s.items key ≡ row
    → Ensures (Steps env revoking s) (revoke_target env s project key row)
unfolding revoke_target
revoke_target-Steps env s project key none e = no_more
revoke_target-Steps env s project key (some item) e =
    Ensures-if P (item.project_ref_id == project && is_finalized item.workflow_status) _ _
      (λ h.
        Ensures-bind P (found key_error (s.finalizations (or_empty item.active_finalization_id))) _
          λ f has.
            more
              (revoke_locked_finalization-Step env s project key item f e (both _ _ h)
                (found-row _ has))
              no_more)
      (λ h. no_more)
  where
    P : Store → Type 0
    P = Steps env revoking s

revoke_targets-Steps :
    (env : Env) (project : ℕ) (keys : List ℕ) (s : Store)
    → Ensures (Steps env revoking s) (revoke_targets env project keys s)
unfolding revoke_targets
revoke_targets-Steps env project [] s = no_more
revoke_targets-Steps env project (k ∷ ks) s =
    Ensures-then (Steps env revoking s) (Steps env revoking s)
      (revoke_target env s project k (s.items k)) (revoke_targets env project ks)
      (revoke_target-Steps env s project k (s.items k) refl)
      λ t past.
        weaken env revoking s t (revoke_targets env project ks t) past
          (revoke_targets-Steps env project ks t)

pub revoke_project_finalization-Steps :
    (env : Env) (s : Store) (confirmed : Bool) (project : ℕ) (v : Option ℕ)
    → Ensures (Steps env revoking s) (revoke_project_finalization env s confirmed project v)
unfolding revoke_project_finalization touch_project
revoke_project_finalization-Steps env s confirmed project v =
    Ensures-bind P (raise_if (not confirmed) validation_error) _ λ u sure.
      Ensures-bind P (get_project s project) _ λ p read.
        Ensures-bind P (assert_project_active p) _ λ u active.
          Ensures-bind P (expect_lock p.lock_version v) _ λ u lock.
            Ensures-bind P (locked_project_finalization_authority s project) _ λ u authority.
              Ensures-if P (has_target s true project s.item_ids) _ _
                (λ e.
                  Ensures-then P P (revoke_targets env project s.item_ids s) _
                    (revoke_targets-Steps env project s.item_ids s)
                    λ t past. touched env revoking s t _ refl refl past)
                (λ e. no_more)
  where
    P : Store → Type 0
    P = Steps env revoking s
