-- ===== src/Review/Workflow/Agreement/Revocable.antt =====
-- When `revoke_finalization` of infra/repositories.py goes through.
use video_review.Base.{ℕ, ◌+◌, ◌≡◌, refl, true, Option, none, some, ◌==◌, ok, Returns, arith}
use video_review.Review.Store.{active, in_review, Project, Item, Finalization, revoked, Store, Env}
use video_review.Review.Guards.{
  or_empty, put, truthy, is_finalized, get_project, get_item, assert_project_active, expect_lock,
  add_event,
}
use video_review.Review.Revoke.{standing_of, revoke_locked_finalization, revoke_finalization}
use video_review.Review.Workflow.Agreement.{IsBound, IsAgreed}

-- The item is open again and the finalization `id` is revoked.
pub record IsReopened (key id : ℕ) (t : Store) : Type 0 where
  pub item : Item
  pub item_row : t.items key ≡ some item
  pub status : item.workflow_status ≡ in_review
  pub no_finalization : item.active_finalization_id ≡ none
  pub finalization : Finalization
  pub finalization_row : t.finalizations id ≡ some finalization
  pub ended : finalization.status ≡ revoked

project_found :
    (s : Store) (key : ℕ) (p : Project) → s.projects key ≡ some p → get_project s key ≡ ok p
unfolding get_project
project_found s key p h = rw h refl

project_active :
    (p : Project)
    → p.deleted_at ≡ none
    → p.lifecycle_status ≡ active
    → assert_project_active p ≡ ok tt
unfolding assert_project_active
project_active p live state = rw (live, state) refl

item_found :
    (s : Store) (project key : ℕ) (item : Item)
    → s.items key ≡ some item
    → item.project_ref_id ≡ project
    → get_item s project key ≡ ok item
unfolding get_item
item_found s project key item row mine = rw row (ground (arith, mine))

lock_met : (n : ℕ) → expect_lock n (some n) ≡ ok tt
unfolding expect_lock
lock_met n = ground arith

bound-standing_of :
    (s : Store) (id k : ℕ) (item : Item) (f : Finalization)
    → IsBound s id k item f
    → standing_of item.project_ref_id k (s.finalizations (or_empty item.active_finalization_id))
      ≡ some f
unfolding standing_of
bound-standing_of s id k item f b =
    rw (b.names, b.finalization, b.stands) (ground (arith, b.of_item, b.of_project))

written : {A : Type 0} (key : ℕ) (row : A) (table : ℕ → Option A) → put key row table key ≡ some row
written key row table = let same : (key == key) ≡ true = ground arith in rw same refl

revoke_locked_finalization-IsReopened :
    (env : Env) (s : Store) (project key : ℕ) (item : Item) (id : ℕ) (f : Finalization)
    → IsReopened key id (revoke_locked_finalization env s project key item id f)
unfolding revoke_locked_finalization add_event
revoke_locked_finalization-IsReopened env s project key item id f = record {
  item = record item {
    workflow_status = in_review;
    active_finalization_id = none;
    lock_version = item.lock_version + 1;
    updated_at = env.now;
  };
  item_row = written key _ s.items;
  status = refl;
  no_finalization = refl;
  finalization = record f { status = revoked; revoked_at = some env.now };
  finalization_row = written id _ s.finalizations;
  ended = refl;
}

-- In a store in which approved items and standing finalizations belong together, the confirmed
-- revocation of a finalized item of an active project with the item's lock version returns, if the
-- item's finalization has a non-empty identifier; the item is then in review without a
-- finalization, and the finalization that it had is revoked.
pub revoke_finalization-Returns :
    (env : Env) (s : Store) (project key : ℕ) (p : Project) (item : Item)
    → IsAgreed s
    → s.projects project ≡ some p
    → p.deleted_at ≡ none
    → p.lifecycle_status ≡ active
    → s.items key ≡ some item
    → item.project_ref_id ≡ project
    → is_finalized item.workflow_status ≡ true
    → truthy item.active_finalization_id ≡ true
    → Returns
        (IsReopened key (or_empty item.active_finalization_id))
        (revoke_finalization env s true project key (some item.lock_version))
unfolding revoke_finalization
revoke_finalization-Returns env s project key p item h project_row live state row mine done named =
    let (id, f, b) = h.of_item key item row done in
    rw
      (
        project_found s project p project_row,
        project_active p live state,
        item_found s project key item row mine,
        lock_met item.lock_version,
        done,
        named,
        ← mine,
        bound-standing_of s id key item f b,
      )
      (revoke_locked_finalization-IsReopened env s item.project_ref_id key item _ f)
