-- ===== src/Review/Workflow/Agreement/Authority.antt =====
-- `_locked_project_finalization_authority` in the stores that commands lead to.
use video_review.Base.{
  ℕ, ◌≡◌, refl, true, ◌&&◌, Option, none, some, List, [], ◌∷◌, is_some, ◌==◌, inl, inr, ok,
  eq_of_test, Bool-cases, arith,
}
use video_review.Review.Store.{Item, Finalization, Store}
use video_review.Review.Guards.{is_finalized, or_empty}
use video_review.Review.Finalize.{
  is_standing, agrees, item_agrees, points_back, finalization_agrees, all_items_agree,
  all_finalizations_agree, locked_project_finalization_authority,
}
use video_review.Review.History.{History}
use video_review.Review.Workflow.Agreement.{IsBound, IsAgreed}
use video_review.Review.Workflow.Agreement.Histories.{History-IsAgreed}

bound-agrees :
    (s : Store) (id k : ℕ) (item : Item) (f : Finalization)
    → IsBound s id k item f
    → (is_some item.active_finalization_id
        && agrees item.project_ref_id k item
            (s.finalizations (or_empty item.active_finalization_id)))
      ≡ true
unfolding agrees
bound-agrees s id k item f b =
    rw (b.names, b.finalization, b.stands, b.of_version) (ground (arith, b.of_item, b.of_project))

item_agrees-true :
    (s : Store) (project k : ℕ) (o : Option Item)
    → IsAgreed s
    → s.items k ≡ o
    → item_agrees s project k o ≡ true
unfolding item_agrees
item_agrees-true s project k none h row = refl
item_agrees-true s project k (some item) h row =
    elim (Bool-cases (item.project_ref_id == project)) [
      | inl mine ↦ elim (Bool-cases (is_finalized item.workflow_status)) [
        | inl done ↦
            let (id, f, b) = h.of_item k item row done in
            rw (mine, done, ← eq_of_test item.project_ref_id project mine)
              (bound-agrees s id k item f b)
        | inr still ↦ rw (mine, still, h.open_item k item row still) refl
      ]
      | inr other ↦ rw other refl
    ]

bound-points_back :
    (s : Store) (id k : ℕ) (item : Item) (f : Finalization)
    → IsBound s id k item f
    → points_back f.project_ref_id id f (s.items f.review_item_id) ≡ true
unfolding points_back
bound-points_back s id k item f b =
    rw (b.of_item, b.row, b.is_done, b.names, b.of_version) (ground (arith, b.of_project))

finalization_agrees-true :
    (s : Store) (project id : ℕ) (o : Option Finalization)
    → IsAgreed s
    → s.finalizations id ≡ o
    → finalization_agrees s project id o ≡ true
unfolding finalization_agrees
finalization_agrees-true s project id none h row = refl
finalization_agrees-true s project id (some f) h row =
    elim (Bool-cases (f.project_ref_id == project && is_standing f.status)) [
      | inl mine ↦
          let (k, item, b) = h.of_finalization id f row (ground (arith, mine)) in
          rw (mine, ← of_this mine) (bound-points_back s id k item f b)
      | inr other ↦ rw other refl
    ]
  where
    of_this :
        (f.project_ref_id == project && is_standing f.status) ≡ true → f.project_ref_id ≡ project
    of_this e = ground (arith, e)

items-agree :
    (s : Store) (project : ℕ) (keys : List ℕ) → IsAgreed s → all_items_agree s project keys ≡ true
unfolding all_items_agree
items-agree s project [] h = refl
items-agree s project (k ∷ ks) h =
    rw (item_agrees-true s project k (s.items k) h refl, items-agree s project ks h) refl

finalizations-agree :
    (s : Store) (project : ℕ) (ids : List ℕ)
    → IsAgreed s
    → all_finalizations_agree s project ids ≡ true
unfolding all_finalizations_agree
finalizations-agree s project [] h = refl
finalizations-agree s project (k ∷ ks) h =
    rw
      (
        finalization_agrees-true s project k (s.finalizations k) h refl,
        finalizations-agree s project ks h,
      )
      refl

authority-holds :
    (s : Store) (project : ℕ) → IsAgreed s → locked_project_finalization_authority s project ≡ ok tt
unfolding locked_project_finalization_authority
authority-holds s project h =
    rw (items-agree s project s.item_ids h, finalizations-agree s project s.finalization_ids h) refl

-- From a store in which approved items and standing finalizations belong together, every history
-- of successful commands with unused identifiers leads to a store whose projects all pass
-- `_locked_project_finalization_authority`.
pub locked_project_finalization_authority-ok :
    (s t : Store) (project : ℕ)
    → IsAgreed s
    → History s t
    → locked_project_finalization_authority t project ≡ ok tt
locked_project_finalization_authority-ok s t project h past =
    authority-holds t project (History-IsAgreed s t past h)
