-- ===== src/Review/Workflow/Complete.antt =====
-- What `finalize_project` of infra/repositories.py leaves of a project's items.
use video_review.Base.{
  ℕ, ◌≡◌, refl, Bool, true, false, not, ◌&&◌, ◌||◌, Option, none, some, List, [], ◌∷◌, is_none,
  is_some, ◌==◌, Result, ok, err, raise_if, Ensures, Ensures-bind, Ensures-then, Ensures-if,
  Bool-cases, inl, inr, arith, resource_state_conflict, review_item_finalized,
  package_source_missing, file_hash_mismatch, validation_error,
}
use video_review.Review.Store.{Item, Store, Env}
use video_review.Review.Guards.{
  or_empty, truthy, found, put, find, is_finalized, get_project, get_version, assert_project_active,
  expect_lock, ensure_current_version, assert_playback_ready, ensure_finalizable, add_event,
}
use video_review.Review.Finalize.{
  is_pending_cleanup, finalize_locked_item, finalize_target, finalize_targets, has_target,
  touch_project, finalize_project, is_target, locked_project_finalization_authority,
}
use video_review.Review.Workflow.{
  Step, Steps, approving, kept, approved, no_more, more, other_row, new_row, same_row,
}
use video_review.Review.Workflow.Finalize.{finalize_target-Steps, finalize_targets-Steps}
use video_review.Review.Workflow.Frozen.{Steps-frozen}

-- The item `k` is finalized.
abbrev IsDone : ℕ → Store → Type 0
IsDone k t = (new : Item) × (t.items k ≡ some new) × (is_finalized new.workflow_status ≡ true)

-- The item `k` is of the project.
abbrev IsOf : ℕ → ℕ → Store → Type 0
IsOf project k t = (new : Item) × (t.items k ≡ some new) × (new.project_ref_id ≡ project)

written-IsDone :
    (table rows : ℕ → Option Item) (key : ℕ) (new : Item)
    → rows ≡ put key new table
    → is_finalized new.workflow_status ≡ true
    → (item : Item) × (rows key ≡ some item) × (is_finalized item.workflow_status ≡ true)
written-IsDone table rows key new items done =
    let self : (key == key) ≡ true = ground arith in (new, rw (items, self) refl, done)

finalize_locked_item-IsDone :
    (env : Env) (s : Store) (project key : ℕ) (item : Item) (version_id : ℕ)
    → Ensures (IsDone key) (finalize_locked_item env s project key item version_id)
unfolding finalize_locked_item add_event
finalize_locked_item-IsDone env s project key item version_id =
    Ensures-bind P (get_version s project key version_id) _ λ version read.
      Ensures-bind P (ensure_current_version version_id (or_empty item.current_version_id)) _
        λ u current. Ensures-bind P (assert_playback_ready env s version) _ λ u playable.
          Ensures-bind P (ensure_finalizable item.workflow_status) _ λ u finalizable.
            Ensures-bind P
              (raise_if (is_some (find (is_pending_cleanup project key) s.invalidations))
                resource_state_conflict)
              _
              λ u clean.
                Ensures-bind P (raise_if (truthy item.active_finalization_id) review_item_finalized)
                  _
                  λ u fresh.
                    Ensures-bind P (found package_source_missing (s.files version.original_file_id))
                      _
                      λ file file_read.
                        Ensures-bind P (env.stored_sha256 version.original_file_id) _
                          λ sha256 hashed.
                            Ensures-bind P
                              (raise_if (not (sha256 == version.sha256)) file_hash_mismatch) _
                              λ u same. written-IsDone s.items _ key _ refl refl
  where
    P : Store → Type 0
    P = IsDone key

finalize_target-IsDone :
    (env : Env) (s : Store) (project key : ℕ) (o : Option Item) (item : Item)
    → s.items key ≡ o
    → o ≡ some item
    → item.project_ref_id ≡ project
    → Ensures (IsDone key) (finalize_target env s project key o)
unfolding finalize_target
finalize_target-IsDone env s project key none item row e mine = ground (arith, e)
finalize_target-IsDone env s project key (some other) item row e mine =
    Ensures-if (IsDone key)
      (other.project_ref_id == project && not (is_finalized other.workflow_status)) _ _
      (λ h.
        Ensures-bind (IsDone key)
          (raise_if (is_none other.current_version_id) resource_state_conflict) _
          λ u has.
            finalize_locked_item-IsDone env s project key other (or_empty other.current_version_id))
      (λ h. (other, row, ground (arith, h, e, mine)))

Step-IsOf :
    (env : Env) (s t : Store) (project k : ℕ)
    → IsOf project k s
    → Step env s t approving
    → IsOf project k t
Step-IsOf env s t project k (item, row, mine) (kept items f) = (item, rw items row, mine)
Step-IsOf env s t project k (item, row, mine) (approved key old new f at approval items g) =
    elim (Bool-cases (key == k)) [
      | inl e ↦ (
        new,
        new_row s t key k new items e,
        ground (arith, approval.same_project, same_row s.items key k old item at row e, mine),
      )
      | inr e ↦ (item, rw (other_row s t key k new items e) row, mine)
    ]

Steps-IsOf :
    (env : Env) (s t : Store) (project k : ℕ)
    → IsOf project k s
    → Steps env approving s t
    → IsOf project k t
Steps-IsOf env s t project k h no_more = h
Steps-IsOf env s t project k h (more {t = mid} a rest) =
    Steps-IsOf env mid t project k (Step-IsOf env s mid project k h a) rest

-- The items among the keys that are of the project are finalized in the other store.
abbrev pub AllDone : ℕ → List ℕ → Store → Store → Type 0
AllDone project [] s t = Unit
AllDone project (k ∷ ks) s t = (IsOf project k s → IsDone k t) × AllDone project ks s t

both :
    (P Q : Store → Type 0) (r : Result Store)
    → Ensures P r
    → Ensures Q r
    → Ensures (λ t. P t × Q t) r
both P Q (ok t) p q = (p, q)
both P Q (err code) p q = tt

later :
    (A : Type 0) (Q : Store → Type 0) (r : Result Store)
    → (A → Ensures Q r)
    → Ensures (λ t. A → Q t) r
later A Q (ok t) f = f
later A Q (err code) f = tt

AllDone-from :
    (env : Env) (project : ℕ) (ks : List ℕ) (s t u : Store)
    → Steps env approving s t
    → AllDone project ks t u
    → AllDone project ks s u
AllDone-from env project [] s t u past h = tt
AllDone-from env project (k ∷ ks) s t u past h = (
  λ mine. h.0 (Steps-IsOf env s t project k mine past),
  AllDone-from env project ks s t u past h.1,
)

AllDone-to :
    (project : ℕ) (ks : List ℕ) (s t u : Store)
    → u.items ≡ t.items
    → AllDone project ks s t
    → AllDone project ks s u
AllDone-to project [] s t u items h = tt
AllDone-to project (k ∷ ks) s t u items h = (
  λ mine. let (new, row, done) = h.0 mine in (new, rw items row, done),
  AllDone-to project ks s t u items h.1,
)

finalize_targets-AllDone :
    (env : Env) (project : ℕ) (ks : List ℕ) (s : Store)
    → Ensures (AllDone project ks s) (finalize_targets env project ks s)
unfolding finalize_targets
finalize_targets-AllDone env project [] s = tt
finalize_targets-AllDone env project (k ∷ ks) s =
    Ensures-then P1 (AllDone project (k ∷ ks) s) (finalize_target env s project k (s.items k))
      (finalize_targets env project ks)
      (both (Steps env approving s) (λ t. IsOf project k s → IsDone k t)
        (finalize_target env s project k (s.items k))
        (finalize_target-Steps env s project k (s.items k) refl)
        (later (IsOf project k s) (IsDone k) (finalize_target env s project k (s.items k))
          (λ mine. finalize_target-IsDone env s project k (s.items k) mine.0 refl mine.1 mine.2)))
      (λ t h. go t h (finalize_targets env project ks t) (
        both (Steps env approving t) (AllDone project ks t) (finalize_targets env project ks t)
          (finalize_targets-Steps env project ks t) (finalize_targets-AllDone env project ks t)))
  where
    P1 : Store → Type 0
    P1 t = Steps env approving s t × (IsOf project k s → IsDone k t)

    go :
        (t : Store)
        → P1 t
        → (r : Result Store) → Ensures (λ u. Steps env approving t u × AllDone project ks t u) r
        → Ensures (AllDone project (k ∷ ks) s) r
    go t h (err code) e = tt
    go t (past, done) (ok u) (rest, all) = (
      λ mine.
          let (new, row, is_done) = done mine in
          (new, Steps-frozen env approving t u k new refl refl row is_done rest, is_done),
      AllDone-from env project ks s t u past all,
    )

not_target :
    (project : ℕ) (item : Item) (x : Bool)
    → (is_target false project (some item) || x) ≡ false
    → item.project_ref_id ≡ project
    → is_finalized item.workflow_status ≡ true
unfolding is_target
not_target project item x h same = ground (arith, h, same)

no_target-AllDone :
    (project : ℕ) (ks : List ℕ) (s : Store)
    → has_target s false project ks ≡ false
    → AllDone project ks s s
unfolding has_target
no_target-AllDone project [] s h = tt
no_target-AllDone project (k ∷ ks) s h = (
  λ mine. let (item, row, same) = mine in (item, row, not_target project item _ (rw row at h) same),
  no_target-AllDone project ks s (ground (arith, h)),
)

-- When `finalize_project` succeeds, every item of the project whose key is in the list of item
-- keys is finalized.
pub finalize_project-AllDone :
    (env : Env) (s : Store) (confirmed : Bool) (project : ℕ) (v : Option ℕ)
    → Ensures (AllDone project s.item_ids s) (finalize_project env s confirmed project v)
unfolding finalize_project touch_project
finalize_project-AllDone env s confirmed project v =
    Ensures-bind P (raise_if (not confirmed) validation_error) _ λ u sure.
      Ensures-bind P (get_project s project) _ λ p read.
        Ensures-bind P (assert_project_active p) _ λ u active.
          Ensures-bind P (expect_lock p.lock_version v) _ λ u lock.
            Ensures-bind P (locked_project_finalization_authority s project) _ λ u authority.
              Ensures-if P (has_target s false project s.item_ids) _ _
                (λ e.
                  Ensures-then P P (finalize_targets env project s.item_ids s) _
                    (finalize_targets-AllDone env project s.item_ids s)
                    λ t all. AllDone-to project s.item_ids s t _ refl all)
                (λ e. no_target-AllDone project s.item_ids s e)
  where
    P : Store → Type 0
    P = AllDone project s.item_ids s
