-- ===== src/Review/Facts.antt =====
-- What a command has read and checked when it goes on: inversions of the guards, and the counts
-- of issues under a change of one issue.
use video_review.Base.{
  ℕ, ◌≡◌, refl, Bool, true, false, not, ◌&&◌, Option, some, List, [], ◌∷◌, is_some, count_where,
  Result, ok, arith, Ensures, Ensures-bind,
}
use video_review.Review.Store.{Project, Item, Version, Issue, Store}
use video_review.Review.Guards.{
  or_empty, find, update_where, get_project, get_item, get_version, get_issue, is_issue,
  ensure_current_version, expect_lock, assert_project_active,
}
use video_review.Review.Issues.{IssuePath, locked_issue}

module _ {ℓ} {A : Type ℓ} where
  find-test : (test : A → Bool) (xs : List A) (a : A) → find test xs ≡ some a → test a ≡ true
  find-test test [] a h = cc
  find-test test (x ∷ xs) a h = ground (arith, find-test test xs a)

  -- A count whose test does not see the change stays.
  pub count_where-update_where :
      (test : A → Bool) (p : A → Bool) (change : A → A) (xs : List A)
      → ((a : A) → test a ≡ true → p (change a) ≡ p a)
      → count_where p (update_where test change xs) ≡ count_where p xs
  count_where-update_where test p change [] h = refl
  count_where-update_where test p change (x ∷ xs) h =
      ground (arith, h x, count_where-update_where test p change xs h)

pub get_item-row :
    (s : Store) (project key : ℕ) {item : Item}
    → get_item s project key ≡ ok item
    → (s.items key ≡ some item) × (item.project_ref_id ≡ project)
unfolding get_item
get_item-row s project key h = ground arith

get_version-row :
    (s : Store) (project item key : ℕ) {v : Version}
    → get_version s project item key ≡ ok v
    → (s.versions key ≡ some v) × (v.project_ref_id ≡ project) × (v.review_item_id ≡ item)
unfolding get_version
get_version-row s project item key h = ground arith

get_issue-found :
    (s : Store) (project item version key : ℕ) (include : Bool) {i : Issue}
    → get_issue s project item version key include ≡ ok i
    → (find (is_issue project item version key) s.issues ≡ some i)
      × ((is_some i.deleted_at && not include) ≡ false)
unfolding get_issue
get_issue-found s project item version key include h = ground arith

pub is_issue-fields :
    (project item version key : ℕ) (i : Issue)
    → is_issue project item version key i ≡ true
    → (i.id ≡ key)
      × (i.project_ref_id ≡ project)
      × (i.review_item_id ≡ item)
      × (i.version_id ≡ version)
unfolding is_issue
is_issue-fields project item version key i h = ground arith

pub ensure_current_version-eq : (a b : ℕ) → ensure_current_version a b ≡ ok tt → a ≡ b
unfolding ensure_current_version
ensure_current_version-eq a b h = ground arith

get_project-row :
    (s : Store) (key : ℕ) {p : Project} → get_project s key ≡ ok p → s.projects key ≡ some p
unfolding get_project
get_project-row s key h = ground arith

-- The rows that a command on an issue has read, and the checks that it has passed.
pub record IsLocked (s : Store) (p : IssuePath) (include : Bool)
    (writable : Item → Issue → Result (Unit {0})) (expected : Option ℕ) (r : Item × Issue)
    : Type 0 where
  pub item_row : s.items p.review_item_id ≡ some r.0
  pub found_issue :
      find (is_issue p.project_ref_id p.review_item_id p.version_id p.issue_id) s.issues ≡ some r.1
  pub not_deleted : (is_some r.1.deleted_at && not include) ≡ false
  pub may_write : writable r.0 r.1 ≡ ok tt
  pub is_current : r.1.version_id ≡ or_empty r.0.current_version_id
  pub expected_lock : expect_lock r.1.lock_version expected ≡ ok tt

pub locked_issue-IsLocked :
    (s : Store) (p : IssuePath) (include : Bool) (writable : Item → Issue → Result (Unit {0}))
    (expected : Option ℕ)
    → Ensures (IsLocked s p include writable expected) (locked_issue s p include writable expected)
locked_issue-IsLocked s p include writable expected =
    Ensures-bind P (get_project s p.project_ref_id) _ λ project read.
      Ensures-bind P (assert_project_active project) _ λ u active.
        Ensures-bind P (get_item s p.project_ref_id p.review_item_id) _ λ item item_read.
          Ensures-bind P
            (get_issue s p.project_ref_id p.review_item_id p.version_id p.issue_id include) _
            λ issue issue_read. Ensures-bind P (writable item issue) _ λ v may_write.
              Ensures-bind P
                (ensure_current_version issue.version_id (or_empty item.current_version_id)) _
                λ w same.
                  Ensures-bind P (expect_lock issue.lock_version expected) (λ x. ok (item, issue))
                    λ x lock. record {
                      item_row = (get_item-row s p.project_ref_id p.review_item_id item_read).0;
                      found_issue =
                          (get_issue-found s p.project_ref_id p.review_item_id p.version_id
                            p.issue_id include issue_read).0;
                      not_deleted =
                          (get_issue-found s p.project_ref_id p.review_item_id p.version_id
                            p.issue_id include issue_read).1;
                      may_write = may_write;
                      is_current = ensure_current_version-eq _ _ same;
                      expected_lock = lock;
                    }
  where
    P : Item × Issue → Type 0
    P = IsLocked s p include writable expected
