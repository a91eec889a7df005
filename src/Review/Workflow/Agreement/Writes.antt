-- ===== src/Review/Workflow/Agreement/Writes.antt =====
-- The single writes of steps, against approved items and standing finalizations.
use video_review.Base.{
  ℕ, ◌≡◌, refl, true, false, Option, none, some, is_some, ◌==◌, inl, inr, Bool-cases, some_eq,
  eq_of_test, arith,
}
use video_review.Review.Store.{Item, Finalization, Store}
use video_review.Review.Guards.{or_empty, put, is_finalized}
use video_review.Review.Workflow.{IsApproval, IsRevocation, same_row, other_row, new_row}
use video_review.Review.Workflow.Agreement.{IsBound, IsAgreed, persists}

-- The table `t` differs from `s` in the item `key`, which was not approved, and is not.
pub open_write-IsAgreed :
    (s t : Store) (key : ℕ) (new : Item)
    → ((item : Item) → s.items key ≡ some item → is_finalized item.workflow_status ≡ false)
    → is_finalized new.workflow_status ≡ false
    → new.active_finalization_id ≡ none
    → is_some new.current_version_id ≡ true
    → t.items ≡ put key new s.items
    → t.finalizations ≡ s.finalizations
    → IsAgreed s
    → IsAgreed t
open_write-IsAgreed s t key new was_open is_open no_f has_version items fs h = record {
  versioned = λ k item row. elim (Bool-cases (key == k)) [
    | inl e ↦ rw (← written k item row e) has_version
    | inr e ↦ h.versioned k item (unwritten k item row e)
  ];
  open_item = λ k item row still. elim (Bool-cases (key == k)) [
    | inl e ↦ rw (← written k item row e) no_f
    | inr e ↦ h.open_item k item (unwritten k item row e) still
  ];
  of_item = λ k item row done. elim (Bool-cases (key == k)) [
    | inl e ↦ ground (arith, written k item row e)
    | inr e ↦
        let (id, f, b) = h.of_item k item (unwritten k item row e) done in
        (id, f, persists s t id k item f (other_row s t key k new items e) (rw fs refl) b)
  ];
  of_finalization = λ id f row stands.
      let (k, item, b) = h.of_finalization id f (rw fs at row) stands in
      (
        k,
        item,
        persists s t id k item f (other_row s t key k new items (apart k item b.row b.is_done))
            (rw fs refl) b,
      );
}
  where
    written : (k : ℕ) (item : Item) → t.items k ≡ some item → (key == k) ≡ true → new ≡ item
    written k item row e = some_eq (rw (new_row s t key k new items e) at row)

    unwritten :
        (k : ℕ) (item : Item) → t.items k ≡ some item → (key == k) ≡ false → s.items k ≡ some item
    unwritten k item row e = rw (other_row s t key k new items e) at row

    apart :
        (k : ℕ) (item : Item)
        → s.items k ≡ some item
        → is_finalized item.workflow_status ≡ true
        → (key == k) ≡ false
    apart k item row done = elim (Bool-cases (key == k)) [
      | inl e ↦
          (let here : s.items key ≡ some item = rw (eq_of_test key k e) row in
            ground (arith, was_open item here))
      | inr e ↦ e
    ]

-- Two tables of finalizations that differ in one row.
pub other_finalization :
    (s t : Store) (key id : ℕ) (g : Finalization)
    → t.finalizations ≡ put key g s.finalizations
    → (key == id) ≡ false
    → t.finalizations id ≡ s.finalizations id
other_finalization s t key id g fs e = rw (fs, e) refl

new_finalization :
    (s t : Store) (key id : ℕ) (g f : Finalization)
    → t.finalizations ≡ put key g s.finalizations
    → (key == id) ≡ true
    → t.finalizations id ≡ some f
    → g ≡ f
new_finalization s t key id g f fs e row =
    some_eq (let at : t.finalizations id ≡ some g = rw (fs, e) refl in rw at at row)

pub written_row :
    (s t : Store) (key k : ℕ) (new item : Item)
    → t.items ≡ put key new s.items
    → (key == k) ≡ true
    → t.items k ≡ some item
    → new ≡ item
written_row s t key k new item items e row = some_eq (rw (new_row s t key k new items e) at row)

of_option : (o : Option ℕ) (n : ℕ) → is_some o ≡ true → n ≡ or_empty o → o ≡ some n
of_option none n h e = ground (arith, h)
of_option (some m) n h e = ground (arith, e)

approval-IsBound :
    (s t : Store) (id key : ℕ) (old new : Item) (f : Finalization)
    → is_some old.current_version_id ≡ true
    → IsApproval key id old new f
    → t.items ≡ put key new s.items
    → t.finalizations ≡ put id f s.finalizations
    → IsBound t id key new f
approval-IsBound s t id key old new f has_version approval items fs = record {
  row = new_row s t key key new items (ground arith);
  finalization = rw fs (ground arith);
  is_done = rw approval.approved refl;
  stands = approval.stands;
  names = approval.finalization;
  of_item = approval.of_item;
  of_project = rw approval.same_project approval.of_project;
  of_version =
      rw approval.same_version
        (of_option old.current_version_id f.version_id has_version approval.of_version);
}

pub approved-IsAgreed :
    (s t : Store) (id key : ℕ) (old new : Item) (f : Finalization)
    → s.items key ≡ some old
    → s.finalizations id ≡ none
    → IsApproval key id old new f
    → t.items ≡ put key new s.items
    → t.finalizations ≡ put id f s.finalizations
    → IsAgreed s
    → IsAgreed t
approved-IsAgreed s t id key old new f at free approval items fs h = record {
  versioned = λ k item row. elim (Bool-cases (key == k)) [
    | inl e ↦
        rw (← written_row s t key k new item items e row, approval.same_version)
          (h.versioned key old at)
    | inr e ↦ h.versioned k item (unwritten k item row e)
  ];
  open_item = λ k item row still. elim (Bool-cases (key == k)) [
    | inl e ↦ ground (arith, written_row s t key k new item items e row, approval.approved)
    | inr e ↦ h.open_item k item (unwritten k item row e) still
  ];
  of_item = λ k item row done. elim (Bool-cases (key == k)) [
    | inl e ↦ (id, f, rw (← written_row s t key k new item items e row, ← eq_of_test key k e) bound)
    | inr e ↦
        let (i, g, b) = h.of_item k item (unwritten k item row e) done in
        (
          i,
          g,
          persists s t i k item g (other_row s t key k new items e)
              (other_finalization s t id i f fs (fresh i g b.finalization)) b,
        )
  ];
  of_finalization = λ i g row stands. elim (Bool-cases (id == i)) [
    | inl e ↦ (key, new, rw (← new_finalization s t id i f g fs e row, ← eq_of_test id i e) bound)
    | inr e ↦
        let (k, item, b) =
          h.of_finalization i g (rw (other_finalization s t id i f fs e) at row) stands in
        (
          k,
          item,
          persists s t i k item g (other_row s t key k new items (apart k item b.row b.is_done))
              (other_finalization s t id i f fs e) b,
        )
  ];
}
  where
    bound : IsBound t id key new f
    bound = approval-IsBound s t id key old new f (h.versioned key old at) approval items fs

    unwritten :
        (k : ℕ) (item : Item) → t.items k ≡ some item → (key == k) ≡ false → s.items k ≡ some item
    unwritten k item row e = rw (other_row s t key k new items e) at row

    fresh : (i : ℕ) (g : Finalization) → s.finalizations i ≡ some g → (id == i) ≡ false
    fresh i g row = elim (Bool-cases (id == i)) [
      | inl e ↦
          (let here : none ≡ some g = rw (← free, eq_of_test id i e) row in ground (arith, here))
      | inr e ↦ e
    ]

    apart :
        (k : ℕ) (item : Item)
        → s.items k ≡ some item
        → is_finalized item.workflow_status ≡ true
        → (key == k) ≡ false
    apart k item row done = elim (Bool-cases (key == k)) [
      | inl e ↦ ground (arith, same_row s.items key k old item at row e, approval.was_open)
      | inr e ↦ e
    ]

pub revoked-IsAgreed :
    (s t : Store) (key : ℕ) (old new : Item) (f g : Finalization)
    → s.items key ≡ some old
    → IsRevocation old new f g
    → t.items ≡ put key new s.items
    → t.finalizations ≡ put (or_empty old.active_finalization_id) g s.finalizations
    → IsAgreed s
    → IsAgreed t
revoked-IsAgreed s t key old new f g at end items fs h =
    let (id, f0, b) = h.of_item key old at end.was_approved in go id f0 b
  where
    unwritten :
        (k : ℕ) (item : Item) → t.items k ≡ some item → (key == k) ≡ false → s.items k ≡ some item
    unwritten k item row e = rw (other_row s t key k new items e) at row

    go : (id : ℕ) (f0 : Finalization) → IsBound s id key old f0 → IsAgreed t
    go id f0 b = record {
      versioned = λ k item row. elim (Bool-cases (key == k)) [
        | inl e ↦
            rw (← written_row s t key k new item items e row, end.same_version)
              (h.versioned key old at)
        | inr e ↦ h.versioned k item (unwritten k item row e)
      ];
      open_item = λ k item row still. elim (Bool-cases (key == k)) [
        | inl e ↦ rw (← written_row s t key k new item items e row) end.no_finalization
        | inr e ↦ h.open_item k item (unwritten k item row e) still
      ];
      of_item = λ k item row done. elim (Bool-cases (key == k)) [
        | inl e ↦ ground (arith, written_row s t key k new item items e row, end.reopened)
        | inr e ↦
            let (i, f1, c) = h.of_item k item (unwritten k item row e) done in
            (
              i,
              f1,
              persists s t i k item f1 (other_row s t key k new items e)
                  (other_finalization s t id i g tables (other_id i k item f1 c e)) c,
            )
      ];
      of_finalization = λ i f1 row stands. elim (Bool-cases (id == i)) [
        | inl e ↦ ground (arith, new_finalization s t id i g f1 tables e row, end.ended)
        | inr e ↦
            let (k, item, c) =
              h.of_finalization i f1 (rw (other_finalization s t id i g tables e) at row) stands in
            (
              k,
              item,
              persists s t i k item f1 (other_row s t key k new items (apart i k item f1 c e))
                  (other_finalization s t id i g tables e) c,
            )
      ];
    }
      where
        tables : t.finalizations ≡ put id g s.finalizations
        tables = rw (b.names) at fs

        other_id :
            (i k : ℕ) (item : Item) (f1 : Finalization)
            → IsBound s i k item f1
            → (key == k) ≡ false
            → (id == i) ≡ false
        other_id i k item f1 c e = elim (Bool-cases (id == i)) [
          | inl same ↦
              (let here : some f0 ≡ some f1 =
                  rw (← b.finalization, eq_of_test id i same) c.finalization in
                ground (arith, some_eq here, b.of_item, c.of_item))
          | inr different ↦ different
        ]

        apart :
            (i k : ℕ) (item : Item) (f1 : Finalization)
            → IsBound s i k item f1
            → (id == i) ≡ false
            → (key == k) ≡ false
        apart i k item f1 c e = elim (Bool-cases (key == k)) [
          | inl same ↦
              ground (arith, same_row s.items key k old item at c.row same, b.names, c.names)
          | inr different ↦ different
        ]
