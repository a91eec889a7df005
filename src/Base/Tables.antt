-- ===== src/Base/Tables.antt =====
-- Tables as lists of rows with a key.
use Prim.Native.Nat.{ℕ, zero, suc}
use mathlib.Core.Path.{◌≡◌}
use mathlib.Core.Logic.{inl, inr}
use mathlib.Core.Bool.{Bool}
use mathlib.Core.Option.{Option, none, some}
use mathlib.Core.List.{List, [], ◌∷◌, ◌++◌}
use video_review.Base.Lists.{All}
use video_review.Base.Tests.{◌==◌, if◌then◌else◌, Bool-cases, eq_of_test, some_eq}

module _ {ℓ} {A : Type ℓ} (key : A → ℕ) where
  -- The row at a key.
  abbrev pub row_at : ℕ → List A → Option A
  row_at k [] = none
  row_at k (x ∷ xs) = if key x == k then some x else row_at k xs

  -- The row with the key of the new one is replaced.
  abbrev pub write_at : A → List A → List A
  write_at y [] = []
  write_at y (x ∷ xs) = if key x == key y then y ∷ xs else x ∷ write_at y xs

  pub row_at-key : (k : ℕ) (xs : List A) (x : A) → row_at k xs ≡ some x → key x ≡ k
  row_at-key k [] x h = cc
  row_at-key k (y ∷ ys) x h = elim (Bool-cases (key y == k)) [
    | inl e ↦ let same : y ≡ x = some_eq (rw e at h) in rw (← same) (eq_of_test (key y) k e)
    | inr e ↦ row_at-key k ys x (rw e at h)
  ]

  module _ {κ} (P : A → Type κ) where
    pub All-row_at : (k : ℕ) (xs : List A) (x : A) → All P xs → row_at k xs ≡ some x → P x
    All-row_at k [] x h e = cc
    All-row_at k (y ∷ ys) x h e = elim (Bool-cases (key y == k)) [
      | inl mine ↦ let same : y ≡ x = some_eq (rw mine at e) in rw (← same) h.0
      | inr other ↦ All-row_at k ys x h.1 (rw other at e)
    ]

    pub All-write_at : (y : A) (xs : List A) → P y → All P xs → All P (write_at y xs)
    All-write_at y [] new h = tt
    All-write_at y (x ∷ xs) new h = elim (Bool-cases (key x == key y)) [
      | inl e ↦ rw e (new, h.1)
      | inr e ↦ rw e (h.0, All-write_at y xs new h.1)
    ]

-- A filter by a Boolean test.
abbrev pub filter {ℓ} : {A : Type ℓ} → (A → Bool) → List A → List A
filter p [] = []
filter p (x ∷ xs) = let rest = filter p xs in if p x then x ∷ rest else rest

abbrev pub take {ℓ} : {A : Type ℓ} → ℕ → List A → List A
take n [] = []
take zero (x ∷ xs) = []
take (suc n) (x ∷ xs) = x ∷ take n xs

-- Insertion sort by a comparison, which keeps the order of rows that it does not tell apart.
module _ {ℓ} {A : Type ℓ} (before : A → A → Bool) where
  abbrev pub insert_by : A → List A → List A
  insert_by x [] = x ∷ []
  insert_by x (y ∷ ys) = let rest = insert_by x ys in if before y x then y ∷ rest else x ∷ y ∷ ys

  abbrev pub sort_by : List A → List A
  sort_by [] = []
  sort_by (x ∷ xs) = insert_by x (sort_by xs)

module _ {ℓ κ} {A : Type ℓ} (P : A → Type κ) where
  pub All-append : (xs ys : List A) → All P xs → All P ys → All P (xs ++ ys)
  All-append [] ys h k = k
  All-append (x ∷ xs) ys h k = (h.0, All-append xs ys h.1 k)

  pub All-filter : (p : A → Bool) (xs : List A) → All P xs → All P (filter p xs)
  All-filter p [] h = tt
  All-filter p (x ∷ xs) h = elim (Bool-cases (p x)) [
    | inl e ↦ rw e (h.0, All-filter p xs h.1)
    | inr e ↦ rw e (All-filter p xs h.1)
  ]

  pub All-take : (n : ℕ) (xs : List A) → All P xs → All P (take n xs)
  All-take n [] h = tt
  All-take zero (x ∷ xs) h = tt
  All-take (suc n) (x ∷ xs) h = (h.0, All-take n xs h.1)

  All-insert_by :
      (before : A → A → Bool) (x : A) (xs : List A) → P x → All P xs → All P (insert_by before x xs)
  All-insert_by before x [] new h = (new, tt)
  All-insert_by before x (y ∷ ys) new h = elim (Bool-cases (before y x)) [
    | inl e ↦ rw e (h.0, All-insert_by before x ys new h.1)
    | inr e ↦ rw e (new, h)
  ]

  pub All-sort_by : (before : A → A → Bool) (xs : List A) → All P xs → All P (sort_by before xs)
  All-sort_by before [] h = tt
  All-sort_by before (x ∷ xs) h =
      All-insert_by before x (sort_by before xs) h.0 (All-sort_by before xs h.1)
