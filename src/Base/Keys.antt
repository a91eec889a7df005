-- ===== src/Base/Keys.antt =====
-- Tables whose rows have different keys.
use Prim.Native.Nat.{ℕ, ◌+◌, ◌≤◌}
use mathlib.Core.Path.{◌≡◌, refl}
use mathlib.Core.Logic.{inl, inr}
use mathlib.Core.Bool.{Bool, true, false}
use mathlib.Core.Option.{Option, none, some}
use mathlib.Core.List.{List, [], ◌∷◌}
use native.Mathlib.Omega.{arith}
use video_review.Base.Lists.{All, count_where}
use video_review.Base.Tests.{◌==◌, if◌then◌else◌, Bool-cases, eq_of_test, some_eq}
use video_review.Base.Tables.{row_at, write_at}

module _ {A : Type 0} (key : A → ℕ) where
  -- The primary key: no row after another one has its key.
  abbrev pub HasKeys : List A → Type 0
  HasKeys [] = Unit
  HasKeys (x ∷ xs) = (row_at key (key x) xs ≡ none) × HasKeys xs

  -- A written row is read again, and no other row changes.
  pub row_at-write_at :
      (xs : List A) (x y : A) (k : ℕ)
      → row_at key (key y) xs ≡ some x
      → row_at key k (write_at key y xs) ≡ (if key y == k then some y else row_at key k xs)
  row_at-write_at [] x y k h = cc
  row_at-write_at (r ∷ rs) x y k h = elim (Bool-cases (key r == key y)) [
    | inl e ↦ elim (Bool-cases (key y == k)) [
      | inl mine ↦ rw (e, mine) refl
      | inr other ↦
          let apart : (key r == k) ≡ false = rw (eq_of_test (key r) (key y) e) other in
          rw (e, other, apart) refl
    ]
    | inr e ↦ elim (Bool-cases (key r == k)) [
      | inl mine ↦ let apart : (key y == k) ≡ false = ground arith in rw (e, mine, apart) refl
      | inr other ↦ rw (e, other) (row_at-write_at rs x y k (rw e at h))
    ]
  ]

  -- A write at a key that has no row changes nothing.
  pub write_at-absent :
      (xs : List A) (y : A) → row_at key (key y) xs ≡ none → write_at key y xs ≡ xs
  write_at-absent [] y h = refl
  write_at-absent (r ∷ rs) y h = elim (Bool-cases (key r == key y)) [
    | inl e ↦ let here : some r ≡ none = rw e at h in cc
    | inr e ↦ rw (e, write_at-absent rs y (rw e at h)) refl
  ]

  pub HasKeys-write_at : (xs : List A) (y : A) → HasKeys xs → HasKeys (write_at key y xs)
  HasKeys-write_at [] y h = h
  HasKeys-write_at (r ∷ rs) y h = elim (Bool-cases (key r == key y)) [
    | inl e ↦ rw e (rw (← eq_of_test (key r) (key y) e) h.0, h.1)
    | inr e ↦ rw e (still_absent e (row_at key (key y) rs) refl, HasKeys-write_at rs y h.1)
  ]
    where
      still_absent :
          (key r == key y) ≡ false
          → (o : Option A) → row_at key (key y) rs ≡ o
          → row_at key (key r) (write_at key y rs) ≡ none
      still_absent e none found = rw (write_at-absent rs y found) h.0
      still_absent e (some x) found =
          let apart : (key y == key r) ≡ false = ground arith in
          rw (row_at-write_at rs x y (key r) found, apart) h.0

  below :
      (r : A) (rs xs : List A)
      → row_at key (key r) rs ≡ none
      → All (λ x. row_at key (key x) rs ≡ some x) xs
      → All (λ x. row_at key (key x) (r ∷ rs) ≡ some x) xs
  below r rs [] free h = tt
  below r rs (x ∷ xs) free h = elim (Bool-cases (key r == key x)) [
    | inl e ↦ let here : none ≡ some x = rw (← free, eq_of_test (key r) (key x) e) h.0 in cc
    | inr e ↦ (rw e h.0, below r rs xs free h.1)
  ]

  -- Every row is the one at its key.
  pub HasKeys-All : (xs : List A) → HasKeys xs → All (λ x. row_at key (key x) xs ≡ some x) xs
  HasKeys-All [] h = tt
  HasKeys-All (r ∷ rs) h =
      let same : (key r == key r) ≡ true = ground arith in
      (rw same refl, below r rs rs h.0 (HasKeys-All rs h.1))

  -- How a write changes the number of rows that pass a test.
  pub count_where-write_at :
      (p : A → Bool) (xs : List A) (x y : A)
      → row_at key (key y) xs ≡ some x
      → count_where p (write_at key y xs) + (if p x then 1 else 0)
        ≡ count_where p xs + (if p y then 1 else 0)
  count_where-write_at p [] x y h = cc
  count_where-write_at p (r ∷ rs) x y h = elim (Bool-cases (key r == key y)) [
    | inl e ↦ let same : r ≡ x = some_eq (rw e at h) in rw (e, ← same) (omega arith)
    | inr e ↦ rw e (omega (arith, count_where-write_at p rs x y (rw e at h)))
  ]

  pub write_at-no_more :
      (p : A → Bool) (xs : List A) (y : A)
      → p y ≡ false
      → count_where p (write_at key y xs) ≤ count_where p xs
  write_at-no_more p [] y h = omega arith
  write_at-no_more p (r ∷ rs) y h = elim (Bool-cases (key r == key y)) [
    | inl e ↦ rw (e, h) (omega arith)
    | inr e ↦ rw e (omega (arith, write_at-no_more p rs y h))
  ]
