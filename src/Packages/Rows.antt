-- ===== src/Packages/Rows.antt =====
-- The table of packages as rows that are read and written by their identifiers.
use video_review.Base.{
  ℕ, ◌+◌, ◌≡◌, refl, sym, true, false, Option, none, some, List, [], ◌∷◌, opt_eq, ◌==◌,
  if◌then◌else◌, arith, Bool-cases, inl, inr, some_eq, eq_of_test,
}
use mathlib.Core.Path.{subst}
use video_review.Packages.{Snapshot, row, write, sum_of, is_preparing}
use video_review.Packages.Builds.{if_preparing, preparing_row}
use video_review.Packages.Downloads.{if_leased, leased_row}

pub row-id : (id : ℕ) (rows : List Snapshot) (p : Snapshot) → row id rows ≡ some p → p.id ≡ id
row-id id [] p h = cc
row-id id (q ∷ qs) p h = elim (Bool-cases (q.id == id)) [
  | inl e ↦ let same : q ≡ p = some_eq (rw e at h) in rw (← same) (eq_of_test q.id id e)
  | inr e ↦ row-id id qs p (rw e at h)
]

-- A row that was found is at its own identifier.
pub found_row :
    (id : ℕ) (rows : List Snapshot) (p : Snapshot) → row id rows ≡ some p → row p.id rows ≡ some p
found_row id rows p h = subst (λ k. row k rows ≡ some p) (sym (row-id id rows p h)) h

if_preparing-some :
    (o : Option Snapshot) (p : Snapshot)
    → if_preparing o ≡ some p
    → (o ≡ some p) × (is_preparing p.status ≡ true)
if_preparing-some none p h = cc
if_preparing-some (some q) p h = elim (Bool-cases (is_preparing q.status)) [
  | inl done ↦
      let same : some q ≡ some p = rw done at h in
      (same, subst (λ r. is_preparing r.status ≡ true) (some_eq same) done)
  | inr other ↦ let here : none ≡ some p = rw other at h in cc
]

pub preparing_row-row :
    (id : ℕ) (rows : List Snapshot) (p : Snapshot)
    → preparing_row id rows ≡ some p
    → (row p.id rows ≡ some p) × (is_preparing p.status ≡ true)
preparing_row-row id rows p h =
    let (found, building) = if_preparing-some (row id rows) p h in
    (found_row id rows p found, building)

if_leased-some :
    (lease_id : ℕ) (o : Option Snapshot) (p : Snapshot)
    → if_leased lease_id o ≡ some p
    → (o ≡ some p) × (opt_eq p.download_lease_id (some lease_id) ≡ true)
if_leased-some lease_id none p h = cc
if_leased-some lease_id (some q) p h =
    elim (Bool-cases (opt_eq q.download_lease_id (some lease_id))) [
      | inl done ↦
          let same : some q ≡ some p = rw done at h in
          (same, subst (λ r. opt_eq r.download_lease_id (some lease_id) ≡ true) (some_eq same) done)
      | inr other ↦ let here : none ≡ some p = rw other at h in cc
    ]

pub leased_row-row :
    (id lease_id : ℕ) (rows : List Snapshot) (p : Snapshot)
    → leased_row id lease_id rows ≡ some p
    → (row p.id rows ≡ some p) × (opt_eq p.download_lease_id (some lease_id) ≡ true)
leased_row-row id lease_id rows p h =
    let (found, leased) = if_leased-some lease_id (row id rows) p h in
    (found_row id rows p found, leased)

-- A written row is read again, and no other row changes.
pub row-write :
    (rows : List Snapshot) (p q : Snapshot) (id : ℕ)
    → row q.id rows ≡ some p
    → row id (write q rows) ≡ (if q.id == id then some q else row id rows)
row-write [] p q id h = cc
row-write (r ∷ rs) p q id h = elim (Bool-cases (r.id == q.id)) [
  | inl e ↦ elim (Bool-cases (q.id == id)) [
    | inl mine ↦ rw (e, mine) refl
    | inr other ↦
        let apart : (r.id == id) ≡ false = rw (eq_of_test r.id q.id e) other in
        rw (e, other, apart) refl
  ]
  | inr e ↦ elim (Bool-cases (r.id == id)) [
    | inl mine ↦ let apart : (q.id == id) ≡ false = ground arith in rw (e, mine, apart) refl
    | inr other ↦ rw (e, other) (row-write rs p q id (rw e at h))
  ]
]

-- Sums over the table after a write.
pub sum_of-write :
    (f : Snapshot → ℕ) (rows : List Snapshot) (p q : Snapshot)
    → row q.id rows ≡ some p
    → sum_of f (write q rows) + f p ≡ sum_of f rows + f q
sum_of-write f [] p q h = cc
sum_of-write f (r ∷ rs) p q h = elim (Bool-cases (r.id == q.id)) [
  | inl e ↦ let same : r ≡ p = some_eq (rw e at h) in rw (e, ← same) (omega arith)
  | inr e ↦ rw e (omega (arith, sum_of-write f rs p q (rw e at h)))
]
