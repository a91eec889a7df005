-- ===== src/Packages/Quota.antt =====
-- The storage that the packages reserve, against `max_package_storage_bytes`.
use video_review.Base.{
  ℕ, ◌+◌, ◌≤◌, ◌≡◌, ◌⊎◌, inl, inr, refl, true, false, Bool, none, some, List, [], ◌∷◌, ◌++◌, ◌==◌,
  if◌then◌else◌, is_none, arith, Bool-cases, some_eq, eq_of_test,
}
use mathlib.Core.Path.{subst}
use video_review.Packages.{
  Snapshot, PackageSettings, row, write, sum_of, reserved, other_than,
  active_package_storage_reservation_bytes,
}
use video_review.Packages.Downloads.{Digests}
use video_review.Packages.Operations.{Call, admit, effect, effects}
use video_review.Packages.Rows.{row-write, sum_of-write}
use video_review.Packages.Edits.{
  Edit, interrupted, leased, published, retried, given_up, authorized, begun, marked, renewed,
  released, Outcome, unchanged, added, edited,
}
use video_review.Packages.Edits.Calls.{effect-Outcome}

-- The primary key.
abbrev pub Distinct : List Snapshot → Type 0
Distinct [] = Unit
Distinct (p ∷ ps) = (row p.id ps ≡ none) × Distinct ps

-- A new package has an identifier that is not in use.
abbrev UnusedId : Call → List Snapshot → Type 0
UnusedId (admit now disk q) rows = row q.id rows ≡ none
UnusedId _ rows = Unit

module _ (m : PackageSettings) (d : Digests) where
  abbrev pub UnusedIds : List Call → List Snapshot → Type 0
  UnusedIds [] rows = Unit
  UnusedIds (c ∷ cs) rows = UnusedId c rows × UnusedIds cs (effect m d c rows)

Distinct-write :
    (rows : List Snapshot) (p q : Snapshot)
    → row q.id rows ≡ some p
    → Distinct rows
    → Distinct (write q rows)
Distinct-write [] p q at h = h
Distinct-write (r ∷ rs) p q at h = elim (Bool-cases (r.id == q.id)) [
  | inl e ↦ rw e (rw (← eq_of_test r.id q.id e) h.0, h.1)
  | inr e ↦
      let below : row q.id rs ≡ some p = rw e at at in
      let apart : (q.id == r.id) ≡ false = ground arith in
      rw e (rw (row-write rs p q r.id below, apart) h.0, Distinct-write rs p q below h.1)
]

row-append_none :
    (rows : List Snapshot) (p : Snapshot) (id : ℕ)
    → row id rows ≡ none
    → (p.id == id) ≡ false
    → row id (rows ++ p ∷ []) ≡ none
row-append_none [] p id h e = rw e refl
row-append_none (r ∷ rs) p id h e = elim (Bool-cases (r.id == id)) [
  | inl mine ↦ let here : some r ≡ none = rw mine at h in cc
  | inr other ↦ rw other (row-append_none rs p id (rw other at h) e)
]

Distinct-append :
    (rows : List Snapshot) (p : Snapshot)
    → row p.id rows ≡ none
    → Distinct rows
    → Distinct (rows ++ p ∷ [])
Distinct-append [] p at h = (refl, tt)
Distinct-append (r ∷ rs) p at h = elim (Bool-cases (r.id == p.id)) [
  | inl e ↦ let here : some r ≡ none = rw e at at in cc
  | inr e ↦ (row-append_none rs p r.id h.0 (ground arith), Distinct-append rs p (rw e at at) h.1)
]

-- Giving up reserves nothing more.
given_up-reserved :
    (b : Bool) (now : ℕ) (p : Snapshot)
    → (if is_none (if b then some now else p.storage_reclaimed_at)
        then if b then 0 else p.storage_bytes
        else 0)
      ≤ reserved p
given_up-reserved true now p = omega arith
given_up-reserved false now p = omega arith

reserved-storage_bytes : (p : Snapshot) → reserved p ≤ p.storage_bytes
reserved-storage_bytes p = ground arith

sum_of-append :
    (f : Snapshot → ℕ) (xs : List Snapshot) (p : Snapshot)
    → sum_of f (xs ++ p ∷ []) ≡ sum_of f xs + f p
sum_of-append f [] p = omega arith
sum_of-append f (x ∷ xs) p = omega (arith, sum_of-append f xs p)

-- The sum over the other rows and the row itself.
sum_of-absent :
    (f : Snapshot → ℕ) (id : ℕ) (rows : List Snapshot)
    → row id rows ≡ none
    → sum_of (other_than id f) rows ≡ sum_of f rows
sum_of-absent f id [] h = refl
sum_of-absent f id (r ∷ rs) h = elim (Bool-cases (r.id == id)) [
  | inl e ↦ let here : some r ≡ none = rw e at h in cc
  | inr e ↦ rw e (omega (arith, sum_of-absent f id rs (rw e at h)))
]

sum_of-other_than :
    (f : Snapshot → ℕ) (rows : List Snapshot) (id : ℕ) (p : Snapshot)
    → Distinct rows
    → row id rows ≡ some p
    → sum_of (other_than id f) rows + f p ≡ sum_of f rows
sum_of-other_than f [] id p u h = cc
sum_of-other_than f (r ∷ rs) id p u h = elim (Bool-cases (r.id == id)) [
  | inl e ↦
      let same : r ≡ p = some_eq (rw e at h) in
      let absent : row id rs ≡ none = rw (← eq_of_test r.id id e) u.0 in
      rw (e, ← same) (omega (arith, sum_of-absent f id rs absent))
  | inr e ↦ rw e (omega (arith, sum_of-other_than f rs id p u.1 (rw e at h)))
]

module _ (m : PackageSettings) (d : Digests) (rows : List Snapshot) where
  -- An edit reserves no more, or stays within the quota.
  Edit-reserved :
      (p q : Snapshot) (c : Call)
      → Edit m d rows p c q
      → (reserved q ≤ reserved p)
        ⊎ (sum_of (other_than p.id reserved) rows + reserved q ≤ m.max_package_storage_bytes)
  Edit-reserved p q c (interrupted now lease_id id building due used) = inl (omega arith)
  Edit-reserved p q c (leased now lease_id id building due more) = inl (omega arith)
  Edit-reserved p q c (published now disk a building holds fits) = inr (omega arith)
  Edit-reserved p q c (retried now r building holds more) = inl (omega arith)
  Edit-reserved p q c (given_up now r building holds) =
      inl (given_up-reserved r.storage_reclaimed now p)
  Edit-reserved p q c (authorized now projects files token project id expires f free) =
      inl (omega arith)
  Edit-reserved p q c
        (begun now lease_id projects files project id token is_resume f state stored there expires
          found free) =
      inl (omega arith)
  Edit-reserved p q c
        (marked now files id lease_id token expected identity current holds session sha same) =
      inl (omega arith)
  Edit-reserved p q c (renewed now id lease_id holds) = inl (omega arith)
  Edit-reserved p q c (released now id lease_id completed holds) = inl (omega arith)

  abbrev IsWithin : List Snapshot → Type 0
  IsWithin t =
      Distinct t × (active_package_storage_reservation_bytes t ≤ m.max_package_storage_bytes)

  Outcome-IsWithin :
      (t : List Snapshot) (c : Call)
      → UnusedId c rows
      → IsWithin rows
      → Outcome m d rows c t
      → IsWithin t
  unfolding active_package_storage_reservation_bytes
  Outcome-IsWithin t c free h (unchanged e) = rw e h
  Outcome-IsWithin t c free h (added now disk q p call same is_new e) =
      rw e
        (Distinct-append rows p (rw same (subst (λ x. UnusedId x rows) call free)) h.0, added_fits)
    where
      added_fits : sum_of reserved (rows ++ p ∷ []) ≤ m.max_package_storage_bytes
      added_fits =
          omega (arith, sum_of-append reserved rows p, is_new.fits, reserved-storage_bytes p)
  Outcome-IsWithin t c free h (edited p q at same edit e) =
      let found : row q.id rows ≡ some p = rw same at in
      rw e (
        Distinct-write rows p q found h.0,
        elim (Edit-reserved p q c edit) [
          | inl less ↦ omega (arith, sum_of-write reserved rows p q found, less, h.1)
          | inr fits ↦ omega (
            arith,
            sum_of-write reserved rows p q found,
            fits,
            sum_of-other_than reserved rows p.id p h.0 at,
          )
        ],
      )

-- If the packages of the table have different identifiers and reserve at most
-- `max_package_storage_bytes`, they reserve at most that after any calls on packages that use new
-- identifiers for new packages.
pub effects-reserved :
    (m : PackageSettings) (d : Digests) (calls : List Call) (rows : List Snapshot)
    → UnusedIds m d calls rows
    → Distinct rows
    → active_package_storage_reservation_bytes rows ≤ m.max_package_storage_bytes
    → active_package_storage_reservation_bytes (effects m d calls rows)
      ≤ m.max_package_storage_bytes
effects-reserved m d [] rows free u h = h
effects-reserved m d (c ∷ cs) rows free u h =
    let (v, k) =
      Outcome-IsWithin m d rows (effect m d c rows) c free.0 (u, h) (effect-Outcome m d rows c) in
    effects-reserved m d cs (effect m d c rows) free.1 v k
