-- ===== src/Packages/Tracking.antt =====
-- One row through calls on packages.
use video_review.Base.{
  ℕ, ◌≡◌, ◌⊎◌, inl, inr, refl, some, List, [], ◌∷◌, ◌++◌, ◌==◌, Bool-cases, some_eq, eq_of_test,
}
use mathlib.Core.Path.{subst}
use video_review.Packages.{Snapshot, PackageSettings, row}
use video_review.Packages.Downloads.{Digests}
use video_review.Packages.Operations.{Call, effect}
use video_review.Packages.Rows.{row-write}
use video_review.Packages.Edits.{Edit, Outcome, unchanged, added, edited}
use video_review.Packages.Edits.Calls.{effect-Outcome}

row-append :
    (rows : List Snapshot) (new p : Snapshot) (id : ℕ)
    → row id rows ≡ some p
    → row id (rows ++ new ∷ []) ≡ some p
row-append [] new p id h = cc
row-append (q ∷ qs) new p id h = elim (Bool-cases (q.id == id)) [
  | inl e ↦ rw e (rw e at h)
  | inr e ↦ rw e (row-append qs new p id (rw e at h))
]

module _ (m : PackageSettings) (d : Digests) where
  -- The row is left, or this call edits it.
  abbrev pub Next : List Snapshot → ℕ → Snapshot → Call → List Snapshot → Type 0
  Next rows id p c t =
      (row id t ≡ some p) ⊎ ((q : Snapshot) × (row id t ≡ some q) × Edit m d rows p c q)

  Outcome-Next :
      (rows t : List Snapshot) (id : ℕ) (p : Snapshot) (c : Call)
      → row id rows ≡ some p
      → Outcome m d rows c t
      → Next rows id p c t
  Outcome-Next rows t id p c at (unchanged e) = inl (rw e at)
  Outcome-Next rows t id p c at (added now disk q new call same is_new e) =
      inl (rw e (row-append rows new p id at))
  Outcome-Next rows t id p c at (edited old new found same edit e) =
      elim (Bool-cases (new.id == id)) [
        | inl mine ↦
            let here : old.id ≡ id = rw (← same) (eq_of_test new.id id mine) in
            let is_old : old ≡ p = some_eq (rw (← at, ← here) (rw found refl)) in
            inr (
              new,
              rw (e, row-write rows old new id (rw same found), mine) refl,
              subst (λ r. Edit m d rows r c new) is_old edit,
            )
        | inr other ↦ inl (rw (e, row-write rows old new id (rw same found), other) at)
      ]

  pub effect-Next :
      (rows : List Snapshot) (id : ℕ) (p : Snapshot) (c : Call)
      → row id rows ≡ some p
      → Next rows id p c (effect m d c rows)
  effect-Next rows id p c at =
      Outcome-Next rows (effect m d c rows) id p c at (effect-Outcome m d rows c)
