-- ===== src/Packages/Exclusive.antt =====
-- Leases on packages while they last: one download and one build of a package at a time.
use video_review.Base.{
  ℕ, ◌+◌, ◌≤◌, ◌<◌, ◌≡◌, ◌≢◌, inl, inr, refl, true, false, Bool, Option, none, some, List, [], ◌∷◌,
  ◌==◌, opt_eq, ok, Ensures-ok, arith, All, some_eq,
}
use video_review.Review.Store.{Project}
use mathlib.Core.Path.{sym, subst}
use video_review.Packages.{Text, Snapshot, PackageSettings, row, is_live}
use video_review.Packages.Downloads.{
  Digests, PackageFiles, Grant, begin_row, begin_package_download,
}
use video_review.Packages.Operations.{
  Call, admit, claim, publish, report_failure, authorize, begin, mark_verified, renew, release,
  effect, effects,
}
use video_review.Packages.Edits.{
  Edit, interrupted, leased, published, retried, given_up, authorized, begun, marked, renewed,
  released,
}
use video_review.Packages.Edits.Transfers.{begin-Ensures}
use video_review.Packages.Rows.{row-id, row-write, found_row}
use video_review.Packages.Tracking.{effect-Next}

-- The clock of a call.
abbrev time_of : Call → ℕ
time_of (admit now disk q) = now
time_of (claim now lease_id id) = now
time_of (publish now disk a) = now
time_of (report_failure now r) = now
time_of (authorize now projects files token project id) = now
time_of (begin now lease_id projects files project id token is_resume) = now
time_of (mark_verified now files id lease_id token expected f) = now
time_of (renew now id lease_id) = now
time_of (release now id lease_id completed) = now

-- The call does not give the download lease back.
abbrev pub Holds : ℕ → Call → Type 0
Holds lease_id (release now id other completed) = other ≢ lease_id
Holds lease_id _ = Unit

pub test_of_eq : (a b : ℕ) → a ≡ b → (a == b) ≡ true
test_of_eq a b h = ground arith

opt_eq-some : (o : Option ℕ) (a b : ℕ) → o ≡ some a → opt_eq o (some b) ≡ true → a ≡ b
opt_eq-some none a b h e = cc
opt_eq-some (some c) a b h e = let here : c ≡ a = some_eq h in ground arith

live_lease :
    (id expires : Option ℕ) (lease_id end now : ℕ)
    → id ≡ some lease_id
    → expires ≡ some end
    → now < end
    → is_live id expires now ≡ true
live_lease none expires lease_id end now h k l = cc
live_lease (some a) none lease_id end now h k l = cc
live_lease (some a) (some b) lease_id end now h k l = let here : b ≡ end = some_eq k in ground arith

module _ (m : PackageSettings) (d : Digests) where
  -- The package is leased to a download until `end` at least.
  abbrev IsDownloading : ℕ → ℕ → ℕ → List Snapshot → Type 0
  IsDownloading id lease_id end rows =
      (p : Snapshot) × (row id rows ≡ some p)
      × (p.download_lease_id ≡ some lease_id)
      × ((last : ℕ) × (p.download_lease_expires_at ≡ some last) × (end ≤ last))

  -- The call falls into the time of the lease that ends at `end`.
  abbrev pub Within : ℕ → Call → Type 0
  Within end c = (time_of c < end) × (end ≤ time_of c + m.package_download_lease)

  busy_lease :
      (p : Snapshot) (lease_id end last now : ℕ)
      → p.download_lease_id ≡ some lease_id
      → p.download_lease_expires_at ≡ some last
      → end ≤ last
      → now < end
      → is_live p.download_lease_id p.download_lease_expires_at now ≡ false
      → ⊥
  busy_lease p lease_id end last now h k l t free =
      let here : true ≡ false =
        rw
          (← live_lease p.download_lease_id p.download_lease_expires_at lease_id last now h k
            (omega arith))
          free in
      cc

  Edit-IsDownloading :
      (rows t : List Snapshot) (id lease_id end last : ℕ) (p q : Snapshot) (c : Call)
      → p.download_lease_id ≡ some lease_id
      → p.download_lease_expires_at ≡ some last
      → end ≤ last
      → Within end c
      → Holds lease_id c
      → row id t ≡ some q
      → Edit m d rows p c q
      → IsDownloading id lease_id end t
  Edit-IsDownloading rows t id lease_id end last p q c h k l w n at
        (interrupted now lease id_ building due used) =
      (q, at, h, (last, k, l))
  Edit-IsDownloading rows t id lease_id end last p q c h k l w n at
        (leased now lease id_ building due more) =
      (q, at, h, (last, k, l))
  Edit-IsDownloading rows t id lease_id end last p q c h k l w n at
        (published now disk a building holds fits) =
      (q, at, h, (last, k, l))
  Edit-IsDownloading rows t id lease_id end last p q c h k l w n at
        (retried now r building holds more) =
      (q, at, h, (last, k, l))
  Edit-IsDownloading rows t id lease_id end last p q c h k l w n at
        (given_up now r building holds) =
      (q, at, h, (last, k, l))
  Edit-IsDownloading rows t id lease_id end last p q c h k l w n at
        (authorized now projects files token project id_ expires f free) =
      (q, at, h, (last, k, l))
  Edit-IsDownloading rows t id lease_id end last p q c h k l w n at
        (begun now lease projects files project id_ token is_resume f state stored there expires
          found free) =
      absurd (busy_lease p lease_id end last now h k l w.0 free)
  Edit-IsDownloading rows t id lease_id end last p q c h k l w n at
        (marked now files id_ lease token expected identity current holds session sha same) =
      (q, at, h, (last, k, l))
  Edit-IsDownloading rows t id lease_id end last p q c h k l w n at (renewed now id_ lease holds) =
      (q, at, h, (_, refl, w.1))
  Edit-IsDownloading rows t id lease_id end last p q c h k l w n at
        (released now id_ lease completed holds) =
      absurd (n (sym (opt_eq-some p.download_lease_id lease_id lease h holds)))

  effect-IsDownloading :
      (rows : List Snapshot) (id lease_id end : ℕ) (c : Call)
      → IsDownloading id lease_id end rows
      → Within end c
      → Holds lease_id c
      → IsDownloading id lease_id end (effect m d c rows)
  effect-IsDownloading rows id lease_id end c (p, at, h, (last, k, l)) w n =
      elim (effect-Next m d rows id p c at) [
        | inl same ↦ (p, same, h, (last, k, l))
        | inr (q, there, edit) ↦
            Edit-IsDownloading rows (effect m d c rows) id lease_id end last p q c h k l w n there
              edit
      ]

  effects-IsDownloading :
      (calls : List Call) (rows : List Snapshot) (id lease_id end : ℕ)
      → IsDownloading id lease_id end rows
      → All (Within end) calls
      → All (Holds lease_id) calls
      → IsDownloading id lease_id end (effects m d calls rows)
  effects-IsDownloading [] rows id lease_id end h w n = h
  effects-IsDownloading (c ∷ cs) rows id lease_id end h w n =
      effects-IsDownloading cs (effect m d c rows) id lease_id end
        (effect-IsDownloading rows id lease_id end c h w.0 n.0) w.1 n.1

  begun-IsDownloading :
      (rows t : List Snapshot) (grant : Grant) (now lease_id : ℕ) (projects : ℕ → Option Project)
      (files : PackageFiles) (project id : ℕ) (token : Text) (is_resume : Bool)
      → begin_package_download m d projects files now lease_id project id token is_resume rows
        ≡ ok (grant, t)
      → IsDownloading id lease_id (now + m.package_download_lease) t
  begun-IsDownloading rows t grant now lease_id projects files project id token is_resume =
      Ensures-ok (λ at. IsDownloading id lease_id (now + m.package_download_lease) at.1)
        (begin_package_download m d projects files now lease_id project id token is_resume rows)
        (begin-Ensures m d rows
          (λ at. IsDownloading id lease_id (now + m.package_download_lease) at.1) now lease_id
          projects files project id token is_resume
          λ p f state stored h.
            let mine : p.id ≡ id = row-id id rows p h.found in
            (
              begin_row m d now lease_id token f state p,
              rw
                  (
                    row-write rows p (begin_row m d now lease_id token f state p) id
                        (found_row id rows p h.found),
                    test_of_eq p.id id mine,
                  )
                  refl,
              refl,
              (now + m.package_download_lease, refl, omega arith),
            ))

  -- When a download of a package begins, no further download of it begins before the end of that
  -- lease, whatever calls on packages come in between, if they fall into the time of the lease and
  -- none of them releases it.
  pub second_download-refused :
      (rows t : List Snapshot) (grant : Grant) (now lease_id : ℕ) (projects : ℕ → Option Project)
      (files : PackageFiles) (project id : ℕ) (token : Text) (is_resume : Bool) (calls : List Call)
      (later other_lease : ℕ) (other_projects : ℕ → Option Project) (other_files : PackageFiles)
      (other_project : ℕ) (other_token : Text) (resumes : Bool) (answer : Grant × List Snapshot)
      → begin_package_download m d projects files now lease_id project id token is_resume rows
        ≡ ok (grant, t)
      → All (Within (now + m.package_download_lease)) calls
      → All (Holds lease_id) calls
      → later < now + m.package_download_lease
      → begin_package_download m d other_projects other_files later other_lease other_project id
          other_token resumes
          (effects m d calls t)
        ≢ ok answer
  second_download-refused rows t grant now lease_id projects files project id token is_resume calls
        later other_lease other_projects other_files other_project other_token resumes answer first
        within holds soon =
      Ensures-ok (λ at. ⊥)
        (begin_package_download m d other_projects other_files later other_lease other_project id
          other_token resumes (effects m d calls t))
        (begin-Ensures m d (effects m d calls t) (λ at. ⊥) later other_lease other_projects
          other_files other_project id other_token resumes
          λ q f state stored h. refused q h.found h.free (
            effects-IsDownloading calls t id lease_id (now + m.package_download_lease)
              (begun-IsDownloading rows t grant now lease_id projects files project id token
                is_resume first)
              within holds))
    where
      refused :
          (q : Snapshot)
          → row id (effects m d calls t) ≡ some q
          → is_live q.download_lease_id q.download_lease_expires_at later ≡ false
          → IsDownloading id lease_id (now + m.package_download_lease) (effects m d calls t)
          → ⊥
      refused q at free (p, found, h, (last, k, l)) =
          let same : p ≡ q = some_eq (rw (← found) at) in
          busy_lease p lease_id (now + m.package_download_lease) last later h k l soon (
            subst (λ r. is_live r.download_lease_id r.download_lease_expires_at later ≡ false)
              (sym same) free)
