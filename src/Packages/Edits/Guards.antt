-- ===== src/Packages/Edits/Guards.antt =====
-- What the guards of the download operations find, once they pass.
use video_review.Base.{
  ℕ, ◌≡◌, refl, Bool, true, false, not, Option, none, some, List, [], ◌∷◌, leb, ◌==◌, is_some, Code,
  Result, ok, err, ◌>>◌, raise_if, arith, Ensures, Ensures-bind, Ensures-ok, eq_of_test,
  principal_permission_denied, resource_not_found,
}
use video_review.Review.Store.{Project}
use video_review.Packages.{Text, text_eq, Snapshot, row}
use video_review.Packages.Downloads.{
  FileIdentity, identity_eq, SessionState, visible_row, of_package, project_is_visible,
  session_hash, require_state, is_text,
}

guarded_ok {ℓ} :
    {A : Type ℓ} (b : Bool) (code : Code) (a value : A)
    → (raise_if b code >> ok a) ≡ ok value
    → a ≡ value
guarded_ok false code a value h = cc
guarded_ok true code a value h = cc

of_package-some :
    (project : ℕ) (o : Option Snapshot) (p : Snapshot) → of_package project o ≡ ok p → o ≡ some p
of_package-some project none p h = cc
of_package-some project (some q) p h =
    rw (guarded_ok (not (q.project_ref_id == project)) resource_not_found q p h) refl

of_package-found :
    (project id : ℕ) (rows : List Snapshot)
    → Ensures (λ q. row id rows ≡ some q) (of_package project (row id rows))
of_package-found project id rows = go (of_package project (row id rows)) refl
  where
    go :
        (r : Result Snapshot)
        → of_package project (row id rows) ≡ r
        → Ensures (λ q. row id rows ≡ some q) r
    go (ok q) e = of_package-some project (row id rows) q e
    go (err c) e = tt

pub visible_row-row :
    (projects : ℕ → Option Project) (project id : ℕ) (rows : List Snapshot) (p : Snapshot)
    → visible_row projects project id rows ≡ ok p
    → row id rows ≡ some p
visible_row-row projects project id rows p h =
    Ensures-ok (λ q. row id rows ≡ some q) (visible_row projects project id rows)
      (Ensures-bind _ (project_is_visible (projects project)) _
        λ a ea. of_package-found project id rows)
      h

pub session_hash-some :
    (now : ℕ) (h : Option Text) (expires : Option ℕ) (stored : Text)
    → session_hash now h expires ≡ ok stored
    → (h ≡ some stored) × (is_some expires ≡ true)
session_hash-some now none expires stored e = cc
session_hash-some now (some t) none stored e = cc
session_hash-some now (some t) (some x) stored e =
    (rw (guarded_ok (leb x now) principal_permission_denied t stored e) refl, refl)

pub text_of_test : (t u : Text) → text_eq t u ≡ true → t ≡ u
text_of_test [] [] h = refl
text_of_test [] (c ∷ cs) h = cc
text_of_test (b ∷ bs) [] h = cc
text_of_test (b ∷ bs) (c ∷ cs) h =
    rw (eq_of_test b c (ground arith), text_of_test bs cs (ground arith)) refl

pub identity_of_test : (f g : FileIdentity) → identity_eq f g ≡ true → f ≡ g
identity_of_test f g h =
    rw
      (
        eq_of_test f.device g.device (ground arith),
        eq_of_test f.inode g.inode (ground arith),
        eq_of_test f.ctime_ns g.ctime_ns (ground arith),
        eq_of_test f.mtime_ns g.mtime_ns (ground arith),
        eq_of_test f.size g.size (ground arith),
      )
      refl

pub require_state-some :
    (o : Option SessionState) (state : SessionState) → require_state o ≡ ok state → o ≡ some state
require_state-some none state h = cc
require_state-some (some t) state h = cc

pub is_text-some : (t : Text) (o : Option Text) → is_text t o ≡ true → o ≡ some t
is_text-some t none h = cc
is_text-some t (some u) h = rw (text_of_test u t h) refl
