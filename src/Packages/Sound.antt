-- ===== src/Packages/Sound.antt =====
-- The check constraints of the table `package_snapshots` in infra/sqlalchemy_models.py, and the
-- limit on the attempts.
use video_review.Base.{
  ℕ, ◌≤◌, ◌≡◌, ◌⊎◌, inl, inr, refl, true, false, Bool, Option, none, some, List, [], ◌∷◌, ◌++◌,
  ◌==◌, if◌then◌else◌, is_none, is_some, opt_eq, arith, Bool-cases, All, some_eq, length,
}
use mathlib.Core.Path.{subst}
use video_review.Packages.{Text, Snapshot, PackageSettings, is_preparing, is_ready, row, write}
use video_review.Review.Store.{preparing}
use video_review.Packages.Downloads.{Digests, is_fresh}
use video_review.Packages.Operations.{
  Call, admit, claim, publish, report_failure, authorize, begin, mark_verified, renew, release,
  effect, effects,
}
use video_review.Packages.Edits.{
  Edit, interrupted, leased, published, retried, given_up, authorized, begun, marked, renewed,
  released, Outcome, unchanged, added, edited, IsNew,
}
use video_review.Packages.Edits.Calls.{effect-Outcome}

some_not_none : {A : Type 0} (o : Option A) → is_some o ≡ true → false ≡ is_none o
some_not_none none h = cc
some_not_none (some a) h = refl

begun_session :
    (b : Bool) (o : Option Text) (new stored : Text)
    → o ≡ some stored
    → is_none (if b then some new else o) ≡ false
begun_session true o new stored e = refl
begun_session false o new stored e = rw e refl

leased-is_some : (o : Option ℕ) (lease_id : ℕ) → opt_eq o (some lease_id) ≡ true → is_none o ≡ false
leased-is_some none lease_id h = cc
leased-is_some (some a) lease_id h = refl

-- A digest has 64 digits, if there is one.
abbrev pub IsDigest : Option Text → Type 0
IsDigest none = Unit
IsDigest (some t) = length t ≡ 64

-- A published archive has a digest of 64 digits, as `hexdigest` of SHA-256 gives it.
abbrev pub Digested : Call → Type 0
Digested (publish now disk a) = length a.sha256 ≡ 64
Digested (admit now disk q) = Unit
Digested (claim now lease_id id) = Unit
Digested (report_failure now r) = Unit
Digested (authorize now projects files token project id) = Unit
Digested (begin now lease_id projects files project id token is_resume) = Unit
Digested (mark_verified now files id lease_id token expected f) = Unit
Digested (renew now id lease_id) = Unit
Digested (release now id lease_id completed) = Unit

module _ (m : PackageSettings) (d : Digests) where
  pub record IsSound (p : Snapshot) : Type 0 where
    -- `ck_package_snapshots_sha256`
    pub sha256_length : IsDigest p.sha256
    -- `ck_package_snapshots_ready_sha256`
    pub ready_sha256 : is_ready p.status ≡ true → is_some p.sha256 ≡ true
    -- `ck_package_snapshots_build_lease`
    pub build_lease :
        ((p.build_lease_id ≡ none) × (p.build_lease_expires_at ≡ none))
        ⊎ ((is_preparing p.status ≡ true)
            × (is_some p.build_lease_id ≡ true)
            × (is_some p.build_lease_expires_at ≡ true))
    -- `ck_package_snapshots_download_session_pair`
    pub session_pair : is_none p.download_session_hash ≡ is_none p.download_session_expires_at
    -- `ck_package_snapshots_download_lease_pair`
    pub lease_pair : is_none p.download_lease_id ≡ is_none p.download_lease_expires_at
    -- `package_worker_max_attempts`
    pub attempts : p.build_attempts ≤ m.package_worker_max_attempts

  Edit-IsSound :
      (rows : List Snapshot) (p q : Snapshot) (c : Call)
      → Digested c
      → IsSound p
      → Edit m d rows p c q
      → IsSound q
  Edit-IsSound rows p q c digested h (interrupted now lease_id id building due used) = record {
    sha256_length = tt;
    ready_sha256 = λ e. cc;
    build_lease = inl (refl, refl);
    session_pair = h.session_pair;
    lease_pair = h.lease_pair;
    attempts = h.attempts;
  }
  Edit-IsSound rows p q c digested h (leased now lease_id id building due more) = record {
    sha256_length = h.sha256_length;
    ready_sha256 = h.ready_sha256;
    build_lease = inr (building, refl, refl);
    session_pair = h.session_pair;
    lease_pair = h.lease_pair;
    attempts = omega arith;
  }
  Edit-IsSound rows p q c digested h (published now disk a building holds fits) = record {
    sha256_length = digested;
    ready_sha256 = λ e. refl;
    build_lease = inl (refl, refl);
    session_pair = h.session_pair;
    lease_pair = h.lease_pair;
    attempts = h.attempts;
  }
  Edit-IsSound rows p q c digested h (retried now r building holds more) = record {
    sha256_length = h.sha256_length;
    ready_sha256 = h.ready_sha256;
    build_lease = inl (refl, refl);
    session_pair = h.session_pair;
    lease_pair = h.lease_pair;
    attempts = h.attempts;
  }
  Edit-IsSound rows p q c digested h (given_up now r building holds) = record {
    sha256_length = tt;
    ready_sha256 = λ e. cc;
    build_lease = inl (refl, refl);
    session_pair = h.session_pair;
    lease_pair = h.lease_pair;
    attempts = h.attempts;
  }
  Edit-IsSound rows p q c digested h
        (authorized now projects files token project id expires f free) =
      record {
        sha256_length = h.sha256_length;
        ready_sha256 = h.ready_sha256;
        build_lease = h.build_lease;
        session_pair = refl;
        lease_pair = h.lease_pair;
        attempts = h.attempts;
      }
  Edit-IsSound rows p q c digested h
        (begun now lease_id projects files project id token is_resume f state stored there expires
          found free) =
      record {
        sha256_length = h.sha256_length;
        ready_sha256 = h.ready_sha256;
        build_lease = h.build_lease;
        session_pair =
            rw (begun_session (is_fresh state) p.download_session_hash _ stored there)
              (some_not_none p.download_session_expires_at expires);
        lease_pair = refl;
        attempts = h.attempts;
      }
  Edit-IsSound rows p q c digested h
        (marked now files id lease_id token expected identity current holds session sha same) =
      record {
        sha256_length = h.sha256_length;
        ready_sha256 = h.ready_sha256;
        build_lease = h.build_lease;
        session_pair = rw (← session) h.session_pair;
        lease_pair = h.lease_pair;
        attempts = h.attempts;
      }
  Edit-IsSound rows p q c digested h (renewed now id lease_id holds) = record {
    sha256_length = h.sha256_length;
    ready_sha256 = h.ready_sha256;
    build_lease = h.build_lease;
    session_pair = h.session_pair;
    lease_pair = leased-is_some p.download_lease_id lease_id holds;
    attempts = h.attempts;
  }
  Edit-IsSound rows p q c digested h (released now id lease_id completed holds) = record {
    sha256_length = h.sha256_length;
    ready_sha256 = h.ready_sha256;
    build_lease = h.build_lease;
    session_pair = h.session_pair;
    lease_pair = refl;
    attempts = h.attempts;
  }

  -- A property of every row survives an edit that keeps it.
  All-write :
      (rows : List Snapshot) (q : Snapshot)
      → All IsSound rows
      → IsSound q
      → All IsSound (write q rows)
  All-write [] q h k = tt
  All-write (r ∷ rs) q h k = elim (Bool-cases (r.id == q.id)) [
    | inl e ↦ rw e (k, h.1)
    | inr e ↦ rw e (h.0, All-write rs q h.1 k)
  ]

  All-row :
      (rows : List Snapshot) (id : ℕ) (p : Snapshot)
      → All IsSound rows
      → row id rows ≡ some p
      → IsSound p
  All-row [] id p h e = cc
  All-row (r ∷ rs) id p h e = elim (Bool-cases (r.id == id)) [
    | inl mine ↦ subst IsSound (some_eq (rw mine at e)) h.0
    | inr other ↦ All-row rs id p h.1 (rw other at e)
  ]

  All-append :
      (rows : List Snapshot) (q : Snapshot)
      → All IsSound rows
      → IsSound q
      → All IsSound (rows ++ q ∷ [])
  All-append [] q h k = (k, tt)
  All-append (r ∷ rs) q h k = (h.0, All-append rs q h.1 k)

  new-IsSound : (rows : List Snapshot) (p : Snapshot) → IsNew m d rows p → IsSound p
  new-IsSound rows p h = record {
    sha256_length = rw h.no_digest tt;
    ready_sha256 = λ e. let here : is_ready preparing ≡ true = rw h.building at e in cc;
    build_lease = inl (h.build_lease, h.build_lease_expires);
    session_pair = rw (h.session, h.session_expires) refl;
    lease_pair = rw (h.download_lease, h.download_lease_expires) refl;
    attempts = rw h.attempts (omega arith);
  }

  Outcome-IsSound :
      (rows t : List Snapshot) (c : Call)
      → Digested c
      → All IsSound rows
      → Outcome m d rows c t
      → All IsSound t
  Outcome-IsSound rows t c digested h (unchanged e) = rw e h
  Outcome-IsSound rows t c digested h (added now disk q p call same is_new e) =
      rw e (All-append rows p h (new-IsSound rows p is_new))
  Outcome-IsSound rows t c digested h (edited p q at same edit e) =
      rw e (All-write rows q h (Edit-IsSound rows p q c digested (All-row rows p.id p h at) edit))

  -- If every row meets the check constraints of `package_snapshots` on digests, build leases,
  -- sessions and download leases and has at most `package_worker_max_attempts` attempts, then
  -- every row does after any calls on packages, if each archive that they publish has a digest of
  -- 64 digits.
  pub effects-IsSound :
      (calls : List Call) (rows : List Snapshot)
      → All Digested calls
      → All IsSound rows
      → All IsSound (effects m d calls rows)
  effects-IsSound [] rows digests h = h
  effects-IsSound (c ∷ cs) rows digests h =
      effects-IsSound cs (effect m d c rows) digests.1
        (Outcome-IsSound rows (effect m d c rows) c digests.0 h (effect-Outcome m d rows c))
