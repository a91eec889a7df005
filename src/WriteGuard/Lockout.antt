-- ===== src/WriteGuard/Lockout.antt =====
-- The size of the attempts, and the lockout of a key, in policies.py.
use video_review.Base.{
  ℕ, ◌≤◌, ◌<◌, ◌≡◌, ◌≢◌, refl, Bool, true, false, not, ◌&&◌, ◌||◌, Option, none, some, List, [],
  ◌∷◌, ◌++◌, ltb, leb, ◌==◌, length, length-append, ok, err, write_guard_invalid, arith, some_eq,
  eq_of_test, All, Bool-cases, inl, inr,
}
use video_review.WriteGuard.{
  Attempt, Entry, Settings, max_attempt_entries, shared_code_max_length, same_text, is_expired,
  prune_expired_attempts, lookup, remove, replace, is_locked, is_empty, refuse, verify_pruned,
  verify_shared_code, Request, attempts_after,
}

length-prune :
    (s : Settings) (now : ℕ) (es : List Entry)
    → length (prune_expired_attempts s now es) ≤ length es
unfolding prune_expired_attempts
length-prune s now [] = omega arith
length-prune s now (e ∷ es) = ground (arith, length-prune s now es)

length-remove : (key : ℕ) (es : List Entry) → length (remove key es) ≤ length es
length-remove key [] = omega arith
length-remove key (e ∷ es) = ground (arith, length-remove key es)

length-replace : (key : ℕ) (a : Attempt) (es : List Entry) → length (replace key a es) ≡ length es
length-replace key a [] = refl
length-replace key a (e ∷ es) = omega (arith, length-replace key a es)

length-refuse :
    (s : Settings) (now : ℕ) (es : List Entry) (key : ℕ) (o : Option Attempt)
    → length es ≤ max_attempt_entries
    → length (refuse s now es key o) ≤ max_attempt_entries
length-refuse s now es key none h = elim (Bool-cases (leb max_attempt_entries (length es))) [
  | inl full ↦ rw full h
  | inr room ↦ rw (room, length-append) (ground (arith, room))
]
length-refuse s now es key (some a) h = rw length-replace h

length-verify_pruned :
    (s : Settings) (now : ℕ) (es : List Entry) (code : List ℕ) (key : ℕ)
    → length es ≤ max_attempt_entries
    → length (verify_pruned s now es code key).0 ≤ max_attempt_entries
unfolding verify_pruned
length-verify_pruned s now es code key h = elim (Bool-cases (is_locked now (lookup key es))) [
  | inl locked ↦ rw locked h
  | inr free ↦
      elim (Bool-cases (not (is_empty s.write_guard_code) && same_text code s.write_guard_code)) [
        | inl right ↦ rw (free, right) (omega (arith, length-remove key es))
        | inr wrong ↦ rw (free, wrong) (length-refuse s now es key (lookup key es) h)
      ]
]

-- A key with this attempt, locked until `l`.
lookup-prune :
    (s : Settings) (now : ℕ) (es : List Entry) (k l : ℕ) (a : Attempt)
    → lookup k es ≡ some a
    → a.locked_until ≡ some l
    → now < l
    → lookup k (prune_expired_attempts s now es) ≡ some a
unfolding prune_expired_attempts
lookup-prune s now [] k l a row until h = row
lookup-prune s now (e ∷ es) k l a row until h = elim (Bool-cases (e.key == k)) [
  | inl mine ↦
      (let same : e.attempt ≡ a = some_eq (rw mine at row) in
        let stays : is_expired s now e.attempt ≡ false = rw (same, until) (ground (arith, h)) in
        rw (stays, mine, same) refl)
  | inr other ↦ elim (Bool-cases (is_expired s now e.attempt)) [
    | inl gone ↦ rw gone (lookup-prune s now es k l a (rw other at row) until h)
    | inr stays ↦ rw (stays, other) (lookup-prune s now es k l a (rw other at row) until h)
  ]
]

lookup-remove :
    (key k : ℕ) (es : List Entry) → (key == k) ≡ false → lookup k (remove key es) ≡ lookup k es
lookup-remove key k [] e = refl
lookup-remove key k (x ∷ es) e = ground (arith, lookup-remove key k es e)

lookup-replace :
    (key k : ℕ) (a : Attempt) (es : List Entry)
    → (key == k) ≡ false
    → lookup k (replace key a es) ≡ lookup k es
lookup-replace key k a [] e = refl
lookup-replace key k a (x ∷ es) e = ground (arith, lookup-replace key k a es e)

lookup-append :
    (k : ℕ) (es : List Entry) (x : Entry) (a : Attempt)
    → lookup k es ≡ some a
    → lookup k (es ++ x ∷ []) ≡ some a
lookup-append k [] x a h = ground (arith, h)
lookup-append k (e ∷ es) x a h = elim (Bool-cases (e.key == k)) [
  | inl mine ↦ rw mine (rw mine at h)
  | inr other ↦ rw other (lookup-append k es x a (rw other at h))
]

lookup-refuse :
    (s : Settings) (now : ℕ) (es : List Entry) (key k : ℕ) (o : Option Attempt) (a : Attempt)
    → (key == k) ≡ false
    → lookup k es ≡ some a
    → lookup k (refuse s now es key o) ≡ some a
lookup-refuse s now es key k none a e h = elim (Bool-cases (leb max_attempt_entries (length es))) [
  | inl full ↦ rw full h
  | inr room ↦ rw room (lookup-append k es _ a h)
]
lookup-refuse s now es key k (some b) a e h = rw (lookup-replace key k _ es e) h

locked-verify_pruned :
    (s : Settings) (now : ℕ) (es : List Entry) (code : List ℕ) (k l : ℕ) (a : Attempt)
    → lookup k es ≡ some a
    → a.locked_until ≡ some l
    → now < l
    → verify_pruned s now es code k ≡ (es, err write_guard_invalid)
unfolding verify_pruned
locked-verify_pruned s now es code k l a row until h =
    let locked : is_locked now (lookup k es) ≡ true = rw (row, until) (ground (arith, h)) in
    rw locked refl

lookup-verify_pruned :
    (s : Settings) (now : ℕ) (es : List Entry) (code : List ℕ) (key k l : ℕ) (a : Attempt)
    → lookup k es ≡ some a
    → a.locked_until ≡ some l
    → now < l
    → lookup k (verify_pruned s now es code key).0 ≡ some a
unfolding verify_pruned
lookup-verify_pruned s now es code key k l a row until h =
    elim (Bool-cases (is_locked now (lookup key es))) [
      | inl locked ↦ rw locked row
      | inr free ↦
          elim (Bool-cases
            (not (is_empty s.write_guard_code) && same_text code s.write_guard_code)) [
              | inl right ↦ rw (free, right, lookup-remove key k es (apart free)) row
              | inr wrong ↦
                  rw (free, wrong) (lookup-refuse s now es key k (lookup key es) a (apart free) row)
            ]
    ]
  where
    apart : is_locked now (lookup key es) ≡ false → (key == k) ≡ false
    apart free = elim (Bool-cases (key == k)) [
      | inl same ↦
          (let locked : is_locked now (lookup key es) ≡ true =
              rw (eq_of_test key k same, row, until) (ground (arith, h)) in
            ground (arith, locked, free))
      | inr other ↦ other
    ]

lookup-verify_shared_code :
    (s : Settings) (now : ℕ) (es : List Entry) (code : List ℕ) (key k l : ℕ) (a : Attempt)
    → lookup k es ≡ some a
    → a.locked_until ≡ some l
    → now < l
    → lookup k (verify_shared_code s now es code key).0 ≡ some a
unfolding verify_shared_code
lookup-verify_shared_code s now es code key k l a row until h =
    elim (Bool-cases (not s.is_shared_code)) [
      | inl other ↦ rw other row
      | inr shared ↦ elim (Bool-cases (is_empty code || ltb shared_code_max_length (length code))) [
        | inl bad ↦ rw (shared, bad) row
        | inr good ↦
            rw (shared, good)
              (lookup-verify_pruned s now (prune_expired_attempts s now es) code key k l a
                (lookup-prune s now es k l a row until h) until h)
      ]
    ]

lookup-attempts_after :
    (s : Settings) (es : List Entry) (rs : List Request) (k l : ℕ) (a : Attempt)
    → lookup k es ≡ some a
    → a.locked_until ≡ some l
    → All (λ r. r.now < l) rs
    → lookup k (attempts_after s es rs) ≡ some a
unfolding attempts_after
lookup-attempts_after s es [] k l a row until h = row
lookup-attempts_after s es (r ∷ rs) k l a row until h =
    lookup-attempts_after s (verify_shared_code s r.now es r.submitted_code r.key).0 rs k l a
      (lookup-verify_shared_code s r.now es r.submitted_code r.key k l a row until h.0) until h.1

-- While a key is locked, after any requests of any keys with any codes, a further request of that
-- key with any code does not verify, if all these requests come before the end of the lock.
pub locked_key-refused :
    (s : Settings) (es : List Entry) (rs : List Request) (now k l : ℕ) (a : Attempt) (code : List ℕ)
    → lookup k es ≡ some a
    → a.locked_until ≡ some l
    → All (λ r. r.now < l) rs
    → now < l
    → (verify_shared_code s now (attempts_after s es rs) code k).1 ≢ ok tt
unfolding verify_shared_code
locked_key-refused s es rs now k l a code row until before h =
    elim (Bool-cases (not s.is_shared_code)) [
      | inl other ↦ rw other (ground arith)
      | inr shared ↦ elim (Bool-cases (is_empty code || ltb shared_code_max_length (length code))) [
        | inl bad ↦ rw (shared, bad) (ground arith)
        | inr good ↦
            rw
              (
                shared,
                good,
                locked-verify_pruned s now (prune_expired_attempts s now (attempts_after s es rs))
                    code k l a
                    (lookup-prune s now (attempts_after s es rs) k l a
                      (lookup-attempts_after s es rs k l a row until before) until h)
                    until h,
              )
              (ground arith)
      ]
    ]

-- If there are at most 4096 attempts, there are at most 4096 after any requests.
pub length-attempts_after :
    (s : Settings) (es : List Entry) (rs : List Request)
    → length es ≤ max_attempt_entries
    → length (attempts_after s es rs) ≤ max_attempt_entries
unfolding attempts_after verify_shared_code
length-attempts_after s es [] h = h
length-attempts_after s es (r ∷ rs) h =
    length-attempts_after s (verify_shared_code s r.now es r.submitted_code r.key).0 rs
      (step (not s.is_shared_code) refl)
  where
    step :
        (b : Bool)
        → not s.is_shared_code ≡ b
        → length (verify_shared_code s r.now es r.submitted_code r.key).0 ≤ max_attempt_entries
    step true e = rw e h
    step false e =
        elim (Bool-cases
          (is_empty r.submitted_code || ltb shared_code_max_length (length r.submitted_code))) [
            | inl bad ↦ rw (e, bad) h
            | inr good ↦
                rw (e, good)
                  (length-verify_pruned s r.now (prune_expired_attempts s r.now es) r.submitted_code
                    r.key (omega (arith, length-prune s r.now es, h)))
          ]
