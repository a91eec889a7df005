-- ===== src/WriteGuard.antt =====
-- The attempts on the shared code of the write guard: `ConfiguredWriteGuardAdapter` of
-- backend/app/modules/review_access/policies.py. Texts are lists of code points, keys are numbers,
-- times are numbers of seconds; the dictionary of attempts is the list of its entries in their
-- order. The signing of the session is not modelled.
pub mod Lockout
mod Examples
use video_review.Base.{
  ℕ, ◌+◌, ◌-◌, Bool, true, false, not, ◌&&◌, ◌||◌, Option, none, some, List, [], ◌∷◌, ◌++◌, ltb,
  leb, ◌==◌, if◌then◌else◌, length, Result, ok, err, write_guard_invalid,
  port_operation_not_supported,
}

pub record Attempt : Type 0 where
  pub failures : ℕ
  pub first_failed_at : Option ℕ
  pub locked_until : Option ℕ

pub record Entry : Type 0 where
  pub key : ℕ
  pub attempt : Attempt

pub record Settings : Type 0 where
  pub is_shared_code : Bool
  pub write_guard_code : List ℕ
  pub failure_window_seconds : ℕ
  pub max_failures : ℕ
  pub lockout_seconds : ℕ

abbrev pub max_attempt_entries : ℕ
max_attempt_entries = 4096

abbrev pub shared_code_max_length : ℕ
shared_code_max_length = 256

pub same_text : List ℕ → List ℕ → Bool
same_text [] [] = true
same_text [] (y ∷ ys) = false
same_text (x ∷ xs) [] = false
same_text (x ∷ xs) (y ∷ ys) = x == y && same_text xs ys

abbrev is_before : ℕ → Option ℕ → ℕ → Bool
is_before now none window = false
is_before now (some first) window = ltb window (now - first)

-- The condition on the keys that `_prune_expired_attempts` collects.
abbrev pub is_expired : Settings → ℕ → Attempt → Bool
is_expired s now a = elim a.locked_until [
  | some l ↦ leb l now
  | none ↦ is_before now a.first_failed_at s.failure_window_seconds
]

pub prune_expired_attempts : Settings → ℕ → List Entry → List Entry
prune_expired_attempts s now [] = []
prune_expired_attempts s now (e ∷ es) =
    let rest = prune_expired_attempts s now es in
    if is_expired s now e.attempt then rest else e ∷ rest

-- `attempts.get(key)`, `attempts.pop(key, None)`, and the change of an entry in its place.
abbrev pub lookup : ℕ → List Entry → Option Attempt
lookup key [] = none
lookup key (e ∷ es) = if e.key == key then some e.attempt else lookup key es

abbrev pub remove : ℕ → List Entry → List Entry
remove key [] = []
remove key (e ∷ es) = let rest = remove key es in if e.key == key then rest else e ∷ rest

abbrev pub replace : ℕ → Attempt → List Entry → List Entry
replace key a [] = []
replace key a (e ∷ es) =
    (if e.key == key then record { key = key; attempt = a } else e) ∷ replace key a es

abbrev pub is_locked : ℕ → Option Attempt → Bool
is_locked now none = false
is_locked now (some a) = elim a.locked_until [ none ↦ false | some l ↦ ltb now l ]

-- What a wrong code does to its attempt.
abbrev failed_once : Settings → ℕ → Attempt → Attempt
failed_once s now a = record {
  failures = a.failures + 1;
  first_failed_at = if a.failures == 0 then some now else a.first_failed_at;
  locked_until =
      if leb s.max_failures (a.failures + 1)
      then some (now + s.lockout_seconds)
      else a.locked_until;
}

abbrev pub is_empty : List ℕ → Bool
is_empty [] = true
is_empty (x ∷ xs) = false

-- A wrong code, with the attempt of its key.
abbrev pub refuse : Settings → ℕ → List Entry → ℕ → Option Attempt → List Entry
refuse s now es key none =
    if leb max_attempt_entries (length es)
    then es
    else es
      ++ record {
        key = key;
        attempt =
            failed_once s now
              (record { failures = 0; first_failed_at = none; locked_until = none });
      }
        ∷ []
refuse s now es key (some a) = replace key (failed_once s now a) es

-- The part of `verify_shared_code` under the lock, behind the pruning.
pub verify_pruned : Settings → ℕ → List Entry → List ℕ → ℕ → List Entry × Result (Unit {0})
unfolding same_text
verify_pruned s now es submitted_code key =
    if is_locked now (lookup key es)
    then (es, err write_guard_invalid)
    else if not (is_empty s.write_guard_code) && same_text submitted_code s.write_guard_code
    then (remove key es, ok tt)
    else (refuse s now es key (lookup key es), err write_guard_invalid)

pub verify_shared_code : Settings → ℕ → List Entry → List ℕ → ℕ → List Entry × Result (Unit {0})
unfolding prune_expired_attempts verify_pruned
verify_shared_code s now es submitted_code key =
    if not s.is_shared_code
    then (es, err port_operation_not_supported)
    else if is_empty submitted_code || ltb shared_code_max_length (length submitted_code)
    then (es, err write_guard_invalid)
    else verify_pruned s now (prune_expired_attempts s now es) submitted_code key

-- Requests one after another, from any clients.
pub record Request : Type 0 where
  pub now : ℕ
  pub submitted_code : List ℕ
  pub key : ℕ

pub attempts_after : Settings → List Entry → List Request → List Entry
attempts_after s es [] = es
attempts_after s es (r ∷ rs) =
    attempts_after s (verify_shared_code s r.now es r.submitted_code r.key).0 rs
