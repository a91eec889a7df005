-- ===== src/WriteGuard/Examples.antt =====
-- Two wrong codes lock a key, and then the right code does not open.
use video_review.Base.{◌≤◌, ◌≡◌, ◌≢◌, refl, true, some, List, [], ◌∷◌, length, ok, arith}
use video_review.WriteGuard.{
  Attempt, Settings, Request, max_attempt_entries, lookup, verify_shared_code, attempts_after,
}
use video_review.WriteGuard.Lockout.{locked_key-refused, length-attempts_after}

abbrev settings : Settings
settings = record {
  is_shared_code = true;
  write_guard_code = 1 ∷ 2 ∷ [];
  failure_window_seconds = 300;
  max_failures = 2;
  lockout_seconds = 60;
}

abbrev wrong_codes : List Request
wrong_codes =
    record { now = 10; submitted_code = 3 ∷ []; key = 5 }
    ∷ record { now = 11; submitted_code = 1 ∷ []; key = 5 }
    ∷ []

abbrev others : List Request
others = record { now = 20; submitted_code = 1 ∷ 2 ∷ []; key = 6 } ∷ []

abbrev locked_attempt : Attempt
locked_attempt = record { failures = 2; first_failed_at = some 10; locked_until = some 71 }

key_locked : lookup 5 (attempts_after settings [] wrong_codes) ≡ some locked_attempt
unfolding attempts_after verify_shared_code
key_locked = refl

-- After the lockout the right code opens.
key_opens :
    (verify_shared_code settings 71 (attempts_after settings [] wrong_codes) (1 ∷ 2 ∷ []) 5).1
    ≡ ok tt
unfolding attempts_after verify_shared_code
key_opens = refl

locked_key-refused_example :
    (verify_shared_code settings 30
      (attempts_after settings (attempts_after settings [] wrong_codes) others)
      (1 ∷ 2 ∷ [])
      5).1
    ≢ ok tt
locked_key-refused_example =
    locked_key-refused settings (attempts_after settings [] wrong_codes) others 30 5 71
      locked_attempt (1 ∷ 2 ∷ []) key_locked refl (omega arith, tt) (omega arith)

length-attempts_after_example :
    length (attempts_after settings [] wrong_codes) ≤ max_attempt_entries
length-attempts_after_example = length-attempts_after settings [] wrong_codes (omega arith)
