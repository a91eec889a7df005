-- ===== src/CommandBus/Examples.antt =====
-- A bus whose store counts its commands.
use video_review.Base.{
  ℕ, ◌+◌, ◌≡◌, ◌≢◌, refl, true, false, none, some, List, [], ◌∷◌, ◌==◌, inl, if◌then◌else◌, ok,
  arith,
}
use video_review.CommandBus.{
  IdempotencyRecord, Ports, BusStore, package_stale, idempotency_replay, reserve_idempotency,
  complete_idempotency, execute_command, execute_once, admitted, bus_execute,
}
use video_review.CommandBus.Replays.{BusRequest, bus_after}
use video_review.CommandBus.Once.{repeated_request-replayed, foreign_request-refused}

-- Commands are their numbers, all of type 1, and principals are their fingerprints.
abbrev ports : Ports ℕ ℕ ℕ ℕ
ports = record {
  command_type = λ c. 1;
  command_capability = λ t. some 5;
  is_idempotent = λ t. true;
  is_package_command = λ t. false;
  assert_write_allowed = λ x. ok tt;
  entry_allows = λ x capability. true;
  authorize = λ x capability c. ok tt;
  canonical_request_hash = λ c. c;
  principal_fingerprint = λ x. x;
  execute = λ c x n. ok (n + c, n + 1);
  package_replay = λ r n. ok package_stale;
  empty_response = 0;
  without_token = λ r. r;
}

abbrev new_bus : BusStore ℕ ℕ
new_bus = record { records = λ k. none; store = 0 }

abbrev others : List (BusRequest ports)
others =
    record { command = 8; context = 2; key = 4 } ∷ record { command = 9; context = 2; key = 3 } ∷ []

abbrev waiting : IdempotencyRecord ℕ
waiting = record {
  command_type = 1;
  request_hash = 7;
  principal_hash = 2;
  response_json = 0;
  status_code = 102;
}

abbrev done : IdempotencyRecord ℕ
done = record waiting { response_json = 7; status_code = 200 }

abbrev answered : BusStore ℕ ℕ
answered = record {
  records = (λ k. if 3 == k then some done else (if 3 == k then some waiting else none));
  store = 1;
}

first_request : bus_execute ports 7 2 3 new_bus ≡ ok (7, answered)
unfolding bus_execute admitted execute_once reserve_idempotency execute_command complete_idempotency
first_request = refl

-- The command with another key takes effect, the one with the same key does not.
others_run : (bus_after ports others answered).store ≡ 2
unfolding bus_execute admitted execute_once reserve_idempotency idempotency_replay execute_command
    complete_idempotency
others_run = refl

repeated_request-replayed_example :
    bus_execute ports 7 2 3 (bus_after ports others answered)
    ≡ ok (7, bus_after ports others answered)
unfolding admitted
repeated_request-replayed_example =
    repeated_request-replayed ports 7 2 3 refl 2 new_bus answered 7 others refl refl refl
      first_request

foreign_request-refused_example :
    bus_execute ports 9 2 3 (bus_after ports others answered) ≢ ok (9, answered)
foreign_request-refused_example =
    foreign_request-refused ports 7 2 3 refl 9 2 new_bus answered 7 others (9, answered) refl refl
      (inl (λ e. ground (arith, e))) first_request
