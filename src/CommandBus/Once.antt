-- ===== src/CommandBus/Once.antt =====
-- A command takes effect once under its idempotency key.
use video_review.Base.{
  ℕ, ◌≡◌, ◌≢◌, ◌⊎◌, refl, sym, true, false, not, ◌||◌, Option, none, some, List, ◌==◌, Result, ok,
  err, raise_if, Ensures, Ensures-ok, Ensures-bind, arith, inl, inr, eq_of_test, validation_error,
  principal_permission_denied, idempotency_conflict,
}
use video_review.CommandBus.{
  IdempotencyRecord, Ports, BusStore, put_record, idempotency_replay, reserve_idempotency,
  complete_idempotency, execute_command, execute_reserved, execute_once, admitted, bus_execute,
}
use video_review.CommandBus.Replays.{BusRequest, bus_after, IsAnswered, bus_after-kept}

module _ {X C R S : Type 0} (p : Ports X C R S) (c : C) (x : X) (key : ℕ)
    (plain : p.is_package_command (p.command_type c) ≡ false) where
  abbrev Answers : R × BusStore R S → Type 0
  Answers at = IsAnswered p c x key at.0 at.1

  -- What a reservation leaves: an answer, or a record that waits for one.
  abbrev IsReserved : Option R × BusStore R S → Type 0
  IsReserved (some response, s) = IsAnswered p c x key response s
  IsReserved (none, s) =
      (r : IdempotencyRecord R) × (s.records key ≡ some r)
      × (r.command_type ≡ p.command_type c)
      × (r.request_hash ≡ p.canonical_request_hash c)
      × (r.principal_hash ≡ p.principal_fingerprint x)

  own_key : (r : IdempotencyRecord R) (s : BusStore R S) → (put_record key r s).records key ≡ some r
  own_key r s = let same : (key == key) ≡ true = ground arith in rw same refl

  replay-IsReserved :
      (r : IdempotencyRecord R) (s : BusStore R S)
      → s.records key ≡ some r
      → Ensures IsReserved (
          idempotency_replay p key r
            (p.command_type c)
            (p.canonical_request_hash c)
            (p.principal_fingerprint x)
            s)
  unfolding idempotency_replay
  replay-IsReserved r s h =
      Ensures-bind IsReserved
        (raise_if (not (r.principal_hash == p.principal_fingerprint x)) principal_permission_denied)
        _
        λ a ea.
          Ensures-bind IsReserved
            (raise_if
              (not (r.command_type == p.command_type c)
                || not (r.request_hash == p.canonical_request_hash c))
              idempotency_conflict)
            _
            λ b eb.
              Ensures-bind IsReserved (raise_if (not (r.status_code == 200)) idempotency_conflict) _
                λ e ee. rw plain (
                  r,
                  h,
                  eq_of_test r.command_type (p.command_type c) (ground arith),
                  eq_of_test r.request_hash (p.canonical_request_hash c) (ground arith),
                  eq_of_test r.principal_hash (p.principal_fingerprint x) (ground arith),
                  refl,
                  eq_of_test r.status_code 200 (ground arith),
                )

  reserve-IsReserved :
      (s : BusStore R S)
      → Ensures IsReserved (
          reserve_idempotency p key
            (p.command_type c)
            (p.canonical_request_hash c)
            (p.principal_fingerprint x)
            s)
  unfolding reserve_idempotency
  reserve-IsReserved s = go (s.records key) refl
    where
      go :
          (o : Option (IdempotencyRecord R))
          → s.records key ≡ o
          → Ensures IsReserved (
              reserve_idempotency p key
                (p.command_type c)
                (p.canonical_request_hash c)
                (p.principal_fingerprint x)
                s)
      go none e = rw (e, reserve_idempotency) (_, own_key _ s, refl, refl, refl)
      go (some r) e = rw (e, reserve_idempotency) (replay-IsReserved r s e)

  complete-IsAnswered :
      (response : R) (r : IdempotencyRecord R) (s : BusStore R S)
      → s.records key ≡ some r
      → r.command_type ≡ p.command_type c
      → r.request_hash ≡ p.canonical_request_hash c
      → r.principal_hash ≡ p.principal_fingerprint x
      → Ensures (λ t. IsAnswered p c x key response t) (complete_idempotency p key response s)
  unfolding complete_idempotency
  complete-IsAnswered response r s h a b e =
      let not_package : p.is_package_command r.command_type ≡ false = rw a plain in
      rw (h, complete_idempotency) (_, own_key _ s, a, b, e, rw not_package refl, refl)

  reserved-IsAnswered :
      (reserved : Option R × BusStore R S)
      → IsReserved reserved
      → Ensures Answers (execute_reserved p key c x reserved)
  unfolding execute_command
  reserved-IsAnswered (some response, s) h = h
  reserved-IsAnswered (none, s) (r, h, a, b, e) =
      Ensures-bind Answers (execute_command p c x s) _ λ at eat.
        Ensures-bind Answers (complete_idempotency p key at.0 at.1) _ λ t et.
          Ensures-ok (λ u. IsAnswered p c x key at.0 u) (complete_idempotency p key at.0 at.1)
            (complete-IsAnswered at.0 r at.1 (kept_records at eat) a b e) et
    where
      kept_records :
          (at : R × BusStore R S) → execute_command p c x s ≡ ok at → at.1.records key ≡ some r
      kept_records at =
          Ensures-ok (λ u. u.1.records key ≡ some r) (execute_command p c x s)
            (Ensures-bind (λ u. u.1.records key ≡ some r) (p.execute c x s.store) _ λ done ed. h)

  bus_execute-IsAnswered :
      (s : BusStore R S)
      → p.is_idempotent (p.command_type c) ≡ true
      → Ensures Answers (bus_execute p c x key s)
  unfolding bus_execute execute_once
  bus_execute-IsAnswered s idempotent = Ensures-bind Answers (admitted p c x) _ λ a ea.
      rw idempotent (
        Ensures-bind Answers (raise_if (key == 0) validation_error) _ λ b eb.
          Ensures-bind Answers
            (reserve_idempotency p key (p.command_type c) (p.canonical_request_hash c)
              (p.principal_fingerprint x) s)
            _
            λ reserved er.
              reserved-IsAnswered reserved (Ensures-ok IsReserved _ (reserve-IsReserved s) er))

  given_key :
      (s : BusStore R S)
      → p.is_idempotent (p.command_type c) ≡ true
      → Ensures (λ at. (key == 0) ≡ false) (bus_execute p c x key s)
  unfolding bus_execute execute_once
  given_key s idempotent =
      Ensures-bind (λ at. (key == 0) ≡ false) (admitted p c x) _
        λ a ea. rw idempotent (
          Ensures-bind (λ at. (key == 0) ≡ false) (raise_if (key == 0) validation_error) _
            λ b eb.
              Ensures-bind (λ at. (key == 0) ≡ false)
                (reserve_idempotency p key (p.command_type c) (p.canonical_request_hash c)
                  (p.principal_fingerprint x) s)
                _
                λ reserved er. Ensures-trivial (execute_reserved p key c x reserved) (ground arith))
    where
      Ensures-trivial :
          (r : Result (R × BusStore R S))
          → (key == 0) ≡ false
          → Ensures (λ at. (key == 0) ≡ false) r
      Ensures-trivial (ok at) h = h
      Ensures-trivial (err code) h = tt

  -- A replay from the record.
  answered-replayed :
      (y : X) (response : R) (s : BusStore R S)
      → p.is_idempotent (p.command_type c) ≡ true
      → (key == 0) ≡ false
      → admitted p c y ≡ ok tt
      → p.principal_fingerprint y ≡ p.principal_fingerprint x
      → IsAnswered p c x key response s
      → bus_execute p c y key s ≡ ok (response, s)
  unfolding bus_execute execute_once reserve_idempotency idempotency_replay
  answered-replayed y response s idempotent given allowed same (r, found, a, b, e, answer, done) =
      let type_same : (r.command_type == p.command_type c) ≡ true = ground arith in
      let hash_same : (r.request_hash == p.canonical_request_hash c) ≡ true = ground arith in
      let principal_same : (r.principal_hash == p.principal_fingerprint y) ≡ true = ground arith in
      let complete : (r.status_code == 200) ≡ true = ground arith in
      rw
        (
          bus_execute, allowed, idempotent, execute_once, given, reserve_idempotency, found,
          idempotency_replay, principal_same, type_same, hash_same, complete, plain, answer,
        )
        refl

  -- If an idempotent command that prepares no package has returned an answer under a key, then the
  -- same command of the same principal under this key returns the same answer and changes nothing,
  -- after any further requests under any keys, if the ports admit it.
  pub repeated_request-replayed :
      (y : X) (s t : BusStore R S) (response : R) (requests : List (BusRequest p))
      → p.is_idempotent (p.command_type c) ≡ true
      → admitted p c y ≡ ok tt
      → p.principal_fingerprint y ≡ p.principal_fingerprint x
      → bus_execute p c x key s ≡ ok (response, t)
      → bus_execute p c y key (bus_after p requests t) ≡ ok (response, bus_after p requests t)
  repeated_request-replayed y s t response requests idempotent allowed same first =
      let (r, found, a, b, e, answer, done) =
        Ensures-ok Answers (bus_execute p c x key s) (bus_execute-IsAnswered s idempotent) first in
      let kept = bus_after-kept p key r done (rw a plain) requests t found in
      answered-replayed y response (bus_after p requests t) idempotent
        (Ensures-ok (λ at. (key == 0) ≡ false) (bus_execute p c x key s) (given_key s idempotent)
          first)
        allowed same (r, kept, a, b, e, answer, done)

  -- Another request, or another principal.
  abbrev pub IsForeign : C → X → Type 0
  IsForeign other y =
      (p.canonical_request_hash other ≢ p.canonical_request_hash c)
      ⊎ (p.principal_fingerprint y ≢ p.principal_fingerprint x)

  not_foreign :
      (other : C) (y : X)
      → IsForeign other y
      → p.canonical_request_hash c ≡ p.canonical_request_hash other
      → p.principal_fingerprint x ≡ p.principal_fingerprint y
      → ⊥
  not_foreign other y (inl h) a b = h (sym a)
  not_foreign other y (inr h) a b = h (sym b)

  foreign_replay-refused :
      (other : C) (y : X) (r : IdempotencyRecord R) (s : BusStore R S)
      → IsForeign other y
      → r.request_hash ≡ p.canonical_request_hash c
      → r.principal_hash ≡ p.principal_fingerprint x
      → Ensures
          (λ at. ⊥)
          (idempotency_replay p key r
            (p.command_type other)
            (p.canonical_request_hash other)
            (p.principal_fingerprint y)
            s)
  unfolding idempotency_replay
  foreign_replay-refused other y r s foreign b e =
      Ensures-bind (λ at. ⊥)
        (raise_if (not (r.principal_hash == p.principal_fingerprint y)) principal_permission_denied)
        _
        λ a ea.
          Ensures-bind (λ at. ⊥)
            (raise_if
              (not (r.command_type == p.command_type other)
                || not (r.request_hash == p.canonical_request_hash other))
              idempotency_conflict)
            _
            λ k ek. absurd (
              not_foreign other y foreign
                (rw (← b)
                  (eq_of_test r.request_hash (p.canonical_request_hash other) (ground arith)))
                (rw (← e) (eq_of_test r.principal_hash (p.principal_fingerprint y) (ground arith))))

  -- If an idempotent command that prepares no package has returned an answer under a key, then an
  -- idempotent command with another digest, or of a principal with another fingerprint, never
  -- returns under this key, after any further requests.
  pub foreign_request-refused :
      (other : C) (y : X) (s t : BusStore R S) (response : R) (requests : List (BusRequest p))
      (answer : R × BusStore R S)
      → p.is_idempotent (p.command_type c) ≡ true
      → p.is_idempotent (p.command_type other) ≡ true
      → IsForeign other y
      → bus_execute p c x key s ≡ ok (response, t)
      → bus_execute p other y key (bus_after p requests t) ≢ ok answer
  unfolding bus_execute execute_once reserve_idempotency
  foreign_request-refused other y s t response requests answer idempotent other_idempotent foreign
        first =
      let (r, found, a, b, e, f, done) =
        Ensures-ok Answers (bus_execute p c x key s) (bus_execute-IsAnswered s idempotent) first in
      let kept = bus_after-kept p key r done (rw a plain) requests t found in
      Ensures-ok (λ at. ⊥) (bus_execute p other y key (bus_after p requests t))
        (Ensures-bind (λ at. ⊥) (admitted p other y) _
          λ g eg. rw other_idempotent (
            Ensures-bind (λ at. ⊥) (raise_if (key == 0) validation_error) _
              λ k ek.
                Ensures-bind (λ at. ⊥)
                  (reserve_idempotency p key (p.command_type other) (p.canonical_request_hash other)
                    (p.principal_fingerprint y) (bus_after p requests t))
                  _
                  λ reserved er. absurd (
                    Ensures-ok (λ at. ⊥)
                      (reserve_idempotency p key (p.command_type other)
                        (p.canonical_request_hash other) (p.principal_fingerprint y)
                        (bus_after p requests t))
                      (rw (reserve_idempotency, kept)
                        (foreign_replay-refused other y r (bus_after p requests t) foreign b e))
                      er)))
