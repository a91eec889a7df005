-- ===== src/CommandBus/Replays.antt =====
-- Commands that are sent again under their idempotency key.
use video_review.Base.{
  ℕ, ◌≡◌, refl, sym, false, not, ◌||◌, Option, none, some, List, [], ◌∷◌, ◌==◌, Result, ok, err,
  raise_if, Ensures, Ensures-ok, Ensures-bind, Ensures-if, arith, Bool-cases, inl, inr, eq_of_test,
  validation_error, principal_permission_denied, idempotency_conflict,
}
use mathlib.Core.Path.{subst}
use video_review.CommandBus.{
  IdempotencyRecord, PackageReplay, Ports, BusStore, put_record, package_again, package_stale,
  replay_package, idempotency_replay, reserve_idempotency, complete_idempotency, execute_command,
  execute_reserved, execute_once, admitted, bus_execute,
}

module _ {X C R S : Type 0} (p : Ports X C R S) where
  -- A request to the bus.
  pub record BusRequest : Type 0 where
    pub command : C
    pub context : X
    pub key : ℕ

  -- A request that raises is rolled back.
  abbrev kept : BusStore R S → Result (R × BusStore R S) → BusStore R S
  kept s (err code) = s
  kept s (ok (response, t)) = t

  abbrev pub bus_after : List BusRequest → BusStore R S → BusStore R S
  bus_after [] s = s
  bus_after (q ∷ qs) s = bus_after qs (kept s (bus_execute p q.command q.context q.key s))

  -- The key belongs to this completed answer of a command that prepares no package.
  abbrev pub IsAnswered : C → X → ℕ → R → BusStore R S → Type 0
  IsAnswered c x key response s =
      (r : IdempotencyRecord R) × (s.records key ≡ some r)
      × (r.command_type ≡ p.command_type c)
      × (r.request_hash ≡ p.canonical_request_hash c)
      × (r.principal_hash ≡ p.principal_fingerprint x)
      × (r.response_json ≡ response)
      × (r.status_code ≡ 200)

  put_other :
      (key other : ℕ) (r : IdempotencyRecord R) (new : IdempotencyRecord R) (s : BusStore R S)
      → s.records key ≡ some r
      → (other == key) ≡ false
      → (put_record other new s).records key ≡ some r
  put_other key other r new s h e = rw e h

  module _ (key : ℕ) (r : IdempotencyRecord R) (done : r.status_code ≡ 200)
      (plain : p.is_package_command r.command_type ≡ false) where
    -- The record stays, and only another key is reserved.
    abbrev Keeps : ℕ → Option R × BusStore R S → Type 0
    Keeps other reserved =
        (reserved.1.records key ≡ some r) × (reserved.0 ≡ none → (other == key) ≡ false)

    own_replay-Keeps :
        (command_type request_hash principal_hash : ℕ) (s : BusStore R S)
        → s.records key ≡ some r
        → Ensures
            (Keeps key)
            (idempotency_replay p key r command_type request_hash principal_hash s)
    unfolding idempotency_replay
    own_replay-Keeps command_type request_hash principal_hash s h =
        Ensures-bind (Keeps key)
          (raise_if (not (r.principal_hash == principal_hash)) principal_permission_denied) _
          λ a ea.
            Ensures-bind (Keeps key)
              (raise_if
                (not (r.command_type == command_type) || not (r.request_hash == request_hash))
                idempotency_conflict)
              _
              λ b eb.
                Ensures-bind (Keeps key)
                  (raise_if (not (r.status_code == 200)) idempotency_conflict) _
                  λ c ec.
                    let same : r.command_type ≡ command_type =
                      eq_of_test r.command_type command_type (ground arith) in
                    let not_package : p.is_package_command command_type ≡ false =
                      rw (← same) plain in
                    rw not_package (h, λ e. cc)

    other_replay-Keeps :
        (other : ℕ) (old : IdempotencyRecord R) (command_type request_hash principal_hash : ℕ)
        (s : BusStore R S)
        → (other == key) ≡ false
        → s.records key ≡ some r
        → Ensures
            (Keeps other)
            (idempotency_replay p other old command_type request_hash principal_hash s)
    unfolding idempotency_replay
    other_replay-Keeps other old command_type request_hash principal_hash s apart h =
        Ensures-bind (Keeps other)
          (raise_if (not (old.principal_hash == principal_hash)) principal_permission_denied) _
          λ a ea.
            Ensures-bind (Keeps other)
              (raise_if
                (not (old.command_type == command_type) || not (old.request_hash == request_hash))
                idempotency_conflict)
              _
              λ b eb.
                Ensures-bind (Keeps other)
                  (raise_if (not (old.status_code == 200)) idempotency_conflict) _
                  λ c ec.
                    Ensures-if (Keeps other) (p.is_package_command command_type) _ _
                      (λ e.
                        Ensures-bind (Keeps other) (p.package_replay old.response_json s.store) _
                          λ found ef. go found)
                      (λ e. (h, λ n. apart))
      where
        go : (found : PackageReplay R) → Keeps other (replay_package p other old s found)
        go (package_again response) = (h, λ n. apart)
        go package_stale = (put_other key other r _ s h apart, λ n. apart)

    reserve-Keeps :
        (other command_type request_hash principal_hash : ℕ) (s : BusStore R S)
        → s.records key ≡ some r
        → Ensures
            (Keeps other)
            (reserve_idempotency p other command_type request_hash principal_hash s)
    unfolding reserve_idempotency
    reserve-Keeps other command_type request_hash principal_hash s h =
        elim (Bool-cases (other == key)) [
          | inl same ↦
              let here : other ≡ key = eq_of_test other key same in
              subst
                (λ k.
                  Ensures (Keeps k)
                    (reserve_idempotency p k command_type request_hash principal_hash s))
                (sym here)
                (rw (h, reserve_idempotency)
                  (own_replay-Keeps command_type request_hash principal_hash s h))
          | inr apart ↦ go (s.records other) refl apart
        ]
      where
        go :
            (o : Option (IdempotencyRecord R))
            → s.records other ≡ o
            → (other == key) ≡ false
            → Ensures
                (Keeps other)
                (reserve_idempotency p other command_type request_hash principal_hash s)
        go none e apart =
            rw (e, reserve_idempotency) (put_other key other r _ s h apart, λ n. apart)
        go (some old) e apart =
            rw (e, reserve_idempotency)
              (other_replay-Keeps other old command_type request_hash principal_hash s apart h)

    complete-kept :
        (other : ℕ) (response : R) (s : BusStore R S)
        → s.records key ≡ some r
        → (other == key) ≡ false
        → Ensures (λ t. t.records key ≡ some r) (complete_idempotency p other response s)
    unfolding complete_idempotency
    complete-kept other response s h apart = go (s.records other) refl
      where
        go :
            (o : Option (IdempotencyRecord R))
            → s.records other ≡ o
            → Ensures (λ t. t.records key ≡ some r) (complete_idempotency p other response s)
        go none e = rw (e, complete_idempotency) tt
        go (some old) e = rw (e, complete_idempotency) (put_other key other r _ s h apart)

    -- The record stays, with any answer.
    abbrev Keeping : R × BusStore R S → Type 0
    Keeping at = at.1.records key ≡ some r

    command-kept :
        (c : C) (x : X) (s : BusStore R S)
        → s.records key ≡ some r
        → Ensures Keeping (execute_command p c x s)
    unfolding execute_command
    command-kept c x s h = Ensures-bind Keeping (p.execute c x s.store) _ λ a e. h

    reserved-kept :
        (other : ℕ) (c : C) (x : X) (reserved : Option R × BusStore R S)
        → Keeps other reserved
        → Ensures Keeping (execute_reserved p other c x reserved)
    reserved-kept other c x (some response, s) h = h.0
    reserved-kept other c x (none, s) h = Ensures-bind Keeping (execute_command p c x s) _ λ at e.
        Ensures-bind Keeping (complete_idempotency p other at.0 at.1) _ λ t et.
          Ensures-ok (λ u. u.records key ≡ some r) (complete_idempotency p other at.0 at.1)
            (complete-kept other at.0 at.1
              (Ensures-ok Keeping (execute_command p c x s) (command-kept c x s h.0) e) (h.1 refl))
            et

    bus-kept :
        (c : C) (x : X) (other : ℕ) (s : BusStore R S)
        → s.records key ≡ some r
        → Ensures Keeping (bus_execute p c x other s)
    unfolding bus_execute execute_once
    bus-kept c x other s h = Ensures-bind Keeping (admitted p c x) _ λ a ea.
        Ensures-if Keeping (p.is_idempotent (p.command_type c)) _ _
          (λ e. Ensures-bind Keeping (raise_if (other == 0) validation_error) _ λ b eb.
            Ensures-bind Keeping
              (reserve_idempotency p other (p.command_type c) (p.canonical_request_hash c)
                (p.principal_fingerprint x) s)
              _
              λ reserved er. reserved-kept other c x reserved (
                Ensures-ok (Keeps other) _
                  (reserve-Keeps other (p.command_type c) (p.canonical_request_hash c)
                    (p.principal_fingerprint x) s h)
                  er))
          (λ e. command-kept c x s h)

    pub bus_after-kept :
        (qs : List BusRequest) (s : BusStore R S)
        → s.records key ≡ some r
        → (bus_after qs s).records key ≡ some r
    bus_after-kept [] s h = h
    bus_after-kept (q ∷ qs) s h =
        bus_after-kept qs (kept s result) (go result (bus-kept q.command q.context q.key s h))
      where
        result : Result (R × BusStore R S)
        result = bus_execute p q.command q.context q.key s

        go : (b : Result (R × BusStore R S)) → Ensures Keeping b → (kept s b).records key ≡ some r
        go (ok (response, t)) k = k
        go (err code) k = h
