-- ===== src/CommandBus.antt =====
-- The command bus: `CommandBus.execute` of application/command_handlers.py with the idempotency
-- records of infra/repositories.py. The ports, the commands of the repository, and the digests are
-- arguments. Keys, types, capabilities and digests are numbers; a key of 0 is empty.
pub mod Replays
pub mod Once
mod Examples
use video_review.Base.{
  ℕ, Bool, true, false, not, ◌&&◌, ◌||◌, Option, none, some, ◌==◌, is_none, if◌then◌else◌, Code,
  Result, ok, err, raise_if, ◌>>=◌, ◌>>◌, validation_error, entry_capability_denied,
  principal_permission_denied, idempotency_conflict,
}

pub record IdempotencyRecord (R : Type 0) : Type 0 where
  pub command_type : ℕ
  pub request_hash : ℕ
  pub principal_hash : ℕ
  pub response_json : R
  pub status_code : ℕ

-- What a repeated `PrepareFinalizedPackage` finds: its package again, or one that is to be built
-- anew.
pub data PackageReplay (R : Type 0) : Type 0 where
  package_again : R → PackageReplay R
  package_stale : PackageReplay R

-- The ports and the repository's commands, for a context X, commands C, answers R and a store S.
pub record Ports (X C R S : Type 0) : Type 0 where
  pub command_type : C → ℕ
  -- `COMMAND_CAPABILITIES` and `IDEMPOTENT_COMMANDS`
  pub command_capability : ℕ → Option ℕ
  pub is_idempotent : ℕ → Bool
  pub is_package_command : ℕ → Bool
  pub assert_write_allowed : X → Result (Unit {0})
  pub entry_allows : X → ℕ → Bool
  pub authorize : X → ℕ → C → Result (Unit {0})
  -- the digests of a command and of a principal
  pub canonical_request_hash : C → ℕ
  pub principal_fingerprint : X → ℕ
  pub execute : C → X → S → Result (R × S)
  -- the checks on the package of an answer
  pub package_replay : R → S → Result (PackageReplay R)
  -- `{}`
  pub empty_response : R
  -- the answer of a package without its download token
  pub without_token : R → R

-- The records and the rest of the store.
pub record BusStore (R S : Type 0) : Type 0 where
  pub records : ℕ → Option (IdempotencyRecord R)
  pub store : S

abbrev pub put_record : {R S : Type 0} → ℕ → IdempotencyRecord R → BusStore R S → BusStore R S
put_record key r s = record s { records = λ k. if key == k then some r else s.records k }

module _ {X C R S : Type 0} (p : Ports X C R S) where
  -- The replay of a package, which reserves the key again if the package is stale.
  abbrev pub replay_package :
      ℕ → IdempotencyRecord R → BusStore R S → PackageReplay R → Option R × BusStore R S
  replay_package key r s (package_again response) = (some response, s)
  replay_package key r s package_stale =
      (none, put_record key (record r { response_json = p.empty_response; status_code = 102 }) s)

  -- `_idempotency_replay`
  pub idempotency_replay :
      ℕ → IdempotencyRecord R → ℕ → ℕ → ℕ → BusStore R S → Result (Option R × BusStore R S)
  idempotency_replay key r command_type request_hash principal_hash s = do
    raise_if (not (r.principal_hash == principal_hash)) principal_permission_denied
    raise_if (not (r.command_type == command_type) || not (r.request_hash == request_hash))
        idempotency_conflict
    raise_if (not (r.status_code == 200)) idempotency_conflict
    if p.is_package_command command_type
        then (p.package_replay r.response_json s.store >>= λ found.
            ok (replay_package key r s found))
        else ok (some r.response_json, s)

  -- Without a record the key is reserved, and there is nothing to replay.
  pub reserve_idempotency : ℕ → ℕ → ℕ → ℕ → BusStore R S → Result (Option R × BusStore R S)
  reserve_idempotency key command_type request_hash principal_hash s = elim (s.records key) [
    | some r ↦ idempotency_replay key r command_type request_hash principal_hash s
    | none ↦ ok (
      none,
      put_record key
          (record {
            command_type = command_type;
            request_hash = request_hash;
            principal_hash = principal_hash;
            response_json = p.empty_response;
            status_code = 102;
          })
          s,
    )
  ]

  pub complete_idempotency : ℕ → R → BusStore R S → Result (BusStore R S)
  complete_idempotency key response s = elim (s.records key) [
    | none ↦ err idempotency_conflict
    | some r ↦ ok (
        put_record key
          (record r {
            response_json =
                if p.is_package_command r.command_type then p.without_token response else response;
            status_code = 200;
          })
          s)
  ]

  -- The command itself, under no key or under a reserved one.
  pub execute_command : C → X → BusStore R S → Result (R × BusStore R S)
  execute_command c x s = p.execute c x s.store >>= λ done. ok (done.0, record s { store = done.1 })

  -- After the reservation: the replay, or the command and the completion of its record.
  abbrev pub execute_reserved : ℕ → C → X → Option R × BusStore R S → Result (R × BusStore R S)
  execute_reserved key c x (some response, s) = ok (response, s)
  execute_reserved key c x (none, s) = execute_command c x s >>= λ done.
      complete_idempotency key done.0 done.1 >>= λ t. ok (done.0, t)

  abbrev capability_of : Option ℕ → Result ℕ
  capability_of none = err validation_error
  capability_of (some capability) = ok capability

  -- The checks of the ports.
  pub admitted : C → X → Result (Unit {0})
  admitted c x = do
    capability ← capability_of (p.command_capability (p.command_type c))
    p.assert_write_allowed x
    raise_if (not (p.entry_allows x capability)) entry_capability_denied
    p.authorize x capability c

  -- An idempotent command.
  pub execute_once : C → X → ℕ → BusStore R S → Result (R × BusStore R S)
  execute_once c x key s = do
    raise_if (key == 0) validation_error
    reserved ←
        reserve_idempotency key (p.command_type c) (p.canonical_request_hash c)
          (p.principal_fingerprint x) s
    execute_reserved key c x reserved

  pub bus_execute : C → X → ℕ → BusStore R S → Result (R × BusStore R S)
  bus_execute c x key s = do
    admitted c x
    if p.is_idempotent (p.command_type c) then execute_once c x key s else execute_command c x s
