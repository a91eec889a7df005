-- ===== src/Outbox/Settled.antt =====
-- Events that have been dispatched, and events whose attempts are used up.
use mathlib.Core.Path.{subst, sym}
use video_review.Base.{
  ℕ, ◌≡◌, refl, Bool, false, ◌&&◌, Option, none, some, List, [], ◌∷◌, ltb, ◌==◌, arith, Bool-cases,
  inl, inr, some_eq, eq_of_test, All, All-take, All-sort_by, filter, row_at, write_at, HasKeys,
  row_at-write_at, HasKeys-write_at, HasKeys-All, write_at-absent,
}
use video_review.Outbox.{
  OutboxEvent, is_open_event, sequence_before, dispatchable, published_event, dispatch_each,
  dispatch_once,
}

abbrev event_at : ℕ → List OutboxEvent → Option OutboxEvent
event_at = row_at (λ e. e.id)

-- One run of the dispatcher: its publisher and its limit.
pub record Run : Type 0 where
  pub succeeds : OutboxEvent → Bool
  pub limit : ℕ

abbrev pub after_runs : ℕ → List Run → List OutboxEvent → List OutboxEvent
after_runs max_attempts [] events = events
after_runs max_attempts (r ∷ rs) events =
    after_runs max_attempts rs (dispatch_once max_attempts r.succeeds r.limit events).1

-- The event is not to be published_event any more.
abbrev pub IsSettled : ℕ → OutboxEvent → Type 0
IsSettled max_attempts e = (is_open_event e.status && ltb e.attempts max_attempts) ≡ false

module _ (max_attempts id : ℕ) (e : OutboxEvent) (settled : IsSettled max_attempts e) where
  -- Events other than this one.
  abbrev Others : List OutboxEvent → Type 0
  Others = All (λ x. (x.id == id) ≡ false)

  other_rows :
      (events xs : List OutboxEvent)
      → event_at id events ≡ some e
      → All (λ x. event_at x.id events ≡ some x) xs
      → Others (filter (λ x. is_open_event x.status && ltb x.attempts max_attempts) xs)
  other_rows events [] found h = tt
  other_rows events (x ∷ xs) found h =
      elim (Bool-cases (is_open_event x.status && ltb x.attempts max_attempts)) [
        | inr over ↦ rw over (other_rows events xs found h.1)
        | inl open_yet ↦ elim (Bool-cases (x.id == id)) [
          | inr apart ↦ rw open_yet (apart, other_rows events xs found h.1)
          | inl mine ↦
              let same : x ≡ e = some_eq (rw (← h.0, eq_of_test x.id id mine) found) in
              let closed : (is_open_event x.status && ltb x.attempts max_attempts) ≡ false =
                subst (λ y. (is_open_event y.status && ltb y.attempts max_attempts) ≡ false)
                  (sym same) settled in
              absurd (ground arith)
        ]
      ]

  dispatchable-Others :
      (limit : ℕ) (events : List OutboxEvent)
      → HasKeys (λ x. x.id) events
      → event_at id events ≡ some e
      → Others (dispatchable max_attempts limit events)
  unfolding dispatchable
  dispatchable-Others limit events keys found = All-take _ limit _ (
      All-sort_by _ sequence_before _
        (other_rows events events found (HasKeys-All (λ x. x.id) events keys)))

  -- The keys and the settled row.
  abbrev Stays : List OutboxEvent → Type 0
  Stays events = HasKeys (λ x. x.id) events × (event_at id events ≡ some e)

  write-Stays :
      (events : List OutboxEvent) (y : OutboxEvent)
      → (y.id == id) ≡ false
      → Stays events
      → Stays (write_at (λ x. x.id) y events)
  write-Stays events y apart (keys, found) =
      (HasKeys-write_at (λ x. x.id) events y keys, go (event_at y.id events) refl)
    where
      go :
          (o : Option OutboxEvent)
          → event_at y.id events ≡ o
          → event_at id (write_at (λ x. x.id) y events) ≡ some e
      go none absent = rw (write_at-absent (λ x. x.id) events y absent) found
      go (some x) old = rw (row_at-write_at (λ x. x.id) events x y id old, apart) found

  dispatch_each-Stays :
      (succeeds : OutboxEvent → Bool) (es events : List OutboxEvent)
      → Others es
      → Stays events
      → Stays (dispatch_each succeeds es events).1
  unfolding dispatch_each
  dispatch_each-Stays succeeds [] events others h = h
  dispatch_each-Stays succeeds (x ∷ xs) events others h =
      dispatch_each-Stays succeeds xs (write_at (λ x. x.id) (published_event succeeds x) events)
        others.1 (write-Stays events (published_event succeeds x) others.0 h)

  after_runs-Stays :
      (rs : List Run) (events : List OutboxEvent)
      → Stays events
      → Stays (after_runs max_attempts rs events)
  unfolding dispatch_once
  after_runs-Stays [] events h = h
  after_runs-Stays (r ∷ rs) events h =
      after_runs-Stays rs (dispatch_once max_attempts r.succeeds r.limit events).1 (
        dispatch_each-Stays r.succeeds (dispatchable max_attempts r.limit events) events
          (dispatchable-Others r.limit events h.0 h.1) h)

-- If events have different identifiers, an event that is dispatched or being published, or whose
-- attempts are used up, keeps its row through any runs of the dispatcher, and no run selects it.
pub settled_event-unpublished :
    (max_attempts limit id : ℕ) (e : OutboxEvent) (rs : List Run) (events : List OutboxEvent)
    → HasKeys (λ x. x.id) events
    → row_at (λ x. x.id) id events ≡ some e
    → IsSettled max_attempts e
    → (row_at (λ x. x.id) id (after_runs max_attempts rs events) ≡ some e)
      × All
          (λ x. (x.id == id) ≡ false)
          (dispatchable max_attempts limit (after_runs max_attempts rs events))
settled_event-unpublished max_attempts limit id e rs events keys found settled =
    let (k, f) = after_runs-Stays max_attempts id e settled rs events (keys, found) in
    (f, dispatchable-Others max_attempts id e settled limit (after_runs max_attempts rs events) k f)
