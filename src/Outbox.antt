-- ===== src/Outbox.antt =====
-- The dispatch of events: backend/app/modules/review_integration/outbox.py. An event's envelope is
-- known by the event; the publisher is an argument, which tells for which events it raises.
pub mod Settled
pub mod Receipts
mod Examples
use video_review.Base.{
  ℕ, ◌+◌, Bool, true, false, ◌&&◌, ◌||◌, List, [], ◌∷◌, ◌++◌, ltb, ◌==◌, if◌then◌else◌, filter,
  take, sort_by, write_at,
}

pub data EventStatus : Type 0 where
  pending publishing failed dispatched : EventStatus

pub record OutboxEvent : Type 0 where
  pub id : ℕ
  pub event_id : ℕ
  pub sequence : ℕ
  pub status : EventStatus
  pub attempts : ℕ

abbrev pub is_open_event : EventStatus → Bool
is_open_event pending = true
is_open_event failed = true
is_open_event _ = false

-- `order_by(sequence, id)`
abbrev pub sequence_before : OutboxEvent → OutboxEvent → Bool
sequence_before e f =
    if ltb e.sequence f.sequence
    then true
    else if ltb f.sequence e.sequence
    then false
    else ltb e.id f.id

pub dispatchable : ℕ → ℕ → List OutboxEvent → List OutboxEvent
dispatchable max_attempts limit events = take limit (
    sort_by sequence_before
      (filter (λ e. is_open_event e.status && ltb e.attempts max_attempts) events))

-- The row after the publisher was called.
abbrev pub published_event : (OutboxEvent → Bool) → OutboxEvent → OutboxEvent
published_event succeeds e = record e {
  status = if succeeds e then dispatched else failed;
  attempts = e.attempts + 1;
}

-- The events one by one, with the number that was dispatched.
pub dispatch_each :
    (OutboxEvent → Bool) → List OutboxEvent → List OutboxEvent → ℕ × List OutboxEvent
dispatch_each succeeds [] events = (0, events)
dispatch_each succeeds (e ∷ es) events =
    let (n, rest) =
      dispatch_each succeeds es (write_at (λ x. x.id) (published_event succeeds e) events) in
    ((if succeeds e then 1 else 0) + n, rest)

pub dispatch_once : ℕ → (OutboxEvent → Bool) → ℕ → List OutboxEvent → ℕ × List OutboxEvent
dispatch_once max_attempts succeeds limit events =
    dispatch_each succeeds (dispatchable max_attempts limit events) events

pub record Receipt : Type 0 where
  pub event_id : ℕ
  pub consumer_name : ℕ

abbrev pub has_receipt : Receipt → List Receipt → Bool
has_receipt r [] = false
has_receipt r (q ∷ qs) =
    (q.event_id == r.event_id && q.consumer_name == r.consumer_name) || has_receipt r qs

abbrev has_event : ℕ → List OutboxEvent → Bool
has_event event_id [] = false
has_event event_id (e ∷ es) = e.event_id == event_id || has_event event_id es

-- The receipts of the database and those that the open transaction of the session has flushed.
pub record ReceiptSession : Type 0 where
  pub committed : List Receipt
  pub flushed : List Receipt

-- `session.rollback()` and `session.commit()`, as far as they concern receipts.
abbrev pub rolled_back : ReceiptSession → ReceiptSession
rolled_back s = record s { flushed = [] }

abbrev pub committed_all : ReceiptSession → ReceiptSession
committed_all s = record { committed = s.flushed ++ s.committed; flushed = [] }

-- An unknown event and a second receipt violate a constraint, and then the whole transaction is
-- rolled back.
pub record_consumed : List OutboxEvent → Receipt → ReceiptSession → Bool × ReceiptSession
record_consumed events r s =
    if has_receipt r s.flushed || has_receipt r s.committed
    then (false, rolled_back s)
    else if has_event r.event_id events
    then (true, record s { flushed = r ∷ s.flushed })
    else (false, rolled_back s)
