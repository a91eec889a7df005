-- ===== src/Outbox/Examples.antt =====
-- Two events, of which the first is dispatched before.
use video_review.Base.{◌≡◌, refl, false, some, List, [], ◌∷◌, All, row_at, map, ◌==◌}
use video_review.Outbox.{
  OutboxEvent, pending, failed, dispatched, dispatchable, dispatch_each, dispatch_once, Receipt,
  record_consumed, ReceiptSession, rolled_back, committed_all,
}
use video_review.Outbox.Settled.{Run, after_runs, settled_event-unpublished}
use video_review.Outbox.Receipts.{ReceiptStep, consume, commit, after_steps, consumed_once}

abbrev old_event : OutboxEvent
old_event = record { id = 1; event_id = 11; sequence = 1; status = dispatched; attempts = 1 }

abbrev events : List OutboxEvent
events =
    record { id = 2; event_id = 12; sequence = 3; status = pending; attempts = 0 }
    ∷ old_event
    ∷ record { id = 3; event_id = 13; sequence = 2; status = failed; attempts = 4 }
    ∷ []

abbrev runs : List Run
runs =
    record { succeeds = λ e. e.id == 2; limit = 50 }
    ∷ record { succeeds = λ e. false; limit = 50 }
    ∷ []

-- The event that failed five times is not published_event again.
runs_run : map (λ e. e.attempts) (after_runs 5 runs events) ≡ 1 ∷ 1 ∷ 5 ∷ []
unfolding dispatch_once dispatch_each dispatchable
runs_run = refl

settled_event-unpublished_example :
    (row_at (λ x. x.id) 1 (after_runs 5 runs events) ≡ some old_event)
    × All (λ x. (x.id == 1) ≡ false) (dispatchable 5 50 (after_runs 5 runs events))
settled_event-unpublished_example =
    settled_event-unpublished 5 50 1 old_event runs events (refl, (refl, (refl, tt))) refl refl

abbrev receipt : Receipt
receipt = record { event_id = 11; consumer_name = 7 }

abbrev other_receipt : Receipt
other_receipt = record { event_id = 12; consumer_name = 7 }

abbrev no_receipts : ReceiptSession
no_receipts = record { committed = []; flushed = [] }

abbrev receipt_steps : List ReceiptStep
receipt_steps = consume events other_receipt ∷ consume events other_receipt ∷ commit ∷ []

-- The second record of the pair drops the first one, which was not committed.
receipts_run : after_steps receipt_steps no_receipts ≡ no_receipts
unfolding record_consumed
receipts_run = refl

consumed_once_example :
    record_consumed events receipt
      (after_steps receipt_steps (committed_all (record_consumed events receipt no_receipts).1))
    ≡ (
      false,
      rolled_back (
          after_steps receipt_steps (committed_all (record_consumed events receipt no_receipts).1)),
    )
unfolding record_consumed
consumed_once_example = consumed_once events events receipt no_receipts receipt_steps refl
