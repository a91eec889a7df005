-- ===== src/Outbox/Receipts.antt =====
-- Consumers that record events, in sessions that commit or roll back.
use video_review.Base.{
  ℕ, ◌+◌, ◌≡◌, refl, true, false, ◌&&◌, ◌||◌, List, [], ◌∷◌, ◌++◌, ◌==◌, if◌then◌else◌, arith,
  Bool-cases, inl, inr,
}
use video_review.Outbox.{
  OutboxEvent, Receipt, has_receipt, ReceiptSession, rolled_back, committed_all, record_consumed,
}

-- What happens to the receipts: a call of `record_consumed` with the events of its time, or the end
-- of the transaction by its owner.
pub data ReceiptStep : Type 0 where
  consume : List OutboxEvent → Receipt → ReceiptStep
  commit roll_back : ReceiptStep

abbrev after_step : ReceiptStep → ReceiptSession → ReceiptSession
after_step (consume events r) s = (record_consumed events r s).1
after_step commit s = committed_all s
after_step roll_back s = rolled_back s

abbrev pub after_steps : List ReceiptStep → ReceiptSession → ReceiptSession
after_steps [] s = s
after_steps (c ∷ cs) s = after_steps cs (after_step c s)

has_receipt-append :
    (r : Receipt) (xs ys : List Receipt)
    → has_receipt r (xs ++ ys) ≡ (has_receipt r xs || has_receipt r ys)
has_receipt-append r [] ys = refl
has_receipt-append r (x ∷ xs) ys = ground (arith, has_receipt-append r xs ys)

-- No step takes a committed receipt away.
after_step-committed :
    (c : ReceiptStep) (q : Receipt) (s : ReceiptSession)
    → has_receipt q s.committed ≡ true
    → has_receipt q (after_step c s).committed ≡ true
unfolding record_consumed
after_step-committed (consume events r) q s h = ground arith
after_step-committed commit q s h = ground (arith, has_receipt-append q s.flushed s.committed)
after_step-committed roll_back q s h = h

after_steps-committed :
    (cs : List ReceiptStep) (q : Receipt) (s : ReceiptSession)
    → has_receipt q s.committed ≡ true
    → has_receipt q (after_steps cs s).committed ≡ true
after_steps-committed [] q s h = h
after_steps-committed (c ∷ cs) q s h =
    after_steps-committed cs q (after_step c s) (after_step-committed c q s h)

consumed-flushed :
    (events : List OutboxEvent) (r : Receipt) (s : ReceiptSession)
    → (record_consumed events r s).0 ≡ true
    → has_receipt r (record_consumed events r s).1.flushed ≡ true
unfolding record_consumed
consumed-flushed events r s h = ground arith

-- When a consumer has recorded an event and its transaction is committed, then after any further
-- records, commits and rollbacks, and with any events, a further record of the same is refused,
-- adds no receipt and rolls the transaction back.
pub consumed_once :
    (events later_events : List OutboxEvent) (r : Receipt) (s : ReceiptSession)
    (cs : List ReceiptStep)
    → (record_consumed events r s).0 ≡ true
    → record_consumed later_events r (after_steps cs (committed_all (record_consumed events r s).1))
      ≡ (false, rolled_back (after_steps cs (committed_all (record_consumed events r s).1)))
unfolding record_consumed
consumed_once events later_events r s cs h =
    let recorded = (record_consumed events r s).1 in
    let start : has_receipt r (committed_all recorded).committed ≡ true = ground (
      arith,
      has_receipt-append r recorded.flushed recorded.committed,
      consumed-flushed events r s h,
    ) in
    refused (after_steps cs (committed_all recorded))
      (after_steps-committed cs r (committed_all recorded) start)
  where
    refused :
        (t : ReceiptSession)
        → has_receipt r t.committed ≡ true
        → record_consumed later_events r t ≡ (false, rolled_back t)
    refused t k = elim (Bool-cases (has_receipt r t.flushed)) [
      | inl e ↦ rw e refl
      | inr e ↦ rw (e, k) refl
    ]

-- How often the receipts hold this one.
abbrev pub copies : Receipt → List Receipt → ℕ
copies r [] = 0
copies r (q ∷ qs) =
    (if q.event_id == r.event_id && q.consumer_name == r.consumer_name then 1 else 0) + copies r qs
