-- ===== src/Admission/Releases.antt =====
-- Releasing the leases of upload_parts.py.
use video_review.Base.{
  ℕ, ◌-◌, ◌≡◌, refl, true, false, Option, none, some, get_elem?, count_where, count_where-set,
  Result, ok, err, arith, Bool-cases, inl, inr, Ensures, Returns,
}
use video_review.Admission.{
  Limiter, PartLease, ExclusiveLease, decrement, release_part, release_exclusive, World, Operation,
  acquire, acquire_exclusive, release, release_exclusively, release_part_lease,
  release_exclusive_lease, step,
}
use video_review.Admission.Counts.{
  live_of, live_on, live_exclusive, IsExact, decrement-entry, live_of-set, live_on-set, live-set,
  part_counts, acquire-IsExact, acquire_exclusive-IsExact,
}

release_part-ok :
    (s : Limiter) (p u a b : ℕ)
    → s.active_by_principal p ≡ some a
    → s.active_by_upload u ≡ some b
    → release_part s p u
      ≡ ok (record s {
        active_total = s.active_total - 1;
        active_by_principal = decrement p a s.active_by_principal;
        active_by_upload = decrement u b s.active_by_upload;
      })
unfolding release_part
release_part-ok s p u a b ha hb = rw (ha, hb, release_part)

release_live :
    (w : World) (i : ℕ) (l : PartLease)
    → IsExact w
    → get_elem? w.parts i ≡ some l
    → l.released ≡ false
    → Returns IsExact (release_part_lease w i (some l))
unfolding release_part_lease
release_live w i l h at open_yet =
    let (a, b, ha, hb) = part_counts w i l at open_yet h in
    rw (open_yet, release_part-ok w.limiter l.principal_key l.upload_id a b ha hb)
      (record {
        total = ground (arith, h.total, live-set w i l at open_yet);
        by_principal = λ k.
            decrement-entry l.principal_key k a w.limiter.active_by_principal
              (λ j. count_where (live_of j) w.parts) _ h.by_principal ha
              (live_of-set w i l at open_yet k);
        by_upload = λ k.
            decrement-entry l.upload_id k b w.limiter.active_by_upload
              (λ j. count_where (live_on j) w.parts) _ h.by_upload hb
              (live_on-set w i l at open_yet k);
        exclusive = h.exclusive;
        apart = λ k e. ground (arith, h.apart k e, live_on-set w i l at open_yet k);
      })

release_part_lease-IsExact :
    (w : World) (i : ℕ) (o : Option PartLease)
    → IsExact w
    → get_elem? w.parts i ≡ o
    → Returns IsExact (release_part_lease w i o)
unfolding release_part_lease
release_part_lease-IsExact w i none h at = h
release_part_lease-IsExact w i (some l) h at = elim (Bool-cases l.released) [
  | inl done ↦ rw done h
  | inr open_yet ↦ release_live w i l h at open_yet
]

release_exclusive_lease-IsExact :
    (w : World) (i : ℕ) (o : Option ExclusiveLease)
    → IsExact w
    → get_elem? w.exclusives i ≡ o
    → Returns IsExact (release_exclusive_lease w i o)
unfolding release_exclusive_lease release_exclusive
release_exclusive_lease-IsExact w i none h at = h
release_exclusive_lease-IsExact w i (some l) h at = elim (Bool-cases l.released) [
  | inl done ↦ rw done h
  | inr open_yet ↦
      let gone : ExclusiveLease = record l { released = true } in
      let held : w.limiter.exclusive_uploads l.upload_id ≡ true = ground (
        arith,
        h.exclusive l.upload_id,
        count_where-set (live_exclusive l.upload_id) w.exclusives i l gone at,
      ) in
      rw (open_yet, held)
        (record {
          total = h.total;
          by_principal = h.by_principal;
          by_upload = h.by_upload;
          exclusive = λ v.
              ground
                (arith, h.exclusive v, count_where-set (live_exclusive v) w.exclusives i l gone at);
          apart = λ v e. ground (arith, h.apart v);
        })
]

-- If the dictionaries are the exact histograms of the leases that are not released, then releasing
-- any lease object, of either kind and released before or not, never raises `KeyError`, and the
-- dictionaries are exact again.
pub release-IsExact :
    (w : World) (i : ℕ)
    → IsExact w
    → Returns IsExact (step w (release i)) × Returns IsExact (step w (release_exclusively i))
unfolding step
release-IsExact w i h = (
  release_part_lease-IsExact w i (get_elem? w.parts i) h refl,
  release_exclusive_lease-IsExact w i (get_elem? w.exclusives i) h refl,
)

Returns→Ensures : (r : Result World) → Returns IsExact r → Ensures IsExact r
Returns→Ensures (ok w) h = h
Returns→Ensures (err c) h = tt

pub step-IsExact : (w : World) (op : Operation) → IsExact w → Ensures IsExact (step w op)
step-IsExact w (acquire p u m) h = acquire-IsExact w p u m h
step-IsExact w (acquire_exclusive u) h = acquire_exclusive-IsExact w u h
step-IsExact w (release i) h = Returns→Ensures _ (release-IsExact w i h).0
step-IsExact w (release_exclusively i) h = Returns→Ensures _ (release-IsExact w i h).1
