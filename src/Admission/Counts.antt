-- ===== src/Admission/Counts.antt =====
-- The dictionaries of the limiter against the lease objects that it has handed out.
use native.Mathlib.Nat.{add-zero}
use video_review.Base.{
  ℕ, ◌+◌, ◌≡◌, refl, Bool, true, false, not, ◌&&◌, ◌||◌, Option, none, some, [], ◌∷◌, ◌++◌, ltb,
  ◌==◌, if◌then◌else◌, get_elem?, set, min, count_where, count_where-append, count_where-set, arith,
  Bool-cases, inl, inr, Ensures,
}
use video_review.Admission.{
  Counter, get_zero, put, decrement, grant, Limiter, PartLease, ExclusiveLease, Limits, refuses,
  try_acquire, try_acquire_exclusive, World, acquire, acquire_exclusive, add_part, add_exclusive,
  step, new_world,
}

-- What a histogram stores for a count: nothing at 0.
abbrev pub as_entry : ℕ → Option ℕ
as_entry n = if n == 0 then none else some n

abbrev pub live : PartLease → Bool
live l = not l.released

abbrev pub live_of : ℕ → PartLease → Bool
live_of principal_key l = not l.released && l.principal_key == principal_key

abbrev pub live_on : ℕ → PartLease → Bool
live_on upload_id l = not l.released && l.upload_id == upload_id

abbrev pub live_exclusive : ℕ → ExclusiveLease → Bool
live_exclusive upload_id l = not l.released && l.upload_id == upload_id

-- The limiter counts exactly the leases that are not released, and no upload has a part lease
-- while it is held exclusively.
pub record IsExact (w : World) : Type 0 where
  pub total : w.limiter.active_total ≡ count_where live w.parts
  pub by_principal :
      (k : ℕ) → w.limiter.active_by_principal k ≡ as_entry (count_where (live_of k) w.parts)
  pub by_upload :
      (u : ℕ) → w.limiter.active_by_upload u ≡ as_entry (count_where (live_on u) w.parts)
  pub exclusive :
      (u : ℕ)
      → count_where (live_exclusive u) w.exclusives
        ≡ (if w.limiter.exclusive_uploads u then 1 else 0)
  pub apart : (u : ℕ) → w.limiter.exclusive_uploads u ≡ true → count_where (live_on u) w.parts ≡ 0

put-entry :
    (p k : ℕ) (d : Counter) (c : ℕ → ℕ)
    → ((j : ℕ) → d j ≡ as_entry (c j))
    → put p (get_zero (d p) + 1) d k ≡ as_entry (c k + (if p == k then 1 else 0))
put-entry p k d c h = ground (arith, h p, h k)

pub decrement-entry :
    (p k n : ℕ) (d : Counter) (c : ℕ → ℕ) (rest : ℕ)
    → ((j : ℕ) → d j ≡ as_entry (c j))
    → d p ≡ some n
    → rest + (if p == k then 1 else 0) ≡ c k
    → decrement p n d k ≡ as_entry rest
decrement-entry p k n d c rest h e r = ground (arith, h p, h k)

pub new_world-IsExact : IsExact new_world
new_world-IsExact = record {
  total = refl;
  by_principal = λ k. refl;
  by_upload = λ u. refl;
  exclusive = λ u. refl;
  apart = λ u h. refl;
}

-- A granted part lease keeps the counts exact.
grant-IsExact :
    (w : World) (p u : ℕ)
    → IsExact w
    → w.limiter.exclusive_uploads u ≡ false
    → IsExact (record w {
      limiter = grant w.limiter p u;
      parts = w.parts ++ record { principal_key = p; upload_id = u; released = false } ∷ [];
    })
grant-IsExact w p u h free = record {
  total = rw count_where-append (omega (arith, h.total));
  by_principal = λ k.
      rw count_where-append
        (simp add-zero (put-entry p k _ (λ j. count_where (live_of j) w.parts) h.by_principal));
  by_upload = λ k.
      rw count_where-append
        (simp add-zero (put-entry u k _ (λ j. count_where (live_on j) w.parts) h.by_upload));
  exclusive = h.exclusive;
  apart = λ k e. rw count_where-append (ground (arith, h.apart k e));
}

exclusive-IsExact :
    (w : World) (u : ℕ)
    → IsExact w
    → w.limiter.exclusive_uploads u ≡ false
    → get_zero (w.limiter.active_by_upload u) ≡ 0
    → IsExact (record w {
      limiter = record w.limiter {
        exclusive_uploads = λ v. if u == v then true else w.limiter.exclusive_uploads v;
      };
      exclusives = w.exclusives ++ record { upload_id = u; released = false } ∷ [];
    })
exclusive-IsExact w u h free idle = record {
  total = h.total;
  by_principal = h.by_principal;
  by_upload = h.by_upload;
  exclusive = λ v. rw count_where-append (ground (arith, h.exclusive v));
  apart = λ v e. ground (arith, h.apart v, h.by_upload v);
}

refuses-exclusive :
    (s : Limiter) (p u : ℕ) (m : Limits) → refuses s p u m ≡ false → s.exclusive_uploads u ≡ false
unfolding refuses
refuses-exclusive s p u m h = ground arith

pub acquire-IsExact :
    (w : World) (p u : ℕ) (m : Limits) → IsExact w → Ensures IsExact (step w (acquire p u m))
unfolding step try_acquire add_part
acquire-IsExact w p u m h =
    elim (Bool-cases
      (p == 0 || ltb (min m.max_per_principal (min m.max_per_upload m.max_total)) 1)) [
        | inl bad ↦ rw bad tt
        | inr good ↦ elim (Bool-cases (refuses w.limiter p u m)) [
          | inl full ↦ rw (good, full) h
          | inr room ↦
              rw (good, room) (grant-IsExact w p u h (refuses-exclusive w.limiter p u m room))
        ]
      ]

pub acquire_exclusive-IsExact :
    (w : World) (u : ℕ) → IsExact w → Ensures IsExact (step w (acquire_exclusive u))
unfolding step try_acquire_exclusive add_exclusive
acquire_exclusive-IsExact w u h = elim (Bool-cases (u == 0)) [
  | inl bad ↦ rw bad tt
  | inr good ↦
      elim (Bool-cases
        (w.limiter.exclusive_uploads u || ltb 0 (get_zero (w.limiter.active_by_upload u)))) [
          | inl held ↦ rw (good, held) h
          | inr free ↦ rw (good, free) (exclusive-IsExact w u h (ground arith) (ground arith))
        ]
]

-- What marking lease `i` as released does to the three histograms.
module _ (w : World) (i : ℕ) (l : PartLease) (at : get_elem? w.parts i ≡ some l)
    (open_yet : l.released ≡ false) where
  pub live_of-set :
      (k : ℕ)
      → count_where (live_of k) (set w.parts i (record l { released = true }))
          + (if l.principal_key == k then 1 else 0)
        ≡ count_where (live_of k) w.parts
  live_of-set k =
      ground (arith, count_where-set (live_of k) w.parts i l (record l { released = true }) at)

  pub live_on-set :
      (u : ℕ)
      → count_where (live_on u) (set w.parts i (record l { released = true }))
          + (if l.upload_id == u then 1 else 0)
        ≡ count_where (live_on u) w.parts
  live_on-set u =
      ground (arith, count_where-set (live_on u) w.parts i l (record l { released = true }) at)

  pub live-set :
      count_where live (set w.parts i (record l { released = true })) + 1 ≡ count_where live w.parts
  live-set = ground (arith, count_where-set live w.parts i l (record l { released = true }) at)

  pub part_counts :
      IsExact w
      → (p : ℕ) × (u : ℕ) × (w.limiter.active_by_principal l.principal_key ≡ some p)
        × (w.limiter.active_by_upload l.upload_id ≡ some u)
  part_counts h = (
    count_where (live_of l.principal_key) w.parts,
    count_where (live_on l.upload_id) w.parts,
    ground (arith, h.by_principal l.principal_key, live_of-set l.principal_key),
    ground (arith, h.by_upload l.upload_id, live_on-set l.upload_id),
  )
