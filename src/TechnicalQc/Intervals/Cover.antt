-- ===== src/TechnicalQc/Intervals/Cover.antt =====
-- The frames that `merge_overlapping_intervals` covers.
use video_review.Base.{
  ℕ, ◌+◌, ◌≤◌, ◌≡◌, refl, Bool, true, ◌||◌, List, [], ◌∷◌, All, ok, Returns, Returns-bind, arith,
  Bool-cases, inl, inr,
}
use video_review.TechnicalQc.Intervals.{
  QcInterval, sort_intervals, overlaps, hull, merge_loop, merge_ordered,
  merge_overlapping_intervals,
}
use video_review.TechnicalQc.Intervals.Merge.{
  IsInterval, Ascending, Ascending-weaken, cover, covers, sort-Ascending, sort-All, covers-sort,
  hull-IsInterval, merge_loop-overlap, merge_loop-apart,
}

-- The times of an interval are the start of its first frame and the end of its last one, by the
-- clock `t` of the video.
pub record IsTimed {V : Type 0} (t : ℕ → ℕ) (i : QcInterval V) : Type 0 where
  pub interval : IsInterval i
  pub start_time : i.start_ms ≡ t i.start_frame
  pub end_time : i.end_ms ≡ t (i.end_frame + 1)

module _ {V : Type 0} (update : V → V → V) (t : ℕ → ℕ)
    (t_mono : (a b : ℕ) → a ≤ b → t a ≤ t b) where
  overlap_frames :
      (p i : QcInterval V)
      → IsTimed t p
      → IsTimed t i
      → overlaps i p ≡ true
      → i.start_frame ≤ p.end_frame
  unfolding overlaps
  overlap_frames p i hp hi e =
      ground (arith, t_mono (p.end_frame + 1) i.start_frame, hp.end_time, hi.start_time)

  cover-hull :
      (f : ℕ) (p i : QcInterval V)
      → p.start_frame ≤ i.start_frame
      → i.start_frame ≤ p.end_frame
      → cover f (hull update p i) ≡ (cover f p || cover f i)
  unfolding hull
  cover-hull f p i h k = ground arith

  hull-IsTimed : (p i : QcInterval V) → IsTimed t p → IsTimed t i → IsTimed t (hull update p i)
  unfolding hull
  hull-IsTimed p i hp hi = record {
    interval = unfold hull in hull-IsInterval update p i hp.interval hi.interval;
    start_time = ground (
      arith,
      hp.start_time,
      hi.start_time,
      t_mono p.start_frame i.start_frame,
      t_mono i.start_frame p.start_frame,
    );
    end_time = ground (
      arith,
      hp.end_time,
      hi.end_time,
      t_mono (p.end_frame + 1) (i.end_frame + 1),
      t_mono (i.end_frame + 1) (p.end_frame + 1),
    );
  }

  or_assoc : (a b c : Bool) → ((a || b) || c) ≡ (a || (b || c))
  or_assoc a b c = ground arith

  merge_loop-covers :
      (f : ℕ) (previous : QcInterval V) (rest : List (QcInterval V))
      → IsTimed t previous
      → Ascending previous.start_frame rest
      → All (IsTimed t) rest
      → Returns (λ out. covers f out ≡ covers f (previous ∷ rest)) (merge_loop update previous rest)
  merge_loop-covers f p [] h a all = unfold merge_loop in refl
  merge_loop-covers f p (i ∷ rest) h a all = elim (Bool-cases (overlaps i p)) [
    | inl e ↦
        rw
          (
            merge_loop-overlap update p i rest e h.interval all.0.interval,
            ← or_assoc,
            ← cover-hull f p i a.0 (overlap_frames p i h all.0 e),
          )
          (merge_loop-covers f (hull update p i) rest (hull-IsTimed p i h all.0)
            (Ascending-weaken _ i.start_frame rest (unfold hull in omega arith) a.1) all.1)
    | inr e ↦ rw (merge_loop-apart update p i rest e) (
        Returns-bind (λ out. covers f out ≡ covers f (i ∷ rest))
          (λ out. covers f out ≡ covers f (p ∷ i ∷ rest)) (merge_loop update i rest)
          (λ others. ok (p ∷ others)) (merge_loop-covers f i rest all.0 a.1 all.1)
          (λ others c. rw c))
  ]

  -- Where each interval's times follow from its frames by a clock that never goes back,
  -- `merge_overlapping_intervals` raises nothing, and a frame lies in one of its intervals exactly
  -- when it lies in one of the given ones.
  pub covers-merge_overlapping_intervals :
      (intervals : List (QcInterval V)) (f : ℕ)
      → All (IsTimed t) intervals
      → Returns
          (λ out. covers f out ≡ covers f intervals)
          (merge_overlapping_intervals update intervals)
  unfolding merge_overlapping_intervals merge_ordered
  covers-merge_overlapping_intervals intervals f h =
      rw (← covers-sort f intervals) (
        go (sort_intervals intervals) (sort-Ascending intervals) (sort-All (IsTimed t) intervals h))
    where
      go :
          (is : List (QcInterval V))
          → Ascending 0 is
          → All (IsTimed t) is
          → Returns (λ out. covers f out ≡ covers f is) (merge_ordered update is)
      go [] a all = refl
      go (i ∷ is) a all = merge_loop-covers f i is all.0 a.1 all.1
