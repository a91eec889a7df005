-- ===== src/TechnicalQc/Intervals/Merge.antt =====
-- The order and the overlaps of the intervals of `merge_overlapping_intervals`.
use video_review.Base.{
  ℕ, ◌+◌, ◌≤◌, ◌≡◌, refl, Bool, true, false, ◌&&◌, ◌||◌, List, [], ◌∷◌, leb, All, ok, ◌>>=◌,
  Returns, Returns-bind, arith, Bool-cases, inl, inr,
}
use video_review.TechnicalQc.Intervals.{
  QcInterval, new_interval, is_empty, key_le, insert_interval, sort_intervals, overlaps,
  insert_ordered, union_codes, hull, merge_loop, merge_ordered, merge_overlapping_intervals,
}

-- What the constructor of an interval checks.
pub record IsInterval {V : Type 0} (i : QcInterval V) : Type 0 where
  pub frames : i.start_frame ≤ i.end_frame
  pub times : i.start_ms ≤ i.end_ms
  pub reasons : is_empty i.reason_codes ≡ false

module _ {V : Type 0} where
  -- The first frames never go down, from `lo` on.
  abbrev pub Ascending : ℕ → List (QcInterval V) → Type 0
  Ascending lo [] = Unit
  Ascending lo (i ∷ is) = (lo ≤ i.start_frame) × Ascending i.start_frame is

  -- Each interval ends before the next one starts, from `lo` on.
  abbrev pub Chained : ℕ → List (QcInterval V) → Type 0
  Chained lo [] = Unit
  Chained lo (i ∷ is) =
      (lo ≤ i.start_frame) × (i.start_frame ≤ i.end_frame) × Chained (i.end_frame + 1) is

  abbrev pub cover : ℕ → QcInterval V → Bool
  cover f i = leb i.start_frame f && leb f i.end_frame

  -- Some interval holds the frame.
  abbrev pub covers : ℕ → List (QcInterval V) → Bool
  covers f [] = false
  covers f (i ∷ is) = cover f i || covers f is

  pub Ascending-weaken :
      (lo hi : ℕ) (is : List (QcInterval V)) → lo ≤ hi → Ascending hi is → Ascending lo is
  Ascending-weaken lo hi [] h a = tt
  Ascending-weaken lo hi (i ∷ is) h a = (omega arith, a.1)

  key_le-start : (a b : QcInterval V) → key_le a b ≡ true → a.start_frame ≤ b.start_frame
  unfolding key_le
  key_le-start a b h = ground arith

  key_gt-start : (a b : QcInterval V) → key_le a b ≡ false → b.start_frame ≤ a.start_frame
  unfolding key_le
  key_gt-start a b h = ground arith

  insert-Ascending :
      (lo : ℕ) (a : QcInterval V) (is : List (QcInterval V))
      → lo ≤ a.start_frame
      → Ascending lo is
      → Ascending lo (insert_interval a is)
  unfolding insert_interval
  insert-Ascending lo a [] h k = (h, tt)
  insert-Ascending lo a (b ∷ bs) h k = elim (Bool-cases (key_le a b)) [
    | inl e ↦ rw e (h, (key_le-start a b e, k.1))
    | inr e ↦ rw e (k.0, insert-Ascending b.start_frame a bs (key_gt-start a b e) k.1)
  ]

  pub sort-Ascending : (is : List (QcInterval V)) → Ascending 0 (sort_intervals is)
  unfolding sort_intervals
  sort-Ascending [] = tt
  sort-Ascending (i ∷ is) =
      insert-Ascending 0 i (sort_intervals is) (omega arith) (sort-Ascending is)

  module _ (P : QcInterval V → Type 0) where
    insert-All :
        (a : QcInterval V) (is : List (QcInterval V))
        → P a
        → All P is
        → All P (insert_interval a is)
    unfolding insert_interval
    insert-All a [] h k = (h, tt)
    insert-All a (b ∷ bs) h k = elim (Bool-cases (key_le a b)) [
      | inl e ↦ rw e (h, k)
      | inr e ↦ rw e (k.0, insert-All a bs h k.1)
    ]

    pub sort-All : (is : List (QcInterval V)) → All P is → All P (sort_intervals is)
    unfolding sort_intervals
    sort-All [] h = tt
    sort-All (i ∷ is) h = insert-All i (sort_intervals is) h.0 (sort-All is h.1)

  covers-insert :
      (f : ℕ) (a : QcInterval V) (is : List (QcInterval V))
      → covers f (insert_interval a is) ≡ (cover f a || covers f is)
  unfolding insert_interval
  covers-insert f a [] = refl
  covers-insert f a (b ∷ bs) = ground (arith, covers-insert f a bs)

  pub covers-sort : (f : ℕ) (is : List (QcInterval V)) → covers f (sort_intervals is) ≡ covers f is
  unfolding sort_intervals
  covers-sort f [] = refl
  covers-sort f (i ∷ is) = rw (covers-insert, covers-sort f is)

insert_ordered-nonempty : (n : ℕ) (ms : List ℕ) → is_empty (insert_ordered n ms) ≡ false
unfolding insert_ordered
insert_ordered-nonempty n [] = refl
insert_ordered-nonempty n (m ∷ ms) = ground arith

module _ {V : Type 0} (update : V → V → V) where
  hull-reasons :
      (p i : QcInterval V) → IsInterval p → is_empty (hull update p i).reason_codes ≡ false
  unfolding hull union_codes
  hull-reasons p i h = go p.reason_codes h.reasons
    where
      go :
          (cs : List ℕ)
          → is_empty cs ≡ false
          → is_empty (union_codes cs (union_codes i.reason_codes [])) ≡ false
      go [] e = cc
      go (c ∷ cs) e = insert_ordered-nonempty c _

  pub hull-IsInterval :
      (p i : QcInterval V) → IsInterval p → IsInterval i → IsInterval (hull update p i)
  unfolding hull
  hull-IsInterval p i hp hi = record {
    frames = ground (arith, hp.frames);
    times = ground (arith, hp.times);
    reasons = hull-reasons p i hp;
  }

  new_interval-ok : (i : QcInterval V) → IsInterval i → new_interval i ≡ ok i
  unfolding new_interval
  new_interval-ok i h = ground arith

  pub merge_loop-overlap :
      (p i : QcInterval V) (rest : List (QcInterval V))
      → overlaps i p ≡ true
      → IsInterval p
      → IsInterval i
      → merge_loop update p (i ∷ rest) ≡ merge_loop update (hull update p i) rest
  unfolding merge_loop
  merge_loop-overlap p i rest e hp hi =
      rw (e, merge_loop) (rw (new_interval-ok (hull update p i) (hull-IsInterval p i hp hi)) refl)

  pub merge_loop-apart :
      (p i : QcInterval V) (rest : List (QcInterval V))
      → overlaps i p ≡ false
      → merge_loop update p (i ∷ rest) ≡ (merge_loop update i rest >>= λ others. ok (p ∷ others))
  unfolding merge_loop
  merge_loop-apart p i rest e = rw (e, merge_loop) refl

  apart-frames : (p i : QcInterval V) → overlaps i p ≡ false → p.end_frame + 1 ≤ i.start_frame
  unfolding overlaps
  apart-frames p i e = ground arith

  merge_loop-Chained :
      (lo : ℕ) (previous : QcInterval V) (rest : List (QcInterval V))
      → lo ≤ previous.start_frame
      → IsInterval previous
      → Ascending previous.start_frame rest
      → All IsInterval rest
      → Returns (Chained lo) (merge_loop update previous rest)
  merge_loop-Chained lo p [] h v a all = unfold merge_loop in (h, v.frames, tt)
  merge_loop-Chained lo p (i ∷ rest) h v a all = elim (Bool-cases (overlaps i p)) [
    | inl e ↦ rw (merge_loop-overlap p i rest e v all.0) (
        merge_loop-Chained lo (hull update p i) rest (unfold hull in omega (arith, a.0))
          (hull-IsInterval p i v all.0)
          (Ascending-weaken _ i.start_frame rest (unfold hull in omega arith) a.1) all.1)
    | inr e ↦ rw (merge_loop-apart p i rest e) (
        Returns-bind (Chained (p.end_frame + 1)) (Chained lo) (merge_loop update i rest)
          (λ others. ok (p ∷ others))
          (merge_loop-Chained (p.end_frame + 1) i rest (apart-frames p i e) all.0 a.1 all.1)
          (λ others c. (h, v.frames, c)))
  ]

  -- For intervals that pass the constructor's checks, in any order, `merge_overlapping_intervals`
  -- raises nothing and returns intervals of which each ends before the next one starts.
  pub merge_overlapping_intervals-Chained :
      (intervals : List (QcInterval V))
      → All IsInterval intervals
      → Returns (Chained 0) (merge_overlapping_intervals update intervals)
  unfolding merge_overlapping_intervals merge_ordered
  merge_overlapping_intervals-Chained intervals h =
      go (sort_intervals intervals) (sort-Ascending intervals) (sort-All IsInterval intervals h)
    where
      go :
          (is : List (QcInterval V))
          → Ascending 0 is
          → All IsInterval is
          → Returns (Chained 0) (merge_ordered update is)
      go [] a all = tt
      go (i ∷ is) a all = merge_loop-Chained 0 i is a.0 all.0 a.1 all.1
