-- ===== src/TechnicalQc/Intervals/Shots.antt =====
-- `short_shot_intervals` against the shots between scene cuts.
use native.Mathlib.Nat.{le-div_iff_mul-le, div-mul-le_self, mul-le-mul_left}
use video_review.Base.{
  ℕ, suc, ◌+◌, ◌-◌, ◌*◌, ◌/◌, ◌≤◌, ◌<◌, ◌≡◌, refl, Bool, false, ◌&&◌, ◌||◌, List, [], ◌∷◌, ◌++◌,
  leb, ltb, ◌==◌, if◌then◌else◌, ℤ, pos, is_negative, pos_part, ok, Returns, Returns-bind, arith,
  Bool-cases, inl, inr,
}
use video_review.TechnicalQc.Intervals.{
  QcInterval, new_interval, frame_time_ms, insert_ordered, scene_cuts, boundaries, short_shot, shot,
  shots, short_shot_intervals,
}
use video_review.TechnicalQc.Intervals.Merge.{covers, Chained}

-- Strictly ascending, from `lo` on.
abbrev pub Rising : ℕ → List ℕ → Type 0
Rising lo [] = Unit
Rising lo (n ∷ ns) = (lo ≤ n) × Rising (suc n) ns

insert_ordered-Rising :
    (lo n : ℕ) (ns : List ℕ) → lo ≤ n → Rising lo ns → Rising lo (insert_ordered n ns)
unfolding insert_ordered
insert_ordered-Rising lo n [] h r = (h, tt)
insert_ordered-Rising lo n (m ∷ ms) h r = elim (Bool-cases (ltb n m)) [
  | inl e ↦ rw e (h, (ground arith, r.1))
  | inr e ↦ elim (Bool-cases (n == m)) [
    | inl s ↦ rw (e, s) r
    | inr s ↦ rw (e, s) (r.0, insert_ordered-Rising (suc m) n ms (ground arith) r.1)
  ]
]

scene_cuts-Rising :
    (total : ℕ) (frames : List ℤ) (set : List ℕ)
    → Rising 0 set
    → Rising 0 (scene_cuts total frames set)
unfolding scene_cuts
scene_cuts-Rising total [] set r = r
scene_cuts-Rising total (frame ∷ frames) set r =
    elim (Bool-cases (is_negative frame || ltb total (pos_part frame))) [
      | inl e ↦ rw e (scene_cuts-Rising total frames set r)
      | inr e ↦ rw e (
          scene_cuts-Rising total frames (insert_ordered (pos_part frame) set)
            (insert_ordered-Rising 0 (pos_part frame) set (omega arith) r))
    ]

-- The boundaries of the shots, the first one 0, go up strictly.
pub boundaries-Rising : (total : ℕ) (frames : List ℤ) → Rising 0 (boundaries total frames)
unfolding boundaries
boundaries-Rising total frames = scene_cuts-Rising total frames _ (
    insert_ordered-Rising 0 total (insert_ordered 0 []) (omega arith)
      (insert_ordered-Rising 0 0 [] (omega arith) tt))

-- The frame lies between two consecutive boundaries that are at most three frames apart.
abbrev pub in_short_shot : ℕ → List ℕ → Bool
in_short_shot f [] = false
in_short_shot f (a ∷ []) = false
in_short_shot f (a ∷ b ∷ rest) = (leb a f && ltb f b && leb (b - a) 3) || in_short_shot f (b ∷ rest)

module _ (n d : ℕ) where
  abbrev rate_time : ℕ → ℕ
  rate_time frame = (frame * 1000 * suc d + suc n / 2) / suc n

  rate_time_mono : (a b : ℕ) → a ≤ b → rate_time a ≤ rate_time b
  rate_time_mono a b h = (le-div_iff_mul-le (omega arith)).1 (
      omega (
        arith,
        div-mul-le_self (a * 1000 * suc d + suc n / 2) (suc n),
        mul-le-mul_left (1000 * suc d) h,
      ))

  frame_time_ms-ok :
      (frame : ℕ) → frame_time_ms frame (pos (suc n)) (pos (suc d)) ≡ ok (rate_time frame)
  unfolding frame_time_ms
  frame_time_ms-ok frame = refl

  -- What one shot reports: nothing, or the shot.
  abbrev reported : ℕ → ℕ → List (QcInterval ℕ)
  reported a b =
      if leb (b - a) 3
      then (record {
        start_frame = a;
        end_frame = b - 1;
        start_ms = rate_time a;
        end_ms = rate_time b;
        reason_codes = short_shot ∷ [];
        values = b - a;
      })
        ∷ []
      else []

  shot-reported : (a b : ℕ) → a < b → shot a b (pos (suc n)) (pos (suc d)) ≡ ok (reported a b)
  unfolding shot new_interval
  shot-reported a b h = ground (arith, rate_time_mono a b)

  covers-append :
      (f : ℕ) (xs ys : List (QcInterval ℕ)) → covers f (xs ++ ys) ≡ (covers f xs || covers f ys)
  covers-append f [] ys = refl
  covers-append f (x ∷ xs) ys = ground (arith, covers-append f xs ys)

  covers-reported :
      (f a b : ℕ) → a < b → covers f (reported a b) ≡ (leb a f && ltb f b && leb (b - a) 3)
  covers-reported f a b h = ground arith

  shots-covers :
      (f lo : ℕ) (bs : List ℕ)
      → Rising lo bs
      → Returns (λ is. covers f is ≡ in_short_shot f bs) (shots bs (pos (suc n)) (pos (suc d)))
  unfolding shots
  shots-covers f lo [] r = refl
  shots-covers f lo (a ∷ []) r = refl
  shots-covers f lo (a ∷ b ∷ rest) r = rw (shot-reported a b r.1.0) (
      Returns-bind (λ is. covers f is ≡ in_short_shot f (b ∷ rest))
        (λ is. covers f is ≡ in_short_shot f (a ∷ b ∷ rest))
        (shots (b ∷ rest) (pos (suc n)) (pos (suc d))) (λ others. ok (reported a b ++ others))
        (shots-covers f (suc a) (b ∷ rest) r.1)
        (λ others e. rw (covers-append f (reported a b) others, covers-reported f a b r.1.0, e)))

  Chained-weaken : (lo hi : ℕ) (is : List (QcInterval ℕ)) → lo ≤ hi → Chained hi is → Chained lo is
  Chained-weaken lo hi [] h c = tt
  Chained-weaken lo hi (i ∷ is) h c = (omega arith, c.1, c.2)

  reported-Chained :
      (lo a b : ℕ) (others : List (QcInterval ℕ))
      → lo ≤ a
      → a < b
      → Chained b others
      → Chained lo (reported a b ++ others)
  reported-Chained lo a b others l h c = elim (Bool-cases (leb (b - a) 3)) [
    | inl e ↦ rw e (l, omega arith, Chained-weaken (b - 1 + 1) b others (omega arith) c)
    | inr e ↦ rw e (Chained-weaken lo b others (omega arith) c)
  ]

  shots-Chained :
      (lo : ℕ) (bs : List ℕ)
      → Rising lo bs
      → Returns (Chained lo) (shots bs (pos (suc n)) (pos (suc d)))
  unfolding shots
  shots-Chained lo [] r = tt
  shots-Chained lo (a ∷ []) r = tt
  shots-Chained lo (a ∷ b ∷ rest) r = rw (shot-reported a b r.1.0) (
      Returns-bind (Chained b) (Chained lo) (shots (b ∷ rest) (pos (suc n)) (pos (suc d)))
        (λ others. ok (reported a b ++ others)) (shots-Chained b (b ∷ rest) (omega arith, r.1.1))
        (λ others c. reported-Chained lo a b others r.0 r.1.0 c))

  -- For a positive frame rate and a total that is not negative, the intervals that
  -- `short_shot_intervals` returns are disjoint and in the order of their frames, each with its
  -- first frame not behind its last.
  pub short_shot_intervals-Chained :
      (cuts : List ℤ) (total : ℕ)
      → Returns (Chained 0) (short_shot_intervals cuts (pos total) (pos (suc n)) (pos (suc d)))
  unfolding short_shot_intervals
  short_shot_intervals-Chained cuts total =
      shots-Chained 0 (boundaries total cuts) (boundaries-Rising total cuts)

  -- The frames of the reported intervals, by the boundaries that the code makes.
  pub covers-boundaries :
      (cuts : List ℤ) (total f : ℕ)
      → Returns
          (λ is. covers f is ≡ in_short_shot f (boundaries total cuts))
          (short_shot_intervals cuts (pos total) (pos (suc n)) (pos (suc d)))
  unfolding short_shot_intervals
  covers-boundaries cuts total f =
      shots-covers f 0 (boundaries total cuts) (boundaries-Rising total cuts)
