-- ===== src/TechnicalQc/Intervals/Cuts.antt =====
-- The shots that `short_shot_intervals` looks at, told by the scene cuts alone.
use video_review.Base.{
  ℕ, suc, ◌+◌, ◌-◌, ◌≤◌, ◌<◌, ◌≡◌, refl, Bool, true, false, ◌&&◌, ◌||◌, List, [], ◌∷◌, leb, ltb,
  ◌==◌, ℤ, pos, negsuc, Returns, Returns-mono, arith, Bool-cases, inl, inr, eq_of_test,
}
use video_review.TechnicalQc.Intervals.{
  insert_ordered, scene_cuts, boundaries, short_shot_intervals,
}
use video_review.TechnicalQc.Intervals.Merge.{covers}
use video_review.TechnicalQc.Intervals.Shots.{
  Rising, boundaries-Rising, in_short_shot, covers-boundaries,
}

-- A scene cut at this frame is among the given ones.
abbrev is_given : ℕ → List ℤ → Bool
is_given k [] = false
is_given k (pos frame ∷ cuts) = frame == k || is_given k cuts
is_given k (negsuc frame ∷ cuts) = is_given k cuts

-- A shot ends and the next one begins at the frame.
abbrev pub is_cut : ℕ → List ℤ → ℕ → Bool
is_cut total cuts k = k == 0 || k == total || (leb k total && is_given k cuts)

-- The frame `f` lies in a shot of at most three frames.
pub record InShortShot (total : ℕ) (cuts : List ℤ) (f : ℕ) : Type 0 where
  pub first : ℕ
  pub next : ℕ
  pub cut_first : is_cut total cuts first ≡ true
  pub cut_next : is_cut total cuts next ≡ true
  pub whole : (k : ℕ) → first < k → k < next → is_cut total cuts k ≡ false
  pub from_first : first ≤ f
  pub before_next : f < next
  pub short : next ≤ first + 3

abbrev has : ℕ → List ℕ → Bool
has k [] = false
has k (n ∷ ns) = n == k || has k ns

has-insert_ordered : (k n : ℕ) (ns : List ℕ) → has k (insert_ordered n ns) ≡ (n == k || has k ns)
unfolding insert_ordered
has-insert_ordered k n [] = refl
has-insert_ordered k n (m ∷ ms) = ground (arith, has-insert_ordered k n ms)

has-scene_cuts :
    (k total : ℕ) (cuts : List ℤ) (set : List ℕ)
    → has k (scene_cuts total cuts set) ≡ ((leb k total && is_given k cuts) || has k set)
unfolding scene_cuts
has-scene_cuts k total [] set = ground arith
has-scene_cuts k total (negsuc frame ∷ cuts) set = has-scene_cuts k total cuts set
has-scene_cuts k total (pos frame ∷ cuts) set = elim (Bool-cases (ltb total frame)) [
  | inl e ↦ rw e (ground (arith, has-scene_cuts k total cuts set))
  | inr e ↦ rw e (
      ground (
        arith,
        has-scene_cuts k total cuts (insert_ordered frame set),
        has-insert_ordered k frame set,
      ))
]

has-boundaries : (k total : ℕ) (cuts : List ℤ) → has k (boundaries total cuts) ≡ is_cut total cuts k
unfolding boundaries
has-boundaries k total cuts = ground (
  arith,
  has-scene_cuts k total cuts (insert_ordered total (insert_ordered 0 [])),
  has-insert_ordered k total (insert_ordered 0 []),
  has-insert_ordered k 0 [],
)

-- Two neighbours of a list with the frame between them.
record Around (bs : List ℕ) (f : ℕ) : Type 0 where
  first : ℕ
  next : ℕ
  has_first : has first bs ≡ true
  has_next : has next bs ≡ true
  whole : (k : ℕ) → first < k → k < next → has k bs ≡ false
  from_first : first ≤ f
  before_next : f < next
  short : next ≤ first + 3

below_Rising : (lo k : ℕ) (bs : List ℕ) → Rising lo bs → k < lo → has k bs ≡ false
below_Rising lo k [] r h = refl
below_Rising lo k (b ∷ bs) r h = ground (arith, below_Rising (suc b) k bs r.1)

at_least : (lo k : ℕ) (bs : List ℕ) → Rising lo bs → has k bs ≡ true → lo ≤ k
at_least lo k bs r h = elim (Bool-cases (ltb k lo)) [
  | inl e ↦ let no_k = below_Rising lo k bs r (ground arith) in ground (arith, no_k)
  | inr e ↦ ground arith
]

-- The neighbour of the first element of a rising list.
next_is_second :
    (a b k : ℕ) (rest : List ℕ)
    → Rising (suc a) (b ∷ rest)
    → has k (a ∷ b ∷ rest) ≡ true
    → a < k
    → ((j : ℕ) → a < j → j < k → has j (a ∷ b ∷ rest) ≡ false)
    → k ≡ b
next_is_second a b k rest r h above whole = elim (Bool-cases (b == k)) [
  | inl e ↦ ground arith
  | inr e ↦
      let beyond = at_least (suc b) k rest r.1 (ground arith) in
      let hole = whole b r.0 (omega (arith, beyond)) in ground (arith, hole)
]

in_short_shot-Around :
    (f lo : ℕ) (bs : List ℕ) → Rising lo bs → in_short_shot f bs ≡ true → Around bs f
in_short_shot-Around f lo [] r h = cc
in_short_shot-Around f lo (a ∷ []) r h = cc
in_short_shot-Around f lo (a ∷ b ∷ rest) r h =
    elim (Bool-cases (leb a f && ltb f b && leb (b - a) 3)) [
      | inl here ↦ record {
        first = a;
        next = b;
        has_first = ground arith;
        has_next = ground arith;
        whole = λ k above below.
            let later : has k rest ≡ false = below_Rising (suc b) k rest r.1.1 (omega arith) in
            ground arith;
        from_first = ground arith;
        before_next = ground arith;
        short = ground arith;
      }
      | inr other ↦
          let g = in_short_shot-Around f (suc a) (b ∷ rest) r.1 (rw other at h) in
          record {
            first = g.first;
            next = g.next;
            has_first = ground (arith, g.has_first);
            has_next = ground (arith, g.has_next);
            whole = λ k above below.
                let low = at_least (suc a) g.first (b ∷ rest) r.1 g.has_first in
                ground (arith, g.whole k above below, low);
            from_first = g.from_first;
            before_next = g.before_next;
            short = g.short;
          }
    ]

Around-in_short_shot :
    (f lo : ℕ) (bs : List ℕ) → Rising lo bs → Around bs f → in_short_shot f bs ≡ true
Around-in_short_shot f lo [] r h = let none_here = h.has_first in cc
Around-in_short_shot f lo (a ∷ []) r h =
    ground (arith, h.has_first, h.has_next, h.from_first, h.before_next)
Around-in_short_shot f lo (a ∷ b ∷ rest) r h = elim (Bool-cases (a == h.first)) [
  | inl here ↦
      let same : a ≡ h.first = eq_of_test a h.first here in
      let second : h.next ≡ b =
        next_is_second a b h.next rest r.1 h.has_next
          (omega (arith, same, h.from_first, h.before_next))
          (λ k above below. h.whole k (omega (arith, same)) below) in
      ground (arith, same, second, h.from_first, h.before_next, h.short)
  | inr other ↦
      let after = at_least (suc a) h.first (b ∷ rest) r.1 (ground (arith, h.has_first)) in
      let deeper = Around-in_short_shot f (suc a) (b ∷ rest) r.1 (record {
        first = h.first;
        next = h.next;
        has_first = ground (arith, h.has_first);
        has_next = ground (arith, h.has_next, after, h.from_first, h.before_next);
        whole = λ k above below. ground (arith, h.whole k above below);
        from_first = h.from_first;
        before_next = h.before_next;
        short = h.short;
      }) in
      ground (arith, deeper)
]

Around-InShortShot :
    (total f : ℕ) (cuts : List ℤ) → Around (boundaries total cuts) f → InShortShot total cuts f
Around-InShortShot total f cuts h = record {
  first = h.first;
  next = h.next;
  cut_first = rw (← has-boundaries h.first total cuts) h.has_first;
  cut_next = rw (← has-boundaries h.next total cuts) h.has_next;
  whole = λ k above below. rw (← has-boundaries k total cuts) (h.whole k above below);
  from_first = h.from_first;
  before_next = h.before_next;
  short = h.short;
}

InShortShot-Around :
    (total f : ℕ) (cuts : List ℤ) → InShortShot total cuts f → Around (boundaries total cuts) f
InShortShot-Around total f cuts h = record {
  first = h.first;
  next = h.next;
  has_first = rw (has-boundaries h.first total cuts) h.cut_first;
  has_next = rw (has-boundaries h.next total cuts) h.cut_next;
  whole = λ k above below. rw (has-boundaries k total cuts) (h.whole k above below);
  from_first = h.from_first;
  before_next = h.before_next;
  short = h.short;
}

-- For a positive frame rate and a total that is not negative, `short_shot_intervals` raises
-- nothing, and a frame lies in a reported interval exactly when it lies between two cuts that are
-- at most three frames apart and have no cut between them, the cuts being 0, the total and the
-- given scene cuts from 0 to the total.
pub covers-short_shot_intervals :
    (n d : ℕ) (cuts : List ℤ) (total f : ℕ)
    → Returns
        (λ is.
          (covers f is ≡ true → InShortShot total cuts f)
          × (InShortShot total cuts f → covers f is ≡ true))
        (short_shot_intervals cuts (pos total) (pos (suc n)) (pos (suc d)))
covers-short_shot_intervals n d cuts total f =
    Returns-mono (λ is. covers f is ≡ in_short_shot f (boundaries total cuts))
      (λ is.
        (covers f is ≡ true → InShortShot total cuts f)
        × (InShortShot total cuts f → covers f is ≡ true))
      (short_shot_intervals cuts (pos total) (pos (suc n)) (pos (suc d)))
      (λ is e. (
        (λ c. Around-InShortShot total f cuts (
            in_short_shot-Around f 0 (boundaries total cuts) (boundaries-Rising total cuts)
              (rw (← e) c))),
        (λ g. rw e (
            Around-in_short_shot f 0 (boundaries total cuts) (boundaries-Rising total cuts)
              (InShortShot-Around total f cuts g))),
      ))
      (covers-boundaries n d cuts total f)
