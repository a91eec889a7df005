-- ===== src/TechnicalQc/Intervals.antt =====
-- Findings of the technical check as intervals of frames: `QcInterval`, `short_shot_intervals`,
-- `duration_rule_hit` and `merge_overlapping_intervals` of technical_qc.py. Frames and milliseconds
-- that the code builds are never negative; rule and reason codes are numbers in the order of
-- their texts. `V` is the type of the `values` dictionaries, `update` is `dict.update`.
pub mod Merge
pub mod Cover
pub mod Shots
pub mod Cuts
use video_review.Base.{
  ℕ, zero, suc, ◌+◌, ◌-◌, ◌*◌, ◌/◌, min, max, Bool, true, false, ◌&&◌, ◌||◌, List, [], ◌∷◌, ◌++◌,
  map, ltb, leb, ◌==◌, if◌then◌else◌, ℤ, pos, negsuc, is_negative, not_positive, pos_part, Result,
  ok, err, value_error, raise_if, ◌>>=◌, ◌>>◌,
}

pub record QcInterval (V : Type 0) : Type 0 where
  pub start_frame : ℕ
  pub end_frame : ℕ
  pub start_ms : ℕ
  pub end_ms : ℕ
  pub reason_codes : List ℕ
  pub values : V

abbrev pub is_empty {ℓ} : {A : Type ℓ} → List A → Bool
is_empty [] = true
is_empty (x ∷ xs) = false

-- `__post_init__`: the constructor raises on an invalid interval.
pub new_interval : {V : Type 0} → QcInterval V → Result (QcInterval V)
new_interval i = do
  raise_if (ltb i.end_frame i.start_frame) value_error
  raise_if (ltb i.end_ms i.start_ms) value_error
  raise_if (is_empty i.reason_codes) value_error
  ok i

pub frame_time_ms : ℕ → ℤ → ℤ → Result ℕ
frame_time_ms frame fps_num fps_den = do
  raise_if (not_positive fps_num || not_positive fps_den) value_error
  ok ((frame * 1000 * pos_part fps_den + pos_part fps_num / 2) / pos_part fps_num)

-- `sorted(set)`: insertion into a strictly ascending list.
pub insert_ordered : ℕ → List ℕ → List ℕ
insert_ordered n [] = n ∷ []
insert_ordered n (m ∷ ms) =
    let rest = insert_ordered n ms in
    if ltb n m then n ∷ m ∷ ms else if n == m then m ∷ ms else m ∷ rest

-- The frames with 0 <= frame <= total_frames, put into the set.
pub scene_cuts : ℕ → List ℤ → List ℕ → List ℕ
unfolding insert_ordered
scene_cuts total [] set = set
scene_cuts total (frame ∷ frames) set = scene_cuts total frames (
    if is_negative frame || ltb total (pos_part frame)
    then set
    else insert_ordered (pos_part frame) set)

pub boundaries : ℕ → List ℤ → List ℕ
unfolding scene_cuts insert_ordered
boundaries total frames = scene_cuts total frames (insert_ordered total (insert_ordered 0 []))

abbrev pub short_shot : ℕ
short_shot = 0

-- The body of the loop: no interval, or one.
pub shot : ℕ → ℕ → ℤ → ℤ → Result (List (QcInterval ℕ))
unfolding new_interval frame_time_ms
shot start_frame exclusive_end_frame fps_num fps_den =
    let frame_count = exclusive_end_frame - start_frame in
    if frame_count == 1 || frame_count == 2 || frame_count == 3
    then (do
      start_ms ← frame_time_ms start_frame fps_num fps_den
      end_ms ← frame_time_ms exclusive_end_frame fps_num fps_den
      i ← new_interval (record {
        start_frame = start_frame;
        end_frame = exclusive_end_frame - 1;
        start_ms = start_ms;
        end_ms = end_ms;
        reason_codes = short_shot ∷ [];
        values = frame_count;
      })
      ok (i ∷ []))
    else ok []

pub shots : List ℕ → ℤ → ℤ → Result (List (QcInterval ℕ))
unfolding shot
shots [] fps_num fps_den = ok []
shots (a ∷ []) fps_num fps_den = ok []
shots (a ∷ b ∷ rest) fps_num fps_den = do
  first ← shot a b fps_num fps_den
  others ← shots (b ∷ rest) fps_num fps_den
  ok (first ++ others)

pub short_shot_intervals : List ℤ → ℤ → ℤ → ℤ → Result (List (QcInterval ℕ))
unfolding boundaries shots
short_shot_intervals scene_cut_frames total_frames fps_num fps_den =
    if is_negative total_frames
    then err value_error
    else shots (boundaries (pos_part total_frames) scene_cut_frames) fps_num fps_den

data Rule : Type 0 where
  continuous_black continuous_white silence other_rule : Rule

duration_rule_hit : Rule → ℤ → Result Bool
duration_rule_hit rule (negsuc n) = err value_error
duration_rule_hit continuous_black (pos ms) = ok (ltb 1000 ms)
duration_rule_hit continuous_white (pos ms) = ok (ltb 1000 ms)
duration_rule_hit silence (pos ms) = ok (ltb 2000 ms)
duration_rule_hit other_rule (pos ms) = err value_error

-- The order of the tuples of reason codes.
codes_le : List ℕ → List ℕ → Bool
codes_le [] ys = true
codes_le (x ∷ xs) [] = false
codes_le (x ∷ xs) (y ∷ ys) = ltb x y || x == y && codes_le xs ys

module _ {V : Type 0} where
  -- The order of the sort keys.
  pub key_le : QcInterval V → QcInterval V → Bool
  unfolding codes_le
  key_le a b =
      ltb a.start_frame b.start_frame
      || a.start_frame == b.start_frame
        && (ltb a.start_ms b.start_ms
            || a.start_ms == b.start_ms
              && (ltb a.end_frame b.end_frame
                  || a.end_frame == b.end_frame
                    && (ltb a.end_ms b.end_ms
                        || a.end_ms == b.end_ms && codes_le a.reason_codes b.reason_codes)))

  pub insert_interval : QcInterval V → List (QcInterval V) → List (QcInterval V)
  insert_interval a [] = a ∷ []
  insert_interval a (b ∷ bs) =
      let rest = insert_interval a bs in if key_le a b then a ∷ b ∷ bs else b ∷ rest

  pub sort_intervals : List (QcInterval V) → List (QcInterval V)
  unfolding insert_interval key_le
  sort_intervals [] = []
  sort_intervals (a ∷ as') = insert_interval a (sort_intervals as')

  pub overlaps : QcInterval V → QcInterval V → Bool
  overlaps interval previous =
      leb interval.start_frame previous.end_frame || ltb interval.start_ms previous.end_ms

pub union_codes : List ℕ → List ℕ → List ℕ
unfolding insert_ordered
union_codes [] ys = ys
union_codes (x ∷ xs) ys = insert_ordered x (union_codes xs ys)

module _ {V : Type 0} (update : V → V → V) where
  -- The interval that replaces `merged[-1]`.
  pub hull : QcInterval V → QcInterval V → QcInterval V
  unfolding union_codes
  hull previous interval = record {
    start_frame = min previous.start_frame interval.start_frame;
    end_frame = max previous.end_frame interval.end_frame;
    start_ms = min previous.start_ms interval.start_ms;
    end_ms = max previous.end_ms interval.end_ms;
    reason_codes = union_codes previous.reason_codes (union_codes interval.reason_codes []);
    values = update previous.values interval.values;
  }

  -- The loop, with `previous` for `merged[-1]`; what stands before it no longer changes.
  pub merge_loop : QcInterval V → List (QcInterval V) → Result (List (QcInterval V))
  unfolding overlaps new_interval hull
  merge_loop previous [] = ok (previous ∷ [])
  merge_loop previous (interval ∷ rest) = elim (overlaps interval previous) [
    | true ↦ (do joined ← new_interval (hull previous interval); merge_loop joined rest)
    | false ↦ (do others ← merge_loop interval rest; ok (previous ∷ others))
  ]

  pub merge_ordered : List (QcInterval V) → Result (List (QcInterval V))
  unfolding merge_loop
  merge_ordered [] = ok []
  merge_ordered (first ∷ rest) = merge_loop first rest

  unfoldable pub merge_overlapping_intervals : List (QcInterval V) → Result (List (QcInterval V))
  unfolding merge_ordered sort_intervals
  merge_overlapping_intervals intervals = merge_ordered (sort_intervals intervals)
