-- ===== src/TechnicalQc/Examples.antt =====
-- Intervals of backend/app/technical_qc.py at concrete findings.
use video_review.Base.{ℕ, ◌+◌, ◌*◌, ◌≡◌, ◌≤◌, refl, true, List, [], ◌∷◌, ℤ, pos, ok, Returns, arith}
use video_review.TechnicalQc.Intervals.{
  QcInterval, short_shot_intervals, merge_overlapping_intervals,
}
use video_review.TechnicalQc.Intervals.Merge.{
  IsInterval, Chained, covers, merge_overlapping_intervals-Chained,
}
use video_review.TechnicalQc.Intervals.Cover.{IsTimed, covers-merge_overlapping_intervals}
use video_review.TechnicalQc.Intervals.Cuts.{InShortShot, covers-short_shot_intervals}
use video_review.TechnicalQc.Intervals.Shots.{short_shot_intervals-Chained}

-- Frames of 40 ms.
abbrev interval : ℕ → ℕ → ℕ → QcInterval ℕ
interval start end reason = record {
  start_frame = start;
  end_frame = end;
  start_ms = 40 * start;
  end_ms = 40 * (end + 1);
  reason_codes = reason ∷ [];
  values = reason;
}

abbrev later : ℕ → ℕ → ℕ
later old new = new

abbrev findings : List (QcInterval ℕ)
findings = interval 10 12 2 ∷ interval 0 4 1 ∷ interval 3 6 3 ∷ []

merged : List (QcInterval ℕ)
merged =
    record {
      start_frame = 0;
      end_frame = 6;
      start_ms = 0;
      end_ms = 280;
      reason_codes = 1 ∷ 3 ∷ [];
      values = 3;
    }
    ∷ interval 10 12 2
    ∷ []

merge_findings : merge_overlapping_intervals later findings ≡ ok merged
unfolding merge_overlapping_intervals merged
merge_findings = refl

interval-IsInterval : (s e r : ℕ) → s ≤ e → IsInterval (interval s e r)
interval-IsInterval s e r h = record { frames = h; times = omega arith; reasons = refl }

interval-IsTimed : (s e r : ℕ) → s ≤ e → IsTimed (λ f. 40 * f) (interval s e r)
interval-IsTimed s e r h = record {
  interval = interval-IsInterval s e r h;
  start_time = refl;
  end_time = refl;
}

merge_overlapping_intervals-Chained_example :
    Returns (Chained 0) (merge_overlapping_intervals later findings)
merge_overlapping_intervals-Chained_example = merge_overlapping_intervals-Chained later findings (
  interval-IsInterval 10 12 2 (omega arith),
  (interval-IsInterval 0 4 1 (omega arith), (interval-IsInterval 3 6 3 (omega arith), tt)),
)

covers-merge_overlapping_intervals_example :
    Returns (λ out. covers 5 out ≡ covers 5 findings) (merge_overlapping_intervals later findings)
covers-merge_overlapping_intervals_example =
    covers-merge_overlapping_intervals later (λ f. 40 * f) (λ a b h. omega arith) findings 5
      (
        interval-IsTimed 10 12 2 (omega arith),
        (interval-IsTimed 0 4 1 (omega arith), (interval-IsTimed 3 6 3 (omega arith), tt)),
      )

abbrev cuts : List ℤ
cuts = pos 90 ∷ pos 2 ∷ pos 50 ∷ pos 2 ∷ pos 53 ∷ []

covers-short_shot_intervals_example :
    Returns
      (λ is.
        (covers 51 is ≡ true → InShortShot 60 cuts 51)
        × (InShortShot 60 cuts 51 → covers 51 is ≡ true))
      (short_shot_intervals cuts (pos 60) (pos 25) (pos 1))
covers-short_shot_intervals_example = covers-short_shot_intervals 24 0 cuts 60 51

short_shot_intervals-Chained_example :
    Returns (Chained 0) (short_shot_intervals cuts (pos 60) (pos 25) (pos 1))
short_shot_intervals-Chained_example = short_shot_intervals-Chained 24 0 cuts 60
