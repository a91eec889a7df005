-- ===== src/Timecode.antt =====
-- Frames, milliseconds and the display timecode: final_cut_review/domain/timecode.py.
pub mod Laws
mod Examples
use video_review.Base.{
  ℕ, ◌+◌, ◌*◌, ◌/◌, ◌%◌, max, Bool, ◌||◌, List, ◌∷◌, ◌++◌, ℤ, is_negative, not_positive, pos_part,
  Result, ok, value_error, raise_if, ◌>>=◌, ◌>>◌,
}

-- The guard of the three functions: `value < 0 or fps_num <= 0 or fps_den <= 0` raises.
abbrev check_rate : ℤ → ℤ → ℤ → Result (Unit {0})
check_rate value fps_num fps_den =
    raise_if (is_negative value || not_positive fps_num || not_positive fps_den) value_error

pub frame_from_timestamp_ms : ℤ → ℤ → ℤ → Result ℕ
frame_from_timestamp_ms timestamp_ms fps_num fps_den = do
  check_rate timestamp_ms fps_num fps_den
  ok (pos_part timestamp_ms * pos_part fps_num / (1000 * pos_part fps_den))

pub timestamp_ms_from_frame : ℤ → ℤ → ℤ → Result ℕ
timestamp_ms_from_frame frame_number fps_num fps_den = do
  check_rate frame_number fps_num fps_den
  ok (pos_part frame_number * 1000 * pos_part fps_den / pos_part fps_num)

pub record Parts : Type 0 where
  pub hours : ℕ
  pub minutes : ℕ
  pub seconds : ℕ
  pub frames : ℕ

-- The local variables of `format_review_timecode`.
pub timecode_parts : ℕ → ℕ → ℕ → Parts
timecode_parts frame_number fps_num fps_den =
    let effective_fps = max 1 (fps_num / fps_den) in
    let total_seconds = frame_number / effective_fps in
    record {
      hours = total_seconds / 3600;
      minutes = total_seconds % 3600 / 60;
      seconds = total_seconds % 60;
      frames = frame_number % effective_fps;
    }

-- `two_digits` is Python's `format(n, "02d")`, as code points.
format_review_timecode : (ℕ → List ℕ) → ℤ → ℤ → ℤ → Result (List ℕ)
unfolding timecode_parts
format_review_timecode two_digits frame_number fps_num fps_den = do
  check_rate frame_number fps_num fps_den
  let p = timecode_parts (pos_part frame_number) (pos_part fps_num) (pos_part fps_den)
  ok (
      two_digits p.hours
      ++ (b':'
          ∷ (two_digits p.minutes
              ++ (b':' ∷ (two_digits p.seconds ++ (b':' ∷ two_digits p.frames))))))
