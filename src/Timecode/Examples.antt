-- ===== src/Timecode/Examples.antt =====
-- Runs of the conversions of domain/timecode.py.
use video_review.Base.{◌≡◌, refl, ◌≤◌, ◌+◌, ℕ, pos, ok, arith}
use video_review.Timecode.{frame_from_timestamp_ms, timestamp_ms_from_frame}
use video_review.Timecode.Laws.{frame_from_timestamp-timestamp_from_frame}

-- Frame 100 at 23.976 frames a second stands at 4170 ms, which reads back as frame 99.
frame_hundred :
    (timestamp_ms_from_frame (pos 100) (pos 24000) (pos 1001) ≡ ok 4170)
    × (frame_from_timestamp_ms (pos 4170) (pos 24000) (pos 1001) ≡ ok 99)
unfolding timestamp_ms_from_frame frame_from_timestamp_ms
frame_hundred = (refl, refl)

frame_from_timestamp-timestamp_from_frame_example :
    (ms g : ℕ) × (timestamp_ms_from_frame (pos 100) (pos 24000) (pos 1001) ≡ ok ms)
    × (frame_from_timestamp_ms (pos ms) (pos 24000) (pos 1001) ≡ ok g)
    × (g ≤ 100)
    × (100 ≤ g + 1)
frame_from_timestamp-timestamp_from_frame_example =
    frame_from_timestamp-timestamp_from_frame 100 24000 1001 (omega arith) (omega arith)
