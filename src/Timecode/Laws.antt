-- ===== src/Timecode/Laws.antt =====
-- The two conversions against one another, and the parts of a timecode.
use native.Mathlib.Nat.{div-add-mod', le_of_mul-le-mul_right, lt_of_mul-lt-mul_right}
use video_review.Base.{ℕ, zero, suc, ◌+◌, ◌*◌, ◌/◌, ◌%◌, ◌≤◌, ◌<◌, ◌≡◌, refl, pos, ok, arith}
use video_review.Timecode.{frame_from_timestamp_ms, timestamp_ms_from_frame}

-- The arithmetic of rounding down twice, over the quotients `q`, `r` and the remainders `s`, `t`.
rounding :
    (f m n q s r t : ℕ)
    → q * n + s ≡ f * m
    → s < n
    → r * m + t ≡ q * n
    → t < m
    → n ≤ m
    → (r ≤ f) × (f < r + 2)
rounding f m n q s r t first hs second ht h = (
  le_of_mul-le-mul_right {k = m} (omega arith) (omega arith),
  lt_of_mul-lt-mul_right m (omega arith),
)

-- Rounding down twice loses at most one.
div-mul_div :
    (f m n a : ℕ) → a ≡ f * m → 0 < n → n ≤ m → (a / n * n / m ≤ f) × (f ≤ a / n * n / m + 1)
div-mul_div f m n a e hn h =
    let (low, high) =
      rounding f m n (a / n) (a % n) (a / n * n / m) (a / n * n % m)
        (omega (arith, div-add-mod' a n)) (omega arith) (div-add-mod' (a / n * n) m) (omega arith)
        h in
    (low, omega arith)

-- For a positive frame rate of at most 1000 frames a second, both conversions of a frame succeed,
-- and its timestamp leads back to that frame or to the one before it.
pub frame_from_timestamp-timestamp_from_frame :
    (f num den : ℕ)
    → 0 < num
    → num ≤ 1000 * den
    → (ms g : ℕ) × (timestamp_ms_from_frame (pos f) (pos num) (pos den) ≡ ok ms)
      × (frame_from_timestamp_ms (pos ms) (pos num) (pos den) ≡ ok g)
      × (g ≤ f)
      × (f ≤ g + 1)
unfolding frame_from_timestamp_ms timestamp_ms_from_frame
frame_from_timestamp-timestamp_from_frame f zero den hn h = elim hn [ ]
frame_from_timestamp-timestamp_from_frame f (suc n) zero hn h = absurd (omega arith)
frame_from_timestamp-timestamp_from_frame f (suc n) (suc d) hn h =
    let (low, high) = div-mul_div f (1000 * suc d) (suc n) (f * 1000 * suc d) (omega arith) hn h in
    (
      f * 1000 * suc d / suc n,
      f * 1000 * suc d / suc n * suc n / (1000 * suc d),
      refl,
      refl,
      low,
      high,
    )
