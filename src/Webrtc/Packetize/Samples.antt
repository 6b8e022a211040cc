-- ===== src/Webrtc/Packetize/Samples.antt =====
-- The length of a frame in ticks of the RTP clock.
use caml.Base.{ℕ, ◌+◌, ◌*◌, ◌/◌, ◌≤◌, ◌<◌, ◌≡◌, min, max, arith, ◌⊎◌}
use caml.Units.{Duration}
use caml.Webrtc.Packetize.{
  u32_max, u128_max, saturating_mul_u128, clamp, duration_to_rtp_samples_with_rate,
}

-- The saturation of the product does not show: its quotient is far above the greatest u32.
saturated :
    (product : ℕ)
    → min (max (min product u128_max / 1_000_000_000) 1) u32_max
      ≡ min (max (product / 1_000_000_000) 1) u32_max
saturated product = omega arith

-- `product` is the ticks times the nanoseconds of a second, rounded down, within the bounds of a u32
-- that is not 0.
abbrev pub IsTicks : ℕ → ℕ → Type 0
IsTicks product samples =
    (1 ≤ samples)
    × (samples ≤ u32_max)
    × ((samples ≡ 1) ⊎ (samples * 1_000_000_000 ≤ product))
    × ((samples ≡ u32_max) ⊎ (product < (samples + 1) * 1_000_000_000))

clamped-IsTicks : (product : ℕ) → IsTicks product (min (max (product / 1_000_000_000) 1) u32_max)
clamped-IsTicks product = omega arith

-- The samples of a frame are a u32 that is not 0; unless they are 1, they are no more than the
-- duration times the clock rate, and unless they are the greatest u32, one more sample would be
-- longer: the multiplication on u128, which may saturate, does not change that.
pub duration_to_rtp_samples_with_rate-IsTicks :
    (duration : Duration) (clock_rate : ℕ)
    → IsTicks (duration * clock_rate) (duration_to_rtp_samples_with_rate duration clock_rate)
unfolding duration_to_rtp_samples_with_rate saturating_mul_u128 clamp
duration_to_rtp_samples_with_rate-IsTicks duration clock_rate =
    rw (saturated (duration * clock_rate)) (clamped-IsTicks (duration * clock_rate))
