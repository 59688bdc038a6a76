-- ===== src/Fees/Rates.antt =====
-- The tier of a volume.
use riabow_dex_backend.Prelude.{ℕ, ◌+◌, ◌≡◌, ◌≤◌, ◌<◌, arith, Option, none, some}
use riabow_dex_backend.Decimals.{Decimals}
use riabow_dex_backend.Fees.{
  first_reached, classify, tier_at, get_tier, by_level, TierProgress, progress_to_next,
}

-- Whether a volume lies in the range of a tier, its lower end included and its upper end not.
abbrev pub Below : ℕ → Option ℕ → Type 0
Below volume none = Unit
Below volume (some max) = volume < max

-- The tier of a volume is the one whose range it lies in, and it is the tier of its own level.
pub classify-range :
    (volume : ℕ)
    → ((classify volume).volume_min ≤ volume)
      × Below volume (classify volume).volume_max
      × (by_level (classify volume).level ≡ classify volume)
unfolding classify first_reached by_level get_tier tier_at
classify-range volume = ground arith

-- A larger volume never means a higher fee: neither the rate of a taker nor that of a maker rises.
pub classify-rates :
    (v w : ℕ)
    → v ≤ w
    → ((classify w).taker ≤ (classify v).taker) × ((classify w).maker ≤ (classify v).maker)
unfolding classify first_reached
classify-rates v w h = ground arith

-- When there is progress to a next tier, it is the tier one level above, its lower end is not reached
-- yet, and the volume with the one that remains is in that tier.
pub progress_to_next-classify :
    (d : Decimals) (volume : ℕ) (p : TierProgress)
    → progress_to_next d volume ≡ some p
    → (p.next_level ≡ (classify volume).level + 1)
      × (volume < p.required_volume)
      × ((classify (volume + p.remaining_volume)).level ≡ p.next_level)
unfolding progress_to_next classify first_reached get_tier tier_at
progress_to_next-classify d volume p h = ground arith
