-- ===== src/Fees.antt =====
-- backend/src/utils/fee_tiers.rs: the fee tiers by trading volume.
--
-- Volumes and rates are in units of 10^-18. The texts of the labels are left out: the label of a
-- tier is its level.
pub mod Rates
mod Tests
use riabow_dex_backend.Prelude.{
  ℕ, zero, suc, ◌+◌, ◌-◌, ◌*◌, Bool, Option, none, some, List, [], ◌∷◌, reverse, if◌then◌else◌,
  ◌==◌, leb, min,
}
use riabow_dex_backend.Decimals.{Decimals}

pub record VipTier : Type 0 where
  pub level : ℕ
  pub taker : ℕ
  pub maker : ℕ
  pub volume_min : ℕ
  pub volume_max : Option ℕ

abbrev pub vip_0 : VipTier
vip_0 = record {
  level = 0;
  taker = 400_000_000_000_000;
  maker = 100_000_000_000_000;
  volume_min = 0;
  volume_max = some 5_000_000_000_000_000_000_000_000;
}

abbrev pub vip_1 : VipTier
vip_1 = record {
  level = 1;
  taker = 360_000_000_000_000;
  maker = 80_000_000_000_000;
  volume_min = 5_000_000_000_000_000_000_000_000;
  volume_max = some 25_000_000_000_000_000_000_000_000;
}

abbrev pub vip_2 : VipTier
vip_2 = record {
  level = 2;
  taker = 320_000_000_000_000;
  maker = 40_000_000_000_000;
  volume_min = 25_000_000_000_000_000_000_000_000;
  volume_max = some 100_000_000_000_000_000_000_000_000;
}

abbrev pub vip_3 : VipTier
vip_3 = record {
  level = 3;
  taker = 280_000_000_000_000;
  maker = 0;
  volume_min = 100_000_000_000_000_000_000_000_000;
  volume_max = some 500_000_000_000_000_000_000_000_000;
}

abbrev pub vip_4 : VipTier
vip_4 = record {
  level = 4;
  taker = 260_000_000_000_000;
  maker = 0;
  volume_min = 500_000_000_000_000_000_000_000_000;
  volume_max = some 2_000_000_000_000_000_000_000_000_000;
}

abbrev pub vip_5 : VipTier
vip_5 = record {
  level = 5;
  taker = 240_000_000_000_000;
  maker = 0;
  volume_min = 2_000_000_000_000_000_000_000_000_000;
  volume_max = none;
}

-- `TIERS`, from the highest tier to the lowest: the order in which `classify` walks them.
abbrev pub descending_tiers : List VipTier
descending_tiers = vip_5 ∷ vip_4 ∷ vip_3 ∷ vip_2 ∷ vip_1 ∷ vip_0 ∷ []

unfoldable pub first_reached : ℕ → List VipTier → VipTier
first_reached volume [] = vip_0
first_reached volume (t ∷ tiers) = if leb t.volume_min volume then t else first_reached volume tiers

-- `classify`
unfoldable pub classify : ℕ → VipTier
unfolding first_reached
classify volume_14d = first_reached volume_14d descending_tiers

-- `TIERS`
abbrev pub tiers : List VipTier
tiers = vip_0 ∷ vip_1 ∷ vip_2 ∷ vip_3 ∷ vip_4 ∷ vip_5 ∷ []

unfoldable pub tier_at : ℕ → List VipTier → Option VipTier
tier_at index [] = none
tier_at zero (t ∷ ts) = some t
tier_at (suc index) (t ∷ ts) = tier_at index ts

-- `TIERS.get(level)`
unfoldable pub get_tier : ℕ → Option VipTier
unfolding tier_at
get_tier level = tier_at level tiers

unfoldable pub by_level : ℕ → VipTier
unfolding get_tier
by_level level = elim (get_tier level) [ none ↦ vip_0 | some t ↦ t ]

pub record TierProgress : Type 0 where
  pub next_level : ℕ
  pub required_volume : ℕ
  pub remaining_volume : ℕ
  pub percent : ℕ

-- `progress_to_next`; `quotient` gives units of 10^-18 of a numerator in units of 10^-36.
unfoldable pub progress_to_next : Decimals → ℕ → Option TierProgress
unfolding classify get_tier
progress_to_next d volume = elim (get_tier ((classify volume).level + 1)) [
  | none ↦ none
  | some next ↦ some (record {
    next_level = next.level;
    required_volume = next.volume_min;
    remaining_volume = next.volume_min - volume;
    percent =
        if next.volume_min == 0
        then 1_000_000_000_000_000_000
        else min (d.quotient (volume * 1_000_000_000_000_000_000) next.volume_min)
            1_000_000_000_000_000_000;
  })
]
