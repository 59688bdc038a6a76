-- ===== src/Margin/Tiers.antt =====
-- backend/src/services/unified_margin/tiers.rs: the ladder of maintenance margins.
--
-- Amounts of money are in units of 10^-36, prices, sizes and rates in units of 10^-18, and margins,
-- amounts times rates, in units of 10^-54. A symbol is a number, and 0 stands for `*`.
use riabow_dex_backend.Prelude.{ℕ, Option, none, some, List, [], ◌∷◌, if◌then◌else◌}
use riabow_dex_backend.Prelude.Int.{ℤ, pos, ◌-ℤ◌, ◌*ℤ◌, leb_ℤ, ltb_ℤ}

pub record MarginTier : Type 0 where
  pub max_notional : ℤ
  pub maint_margin_rate : ℤ
  pub max_leverage : ℤ
  pub cum_amount : ℤ

-- `by_symbol`, a map.
pub record TierStore : Type 0 where
  pub by_symbol : ℕ → Option (List MarginTier)

-- `dec!(0.005)`
abbrev pub default_rate : ℤ
default_rate = pos 5_000_000_000_000_000

abbrev pub abs : ℤ → ℤ
abs n = if ltb_ℤ n (pos 0) then pos 0 -ℤ n else n

-- The first tier that reaches the notional, or else the last one.
unfoldable pub tier_for : ℤ → List MarginTier → Option MarginTier
tier_for notional [] = none
tier_for notional (t ∷ tiers) =
    if leb_ℤ notional t.max_notional
    then some t
    else elim tiers [ [] ↦ some t | _ ∷ _ ↦ tier_for notional tiers ]

unfoldable pub ladder : TierStore → ℕ → Option (List MarginTier)
ladder s symbol = elim (s.by_symbol symbol) [ some tiers ↦ some tiers | none ↦ s.by_symbol 0 ]

-- `TierStore::resolve`
unfoldable pub resolve : TierStore → ℕ → ℤ → ℤ × ℤ
unfolding ladder tier_for
resolve s symbol notional = elim (ladder s symbol) [
  | none ↦ (default_rate, pos 0)
  | some tiers ↦ elim (tier_for (abs notional) tiers) [
    | none ↦ (default_rate, pos 0)
    | some t ↦ (t.maint_margin_rate, t.cum_amount)
  ]
]

abbrev pub max_zero : ℤ → ℤ
max_zero n = if ltb_ℤ n (pos 0) then pos 0 else n

-- `TierStore::maintenance_margin`; the deduction is an amount times a rate already.
unfoldable pub maintenance_margin : TierStore → ℕ → ℤ → ℤ
unfolding resolve
maintenance_margin s symbol notional =
    let (rate, cum) = resolve s symbol notional in max_zero (abs notional *ℤ rate -ℤ cum)
