-- ===== src/DecimalOps.antt =====
-- What the program uses of `rust_decimal` where signed decimals are multiplied and divided.
--
-- A decimal is an integer number of units that are as small as the crate's precision allows. Sums,
-- differences and comparisons are those of the integers; what the crate rounds is a parameter.
pub mod Thousandths
use riabow_dex_backend.Prelude.{ℕ, ◌≡◌, ◌≢◌, if◌then◌else◌}
use riabow_dex_backend.Prelude.Int.{ℤ, pos, ◌*ℤ◌, ◌≤ℤ◌, ◌==ℤ◌, ltb_ℤ}

pub record DecimalOps : Type 0 where
  -- `Decimal::ONE`
  pub one : ℤ
  pub mul : ℤ → ℤ → ℤ
  pub div : ℤ → ℤ → ℤ
  pub round_dp10 : ℤ → ℤ
  -- `Decimal::new(mantissa, scale)`
  pub new_decimal : ℤ → ℕ → ℤ

-- What the crate documents of them.
pub record DecimalLaws (o : DecimalOps) : Type 0 where
  pub mul-one : (x : ℤ) → o.mul x o.one ≡ x
  pub div_self : (x : ℤ) → x ≢ pos 0 → o.div x x ≡ o.one
  pub round-one : o.round_dp10 o.one ≡ o.one
  pub mul_nonneg : (x y : ℤ) → pos 0 ≤ℤ x → pos 0 ≤ℤ y → pos 0 ≤ℤ o.mul x y

-- `Decimal::from` of an integer.
unfoldable pub from_int : DecimalOps → ℤ → ℤ
from_int o n = n *ℤ o.one

-- `safe_div!` and `safe_div_or!`
unfoldable pub safe_div_or : DecimalOps → ℤ → ℤ → ℤ → ℤ
safe_div_or o numerator denominator default =
    if denominator ==ℤ pos 0 then default else o.div numerator denominator

abbrev pub max_ℤ : ℤ → ℤ → ℤ
max_ℤ a b = if ltb_ℤ a b then b else a

abbrev pub min_ℤ : ℤ → ℤ → ℤ
min_ℤ a b = if ltb_ℤ b a then b else a
