-- ===== src/Decimals.antt =====
-- What the program uses of the crate `rust_decimal` beyond exact sums, products and comparisons.
--
-- A `Decimal` that is not negative is the number of its units of 10^-18; prices, amounts and rates
-- all have this scale, so a product of two of them counts units of 10^-36, and so on. Sums,
-- differences, products and comparisons of decimals are those of the numbers, exactly, as long as
-- the crate's 96-bit mantissa holds them. Rounded operations are parameters of the model.
use riabow_dex_backend.Prelude.{ℕ, Option}
use riabow_dex_backend.Prelude.Int.{ℤ}

pub record Decimals : Type 0 where
  -- `round_dp_with_strategy(6, MidpointAwayFromZero)`: from units of 10^-54 to units of 10^-6.
  pub round_dp6 : ℕ → ℕ
  -- `a / b`, rounded by the crate to its precision.
  pub quotient : ℕ → ℕ → ℕ
  -- `(price * 100_000_000).to_string().parse::<i64>()`, which fails on a text with a point; a function
  -- of the value, so a price is taken to have one scale.
  pub parse_scaled : ℕ → Option ℤ
