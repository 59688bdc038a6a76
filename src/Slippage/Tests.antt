-- ===== src/Slippage/Tests.antt =====
-- A simulated order over two levels of a book and one that is no number.
use riabow_dex_backend.Prelude.{
  ℕ, zero, suc, ◌≡◌, arith, is_some, Option, none, some, List, [], ◌∷◌,
}
use riabow_dex_backend.Prelude.Int.{ℤ, pos, ◌≤ℤ◌, ltb_ℤ}
use riabow_dex_backend.DecimalOps.{min_ℤ}
use riabow_dex_backend.DecimalOps.Thousandths.{thousandths}
use riabow_dex_backend.Slippage.{simulate_fill}
use riabow_dex_backend.Slippage.Depth.{depth, simulate_fill-depth}

-- The text 0 is not a number.
abbrev parse : ℕ → Option ℤ
parse zero = none
parse (suc n) = some (pos n)

abbrev levels : List (ℕ × ℕ)
levels = (100001, 2001) ∷ (0, 5001) ∷ (101001, 3001) ∷ []

positive : pos 0 ≤ℤ pos 4000
positive = omega arith

simulate_fill-depth_example :
    ((simulate_fill thousandths parse levels (pos 4000)).filled
      ≡ min_ℤ (pos 4000) (depth thousandths parse levels))
    × (is_some (simulate_fill thousandths parse levels (pos 4000)).avg_price
        ≡ ltb_ℤ (pos 0) (min_ℤ (pos 4000) (depth thousandths parse levels)))
simulate_fill-depth_example = simulate_fill-depth thousandths parse levels (pos 4000) positive
