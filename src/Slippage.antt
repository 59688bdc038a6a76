-- ===== src/Slippage.antt =====
-- backend/src/utils/slippage.rs: a simulated market order over the levels of a book.
--
-- A price and a size are texts, which `parse` reads as decimals.
pub mod Depth
mod Tests
use riabow_dex_backend.Prelude.{Bool, ◌||◌, Option, none, some, List, [], ◌∷◌, if◌then◌else◌}
use riabow_dex_backend.Prelude.Int.{ℤ, pos, ◌+ℤ◌, ◌-ℤ◌, leb_ℤ, ltb_ℤ, ◌==ℤ◌}
use riabow_dex_backend.DecimalOps.{DecimalOps}

pub record FillSimulation : Type 0 where
  pub filled : ℤ
  pub notional : ℤ
  pub avg_price : Option ℤ

abbrev pub abs_ℤ : ℤ → ℤ
abs_ℤ x = if ltb_ℤ x (pos 0) then pos 0 -ℤ x else x

unfoldable pub slippage_vs : DecimalOps → FillSimulation → ℤ → ℤ
slippage_vs o sim reference = elim sim.avg_price [
  | none ↦ pos 0
  | some avg ↦ if reference ==ℤ pos 0 then pos 0 else o.div (abs_ℤ (avg -ℤ reference)) reference
]

-- The variables of the loop.
pub record Taking : Type 0 where
  pub remaining : ℤ
  pub filled : ℤ
  pub notional : ℤ

unfoldable pub take_size : DecimalOps → ℤ → ℤ → Taking → Taking
take_size o px sz t =
    let take = if leb_ℤ t.remaining sz then t.remaining else sz in
    if leb_ℤ sz (pos 0) then t else record {
      remaining = t.remaining -ℤ take;
      filled = t.filled +ℤ take;
      notional = t.notional +ℤ o.mul take px;
    }

-- A level whose texts are not decimals is passed over.
unfoldable pub take_parsed : DecimalOps → Option ℤ → Option ℤ → Taking → Taking
unfolding take_size
take_parsed o none sz t = t
take_parsed o (some px) none t = t
take_parsed o (some px) (some sz) t = take_size o px sz t

module _ {T : Type 0} (o : DecimalOps) (parse : T → Option ℤ) where
  unfoldable pub take_levels : List (T × T) → Taking → Taking
  unfolding take_parsed
  take_levels [] t = t
  take_levels ((px, sz) ∷ levels) t =
      let rest = take_levels levels (take_parsed o (parse px) (parse sz) t) in
      if leb_ℤ t.remaining (pos 0) then t else rest

  unfoldable pub simulate_fill : List (T × T) → ℤ → FillSimulation
  unfolding take_levels
  simulate_fill levels amount =
      let t =
        take_levels levels (record { remaining = amount; filled = pos 0; notional = pos 0 }) in
      record {
        filled = t.filled;
        notional = t.notional;
        avg_price = if ltb_ℤ (pos 0) t.filled then some (o.div t.notional t.filled) else none;
      }
