-- ===== src/Positions/Decrease/Remains.antt =====
-- What a decrease leaves of a position.
use riabow_dex_backend.Prelude.{
  ℕ, ◌≡◌, ◌⊎◌, arith, refl, Bool, true, false, Option, none, some, inl, inr, sym, ap, ◌∙◌, subst,
}
use riabow_dex_backend.Prelude.Int.{ℤ, pos, ◌≤ℤ◌, ◌<ℤ◌}
use riabow_dex_backend.DecimalOps.{DecimalOps}
use riabow_dex_backend.Positions.Types.{
  Position, PositionConfig, PositionStatus, open_position, closed, liquidated,
  DecreasePositionResult, done,
}
use riabow_dex_backend.Positions.Formulas.{
  calculate_remaining_collateral_usd, liquidation_reason, check_liquidation,
}
use riabow_dex_backend.Positions.Store.{PositionStore, find_position, update_position}
use riabow_dex_backend.Positions.Store.Rows.{find_position-id, update-find}
use riabow_dex_backend.Positions.Decrease.{
  Close, close_of, full_close, closed_position, reduced_position, apply_close, decrease_result,
  decrease_position, close_open, decrease_found, closes_fully, partial_close, close_size_of,
}

-- A position that is not liquidated at a price: what remains of its collateral is positive, and at
-- least the minimum and the maintenance margin.
abbrev pub Healthy : DecimalOps → PositionConfig → ℤ → Position → Type 0
Healthy o config price p =
    (pos 0 <ℤ calculate_remaining_collateral_usd o p price o.one)
    × (config.min_collateral_usd ≤ℤ calculate_remaining_collateral_usd o p price o.one)
    × (o.mul p.size_in_usd config.maintenance_margin_rate
        ≤ℤ calculate_remaining_collateral_usd o p price o.one)

abbrev pub Flat : Position → Type 0
Flat p =
    (p.status ≡ closed)
    × (p.size_in_usd ≡ pos 0)
    × (p.size_in_tokens ≡ pos 0)
    × (p.collateral_amount ≡ pos 0)

reason-Healthy :
    (remaining least margin : ℤ)
    → liquidation_reason remaining least margin ≡ none
    → (pos 0 <ℤ remaining) × (least ≤ℤ remaining) × (margin ≤ℤ remaining)
unfolding liquidation_reason
reason-Healthy remaining least margin h = ground arith

pub check_liquidation-Healthy :
    (o : DecimalOps) (config : PositionConfig) (p : Position) (price : ℤ)
    → (check_liquidation o config p price).is_liquidatable ≡ false
    → Healthy o config price p
unfolding check_liquidation
check_liquidation-Healthy o config p price h = ground (
  arith,
  reason-Healthy (calculate_remaining_collateral_usd o p price o.one) config.min_collateral_usd
      (o.mul p.size_in_usd config.maintenance_margin_rate),
)

-- The row of a close, by whether it is a full one.
abbrev pub LeftBy : DecimalOps → PositionConfig → ℤ → Bool → Position → Type 0
LeftBy o config price true q = Flat q
LeftBy o config price false q =
    (q.status ≡ open_position)
    × (config.min_position_size_usd ≤ℤ q.size_in_usd)
    × Healthy o config price q

pub full_close-Flat :
    (o : DecimalOps) (p : Position) (price : ℤ)
    → ((full_close o p price).is_full_close ≡ true) × Flat (full_close o p price).row
unfolding full_close closed_position
full_close-Flat o p price = ground arith

closes_fully-Healthy :
    (o : DecimalOps) (config : PositionConfig) (p q : Position) (n price : ℤ)
    → closes_fully o config p n q price ≡ false
    → (config.min_position_size_usd ≤ℤ q.size_in_usd) × Healthy o config price q
unfolding closes_fully
closes_fully-Healthy o config p q n price h =
    ground (arith, check_liquidation-Healthy o config q price)

pub close_of-cases :
    (o : DecimalOps) (config : PositionConfig) (p : Position) (size : Option ℤ) (price : ℤ)
    → (close_of o config p size price ≡ full_close o p price)
      ⊎ ((close_of o config p size price ≡ partial_close o p (close_size_of p size) price)
          × (closes_fully o config p
                (close_size_of p size)
                (partial_close o p (close_size_of p size) price).row
                price
              ≡ false))
unfolding close_of
close_of-cases o config p size price = ground arith

full_close-LeftBy :
    (o : DecimalOps) (config : PositionConfig) (p : Position) (price : ℤ)
    → LeftBy o config price (full_close o p price).is_full_close (full_close o p price).row
unfolding full_close closed_position
full_close-LeftBy o config p price = (refl, refl, refl, refl)

partial_close-LeftBy :
    (o : DecimalOps) (config : PositionConfig) (p : Position) (n price : ℤ)
    → p.status ≡ open_position
    → (config.min_position_size_usd ≤ℤ (partial_close o p n price).row.size_in_usd)
      × Healthy o config price (partial_close o p n price).row
    → LeftBy o config price
        (partial_close o p n price).is_full_close
        (partial_close o p n price).row
unfolding partial_close reduced_position
partial_close-LeftBy o config p n price h (large, healthy) = (h, large, healthy)

-- The row of a close, with what its flag says.
abbrev CloseLeaves : DecimalOps → PositionConfig → ℤ → Close → Type 0
CloseLeaves o config price k = LeftBy o config price k.is_full_close k.row

close_of-LeftBy :
    (o : DecimalOps) (config : PositionConfig) (p : Position) (size : Option ℤ) (price : ℤ)
    → p.status ≡ open_position
    → CloseLeaves o config price (close_of o config p size price)
close_of-LeftBy o config p size price h = elim (close_of-cases o config p size price) [
  | inl full ↦ subst (CloseLeaves o config price) (sym full) (full_close-LeftBy o config p price)
  | inr (part, kept) ↦ subst (CloseLeaves o config price) (sym part) (
      partial_close-LeftBy o config p (close_size_of p size) price h (
        closes_fully-Healthy o config p (partial_close o p (close_size_of p size) price).row
          (close_size_of p size) price kept))
]

pub close_of-row :
    (o : DecimalOps) (config : PositionConfig) (p : Position) (size : Option ℤ) (price : ℤ)
    → ((close_of o config p size price).row.id ≡ p.id)
      × ((close_of o config p size price).row.user_address ≡ p.user_address)
      × ((close_of o config p size price).row.symbol ≡ p.symbol)
unfolding close_of full_close partial_close closed_position reduced_position
close_of-row o config p size price = ground arith

pub close_open-cases :
    (status : PositionStatus) (k : Close) (trade_id : Option ℕ) (price : ℤ) (s s' : PositionStore)
    (r : DecreasePositionResult)
    → close_open status k trade_id price s ≡ (done r, s')
    → (status ≡ open_position) × (decrease_result k ≡ r) × (apply_close k trade_id price s ≡ s')
unfolding close_open
close_open-cases open_position k trade_id price s s' r h = ground arith
close_open-cases closed k trade_id price s s' r h = ground arith
close_open-cases liquidated k trade_id price s s' r h = ground arith

-- A decrease that succeeds makes the close of an open row.
abbrev pub Closes :
    DecimalOps
    → PositionConfig
    → ℕ
    → Option ℤ
    → ℤ
    → Option ℕ
    → PositionStore
    → PositionStore
    → DecreasePositionResult
    → Type 0
Closes o config id size price trade_id s s' r =
    (p : Position) × (find_position id s.positions ≡ some p)
    × (p.status ≡ open_position)
    × (decrease_result (close_of o config p size price) ≡ r)
    × (apply_close (close_of o config p size price) trade_id price s ≡ s')

decrease_found-cases :
    (o : DecimalOps) (config : PositionConfig) (id : ℕ) (size : Option ℤ) (price : ℤ)
    (trade_id : Option ℕ) (s s' : PositionStore) (r : DecreasePositionResult)
    (found : Option Position)
    → find_position id s.positions ≡ found
    → decrease_found o config found size price trade_id s ≡ (done r, s')
    → Closes o config id size price trade_id s s' r
unfolding decrease_found
decrease_found-cases o config id size price trade_id s s' r none found h = ground arith
decrease_found-cases o config id size price trade_id s s' r (some p) found h =
    let (is_open, result, state) =
      close_open-cases p.status (close_of o config p size price) trade_id price s s' r h in
    (p, found, is_open, result, state)

pub decrease_position-cases :
    (o : DecimalOps) (config : PositionConfig) (id : ℕ) (size : Option ℤ) (price : ℤ)
    (trade_id : Option ℕ) (s s' : PositionStore) (r : DecreasePositionResult)
    → decrease_position o config id size price trade_id s ≡ (done r, s')
    → Closes o config id size price trade_id s s' r
unfolding decrease_position
decrease_position-cases o config id size price trade_id s s' r h =
    decrease_found-cases o config id size price trade_id s s' r (find_position id s.positions) refl
      h

pub result_flag : (k : Close) → (decrease_result k).is_fully_closed ≡ k.is_full_close
unfolding decrease_result
result_flag k = refl

pub apply_close-positions :
    (k : Close) (trade_id : Option ℕ) (price : ℤ) (s : PositionStore)
    → (apply_close k trade_id price s).positions ≡ update_position k.row s.positions
unfolding apply_close
apply_close-positions k trade_id price s = refl

pub find_position-apply_close :
    (o : DecimalOps) (config : PositionConfig) (id : ℕ) (p : Position) (size : Option ℤ) (price : ℤ)
    (trade_id : Option ℕ) (s : PositionStore)
    → find_position id s.positions ≡ some p
    → find_position id (apply_close (close_of o config p size price) trade_id price s).positions
      ≡ some (close_of o config p size price).row
find_position-apply_close o config id p size price trade_id s found =
    let k = close_of o config p size price in
    ap (find_position id) (apply_close-positions k trade_id price s)
    ∙ update-find id s.positions p k.row found
        ((close_of-row o config p size price).0 ∙ find_position-id id s.positions p found)

-- When a decrease succeeds, the position is found, with its id, either closed with size, tokens and
-- collateral of 0, and the result says so; or open, of at least the minimum size, and not to be
-- liquidated at the price of the fill.
pub decrease_position-LeftBy :
    (o : DecimalOps) (config : PositionConfig) (id : ℕ) (size : Option ℤ) (price : ℤ)
    (trade_id : Option ℕ) (s s' : PositionStore) (r : DecreasePositionResult)
    → decrease_position o config id size price trade_id s ≡ (done r, s')
    → (q : Position) × (find_position id s'.positions ≡ some q)
      × LeftBy o config price r.is_fully_closed q
unfolding apply_close decrease_result
decrease_position-LeftBy o config id size price trade_id s s' r h =
    let (p, found, is_open, result, state) =
      decrease_position-cases o config id size price trade_id s s' r h in
    let k = close_of o config p size price in
    (
      k.row,
      subst (λ (x : PositionStore). find_position id x.positions ≡ some k.row) state
          (find_position-apply_close o config id p size price trade_id s found),
      subst (λ (x : DecreasePositionResult). LeftBy o config price x.is_fully_closed k.row) result
          (close_of-LeftBy o config p size price is_open),
    )
