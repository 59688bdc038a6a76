-- ===== src/Liquidation/Execute/Accounts.antt =====
-- The insurance fund, and what a user gets back.
use riabow_dex_backend.Prelude.{
  ℕ, ◌≡◌, arith, refl, sym, ap, subst, ◌∙◌, Option, none, some, List, [], ◌∷◌, if◌then◌else◌,
  is_some,
}
use riabow_dex_backend.Prelude.Int.{ℤ, pos, ◌+ℤ◌, ◌-ℤ◌, ◌≤ℤ◌, +ℤ_parts, -ℤ_parts, eq_of_parts}
use riabow_dex_backend.DecimalOps.{DecimalOps, DecimalLaws, max_ℤ}
use riabow_dex_backend.Positions.Types.{Position, PositionStatus, open_position, closed, liquidated}
use riabow_dex_backend.Positions.Store.{PositionStore, find_position}
use riabow_dex_backend.Liquidation.Types.{
  LiquidationConfig, InsuranceFund, LiquidationResult, LiquidationStore, get_config, config_or,
  find_fund, ensure_fund, upsert_fund,
}
use riabow_dex_backend.Liquidation.Conditions.{calculate_remaining_collateral}
use riabow_dex_backend.Liquidation.Execute.Once.{get_config-tables}
use riabow_dex_backend.Positions.Store.Rows.{some_injective}
use riabow_dex_backend.Liquidation.Execute.{
  LiquidationOutcome, liquidation_done, position_not_found, position_not_open, Assessment, assess,
  settle_fund, look_up_fund, put_record, liquidation_result, liquidate, liquidate_open,
  liquidate_found, execute_liquidation,
}

abbrev pub fund_balance : ℕ → LiquidationStore → ℤ
fund_balance symbol s = (find_fund symbol s.funds).balance

upsert-find :
    (symbol : ℕ) (net contribution payout : ℤ) (fs : List InsuranceFund)
    → (find_fund symbol (upsert_fund symbol net contribution payout fs)).balance
      ≡ (find_fund symbol fs).balance +ℤ net
unfolding find_fund upsert_fund
upsert-find symbol net contribution payout [] =
    ground (arith, +ℤ_parts (pos 0) net, eq_of_parts net (pos 0 +ℤ net))
upsert-find symbol net contribution payout (f ∷ fs) =
    ground (arith, upsert-find symbol net contribution payout fs)

ensure-find :
    (symbol : ℕ) (fs : List InsuranceFund)
    → find_fund symbol (ensure_fund symbol fs) ≡ find_fund symbol fs
unfolding find_fund ensure_fund
ensure-find symbol [] = ground arith
ensure-find symbol (f ∷ fs) = ground (arith, ensure-find symbol fs)

settle_fund-balance :
    (id : ℕ) (p : Position) (a : Assessment) (s : LiquidationStore)
    → pos 0 ≤ℤ a.contribution
    → pos 0 ≤ℤ a.payout
    → fund_balance p.symbol (settle_fund id p a s)
      ≡ fund_balance p.symbol s +ℤ (a.contribution -ℤ a.payout)
unfolding settle_fund
settle_fund-balance id p a s h k =
    let net = a.contribution -ℤ a.payout in
    let before = fund_balance p.symbol s in
    ground (
      arith,
      h,
      k,
      upsert-find p.symbol net a.contribution a.payout s.funds,
      -ℤ_parts a.contribution a.payout,
      +ℤ_parts before net,
      eq_of_parts before (before +ℤ net),
    )

-- What the fund pays: never more than it is allowed to, nor than what is missing.
assess-payout :
    (o : DecimalOps)
    → DecimalLaws o
    → (config : LiquidationConfig) (p : Position) (mark : ℤ) (liquidator : Option ℕ) (balance : ℤ)
    → pos 0 ≤ℤ balance
    → pos 0 ≤ℤ config.max_insurance_payout_rate
    → (pos 0 ≤ℤ (assess o config p mark liquidator balance).payout)
      × ((assess o config p mark liquidator balance).payout
          ≤ℤ o.mul balance config.max_insurance_payout_rate)
      × ((assess o config p mark liquidator balance).payout
          ≤ℤ max_ℤ (pos 0 -ℤ calculate_remaining_collateral o p mark) (pos 0))
unfolding assess
assess-payout o laws config p mark liquidator balance h k =
    let remaining = calculate_remaining_collateral o p mark in
    ground (
      arith,
      laws.mul_nonneg balance config.max_insurance_payout_rate h k,
      -ℤ_parts (pos 0) remaining,
    )

put_record-balance :
    (id : ℕ) (p : Position) (a : Assessment) (mark : ℤ) (liquidator : Option ℕ)
    (s : LiquidationStore)
    → fund_balance p.symbol (put_record id p a mark liquidator s) ≡ fund_balance p.symbol s
unfolding put_record look_up_fund
put_record-balance id p a mark liquidator s = ground (arith, ensure-find p.symbol s.funds)

get_config-funds :
    (o : DecimalOps) (symbol : ℕ) (s : LiquidationStore) → (get_config o symbol s).1.funds ≡ s.funds
unfolding get_config config_or
get_config-funds o symbol s = ground arith

liquidate_open-cases :
    (o : DecimalOps) (config : LiquidationConfig) (id : ℕ) (p : Position) (status : PositionStatus)
    (mark : ℤ) (liquidator : Option ℕ) (s s' : LiquidationStore) (r : LiquidationResult)
    → liquidate_open o config id p status mark liquidator s ≡ (liquidation_done r, s')
    → liquidate o config id p mark liquidator s ≡ (liquidation_done r, s')
unfolding liquidate_open
liquidate_open-cases o config id p open_position mark liquidator s s' r h = h
liquidate_open-cases o config id p closed mark liquidator s s' r h = ground arith
liquidate_open-cases o config id p liquidated mark liquidator s s' r h = ground arith

liquidate_found-cases :
    (o : DecimalOps) (config : LiquidationConfig) (id : ℕ) (found : Option Position) (mark : ℤ)
    (liquidator : Option ℕ) (s s' : LiquidationStore) (r : LiquidationResult)
    → liquidate_found o config id found mark liquidator s ≡ (liquidation_done r, s')
    → (p : Position) × (found ≡ some p)
      × (liquidate o config id p mark liquidator s ≡ (liquidation_done r, s'))
unfolding liquidate_found
liquidate_found-cases o config id none mark liquidator s s' r h = ground arith
liquidate_found-cases o config id (some p) mark liquidator s s' r h =
    (p, refl, liquidate_open-cases o config id p p.status mark liquidator s s' r h)

-- The fund of a market before and after, by what `r` and the price say of the position `p`.
abbrev pub Settles :
    DecimalOps → LiquidationConfig → Position → ℤ → ℤ → ℤ → LiquidationResult → Type 0
Settles o config p mark before after r =
    (payout : ℤ) × (after ≡ before +ℤ (r.insurance_fund_contribution -ℤ payout))
    × (pos 0 ≤ℤ payout)
    × (payout ≤ℤ o.mul before config.max_insurance_payout_rate)
    × (payout ≤ℤ max_ℤ (pos 0 -ℤ calculate_remaining_collateral o p mark) (pos 0))
    × (r.collateral_returned +ℤ r.liquidation_fee +ℤ r.insurance_fund_contribution
        ≤ℤ max_ℤ (calculate_remaining_collateral o p mark)
            (r.liquidation_fee +ℤ r.insurance_fund_contribution))

returned_bound :
    (remaining fee contribution reward : ℤ)
    → pos 0 ≤ℤ reward
    → max_ℤ (remaining -ℤ (fee +ℤ contribution +ℤ reward)) (pos 0) +ℤ fee +ℤ contribution
      ≤ℤ max_ℤ remaining (fee +ℤ contribution)
returned_bound remaining fee contribution reward h =
    let fees = fee +ℤ contribution +ℤ reward in
    let back = max_ℤ (remaining -ℤ fees) (pos 0) in
    ground (
      arith,
      h,
      +ℤ_parts fee contribution,
      +ℤ_parts (fee +ℤ contribution) reward,
      -ℤ_parts remaining fees,
      +ℤ_parts back fee,
      +ℤ_parts (back +ℤ fee) contribution,
    )

reward_nonneg :
    (liquidator : Option ℕ) (x : ℤ)
    → pos 0 ≤ℤ x
    → pos 0 ≤ℤ (if is_some liquidator then x else pos 0)
reward_nonneg liquidator x h = ground (arith, h)

liquidate-Settles :
    (o : DecimalOps)
    → DecimalLaws o
    → (config : LiquidationConfig) (id : ℕ) (p : Position) (mark : ℤ) (liquidator : Option ℕ)
      (s : LiquidationStore)
    → pos 0 ≤ℤ fund_balance p.symbol s
    → pos 0 ≤ℤ config.max_insurance_payout_rate
    → pos 0 ≤ℤ o.mul p.size_in_usd config.insurance_fund_fee_rate
    → pos 0 ≤ℤ o.mul p.size_in_usd config.liquidator_reward_rate
    → Settles o config p mark
        (fund_balance p.symbol s)
        (fund_balance p.symbol (liquidate o config id p mark liquidator s).1)
        (liquidation_result p (assess o config p mark liquidator (fund_balance p.symbol s)))
unfolding liquidate liquidation_result
liquidate-Settles o laws config id p mark liquidator s h k c w =
    let a = assess o config p mark liquidator (fund_balance p.symbol s) in
    let (low, allowed, missing) =
      assess-payout o laws config p mark liquidator (fund_balance p.symbol s) h k in
    let t = put_record id p a mark liquidator s in
    (
      a.payout,
      settle_fund-balance id p a t c low
          ∙ ap (λ x. x +ℤ (a.contribution -ℤ a.payout))
              (put_record-balance id p a mark liquidator s),
      low,
      allowed,
      missing,
      returned_bound a.remaining a.fee a.contribution a.reward
          (reward_nonneg liquidator (o.mul p.size_in_usd config.liquidator_reward_rate) w),
    )

liquidate-result :
    (o : DecimalOps) (config : LiquidationConfig) (id : ℕ) (p : Position) (mark : ℤ)
    (liquidator : Option ℕ) (s s' : LiquidationStore) (r : LiquidationResult)
    → liquidate o config id p mark liquidator s ≡ (liquidation_done r, s')
    → liquidation_result p (assess o config p mark liquidator (fund_balance p.symbol s)) ≡ r
unfolding liquidate
liquidate-result o config id p mark liquidator s s' r h =
    ap
      (λ (x : LiquidationOutcome × LiquidationStore). elim x.0 [
        | liquidation_done y ↦ y
        | position_not_found ↦ r
        | position_not_open ↦ r
      ])
      h

liquidate-done :
    (o : DecimalOps)
    → DecimalLaws o
    → (config : LiquidationConfig) (id : ℕ) (p : Position) (mark : ℤ) (liquidator : Option ℕ)
      (s s' : LiquidationStore) (r : LiquidationResult)
    → pos 0 ≤ℤ fund_balance p.symbol s
    → pos 0 ≤ℤ config.max_insurance_payout_rate
    → pos 0 ≤ℤ o.mul p.size_in_usd config.insurance_fund_fee_rate
    → pos 0 ≤ℤ o.mul p.size_in_usd config.liquidator_reward_rate
    → liquidate o config id p mark liquidator s ≡ (liquidation_done r, s')
    → Settles o config p mark (fund_balance p.symbol s) (fund_balance p.symbol s') r
liquidate-done o laws config id p mark liquidator s s' r h k c w done =
    subst (λ x. Settles o config p mark (fund_balance p.symbol s) (fund_balance p.symbol s') x)
      (liquidate-result o config id p mark liquidator s s' r done)
      (subst
        (λ (x : LiquidationOutcome × LiquidationStore).
          Settles o config p mark (fund_balance p.symbol s) (fund_balance p.symbol x.1)
            (liquidation_result p (assess o config p mark liquidator (fund_balance p.symbol s))))
        done (liquidate-Settles o laws config id p mark liquidator s h k c w))

-- When a liquidation of the position that is found is done, with a fund of its market and rates of
-- the configuration that are not negative: the balance of the fund changes by exactly the
-- contribution less a payout, which is not negative, at most the allowed share of the balance and at
-- most what is missing from the collateral. What the user gets back and the two fees are together at
-- most what remains of the collateral, or else just the two fees.
pub execute_liquidation-Settles :
    (o : DecimalOps)
    → DecimalLaws o
    → (id : ℕ) (position p : Position) (mark : ℤ) (liquidator : Option ℕ) (s s' : LiquidationStore)
      (r : LiquidationResult)
    → find_position position.id s.tables.positions ≡ some p
    → pos 0 ≤ℤ fund_balance p.symbol s
    → pos 0 ≤ℤ (get_config o position.symbol s).0.max_insurance_payout_rate
    → pos 0 ≤ℤ o.mul p.size_in_usd (get_config o position.symbol s).0.insurance_fund_fee_rate
    → pos 0 ≤ℤ o.mul p.size_in_usd (get_config o position.symbol s).0.liquidator_reward_rate
    → execute_liquidation o id position mark liquidator s ≡ (liquidation_done r, s')
    → Settles o
        (get_config o position.symbol s).0
        p
        mark
        (fund_balance p.symbol s)
        (fund_balance p.symbol s')
        r
unfolding execute_liquidation
execute_liquidation-Settles o laws id position p mark liquidator s s' r found h k c w done =
    let (config, t) = get_config o position.symbol s in
    let (q, found', liquidates) =
      liquidate_found-cases o config id (find_position position.id t.tables.positions) mark
        liquidator t s' r done in
    let same : q ≡ p = some_injective q p (
      sym found'
      ∙ ap (λ (x : PositionStore). find_position position.id x.positions)
          (get_config-tables o position.symbol s)
      ∙ found) in
    let balance : fund_balance p.symbol t ≡ fund_balance p.symbol s =
      ap (λ fs. (find_fund p.symbol fs).balance) (get_config-funds o position.symbol s) in
    subst (λ x. Settles o config p mark x (fund_balance p.symbol s') r) balance
      (liquidate-done o laws config id p mark liquidator t s' r
        (subst (λ x. pos 0 ≤ℤ x) (sym balance) h) k c w
        (ap (λ x. liquidate o config id x mark liquidator t) (sym same) ∙ liquidates))
