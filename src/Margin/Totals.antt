-- ===== src/Margin/Totals.antt =====
-- The totals of the risk snapshot are sums over the positions.
use riabow_dex_backend.Prelude.{
  ℕ, ◌≡◌, ◌∙◌, ap, arith, Option, List, [], ◌∷◌, ◌++◌, append_assoc, append-nil,
}
use riabow_dex_backend.Prelude.Int.{ℤ, pos, ◌+ℤ◌, ◌-ℤ◌, int_laws}
use riabow_dex_backend.Margin.Tiers.{TierStore}
use riabow_dex_backend.Margin.Risk.{
  Division, Position, Sums, no_sums, add_position, sum_positions, pnl_of, initial_margin_of,
  maint_margin_of, missing_of, compute_risk_with_tiers,
}

abbrev pub sum_ℤ : (Position → ℤ) → List Position → ℤ
sum_ℤ f [] = pos 0
sum_ℤ f (p ∷ ps) = f p +ℤ sum_ℤ f ps

abbrev pub all_missing : (ℕ → Option ℤ) → List Position → List ℕ
all_missing marks [] = []
all_missing marks (p ∷ ps) = missing_of marks p ++ all_missing marks ps

abbrev pub fees_of : Position → ℤ
fees_of p = p.accumulated_funding_fee +ℤ p.accumulated_borrowing_fee

-- What a position adds to the equity.
abbrev pub worth : (ℕ → Option ℤ) → Position → ℤ
worth marks p = p.collateral_amount +ℤ pnl_of marks p -ℤ fees_of p

step : (a b c : ℤ) → a +ℤ b +ℤ c ≡ a +ℤ (b +ℤ c)
step a b c = omega int_laws

stay : (a : ℤ) → a +ℤ pos 0 ≡ a
stay a = omega int_laws

module _ (v : Division) (marks : ℕ → Option ℤ) (mmr : ℤ) (tiers : Option TierStore) where
  sum_positions-lem :
      (s : Sums) (ps : List Position)
      → sum_positions v marks mmr tiers s ps ≡ record {
        unrealized_pnl = s.unrealized_pnl +ℤ sum_ℤ (pnl_of marks) ps;
        fees = s.fees +ℤ sum_ℤ fees_of ps;
        initial_margin = s.initial_margin +ℤ sum_ℤ (initial_margin_of v) ps;
        maint_margin =
            s.maint_margin +ℤ sum_ℤ (λ p. maint_margin_of tiers mmr p.symbol p.size_in_usd) ps;
        position_collateral = s.position_collateral +ℤ sum_ℤ (λ p. p.collateral_amount) ps;
        missing = s.missing ++ all_missing marks ps;
      }
  unfolding sum_positions add_position
  sum_positions-lem s [] = ground (
    arith,
    stay s.unrealized_pnl,
    stay s.fees,
    stay s.initial_margin,
    stay s.maint_margin,
    stay s.position_collateral,
    append-nil s.missing,
  )
  sum_positions-lem s (p ∷ ps) = ground (
    arith,
    sum_positions-lem (add_position v marks mmr tiers s p) ps,
    step s.unrealized_pnl (pnl_of marks p) (sum_ℤ (pnl_of marks) ps),
    step s.fees (fees_of p) (sum_ℤ fees_of ps),
    step s.initial_margin (initial_margin_of v p) (sum_ℤ (initial_margin_of v) ps),
    step s.maint_margin (maint_margin_of tiers mmr p.symbol p.size_in_usd)
        (sum_ℤ (λ q. maint_margin_of tiers mmr q.symbol q.size_in_usd) ps),
    step s.position_collateral p.collateral_amount (sum_ℤ (λ q. q.collateral_amount) ps),
    append_assoc s.missing (missing_of marks p) (all_missing marks ps),
  )

regroup : (c k f c' k' f' : ℤ) → c +ℤ k -ℤ f +ℤ (c' +ℤ k' -ℤ f') ≡ c +ℤ c' +ℤ (k +ℤ k') -ℤ (f +ℤ f')
regroup c k f c' k' f' = omega int_laws

from_zero : (a : ℤ) → pos 0 +ℤ a ≡ a
from_zero a = omega int_laws

equity_regroup : (w c k f : ℤ) → w +ℤ c +ℤ k -ℤ f ≡ w +ℤ (c +ℤ k -ℤ f)
equity_regroup w c k f = omega int_laws

worth-sum :
    (marks : ℕ → Option ℤ) (ps : List Position)
    → sum_ℤ (worth marks) ps
      ≡ sum_ℤ (λ p. p.collateral_amount) ps +ℤ sum_ℤ (pnl_of marks) ps -ℤ sum_ℤ fees_of ps
worth-sum marks [] = omega int_laws
worth-sum marks (p ∷ ps) =
    ap (λ t. worth marks p +ℤ t) (worth-sum marks ps)
    ∙ regroup p.collateral_amount (pnl_of marks p) (fees_of p) (sum_ℤ (λ q. q.collateral_amount) ps)
        (sum_ℤ (pnl_of marks) ps) (sum_ℤ fees_of ps)

-- The snapshot of an account does not depend on how the loop adds up: the equity is the wallet balance
-- and, for each position, its collateral and its profit less its fees; the initial and maintenance
-- margins are the sums of those of the positions; the available balance is the equity less the
-- initial margin; and the missing symbols are those of the positions without a mark price, in
-- their order.
pub compute_risk-totals :
    (v : Division) (wallet : ℤ) (ps : List Position) (marks : ℕ → Option ℤ) (mmr : ℤ)
    (tiers : Option TierStore)
    → ((compute_risk_with_tiers v wallet ps marks mmr tiers).total_equity
        ≡ wallet +ℤ sum_ℤ (worth marks) ps)
      × ((compute_risk_with_tiers v wallet ps marks mmr tiers).total_initial_margin
          ≡ sum_ℤ (initial_margin_of v) ps)
      × ((compute_risk_with_tiers v wallet ps marks mmr tiers).total_maint_margin
          ≡ sum_ℤ (λ p. maint_margin_of tiers mmr p.symbol p.size_in_usd) ps)
      × ((compute_risk_with_tiers v wallet ps marks mmr tiers).available_balance
          ≡ wallet +ℤ sum_ℤ (worth marks) ps -ℤ sum_ℤ (initial_margin_of v) ps)
      × ((compute_risk_with_tiers v wallet ps marks mmr tiers).missing_mark_symbols
          ≡ all_missing marks ps)
unfolding compute_risk_with_tiers
compute_risk-totals v wallet ps marks mmr tiers =
    let c = sum_ℤ (λ p. p.collateral_amount) ps in
    let k = sum_ℤ (pnl_of marks) ps in
    let f = sum_ℤ fees_of ps in
    let i = sum_ℤ (initial_margin_of v) ps in
    let m = sum_ℤ (λ p. maint_margin_of tiers mmr p.symbol p.size_in_usd) ps in
    ground (
      arith,
      sum_positions-lem v marks mmr tiers no_sums ps,
      from_zero c,
      from_zero k,
      from_zero f,
      from_zero i,
      from_zero m,
      worth-sum marks ps,
      equity_regroup wallet c k f,
    )
