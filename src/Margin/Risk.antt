-- ===== src/Margin/Risk.antt =====
-- backend/src/services/unified_margin/calculator.rs: the risk snapshot of an account.
--
-- The units are those of Margin.Tiers. Divisions round, so they are parameters: `ratio a m` is the
-- quotient of an amount by a margin, in units of 10^-18, and `share a n` that of an amount by a
-- leverage, in the units of the amount.
use riabow_dex_backend.Prelude.{ℕ, Option, none, some, List, [], ◌∷◌, ◌++◌, if◌then◌else◌}
use riabow_dex_backend.Prelude.Int.{ℤ, pos, ◌+ℤ◌, ◌-ℤ◌, ◌*ℤ◌, leb_ℤ, ltb_ℤ}
use riabow_dex_backend.Margin.Tiers.{TierStore, maintenance_margin}

pub record Division : Type 0 where
  pub ratio : ℤ → ℤ → ℤ
  pub share : ℤ → ℤ → ℤ

pub data PositionSide : Type 0 where
  long short : PositionSide

-- The fields of a position that the snapshot reads.
pub record Position : Type 0 where
  pub symbol : ℕ
  pub side : PositionSide
  pub size_in_usd : ℤ
  pub size_in_tokens : ℤ
  pub collateral_amount : ℤ
  pub entry_price : ℤ
  pub leverage : ℤ
  pub accumulated_funding_fee : ℤ
  pub accumulated_borrowing_fee : ℤ

pub data UnifiedAccountStatus : Type 0 where
  normal warning_1 warning_2 reduce_only liquidating : UnifiedAccountStatus

pub record UnifiedRiskSnapshot : Type 0 where
  pub wallet_balance : ℤ
  pub total_unrealized_pnl : ℤ
  pub total_accumulated_fees : ℤ
  pub total_equity : ℤ
  pub total_initial_margin : ℤ
  pub total_maint_margin : ℤ
  pub uni_mmr : Option ℤ
  pub available_balance : ℤ
  pub account_status : UnifiedAccountStatus
  pub missing_mark_symbols : List ℕ

-- The thresholds 1.05, 1.20, 1.50 and 2.00.
unfoldable pub classify : Option ℤ → UnifiedAccountStatus
classify none = normal
classify (some m) =
    if leb_ℤ m (pos 1_050_000_000_000_000_000)
    then liquidating
    else if leb_ℤ m (pos 1_200_000_000_000_000_000)
    then reduce_only
    else if leb_ℤ m (pos 1_500_000_000_000_000_000)
    then warning_2
    else if leb_ℤ m (pos 2_000_000_000_000_000_000)
    then warning_1
    else normal

-- The locals of the loop over the positions.
pub record Sums : Type 0 where
  pub unrealized_pnl : ℤ
  pub fees : ℤ
  pub initial_margin : ℤ
  pub maint_margin : ℤ
  pub position_collateral : ℤ
  pub missing : List ℕ

abbrev pub no_sums : Sums
no_sums = record {
  unrealized_pnl = pos 0;
  fees = pos 0;
  initial_margin = pos 0;
  maint_margin = pos 0;
  position_collateral = pos 0;
  missing = [];
}

-- The mark price of a position, its entry price when there is none.
unfoldable pub mark_of : (ℕ → Option ℤ) → Position → ℤ
mark_of marks p = elim (marks p.symbol) [ some m ↦ m | none ↦ p.entry_price ]

unfoldable pub missing_of : (ℕ → Option ℤ) → Position → List ℕ
missing_of marks p = elim (marks p.symbol) [ some m ↦ [] | none ↦ p.symbol ∷ [] ]

unfoldable pub pnl_of : (ℕ → Option ℤ) → Position → ℤ
pnl_of marks p = elim p.side [
  | long ↦ p.size_in_tokens *ℤ mark_of marks p -ℤ p.size_in_usd
  | short ↦ p.size_in_usd -ℤ p.size_in_tokens *ℤ mark_of marks p
]

unfoldable pub initial_margin_of : Division → Position → ℤ
initial_margin_of v p = if ltb_ℤ (pos 0) p.leverage then v.share p.size_in_usd p.leverage else pos 0

-- The maintenance margin of a notional: by the tiers, or by the flat rate.
unfoldable pub maint_margin_of : Option TierStore → ℤ → ℕ → ℤ → ℤ
maint_margin_of none fallback_mmr symbol notional = notional *ℤ fallback_mmr
maint_margin_of (some tiers) fallback_mmr symbol notional = maintenance_margin tiers symbol notional

-- The body of the loop.
unfoldable pub add_position :
    Division → (ℕ → Option ℤ) → ℤ → Option TierStore → Sums → Position → Sums
unfolding pnl_of mark_of missing_of initial_margin_of maint_margin_of
add_position v marks fallback_mmr tiers s p = record {
  unrealized_pnl = s.unrealized_pnl +ℤ pnl_of marks p;
  fees = s.fees +ℤ (p.accumulated_funding_fee +ℤ p.accumulated_borrowing_fee);
  initial_margin = s.initial_margin +ℤ initial_margin_of v p;
  maint_margin = s.maint_margin +ℤ maint_margin_of tiers fallback_mmr p.symbol p.size_in_usd;
  position_collateral = s.position_collateral +ℤ p.collateral_amount;
  missing = s.missing ++ missing_of marks p;
}

unfoldable pub sum_positions :
    Division → (ℕ → Option ℤ) → ℤ → Option TierStore → Sums → List Position → Sums
unfolding add_position
sum_positions v marks fallback_mmr tiers s [] = s
sum_positions v marks fallback_mmr tiers s (p ∷ ps) =
    sum_positions v marks fallback_mmr tiers (add_position v marks fallback_mmr tiers s p) ps

-- An account with a missing mark price is reduce-only unless it is liquidating.
unfoldable pub gated : List ℕ → UnifiedAccountStatus → UnifiedAccountStatus
gated [] status = status
gated (symbol ∷ symbols) normal = reduce_only
gated (symbol ∷ symbols) warning_1 = reduce_only
gated (symbol ∷ symbols) warning_2 = reduce_only
gated (symbol ∷ symbols) reduce_only = reduce_only
gated (symbol ∷ symbols) liquidating = liquidating

-- The quotient of the equity by a maintenance margin, if there is one.
unfoldable pub uni_mmr_of : Division → ℤ → ℤ → Option ℤ
uni_mmr_of v equity maint = if ltb_ℤ (pos 0) maint then some (v.ratio equity maint) else none

unfoldable pub compute_risk_with_tiers :
    Division → ℤ → List Position → (ℕ → Option ℤ) → ℤ → Option TierStore → UnifiedRiskSnapshot
unfolding sum_positions uni_mmr_of classify gated
compute_risk_with_tiers v wallet_balance positions marks fallback_mmr tiers =
    let s = sum_positions v marks fallback_mmr tiers no_sums positions in
    let total_equity = wallet_balance +ℤ s.position_collateral +ℤ s.unrealized_pnl -ℤ s.fees in
    let uni_mmr = uni_mmr_of v total_equity s.maint_margin in
    record {
      wallet_balance = wallet_balance;
      total_unrealized_pnl = s.unrealized_pnl;
      total_accumulated_fees = s.fees;
      total_equity = total_equity;
      total_initial_margin = s.initial_margin;
      total_maint_margin = s.maint_margin;
      uni_mmr = uni_mmr;
      available_balance = total_equity -ℤ s.initial_margin;
      account_status = gated s.missing (classify uni_mmr);
      missing_mark_symbols = s.missing;
    }
