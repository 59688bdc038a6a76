-- ===== src/Margin/Gate.antt =====
-- backend/src/services/unified_margin/calculator.rs: the gate for a new position.
use riabow_dex_backend.Prelude.{ℕ, Bool, true, false, Option, none, some, if◌then◌else◌}
use riabow_dex_backend.Prelude.Int.{ℤ, pos, ◌+ℤ◌, ◌-ℤ◌, ltb_ℤ}
use riabow_dex_backend.Margin.Tiers.{TierStore}
use riabow_dex_backend.Margin.Risk.{
  Division, UnifiedRiskSnapshot, UnifiedAccountStatus, normal, warning_1, warning_2, reduce_only,
  liquidating, uni_mmr_of, maint_margin_of,
}

-- The texts of `reason`.
pub data Reason : Type 0 where
  in_reduce_only is_liquidating insufficient_available low_uni_mmr : Reason

pub record SimulateResult : Type 0 where
  pub current_uni_mmr : Option ℤ
  pub simulated_uni_mmr : Option ℤ
  pub new_initial_margin : ℤ
  pub new_maint_margin : ℤ
  pub available_after : ℤ
  pub can_open : Bool
  pub reason : Option Reason

unfoldable pub initial_margin_for : Division → ℤ → ℤ → ℤ
initial_margin_for v notional leverage =
    if ltb_ℤ (pos 0) leverage then v.share notional leverage else notional

-- The tests of the margins: `m < dec!(1.10)` is the last of them.
unfoldable pub refusal_by_margin : ℤ → Option ℤ → Option Reason
refusal_by_margin available_after none =
    if ltb_ℤ available_after (pos 0) then some insufficient_available else none
refusal_by_margin available_after (some m) =
    if ltb_ℤ available_after (pos 0)
    then some insufficient_available
    else if ltb_ℤ m (pos 1_100_000_000_000_000_000)
    then some low_uni_mmr
    else none

-- The reason to refuse, in the order of the tests.
unfoldable pub refusal : UnifiedAccountStatus → ℤ → Option ℤ → Option Reason
unfolding refusal_by_margin
refusal reduce_only available_after mmr = some in_reduce_only
refusal liquidating available_after mmr = some is_liquidating
refusal normal available_after mmr = refusal_by_margin available_after mmr
refusal warning_1 available_after mmr = refusal_by_margin available_after mmr
refusal warning_2 available_after mmr = refusal_by_margin available_after mmr

unfoldable pub simulate_open_with_tiers :
    Division → UnifiedRiskSnapshot → ℕ → ℤ → ℤ → ℤ → Option TierStore → SimulateResult
unfolding initial_margin_for refusal
simulate_open_with_tiers v current symbol new_notional leverage fallback_mmr tiers =
    let new_initial_margin = initial_margin_for v new_notional leverage in
    let new_maint_margin = maint_margin_of tiers fallback_mmr symbol new_notional in
    let sim_uni_mmr =
      uni_mmr_of v current.total_equity (current.total_maint_margin +ℤ new_maint_margin) in
    let available_after =
      current.total_equity -ℤ (current.total_initial_margin +ℤ new_initial_margin) in
    let reason = refusal current.account_status available_after sim_uni_mmr in
    record {
      current_uni_mmr = current.uni_mmr;
      simulated_uni_mmr = sim_uni_mmr;
      new_initial_margin = new_initial_margin;
      new_maint_margin = new_maint_margin;
      available_after = available_after;
      can_open = elim reason [ none ↦ true | some r ↦ false ];
      reason = reason;
    }
