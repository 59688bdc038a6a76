-- ===== src/Adl/Execute.antt =====
-- backend/src/services/adl/mod.rs: `execute_adl`.
--
-- The id of the event is a parameter, and so is what happens outside at each reduction.
pub mod Totals
pub mod Reports
use riabow_dex_backend.Prelude.{
  ℕ, ◌+◌, Bool, true, false, Option, none, some, List, [], ◌∷◌, ◌++◌, if◌then◌else◌, ◌==◌, ◌&&◌,
}
use riabow_dex_backend.Prelude.Int.{ℤ, pos, ◌+ℤ◌, ◌-ℤ◌, leb_ℤ}
use riabow_dex_backend.DecimalOps.{DecimalOps, safe_div_or, max_ℤ, min_ℤ}
use riabow_dex_backend.Positions.Types.{PositionSide, Position, closed}
use riabow_dex_backend.Positions.Store.{PositionStore, PnlEvent, is_open, settle_balance}
use riabow_dex_backend.Adl.Types.{
  AdlConfig, AdlEvent, AdlRanking, AdlReduction, AdlStatus, adl_completed, adl_partial, adl_failed,
  AdlStore, UserAdlStats,
}
use riabow_dex_backend.Adl.Ranking.{get_rankings}

-- The mark price, `none` when there is none, and whether the insert of the realized profit works: when it
-- fails, the code warns and goes on.
pub record Outside : Type 0 where
  pub mark_price : Option ℤ
  pub event_inserted : Bool

-- What a reduction is computed to be.
pub record Cut : Type 0 where
  pub pnl_to_take : ℤ
  pub reduction_ratio : ℤ
  pub size_to_reduce : ℤ
  pub pnl_realized : ℤ
  pub original_collateral : ℤ
  pub new_size : ℤ
  pub collateral_to_return : ℤ

unfoldable pub cut_of : DecimalOps → AdlConfig → AdlRanking → ℤ → Cut
unfolding safe_div_or
cut_of o config r remaining =
    let to_take = min_ℤ remaining r.unrealized_pnl in
    let ratio =
      max_ℤ (min_ℤ (safe_div_or o to_take r.unrealized_pnl (pos 0)) config.max_reduction_percentage)
        config.min_reduction_percentage in
    let size_to_reduce = o.mul r.position_size ratio in
    let original_collateral = safe_div_or o r.position_size r.leverage r.position_size in
    record {
      pnl_to_take = to_take;
      reduction_ratio = ratio;
      size_to_reduce = size_to_reduce;
      pnl_realized = o.mul r.unrealized_pnl ratio;
      original_collateral = original_collateral;
      new_size = r.position_size -ℤ size_to_reduce;
      collateral_to_return = o.mul original_collateral ratio;
    }

-- The row after the UPDATE.
unfoldable pub cut_position : DecimalOps → Cut → Position → Position
cut_position o c p =
    if leb_ℤ c.new_size (pos 0)
    then record p {
      size_in_usd = pos 0;
      size_in_tokens = pos 0;
      collateral_amount = pos 0;
      status = closed;
    }
    else record p {
      size_in_usd = c.new_size;
      collateral_amount = o.mul c.original_collateral (o.one -ℤ c.reduction_ratio);
    }

-- `UPDATE positions … WHERE id = $1 AND status = 'open'`, and whether a row was changed.
unfoldable pub cut_row : DecimalOps → Cut → ℕ → List Position → Bool × List Position
unfolding cut_position
cut_row o c id [] = (false, [])
cut_row o c id (p ∷ ps) =
    let (changed, rest) = cut_row o c id ps in
    if p.id == id && is_open p.status then (true, cut_position o c p ∷ ps) else (changed, p ∷ rest)

unfoldable pub reduction_of : ℕ → ℕ → AdlRanking → Cut → AdlReduction
reduction_of event symbol r c = record {
  adl_event_id = event;
  position_id = r.position_id;
  user_address = r.user_address;
  market_symbol = symbol;
  original_size = r.position_size;
  original_collateral = c.original_collateral;
  original_pnl = r.unrealized_pnl;
  size_reduced = c.size_to_reduce;
  pnl_realized = c.pnl_realized;
  adl_rank = r.rank;
  adl_score = r.adl_score;
}

unfoldable pub update_user_stats : ℕ → ℕ → ℤ → ℤ → List UserAdlStats → List UserAdlStats
update_user_stats user symbol size pnl [] =
    record {
      user_address = user;
      market_symbol = symbol;
      total_adl_events = 1;
      total_size_reduced = size;
      total_pnl_realized = pnl;
    }
    ∷ []
update_user_stats user symbol size pnl (u ∷ us) =
    if u.user_address == user && u.market_symbol == symbol
    then record u {
      total_adl_events = u.total_adl_events + 1;
      total_size_reduced = u.total_size_reduced +ℤ size;
      total_pnl_realized = u.total_pnl_realized +ℤ pnl;
    }
      ∷ us
    else u ∷ update_user_stats user symbol size pnl us

-- The variables of the loop.
pub record Progress : Type 0 where
  pub store : AdlStore
  pub total_reduced_size : ℤ
  pub total_pnl_realized : ℤ
  pub positions_affected : ℕ
  pub remaining_shortfall : ℤ

-- A reduction whose row was changed: the event of the profit, the balance, the statistics and the
-- totals.
unfoldable pub book_cut : ℕ → Outside → AdlRanking → Cut → List Position → Progress → Progress
unfolding settle_balance update_user_stats
book_cut symbol outside r c positions g =
    let t = g.store.tables in
    let event : PnlEvent = record {
      user_address = r.user_address;
      symbol = symbol;
      position_id = r.position_id;
      realized_pnl = c.pnl_realized;
      execution_price = elim outside.mark_price [ none ↦ pos 0 | some x ↦ x ];
      size_delta_usd = c.size_to_reduce;
      is_full_close = leb_ℤ c.new_size (pos 0);
      trade_id = none;
    } in
    record {
      store = record g.store {
        tables = record t {
          positions = positions;
          pnl_events =
              if outside.event_inserted then t.pnl_events ++ (event ∷ []) else t.pnl_events;
          balances =
              settle_balance r.user_address c.collateral_to_return
                (max_ℤ (c.collateral_to_return +ℤ (c.pnl_realized -ℤ c.pnl_to_take)) (pos 0))
                t.balances;
        };
        stats =
            update_user_stats r.user_address symbol c.size_to_reduce c.pnl_realized g.store.stats;
      };
      total_reduced_size = g.total_reduced_size +ℤ c.size_to_reduce;
      total_pnl_realized = g.total_pnl_realized +ℤ c.pnl_realized;
      positions_affected = g.positions_affected + 1;
      remaining_shortfall = g.remaining_shortfall -ℤ c.pnl_realized;
    }

-- The row of the reduction is written first, and stays when the position is closed already.
unfoldable pub note_cut : ℕ → ℕ → AdlRanking → Cut → Progress → Progress
unfolding reduction_of
note_cut event symbol r c g = record g {
  store = record g.store {
    reductions = g.store.reductions ++ (reduction_of event symbol r c ∷ []);
  };
}

unfoldable pub reduce_one :
    DecimalOps → AdlConfig → ℕ → ℕ → Outside → AdlRanking → Progress → Progress
unfolding cut_of cut_row note_cut book_cut
reduce_one o config event symbol outside r g =
    let c = cut_of o config r g.remaining_shortfall in
    let row = cut_row o c r.position_id g.store.tables.positions in
    let written = note_cut event symbol r c g in
    if row.0 then book_cut symbol outside r c row.1 written else written

unfoldable pub reduce_all :
    DecimalOps → AdlConfig → ℕ → ℕ → (ℕ → Outside) → List AdlRanking → Progress → Progress
unfolding reduce_one
reduce_all o config event symbol outsides [] g = g
reduce_all o config event symbol outsides (r ∷ rs) g =
    let rest =
      reduce_all o config event symbol outsides rs
        (reduce_one o config event symbol (outsides r.position_id) r g) in
    if leb_ℤ g.remaining_shortfall (pos 0) then g else rest

-- The event as it ends, and its row.
unfoldable pub adl_event : ℕ → ℕ → ℕ → ℤ → AdlStatus → Progress → AdlEvent
adl_event id symbol liquidation shortfall status g = record {
  id = id;
  market_symbol = symbol;
  liquidation_id = liquidation;
  insurance_fund_shortfall = shortfall;
  total_reduced_size = g.total_reduced_size;
  total_pnl_realized = g.total_pnl_realized;
  positions_affected = g.positions_affected;
  status = status;
}

unfoldable pub finish_adl : ℕ → ℕ → ℕ → ℤ → AdlStatus → Progress → Option AdlEvent × AdlStore
unfolding adl_event
finish_adl id symbol liquidation shortfall status g =
    let event = adl_event id symbol liquidation shortfall status g in
    (some event, record g.store { events = g.store.events ++ (event ∷ []) })

abbrev pub start_adl : ℤ → AdlStore → Progress
start_adl shortfall s = record {
  store = s;
  total_reduced_size = pos 0;
  total_pnl_realized = pos 0;
  positions_affected = 0;
  remaining_shortfall = shortfall;
}

abbrev pub adl_status : Progress → AdlStatus
adl_status g = if leb_ℤ g.remaining_shortfall (pos 0) then adl_completed else adl_partial

-- With the ranked positions; without any the event fails.
unfoldable pub run_adl :
    DecimalOps
    → AdlConfig
    → ℕ
    → ℕ
    → ℕ
    → ℤ
    → (ℕ → Outside)
    → List AdlRanking
    → AdlStore
    → Option AdlEvent × AdlStore
unfolding reduce_all finish_adl
run_adl o config id symbol liquidation shortfall outsides [] s =
    finish_adl id symbol liquidation shortfall adl_failed (start_adl shortfall s)
run_adl o config id symbol liquidation shortfall outsides (r ∷ rs) s =
    let g = reduce_all o config id symbol outsides (r ∷ rs) (start_adl shortfall s) in
    finish_adl id symbol liquidation shortfall (adl_status g) g

-- `none` for an error: no configuration, or it is not enabled.
unfoldable pub adl_with :
    DecimalOps
    → ℕ
    → ℕ
    → ℕ
    → ℤ
    → PositionSide
    → (ℕ → Outside)
    → Option AdlConfig
    → AdlStore
    → Option AdlEvent × AdlStore
unfolding run_adl get_rankings
adl_with o id symbol liquidation shortfall side outsides none s = (none, s)
adl_with o id symbol liquidation shortfall side outsides (some config) s =
    if config.enabled
    then run_adl o config id symbol liquidation shortfall outsides
        (get_rankings symbol side config.max_positions_per_adl s.rankings) s
    else (none, s)

unfoldable pub execute_adl :
    DecimalOps
    → ℕ
    → ℕ
    → ℕ
    → ℤ
    → PositionSide
    → (ℕ → Outside)
    → AdlStore
    → Option AdlEvent × AdlStore
unfolding adl_with
execute_adl o id symbol liquidation shortfall side outsides s =
    adl_with o id symbol liquidation shortfall side outsides (s.configs symbol) s
