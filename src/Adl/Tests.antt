-- ===== src/Adl/Tests.antt =====
-- Auto-deleveraging at two buyers of a market, whose price rises from 100 to 110.
use riabow_dex_backend.Prelude.{◌≡◌, true, none, some, List, [], ◌∷◌, if◌then◌else◌, ◌==◌, sum_by}
use riabow_dex_backend.Prelude.Int.{pos}
use riabow_dex_backend.DecimalOps.Thousandths.{thousandths}
use riabow_dex_backend.Positions.Types.{long, Position}
use riabow_dex_backend.Positions.Store.{same_side}
use riabow_dex_backend.Positions.Tests.{bought, store}
use riabow_dex_backend.Adl.Types.{AdlConfig, AdlRanking, AdlStore, PositionForAdl}
use riabow_dex_backend.Adl.Ranking.{position_for_adl, rank_side, update_rankings}
use riabow_dex_backend.Adl.Ranking.Descending.{Ranked, rank_side-Ranked}
use riabow_dex_backend.Adl.Execute.{Outside, execute_adl}
use riabow_dex_backend.Adl.Execute.Reports.{Reports, execute_adl-Reports}

abbrev config : AdlConfig
config = record {
  max_positions_per_adl = 10;
  min_reduction_percentage = pos 10;
  max_reduction_percentage = pos 500;
  pnl_weight = pos 500;
  leverage_weight = pos 300;
  size_weight = pos 200;
  enabled = true;
}

abbrev other : Position
other = record bought { id = 2; user_address = 8; collateral_amount = pos 50000; leverage = pos 20 }

abbrev profitable : List PositionForAdl
profitable =
    position_for_adl thousandths bought (pos 110000)
    ∷ position_for_adl thousandths other (pos 110000)
    ∷ []

rank_side-Ranked_example :
    Ranked 1 (rank_side thousandths config profitable long)
    × (sum_by (λ (r : AdlRanking). r.position_id) (rank_side thousandths config profitable long)
        ≡ sum_by (λ (p : PositionForAdl). if same_side p.side long then p.id else 0) profitable)
rank_side-Ranked_example = rank_side-Ranked (λ id. id) thousandths config profitable long

abbrev ranked : AdlStore
ranked = update_rankings thousandths 3 (some (pos 110000)) (record {
  tables = record store { positions = bought ∷ other ∷ [] };
  configs = λ symbol. if symbol == 3 then some config else none;
  rankings = [];
  reductions = [];
  events = [];
  stats = [];
})

abbrev inserted : Outside
inserted = record { mark_price = some (pos 110000); event_inserted = true }

execute_adl-Reports_example :
    Reports
      (pos 30000)
      ranked
      (execute_adl thousandths 50 3 40 (pos 30000) long (λ id. inserted) ranked)
execute_adl-Reports_example =
    execute_adl-Reports thousandths 50 3 40 (pos 30000) long (λ id. inserted) ranked
