-- ===== src/Adl/Ranking.antt =====
-- backend/src/services/adl/mod.rs: which positions are reduced first.
pub mod Descending
use riabow_dex_backend.Prelude.{
  ℕ, ◌+◌, Bool, true, false, not, ◌&&◌, Option, none, some, List, [], ◌∷◌, ◌++◌, if◌then◌else◌,
  ◌==◌, ltb, take,
}
use riabow_dex_backend.Prelude.Int.{ℤ, pos, ◌+ℤ◌, ◌-ℤ◌, leb_ℤ, ltb_ℤ}
use riabow_dex_backend.DecimalOps.{DecimalOps, from_int, safe_div_or, max_ℤ}
use riabow_dex_backend.Positions.Types.{PositionSide, long, short, Position}
use riabow_dex_backend.Positions.Store.{is_open, same_side}
use riabow_dex_backend.Adl.Types.{AdlConfig, AdlRanking, AdlStore, PositionForAdl}

-- A stable sort; `before y x` when y has to stand before x.
module _ {A : Type 0} (before : A → A → Bool) where
  unfoldable pub insert : A → List A → List A
  insert x [] = x ∷ []
  insert x (y ∷ ys) = let rest = insert x ys in if before y x then y ∷ rest else x ∷ y ∷ ys

  unfoldable pub sort : List A → List A
  unfolding insert
  sort [] = []
  sort (x ∷ xs) = insert x (sort xs)

unfoldable pub calculate_adl_score : DecimalOps → ℤ → ℤ → ℤ → ℤ → AdlConfig → ℤ
unfolding safe_div_or
calculate_adl_score o pnl_percentage leverage size max_size config =
    let normalized_size = safe_div_or o size max_size (pos 0) in
    o.mul config.pnl_weight pnl_percentage
    +ℤ o.mul config.leverage_weight leverage
    +ℤ o.mul config.size_weight normalized_size

-- The profit that the service computes: the change of the price times the size in USD.
unfoldable pub adl_pnl : DecimalOps → Position → ℤ → ℤ
adl_pnl o p price = elim p.side [
  | long ↦ o.mul (price -ℤ p.entry_price) p.size_in_usd
  | short ↦ o.mul (p.entry_price -ℤ price) p.size_in_usd
]

unfoldable pub position_for_adl : DecimalOps → Position → ℤ → PositionForAdl
unfolding adl_pnl safe_div_or from_int
position_for_adl o p price =
    let pnl = adl_pnl o p price in
    record {
      id = p.id;
      user_address = p.user_address;
      market_symbol = p.symbol;
      side = p.side;
      size = p.size_in_usd;
      collateral = p.collateral_amount;
      entry_price = p.entry_price;
      leverage = from_int o p.leverage;
      unrealized_pnl = pnl;
      pnl_percentage = o.mul (safe_div_or o pnl p.collateral_amount (pos 0)) (from_int o (pos 100));
    }

unfoldable pub get_profitable_positions : DecimalOps → ℕ → ℤ → List Position → List PositionForAdl
unfolding adl_pnl position_for_adl
get_profitable_positions o symbol price [] = []
get_profitable_positions o symbol price (p ∷ ps) =
    let rest = get_profitable_positions o symbol price ps in
    if p.symbol == symbol
      && is_open p.status
      && ltb_ℤ (pos 0) p.size_in_usd
      && ltb_ℤ (pos 0) (adl_pnl o p price)
    then position_for_adl o p price ∷ rest
    else rest

unfoldable pub max_size : List PositionForAdl → ℤ
max_size [] = pos 0
max_size (p ∷ ps) = max_ℤ p.size (max_size ps)

-- The rows of a side, scored.
unfoldable pub scored_of :
    DecimalOps → AdlConfig → ℤ → PositionSide → List PositionForAdl → List (PositionForAdl × ℤ)
unfolding calculate_adl_score
scored_of o config largest side [] = []
scored_of o config largest side (p ∷ ps) =
    let rest = scored_of o config largest side ps in
    if same_side p.side side
    then (p, calculate_adl_score o p.pnl_percentage p.leverage p.size largest config) ∷ rest
    else rest

abbrev pub scores_more : PositionForAdl × ℤ → PositionForAdl × ℤ → Bool
scores_more a b = ltb_ℤ b.1 a.1

-- The rows that are inserted; `n` is the rank of the first.
unfoldable pub ranked_from : ℕ → PositionSide → List (PositionForAdl × ℤ) → List AdlRanking
ranked_from n side [] = []
ranked_from n side ((p, score) ∷ ps) =
    record {
      market_symbol = p.market_symbol;
      side = side;
      position_id = p.id;
      user_address = p.user_address;
      position_size = p.size;
      unrealized_pnl = p.unrealized_pnl;
      pnl_percentage = p.pnl_percentage;
      leverage = p.leverage;
      adl_score = score;
      rank = n;
    }
    ∷ ranked_from (n + 1) side ps

unfoldable pub rank_side :
    DecimalOps → AdlConfig → List PositionForAdl → PositionSide → List AdlRanking
unfolding scored_of sort ranked_from max_size
rank_side o config ps side =
    ranked_from 1 side (sort scores_more (scored_of o config (max_size ps) side ps))

-- `DELETE FROM adl_rankings WHERE market_symbol = $1`
unfoldable pub other_markets : ℕ → List AdlRanking → List AdlRanking
other_markets symbol [] = []
other_markets symbol (r ∷ rs) =
    if r.market_symbol == symbol then other_markets symbol rs else r ∷ other_markets symbol rs

unfoldable pub rank_positions :
    DecimalOps → AdlConfig → ℕ → List PositionForAdl → List AdlRanking → List AdlRanking
unfolding other_markets rank_side
rank_positions o config symbol ps rankings =
    other_markets symbol rankings ++ (rank_side o config ps long ++ rank_side o config ps short)

-- `update_rankings`; `none` for a missing price. A missing configuration is an error of the query,
-- without an effect.
unfoldable pub update_rankings : DecimalOps → ℕ → Option ℤ → AdlStore → AdlStore
unfolding rank_positions get_profitable_positions
update_rankings o symbol none s = s
update_rankings o symbol (some price) s = elim (s.configs symbol) [
  | none ↦ s
  | some config ↦
      if config.enabled
      then record s {
        rankings =
            rank_positions o config symbol
              (get_profitable_positions o symbol price s.tables.positions) s.rankings;
      }
      else s
]

-- `get_rankings`
unfoldable pub of_side : ℕ → PositionSide → List AdlRanking → List AdlRanking
of_side symbol side [] = []
of_side symbol side (r ∷ rs) =
    if r.market_symbol == symbol && same_side r.side side
    then r ∷ of_side symbol side rs
    else of_side symbol side rs

abbrev pub ranks_before : AdlRanking → AdlRanking → Bool
ranks_before a b = ltb a.rank b.rank

unfoldable pub get_rankings : ℕ → PositionSide → ℕ → List AdlRanking → List AdlRanking
unfolding of_side sort
get_rankings symbol side limit rankings =
    take limit (sort ranks_before (of_side symbol side rankings))
