-- ===== src/Spot/Recovery.antt =====
-- backend/src/services/spot/matching/recovery.rs: the rebuild of the book when the engine starts.
--
-- The table has its newest row first, so the query, ordered by the time of creation, is the reverse of
-- the rows that it keeps. Rows have a valid side, type and time in force.
pub mod Outcomes
use riabow_dex_backend.Prelude.{
  ℕ, suc, ◌+◌, ◌-◌, ◌*◌, Bool, true, false, not, ◌&&◌, ◌||◌, Option, none, some, List, [], ◌∷◌,
  if◌then◌else◌, ◌==◌, leb, reverse,
}
use riabow_dex_backend.Prelude.Int.{ℤ, pos, ◌-ℤ◌, ◌*ℤ◌}
use riabow_dex_backend.Spot.Types.{
  Side, buy, sell, limit, market, gtc, ioc, post_only, Tif, OrderType, canceled, RestingOrder,
  SpotMarket, SpotOrder,
}
use riabow_dex_backend.Spot.Book.{OrderBook, add}
use riabow_dex_backend.Spot.Ledger.{update_order}
use riabow_dex_backend.Spot.Settle.{Tables}
use riabow_dex_backend.Spot.Cancel.{open_rows, release}

unfoldable pub is_non_resting : SpotOrder → Bool
is_non_resting o =
    (elim o.tif [ ioc ↦ true | gtc ↦ false | post_only ↦ false ])
    || (elim o.order_type [ market ↦ true | limit ↦ false ])

-- `compute_residual_lock`, from the market of the order: the token and the amount, `none` for an
-- error. A quantity of the base token has 10^18 units of a balance.
abbrev base_scale : ℤ
base_scale = pos 1_000_000_000_000_000_000

unfoldable pub limit_residual : SpotMarket → SpotOrder → Option (ℕ × ℤ)
limit_residual m o = elim o.side [
  | buy ↦ elim o.price [
    | none ↦ none
    | some price ↦ elim o.quantity [
      | none ↦ none
      | some q ↦ some (m.quote_token, pos price *ℤ (pos q -ℤ pos o.filled_qty))
    ]
  ]
  | sell ↦ elim o.quantity [
    | none ↦ none
    | some q ↦ some (m.base_token, (pos q -ℤ pos o.filled_qty) *ℤ base_scale)
  ]
]

unfoldable pub market_residual : SpotMarket → SpotOrder → Option (ℕ × ℤ)
market_residual m o = elim o.side [
  | buy ↦ elim o.quote_quantity [
    | none ↦ none
    | some q ↦ some (m.quote_token, pos q -ℤ pos (o.filled_qty * o.avg_fill_price))
  ]
  | sell ↦ elim o.quantity [
    | none ↦ none
    | some q ↦ some (m.base_token, (pos q -ℤ pos o.filled_qty) *ℤ base_scale)
  ]
]

unfoldable pub compute_residual_lock : (ℕ → Option SpotMarket) → SpotOrder → Option (ℕ × ℤ)
unfolding limit_residual market_residual
compute_residual_lock markets o = elim (markets o.market_id) [
  | none ↦ none
  | some m ↦ elim o.order_type [
    | market ↦ market_residual m o
    | limit ↦ elim o.tif [ ioc ↦ limit_residual m o | gtc ↦ none | post_only ↦ none ]
  ]
]

pub record Recovered : Type 0 where
  pub book : OrderBook
  pub tables : Tables
  pub ts : ℕ

-- The transaction for an order that does not rest.
unfoldable pub cancel_on_restart : SpotOrder → ℕ × ℤ → Recovered → Recovered
unfolding release
cancel_on_restart o (token, refund) s = record s {
  tables = record s.tables {
    balances = release o.user_address token refund s.tables.balances;
    orders = update_order o.id (λ r. record r { status = canceled }) s.tables.orders;
  };
}

-- The order as it rests, unless something of it is missing or nothing of it is left.
unfoldable pub resting_of : SpotOrder → ℕ → Option RestingOrder
resting_of o ts = elim o.price [
  | none ↦ none
  | some price ↦ elim o.quantity [
    | none ↦ none
    | some q ↦
        if leb q o.filled_qty
        then none
        else some (record {
          id = o.id;
          user_address = o.user_address;
          side = o.side;
          price = price;
          original_qty = q;
          remaining_qty = q - o.filled_qty;
          ts_ns = ts;
        })
  ]
]

unfoldable pub put_resting : Option RestingOrder → Recovered → Recovered
put_resting none s = s
put_resting (some o) s = record s { book = add o s.book; ts = s.ts + 1 }

-- The loop; `false` when it stops with an error.
unfoldable pub recover_rows :
    (ℕ → Option SpotMarket) → List SpotOrder → Recovered → Bool × Recovered
unfolding is_non_resting cancel_on_restart resting_of put_resting
recover_rows markets [] s = (true, s)
recover_rows markets (o ∷ rows) s =
    let rested = recover_rows markets rows (put_resting (resting_of o s.ts) s) in
    if is_non_resting o
    then elim (compute_residual_lock markets o) [
      | none ↦ (false, s)
      | some lock ↦ recover_rows markets rows (cancel_on_restart o lock s)
    ]
    else rested

unfoldable pub recover_into : (ℕ → Option SpotMarket) → ℕ → OrderBook → Tables → Bool × Recovered
unfolding open_rows recover_rows
recover_into markets market_id book tables =
    recover_rows markets (reverse (open_rows (λ o. o.market_id == market_id) tables.orders))
      (record { book = book; tables = tables; ts = 1 })
