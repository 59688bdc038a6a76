-- ===== src/Matching/Fill.antt =====
-- backend/src/services/matching/orderbook.rs, `match_order`: the loops over the price levels of one
-- side of the book and over the queue of a level.
--
-- A side of the book, a `BTreeMap` from price levels to queues, is the list of its entries in
-- ascending order of the levels; a queue is a list with its front first. The loops run over the
-- levels in priority order: ascending for the asks, descending for the bids. The two branches
-- of the source differ only in that order and in the direction of the limit test.
pub mod Amounts
pub mod Priority
pub mod Index
pub mod Limits
use riabow_dex_backend.Prelude.{
  ℕ, suc, ◌+◌, ◌-◌, ◌*◌, Bool, true, false, Option, none, some, List, [], ◌∷◌, ◌++◌, leb, ltb,
  if◌then◌else◌, ◌==◌, min, length, sum_by,
}
use riabow_dex_backend.Prelude.Int.{ℤ, pos, ◌-ℤ◌, ltb_ℤ}
use riabow_dex_backend.Decimals.{Decimals}
use riabow_dex_backend.Matching.Types.{
  Uuid, Text, PriceLevel, to_decimal, Side, buy, sell, TimeInForce, OrderEntry, TradeExecution,
}

abbrev pub Queue : Type 0
Queue = List OrderEntry

abbrev pub Level : Type 0
Level = PriceLevel × Queue

abbrev pub Levels : Type 0
Levels = List Level

-- `DashMap<Uuid, (Side, PriceLevel)>`
abbrev pub OrderIndex : Type 0
OrderIndex = Uuid → Option (Side × PriceLevel)

abbrev pub index_remove : Uuid → OrderIndex → OrderIndex
index_remove id index = λ k. if k == id then none else index k

abbrev pub index_insert : Uuid → Side × PriceLevel → OrderIndex → OrderIndex
index_insert id v index = λ k. if k == id then some v else index k

-- The arguments of `match_order`, with the clock and the supply of trade ids that it reads.
pub record Taker : Type 0 where
  pub order_id : Uuid
  pub side : Side
  pub amount : ℕ
  pub limit_price : Option ℕ
  pub time_in_force : TimeInForce
  pub fee_rate : ℕ
  pub leverage : ℕ
  pub now : ℤ
  pub new_trade_id : ℕ → Uuid

-- The locals of `match_order` that its loops change, and the fields of the book that they write.
pub record Matching : Type 0 where
  pub amount : ℕ
  pub trades : List TradeExecution
  pub order_index : OrderIndex
  pub order_count : ℤ
  pub last_trade_price : ℤ

-- `Orderbook::set_last_trade_price`: a text that is no `i64` sets 0.
unfoldable pub raw_trade_price : Decimals → ℕ → ℤ
raw_trade_price d price = elim (d.parse_scaled price) [ some raw ↦ raw | none ↦ pos 0 ]

-- `level.to_decimal() > limit` for a buyer, `< limit` for a seller.
unfoldable pub beyond_limit : Side → Option ℕ → PriceLevel → Bool
beyond_limit buy none l = false
beyond_limit sell none l = false
beyond_limit buy (some limit) l = ltb_ℤ (pos limit) (to_decimal l)
beyond_limit sell (some limit) l = ltb_ℤ (to_decimal l) (pos limit)

module _ (d : Decimals) (t : Taker) where
  -- The trade of the taker, with `amount` left, against the maker in front.
  unfoldable pub execution : Matching → OrderEntry → TradeExecution
  execution s maker = record {
    trade_id = t.new_trade_id (length s.trades);
    maker_order_id = maker.id;
    taker_order_id = t.order_id;
    maker_address = maker.user_address;
    price = maker.price;
    amount = trade_amount;
    maker_fee = d.round_dp6 (trade_value * maker.maker_fee_rate);
    taker_fee = d.round_dp6 (trade_value * t.fee_rate);
    timestamp = t.now;
    maker_leverage = maker.leverage;
    taker_leverage = t.leverage;
  }
    where
      trade_amount : ℕ
      trade_amount = min s.amount maker.remaining_amount

      trade_value : ℕ
      trade_value = trade_amount * maker.price

  -- `trades.push`, `amount -= trade_amount`, `set_last_trade_price`
  unfoldable pub record_trade : Matching → OrderEntry → Matching
  unfolding execution raw_trade_price
  record_trade s maker = record s {
    amount = s.amount - min s.amount maker.remaining_amount;
    trades = s.trades ++ execution s maker ∷ [];
    last_trade_price = raw_trade_price d maker.price;
  }

  -- A maker that is fully filled leaves the index and the count.
  unfoldable pub drop_maker : Matching → OrderEntry → Matching
  drop_maker s maker = record s {
    order_index = index_remove maker.id s.order_index;
    order_count = s.order_count -ℤ pos 1;
  }

  -- `while let Some(maker) = queue.front_mut()`. When the maker in front is not fully filled, the
  -- taker is, and the next round leaves the loop.
  unfoldable pub fill_queue : Matching → Queue → Matching × Queue
  unfolding record_trade drop_maker
  fill_queue s [] = (s, [])
  fill_queue s (maker ∷ queue) =
      let rest = fill_queue (drop_maker (record_trade s maker) maker) queue in
      if s.amount == 0
      then (s, maker ∷ queue)
      else if maker.remaining_amount - min s.amount maker.remaining_amount == 0
      then rest
      else (
        record_trade s maker,
        record maker {
          remaining_amount = maker.remaining_amount - min s.amount maker.remaining_amount;
        }
            ∷ queue,
      )

  -- A level whose queue has become empty is removed.
  abbrev pub keep_level : PriceLevel → Queue → Levels → Levels
  keep_level l [] rest = rest
  keep_level l (m ∷ q) rest = (l, m ∷ q) ∷ rest

  -- `for price_level in price_levels`
  unfoldable pub fill_levels : Matching → Levels → Matching × Levels
  unfolding fill_queue beyond_limit
  fill_levels s [] = (s, [])
  fill_levels s ((l, q) ∷ levels) =
      let (s', q') = fill_queue s q in
      let (s'', levels') = fill_levels s' levels in
      if s.amount == 0
      then (s, (l, q) ∷ levels)
      else if beyond_limit t.side t.limit_price l
      then (s, (l, q) ∷ levels)
      else (s'', keep_level l q' levels')

  -- The check before a fill-or-kill order sums what is on offer, and stops once it is enough.
  unfoldable pub fillable_from : ℕ → Levels → ℕ
  unfolding beyond_limit
  fillable_from acc [] = acc
  fillable_from acc ((l, q) ∷ levels) =
      let here = acc + sum_by (λ o. o.remaining_amount) q in
      let more = fillable_from here levels in
      if beyond_limit t.side t.limit_price l then acc else if leb t.amount here then here else more
