-- ===== src/Spot/Settle.antt =====
-- backend/src/services/spot/matching/settle.rs: `commit_fill` settles one fill in a transaction.
--
-- The ticker row that the transaction also writes is left out.
pub mod Conservation
use riabow_dex_backend.Prelude.{
  ◌≡◌, ◌⊎◌, inl, inr, refl, ℕ, suc, ◌+◌, ◌*◌, Bool, true, false, Option, none, some, List, [], ◌∷◌,
  if◌then◌else◌, ◌==◌, ltb, ◌&&◌, ◌||◌,
}
use riabow_dex_backend.Prelude.Int.{ℤ, pos, negsuc, ◌-ℤ◌, ◌*ℤ◌}
use riabow_dex_backend.Decimals.{Decimals}
use riabow_dex_backend.Spot.Types.{
  base_units, Side, buy, sell, SpotMarket, SpotOrder, SpotTrade, OrderStatus, filled,
  partially_filled,
}
use riabow_dex_backend.Spot.Ledger.{Balances, adjust, Orders, find_order, update_order}

-- The tables that a fill writes.
pub record Tables : Type 0 where
  pub balances : Balances
  pub orders : Orders
  pub trades : List SpotTrade

pub record FillInputs : Type 0 where
  pub market : SpotMarket
  pub maker_order_id : ℕ
  pub taker_order_id : ℕ
  pub maker_user : ℕ
  pub taker_user : ℕ
  pub taker_side : Side
  pub price : ℕ
  pub quantity : ℕ
  pub maker_remaining_after : ℕ
  pub taker_remaining_after : ℕ
  pub maker_avg_price_after : ℕ
  pub taker_avg_price_after : ℕ

pub record FillCommitted : Type 0 where
  pub trade : SpotTrade
  pub maker_after : SpotOrder
  pub taker_after : SpotOrder

pub data SettleError : Type 0 where
  db : SettleError
  missing_balance : ℕ → ℕ → SettleError

pub data Settled (A : Type 0) : Type 0 where
  ok : A → Settled A
  err : SettleError → Settled A

pub Settled-cases :
    {A : Type 0} (m : Settled A) → ((e : SettleError) × (m ≡ err e)) ⊎ ((a : A) × (m ≡ ok a))
Settled-cases (ok a) = inr (a, refl)
Settled-cases (err e) = inl (e, refl)

infixl 5 ◌>>=◌
abbrev pub ◌>>=◌ : {A B : Type 0} → Settled A → (A → Settled B) → Settled B
ok a >>= f = f a
err e >>= f = err e

abbrev pub or_fail : {A : Type 0} → Option A → SettleError → Settled A
or_fail none e = err e
or_fail (some a) e = ok a

-- `/` where what is divided has a sign, which the crate keeps apart from the size that it rounds.
unfoldable pub signed_quotient : Decimals → ℤ → ℕ → ℤ
signed_quotient d (pos n) m = pos (d.quotient n m)
signed_quotient d (negsuc n) m = pos 0 -ℤ pos (d.quotient (suc n) m)

-- The fee of the seller, in quote, and that of the buyer, in base.
unfoldable pub sell_side_quote_fee : Decimals → FillInputs → ℤ
unfolding signed_quotient
sell_side_quote_fee d f =
    signed_quotient d
      (pos (f.price * f.quantity)
        *ℤ (elim f.taker_side [ buy ↦ f.market.maker_fee_bps | sell ↦ f.market.taker_fee_bps ]))
      10_000

unfoldable pub buy_side_base_fee : Decimals → FillInputs → ℤ
unfolding signed_quotient
buy_side_base_fee d f =
    signed_quotient d
      (pos (base_units f.quantity)
        *ℤ (elim f.taker_side [ buy ↦ f.market.taker_fee_bps | sell ↦ f.market.maker_fee_bps ]))
      10_000

abbrev pub seller : FillInputs → ℕ
seller f = elim f.taker_side [ buy ↦ f.maker_user | sell ↦ f.taker_user ]

abbrev pub buyer : FillInputs → ℕ
buyer f = elim f.taker_side [ buy ↦ f.taker_user | sell ↦ f.maker_user ]

-- `(user, token, available_delta, frozen_delta)`
pub record Update : Type 0 where
  pub user : ℕ
  pub token : ℕ
  pub available_delta : ℤ
  pub frozen_delta : ℤ

unfoldable pub updates_of : Decimals → FillInputs → List Update
updates_of d f =
    record {
      user = seller f;
      token = f.market.base_token;
      available_delta = pos 0;
      frozen_delta = pos 0 -ℤ pos (base_units f.quantity);
    }
    ∷ record {
      user = seller f;
      token = f.market.quote_token;
      available_delta = pos (f.price * f.quantity) -ℤ sell_side_quote_fee d f;
      frozen_delta = pos 0;
    }
    ∷ record {
      user = buyer f;
      token = f.market.quote_token;
      available_delta = pos 0;
      frozen_delta = pos 0 -ℤ pos (f.price * f.quantity);
    }
    ∷ record {
      user = buyer f;
      token = f.market.base_token;
      available_delta = pos (base_units f.quantity) -ℤ buy_side_base_fee d f;
      frozen_delta = pos 0;
    }
    ∷ []

-- `updates.sort_by`: a stable sort by user and token.
abbrev pub before : Update → Update → Bool
before u v = ltb u.user v.user || (u.user == v.user && ltb u.token v.token)

unfoldable pub insert_update : Update → List Update → List Update
insert_update u [] = u ∷ []
insert_update u (v ∷ us) = if before v u then v ∷ insert_update u us else u ∷ v ∷ us

unfoldable pub sort_updates : List Update → List Update
unfolding insert_update
sort_updates [] = []
sort_updates (u ∷ us) = insert_update u (sort_updates us)

-- The loop over the updates; a missing row fails the transaction.
unfoldable pub apply_updates : List Update → Balances → Settled Balances
unfolding adjust
apply_updates [] rows = ok rows
apply_updates (u ∷ us) rows =
    or_fail (adjust u.user u.token u.available_delta u.frozen_delta rows)
      (missing_balance u.user u.token)
    >>= apply_updates us

abbrev pub status_after : ℕ → OrderStatus
status_after remaining = if remaining == 0 then filled else partially_filled

-- The update of an order by a fill, `fetch_one` failing when there is no such order.
unfoldable pub fill_order : ℕ → ℕ → ℕ → OrderStatus → Orders → Settled (SpotOrder × Orders)
unfolding find_order update_order
fill_order id quantity avg status orders =
    let change = λ (o : SpotOrder). record o {
      filled_qty = o.filled_qty + quantity;
      avg_fill_price = avg;
      status = status;
    } in
    or_fail (find_order id orders) SettleError.db >>= λ o.
    ok (change o, update_order id change orders)

unfoldable pub trade_of : Decimals → FillInputs → ℕ → SpotTrade
unfolding sell_side_quote_fee buy_side_base_fee
trade_of d f id = record {
  id = id;
  market_id = f.market.id;
  maker_order_id = f.maker_order_id;
  taker_order_id = f.taker_order_id;
  maker_user = f.maker_user;
  taker_user = f.taker_user;
  side = f.taker_side;
  price = f.price;
  quantity = f.quantity;
  maker_fee = elim f.taker_side [ buy ↦ sell_side_quote_fee d f | sell ↦ buy_side_base_fee d f ];
  taker_fee = elim f.taker_side [ buy ↦ buy_side_base_fee d f | sell ↦ sell_side_quote_fee d f ];
}

-- The whole transaction: on an error the tables are as they were, since nothing is committed. The
-- id of the trade is the database's.
unfoldable pub commit_fill : Decimals → FillInputs → ℕ → Tables → Settled (FillCommitted × Tables)
unfolding fill_order
commit_fill d f trade_id s = do
  (maker_after, orders') ←
      fill_order f.maker_order_id f.quantity f.maker_avg_price_after
        (status_after f.maker_remaining_after) s.orders
  (taker_after, orders'') ←
      fill_order f.taker_order_id f.quantity f.taker_avg_price_after
        (status_after f.taker_remaining_after) orders'
  balances' ← apply_updates (sort_updates (updates_of d f)) s.balances
  ok (
    record { trade = trade_of d f trade_id; maker_after = maker_after; taker_after = taker_after },
    record { balances = balances'; orders = orders''; trades = trade_of d f trade_id ∷ s.trades },
  )
