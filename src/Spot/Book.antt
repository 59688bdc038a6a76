-- ===== src/Spot/Book.antt =====
-- backend/src/services/spot/matching/book.rs: the order book of a spot market.
--
-- A side of the book is the list of its levels from the best price to the worst, that is, in the
-- order of the map of the asks and against that of the bids.
use riabow_dex_backend.Prelude.{
  ℕ, Bool, true, Option, none, some, List, [], ◌∷◌, ◌++◌, if◌then◌else◌, ◌==◌, ltb, leb, map, take,
  sum_by,
}
use riabow_dex_backend.Spot.Types.{Side, buy, sell, RestingOrder}

pub record Level : Type 0 where
  pub price : ℕ
  pub orders : List RestingOrder

-- An entry of `by_id`.
pub record Place : Type 0 where
  pub id : ℕ
  pub side : Side
  pub price : ℕ

pub record OrderBook : Type 0 where
  pub bids : List Level
  pub asks : List Level
  pub by_id : List Place

unfoldable pub new_book : OrderBook
new_book = record { bids = []; asks = []; by_id = [] }

-- The levels of a side, and the book with other levels there.
abbrev pub levels_of : Side → OrderBook → List Level
levels_of buy book = book.bids
levels_of sell book = book.asks

abbrev pub with_levels : Side → List Level → OrderBook → OrderBook
with_levels buy levels book = record book { bids = levels }
with_levels sell levels book = record book { asks = levels }

-- Whether a price is nearer to the top of a side than another.
abbrev pub better : Side → ℕ → ℕ → Bool
better buy p q = ltb q p
better sell p q = ltb p q

-- `entry(price).or_default().push_back(order)`
unfoldable pub push_level : RestingOrder → List Level → List Level
push_level order [] = record { price = order.price; orders = order ∷ [] } ∷ []
push_level order (l ∷ levels) =
    if order.price == l.price
    then record l { orders = l.orders ++ (order ∷ []) } ∷ levels
    else if better order.side order.price l.price
    then record { price = order.price; orders = order ∷ [] } ∷ l ∷ levels
    else l ∷ push_level order levels

unfoldable pub find_place : ℕ → List Place → Option Place
find_place id [] = none
find_place id (p ∷ places) = if p.id == id then some p else find_place id places

unfoldable pub remove_place : ℕ → List Place → List Place
remove_place id [] = []
remove_place id (p ∷ places) =
    if p.id == id then remove_place id places else p ∷ remove_place id places

-- `OrderBook::add`
unfoldable pub add : RestingOrder → OrderBook → OrderBook
unfolding push_level remove_place
add order book =
    record (with_levels order.side (push_level order (levels_of order.side book)) book) {
      by_id =
          record { id = order.id; side = order.side; price = order.price }
          ∷ remove_place order.id book.by_id;
    }

-- `position` and `remove` in a queue.
unfoldable pub take_order : ℕ → List RestingOrder → Option (RestingOrder × List RestingOrder)
take_order id [] = none
take_order id (o ∷ orders) =
    if o.id == id
    then some (o, orders)
    else elim (take_order id orders) [ none ↦ none | some (found, rest) ↦ some (found, o ∷ rest) ]

unfoldable pub keep_level : Level → List Level → List Level
keep_level l levels = elim l.orders [ [] ↦ levels | o ∷ orders ↦ l ∷ levels ]

-- The order of a level, with the levels without it; an empty level goes.
unfoldable pub take_at : ℕ → ℕ → List Level → Option (RestingOrder × List Level)
unfolding take_order keep_level
take_at id price [] = none
take_at id price (l ∷ levels) =
    if l.price == price
    then elim (take_order id l.orders) [
      | none ↦ none
      | some (found, rest) ↦ some (found, keep_level (record l { orders = rest }) levels)
    ]
    else elim (take_at id price levels) [
      | none ↦ none
      | some (found, rest) ↦ some (found, l ∷ rest)
    ]

-- `OrderBook::cancel`, which forgets the place also when the level does not have the order;
-- `remove_by_id` is the same.
unfoldable pub cancel : ℕ → OrderBook → Option RestingOrder × OrderBook
unfolding find_place remove_place take_at
cancel id book = elim (find_place id book.by_id) [
  | none ↦ (none, book)
  | some p ↦
      let forgotten = record book { by_id = remove_place id book.by_id } in
      elim (take_at id p.price (levels_of p.side book)) [
        | none ↦ (none, forgotten)
        | some (order, levels) ↦ (some order, with_levels p.side levels forgotten)
      ]
]

abbrev pub top_price : List Level → Option ℕ
top_price [] = none
top_price (l ∷ levels) = some l.price

unfoldable pub best_bid : OrderBook → Option ℕ
best_bid book = top_price book.bids

unfoldable pub best_ask : OrderBook → Option ℕ
best_ask book = top_price book.asks

-- The test of `iter_takeable_mut` on a level of the opposite side.
unfoldable pub is_takeable : Side → Option ℕ → ℕ → Bool
is_takeable side none price = true
is_takeable buy (some limit) price = leb price limit
is_takeable sell (some limit) price = leb limit price

-- `iter_takeable_mut`: the orders of the levels that pass the test, best first.
unfoldable pub takeable : Side → Option ℕ → List Level → List RestingOrder
unfolding is_takeable
takeable side limit [] = []
takeable side limit (l ∷ levels) =
    if is_takeable side limit l.price then l.orders ++ takeable side limit levels else []

-- `retain(|_, v| !v.is_empty())`
unfoldable pub drop_empty : List Level → List Level
unfolding keep_level
drop_empty [] = []
drop_empty (l ∷ levels) = keep_level l (drop_empty levels)

unfoldable pub remove_empty_levels : OrderBook → OrderBook
unfolding drop_empty
remove_empty_levels book = record book { bids = drop_empty book.bids; asks = drop_empty book.asks }

abbrev pub resting_qty : List RestingOrder → ℕ
resting_qty orders = sum_by (λ o. o.remaining_qty) orders

unfoldable pub total_at : ℕ → List Level → ℕ
total_at price [] = 0
total_at price (l ∷ levels) =
    if l.price == price then resting_qty l.orders else total_at price levels

unfoldable pub level_total : Side → ℕ → OrderBook → ℕ
unfolding total_at
level_total side price book = total_at price (levels_of side book)

-- `OrderBook::snapshot`
unfoldable pub book_snapshot : ℕ → OrderBook → List (ℕ × ℕ) × List (ℕ × ℕ)
book_snapshot depth book = (
  map (λ l. (l.price, resting_qty l.orders)) (take depth book.bids),
  map (λ l. (l.price, resting_qty l.orders)) (take depth book.asks),
)
