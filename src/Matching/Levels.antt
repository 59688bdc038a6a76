-- ===== src/Matching/Levels.antt =====
-- backend/src/services/matching/orderbook.rs: what the book does to one of its sides, a `BTreeMap`
-- from price levels to queues, outside of matching.
pub mod Occurrences
pub mod Ordered
pub mod Thins
use riabow_dex_backend.Prelude.{
  ℕ, ◌+◌, Bool, true, false, Option, none, some, List, [], ◌∷◌, ◌++◌, if◌then◌else◌, ◌==◌, sum_by,
}
use riabow_dex_backend.Prelude.Int.{ℤ, ltb_ℤ, ◌==ℤ◌}
use riabow_dex_backend.Matching.Types.{Uuid, PriceLevel, OrderEntry, to_decimal}
use riabow_dex_backend.Matching.Fill.{Queue, Level, Levels}

-- `entry(level).or_insert_with(VecDeque::new).push_back(entry)`
unfoldable pub push_level : PriceLevel → OrderEntry → Levels → Levels
push_level l e [] = (l, e ∷ []) ∷ []
push_level l e ((k, q) ∷ levels) =
    if l ==ℤ k
    then (k, q ++ e ∷ []) ∷ levels
    else if ltb_ℤ l k
    then (l, e ∷ []) ∷ (k, q) ∷ levels
    else (k, q) ∷ push_level l e levels

-- `queue.iter().position(|o| o.id == order_id)` and `queue.remove(pos)`
unfoldable pub take_order : Uuid → Queue → Option (OrderEntry × Queue)
take_order id [] = none
take_order id (o ∷ q) =
    if o.id == id
    then some (o, q)
    else elim (take_order id q) [ none ↦ none | some (e, q') ↦ some (e, o ∷ q') ]

-- Puts a level back, unless its queue has become empty.
abbrev pub put_level : PriceLevel → Queue → Levels → Levels
put_level l [] levels = levels
put_level l (o ∷ q) levels = (l, o ∷ q) ∷ levels

-- `remove_from_queue`, on one side
unfoldable pub remove_at : PriceLevel → Uuid → Levels → Option (OrderEntry × Levels)
unfolding take_order
remove_at l id [] = none
remove_at l id ((k, q) ∷ levels) =
    if l ==ℤ k
    then elim (take_order id q) [ none ↦ none | some (e, q') ↦ some (e, put_level k q' levels) ]
    else elim (remove_at l id levels) [ none ↦ none | some (e, r) ↦ some (e, (k, q) ∷ r) ]

-- `scan_and_remove`, on one side: the first level that holds the order.
unfoldable pub scan_levels : Uuid → Levels → Option (OrderEntry × Levels)
unfolding take_order
scan_levels id [] = none
scan_levels id ((k, q) ∷ levels) =
    let rest = scan_levels id levels in
    elim (take_order id q) [
      | some (e, q') ↦ some (e, put_level k q' levels)
      | none ↦ elim rest [ none ↦ none | some (e, r) ↦ some (e, (k, q) ∷ r) ]
    ]

-- `get(&price_level)`
unfoldable pub find_level : PriceLevel → Levels → Option Queue
find_level l [] = none
find_level l ((k, q) ∷ levels) = if l ==ℤ k then some q else find_level l levels

-- `iter().find(|o| o.id == *order_id)`
unfoldable pub find_order : Uuid → Queue → Option OrderEntry
find_order id [] = none
find_order id (o ∷ q) = if o.id == id then some o else find_order id q

-- `keys().next()` and `keys().next_back()`
unfoldable pub first_key : Levels → Option PriceLevel
first_key [] = none
first_key ((l, q) ∷ levels) = some l

unfoldable pub last_key : Levels → Option PriceLevel
last_key [] = none
last_key ((l, q) ∷ []) = some l
last_key ((l, q) ∷ x ∷ levels) = last_key (x ∷ levels)

-- The sum of the remaining amounts of a side.
unfoldable pub depth : Levels → ℕ
depth = sum_by λ l. sum_by (λ o. o.remaining_amount) l.1
