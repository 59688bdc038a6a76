-- ===== src/Spot/Cancel.antt =====
-- backend/src/services/spot/matching/engine.rs: `handle_cancel` and the two loops over it.
--
-- The market cache is a function. The rows that a query returns are in the order of the table. An
-- order that is not a limit order ends the task of the engine by a panic.
pub mod Outcomes
use riabow_dex_backend.Prelude.{
  ℕ, ◌≡◌, Bool, true, false, not, ◌&&◌, Option, none, some, List, [], ◌∷◌, if◌then◌else◌, ◌==◌,
}
use riabow_dex_backend.Prelude.Int.{ℤ, pos, ◌-ℤ◌, ◌*ℤ◌}
use riabow_dex_backend.Spot.Types.{
  Side, buy, sell, canceled, is_terminal, SpotMarket, SpotOrder, CancelError, not_found, forbidden,
  db,
}
use riabow_dex_backend.Spot.Book.{cancel, level_total}
use riabow_dex_backend.Spot.Ledger.{Balances, adjust, find_order}
use riabow_dex_backend.Spot.Engine.{
  SpotEngine, AffectedLevel, order_canceled, bump_book, lock_token, set_status,
}

pub data CancelResult : Type 0 where
  canceled_row : SpotOrder → CancelResult
  cancel_error : CancelError → CancelResult
  panicked : CancelResult

abbrev pub or_zero : Option ℕ → ℕ
or_zero none = 0
or_zero (some n) = n

-- What is still locked for the rest of an order.
unfoldable pub refund_of : SpotOrder → ℤ
refund_of o =
    let remaining = pos (or_zero o.quantity) -ℤ pos o.filled_qty in
    elim o.side [
      | buy ↦ remaining *ℤ pos (or_zero o.price)
      | sell ↦ remaining *ℤ pos 1_000_000_000_000_000_000
    ]

-- The refund, whether it affects a row or not.
unfoldable pub release : ℕ → ℕ → ℤ → Balances → Balances
unfolding adjust
release user token amount rows = elim (adjust user token amount (pos 0 -ℤ amount) rows) [
  | none ↦ rows
  | some rows' ↦ rows'
]

-- The transaction: the refund and the update of the order.
unfoldable pub release_order : SpotMarket → SpotOrder → ℕ → SpotEngine → SpotEngine
unfolding release
release_order market o user e =
    let balances = release user (lock_token market o.side) (refund_of o) e.tables.balances in
    set_status o.id canceled (record e { tables = record e.tables { balances = balances } })

-- After the commit: the order leaves the book, and the event is sent.
unfoldable pub announce_cancel : SpotOrder → SpotEngine → CancelResult × SpotEngine
announce_cancel o e =
    let book = (cancel o.id e.book).1 in
    let update_id = bump_book e.book_update_id in
    let e' = record e { book = book; book_update_id = update_id } in
    elim o.price [
      | none ↦ (panicked, e')
      | some price ↦
          let level : AffectedLevel = record {
            side = o.side;
            price = price;
            total = level_total o.side price book;
          } in
          (canceled_row o, record e' { events = order_canceled o update_id level ∷ e.events })
    ]

unfoldable pub handle_cancel :
    (ℕ → Option SpotMarket) → ℕ → ℕ → SpotEngine → CancelResult × SpotEngine
handle_cancel markets id user e = elim (find_order id e.tables.orders) [
  | none ↦ (cancel_error not_found, e)
  | some o ↦
      if not (o.user_address == user)
      then (cancel_error forbidden, e)
      else if is_terminal o.status
      then (cancel_error not_found, e)
      else elim (markets o.market_id) [
        | none ↦ (cancel_error db, e)
        | some market ↦
            let released = release_order market o user e in
            elim (find_order o.id released.tables.orders) [
              | none ↦ (cancel_error db, e)
              | some row ↦ announce_cancel row released
            ]
      ]
]

-- The loops over the rows of a query; each row is canceled for the user that comes with it, and a
-- panic ends the loop.
unfoldable pub cancel_rows :
    (ℕ → Option SpotMarket) → List SpotOrder → SpotEngine → List SpotOrder × SpotEngine
unfolding handle_cancel
cancel_rows markets [] e = ([], e)
cancel_rows markets (o ∷ rows) e =
    let (r, e') = handle_cancel markets o.id o.user_address e in
    let (out, e'') = cancel_rows markets rows e' in
    elim r [ canceled_row c ↦ (c ∷ out, e'') | cancel_error x ↦ (out, e'') | panicked ↦ ([], e') ]

-- `status IN ('open', 'partially_filled')` and the other conditions of a query.
unfoldable pub open_rows : (SpotOrder → Bool) → List SpotOrder → List SpotOrder
unfolding is_terminal
open_rows wanted [] = []
open_rows wanted (o ∷ orders) =
    if not (is_terminal o.status) && wanted o
    then o ∷ open_rows wanted orders
    else open_rows wanted orders

-- `handle_cancel_all` for all markets or one, and `handle_cancel_market`.
unfoldable pub handle_cancel_all :
    (ℕ → Option SpotMarket) → ℕ → Option ℕ → SpotEngine → List SpotOrder × SpotEngine
unfolding open_rows cancel_rows
handle_cancel_all markets user market e =
    let wanted = λ (o : SpotOrder).
      (o.user_address == user) && (elim market [ none ↦ true | some m ↦ o.market_id == m ]) in
    cancel_rows markets (open_rows wanted e.tables.orders) e

unfoldable pub handle_cancel_market :
    (ℕ → Option SpotMarket) → ℕ → SpotEngine → List SpotOrder × SpotEngine
unfolding open_rows cancel_rows
handle_cancel_market markets market e =
    cancel_rows markets (open_rows (λ o. o.market_id == market) e.tables.orders) e
