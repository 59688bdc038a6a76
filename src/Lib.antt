-- ===== src/Lib.antt =====
-- Verification of the trading core of the exchange backend.
--
-- The perpetual exchange matches orders in memory. `MatchingEngine`
-- (backend/src/services/matching/engine.rs) keeps a set of symbols and one `Orderbook`
-- (backend/src/services/matching/orderbook.rs) for each; `submit_order` checks its input, matches the
-- order against the opposite side of the book, works out the filled amount, the status and the average
-- price, and adds a residual of a resting order to the book; `cancel_order` takes an order out.
--
-- The spot exchange (backend/src/services/spot) keeps a book for each market in memory and balances,
-- orders and trades in the database. `place_limit` of its matching engine checks an order, freezes what
-- it locks, takes from the makers, settles each fill in a transaction of its own (`commit_fill`), and
-- rests or cancels what is left.
--
-- A unified margin account (backend/src/services/unified_margin) has a risk snapshot, computed from its
-- wallet, its positions, the mark prices and a ladder of margin tiers; a gate decides by it whether a
-- new position may be opened. It reads the positions that the perpetual exchange makes.
--
-- A trade increases positions (backend/src/services/position/mod.rs): `increase_position` first nets an
-- opposing position by `decrease_position`, moves the user's balance, and opens or grows what is left.
-- The liquidation engine (backend/src/services/liquidation/mod.rs) runs over the open positions of a
-- market at its mark price and closes those whose collateral is used up, with the help of an insurance
-- fund; auto-deleveraging (backend/src/services/adl/mod.rs) ranks the profitable positions of a market
-- and reduces them to cover what the fund does not. A transfer moves funds between the two exchanges.
--
-- The funding rate of a market (backend/src/services/funding_rate/mod.rs) follows from the open interest
-- of its two sides; a settlement charges it to the open positions of the market and to the fee ledger.
--
-- Fee tiers (backend/src/utils/fee_tiers.rs) give the rates of both sides of a trade by the volume of a
-- user.
--
-- Files:
--   Prelude            shared names, Boolean tests, lists and integers
--   Decimals           what is used of the crate `rust_decimal`
--   Matching.Types     backend/src/services/matching/types.rs
--   Matching.Levels    the levels of a side and their queues, of orderbook.rs
--   Matching.Fill      the loops of `Orderbook::match_order`
--   Matching.Orderbook backend/src/services/matching/orderbook.rs, with children for its theorems
--   Matching.Books     the map from symbols to books, of engine.rs
--   Matching.Engine    `submit_order` and `cancel_order` of engine.rs
--   Spot.Types         backend/src/models/spot and the types of backend/src/services/spot/matching
--   Spot.Book          backend/src/services/spot/matching/book.rs
--   Spot.Hits          the match phase of `place_limit`
--   Spot.Ledger        the SQL statements on `spot_balances` and `spot_orders`
--   Spot.Settle        backend/src/services/spot/matching/settle.rs
--   Spot.Engine        the state of backend/src/services/spot/matching/engine.rs, and shared steps
--   Spot.Place         `place_limit` of the same file
--   Spot.Cancel        the cancels of the same file
--   Spot.MarketOrder   `place_market` of the same file
--   Spot.Commands      the dispatch of orders and the loop over commands of the same file
--   Spot.Recovery      backend/src/services/spot/matching/recovery.rs
--   DecimalOps         signed decimals, their rounded operations and the division macros
--   Positions.Types    backend/src/models/position.rs
--   Positions.Formulas profit, collateral, prices and the liquidation test of position/mod.rs
--   Positions.Store    the SQL statements on positions, balances and the fee ledger
--   Positions.Decrease, Increase, Collateral
--                      the operations of backend/src/services/position/mod.rs
--   Positions.OpenRows what the operations do to the number of open positions of a user
--   Liquidation.Types, Execute, Sweep
--                      backend/src/services/liquidation/mod.rs
--   Liquidation.Conditions
--                      when it liquidates, and backend/src/services/risk/mod.rs
--   Slippage           backend/src/utils/slippage.rs
--   Adl.Types, Ranking, Execute
--                      backend/src/services/adl/mod.rs
--   Funding            open interest and the rate of backend/src/services/funding_rate/mod.rs
--   Funding.Settle     the settlement of the same file
--   Spot.Wallet        backend/src/services/spot/wallet.rs
--   Margin.Tiers       backend/src/services/unified_margin/tiers.rs
--   Margin.Risk, Gate  backend/src/services/unified_margin/calculator.rs
--   Margin.Totals      the snapshot as sums over the positions
--   Margin.Opening     what the gate lets through
--   Fees               backend/src/utils/fee_tiers.rs, without the discounts and the effective fee
-- The children of a module hold its theorems; the modules named Tests hold runs on small inputs.
--
-- Numbers. A decimal that is not negative is the number of its units of 10^-18; a level of the
-- perpetual book is a price in units of 10^-8, so 10^10 units of price; the drift that counts as filled
-- is 10^6 units (10^-12). Products have the product of the units. The amounts of the unified margin
-- account may be negative, and its two divisions are parameters of their own (`Division`). The other
-- rounded operations of the crate are parameters too (`Decimals`). The amounts of positions and
-- liquidations are signed: integers in units that are as small as the precision, with multiplication,
-- division and rounding as parameters (`DecimalOps`), of which `DecimalLaws` states what is used. Sums
-- and comparisons, and outside of `DecimalOps` products, are exact, so the overflow and the rounding of
-- the 96-bit mantissa are not modelled. Counters of 64 and 128 bits wrap around, but for the count of the
-- orders of a perpetual book, which has no bound here. Fees of the spot exchange have a sign: a market may pay a rebate.
--
-- Loops are structural recursion over the lists of orders, levels, hits and rows, so no fuel is
-- used. Maps with ordered keys are lists of levels in the order in which they are walked.
--
-- Concurrency. Each operation is one step: the locks of the perpetual book are held over a whole match,
-- one task runs the commands of a spot market, and the advisory lock or the lock of a row is held over
-- an operation on a position. Increases and decreases take the cache of positions to hold the rows of the
-- table; in changes of collateral it is a state of its own, which may differ from the table. Channels, metrics,
-- logs, clocks and lost database connections are not modelled; events sent are returned or listed.
pub mod Prelude
pub mod Decimals
pub mod DecimalOps
pub mod Matching
pub mod Spot
pub mod Positions
pub mod Liquidation
pub mod Margin
pub mod Fees
pub mod Slippage
pub mod Adl
pub mod Funding
