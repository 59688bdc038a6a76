-- ===== src/Matching/Tests.antt =====
-- Runs of the matching engine, and its theorems at a small book.
use riabow_dex_backend.Prelude.{
  ℕ, ◌+◌, ◌-◌, ◌*◌, ◌/◌, ◌^◌, ◌≡◌, ◌≤◌, ◌<◌, ◌⊎◌, refl, arith, [], ◌∷◌, ◌++◌, All, true, false,
  some, ◌&&◌,
}
use riabow_dex_backend.Prelude.Int.{pos, ◌+ℤ◌, ◌-ℤ◌}
use riabow_dex_backend.Decimals.{Decimals}
use riabow_dex_backend.Matching.Types.{
  Side, buy, sell, limit, gtc, ioc, fok, TimeInForce, OrderEntry, level_unit, from_decimal,
  to_decimal, partially_filled,
}
use riabow_dex_backend.Matching.Fill.{Taker}
use riabow_dex_backend.Matching.Fill.Amounts.{traded, queued}
use riabow_dex_backend.Matching.Fill.Priority.{flatten, allot, parts, leftover}
use riabow_dex_backend.Matching.Fill.Limits.{Respects}
use riabow_dex_backend.Matching.Levels.{push_level}
use riabow_dex_backend.Matching.Orderbook.{
  Orderbook, new_orderbook, add_order, cancel_order, match_order, has_order, bid_depth,
}
use riabow_dex_backend.Matching.Orderbook.Match.{
  takeable, untakeable, match_order-fill_or_kill, match_order-allot,
}
use riabow_dex_backend.Matching.Orderbook.Invariant.{
  WellFormed, new_orderbook-WellFormed, add_order-WellFormed,
}
use riabow_dex_backend.Matching.Orderbook.Matched.{match_order-WellFormed}
use riabow_dex_backend.Matching.Orderbook.Limits.{AllFit, match_order-Respects}
use riabow_dex_backend.Matching.Orderbook.Cancelled.{Cancels, cancel_order-Cancels}
use riabow_dex_backend.Matching.Orderbook.RoundTrip.{cancel_order-add_order}
use riabow_dex_backend.Matching.Books.{MatchingEngine}
use riabow_dex_backend.Matching.Engine.{
  Submission, process_order, submit_order, should_be_in_book, fill_drift_epsilon, taker_of,
}
use riabow_dex_backend.Matching.Engine.Submit.{
  process_order-amounts, process_order-WellFormed, process_order-has_order,
}
use riabow_dex_backend.Matching.Engine.Uncrossed.{Uncrossed, process_order-Uncrossed}
use riabow_dex_backend.Matching.Engine.Symbols.{Answers, submit_order-Answers}

-- Decimal rounding for the runs.
abbrev rounding : Decimals
rounding = record {
  round_dp6 = λ v. (v + 5 * 10 ^ 47) / 10 ^ 48;
  quotient = λ a b. a / b;
  parse_scaled = λ p. some (pos (p / level_unit));
}

abbrev entry : ℕ → Side → ℕ → ℕ → OrderEntry
entry id side price amount = record {
  id = id;
  user_address = b'u' ∷ [];
  price = price * level_unit;
  original_amount = amount;
  remaining_amount = amount;
  side = side;
  time_in_force = gtc;
  timestamp = pos 0;
  leverage = 10;
  maker_fee_rate = 0;
}

-- Two asks at level 101, one at level 102.
abbrev asks_only : Orderbook
asks_only = add_order (entry 3 sell 102 (10 ^ 8)) (
    add_order (entry 2 sell 101 (2 * 10 ^ 8))
      (add_order (entry 1 sell 101 (10 ^ 8)) (new_orderbook (b'X' ∷ []))))

asks_only-WellFormed : WellFormed asks_only
asks_only-WellFormed = add_order-WellFormed (entry 3 sell 102 (10 ^ 8)) _ (omega arith) (
    add_order-WellFormed (entry 2 sell 101 (2 * 10 ^ 8)) _ (omega arith) (
      add_order-WellFormed (entry 1 sell 101 (10 ^ 8)) _ (omega arith)
        (new_orderbook-WellFormed (b'X' ∷ []))))

abbrev submission : ℕ → TimeInForce → Submission
submission amount tif = record {
  order_id = 9;
  symbol = b'X' ∷ [];
  user_address = b'v' ∷ [];
  side = buy;
  order_type = limit;
  amount = amount;
  price = some (101 * level_unit);
  time_in_force = tif;
  leverage = 5;
  taker_fee_rate = 0;
  maker_fee_rate = 0;
  now = pos 7;
  new_trade_id = λ n. 100 + n;
}

abbrev bid : TimeInForce → Taker
bid tif = taker_of (submission (5 * 10 ^ 8) tif)

-- A bid for 5 at 101 takes the 3 that level 101 has, the oldest order first, and rests with 2.
run-process_order :
    let (result, _, b) = process_order rounding (submission (5 * 10 ^ 8) gtc) asks_only in
    (parts result.trades ≡ (1, 10 ^ 8) ∷ (2, 2 * 10 ^ 8) ∷ [])
    × (result.status ≡ partially_filled)
    × (has_order 9 b ≡ true)
    × (bid_depth b ≡ 2 * 10 ^ 8)
unfolding process_order add_order push_level new_orderbook from_decimal to_decimal has_order
    bid_depth ◌+ℤ◌ ◌-ℤ◌
run-process_order = (refl, refl, refl, refl)

asks_only-Uncrossed : Uncrossed asks_only
unfolding add_order new_orderbook
asks_only-Uncrossed = tt

process_order-Uncrossed_example :
    Uncrossed (process_order rounding (submission (5 * 10 ^ 8) gtc) asks_only).2
process_order-Uncrossed_example =
    process_order-Uncrossed rounding (submission (5 * 10 ^ 8) gtc) asks_only (101 * level_unit)
      (omega arith) refl (omega arith) asks_only-WellFormed asks_only-Uncrossed

match_order-WellFormed_example : WellFormed (match_order rounding (bid gtc) asks_only).2
match_order-WellFormed_example =
    match_order-WellFormed rounding (bid gtc) asks_only asks_only-WellFormed

match_order-allot_example :
    let (trades, left, b) = match_order rounding (bid gtc) asks_only in
    (parts trades ≡ allot (5 * 10 ^ 8) (takeable (bid gtc) asks_only))
    × (flatten b.asks
        ≡ leftover (5 * 10 ^ 8) (takeable (bid gtc) asks_only) ++ untakeable (bid gtc) asks_only)
    × (left ≡ 5 * 10 ^ 8 - queued (takeable (bid gtc) asks_only))
match_order-allot_example = match_order-allot rounding (bid gtc) asks_only refl

match_order-fill_or_kill_example :
    let (trades, left, b) = match_order rounding (bid fok) asks_only in
    ((5 * 10 ^ 8 ≤ queued (takeable (bid fok) asks_only))
      × (left ≡ 0)
      × (traded trades ≡ 5 * 10 ^ 8))
    ⊎ ((queued (takeable (bid fok) asks_only) < 5 * 10 ^ 8)
        × (trades ≡ [])
        × (left ≡ 5 * 10 ^ 8)
        × (b ≡ asks_only))
match_order-fill_or_kill_example = match_order-fill_or_kill rounding (bid fok) asks_only refl

asks_only-AllFit : AllFit asks_only.bids × AllFit asks_only.asks
unfolding add_order push_level new_orderbook from_decimal
asks_only-AllFit = omega arith

match_order-Respects_example :
    All
      (λ tr. Respects buy (101 * level_unit) tr.price)
      (match_order rounding (bid gtc) asks_only).0
match_order-Respects_example =
    match_order-Respects rounding (bid gtc) asks_only (101 * level_unit) asks_only-WellFormed
      asks_only-AllFit.0 asks_only-AllFit.1 refl

cancel_order-Cancels_example :
    WellFormed (cancel_order 2 asks_only).1 × Cancels 2 asks_only (cancel_order 2 asks_only)
cancel_order-Cancels_example = cancel_order-Cancels 2 asks_only asks_only-WellFormed

cancel_order-add_order_example :
    cancel_order 4 (add_order (entry 4 buy 99 6) asks_only) ≡ (some (entry 4 buy 99 6), asks_only)
unfolding has_order add_order push_level new_orderbook from_decimal
cancel_order-add_order_example =
    cancel_order-add_order (entry 4 buy 99 6) asks_only asks_only-WellFormed refl

process_order-amounts_example :
    let (result, _, _) = process_order rounding (submission (5 * 10 ^ 8) ioc) asks_only in
    (traded result.trades + result.remaining_amount ≡ 5 * 10 ^ 8)
    × (((result.remaining_amount < fill_drift_epsilon) × (result.filled_amount ≡ 5 * 10 ^ 8))
        ⊎ ((fill_drift_epsilon ≤ result.remaining_amount)
            × (result.filled_amount ≡ traded result.trades)))
process_order-amounts_example =
    process_order-amounts rounding (submission (5 * 10 ^ 8) ioc) asks_only

process_order-WellFormed_example :
    WellFormed (process_order rounding (submission (5 * 10 ^ 8) gtc) asks_only).2
process_order-WellFormed_example =
    process_order-WellFormed rounding (submission (5 * 10 ^ 8) gtc) asks_only (omega arith)
      asks_only-WellFormed

-- What is immediate or cancel does not rest, though it is partially filled.
process_order-has_order_example :
    let (result, _, b) = process_order rounding (submission (5 * 10 ^ 8) ioc) asks_only in
    has_order 9 b ≡ (false && should_be_in_book result.status)
unfolding has_order add_order push_level new_orderbook from_decimal
process_order-has_order_example =
    process_order-has_order rounding (submission (5 * 10 ^ 8) ioc) asks_only (omega arith) refl refl

abbrev engine : MatchingEngine
engine = record {
  orderbooks = (b'X' ∷ [], asks_only) ∷ (b'Y' ∷ [], new_orderbook (b'Y' ∷ [])) ∷ [];
  symbols = (b'X' ∷ []) ∷ (b'Y' ∷ []) ∷ [];
}

submit_order-Answers_example :
    Answers (submission 0 gtc) engine (submit_order rounding (submission 0 gtc) engine)
submit_order-Answers_example = submit_order-Answers rounding (submission 0 gtc) engine
