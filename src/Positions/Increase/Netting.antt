-- ===== src/Positions/Increase/Netting.antt =====
-- A user has at most one open position in a market, whatever is traded.
use riabow_dex_backend.Prelude.{
  ℕ, ◌≡◌, arith, refl, Bool, true, false, not, ◌||◌, Option, none, some, if◌then◌else◌, ap, sym,
  ◌∙◌, subst,
}
use riabow_dex_backend.Prelude.Int.{ℤ, pos, ltb_ℤ, leb_ℤ}
use riabow_dex_backend.DecimalOps.{DecimalOps, safe_div_or}
use riabow_dex_backend.Positions.Types.{
  Position, PositionConfig, DecreasePositionResult, PositionOutcome, PositionError, done, failed,
  leverage_too_high,
}
use riabow_dex_backend.Positions.Store.{
  PositionStore, find_position, find_user_position, cleanup_frozen,
}
use riabow_dex_backend.Positions.Store.Rows.{
  count_open, find_user-row, find_user-by_id, find_user-count, some_injective, update-none,
}
use riabow_dex_backend.Positions.Decrease.{close_of, decrease_position, apply_close}
use riabow_dex_backend.Positions.Decrease.Remains.{decrease_position-cases, apply_close-positions}
use riabow_dex_backend.Positions.Increase.{
  Increase, BalanceDelta, opposing_close_balance_delta, buffer_of, sweep_closed, incoming_tokens,
  close_size_for, size_of, close_size_for, size_of, opposing_side, apply_delta, after_decrease,
  finish_reduce, reduce_opposing, pay_flip, open_rest, rest_of, flip, increase_against,
  increase_position_inner, increase_position,
}
use riabow_dex_backend.Positions.OpenRows.{
  OneOpen, closed-OneOpen, closed_count, decrease_position-OneOpen,
}
use riabow_dex_backend.Positions.Increase.Opened.{open_rest-OneOpen}

-- Payments leave the rows of positions alone.
apply_delta-positions :
    (user : ℕ) (d : BalanceDelta) (s : PositionStore)
    → (apply_delta user d s).positions ≡ s.positions
unfolding apply_delta
apply_delta-positions user d s = refl

cleanup-positions : (user : ℕ) (s : PositionStore) → (cleanup_frozen user s).positions ≡ s.positions
unfolding cleanup_frozen
cleanup-positions user s = ground arith

pay_flip-positions :
    (o : DecimalOps) (r : Increase) (p : Position) (d : DecreasePositionResult) (s : PositionStore)
    → (pay_flip o r p d s).positions ≡ s.positions
unfolding pay_flip apply_delta
pay_flip-positions o r p d s = refl

sweep_closed-positions :
    (full : Bool) (user : ℕ) (s : PositionStore)
    → (sweep_closed full user s).positions ≡ s.positions
unfolding sweep_closed
sweep_closed-positions true user s = cleanup-positions user s
sweep_closed-positions false user s = refl

finish_reduce-positions :
    (o : DecimalOps) (r : Increase) (p : Position) (n : ℤ) (d : DecreasePositionResult)
    (s : PositionStore)
    → (finish_reduce o r p n d s).1.positions ≡ s.positions
unfolding finish_reduce apply_delta
finish_reduce-positions o r p n d s = sweep_closed-positions d.is_fully_closed r.user_address (
    apply_delta r.user_address
      (opposing_close_balance_delta (not r.skip_min_size_check) true
        (o.mul p.collateral_amount (safe_div_or o n p.size_in_usd (pos 0)))
        (buffer_of o n p.leverage) (pos 0) d.collateral_returned r.collateral_amount (pos 0))
      s)

after_decrease_lem :
    {A : Type 0} (P : PositionStore → Type 0)
    (x : PositionOutcome DecreasePositionResult × PositionStore)
    (next : DecreasePositionResult → PositionStore → A × PositionStore) (error : PositionError → A)
    → P x.1
    → ((d : DecreasePositionResult) (s : PositionStore) → x ≡ (done d, s) → P (next d s).1)
    → P (after_decrease x next error).1
unfolding after_decrease
after_decrease_lem P (failed e, s) next error h k = h
after_decrease_lem P (done d, s) next error h k = k d s refl

-- A state in which a new position of the user in the market can be opened.
abbrev Vacant : ℕ → Increase → PositionStore → Type 0
Vacant id r s =
    (find_position id s.positions ≡ none)
    × OneOpen s.positions
    × (find_user_position r.user_address r.symbol (opposing_side r.side) s.positions ≡ none)

close-Vacant :
    (o : DecimalOps) (config : PositionConfig) (id : ℕ) (r : Increase) (p : Position)
    (s : PositionStore)
    → find_position id s.positions ≡ none
    → OneOpen s.positions
    → find_user_position r.user_address r.symbol (opposing_side r.side) s.positions ≡ some p
    → Vacant id r
        (apply_close (close_of o config p none r.execution_price) r.trade_id r.execution_price s)
close-Vacant o config id r p s fresh h found =
    let k = close_of o config p none r.execution_price in
    let (user, symbol, is_open) =
      find_user-row r.user_address r.symbol (opposing_side r.side) s.positions p found in
    let by_id =
      find_user-by_id r.user_address r.symbol (opposing_side r.side) s.positions p h.distinct
        found in
    let written = apply_close-positions k r.trade_id r.execution_price s in
    let empty = closed_count o config p r.execution_price r.trade_id s h by_id is_open in
    (
      ap (find_position id) written ∙ update-none id s.positions k.row fresh,
      subst OneOpen (sym written)
          (closed-OneOpen o config p r.execution_price s.positions h by_id is_open),
      find_user-count r.user_address r.symbol (opposing_side r.side)
          (apply_close k r.trade_id r.execution_price s).positions
          (ap (λ u. count_open u r.symbol (apply_close k r.trade_id r.execution_price s).positions)
              (sym user)
            ∙ ap
                (λ y.
                  count_open p.user_address y
                    (apply_close k r.trade_id r.execution_price s).positions)
                (sym symbol)
            ∙ empty),
    )

Vacant-positions :
    (id : ℕ) (r : Increase) (s t : PositionStore)
    → t.positions ≡ s.positions
    → Vacant id r s
    → Vacant id r t
Vacant-positions id r s t same h =
    subst
      (λ ps.
        (find_position id ps ≡ none)
        × OneOpen ps
        × (find_user_position r.user_address r.symbol (opposing_side r.side) ps ≡ none))
      (sym same) h

flip-OneOpen :
    (o : DecimalOps) (config : PositionConfig) (id : ℕ) (r : Increase) (p : Position)
    (s : PositionStore)
    → find_position id s.positions ≡ none
    → OneOpen s.positions
    → find_user_position r.user_address r.symbol (opposing_side r.side) s.positions ≡ some p
    → OneOpen (flip o config id r p s).1.positions
unfolding flip
flip-OneOpen o config id r p s fresh h found =
    after_decrease_lem (λ x. OneOpen x.positions)
      (decrease_position o config p.id none r.execution_price r.trade_id s)
      (λ d s'. open_rest o config id r (rest_of o r p d) (pay_flip o r p d s')) failed
      (decrease_position-OneOpen o config p.id none r.execution_price r.trade_id s h)
      (λ d s' closes.
        let (p', found', is_open, result, state) =
          decrease_position-cases o config p.id none r.execution_price r.trade_id s s' d closes in
        let same : p' ≡ p = some_injective p' p (
          sym found'
          ∙ find_user-by_id r.user_address r.symbol (opposing_side r.side) s.positions p h.distinct
              found) in
        let vacant : Vacant id r s' = subst (Vacant id r) state (
          subst
            (λ x. Vacant id r (
              apply_close (close_of o config x none r.execution_price) r.trade_id r.execution_price
                s))
            (sym same) (close-Vacant o config id r p s fresh h found)) in
        let (fresh', one, opposing) =
          Vacant-positions id r s' (pay_flip o r p d s') (pay_flip-positions o r p d s') vacant in
        open_rest-OneOpen o config id r (rest_of o r p d) (pay_flip o r p d s') fresh' one opposing)

reduce_opposing-OneOpen :
    (o : DecimalOps) (config : PositionConfig) (r : Increase) (p : Position) (s : PositionStore)
    → OneOpen s.positions
    → OneOpen (reduce_opposing o config r p s).1.positions
unfolding reduce_opposing
reduce_opposing-OneOpen o config r p s h =
    let n = close_size_for o r p in
    let x = decrease_position o config p.id (some n) r.execution_price r.trade_id s in
    let one = decrease_position-OneOpen o config p.id (some n) r.execution_price r.trade_id s h in
    after_decrease_lem (λ y. OneOpen y.positions) x (finish_reduce o r p n) failed one
      (λ d s' reduced.
        subst OneOpen
          (sym (
            finish_reduce-positions o r p n d s'
            ∙ ap (λ (y : PositionOutcome DecreasePositionResult × PositionStore). y.1.positions)
                (sym reduced)))
          one)

if-OneOpen :
    {A : Type 0} (b : Bool) (x y : A × PositionStore)
    → OneOpen x.1.positions
    → OneOpen y.1.positions
    → OneOpen (if b then x else y).1.positions
if-OneOpen true x y h k = h
if-OneOpen false x y h k = k

increase_against-OneOpen :
    (o : DecimalOps) (config : PositionConfig) (id : ℕ) (r : Increase) (s : PositionStore)
    (found : Option Position)
    → find_user_position r.user_address r.symbol (opposing_side r.side) s.positions ≡ found
    → find_position id s.positions ≡ none
    → OneOpen s.positions
    → OneOpen (increase_against o config id r found s).1.positions
unfolding increase_against
increase_against-OneOpen o config id r s none found fresh h =
    open_rest-OneOpen o config id r
      (record { size_usd = size_of o r; collateral = r.collateral_amount; realized_pnl = pos 0 }) s
      fresh h found
increase_against-OneOpen o config id r s (some p) found fresh h =
    if-OneOpen (leb_ℤ (incoming_tokens o r) p.size_in_tokens) (reduce_opposing o config r p s)
      (flip o config id r p s) (reduce_opposing-OneOpen o config r p s h)
      (flip-OneOpen o config id r p s fresh h found)

-- When ids are distinct, a user has at most one open position in each market and the id for a new
-- row is not in use, both still hold after any order increases a position: whether it is refused,
-- reduces or closes an opposing position, closes it and opens the rest, opens or grows a position.
pub increase_position-OneOpen :
    (o : DecimalOps) (config : PositionConfig) (id : ℕ) (r : Increase) (s : PositionStore)
    → find_position id s.positions ≡ none
    → OneOpen s.positions
    → OneOpen (increase_position o config id r s).1.positions
unfolding increase_position increase_position_inner
increase_position-OneOpen o config id r s fresh h =
    if-OneOpen (ltb_ℤ config.max_leverage r.leverage || ltb_ℤ r.leverage (pos 1))
      (failed (leverage_too_high config.max_leverage), s)
      (increase_against o config id r
        (find_user_position r.user_address r.symbol (opposing_side r.side) s.positions) s)
      h
      (increase_against-OneOpen o config id r s
        (find_user_position r.user_address r.symbol (opposing_side r.side) s.positions) refl fresh
        h)
