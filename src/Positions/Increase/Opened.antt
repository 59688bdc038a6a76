-- ===== src/Positions/Increase/Opened.antt =====
-- What opening a position does to the rows of a user in a market.
use riabow_dex_backend.Prelude.{
  ℕ, ◌≡◌, ◌⊎◌, arith, refl, Bool, true, false, not, ◌&&◌, Option, none, some, inl, inr, List, sym,
  subst,
}
use riabow_dex_backend.Prelude.Int.{ℤ, pos, ltb_ℤ}
use riabow_dex_backend.DecimalOps.{DecimalOps, safe_div_or, from_int}
use riabow_dex_backend.Positions.Types.{PositionSide, long, short, Position, PositionConfig}
use riabow_dex_backend.Positions.Store.{PositionStore, find_position, find_user_position, same_side}
use riabow_dex_backend.Positions.Store.Rows.{
  count_open, find_user-row, find_user-by_id, find_user-none,
}
use riabow_dex_backend.Positions.Formulas.{check_liquidation}
use riabow_dex_backend.Positions.Increase.{
  Increase, Opening, finish_open, opposing_side, open_rest, opened_row, put_row, new_position,
  grown_position,
}
use riabow_dex_backend.Positions.OpenRows.{OneOpen, update-OneOpen}

opposing_differs : (side : PositionSide) → same_side side (opposing_side side) ≡ false
unfolding opposing_side
opposing_differs long = refl
opposing_differs short = refl

-- The row of a trade.
abbrev RestLeaves :
    DecimalOps → PositionConfig → ℕ → Increase → Opening → PositionStore → List Position → Type 0
RestLeaves o config id r w s ps =
    (ps ≡ s.positions)
    ⊎ ((tokens : ℤ) × (collateral : ℤ) × (ps
          ≡ put_row (find_user_position r.user_address r.symbol r.side s.positions)
              (opened_row o config id r w tokens collateral
                (find_user_position r.user_address r.symbol r.side s.positions))
              s.positions))

finish_open-cases :
    (o : DecimalOps) (config : PositionConfig) (r : Increase) (w : Opening) (tokens collateral : ℤ)
    (old : Option Position) (q : Position) (small short_of unsafe : Bool) (s : PositionStore)
    → ((finish_open o config r w tokens collateral old q small short_of unsafe s).1.positions
        ≡ s.positions)
      ⊎ ((finish_open o config r w tokens collateral old q small short_of unsafe s).1.positions
          ≡ put_row old q s.positions)
unfolding finish_open
finish_open-cases o config r w tokens collateral old q true short_of unsafe s = inl refl
finish_open-cases o config r w tokens collateral old q false true unsafe s = inl refl
finish_open-cases o config r w tokens collateral old q false false true s = inl refl
finish_open-cases o config r w tokens collateral old q false false false s = inr refl

open_rest-cases :
    (o : DecimalOps) (config : PositionConfig) (id : ℕ) (r : Increase) (w : Opening)
    (s : PositionStore)
    → RestLeaves o config id r w s (open_rest o config id r w s).1.positions
unfolding open_rest
open_rest-cases o config id r w s =
    let tokens = safe_div_or o w.size_usd r.execution_price (pos 0) in
    let collateral = safe_div_or o w.size_usd (from_int o r.leverage) (pos 0) in
    let old = find_user_position r.user_address r.symbol r.side s.positions in
    let q = opened_row o config id r w tokens collateral old in
    let checked = not r.skip_min_size_check in
    elim (finish_open-cases o config r w tokens collateral old q
      (checked && ltb_ℤ w.size_usd config.min_position_size_usd)
      (checked && ltb_ℤ collateral config.min_collateral_usd)
      (checked && (check_liquidation o config q r.execution_price).is_liquidatable) s) [
        | inl kept ↦ inl kept
        | inr put ↦ inr (tokens, collateral, put)
      ]

put_row-OneOpen :
    (o : DecimalOps) (config : PositionConfig) (id : ℕ) (r : Increase) (w : Opening)
    (tokens collateral : ℤ) (ps : List Position) (old : Option Position)
    → find_user_position r.user_address r.symbol r.side ps ≡ old
    → find_position id ps ≡ none
    → OneOpen ps
    → find_user_position r.user_address r.symbol (opposing_side r.side) ps ≡ none
    → OneOpen (put_row old (opened_row o config id r w tokens collateral old) ps)
unfolding put_row opened_row new_position grown_position
put_row-OneOpen o config id r w tokens collateral ps none found fresh h opposing =
    let empty : count_open r.user_address r.symbol ps ≡ 0 =
      find_user-none r.user_address r.symbol r.side (opposing_side r.side) ps
        (opposing_differs r.side) found opposing in
    record { distinct = (fresh, h.distinct); one = λ u y. ground (arith, h.one u y, empty) }
put_row-OneOpen o config id r w tokens collateral ps (some p) found fresh h opposing =
    let (user, symbol, is_open) = find_user-row r.user_address r.symbol r.side ps p found in
    update-OneOpen ps p (grown_position o config p w tokens collateral) h
      (find_user-by_id r.user_address r.symbol r.side ps p h.distinct found) refl refl is_open

pub open_rest-OneOpen :
    (o : DecimalOps) (config : PositionConfig) (id : ℕ) (r : Increase) (w : Opening)
    (s : PositionStore)
    → find_position id s.positions ≡ none
    → OneOpen s.positions
    → find_user_position r.user_address r.symbol (opposing_side r.side) s.positions ≡ none
    → OneOpen (open_rest o config id r w s).1.positions
open_rest-OneOpen o config id r w s fresh h opposing = elim (open_rest-cases o config id r w s) [
  | inl kept ↦ subst OneOpen (sym kept) h
  | inr (tokens, collateral, put) ↦ subst OneOpen (sym put) (
      put_row-OneOpen o config id r w tokens collateral s.positions
        (find_user_position r.user_address r.symbol r.side s.positions) refl fresh h opposing)
]
