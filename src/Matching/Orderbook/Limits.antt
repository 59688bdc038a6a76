-- ===== src/Matching/Orderbook/Limits.antt =====
-- The prices at which `match_order` trades.
use riabow_dex_backend.Prelude.{
  ℕ, ◌≡◌, List, [], ◌∷◌, All, All-reverse, Bool-cases, inl, inr, false, some, subst,
}
use riabow_dex_backend.Decimals.{Decimals}
use riabow_dex_backend.Matching.Types.{TradeExecution, PriceLevel, from_decimal, Side, buy, sell}
use riabow_dex_backend.Matching.Fill.{Queue, Level, Levels, Taker, beyond_limit}
use riabow_dex_backend.Matching.Fill.Limits.{
  Fits, Placed, Fair, fill_levels-Fair, Respects, Within-Respects,
}
use riabow_dex_backend.Matching.Levels.Thins.{Rests, AllRest}
use riabow_dex_backend.Matching.Orderbook.{Orderbook, match_order, opposite_levels, start_matching}
use riabow_dex_backend.Matching.Orderbook.Match.{kills}
use riabow_dex_backend.Matching.Orderbook.Invariant.{WellFormed}

-- The prices of all orders on a side fit into an `i64` of levels.
abbrev pub AllFit : Levels → Type 0
AllFit = All (λ x. All (λ o. Fits o.price) x.1)

Placed_queue :
    (side : Side) (l : PriceLevel) (q : Queue)
    → All (Rests side l) q
    → All (λ o. Fits o.price) q
    → All (λ o. (from_decimal o.price ≡ l) × Fits o.price) q
Placed_queue side l [] r f = tt
Placed_queue side l (o ∷ q) r f = ((r.0.at_level, f.0), Placed_queue side l q r.1 f.1)

Placed_lem : (side : Side) (levels : Levels) → AllRest side levels → AllFit levels → Placed levels
Placed_lem side [] r f = tt
Placed_lem side ((l, []) ∷ levels) r f = absurd r.0
Placed_lem side ((l, o ∷ q) ∷ levels) r f =
    (Placed_queue side l (o ∷ q) r.0 f.0, Placed_lem side levels r.1 f.1)

opposite_levels-Placed :
    (side : Side) (b : Orderbook)
    → WellFormed b
    → AllFit b.bids
    → AllFit b.asks
    → Placed (opposite_levels side b)
opposite_levels-Placed buy b wf fb fa = Placed_lem sell b.asks wf.asks_rest fa
opposite_levels-Placed sell b wf fb fa =
    All-reverse (λ (x : Level). All (λ o. (from_decimal o.price ≡ x.0) × Fits o.price) x.1) b.bids
      (Placed_lem buy b.bids wf.bids_rest fb)

Fair-Respects :
    (t : Taker) (limit : ℕ) (trades : List TradeExecution)
    → t.limit_price ≡ some limit
    → Fair t trades
    → All (λ tr. Respects t.side limit tr.price) trades
Fair-Respects t limit [] e h = tt
Fair-Respects t limit (tr ∷ trades) e h =
    let w : beyond_limit t.side (some limit) (from_decimal tr.price) ≡ false =
      subst (λ p. beyond_limit t.side p (from_decimal tr.price) ≡ false) e h.0.0 in
    (Within-Respects t.side limit tr.price h.0.1 w, Fair-Respects t limit trades e h.1)

-- On a well-formed book whose prices fit into an `i64` of levels, a buyer with a limit pays in
-- every trade less than one level (10^-8) more than its limit, and a seller gets its limit or more.
pub match_order-Respects :
    (d : Decimals) (t : Taker) (b : Orderbook) (limit : ℕ)
    → WellFormed b
    → AllFit b.bids
    → AllFit b.asks
    → t.limit_price ≡ some limit
    → All (λ tr. Respects t.side limit tr.price) (match_order d t b).0
unfolding match_order
match_order-Respects d t b limit wf fb fa e =
    let fair =
      fill_levels-Fair d t (start_matching t b) (opposite_levels t.side b)
        (opposite_levels-Placed t.side b wf fb fa) tt in
    elim (Bool-cases (kills d t b)) [
      | inl killed ↦ rw killed tt
      | inr goes ↦ rw goes (Fair-Respects t limit _ e fair)
    ]
