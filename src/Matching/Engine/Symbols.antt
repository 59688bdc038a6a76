-- ===== src/Matching/Engine/Symbols.antt =====
-- What `submit_order` answers.
use riabow_dex_backend.Prelude.{◌≡◌, ◌<◌, arith, List, [], true, none, is_some}
use riabow_dex_backend.Decimals.{Decimals}
use riabow_dex_backend.Matching.Types.{
  Result, MatchResult, ok, err, symbol_not_found, invalid_amount, invalid_price,
}
use riabow_dex_backend.Matching.Books.{MatchingEngine, get_orderbook_ref}
use riabow_dex_backend.Matching.Engine.{Submission, Message, submit_order}
use riabow_dex_backend.Matching.Engine.Submit.{Priced}

-- What `submit_order` answers, by the input: it is accepted for a known symbol, a positive amount
-- and, for a limit order, a price; otherwise the first of the three that is missing is named, and
-- nothing is sent and no book changes.
abbrev pub Answers :
    Submission → MatchingEngine → Result MatchResult × List Message × MatchingEngine → Type 0
Answers o g (ok result, _, _) =
    (is_some (get_orderbook_ref o.symbol g.orderbooks) ≡ true) × (0 < o.amount) × Priced o
Answers o g (err (symbol_not_found s), messages, g') =
    (s ≡ o.symbol) × (get_orderbook_ref o.symbol g.orderbooks ≡ none) × (messages ≡ []) × (g' ≡ g)
Answers o g (err invalid_amount, messages, g') =
    (is_some (get_orderbook_ref o.symbol g.orderbooks) ≡ true)
    × (o.amount ≡ 0)
    × (messages ≡ [])
    × (g' ≡ g)
Answers o g (err invalid_price, messages, g') =
    (is_some (get_orderbook_ref o.symbol g.orderbooks) ≡ true)
    × (0 < o.amount)
    × (o.price ≡ none)
    × (messages ≡ [])
    × (g' ≡ g)

-- An order is accepted only for a known symbol, with a positive amount and, if it is a limit order,
-- a price. The error names the first of these that is missing, and then no message is sent and no
-- book changes.
pub submit_order-Answers :
    (d : Decimals) (o : Submission) (g : MatchingEngine) → Answers o g (submit_order d o g)
unfolding submit_order
submit_order-Answers d o g = ground arith
