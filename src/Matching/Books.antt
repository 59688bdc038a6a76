-- ===== src/Matching/Books.antt =====
-- backend/src/services/matching/engine.rs: the books of the symbols, an association list.
use riabow_dex_backend.Prelude.{
  Bool, true, false, Option, none, some, List, [], ◌∷◌, ◌++◌, if◌then◌else◌, ◌==◌, map, ◌&&◌,
  is_some,
}
use riabow_dex_backend.Matching.Types.{Text}
use riabow_dex_backend.Matching.Orderbook.{Orderbook, new_orderbook}

-- `==` on strings
abbrev pub same_text : Text → Text → Bool
same_text [] [] = true
same_text (a ∷ s) (b ∷ t) = (a == b) && same_text s t
same_text _ _ = false

abbrev pub Orderbooks : Type 0
Orderbooks = List (Text × Orderbook)

-- `orderbooks.get(symbol)`
unfoldable pub get_orderbook_ref : Text → Orderbooks → Option Orderbook
get_orderbook_ref symbol [] = none
get_orderbook_ref symbol ((name, b) ∷ books) =
    if same_text name symbol then some b else get_orderbook_ref symbol books

-- The shared book of a symbol after an operation on it.
unfoldable pub store_orderbook : Text → Orderbook → Orderbooks → Orderbooks
store_orderbook symbol b [] = []
store_orderbook symbol b ((name, old) ∷ books) =
    if same_text name symbol
    then (name, b) ∷ books
    else (name, old) ∷ store_orderbook symbol b books

pub record MatchingEngine : Type 0 where
  pub orderbooks : Orderbooks
  pub symbols : List Text

-- `MatchingEngine::new`: one empty book for each symbol.
unfoldable pub new_engine : List Text → MatchingEngine
new_engine symbols = record {
  orderbooks = map (λ symbol. (symbol, new_orderbook symbol)) symbols;
  symbols = symbols;
}

unfoldable pub is_valid_symbol : Text → MatchingEngine → Bool
unfolding get_orderbook_ref
is_valid_symbol symbol g = is_some (get_orderbook_ref symbol g.orderbooks)

unfoldable pub add_symbol : Text → MatchingEngine → MatchingEngine
unfolding is_valid_symbol
add_symbol symbol g = if is_valid_symbol symbol g then g else record {
  orderbooks = g.orderbooks ++ (symbol, new_orderbook symbol) ∷ [];
  symbols = g.symbols ++ symbol ∷ [];
}
