-- ===== src/Matching/Orderbook/Matched.antt =====
-- Matching keeps a book well formed.
use riabow_dex_backend.Prelude.{
  ◌≡◌, inl, inr, refl, arith, reverse, Bool-cases, sum_by-reverse, Option, none, some, All-reverse,
  if◌then◌else◌, length,
}
use riabow_dex_backend.Prelude.Int.{pos, ◌==ℤ◌, ◌<ℤ◌, eq_of_parts}
use riabow_dex_backend.Decimals.{Decimals}
use riabow_dex_backend.Matching.Types.{Uuid, PriceLevel, Side, buy, sell}
use riabow_dex_backend.Matching.Fill.{Level, Levels, Taker, Matching, fill_levels}
use riabow_dex_backend.Matching.Fill.Index.{fill_levels-index, fill_levels-count}
use riabow_dex_backend.Matching.Levels.Occurrences.{occurs_in, occurs_at, occurs, orders}
use riabow_dex_backend.Matching.Levels.Ordered.{Sorted-reverse}
use riabow_dex_backend.Matching.Levels.Thins.{
  LevelRests, Thins-AllRest, Thins-Sorted, fill_levels-Thins,
}
use riabow_dex_backend.Matching.Orderbook.{
  Orderbook, match_order, opposite_levels, start_matching, commit_matching,
}
use riabow_dex_backend.Matching.Orderbook.Match.{kills}
use riabow_dex_backend.Matching.Orderbook.Invariant.{WellFormed, IndexedAs}

-- Each id occurs on a reversed side as on the side.
occurs-reverse :
    (n : PriceLevel) (k : Uuid) (levels : Levels)
    → (occurs_in k (reverse levels) ≡ occurs_in k levels)
      × (occurs_at n k (reverse levels) ≡ occurs_at n k levels)
      × (orders (reverse levels) ≡ orders levels)
occurs-reverse n k levels = (
  sum_by-reverse (λ (x : Level). occurs k x.1) levels,
  sum_by-reverse (λ (x : Level). if n ==ℤ x.0 then occurs k x.1 else 0) levels,
  sum_by-reverse (λ (x : Level). length x.1) levels,
)

IndexedAs-reverse :
    (k : Uuid) (i : Option (Side × PriceLevel)) (bids asks : Levels)
    → IndexedAs k i bids asks
    → IndexedAs k i (reverse bids) asks
IndexedAs-reverse k none bids asks h = ground (arith, occurs-reverse (pos 0) k bids)
IndexedAs-reverse k (some (buy, n)) bids asks h = ground (arith, occurs-reverse n k bids)
IndexedAs-reverse k (some (sell, n)) bids asks h = ground (arith, occurs-reverse n k bids)

module _ (d : Decimals) (t : Taker) (s : Matching) (levels : Levels) where
  -- The loops keep the index exact, whichever side they run over.
  fill_levels-asks :
      (k : Uuid) (i : Option (Side × PriceLevel)) (bids : Levels)
      → s.order_index k ≡ i
      → IndexedAs k i bids levels
      → let (s', levels') = fill_levels d t s levels in IndexedAs k (s'.order_index k) bids levels'
  fill_levels-asks k none bids e h = ground (arith, fill_levels-index d t (pos 0) k s levels)
  fill_levels-asks k (some (buy, n)) bids e h = ground (arith, fill_levels-index d t n k s levels)
  fill_levels-asks k (some (sell, n)) bids e h = ground (arith, fill_levels-index d t n k s levels)

  fill_levels-bids :
      (k : Uuid) (i : Option (Side × PriceLevel)) (asks : Levels)
      → s.order_index k ≡ i
      → IndexedAs k i levels asks
      → let (s', levels') = fill_levels d t s levels in IndexedAs k (s'.order_index k) levels' asks
  fill_levels-bids k none asks e h = ground (arith, fill_levels-index d t (pos 0) k s levels)
  fill_levels-bids k (some (buy, n)) asks e h = ground (arith, fill_levels-index d t n k s levels)
  fill_levels-bids k (some (sell, n)) asks e h = ground (arith, fill_levels-index d t n k s levels)

module _ (d : Decimals) (t : Taker) (b : Orderbook) (wf : WellFormed b) where
  matched : Side → Orderbook
  matched side =
      let (s, levels') = fill_levels d t (start_matching t b) (opposite_levels side b) in
      commit_matching side s levels' b

  matched-WellFormed : (side : Side) → WellFormed (matched side)
  unfolding matched
  matched-WellFormed buy =
      let s = start_matching t b in
      let thins = fill_levels-Thins d t s b.asks in
      record {
        bids_ascend = wf.bids_ascend;
        asks_ascend = Thins-Sorted ◌<ℤ◌ thins wf.asks_ascend;
        bids_rest = wf.bids_rest;
        asks_rest = Thins-AllRest sell thins wf.asks_rest;
        counted = eq_of_parts _ _ (ground (arith, wf.counted, fill_levels-count d t s b.asks));
        indexed = λ k. fill_levels-asks d t s b.asks k (b.order_index k) b.bids refl (wf.indexed k);
      }
  matched-WellFormed sell =
      let s = start_matching t b in
      let levels = reverse b.bids in
      let levels' = (fill_levels d t s levels).1 in
      let thins = fill_levels-Thins d t s levels in
      record {
        bids_ascend =
            Sorted-reverse (λ l n. n <ℤ l) levels'
              (Thins-Sorted (λ l n. n <ℤ l) thins (Sorted-reverse ◌<ℤ◌ b.bids wf.bids_ascend));
        asks_ascend = wf.asks_ascend;
        bids_rest =
            All-reverse (LevelRests buy) levels'
              (Thins-AllRest buy thins (All-reverse (LevelRests buy) b.bids wf.bids_rest));
        asks_rest = wf.asks_rest;
        counted = eq_of_parts _ _ (
            ground (
              arith,
              wf.counted,
              fill_levels-count d t s levels,
              occurs-reverse (pos 0) 0 b.bids,
              occurs-reverse (pos 0) 0 levels',
            ));
        indexed = λ k.
            IndexedAs-reverse k ((fill_levels d t s levels).0.order_index k) levels' b.asks (
              fill_levels-bids d t s levels k (b.order_index k) b.asks refl
                (IndexedAs-reverse k (b.order_index k) b.bids b.asks (wf.indexed k)));
      }

-- Matching an order keeps a book well formed, whether it is filled, partly filled or killed.
pub match_order-WellFormed :
    (d : Decimals) (t : Taker) (b : Orderbook) → WellFormed b → WellFormed (match_order d t b).2
unfolding match_order matched
match_order-WellFormed d t b wf = elim (Bool-cases (kills d t b)) [
  | inl killed ↦ rw killed wf
  | inr goes ↦ rw goes (matched-WellFormed d t b wf t.side)
]
