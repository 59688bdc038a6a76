-- ===== src/Matching/Orderbook/Invariant.antt =====
-- The invariant of a book, and that every operation keeps it.
use riabow_dex_backend.Prelude.{
  ℕ, ◌+◌, ◌≡◌, ◌<◌, inl, inr, refl, sym, arith, Bool-cases, Option-cases, Option, none, some, ◌==◌,
  subst,
}
use riabow_dex_backend.Prelude.Int.{pos, ◌+ℤ◌, ◌<ℤ◌, int_laws}
use riabow_dex_backend.Matching.Types.{
  Uuid, PriceLevel, Side, buy, sell, OrderEntry, from_decimal, Text,
}
use riabow_dex_backend.Matching.Fill.{Levels, index_insert}
use riabow_dex_backend.Matching.Levels.{push_level}
use riabow_dex_backend.Matching.Levels.Occurrences.{
  occurs_in, occurs_at, orders, hit, occurs_at-le, push_level-occurs,
}
use riabow_dex_backend.Matching.Levels.Ordered.{Ascending, push_level-Ascending}
use riabow_dex_backend.Matching.Levels.Thins.{
  AllRest, Thins, Thins-AllRest, Thins-Sorted, push_level-AllRest,
}
use riabow_dex_backend.Matching.Orderbook.{
  Orderbook, new_orderbook, add_order, resting, with_resting,
}

-- What the index says of an id against where it occurs: nowhere, or once, at the level it names.
abbrev pub IndexedAs : Uuid → Option (Side × PriceLevel) → Levels → Levels → Type 0
IndexedAs k none bids asks = occurs_in k bids + occurs_in k asks ≡ 0
IndexedAs k (some (buy, l)) bids asks =
    (occurs_at l k bids ≡ 1) × (occurs_in k bids ≡ 1) × (occurs_in k asks ≡ 0)
IndexedAs k (some (sell, l)) bids asks =
    (occurs_at l k asks ≡ 1) × (occurs_in k asks ≡ 1) × (occurs_in k bids ≡ 0)

-- The levels of a side ascend and none is empty; every order stands at the level of its price, on
-- its side, with something left; the count is the number of orders; the index names exactly the
-- orders of the book, each with its place, and no id occurs twice.
pub record WellFormed (b : Orderbook) : Type 0 where
  pub bids_ascend : Ascending b.bids
  pub asks_ascend : Ascending b.asks
  pub bids_rest : AllRest buy b.bids
  pub asks_rest : AllRest sell b.asks
  pub counted : b.order_count ≡ pos (orders b.bids + orders b.asks)
  pub indexed : (k : Uuid) → IndexedAs k (b.order_index k) b.bids b.asks

count_up : (n : ℕ) → pos n +ℤ pos 1 ≡ pos (n + 1)
count_up n = omega int_laws

pub new_orderbook-WellFormed : (symbol : Text) → WellFormed (new_orderbook symbol)
unfolding new_orderbook
new_orderbook-WellFormed symbol = record {
  bids_ascend = tt;
  asks_ascend = tt;
  bids_rest = tt;
  asks_rest = tt;
  counted = refl;
  indexed = λ k. refl;
}

-- An order pushed at either side leaves what the index says of other ids true, and makes its own
-- entry true.
IndexedAs-push :
    (k : Uuid) (i : Option (Side × PriceLevel)) (l : PriceLevel) (e : OrderEntry)
    → (bids asks : Levels) → hit e.id k ≡ 0
    → IndexedAs k i bids asks
    → IndexedAs k i (push_level l e bids) asks × IndexedAs k i bids (push_level l e asks)
IndexedAs-push k none l e bids asks n h =
    ground (arith, push_level-occurs l l k e bids, push_level-occurs l l k e asks)
IndexedAs-push k (some (buy, m)) l e bids asks n h =
    ground (arith, push_level-occurs l m k e bids, push_level-occurs l m k e asks)
IndexedAs-push k (some (sell, m)) l e bids asks n h =
    ground (arith, push_level-occurs l m k e bids, push_level-occurs l m k e asks)

IndexedAs-pushed :
    (l : PriceLevel) (e : OrderEntry) (bids asks : Levels)
    → IndexedAs e.id none bids asks
    → IndexedAs e.id (some (buy, l)) (push_level l e bids) asks
      × IndexedAs e.id (some (sell, l)) bids (push_level l e asks)
IndexedAs-pushed l e bids asks h = ground (
  arith,
  push_level-occurs l l e.id e bids,
  push_level-occurs l l e.id e asks,
  occurs_at-le l e.id bids,
  occurs_at-le l e.id asks,
)

-- What the book is like once an order has been pushed at a side.
module _ (e : OrderEntry) (b : Orderbook) (wf : WellFormed b)
    (fresh : b.order_index e.id ≡ none) where
  abbrev level : PriceLevel
  level = from_decimal e.price

  abbrev pushed : Side → Orderbook
  pushed side = record (with_resting side (push_level level e (resting side b)) b) {
    order_index = index_insert e.id (side, level) b.order_index;
    order_count = b.order_count +ℤ pos 1;
  }

  pushed-indexed :
      (side : Side) (k : Uuid)
      → IndexedAs k ((pushed side).order_index k) (pushed side).bids (pushed side).asks
  pushed-indexed side k = elim (Bool-cases (k == e.id)) [
    | inl new ↦
        let at_id : k ≡ e.id = ground arith in
        rw new (subst (λ j. Entry side j) (sym at_id) (new_entry side))
    | inr other ↦
        let keep : hit e.id k ≡ 0 = ground arith in
        rw other (
          old_entry side
            (IndexedAs-push k (b.order_index k) level e b.bids b.asks keep (wf.indexed k)))
  ]
    where
      Entry : Side → Uuid → Type 0
      Entry s j = IndexedAs j (some (s, level)) (pushed s).bids (pushed s).asks

      new_entry : (s : Side) → Entry s e.id
      new_entry buy =
          (IndexedAs-pushed level e b.bids b.asks
            (subst (λ i. IndexedAs e.id i b.bids b.asks) fresh (wf.indexed e.id))).0
      new_entry sell =
          (IndexedAs-pushed level e b.bids b.asks
            (subst (λ i. IndexedAs e.id i b.bids b.asks) fresh (wf.indexed e.id))).1

      old_entry :
          (s : Side)
          → IndexedAs k (b.order_index k) (push_level level e b.bids) b.asks
            × IndexedAs k (b.order_index k) b.bids (push_level level e b.asks)
          → IndexedAs k (b.order_index k) (pushed s).bids (pushed s).asks
      old_entry buy h = h.0
      old_entry sell h = h.1

  pushed-WellFormed :
      (side : Side) → e.side ≡ side → 0 < e.remaining_amount → WellFormed (pushed side)
  pushed-WellFormed buy s p = record {
    bids_ascend = push_level-Ascending level e b.bids wf.bids_ascend;
    asks_ascend = wf.asks_ascend;
    bids_rest =
        push_level-AllRest buy level e b.bids
          (record { at_level = refl; on_side = s; positive = p }) wf.bids_rest;
    asks_rest = wf.asks_rest;
    counted = ground (
      arith,
      wf.counted,
      push_level-occurs level level 0 e b.bids,
      count_up (orders b.bids + orders b.asks),
    );
    indexed = pushed-indexed buy;
  }
  pushed-WellFormed sell s p = record {
    bids_ascend = wf.bids_ascend;
    asks_ascend = push_level-Ascending level e b.asks wf.asks_ascend;
    bids_rest = wf.bids_rest;
    asks_rest =
        push_level-AllRest sell level e b.asks
          (record { at_level = refl; on_side = s; positive = p }) wf.asks_rest;
    counted = ground (
      arith,
      wf.counted,
      push_level-occurs level level 0 e b.asks,
      count_up (orders b.bids + orders b.asks),
    );
    indexed = pushed-indexed sell;
  }

-- Adding an order with something left keeps a book well formed.
pub add_order-WellFormed :
    (e : OrderEntry) (b : Orderbook)
    → 0 < e.remaining_amount
    → WellFormed b
    → WellFormed (add_order e b)
unfolding add_order
add_order-WellFormed e b p wf = elim (Option-cases (b.order_index e.id)) [
  | inl fresh ↦ rw fresh (pushed-WellFormed e b wf fresh e.side refl p)
  | inr (place, known) ↦ rw known wf
]

-- A side that is thinned out keeps its order and its orders their places.
module _ {levels levels' : Levels} (t : Thins levels levels') where
  Thins-keeps :
      (side : Side)
      → Ascending levels × AllRest side levels
      → Ascending levels' × AllRest side levels'
  Thins-keeps side (a, r) = (Thins-Sorted ◌<ℤ◌ t a, Thins-AllRest side t r)
