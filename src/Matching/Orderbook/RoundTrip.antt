-- ===== src/Matching/Orderbook/RoundTrip.antt =====
-- Cancelling after adding, and cancelling twice.
use riabow_dex_backend.Prelude.{
  ◌≡◌, inl, inr, refl, sym, ap, arith, [], ◌∷◌, ◌++◌, Bool-cases, false, Option, none, some,
  is_some, ◌==◌, subst, ◌∙◌,
}
use riabow_dex_backend.Prelude.Int.{ℤ, pos, ◌-ℤ◌, ◌+ℤ◌, int_laws}
use riabow_dex_backend.Matching.Types.{Uuid, PriceLevel, Side, buy, sell, OrderEntry, from_decimal}
use riabow_dex_backend.Matching.Fill.{Queue, Levels, OrderIndex, index_remove, index_insert}
use riabow_dex_backend.Matching.Levels.{remove_at, push_level, take_order}
use riabow_dex_backend.Matching.Levels.Occurrences.{occurs_in, occurs}
use riabow_dex_backend.Matching.Levels.Thins.{AllRest}
use riabow_dex_backend.Matching.Orderbook.{
  Orderbook, add_order, cancel_order, has_order, resting, with_resting,
}
use riabow_dex_backend.Matching.Orderbook.Invariant.{WellFormed, IndexedAs}
use riabow_dex_backend.Matching.Orderbook.Cancelled.{
  cancel_orphan-none, cancel_order-Cancels, Cancels, cancelled,
}
use mathlib.Core.Path.{fun_ext}

none-of-is_some : {A : Type 0} (o : Option A) → is_some o ≡ false → o ≡ none
none-of-is_some none h = refl
none-of-is_some (some a) h = absurd (cc)

cancelled-absent :
    (id : Uuid) (b : Orderbook) (o : Option OrderEntry) (b' : Orderbook)
    → Cancels id b (o, b')
    → has_order id b' ≡ false
cancelled-absent id b none b' h = rw (h.1) (h.0)
cancelled-absent id b (some e) b' h = h.2

-- After a cancel, a second cancel of the same id finds nothing and changes nothing.
pub cancel_order_twice :
    (id : Uuid) (b : Orderbook)
    → WellFormed b
    → cancel_order id (cancel_order id b).1 ≡ (none, (cancel_order id b).1)
unfolding has_order
cancel_order_twice id b wf =
    let h = cancel_order-Cancels id b wf in
    let (o, b') = cancel_order id b in
    cancel_orphan-none id b' h.0
      (none-of-is_some (b'.order_index id) (cancelled-absent id b o b' h.1))

take_order-append :
    (e : OrderEntry) (q : Queue) → occurs e.id q ≡ 0 → take_order e.id (q ++ e ∷ []) ≡ some (e, q)
unfolding take_order
take_order-append e [] h = ground arith
take_order-append e (o ∷ q) h = ground (arith, take_order-append e q)

-- A removal at its level undoes the push of an order.
remove_at-push_level :
    (side : Side) (l : PriceLevel) (e : OrderEntry) (levels : Levels)
    → AllRest side levels
    → occurs_in e.id levels ≡ 0
    → remove_at l e.id (push_level l e levels) ≡ some (e, levels)
unfolding remove_at push_level
remove_at-push_level side l e [] a h = ground arith
remove_at-push_level side l e ((k, []) ∷ levels) a h = absurd a.0
remove_at-push_level side l e ((k, o ∷ q) ∷ levels) a h = ground (
  arith,
  take_order-append e (o ∷ q),
  take_order-append e [],
  remove_at-push_level side l e levels a.1,
)

index_remove-index_insert :
    (id : Uuid) (v : Side × PriceLevel) (index : OrderIndex)
    → index id ≡ none
    → index_remove id (index_insert id v index) ≡ index
index_remove-index_insert id v index h = fun_ext λ k. elim (Bool-cases (k == id)) [
  | inl e ↦ let at_id : k ≡ id = ground arith in rw e (sym (ap index at_id ∙ h))
  | inr e ↦ rw e refl
]

count_down : (c : ℤ) → c +ℤ pos 1 -ℤ pos 1 ≡ c
count_down c = omega int_laws

module _ (e : OrderEntry) (b : Orderbook) (fresh : b.order_index e.id ≡ none) where
  abbrev added : Side → Levels → Orderbook
  added side levels = record (with_resting side levels b) {
    order_index = index_insert e.id (side, from_decimal e.price) b.order_index;
    order_count = b.order_count +ℤ pos 1;
  }

  cancelled-added :
      (side : Side) (levels : Levels) → cancelled side e.id (resting side b) (added side levels) ≡ b
  cancelled-added buy levels = λ i. record b {
    order_index = index_remove-index_insert e.id (buy, from_decimal e.price) b.order_index fresh i;
    order_count = count_down b.order_count i;
  }
  cancelled-added sell levels = λ i. record b {
    order_index = index_remove-index_insert e.id (sell, from_decimal e.price) b.order_index fresh i;
    order_count = count_down b.order_count i;
  }

  add_order-added :
      add_order e b ≡ added e.side (push_level (from_decimal e.price) e (resting e.side b))
  unfolding add_order
  add_order-added = rw fresh refl

  cancel_order-added :
      (side : Side) (levels : Levels)
      → remove_at (from_decimal e.price) e.id levels ≡ some (e, resting side b)
      → cancel_order e.id (added side levels)
        ≡ (some e, cancelled side e.id (resting side b) (added side levels))
  unfolding cancel_order
  cancel_order-added buy levels h = ground arith
  cancel_order-added sell levels h = ground arith

-- Cancelling an order that has just been added to a well-formed book without it gives the order
-- back and restores the book, its queues, its index and its count.
pub cancel_order-add_order :
    (e : OrderEntry) (b : Orderbook)
    → WellFormed b
    → has_order e.id b ≡ false
    → cancel_order e.id (add_order e b) ≡ (some e, b)
unfolding has_order
cancel_order-add_order e b wf absent =
    let fresh = none-of-is_some (b.order_index e.id) absent in
    rw (add_order-added e b fresh) (
      cancel_order-added e b fresh e.side _ (found e.side fresh)
      ∙ ap (λ (x : Orderbook). (some e, x)) (cancelled-added e b fresh e.side _))
  where
    found :
        (side : Side)
        → b.order_index e.id ≡ none
        → remove_at
            (from_decimal e.price)
            e.id
            (push_level (from_decimal e.price) e (resting side b))
          ≡ some (e, resting side b)
    found buy fresh =
        let h : IndexedAs e.id none b.bids b.asks =
          subst (λ i. IndexedAs e.id i b.bids b.asks) fresh (wf.indexed e.id) in
        remove_at-push_level buy (from_decimal e.price) e b.bids wf.bids_rest (omega arith)
    found sell fresh =
        let h : IndexedAs e.id none b.bids b.asks =
          subst (λ i. IndexedAs e.id i b.bids b.asks) fresh (wf.indexed e.id) in
        remove_at-push_level sell (from_decimal e.price) e b.asks wf.asks_rest (omega arith)
