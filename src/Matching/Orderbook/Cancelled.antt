-- ===== src/Matching/Orderbook/Cancelled.antt =====
-- Cancelling an order of a well-formed book.
use riabow_dex_backend.Prelude.{
  ◌+◌, ◌≡◌, inl, inr, refl, arith, Bool-cases, Option-cases, true, false, Option, none, some, ◌==◌,
  subst,
}
use riabow_dex_backend.Prelude.Int.{pos, ◌-ℤ◌, ◌<ℤ◌, -ℤ_parts, eq_of_parts}
use riabow_dex_backend.Matching.Types.{Uuid, PriceLevel, Side, buy, sell, OrderEntry}
use riabow_dex_backend.Matching.Fill.{Levels, index_remove}
use riabow_dex_backend.Matching.Levels.{remove_at, scan_levels}
use riabow_dex_backend.Matching.Levels.Occurrences.{
  occurs_in, hit, remove_at-Removes, Removes, scan_levels-Scans,
}
use riabow_dex_backend.Matching.Levels.Thins.{
  Thins, ThinsTo, Thins-AllRest, Thins-Sorted, remove_at-Thins,
}
use riabow_dex_backend.Matching.Orderbook.{
  Orderbook, cancel_order, has_order, resting, with_resting, bid_depth, ask_depth,
}
use riabow_dex_backend.Matching.Orderbook.Invariant.{WellFormed, IndexedAs}

-- The index and the places of the ids, once one occurrence of `id` is gone from the place that the
-- index gave for it.
IndexedAs-remove :
    (k id : Uuid) (i : Option (Side × PriceLevel)) (l : PriceLevel) (e : OrderEntry)
    → (bids asks r : Levels) → IndexedAs k i bids asks
    → (hit id k ≡ 0
        → ((n : PriceLevel) → Removes l n id k bids (some (e, r)))
        → IndexedAs k i r asks)
      × (hit id k ≡ 0
          → ((n : PriceLevel) → Removes l n id k asks (some (e, r)))
          → IndexedAs k i bids r)
IndexedAs-remove k id none l e bids asks r h =
    (λ n f. ground (arith, f (pos 0)), λ n f. ground (arith, f (pos 0)))
IndexedAs-remove k id (some (buy, m)) l e bids asks r h =
    (λ n f. ground (arith, f m), λ n f. ground (arith, f m))
IndexedAs-remove k id (some (sell, m)) l e bids asks r h =
    (λ n f. ground (arith, f m), λ n f. ground (arith, f m))

-- The book without an order that the index places at a level of a side.
abbrev pub cancelled : Side → Uuid → Levels → Orderbook → Orderbook
cancelled side id r b = record (with_resting side r b) {
  order_index = index_remove id b.order_index;
  order_count = b.order_count -ℤ pos 1;
}

module _ (id : Uuid) (b : Orderbook) (wf : WellFormed b) (l : PriceLevel) (e : OrderEntry)
    (r : Levels) where
  cancelled-WellFormed :
      (side : Side)
      → b.order_index id ≡ some (side, l)
      → remove_at l id (resting side b) ≡ some (e, r)
      → WellFormed (cancelled side id r b)
  cancelled-WellFormed buy at_place found = record {
    bids_ascend = Thins-Sorted ◌<ℤ◌ thins wf.bids_ascend;
    asks_ascend = wf.asks_ascend;
    bids_rest = Thins-AllRest buy thins wf.bids_rest;
    asks_rest = wf.asks_rest;
    counted =
        eq_of_parts _ _ (ground (arith, wf.counted, removes l 0, -ℤ_parts b.order_count (pos 1)));
    indexed = λ k. elim (Bool-cases (k == id)) [
      | inl gone ↦
          let at_id : k ≡ id = ground arith in
          let here : IndexedAs id (some (buy, l)) b.bids b.asks =
            subst (λ i. IndexedAs id i b.bids b.asks) at_place (wf.indexed id) in
          rw gone (ground (arith, here, removes l k))
      | inr other ↦
          let apart : hit id k ≡ 0 = ground arith in
          rw other (
            (IndexedAs-remove k id (b.order_index k) l e b.bids b.asks r (wf.indexed k)).0 apart
              (λ n. removes n k))
    ];
  }
    where
      thins : Thins b.bids r
      thins = subst (ThinsTo b.bids) found (remove_at-Thins l id b.bids)

      removes : (n : PriceLevel) (k : Uuid) → Removes l n id k b.bids (some (e, r))
      removes n k =
          subst (Removes l n id k b.bids) found (remove_at-Removes l n id k b.bids wf.bids_ascend)
  cancelled-WellFormed sell at_place found = record {
    bids_ascend = wf.bids_ascend;
    asks_ascend = Thins-Sorted ◌<ℤ◌ thins wf.asks_ascend;
    bids_rest = wf.bids_rest;
    asks_rest = Thins-AllRest sell thins wf.asks_rest;
    counted =
        eq_of_parts _ _ (ground (arith, wf.counted, removes l 0, -ℤ_parts b.order_count (pos 1)));
    indexed = λ k. elim (Bool-cases (k == id)) [
      | inl gone ↦
          let at_id : k ≡ id = ground arith in
          let here : IndexedAs id (some (sell, l)) b.bids b.asks =
            subst (λ i. IndexedAs id i b.bids b.asks) at_place (wf.indexed id) in
          rw gone (ground (arith, here, removes l k))
      | inr other ↦
          let apart : hit id k ≡ 0 = ground arith in
          rw other (
            (IndexedAs-remove k id (b.order_index k) l e b.bids b.asks r (wf.indexed k)).1 apart
              (λ n. removes n k))
    ];
  }
    where
      thins : Thins b.asks r
      thins = subst (ThinsTo b.asks) found (remove_at-Thins l id b.asks)

      removes : (n : PriceLevel) (k : Uuid) → Removes l n id k b.asks (some (e, r))
      removes n k =
          subst (Removes l n id k b.asks) found (remove_at-Removes l n id k b.asks wf.asks_ascend)

-- What `cancel_order` gives on a well-formed book: the order with that id, out of the book, with
-- all that the order had left; or nothing, and the book as it was, if the index has no such id.
abbrev pub Cancels : Uuid → Orderbook → Option OrderEntry × Orderbook → Type 0
Cancels id b (none, b') = (has_order id b ≡ false) × (b' ≡ b)
Cancels id b (some e, b') =
    (has_order id b ≡ true)
    × (e.id ≡ id)
    × (has_order id b' ≡ false)
    × (bid_depth b + ask_depth b ≡ e.remaining_amount + bid_depth b' + ask_depth b')

-- No order is missing from the index of a well-formed book.
scan_levels-none :
    (id : Uuid) (levels : Levels) → occurs_in id levels ≡ 0 → scan_levels id levels ≡ none
scan_levels-none id levels h = ground (arith, scan_levels-Scans id id levels)

pub cancel_orphan-none :
    (id : Uuid) (b : Orderbook)
    → WellFormed b
    → b.order_index id ≡ none
    → cancel_order id b ≡ (none, b)
unfolding cancel_order
cancel_orphan-none id b wf absent =
    let nowhere : IndexedAs id none b.bids b.asks =
      subst (λ i. IndexedAs id i b.bids b.asks) absent (wf.indexed id) in
    ground (arith, scan_levels-none id b.bids, scan_levels-none id b.asks)

module _ (id : Uuid) (b : Orderbook) (wf : WellFormed b) (l : PriceLevel) where
  -- The order is where the index says it is.
  remove_at-found :
      (side : Side)
      → b.order_index id ≡ some (side, l)
      → (r : OrderEntry × Levels) × (remove_at l id (resting side b) ≡ some r)
  remove_at-found side at_place = elim (Option-cases (remove_at l id (resting side b))) [
    | inl missing ↦ absurd (nowhere side at_place missing)
    | inr found ↦ found
  ]
    where
      nowhere :
          (s : Side) → b.order_index id ≡ some (s, l) → remove_at l id (resting s b) ≡ none → ⊥
      nowhere buy p m =
          let here : IndexedAs id (some (buy, l)) b.bids b.asks =
            subst (λ i. IndexedAs id i b.bids b.asks) p (wf.indexed id) in
          ground (arith, here, remove_at-Removes l l id id b.bids wf.bids_ascend)
      nowhere sell p m =
          let here : IndexedAs id (some (sell, l)) b.bids b.asks =
            subst (λ i. IndexedAs id i b.bids b.asks) p (wf.indexed id) in
          ground (arith, here, remove_at-Removes l l id id b.asks wf.asks_ascend)

  -- The fast path of `cancel_order`.
  pub cancel_order-found :
      (side : Side) (e : OrderEntry) (r : Levels)
      → b.order_index id ≡ some (side, l)
      → remove_at l id (resting side b) ≡ some (e, r)
      → cancel_order id b ≡ (some e, cancelled side id r b)
  unfolding cancel_order
  cancel_order-found buy e r at_place found = ground arith
  cancel_order-found sell e r at_place found = ground arith

  cancelled-Cancels :
      (side : Side) (e : OrderEntry) (r : Levels)
      → b.order_index id ≡ some (side, l)
      → remove_at l id (resting side b) ≡ some (e, r)
      → Cancels id b (some e, cancelled side id r b)
  unfolding has_order bid_depth ask_depth
  cancelled-Cancels buy e r at_place found = ground (
    arith,
    subst (Removes l l id id b.bids) found (remove_at-Removes l l id id b.bids wf.bids_ascend),
  )
  cancelled-Cancels sell e r at_place found = ground (
    arith,
    subst (Removes l l id id b.asks) found (remove_at-Removes l l id id b.asks wf.asks_ascend),
  )

-- Cancelling keeps a book well formed. It gives the order with that id and takes it, with all that
-- it has left, out of the book and the index, if the index has the id; otherwise it gives nothing
-- and changes nothing.
pub cancel_order-Cancels :
    (id : Uuid) (b : Orderbook)
    → WellFormed b
    → WellFormed (cancel_order id b).1 × Cancels id b (cancel_order id b)
unfolding has_order
cancel_order-Cancels id b wf = elim (Option-cases (b.order_index id)) [
  | inl absent ↦ rw (cancel_orphan-none id b wf absent) (wf, (rw absent refl, refl))
  | inr ((side, l), at_place) ↦
      let ((e, r), found) = remove_at-found id b wf l side at_place in
      rw (cancel_order-found id b wf l side e r at_place found) (
        cancelled-WellFormed id b wf l e r side at_place found,
        cancelled-Cancels id b wf l side e r at_place found,
      )
]
