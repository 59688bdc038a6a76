-- ===== src/Spot/Place/PostOnly.antt =====
-- A post-only order is canceled at once.
use riabow_dex_backend.Prelude.{
  ℕ, ◌-◌, ◌≡◌, ◌<◌, refl, sym, ap, ◌∙◌, arith, Bool, false, Option, none, some, List, [], ◌∷◌, leb,
  Bool-cases, Option-cases, inl, inr,
}
use riabow_dex_backend.Decimals.{Decimals}
use riabow_dex_backend.Spot.Types.{
  Side, buy, sell, opposite, post_only, SpotMarket, SpotOrder, SpotTrade, PlaceOrderRequest,
  canceled, validate_price_qty,
}
use riabow_dex_backend.Spot.Ledger.{Balances, freeze, find_order, update_order}
use riabow_dex_backend.Spot.Hits.{Taken, take_levels}
use riabow_dex_backend.Spot.Book.{
  Level, OrderBook, levels_of, with_levels, remove_empty_levels, is_takeable, top_price, best_bid,
  best_ask,
}
use riabow_dex_backend.Spot.Engine.{
  SpotEngine, PlaceResult, if_placed, placed, PlaceOrderOk, fetch_order, set_status, lock_token,
  lock_amount,
}
use riabow_dex_backend.Spot.Place.{
  commit_hits, run_limit, settle_limit, place_limit, finish_limit, cancel_rest, inserted_order,
  check_limit, would_cross,
}

top_out :
    (d : Decimals) (side : Side) (price qty : ℕ) (l : Level) (levels : List Level)
    → is_takeable side (some price) l.price ≡ false
    → take_levels d side price qty (l ∷ levels)
      ≡ record { hits = []; left = l ∷ levels; taker_remaining = qty }
unfolding take_levels
top_out d side price qty l levels h = rw h refl

no_levels :
    (d : Decimals) (side : Side) (price qty : ℕ)
    → take_levels d side price qty [] ≡ record { hits = []; left = []; taker_remaining = qty }
unfolding take_levels
no_levels d side price qty = refl

abbrev beyond : Side → ℕ → Option ℕ → Bool
beyond side price none = false
beyond buy price (some a) = leb a price
beyond sell price (some b) = leb price b

apart :
    (d : Decimals) (side : Side) (price qty : ℕ) (levels : List Level)
    → beyond side price (top_price levels) ≡ false
    → take_levels d side price qty levels
      ≡ record { hits = []; left = levels; taker_remaining = qty }
unfolding is_takeable
apart d side price qty [] h = no_levels d side price qty
apart d buy price qty (l ∷ levels) h = top_out d buy price qty l levels h
apart d sell price qty (l ∷ levels) h = top_out d sell price qty l levels h

would_cross-beyond :
    (side : Side) (price : ℕ) (book : OrderBook)
    → would_cross side price book ≡ beyond side price (top_price (levels_of (opposite side) book))
unfolding would_cross best_bid best_ask opposite
would_cross-beyond buy price book = ground arith
would_cross-beyond sell price book = ground arith

checked :
    (req : PlaceOrderRequest) (market : SpotMarket) (price qty : ℕ) (book : OrderBook)
    → req.tif ≡ post_only
    → check_limit req market price qty book ≡ none
    → would_cross req.side price book ≡ false
unfolding check_limit
checked req market price qty book post passed =
    elim (Option-cases (validate_price_qty market price qty)) [
      | inl valid ↦ elim (Bool-cases (would_cross req.side price book)) [
        | inl crosses ↦ absurd (ground arith)
        | inr apart ↦ apart
      ]
      | inr (x, invalid) ↦ absurd (ground arith)
    ]

find_order-head :
    (id : ℕ) (o : SpotOrder) (orders : List SpotOrder)
    → o.id ≡ id
    → find_order id (update_order id (λ r. record r { status = canceled }) (o ∷ orders))
      ≡ some (record o { status = canceled })
unfolding find_order update_order
find_order-head id o orders same = ground arith

cancel_rest-canceled :
    (req : PlaceOrderRequest) (market : SpotMarket) (id price remaining : ℕ)
    (fills : List SpotTrade) (o : SpotOrder) (orders : List SpotOrder) (e : SpotEngine)
    → e.tables.orders ≡ o ∷ orders
    → o.id ≡ id
    → ((cancel_rest req market id price remaining fills e).0
        ≡ placed (record { order = record o { status = canceled }; fills = fills }))
      × ((cancel_rest req market id price remaining fills e).1.book ≡ e.book)
unfolding cancel_rest fetch_order set_status
cancel_rest-canceled req market id price remaining fills o orders e h same =
    ground (arith, find_order-head id o orders same)

inserted_order-id :
    (req : PlaceOrderRequest) (id price qty : ℕ) → (inserted_order req id price qty).id ≡ id
unfolding inserted_order
inserted_order-id req id price qty = refl

finish_limit-post_only :
    (req : PlaceOrderRequest) (market : SpotMarket) (id price qty remaining : ℕ)
    (fills : List SpotTrade) (e : SpotEngine)
    → req.tif ≡ post_only
    → 0 < remaining
    → finish_limit req market id price qty remaining fills e
      ≡ cancel_rest req market id price remaining fills e
unfolding finish_limit
finish_limit-post_only req market id price qty remaining fills e post positive = ground arith

with_levels-same :
    (side : Side) (book : OrderBook) → with_levels side (levels_of side book) book ≡ book
with_levels-same buy book = refl
with_levels-same sell book = refl

-- The engine with a new order in the table and another book.
abbrev with_inserted :
    (ℕ → ℕ) → PlaceOrderRequest → ℕ → ℕ → Balances → SpotEngine → OrderBook → SpotEngine
with_inserted ids req price qty balances e book = record e {
  book = remove_empty_levels book;
  tables = record e.tables {
    balances = balances;
    orders = inserted_order req (ids 0) price qty ∷ e.tables.orders;
  };
}

-- What follows the match phase, from its result.
abbrev settle_taken :
    Decimals
    → (ℕ → ℕ)
    → PlaceOrderRequest
    → SpotMarket
    → ℕ
    → ℕ
    → Balances
    → SpotEngine
    → Taken Level
    → PlaceResult PlaceOrderOk × SpotEngine
settle_taken d ids req market price qty balances e t =
    if_placed
      (commit_hits d ids req market (λ s. qty - s) t.hits 0 0 0
        (with_inserted ids req price qty balances e
          (with_levels (opposite req.side) t.left e.book)))
      (finish_limit req market (ids 0) price qty t.taker_remaining)

settle_taken-none :
    (d : Decimals) (ids : ℕ → ℕ) (req : PlaceOrderRequest) (market : SpotMarket) (price qty : ℕ)
    (balances : Balances) (e : SpotEngine)
    → settle_taken d ids req market price qty balances e
        (record { hits = []; left = levels_of (opposite req.side) e.book; taker_remaining = qty })
      ≡ finish_limit req market
          (ids 0)
          price
          qty
          qty
          []
          (with_inserted ids req price qty balances e e.book)
unfolding commit_hits
settle_taken-none d ids req market price qty balances e =
    ap
      (λ b.
        finish_limit req market (ids 0) price qty qty []
          (with_inserted ids req price qty balances e b))
      (with_levels-same (opposite req.side) e.book)

-- A post-only order that does not cross hits nothing, and its whole quantity is canceled.
settle_limit-cancel_rest :
    (d : Decimals) (ids : ℕ → ℕ) (req : PlaceOrderRequest) (market : SpotMarket) (price qty : ℕ)
    (balances : Balances) (e : SpotEngine)
    → req.tif ≡ post_only
    → 0 < qty
    → would_cross req.side price e.book ≡ false
    → settle_limit d ids req market price qty balances e
      ≡ cancel_rest req market
          (ids 0)
          price
          qty
          []
          (with_inserted ids req price qty balances e e.book)
unfolding settle_limit
settle_limit-cancel_rest d ids req market price qty balances e post positive out =
    ap (settle_taken d ids req market price qty balances e) (
      apart d req.side price qty (levels_of (opposite req.side) e.book)
        (sym (would_cross-beyond req.side price e.book) ∙ out))
    ∙ settle_taken-none d ids req market price qty balances e
    ∙ finish_limit-post_only req market (ids 0) price qty qty []
        (with_inserted ids req price qty balances e e.book) post positive

-- A post-only order of a positive quantity that is placed never rests: it is canceled without a
-- fill, and the book is the one before it, without the levels there that are empty.
pub place_limit-post_only :
    (d : Decimals) (ids : ℕ → ℕ) (req : PlaceOrderRequest) (market : SpotMarket) (e : SpotEngine)
    (qty : ℕ) (p : PlaceOrderOk)
    → req.tif ≡ post_only
    → req.quantity ≡ some qty
    → 0 < qty
    → (place_limit d ids req market e).0 ≡ placed p
    → (p.order.status ≡ canceled)
      × (p.fills ≡ [])
      × ((place_limit d ids req market e).1.book ≡ remove_empty_levels e.book)
unfolding place_limit run_limit
place_limit-post_only d ids req market e qty p post has_qty positive r =
    elim (Option-cases req.price) [
      | inl no_price ↦ absurd (ground arith)
      | inr (price, has_price) ↦ elim (Option-cases (check_limit req market price qty e.book)) [
        | inr (x, failed) ↦ absurd (ground arith)
        | inl passed ↦
            elim (Option-cases (
              freeze req.user_address (lock_token market req.side) (lock_amount req.side price qty)
                e.tables.balances)) [
                  | inl not_frozen ↦ absurd (ground arith)
                  | inr (balances, frozen) ↦ ground (
                    arith,
                    settle_limit-cancel_rest d ids req market price qty balances e post positive
                        (checked req market price qty e.book post passed),
                    cancel_rest-canceled req market (ids 0) price qty []
                        (inserted_order req (ids 0) price qty) e.tables.orders
                        (with_inserted ids req price qty balances e e.book) refl
                        (inserted_order-id req (ids 0) price qty),
                  )
                ]
      ]
    ]
