-- ===== src/Spot/Cancel/Outcomes.antt =====
-- What a cancel does to the funds and to the order.
use riabow_dex_backend.Prelude.{
  ℕ, ◌≡◌, ◌⊎◌, refl, ap, sym, subst, ◌∙◌, arith, Bool-cases, Option-cases, Option, none, some, List,
  [], ◌∷◌, inl, inr, ◌==◌,
}
use riabow_dex_backend.Prelude.Int.{ℤ, pos, ◌+ℤ◌, ◌-ℤ◌, int_laws}
use riabow_dex_backend.Spot.Types.{
  canceled, is_terminal, SpotMarket, SpotOrder, CancelError, not_found, forbidden,
}
use riabow_dex_backend.Spot.Ledger.{
  Balances, adjust, adjust-total, add_zero, total, Orders, find_order, update_order,
}
use riabow_dex_backend.Spot.Engine.{SpotEngine, lock_token, set_status}
use riabow_dex_backend.Spot.Place.Safety.{held}
use riabow_dex_backend.Spot.Cancel.{
  CancelResult, canceled_row, cancel_error, panicked, refund_of, release, release_order,
  announce_cancel, handle_cancel, cancel_rows, handle_cancel_all, handle_cancel_market,
}

nothing_left : (x : ℤ) → x +ℤ (pos 0 -ℤ x) ≡ pos 0
nothing_left x = omega int_laws

pub release-total :
    (user token : ℕ) (amount : ℤ) (k : ℕ) (rows : Balances)
    → total k (release user token amount rows) ≡ total k rows
unfolding release
release-total user token x k rows = elim (Option-cases (adjust user token x (pos 0 -ℤ x) rows)) [
  | inl missing ↦ ground arith
  | inr (rest, found) ↦ ground (
    arith,
    adjust-total user token x (pos 0 -ℤ x) k rows rest found,
    nothing_left x,
    add_zero (total k rows),
  )
]

release_order-held :
    (market : SpotMarket) (o : SpotOrder) (user : ℕ) (e : SpotEngine) (k : ℕ)
    → held k (release_order market o user e) ≡ held k e
unfolding release_order set_status
release_order-held market o user e k =
    release-total user (lock_token market o.side) (refund_of o) k e.tables.balances

announce_cancel-held :
    (o : SpotOrder) (e : SpotEngine) (k : ℕ) → held k (announce_cancel o e).1 ≡ held k e
unfolding announce_cancel
announce_cancel-held o e k = ground arith

find_order-id :
    (id : ℕ) (orders : Orders) (o : SpotOrder) → find_order id orders ≡ some o → o.id ≡ id
unfolding find_order
find_order-id id [] o h = absurd (ground arith)
find_order-id id (x ∷ orders) o h = ground (arith, find_order-id id orders o)

find_order-updated :
    (id : ℕ) (orders : Orders) (o : SpotOrder)
    → find_order id orders ≡ some o
    → find_order id (update_order id (λ r. record r { status = canceled }) orders)
      ≡ some (record o { status = canceled })
unfolding find_order update_order
find_order-updated id [] o h = absurd (ground arith)
find_order-updated id (x ∷ orders) o h = ground (arith, find_order-updated id orders o)

-- Cancelled rows in the table of orders.
release_order-find :
    (market : SpotMarket) (o : SpotOrder) (id user : ℕ) (e : SpotEngine)
    → find_order id e.tables.orders ≡ some o
    → find_order o.id (release_order market o user e).tables.orders
      ≡ some (record o { status = canceled })
unfolding release_order set_status
release_order-find market o id user e h =
    let same = find_order-id id e.tables.orders o h in
    find_order-updated o.id e.tables.orders o (ap (λ i. find_order i e.tables.orders) same ∙ h)

-- A cancel changes nothing, or it releases the order and announces its row.
handle_cancel-cases :
    (markets : ℕ → Option SpotMarket) (id user : ℕ) (e : SpotEngine)
    → ((x : CancelError) × (handle_cancel markets id user e ≡ (cancel_error x, e)))
      ⊎ ((o : SpotOrder) × (market : SpotMarket) × (find_order id e.tables.orders ≡ some o)
          × (o.user_address ≡ user)
          × (handle_cancel markets id user e
              ≡ announce_cancel (record o { status = canceled }) (release_order market o user e)))
unfolding handle_cancel
handle_cancel-cases markets id user e = elim (Option-cases (find_order id e.tables.orders)) [
  | inl none_found ↦ inl (not_found, ground arith)
  | inr (o, found) ↦ elim (Bool-cases (o.user_address == user)) [
    | inr other ↦ inl (forbidden, ground arith)
    | inl own ↦ elim (Bool-cases (is_terminal o.status)) [
      | inl terminal ↦ inl (not_found, ground arith)
      | inr pending ↦ elim (Option-cases (markets o.market_id)) [
        | inl no_market ↦ inl (CancelError.db, ground arith)
        | inr (market, has_market) ↦ inr (
          o,
          market,
          found,
          ground arith,
          ground (arith, release_order-find market o id user e found),
        )
      ]
    ]
  ]
]

pub handle_cancel-held :
    (markets : ℕ → Option SpotMarket) (id user : ℕ) (e : SpotEngine) (k : ℕ)
    → held k (handle_cancel markets id user e).1 ≡ held k e
handle_cancel-held markets id user e k = elim (handle_cancel-cases markets id user e) [
  | inl (x, failed) ↦ ap (λ r. held k r.1) failed
  | inr (o, market, found, own, done) ↦
      ap (λ r. held k r.1) done
      ∙ announce_cancel-held (record o { status = canceled }) (release_order market o user e) k
      ∙ release_order-held market o user e k
]

cancel_rows-held :
    (markets : ℕ → Option SpotMarket) (rows : List SpotOrder) (e : SpotEngine) (k : ℕ)
    → held k (cancel_rows markets rows e).1 ≡ held k e
unfolding cancel_rows
cancel_rows-held markets [] e k = refl
cancel_rows-held markets (o ∷ rows) e k = ground (
  arith,
  handle_cancel-held markets o.id o.user_address e k,
  cancel_rows-held markets rows (handle_cancel markets o.id o.user_address e).1 k,
)

-- Cancelling neither makes nor loses funds: for each token, what all accounts hold of it, available
-- or frozen, is the same after all orders of a user are canceled, in one market or in all, and
-- after all orders of a market are, whether single cancels fail or not.
pub handle_cancel_all-held :
    (markets : ℕ → Option SpotMarket) (user : ℕ) (market : Option ℕ) (m : ℕ) (e : SpotEngine)
    (k : ℕ)
    → (held k (handle_cancel_all markets user market e).1 ≡ held k e)
      × (held k (handle_cancel_market markets m e).1 ≡ held k e)
unfolding handle_cancel_all handle_cancel_market
handle_cancel_all-held markets user market m e k =
    (cancel_rows-held markets _ e k, cancel_rows-held markets _ e k)

-- What a cancel by a user answers, and what it leaves.
abbrev pub Answers :
    (ℕ → Option SpotMarket) → ℕ → ℕ → SpotEngine → CancelResult × SpotEngine → Type 0
Answers markets id user e (cancel_error x, e') = e' ≡ e
Answers markets id user e (canceled_row c, e') =
    (c.user_address ≡ user) × (c.status ≡ canceled) × (find_order id e'.tables.orders ≡ some c)
Answers markets id user e (panicked, e') =
    (o : SpotOrder) × (find_order id e.tables.orders ≡ some o) × (o.price ≡ none)

announce_cancel-Answers :
    (markets : ℕ → Option SpotMarket) (id user : ℕ) (e : SpotEngine) (market : SpotMarket)
    (o : SpotOrder)
    → find_order id e.tables.orders ≡ some o
    → o.user_address ≡ user
    → Answers markets id user e
        (announce_cancel (record o { status = canceled }) (release_order market o user e))
unfolding announce_cancel
announce_cancel-Answers markets id user e market o found own = elim (Option-cases o.price) [
  | inl no_price ↦ rw no_price (o, found, no_price)
  | inr (price, has_price) ↦ rw has_price (
    own,
    refl,
    ap (λ i. find_order i (release_order market o user e).tables.orders)
          (sym (find_order-id id e.tables.orders o found))
        ∙ release_order-find market o id user e found,
  )
]

-- A cancel that fails leaves everything as it was; one that succeeds gives a row of the user that is
-- canceled and is the row of that id in the table; and the task panics only on an order
-- without a price.
pub handle_cancel-Answers :
    (markets : ℕ → Option SpotMarket) (id user : ℕ) (e : SpotEngine)
    → Answers markets id user e (handle_cancel markets id user e)
handle_cancel-Answers markets id user e = elim (handle_cancel-cases markets id user e) [
  | inl (x, failed) ↦ subst (Answers markets id user e) (sym failed) refl
  | inr (o, market, found, own, done) ↦
      subst (Answers markets id user e) (sym done)
        (announce_cancel-Answers markets id user e market o found own)
]
