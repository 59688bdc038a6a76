-- ===== src/Spot/Recovery/Outcomes.antt =====
-- What the recovery does to the funds and to the book.
use riabow_dex_backend.Prelude.{
  ℕ, ◌+◌, ◌-◌, ◌<◌, ◌≡◌, arith, refl, leb, not, ◌||◌, ◌==◌, Bool, true, false, Option, none, some,
  Option-cases, Bool-cases, inl, inr, List, [], ◌∷◌, if◌then◌else◌, sum_by, sum_by-append, reverse,
  sum_by-reverse,
}
use riabow_dex_backend.Prelude.Int.{ℤ}
use riabow_dex_backend.Spot.Types.{Side, buy, sell, SpotMarket, SpotOrder, RestingOrder}
use riabow_dex_backend.Spot.Book.{Level, OrderBook, new_book, add, push_level, levels_of}
use riabow_dex_backend.Spot.Ledger.{total}
use riabow_dex_backend.Spot.Settle.{Tables}
use riabow_dex_backend.Spot.Cancel.{open_rows}
use riabow_dex_backend.Spot.Cancel.Outcomes.{release-total}
use riabow_dex_backend.Spot.Recovery.{
  is_non_resting, compute_residual_lock, Recovered, cancel_on_restart, resting_of, put_resting,
  recover_rows, recover_into,
}

cancel_on_restart-total :
    (o : SpotOrder) (lock : ℕ × ℤ) (s : Recovered) (k : ℕ)
    → total k (cancel_on_restart o lock s).tables.balances ≡ total k s.tables.balances
unfolding cancel_on_restart
cancel_on_restart-total o (token, refund) s k =
    release-total o.user_address token refund k s.tables.balances

put_resting-balances :
    (r : Option RestingOrder) (s : Recovered) → (put_resting r s).tables ≡ s.tables
unfolding put_resting
put_resting-balances r s = ground arith

recover_rows-total :
    (markets : ℕ → Option SpotMarket) (rows : List SpotOrder) (s : Recovered) (k : ℕ)
    → total k (recover_rows markets rows s).1.tables.balances ≡ total k s.tables.balances
unfolding recover_rows
recover_rows-total markets [] s k = ground arith
recover_rows-total markets (o ∷ rows) s k = elim (Option-cases (compute_residual_lock markets o)) [
  | inl failed ↦ ground (
    arith,
    recover_rows-total markets rows (put_resting (resting_of o s.ts) s) k,
    put_resting-balances (resting_of o s.ts) s,
  )
  | inr (lock, found) ↦ ground (
    arith,
    recover_rows-total markets rows (put_resting (resting_of o s.ts) s) k,
    put_resting-balances (resting_of o s.ts) s,
    recover_rows-total markets rows (cancel_on_restart o lock s) k,
    cancel_on_restart-total o lock s k,
  )
]

-- What an order rests with on a side of the book, by its row: what is not filled of a limit order that
-- is not IOC.
abbrev pub same_side : Side → Side → Bool
same_side buy buy = true
same_side sell sell = true
same_side buy sell = false
same_side sell buy = false

-- A weight of an order by its id, its user, its price and what it has left.
abbrev Weight : Type 0
Weight = ℕ → ℕ → ℕ → ℕ → ℕ

abbrev pub rests_for : Weight → Side → SpotOrder → ℕ
rests_for w side o = if is_non_resting o || not (same_side side o.side) then 0 else elim o.price [
  | none ↦ 0
  | some price ↦ elim o.quantity [
    | none ↦ 0
    | some q ↦ if leb q o.filled_qty then 0 else w o.id o.user_address price (q - o.filled_qty)
  ]
]

-- The orders of a side, each at the price of its level.
abbrev pub rested : Weight → List Level → ℕ
rested w levels =
    sum_by (λ l. sum_by (λ o. w o.id o.user_address l.price o.remaining_qty) l.orders) levels

push_level-rested :
    (w : Weight) (o : RestingOrder) (levels : List Level)
    → rested w (push_level o levels)
      ≡ w o.id o.user_address o.price o.remaining_qty + rested w levels
unfolding push_level
push_level-rested w o [] = ground arith
push_level-rested w o (l ∷ levels) = ground (
  arith,
  push_level-rested w o levels,
  sum_by-append (λ r. w r.id r.user_address l.price r.remaining_qty) l.orders (o ∷ []),
)

add-rested :
    (w : Weight) (side : Side) (o : RestingOrder) (book : OrderBook)
    → rested w (levels_of side (add o book))
      ≡ (if same_side side o.side then w o.id o.user_address o.price o.remaining_qty else 0)
        + rested w (levels_of side book)
unfolding add
add-rested w buy o book = ground (arith, push_level-rested w o (levels_of o.side book))
add-rested w sell o book = ground (arith, push_level-rested w o (levels_of o.side book))

put_resting-rested :
    (w : Weight) (side : Side) (o : SpotOrder) (s : Recovered)
    → is_non_resting o ≡ false
    → rested w (levels_of side (put_resting (resting_of o s.ts) s).book)
      ≡ rests_for w side o + rested w (levels_of side s.book)
unfolding put_resting resting_of
put_resting-rested w side o s h = elim (Option-cases o.price) [
  | inl no_price ↦ ground arith
  | inr (price, has_price) ↦ elim (Option-cases o.quantity) [
    | inl no_qty ↦ ground arith
    | inr (q, has_qty) ↦ elim (Bool-cases (leb q o.filled_qty)) [
      | inl filled ↦ ground arith
      | inr rests ↦ ground (
        arith,
        add-rested w side
            (record {
              id = o.id;
              user_address = o.user_address;
              side = o.side;
              price = price;
              original_qty = q;
              remaining_qty = q - o.filled_qty;
              ts_ns = s.ts;
            })
            s.book,
      )
    ]
  ]
]

cancel_on_restart-book :
    (o : SpotOrder) (lock : ℕ × ℤ) (s : Recovered) → (cancel_on_restart o lock s).book ≡ s.book
unfolding cancel_on_restart
cancel_on_restart-book o (token, refund) s = refl

recover_rows-rested :
    (w : Weight) (markets : ℕ → Option SpotMarket) (rows : List SpotOrder) (s : Recovered)
    (side : Side)
    → (recover_rows markets rows s).0 ≡ true
    → rested w (levels_of side (recover_rows markets rows s).1.book)
      ≡ sum_by (rests_for w side) rows + rested w (levels_of side s.book)
unfolding recover_rows
recover_rows-rested w markets [] s side done = ground arith
recover_rows-rested w markets (o ∷ rows) s side done = elim (Bool-cases (is_non_resting o)) [
  | inr rests ↦ ground (
    arith,
    put_resting-rested w side o s rests,
    recover_rows-rested w markets rows (put_resting (resting_of o s.ts) s) side,
  )
  | inl cancels ↦ elim (Option-cases (compute_residual_lock markets o)) [
    | inl failed ↦ absurd (ground arith)
    | inr (lock, found) ↦ ground (
      arith,
      cancel_on_restart-book o lock s,
      recover_rows-rested w markets rows (cancel_on_restart o lock s) side,
    )
  ]
]

empty_sides : (w : Weight) (side : Side) → rested w (levels_of side new_book) ≡ 0
unfolding new_book
empty_sides w buy = refl
empty_sides w sell = refl

-- 1 for an order that has to be cancelled and whose lock is not known.
abbrev pub stuck : (ℕ → Option SpotMarket) → SpotOrder → ℕ
stuck markets o =
    if is_non_resting o
    then (elim (compute_residual_lock markets o) [ none ↦ 1 | some lock ↦ 0 ])
    else 0

recover_rows-stuck :
    (markets : ℕ → Option SpotMarket) (rows : List SpotOrder) (s : Recovered)
    → (recover_rows markets rows s).0 ≡ (sum_by (stuck markets) rows == 0)
unfolding recover_rows
recover_rows-stuck markets [] s = refl
recover_rows-stuck markets (o ∷ rows) s = elim (Bool-cases (is_non_resting o)) [
  | inr rests ↦ ground (arith, recover_rows-stuck markets rows (put_resting (resting_of o s.ts) s))
  | inl cancels ↦ elim (Option-cases (compute_residual_lock markets o)) [
    | inl failed ↦ ground arith
    | inr (lock, found) ↦
        ground (arith, recover_rows-stuck markets rows (cancel_on_restart o lock s))
  ]
]

-- A recovery fails for an order whose lock is not known, or a side of its book has the orders that rest.
abbrev pub Restores :
    Weight → (ℕ → Option SpotMarket) → Side → List SpotOrder → Bool × Recovered → Type 0
Restores w markets side rows (false, s) = 0 < sum_by (stuck markets) rows
Restores w markets side rows (true, s) =
    (sum_by (stuck markets) rows ≡ 0)
    × (rested w (levels_of side s.book) ≡ sum_by (rests_for w side) rows)

by_success :
    (w : Weight) (markets : ℕ → Option SpotMarket) (side : Side) (rows : List SpotOrder)
    (done : Bool) (s : Recovered)
    → done ≡ (sum_by (stuck markets) rows == 0)
    → (done ≡ true → rested w (levels_of side s.book) ≡ sum_by (rests_for w side) rows)
    → Restores w markets side rows (done, s)
by_success w markets side rows true s known h = (ground (arith, known), h refl)
by_success w markets side rows false s known h = ground (arith, known)

-- A recovery of the book that succeeds restores what rests: each side of the book has exactly the
-- market's open limit orders on that side that are not IOC and of which something is left, each once, at
-- its price and with its user and what is left; for any weight of these data, the sums are the same.
-- It fails exactly when an open order of the market that does not rest has no known lock. Whether it
-- succeeds or not, it neither makes nor loses funds.
pub recover_into-Restores :
    (w : ℕ → ℕ → ℕ → ℕ → ℕ) (markets : ℕ → Option SpotMarket) (m : ℕ) (tables : Tables)
    (side : Side) (k : ℕ)
    → Restores w markets side
        (open_rows (λ o. o.market_id == m) tables.orders)
        (recover_into markets m new_book tables)
      × (total k (recover_into markets m new_book tables).1.tables.balances
          ≡ total k tables.balances)
unfolding recover_into new_book
recover_into-Restores w markets m tables side k =
    let rows = open_rows (λ o. o.market_id == m) tables.orders in
    let start : Recovered = record { book = new_book; tables = tables; ts = 1 } in
    let result = recover_rows markets (reverse rows) start in
    (
      by_success w markets side rows result.0 result.1
          (ground (
            arith,
            recover_rows-stuck markets (reverse rows) start,
            sum_by-reverse (stuck markets) rows,
          ))
          (λ done. ground (
            arith,
            recover_rows-rested w markets (reverse rows) start side done,
            sum_by-reverse (rests_for w side) rows,
            empty_sides w side,
          )),
      recover_rows-total markets (reverse rows) start k,
    )
