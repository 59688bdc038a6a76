-- ===== src/Matching/Engine/Submit.antt =====
-- What `submit_order` promises of the order and of the book of its symbol.
use riabow_dex_backend.Prelude.{
  ℕ, ◌+◌, ◌≡◌, ◌≤◌, ◌<◌, ◌⊎◌, inl, inr, arith, [], Bool-cases, Option-cases, Bool, true, false, not,
  Option, none, some, is_some, ◌==◌, ◌&&◌, ltb,
}
use riabow_dex_backend.Prelude.Int.{pos}
use riabow_dex_backend.Decimals.{Decimals}
use riabow_dex_backend.Matching.Types.{Uuid, filled, cancelled, fok, OrderEntry}
use riabow_dex_backend.Matching.Fill.{Taker}
use riabow_dex_backend.Matching.Fill.Index.{fill_levels-index}
use riabow_dex_backend.Matching.Fill.Amounts.{traded}
use riabow_dex_backend.Matching.Orderbook.{
  Orderbook, match_order, add_order, has_order, start_matching, opposite_levels,
}
use riabow_dex_backend.Matching.Orderbook.Match.{match_order-conserves, match_order-fill_or_kill}
use riabow_dex_backend.Matching.Orderbook.Invariant.{WellFormed, add_order-WellFormed}
use riabow_dex_backend.Matching.Orderbook.Matched.{match_order-WellFormed}
use riabow_dex_backend.Matching.Engine.{
  Submission, taker_of, filled_amount_of, place_residual, process_order, is_limit_like, is_gtc,
  fill_drift_epsilon, rest_order, rest_at, entry_of, should_be_in_book,
}

-- A limit order that is good till cancelled: what it does not get rests in the book.
abbrev pub rests : Submission → Bool
rests o = is_limit_like o.order_type && is_gtc o.time_in_force

-- An id that is not in the index does not get into it by matching.
match_order-absent :
    (d : Decimals) (t : Taker) (b : Orderbook) (k : Uuid)
    → has_order k b ≡ false
    → has_order k (match_order d t b).2 ≡ false
unfolding match_order has_order
match_order-absent d t b k h =
    ground (arith, fill_levels-index d t (pos 0) k (start_matching t b) (opposite_levels t.side b))

add_order-has_order : (e : OrderEntry) (b : Orderbook) → has_order e.id (add_order e b) ≡ true
unfolding add_order has_order
add_order-has_order e b = ground arith

-- What a fill reports: the trades and the remainder make up the amount, and the filled amount is the
-- whole amount when there is no remainder or one below the drift, and otherwise what is traded.
pub process_order-amounts :
    (d : Decimals) (o : Submission) (b : Orderbook)
    → let (result, _, _) = process_order d o b in
      (traded result.trades + result.remaining_amount ≡ o.amount)
      × (((result.remaining_amount < fill_drift_epsilon) × (result.filled_amount ≡ o.amount))
          ⊎ ((fill_drift_epsilon ≤ result.remaining_amount)
              × (result.filled_amount ≡ traded result.trades)))
unfolding process_order filled_amount_of
process_order-amounts d o b = ground (arith, match_order-conserves d (taker_of o) b)

-- The book is left alone, or the remainder or the whole order rests in it.
pub place_residual_cases :
    (P : Orderbook → Type 0) (o : Submission) (filled_amount remaining : ℕ) (b : Orderbook)
    → P b
    → (rests o ≡ true → 0 < remaining → P (rest_order o remaining b))
    → (rests o ≡ true → filled_amount ≡ 0 → P (rest_order o o.amount b))
    → P (place_residual o filled_amount remaining b).1
unfolding place_residual
place_residual_cases P o f r b same part whole = elim (Bool-cases (f == o.amount)) [
  | inl e ↦ rw e same
  | inr e ↦ elim (Bool-cases (ltb 0 f)) [
    | inl some_filled ↦ elim (Bool-cases (rests o && ltb 0 r)) [
      | inl go ↦ rw (e, some_filled, go) (part (ground arith) (ground arith))
      | inr stop ↦ rw (e, some_filled, stop) same
    ]
    | inr none_filled ↦ elim (Bool-cases (rests o)) [
      | inl go ↦ rw (e, none_filled, go) (whole go (ground arith))
      | inr stop ↦ rw (e, none_filled, stop) same
    ]
  ]
]

rest_at-WellFormed :
    (o : Submission) (remaining : ℕ) (b : Orderbook) (price : Option ℕ)
    → 0 < remaining
    → WellFormed b
    → WellFormed (rest_at o remaining b price)
rest_at-WellFormed o r b none p wf = wf
rest_at-WellFormed o r b (some q) p wf = add_order-WellFormed (entry_of o q r) b p wf

-- Submitting an order of a positive amount keeps the book well formed.
pub process_order-WellFormed :
    (d : Decimals) (o : Submission) (b : Orderbook)
    → 0 < o.amount
    → WellFormed b
    → WellFormed (process_order d o b).2
unfolding process_order
process_order-WellFormed d o b p wf =
    let (trades, remaining, b') = match_order d (taker_of o) b in
    let wf' = match_order-WellFormed d (taker_of o) b wf in
    place_residual_cases WellFormed o (filled_amount_of o.amount remaining) remaining b' wf'
      (λ _ q. rest_at-WellFormed o remaining b' o.price q wf')
      (λ _ _. rest_at-WellFormed o o.amount b' o.price p wf')

-- The input check of `submit_order` on the price passes.
abbrev pub Priced : Submission → Type 0
Priced o = (is_limit_like o.order_type && not (is_some o.price)) ≡ false

-- Whether the order is in the book, given that its id is new there after the match.
place_residual-has_order :
    (o : Submission) (remaining : ℕ) (b : Orderbook)
    → 0 < o.amount
    → remaining ≤ o.amount
    → has_order o.order_id b ≡ false
    → Priced o
    → let (status, b') = place_residual o (filled_amount_of o.amount remaining) remaining b in
      has_order o.order_id b' ≡ (rests o && should_be_in_book status)
unfolding place_residual filled_amount_of should_be_in_book
place_residual-has_order o r b p le absent valid = elim (Option-cases o.price) [
  | inl e ↦ ground arith
  | inr (q, e) ↦
      ground (
        arith,
        add_order-has_order (entry_of o q r) b,
        add_order-has_order (entry_of o q o.amount) b,
      )
]

-- A valid order of a positive amount whose id is new to the book is in the book afterwards exactly
-- if it is a limit order that is good till cancelled and its status is open or partially filled.
pub process_order-has_order :
    (d : Decimals) (o : Submission) (b : Orderbook)
    → 0 < o.amount
    → has_order o.order_id b ≡ false
    → Priced o
    → let (result, _, b') = process_order d o b in
      has_order o.order_id b' ≡ (rests o && should_be_in_book result.status)
unfolding process_order
process_order-has_order d o b p absent valid =
    let (trades, remaining, b') = match_order d (taker_of o) b in
    let h = match_order-conserves d (taker_of o) b in
    place_residual-has_order o remaining b' p (omega arith)
      (match_order-absent d (taker_of o) b o.order_id absent) valid

-- A fill-or-kill order of at least the drift is either filled, with trades of exactly its amount,
-- or it is cancelled, with no trade, and the book is as it was.
pub process_order-fill_or_kill :
    (d : Decimals) (o : Submission) (b : Orderbook)
    → fill_drift_epsilon ≤ o.amount
    → o.time_in_force ≡ fok
    → let (result, _, b') = process_order d o b in
      ((result.status ≡ filled) × (traded result.trades ≡ o.amount))
      ⊎ ((result.status ≡ cancelled) × (result.trades ≡ []) × (b' ≡ b))
unfolding process_order place_residual filled_amount_of
process_order-fill_or_kill d o b big e = ground (arith, match_order-fill_or_kill d (taker_of o) b e)
