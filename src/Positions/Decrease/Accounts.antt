-- ===== src/Positions/Decrease/Accounts.antt =====
-- What a decrease pays and what it takes, to the last unit.
use riabow_dex_backend.Prelude.{
  ℕ, ◌≡◌, ◌≢◌, ◌⊎◌, arith, refl, Option, some, inl, inr, List, [], ◌∷◌, ◌++◌, ap, sym, ◌∙◌, subst,
}
use riabow_dex_backend.Prelude.Int.{
  ℤ, pos, ◌+ℤ◌, ◌-ℤ◌, ◌≤ℤ◌, int_laws, +ℤ_parts, -ℤ_parts, eq_of_parts,
}
use riabow_dex_backend.DecimalOps.{DecimalOps, DecimalLaws, safe_div_or, max_ℤ}
use riabow_dex_backend.Positions.Types.{Position, PositionConfig, DecreasePositionResult, done}
use riabow_dex_backend.Positions.Store.{PositionStore, FeeEvent, record_fee_event, find_position}
use riabow_dex_backend.Positions.Store.Rows.{some_injective}
use riabow_dex_backend.Positions.Decrease.{
  Portion, Close, close_ratio_of, portion_of, close_of, full_close, partial_close, close_size_of,
  closed_position, reduced_position, record_close_ledger, apply_close, decrease_result,
  decrease_position, total_fees,
}
use riabow_dex_backend.Positions.Decrease.Remains.{
  close_of-cases, decrease_position-cases, find_position-apply_close,
}

-- The sum of the rows of the ledger.
abbrev pub ledger_total : List FeeEvent → ℤ
ledger_total [] = pos 0
ledger_total (e ∷ es) = e.amount +ℤ ledger_total es

ledger-snoc :
    (ledger : List FeeEvent) (e : FeeEvent)
    → ledger_total (ledger ++ (e ∷ [])) ≡ ledger_total ledger +ℤ e.amount
ledger-snoc [] e = grind int_laws
ledger-snoc (x ∷ ledger) e = grind (int_laws, ledger-snoc ledger e)

record_fee_event-total :
    (e : FeeEvent) (ledger : List FeeEvent)
    → ledger_total (record_fee_event e ledger) ≡ ledger_total ledger +ℤ e.amount
unfolding record_fee_event
record_fee_event-total e ledger = grind (int_laws, ledger-snoc ledger e)

-- What leaves the position and what stays are what there was.
abbrev Split : Position → Close → Type 0
Split p k =
    (k.row.size_in_usd +ℤ k.portion.close_size_usd ≡ p.size_in_usd)
    × (k.row.size_in_tokens +ℤ k.portion.close_size_tokens ≡ p.size_in_tokens)
    × (k.row.collateral_amount +ℤ k.portion.collateral_to_return ≡ p.collateral_amount)
    × (k.row.realized_pnl ≡ p.realized_pnl +ℤ k.portion.realized_pnl)

sub_then_add : (a b : ℤ) → a -ℤ b +ℤ b ≡ a
sub_then_add a b = grind int_laws

zero_plus : (a b : ℤ) → b ≡ a → pos 0 +ℤ b ≡ a
zero_plus a b h = grind (int_laws, h)

close_ratio_of-whole :
    (o : DecimalOps)
    → DecimalLaws o
    → (p : Position) → p.size_in_usd ≢ pos 0
    → close_ratio_of o p p.size_in_usd ≡ o.one
unfolding close_ratio_of safe_div_or
close_ratio_of-whole o laws p h = ground (arith, h, laws.div_self p.size_in_usd h, laws.round-one)

partial_close-Split :
    (o : DecimalOps) (p : Position) (n price : ℤ) → Split p (partial_close o p n price)
unfolding partial_close reduced_position portion_of
partial_close-Split o p n price = (
  sub_then_add p.size_in_usd n,
  sub_then_add p.size_in_tokens (o.mul p.size_in_tokens (close_ratio_of o p n)),
  sub_then_add p.collateral_amount (o.mul p.collateral_amount (close_ratio_of o p n)),
  refl,
)

full_close-Split :
    (o : DecimalOps)
    → DecimalLaws o
    → (p : Position) (price : ℤ) → p.size_in_usd ≢ pos 0
    → Split p (full_close o p price)
unfolding full_close closed_position portion_of
full_close-Split o laws p price h =
    let whole : (x : ℤ) → o.mul x (close_ratio_of o p p.size_in_usd) ≡ x =
      λ x. ap (o.mul x) (close_ratio_of-whole o laws p h) ∙ laws.mul-one x in
    (
      zero_plus p.size_in_usd p.size_in_usd refl,
      zero_plus p.size_in_tokens (o.mul p.size_in_tokens (close_ratio_of o p p.size_in_usd))
          (whole p.size_in_tokens),
      zero_plus p.collateral_amount (o.mul p.collateral_amount (close_ratio_of o p p.size_in_usd))
          (whole p.collateral_amount),
      refl,
    )

close_of-Split :
    (o : DecimalOps)
    → DecimalLaws o
    → (config : PositionConfig) (p : Position) (size : Option ℤ) (price : ℤ) → p.size_in_usd ≢ pos 0
    → Split p (close_of o config p size price)
close_of-Split o laws config p size price h = elim (close_of-cases o config p size price) [
  | inl full ↦ subst (Split p) (sym full) (full_close-Split o laws p price h)
  | inr (part, kept) ↦
      subst (Split p) (sym part) (partial_close-Split o p (close_size_of p size) price)
]

record_close_ledger-total :
    (p : Position) (trade_id : Option ℕ) (c : Portion) (ledger : List FeeEvent)
    → ledger_total (record_close_ledger p trade_id c ledger) ≡ ledger_total ledger +ℤ total_fees c
unfolding record_close_ledger
record_close_ledger-total p trade_id c ledger = grind (int_laws, record_fee_event-total)

-- What a position `p` and the state lose, and what `r` says of it.
abbrev pub Accounts :
    Position → PositionStore → PositionStore → DecreasePositionResult → Position → Type 0
Accounts p s s' r q =
    (q.size_in_usd +ℤ r.size_delta_usd ≡ p.size_in_usd)
    × (q.realized_pnl ≡ p.realized_pnl +ℤ r.pnl_realized)
    × (ledger_total s'.ledger ≡ ledger_total s.ledger +ℤ r.fees_paid)
    × (p.collateral_amount +ℤ r.pnl_realized
        ≤ℤ q.collateral_amount +ℤ r.fees_paid +ℤ r.collateral_returned)
    × ((r.collateral_returned ≡ pos 0)
        ⊎ (p.collateral_amount +ℤ r.pnl_realized
            ≡ q.collateral_amount +ℤ r.fees_paid +ℤ r.collateral_returned))

returned_balances :
    (back gain fees stays total : ℤ)
    → stays +ℤ back ≡ total
    → (total +ℤ gain ≤ℤ stays +ℤ fees +ℤ max_ℤ (back +ℤ gain -ℤ fees) (pos 0))
      × ((max_ℤ (back +ℤ gain -ℤ fees) (pos 0) ≡ pos 0)
          ⊎ (total +ℤ gain ≡ stays +ℤ fees +ℤ max_ℤ (back +ℤ gain -ℤ fees) (pos 0)))
returned_balances back gain fees stays total h =
    let x = back +ℤ gain -ℤ fees in
    ground (
      arith,
      h,
      +ℤ_parts back gain,
      -ℤ_parts (back +ℤ gain) fees,
      +ℤ_parts stays back,
      +ℤ_parts total gain,
      +ℤ_parts stays fees,
      +ℤ_parts (stays +ℤ fees) (max_ℤ x (pos 0)),
      eq_of_parts (total +ℤ gain) (stays +ℤ fees +ℤ max_ℤ x (pos 0)),
    )

close-Accounts :
    (p : Position) (k : Close) (trade_id : Option ℕ) (price : ℤ) (s : PositionStore)
    → Split p k
    → Accounts p s (apply_close k trade_id price s) (decrease_result k) k.row
unfolding apply_close decrease_result
close-Accounts p k trade_id price s (size, tokens, collateral, pnl) =
    let (bound, exact) =
      returned_balances k.portion.collateral_to_return k.portion.realized_pnl (total_fees k.portion)
        k.row.collateral_amount p.collateral_amount collateral in
    (size, pnl, record_close_ledger-total k.row trade_id k.portion s.ledger, bound, exact)

-- When a position that has a size is decreased: what is left of its size and what the result names
-- add up to what it had; its realized profit grows by the profit of the result; the ledger grows by
-- exactly the fees of the result; and what stays as collateral, the fees and what is returned are
-- worth at least the collateral and the profit, and exactly that unless nothing is returned.
pub decrease_position-Accounts :
    (o : DecimalOps)
    → DecimalLaws o
    → (config : PositionConfig) (id : ℕ) (size : Option ℤ) (price : ℤ) (trade_id : Option ℕ)
      (s s' : PositionStore) (r : DecreasePositionResult) (p : Position)
    → find_position id s.positions ≡ some p
    → p.size_in_usd ≢ pos 0
    → decrease_position o config id size price trade_id s ≡ (done r, s')
    → (q : Position) × (find_position id s'.positions ≡ some q) × Accounts p s s' r q
decrease_position-Accounts o laws config id size price trade_id s s' r p found sized h =
    let (p', found', is_open, result, state) =
      decrease_position-cases o config id size price trade_id s s' r h in
    let same : p' ≡ p = some_injective p' p (sym found' ∙ found) in
    let k = close_of o config p size price in
    let of_p : (decrease_result k ≡ r) × (apply_close k trade_id price s ≡ s') =
      subst
        (λ x.
          (decrease_result (close_of o config x size price) ≡ r)
          × (apply_close (close_of o config x size price) trade_id price s ≡ s'))
        same (result, state) in
    (
      k.row,
      subst (λ (x : PositionStore). find_position id x.positions ≡ some k.row) of_p.1
          (find_position-apply_close o config id p size price trade_id s found),
      subst (λ x. Accounts p s x r k.row) of_p.1
          (subst (λ x. Accounts p s (apply_close k trade_id price s) x k.row) of_p.0
            (close-Accounts p k trade_id price s
              (close_of-Split o laws config p size price sized))),
    )
