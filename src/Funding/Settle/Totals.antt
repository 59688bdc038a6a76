-- ===== src/Funding/Settle/Totals.antt =====
-- A settlement of funding, as one change of every open position of the market.
use riabow_dex_backend.Prelude.{
  ℕ, ◌+◌, ◌≡◌, arith, refl, ap, sym, ◌∙◌, Bool, true, false, ◌&&◌, Option, none, some, List, [],
  ◌∷◌, ◌++◌, map, append_assoc, append-nil, if◌then◌else◌, ◌==◌, length, Bool-cases, inl, inr,
}
use mathlib.Core.Path.{fun_ext}
use riabow_dex_backend.Prelude.Int.{ℤ, pos, ◌+ℤ◌, ◌-ℤ◌, ◌==ℤ◌}
use riabow_dex_backend.DecimalOps.{DecimalOps}
use riabow_dex_backend.Positions.Types.{PositionSide, long, short, Position}
use riabow_dex_backend.Positions.Store.{
  FeeEvent, funding_fee, is_open, find_position, record_fee_event,
}
use riabow_dex_backend.Positions.Store.Rows.{DistinctIds}
use riabow_dex_backend.Funding.{FundingRateInfo}
use riabow_dex_backend.Funding.Settle.{
  FundingSettlement, FundingTables, is_long, fee_of, liquidation_price_with, charge, charge_row,
  apply_funding_settlement, settlement_of, settle_all, open_in, get_funding_rate, settle_funding,
}

-- What a position owes: a long one pays a positive rate and a short one gets it, on its size.
abbrev pub owed : DecimalOps → ℤ → PositionSide → ℤ → ℤ
owed o rate long size = o.mul size rate
owed o rate short size = o.mul size (pos 0 -ℤ rate)

abbrev pub fee_rule : DecimalOps → ℤ → Position → ℤ
fee_rule o rate p = owed o rate p.side p.size_in_usd

-- A row after a settlement in which each position is charged by a rule: the open positions of the market
-- are charged once, and the others are as they were.
abbrev pub charged : DecimalOps → ℕ → (Position → ℤ) → Position → Position
charged sql symbol fee p =
    if p.symbol == symbol && is_open p.status
    then record p {
      accumulated_funding_fee = p.accumulated_funding_fee +ℤ fee p;
      liquidation_price = liquidation_price_with sql (fee p) p;
    }
    else p

-- The rows of the fee ledger, with none for a fee of 0.
abbrev pub fee_rows : (Position → ℤ) → List Position → List FeeEvent
fee_rows fee [] = []
fee_rows fee (p ∷ ps) =
    if fee p ==ℤ pos 0
    then fee_rows fee ps
    else record {
      user_address = p.user_address;
      position_id = p.id;
      trade_id = none;
      fee_type = funding_fee;
      amount = fee p;
    }
      ∷ fee_rows fee ps

-- The rows of the settlements, numbered from `n`.
abbrev pub settled_rows :
    (ℕ → ℕ) → ℕ → ℤ → (Position → ℤ) → ℕ → List Position → List FundingSettlement
settled_rows fresh symbol rate fee n [] = []
settled_rows fresh symbol rate fee n (p ∷ ps) =
    record {
      id = fresh n;
      position_id = p.id;
      user_address = p.user_address;
      symbol = symbol;
      funding_rate = rate;
      position_size = p.size_in_usd;
      funding_fee = fee p;
      is_long = is_long p.side;
    }
    ∷ settled_rows fresh symbol rate fee (n + 1) ps

-- The rows of `xs` charged one after the other.
abbrev charge_each : DecimalOps → (Position → ℤ) → List Position → List Position → List Position
charge_each sql fee [] table = table
charge_each sql fee (x ∷ xs) table = charge_each sql fee xs (charge_row sql x.id (fee x) table)

-- Whether a row has the id.
abbrev has_row : ℕ → List Position → Bool
has_row id [] = false
has_row id (p ∷ ps) = if p.id == id then true else has_row id ps

open_in-absent :
    (id symbol : ℕ) (ps : List Position)
    → find_position id ps ≡ none
    → has_row id (open_in symbol ps) ≡ false
unfolding find_position open_in
open_in-absent id symbol [] h = refl
open_in-absent id symbol (p ∷ ps) h = ground (arith, open_in-absent id symbol ps)

charge_each-skip :
    (sql : DecimalOps) (fee : Position → ℤ) (xs : List Position) (q : Position) (ps : List Position)
    → has_row q.id xs ≡ false
    → charge_each sql fee xs (q ∷ ps) ≡ q ∷ charge_each sql fee xs ps
unfolding charge_row
charge_each-skip sql fee [] q ps h = refl
charge_each-skip sql fee (x ∷ xs) q ps h = elim (Bool-cases (q.id == x.id)) [
  | inl same ↦ absurd (ground arith)
  | inr other ↦
      rw other (charge_each-skip sql fee xs q (charge_row sql x.id (fee x) ps) (ground arith))
]

charge_row-first :
    (sql : DecimalOps) (fee : ℤ) (p : Position) (ps : List Position)
    → charge_row sql p.id fee (p ∷ ps) ≡ charge sql fee p ∷ ps
unfolding charge_row
charge_row-first sql fee p ps = ground arith

charge_each-first :
    (sql : DecimalOps) (fee : Position → ℤ) (b : Bool) (p : Position) (xs ps : List Position)
    → has_row p.id xs ≡ false
    → charge_each sql fee (if b then p ∷ xs else xs) (p ∷ ps)
      ≡ (if b then charge sql (fee p) p else p) ∷ charge_each sql fee xs ps
unfolding charge
charge_each-first sql fee true p xs ps h =
    ap (charge_each sql fee xs) (charge_row-first sql (fee p) p ps)
    ∙ charge_each-skip sql fee xs (charge sql (fee p) p) ps h
charge_each-first sql fee false p xs ps h = charge_each-skip sql fee xs p ps h

charge_each-open_in :
    (sql : DecimalOps) (fee : Position → ℤ) (symbol : ℕ) (ps : List Position)
    → DistinctIds ps
    → charge_each sql fee (open_in symbol ps) ps ≡ map (charged sql symbol fee) ps
unfolding open_in charge
charge_each-open_in sql fee symbol [] h = refl
charge_each-open_in sql fee symbol (p ∷ ps) (new, h) =
    charge_each-first sql fee (p.symbol == symbol && is_open p.status) p (open_in symbol ps) ps
      (open_in-absent p.id symbol ps new)
    ∙ ap (λ qs. charged sql symbol fee p ∷ qs) (charge_each-open_in sql fee symbol ps h)

fee_of-rule : (o : DecimalOps) (rate : ℤ) → fee_of o rate ≡ fee_rule o rate
fee_of-rule o rate = fun_ext λ p. side_rule p.side p.size_in_usd
  where
    side_rule :
        (side : PositionSide) (size : ℤ)
        → (if is_long side then o.mul size rate else o.mul size (pos 0 -ℤ rate))
          ≡ owed o rate side size
    side_rule long size = refl
    side_rule short size = refl

record_fee_event-rows :
    (fee : Position → ℤ) (p : Position) (ps : List Position) (ledger : List FeeEvent)
    → record_fee_event
          (record {
            user_address = p.user_address;
            position_id = p.id;
            trade_id = none;
            fee_type = funding_fee;
            amount = fee p;
          })
          ledger
        ++ fee_rows fee ps
      ≡ ledger ++ fee_rows fee (p ∷ ps)
unfolding record_fee_event
record_fee_event-rows fee p ps ledger = added (fee p ==ℤ pos 0) _ ledger (fee_rows fee ps)
  where
    added :
        (b : Bool) (e : FeeEvent) (ledger rows : List FeeEvent)
        → (if b then ledger else ledger ++ (e ∷ [])) ++ rows
          ≡ ledger ++ (if b then rows else e ∷ rows)
    added true e ledger rows = refl
    added false e ledger rows = append_assoc ledger (e ∷ []) rows

-- What the loop leaves.
settle_all-rows :
    (o sql : DecimalOps) (fresh : ℕ → ℕ) (symbol : ℕ) (rate : ℤ) (n : ℕ) (xs : List Position)
    (t : FundingTables)
    → let (m, t') = settle_all o sql fresh symbol rate n xs t in
      (m ≡ n + length xs)
      × (t'.store.positions ≡ charge_each sql (fee_of o rate) xs t.store.positions)
      × (t'.store.ledger ≡ t.store.ledger ++ fee_rows (fee_of o rate) xs)
      × (t'.settlements ≡ t.settlements ++ settled_rows fresh symbol rate (fee_of o rate) n xs)
unfolding settle_all apply_funding_settlement
settle_all-rows o sql fresh symbol rate n [] t =
    (omega arith, refl, sym (append-nil t.store.ledger), sym (append-nil t.settlements))
settle_all-rows o sql fresh symbol rate n (x ∷ xs) t =
    let u = apply_funding_settlement sql (settlement_of o fresh symbol rate n x) t in
    let (count, positions, ledger, rows) = settle_all-rows o sql fresh symbol rate (n + 1) xs u in
    (
      omega (arith, count),
      positions,
      ledger ∙ record_fee_event-rows (fee_of o rate) x xs t.store.ledger,
      rows
          ∙ append_assoc t.settlements _
              (settled_rows fresh symbol rate (fee_of o rate) (n + 1) xs),
    )

-- What a settlement of a market gives, by its rate and the rule of its fees: without a rate it is refused
-- and changes nothing.
abbrev pub Settles :
    DecimalOps
    → DecimalOps
    → (ℕ → ℕ)
    → ℕ
    → Option FundingRateInfo
    → FundingTables
    → Option ℕ × FundingTables
    → Type 0
Settles o sql fresh symbol none t (n, t') = (n ≡ none) × (t' ≡ t)
Settles o sql fresh symbol (some info) t (n, t') =
    let fee = fee_rule o info.funding_rate in
    let xs = open_in symbol t.store.positions in
    (n ≡ some (length xs))
    × (t'.store.positions ≡ map (charged sql symbol fee) t.store.positions)
    × (t'.store.ledger ≡ t.store.ledger ++ fee_rows fee xs)
    × (t'.settlements ≡ t.settlements ++ settled_rows fresh symbol info.funding_rate fee 0 xs)

settle_with :
    (o sql : DecimalOps) (fresh : ℕ → ℕ) (symbol : ℕ) (rate : Option FundingRateInfo)
    (t : FundingTables)
    → DistinctIds t.store.positions
    → Settles o sql fresh symbol rate t (elim rate [
      | none ↦ (none, t)
      | some info ↦
          let (n, t') =
            settle_all o sql fresh symbol info.funding_rate 0
              (open_in symbol t.store.positions)
              t in
          (some n, t')
    ])
settle_with o sql fresh symbol none t h = (refl, refl)
settle_with o sql fresh symbol (some info) t h =
    let rate = info.funding_rate in
    let xs = open_in symbol t.store.positions in
    let (count, positions, ledger, rows) = settle_all-rows o sql fresh symbol rate 0 xs t in
    let same = fee_of-rule o rate in
    (
      ap some (count ∙ zero_add (length xs)),
      positions
          ∙ charge_each-open_in sql (fee_of o rate) symbol t.store.positions h
          ∙ ap (λ fee. map (charged sql symbol fee) t.store.positions) same,
      ledger ∙ ap (λ fee. t.store.ledger ++ fee_rows fee xs) same,
      rows ∙ ap (λ fee. t.settlements ++ settled_rows fresh symbol rate fee 0 xs) same,
    )
  where
    zero_add : (n : ℕ) → 0 + n ≡ n
    zero_add n = omega arith

-- When ids are distinct, settling the funding of a market without a rate is refused and changes nothing.
-- With a rate, it counts the open positions of the market; each of them is charged exactly once, and no
-- other position changes: a long one owes its size times the rate more and a short one that much less,
-- with the liquidation price that follows. In their order, the fee ledger gets a row of that fee for
-- each of them, except for a fee of 0, and a settlement with its data is written for each of them.
pub settle_funding-Settles :
    (o sql : DecimalOps) (fresh : ℕ → ℕ) (symbol : ℕ) (rates : List (ℕ × FundingRateInfo))
    (t : FundingTables)
    → DistinctIds t.store.positions
    → Settles o sql fresh symbol
        (get_funding_rate symbol rates)
        t
        (settle_funding o sql fresh symbol rates t)
unfolding settle_funding
settle_funding-Settles o sql fresh symbol rates t h =
    settle_with o sql fresh symbol (get_funding_rate symbol rates) t h
