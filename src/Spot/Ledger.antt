-- ===== src/Spot/Ledger.antt =====
-- The tables of the spot exchange, `spot_balances` and `spot_orders`, as the SQL statements of the
-- engine use them. The rows are lists with at most one row for a key; a statement fails only for a
-- missing row, so a lost connection is not modelled.
use riabow_dex_backend.Prelude.{
  ℕ, Option, none, some, List, [], ◌∷◌, if◌then◌else◌, ◌==◌, ◌&&◌, ◌≡◌, arith, Bool-cases, inl, inr,
  Option-cases,
}
use riabow_dex_backend.Prelude.Int.{ℤ, pos, ◌+ℤ◌, ◌-ℤ◌, leb_ℤ, int_laws}
use riabow_dex_backend.Spot.Types.{SpotOrder}

pub record SpotBalance : Type 0 where
  pub user_address : ℕ
  pub token : ℕ
  pub available : ℤ
  pub frozen : ℤ

abbrev pub Balances : Type 0
Balances = List SpotBalance

-- `UPDATE spot_balances SET available = available + $1, frozen = frozen + $2
--  WHERE user_address = $3 AND token = $4`; `none` when no row is affected.
unfoldable pub adjust : ℕ → ℕ → ℤ → ℤ → Balances → Option Balances
adjust user token available_d frozen_d [] = none
adjust user token available_d frozen_d (r ∷ rows) =
    if r.user_address == user && r.token == token
    then some
        (record r { available = r.available +ℤ available_d; frozen = r.frozen +ℤ frozen_d } ∷ rows)
    else elim (adjust user token available_d frozen_d rows) [
      | none ↦ none
      | some rows' ↦ some (r ∷ rows')
    ]

-- The update of the pre-freeze, with its test `available >= $1`.
unfoldable pub freeze : ℕ → ℕ → ℕ → Balances → Option Balances
freeze user token amount [] = none
freeze user token amount (r ∷ rows) =
    if r.user_address == user && r.token == token
    then if leb_ℤ (pos amount) r.available
      then some (
          record r { available = r.available -ℤ pos amount; frozen = r.frozen +ℤ pos amount }
          ∷ rows)
      else none
    else elim (freeze user token amount rows) [ none ↦ none | some rows' ↦ some (r ∷ rows') ]

-- The refund `available + $1, frozen - $1`, whether it affects a row or not.
unfoldable pub unfreeze : ℕ → ℕ → ℕ → Balances → Balances
unfolding adjust
unfreeze user token amount rows = elim (adjust user token (pos amount) (pos 0 -ℤ pos amount) rows) [
  | none ↦ rows
  | some rows' ↦ rows'
]

-- All that is held of a token, available or frozen.
abbrev pub total : ℕ → Balances → ℤ
total token [] = pos 0
total token (r ∷ rows) =
    if r.token == token then r.available +ℤ r.frozen +ℤ total token rows else total token rows

regroup_row : (av fr a f t : ℤ) → av +ℤ a +ℤ (fr +ℤ f) +ℤ t ≡ av +ℤ fr +ℤ t +ℤ (a +ℤ f)
regroup_row av fr a f t = omega int_laws

regroup_rest : (r t c : ℤ) → r +ℤ (t +ℤ c) ≡ r +ℤ t +ℤ c
regroup_rest r t c = omega int_laws

pub add_zero : (t : ℤ) → t +ℤ pos 0 ≡ t
add_zero t = omega int_laws

move_row : (av fr x t : ℤ) → av -ℤ x +ℤ (fr +ℤ x) +ℤ t ≡ av +ℤ fr +ℤ t
move_row av fr x t = omega int_laws

refund_zero : (x : ℤ) → x +ℤ (pos 0 -ℤ x) ≡ pos 0
refund_zero x = omega int_laws

-- An adjustment changes the total of its token by what it adds, and that of no other.
pub adjust-total :
    (user token : ℕ) (available_d frozen_d : ℤ) (k : ℕ) (rows rows' : Balances)
    → adjust user token available_d frozen_d rows ≡ some rows'
    → total k rows' ≡ total k rows +ℤ (if token == k then available_d +ℤ frozen_d else pos 0)
unfolding adjust
adjust-total user token a f k [] rows' e = absurd (ground arith)
adjust-total user token a f k (r ∷ rows) rows' e =
    elim (Bool-cases (r.user_address == user && r.token == token)) [
      | inl hit ↦ ground (
        arith,
        regroup_row r.available r.frozen a f (total k rows),
        add_zero (total k rows),
        add_zero (r.available +ℤ r.frozen +ℤ total k rows),
      )
      | inr miss ↦ elim (Option-cases (adjust user token a f rows)) [
        | inl missing ↦ absurd (ground arith)
        | inr (rest, found) ↦ ground (
          arith,
          adjust-total user token a f k rows rest found,
          regroup_rest (r.available +ℤ r.frozen) (total k rows) (a +ℤ f),
          add_zero (total k rows),
          add_zero (r.available +ℤ r.frozen +ℤ total k rows),
        )
      ]
    ]

-- A pre-freeze and a refund only move funds between available and frozen.
pub freeze-total :
    (user token amount k : ℕ) (rows rows' : Balances)
    → freeze user token amount rows ≡ some rows'
    → total k rows' ≡ total k rows
unfolding freeze
freeze-total user token x k [] rows' e = absurd (ground arith)
freeze-total user token x k (r ∷ rows) rows' e =
    elim (Bool-cases (r.user_address == user && r.token == token)) [
      | inl hit ↦ ground (arith, move_row r.available r.frozen (pos x) (total k rows))
      | inr miss ↦ elim (Option-cases (freeze user token x rows)) [
        | inl missing ↦ absurd (ground arith)
        | inr (rest, found) ↦ ground (arith, freeze-total user token x k rows rest found)
      ]
    ]

pub unfreeze-total :
    (user token amount k : ℕ) (rows : Balances)
    → total k (unfreeze user token amount rows) ≡ total k rows
unfolding unfreeze
unfreeze-total user token x k rows =
    elim (Option-cases (adjust user token (pos x) (pos 0 -ℤ pos x) rows)) [
      | inl missing ↦ ground arith
      | inr (rest, found) ↦ ground (
        arith,
        adjust-total user token (pos x) (pos 0 -ℤ pos x) k rows rest found,
        refund_zero (pos x),
        add_zero (total k rows),
      )
    ]

-- Orders by id.
abbrev pub Orders : Type 0
Orders = List SpotOrder

unfoldable pub find_order : ℕ → Orders → Option SpotOrder
find_order id [] = none
find_order id (o ∷ orders) = if o.id == id then some o else find_order id orders

-- `UPDATE spot_orders … WHERE id = …`, by a change of the row.
unfoldable pub update_order : ℕ → (SpotOrder → SpotOrder) → Orders → Orders
update_order id change [] = []
update_order id change (o ∷ orders) =
    if o.id == id then change o ∷ orders else o ∷ update_order id change orders
