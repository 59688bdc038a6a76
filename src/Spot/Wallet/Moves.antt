-- ===== src/Spot/Wallet/Moves.antt =====
-- A transfer moves funds from one exchange to the other, and makes none.
use riabow_dex_backend.Prelude.{
  ℕ, ◌≡◌, arith, refl, Bool, true, false, inl, inr, none, some, Option-cases, [], ◌∷◌,
  if◌then◌else◌, ◌==◌, not,
}
use riabow_dex_backend.Prelude.Int.{ℤ, pos, ◌+ℤ◌, ◌-ℤ◌, ◌≤ℤ◌, ◌<ℤ◌, leb_ℤ, ltb_ℤ, int_laws}
use riabow_dex_backend.Spot.Ledger.{Balances, adjust, total, adjust-total}
use riabow_dex_backend.Spot.Wallet.{
  TransferDirection, perp_to_spot, spot_to_perp, WalletTables, WalletOutcome, transferred,
  insufficient_funds, unsupported_token, non_positive_amount, available_of, debit, credit,
  put_transfer, transfer_funds, transfer,
}

adjust-available :
    (user token : ℕ) (a : ℤ) (rows rows' : Balances)
    → adjust user token a (pos 0) rows ≡ some rows'
    → available_of user token rows' ≡ available_of user token rows +ℤ a
unfolding adjust available_of
adjust-available user token a [] rows' h = ground arith
adjust-available user token a (r ∷ rows) rows' h =
    elim (Option-cases (adjust user token a (pos 0) rows)) [
      | inl missing ↦ ground (arith, h, missing)
      | inr (rest, found) ↦ ground (arith, h, found, adjust-available user token a rows rest found)
    ]

adjust-none :
    (user token : ℕ) (a f : ℤ) (rows : Balances)
    → adjust user token a f rows ≡ none
    → available_of user token rows ≡ pos 0
unfolding adjust available_of
adjust-none user token a f [] h = refl
adjust-none user token a f (r ∷ rows) h = elim (Option-cases (adjust user token a f rows)) [
  | inl missing ↦ ground (arith, h, missing, adjust-none user token a f rows missing)
  | inr (rest, found) ↦ ground (arith, h, found)
]

-- What an amount is of a token.
abbrev part : ℕ → ℕ → ℤ → ℤ
part token k amount = if token == k then amount else pos 0

minus_is : (a t : ℤ) → t +ℤ (pos 0 -ℤ a) ≡ t -ℤ a
minus_is a t = grind int_laws

plus_zero : (a : ℤ) → a +ℤ pos 0 ≡ a
plus_zero a = grind int_laws

zero_plus : (a : ℤ) → pos 0 +ℤ a ≡ a
zero_plus a = grind int_laws

less_part :
    (b : Bool) (a t : ℤ)
    → t +ℤ (if b then pos 0 -ℤ a +ℤ pos 0 else pos 0) ≡ t -ℤ (if b then a else pos 0)
less_part true a t = grind int_laws
less_part false a t = grind int_laws

new_row : (b : Bool) (a t : ℤ) → (if b then a +ℤ pos 0 +ℤ t else t) ≡ t +ℤ (if b then a else pos 0)
new_row true a t = grind int_laws
new_row false a t = grind int_laws

debit-total :
    (user token : ℕ) (amount : ℤ) (rows : Balances) (k : ℕ)
    → pos 0 <ℤ amount
    → amount ≤ℤ available_of user token rows
    → (total k (debit user token amount rows) ≡ total k rows -ℤ part token k amount)
      × (available_of user token (debit user token amount rows)
          ≡ available_of user token rows -ℤ amount)
unfolding debit
debit-total user token amount rows k positive enough =
    elim (Option-cases (adjust user token (pos 0 -ℤ amount) (pos 0) rows)) [
      | inl missing ↦
          ground
            (arith, positive, enough, adjust-none user token (pos 0 -ℤ amount) (pos 0) rows missing)
      | inr (rows', found) ↦ ground (
        arith,
        found,
        adjust-total user token (pos 0 -ℤ amount) (pos 0) k rows rows' found,
        adjust-available user token (pos 0 -ℤ amount) rows rows' found,
        less_part (token == k) amount (total k rows),
        minus_is amount (available_of user token rows),
      )
    ]

credit-total :
    (user token : ℕ) (amount : ℤ) (rows : Balances) (k : ℕ)
    → (total k (credit user token amount rows) ≡ total k rows +ℤ part token k amount)
      × (available_of user token (credit user token amount rows)
          ≡ available_of user token rows +ℤ amount)
unfolding credit available_of
credit-total user token amount rows k =
    elim (Option-cases (adjust user token amount (pos 0) rows)) [
      | inl missing ↦ ground (
        arith,
        missing,
        adjust-none user token amount (pos 0) rows missing,
        new_row (token == k) amount (total k rows),
        zero_plus amount,
      )
      | inr (rows', found) ↦ ground (
        arith,
        found,
        adjust-total user token amount (pos 0) k rows rows' found,
        adjust-available user token amount rows rows' found,
        plus_zero amount,
      )
    ]

-- What a user has on both exchanges after a transfer, by its result.
abbrev pub Moved : ℕ → ℕ → WalletTables → WalletOutcome × WalletTables → Type 0
Moved usdt user t (transferred r, t') =
    ((k : ℕ) → total k t'.perp +ℤ total k t'.spot ≡ total k t.perp +ℤ total k t.spot)
    × (available_of user usdt t'.perp ≡ r.perp_balance_after)
    × (available_of user usdt t'.spot ≡ r.spot_balance_after)
Moved usdt user t (insufficient_funds, t') = t' ≡ t
Moved usdt user t (unsupported_token, t') = t' ≡ t
Moved usdt user t (non_positive_amount, t') = t' ≡ t

cancels_left : (p s x p' s' : ℤ) → p' ≡ p -ℤ x → s' ≡ s +ℤ x → p' +ℤ s' ≡ p +ℤ s
cancels_left p s x p' s' h k = grind (int_laws, h, k)

cancels_right : (p s x p' s' : ℤ) → p' ≡ p +ℤ x → s' ≡ s -ℤ x → p' +ℤ s' ≡ p +ℤ s
cancels_right p s x p' s' h k = grind (int_laws, h, k)

if-Moved :
    (usdt user : ℕ) (t : WalletTables) (b : Bool) (x y : WalletOutcome × WalletTables)
    → Moved usdt user t x
    → (b ≡ false → Moved usdt user t y)
    → Moved usdt user t (if b then x else y)
if-Moved usdt user t true x y h k = h
if-Moved usdt user t false x y h k = k refl

enough_for : (have amount : ℤ) → ltb_ℤ have amount ≡ false → amount ≤ℤ have
enough_for have amount h = ground (arith, h)

transfer_funds-Moved :
    (usdt user : ℕ) (direction : TransferDirection) (amount : ℤ) (t : WalletTables)
    → pos 0 <ℤ amount
    → Moved usdt user t (
        transfer_funds usdt user direction amount
          (available_of user usdt t.perp)
          (available_of user usdt t.spot)
          t)
unfolding transfer_funds put_transfer
transfer_funds-Moved usdt user perp_to_spot amount t positive =
    if-Moved usdt user t (ltb_ℤ (available_of user usdt t.perp) amount) (insufficient_funds, t) _
      refl
      (λ kept.
        let enough = enough_for (available_of user usdt t.perp) amount kept in
        (
          (λ k.
              cancels_left (total k t.perp) (total k t.spot) (part usdt k amount)
                (total k (debit user usdt amount t.perp)) (total k (credit user usdt amount t.spot))
                (debit-total user usdt amount t.perp k positive enough).0
                (credit-total user usdt amount t.spot k).0),
          (debit-total user usdt amount t.perp usdt positive enough).1,
          (credit-total user usdt amount t.spot usdt).1,
        ))
transfer_funds-Moved usdt user spot_to_perp amount t positive =
    if-Moved usdt user t (ltb_ℤ (available_of user usdt t.spot) amount) (insufficient_funds, t) _
      refl
      (λ kept.
        let enough = enough_for (available_of user usdt t.spot) amount kept in
        (
          (λ k.
              cancels_right (total k t.perp) (total k t.spot) (part usdt k amount)
                (total k (credit user usdt amount t.perp)) (total k (debit user usdt amount t.spot))
                (credit-total user usdt amount t.perp k).0
                (debit-total user usdt amount t.spot k positive enough).0),
          (credit-total user usdt amount t.perp usdt).1,
          (debit-total user usdt amount t.spot usdt positive enough).1,
        ))

positive_for : (amount : ℤ) → leb_ℤ amount (pos 0) ≡ false → pos 0 <ℤ amount
positive_for amount h = ground (arith, h)

-- A transfer either fails and changes nothing, or keeps what all users hold of each token on both
-- exchanges together, and leaves the user with exactly the available balances that it reports.
pub transfer-Moved :
    (usdt user : ℕ) (direction : TransferDirection) (token : ℕ) (amount : ℤ) (t : WalletTables)
    → Moved usdt user t (transfer usdt user direction token amount t)
unfolding transfer
transfer-Moved usdt user direction token amount t =
    if-Moved usdt user t (not (token == usdt)) (unsupported_token, t) _ refl
      (λ same.
        if-Moved usdt user t (leb_ℤ amount (pos 0)) (non_positive_amount, t)
          (transfer_funds usdt user direction amount (available_of user usdt t.perp)
            (available_of user usdt t.spot) t)
          refl
          (λ kept. transfer_funds-Moved usdt user direction amount t (positive_for amount kept)))
