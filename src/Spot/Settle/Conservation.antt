-- ===== src/Spot/Settle/Conservation.antt =====
-- A fill moves funds between the two users and loses none but the fees.
use riabow_dex_backend.Prelude.{
  ℕ, ◌*◌, ◌≡◌, refl, ◌∙◌, ap, arith, Bool, true, false, List, [], ◌∷◌, if◌then◌else◌, ◌==◌,
  Bool-cases, Option-cases, inl, inr,
}
use riabow_dex_backend.Prelude.Int.{ℤ, pos, negsuc, ◌*ℤ◌, ◌≤ℤ◌, ◌+ℤ◌, ◌-ℤ◌, int_laws}
use riabow_dex_backend.Decimals.{Decimals}
use riabow_dex_backend.Spot.Types.{base_units, SpotMarket, buy, sell}
use riabow_dex_backend.Spot.Ledger.{Balances, adjust, total, adjust-total, add_zero}
use riabow_dex_backend.Spot.Settle.{
  Tables, FillInputs, FillCommitted, Settled-cases, ok, Update, updates_of, insert_update,
  sort_updates, apply_updates, fill_order, commit_fill, buy_side_base_fee, sell_side_quote_fee,
  before, status_after, signed_quotient,
}

pay_back : (t x : ℤ) → t +ℤ (pos 0 -ℤ x) +ℤ x ≡ t
pay_back t x = omega int_laws

-- What a list of updates adds to the total of a token.
abbrev pub moved : ℕ → List Update → ℤ
moved k [] = pos 0
moved k (u ∷ us) =
    (if u.token == k then u.available_delta +ℤ u.frozen_delta else pos 0) +ℤ moved k us

swap_front : (a b c : ℤ) → a +ℤ (b +ℤ c) ≡ b +ℤ (a +ℤ c)
swap_front a b c = omega int_laws

add_assoc : (a b c : ℤ) → a +ℤ b +ℤ c ≡ a +ℤ (b +ℤ c)
add_assoc a b c = omega int_laws

abbrev change : ℕ → Update → ℤ
change k u = if u.token == k then u.available_delta +ℤ u.frozen_delta else pos 0

insert_update-moved :
    (k : ℕ) (u : Update) (us : List Update) → moved k (insert_update u us) ≡ moved k (u ∷ us)
unfolding insert_update
insert_update-moved k u [] = refl
insert_update-moved k u (v ∷ us) = elim (Bool-cases (before v u)) [
  | inl e ↦ rw e (
      ap (λ t. change k v +ℤ t) (insert_update-moved k u us)
      ∙ swap_front (change k v) (change k u) (moved k us))
  | inr e ↦ rw e refl
]

sort_updates-moved : (k : ℕ) (us : List Update) → moved k (sort_updates us) ≡ moved k us
unfolding sort_updates
sort_updates-moved k [] = refl
sort_updates-moved k (u ∷ us) =
    insert_update-moved k u (sort_updates us) ∙ ap (λ t. change k u +ℤ t) (sort_updates-moved k us)

apply_updates-total :
    (k : ℕ) (us : List Update) (rows rows' : Balances)
    → apply_updates us rows ≡ ok rows'
    → total k rows' ≡ total k rows +ℤ moved k us
unfolding apply_updates
apply_updates-total k [] rows rows' e = ground (arith, add_zero (total k rows))
apply_updates-total k (u ∷ us) rows rows' e =
    elim (Option-cases (adjust u.user u.token u.available_delta u.frozen_delta rows)) [
      | inl missing ↦ absurd (ground arith)
      | inr (next, found) ↦ ground (
        arith,
        adjust-total u.user u.token u.available_delta u.frozen_delta k rows next found,
        apply_updates-total k us next rows',
        add_assoc (total k rows) (change k u) (moved k us),
      )
    ]

-- The fees of a fill in a token.
abbrev pub fees : Decimals → FillInputs → ℕ → ℤ
fees d f k =
    (if f.market.base_token == k then buy_side_base_fee d f else pos 0)
    +ℤ (if f.market.quote_token == k then sell_side_quote_fee d f else pos 0)

both_tokens :
    (x y b q : ℤ)
    → pos 0
        +ℤ (pos 0 -ℤ x)
        +ℤ (y -ℤ q +ℤ pos 0 +ℤ (pos 0 +ℤ (pos 0 -ℤ y) +ℤ (x -ℤ b +ℤ pos 0 +ℤ pos 0)))
      ≡ pos 0 -ℤ (b +ℤ q)
both_tokens x y b q = omega int_laws

base_only :
    (x b : ℤ)
    → pos 0 +ℤ (pos 0 -ℤ x) +ℤ (pos 0 +ℤ (pos 0 +ℤ (x -ℤ b +ℤ pos 0 +ℤ pos 0)))
      ≡ pos 0 -ℤ (b +ℤ pos 0)
base_only x b = omega int_laws

quote_only :
    (y q : ℤ)
    → pos 0 +ℤ (y -ℤ q +ℤ pos 0 +ℤ (pos 0 +ℤ (pos 0 -ℤ y) +ℤ (pos 0 +ℤ pos 0)))
      ≡ pos 0 -ℤ (pos 0 +ℤ q)
quote_only y q = omega int_laws

updates_of-moved :
    (d : Decimals) (f : FillInputs) (k : ℕ) → moved k (updates_of d f) ≡ pos 0 -ℤ fees d f k
unfolding updates_of
updates_of-moved d f k =
    let x = pos (base_units f.quantity) in
    let y = pos (f.price * f.quantity) in
    let b = buy_side_base_fee d f in
    let q = sell_side_quote_fee d f in
    elim (Bool-cases (f.market.base_token == k)) [
      | inl is_base ↦ elim (Bool-cases (f.market.quote_token == k)) [
        | inl is_quote ↦ rw (is_base, is_quote, both_tokens x y b q)
        | inr other ↦ rw (is_base, other, base_only x b)
      ]
      | inr not_base ↦ elim (Bool-cases (f.market.quote_token == k)) [
        | inl is_quote ↦ rw (not_base, is_quote, quote_only y q)
        | inr other ↦ rw (not_base, other) (omega int_laws)
      ]
    ]

-- The balances that a committed fill leaves are those of its sorted updates.
commit_fill-balances :
    (d : Decimals) (f : FillInputs) (id : ℕ) (s : Tables) (c : FillCommitted) (s' : Tables)
    → commit_fill d f id s ≡ ok (c, s')
    → apply_updates (sort_updates (updates_of d f)) s.balances ≡ ok s'.balances
unfolding commit_fill
commit_fill-balances d f id s c s' e =
    elim (Settled-cases (
      fill_order f.maker_order_id f.quantity f.maker_avg_price_after
        (status_after f.maker_remaining_after) s.orders)) [
          | inl failed ↦ absurd (ground arith)
          | inr ((maker, orders'), e1) ↦
              elim (Settled-cases (
                fill_order f.taker_order_id f.quantity f.taker_avg_price_after
                  (status_after f.taker_remaining_after) orders')) [
                    | inl failed ↦ absurd (ground arith)
                    | inr ((taker, orders''), e2) ↦
                        elim (Settled-cases
                          (apply_updates (sort_updates (updates_of d f)) s.balances)) [
                            | inl failed ↦ absurd (ground arith)
                            | inr (rows, e3) ↦ ground arith
                          ]
                  ]
        ]

-- A fill that is committed loses no funds and makes none: for each token, what all accounts hold
-- of it afterwards, available or frozen, and the fees of the two sides in that token make up what
-- they held before. The buyer pays its fee in the base token and the seller in the quote token;
-- this holds also when a user trades with itself.
pub commit_fill-conserves :
    (d : Decimals) (f : FillInputs) (id : ℕ) (s : Tables) (c : FillCommitted) (s' : Tables)
    → commit_fill d f id s ≡ ok (c, s')
    → (k : ℕ) → total k s'.balances +ℤ fees d f k ≡ total k s.balances
commit_fill-conserves d f id s c s' e k =
    ap (λ t. t +ℤ fees d f k)
      (apply_updates-total k _ s.balances s'.balances (commit_fill-balances d f id s c s' e)
        ∙ ap (λ t. total k s.balances +ℤ t)
            (sort_updates-moved k (updates_of d f) ∙ updates_of-moved d f k))
    ∙ pay_back (total k s.balances) (fees d f k)

-- Neither side is paid for its trades.
abbrev pub NoRebate : SpotMarket → Type 0
NoRebate m = (pos 0 ≤ℤ m.maker_fee_bps) × (pos 0 ≤ℤ m.taker_fee_bps)

times_nonneg : (n : ℕ) (x : ℤ) → pos 0 ≤ℤ x → (p : ℕ) × (pos n *ℤ x ≡ pos p)
unfolding ◌*ℤ◌
times_nonneg n (pos m) h = (n * m, ground arith)
times_nonneg n (negsuc m) h = absurd (ground (arith, h))

quotient_nonneg :
    (d : Decimals) (n m : ℕ) (x : ℤ) → pos 0 ≤ℤ x → pos 0 ≤ℤ signed_quotient d (pos n *ℤ x) m
unfolding signed_quotient
quotient_nonneg d n m x h = let (p, e) = times_nonneg n x h in rw e (omega arith)

sell_fee_nonneg :
    (d : Decimals) (f : FillInputs) → NoRebate f.market → pos 0 ≤ℤ sell_side_quote_fee d f
unfolding sell_side_quote_fee
sell_fee_nonneg d f (maker, taker) =
    elim (f.taker_side)
      as (λ s.
        pos 0
        ≤ℤ signed_quotient d
            (pos (f.price * f.quantity)
              *ℤ (elim s [ buy ↦ f.market.maker_fee_bps | sell ↦ f.market.taker_fee_bps ]))
            10_000) [
              | buy ↦ quotient_nonneg d (f.price * f.quantity) 10_000 f.market.maker_fee_bps maker
              | sell ↦ quotient_nonneg d (f.price * f.quantity) 10_000 f.market.taker_fee_bps taker
            ]

buy_fee_nonneg :
    (d : Decimals) (f : FillInputs) → NoRebate f.market → pos 0 ≤ℤ buy_side_base_fee d f
unfolding buy_side_base_fee
buy_fee_nonneg d f (maker, taker) =
    elim (f.taker_side)
      as (λ s.
        pos 0
        ≤ℤ signed_quotient d
            (pos (base_units f.quantity)
              *ℤ (elim s [ buy ↦ f.market.taker_fee_bps | sell ↦ f.market.maker_fee_bps ]))
            10_000) [
              | buy ↦ quotient_nonneg d (base_units f.quantity) 10_000 f.market.taker_fee_bps taker
              | sell ↦ quotient_nonneg d (base_units f.quantity) 10_000 f.market.maker_fee_bps maker
            ]

if_nonneg : (b : Bool) (x : ℤ) → pos 0 ≤ℤ x → pos 0 ≤ℤ (if b then x else pos 0)
if_nonneg true x h = h
if_nonneg false x h = omega arith

both_nonneg : (x y : ℤ) → pos 0 ≤ℤ x → pos 0 ≤ℤ y → pos 0 ≤ℤ x +ℤ y
both_nonneg x y h k = grind (int_laws, h, k)

pub fees_nonneg : (d : Decimals) (f : FillInputs) (k : ℕ) → NoRebate f.market → pos 0 ≤ℤ fees d f k
fees_nonneg d f k h =
    both_nonneg (if f.market.base_token == k then buy_side_base_fee d f else pos 0)
      (if f.market.quote_token == k then sell_side_quote_fee d f else pos 0)
      (if_nonneg (f.market.base_token == k) (buy_side_base_fee d f) (buy_fee_nonneg d f h))
      (if_nonneg (f.market.quote_token == k) (sell_side_quote_fee d f) (sell_fee_nonneg d f h))
