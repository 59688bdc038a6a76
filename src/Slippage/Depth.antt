-- ===== src/Slippage/Depth.antt =====
-- What a simulated order fills is what the levels hold, or what was asked for.
use riabow_dex_backend.Prelude.{
  ◌≡◌, arith, sym, ap, subst, ◌∙◌, true, false, refl, Bool, Option, none, some, is_some, List, [],
  ◌∷◌, if◌then◌else◌,
}
use riabow_dex_backend.Prelude.Int.{
  ℤ, pos, ◌+ℤ◌, ◌-ℤ◌, ◌≤ℤ◌, leb_ℤ, ltb_ℤ, +ℤ_parts, -ℤ_parts, eq_of_parts, int_laws,
}
use riabow_dex_backend.DecimalOps.{DecimalOps, min_ℤ}
use riabow_dex_backend.Slippage.{Taking, take_size, take_parsed, take_levels, simulate_fill}

-- What a level holds: its size, when its texts are decimals and the size is positive.
abbrev pub usable : Option ℤ → Option ℤ → ℤ
usable none sz = pos 0
usable (some px) none = pos 0
usable (some px) (some sz) = if leb_ℤ sz (pos 0) then pos 0 else sz

-- A step takes the lesser of what is asked for and what there is.
abbrev Takes : Taking → ℤ → Taking → Type 0
Takes t held t' =
    (t'.filled ≡ t.filled +ℤ min_ℤ t.remaining held)
    × (t'.remaining ≡ t.remaining -ℤ min_ℤ t.remaining held)

min_zero : (x : ℤ) → pos 0 ≤ℤ x → (t : ℤ) → (t ≡ t +ℤ min_ℤ x (pos 0)) × (x ≡ x -ℤ min_ℤ x (pos 0))
min_zero x h t = ground (
  arith,
  h,
  +ℤ_parts t (min_ℤ x (pos 0)),
  -ℤ_parts x (min_ℤ x (pos 0)),
  eq_of_parts t (t +ℤ min_ℤ x (pos 0)),
  eq_of_parts x (x -ℤ min_ℤ x (pos 0)),
)

min_is : (x y : ℤ) → min_ℤ x y ≡ (if leb_ℤ x y then x else y)
min_is x y = ground arith

take_parsed-Takes :
    (o : DecimalOps) (px sz : Option ℤ) (t : Taking)
    → pos 0 ≤ℤ t.remaining
    → Takes t (usable px sz) (take_parsed o px sz t)
unfolding take_parsed take_size
take_parsed-Takes o none sz t h = min_zero t.remaining h t.filled
take_parsed-Takes o (some px) none t h = min_zero t.remaining h t.filled
take_parsed-Takes o (some px) (some sz) t h = ground (
  arith,
  h,
  min_is t.remaining sz,
  (min_zero t.remaining h t.filled).0,
  (min_zero t.remaining h t.filled).1,
)

-- The least of two parts, one after the other.
min_then :
    (filled remaining here later : ℤ)
    → pos 0 ≤ℤ remaining
    → pos 0 ≤ℤ here
    → pos 0 ≤ℤ later
    → filled +ℤ min_ℤ remaining here +ℤ min_ℤ (remaining -ℤ min_ℤ remaining here) later
      ≡ filled +ℤ min_ℤ remaining (here +ℤ later)
min_then filled remaining here later h k l =
    let a = min_ℤ remaining here in
    let b = min_ℤ (remaining -ℤ a) later in
    let c = min_ℤ remaining (here +ℤ later) in
    ground (
      arith,
      h,
      k,
      l,
      +ℤ_parts here later,
      -ℤ_parts remaining a,
      +ℤ_parts filled a,
      +ℤ_parts (filled +ℤ a) b,
      +ℤ_parts filled c,
      eq_of_parts (filled +ℤ a +ℤ b) (filled +ℤ c),
    )

usable_nonneg : (px sz : Option ℤ) → pos 0 ≤ℤ usable px sz
usable_nonneg none sz = omega arith
usable_nonneg (some px) none = omega arith
usable_nonneg (some px) (some sz) = ground arith

min_left : (x y : ℤ) → pos 0 ≤ℤ x → pos 0 ≤ℤ y → pos 0 ≤ℤ x -ℤ min_ℤ x y
min_left x y h k = ground (arith, h, k, -ℤ_parts x (min_ℤ x y))

add_nonneg : (x y : ℤ) → pos 0 ≤ℤ x → pos 0 ≤ℤ y → pos 0 ≤ℤ x +ℤ y
add_nonneg x y h k = ground (arith, h, k, +ℤ_parts x y)

stops_or :
    (b : Bool) (t rest : Taking) (x : ℤ)
    → (b ≡ true → t.filled ≡ x)
    → rest.filled ≡ x
    → (if b then t else rest).filled ≡ x
stops_or true t rest x h k = h refl
stops_or false t rest x h k = k

nothing_left :
    (filled remaining held : ℤ)
    → leb_ℤ remaining (pos 0) ≡ true
    → pos 0 ≤ℤ remaining
    → pos 0 ≤ℤ held
    → filled ≡ filled +ℤ min_ℤ remaining held
nothing_left filled remaining held stop h k = ground (
  arith,
  stop,
  h,
  k,
  +ℤ_parts filled (min_ℤ remaining held),
  eq_of_parts filled (filled +ℤ min_ℤ remaining held),
)

zero_plus : (x : ℤ) → pos 0 +ℤ x ≡ x
zero_plus x = grind int_laws

price_is_some :
    (filled price : ℤ)
    → is_some (if ltb_ℤ (pos 0) filled then some price else none) ≡ ltb_ℤ (pos 0) filled
price_is_some filled price = ground arith

module _ {T : Type 0} (o : DecimalOps) (parse : T → Option ℤ) where
  -- What the levels hold.
  unfoldable pub depth : List (T × T) → ℤ
  depth [] = pos 0
  depth ((px, sz) ∷ levels) = usable (parse px) (parse sz) +ℤ depth levels

  depth_nonneg : (levels : List (T × T)) → pos 0 ≤ℤ depth levels
  unfolding depth
  depth_nonneg [] = omega arith
  depth_nonneg ((px, sz) ∷ levels) =
      add_nonneg (usable (parse px) (parse sz)) (depth levels) (usable_nonneg (parse px) (parse sz))
        (depth_nonneg levels)

  take_levels-filled :
      (levels : List (T × T)) (t : Taking)
      → pos 0 ≤ℤ t.remaining
      → (take_levels o parse levels t).filled ≡ t.filled +ℤ min_ℤ t.remaining (depth levels)
  unfolding take_levels depth
  take_levels-filled [] t h = (min_zero t.remaining h t.filled).0
  take_levels-filled ((px, sz) ∷ levels) t h =
      let here = usable (parse px) (parse sz) in
      let here_nonneg = usable_nonneg (parse px) (parse sz) in
      let t' = take_parsed o (parse px) (parse sz) t in
      let (filled, remaining) = take_parsed-Takes o (parse px) (parse sz) t h in
      let left : pos 0 ≤ℤ t'.remaining =
        subst (λ x. pos 0 ≤ℤ x) (sym remaining) (min_left t.remaining here h here_nonneg) in
      let rest =
        take_levels-filled levels t' left
        ∙ ap (λ x. x +ℤ min_ℤ t'.remaining (depth levels)) filled
        ∙ ap (λ x. t.filled +ℤ min_ℤ t.remaining here +ℤ min_ℤ x (depth levels)) remaining
        ∙ min_then t.filled t.remaining here (depth levels) h here_nonneg (depth_nonneg levels) in
      stops_or (leb_ℤ t.remaining (pos 0)) t (take_levels o parse levels t')
        (t.filled +ℤ min_ℤ t.remaining (here +ℤ depth levels))
        (λ none_left.
          nothing_left t.filled t.remaining (here +ℤ depth levels) none_left h
            (add_nonneg here (depth levels) here_nonneg (depth_nonneg levels)))
        rest

  -- A simulated order of an amount that is not negative fills the lesser of the amount and what the
  -- levels hold, and has an average price exactly when that is positive.
  pub simulate_fill-depth :
      (levels : List (T × T)) (amount : ℤ)
      → pos 0 ≤ℤ amount
      → ((simulate_fill o parse levels amount).filled ≡ min_ℤ amount (depth levels))
        × (is_some (simulate_fill o parse levels amount).avg_price
            ≡ ltb_ℤ (pos 0) (min_ℤ amount (depth levels)))
  unfolding simulate_fill
  simulate_fill-depth levels amount h =
      let t : Taking = record { remaining = amount; filled = pos 0; notional = pos 0 } in
      let filled = take_levels-filled levels t h ∙ zero_plus (min_ℤ amount (depth levels)) in
      (
        filled,
        price_is_some (take_levels o parse levels t).filled
              (o.div (take_levels o parse levels t).notional (take_levels o parse levels t).filled)
            ∙ ap (λ x. ltb_ℤ (pos 0) x) filled,
      )
