-- ===== src/Matching/Levels/Thins.antt =====
-- Cancelling and matching only thin a side out: orders leave their queues or shrink, and levels
-- that become empty leave the side.
use riabow_dex_backend.Prelude.{
  ℕ, ◌-◌, ◌≡◌, ◌<◌, refl, arith, Option, none, some, [], ◌∷◌, ◌++◌, All, All-append, subst,
  Bool-cases, inl, inr, ◌==◌, min,
}
use riabow_dex_backend.Prelude.Int.{◌==ℤ◌, ltb_ℤ, eq_of_parts}
use riabow_dex_backend.Decimals.{Decimals}
use riabow_dex_backend.Matching.Types.{Uuid, PriceLevel, OrderEntry, Side, from_decimal}
use riabow_dex_backend.Matching.Fill.{
  Queue, Level, Levels, Taker, Matching, fill_queue, fill_levels, keep_level, drop_maker,
  record_trade, beyond_limit,
}
use riabow_dex_backend.Matching.Levels.{put_level, remove_at, scan_levels, take_order, push_level}
use riabow_dex_backend.Matching.Levels.Ordered.{Sorted}

pub data Shrinks : Queue → Queue → Type 0 where
  same : {q : Queue} → Shrinks q q
  drop : {o : OrderEntry} {q q' : Queue} → Shrinks q q' → Shrinks (o ∷ q) q'
  keep : {o : OrderEntry} {q q' : Queue} → Shrinks q q' → Shrinks (o ∷ q) (o ∷ q')
  cut :
      {o o' : OrderEntry} {q : Queue} (amount : ℕ)
      → 0 < amount
      → o' ≡ record o { remaining_amount = amount }
      → Shrinks (o ∷ q) (o' ∷ q)

pub data Thins : Levels → Levels → Type 0 where
  unchanged : {levels : Levels} → Thins levels levels
  without :
      {x : Level} {levels levels' : Levels} → Thins levels levels' → Thins (x ∷ levels) levels'
  beside :
      {x : Level} {levels levels' : Levels}
      → Thins levels levels'
      → Thins (x ∷ levels) (x ∷ levels')
  within :
      {l : PriceLevel} {o : OrderEntry} {q q' : Queue} {levels levels' : Levels}
      → Shrinks q (o ∷ q')
      → Thins levels levels'
      → Thins ((l, q) ∷ levels) ((l, o ∷ q') ∷ levels')

-- What holds of each order at rest: it stands at the level of its price and on its side, and has
-- something left.
pub record Rests (side : Side) (l : PriceLevel) (o : OrderEntry) : Type 0 where
  pub at_level : from_decimal o.price ≡ l
  pub on_side : o.side ≡ side
  pub positive : 0 < o.remaining_amount

-- A level has orders, and each of them rests there.
abbrev pub LevelRests : Side → Level → Type 0
LevelRests side (l, []) = ⊥
LevelRests side (l, o ∷ q) = All (Rests side l) (o ∷ q)

abbrev pub AllRest : Side → Levels → Type 0
AllRest side = All (LevelRests side)

Shrinks-Rests :
    {q q' : Queue} (side : Side) (l : PriceLevel)
    → Shrinks q q'
    → All (Rests side l) q
    → All (Rests side l) q'
Shrinks-Rests side l same h = h
Shrinks-Rests side l (drop s) h = Shrinks-Rests side l s h.1
Shrinks-Rests side l (keep s) h = (h.0, Shrinks-Rests side l s h.1)
Shrinks-Rests side l (cut amount p e) h =
    (rw e (record { at_level = h.0.at_level; on_side = h.0.on_side; positive = p }), h.1)

LevelRests-All :
    (side : Side) (l : PriceLevel) (q : Queue) → LevelRests side (l, q) → All (Rests side l) q
LevelRests-All side l [] h = absurd h
LevelRests-All side l (o ∷ q) h = h

pub Thins-AllRest :
    {levels levels' : Levels} (side : Side)
    → Thins levels levels'
    → AllRest side levels
    → AllRest side levels'
Thins-AllRest side unchanged h = h
Thins-AllRest side (without t) h = Thins-AllRest side t h.1
Thins-AllRest side (beside t) h = (h.0, Thins-AllRest side t h.1)
Thins-AllRest side (within {l = l} {q = q} s t) h =
    (Shrinks-Rests side l s (LevelRests-All side l q h.0), Thins-AllRest side t h.1)

All-snoc-Rests :
    (side : Side) (l : PriceLevel) (q : Queue) (e : OrderEntry)
    → All (Rests side l) q
    → Rests side l e
    → LevelRests side (l, q ++ e ∷ [])
All-snoc-Rests side l [] e h r = (r, tt)
All-snoc-Rests side l (o ∷ q) e h r = (h.0, All-append (Rests side l) q (e ∷ []) h.1 (r, tt))

-- Pushing an order that rests at a level keeps every order at its level.
pub push_level-AllRest :
    (side : Side) (l : PriceLevel) (e : OrderEntry) (levels : Levels)
    → Rests side l e
    → AllRest side levels
    → AllRest side (push_level l e levels)
unfolding push_level
push_level-AllRest side l e [] r h = ((r, tt), tt)
push_level-AllRest side l e ((k, q) ∷ levels) r h = elim (Bool-cases (l ==ℤ k)) [
  | inl same_level ↦
      let at_k : l ≡ k = eq_of_parts l k (ground arith) in
      rw same_level (
        (
          All-snoc-Rests side k q e (LevelRests-All side k q h.0)
              (subst (λ x. Rests side x e) at_k r),
          h.1,
        ))
  | inr other ↦ elim (Bool-cases (ltb_ℤ l k)) [
    | inl before ↦ rw (other, before) ((r, tt), h)
    | inr after ↦ rw (other, after) (h.0, push_level-AllRest side l e levels r h.1)
  ]
]

module _ (R : PriceLevel → PriceLevel → Type 0) where
  pub Thins-All :
      {levels levels' : Levels} (P : PriceLevel → Type 0)
      → Thins levels levels'
      → All (λ y. P y.0) levels
      → All (λ y. P y.0) levels'
  Thins-All P unchanged h = h
  Thins-All P (without t) h = Thins-All P t h.1
  Thins-All P (beside t) h = (h.0, Thins-All P t h.1)
  Thins-All P (within s t) h = (h.0, Thins-All P t h.1)

  pub Thins-Sorted :
      {levels levels' : Levels} → Thins levels levels' → Sorted R levels → Sorted R levels'
  Thins-Sorted unchanged h = h
  Thins-Sorted (without t) h = Thins-Sorted t h.1
  Thins-Sorted (beside {x = x} t) h = (Thins-All (R x.0) t h.0, Thins-Sorted t h.1)
  Thins-Sorted (within {l = l} s t) h = (Thins-All (R l) t h.0, Thins-Sorted t h.1)

put_level-Thins :
    {l : PriceLevel} {q : Queue} {levels levels' : Levels} (q' : Queue)
    → Shrinks q q'
    → Thins levels levels'
    → Thins ((l, q) ∷ levels) (put_level l q' levels')
put_level-Thins [] s t = without t
put_level-Thins (o ∷ q') s t = within s t

abbrev ShrinksTo : Queue → Option (OrderEntry × Queue) → Type 0
ShrinksTo q none = Unit
ShrinksTo q (some (e, q')) = Shrinks q q'

abbrev pub ThinsTo : Levels → Option (OrderEntry × Levels) → Type 0
ThinsTo levels none = Unit
ThinsTo levels (some (e, levels')) = Thins levels levels'

take_order-Shrinks : (id : Uuid) (q : Queue) → ShrinksTo q (take_order id q)
unfolding take_order
take_order-Shrinks id [] = tt
take_order-Shrinks id (o ∷ q) = elim (Bool-cases (o.id == id)) [
  | inl e ↦ rw e (drop same)
  | inr e ↦ rw e (later (take_order id q) (take_order-Shrinks id q))
]
  where
    later :
        (r : Option (OrderEntry × Queue))
        → ShrinksTo q r
        → ShrinksTo (o ∷ q) (elim r [ none ↦ none | some (e, q') ↦ some (e, o ∷ q') ])
    later none h = tt
    later (some (e, q')) h = keep h

ThinsTo-take :
    (l : PriceLevel) (q : Queue) (levels : Levels) (r : Option (OrderEntry × Queue))
    → ShrinksTo q r
    → ThinsTo
        ((l, q) ∷ levels)
        (elim r [ none ↦ none | some (e, q') ↦ some (e, put_level l q' levels) ])
ThinsTo-take l q levels none h = tt
ThinsTo-take l q levels (some (e, q')) h = put_level-Thins q' h unchanged

ThinsTo-rest :
    (x : Level) (levels : Levels) (r : Option (OrderEntry × Levels))
    → ThinsTo levels r
    → ThinsTo (x ∷ levels) (elim r [ none ↦ none | some (e, r') ↦ some (e, x ∷ r') ])
ThinsTo-rest x levels none h = tt
ThinsTo-rest x levels (some (e, r')) h = beside h

pub remove_at-Thins :
    (l : PriceLevel) (id : Uuid) (levels : Levels) → ThinsTo levels (remove_at l id levels)
unfolding remove_at
remove_at-Thins l id [] = tt
remove_at-Thins l id ((n, q) ∷ levels) = elim (Bool-cases (l ==ℤ n)) [
  | inl e ↦ rw e (ThinsTo-take n q levels (take_order id q) (take_order-Shrinks id q))
  | inr e ↦ rw e (ThinsTo-rest (n, q) levels (remove_at l id levels) (remove_at-Thins l id levels))
]

pub scan_levels-Thins : (id : Uuid) (levels : Levels) → ThinsTo levels (scan_levels id levels)
unfolding scan_levels
scan_levels-Thins id [] = tt
scan_levels-Thins id ((n, q) ∷ levels) =
    here (take_order id q) (take_order-Shrinks id q)
      (ThinsTo-rest (n, q) levels (scan_levels id levels) (scan_levels-Thins id levels))
  where
    later : Option (OrderEntry × Levels)
    later = elim (scan_levels id levels) [ none ↦ none | some (e, r) ↦ some (e, (n, q) ∷ r) ]

    here :
        (r : Option (OrderEntry × Queue))
        → ShrinksTo q r
        → ThinsTo ((n, q) ∷ levels) later
        → ThinsTo
            ((n, q) ∷ levels)
            (elim r [ some (e, q') ↦ some (e, put_level n q' levels) | none ↦ later ])
    here none h k = k
    here (some (e, q')) h k = put_level-Thins q' h unchanged

module _ (d : Decimals) (t : Taker) where
  fill_queue-Shrinks : (s : Matching) (q : Queue) → Shrinks q (fill_queue d t s q).1
  unfolding fill_queue
  fill_queue-Shrinks s [] = same
  fill_queue-Shrinks s (m ∷ q) = elim (Bool-cases (s.amount == 0)) [
    | inl e ↦ rw e same
    | inr e ↦ elim (Bool-cases (m.remaining_amount - min s.amount m.remaining_amount == 0)) [
      | inl e' ↦ rw (e, e') (drop (fill_queue-Shrinks (drop_maker d t (record_trade d t s m) m) q))
      | inr e' ↦
          rw (e, e')
            (cut (m.remaining_amount - min s.amount m.remaining_amount) (ground arith) refl)
    ]
  ]

  keep_level-Thins :
      {l : PriceLevel} {q : Queue} {levels levels' : Levels} (q' : Queue)
      → Shrinks q q'
      → Thins levels levels'
      → Thins ((l, q) ∷ levels) (keep_level d t l q' levels')
  keep_level-Thins [] s t = without t
  keep_level-Thins (o ∷ q') s t = within s t

  pub fill_levels-Thins :
      (s : Matching) (levels : Levels) → Thins levels (fill_levels d t s levels).1
  unfolding fill_levels
  fill_levels-Thins s [] = unchanged
  fill_levels-Thins s ((l, q) ∷ levels) = elim (Bool-cases (s.amount == 0)) [
    | inl e ↦ rw e unchanged
    | inr e ↦ elim (Bool-cases (beyond_limit t.side t.limit_price l)) [
      | inl e' ↦ rw (e, e') unchanged
      | inr e' ↦
          rw (e, e')
            (keep_level-Thins (fill_queue d t s q).1 (fill_queue-Shrinks s q)
              (fill_levels-Thins (fill_queue d t s q).0 levels))
    ]
  ]
