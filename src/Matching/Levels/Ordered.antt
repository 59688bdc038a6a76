-- ===== src/Matching/Levels/Ordered.antt =====
-- The order of the levels of a side.
use riabow_dex_backend.Prelude.{
  arith, [], ◌∷◌, ◌++◌, reverse, reverse-cons, All, All-append, All-reverse, sym, subst,
}
use riabow_dex_backend.Prelude.Int.{◌<ℤ◌}
use riabow_dex_backend.Matching.Types.{PriceLevel, OrderEntry}
use riabow_dex_backend.Matching.Fill.{Level, Levels}
use riabow_dex_backend.Matching.Levels.{push_level}

-- Every level stands in the relation to every later one.
abbrev pub Sorted : (PriceLevel → PriceLevel → Type 0) → Levels → Type 0
Sorted R [] = Unit
Sorted R (x ∷ levels) = All (λ y. R x.0 y.0) levels × Sorted R levels

abbrev pub Ascending : Levels → Type 0
Ascending = Sorted ◌<ℤ◌

abbrev pub Descending : Levels → Type 0
Descending = Sorted (λ l k. k <ℤ l)

abbrev pub Above : PriceLevel → Levels → Type 0
Above l = All (λ y. l <ℤ y.0)

Above-trans : (l k : PriceLevel) (levels : Levels) → l <ℤ k → Above k levels → Above l levels
Above-trans l k [] h a = tt
Above-trans l k (x ∷ levels) h a = (omega arith, Above-trans l k levels h a.1)

push_level-Above :
    (l k : PriceLevel) (e : OrderEntry) (levels : Levels)
    → l <ℤ k
    → Above l levels
    → Above l (push_level k e levels)
unfolding push_level
push_level-Above l k e [] h a = (h, tt)
push_level-Above l k e (x ∷ levels) h a = ground (arith, push_level-Above l k e levels h a.1)

-- Pushing an order keeps the levels in ascending order.
pub push_level-Ascending :
    (l : PriceLevel) (e : OrderEntry) (levels : Levels)
    → Ascending levels
    → Ascending (push_level l e levels)
unfolding push_level
push_level-Ascending l e [] a = (tt, tt)
push_level-Ascending l e ((k, q) ∷ levels) a = ground (
  arith,
  push_level-Above k l e levels,
  push_level-Ascending l e levels a.1,
  Above-trans l k levels,
)

module _ (R : PriceLevel → PriceLevel → Type 0) where
  Sorted-snoc :
      (levels : Levels) (x : Level)
      → Sorted R levels
      → All (λ y. R y.0 x.0) levels
      → Sorted R (levels ++ x ∷ [])
  Sorted-snoc [] x s h = (tt, tt)
  Sorted-snoc (y ∷ levels) x s h =
      (All-append (λ z. R y.0 z.0) levels (x ∷ []) s.0 (h.0, tt), Sorted-snoc levels x s.1 h.1)

-- The order of the reverse is the converse order.
pub Sorted-reverse :
    (R : PriceLevel → PriceLevel → Type 0) (levels : Levels)
    → Sorted R levels
    → Sorted (λ l k. R k l) (reverse levels)
Sorted-reverse R [] s = tt
Sorted-reverse R (x ∷ levels) s = subst (Sorted (λ l k. R k l)) (sym (reverse-cons x levels)) (
    Sorted-snoc (λ l k. R k l) (reverse levels) x (Sorted-reverse R levels s.1)
      (All-reverse (λ y. R x.0 y.0) levels s.0))
