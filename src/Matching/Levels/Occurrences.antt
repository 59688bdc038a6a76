-- ===== src/Matching/Levels/Occurrences.antt =====
-- How often an id occurs on a side of the book, and in one of its levels, under each update.
use riabow_dex_backend.Prelude.{
  ℕ, suc, ◌+◌, ◌≡◌, ◌≤◌, refl, arith, Option, none, some, [], ◌∷◌, sum_by, sum_by-append,
  if◌then◌else◌, ◌==◌, length, length-append, Option-cases, inl, inr,
}
use riabow_dex_backend.Prelude.Int.{◌==ℤ◌, eq_of_parts}
use riabow_dex_backend.Matching.Types.{Uuid, PriceLevel, OrderEntry}
use riabow_dex_backend.Matching.Fill.{Queue, Levels}
use riabow_dex_backend.Matching.Levels.Ordered.{Ascending, Above}
use riabow_dex_backend.Matching.Levels.{
  push_level, depth, take_order, put_level, remove_at, scan_levels,
}

abbrev pub hit : Uuid → Uuid → ℕ
hit id k = if k == id then 1 else 0

abbrev pub occurs : Uuid → Queue → ℕ
occurs k = sum_by λ o. hit o.id k

abbrev pub occurs_in : Uuid → Levels → ℕ
occurs_in k = sum_by λ x. occurs k x.1

-- Only in the level `l`.
abbrev pub occurs_at : PriceLevel → Uuid → Levels → ℕ
occurs_at l k = sum_by λ x. if l ==ℤ x.0 then occurs k x.1 else 0

abbrev pub queue_depth : Queue → ℕ
queue_depth = sum_by λ o. o.remaining_amount

-- The number of orders on a side.
abbrev pub orders : Levels → ℕ
orders = sum_by λ x. length x.1

pub occurs_at-le :
    (l : PriceLevel) (k : Uuid) (levels : Levels) → occurs_at l k levels ≤ occurs_in k levels
occurs_at-le l k [] = omega arith
occurs_at-le l k (x ∷ levels) = ground (arith, occurs_at-le l k levels)

pub push_level-occurs :
    (l m : PriceLevel) (k : Uuid) (e : OrderEntry) (levels : Levels)
    → (occurs_in k (push_level l e levels) ≡ occurs_in k levels + hit e.id k)
      × (occurs_at m k (push_level l e levels)
          ≡ occurs_at m k levels + (if m ==ℤ l then hit e.id k else 0))
      × (orders (push_level l e levels) ≡ orders levels + 1)
unfolding push_level
push_level-occurs l m k e [] = (omega arith, ground arith, refl)
push_level-occurs l m k e ((n, q) ∷ levels) = ground (
  arith,
  sum_by-append (λ (o : OrderEntry). hit o.id k) q (e ∷ []),
  length-append q (e ∷ []),
  eq_of_parts l n,
  push_level-occurs l m k e levels,
)

-- A search in a queue finds an order with the id, and takes one occurrence out, if there is one.
abbrev pub Takes : Uuid → Uuid → Queue → Option (OrderEntry × Queue) → Type 0
Takes id k q none = occurs id q ≡ 0
Takes id k q (some (e, q')) =
    (e.id ≡ id)
    × (occurs k q ≡ occurs k q' + hit id k)
    × (length q ≡ suc (length q'))
    × (queue_depth q ≡ e.remaining_amount + queue_depth q')

pub take_order-Takes : (id k : Uuid) (q : Queue) → Takes id k q (take_order id q)
unfolding take_order
take_order-Takes id k [] = refl
take_order-Takes id k (o ∷ q) = ground (arith, take_order-Takes id k q)

put_level-occurs :
    (l m : PriceLevel) (k : Uuid) (q : Queue) (levels : Levels)
    → (occurs_in k (put_level l q levels) ≡ occurs k q + occurs_in k levels)
      × (occurs_at m k (put_level l q levels)
          ≡ (if m ==ℤ l then occurs k q else 0) + occurs_at m k levels)
      × (orders (put_level l q levels) ≡ length q + orders levels)
      × (depth (put_level l q levels) ≡ queue_depth q + depth levels)
unfolding depth
put_level-occurs l m k [] levels = (omega arith, ground arith, omega arith, omega arith)
put_level-occurs l m k (o ∷ q) levels = (refl, refl, refl, refl)

occurs_at-Above :
    (l : PriceLevel) (k : Uuid) (levels : Levels) → Above l levels → occurs_at l k levels ≡ 0
occurs_at-Above l k [] a = refl
occurs_at-Above l k (x ∷ levels) a = ground (arith, occurs_at-Above l k levels a.1)

-- A removal at a level finds the order there, and takes one occurrence out, if there is one.
abbrev pub Removes :
    PriceLevel → PriceLevel → Uuid → Uuid → Levels → Option (OrderEntry × Levels) → Type 0
Removes l m id k levels none = occurs_at l id levels ≡ 0
Removes l m id k levels (some (e, r)) =
    (e.id ≡ id)
    × (occurs_in k levels ≡ occurs_in k r + hit id k)
    × (occurs_at m k levels ≡ occurs_at m k r + (if m ==ℤ l then hit id k else 0))
    × (orders levels ≡ suc (orders r))
    × (depth levels ≡ e.remaining_amount + depth r)

pub remove_at-Removes :
    (l m : PriceLevel) (id k : Uuid) (levels : Levels)
    → Ascending levels
    → Removes l m id k levels (remove_at l id levels)
unfolding remove_at depth
remove_at-Removes l m id k [] a = refl
remove_at-Removes l m id k ((n, q) ∷ levels) a = elim (Option-cases (take_order id q)) [
  | inl e ↦ ground (
    arith,
    take_order-Takes id k q,
    eq_of_parts l n,
    remove_at-Removes l m id k levels a.1,
    occurs_at-Above n id levels a.0,
  )
  | inr (r, e) ↦ ground (
    arith,
    take_order-Takes id k q,
    put_level-occurs n m k r.1 levels,
    eq_of_parts l n,
    remove_at-Removes l m id k levels a.1,
    occurs_at-Above n id levels a.0,
  )
]

-- A scan of a side finds the order, and takes one occurrence out, if there is one.
abbrev pub Scans : Uuid → Uuid → Levels → Option (OrderEntry × Levels) → Type 0
Scans id k levels none = occurs_in id levels ≡ 0
Scans id k levels (some (e, r)) =
    (e.id ≡ id)
    × (occurs_in k levels ≡ occurs_in k r + hit id k)
    × (orders levels ≡ suc (orders r))
    × (depth levels ≡ e.remaining_amount + depth r)

pub scan_levels-Scans : (id k : Uuid) (levels : Levels) → Scans id k levels (scan_levels id levels)
unfolding scan_levels depth
scan_levels-Scans id k [] = refl
scan_levels-Scans id k ((n, q) ∷ levels) = elim (Option-cases (take_order id q)) [
  | inl e ↦ ground (arith, take_order-Takes id k q, scan_levels-Scans id k levels)
  | inr (r, e) ↦ ground (arith, take_order-Takes id k q, put_level-occurs n n k r.1 levels)
]
