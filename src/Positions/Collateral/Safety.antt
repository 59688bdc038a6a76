-- ===== src/Positions/Collateral/Safety.antt =====
-- What a change of collateral leaves.
use riabow_dex_backend.Prelude.{
  ℕ, ◌≡◌, arith, refl, false, Option, none, some, ap, Option-cases, inl, inr, List, [], ◌∷◌, ◌∙◌,
  subst,
}
use riabow_dex_backend.Prelude.Int.{ℤ, ◌+ℤ◌, ◌-ℤ◌, ◌≤ℤ◌, int_laws}
use riabow_dex_backend.DecimalOps.{DecimalOps}
use riabow_dex_backend.Positions.Types.{
  Position, PositionConfig, PositionStatus, open_position, closed, liquidated, PositionOutcome,
  done, failed,
}
use riabow_dex_backend.Positions.Formulas.{
  check_liquidation, calculate_remaining_collateral_usd, calculate_unrealized_pnl,
}
use riabow_dex_backend.Positions.Store.{PositionStore, find_position, update_position}
use riabow_dex_backend.Positions.Store.Rows.{find_position-id}
use riabow_dex_backend.Positions.Decrease.Remains.{Healthy, check_liquidation-Healthy}
use riabow_dex_backend.Positions.Collateral.{
  CachedStore, cached_position, read_table, get_position_by_id, with_collateral, when_open,
  change_found, store_changed, remove_from, remove_collateral,
}

-- A position `q` that is `p` with `amount` less collateral, which the guards let pass.
abbrev pub Removed : DecimalOps → PositionConfig → ℤ → ℤ → Position → Position → Type 0
Removed o config amount price p q =
    (q.id ≡ p.id)
    × (q.size_in_usd ≡ p.size_in_usd)
    × (q.size_in_tokens ≡ p.size_in_tokens)
    × (q.collateral_amount +ℤ amount ≡ p.collateral_amount)
    × (config.min_collateral_usd ≤ℤ q.collateral_amount)
    × Healthy o config price q

sub_then_add : (a b : ℤ) → a -ℤ b +ℤ b ≡ a
sub_then_add a b = grind int_laws

-- The test does not read what the change of collateral recomputes.
with_collateral-Healthy :
    (o : DecimalOps) (parse_leverage : ℤ → Option ℤ) (config : PositionConfig) (p : Position)
    (collateral quotient price : ℤ)
    → Healthy o config price (record p { collateral_amount = collateral })
    → Healthy o config price (with_collateral o parse_leverage config p collateral quotient)
unfolding with_collateral calculate_remaining_collateral_usd calculate_unrealized_pnl
with_collateral-Healthy o parse_leverage config p collateral quotient price h = h

remove_from-cases :
    (o : DecimalOps) (parse_leverage : ℤ → Option ℤ) (config : PositionConfig) (p q : Position)
    (n price : ℤ)
    → remove_from o parse_leverage config p n price ≡ done q
    → (config.min_collateral_usd ≤ℤ n)
      × ((check_liquidation o config (record p { collateral_amount = n }) price).is_liquidatable
          ≡ false)
      × (with_collateral o parse_leverage config p n (o.div p.size_in_usd n) ≡ q)
unfolding remove_from
remove_from-cases o parse_leverage config p q n price h = ground arith

changed-Removed :
    (o : DecimalOps) (parse_leverage : ℤ → Option ℤ) (config : PositionConfig) (p : Position)
    (amount price quotient : ℤ)
    → config.min_collateral_usd ≤ℤ p.collateral_amount -ℤ amount
    → Healthy o config price (record p { collateral_amount = p.collateral_amount -ℤ amount })
    → Removed o config amount price p
        (with_collateral o parse_leverage config p (p.collateral_amount -ℤ amount) quotient)
unfolding with_collateral
changed-Removed o parse_leverage config p amount price quotient large healthy = (
  refl,
  refl,
  refl,
  sub_then_add p.collateral_amount amount,
  large,
  with_collateral-Healthy o parse_leverage config p (p.collateral_amount -ℤ amount) quotient price
      healthy,
)

remove_from-Removed :
    (o : DecimalOps) (parse_leverage : ℤ → Option ℤ) (config : PositionConfig) (p q : Position)
    (amount price : ℤ)
    → remove_from o parse_leverage config p (p.collateral_amount -ℤ amount) price ≡ done q
    → Removed o config amount price p q
remove_from-Removed o parse_leverage config p q amount price h =
    let n = p.collateral_amount -ℤ amount in
    let (large, safe, made) = remove_from-cases o parse_leverage config p q n price h in
    subst (Removed o config amount price p) made (
      changed-Removed o parse_leverage config p amount price (o.div p.size_in_usd n) large
        (check_liquidation-Healthy o config (record p { collateral_amount = n }) price safe))

-- What is found in the table after a write of `q` to the row of an id.
abbrev pub written : Position → Option Position → Option Position
written q none = none
written q (some row) = some q

-- What an operation leaves, by its result: the tables are as they were, or the position that was read, of
-- the cache or else of the table, was open, and its row, if there is one, is replaced.
abbrev pub Leaves :
    (Position → Position → Type 0)
    → ℕ
    → CachedStore
    → PositionOutcome Position × CachedStore
    → Type 0
Leaves P id s (failed x, s') = s'.tables ≡ s.tables
Leaves P id s (done q, s') =
    (p : Position) × ((get_position_by_id id s).0 ≡ some p)
    × (p.status ≡ open_position)
    × (find_position id s'.tables.positions ≡ written q (find_position id s.tables.positions))
    × P p q

update-written :
    (id : ℕ) (q : Position) (ps : List Position)
    → q.id ≡ id
    → find_position id (update_position q ps) ≡ written q (find_position id ps)
unfolding find_position update_position
update-written id q [] h = refl
update-written id q (p ∷ ps) h = ground (arith, h, update-written id q ps)

-- Reading changes no table and gives a position with the id.
read-tables : (id : ℕ) (s : CachedStore) → (get_position_by_id id s).1.tables ≡ s.tables
unfolding get_position_by_id read_table
read-tables id s = ground arith

cached_position-id :
    (id : ℕ) (cache : Option (List Position)) (p : Position)
    → cached_position id cache ≡ some p
    → p.id ≡ id
cached_position-id id none p h = ground arith
cached_position-id id (some rows) p h = find_position-id id rows p h

read-id :
    (id : ℕ) (s : CachedStore) (p : Position) → (get_position_by_id id s).0 ≡ some p → p.id ≡ id
unfolding get_position_by_id read_table
read-id id s p h = elim (Option-cases (cached_position id s.cache)) [
  | inl miss ↦ elim (Option-cases (find_position id s.tables.positions)) [
    | inl absent ↦ ground arith
    | inr (row, found) ↦ ground (arith, find_position-id id s.tables.positions row found)
  ]
  | inr (row, hit) ↦ ground (arith, cached_position-id id s.cache row hit)
]

open-Leaves :
    (P : Position → Position → Type 0) (id : ℕ) (s t : CachedStore) (p : Position)
    (status : PositionStatus) (out : PositionOutcome Position)
    → t.tables ≡ s.tables
    → (get_position_by_id id s).0 ≡ some p
    → p.status ≡ status
    → ((q : Position) → out ≡ done q → (q.id ≡ p.id) × P p q)
    → Leaves P id s (store_changed (when_open status out) t)
unfolding store_changed when_open
open-Leaves P id s t p open_position (failed x) same found is_open h = same
open-Leaves P id s t p open_position (done q) same found is_open h =
    let (key, holds) = h q refl in
    (
      p,
      found,
      is_open,
      update-written id q t.tables.positions (key ∙ read-id id s p found)
          ∙ ap (λ (x : PositionStore). written q (find_position id x.positions)) same,
      holds,
    )
open-Leaves P id s t p closed out same found is_open h = same
open-Leaves P id s t p liquidated out same found is_open h = same

change_found-Leaves :
    (P : Position → Position → Type 0) (id : ℕ) (s t : CachedStore)
    (change : Position → PositionOutcome Position) (found : Option Position)
    → t.tables ≡ s.tables
    → (get_position_by_id id s).0 ≡ found
    → ((p q : Position) → change p ≡ done q → (q.id ≡ p.id) × P p q)
    → Leaves P id s (store_changed (change_found found change) t)
unfolding change_found store_changed
change_found-Leaves P id s t change none same found h = same
change_found-Leaves P id s t change (some p) same found h =
    open-Leaves P id s t p p.status (change p) same found refl (h p)

-- Removing collateral either fails and changes no table, or the position that is read, from the cache or
-- else from the table, is open; then the row with its id, if there is one, becomes that position with
-- its size and tokens, with exactly the amount less of collateral than was read, which is at least the
-- minimum, and with a remaining collateral at the price that is positive, at least the minimum and at
-- least the maintenance margin.
pub remove_collateral-Removed :
    (o : DecimalOps) (parse_leverage : ℤ → Option ℤ) (config : PositionConfig) (id : ℕ)
    (amount price : ℤ) (s : CachedStore)
    → Leaves
        (Removed o config amount price)
        id
        s
        (remove_collateral o parse_leverage config id amount price s)
unfolding remove_collateral
remove_collateral-Removed o parse_leverage config id amount price s =
    change_found-Leaves (Removed o config amount price) id s (get_position_by_id id s).1
      (λ p. remove_from o parse_leverage config p (p.collateral_amount -ℤ amount) price)
      (get_position_by_id id s).0 (read-tables id s) refl
      (λ p q h.
        let removed = remove_from-Removed o parse_leverage config p q amount price h in
        (removed.0, removed))
