-- ===== src/Positions/Collateral.antt =====
-- backend/src/services/position/mod.rs: `add_collateral` and `remove_collateral`.
--
-- `parse_leverage` is the parse of a quotient as an `i32`, which fails on a text with a point. Both read
-- the cache first and write the table only. A failure of the cache is a miss, and an entry stays until
-- it is replaced.
pub mod Safety
pub mod Stale
use riabow_dex_backend.Prelude.{ℕ, Bool, true, false, Option, none, some, List, ◌∷◌, if◌then◌else◌}
use riabow_dex_backend.Prelude.Int.{ℤ, pos, ◌+ℤ◌, ◌-ℤ◌, ltb_ℤ}
use riabow_dex_backend.DecimalOps.{DecimalOps, safe_div_or}
use riabow_dex_backend.Positions.Types.{
  Position, PositionConfig, PositionStatus, open_position, closed, liquidated, PositionOutcome,
  done, failed, not_found, already_closed, insufficient_collateral,
  collateral_removal_would_liquidate,
}
use riabow_dex_backend.Positions.Formulas.{
  calculate_liquidation_price_from_position, check_liquidation,
}
use riabow_dex_backend.Positions.Store.{PositionStore, find_position, update_position}

unfoldable pub with_collateral :
    DecimalOps → (ℤ → Option ℤ) → PositionConfig → Position → ℤ → ℤ → Position
with_collateral o parse_leverage config p collateral quotient =
    let q = record p {
      collateral_amount = collateral;
      leverage = elim (parse_leverage quotient) [ none ↦ p.leverage | some n ↦ n ];
    } in
    record q {
      liquidation_price =
          calculate_liquidation_price_from_position o q config.maintenance_margin_rate;
    }

-- Only a position that is found and open changes.
unfoldable pub when_open : PositionStatus → PositionOutcome Position → PositionOutcome Position
when_open open_position out = out
when_open closed out = failed already_closed
when_open liquidated out = failed already_closed

unfoldable pub change_found :
    Option Position → (Position → PositionOutcome Position) → PositionOutcome Position
unfolding when_open
change_found none change = failed not_found
change_found (some p) change = when_open p.status (change p)

-- The tables, and the cache of positions by ids, when there is one.
pub record CachedStore : Type 0 where
  pub tables : PositionStore
  pub cache : Option (List Position)

abbrev pub cached_position : ℕ → Option (List Position) → Option Position
cached_position id none = none
cached_position id (some rows) = find_position id rows

-- `set_position`, in front of an older entry.
abbrev pub set_position : Position → Option (List Position) → Option (List Position)
set_position p none = none
set_position p (some rows) = some (p ∷ rows)

unfoldable pub read_table : Option Position → CachedStore → Option Position × CachedStore
read_table none s = (none, s)
read_table (some p) s = (some p, record s { cache = set_position p s.cache })

-- `get_position_by_id`
unfoldable pub get_position_by_id : ℕ → CachedStore → Option Position × CachedStore
unfolding find_position read_table
get_position_by_id id s = elim (cached_position id s.cache) [
  | none ↦ read_table (find_position id s.tables.positions) s
  | some p ↦ (some p, s)
]

unfoldable pub store_changed :
    PositionOutcome Position → CachedStore → PositionOutcome Position × CachedStore
unfolding update_position
store_changed (failed x) s = (failed x, s)
store_changed (done q) s = (
  done q,
  record s { tables = record s.tables { positions = update_position q s.tables.positions } },
)

unfoldable pub add_collateral :
    DecimalOps
    → (ℤ → Option ℤ)
    → PositionConfig
    → ℕ
    → ℤ
    → CachedStore
    → PositionOutcome Position × CachedStore
unfolding with_collateral get_position_by_id change_found store_changed safe_div_or
add_collateral o parse_leverage config id amount s =
    let (found, s') = get_position_by_id id s in
    store_changed
      (change_found found (λ p.
        let collateral = p.collateral_amount +ℤ amount in
        done (
          with_collateral o parse_leverage config p collateral
            (safe_div_or o p.size_in_usd collateral (pos 0)))))
      s'

-- The tests of a removal.
unfoldable pub remove_from :
    DecimalOps → (ℤ → Option ℤ) → PositionConfig → Position → ℤ → ℤ → PositionOutcome Position
unfolding with_collateral
remove_from o parse_leverage config p collateral price =
    if ltb_ℤ collateral config.min_collateral_usd
    then failed (insufficient_collateral config.min_collateral_usd collateral)
    else if (check_liquidation o config (record p { collateral_amount = collateral })
        price).is_liquidatable
    then failed collateral_removal_would_liquidate
    else done
        (with_collateral o parse_leverage config p collateral (o.div p.size_in_usd collateral))

unfoldable pub remove_collateral :
    DecimalOps
    → (ℤ → Option ℤ)
    → PositionConfig
    → ℕ
    → ℤ
    → ℤ
    → CachedStore
    → PositionOutcome Position × CachedStore
unfolding remove_from get_position_by_id change_found store_changed
remove_collateral o parse_leverage config id amount price s =
    let (found, s') = get_position_by_id id s in
    store_changed
      (change_found found
        (λ p. remove_from o parse_leverage config p (p.collateral_amount -ℤ amount) price))
      s'
