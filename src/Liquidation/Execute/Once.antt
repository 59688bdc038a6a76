-- ===== src/Liquidation/Execute/Once.antt =====
-- A liquidation is not repeated by liquidations, and closes what it is about.
use riabow_dex_backend.Prelude.{
  ℕ, ◌≡◌, arith, refl, sym, ap, subst, ◌∙◌, false, Option, none, some, List, [], ◌∷◌, ◌==◌,
  Bool-cases, inl, inr,
}
use riabow_dex_backend.Prelude.Int.{ℤ}
use riabow_dex_backend.DecimalOps.{DecimalOps}
use riabow_dex_backend.Positions.Types.{Position, PositionStatus, open_position, closed, liquidated}
use riabow_dex_backend.Positions.Store.{
  PositionStore, is_open, find_position, update_position, cleanup_frozen,
}
use riabow_dex_backend.Positions.Store.Rows.{find_position-id, update-find}
use riabow_dex_backend.Liquidation.Types.{
  LiquidationConfig, LiquidationResult, LiquidationStore, get_config, config_or, find_fund,
}
use riabow_dex_backend.Liquidation.Execute.{
  LiquidationOutcome, liquidation_done, position_not_found, position_not_open, Assessment, assess,
  liquidated_position, liquidate_tables, settle_fund, look_up_fund, put_record, liquidate,
  liquidate_open, liquidate_found, execute_liquidation,
}

cleanup-positions : (user : ℕ) (s : PositionStore) → (cleanup_frozen user s).positions ≡ s.positions
unfolding cleanup_frozen
cleanup-positions user s = ground arith

liquidate_tables-positions :
    (o : DecimalOps) (p : Position) (a : Assessment) (mark : ℤ) (s : PositionStore)
    → (liquidate_tables o p a mark s).positions
      ≡ update_position (liquidated_position p a) s.positions
unfolding liquidate_tables
liquidate_tables-positions o p a mark s = cleanup-positions p.user_address _

settle_fund-tables :
    (id : ℕ) (p : Position) (a : Assessment) (s : LiquidationStore)
    → (settle_fund id p a s).tables ≡ s.tables
unfolding settle_fund
settle_fund-tables id p a s = ground arith

look_up_fund-tables :
    (p : Position) (a : Assessment) (s : LiquidationStore) → (look_up_fund p a s).tables ≡ s.tables
unfolding look_up_fund
look_up_fund-tables p a s = ground arith

pub get_config-tables :
    (o : DecimalOps) (symbol : ℕ) (s : LiquidationStore)
    → (get_config o symbol s).1.tables ≡ s.tables
unfolding get_config config_or
get_config-tables o symbol s = ground arith

put_record-tables :
    (id : ℕ) (p : Position) (a : Assessment) (mark : ℤ) (liquidator : Option ℕ)
    (s : LiquidationStore)
    → (put_record id p a mark liquidator s).tables ≡ s.tables
unfolding put_record
put_record-tables id p a mark liquidator s = look_up_fund-tables p a s

-- The rows are kept, or one takes the place of that with its id, and is liquidated.
abbrev Wrote : ℕ → LiquidationStore → LiquidationStore → Type 0
Wrote id s s' =
    (q : Position) × (q.id ≡ id)
    × (q.status ≡ liquidated)
    × (s'.tables.positions ≡ update_position q s.tables.positions)

liquidate-Wrote :
    (o : DecimalOps) (config : LiquidationConfig) (id : ℕ) (p : Position) (mark : ℤ)
    (liquidator : Option ℕ) (s : LiquidationStore)
    → Wrote p.id s (liquidate o config id p mark liquidator s).1
unfolding liquidate liquidated_position
liquidate-Wrote o config id p mark liquidator s =
    let a = assess o config p mark liquidator (find_fund p.symbol s.funds).balance in
    let t = put_record id p a mark liquidator s in
    (
      liquidated_position p a,
      refl,
      refl,
      liquidate_tables-positions o p a mark (settle_fund id p a t).tables
          ∙ ap (λ (x : PositionStore). update_position (liquidated_position p a) x.positions)
              (settle_fund-tables id p a t ∙ put_record-tables id p a mark liquidator s),
    )

-- What an execution leaves, by its result.
abbrev pub Executed : ℕ → LiquidationStore → LiquidationOutcome × LiquidationStore → Type 0
Executed id s (liquidation_done r, s') =
    (p : Position) × (find_position id s.tables.positions ≡ some p)
    × (p.status ≡ open_position)
    × Wrote id s s'
Executed id s (position_not_found, s') =
    (find_position id s.tables.positions ≡ none) × (s'.tables ≡ s.tables)
Executed id s (position_not_open, s') =
    (p : Position) × (find_position id s.tables.positions ≡ some p)
    × (is_open p.status ≡ false)
    × (s'.tables ≡ s.tables)

liquidate_open-Executed :
    (o : DecimalOps) (config : LiquidationConfig) (id key : ℕ) (p : Position)
    (status : PositionStatus) (mark : ℤ) (liquidator : Option ℕ) (s : LiquidationStore)
    → p.status ≡ status
    → find_position key s.tables.positions ≡ some p
    → Executed key s (liquidate_open o config id p status mark liquidator s)
unfolding liquidate_open liquidate
liquidate_open-Executed o config id key p open_position mark liquidator s status found = (
  p,
  found,
  status,
  subst (λ k. Wrote k s (liquidate o config id p mark liquidator s).1)
      (find_position-id key s.tables.positions p found)
      (liquidate-Wrote o config id p mark liquidator s),
)
liquidate_open-Executed o config id key p closed mark liquidator s status found =
    (p, found, ap is_open status, refl)
liquidate_open-Executed o config id key p liquidated mark liquidator s status found =
    (p, found, ap is_open status, refl)

liquidate_found-Executed :
    (o : DecimalOps) (config : LiquidationConfig) (id key : ℕ) (found : Option Position) (mark : ℤ)
    (liquidator : Option ℕ) (s : LiquidationStore)
    → find_position key s.tables.positions ≡ found
    → Executed key s (liquidate_found o config id found mark liquidator s)
unfolding liquidate_found
liquidate_found-Executed o config id key none mark liquidator s found = (found, refl)
liquidate_found-Executed o config id key (some p) mark liquidator s found =
    liquidate_open-Executed o config id key p p.status mark liquidator s refl found

-- Only the tables of positions matter.
Executed-tables :
    (id : ℕ) (s t : LiquidationStore) (x : LiquidationOutcome × LiquidationStore)
    → t.tables ≡ s.tables
    → Executed id t x
    → Executed id s x
Executed-tables id s t (liquidation_done r, s') h (p, found, is_open, (q, same, status, written)) =
    (
      p,
      sym (ap (λ (y : PositionStore). find_position id y.positions) h) ∙ found,
      is_open,
      (q, same, status, written ∙ ap (λ (y : PositionStore). update_position q y.positions) h),
    )
Executed-tables id s t (position_not_found, s') h (found, kept) =
    (sym (ap (λ (y : PositionStore). find_position id y.positions) h) ∙ found, kept ∙ h)
Executed-tables id s t (position_not_open, s') h (p, found, status, kept) =
    (p, sym (ap (λ (y : PositionStore). find_position id y.positions) h) ∙ found, status, kept ∙ h)

pub execute_liquidation-Executed :
    (o : DecimalOps) (id : ℕ) (position : Position) (mark : ℤ) (liquidator : Option ℕ)
    (s : LiquidationStore)
    → Executed position.id s (execute_liquidation o id position mark liquidator s)
unfolding execute_liquidation
execute_liquidation-Executed o id position mark liquidator s =
    let t = (get_config o position.symbol s).1 in
    Executed-tables position.id s t
      (liquidate_found o (get_config o position.symbol s).0 id
        (find_position position.id t.tables.positions) mark liquidator t)
      (get_config-tables o position.symbol s)
      (liquidate_found-Executed o (get_config o position.symbol s).0 id position.id
        (find_position position.id t.tables.positions) mark liquidator t refl)

-- A position that is not open is refused.
Executed-refused :
    (id : ℕ) (s : LiquidationStore) (p : Position) (x : LiquidationOutcome × LiquidationStore)
    → find_position id s.tables.positions ≡ some p
    → p.status ≡ liquidated
    → Executed id s x
    → (x.0 ≡ position_not_open) × (x.1.tables ≡ s.tables)
Executed-refused id s p (liquidation_done r, s') found status (q, found', is_open, wrote) =
    ground (arith, found, found', status, is_open)
Executed-refused id s p (position_not_found, s') found status (found', kept) =
    ground (arith, found, found')
Executed-refused id s p (position_not_open, s') found status (q, found', is_open, kept) =
    (refl, kept)

-- The row of the id is that of a liquidated position.
abbrev Gone : ℕ → LiquidationStore → Type 0
Gone id s =
    (q : Position) × (find_position id s.tables.positions ≡ some q) × (q.status ≡ liquidated)

update-other :
    (id : ℕ) (q : Position) (ps : List Position)
    → (id == q.id) ≡ false
    → find_position id (update_position q ps) ≡ find_position id ps
unfolding find_position update_position
update-other id q [] h = refl
update-other id q (p ∷ ps) h = ground (arith, h, update-other id q ps)

-- No liquidation brings a position back.
Executed-Gone :
    (id key : ℕ) (s : LiquidationStore) (x : LiquidationOutcome × LiquidationStore)
    → Gone id s
    → Executed key s x
    → Gone id x.1
Executed-Gone id key s (liquidation_done r, s') (q, found, status)
      (p, found', is_open, (q', same, status', written)) =
    elim (Bool-cases (id == q'.id)) [
      | inl equal ↦ (
        q',
        ap (find_position id) written
            ∙ update-find id s.tables.positions q q' found (ground (arith, equal)),
        status',
      )
      | inr other ↦ (
        q,
        ap (find_position id) written ∙ update-other id q' s.tables.positions other ∙ found,
        status,
      )
    ]
Executed-Gone id key s (position_not_found, s') (q, found, status) (missing, kept) =
    (q, ap (λ (y : PositionStore). find_position id y.positions) kept ∙ found, status)
Executed-Gone id key s (position_not_open, s') (q, found, status) (p, found', shut, kept) =
    (q, ap (λ (y : PositionStore). find_position id y.positions) kept ∙ found, status)

-- A call of `execute_liquidation`: the id of its record, the position, the price and the liquidator.
pub record Attempt : Type 0 where
  pub record_id : ℕ
  pub position : Position
  pub mark_price : ℤ
  pub liquidator : Option ℕ

abbrev pub attempt : DecimalOps → Attempt → LiquidationStore → LiquidationOutcome × LiquidationStore
attempt o a s = execute_liquidation o a.record_id a.position a.mark_price a.liquidator s

-- Calls one after the other.
abbrev pub attempts : DecimalOps → List Attempt → LiquidationStore → LiquidationStore
attempts o [] s = s
attempts o (a ∷ later) s = attempts o later (attempt o a s).1

attempts-Gone :
    (o : DecimalOps) (id : ℕ) (later : List Attempt) (s : LiquidationStore)
    → Gone id s
    → Gone id (attempts o later s)
attempts-Gone o id [] s h = h
attempts-Gone o id (a ∷ later) s h = attempts-Gone o id later (attempt o a s).1 (
    Executed-Gone id a.position.id s (attempt o a s) h
      (execute_liquidation-Executed o a.record_id a.position a.mark_price a.liquidator s))

done-Gone :
    (o : DecimalOps) (a : Attempt) (s s' : LiquidationStore) (r : LiquidationResult)
    → attempt o a s ≡ (liquidation_done r, s')
    → Gone a.position.id s'
done-Gone o a s s' r h =
    let (p, found, is_open, (q, key, status, written)) =
      subst (Executed a.position.id s) h
        (execute_liquidation-Executed o a.record_id a.position a.mark_price a.liquidator s) in
    (
      q,
      ap (find_position a.position.id) written
          ∙ update-find a.position.id s.tables.positions p q found key,
      status,
    )

-- When a liquidation is done and only liquidations follow, of whatever positions and at whatever prices,
-- then one more of the same position is refused as not open, whatever its price and liquidator are, and
-- changes neither positions nor balances nor any other table of the position service.
pub execute_liquidation-refused :
    (o : DecimalOps) (a b : Attempt) (between : List Attempt) (s s' : LiquidationStore)
    (r : LiquidationResult)
    → attempt o a s ≡ (liquidation_done r, s')
    → b.position.id ≡ a.position.id
    → ((attempt o b (attempts o between s')).0 ≡ position_not_open)
      × ((attempt o b (attempts o between s')).1.tables ≡ (attempts o between s').tables)
execute_liquidation-refused o a b between s s' r h same =
    let t = attempts o between s' in
    let (q, found, status) = attempts-Gone o a.position.id between s' (done-Gone o a s s' r h) in
    Executed-refused b.position.id t q (attempt o b t)
      (ap (λ id. find_position id t.tables.positions) same ∙ found) status
      (execute_liquidation-Executed o b.record_id b.position b.mark_price b.liquidator t)
