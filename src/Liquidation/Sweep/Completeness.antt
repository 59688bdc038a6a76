-- ===== src/Liquidation/Sweep/Completeness.antt =====
-- A run over a market leaves no position that is to be liquidated.
use riabow_dex_backend.Prelude.{
  ℕ, ◌+◌, ◌≡◌, ◌⊎◌, inl, inr, arith, sym, ap, subst, ◌∙◌, Bool, true, false, none, some, List, [],
  ◌∷◌, length, Bool-cases, All,
}
use riabow_dex_backend.Prelude.Int.{ℤ}
use riabow_dex_backend.DecimalOps.{DecimalOps}
use riabow_dex_backend.Positions.Types.{Position, liquidated}
use riabow_dex_backend.Positions.Store.{PositionStore, is_open, find_position}
use riabow_dex_backend.Positions.Store.Rows.{find_position-id, update-find, update-find_back}
use riabow_dex_backend.Liquidation.Types.{
  LiquidationConfig, LiquidationStats, LiquidationStore, get_config,
}
use riabow_dex_backend.Liquidation.Conditions.{should_liquidate}
use riabow_dex_backend.Liquidation.Execute.{
  LiquidationOutcome, liquidation_done, position_not_found, position_not_open, execute_liquidation,
}
use riabow_dex_backend.Liquidation.Execute.Once.{Executed, execute_liquidation-Executed}
use riabow_dex_backend.Liquidation.Sweep.{
  is_candidate, candidates, liquidate_if, liquidate_all, no_stats, check_and_liquidate_market,
}

-- An open row of `s'` is a row of `s`.
abbrev pub Keeps : LiquidationStore → LiquidationStore → Type 0
Keeps s s' =
    (id : ℕ) (q : Position)
    → find_position id s'.tables.positions ≡ some q
    → is_open q.status ≡ true
    → find_position id s.tables.positions ≡ some q

-- The position with an id, if there is one, is not open.
abbrev Settled : ℕ → LiquidationStore → Type 0
Settled id s =
    (q : Position) → find_position id s.tables.positions ≡ some q → is_open q.status ≡ false

back-Keeps :
    (ps : List Position) (q r : Position) (id : ℕ)
    → q.status ≡ liquidated
    → is_open r.status ≡ true
    → (r ≡ q) ⊎ (find_position id ps ≡ some r)
    → find_position id ps ≡ some r
back-Keeps ps q r id dead live (inl same) = ground (arith, dead, live, same)
back-Keeps ps q r id dead live (inr found) = found

Executed-Keeps :
    (key : ℕ) (s : LiquidationStore) (x : LiquidationOutcome × LiquidationStore)
    → Executed key s x
    → Keeps s x.1
Executed-Keeps key s (liquidation_done r, s') (p, found, live, (q, same, dead, written)) =
    λ id r' h k.
      back-Keeps s.tables.positions q r' id dead k
        (update-find_back id s.tables.positions q r' (sym (ap (find_position id) written) ∙ h))
Executed-Keeps key s (position_not_found, s') (found, kept) =
    λ id q h k. sym (ap (λ (y : PositionStore). find_position id y.positions) kept) ∙ h
Executed-Keeps key s (position_not_open, s') (p, found, dead, kept) =
    λ id q h k. sym (ap (λ (y : PositionStore). find_position id y.positions) kept) ∙ h

Executed-Settled :
    (key : ℕ) (s : LiquidationStore) (x : LiquidationOutcome × LiquidationStore)
    → Executed key s x
    → Settled key x.1
Executed-Settled key s (liquidation_done r, s') (p, found, live, (q, same, dead, written)) = λ r' h.
    let now = ap (find_position key) written ∙ update-find key s.tables.positions p q found same in
    ground (arith, h, now, dead)
Executed-Settled key s (position_not_found, s') (found, kept) =
    λ q h. ground (arith, h, found, ap (λ (y : PositionStore). find_position key y.positions) kept)
Executed-Settled key s (position_not_open, s') (p, found, dead, kept) = λ q h.
    ground (arith, h, found, dead, ap (λ (y : PositionStore). find_position key y.positions) kept)

Settled-Keeps : (id : ℕ) (s s' : LiquidationStore) → Keeps s s' → Settled id s → Settled id s'
Settled-Keeps id s s' keeps h = λ q found. elim (Bool-cases (is_open q.status)) [
  | inl live ↦ ground (arith, live, h q (keeps id q found live))
  | inr dead ↦ dead
]

liquidate_if-Keeps :
    (o : DecimalOps) (config : LiquidationConfig) (id : ℕ) (mark : ℤ) (p : Position) (b : Bool)
    (x : LiquidationStats × LiquidationStore)
    → Keeps x.1 (liquidate_if o config id mark p b x).1
unfolding liquidate_if
liquidate_if-Keeps o config id mark p false (stats, s) = λ key q h k. h
liquidate_if-Keeps o config id mark p true (stats, s) =
    Executed-Keeps p.id s (execute_liquidation o id p mark none s)
      (execute_liquidation-Executed o id p mark none s)

liquidate_if-Settled :
    (o : DecimalOps) (config : LiquidationConfig) (id : ℕ) (mark : ℤ) (p : Position) (b : Bool)
    (x : LiquidationStats × LiquidationStore)
    → b ≡ true
    → Settled p.id (liquidate_if o config id mark p b x).1
unfolding liquidate_if
liquidate_if-Settled o config id mark p false (stats, s) h = ground (arith, h)
liquidate_if-Settled o config id mark p true (stats, s) h =
    Executed-Settled p.id s (execute_liquidation o id p mark none s)
      (execute_liquidation-Executed o id p mark none s)

liquidate_all-Keeps :
    (o : DecimalOps) (config : LiquidationConfig) (ids : ℕ → ℕ) (n : ℕ) (mark : ℤ)
    (ps : List Position) (x : LiquidationStats × LiquidationStore)
    → Keeps x.1 (liquidate_all o config ids n mark ps x).1
unfolding liquidate_all
liquidate_all-Keeps o config ids n mark [] x = λ key q h k. h
liquidate_all-Keeps o config ids n mark (p ∷ ps) x = λ key q h k.
    let y = liquidate_if o config (ids n) mark p (should_liquidate o p mark config) x in
    liquidate_if-Keeps o config (ids n) mark p (should_liquidate o p mark config) x key q
      (liquidate_all-Keeps o config ids (n + 1) mark ps y key q h k) k

-- Every position that was to be liquidated is no longer open.
abbrev Due : DecimalOps → LiquidationConfig → ℤ → LiquidationStore → Position → Type 0
Due o config mark s p = should_liquidate o p mark config ≡ true → Settled p.id s

liquidate_all-Due :
    (o : DecimalOps) (config : LiquidationConfig) (ids : ℕ → ℕ) (n : ℕ) (mark : ℤ)
    (ps : List Position) (x : LiquidationStats × LiquidationStore)
    → All (Due o config mark (liquidate_all o config ids n mark ps x).1) ps
unfolding liquidate_all
liquidate_all-Due o config ids n mark [] x = tt
liquidate_all-Due o config ids n mark (p ∷ ps) x =
    let y = liquidate_if o config (ids n) mark p (should_liquidate o p mark config) x in
    (
      λ due.
          Settled-Keeps p.id y.1 (liquidate_all o config ids (n + 1) mark ps y).1
            (liquidate_all-Keeps o config ids (n + 1) mark ps y)
            (liquidate_if-Settled o config (ids n) mark p (should_liquidate o p mark config) x due),
      liquidate_all-Due o config ids (n + 1) mark ps y,
    )

find-cons :
    (id : ℕ) (q p : Position) (ps : List Position)
    → find_position id (q ∷ ps) ≡ some p
    → (q ≡ p) ⊎ (find_position id ps ≡ some p)
unfolding find_position
find-cons id q p ps h = ground arith

candidates-cons :
    (isolated : ℕ → Bool) (symbol : ℕ) (q : Position) (ps : List Position)
    → ((is_candidate isolated symbol q ≡ true)
        × (candidates isolated symbol (q ∷ ps) ≡ q ∷ candidates isolated symbol ps))
      ⊎ ((is_candidate isolated symbol q ≡ false)
          × (candidates isolated symbol (q ∷ ps) ≡ candidates isolated symbol ps))
unfolding candidates
candidates-cons isolated symbol q ps = ground arith

-- What holds of all candidates holds of a candidate that is found.
candidates-All :
    (isolated : ℕ → Bool) (symbol : ℕ) (P : Position → Type 0) (ps : List Position) (id : ℕ)
    (p : Position)
    → find_position id ps ≡ some p
    → is_candidate isolated symbol p ≡ true
    → All P (candidates isolated symbol ps)
    → P p
unfolding candidates find_position
candidates-All isolated symbol P [] id p found due h = ground (arith, found)
candidates-All isolated symbol P (q ∷ ps) id p found due h =
    elim (candidates-cons isolated symbol q ps) [
      | inl (is, cons) ↦
          let (first, rest) = subst (All P) cons h in
          elim (find-cons id q p ps found) [
            | inl same ↦ subst P same first
            | inr later ↦ candidates-All isolated symbol P ps id p later due rest
          ]
      | inr (is, cons) ↦ elim (find-cons id q p ps found) [
        | inl same ↦ ground (arith, is, due, same)
        | inr later ↦ candidates-All isolated symbol P ps id p later due (subst (All P) cons h)
      ]
    ]

-- After a run over a market at a mark price, no position in it of an isolated user that is open is
-- one that the engine would liquidate at that price by the configuration that the run read.
pub check_and_liquidate_market_complete :
    (o : DecimalOps) (isolated : ℕ → Bool) (ids : ℕ → ℕ) (symbol : ℕ) (mark : ℤ)
    (s : LiquidationStore) (id : ℕ) (p : Position)
    → find_position id
        (check_and_liquidate_market o isolated ids symbol (some mark) s).1.tables.positions
      ≡ some p
    → is_candidate isolated symbol p ≡ true
    → should_liquidate o p mark (get_config o symbol s).0 ≡ false
unfolding check_and_liquidate_market
check_and_liquidate_market_complete o isolated ids symbol mark s id p found due =
    let config = (get_config o symbol s).0 in
    let s' = (get_config o symbol s).1 in
    let ps = candidates isolated symbol s'.tables.positions in
    let start : LiquidationStats × LiquidationStore = (no_stats (length ps), s') in
    let final = (liquidate_all o config ids 0 mark ps start).1 in
    let live : is_open p.status ≡ true = ground (arith, due) in
    let before = liquidate_all-Keeps o config ids 0 mark ps start id p found live in
    let settled =
      candidates-All isolated symbol (Due o config mark final) s'.tables.positions id p before due
        (liquidate_all-Due o config ids 0 mark ps start) in
    elim (Bool-cases (should_liquidate o p mark config)) [
      | inl due_now ↦ ground (
        arith,
        live,
        settled due_now p (
            ap (λ i. find_position i final.tables.positions)
              (find_position-id id final.tables.positions p found)
            ∙ found),
      )
      | inr kept ↦ kept
    ]
