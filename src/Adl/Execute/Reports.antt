-- ===== src/Adl/Execute/Reports.antt =====
-- What an event of auto-deleveraging reports is what it booked for the users.
use riabow_dex_backend.Prelude.{
  ℕ, ◌+◌, ◌≡◌, ◌≤◌, arith, refl, sym, Bool, true, false, Option, none, some, List, [], ◌∷◌,
  if◌then◌else◌, length,
}
use riabow_dex_backend.Prelude.Int.{ℤ, pos, ◌+ℤ◌, ◌≤ℤ◌, ◌<ℤ◌, leb_ℤ, +ℤ_parts}
use riabow_dex_backend.DecimalOps.{DecimalOps}
use riabow_dex_backend.Positions.Types.{PositionSide}
use riabow_dex_backend.Adl.Types.{
  AdlConfig, AdlEvent, AdlRanking, AdlStatus, adl_pending, adl_completed, adl_partial, adl_failed,
  AdlStore,
}
use riabow_dex_backend.Adl.Ranking.{get_rankings}
use riabow_dex_backend.Adl.Execute.{
  Outside, Progress, reduce_all, adl_event, finish_adl, start_adl, adl_status, run_adl, adl_with,
  execute_adl,
}
use riabow_dex_backend.Adl.Execute.Totals.{
  stat_total, events_of, KeepsClosed, KeepsClosed-refl, Booked, zero_plus, reduce_all-Booked,
}

-- How the status relates to the total.
abbrev pub Covers : AdlStatus → ℤ → ℤ → Type 0
Covers adl_completed shortfall total = shortfall ≤ℤ total
Covers adl_partial shortfall total = total <ℤ shortfall
Covers adl_failed shortfall total = total ≡ pos 0
Covers adl_pending shortfall total = ⊥

-- What an event that ended reports, and what it leaves.
abbrev pub Reports : ℤ → AdlStore → Option AdlEvent × AdlStore → Type 0
Reports shortfall s (none, s') = s' ≡ s
Reports shortfall s (some event, s') =
    (event.insurance_fund_shortfall ≡ shortfall)
    × Covers event.status shortfall event.total_pnl_realized
    × (stat_total (λ u. u.total_size_reduced) s'.stats
        ≡ stat_total (λ u. u.total_size_reduced) s.stats +ℤ event.total_reduced_size)
    × (stat_total (λ u. u.total_pnl_realized) s'.stats
        ≡ stat_total (λ u. u.total_pnl_realized) s.stats +ℤ event.total_pnl_realized)
    × (stat_total events_of s'.stats ≡ stat_total events_of s.stats +ℤ pos event.positions_affected)
    × (length s'.tables.pnl_events ≤ length s.tables.pnl_events + event.positions_affected)
    × KeepsClosed s.tables.positions s'.tables.positions

Covers-leb_ℤ :
    (b : Bool) (left total shortfall : ℤ)
    → leb_ℤ left (pos 0) ≡ b
    → left +ℤ total ≡ shortfall
    → Covers (if b then adl_completed else adl_partial) shortfall total
Covers-leb_ℤ true left total shortfall stop h = ground (arith, stop, h, +ℤ_parts left total)
Covers-leb_ℤ false left total shortfall stop h = ground (arith, stop, h, +ℤ_parts left total)

adl_status-Covers :
    (shortfall : ℤ) (g : Progress)
    → g.remaining_shortfall +ℤ g.total_pnl_realized ≡ shortfall
    → Covers (adl_status g) shortfall g.total_pnl_realized
adl_status-Covers shortfall g h =
    Covers-leb_ℤ (leb_ℤ g.remaining_shortfall (pos 0)) g.remaining_shortfall g.total_pnl_realized
      shortfall refl h

start_adl-Booked : (shortfall : ℤ) (s : AdlStore) → Booked shortfall s (start_adl shortfall s)
start_adl-Booked shortfall s = (
  zero_plus shortfall,
  sym (zero_plus (stat_total (λ u. u.total_size_reduced) s.stats)),
  sym (zero_plus (stat_total (λ u. u.total_pnl_realized) s.stats)),
  sym (zero_plus (stat_total events_of s.stats)),
  omega arith,
  KeepsClosed-refl s.tables.positions,
)

run_adl-Reports :
    (o : DecimalOps) (config : AdlConfig) (id symbol liquidation : ℕ) (shortfall : ℤ)
    (outsides : ℕ → Outside) (rs : List AdlRanking) (s : AdlStore)
    → Reports shortfall s (run_adl o config id symbol liquidation shortfall outsides rs s)
unfolding run_adl finish_adl adl_event
run_adl-Reports o config id symbol liquidation shortfall outsides [] s =
    let (left, size, pnl, count, events, old) = start_adl-Booked shortfall s in
    (refl, refl, size, pnl, count, events, old)
run_adl-Reports o config id symbol liquidation shortfall outsides (r ∷ rs) s =
    let g = reduce_all o config id symbol outsides (r ∷ rs) (start_adl shortfall s) in
    let (left, size, pnl, count, events, old) =
      reduce_all-Booked shortfall s o config id symbol outsides (r ∷ rs) (start_adl shortfall s)
        (start_adl-Booked shortfall s) in
    (refl, adl_status-Covers shortfall g left, size, pnl, count, events, old)

if-Reports :
    (b : Bool) (shortfall : ℤ) (s : AdlStore) (x : Option AdlEvent × AdlStore)
    → Reports shortfall s x
    → Reports shortfall s (if b then x else (none, s))
if-Reports true shortfall s x h = h
if-Reports false shortfall s x h = refl

adl_with-Reports :
    (o : DecimalOps) (id symbol liquidation : ℕ) (shortfall : ℤ) (side : PositionSide)
    (outsides : ℕ → Outside) (config : Option AdlConfig) (s : AdlStore)
    → Reports shortfall s (adl_with o id symbol liquidation shortfall side outsides config s)
unfolding adl_with
adl_with-Reports o id symbol liquidation shortfall side outsides none s = refl
adl_with-Reports o id symbol liquidation shortfall side outsides (some config) s =
    let rs = get_rankings symbol side config.max_positions_per_adl s.rankings in
    if-Reports config.enabled shortfall s
      (run_adl o config id symbol liquidation shortfall outsides rs s)
      (run_adl-Reports o config id symbol liquidation shortfall outsides rs s)

-- Auto-deleveraging either is refused and changes nothing, or ends in an event of the shortfall. The
-- statistics of all users together grow by exactly the size, the profit and the number of positions that
-- it reports; at most that many events of realized profit are written, also when inserts of them fail;
-- and no row of a position that is not open changes. The event is completed only when the profit that
-- it reports is at least the shortfall, partial only when it is less, and failed only when it is 0.
pub execute_adl-Reports :
    (o : DecimalOps) (id symbol liquidation : ℕ) (shortfall : ℤ) (side : PositionSide)
    (outsides : ℕ → Outside) (s : AdlStore)
    → Reports shortfall s (execute_adl o id symbol liquidation shortfall side outsides s)
unfolding execute_adl
execute_adl-Reports o id symbol liquidation shortfall side outsides s =
    adl_with-Reports o id symbol liquidation shortfall side outsides (s.configs symbol) s
