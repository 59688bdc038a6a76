-- ===== src/Margin/Opening.antt =====
-- Which positions the gate lets an account open.
use riabow_dex_backend.Prelude.{
  ℕ, ◌≡◌, ◌≢◌, refl, sym, ◌∙◌, ap, arith, Bool, true, false, ◌&&◌, Option, none, some, List, [],
  ◌∷◌, ◌++◌, append_assoc,
}
use riabow_dex_backend.Prelude.Int.{ℤ, pos, ◌+ℤ◌, ◌-ℤ◌, leb_ℤ, +ℤ_parts, -ℤ_parts}
use riabow_dex_backend.Margin.Tiers.{TierStore}
use riabow_dex_backend.Margin.Risk.{
  Division, Position, UnifiedRiskSnapshot, UnifiedAccountStatus, normal, warning_1, warning_2,
  reduce_only, liquidating, classify, gated, uni_mmr_of, maint_margin_of, missing_of,
  compute_risk_with_tiers,
}
use riabow_dex_backend.Margin.Totals.{all_missing, compute_risk-totals}
use riabow_dex_backend.Margin.Gate.{
  Reason, initial_margin_for, refusal, refusal_by_margin, simulate_open_with_tiers,
}

-- Whether an account of this status may open positions.
abbrev pub may_open : UnifiedAccountStatus → Bool
may_open normal = true
may_open warning_1 = true
may_open warning_2 = true
may_open reduce_only = false
may_open liquidating = false

-- Whether the ratio of the equity to the maintenance margin is 1.10 at least, or there is none.
abbrev pub is_enough : Option ℤ → Bool
is_enough none = true
is_enough (some m) = leb_ℤ (pos 1_100_000_000_000_000_000) m

abbrev pub opens : Option Reason → Bool
opens none = true
opens (some r) = false

refusal-opens :
    (status : UnifiedAccountStatus) (available_after : ℤ) (mmr : Option ℤ)
    → opens (refusal status available_after mmr)
      ≡ (may_open status && (leb_ℤ (pos 0) available_after && is_enough mmr))
unfolding refusal refusal_by_margin
refusal-opens status a mmr = ground arith

room : (e i n : ℤ) → leb_ℤ (pos 0) (e -ℤ (i +ℤ n)) ≡ leb_ℤ n (e -ℤ i)
room e i n = ground (arith, +ℤ_parts i n, -ℤ_parts e (i +ℤ n), -ℤ_parts e i)

gate_lem :
    (v : Division) (s : UnifiedRiskSnapshot) (symbol : ℕ) (notional leverage mmr : ℤ)
    (tiers : Option TierStore)
    → s.available_balance ≡ s.total_equity -ℤ s.total_initial_margin
    → ((simulate_open_with_tiers v s symbol notional leverage mmr tiers).can_open ≡ (
        may_open s.account_status
        && (leb_ℤ
              (simulate_open_with_tiers v s symbol notional leverage mmr tiers).new_initial_margin
              s.available_balance
            && is_enough
                (simulate_open_with_tiers v s symbol notional leverage mmr
                  tiers).simulated_uni_mmr)))
      × ((simulate_open_with_tiers v s symbol notional leverage mmr tiers).can_open
          ≡ opens (simulate_open_with_tiers v s symbol notional leverage mmr tiers).reason)
unfolding simulate_open_with_tiers
gate_lem v s symbol notional leverage mmr tiers h =
    let new = initial_margin_for v notional leverage in
    let after = s.total_equity -ℤ (s.total_initial_margin +ℤ new) in
    let sim =
      uni_mmr_of v s.total_equity
        (s.total_maint_margin +ℤ maint_margin_of tiers mmr symbol notional) in
    (
      refusal-opens s.account_status after sim
          ∙ ap (λ b. may_open s.account_status && (b && is_enough sim))
              (room s.total_equity s.total_initial_margin new ∙ ap (λ a. leb_ℤ new a) (sym h)),
      refl,
    )

-- The gate lets an account open a position exactly if the status of the account is not reduce-only
-- or liquidating, its available balance covers the new initial margin, and the ratio of its equity to
-- the maintenance margin with that of the new position is 1.10 at least, where there is one; there
-- is a reason exactly if it does not.
pub simulate_open-can_open :
    (v : Division) (wallet : ℤ) (ps : List Position) (marks : ℕ → Option ℤ) (mmr : ℤ)
    (tiers : Option TierStore) (symbol : ℕ) (notional leverage : ℤ)
    → let s = compute_risk_with_tiers v wallet ps marks mmr tiers in
      let r = simulate_open_with_tiers v s symbol notional leverage mmr tiers in
      (r.can_open ≡ (
        may_open s.account_status
        && (leb_ℤ r.new_initial_margin s.available_balance && is_enough r.simulated_uni_mmr)))
      × (r.can_open ≡ opens r.reason)
unfolding simulate_open_with_tiers compute_risk_with_tiers
simulate_open-can_open v wallet ps marks mmr tiers symbol notional leverage =
    gate_lem v (compute_risk_with_tiers v wallet ps marks mmr tiers) symbol notional leverage mmr
      tiers refl

gated-missing :
    (symbols : List ℕ) (status : UnifiedAccountStatus)
    → symbols ≢ []
    → may_open (gated symbols status) ≡ false
unfolding gated
gated-missing [] status h = absurd (h refl)
gated-missing (x ∷ xs) normal h = refl
gated-missing (x ∷ xs) warning_1 h = refl
gated-missing (x ∷ xs) warning_2 h = refl
gated-missing (x ∷ xs) reduce_only h = refl
gated-missing (x ∷ xs) liquidating h = refl

all_missing-append :
    (marks : ℕ → Option ℤ) (ps qs : List Position)
    → all_missing marks (ps ++ qs) ≡ all_missing marks ps ++ all_missing marks qs
all_missing-append marks [] qs = refl
all_missing-append marks (p ∷ ps) qs =
    ap (λ xs. missing_of marks p ++ xs) (all_missing-append marks ps qs)
    ∙ sym (append_assoc (missing_of marks p) (all_missing marks ps) (all_missing marks qs))

append-cons-nonempty : (xs : List ℕ) (y : ℕ) (ys : List ℕ) → xs ++ (y ∷ ys) ≢ []
append-cons-nonempty [] y ys e = absurd (ground arith)
append-cons-nonempty (x ∷ xs) y ys e = absurd (ground arith)

-- An account with a position whose symbol has no mark price, wherever it stands among its positions,
-- can open no position, whatever its balances and the new order are.
pub simulate_open-missing :
    (v : Division) (wallet : ℤ) (ps qs : List Position) (p : Position) (marks : ℕ → Option ℤ)
    (mmr : ℤ) (tiers : Option TierStore) (symbol : ℕ) (notional leverage : ℤ)
    → marks p.symbol ≡ none
    → (simulate_open_with_tiers v
        (compute_risk_with_tiers v wallet (ps ++ p ∷ qs) marks mmr tiers)
        symbol
        notional
        leverage
        mmr
        tiers).can_open
      ≡ false
unfolding compute_risk_with_tiers missing_of
simulate_open-missing v wallet ps qs p marks mmr tiers symbol notional leverage h =
    let s = compute_risk_with_tiers v wallet (ps ++ p ∷ qs) marks mmr tiers in
    let missing = compute_risk-totals v wallet (ps ++ p ∷ qs) marks mmr tiers in
    ground (
      arith,
      simulate_open-can_open v wallet (ps ++ p ∷ qs) marks mmr tiers symbol notional leverage,
      missing.4,
      all_missing-append marks ps (p ∷ qs),
      append-cons-nonempty (all_missing marks ps) p.symbol (all_missing marks qs),
      gated-missing s.missing_mark_symbols (classify s.uni_mmr),
    )
