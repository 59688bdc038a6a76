-- ===== src/Spot/Commands/Funds.antt =====
-- No sequence of commands creates funds where no fee is negative.
use riabow_dex_backend.Prelude.{ℕ, ◌≡◌, arith, subst, Option, Option-cases, none, some, inl, inr}
use riabow_dex_backend.Prelude.Int.{◌≤ℤ◌}
use riabow_dex_backend.Decimals.{Decimals}
use riabow_dex_backend.Spot.Types.{SpotMarket, PlaceOrderRequest}
use riabow_dex_backend.Spot.Engine.{SpotEngine}
use riabow_dex_backend.Spot.Settle.Conservation.{NoRebate}
use riabow_dex_backend.Spot.Place.Safety.{held, leb_refl, leb_trans, leb_of_eq, place_limit-held}
use riabow_dex_backend.Spot.MarketOrder.Safety.{place_market-held}
use riabow_dex_backend.Spot.Cancel.{handle_cancel, handle_cancel_all, handle_cancel_market}
use riabow_dex_backend.Spot.Cancel.Outcomes.{handle_cancel-held, handle_cancel_all-held}
use riabow_dex_backend.Spot.Commands.{
  handle_new_order, OrderCommand, new_order, cancel, cancel_all, cancel_market, reload_market,
  snapshot, handle_command, Reach, here, next,
}

-- No market has a negative fee: one that may be there, those of a map, those of every command of a run.
abbrev NoRebateIn : Option SpotMarket → Type 0
NoRebateIn none = Unit
NoRebateIn (some m) = NoRebate m

abbrev pub NoRebates : (ℕ → Option SpotMarket) → Type 0
NoRebates markets = (id : ℕ) → NoRebateIn (markets id)

abbrev pub NeverRebates : {d : Decimals} {s t : SpotEngine} → Reach d s t → Type 0
NeverRebates here = Unit
NeverRebates (next r ids markets c) = NeverRebates r × NoRebates markets

fair_market :
    (markets : ℕ → Option SpotMarket) (id : ℕ) (m : SpotMarket)
    → NoRebates markets
    → markets id ≡ some m
    → NoRebate m
fair_market markets id m fair found = subst NoRebateIn found (fair id)

handle_new_order-held :
    (d : Decimals) (ids : ℕ → ℕ) (markets : ℕ → Option SpotMarket) (req : PlaceOrderRequest)
    (e : SpotEngine) (k : ℕ)
    → NoRebates markets
    → held k (handle_new_order d ids markets req e).1 ≤ℤ held k e
unfolding handle_new_order
handle_new_order-held d ids markets req e k fair = elim (Option-cases (markets req.market_id)) [
  | inl unknown ↦ ground arith
  | inr (m, found) ↦
      let fees = fair_market markets req.market_id m fair found in
      ground (arith, place_limit-held d ids req m e k fees, place_market-held d ids req m e k fees)
]

handle_command-held :
    (d : Decimals) (ids : ℕ → ℕ) (markets : ℕ → Option SpotMarket) (c : OrderCommand)
    (e : SpotEngine) (k : ℕ)
    → NoRebates markets
    → held k (handle_command d ids markets c e) ≤ℤ held k e
unfolding handle_command
handle_command-held d ids markets (new_order req) e k fair =
    handle_new_order-held d ids markets req e k fair
handle_command-held d ids markets (cancel id user) e k fair =
    leb_of_eq (held k (handle_cancel markets id user e).1) (held k e)
      (handle_cancel-held markets id user e k)
handle_command-held d ids markets (cancel_all user m) e k fair =
    leb_of_eq (held k (handle_cancel_all markets user m e).1) (held k e)
      (handle_cancel_all-held markets user m 0 e k).0
handle_command-held d ids markets (cancel_market m) e k fair =
    leb_of_eq (held k (handle_cancel_market markets m e).1) (held k e)
      (handle_cancel_all-held markets 0 none m e k).1
handle_command-held d ids markets (reload_market m) e k fair = leb_refl (held k e)
handle_command-held d ids markets (snapshot depth) e k fair = leb_refl (held k e)

-- No sequence of commands to the engine creates funds as long as no market has a negative fee:
-- whatever orders are placed and canceled, in whatever order, with whatever other changes of the
-- markets between them and whatever ids the database gives, all accounts together hold at most as much of each token, available or frozen, as before.
pub Reach-held :
    (d : Decimals) (s t : SpotEngine) (k : ℕ) (r : Reach d s t)
    → NeverRebates r
    → held k t ≤ℤ held k s
Reach-held d s t k here fair = leb_refl (held k s)
Reach-held d s t k (next {t = u} r ids markets c) (before, fair) =
    leb_trans (held k (handle_command d ids markets c u)) (held k u) (held k s)
      (handle_command-held d ids markets c u k fair) (Reach-held d s u k r before)
