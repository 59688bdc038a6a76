-- ===== src/Funding/Tests.antt =====
-- Funding of two positions of a market, in decimals of three digits.
use riabow_dex_backend.Prelude.{ℕ, ◌≡◌, refl, arith, some, List, [], ◌∷◌}
use riabow_dex_backend.Prelude.Int.{pos, negsuc}
use riabow_dex_backend.DecimalOps.Thousandths.{quotient, times, over, thousandths}
use riabow_dex_backend.Positions.Types.{short, Position}
use riabow_dex_backend.Positions.Store.{find_position}
use riabow_dex_backend.Positions.Tests.{bought, store}
use riabow_dex_backend.Funding.{
  FundingConfig, FundingRateInfo, FundingCache, OpenInterest, get_or_create_config,
  update_funding_rate,
}
use riabow_dex_backend.Funding.Settle.{FundingTables, get_funding_rate, settle_funding}
use riabow_dex_backend.Funding.Settle.Rates.{Updates, update_funding_rate-Updates}
use riabow_dex_backend.Funding.Settle.Totals.{Settles, settle_funding-Settles}

abbrev sold : Position
sold = record bought { id = 2; user_address = 8; side = short; size_in_usd = pos 400000 }

abbrev config : FundingConfig
config = record {
  symbol = 3;
  funding_interval_hours = pos 8;
  max_funding_rate = pos 10;
  min_funding_rate = negsuc 9;
  impact_pool_size = pos 0;
}

-- A rate of 0.5 %.
abbrev info : FundingRateInfo
info = record {
  symbol = 3;
  funding_rate = pos 5;
  funding_rate_per_hour = pos 0;
  mark_price = pos 110000;
  index_price = pos 110000;
  long_open_interest = pos 1000000;
  short_open_interest = pos 400000;
}

abbrev interest : List (ℕ × OpenInterest)
interest = (3, record { long = pos 1000000; short = pos 400000 }) ∷ []

abbrev tables : FundingTables
tables = record { store = record store { positions = bought ∷ sold ∷ [] }; settlements = [] }

abbrev cache : FundingCache
cache = record { funding_rates = (3, info) ∷ []; open_interest = interest }

settle_funding-Settles_example :
    Settles thousandths thousandths
      (λ n. n)
      3
      (get_funding_rate 3 ((3, info) ∷ []))
      tables
      (settle_funding thousandths thousandths (λ n. n) 3 ((3, info) ∷ []) tables)
unfolding find_position
settle_funding-Settles_example =
    settle_funding-Settles thousandths thousandths (λ n. n) 3 ((3, info) ∷ []) tables
      (refl, (refl, tt))

update_funding_rate-Updates_example : Updates 3 config cache (
    update_funding_rate thousandths 3
      (pos 110000)
      (pos 110000)
      (bought ∷ sold ∷ [])
      (config ∷ [])
      cache)
unfolding get_or_create_config
update_funding_rate-Updates_example =
    update_funding_rate-Updates thousandths 3 (pos 110000) (pos 110000) (bought ∷ sold ∷ [])
      (config ∷ []) cache (omega arith) (omega arith)

-- The long position pays 5 and the short one gets 2.
settled : (settle_funding thousandths thousandths (λ n. n) 3 ((3, info) ∷ []) tables).0 ≡ some 2
unfolding settle_funding quotient times over
settled = refl
