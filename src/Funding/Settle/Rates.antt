-- ===== src/Funding/Settle/Rates.antt =====
-- The rate that an update gives is the one that a settlement reads.
use riabow_dex_backend.Prelude.{
  ℕ, ◌≡◌, arith, refl, Bool, true, false, Option, none, some, List, [], ◌∷◌, if◌then◌else◌,
}
use riabow_dex_backend.Prelude.Int.{ℤ, pos, ◌≤ℤ◌, ◌==ℤ◌, eq_of_parts}
use riabow_dex_backend.DecimalOps.{DecimalOps}
use riabow_dex_backend.Positions.Types.{Position}
use riabow_dex_backend.Funding.{
  FundingConfig, FundingRateInfo, FundingCache, get_or_create_config, put_rate,
  query_open_interest_from_db, rate_info, calculate_funding_rate, update_funding_rate,
}
use riabow_dex_backend.Funding.Limits.{Within, calculate_funding_rate-Within}
use riabow_dex_backend.Funding.Settle.{get_funding_rate}

get-put_rate :
    (symbol : ℕ) (info : FundingRateInfo) (rows : List (ℕ × FundingRateInfo))
    → get_funding_rate symbol (put_rate symbol info rows) ≡ some info
unfolding get_funding_rate put_rate
get-put_rate symbol info [] = ground arith
get-put_rate symbol info ((s, i) ∷ rows) = ground (arith, get-put_rate symbol info rows)

-- An update fails for an interval of no hours, and then changes no rate; or the market has the new rate.
abbrev pub Updates :
    ℕ
    → FundingConfig
    → FundingCache
    → Option FundingRateInfo × List FundingConfig × FundingCache
    → Type 0
Updates symbol config cache (none, configs, cache') =
    (config.funding_interval_hours ≡ pos 0) × (cache' ≡ cache)
Updates symbol config cache (some info, configs, cache') =
    (get_funding_rate symbol cache'.funding_rates ≡ some info) × Within config info.funding_rate

updated :
    (b : Bool) (symbol : ℕ) (config : FundingConfig) (configs : List FundingConfig)
    (cache : FundingCache) (info : FundingRateInfo)
    → (b ≡ true → config.funding_interval_hours ≡ pos 0)
    → Within config info.funding_rate
    → Updates symbol config cache (
        if b then (none, configs, cache) else (
          some info,
          configs,
          record cache { funding_rates = put_rate symbol info cache.funding_rates },
        ))
updated true symbol config configs cache info zero within = (zero refl, refl)
updated false symbol config configs cache info zero within =
    (get-put_rate symbol info cache.funding_rates, within)

-- For a market whose limits, those of its row or the default ones, have 0 between them: an update of the
-- funding rate fails only for an interval of 0 hours, and then changes no rate; otherwise its rate is
-- within the limits, and it is the rate that the market has for a settlement.
pub update_funding_rate-Updates :
    (o : DecimalOps) (symbol : ℕ) (mark_price index_price : ℤ) (positions : List Position)
    (configs : List FundingConfig) (cache : FundingCache)
    → (get_or_create_config o symbol configs).0.min_funding_rate ≤ℤ pos 0
    → pos 0 ≤ℤ (get_or_create_config o symbol configs).0.max_funding_rate
    → Updates symbol
        (get_or_create_config o symbol configs).0
        cache
        (update_funding_rate o symbol mark_price index_price positions configs cache)
unfolding update_funding_rate rate_info calculate_funding_rate
update_funding_rate-Updates o symbol mark_price index_price positions configs cache below above =
    let (config, configs') = get_or_create_config o symbol configs in
    let oi = query_open_interest_from_db symbol positions in
    updated (config.funding_interval_hours ==ℤ pos 0) symbol config configs' cache
      (rate_info o symbol mark_price index_price config oi)
      (λ h. eq_of_parts config.funding_interval_hours (pos 0) (ground (arith, h)))
      (calculate_funding_rate-Within o oi.long oi.short config below above)
