-- ===== src/Funding.antt =====
-- backend/src/services/funding_rate/mod.rs: open interest and the funding rate.
--
-- Symbols are numbers. Times are left out, and so are the rows of the history of rates. The database
-- does not fail.
pub mod Limits
pub mod Settle
mod Tests
use riabow_dex_backend.Prelude.{ℕ, ◌&&◌, Option, none, some, List, [], ◌∷◌, if◌then◌else◌, ◌==◌}
use riabow_dex_backend.Prelude.Int.{ℤ, pos, negsuc, ◌+ℤ◌, ◌-ℤ◌, ◌==ℤ◌, leb_ℤ, ltb_ℤ}
use riabow_dex_backend.DecimalOps.{DecimalOps, from_int, safe_div_or, max_ℤ, min_ℤ}
use riabow_dex_backend.Positions.Types.{PositionSide, long, short, Position}
use riabow_dex_backend.Positions.Store.{is_open, same_side}

pub record FundingConfig : Type 0 where
  pub symbol : ℕ
  pub funding_interval_hours : ℤ
  pub max_funding_rate : ℤ
  pub min_funding_rate : ℤ
  pub impact_pool_size : ℤ

pub record FundingRateInfo : Type 0 where
  pub symbol : ℕ
  pub funding_rate : ℤ
  pub funding_rate_per_hour : ℤ
  pub mark_price : ℤ
  pub index_price : ℤ
  pub long_open_interest : ℤ
  pub short_open_interest : ℤ

pub record OpenInterest : Type 0 where
  pub long : ℤ
  pub short : ℤ

-- The two cached maps, by symbol.
pub record FundingCache : Type 0 where
  pub funding_rates : List (ℕ × FundingRateInfo)
  pub open_interest : List (ℕ × OpenInterest)

pub record OiCapExceeded : Type 0 where
  pub symbol : ℕ
  pub side : PositionSide
  pub current_oi_usd : ℤ
  pub cap_usd : ℤ
  pub requested_delta_usd : ℤ

-- `FundingConfig::default` for a symbol.
abbrev pub default_config : DecimalOps → ℕ → FundingConfig
default_config o symbol = record {
  symbol = symbol;
  funding_interval_hours = pos 8;
  max_funding_rate = o.new_decimal (pos 1) 2;
  min_funding_rate = o.new_decimal (negsuc 0) 2;
  impact_pool_size = pos 0;
}

abbrev pub funding_factor : DecimalOps → ℤ
funding_factor o = o.new_decimal (pos 1) 4

unfoldable pub calculate_funding_rate : DecimalOps → ℤ → ℤ → FundingConfig → ℤ
unfolding safe_div_or
calculate_funding_rate o long_oi short_oi config =
    let total_oi = long_oi +ℤ short_oi in
    if total_oi ==ℤ pos 0
    then pos 0
    else min_ℤ
        (max_ℤ (o.mul (safe_div_or o (long_oi -ℤ short_oi) total_oi (pos 0)) (funding_factor o))
          config.min_funding_rate)
        config.max_funding_rate

abbrev pub no_interest : OpenInterest
no_interest = record { long = pos 0; short = pos 0 }

-- `get_open_interest`
unfoldable pub get_open_interest : ℕ → List (ℕ × OpenInterest) → OpenInterest
get_open_interest symbol [] = no_interest
get_open_interest symbol ((s, oi) ∷ rows) =
    if s == symbol then oi else get_open_interest symbol rows

abbrev pub interest_of : PositionSide → OpenInterest → ℤ
interest_of long oi = oi.long
interest_of short oi = oi.short

abbrev pub add_interest : PositionSide → ℤ → OpenInterest → OpenInterest
add_interest long delta oi = record oi { long = oi.long +ℤ delta }
add_interest short delta oi = record oi { short = oi.short +ℤ delta }

abbrev pub not_negative : OpenInterest → OpenInterest
not_negative oi = record {
  long = if ltb_ℤ oi.long (pos 0) then pos 0 else oi.long;
  short = if ltb_ℤ oi.short (pos 0) then pos 0 else oi.short;
}

-- `update_open_interest`, on the entry of the symbol or a new one.
unfoldable pub update_open_interest :
    ℕ → PositionSide → ℤ → List (ℕ × OpenInterest) → List (ℕ × OpenInterest)
update_open_interest symbol side delta [] =
    (symbol, not_negative (add_interest side delta no_interest)) ∷ []
update_open_interest symbol side delta ((s, oi) ∷ rows) =
    if s == symbol
    then (s, not_negative (add_interest side delta oi)) ∷ rows
    else (s, oi) ∷ update_open_interest symbol side delta rows

-- `check_oi_cap_with_cap`: `none` is `Ok`.
unfoldable pub check_oi_cap_with_cap :
    ℕ → PositionSide → ℤ → ℤ → List (ℕ × OpenInterest) → Option OiCapExceeded
check_oi_cap_with_cap symbol side delta_usd cap_usd rows =
    let current = interest_of side (get_open_interest symbol rows) in
    if leb_ℤ delta_usd (pos 0)
    then none
    else if ltb_ℤ cap_usd (current +ℤ delta_usd)
    then some (record {
      symbol = symbol;
      side = side;
      current_oi_usd = current;
      cap_usd = cap_usd;
      requested_delta_usd = delta_usd;
    })
    else none

-- `SUM(CASE WHEN side = … THEN size_in_usd ELSE 0 END)` over the open positions of the market.
unfoldable pub side_interest : ℕ → PositionSide → List Position → ℤ
side_interest symbol side [] = pos 0
side_interest symbol side (p ∷ ps) =
    (if p.symbol == symbol && is_open p.status && same_side p.side side
      then p.size_in_usd
      else pos 0)
    +ℤ side_interest symbol side ps

unfoldable pub query_open_interest_from_db : ℕ → List Position → OpenInterest
unfolding side_interest
query_open_interest_from_db symbol ps = record {
  long = side_interest symbol long ps;
  short = side_interest symbol short ps;
}

-- `get_or_create_config`: the row of the symbol, or a default one that is inserted.
unfoldable pub get_or_create_config :
    DecimalOps → ℕ → List FundingConfig → FundingConfig × List FundingConfig
get_or_create_config o symbol [] = (default_config o symbol, default_config o symbol ∷ [])
get_or_create_config o symbol (c ∷ cs) =
    let (found, rest) = get_or_create_config o symbol cs in
    if c.symbol == symbol then (c, c ∷ cs) else (found, c ∷ rest)

unfoldable pub put_rate :
    ℕ → FundingRateInfo → List (ℕ × FundingRateInfo) → List (ℕ × FundingRateInfo)
put_rate symbol info [] = (symbol, info) ∷ []
put_rate symbol info ((s, i) ∷ rows) =
    if s == symbol then (s, info) ∷ rows else (s, i) ∷ put_rate symbol info rows

unfoldable pub rate_per_hour : DecimalOps → ℤ → ℤ → ℤ
unfolding safe_div_or from_int
rate_per_hour o rate hours = safe_div_or o rate (from_int o hours) (o.div rate (from_int o (pos 8)))

unfoldable pub rate_info : DecimalOps → ℕ → ℤ → ℤ → FundingConfig → OpenInterest → FundingRateInfo
unfolding calculate_funding_rate rate_per_hour
rate_info o symbol mark_price index_price config oi =
    let rate = calculate_funding_rate o oi.long oi.short config in
    record {
      symbol = symbol;
      funding_rate = rate;
      funding_rate_per_hour = rate_per_hour o rate config.funding_interval_hours;
      mark_price = mark_price;
      index_price = index_price;
      long_open_interest = oi.long;
      short_open_interest = oi.short;
    }

-- `update_funding_rate`: `none` is the panic of `%` by an interval of 0 hours.
unfoldable pub update_funding_rate :
    DecimalOps
    → ℕ
    → ℤ
    → ℤ
    → List Position
    → List FundingConfig
    → FundingCache
    → Option FundingRateInfo × List FundingConfig × FundingCache
unfolding query_open_interest_from_db get_or_create_config put_rate rate_info
update_funding_rate o symbol mark_price index_price positions configs cache =
    let (config, configs') = get_or_create_config o symbol configs in
    let oi = query_open_interest_from_db symbol positions in
    let info = rate_info o symbol mark_price index_price config oi in
    if config.funding_interval_hours ==ℤ pos 0 then (none, configs', cache) else (
      some info,
      configs',
      record cache { funding_rates = put_rate symbol info cache.funding_rates },
    )
