-- ===== src/Dashboard/Rates.antt =====
-- The exchange rates and their cache: `exchange_rates_response` and `fetch_exchange_rates`.
use canary_mining.Common.{
  ℕ, ◌+◌, ◌≡◌, refl, arith, Bool, true, false, not, Option, none, some, List, [], ◌∷◌, ◌++◌, map,
  zero, suc, is_empty, if◌then◌else◌, ltb, leb, ◌&&◌, Result, ok, err, map_err, ◌>>=◌, Bool-cases,
  inl, inr, ◌↔◌,
}
use canary_mining.Common.Int64.{ℤ, pos, negsuc, pos_part, neg_part}
use canary_mining.Common.Text.Basic.{Text, codes, join, text_eq}
use canary_mining.Common.Assoc.{insert}
use canary_mining.Dashboard.Pools.{lower}
pub mod Laws

abbrev pub exchange_rate_refresh_seconds : ℕ
exchange_rate_refresh_seconds = 600

abbrev pub coingecko_api_base_url : Text
coingecko_api_base_url = codes "https://api.coingecko.com"

abbrev pub supported_currencies : List Text
supported_currencies =
    codes "USD"
    ∷ codes "AED"
    ∷ codes "ARS"
    ∷ codes "AUD"
    ∷ codes "BDT"
    ∷ codes "BHD"
    ∷ codes "BMD"
    ∷ codes "BRL"
    ∷ codes "CAD"
    ∷ codes "CHF"
    ∷ codes "CLP"
    ∷ codes "CNY"
    ∷ codes "CZK"
    ∷ codes "DKK"
    ∷ codes "EUR"
    ∷ codes "GBP"
    ∷ codes "GEL"
    ∷ codes "HKD"
    ∷ codes "HUF"
    ∷ codes "IDR"
    ∷ codes "ILS"
    ∷ codes "INR"
    ∷ codes "JPY"
    ∷ codes "KRW"
    ∷ codes "KWD"
    ∷ codes "LKR"
    ∷ codes "MMK"
    ∷ codes "MXN"
    ∷ codes "MYR"
    ∷ codes "NGN"
    ∷ codes "NOK"
    ∷ codes "NZD"
    ∷ codes "PHP"
    ∷ codes "PKR"
    ∷ codes "PLN"
    ∷ codes "RUB"
    ∷ codes "SAR"
    ∷ codes "SEK"
    ∷ codes "SGD"
    ∷ codes "THB"
    ∷ codes "TRY"
    ∷ codes "TWD"
    ∷ codes "UAH"
    ∷ codes "VEF"
    ∷ codes "VND"
    ∷ codes "ZAR"
    ∷ []

pub record ExchangeRateCache (F : Type 0) : Type 0 where
  pub rates : List (Text × F)
  pub updated_at : Option ℤ

pub record ExchangeRatesResponse (F : Type 0) : Type 0 where
  pub currencies : List Text
  pub rates : List (Text × F)
  pub updated_at : Option ℤ
  pub stale : Bool

pub data RatesError : Type 0 where
  fetch_failed : Text → RatesError
  read_failed : Text → RatesError
  status_error : ℕ → Text → RatesError
  parse_failed : Text → RatesError

-- What the fetch calls: an HTTP request to a url with a user agent, which gives the status and then the
-- body; serde's reader of the response; `str::to_uppercase`; and the version of the package.
pub record RatesLib (F : Type 0) : Type 0 where
  pub send : Text → Text → Result Text (ℕ × Result Text Text)
  pub from_str : Text → Result Text (List (Text × F))
  pub to_uppercase : Text → Text
  pub version : Text

-- `Iterator::take`.
abbrev pub take {ℓ} : {A : Type ℓ} → ℕ → List A → List A
take zero xs = []
take (suc n) [] = []
take (suc n) (x ∷ xs) = x ∷ take n xs

-- `StatusCode::is_success`.
abbrev pub is_success : ℕ → Bool
is_success status = leb 200 status && ltb status 300

-- `now - updated_at < EXCHANGE_RATE_REFRESH_SECONDS`.
abbrev pub is_fresh : ℤ → Option ℤ → Bool
is_fresh now none = false
is_fresh now (some updated_at) =
    ltb (pos_part now + neg_part updated_at)
      (pos_part updated_at + neg_part now + exchange_rate_refresh_seconds)

module _ {F : Type 0} where
  -- `collect` into a map: of two equal currencies the later one counts.
  unfoldable pub collect_upper : (Text → Text) → List (Text × F) → List (Text × F) → List (Text × F)
  unfolding insert
  collect_upper to_uppercase [] rates = rates
  collect_upper to_uppercase ((currency, rate) ∷ more) rates =
      collect_upper to_uppercase more (insert (to_uppercase currency) rate rates)

  unfoldable pub fetch_exchange_rates : RatesLib F → Result RatesError (List (Text × F))
  unfolding collect_upper join
  fetch_exchange_rates H =
      let currencies = map lower (join (codes ",") supported_currencies) in
      let url =
        coingecko_api_base_url
        ++ (codes "/api/v3/simple/price?ids=bitcoin&vs_currencies=" ++ currencies) in
      do
        (status, text) ← map_err fetch_failed (H.send url (codes "Canary Mining/" ++ H.version))
        body ← map_err read_failed text
        bitcoin ←
            if not (is_success status)
            then err (status_error status (take 500 body))
            else map_err parse_failed (H.from_str body)
        ok (collect_upper H.to_uppercase bitcoin [])

  abbrev pub rates_of : Bool → ExchangeRateCache F → ExchangeRatesResponse F
  rates_of stale cache = record {
    currencies = supported_currencies;
    rates = cache.rates;
    updated_at = cache.updated_at;
    stale = stale;
  }

  -- What follows a fetch: the cache, and the response or the error.
  abbrev pub after_fetch :
      {E : Type 0}
      → ExchangeRateCache F
      → ℤ
      → Result E (List (Text × F))
      → ExchangeRateCache F × Result E (ExchangeRatesResponse F)
  after_fetch cache now (ok rates) =
      let new : ExchangeRateCache F = record { rates = rates; updated_at = some now } in
      (new, ok (rates_of false new))
  after_fetch cache now (err e) =
      (cache, if is_empty cache.rates then err e else ok (rates_of true cache))

  -- `exchange_rates_response`, with what a fetch would give.
  unfoldable pub exchange_rates_response :
      {E : Type 0}
      → ExchangeRateCache F
      → ℤ
      → Result E (List (Text × F))
      → ExchangeRateCache F × Result E (ExchangeRatesResponse F)
  exchange_rates_response cache now fetched =
      if is_fresh now cache.updated_at
      then (cache, ok (rates_of false cache))
      else after_fetch cache now fetched
