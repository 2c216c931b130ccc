-- ===== src/Dashboard/Endpoints.antt =====
-- The start of the dashboard and its endpoints that are not about miners alone.
use canary_mining.Common.Int64.{ℤ, as_i64}
use canary_mining.Common.{
  ℕ, Bool, true, false, Option, none, some, List, [], ◌∷◌, ◌++◌, is_empty, any, if◌then◌else◌, ◌==◌,
  Result, ok, err,
}
use mathlib.Core.Option
use canary_mining.Common.Text.Basic.{Text, codes, trim, text_eq}
use canary_mining.Config.{Network, display, AppConfig, default_pool_payout_address}
use canary_mining.Address.{AddressLib, PayoutAddressError, validate_payout_address}
use canary_mining.Identity.{error_text}
use canary_mining.Rpc.Client.{BitcoinCoreRpc, from_config}
use canary_mining.Dashboard.Sessions.{MinerRow, unwrap_or}
use canary_mining.Dashboard.Rates.{supported_currencies, ExchangeRateCache, ExchangeRatesResponse}
use canary_mining.Dashboard.Blocks.{RecentBlocksCache}
use canary_mining.Dashboard.Core.{DifficultyPeriodStartCache}
use canary_mining.Dashboard.Monitoring.{trim_start_char}

pub record UiConfigSummary : Type 0 where
  pub network : Text
  pub sv2_listen_address : Text
  pub metrics_listen_address : Option Text

pub record MinerSetupSummary : Type 0 where
  pub payout_address : Text
  pub sv2_authority_public_key : Text

-- `UiState`, but for the handles that it shares with the rest of the program.
pub record UiState (F : Type 0) : Type 0 where
  pub app_config : AppConfig F
  pub bitcoin_core_rpc : BitcoinCoreRpc
  pub network : Network
  pub config : UiConfigSummary
  pub miner_setup : MinerSetupSummary
  pub metrics_base_url : Option Text
  pub exchange_rates : ExchangeRateCache F
  pub recent_blocks : RecentBlocksCache
  pub difficulty_period_start : DifficultyPeriodStartCache
  pub seen_miners : List (Text × MinerRow F)

-- The state that `start_ui` makes.
unfoldable pub ui_state : {F : Type 0} → Option Text → AppConfig F → Text → UiState F
unfolding from_config default_pool_payout_address display
ui_state home config authority_public_key = record {
  app_config = config;
  bitcoin_core_rpc = from_config home config;
  network = config.network;
  config = record {
    network = display config.network;
    sv2_listen_address = config.sv2.listen_address;
    metrics_listen_address = config.metrics.listen_address;
  };
  miner_setup = record {
    payout_address = default_pool_payout_address config;
    sv2_authority_public_key = authority_public_key;
  };
  metrics_base_url =
      Option.map (λ address. codes "http://" ++ address) config.metrics.listen_address;
  exchange_rates = record { rates = []; updated_at = none };
  recent_blocks = record { chain_height = none; blocks = [] };
  difficulty_period_start = record { height = none; timestamp = none };
  seen_miners = [];
}

pub data StatusCode : Type 0 where
  http_ok bad_request not_found internal_server_error bad_gateway : StatusCode

-- A response: a body, or the error that it names.
pub data Response (T : Type 0) : Type 0 where
  respond : T → Response T
  fail : StatusCode → Text → Response T

pub record ValidatePayoutAddressResponse : Type 0 where
  pub valid : Bool
  pub network : Text
  pub address : Option Text
  pub error : Option Text

abbrev pub validation : Network → Result PayoutAddressError Text → ValidatePayoutAddressResponse
validation network (ok validated) = record {
  valid = true;
  network = display network;
  address = some validated;
  error = none;
}
validation network (err error) = record {
  valid = false;
  network = display network;
  address = none;
  error = some (error_text error);
}

unfoldable pub api_validate_payout_address :
    AddressLib → Network → Text → ValidatePayoutAddressResponse
unfolding validate_payout_address
api_validate_payout_address A network address =
    validation network (validate_payout_address A (trim address) network)

abbrev pub deletion : {E : Type 0} → Result E Bool → Response Bool
deletion (ok deleted) = respond deleted
deletion (err error) = fail internal_server_error (codes "delete_miner_failed")

-- `delete_miner` of the history, by what it answers for an id.
unfoldable pub api_delete_miner : {E : Type 0} → (Text → Result E Bool) → Text → Response Bool
api_delete_miner delete_miner query_id =
    let miner_id = trim query_id in
    if is_empty miner_id
    then fail bad_request (codes "miner_id_required")
    else deletion (delete_miner miner_id)

-- The body of the answer when there are no rates.
pub record ExchangeRatesFailure : Type 0 where
  pub status : StatusCode
  pub error : Text
  pub supported_currencies : List Text

abbrev pub api_exchange_rates :
    {E F : Type 0}
    → Result E (ExchangeRatesResponse F)
    → Result ExchangeRatesFailure (ExchangeRatesResponse F)
api_exchange_rates (ok response) = ok response
api_exchange_rates (err error) = err (record {
  status = bad_gateway;
  error = codes "exchange rates unavailable";
  supported_currencies = supported_currencies;
})

-- Seconds since the epoch, of a time that may lie before it.
unfoldable pub unix_timestamp : Option ℕ → ℤ
unfolding as_i64
unix_timestamp since = as_i64 (unwrap_or 0 since)

-- `api_monitoring` and `ApiError`.
abbrev pub api_monitoring : {V : Type 0} → Option V → Response V
api_monitoring none = fail bad_gateway (codes "monitoring_unavailable")
api_monitoring (some value) = respond value

abbrev pub font_names : List Text
font_names =
    codes "geist-cyrillic.woff2"
    ∷ codes "geist-latin-ext.woff2"
    ∷ codes "geist-latin.woff2"
    ∷ codes "geist-mono-cyrillic.woff2"
    ∷ codes "geist-mono-latin-ext.woff2"
    ∷ codes "geist-mono-latin.woff2"
    ∷ []

abbrev pub miner_logo_names : List Text
miner_logo_names =
    codes "antminer.svg"
    ∷ codes "bitaxe.svg"
    ∷ codes "bitcrane.svg"
    ∷ codes "braiins.svg"
    ∷ codes "generic.svg"
    ∷ codes "nerdaxe.svg"
    ∷ codes "nerdeko.svg"
    ∷ codes "nerdoctaxe-gamma.svg"
    ∷ codes "nerdoctaxe-plus.svg"
    ∷ codes "nerdqaxe-plus.svg"
    ∷ codes "nerdqaxe-plus-plus.svg"
    ∷ codes "nmminer.svg"
    ∷ codes "osmu.svg"
    ∷ codes "piaxe.svg"
    ∷ codes "qaxe.svg"
    ∷ []

-- The file of `ui/` that is served under a path, if there is one.
unfoldable pub geist_font_asset : Text → Option Text
unfolding any trim_start_char
geist_font_asset path =
    let name = trim_start_char b'/' path in
    if any (λ font. font == name) font_names
    then some (codes "assets/fonts/geist/" ++ name)
    else none

-- The same for the logos, with the content type.
unfoldable pub miner_logo_asset : Text → Option (Text × Text)
unfolding any
miner_logo_asset path =
    if any (λ logo. logo == path) miner_logo_names
    then some (codes "image/svg+xml", codes "miner-logos/" ++ path)
    else none

-- What is served: the content type, the caching and the file.
unfoldable pub geist_font : Text → Response (Text × (Text × Text))
unfolding geist_font_asset
geist_font path = elim (geist_font_asset path) [
  | none ↦ fail not_found []
  | some font ↦ respond (codes "font/woff2", (codes "public, max-age=31536000, immutable", font))
]

unfoldable pub miner_logo : Text → Response (Text × (Text × Text))
unfolding trim_start_char miner_logo_asset
miner_logo path = elim (miner_logo_asset (trim_start_char b'/' path)) [
  | none ↦ fail not_found []
  | some (content_type, body) ↦ respond (content_type, (codes "no-store", body))
]
