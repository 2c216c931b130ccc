-- ===== src/Dashboard/Routes.antt =====
-- The files that the dashboard serves, and its routes: the static handlers and the router of
-- `start_ui`. A response names the file of `ui/` that it holds.
use canary_mining.Common.{Option, none, some, List, [], ◌∷◌}
use canary_mining.Common.Text.Basic.{Text, codes}
use canary_mining.Dashboard.Monitoring.{trim_start_char}
use canary_mining.Dashboard.Endpoints.{Response, respond, fail, not_found}

-- What is served: the content type, the caching, if the handler says any, and the file.
pub record Asset : Type 0 where
  pub content_type : Text
  pub cache_control : Option Text
  pub file : Text

-- `Html`, whose content type is the library's.
unfoldable pub index : Text → Asset
index html_type = record {
  content_type = html_type;
  cache_control = none;
  file = codes "index.html";
}

unfoldable pub app_js : Asset
app_js = record {
  content_type = codes "application/javascript";
  cache_control = some (codes "no-store");
  file = codes "app.js";
}

unfoldable pub jquery_lite_js : Asset
jquery_lite_js = record {
  content_type = codes "application/javascript";
  cache_control = some (codes "no-store");
  file = codes "jquery-lite.js";
}

unfoldable pub style_css : Asset
style_css = record {
  content_type = codes "text/css";
  cache_control = some (codes "no-store");
  file = codes "style.css";
}

unfoldable pub canary_design_css : Asset
canary_design_css = record {
  content_type = codes "text/css";
  cache_control = some (codes "no-store");
  file = codes "canary-design.css";
}

unfoldable pub canary_logo : Asset
canary_logo = record {
  content_type = codes "image/svg+xml";
  cache_control = some (codes "public, max-age=86400");
  file = codes "canary-in-a-coalmine.svg";
}

unfoldable pub circle_help_icon : Asset
circle_help_icon = record {
  content_type = codes "image/svg+xml";
  cache_control = some (codes "no-store");
  file = codes "icons/circle-help.svg";
}

unfoldable pub copy_icon : Asset
copy_icon = record {
  content_type = codes "image/svg+xml";
  cache_control = some (codes "no-store");
  file = codes "icons/copy.svg";
}

unfoldable pub check_icon : Asset
check_icon = record {
  content_type = codes "image/svg+xml";
  cache_control = some (codes "no-store");
  file = codes "icons/check.svg";
}

unfoldable pub chain_link_icon : Asset
chain_link_icon = record {
  content_type = codes "image/svg+xml";
  cache_control = some (codes "no-store");
  file = codes "icons/chain-link.svg";
}

unfoldable pub heart_icon : Asset
heart_icon = record {
  content_type = codes "image/svg+xml";
  cache_control = some (codes "no-store");
  file = codes "icons/heart.svg";
}

unfoldable pub github_icon : Asset
github_icon = record {
  content_type = codes "image/svg+xml";
  cache_control = some (codes "no-store");
  file = codes "icons/github.svg";
}

-- The logos of pools are in a file that the build generates: its function is an argument.
unfoldable pub pool_logo : (Text → Option (Text × Text)) → Text → Response Asset
unfolding trim_start_char
pool_logo generated_pool_logo_asset path =
    elim (generated_pool_logo_asset (trim_start_char b'/' path)) [
      | none ↦ fail not_found []
      | some (content_type, body) ↦ respond (record {
        content_type = content_type;
        cache_control = some (codes "public, max-age=86400");
        file = body;
      })
    ]

pub data Method : Type 0 where
  method_get method_delete : Method

-- A path, or all that continue one: `/x/{*path}`.
pub data Pattern : Type 0 where
  exact : Text → Pattern
  wildcard : Text → Pattern

-- The handlers, by their names.
pub data Handler : Type 0 where
  on_index on_jquery_lite_js on_app_js on_canary_design_css on_style_css on_geist_font
        on_circle_help_icon on_copy_icon on_check_icon on_chain_link_icon on_heart_icon
        on_github_icon on_canary_logo on_miner_logo on_pool_logo on_api_status on_api_health
        on_api_exchange_rates on_api_validate_payout_address on_api_delete_miner on_api_monitoring :
      Handler

pub record Route : Type 0 where
  pub pattern : Pattern
  pub method : Method
  pub handler : Handler

abbrev route : Pattern → Method → Handler → Route
route pattern method handler = record { pattern = pattern; method = method; handler = handler }

-- The router of `start_ui`.
unfoldable pub routes : List Route
routes =
    route (exact (codes "/")) method_get on_index
    ∷ route (exact (codes "/jquery-lite.js")) method_get on_jquery_lite_js
    ∷ route (exact (codes "/app.js")) method_get on_app_js
    ∷ route (exact (codes "/canary-design.css")) method_get on_canary_design_css
    ∷ route (exact (codes "/style.css")) method_get on_style_css
    ∷ route (wildcard (codes "/assets/fonts/geist/")) method_get on_geist_font
    ∷ route (exact (codes "/icons/circle-help.svg")) method_get on_circle_help_icon
    ∷ route (exact (codes "/icons/copy.svg")) method_get on_copy_icon
    ∷ route (exact (codes "/icons/check.svg")) method_get on_check_icon
    ∷ route (exact (codes "/icons/chain-link.svg")) method_get on_chain_link_icon
    ∷ route (exact (codes "/icons/heart.svg")) method_get on_heart_icon
    ∷ route (exact (codes "/icons/github.svg")) method_get on_github_icon
    ∷ route (exact (codes "/canary-in-a-coalmine.svg")) method_get on_canary_logo
    ∷ route (wildcard (codes "/miner-logos/")) method_get on_miner_logo
    ∷ route (wildcard (codes "/pool-logos/")) method_get on_pool_logo
    ∷ route (exact (codes "/api/status")) method_get on_api_status
    ∷ route (exact (codes "/api/health")) method_get on_api_health
    ∷ route (exact (codes "/api/exchange-rates")) method_get on_api_exchange_rates
    ∷ route (exact (codes "/api/validate-payout-address")) method_get on_api_validate_payout_address
    ∷ route (exact (codes "/api/miners")) method_delete on_api_delete_miner
    ∷ route (wildcard (codes "/api/monitoring/")) method_get on_api_monitoring
    ∷ []
