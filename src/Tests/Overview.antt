-- ===== src/Tests/Overview.antt =====
-- The status as a whole, where Bitcoin Core answers but blocks take too long.
use canary_mining.Common.{ℕ, ◌≡◌, refl, arith, true, false, none, some, [], ◌∷◌, ok}
use canary_mining.Common.Text.Basic.{
  codes, split_once, trim, trim_start, trim_end, is_whitespace, text_beq,
}
use canary_mining.Rpc.Decode.{decode_rpc_response, visit_map, take_result}
use canary_mining.Rpc.Client.{blockchain_info, call, call_at_url, read_rpc_cookie}
use canary_mining.Dashboard.Blocks.{BlockTimelineItem, fetch_recent_block}
use canary_mining.Dashboard.Core.{fetch_bitcoin_core_status, rpc_with_timeout}
use canary_mining.Dashboard.Endpoints.{UiState, ui_state}
use canary_mining.Dashboard.Overview.{
  StatusResponse, Libraries, Moment, block_at, core_status, api_status,
}
use canary_mining.Dashboard.Blocks.Laws.{IsBelow}
use canary_mining.Dashboard.Overview.Laws.{IsOverview, api_status-IsOverview}
use canary_mining.Tests.Models.{numbers, prefixes}
use canary_mining.Tests.Node.{node, template}
use canary_mining.Tests.Blocks.{assets, json, answer, block}
use canary_mining.Tests.Startup.{pools, config}

abbrev libraries : Libraries numbers
libraries = record {
  addresses = prefixes;
  pool = pools;
  json = json;
  rpc = node;
  assets = assets;
  difficulty_float = λ target. 1;
  as_str = λ v. some v;
  as_array = λ v. none;
}

abbrev moment : Moment numbers libraries
moment = record {
  http_get = answer;
  call_in_time = λ call. true;
  block_in_time = λ h. false;
  exists = λ path. true;
  runtime = record { pool_started = true; pool_error = none };
  snapshot = some template;
  stats = [];
  known = none;
  now = 2000;
}

abbrev state : UiState ℕ
state = record (ui_state none config (codes "key")) {
  recent_blocks = record { chain_height = none; blocks = block 4998 ∷ block 4999 ∷ [] };
  metrics_base_url = some (codes "http://pool");
}

no_block :
    (h : ℕ) (b : BlockTimelineItem)
    → block_at numbers libraries moment state h ≡ ok b
    → b.height ≡ h
unfolding fetch_recent_block
no_block h b e = absurd (ground (arith, e))

below : IsBelow (core_status numbers libraries moment state).1.chain_height
unfolding fetch_bitcoin_core_status rpc_with_timeout blockchain_info call call_at_url
    read_rpc_cookie split_once trim trim_start trim_end is_whitespace text_beq decode_rpc_response
    visit_map take_result
below = omega arith

api_status-IsOverview_example :
    (s : UiState ℕ) × (r : StatusResponse ℕ json.Value) × (api_status numbers libraries moment state
      ≡ some (s, r))
    × IsOverview numbers libraries moment s r
api_status-IsOverview_example =
    api_status-IsOverview numbers libraries moment state ((4998, (refl, (refl, tt))), tt) no_block
      below
