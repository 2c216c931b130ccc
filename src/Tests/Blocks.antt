-- ===== src/Tests/Blocks.antt =====
-- The recent blocks, the rates, the pools and the rows of the dashboard at small inputs.
use canary_mining.Common.{
  ℕ, ◌≡◌, refl, arith, false, Option, none, some, List, [], ◌∷◌, Result, ok, err, if◌then◌else◌,
  leb, Bool-cases, inl, inr,
}
use canary_mining.Common.Json.{Json}
use canary_mining.Common.Int64.{pos}
use canary_mining.Common.Text.Basic.{Text, codes, text_eq, text_beq}
use canary_mining.Rpc.Client.{VerboseTransaction}
use canary_mining.Dashboard.Blocks.{
  BlockTimelineItem, RecentBlocksCache, fetch_recent_blocks, recent_blocks_response,
  recent_blocks_complete,
}
use canary_mining.Dashboard.Blocks.Laws.{
  IsRecent, IsAnswer, fetch_recent_blocks-IsRecent, recent_blocks_response-IsCache,
}
use canary_mining.Dashboard.Pools.{PoolAssets, MempoolPoolEntry, unknown_pool, detect_block_pool}
use canary_mining.Dashboard.Pools.Laws.{IsAttributed, detect_block_pool-IsAttributed}
use canary_mining.Dashboard.Rates.Laws.{
  Request, cache_after, IsPriced, exchange_rates_response-IsPriced,
}
use canary_mining.Dashboard.Rates.{exchange_rates_response}

abbrev pub block : ℕ → BlockTimelineItem
block height = record {
  height = height;
  hash = codes "00ab";
  timestamp = 1000;
  weight = none;
  transaction_count = some 1;
  reward_sats = none;
  pool = unknown_pool;
}

-- The block 103 is not there yet.
abbrev fetch : ℕ → Result Text BlockTimelineItem
fetch height = if leb height 102 then ok (block height) else err (codes "not found")

fetched : (h : ℕ) (b : BlockTimelineItem) → fetch h ≡ ok b → b.height ≡ h
fetched h b e = elim (Bool-cases (leb h 102)) [
  | inl k ↦ ground (arith, e, k)
  | inr k ↦ absurd (ground (arith, e, k))
]

abbrev cached : RecentBlocksCache
cached = record { chain_height = some 100; blocks = block 99 ∷ block 100 ∷ [] }

fetch_recent_blocks-IsRecent_example :
    (bs : List BlockTimelineItem) × (fetch_recent_blocks fetch cached 103 ≡ some bs)
    × IsRecent fetch 103 bs
fetch_recent_blocks-IsRecent_example =
    fetch_recent_blocks-IsRecent fetch fetched cached 99 103 (refl, (refl, tt)) (omega arith)

recent_blocks_response-IsCache_example : IsAnswer (recent_blocks_response fetch cached (some 103))
recent_blocks_response-IsCache_example =
    recent_blocks_response-IsCache fetch fetched cached (some 103)
      ((99, (refl, (refl, tt))), unfold recent_blocks_complete in refl) (omega arith)

abbrev entry : MempoolPoolEntry
entry = record {
  name = codes "Foundry USA";
  addresses = codes "bc1q" ∷ [];
  tags = codes "Foundry" ∷ [];
  link = none;
}

abbrev pub assets : PoolAssets
assets = record {
  registry = entry ∷ [];
  has_logo = λ name. false;
  to_lowercase = λ s. s;
  from_utf8_lossy = λ s. s;
}

abbrev coinbase : VerboseTransaction ℕ
coinbase = record {
  vin = [];
  vout = record { value = some 3; script_pub_key = record { address = some (codes "bc1q") } } ∷ [];
}

detect_block_pool-IsAttributed_example :
    IsAttributed assets
      (codes "bc1p")
      coinbase
      (detect_block_pool assets (codes "bc1p") (some coinbase))
detect_block_pool-IsAttributed_example =
    detect_block_pool-IsAttributed assets (codes "bc1p") coinbase

-- A fetch succeeded, and the next one, more than ten minutes later, fails.
abbrev past : List (Request ℕ Text)
past = (pos 1000, ok ((codes "USD", 100000) ∷ [])) ∷ []

exchange_rates_response-IsPriced_example :
    IsPriced
      (cache_after past)
      (pos 1700)
      (err (codes "offline"))
      past
      (exchange_rates_response (cache_after past) (pos 1700) (err (codes "offline"))).1
exchange_rates_response-IsPriced_example =
    exchange_rates_response-IsPriced past (pos 1700) (err (codes "offline"))

-- The answers of the monitoring with one client, which has one channel.
pub data Answer : Type 0 where
  clients : Answer
  client : Answer
  channels : Answer
  channel : Answer
  all_clients : Answer
  all_channels : Answer
  text : Text → Answer
  number : ℕ → Answer

abbrev member_of : Text → Answer → Option Answer
member_of key clients = if text_beq key (codes "items") then some all_clients else none
member_of key client = if text_beq key (codes "client_id") then some (number 1) else none
member_of key channels =
    if text_beq key (codes "standard_channels") then some all_channels else none
member_of key channel =
    if text_beq key (codes "user_identity") then some (text (codes "bcrt1q2nf.garage")) else none
member_of key all_clients = none
member_of key all_channels = none
member_of key (text t) = none
member_of key (number n) = none

abbrev text_in : Answer → Option Text
text_in (text t) = some t
text_in _ = none

abbrev list_in : Answer → Option (List Answer)
list_in all_clients = some (client ∷ [])
list_in all_channels = some (channel ∷ [])
list_in _ = none

abbrev number_in : Answer → Option ℕ
number_in (number n) = some n
number_in _ = none

abbrev pub json : Json ℕ
json = record {
  Value = Answer;
  as_str = text_in;
  as_array = list_in;
  as_u64 = number_in;
  as_f64 = number_in;
  member = member_of;
  without = λ key value. value;
}

abbrev pub answer : Text → Option Answer
answer url =
    if text_beq url (codes "http://pool/api/v1/clients?limit=100")
    then some clients
    else if text_beq url (codes "http://pool/api/v1/clients/1/channels?limit=100")
    then some channels
    else none
