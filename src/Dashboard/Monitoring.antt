-- ===== src/Dashboard/Monitoring.antt =====
-- The rows of the miners that are connected, from the monitoring API of the pool:
-- `fetch_monitoring_json`, `fetch_current_miners` and `append_channel_rows`.
use canary_mining.Common.{
  ℕ, ◌%◌, ◌^◌, ◌<◌, ◌≡◌, refl, arith, Bool, true, false, Option, none, some, List, [], ◌∷◌, ◌++◌,
  Result, ok, err, ◌>>=◌, All, All-append, Option-cases, inl, inr, ◌⊎◌, length, if◌then◌else◌,
  nat_beq,
}
use mathlib.Core.Option
use canary_mining.Common.Json.{Json}
use canary_mining.Common.Decimal.{decimal}
use canary_mining.Common.Text.Basic.{Text, codes, strip_prefix}
use canary_mining.Common.Float.{Float, float_zero}
use canary_mining.Common.Assoc.Laws.{keep_if}
use canary_mining.Config.{Network}
use canary_mining.Address.{AddressLib}
use canary_mining.Identity.{parse_miner_identity}
use canary_mining.PoolConfig.{or_itself}
use canary_mining.Dashboard.Sessions.{MinerRow, unwrap_or}
use canary_mining.Dashboard.Workers.{miner_row_id, label_address}
use canary_mining.Dashboard.Pools.{hex_bytes}
pub mod Laws

-- `str::trim_start_matches` of a character.
unfoldable pub trim_start_char : ℕ → Text → Text
trim_start_char d [] = []
trim_start_char d (c ∷ s) = let rest = trim_start_char d s in if nat_beq c d then rest else c ∷ s

-- `Option::and_then`.
abbrev pub and_then {ℓ} : {A B : Type ℓ} → (A → Option B) → Option A → Option B
and_then f none = none
and_then f (some a) = f a

-- The difficulty of a target (`Target::difficulty_float`) is a parameter.
unfoldable pub target_hex_to_difficulty : (R : Float) → (List ℕ → R.F) → Text → Option R.F
unfolding hex_bytes
target_hex_to_difficulty R difficulty_float value =
    let digits = or_itself value (strip_prefix (codes "0x") value) in
    if nat_beq (length digits) 64
    then keep_if R.is_finite (Option.map difficulty_float (hex_bytes digits))
    else none

module _ (R : Float) (J : Json R.F) (A : AddressLib) (difficulty_float : List ℕ → R.F)
    (http_get : Text → Option J.Value) where
  unfoldable pub remove_monitoring_uptime : J.Value → J.Value
  remove_monitoring_uptime value = J.without (codes "uptime_secs") value

  -- The answer to a request at a url, as JSON, is nothing where the request fails or takes too long.
  unfoldable pub fetch_monitoring_json : Option Text → Text → Option J.Value
  unfolding trim_start_char remove_monitoring_uptime
  fetch_monitoring_json none path = none
  fetch_monitoring_json (some base) path =
      Option.map remove_monitoring_uptime
        (http_get (base ++ (codes "/" ++ trim_start_char b'/' path)))

  abbrev pub text_member : Text → J.Value → Option Text
  text_member key value = and_then J.as_str (J.member key value)

  abbrev pub u64_member : Text → J.Value → Option ℕ
  u64_member key value = and_then J.as_u64 (J.member key value)

  abbrev pub f64_member : Text → J.Value → Option R.F
  f64_member key value = and_then J.as_f64 (J.member key value)

  abbrev pub array_member : Text → J.Value → Option (List J.Value)
  array_member key value = and_then J.as_array (J.member key value)

  -- The row of one channel.
  unfoldable pub channel_row : Network → ℕ → Text → J.Value → MinerRow R.F
  unfolding parse_miner_identity miner_row_id target_hex_to_difficulty
  channel_row network client_id channel_kind channel =
      let user_identity = unwrap_or [] (text_member (codes "user_identity") channel) in
      let named = label_address (parse_miner_identity A user_identity network) in
      record {
        id = miner_row_id network user_identity named.0 named.1;
        client_id = client_id;
        channel_id = unwrap_or 0 (u64_member (codes "channel_id") channel) % 2 ^ 32;
        channel_kind = channel_kind;
        connected = true;
        label = named.0;
        payout_address = named.1;
        user_identity = user_identity;
        nominal_hashrate = unwrap_or (float_zero R) (f64_member (codes "nominal_hashrate") channel);
        shares_accepted = unwrap_or 0 (u64_member (codes "shares_accepted") channel);
        best_diff = unwrap_or (float_zero R) (f64_member (codes "best_diff") channel);
        blocks_found = unwrap_or 0 (u64_member (codes "blocks_found") channel);
        target_hex = text_member (codes "target_hex") channel;
        pool_diff =
            and_then (target_hex_to_difficulty R difficulty_float)
              (text_member (codes "target_hex") channel);
        last_seen_at = none;
      }

  unfoldable pub channel_rows : Network → ℕ → Text → List J.Value → List (MinerRow R.F)
  unfolding channel_row
  channel_rows network client_id channel_kind [] = []
  channel_rows network client_id channel_kind (channel ∷ channels) =
      channel_row network client_id channel_kind channel
      ∷ channel_rows network client_id channel_kind channels

  unfoldable pub append_channel_rows :
      Network → ℕ → Text → Option (List J.Value) → List (MinerRow R.F) → List (MinerRow R.F)
  unfolding channel_rows
  append_channel_rows network client_id channel_kind none miners = miners
  append_channel_rows network client_id channel_kind (some channels) miners =
      miners ++ channel_rows network client_id channel_kind channels

  abbrev pub channels_path : ℕ → Text
  channels_path client_id =
      codes "api/v1/clients/" ++ (decimal client_id ++ codes "/channels?limit=100")

  -- Both kinds of channels of one client.
  abbrev pub append_client : Network → ℕ → J.Value → List (MinerRow R.F) → List (MinerRow R.F)
  append_client network client_id channels miners =
      append_channel_rows network client_id (codes "extended")
        (array_member (codes "extended_channels") channels)
        (append_channel_rows network client_id (codes "standard")
          (array_member (codes "standard_channels") channels) miners)

  -- The loop: an item without an id is passed over, and a client whose channels are not available ends
  -- it without a result.
  unfoldable pub visit_clients :
      Option Text → Network → List J.Value → List (MinerRow R.F) → Option (List (MinerRow R.F))
  unfolding append_channel_rows fetch_monitoring_json
  visit_clients base network [] miners = some miners
  visit_clients base network (item ∷ items) miners = elim (u64_member (codes "client_id") item) [
    | none ↦ visit_clients base network items miners
    | some client_id ↦ elim (fetch_monitoring_json base (channels_path client_id)) [
      | none ↦ none
      | some channels ↦
          visit_clients base network items (append_client network client_id channels miners)
    ]
  ]

  abbrev pub miners_of :
      Option Text → Network → Option (List J.Value) → Option (List (MinerRow R.F))
  miners_of base network none = none
  miners_of base network (some items) = visit_clients base network items []

  unfoldable pub fetch_current_miners : Option Text → Network → Option (List (MinerRow R.F))
  unfolding fetch_monitoring_json visit_clients
  fetch_current_miners base network = miners_of base network (
      and_then (array_member (codes "items"))
        (fetch_monitoring_json base (codes "api/v1/clients?limit=100")))
