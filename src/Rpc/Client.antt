-- ===== src/Rpc/Client.antt =====
-- The calls of the RPC client.
use canary_mining.Common.{ℕ, Bool, Option, List, [], ◌∷◌, Result, map_err, ◌>>=◌}
use canary_mining.Common.Int64.{ℤ}
use canary_mining.Common.Text.Basic.{Text, codes, trim, split_once}
use canary_mining.Config.{AppConfig}
use canary_mining.Rpc.Locations.{resolve_rpc_url, resolve_rpc_cookie_path}
use canary_mining.Rpc.Decode.{
  Reader, BitcoinCoreRpcError, read_cookie, invalid_cookie, request, non_numeric_result,
  decode_rpc_response, ok_or,
}

pub record BlockchainInfo (F V : Type 0) : Type 0 where
  pub blocks : ℕ
  pub initialblockdownload : Bool
  pub verificationprogress : F
  pub warnings : V

pub record BlockTemplateSummaryTransaction : Type 0 where
  pub fee : Option ℤ
  pub weight : Option ℕ

pub record BlockTemplateSummary : Type 0 where
  pub height : ℕ
  pub coinbasevalue : Option ℕ
  pub weight : Option ℕ
  pub weightlimit : Option ℕ
  pub transactions : List BlockTemplateSummaryTransaction

pub record VerboseScriptPubKey : Type 0 where
  pub address : Option Text

pub record VerboseTransactionOutput (F : Type 0) : Type 0 where
  pub value : Option F
  pub script_pub_key : VerboseScriptPubKey

pub record VerboseTransactionInput : Type 0 where
  pub coinbase : Option Text

pub record VerboseTransaction (F : Type 0) : Type 0 where
  pub vin : List VerboseTransactionInput
  pub vout : List (VerboseTransactionOutput F)

pub record VerboseBlock (F : Type 0) : Type 0 where
  pub hash : Text
  pub height : ℕ
  pub time : ℕ
  pub weight : Option ℕ
  pub n_tx : Option ℕ
  pub tx : List (VerboseTransaction F)

-- A parameter of a call: `json!` of a text, of a number, or of the rules of a template.
pub data Param : Type 0 where
  rules : List Text → Param
  text : Text → Param
  number : ℕ → Param

pub record RpcRequest : Type 0 where
  pub jsonrpc : Text
  pub id : Text
  pub method : Text
  pub params : List Param

-- What the client calls: the file system, the HTTP client (url, user, password, request), and the
-- readers that serde derives for the results.
pub record RpcLib (F : Type 0) : Type 1 where
  pub reader : Reader
  pub read_to_string : Text → Result Text Text
  pub post : Text → Text → Text → RpcRequest → Result Text Text
  pub to_value : reader.Raw → Option reader.Value
  pub to_text : reader.Raw → Option Text
  pub to_info : reader.Raw → Option (BlockchainInfo F reader.Value)
  pub to_template : reader.Raw → Option BlockTemplateSummary
  pub to_block : reader.Raw → Option (VerboseBlock F)
  pub as_f64 : reader.Value → Option F

pub record BitcoinCoreRpc : Type 0 where
  pub url : Text
  pub cookie_path : Text

unfoldable pub from_config : {F : Type 0} → Option Text → AppConfig F → BitcoinCoreRpc
unfolding resolve_rpc_url resolve_rpc_cookie_path
from_config home config = record {
  url = resolve_rpc_url config;
  cookie_path = resolve_rpc_cookie_path home config;
}

unfoldable pub read_rpc_cookie :
    {V : Type 0} → (Text → Result Text Text) → Text → Result (BitcoinCoreRpcError V) (Text × Text)
read_rpc_cookie read_to_string path = do
  raw ← map_err (read_cookie path) (read_to_string path)
  ok_or (invalid_cookie path) (split_once b':' (trim raw))

module _ {F : Type 0} (L : RpcLib F) where
  abbrev pub Answer : Type 0 → Type 0
  Answer = Result (BitcoinCoreRpcError L.reader.Value)

  abbrev pub new_request : Text → List Param → RpcRequest
  new_request method params = record {
    jsonrpc = codes "1.0";
    id = codes "canary-mining";
    method = method;
    params = params;
  }

  unfoldable pub call_at_url :
      {T : Type 0}
      → BitcoinCoreRpc
      → (L.reader.Raw → Option T)
      → Text
      → Text
      → List Param
      → Answer T
  unfolding read_rpc_cookie decode_rpc_response
  call_at_url client from_raw url method params = do
    (username, password) ← read_rpc_cookie L.read_to_string client.cookie_path
    body ← map_err request (L.post url username password (new_request method params))
    decode_rpc_response L.reader from_raw method body

  unfoldable pub call :
      {T : Type 0} → BitcoinCoreRpc → (L.reader.Raw → Option T) → Text → List Param → Answer T
  unfolding call_at_url
  call client from_raw method params = call_at_url client from_raw client.url method params

  unfoldable pub call_number : BitcoinCoreRpc → Text → Answer F
  unfolding call
  call_number client method = do
    value ← call client L.to_value method []
    ok_or (non_numeric_result method) (L.as_f64 value)

  unfoldable pub network_hashrate : BitcoinCoreRpc → Answer F
  unfolding call_number
  network_hashrate client = call_number client (codes "getnetworkhashps")

  unfoldable pub network_difficulty : BitcoinCoreRpc → Answer F
  unfolding call_number
  network_difficulty client = call_number client (codes "getdifficulty")

  unfoldable pub blockchain_info : BitcoinCoreRpc → Answer (BlockchainInfo F L.reader.Value)
  unfolding call
  blockchain_info client = call client L.to_info (codes "getblockchaininfo") []

  unfoldable pub block_template_summary : BitcoinCoreRpc → Answer BlockTemplateSummary
  unfolding call
  block_template_summary client =
      call client L.to_template (codes "getblocktemplate") (rules (codes "segwit" ∷ []) ∷ [])

  unfoldable pub block_hash : BitcoinCoreRpc → ℕ → Answer Text
  unfolding call
  block_hash client height = call client L.to_text (codes "getblockhash") (number height ∷ [])

  unfoldable pub verbose_block : BitcoinCoreRpc → Text → Answer (VerboseBlock F)
  unfolding call
  verbose_block client hash = call client L.to_block (codes "getblock") (text hash ∷ number 2 ∷ [])
