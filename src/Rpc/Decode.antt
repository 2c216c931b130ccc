-- ===== src/Rpc/Decode.antt =====
-- The reading of an RPC response: `RpcResponse` and `decode_rpc_response`.
use canary_mining.Common.{
  Bool, true, false, Option, none, some, List, [], ◌∷◌, if◌then◌else◌, ◌==◌, Result, ok, err,
}
use canary_mining.Common.Text.Basic.{Text, codes, text_eq}

-- The JSON reader. `members` are the members of the object that a body holds, in their order, if the
-- body is well formed; `optional` reads an `Option`, nothing for `null`.
pub record Reader : Type 1 where
  pub Raw : Type 0
  pub Value : Type 0
  pub members : Text → Option (List (Text × Raw))
  pub optional : Raw → Option Value

-- `panicked` is the end of an `expect`.
pub data BitcoinCoreRpcError (V : Type 0) : Type 0 where
  read_cookie : Text → Text → BitcoinCoreRpcError V
  invalid_cookie : Text → BitcoinCoreRpcError V
  request : Text → BitcoinCoreRpcError V
  rpc : Text → V → BitcoinCoreRpcError V
  non_numeric_result : Text → BitcoinCoreRpcError V
  unexpected_result : Text → BitcoinCoreRpcError V
  missing_result : Text → BitcoinCoreRpcError V
  panicked : BitcoinCoreRpcError V

pub record RpcResponse (J : Reader) : Type 0 where
  pub result : Option J.Raw
  pub result_present : Bool
  pub error : Option J.Value

abbrev pub no_response : (J : Reader) → RpcResponse J
no_response J = record { result = none; result_present = false; error = none }

-- One round of the loop of `visit_map`.
abbrev pub visit_member : (J : Reader) → Text → J.Raw → RpcResponse J → RpcResponse J
visit_member J key raw response =
    if key == codes "result"
    then record response { result = some raw; result_present = true }
    else if key == codes "error"
    then record response { error = J.optional raw }
    else response

unfoldable pub visit_map : (J : Reader) → List (Text × J.Raw) → RpcResponse J → RpcResponse J
visit_map J [] response = response
visit_map J ((key, raw) ∷ members) response = visit_map J members (visit_member J key raw response)

abbrev pub ok_or {ℓ} : {E T : Type ℓ} → E → Option T → Result E T
ok_or e none = err e
ok_or e (some t) = ok t

-- What is left of `decode_rpc_response` when the response is read.
unfoldable pub take_result :
    (J : Reader) {T : Type 0}
    → (J.Raw → Option T)
    → Text
    → RpcResponse J
    → Result (BitcoinCoreRpcError J.Value) T
take_result J from_raw method response = elim response.error [
  | some error ↦ err (rpc method error)
  | none ↦
      if response.result_present
      then elim response.result [
        | none ↦ err panicked
        | some raw ↦ ok_or (unexpected_result method) (from_raw raw)
      ]
      else err (missing_result method)
]

unfoldable pub decode_rpc_response :
    (J : Reader) {T : Type 0}
    → (J.Raw → Option T)
    → Text
    → Text
    → Result (BitcoinCoreRpcError J.Value) T
unfolding visit_map take_result
decode_rpc_response J from_raw method body = elim (J.members body) [
  | none ↦ err (unexpected_result method)
  | some members ↦ take_result J from_raw method (visit_map J members (no_response J))
]
