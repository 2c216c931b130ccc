-- ===== src/Tests/Node.antt =====
-- The client of Bitcoin Core, the keys and the status at a small node.
use canary_mining.Common.{
  ℕ, ◌+◌, ◌≡◌, refl, ap, subst, arith, true, false, Option, none, some, [], ◌∷◌, ok, err,
}
use canary_mining.Common.Paths.{path_join}
use canary_mining.Common.Text.Basic.{Text, codes, text_beq}
use canary_mining.Activity.Template.{TemplateStatusSnapshot, ipc_mempool, available}
use canary_mining.Rpc.Decode.{Reader, decode_rpc_response}
use canary_mining.Rpc.Client.{RpcLib, BitcoinCoreRpc}
use canary_mining.Rpc.Laws.{last_member, error_of, answer_of, decode-answer_of}
use canary_mining.Keys.{
  FileSystem, KeyLib, AuthorityKeys, not_found, authority_key_path, load_or_create,
}
use canary_mining.Keys.Laws.{load-kept, load-again}
use canary_mining.Dashboard.Difficulty.{DifficultyAdjustmentStatus, calculate_difficulty_adjustment}
use canary_mining.Dashboard.Core.{
  DifficultyPeriodStartCache, cached_difficulty_period_start_time, fetch_difficulty_adjustment,
}
use canary_mining.Dashboard.Core.Laws.{fetch_difficulty_adjustment-again}
use canary_mining.Tests.Models.{numbers}

-- A reader for which a body is its one result, and `null` its only missing value.
abbrev reader : Reader
reader = record {
  Raw = Text;
  Value = Text;
  members = λ body. some ((codes "error", codes "null") ∷ (codes "result", body) ∷ []);
  optional = λ raw. elim (text_beq raw (codes "null")) [ true ↦ none | false ↦ some raw ];
}

decode-answer_of_example :
    decode_rpc_response reader (λ raw. some raw) (codes "getblockhash") (codes "00ab")
    ≡ answer_of reader
        (λ raw. some raw)
        (codes "getblockhash")
        (error_of reader (
          last_member reader
            (codes "error")
            ((codes "error", codes "null") ∷ (codes "result", codes "00ab") ∷ [])))
        (last_member reader
          (codes "result")
          ((codes "error", codes "null") ∷ (codes "result", codes "00ab") ∷ []))
decode-answer_of_example =
    decode-answer_of reader (λ raw. some raw) (codes "getblockhash") (codes "00ab")
      ((codes "error", codes "null") ∷ (codes "result", codes "00ab") ∷ []) refl

abbrev pub node : RpcLib ℕ
node = record {
  reader = reader;
  read_to_string = λ path. ok (codes "__cookie__:ab");
  post = λ url user password request. ok request.method;
  to_value = λ raw. some raw;
  to_text = λ raw. some raw;
  to_info = λ raw. some record {
    blocks = 5000;
    initialblockdownload = true;
    verificationprogress = 1;
    warnings = [];
  };
  to_template = λ raw. none;
  to_block = λ raw. none;
  as_f64 = λ value. some 7;
}

abbrev pub client : BitcoinCoreRpc
client = record { url = codes "http://127.0.0.1:18443"; cookie_path = codes ".cookie" }

abbrev pub template : TemplateStatusSnapshot ℕ
template = record {
  height = 5001;
  reward_sats = none;
  fee_sats = none;
  weight = none;
  weight_percent = none;
  transaction_count = 3;
  updated_at = 100;
  source = ipc_mempool;
  status = available;
}

abbrev pub unknown_start : DifficultyPeriodStartCache
unknown_start = record { height = none; timestamp = none }

abbrev status : DifficultyAdjustmentStatus ℕ
status = calculate_difficulty_adjustment numbers 5000 1000 2000 (some 7)

fetch_difficulty_adjustment-again_example :
    let kept =
      (fetch_difficulty_adjustment numbers (λ h. some 1000) 5000 2000 (some 7) unknown_start).0 in
    (time : ℕ) × (status ≡ calculate_difficulty_adjustment numbers 5000 time 2000 (some 7))
    × (fetch_difficulty_adjustment numbers (λ h. none) 5001 2600 none kept
        ≡ (kept, some (calculate_difficulty_adjustment numbers 5001 time 2600 none)))
unfolding fetch_difficulty_adjustment cached_difficulty_period_start_time
fetch_difficulty_adjustment-again_example =
    fetch_difficulty_adjustment-again numbers (λ h. some 1000) (λ h. none) 5000 2000 5001 2600
      (some 7) none unknown_start status refl refl

-- A disk with one file.
abbrev pub disk : FileSystem
disk = record {
  State = Option Text;
  read_to_string = λ s path. elim s [ none ↦ err not_found | some text ↦ ok text ];
  create_dir_all = λ s path. (s, ok tt);
  write = λ s path text. (some text, ok tt);
}

abbrev pub curve : KeyLib
curve = record {
  P = ℕ;
  S = ℕ;
  public_of = λ secret. secret + 1;
  from_toml = λ raw. elim raw [
    | [] ↦ err (codes "empty")
    | ◌∷◌ p rest ↦ elim rest [
      | [] ↦ err (codes "short")
      | ◌∷◌ s more ↦ ok record { public_key = p; secret_key = s }
    ]
  ];
  to_toml = λ keys. ok (keys.public_key ∷ keys.secret_key ∷ []);
}

load-kept_example :
    (load_or_create disk curve (some (codes "broken")) (codes "/data") 5).0 ≡ some (codes "broken")
load-kept_example =
    load-kept disk curve (some (codes "broken")) (codes "/data") 5 (λ e. absurd (ground (arith, e)))

reread :
    (s s' : Option Text) (path text : Text)
    → disk.write s path text ≡ (s', ok tt)
    → disk.read_to_string s' path ≡ ok text
reread s s' path text h = subst (λ t. disk.read_to_string t path ≡ ok text) (ap (λ x. x.0) h) refl

reparse :
    (keys : AuthorityKeys ℕ ℕ) (raw : Text)
    → curve.to_toml keys ≡ ok raw
    → curve.from_toml raw ≡ ok keys
reparse keys raw h =
    let e : keys.public_key ∷ keys.secret_key ∷ [] ≡ raw = ground (arith, h) in
    subst (λ t. curve.from_toml t ≡ ok keys) e refl

load-again_example :
    load_or_create disk curve (some (6 ∷ 5 ∷ [])) (codes "/data") 9
    ≡ (some (6 ∷ 5 ∷ []), ok record { public_key = 6; secret_key = 5 })
unfolding load_or_create authority_key_path path_join
load-again_example =
    load-again disk curve none (some (6 ∷ 5 ∷ [])) (codes "/data") 5 9
      record { public_key = 6; secret_key = 5 } reread reparse refl
