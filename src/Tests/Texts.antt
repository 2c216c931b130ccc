-- ===== src/Tests/Texts.antt =====
-- Configurations, identities and miner ids.
use canary_mining.Common.{
  All, ◌≡◌, ◌≢◌, ◌↔◌, refl, arith, [], ◌∷◌, ◌++◌, Result, ok, err, false, some,
}
use canary_mining.Common.Text.Basic.{
  Text, codes, trim, is_whitespace, split_once, strip_prefix, starts_with,
}
use canary_mining.Common.Float.{float_zero}
use canary_mining.Config.{Network, AppConfig, default_config, read}
use canary_mining.Config.Checks.{read-validate}
use canary_mining.Address.{into, canonical_address, validate_payout_address}
use canary_mining.Identity.{
  MinerIdentity, unsupported, parse_miner_identity, select_address, normalize_label, miner_id,
  miner_id_from_identity,
}
use canary_mining.Identity.Forms.{Form, parse-Form}
use canary_mining.Identity.Ids.{forms_agree}
use canary_mining.Tests.Models.{numbers, prefixes, read_address, check_prefix}

abbrev file : Text → Result Text Text
file path = ok (codes "network = \"regtest\"")

abbrev config : AppConfig numbers.F
config = default_config numbers Network.regtest

abbrev toml : Text → Result Text (AppConfig numbers.F)
toml raw = ok config

read-validate_example : (read numbers file toml (codes "canary.toml") ≡ ok config) ↔ (
    (raw : Text) × (file (codes "canary.toml") ≡ ok raw)
    × (toml raw ≡ ok config)
    × (numbers.le config.shares_per_minute (float_zero numbers) ≡ false)
    × (config.share_batch_size ≢ 0))
read-validate_example = read-validate numbers file toml (codes "canary.toml") config

abbrev address : Text
address = codes "bcrt1q2nf"

abbrev garage : MinerIdentity
garage = record {
  label = codes "garage.s19";
  payout_address = address;
  user_identity = codes "bcrt1q2nf.garage.s19";
}

parse_dotted :
    parse_miner_identity prefixes (codes " bcrt1q2nf.garage.s19 ") Network.regtest ≡ ok garage
unfolding parse_miner_identity select_address normalize_label validate_payout_address
    canonical_address into trim is_whitespace split_once strip_prefix starts_with read_address
    check_prefix
parse_dotted = refl

parse_sri_other :
    parse_miner_identity prefixes (codes "sri/pool/bcrt1q2nf") Network.regtest ≡ err unsupported
unfolding parse_miner_identity select_address trim is_whitespace strip_prefix starts_with
parse_sri_other = refl

parse-Form_example :
    (parse_miner_identity prefixes (codes " bcrt1q2nf.garage.s19 ") Network.regtest ≡ ok garage) ↔ (
      (trim (codes " bcrt1q2nf.garage.s19 ") ≢ [])
      × (address : Text) × (label : Text) × Form
          (trim (codes " bcrt1q2nf.garage.s19 "))
          address
          label
      × (validate_payout_address prefixes address Network.regtest ≡ ok garage.payout_address)
      × (garage.label ≡ normalize_label label)
      × (garage.user_identity ≡ trim (codes " bcrt1q2nf.garage.s19 ")))
parse-Form_example = parse-Form prefixes (codes " bcrt1q2nf.garage.s19 ") Network.regtest garage

valid_address : validate_payout_address prefixes address Network.regtest ≡ ok address
unfolding validate_payout_address canonical_address into trim is_whitespace read_address
    check_prefix strip_prefix
valid_address = refl

trimmed_label : trim (codes "garage/s19") ≡ codes "garage/s19"
unfolding trim is_whitespace
trimmed_label = refl

plain_address : All (λ c. (is_whitespace c ≡ false) × (c ≢ b'.') × (c ≢ b'/')) address
unfolding is_whitespace
plain_address = ground arith

forms_agree_example :
    (miner_id_from_identity prefixes Network.regtest (address ++ (b'.' ∷ codes "garage/s19"))
      ≡ some (miner_id Network.regtest address (codes "garage/s19")))
    × (miner_id_from_identity prefixes Network.regtest
          (codes "sri/solo/" ++ (address ++ (b'/' ∷ codes "garage/s19")))
        ≡ some (miner_id Network.regtest address (codes "garage/s19")))
forms_agree_example =
    forms_agree prefixes Network.regtest address (codes "garage/s19") address valid_address
      (λ e. cc e) plain_address (λ e. cc e) trimmed_label
