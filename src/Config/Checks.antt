-- ===== src/Config/Checks.antt =====
-- What a configuration that was read satisfies, and the names of the networks.
use canary_mining.Common.{
  false, ◌≡◌, ◌≢◌, ◌↔◌, refl, arith, Result, ok, map_err, >>=-eq-ok, map_err-eq-ok, subst,
}
use canary_mining.Common.Text.Basic.{Text, text_beq_iff, codes, text_eq, text_beq}
use canary_mining.Common.Float.{Float, float_zero}
use canary_mining.Config.{
  Network, mainnet, testnet4, signet, regtest, display, from_str, validate, read, AppConfig,
  read_error, parse_error,
}

from_str-name : (value : Text) (n : Network) → from_str value ≡ ok n → value ≡ display n
unfolding from_str display
from_str-name value mainnet h = ground (
  arith,
  text_beq_iff value (codes "mainnet"),
  text_beq_iff value (codes "testnet4"),
  text_beq_iff value (codes "signet"),
  text_beq_iff value (codes "regtest"),
)
from_str-name value testnet4 h = ground (
  arith,
  text_beq_iff value (codes "mainnet"),
  text_beq_iff value (codes "testnet4"),
  text_beq_iff value (codes "signet"),
  text_beq_iff value (codes "regtest"),
)
from_str-name value signet h = ground (
  arith,
  text_beq_iff value (codes "mainnet"),
  text_beq_iff value (codes "testnet4"),
  text_beq_iff value (codes "signet"),
  text_beq_iff value (codes "regtest"),
)
from_str-name value regtest h = ground (
  arith,
  text_beq_iff value (codes "mainnet"),
  text_beq_iff value (codes "testnet4"),
  text_beq_iff value (codes "signet"),
  text_beq_iff value (codes "regtest"),
)

from_str-display_self : (n : Network) → from_str (display n) ≡ ok n
unfolding from_str display text_beq
from_str-display_self mainnet = refl
from_str-display_self testnet4 = refl
from_str-display_self signet = refl
from_str-display_self regtest = refl

-- A text is accepted as a network exactly when it is the name that the network is displayed by.
pub from_str-display : (value : Text) (n : Network) → (from_str value ≡ ok n) ↔ (value ≡ display n)
from_str-display value n = (from_str-name value n, λ e. rw e (from_str-display_self n))

validate_iff :
    (R : Float) (config : AppConfig R.F)
    → (validate R config ≡ ok tt)
      ↔ ((R.le config.shares_per_minute (float_zero R) ≡ false) × (config.share_batch_size ≢ 0))
unfolding validate
validate_iff R config = (λ h. (ground arith, ground arith), λ h. ground (arith, h.0, h.1))

-- A configuration is read exactly when the file is read, its text parses to that configuration,
-- `shares_per_minute` is not at most zero and `share_batch_size` is not zero.
pub read-validate :
    (R : Float) (read_to_string : Text → Result Text Text)
    (from_toml : Text → Result Text (AppConfig R.F)) (path : Text) (config : AppConfig R.F)
    → (read R read_to_string from_toml path ≡ ok config) ↔ (
        (raw : Text) × (read_to_string path ≡ ok raw)
        × (from_toml raw ≡ ok config)
        × (R.le config.shares_per_minute (float_zero R) ≡ false)
        × (config.share_batch_size ≢ 0))
unfolding read
read-validate R read_to_string from_toml path config = (forth, back)
  where
    forth :
        read R read_to_string from_toml path ≡ ok config
        → (raw : Text) × (read_to_string path ≡ ok raw)
          × (from_toml raw ≡ ok config)
          × (R.le config.shares_per_minute (float_zero R) ≡ false)
          × (config.share_batch_size ≢ 0)
    forth h =
        let (raw, e, h') = >>=-eq-ok (map_err (read_error path) (read_to_string path)) _ h in
        let (c, e', h'') = >>=-eq-ok (map_err (parse_error path) (from_toml raw)) _ h' in
        let (u, v, w) = >>=-eq-ok (validate R c) _ h'' in
        let same : c ≡ config = cc in
        let valid = (validate_iff R config).0 (subst (λ x. validate R x ≡ ok tt) same v) in
        (
          raw,
          map_err-eq-ok _ _ e,
          subst (λ x. from_toml raw ≡ ok x) same (map_err-eq-ok _ _ e'),
          valid.0,
          valid.1,
        )

    back :
        ((raw : Text) × (read_to_string path ≡ ok raw)
          × (from_toml raw ≡ ok config)
          × (R.le config.shares_per_minute (float_zero R) ≡ false)
          × (config.share_batch_size ≢ 0))
        → read R read_to_string from_toml path ≡ ok config
    back (raw, e, e', p, q) = rw (e, e', (validate_iff R config).1 (p, q))
