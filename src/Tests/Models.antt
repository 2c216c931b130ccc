-- ===== src/Tests/Models.antt =====
-- Concrete parameters: an address library that knows addresses by their prefixes, and numbers for the
-- floats.
use canary_mining.Common.{
  ℕ, ◌+◌, ◌-◌, ◌*◌, ◌/◌, max, Bool, true, ◌&&◌, ◌||◌, if◌then◌else◌, leb, ltb, Result, ok, err, not,
  any,
}
use canary_mining.Common.Text.Basic.{Text, codes, starts_with}
use canary_mining.Common.Float.{Float}
use canary_mining.Address.{AddressLib, BitcoinNetwork}

abbrev pub numbers : Float
numbers = record {
  F = ℕ;
  literal = λ n d. n / d;
  of_u64 = λ n. n;
  to_u64 = λ x. x;
  add = λ x y. x + y;
  sub = λ x y. x - y;
  mul = λ x y. x * y;
  div = λ x y. x / y;
  fmax = λ x y. max x y;
  abs = λ x. x;
  round = λ x. x;
  le = leb;
  lt = ltb;
  is_finite = λ x. true;
}

abbrev prefix : BitcoinNetwork → Text
prefix BitcoinNetwork.bitcoin = codes "bc1"
prefix BitcoinNetwork.testnet4 = codes "tb1"
prefix BitcoinNetwork.signet = codes "tb1"
prefix BitcoinNetwork.regtest = codes "bcrt1"

abbrev is_alphanumeric : ℕ → Bool
is_alphanumeric c = leb b'0' c && leb c b'9' || leb b'a' c && leb c b'z' || leb b'A' c && leb c b'Z'

unfoldable pub read_address : Text → Result Text Text
unfolding any
read_address s = if any (λ c. not (is_alphanumeric c)) s then err (codes "bad character") else ok s

unfoldable pub check_prefix : Text → BitcoinNetwork → Result Text Text
unfolding starts_with
check_prefix s network =
    if starts_with (prefix network) s then ok s else err (codes "wrong network")

abbrev pub prefixes : AddressLib
prefixes = record {
  Unchecked = Text;
  Checked = Text;
  from_str = read_address;
  require_network = check_prefix;
  to_string = λ s. s;
}
