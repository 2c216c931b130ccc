-- ===== src/Address.antt =====
-- Payout addresses: bitcoin_address.rs. The `bitcoin` crate is a parameter: parsing a text,
-- requiring a network and printing.
use canary_mining.Common.{if◌then◌else◌, is_empty, Result, ok, err, ◌>>=◌, map_err}
use canary_mining.Common.Text.Basic.{Text, trim}
use canary_mining.Config.{Network}

-- The networks of the `bitcoin` crate that the program names.
pub data BitcoinNetwork : Type 0 where
  bitcoin testnet4 signet regtest : BitcoinNetwork

-- `From<Network> for BitcoinNetwork`.
unfoldable pub into : Network → BitcoinNetwork
into Network.mainnet = bitcoin
into Network.testnet4 = BitcoinNetwork.testnet4
into Network.signet = BitcoinNetwork.signet
into Network.regtest = BitcoinNetwork.regtest

-- `bitcoin::Address`: unchecked and checked addresses, with the messages of the errors.
pub record AddressLib : Type 1 where
  pub Unchecked : Type 0
  pub Checked : Type 0
  pub from_str : Text → Result Text Unchecked
  pub require_network : Unchecked → BitcoinNetwork → Result Text Checked
  pub to_string : Checked → Text

pub data PayoutAddressError : Type 0 where
  empty : PayoutAddressError
  invalid : Text → PayoutAddressError

-- `Address::from_str(..)?.require_network(..)?.to_string()`.
unfoldable pub canonical_address : AddressLib → BitcoinNetwork → Text → Result Text Text
canonical_address L network s = do
  unchecked ← L.from_str s
  checked ← L.require_network unchecked network
  ok (L.to_string checked)

unfoldable pub validate_payout_address :
    AddressLib → Text → Network → Result PayoutAddressError Text
validate_payout_address L address network =
    let trimmed = trim address in
    if is_empty trimmed
    then err empty
    else map_err invalid (canonical_address L (into network) trimmed)
