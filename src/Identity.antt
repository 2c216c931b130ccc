-- ===== src/Identity.antt =====
-- Miner identities: miner_identity.rs, and the miner ids of history.rs that are made from them.
pub mod Parse
pub mod Forms
pub mod Ids
use canary_mining.Common.{
  ℕ, Option, none, some, ◌≡◌, List, [], ◌∷◌, ◌++◌, if◌then◌else◌, is_empty, Result, ok, err, ◌>>=◌,
  map_err,
}
use canary_mining.Common.Text.Basic.{
  Text, codes, trim, strip_prefix, starts_with, split, split_once, join,
}
use canary_mining.Config.{Network, display}
use canary_mining.Address.{AddressLib, PayoutAddressError, invalid, validate_payout_address}

pub record MinerIdentity : Type 0 where
  pub label : Text
  pub payout_address : Text
  pub user_identity : Text

pub data MinerIdentityError : Type 0 where
  empty : MinerIdentityError
  unsupported : MinerIdentityError
  invalid_address : Text → MinerIdentityError

-- `Display for PayoutAddressError`.
unfoldable pub error_text : PayoutAddressError → Text
error_text PayoutAddressError.empty = codes "payout address must not be empty"
error_text (invalid message) = codes "invalid payout address: " ++ message

-- `parts.next()`, and the label that the remaining parts are joined to.
unfoldable pub address_of_parts : List Text → Result MinerIdentityError (Text × Text)
address_of_parts [] = err unsupported
address_of_parts (address ∷ parts) = ok (address, join (codes "/") parts)

abbrev pub or_bare : Text → Option (Text × Text) → Text × Text
or_bare user_identity none = (user_identity, [])
or_bare user_identity (some (address, label)) = (address, label)

-- The address and the label of a trimmed identity, by its form.
unfoldable pub select_address : Text → Result MinerIdentityError (Text × Text)
unfolding address_of_parts
select_address user_identity = elim (strip_prefix (codes "sri/solo/") user_identity) [
  | some rest ↦ address_of_parts (split b'/' rest)
  | none ↦
      if starts_with (codes "sri/") user_identity
      then err unsupported
      else ok (or_bare user_identity (split_once b'.' user_identity))
]

unfoldable pub normalize_label : Text → Text
normalize_label label = if is_empty (trim label) then codes "default" else trim label

unfoldable pub parse_miner_identity :
    AddressLib → Text → Network → Result MinerIdentityError MinerIdentity
parse_miner_identity L input network =
    let user_identity = trim input in
    if is_empty user_identity then err empty else (do
      (address, label) ← select_address user_identity
      payout ←
          map_err (λ source. invalid_address (error_text source))
            (validate_payout_address L address network)
      ok (record {
        label = normalize_label label;
        payout_address = payout;
        user_identity = user_identity;
      }))

-- `miner_id` of history.rs.
unfoldable pub miner_id : Network → Text → Text → Text
miner_id network payout_address label =
    display network ++ (codes ":" ++ (payout_address ++ (codes ":" ++ trim label)))

-- `miner_id_from_identity` of history.rs.
unfoldable pub miner_id_from_identity : AddressLib → Network → Text → Option Text
miner_id_from_identity L network user_identity =
    elim (parse_miner_identity L user_identity network) [
      | ok identity ↦ some (miner_id network identity.payout_address identity.label)
      | err _ ↦ none
    ]
