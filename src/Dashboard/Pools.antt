-- ===== src/Dashboard/Pools.antt =====
-- The pool that a block of the chain is attributed to: `detect_block_pool`.
use canary_mining.Common.{
  ℕ, ◌+◌, ◌*◌, ◌-◌, ◌≡◌, refl, Bool, true, false, not, ◌&&◌, ◌||◌, Option, none, some, List, [],
  ◌∷◌, ◌++◌, map, any, retain, first, is_empty, if◌then◌else◌, leb, nat_beq, ◌==◌, Bool-cases, inl,
  inr, arith,
}
use mathlib.Core.Option
use canary_mining.Common.Text.Basic.{
  Text, codes, trim, text_beq, text_eq, starts_with, strip_prefix,
}
use canary_mining.Common.Assoc.Laws.{keep_if}
use canary_mining.Dashboard.Sessions.{unwrap_or}
use canary_mining.PoolConfig.{or_itself}
use canary_mining.Rpc.Client.{VerboseTransaction, VerboseTransactionOutput, VerboseTransactionInput}
pub mod Laws

pub record PoolAttribution : Type 0 where
  pub name : Text
  pub slug : Text
  pub logo : Text
  pub link : Option Text

pub record MempoolPoolEntry : Type 0 where
  pub name : Text
  pub addresses : List Text
  pub tags : List Text
  pub link : Option Text

-- The registry that is compiled in, the logos that the build generates, and the standard library's
-- functions on Unicode.
pub record PoolAssets : Type 0 where
  pub registry : List MempoolPoolEntry
  pub has_logo : Text → Bool
  pub to_lowercase : Text → Text
  pub from_utf8_lossy : List ℕ → Text

abbrev pub unknown_pool : PoolAttribution
unknown_pool = record {
  name = codes "Unknown";
  slug = codes "unknown";
  logo = codes "unknown.svg";
  link = some (codes "https://learnmeabitcoin.com/technical/coinbase-transaction");
}

abbrev pub canary_pool : PoolAttribution
canary_pool = record {
  name = codes "Canary Solo";
  slug = codes "canarysolo";
  logo = codes "default.svg";
  link = none;
}

abbrev pub between : ℕ → ℕ → ℕ → Bool
between lo hi c = leb lo c && leb c hi

unfoldable pub is_ascii_alphanumeric : ℕ → Bool
is_ascii_alphanumeric c = between b'0' b'9' c || between b'A' b'Z' c || between b'a' b'z' c

-- `char::to_lowercase` of an ASCII character.
abbrev pub lower : ℕ → ℕ
lower c = if between b'A' b'Z' c then c + 32 else c

unfoldable pub pool_slug : Text → Text
unfolding retain is_ascii_alphanumeric
pool_slug name = map lower (retain is_ascii_alphanumeric name)

-- `str::contains`.
unfoldable pub contains : Text → Text → Bool
unfolding starts_with
contains needle [] = starts_with needle []
contains needle (c ∷ s) = starts_with needle (c ∷ s) || contains needle s

-- A hexadecimal digit.
unfoldable pub nibble : ℕ → Option ℕ
nibble c =
    if between b'0' b'9' c
    then some (c - b'0')
    else if between b'a' b'f' c
    then some (c - b'a' + 10)
    else if between b'A' b'F' c
    then some (c - b'A' + 10)
    else none

abbrev pub two_nibbles : Option ℕ → Option ℕ → Option ℕ
two_nibbles (some h) (some l) = some (h * 16 + l)
two_nibbles (some h) none = none
two_nibbles none l = none

-- `u8::from_str_radix` of two characters, of which the first may be a sign.
unfoldable pub hex_byte : ℕ → ℕ → Option ℕ
unfolding nibble
hex_byte h l = if nat_beq h b'+' then nibble l else two_nibbles (nibble h) (nibble l)

abbrev pub cons_byte : Option ℕ → Option (List ℕ) → Option (List ℕ)
cons_byte (some b) (some bs) = some (b ∷ bs)
cons_byte (some b) none = none
cons_byte none bs = none

-- The bytes of a text of ASCII characters, two characters each.
unfoldable pub hex_bytes : Text → Option (List ℕ)
unfolding hex_byte
hex_bytes [] = some []
hex_bytes (h ∷ []) = none
hex_bytes (h ∷ l ∷ s) = cons_byte (hex_byte h l) (hex_bytes s)

module _ (A : PoolAssets) where
  unfoldable pub contains_case_insensitive : Text → Text → Bool
  unfolding contains
  contains_case_insensitive haystack needle =
      contains (A.to_lowercase needle) (A.to_lowercase haystack)

  unfoldable pub mempool_pool_matches_script_sig : MempoolPoolEntry → Text → Bool
  unfolding retain any contains_case_insensitive
  mempool_pool_matches_script_sig pool script_sig =
      any (contains_case_insensitive script_sig)
        (retain (λ tag. not (is_empty (trim tag))) pool.tags)

  unfoldable pub pool_logo_for_slug : Text → Text
  pool_logo_for_slug slug =
      if A.has_logo (slug ++ codes ".svg") then slug ++ codes ".svg" else codes "default.svg"

  unfoldable pub mempool_pool_attribution : MempoolPoolEntry → PoolAttribution
  unfolding pool_slug pool_logo_for_slug
  mempool_pool_attribution pool = record {
    name = pool.name;
    slug = pool_slug pool.name;
    logo = pool_logo_for_slug (pool_slug pool.name);
    link = keep_if (λ link. not (is_empty link)) pool.link;
  }

  unfoldable pub hex_to_lossy_ascii : Text → Option Text
  unfolding hex_bytes
  hex_to_lossy_ascii value =
      Option.map A.from_utf8_lossy (hex_bytes (or_itself value (strip_prefix (codes "0x") value)))

  abbrev pub lists_address : Option Text → MempoolPoolEntry → Bool
  lists_address none pool = false
  lists_address (some address) pool = any (λ candidate. candidate == address) pool.addresses

  -- The first pool of the registry that passes the test.
  unfoldable pub find_pool :
      (MempoolPoolEntry → Bool) → List MempoolPoolEntry → Option MempoolPoolEntry
  find_pool p [] = none
  find_pool p (pool ∷ pools) = if p pool then some pool else find_pool p pools

  abbrev pub pays_default : Text → Option Text → Bool
  pays_default default none = false
  pays_default default (some address) = address == default

  abbrev pub first_address : {F : Type 0} → VerboseTransaction F → Option Text
  first_address coinbase = elim (first coinbase.vout) [
    | none ↦ none
    | some output ↦ output.script_pub_key.address
  ]

  abbrev pub script_text : Option Text → Text
  script_text none = []
  script_text (some hex) = unwrap_or [] (hex_to_lossy_ascii hex)

  abbrev pub script_sig : {F : Type 0} → VerboseTransaction F → Text
  script_sig coinbase = elim (first coinbase.vin) [
    | none ↦ []
    | some input ↦ script_text input.coinbase
  ]

  abbrev pub attributed : Option MempoolPoolEntry → PoolAttribution → PoolAttribution
  attributed none otherwise = otherwise
  attributed (some pool) otherwise = mempool_pool_attribution pool

  unfoldable pub detect_block_pool :
      {F : Type 0} → Text → Option (VerboseTransaction F) → PoolAttribution
  unfolding find_pool mempool_pool_matches_script_sig
  detect_block_pool default none = unknown_pool
  detect_block_pool default (some coinbase) =
      let address = first_address coinbase in
      let script = script_sig coinbase in
      if pays_default default address
      then canary_pool
      else attributed (find_pool (lists_address address) A.registry) (
          attributed (find_pool (λ pool. mempool_pool_matches_script_sig pool script) A.registry)
            unknown_pool)
