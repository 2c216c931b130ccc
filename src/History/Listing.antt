-- ===== src/History/Listing.antt =====
-- What the dashboard reads and deletes: `query_miners` and `delete_offline_miner`.
use canary_mining.Common.{
  ℕ, Bool, true, false, not, ◌&&◌, ◌||◌, ◌≡◌, ◌↔◌, refl, arith, Option, none, some, List, [], ◌∷◌,
  map, if◌then◌else◌, ltb, bool_beq, nat_beq,
}
use mathlib.Core.Option
use canary_mining.Common.Assoc.{get, get-remove}
use canary_mining.Common.Text.Basic.{Text, text_eq, text_beq, text_beq_iff}
use canary_mining.Common.Int64.{leb_ℤ, as_u64}
use canary_mining.Common.Sort.{sort}
use canary_mining.History.Rows.{Row, Table, delete_offline_miner, is_offline}

pub record KnownMiner (F : Type 0) : Type 0 where
  pub miner_id : Text
  pub user_identity : Text
  pub payout_address : Text
  pub label : Text
  pub connected : Bool
  pub first_seen_at : ℕ
  pub last_seen_at : ℕ
  pub opened_at : Option ℕ
  pub closed_at : Option ℕ
  pub uptime_seconds : Option ℕ
  pub nominal_hashrate : F
  pub shares_accepted : ℕ
  pub best_diff : F
  pub blocks_found : ℕ
  pub shares_rejected : ℕ

-- The order of texts by code points, which is that of their bytes.
unfoldable pub text_lt : Text → Text → Bool
text_lt [] [] = false
text_lt [] (b ∷ t) = true
text_lt (a ∷ s) [] = false
text_lt (a ∷ s) (b ∷ t) = ltb a b || nat_beq a b && text_lt s t

-- ORDER BY connected DESC, last_seen_at DESC, label ASC, payout_address ASC.
unfoldable pub address_before : {F : Type 0} → Row F → Row F → Bool
address_before a b = not (text_lt b.payout_address a.payout_address)

unfoldable pub label_before : {F : Type 0} → Row F → Row F → Bool
label_before a b = if text_beq a.label b.label then address_before a b else text_lt a.label b.label

unfoldable pub seen_before : {F : Type 0} → Row F → Row F → Bool
seen_before a b =
    if not (leb_ℤ a.last_seen_at b.last_seen_at)
    then true
    else if not (leb_ℤ b.last_seen_at a.last_seen_at)
    then false
    else label_before a b

unfoldable pub row_before : {F : Type 0} → Text × Row F → Text × Row F → Bool
row_before (i, a) (j, b) =
    if not (bool_beq a.connected b.connected) then a.connected else seen_before a b

unfoldable pub to_known_miner : {F : Type 0} → Text × Row F → KnownMiner F
unfolding as_u64
to_known_miner (id, row) = record {
  miner_id = id;
  user_identity = row.user_identity;
  payout_address = row.payout_address;
  label = row.label;
  connected = row.connected;
  first_seen_at = as_u64 row.first_seen_at;
  last_seen_at = as_u64 row.last_seen_at;
  opened_at = Option.map as_u64 row.opened_at;
  closed_at = Option.map as_u64 row.closed_at;
  uptime_seconds = Option.map as_u64 row.uptime_seconds;
  nominal_hashrate = row.nominal_hashrate;
  shares_accepted = as_u64 row.shares_accepted;
  best_diff = row.best_diff;
  blocks_found = as_u64 row.blocks_found;
  shares_rejected = as_u64 row.shares_rejected;
}

unfoldable pub query_miners : {F : Type 0} → Table F → List (KnownMiner F)
query_miners db = map to_known_miner (sort row_before db)

-- A deletion reports success exactly when the miner is known and disconnected; then it is gone, and
-- otherwise the table is as it was. No other miner is touched.
pub delete_offline_miner_lem :
    {F : Type 0} (db : Table F) (id other : Text)
    → (((delete_offline_miner db id).1 ≡ true)
        ↔ ((row : Row F) × (get id db ≡ some row) × (row.connected ≡ false)))
      × (get other (delete_offline_miner db id).0
          ≡ (if is_offline (get id db) && text_beq id other then none else get other db))
unfolding delete_offline_miner
delete_offline_miner_lem {F} db id other =
    (deleted (get id db) refl, ground (arith, get-remove id other db))
  where
    deleted :
        (o : Option (Row F))
        → get id db ≡ o
        → ((delete_offline_miner db id).1 ≡ true)
          ↔ ((row : Row F) × (get id db ≡ some row) × (row.connected ≡ false))
    deleted none e = (λ h. absurd (ground arith), λ h. absurd (ground (arith, h.1)))
    deleted (some row) e = (λ h. (row, e, ground arith), λ h. ground (arith, h.1, h.2))

pub text_lt_irrefl : (s : Text) → text_lt s s ≡ false
unfolding text_lt
text_lt_irrefl [] = refl
text_lt_irrefl (a ∷ s) = ground (arith, text_lt_irrefl s)

pub text_lt_trans : (s t u : Text) → text_lt s t ≡ true → text_lt t u ≡ true → text_lt s u ≡ true
unfolding text_lt
text_lt_trans [] [] u h k = ground arith
text_lt_trans (a ∷ s) [] u h k = ground arith
text_lt_trans [] (b ∷ t) [] h k = ground arith
text_lt_trans [] (b ∷ t) (c ∷ u) h k = refl
text_lt_trans (a ∷ s) (b ∷ t) [] h k = ground arith
text_lt_trans (a ∷ s) (b ∷ t) (c ∷ u) h k = ground (arith, text_lt_trans s t u)

pub text_lt_total : (s t : Text) → text_lt s t ≡ false → text_lt t s ≡ false → s ≡ t
unfolding text_lt
text_lt_total [] [] h k = refl
text_lt_total [] (b ∷ t) h k = ground arith
text_lt_total (a ∷ s) [] h k = ground arith
text_lt_total (a ∷ s) (b ∷ t) h k = ground (arith, text_lt_total s t)

module _ {F : Type 0} where
  address_total : (a b : Row F) → address_before a b ≡ false → address_before b a ≡ true
  unfolding address_before
  address_total a b h = ground (
    arith,
    text_lt_trans a.payout_address b.payout_address a.payout_address,
    text_lt_irrefl a.payout_address,
  )

  address_trans :
      (a b c : Row F)
      → address_before a b ≡ true
      → address_before b c ≡ true
      → address_before a c ≡ true
  unfolding address_before
  address_trans a b c g h = ground (
    arith,
    text_lt_trans c.payout_address a.payout_address b.payout_address,
    text_lt_total a.payout_address b.payout_address,
  )

  label_total : (a b : Row F) → label_before a b ≡ false → label_before b a ≡ true
  unfolding label_before
  label_total a b h = ground (
    arith,
    text_beq_iff a.label b.label,
    text_beq_iff b.label a.label,
    text_lt_total a.label b.label,
    address_total a b,
  )

  label_trans :
      (a b c : Row F) → label_before a b ≡ true → label_before b c ≡ true → label_before a c ≡ true
  unfolding label_before
  label_trans a b c g h = ground (
    arith,
    text_beq_iff a.label b.label,
    text_beq_iff b.label c.label,
    text_beq_iff a.label c.label,
    text_lt_trans a.label b.label c.label,
    text_lt_trans a.label b.label a.label,
    text_lt_irrefl a.label,
    address_trans a b c,
  )

  seen_total : (a b : Row F) → seen_before a b ≡ false → seen_before b a ≡ true
  unfolding seen_before leb_ℤ
  seen_total a b h = ground (arith, label_total a b)

  seen_trans :
      (a b c : Row F) → seen_before a b ≡ true → seen_before b c ≡ true → seen_before a c ≡ true
  unfolding seen_before leb_ℤ
  seen_trans a b c g h = ground (arith, label_trans a b c)

  pub row_before_total : (x y : Text × Row F) → row_before x y ≡ false → row_before y x ≡ true
  unfolding row_before
  row_before_total (i, a) (j, b) h = ground (arith, seen_total a b)

  pub row_before_trans :
      (x y z : Text × Row F) → row_before x y ≡ true → row_before y z ≡ true → row_before x z ≡ true
  unfolding row_before
  row_before_trans (i, a) (j, b) (k, c) g h = ground (arith, seen_trans a b c)
