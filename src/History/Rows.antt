-- ===== src/History/Rows.antt =====
-- The table of known miners, and the statements that change it.
use canary_mining.Common.{
  ℕ, Bool, true, false, not, Option, none, some, List, map, if◌then◌else◌, Result, ok, err, map_err,
  ◌>>=◌,
}
use canary_mining.Common.Assoc.{get, insert, remove, update}
use canary_mining.Common.Text.Basic.{Text, codes, text_eq}
use canary_mining.Common.Int64.{ℤ, pos, as_i64, try_i64, sub_or_zero}
use canary_mining.Common.Float.{Float, float_zero}
use canary_mining.Config.{Network}
use canary_mining.Address.{AddressLib}
use canary_mining.Identity.{MinerIdentityError, parse_miner_identity}

pub record Row (F : Type 0) : Type 0 where
  pub user_identity : Text
  pub payout_address : Text
  pub label : Text
  pub connected : Bool
  pub first_seen_at : ℤ
  pub last_seen_at : ℤ
  pub opened_at : Option ℤ
  pub closed_at : Option ℤ
  pub uptime_seconds : Option ℤ
  pub nominal_hashrate : F
  pub shares_accepted : ℤ
  pub best_diff : F
  pub blocks_found : ℤ
  pub shares_rejected : ℤ

-- `known_miners`, by its primary key.
abbrev pub Table : Type 0 → Type 0
Table F = List (Text × Row F)

-- What `apply_event` may fail with: an identity that does not parse, or a count that is out of
-- range, with its context.
pub data PersistError : Type 0 where
  invalid_identity : MinerIdentityError → PersistError
  out_of_range : Text → PersistError

-- COALESCE(a, b).
abbrev pub coalesce : Option ℤ → ℤ → Option ℤ
coalesce none b = some b
coalesce (some a) b = some a

abbrev pub disconnect : (R : Float) → Row R.F → Row R.F
disconnect R row = record row {
  connected = false;
  nominal_hashrate = float_zero R;
  closed_at = coalesce row.closed_at row.last_seen_at;
}

unfoldable pub mark_miners_disconnected : (R : Float) → Table R.F → Table R.F
mark_miners_disconnected R = map (λ e. (e.0, disconnect R e.1))

-- The row that an opened channel leaves: `first_seen_at` is kept where the miner is known.
abbrev pub opened_row : (R : Float) → Text → Text → Text → R.F → ℤ → ℤ → Row R.F
opened_row R user_identity payout_address label hashrate first_seen_at opened_at = record {
  user_identity = user_identity;
  payout_address = payout_address;
  label = label;
  connected = true;
  first_seen_at = first_seen_at;
  last_seen_at = opened_at;
  opened_at = some opened_at;
  closed_at = none;
  uptime_seconds = none;
  nominal_hashrate = hashrate;
  shares_accepted = pos 0;
  best_diff = float_zero R;
  blocks_found = pos 0;
  shares_rejected = pos 0;
}

abbrev pub first_seen_or : {F : Type 0} → Option (Row F) → ℤ → ℤ
first_seen_or none now = now
first_seen_or (some row) now = row.first_seen_at

unfoldable pub upsert_open_miner :
    (L : AddressLib) (R : Float)
    → Table R.F
    → Network
    → Text
    → Text
    → R.F
    → ℕ
    → Result PersistError (Table R.F)
unfolding as_i64
upsert_open_miner L R db network id user_identity hashrate opened_at = do
  identity ← map_err invalid_identity (parse_miner_identity L user_identity network)
  ok (
      insert id
        (opened_row R user_identity identity.payout_address identity.label hashrate
          (first_seen_or (get id db) (as_i64 opened_at)) (as_i64 opened_at))
        db)

-- CASE WHEN opened_at IS NULL THEN uptime_seconds ELSE MAX(?1 - opened_at, 0) END.
abbrev pub uptime_at : ℤ → Option ℤ → Option ℤ → Option ℤ
uptime_at closed_at none uptime = uptime
uptime_at closed_at (some opened_at) uptime = some (sub_or_zero closed_at opened_at)

abbrev pub closed_row : (R : Float) → ℤ → Row R.F → Row R.F
closed_row R now row = record row {
  connected = false;
  last_seen_at = now;
  closed_at = some now;
  uptime_seconds = uptime_at now row.opened_at row.uptime_seconds;
  nominal_hashrate = float_zero R;
}

unfoldable pub close_miner : (R : Float) → Table R.F → Text → ℕ → Table R.F
unfolding as_i64
close_miner R db id closed_at = update id (closed_row R (as_i64 closed_at)) db

abbrev pub accepted_row : {F : Type 0} → ℤ → F → ℤ → ℤ → Row F → Row F
accepted_row shares best blocks seen row = record row {
  shares_accepted = shares;
  best_diff = best;
  blocks_found = blocks;
  last_seen_at = seen;
}

abbrev pub rejected_row : {F : Type 0} → ℤ → ℤ → Row F → Row F
rejected_row shares seen row = record row { shares_rejected = shares; last_seen_at = seen }

-- The statements of `ShareAccepted` and `ShareRejected`: a count beyond SQLite's integers is an
-- error, and nothing is written.
unfoldable pub update_accepted :
    {F : Type 0} → Table F → Text → ℕ → F → ℕ → ℕ → Result PersistError (Table F)
unfolding as_i64 try_i64
update_accepted db id shares best blocks seen = elim (try_i64 shares) [
  | none ↦ err (out_of_range (codes "shares_accepted exceeds SQLite integer range"))
  | some shares' ↦ elim (try_i64 blocks) [
    | none ↦ err (out_of_range (codes "blocks_found exceeds SQLite integer range"))
    | some blocks' ↦ ok (update id (accepted_row shares' best blocks' (as_i64 seen)) db)
  ]
]

unfoldable pub update_rejected :
    {F : Type 0} → Table F → Text → ℕ → ℕ → Result PersistError (Table F)
unfolding as_i64 try_i64
update_rejected db id shares seen = elim (try_i64 shares) [
  | none ↦ err (out_of_range (codes "shares_rejected exceeds SQLite integer range"))
  | some shares' ↦ ok (update id (rejected_row shares' (as_i64 seen)) db)
]

abbrev pub is_offline : {F : Type 0} → Option (Row F) → Bool
is_offline none = false
is_offline (some row) = not row.connected

-- DELETE ... WHERE miner_id = ?1 AND connected = 0: the table, and whether a row was deleted.
unfoldable pub delete_offline_miner : {F : Type 0} → Table F → Text → Table F × Bool
delete_offline_miner db id = if is_offline (get id db) then (remove id db, true) else (db, false)
