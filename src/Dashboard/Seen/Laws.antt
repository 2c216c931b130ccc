-- ===== src/Dashboard/Seen/Laws.antt =====
-- The miners that the dashboard has seen over a run of answers of the monitoring.
use canary_mining.Common.{
  ℕ, Bool, true, false, ◌&&◌, ◌≡◌, refl, sym, subst, Option, none, some, List, [], ◌∷◌,
  if◌then◌else◌,
}
use mathlib.Core.Option
use canary_mining.Common.Assoc.{get}
use canary_mining.Common.Text.Basic.{Text, text_eq}
use canary_mining.Common.Float.{Float, float_zero}
use canary_mining.Dashboard.Sessions.{MinerRow, or_else}
use canary_mining.Dashboard.Seen.{
  merge_seen_miners, last_row, seen_row, offline_row, get-merge_seen_miners,
}

-- An answer, or that there was none, with its time.
abbrev pub Answer : Type 0 → Type 0
Answer F = Option (List (MinerRow F)) × ℕ

-- What is kept after these answers, the last one first.
unfoldable pub merge_all : (R : Float) → List (Answer R.F) → List (Text × MinerRow R.F)
unfolding merge_seen_miners
merge_all R [] = []
merge_all R ((miners, now) ∷ answers) = merge_seen_miners R (merge_all R answers) miners now

-- The last row under an id, with its time, and whether the last list there was has it.
abbrev pub sighting_or :
    {F : Type 0}
    → Option (MinerRow F)
    → ℕ
    → Option (MinerRow F × (ℕ × Bool))
    → Option (MinerRow F × (ℕ × Bool))
sighting_or (some miner) now before = some (miner, (now, true))
sighting_or none now none = none
sighting_or none now (some (miner, (time, listed))) = some (miner, (time, false))

abbrev pub last_sighting : {F : Type 0} → Text → List (Answer F) → Option (MinerRow F × (ℕ × Bool))
last_sighting id [] = none
last_sighting id ((none, now) ∷ answers) = last_sighting id answers
last_sighting id ((some miners, now) ∷ answers) =
    sighting_or (last_row id miners) now (last_sighting id answers)

-- A row is that of the miner as it was listed at this time; it is shown as connected, and with a
-- hashrate, only if the last list has it.
pub record IsRowOf (R : Float) (miner : MinerRow R.F) (time : ℕ) (listed : Bool)
    (row : MinerRow R.F) : Type 0 where
  pub connected : row.connected ≡ listed && miner.connected
  pub nominal_hashrate :
      row.nominal_hashrate ≡ (if listed then miner.nominal_hashrate else float_zero R)
  pub last_seen_at : row.last_seen_at ≡ some time
  pub id : row.id ≡ miner.id
  pub client_id : row.client_id ≡ miner.client_id
  pub channel_id : row.channel_id ≡ miner.channel_id
  pub channel_kind : row.channel_kind ≡ miner.channel_kind
  pub label : row.label ≡ miner.label
  pub payout_address : row.payout_address ≡ miner.payout_address
  pub user_identity : row.user_identity ≡ miner.user_identity
  pub shares_accepted : row.shares_accepted ≡ miner.shares_accepted
  pub best_diff : row.best_diff ≡ miner.best_diff
  pub blocks_found : row.blocks_found ≡ miner.blocks_found
  pub target_hex : row.target_hex ≡ miner.target_hex
  pub pool_diff : row.pool_diff ≡ miner.pool_diff

abbrev pub IsShown :
    (R : Float) → Option (MinerRow R.F × (ℕ × Bool)) → Option (MinerRow R.F) → Type 0
IsShown R none shown = shown ≡ none
IsShown R (some (miner, (time, listed))) shown =
    (row : MinerRow R.F) × (shown ≡ some row) × IsRowOf R miner time listed row

seen-IsRowOf :
    (R : Float) (miner : MinerRow R.F) (now : ℕ) → IsRowOf R miner now true (seen_row now miner)
seen-IsRowOf R miner now = record {
  connected = refl;
  nominal_hashrate = refl;
  last_seen_at = refl;
  id = refl;
  client_id = refl;
  channel_id = refl;
  channel_kind = refl;
  label = refl;
  payout_address = refl;
  user_identity = refl;
  shares_accepted = refl;
  best_diff = refl;
  blocks_found = refl;
  target_hex = refl;
  pool_diff = refl;
}

offline-IsRowOf :
    (R : Float) (miner row : MinerRow R.F) (time : ℕ) (listed : Bool)
    → IsRowOf R miner time listed row
    → IsRowOf R miner time false (offline_row R row)
offline-IsRowOf R miner row time listed r = record {
  connected = refl;
  nominal_hashrate = refl;
  last_seen_at = r.last_seen_at;
  id = r.id;
  client_id = r.client_id;
  channel_id = r.channel_id;
  channel_kind = r.channel_kind;
  label = r.label;
  payout_address = r.payout_address;
  user_identity = r.user_identity;
  shares_accepted = r.shares_accepted;
  best_diff = r.best_diff;
  blocks_found = r.blocks_found;
  target_hex = r.target_hex;
  pool_diff = r.pool_diff;
}

merged-IsShown :
    (R : Float) (now : ℕ) (listed : Option (MinerRow R.F)) (before : Option (MinerRow R.F))
    (sighting : Option (MinerRow R.F × (ℕ × Bool)))
    → IsShown R sighting before
    → IsShown R
        (sighting_or listed now sighting)
        (or_else (Option.map (seen_row now) listed) (Option.map (offline_row R) before))
merged-IsShown R now (some miner) before sighting s =
    (seen_row now miner, refl, seen-IsRowOf R miner now)
merged-IsShown R now none before none s = rw s refl
merged-IsShown R now none before (some (miner, (time, listed))) (row, e, r) =
    (offline_row R row, rw e refl, offline-IsRowOf R miner row time listed r)

-- After any answers of the monitoring, a miner is kept exactly if one of their lists has its id. Its
-- row is then the last one under the id in the last list that has it, with the time of that list; but
-- if a later list does not have it, it is shown as disconnected and without a hashrate. Where there was
-- no answer, nothing changes.
pub merge_all-IsShown :
    (R : Float) (answers : List (Answer R.F)) (id : Text)
    → IsShown R (last_sighting id answers) (get id (merge_all R answers))
unfolding merge_all merge_seen_miners get
merge_all-IsShown R [] id = refl
merge_all-IsShown R ((none, now) ∷ answers) id = merge_all-IsShown R answers id
merge_all-IsShown R ((some miners, now) ∷ answers) id =
    subst (IsShown R (sighting_or (last_row id miners) now (last_sighting id answers)))
      (sym (get-merge_seen_miners R (merge_all R answers) miners now id))
      (merged-IsShown R now (last_row id miners) (get id (merge_all R answers))
        (last_sighting id answers) (merge_all-IsShown R answers id))
