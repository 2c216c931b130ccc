-- ===== src/Dashboard/Seen.antt =====
-- The miners that the dashboard has seen since it started: `merge_seen_miners`.
use canary_mining.Common.{
  ℕ, true, false, ◌≡◌, ◌⊎◌, refl, ap, ◌∙◌, Option, none, some, List, [], ◌∷◌, if◌then◌else◌,
  Bool-cases, inl, inr, ◌==◌,
}
use mathlib.Core.Option
use canary_mining.Common.Assoc.{get, insert, get-insert}
use canary_mining.Common.Assoc.Laws.{map_values, get-map_values}
use canary_mining.Common.Text.Basic.{Text, text_eq}
use canary_mining.Common.Float.{Float, float_zero}
use canary_mining.Dashboard.Sessions.{MinerRow, or_else}
pub mod Laws

abbrev pub offline_row : (R : Float) → MinerRow R.F → MinerRow R.F
offline_row R miner = record miner { connected = false; nominal_hashrate = float_zero R }

abbrev pub seen_row : {F : Type 0} → ℕ → MinerRow F → MinerRow F
seen_row now miner = record miner { last_seen_at = some now }

unfoldable pub insert_rows :
    {F : Type 0} → ℕ → List (MinerRow F) → List (Text × MinerRow F) → List (Text × MinerRow F)
insert_rows now [] seen = seen
insert_rows now (miner ∷ miners) seen =
    insert_rows now miners (insert miner.id (seen_row now miner) seen)

-- Where the monitoring is not available, nothing changes.
unfoldable pub merge_seen_miners :
    (R : Float)
    → List (Text × MinerRow R.F)
    → Option (List (MinerRow R.F))
    → ℕ
    → List (Text × MinerRow R.F)
unfolding insert_rows
merge_seen_miners R seen none now = seen
merge_seen_miners R seen (some miners) now =
    insert_rows now miners (map_values (offline_row R) seen)

-- The last of the rows under an id.
abbrev pub last_row : {F : Type 0} → Text → List (MinerRow F) → Option (MinerRow F)
last_row id [] = none
last_row id (miner ∷ miners) =
    or_else (last_row id miners) (if miner.id == id then some miner else none)

get-insert_rows :
    {F : Type 0} (now : ℕ) (id : Text) (miners : List (MinerRow F))
    (seen : List (Text × MinerRow F))
    → get id (insert_rows now miners seen)
      ≡ or_else (Option.map (seen_row now) (last_row id miners)) (get id seen)
unfolding insert_rows
get-insert_rows now id [] seen = refl
get-insert_rows {F} now id (miner ∷ miners) seen =
    get-insert_rows now id miners (insert miner.id (seen_row now miner) seen)
    ∙ step (last_row id miners) (Bool-cases (miner.id == id))
  where
    step :
        (o : Option (MinerRow F))
        → (miner.id == id ≡ true) ⊎ (miner.id == id ≡ false)
        → or_else (Option.map (seen_row now) o) (get id (insert miner.id (seen_row now miner) seen))
          ≡ or_else
              (Option.map (seen_row now) (or_else o (if miner.id == id then some miner else none)))
              (get id seen)
    step (some row) d = refl
    step none (inl e) = get-insert miner.id id (seen_row now miner) seen ∙ rw e refl
    step none (inr e) = get-insert miner.id id (seen_row now miner) seen ∙ rw e refl

pub get-merge_seen_miners :
    (R : Float) (seen : List (Text × MinerRow R.F)) (miners : List (MinerRow R.F)) (now : ℕ)
    (id : Text)
    → get id (merge_seen_miners R seen (some miners) now)
      ≡ or_else
          (Option.map (seen_row now) (last_row id miners))
          (Option.map (offline_row R) (get id seen))
unfolding merge_seen_miners
get-merge_seen_miners R seen miners now id =
    get-insert_rows now id miners (map_values (offline_row R) seen)
    ∙ ap (or_else (Option.map (seen_row now) (last_row id miners)))
        (get-map_values id (offline_row R) seen)
