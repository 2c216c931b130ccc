-- ===== src/History/Store.antt =====
-- The file of the history: `database_path`, `initialize`, and the calls of the dashboard, which open it
-- anew each time.
use canary_mining.Common.{
  ℕ, Bool, ◌≡◌, ap, refl, Option, none, some, List, [], retain, Result, ok, err,
}
use canary_mining.Common.Assoc.Laws.{Distinct}
use canary_mining.Common.Float.{Float}
use canary_mining.Common.Text.Basic.{Text, codes, text_eq}
use canary_mining.Common.Paths.{path_join}
use canary_mining.Config.{AppConfig}
use canary_mining.History.Rows.{Table, delete_offline_miner, mark_miners_disconnected}
use canary_mining.History.Listing.{KnownMiner, query_miners}
use canary_mining.History.Deletion.{is_left, query_miners-delete}

abbrev pub schema_version : ℕ
schema_version = 1

unfoldable pub database_path : {F : Type 0} → AppConfig F → Text
unfolding path_join
database_path config = path_join config.data_dir (codes "canary-ui.sqlite")

-- The database: the version in its header, and the table, once it is created.
pub record Store (F : Type 0) : Type 0 where
  pub user_version : ℕ
  pub known_miners : Option (Table F)

-- What the table holds; nothing where it is not created yet.
abbrev pub rows_of : {F : Type 0} → Option (Table F) → Table F
rows_of none = []
rows_of (some db) = db

-- CREATE TABLE IF NOT EXISTS.
unfoldable pub initialize : {F : Type 0} → Store F → Store F
initialize s = record {
  user_version = schema_version;
  known_miners = some (rows_of s.known_miners);
}

-- A function of the connection, if the file can be opened.
unfoldable pub with_connection :
    {F A : Type 0}
    → Result Text Unit
    → Store F
    → (Store F → Store F × Result Text A)
    → Store F × Result Text A
with_connection (err e) s f = (s, err e)
with_connection (ok u) s f = f s

-- The statements on the table of an initialized store.
unfoldable pub on_table :
    {F A : Type 0} → (Table F → Table F × A) → Store F → Store F × Result Text A
unfolding initialize
on_table f s =
    let s' = initialize s in
    let (db, a) = f (rows_of s'.known_miners) in (record s' { known_miners = some db }, ok a)

-- `MinerHistory::miners`, by what the opening of the file gives.
unfoldable pub miners :
    {F : Type 0} → Result Text Unit → Store F → Store F × Result Text (List (KnownMiner F))
unfolding with_connection on_table query_miners
miners opened s = with_connection opened s (on_table (λ db. (db, query_miners db)))

-- `MinerHistory::delete_miner`.
unfoldable pub delete_miner :
    {F : Type 0} → Result Text Unit → Store F → Text → Store F × Result Text Bool
unfolding with_connection on_table delete_offline_miner
delete_miner opened s id = with_connection opened s (on_table (λ db. delete_offline_miner db id))

-- `MinerHistory::open`, by what the creation of the directory and the opening of the file give.
unfoldable pub open_store :
    (R : Float) → Result Text Unit → Result Text Unit → Store R.F → Store R.F × Result Text Unit
unfolding with_connection on_table mark_miners_disconnected
open_store R (err e) opened s = (s, err e)
open_store R (ok u) opened s =
    with_connection opened s (on_table (λ db. (mark_miners_disconnected R db, tt)))

-- The list that the dashboard reads of a file that can be opened.
abbrev pub listed : {F : Type 0} → Store F → Result Text (List (KnownMiner F))
listed s = (miners (ok tt) s).1

abbrev left_of :
    {F : Type 0} → Text → Result Text (List (KnownMiner F)) → Result Text (List (KnownMiner F))
left_of id (ok known) = ok (retain (is_left id) known)
left_of id (err e) = err e

-- After a deletion through the dashboard, also in a file without a table, the list read anew is the
-- one before, less the miner of that id if it is disconnected; provided no id has two rows.
pub miners-delete_miner :
    {F : Type 0} (s : Store F) (id : Text)
    → Distinct (rows_of s.known_miners)
    → listed (delete_miner (ok tt) s id).0 ≡ left_of id (listed s)
unfolding miners delete_miner with_connection on_table initialize
miners-delete_miner s id d = ap (ok) (query_miners-delete (rows_of s.known_miners) id d)

-- Reading the list creates the table, and changes nothing that is read later.
pub miners-miners : {F : Type 0} (s : Store F) → listed (miners (ok tt) s).0 ≡ listed s
unfolding miners with_connection on_table initialize
miners-miners s = refl
