-- ===== src/Tests/Miners.antt =====
-- The history of miners: its table and its writer.
use canary_mining.Common.{◌≡◌, refl, arith, [], ◌∷◌, true, false, some, none, map, List, All}
use mathlib.Core.List.{Perm}
use canary_mining.Common.Assoc.{get}
use canary_mining.Common.Int64.{pos}
use canary_mining.Common.Text.Basic.{codes, text_beq, text_eq}
use canary_mining.Config.{Network}
use canary_mining.Stats.{Event, channel_opened, channel_closed, share_accepted}
use canary_mining.History.Rows.{Row, Table, delete_offline_miner, opened_row, closed_row}
use canary_mining.History.Writer.{
  History, key_of, apply_event, write_events, event, delete, restart, act_all, session_key_eq,
}
use canary_mining.History.Laws.{IsWellFormed}
use canary_mining.History.Invariant.{act_all-IsWellFormed}
use canary_mining.History.Between.{IsAside}
use canary_mining.History.Listing.{query_miners, to_known_miner}
use canary_mining.History.Ranked.{IsRanked, query_miners_lem}
use canary_mining.History.Lifecycle.{SessionEnds, opened-closed, close_shared}
use canary_mining.Tests.Models.{numbers, prefixes}
use canary_mining.Tests.Registry.{rig, other_rig, user, id, identified, other_identified}

abbrev fresh : History numbers.F
fresh = record { db = []; sessions = [] }

fresh-IsWellFormed : IsWellFormed numbers Network.regtest fresh
fresh-IsWellFormed = record { rows = tt; distinct = tt; sessions_distinct = tt }

act_all-IsWellFormed_example : IsWellFormed numbers Network.regtest (
    act_all prefixes numbers Network.regtest fresh (
      event (channel_opened rig user 100 10)
      ∷ delete id
      ∷ event (channel_closed rig 20)
      ∷ delete id
      ∷ restart
      ∷ []))
act_all-IsWellFormed_example =
    act_all-IsWellFormed prefixes numbers Network.regtest fresh
      (event (channel_opened rig user 100 10)
        ∷ delete id
        ∷ event (channel_closed rig 20)
        ∷ delete id
        ∷ restart
        ∷ [])
      fresh-IsWellFormed

abbrev connected_row : Row numbers.F
connected_row = opened_row numbers user (codes "bcrt1q2nf") (codes "garage") 100 (pos 10) (pos 10)

abbrev known : Table numbers.F
known =
    (id, connected_row)
    ∷ (codes "regtest:bcrt1q2nf:", closed_row numbers (pos 30) connected_row)
    ∷ []

query_miners_lem_example :
    (ranked : Table numbers.F) × (query_miners known ≡ map to_known_miner ranked)
    × Perm ranked known
    × IsRanked ranked
query_miners_lem_example = query_miners_lem known

elsewhere : text_beq id (codes "regtest:bcrt1q2nf:") ≡ false
unfolding text_beq
elsewhere = refl

-- While the rig mines, it has a share accepted, and another miner connects.
abbrev meanwhile : List (Event numbers.F)
meanwhile =
    share_accepted rig 1 7 0 15
    ∷ channel_opened other_rig (codes "bcrt1q2nf") 100 18
    ∷ channel_closed other_rig 20
    ∷ []

abbrev before_close : History numbers.F
before_close =
    write_events prefixes numbers Network.regtest
      (apply_event prefixes numbers Network.regtest fresh (channel_opened rig user 100 10)).0
      meanwhile

apart : text_beq (codes "regtest:bcrt1q2nf:default") id ≡ false
unfolding text_beq
apart = refl

aside : All (IsAside prefixes Network.regtest rig id) meanwhile
aside = (tt, ((refl, rw other_identified apart), (refl, tt)))

opened-closed_example :
    SessionEnds numbers fresh id 10 25
      (codes "regtest:bcrt1q2nf:")
      before_close
      (apply_event prefixes numbers Network.regtest before_close (channel_closed rig 25)).0
opened-closed_example =
    opened-closed prefixes numbers Network.regtest fresh rig user id (codes "regtest:bcrt1q2nf:")
      100 10 25 meanwhile identified (omega arith) (omega arith) elsewhere aside

abbrev two_sessions : History numbers.F
two_sessions = record { db = known; sessions = (key_of rig, id) ∷ (key_of other_rig, id) ∷ [] }

close_shared_example :
    (get
        (key_of other_rig)
        (apply_event prefixes numbers Network.regtest two_sessions
          (channel_closed rig 40)).0.sessions
      ≡ some id)
    × ((delete_offline_miner
          (apply_event prefixes numbers Network.regtest two_sessions (channel_closed rig 40)).0.db
          id).1
        ≡ true)
    × (get id
          (delete_offline_miner
            (apply_event prefixes numbers Network.regtest two_sessions (channel_closed rig 40)).0.db
            id).0
        ≡ none)
unfolding get key_of text_beq
close_shared_example =
    close_shared prefixes numbers Network.regtest two_sessions rig other_rig id connected_row 40
      refl refl refl refl
