-- ===== src/Tests/Registry.antt =====
-- The registry and the history of miners.
use canary_mining.Common.{ℕ, ◌+◌, ◌≤◌, ◌⊎◌, ◌≡◌, ◌↔◌, refl, arith, List, [], ◌∷◌, some, none}
use canary_mining.Common.Assoc.{get}
use canary_mining.Common.Text.Basic.{
  Text, codes, trim, is_whitespace, split_once, strip_prefix, starts_with, text_eq,
}
use canary_mining.Config.{Network, display}
use canary_mining.Address.{into, canonical_address, validate_payout_address}
use canary_mining.Identity.{
  parse_miner_identity, select_address, normalize_label, miner_id, miner_id_from_identity,
}
use canary_mining.Stats.{
  MinerSessionKey, standard, extended, Registry, new_session, closed_session_retention_secs,
  session, key_eq,
}
use canary_mining.Stats.Sessions.{snapshots}
use canary_mining.Stats.Calls.{Call, opened, rejected, channel_ended, listed, run}
use canary_mining.Stats.Timing.{IsCoherent, run-IsCoherent, last_time}
use canary_mining.Stats.Cells.{history, session-run}
use canary_mining.Stats.Tally.{Grown, rejections, rejections-run}
use canary_mining.Stats.Retention.{session-snapshots}
use canary_mining.History.Rows.{mark_miners_disconnected}
use canary_mining.History.Writer.{write_events, open_history, session_key_eq}
use canary_mining.History.Tracking.{tracked}
use canary_mining.History.Pipeline.{live, Follows, run-Follows}
use canary_mining.Tests.Models.{numbers, prefixes, read_address, check_prefix}

abbrev pub rig : MinerSessionKey
rig = record { downstream_id = 1; channel_id = 7; channel_kind = standard }

abbrev pub other_rig : MinerSessionKey
other_rig = record { downstream_id = 1; channel_id = 8; channel_kind = extended }

abbrev pub user : Text
user = codes "bcrt1q2nf.garage"

abbrev pub id : Text
id = codes "regtest:bcrt1q2nf:garage"

pub identified : miner_id_from_identity prefixes Network.regtest user ≡ some id
unfolding miner_id_from_identity parse_miner_identity select_address normalize_label
    validate_payout_address canonical_address into trim is_whitespace split_once strip_prefix
    starts_with read_address check_prefix miner_id display
identified = refl

pub other_identified :
    miner_id_from_identity prefixes Network.regtest (codes "bcrt1q2nf")
    ≡ some (codes "regtest:bcrt1q2nf:default")
unfolding miner_id_from_identity parse_miner_identity select_address normalize_label
    validate_payout_address canonical_address into trim is_whitespace split_once strip_prefix
    starts_with read_address check_prefix miner_id display
other_identified = refl

abbrev calls : List (ℕ × Call numbers.F)
calls =
    (10, opened rig user 100)
    ∷ (12, opened other_rig user 50)
    ∷ (15, rejected rig (codes "stale"))
    ∷ (20, channel_ended rig)
    ∷ (25, listed)
    ∷ []

empty-IsCoherent : IsCoherent {F = numbers.F} 0 (live [])
empty-IsCoherent = record { distinct = tt; timed = tt }

run-IsCoherent_example : IsCoherent (last_time 0 calls) (run numbers (live []) calls).0
run-IsCoherent_example = run-IsCoherent numbers (live []) 0 calls (omega arith) empty-IsCoherent

run-Follows_example :
    Follows prefixes Network.regtest
      (run numbers (live []) calls).0.sessions
      (write_events prefixes numbers Network.regtest
        (open_history numbers [])
        (run numbers (live []) calls).1).sessions
unfolding get open_history tracked mark_miners_disconnected
run-Follows_example =
    run-Follows prefixes numbers Network.regtest [] (open_history numbers []) 0 calls (omega arith)
      ((id, identified), ((id, identified), (tt, (tt, (tt, tt))))) empty-IsCoherent
      ((λ k. refl), tt)

abbrev one : Registry numbers.F
one = live ((rig, new_session numbers rig user 100 10) ∷ [])

session-snapshots_example :
    (session (snapshots one 50).0 rig ≡ some (new_session numbers rig user 100 10)) ↔ (
      (session one rig ≡ some (new_session numbers rig user 100 10))
      × (((new_session numbers rig user 100 10).closed_at ≡ none)
          ⊎ ((c : ℕ) × ((new_session numbers rig user 100 10).closed_at ≡ some c)
              × (50 ≤ c + closed_session_retention_secs))))
unfolding get
session-snapshots_example =
    session-snapshots one rig (refl, tt) (new_session numbers rig user 100 10) 50

session-run_example :
    session (run numbers (live []) calls).0 rig ≡ history numbers rig calls (session (live []) rig)
session-run_example = session-run numbers (live []) rig calls (refl, tt)

abbrev later : List (ℕ × Call numbers.F)
later =
    (15, rejected rig (codes "stale"))
    ∷ (16, opened other_rig user 50)
    ∷ (17, rejected other_rig (codes "stale"))
    ∷ (18, rejected rig (codes "stale"))
    ∷ []

session-one : session one rig ≡ some (new_session numbers rig user 100 10)
unfolding session get
session-one = refl

rejections-run_example :
    Grown numbers rig
      (new_session numbers rig user 100 10)
      (rejections rig later)
      (session (run numbers one later).0 rig)
unfolding get
rejections-run_example =
    rejections-run numbers rig (new_session numbers rig user 100 10) one later (refl, (refl, tt))
      (refl, tt) session-one (omega arith)
