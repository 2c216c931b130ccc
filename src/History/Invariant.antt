-- ===== src/History/Invariant.antt =====
-- Every event, deletion and restart keeps the table of known miners well formed.
use canary_mining.Common.{
  ℕ, Bool, true, false, not, ◌≡◌, refl, Option, none, some, List, [], ◌∷◌, if◌then◌else◌, ok,
  Option-cases, inl, inr,
}
use canary_mining.Common.Assoc.{get, insert, remove}
use canary_mining.Common.Assoc.Laws.{
  Distinct-insert, Distinct-retain, Distinct-remove, All-insert, All-remove,
}
use canary_mining.Common.Text.Basic.{Text, text_eq}
use canary_mining.Common.Int64.{as_i64}
use canary_mining.Common.Float.{Float}
use canary_mining.Config.{Network}
use canary_mining.Address.{AddressLib}
use canary_mining.Identity.{MinerIdentity, miner_id, miner_id_from_identity}
use canary_mining.Stats.{
  MinerSessionKey, channel_opened, channel_closed, downstream_closed, share_accepted,
  share_rejected, block_found,
}
use canary_mining.History.Rows.{is_offline, Table, opened_row, first_seen_or, delete_offline_miner}
use canary_mining.History.Writer.{
  History, SessionKey, session_key_eq, apply_event, close_miners, close_session, is_of, Action,
  event, delete, restart, act, act_all, key_of,
}
use canary_mining.History.Laws.{
  IsKnown, IsWellFormed, open_history-IsWellFormed, close_miners-IsKnown, close_miners-Distinct,
  upsert-insert, sessions-IsWellFormed, update_known-IsWellFormed, accepted-IsKnown,
  rejected-IsKnown,
}

-- What an opened channel does: nothing for an identity that does not parse, and otherwise the session
-- is noted and the row written, without an error.
pub opened_unknown :
    (L : AddressLib) (R : Float) (network : Network) (h : History R.F) (k : MinerSessionKey)
    (user : Text) (hashrate : R.F) (now : ℕ)
    → miner_id_from_identity L network user ≡ none
    → apply_event L R network h (channel_opened k user hashrate now) ≡ (h, ok tt)
unfolding apply_event
opened_unknown L R network h k user hashrate now e = rw (e, apply_event)

pub opened_known :
    (L : AddressLib) (R : Float) (network : Network) (h : History R.F) (k : MinerSessionKey)
    (user id : Text) (hashrate : R.F) (now : ℕ)
    → miner_id_from_identity L network user ≡ some id
    → (identity : MinerIdentity) × (id ≡ miner_id network identity.payout_address identity.label)
      × (apply_event L R network h (channel_opened k user hashrate now) ≡ (
        record {
          db =
              insert id
                (opened_row R user identity.payout_address identity.label hashrate
                  (first_seen_or (get id h.db) (as_i64 now))
                  (as_i64 now))
                h.db;
          sessions = insert (key_of k) id h.sessions;
        },
        ok tt,
      ))
unfolding apply_event
opened_known L R network h k user id hashrate now e =
    let (identity, i, u) = upsert-insert R network L h.db user id hashrate now e in
    (identity, i, rw (e, u, apply_event))

opened-IsWellFormed :
    (L : AddressLib) (R : Float) (network : Network) (h : History R.F) (k : MinerSessionKey)
    (user : Text) (hashrate : R.F) (now : ℕ)
    → IsWellFormed R network h
    → IsWellFormed R network (apply_event L R network h (channel_opened k user hashrate now)).0
opened-IsWellFormed L R network h k user hashrate now w =
    elim (Option-cases (miner_id_from_identity L network user)) [
      | inl e ↦ rw (opened_unknown L R network h k user hashrate now e) w
      | inr (id, e) ↦
          let (identity, i, u) = opened_known L R network h k user id hashrate now e in
          rw u (
            sessions-IsWellFormed R network h w _ _
              (All-insert (IsKnown R network) id _ h.db
                (record { keyed = i; status = (λ b. cc, refl, refl) }) w.rows)
              (Distinct-insert id _ h.db w.distinct)
              (Distinct-insert (key_of k) id h.sessions w.sessions_distinct))
    ]

close_session-IsWellFormed :
    (R : Float) (network : Network) (h : History R.F) (key : SessionKey) (now : ℕ) (o : Option Text)
    → IsWellFormed R network h
    → IsWellFormed R network (close_session R h key now o)
unfolding close_miners
close_session-IsWellFormed R network h key now none w = w
close_session-IsWellFormed R network h key now (some id) w =
    sessions-IsWellFormed R network h w _ _
      (close_miners-IsKnown R network (id ∷ []) now h.db w.rows)
      (close_miners-Distinct R network (id ∷ []) now h.db w.distinct)
      (Distinct-remove key h.sessions w.sessions_distinct)

delete-IsWellFormed :
    (R : Float) (network : Network) (h : History R.F) (id : Text) (offline : Bool)
    → IsWellFormed R network h
    → IsWellFormed R network (record h {
      db = (if◌then◌else◌ {A = Table R.F × Bool} offline (remove id h.db, true) (h.db, false)).0;
    })
delete-IsWellFormed R network h id true w =
    sessions-IsWellFormed R network h w _ _ (All-remove (IsKnown R network) id h.db w.rows)
      (Distinct-remove id h.db w.distinct) w.sessions_distinct
delete-IsWellFormed R network h id false w = w

-- One action keeps the table well formed.
pub act-IsWellFormed :
    (L : AddressLib) (R : Float) (network : Network) (h : History R.F) (a : Action R.F)
    → IsWellFormed R network h
    → IsWellFormed R network (act L R network h a)
unfolding act apply_event delete_offline_miner
act-IsWellFormed L R network h (event (channel_opened k user hashrate now)) w =
    opened-IsWellFormed L R network h k user hashrate now w
act-IsWellFormed L R network h (event (channel_closed k now)) w =
    close_session-IsWellFormed R network h (key_of k) now _ w
act-IsWellFormed L R network h (event (downstream_closed downstream now)) w =
    sessions-IsWellFormed R network h w _ _ (close_miners-IsKnown R network _ now h.db w.rows)
      (close_miners-Distinct R network _ now h.db w.distinct)
      (Distinct-retain (λ e. not (is_of downstream e)) h.sessions w.sessions_distinct)
act-IsWellFormed L R network h (event (share_accepted k shares best blocks seen)) w =
    update_known-IsWellFormed R network h w _ (get (key_of k) h.sessions)
      (λ id db. accepted-IsKnown R network h w id shares best blocks seen db)
act-IsWellFormed L R network h (event (share_rejected k reason shares seen)) w =
    update_known-IsWellFormed R network h w _ (get (key_of k) h.sessions)
      (λ id db. rejected-IsKnown R network h w id shares seen db)
act-IsWellFormed L R network h (event (block_found k hash blocks found)) w = w
act-IsWellFormed L R network h (delete id) w =
    delete-IsWellFormed R network h id (is_offline (get id h.db)) w
act-IsWellFormed L R network h restart w = open_history-IsWellFormed R network h w

-- A well-formed table stays well formed whatever events, deletions and restarts follow: no miner has
-- two rows, every row is under the id of its network, address and label, a connected one has opened
-- and not closed, any other has no hashrate and a closing time; and no session is known twice.
pub act_all-IsWellFormed :
    (L : AddressLib) (R : Float) (network : Network) (h : History R.F) (actions : List (Action R.F))
    → IsWellFormed R network h
    → IsWellFormed R network (act_all L R network h actions)
unfolding act_all
act_all-IsWellFormed L R network h [] w = w
act_all-IsWellFormed L R network h (a ∷ actions) w =
    act_all-IsWellFormed L R network (act L R network h a) actions
      (act-IsWellFormed L R network h a w)
