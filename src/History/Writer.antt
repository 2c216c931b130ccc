-- ===== src/History/Writer.antt =====
-- The writer: it applies the events of the registry to the table, and knows which open session
-- belongs to which miner.
use canary_mining.Common.{
  ℕ, Bool, true, ◌&&◌, not, ◌≡◌, ◌↔◌, arith, Option, none, some, List, [], ◌∷◌, map, Result, ok,
  err, retain, Eq, ◌==◌, nat_eq, nat_beq,
}
use canary_mining.Common.Assoc.{get, insert, remove}
use canary_mining.Common.Text.Basic.{Text, text_eq, text_beq, text_beq_iff}
use canary_mining.Common.Float.{Float}
use canary_mining.Config.{Network}
use canary_mining.Address.{AddressLib}
use canary_mining.Identity.{miner_id_from_identity}
use canary_mining.Stats.{
  MinerSessionKey, as_str, Event, channel_opened, channel_closed, downstream_closed, share_accepted,
  share_rejected, block_found,
}
use canary_mining.History.Rows.{
  Table, PersistError, mark_miners_disconnected, upsert_open_miner, close_miner, update_accepted,
  update_rejected, delete_offline_miner,
}

pub record SessionKey : Type 0 where
  pub downstream_id : ℕ
  pub channel_id : ℕ
  pub channel_kind : Text

abbrev pub session_key_beq : SessionKey → SessionKey → Bool
session_key_beq a b =
    nat_beq a.downstream_id b.downstream_id
    && nat_beq a.channel_id b.channel_id
    && text_beq a.channel_kind b.channel_kind

pub session_key_beq_iff : (a b : SessionKey) → (session_key_beq a b ≡ true) ↔ (a ≡ b)
session_key_beq_iff a b = ground (arith, text_beq_iff a.channel_kind b.channel_kind)

instance abbrev pub session_key_eq : Eq SessionKey
session_key_eq = record { beq = session_key_beq; beq_iff = session_key_beq_iff }

-- The key of an event's session, its kind spelled out.
unfoldable pub key_of : MinerSessionKey → SessionKey
unfolding as_str
key_of k = record {
  downstream_id = k.downstream_id;
  channel_id = k.channel_id;
  channel_kind = as_str k.channel_kind;
}

-- The table, and the writer's map of open sessions to miner ids.
pub record History (F : Type 0) : Type 0 where
  pub db : Table F
  pub sessions : List (SessionKey × Text)

-- What a statement that may fail leaves behind.
abbrev pub store :
    {F : Type 0}
    → History F
    → Result PersistError (Table F)
    → History F × Result PersistError (Unit {0})
store h (ok db) = (record h { db = db }, ok tt)
store h (err e) = (h, err e)

abbrev pub update_known :
    {F : Type 0}
    → History F
    → (Text → Result PersistError (Table F))
    → Option Text
    → History F × Result PersistError (Unit {0})
update_known h f none = (h, ok tt)
update_known h f (some id) = store h (f id)

-- `update_known_session`: nothing happens for a session that is not known.
unfoldable pub update_known_session :
    {F : Type 0}
    → History F
    → SessionKey
    → (Text → Result PersistError (Table F))
    → History F × Result PersistError (Unit {0})
update_known_session h key f = update_known h f (get key h.sessions)

-- The loop over the miner ids of a downstream that closed.
unfoldable pub close_miners : (R : Float) → Table R.F → List Text → ℕ → Table R.F
unfolding close_miner
close_miners R db [] closed_at = db
close_miners R db (id ∷ ids) closed_at =
    close_miners R (close_miner R db id closed_at) ids closed_at

abbrev pub is_of : ℕ → SessionKey × Text → Bool
is_of downstream e = e.0.downstream_id == downstream

abbrev pub close_session : (R : Float) → History R.F → SessionKey → ℕ → Option Text → History R.F
close_session R h key closed_at none = h
close_session R h key closed_at (some id) = record {
  db = close_miner R h.db id closed_at;
  sessions = remove key h.sessions;
}

-- `apply_event`: the new state, and the error that the writer reports.
unfoldable pub apply_event :
    (L : AddressLib) (R : Float)
    → Network
    → History R.F
    → Event R.F
    → History R.F × Result PersistError (Unit {0})
unfolding update_known_session
apply_event L R network h (channel_opened k user_identity hashrate opened_at) =
    elim (miner_id_from_identity L network user_identity) [
      | none ↦ (h, ok tt)
      | some id ↦
          let sessions = insert (key_of k) id h.sessions in
          elim (upsert_open_miner L R h.db network id user_identity hashrate opened_at) [
            | ok db ↦ (record { db = db; sessions = sessions }, ok tt)
            | err e ↦ (record h { sessions = sessions }, err e)
          ]
    ]
apply_event L R network h (channel_closed k closed_at) =
    (close_session R h (key_of k) closed_at (get (key_of k) h.sessions), ok tt)
apply_event L R network h (downstream_closed downstream closed_at) =
    let miner_ids = map (λ e. e.1) (retain (is_of downstream) h.sessions) in
    (
      record {
        db = close_miners R h.db miner_ids closed_at;
        sessions = retain (λ e. not (is_of downstream e)) h.sessions;
      },
      ok tt,
    )
apply_event L R network h (share_accepted k shares best blocks seen) =
    update_known_session h (key_of k) (λ id. update_accepted h.db id shares best blocks seen)
apply_event L R network h (share_rejected k reason shares seen) =
    update_known_session h (key_of k) (λ id. update_rejected h.db id shares seen)
apply_event L R network h (block_found k hash blocks found_at) = (h, ok tt)

-- `MinerHistory::open` marks every miner as disconnected, and the writer starts with no session.
unfoldable pub open_history : (R : Float) → Table R.F → History R.F
unfolding mark_miners_disconnected
open_history R db = record { db = mark_miners_disconnected R db; sessions = [] }

-- The loop of `start_writer`: an error is logged, and the loop goes on.
unfoldable pub write_events :
    (L : AddressLib) (R : Float) → Network → History R.F → List (Event R.F) → History R.F
write_events L R network h [] = h
write_events L R network h (event ∷ events) =
    write_events L R network (apply_event L R network h event).0 events

-- What happens to the table while the program runs: events, deletions from the dashboard, and
-- restarts.
pub data Action (F : Type 0) : Type 0 where
  event : Event F → Action F
  delete : Text → Action F
  restart : Action F

unfoldable pub act : (L : AddressLib) (R : Float) → Network → History R.F → Action R.F → History R.F
unfolding delete_offline_miner
act L R network h (event e) = (apply_event L R network h e).0
act L R network h (delete id) = record h { db = (delete_offline_miner h.db id).0 }
act L R network h restart = open_history R h.db

unfoldable pub act_all :
    (L : AddressLib) (R : Float) → Network → History R.F → List (Action R.F) → History R.F
act_all L R network h [] = h
act_all L R network h (a ∷ actions) = act_all L R network (act L R network h a) actions
