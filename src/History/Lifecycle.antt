-- ===== src/History/Lifecycle.antt =====
-- One session of a miner from its opening to its close, and two sessions of one miner.
use canary_mining.Common.{
  ℕ, ◌-◌, ◌<◌, true, false, ◌≡◌, refl, sym, ◌∙◌, arith, Option, none, some, List, subst, ap, All,
}
use canary_mining.Common.Assoc.{get, remove, update, get-insert, get-remove, get-update}
use canary_mining.Common.Text.Basic.{Text, text_eq, text_beq, text_beq_iff}
use canary_mining.Common.Int64.{ℤ, pos, as_i64, i64_bound, sub_or_zero}
use canary_mining.Common.Float.{Float, float_zero}
use canary_mining.Config.{Network}
use canary_mining.Address.{AddressLib}
use canary_mining.Identity.{miner_id_from_identity}
use canary_mining.Stats.{Event, MinerSessionKey, key_beq, channel_opened, channel_closed}
use canary_mining.History.Rows.{
  Row, Table, closed_row, opened_row, first_seen_or, close_miner, delete_offline_miner,
}
use canary_mining.History.Writer.{
  History, SessionKey, session_key_eq, session_key_beq_iff, key_of, apply_event, write_events,
}
use canary_mining.History.Invariant.{opened_known}
use canary_mining.History.Tracking.{key_of-beq}
use canary_mining.History.Between.{HasRow, IsAside, IsOpen, write_events-IsOpen}
use canary_mining.History.Listing.{delete_offline_miner_lem}

-- The time when a miner was first seen: that of its row, or that of its first session.
abbrev pub first_time : {F : Type 0} → Option (Row F) → ℤ → ℤ
first_time none start = start
first_time (some row) start = row.first_seen_at

first_seen_or-first_time :
    {F : Type 0} (o : Option (Row F)) (start : ℤ) → first_seen_or o start ≡ first_time o start
first_seen_or-first_time none start = refl
first_seen_or-first_time (some row) start = refl

-- What the row of a miner is after a session from `start` to `stop`.
pub record IsClosedSession (R : Float) (before : Option (Row R.F)) (start stop : ℕ) (row : Row R.F)
    : Type 0 where
  pub connected : row.connected ≡ false
  pub first_seen : row.first_seen_at ≡ first_time before (pos start)
  pub last_seen : row.last_seen_at ≡ pos stop
  pub opened : row.opened_at ≡ some (pos start)
  pub closed : row.closed_at ≡ some (pos stop)
  pub uptime : row.uptime_seconds ≡ some (pos (stop - start))
  pub hashrate : row.nominal_hashrate ≡ float_zero R

close_known :
    (L : AddressLib) (R : Float) (network : Network) (h : History R.F) (k : MinerSessionKey)
    (id : Text) (now : ℕ)
    → get (key_of k) h.sessions ≡ some id
    → (apply_event L R network h (channel_closed k now)).0
      ≡ record { db = close_miner R h.db id now; sessions = remove (key_of k) h.sessions }
unfolding apply_event
close_known L R network h k id now e = rw (e, apply_event)

-- From the history before a session to that before its close and that after it: the row of the miner,
-- and that of another one.
abbrev pub SessionEnds :
    (R : Float) → History R.F → Text → ℕ → ℕ → Text → History R.F → History R.F → Type 0
SessionEnds R h id start stop other before after =
    ((row : Row R.F) × (get id after.db ≡ some row)
      × IsClosedSession R (get id h.db) start stop row)
    × (get other after.db ≡ get other before.db)

open_close :
    (R : Float) (h before : History R.F) (id other : Text) (start stop : ℕ)
    (sessions : List (SessionKey × Text))
    → start < i64_bound
    → stop < i64_bound
    → text_beq id other ≡ false
    → HasRow id (some (pos start)) (first_time (get id h.db) (pos start)) before.db
    → SessionEnds R h id start stop other before
        (record { db = close_miner R before.db id stop; sessions = sessions })
unfolding close_miner as_i64 sub_or_zero
open_close R h before id other start stop sessions a b ne (row, e, o, f) =
    let u = get-update id id (closed_row R (as_i64 stop)) before.db in
    let u' = get-update id other (closed_row R (as_i64 stop)) before.db in
    (
      (
        closed_row R (as_i64 stop) row,
        ground (arith, u, e, text_beq_iff id id),
        record {
          connected = refl;
          first_seen = f;
          last_seen = ground arith;
          opened = o;
          closed = ground arith;
          uptime = rw o (ground arith);
          hashrate = refl;
        },
      ),
      ground (arith, u'),
    )

-- The session is open, and its miner's row has the time of its opening.
opened-IsOpen :
    (L : AddressLib) (R : Float) (network : Network) (h : History R.F) (k : MinerSessionKey)
    (user id : Text) (hashrate : R.F) (start : ℕ)
    → miner_id_from_identity L network user ≡ some id
    → start < i64_bound
    → IsOpen L R network k id
        (some (pos start))
        (first_time (get id h.db) (pos start))
        (apply_event L R network h (channel_opened k user hashrate start)).0
unfolding as_i64
opened-IsOpen L R network h k user id hashrate start e a =
    let (identity, i, u) = opened_known L R network h k user id hashrate start e in
    let first = first_seen_or (get id h.db) (as_i64 start) in
    let row =
      opened_row R user identity.payout_address identity.label hashrate first (as_i64 start) in
    let time : as_i64 start ≡ pos start = ground arith in
    rw u (
      ground (
        arith,
        get-insert (key_of k) (key_of k) id h.sessions,
        session_key_beq_iff (key_of k) (key_of k),
      ),
      (
        row,
        ground (arith, get-insert id id row h.db, text_beq_iff id id),
        ap (some) time,
        ap (first_seen_or (get id h.db)) time ∙ first_seen_or-first_time (get id h.db) (pos start),
      ),
    )

-- A session of a known or new miner opens at `start` and closes at `stop`. In between any events come,
-- but none that opens it again, closes it or its downstream, or opens another session of its miner, and
-- the dashboard deletes no miner. Then the miner's row is disconnected, with that uptime (zero if the
-- clock went back) and the time when the miner was first seen; and the close leaves the row of any
-- other miner as it was. Both times fit an `i64`.
pub opened-closed :
    (L : AddressLib) (R : Float) (network : Network) (h : History R.F) (k : MinerSessionKey)
    (user id other : Text) (hashrate : R.F) (start stop : ℕ) (events : List (Event R.F))
    → miner_id_from_identity L network user ≡ some id
    → start < i64_bound
    → stop < i64_bound
    → text_beq id other ≡ false
    → All (IsAside L network k id) events
    → SessionEnds R h id start stop other
        (write_events L R network
          (apply_event L R network h (channel_opened k user hashrate start)).0
          events)
        (apply_event L R network
          (write_events L R network
            (apply_event L R network h (channel_opened k user hashrate start)).0
            events)
          (channel_closed k stop)).0
opened-closed L R network h k user id other hashrate start stop events e a b ne aside =
    let opened = (apply_event L R network h (channel_opened k user hashrate start)).0 in
    let first = first_time (get id h.db) (pos start) in
    let before = write_events L R network opened events in
    let (known, row) =
      write_events-IsOpen L R network k id (some (pos start)) first opened events aside
        (opened-IsOpen L R network h k user id hashrate start e a) in
    subst (SessionEnds R h id start stop other before)
      (sym (close_known L R network before k id stop known))
      (open_close R h before id other start stop (remove (key_of k) before.sessions) a b ne row)

close_miner-delete :
    (R : Float) (db : Table R.F) (id : Text) (row : Row R.F) (now : ℕ)
    → get id db ≡ some row
    → ((delete_offline_miner (close_miner R db id now) id).1 ≡ true)
      × (get id (delete_offline_miner (close_miner R db id now) id).0 ≡ none)
unfolding close_miner
close_miner-delete R db id row now e =
    let after : get id (update id (closed_row R (as_i64 now)) db)
        ≡ some (closed_row R (as_i64 now) row) =
      ground (arith, get-update id id (closed_row R (as_i64 now)) db, text_beq_iff id id) in
    let (deleted, gone) =
      delete_offline_miner_lem (update id (closed_row R (as_i64 now)) db) id id in
    (
      deleted.1 (closed_row R (as_i64 now) row, after, refl),
      gone ∙ ground (arith, after, text_beq_iff id id),
    )

-- A miner with two open sessions: when the first one closes, the writer still knows the second, but
-- the row says that the miner is disconnected, and the dashboard may delete it.
pub close_shared :
    (L : AddressLib) (R : Float) (network : Network) (h : History R.F) (k j : MinerSessionKey)
    (id : Text) (row : Row R.F) (now : ℕ)
    → get (key_of k) h.sessions ≡ some id
    → get (key_of j) h.sessions ≡ some id
    → key_beq k j ≡ false
    → get id h.db ≡ some row
    → (get (key_of j) (apply_event L R network h (channel_closed k now)).0.sessions ≡ some id)
      × ((delete_offline_miner (apply_event L R network h (channel_closed k now)).0.db id).1 ≡ true)
      × (get id (delete_offline_miner (apply_event L R network h (channel_closed k now)).0.db id).0
          ≡ none)
close_shared L R network h k j id row now ek ej ne er =
    let (deleted, gone) = close_miner-delete R h.db id row now er in
    subst
      (λ (x : History R.F).
        (get (key_of j) x.sessions ≡ some id)
        × ((delete_offline_miner x.db id).1 ≡ true)
        × (get id (delete_offline_miner x.db id).0 ≡ none))
      (sym (close_known L R network h k id now ek))
      (ground (arith, get-remove (key_of k) (key_of j) h.sessions, key_of-beq k j), deleted, gone)
