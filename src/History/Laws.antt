-- ===== src/History/Laws.antt =====
-- The table stays well formed: each row under the id of its own address and label, and its times,
-- hashrate and counters in step with its connection.
use canary_mining.Common.{
  ℕ, Bool, true, false, ◌≡◌, ◌≢◌, refl, arith, Option, none, some, List, [], ◌∷◌, Result, ok, err,
  All, Option-cases, Result-cases, inl, inr, subst,
}
use canary_mining.Common.Assoc.{get, insert, update}
use canary_mining.Common.Assoc.Laws.{
  Distinct, Distinct-update, Distinct-map_values, All-update, All-map_values,
}
use canary_mining.Common.Text.Basic.{Text, text_eq}
use canary_mining.Common.Int64.{ℤ, as_i64, try_i64}
use canary_mining.Common.Float.{Float, float_zero}
use canary_mining.Config.{Network}
use canary_mining.Address.{AddressLib}
use canary_mining.Identity.{MinerIdentity, parse_miner_identity, miner_id, miner_id_from_identity}
use canary_mining.History.Rows.{
  Row, Table, PersistError, accepted_row, rejected_row, disconnect, closed_row, opened_row,
  first_seen_or, upsert_open_miner, update_accepted, update_rejected,
}
use canary_mining.History.Writer.{
  History, SessionKey, update_known, store, session_key_eq, close_miners, open_history,
}

-- A connected miner has opened and not closed; any other has no hashrate and a closing time.
abbrev pub Status : (R : Float) → Bool → Option ℤ → Option ℤ → Option ℤ → R.F → Type 0
Status R true opened_at closed_at uptime hashrate =
    (opened_at ≢ none) × (closed_at ≡ none) × (uptime ≡ none)
Status R false opened_at closed_at uptime hashrate = (hashrate ≡ float_zero R) × (closed_at ≢ none)

pub record IsKnown (R : Float) (network : Network) (e : Text × Row R.F) : Type 0 where
  pub keyed : e.0 ≡ miner_id network e.1.payout_address e.1.label
  pub status :
      Status R e.1.connected e.1.opened_at e.1.closed_at e.1.uptime_seconds e.1.nominal_hashrate

pub record IsWellFormed (R : Float) (network : Network) (h : History R.F) : Type 0 where
  pub rows : All (IsKnown R network) h.db
  pub distinct : Distinct h.db
  pub sessions_distinct : Distinct h.sessions

module _ (R : Float) (network : Network) where
  closed_row-IsKnown :
      (now : ℤ) (id : Text) (row : Row R.F)
      → IsKnown R network (id, row)
      → IsKnown R network (id, closed_row R now row)
  closed_row-IsKnown now id row k = record { keyed = k.keyed; status = (refl, λ e. cc) }

  disconnect-IsKnown :
      (id : Text) (row : Row R.F)
      → IsKnown R network (id, row)
      → IsKnown R network (id, disconnect R row)
  disconnect-IsKnown id row k = record { keyed = k.keyed; status = (refl, ground arith) }

  pub open_history-IsWellFormed :
      (h : History R.F) → IsWellFormed R network h → IsWellFormed R network (open_history R h.db)
  unfolding open_history
  open_history-IsWellFormed h w = record {
    rows = All-map_values _ (disconnect R) disconnect-IsKnown h.db w.rows;
    distinct = Distinct-map_values (disconnect R) h.db w.distinct;
    sessions_distinct = tt;
  }

  pub close_miners-IsKnown :
      (ids : List Text) (now : ℕ) (db : Table R.F)
      → All (IsKnown R network) db
      → All (IsKnown R network) (close_miners R db ids now)
  unfolding close_miners
  close_miners-IsKnown [] now db k = k
  close_miners-IsKnown (id ∷ ids) now db k =
      close_miners-IsKnown ids now _
        (All-update _ id (closed_row R (as_i64 now)) (closed_row-IsKnown (as_i64 now)) db k)

  pub close_miners-Distinct :
      (ids : List Text) (now : ℕ) (db : Table R.F)
      → Distinct db
      → Distinct (close_miners R db ids now)
  unfolding close_miners
  close_miners-Distinct [] now db d = d
  close_miners-Distinct (id ∷ ids) now db d =
      close_miners-Distinct ids now _ (Distinct-update id (closed_row R (as_i64 now)) db d)

  -- The identity of an opened channel parses again, so that opening a known miner cannot fail.
  pub upsert-insert :
      (L : AddressLib) (db : Table R.F) (user id : Text) (hashrate : R.F) (now : ℕ)
      → miner_id_from_identity L network user ≡ some id
      → (identity : MinerIdentity) × (id ≡ miner_id network identity.payout_address identity.label)
        × (upsert_open_miner L R db network id user hashrate now
            ≡ ok (
                insert id
                  (opened_row R user identity.payout_address identity.label hashrate
                    (first_seen_or (get id db) (as_i64 now))
                    (as_i64 now))
                  db))
  unfolding upsert_open_miner miner_id_from_identity
  upsert-insert L db user id hashrate now e =
      elim (Result-cases (parse_miner_identity L user network)) [
        | inl (identity, p) ↦ (identity, ground arith, rw p)
        | inr (x, p) ↦ absurd (ground arith)
      ]

  module _ (h : History R.F) (w : IsWellFormed R network h) where
    pub sessions-IsWellFormed :
        (db : Table R.F) (sessions : List (SessionKey × Text))
        → All (IsKnown R network) db
        → Distinct db
        → Distinct sessions
        → IsWellFormed R network (record { db = db; sessions = sessions })
    sessions-IsWellFormed db sessions k d s = record {
      rows = k;
      distinct = d;
      sessions_distinct = s;
    }

    store-IsWellFormed :
        (r : Result PersistError (Table R.F))
        → ((db : Table R.F) → r ≡ ok db → All (IsKnown R network) db × Distinct db)
        → IsWellFormed R network (store h r).0
    store-IsWellFormed (ok db) keep =
        let (k, d) = keep db refl in sessions-IsWellFormed db h.sessions k d w.sessions_distinct
    store-IsWellFormed (err e) keep = w

    pub update_known-IsWellFormed :
        (f : Text → Result PersistError (Table R.F)) (o : Option Text)
        → ((id : Text) (db : Table R.F) → f id ≡ ok db → All (IsKnown R network) db × Distinct db)
        → IsWellFormed R network (update_known h f o).0
    update_known-IsWellFormed f none keep = w
    update_known-IsWellFormed f (some id) keep = store-IsWellFormed (f id) (keep id)

    pub accepted-IsKnown :
        (id : Text) (shares : ℕ) (best : R.F) (blocks seen : ℕ) (db : Table R.F)
        → update_accepted h.db id shares best blocks seen ≡ ok db
        → All (IsKnown R network) db × Distinct db
    unfolding update_accepted
    accepted-IsKnown id shares best blocks seen db e = elim (Option-cases (try_i64 shares)) [
      | inl p ↦ absurd (ground arith)
      | inr (s, p) ↦ elim (Option-cases (try_i64 blocks)) [
        | inl q ↦ absurd (ground arith)
        | inr (b, q) ↦
            let same : update id (accepted_row s best b (as_i64 seen)) h.db ≡ db = ground arith in
            subst (λ x. All (IsKnown R network) x × Distinct x) same
              (
                All-update (IsKnown R network) id (accepted_row s best b (as_i64 seen))
                    (λ j row k. record { keyed = k.keyed; status = k.status }) h.db w.rows,
                Distinct-update id (accepted_row s best b (as_i64 seen)) h.db w.distinct,
              )
      ]
    ]

    pub rejected-IsKnown :
        (id : Text) (shares seen : ℕ) (db : Table R.F)
        → update_rejected h.db id shares seen ≡ ok db
        → All (IsKnown R network) db × Distinct db
    unfolding update_rejected
    rejected-IsKnown id shares seen db e = elim (Option-cases (try_i64 shares)) [
      | inl p ↦ absurd (ground arith)
      | inr (s, p) ↦
          let same : update id (rejected_row s (as_i64 seen)) h.db ≡ db = ground arith in
          subst (λ x. All (IsKnown R network) x × Distinct x) same
            (
              All-update (IsKnown R network) id (rejected_row s (as_i64 seen))
                  (λ j row k. record { keyed = k.keyed; status = k.status }) h.db w.rows,
              Distinct-update id (rejected_row s (as_i64 seen)) h.db w.distinct,
            )
    ]
