-- ===== src/History/Between.antt =====
-- What stays of an open session's row while other events come: its opening and first time.
use canary_mining.Common.{
  ℕ, Bool, true, false, not, ◌≡◌, refl, ◌∙◌, arith, Option, none, some, List, [], ◌∷◌, retain, All,
  nat_beq, Option-cases, Bool-cases, inl, inr,
}
use canary_mining.Common.Assoc.{get, update, get-insert, get-remove, get-update}
use canary_mining.Common.Text.Basic.{Text, text_eq, text_beq}
use canary_mining.Common.Int64.{ℤ, as_i64, try_i64}
use canary_mining.Common.Float.{Float}
use canary_mining.Config.{Network}
use canary_mining.Address.{AddressLib}
use canary_mining.Identity.{miner_id_from_identity}
use canary_mining.Stats.{
  MinerSessionKey, key_beq, Event, channel_opened, channel_closed, downstream_closed,
  share_accepted, share_rejected, block_found,
}
use canary_mining.History.Rows.{
  Row, Table, closed_row, opened_row, first_seen_or, close_miner, accepted_row, rejected_row,
  update_accepted, update_rejected,
}
use canary_mining.History.Writer.{
  History, SessionKey, session_key_eq, key_of, apply_event, write_events, close_miners,
  close_session, is_of, update_known_session, update_known,
}
use canary_mining.History.Invariant.{opened_known, opened_unknown}
use canary_mining.History.Tracking.{key_of-beq}

abbrev pub names : Option Text → Text → Bool
names none id = false
names (some other) id = text_beq other id

-- An event that neither closes the session, nor opens it again, nor opens another one of its miner.
abbrev pub IsAside : {F : Type 0} → AddressLib → Network → MinerSessionKey → Text → Event F → Type 0
IsAside L network k id (channel_opened j user hashrate now) =
    (key_beq j k ≡ false) × (names (miner_id_from_identity L network user) id ≡ false)
IsAside L network k id (channel_closed j now) = key_beq j k ≡ false
IsAside L network k id (downstream_closed downstream now) =
    nat_beq (key_of k).downstream_id downstream ≡ false
IsAside L network k id _ = Unit

-- A row of the miner with these times is there.
abbrev pub HasRow : {F : Type 0} → Text → Option ℤ → ℤ → Table F → Type 0
HasRow {F} id opened first db =
    (row : Row F) × (get id db ≡ some row) × (row.opened_at ≡ opened) × (row.first_seen_at ≡ first)

get-retain_kept :
    (k : SessionKey) (p : SessionKey × Text → Bool) (m : List (SessionKey × Text)) (id : Text)
    → get k m ≡ some id
    → p (k, id) ≡ true
    → get k (retain p m) ≡ some id
unfolding get retain
get-retain_kept k p [] id h e = absurd (ground arith)
get-retain_kept k p ((j, other) ∷ m) id h e =
    ground (arith, session_key_eq.beq_iff j k, get-retain_kept k p m id)

module _ {F : Type 0} (id : Text) (opened : Option ℤ) (first : ℤ) where
  HasRow-update :
      (other : Text) (f : Row F → Row F)
      → ((row : Row F) → (f row).opened_at ≡ row.opened_at)
      → ((row : Row F) → (f row).first_seen_at ≡ row.first_seen_at)
      → (db : Table F) → HasRow id opened first db
      → HasRow id opened first (update other f db)
  HasRow-update other f o s db (row, e, a, b) = elim (Bool-cases (text_beq other id)) [
    | inl same ↦ (f row, ground (arith, get-update other id f db, e, same), o row ∙ a, s row ∙ b)
    | inr apart ↦ (row, ground (arith, get-update other id f db, e, apart), a, b)
  ]

module _ (L : AddressLib) (R : Float) (network : Network) (k : MinerSessionKey) (id : Text)
    (opened : Option ℤ) (first : ℤ) where
  -- The writer knows the session, and its miner's row has these times.
  abbrev pub IsOpen : History R.F → Type 0
  IsOpen h = (get (key_of k) h.sessions ≡ some id) × HasRow id opened first h.db

  HasRow-close_miners :
      (ids : List Text) (now : ℕ) (db : Table R.F)
      → HasRow id opened first db
      → HasRow id opened first (close_miners R db ids now)
  unfolding close_miners close_miner
  HasRow-close_miners [] now db h = h
  HasRow-close_miners (other ∷ ids) now db h =
      HasRow-close_miners ids now (close_miner R db other now) (
        HasRow-update id opened first other (closed_row R (as_i64 now)) (λ r. refl) (λ r. refl) db
          h)

  opened-IsOpen :
      (h : History R.F) (j : MinerSessionKey) (user : Text) (hashrate : R.F) (now : ℕ)
      → key_beq j k ≡ false
      → names (miner_id_from_identity L network user) id ≡ false
      → IsOpen h
      → IsOpen (apply_event L R network h (channel_opened j user hashrate now)).0
  opened-IsOpen h j user hashrate now a b (g, (row, e, o, f)) =
      elim (Option-cases (miner_id_from_identity L network user)) [
        | inl n ↦ rw (opened_unknown L R network h j user hashrate now n) (g, (row, e, o, f))
        | inr (other, n) ↦
            let (identity, i, u) = opened_known L R network h j user other hashrate now n in
            let apart : text_beq other id ≡ false = rw n at b in
            let added =
              opened_row R user identity.payout_address identity.label hashrate
                (first_seen_or (get other h.db) (as_i64 now)) (as_i64 now) in
            rw u (
              ground
                  (arith, get-insert (key_of j) (key_of k) other h.sessions, key_of-beq j k, a, g),
              (row, ground (arith, get-insert other id added h.db, apart, e), o, f),
            )
      ]

  closed-IsOpen :
      (h : History R.F) (j : MinerSessionKey) (now : ℕ) (o : Option Text)
      → key_beq j k ≡ false
      → IsOpen h
      → IsOpen (close_session R h (key_of j) now o)
  unfolding close_miner
  closed-IsOpen h j now none a i = i
  closed-IsOpen h j now (some other) a (g, r) = (
    ground (arith, get-remove (key_of j) (key_of k) h.sessions, key_of-beq j k, a, g),
    HasRow-update id opened first other (closed_row R (as_i64 now)) (λ r. refl) (λ r. refl) h.db r,
  )

  accepted-IsOpen :
      (h : History R.F) (shares : ℕ) (best : R.F) (blocks seen : ℕ) (o : Option Text)
      → IsOpen h
      → IsOpen (update_known h (λ i. update_accepted h.db i shares best blocks seen) o).0
  unfolding update_accepted
  accepted-IsOpen h shares best blocks seen none i = i
  accepted-IsOpen h shares best blocks seen (some other) (g, r) =
      elim (Option-cases (try_i64 shares)) [
        | inl p ↦ rw (p, update_accepted) (g, r)
        | inr (s, p) ↦ elim (Option-cases (try_i64 blocks)) [
          | inl q ↦ rw (p, q, update_accepted) (g, r)
          | inr (b, q) ↦
              rw (p, q, update_accepted)
                (
                  g,
                  HasRow-update id opened first other (accepted_row s best b (as_i64 seen))
                      (λ r. refl) (λ r. refl) h.db r,
                )
        ]
      ]

  rejected-IsOpen :
      (h : History R.F) (shares seen : ℕ) (o : Option Text)
      → IsOpen h
      → IsOpen (update_known h (λ i. update_rejected h.db i shares seen) o).0
  unfolding update_rejected
  rejected-IsOpen h shares seen none i = i
  rejected-IsOpen h shares seen (some other) (g, r) = elim (Option-cases (try_i64 shares)) [
    | inl p ↦ rw (p, update_rejected) (g, r)
    | inr (s, p) ↦
        rw (p, update_rejected)
          (
            g,
            HasRow-update id opened first other (rejected_row s (as_i64 seen)) (λ r. refl)
                (λ r. refl) h.db r,
          )
  ]

  event-IsOpen :
      (h : History R.F) (e : Event R.F)
      → IsAside L network k id e
      → IsOpen h
      → IsOpen (apply_event L R network h e).0
  unfolding apply_event update_known_session
  event-IsOpen h (channel_opened j user hashrate now) (a, b) i =
      opened-IsOpen h j user hashrate now a b i
  event-IsOpen h (channel_closed j now) a i = closed-IsOpen h j now (get (key_of j) h.sessions) a i
  event-IsOpen h (downstream_closed downstream now) a (g, r) = (
    get-retain_kept (key_of k) (λ e. not (is_of downstream e)) h.sessions id g (ground (arith, a)),
    HasRow-close_miners _ now h.db r,
  )
  event-IsOpen h (share_accepted j shares best blocks seen) a i =
      accepted-IsOpen h shares best blocks seen (get (key_of j) h.sessions) i
  event-IsOpen h (share_rejected j reason shares seen) a i =
      rejected-IsOpen h shares seen (get (key_of j) h.sessions) i
  event-IsOpen h (block_found j hash blocks found) a i = i

  -- The session stays open over such events.
  pub write_events-IsOpen :
      (h : History R.F) (events : List (Event R.F))
      → All (IsAside L network k id) events
      → IsOpen h
      → IsOpen (write_events L R network h events)
  unfolding write_events
  write_events-IsOpen h [] a i = i
  write_events-IsOpen h (e ∷ events) a i =
      write_events-IsOpen (apply_event L R network h e).0 events a.1 (event-IsOpen h e a.0 i)
