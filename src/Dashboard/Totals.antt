-- ===== src/Dashboard/Totals.antt =====
-- No session is lost or shown twice when the workers are built.
use canary_mining.Common.{
  ℕ, suc, ◌+◌, ◌≤◌, Bool, ◌≡◌, refl, ap, ◌∙◌, arith, Option, none, some, List, [], ◌∷◌, map,
  is_some, length, length-append, Bool-cases, inl, inr, ◌==◌,
}
use canary_mining.Common.Assoc.{get, insert, remove}
use canary_mining.Common.Sort.{sort, insert_sorted}
use canary_mining.Common.Text.Basic.{Text, text_eq}
use canary_mining.Common.Float.{Float}
use canary_mining.Config.{Network}
use canary_mining.Address.{AddressLib}
use canary_mining.Identity.{parse_miner_identity}
use canary_mining.Stats.Sessions.{MinerSessionSnapshot}
use canary_mining.History.Writer.{session_key_eq}
use canary_mining.History.Listing.{KnownMiner}
use canary_mining.Dashboard.Sessions.{
  MinerRow, MinerSession, unwrap_or, miner_session_from_row, miner_session_from_stat,
  miner_session_from_known_miner,
}
use canary_mining.Dashboard.Workers.{
  MinerWorker, Workers, push_worker_session, with_session, new_worker, finalize_worker,
  session_before, label_address, miner_row_id,
}
use canary_mining.Dashboard.Building.{
  StatMap, index_stats, row_key, place_rows, place_stats, place_known, place_known_miner,
  rows_or_none, worker_before, build_miner_workers,
}

-- The number of sessions of all workers.
abbrev total_sessions : {F : Type 0} → Workers F → ℕ
total_sessions [] = 0
total_sessions ((id, worker) ∷ workers) = length worker.sessions + total_sessions workers

-- The number of sessions that the workers say they have.
abbrev pub total_count : {F : Type 0} → List (MinerWorker F) → ℕ
total_count [] = 0
total_count (worker ∷ workers) = worker.session_count + total_count workers

-- The statistics that no row takes.
abbrev pub remaining : {F : Type 0} → List (MinerRow F) → StatMap F → StatMap F
remaining [] stats = stats
remaining (miner ∷ miners) stats = remaining miners (remove (row_key miner) stats)

abbrev sessions_of : {F : Type 0} → Option (MinerWorker F) → ℕ
sessions_of none = 0
sessions_of (some worker) = length worker.sessions

total-insert :
    {F : Type 0} (id : Text) (w : MinerWorker F) (workers : Workers F)
    → total_sessions (insert id w workers) + sessions_of (get id workers)
      ≡ length w.sessions + total_sessions workers
unfolding insert get
total-insert id w [] = omega arith
total-insert id w ((j, old) ∷ workers) = elim (Bool-cases (j == id)) [
  | inl h ↦ rw h (omega arith)
  | inr h ↦ rw h (omega (arith, total-insert id w workers))
]

length-with_session :
    {F : Type 0} (session : MinerSession F) (w : MinerWorker F) (o : Option (MinerWorker F))
    → w.sessions ≡ []
    → length (with_session session (unwrap_or w o)).sessions ≡ suc (sessions_of o)
length-with_session session w none e =
    omega (arith, length-append w.sessions (session ∷ []), ap length e)
length-with_session session w (some old) e =
    omega (arith, length-append old.sessions (session ∷ []))

length-insert_sorted :
    {A : Type 0} (leq : A → A → Bool) (x : A) (xs : List A)
    → length (insert_sorted leq x xs) ≡ suc (length xs)
unfolding insert_sorted
length-insert_sorted leq x [] = refl
length-insert_sorted leq x (y ∷ ys) = ground (arith, length-insert_sorted leq x ys)

length-sort : {A : Type 0} (leq : A → A → Bool) (xs : List A) → length (sort leq xs) ≡ length xs
unfolding sort
length-sort leq [] = refl
length-sort leq (x ∷ xs) = length-insert_sorted leq x (sort leq xs) ∙ ap suc (length-sort leq xs)

total-insert_sorted :
    {F : Type 0} (leq : MinerWorker F → MinerWorker F → Bool) (w : MinerWorker F)
    (ws : List (MinerWorker F))
    → total_count (insert_sorted leq w ws) ≡ w.session_count + total_count ws
unfolding insert_sorted
total-insert_sorted leq w [] = refl
total-insert_sorted leq w (v ∷ ws) = elim (Bool-cases (leq w v)) [
  | inl e ↦ rw e refl
  | inr e ↦ rw e (omega (arith, total-insert_sorted leq w ws))
]

total-sort :
    {F : Type 0} (leq : MinerWorker F → MinerWorker F → Bool) (ws : List (MinerWorker F))
    → total_count (sort leq ws) ≡ total_count ws
unfolding sort
total-sort leq [] = refl
total-sort leq (w ∷ ws) =
    total-insert_sorted leq w (sort leq ws) ∙ ap (λ n. w.session_count + n) (total-sort leq ws)

total-finalize :
    (R : Float) (workers : Workers R.F)
    → total_count (map (λ e. finalize_worker R e.1) workers) ≡ total_sessions workers
unfolding finalize_worker
total-finalize R [] = refl
total-finalize R ((id, w) ∷ workers) =
    omega (arith, length-sort session_before w.sessions, total-finalize R workers)

module _ (L : AddressLib) (R : Float) (network : Network) (now : ℕ) where
  total-push :
      (workers : Workers R.F) (user : Text) (session : MinerSession R.F)
      → total_sessions (push_worker_session L R workers network user session)
        ≡ suc (total_sessions workers)
  unfolding push_worker_session
  total-push workers user session =
      let (label, address) = label_address (parse_miner_identity L user network) in
      let id = miner_row_id network user label address in
      let w = new_worker R id label address user in
      omega (
        arith,
        total-insert id (with_session session (unwrap_or w (get id workers))) workers,
        length-with_session session w (get id workers) refl,
      )

  place_rows_lem :
      (rows : List (MinerRow R.F)) (stats : StatMap R.F) (workers : Workers R.F)
      → ((place_rows L R network now rows stats workers).0 ≡ remaining rows stats)
        × (total_sessions (place_rows L R network now rows stats workers).1
            ≡ length rows + total_sessions workers)
  unfolding place_rows
  place_rows_lem [] stats workers = (refl, omega arith)
  place_rows_lem (row ∷ rows) stats workers =
      let session = miner_session_from_row R row (get (row_key row) stats) now in
      let next = push_worker_session L R workers network row.user_identity session in
      let (a, b) = place_rows_lem rows (remove (row_key row) stats) next in
      (a, omega (arith, b, total-push workers row.user_identity session))

  total-place_stats :
      (stats : StatMap R.F) (workers : Workers R.F)
      → total_sessions (place_stats L R network now stats workers)
        ≡ length stats + total_sessions workers
  unfolding place_stats
  total-place_stats [] workers = omega arith
  total-place_stats ((k, stat) ∷ stats) workers =
      let session = miner_session_from_stat R stat now in
      omega (
        arith,
        total-place_stats stats
            (push_worker_session L R workers network stat.user_identity session),
        total-push workers stat.user_identity session,
      )

  total-place_known_miner :
      (miner : KnownMiner R.F) (workers : Workers R.F)
      → (total_sessions workers ≤ total_sessions (place_known_miner L R network now miner workers))
        × (total_sessions (place_known_miner L R network now miner workers)
            ≤ suc (total_sessions workers))
  total-place_known_miner miner workers =
      let session = miner_session_from_known_miner R miner now in
      let push = total-push workers miner.user_identity session in
      elim (Bool-cases (is_some (get miner.miner_id workers))) [
        | inl e ↦ rw e (omega arith, omega arith)
        | inr e ↦ rw e (omega (arith, push), omega (arith, push))
      ]

  total-place_known :
      (miners : List (KnownMiner R.F)) (workers : Workers R.F)
      → (total_sessions workers ≤ total_sessions (place_known L R network now miners workers))
        × (total_sessions (place_known L R network now miners workers)
            ≤ length miners + total_sessions workers)
  unfolding place_known
  total-place_known [] workers = (omega arith, omega arith)
  total-place_known (miner ∷ miners) workers =
      let next = place_known_miner L R network now miner workers in
      let (a, b) = total-place_known miners next in
      let (c, d) = total-place_known_miner miner workers in
      (omega (arith, a, c), omega (arith, b, d))

  -- The workers have one session for each row of the monitoring, and one for each session of the
  -- registry whose channel has no row; beyond these they have at most one for each known miner.
  pub total-build_miner_workers :
      (rows : Option (List (MinerRow R.F))) (stats : List (MinerSessionSnapshot R.F))
      (known : List (KnownMiner R.F))
      → (length (rows_or_none rows) + length (remaining (rows_or_none rows) (index_stats [] stats))
          ≤ total_count (build_miner_workers L R network now rows stats known))
        × (total_count (build_miner_workers L R network now rows stats known)
            ≤ length (rows_or_none rows)
              + length (remaining (rows_or_none rows) (index_stats [] stats))
              + length known)
  unfolding build_miner_workers
  total-build_miner_workers rows stats known =
      let rows' = rows_or_none rows in
      let placed = place_rows L R network now rows' (index_stats [] stats) [] in
      let (left, n) = place_rows_lem rows' (index_stats [] stats) [] in
      let ws = place_stats L R network now placed.0 placed.1 in
      let all = place_known L R network now known ws in
      let m = total-place_stats placed.0 placed.1 in
      let (a, b) = total-place_known known ws in
      let t =
        total-sort worker_before (map (λ e. finalize_worker R e.1) all) ∙ total-finalize R all in
      (omega (arith, ap length left, n, m, a, b, t), omega (arith, ap length left, n, m, a, b, t))
