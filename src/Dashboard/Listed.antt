-- ===== src/Dashboard/Listed.antt =====
-- Which workers the dashboard lists: those of the rows, of the registry and of the table, and no others.
use canary_mining.Common.{
  none, ℕ, ◌+◌, Bool, true, false, ◌||◌, ◌≡◌, refl, sym, ap, subst, ◌∙◌, arith, Option, some, List,
  [], ◌∷◌, map, any, is_some, All, if◌then◌else◌, Bool-cases, inl, inr, ◌==◌,
}
use canary_mining.Common.Assoc.{get, remove, get-insert}
use canary_mining.Common.Assoc.Laws.{Distinct, Distinct-insert, All-insert}
use canary_mining.Common.Sort.{IsSorted, sort-IsSorted, sort, insert_sorted}
use canary_mining.Common.Text.Basic.{Text, text_eq, text_beq, text_beq_iff}
use canary_mining.Common.Float.{Float}
use canary_mining.Config.{Network}
use canary_mining.Address.{AddressLib}
use canary_mining.Identity.{parse_miner_identity}
use canary_mining.Stats.Sessions.{MinerSessionSnapshot}
use canary_mining.History.Listing.{KnownMiner}
use canary_mining.Dashboard.Sessions.{
  MinerRow, MinerSession, unwrap_or, miner_session_from_row, miner_session_from_stat,
  miner_session_from_known_miner,
}
use canary_mining.Dashboard.Workers.{
  MinerWorker, Workers, push_worker_session, with_session, new_worker, finalize_worker,
  label_address, miner_row_id,
}
use canary_mining.Dashboard.Building.{
  StatMap, index_stats, row_key, place_rows, place_stats, place_known, place_known_miner,
  rows_or_none, worker_before, build_miner_workers,
}
use canary_mining.Dashboard.Ordering.{worker_before_total, worker_before_trans}
use canary_mining.Dashboard.Totals.{remaining}
use canary_mining.History.Writer.{session_key_eq}

-- How many workers of a list have the id.
unfoldable pub count_id : {F : Type 0} → Text → List (MinerWorker F) → ℕ
count_id id [] = 0
count_id id (w ∷ workers) = (if w.worker_id == id then 1 else 0) + count_id id workers

count_id-insert_sorted :
    {F : Type 0} (leq : MinerWorker F → MinerWorker F → Bool) (id : Text) (w : MinerWorker F)
    (workers : List (MinerWorker F))
    → count_id id (insert_sorted leq w workers)
      ≡ (if w.worker_id == id then 1 else 0) + count_id id workers
unfolding insert_sorted count_id
count_id-insert_sorted leq id w [] = refl
count_id-insert_sorted leq id w (v ∷ workers) = elim (Bool-cases (leq w v)) [
  | inl e ↦ rw e refl
  | inr e ↦ rw e (omega (arith, count_id-insert_sorted leq id w workers))
]

count_id-sort :
    {F : Type 0} (leq : MinerWorker F → MinerWorker F → Bool) (id : Text)
    (workers : List (MinerWorker F))
    → count_id id (sort leq workers) ≡ count_id id workers
unfolding sort count_id
count_id-sort leq id [] = refl
count_id-sort leq id (w ∷ workers) =
    count_id-insert_sorted leq id w (sort leq workers)
    ∙ ap (λ n. (if w.worker_id == id then 1 else 0) + n) (count_id-sort leq id workers)

-- The id of the worker that a user identity belongs to.
abbrev pub worker_id_of : AddressLib → Network → Text → Text
worker_id_of L network user =
    let (label, address) = label_address (parse_miner_identity L user network) in
    miner_row_id network user label address

abbrev Keyed : {F : Type 0} → Workers F → Type 0
Keyed workers = All (λ e. e.1.worker_id ≡ e.0) workers × Distinct workers

count_id-get :
    (R : Float) (id : Text) (workers : Workers R.F)
    → Keyed workers
    → count_id id (map (λ e. finalize_worker R e.1) workers)
      ≡ (if is_some (get id workers) then 1 else 0)
unfolding count_id get finalize_worker
count_id-get R id [] h = refl
count_id-get R id ((j, w) ∷ workers) ((k, ks), (d, ds)) =
    let rest = count_id-get R id workers (ks, ds) in
    elim (Bool-cases (text_beq j id)) [
      | inl e ↦
          let absent : get id workers ≡ none =
            subst (λ x. get x workers ≡ none) ((text_beq_iff j id).0 e) d in
          rw (finalize_worker, k, e) (rw rest (rw absent refl))
      | inr e ↦ rw (finalize_worker, k, e) (omega (arith, rest))
    ]

-- The worker that a session is pushed to, found or new, has the id that it is found under.
Keyed-get :
    {F : Type 0} (id : Text) (w : MinerWorker F) (workers : Workers F)
    → w.worker_id ≡ id
    → All (λ e. e.1.worker_id ≡ e.0) workers
    → (unwrap_or w (get id workers)).worker_id ≡ id
unfolding get
Keyed-get id w [] e h = e
Keyed-get id w ((j, v) ∷ workers) e h = elim (Bool-cases (text_beq j id)) [
  | inl b ↦ rw b (h.0 ∙ (text_beq_iff j id).0 b)
  | inr b ↦ rw b (Keyed-get id w workers e h.1)
]

is_some-if :
    {A : Type 0} (b : Bool) (x : A) (o : Option A)
    → is_some (if b then some x else o) ≡ (b || is_some o)
is_some-if true x o = refl
is_some-if false x o = refl

module _ (L : AddressLib) (R : Float) (network : Network) (now : ℕ) where
  -- The workers stay under their ids, and have this id if they had it or it is that of the user.
  abbrev Gains : Text → Bool → Workers R.F → Workers R.F → Type 0
  Gains id new before after =
      Keyed after × (is_some (get id after) ≡ (new || is_some (get id before)))

  push-Gains :
      (id user : Text) (session : MinerSession R.F) (workers : Workers R.F)
      → Keyed workers
      → Gains id
          (worker_id_of L network user == id)
          workers
          (push_worker_session L R workers network user session)
  unfolding push_worker_session
  push-Gains id user session workers h =
      let (label, address) = label_address (parse_miner_identity L user network) in
      let j = miner_row_id network user label address in
      let w = new_worker R j label address user in
      let pushed = with_session session (unwrap_or w (get j workers)) in
      (
        (
          All-insert (λ e. e.1.worker_id ≡ e.0) j pushed workers (Keyed-get j w workers refl h.0)
              h.0,
          Distinct-insert j pushed workers h.1,
        ),
        ap is_some (get-insert j id pushed workers)
            ∙ is_some-if (text_beq j id) pushed (get id workers),
      )

  -- The users of the rows, of the sessions of the registry and of the known miners.
  abbrev pub row_lists : Text → List (MinerRow R.F) → Bool
  row_lists id rows = any (λ row. worker_id_of L network row.user_identity == id) rows

  abbrev pub stat_lists : Text → StatMap R.F → Bool
  stat_lists id stats = any (λ e. worker_id_of L network e.1.user_identity == id) stats

  abbrev pub known_lists : Text → List (KnownMiner R.F) → Bool
  known_lists id known = any (λ miner. miner.miner_id == id) known

  place_rows-Gains :
      (id : Text) (rows : List (MinerRow R.F)) (stats : StatMap R.F) (workers : Workers R.F)
      → Keyed workers
      → Gains id (row_lists id rows) workers (place_rows L R network now rows stats workers).1
  unfolding place_rows any
  place_rows-Gains id [] stats workers h = (h, refl)
  place_rows-Gains id (row ∷ rows) stats workers h =
      let session = miner_session_from_row R row (get (row_key row) stats) now in
      let next = push_worker_session L R workers network row.user_identity session in
      let (k, g) = push-Gains id row.user_identity session workers h in
      let (k', g') = place_rows-Gains id rows (remove (row_key row) stats) next k in
      (k', ground (arith, g, g'))

  place_rows-remaining :
      (rows : List (MinerRow R.F)) (stats : StatMap R.F) (workers : Workers R.F)
      → (place_rows L R network now rows stats workers).0 ≡ remaining rows stats
  unfolding place_rows
  place_rows-remaining [] stats workers = refl
  place_rows-remaining (row ∷ rows) stats workers =
      place_rows-remaining rows (remove (row_key row) stats) _

  place_stats-Gains :
      (id : Text) (stats : StatMap R.F) (workers : Workers R.F)
      → Keyed workers
      → Gains id (stat_lists id stats) workers (place_stats L R network now stats workers)
  unfolding place_stats any
  place_stats-Gains id [] workers h = (h, refl)
  place_stats-Gains id ((j, stat) ∷ stats) workers h =
      let session = miner_session_from_stat R stat now in
      let next = push_worker_session L R workers network stat.user_identity session in
      let (k, g) = push-Gains id stat.user_identity session workers h in
      let (k', g') = place_stats-Gains id stats next k in (k', ground (arith, g, g'))

  -- A known miner stands under the id of its user identity.
  abbrev pub IsOwn : KnownMiner R.F → Type 0
  IsOwn miner = miner.miner_id ≡ worker_id_of L network miner.user_identity

  place_known_miner-Gains :
      (id : Text) (miner : KnownMiner R.F) (workers : Workers R.F)
      → IsOwn miner
      → Keyed workers
      → Gains id (miner.miner_id == id) workers (place_known_miner L R network now miner workers)
  place_known_miner-Gains id miner workers own h =
      let session = miner_session_from_known_miner R miner now in
      let (k, g) = push-Gains id miner.user_identity session workers h in
      elim (Bool-cases (is_some (get miner.miner_id workers))) [
        | inl e ↦ rw e (
          h,
          elim (Bool-cases (text_beq miner.miner_id id)) [
            | inl b ↦ rw b (
                subst (λ x. is_some (get x workers) ≡ true) ((text_beq_iff miner.miner_id id).0 b)
                  e)
            | inr b ↦ rw b refl
          ],
        )
        | inr e ↦ rw e (k, g ∙ ap (λ x. text_beq x id || is_some (get id workers)) (sym own))
      ]

  place_known-Gains :
      (id : Text) (known : List (KnownMiner R.F)) (workers : Workers R.F)
      → All IsOwn known
      → Keyed workers
      → Gains id (known_lists id known) workers (place_known L R network now known workers)
  unfolding place_known any
  place_known-Gains id [] workers own h = (h, refl)
  place_known-Gains id (miner ∷ known) workers own h =
      let (k, g) = place_known_miner-Gains id miner workers own.0 h in
      let (k', g') = place_known-Gains id known _ own.1 k in (k', ground (arith, g, g'))

  -- The dashboard lists one worker of an id if a row, a session of the registry whose channel has no
  -- row, or a known miner belongs to the id, and else none, in the order of the workers; provided the
  -- known miners stand under the ids of their identities.
  pub count_id-build_miner_workers :
      (id : Text) (rows : Option (List (MinerRow R.F))) (stats : List (MinerSessionSnapshot R.F))
      (known : List (KnownMiner R.F))
      → All IsOwn known
      → (count_id id (build_miner_workers L R network now rows stats known) ≡ (
          if row_lists id (rows_or_none rows)
            || stat_lists id (remaining (rows_or_none rows) (index_stats [] stats))
            || known_lists id known
          then 1
          else 0))
        × IsSorted worker_before (build_miner_workers L R network now rows stats known)
  unfolding build_miner_workers get
  count_id-build_miner_workers id rows stats known own =
      let rows' = rows_or_none rows in
      let placed = place_rows L R network now rows' (index_stats [] stats) [] in
      let left = place_rows-remaining rows' (index_stats [] stats) [] in
      let (k, g) = place_rows-Gains id rows' (index_stats [] stats) [] (tt, tt) in
      let (k', g') = place_stats-Gains id placed.0 placed.1 k in
      let ws = place_stats L R network now placed.0 placed.1 in
      let (k'', g'') = place_known-Gains id known ws own k' in
      let all = place_known L R network now known ws in
      let listed = map (λ e. finalize_worker R e.1) all in
      (
        count_id-sort worker_before id listed
            ∙ (count_id-get R id all k''
                ∙ ap (λ b. if b then 1 else 0)
                    (ground (arith, g, g', g'', ap (stat_lists id) left))),
        sort-IsSorted worker_before worker_before_total worker_before_trans listed,
      )
