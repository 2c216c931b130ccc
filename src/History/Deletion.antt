-- ===== src/History/Deletion.antt =====
-- What a deletion does to the list of miners, and the list as a function of the table's answers alone.
use mathlib.Core.Quot
use mathlib.Core.Quot.{Quot, Quot-set}
use canary_mining.Common.{
  Bool, not, ◌||◌, ◌≡◌, refl, sym, ap, arith, none, List, [], ◌∷◌, map, if◌then◌else◌, ◌==◌, retain,
  subst, Bool-cases, inl, inr, ◌∙◌,
}
use canary_mining.Common.Assoc.{get, remove}
use canary_mining.Common.Assoc.Laws.{All-remove, Distinct, Distinct-remove}
use canary_mining.Common.Sort.{sort, sort-retain}
use canary_mining.Common.Unique.{Same, remove_absent}
use canary_mining.Common.Text.Basic.{Text, text_eq, text_beq, text_beq_iff}
use canary_mining.Common.Float.{Float}
use canary_mining.Config.{Network}
use canary_mining.History.Rows.{Row, Table, delete_offline_miner, is_offline}
use canary_mining.History.Listing.{
  delete_offline_miner_lem, KnownMiner, query_miners, to_known_miner, row_before, row_before_total,
  row_before_trans,
}
use canary_mining.History.Order.{IsTable, query_miners-Same}

-- The miners that a deletion of an id leaves in the list: all but the disconnected one of that id.
abbrev pub is_left : {F : Type 0} → Text → KnownMiner F → Bool
is_left id miner = miner.connected || not (id == miner.miner_id)

module _ {F : Type 0} where
  abbrev is_left_row : Text → Text × Row F → Bool
  is_left_row id e = is_left id (to_known_miner e)

  retain_all : (id : Text) (db : Table F) → get id db ≡ none → retain (is_left_row id) db ≡ db
  unfolding get retain to_known_miner
  retain_all id [] h = refl
  retain_all id ((j, row) ∷ db) h =
      ground (arith, text_beq_iff j id, text_beq_iff id j, retain_all id db)

  deleted_rows :
      (id : Text) (db : Table F)
      → Distinct db
      → (if is_offline (get id db) then remove id db else db) ≡ retain (is_left_row id) db
  unfolding get retain remove to_known_miner
  deleted_rows id [] d = refl
  deleted_rows id ((j, row) ∷ db) d = elim (Bool-cases (text_beq j id)) [
    | inl e ↦ ground (
      arith,
      text_beq_iff j id,
      text_beq_iff id j,
      retain_all id db,
      remove_absent id db,
      ap (λ x. get x db) ((text_beq_iff j id).0 e),
      d.0,
    )
    | inr e ↦ ground (
      arith,
      text_beq_iff j id,
      text_beq_iff id j,
      deleted_rows id db d.1,
      Bool-cases (is_offline (get id db)),
    )
  ]

  left :
      (db : Table F) (id : Text)
      → (delete_offline_miner db id).0 ≡ (if is_offline (get id db) then remove id db else db)
  unfolding delete_offline_miner
  left db id = ground arith

  map-retain :
      (id : Text) (db : Table F)
      → map to_known_miner (retain (is_left_row id) db)
        ≡ retain (is_left id) (map to_known_miner db)
  unfolding retain to_known_miner
  map-retain id [] = refl
  map-retain id ((j, row) ∷ db) = ground (arith, map-retain id db)

  -- After a deletion the list is as it was, in the same order, less the miner of that id when it is
  -- disconnected.
  pub query_miners-delete :
      (db : Table F) (id : Text)
      → Distinct db
      → query_miners (delete_offline_miner db id).0 ≡ retain (is_left id) (query_miners db)
  unfolding query_miners delete_offline_miner
  query_miners-delete db id d =
      ap (map to_known_miner) (
        ap (sort row_before) (left db id ∙ deleted_rows id db d)
        ∙ sort-retain row_before row_before_total row_before_trans (is_left_row id) db)
      ∙ map-retain id (sort row_before db)

module _ (R : Float) (network : Network) (F-set : IsSet R.F) where
  abbrev ValidTable : Type 0
  ValidTable = (db : Table R.F) × IsTable R network db

  -- The known miners, whatever the order of the rows.
  abbrev pub Miners : Type 0
  Miners = Quot {α = ValidTable} (λ t u. Same t.0 u.0)

  pub known_miners_set : IsSet (List (KnownMiner R.F))
  known_miners_set = hlevel

  unfoldable pub listing : Miners → List (KnownMiner R.F)
  listing =
      Quot.lift known_miners_set (λ t. query_miners t.0)
        (λ t u. query_miners-Same R network t.0 u.0 t.1 u.1)

  pub left-IsTable :
      (db : Table R.F) (id : Text)
      → IsTable R network db
      → IsTable R network (delete_offline_miner db id).0
  left-IsTable db id (k, d) = elim (Bool-cases (is_offline (get id db))) [
    | inl e ↦
        subst (IsTable R network) (sym (left db id ∙ rw e refl))
          (All-remove _ id db k, Distinct-remove id db d)
    | inr e ↦ subst (IsTable R network) (sym (left db id ∙ rw e refl)) (k, d)
  ]

  pub left-Same :
      (t u : Table R.F) (id : Text)
      → Same t u
      → Same (delete_offline_miner t id).0 (delete_offline_miner u id).0
  left-Same t u id s other =
      (delete_offline_miner_lem t id other).1
      ∙ (rw (s id, s other) refl ∙ sym (delete_offline_miner_lem u id other).1)

  -- A deletion does not ask for the order of the rows.
  unfoldable pub forgotten : Text → Miners → Miners
  forgotten id =
      Quot.lift Quot-set (λ t. Quot.mk ((delete_offline_miner t.0 id).0, left-IsTable t.0 id t.1))
        (λ t u s. Quot.sound (left-Same t.0 u.0 id s))

  -- On the miners without an order of rows, the list after a deletion is the list less the
  -- disconnected miner of that id.
  pub listing-forgotten :
      (id : Text) (miners : Miners)
      → listing (forgotten id miners) ≡ retain (is_left id) (listing miners)
  unfolding listing forgotten
  listing-forgotten id =
      Quot.ind (λ q. known_miners_set _ _) (λ t. query_miners-delete t.0 id t.1.1)
