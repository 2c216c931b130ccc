-- ===== src/History/Order.antt =====
-- The list of miners depends on what the table holds and not on how its rows came in: ORDER BY
-- tells any two rows of a well-formed table apart.
use mathlib.Core.Path.{ap₂}
use mathlib.Core.List.Perm
use canary_mining.Common.{
  true, ◌≡◌, refl, sym, ap, arith, some, map, All, All-weaken, All-both, ◌∙◌,
}
use canary_mining.Common.Assoc.{get}
use canary_mining.Common.Assoc.Laws.{Distinct}
use canary_mining.Common.Sort.{sort, sort-perm, sort-IsSorted}
use canary_mining.Common.Unique.{found_each, Same, Same-Perm, sorted_unique, sort-All_of}
use canary_mining.Common.Text.Basic.{Text, text_eq, text_beq_iff}
use canary_mining.Common.Int64.{leb_ℤ}
use canary_mining.Common.Float.{Float}
use canary_mining.Config.{Network}
use canary_mining.Identity.{miner_id}
use canary_mining.History.Rows.{Row, Table}
use canary_mining.History.Laws.{IsKnown}
use canary_mining.History.Listing.{
  query_miners, to_known_miner, row_before, seen_before, label_before, address_before,
  row_before_total, row_before_trans, text_lt_irrefl, text_lt_trans, text_lt_total,
}

module _ {F : Type 0} where
  row_before_refl : (x : Text × Row F) → row_before x x ≡ true
  unfolding row_before seen_before label_before address_before leb_ℤ
  row_before_refl (i, a) =
      ground (arith, text_beq_iff a.label a.label, text_lt_irrefl a.payout_address)

  -- Rows that stand on both sides of each other have one label and one address.
  label_antisym :
      (a b : Row F)
      → label_before a b ≡ true
      → label_before b a ≡ true
      → (a.label ≡ b.label) × (a.payout_address ≡ b.payout_address)
  unfolding label_before address_before
  label_antisym a b g h = (
    ground (
      arith,
      text_beq_iff a.label b.label,
      text_beq_iff b.label a.label,
      text_lt_trans a.label b.label a.label,
      text_lt_irrefl a.label,
    ),
    ground (
      arith,
      text_beq_iff a.label b.label,
      text_beq_iff b.label a.label,
      text_lt_trans a.label b.label a.label,
      text_lt_irrefl a.label,
      text_lt_total a.payout_address b.payout_address,
    ),
  )

  row_antisym :
      (i j : Text) (a b : Row F)
      → row_before (i, a) (j, b) ≡ true
      → row_before (j, b) (i, a) ≡ true
      → (a.label ≡ b.label) × (a.payout_address ≡ b.payout_address)
  unfolding row_before seen_before leb_ℤ
  row_antisym i j a b g h = ground (arith, label_antisym a b)

module _ (R : Float) (network : Network) where
  -- A table whose rows are known under their ids, one to an id.
  abbrev pub IsTable : Table R.F → Type 0
  IsTable db = All (IsKnown R network) db × Distinct db

  abbrev IsRow : Table R.F → Text × Row R.F → Type 0
  IsRow db e = IsKnown R network e × (get e.0 db ≡ some e.1)

  rows_of : (t u : Table R.F) → IsTable u → Same t u → All (IsRow t) u
  rows_of t u (k, d) s =
      All-both (IsKnown R network) _ u k
        (All-weaken _ (λ x. get x.0 t ≡ some x.1) (λ x h. s x.0 ∙ h) u (found_each u d))

  row_unique :
      (t : Table R.F) (x y : Text × Row R.F)
      → IsRow t x
      → IsRow t y
      → row_before x y ≡ true
      → row_before y x ≡ true
      → x ≡ y
  row_unique t (i, a) (j, b) (ka, ga) (kb, gb) h k =
      let (label, address) = row_antisym i j a b h k in
      let ids : i ≡ j = ka.keyed ∙ (ap₂ (miner_id network) address label ∙ sym kb.keyed) in
      ap₂ (λ x y. (x, y)) ids (ground (arith, ap (λ x. get x t) ids, ga, gb))

  -- Two tables of well-formed rows that answer every id alike are listed alike, in whatever order
  -- their rows are stored.
  pub query_miners-Same :
      (t u : Table R.F) → IsTable t → IsTable u → Same t u → query_miners t ≡ query_miners u
  unfolding query_miners
  query_miners-Same t u wt wu s = ap (map to_known_miner) (
      sorted_unique row_before (IsRow t) row_before_refl (row_unique t) (sort row_before t)
        (sort row_before u) (sort-All_of row_before (IsRow t) t (rows_of t t wt (λ k. refl)))
        (sort-All_of row_before (IsRow t) u (rows_of t u wu s))
        (sort-IsSorted row_before row_before_total row_before_trans t)
        (sort-IsSorted row_before row_before_total row_before_trans u)
        (Perm.trans (sort-perm row_before t)
          (Perm.trans (Same-Perm t u wt.1 wu.1 s) (Perm.symm (sort-perm row_before u)))))
