-- ===== src/Tests/Listed.antt =====
-- The list of known stored_miners, of tables in either order.
use mathlib.Core.Quot
use native.Mathlib.Nat.{ℕ_set}
use canary_mining.Common.{◌≡◌, refl, arith, [], ◌∷◌, true, retain}
use canary_mining.Common.Assoc.{get}
use canary_mining.Common.Unique.{Same}
use canary_mining.Common.Int64.{pos}
use canary_mining.Common.Text.Basic.{
  Text, codes, text_beq, text_beq_iff, text_eq, trim, is_whitespace,
}
use canary_mining.Config.{Network, display}
use canary_mining.Identity.{miner_id}
use canary_mining.History.Rows.{Row, Table, opened_row, closed_row}
use canary_mining.History.Listing.{query_miners}
use canary_mining.History.Order.{IsTable, query_miners-Same}
use canary_mining.History.Deletion.{is_left, Miners, listing, forgotten, listing-forgotten}
use canary_mining.Tests.Models.{numbers}

abbrev row : Text → Row numbers.F
row label =
    closed_row numbers (pos 30)
      (opened_row numbers (codes "user") (codes "addr") label 100 (pos 10) (pos 10))

abbrev shed : Text
shed = codes "regtest:addr:shed"

abbrev cellar : Text
cellar = codes "regtest:addr:cellar"

abbrev stored : Table numbers.F
stored = (shed, row (codes "shed")) ∷ (cellar, row (codes "cellar")) ∷ []

abbrev restored : Table numbers.F
restored = (cellar, row (codes "cellar")) ∷ (shed, row (codes "shed")) ∷ []

apart : (text_beq cellar shed ≡ true) → ⊥
unfolding text_beq
apart h = ground arith

stored-IsTable : IsTable numbers Network.regtest stored
unfolding miner_id display get text_beq trim is_whitespace
stored-IsTable = (
  (
    record { keyed = refl; status = (refl, λ e. cc) },
    (record { keyed = refl; status = (refl, λ e. cc) }, tt),
  ),
  (refl, (refl, tt)),
)

restored-IsTable : IsTable numbers Network.regtest restored
unfolding miner_id display get text_beq trim is_whitespace
restored-IsTable = (
  (
    record { keyed = refl; status = (refl, λ e. cc) },
    (record { keyed = refl; status = (refl, λ e. cc) }, tt),
  ),
  (refl, (refl, tt)),
)

stored-Same : Same stored restored
unfolding get
stored-Same k =
    ground (arith, apart, text_beq_iff shed k, text_beq_iff cellar k, text_beq_iff cellar shed)

query_miners-Same_example : query_miners stored ≡ query_miners restored
query_miners-Same_example =
    query_miners-Same numbers Network.regtest stored restored stored-IsTable restored-IsTable
      stored-Same

abbrev stored_miners : Miners numbers Network.regtest ℕ_set
stored_miners = Quot.mk (stored, stored-IsTable)

listing-forgotten_example :
    listing numbers Network.regtest ℕ_set
      (forgotten numbers Network.regtest ℕ_set shed stored_miners)
    ≡ retain (is_left shed) (listing numbers Network.regtest ℕ_set stored_miners)
listing-forgotten_example = listing-forgotten numbers Network.regtest ℕ_set shed stored_miners
