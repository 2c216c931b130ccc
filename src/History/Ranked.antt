-- ===== src/History/Ranked.antt =====
-- The order of the dashboard's list of known miners, described apart from the comparison of the query.
use canary_mining.Common.{
  ◌<◌, true, false, ◌≡◌, ◌⊎◌, refl, arith, [], ◌∷◌, map, All, All-weaken, ltb, bool_beq, Bool-cases,
  inl, inr,
}
use mathlib.Core.List.{Perm}
use canary_mining.Common.Text.Basic.{Text, text_beq, text_beq_iff}
use canary_mining.Common.Int64.{ℤ, pos, negsuc, leb_ℤ}
use canary_mining.Common.Sort.{sort, IsSorted, sort-IsSorted, sort-perm}
use canary_mining.History.Rows.{Row, Table}
use canary_mining.History.Listing.{
  query_miners, to_known_miner, row_before, seen_before, label_before, address_before, text_lt,
  text_lt_total, row_before_total, row_before_trans,
}

-- A text stands before another one: it is a proper prefix, or smaller at the first difference.
abbrev pub Precedes : Text → Text → Type 0
Precedes s [] = ⊥
Precedes [] (b ∷ t) = Unit
Precedes (a ∷ s) (b ∷ t) = (a < b) ⊎ ((a ≡ b) × Precedes s t)

-- An integer is greater than another one.
abbrev pub IsLater : ℤ → ℤ → Type 0
IsLater (pos m) (pos n) = n < m
IsLater (pos m) (negsuc n) = Unit
IsLater (negsuc m) (pos n) = ⊥
IsLater (negsuc m) (negsuc n) = m < n

-- The first row is listed before the second: it is connected and the other is not; or they agree in
-- that and it was seen later; or they also agree in that and its label precedes; or its address does;
-- or they agree in all four.
abbrev pub Ranks : {F : Type 0} → Row F → Row F → Type 0
Ranks a b =
    ((a.connected ≡ true) × (b.connected ≡ false))
    ⊎ ((a.connected ≡ b.connected)
        × (IsLater a.last_seen_at b.last_seen_at
            ⊎ ((a.last_seen_at ≡ b.last_seen_at)
                × (Precedes a.label b.label
                    ⊎ ((a.label ≡ b.label)
                        × (Precedes a.payout_address b.payout_address
                            ⊎ (a.payout_address ≡ b.payout_address)))))))

-- Every row ranks before all that follow it.
abbrev pub IsRanked : {F : Type 0} → Table F → Type 0
IsRanked [] = Unit
IsRanked (x ∷ rows) = All (λ y. Ranks x.1 y.1) rows × IsRanked rows

text_lt-Precedes : (s t : Text) → text_lt s t ≡ true → Precedes s t
unfolding text_lt
text_lt-Precedes [] [] h = absurd (ground arith)
text_lt-Precedes (a ∷ s) [] h = absurd (ground arith)
text_lt-Precedes [] (b ∷ t) h = tt
text_lt-Precedes (a ∷ s) (b ∷ t) h = elim (Bool-cases (ltb a b)) [
  | inl less ↦ inl (ground (arith, less))
  | inr same ↦ inr (ground (arith, h, same), text_lt-Precedes s t (ground (arith, h, same)))
]

not_leb-IsLater : (a b : ℤ) → leb_ℤ a b ≡ false → IsLater a b
unfolding leb_ℤ
not_leb-IsLater (pos m) (pos n) h = ground (arith, h)
not_leb-IsLater (pos m) (negsuc n) h = tt
not_leb-IsLater (negsuc m) (pos n) h = absurd (ground (arith, h))
not_leb-IsLater (negsuc m) (negsuc n) h = ground (arith, h)

leb_antisym : (a b : ℤ) → leb_ℤ a b ≡ true → leb_ℤ b a ≡ true → a ≡ b
unfolding leb_ℤ
leb_antisym a b h k = ground (arith, h, k)

module _ {F : Type 0} where
  address-Ranks :
      (a b : Row F)
      → address_before a b ≡ true
      → Precedes a.payout_address b.payout_address ⊎ (a.payout_address ≡ b.payout_address)
  unfolding address_before
  address-Ranks a b h = elim (Bool-cases (text_lt a.payout_address b.payout_address)) [
    | inl less ↦ inl (text_lt-Precedes a.payout_address b.payout_address less)
    | inr e ↦ inr (text_lt_total a.payout_address b.payout_address e (ground (arith, h)))
  ]

  label-Ranks :
      (a b : Row F)
      → label_before a b ≡ true
      → Precedes a.label b.label
        ⊎ ((a.label ≡ b.label)
            × (Precedes a.payout_address b.payout_address ⊎ (a.payout_address ≡ b.payout_address)))
  unfolding label_before
  label-Ranks a b h = elim (Bool-cases (text_beq a.label b.label)) [
    | inl same ↦ inr ((text_beq_iff a.label b.label).0 same, address-Ranks a b (rw same at h))
    | inr apart ↦ inl (text_lt-Precedes a.label b.label (rw apart at h))
  ]

  seen-Ranks :
      (a b : Row F)
      → seen_before a b ≡ true
      → IsLater a.last_seen_at b.last_seen_at
        ⊎ ((a.last_seen_at ≡ b.last_seen_at)
            × (Precedes a.label b.label
                ⊎ ((a.label ≡ b.label)
                    × (Precedes a.payout_address b.payout_address
                        ⊎ (a.payout_address ≡ b.payout_address)))))
  unfolding seen_before
  seen-Ranks a b h = elim (Bool-cases (leb_ℤ a.last_seen_at b.last_seen_at)) [
    | inr later ↦ inl (not_leb-IsLater a.last_seen_at b.last_seen_at later)
    | inl below ↦ elim (Bool-cases (leb_ℤ b.last_seen_at a.last_seen_at)) [
      | inr later ↦ absurd (ground (arith, h, below, later))
      | inl above ↦ inr (
        leb_antisym a.last_seen_at b.last_seen_at below above,
        label-Ranks a b (ground (arith, h, below, above)),
      )
    ]
  ]

  row_before-Ranks : (x y : Text × Row F) → row_before x y ≡ true → Ranks x.1 y.1
  unfolding row_before
  row_before-Ranks (i, a) (j, b) h = elim (Bool-cases (bool_beq a.connected b.connected)) [
    | inl same ↦ inr (ground (arith, same), seen-Ranks a b (ground (arith, h, same)))
    | inr apart ↦ inl (ground (arith, h, apart), ground (arith, h, apart))
  ]

  IsSorted-IsRanked : (rows : Table F) → IsSorted row_before rows → IsRanked rows
  IsSorted-IsRanked [] s = tt
  IsSorted-IsRanked (x ∷ rows) s =
      (All-weaken _ _ (row_before-Ranks x) rows s.0, IsSorted-IsRanked rows s.1)

-- The dashboard lists every row of the table once: the connected miners first, then those that were
-- seen last, then by label and at last by address, as texts of code points.
pub query_miners_lem :
    {F : Type 0} (db : Table F)
    → (ranked : Table F) × (query_miners db ≡ map to_known_miner ranked)
      × Perm ranked db
      × IsRanked ranked
unfolding query_miners
query_miners_lem db = (
  sort row_before db,
  refl,
  sort-perm row_before db,
  IsSorted-IsRanked (sort row_before db)
      (sort-IsSorted row_before row_before_total row_before_trans db),
)
