-- ===== src/Common/Sort.antt =====
-- `sort_by` and ORDER BY: a stable insertion sort by a Boolean order, which keeps the members and
-- orders them.
use mathlib.Core.Path.{◌≡◌, refl}
use mathlib.Core.Logic.{inl, inr}
use mathlib.Core.Bool.{Bool, true, false}
use mathlib.Core.List.{List, [], ◌∷◌, Perm}
use mathlib.Core.List.Perm
use native.Mathlib.Omega.{arith}
use canary_mining.Common.Tests.{if◌then◌else◌, Bool-cases}
use canary_mining.Common.Lists.{All, All-weaken, All-retain, retain}

module _ {ℓ} {A : Type ℓ} (leq : A → A → Bool) where
  unfoldable pub insert_sorted : A → List A → List A
  insert_sorted x [] = x ∷ []
  insert_sorted x (y ∷ ys) = if leq x y then x ∷ y ∷ ys else y ∷ insert_sorted x ys

  unfoldable pub sort : List A → List A
  unfolding insert_sorted
  sort [] = []
  sort (x ∷ xs) = insert_sorted x (sort xs)

  -- Every element stands before or beside all that follow it.
  abbrev pub IsSorted : List A → Type 0
  IsSorted [] = Unit
  IsSorted (x ∷ xs) = All (λ y. leq x y ≡ true) xs × IsSorted xs

  insert_sorted-perm : (x : A) (xs : List A) → Perm (insert_sorted x xs) (x ∷ xs)
  unfolding insert_sorted
  insert_sorted-perm x [] = Perm.refl (x ∷ [])
  insert_sorted-perm x (y ∷ ys) = elim (Bool-cases (leq x y)) [
    | inl e ↦ rw e (Perm.refl (x ∷ y ∷ ys))
    | inr e ↦ rw e (Perm.trans (Perm.cons y (insert_sorted-perm x ys)) (Perm.swap x y ys))
  ]

  pub sort-perm : (xs : List A) → Perm (sort xs) xs
  unfolding sort
  sort-perm [] = Perm.refl []
  sort-perm (x ∷ xs) = Perm.trans (insert_sorted-perm x (sort xs)) (Perm.cons x (sort-perm xs))

  module _ (total : (x y : A) → leq x y ≡ false → leq y x ≡ true)
      (trans : (x y z : A) → leq x y ≡ true → leq y z ≡ true → leq x z ≡ true) where
    insert_sorted-All :
        (x z : A) (ys : List A)
        → leq z x ≡ true
        → All (λ y. leq z y ≡ true) ys
        → All (λ y. leq z y ≡ true) (insert_sorted x ys)
    unfolding insert_sorted
    insert_sorted-All x z [] h a = (h, tt)
    insert_sorted-All x z (y ∷ ys) h a = elim (Bool-cases (leq x y)) [
      | inl e ↦ rw e (h, a)
      | inr e ↦ rw e (a.0, insert_sorted-All x z ys h a.1)
    ]

    insert_sorted-IsSorted : (x : A) (ys : List A) → IsSorted ys → IsSorted (insert_sorted x ys)
    unfolding insert_sorted
    insert_sorted-IsSorted x [] s = (tt, tt)
    insert_sorted-IsSorted x (y ∷ ys) s = elim (Bool-cases (leq x y)) [
      | inl e ↦ rw e ((e, All-weaken _ _ (λ z h. trans x y z e h) ys s.0), s)
      | inr e ↦ rw e (insert_sorted-All x y ys (total x y e) s.0, insert_sorted-IsSorted x ys s.1)
    ]

    pub sort-IsSorted : (xs : List A) → IsSorted (sort xs)
    unfolding sort
    sort-IsSorted [] = tt
    sort-IsSorted (x ∷ xs) = insert_sorted-IsSorted x (sort xs) (sort-IsSorted xs)

    insert_sorted_before :
        (x : A) (ys : List A) → All (λ y. leq x y ≡ true) ys → insert_sorted x ys ≡ x ∷ ys
    unfolding insert_sorted
    insert_sorted_before x [] a = refl
    insert_sorted_before x (y ∷ ys) a = rw (a.0) refl

    insert_sorted-retain :
        (p : A → Bool) (x : A) (ys : List A)
        → IsSorted ys
        → retain p (insert_sorted x ys)
          ≡ (if p x then insert_sorted x (retain p ys) else retain p ys)
    unfolding insert_sorted retain
    insert_sorted-retain p x [] s = ground arith
    insert_sorted-retain p x (y ∷ ys) s = elim (Bool-cases (leq x y)) [
      | inl e ↦
          let below : All (λ z. leq x z ≡ true) ys =
            All-weaken _ _ (λ z h. trans x y z e h) ys s.0 in
          ground (arith, insert_sorted_before x (retain p ys) (All-retain _ p ys below))
      | inr e ↦ ground (arith, insert_sorted-retain p x ys s.1)
    ]

    -- To sort what is kept is to keep from what is sorted.
    pub sort-retain : (p : A → Bool) (xs : List A) → sort (retain p xs) ≡ retain p (sort xs)
    unfolding sort retain
    sort-retain p [] = refl
    sort-retain p (x ∷ xs) =
        ground (arith, insert_sorted-retain p x (sort xs) (sort-IsSorted xs), sort-retain p xs)
