-- ===== src/Common/Unique.antt =====
-- A list has one sorted permutation, when the order tells its members apart; and two maps with one
-- entry to a key and the same answers are permutations of each other.
use mathlib.Core.Path.{◌≡◌, refl, sym, subst, ap₂}
use mathlib.Core.Logic.{inl, inr}
use mathlib.Core.Logic.Or
use mathlib.Core.Bool.{Bool, true}
use mathlib.Core.Option.{none, some}
use mathlib.Core.List.{List, [], ◌∷◌, Mem, Perm, not-mem-nil, mem-cons_self, eq-or-mem_of_mem-cons}
use mathlib.Core.List.Perm
use native.Mathlib.Omega.{arith}
use canary_mining.Common.Tests.{Eq, ◌==◌, Bool-cases}
use canary_mining.Common.Lists.{All, All-weaken}
use canary_mining.Common.Sort.{IsSorted, insert_sorted, sort}
use canary_mining.Common.Assoc.{get, remove, get-remove}
use canary_mining.Common.Assoc.Laws.{Distinct, Distinct-remove}

bool_path : (b : Bool) → IsProp (b ≡ true)
bool_path b = hlevel

module _ {ℓ} {A : Type ℓ} (leq : A → A → Bool) where
  insert_sorted-All_of {κ} :
      (P : A → Type κ) (x : A) (ys : List A) → P x → All P ys → All P (insert_sorted leq x ys)
  unfolding insert_sorted
  insert_sorted-All_of P x [] p h = (p, tt)
  insert_sorted-All_of P x (y ∷ ys) p h = elim (Bool-cases (leq x y)) [
    | inl e ↦ rw e (p, h)
    | inr e ↦ rw e (h.0, insert_sorted-All_of P x ys p h.1)
  ]

  pub sort-All_of {κ} : (P : A → Type κ) (xs : List A) → All P xs → All P (sort leq xs)
  unfolding sort
  sort-All_of P [] h = tt
  sort-All_of P (x ∷ xs) h = insert_sorted-All_of P x (sort leq xs) h.0 (sort-All_of P xs h.1)

  -- What all members have, a member has.
  bound_of_mem : (a b : A) (xs : List A) → All (λ x. leq a x ≡ true) xs → Mem b xs → leq a b ≡ true
  bound_of_mem a b [] h m = absurd (not-mem-nil m)
  bound_of_mem a b (x ∷ xs) h m =
      Or.elim (bool_path (leq a b)) (eq-or-mem_of_mem-cons m)
        (λ e. subst (λ y. leq a y ≡ true) (sym e) h.0) (bound_of_mem a b xs h.1)

  module _ {κ} (P : A → Type κ) (reflexive : (x : A) → leq x x ≡ true)
      (antisym : (x y : A) → P x → P y → leq x y ≡ true → leq y x ≡ true → x ≡ y) where
    heads_le :
        (a b : A) (xs ys : List A) → IsSorted leq (a ∷ xs) → Perm (b ∷ ys) (a ∷ xs) → leq a b ≡ true
    heads_le a b xs ys s p =
        bound_of_mem a b (a ∷ xs) (reflexive a, s.0) ((Perm.mem_iff p).0 mem-cons_self)

    pub sorted_unique :
        (xs ys : List A)
        → All P xs
        → All P ys
        → IsSorted leq xs
        → IsSorted leq ys
        → Perm xs ys
        → xs ≡ ys
    sorted_unique [] ys hx hy sx sy p = Perm.nil-eq p
    sorted_unique (x ∷ xs) [] hx hy sx sy p = Perm.eq-nil p
    sorted_unique (x ∷ xs) (y ∷ ys) hx hy sx sy p =
        let first : x ≡ y =
          antisym x y hx.0 hy.0 (heads_le x y xs ys sx (Perm.symm p)) (heads_le y x ys xs sy p) in
        let rest : Perm xs ys = Perm.cons_inv (subst (λ z. Perm (x ∷ xs) (z ∷ ys)) (sym first) p) in
        (λ i. first i ∷ sorted_unique xs ys hx.1 hy.1 sx.1 sy.1 rest i)

module _ {ℓ κ} {K : Type ℓ} {V : Type κ} ⦃e : Eq K⦄ where
  -- Two maps that answer every lookup alike.
  abbrev pub Same : List (K × V) → List (K × V) → Type (ℓ ⊔ κ)
  Same m n = (k : K) → get k m ≡ get k n

  pub remove_absent : (k : K) (m : List (K × V)) → get k m ≡ none → remove k m ≡ m
  unfolding get remove
  remove_absent k [] h = refl
  remove_absent k ((j, w) ∷ m) h = ground (arith, remove_absent k m)

  -- An entry stands somewhere in the map, with the others around it.
  entry-Perm :
      (k : K) (v : V) (m : List (K × V))
      → Distinct m
      → get k m ≡ some v
      → Perm m ((k, v) ∷ remove k m)
  unfolding get remove
  entry-Perm k v [] d h = absurd (ground arith)
  entry-Perm k v ((j, w) ∷ m) d h = elim (Bool-cases (j == k)) [
    | inl b ↦
        let tail : remove k m ≡ m = remove_absent k m (subst (λ x. get x m ≡ none) (key b) d.0) in
        rw b (
          Perm.trans (subst (λ x. Perm ((j, w) ∷ m) (x ∷ m)) (head b) Perm.rfl)
            (subst (λ t. Perm ((k, v) ∷ m) ((k, v) ∷ t)) (sym tail) Perm.rfl))
    | inr b ↦ rw b (
        Perm.trans (Perm.cons (j, w) (entry-Perm k v m d.1 (ground (arith, h))))
          (Perm.swap (k, v) (j, w) (remove k m)))
  ]
    where
      key : j == k ≡ true → j ≡ k
      key b = (e.beq_iff j k).0 b

      head : j == k ≡ true → ◌≡◌ {A = K × V} (j, w) (k, v)
      head b = ap₂ (λ x y. (x, y)) (key b) (ground (arith, h))

  nothing : (m : List (K × V)) → Same [] m → [] ≡ m
  unfolding get
  nothing [] s = refl
  nothing ((j, w) ∷ m) s = absurd (ground (arith, s j, e.beq_iff j j))

  pub Same-Perm : (m n : List (K × V)) → Distinct m → Distinct n → Same m n → Perm m n
  unfolding get
  Same-Perm [] n dm dn s = subst (Perm []) (nothing n s) Perm.nil
  Same-Perm ((k, v) ∷ m) n dm dn s =
      let found : get k n ≡ some v = ground (arith, s k, e.beq_iff k k) in
      Perm.trans
        (Perm.cons (k, v)
          (Same-Perm m (remove k n) dm.1 (Distinct-remove k n dn)
            (λ j. ground (arith, s j, get-remove k j n, e.beq_iff k j, dm.0))))
        (Perm.symm (entry-Perm k v n dn found))

  -- Each entry of a map is the one found under its key.
  pub found_each : (m : List (K × V)) → Distinct m → All (λ x. get x.0 m ≡ some x.1) m
  unfolding get
  found_each [] d = tt
  found_each ((k, v) ∷ m) d = (
    ground (arith, e.beq_iff k k),
    All-weaken (λ x. get x.0 m ≡ some x.1) _ (λ x h. ground (arith, e.beq_iff k x.0, d.0)) m
        (found_each m d.1),
  )
