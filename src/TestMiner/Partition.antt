-- ===== src/TestMiner/Partition.antt =====
-- How the workers share the headers: each header is one worker's, in one of its rounds.
use native.Mathlib.Nat.{
  zero-mul, suc-mul, mod-add-div', mod-lt, add-mul-mod_self_right, mod-eq_of_lt,
}
use canary_mining.Common.{
  ℕ, zero, suc, ◌+◌, ◌*◌, ◌/◌, ◌%◌, ◌^◌, ◌<◌, ◌≤◌, ◌≡◌, sym, ap, subst, ◌∙◌, arith, Bool, true,
  false, List, length, All,
}
use canary_mining.TestMiner.Search.{mine_worker, share, number_of, numbered, mine_worker_lem}

number_of_lem : (i count r : ℕ) → number_of i count r ≡ i + r * count
number_of_lem i count zero = omega (arith, zero-mul count)
number_of_lem i count (suc r) = number_of_lem (i + count) count r ∙ omega (arith, suc-mul r count)

number_of-header : (count n : ℕ) → number_of (n % count) count (n / count) ≡ n
number_of-header count n = number_of_lem (n % count) count (n / count) ∙ mod-add-div' n count

-- A worker goes up through its headers.
number_of-le : (i count r : ℕ) → i ≤ number_of i count r
number_of-le i count zero = omega arith
number_of-le i count (suc r) = omega (arith, number_of-le (i + count) count r)

number_of-lt : (i count r q : ℕ) → 0 < count → r < q → number_of i count r < number_of i count q
number_of-lt i count r zero p h = absurd (omega (arith, h))
number_of-lt i count zero (suc q) p h = omega (arith, p, number_of-le (i + count) count q)
number_of-lt i count (suc r) (suc q) p h = number_of-lt (i + count) count r q p (omega (arith, h))

number_of-mod : (i count r : ℕ) → i < count → number_of i count r % count ≡ i
number_of-mod i count r h =
    ap (λ n. n % count) (number_of_lem i count r)
    ∙ (add-mul-mod_self_right i r count ∙ mod-eq_of_lt h)

-- No two workers have a header in common.
pub number_of-index :
    (count i j r q : ℕ) → i < count → j < count → number_of i count r ≡ number_of j count q → i ≡ j
number_of-index count i j r q hi hj e =
    sym (number_of-mod i count r hi) ∙ (ap (λ n. n % count) e ∙ number_of-mod j count q hj)

-- The first header that meets the target, by their numbers, is sent: by the worker whose index is its
-- number modulo the count of workers, with its nonce and time, if the flag stays clear for that long.
pub first_header :
    (met : ℕ → ℕ → Bool) (ntime count n : ℕ) (loads : List Bool)
    → 0 < count
    → count < 2 ^ 32
    → ntime < 2 ^ 32
    → All (λ load. load ≡ false) loads
    → n / count < length loads
    → ((m : ℕ) → m < n → numbered ntime met m ≡ false)
    → numbered ntime met n ≡ true
    → mine_worker false met ntime (n % count) count loads
      ≡ share (n % 2 ^ 32) ((ntime + n / 2 ^ 32) % 2 ^ 32)
first_header met ntime count n loads positive small t a l before now =
    let header = number_of-header count n in
    mine_worker_lem met ntime (n % count) count (n / count) loads (mod-lt n positive) small t a l
      (λ r h. before _ (
        subst (λ m. number_of (n % count) count r < m) header
          (number_of-lt (n % count) count r (n / count) positive h)))
      (subst (λ m. numbered ntime met m ≡ true) (sym header) now)
    ∙ ap (λ m. share (m % 2 ^ 32) ((ntime + m / 2 ^ 32) % 2 ^ 32)) header
