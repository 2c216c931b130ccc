-- ===== src/TestMiner/Search.antt =====
-- The search of one worker for a nonce: `mine_worker`.
use canary_mining.Common.{
  ℕ, zero, suc, ◌+◌, ◌/◌, ◌%◌, ◌^◌, ◌<◌, ◌≡◌, refl, sym, ◌∙◌, arith, Bool, true, false, List, [],
  ◌∷◌, if◌then◌else◌, ltb, length, All,
}

-- The end of a search: no end yet, stopped by the flag, a share that is sent, or one that is not sent
-- because another worker was first.
pub data Search : Type 0 where
  running : Search
  cancelled : Search
  share : ℕ → ℕ → Search
  second : ℕ → ℕ → Search

-- The time goes on when the nonce wraps.
abbrev pub next_ntime : ℕ → ℕ → ℕ → ℕ
next_ntime nonce next_nonce ntime = if ltb next_nonce nonce then (ntime + 1) % 2 ^ 32 else ntime

abbrev pub next_nonce : ℕ → ℕ → ℕ
next_nonce worker_count nonce = (nonce + worker_count) % 2 ^ 32

abbrev pub claim : Bool → ℕ → ℕ → Search
claim true nonce ntime = second nonce ntime
claim false nonce ntime = share nonce ntime

-- The loop, by what each load of the flag gives. Whether a header meets the target is a function of its
-- nonce and time, and the first argument is what the swap of the flag finds.
unfoldable pub mine_from : Bool → (ℕ → ℕ → Bool) → ℕ → List Bool → ℕ → ℕ → Search
mine_from taken met worker_count [] nonce ntime = running
mine_from taken met worker_count (true ∷ loads) nonce ntime = cancelled
mine_from taken met worker_count (false ∷ loads) nonce ntime =
    let next = next_nonce worker_count nonce in
    let rest = mine_from taken met worker_count loads next (next_ntime nonce next ntime) in
    if met nonce ntime then claim taken nonce ntime else rest

unfoldable pub mine_worker : Bool → (ℕ → ℕ → Bool) → ℕ → ℕ → ℕ → List Bool → Search
unfolding mine_from
mine_worker taken met work_ntime worker_index worker_count loads =
    mine_from taken met worker_count loads worker_index work_ntime

-- The header with a number: the low 32 bits are the nonce, and the high ones are added to the time.
abbrev pub numbered : ℕ → (ℕ → ℕ → Bool) → ℕ → Bool
numbered ntime met n = met (n % 2 ^ 32) ((ntime + n / 2 ^ 32) % 2 ^ 32)

-- The number of the header that a worker tries in a round.
abbrev pub number_of : ℕ → ℕ → ℕ → ℕ
number_of worker_index worker_count zero = worker_index
number_of worker_index worker_count (suc round) =
    number_of (worker_index + worker_count) worker_count round

next_header :
    (ntime n count : ℕ)
    → 0 < count
    → count < 2 ^ 32
    → (next_nonce count (n % 2 ^ 32) ≡ (n + count) % 2 ^ 32)
      × (next_ntime (n % 2 ^ 32) (next_nonce count (n % 2 ^ 32)) ((ntime + n / 2 ^ 32) % 2 ^ 32)
          ≡ (ntime + (n + count) / 2 ^ 32) % 2 ^ 32)
next_header ntime n count p q = (omega arith, ground arith)

mine_from_lem :
    (met : ℕ → ℕ → Bool) (ntime count n round : ℕ) (loads : List Bool)
    → 0 < count
    → count < 2 ^ 32
    → All (λ load. load ≡ false) loads
    → round < length loads
    → ((r : ℕ) → r < round → numbered ntime met (number_of n count r) ≡ false)
    → numbered ntime met (number_of n count round) ≡ true
    → mine_from false met count loads (n % 2 ^ 32) ((ntime + n / 2 ^ 32) % 2 ^ 32)
      ≡ share
          (number_of n count round % 2 ^ 32)
          ((ntime + number_of n count round / 2 ^ 32) % 2 ^ 32)
unfolding mine_from
mine_from_lem met ntime count n round [] p q a l before now = absurd (omega (arith, l))
mine_from_lem met ntime count n zero (load ∷ loads) p q a l before now =
    rw (a.0, mine_from, now) refl
mine_from_lem met ntime count n (suc round) (load ∷ loads) p q a l before now =
    let (nonce, time) = next_header ntime n count p q in
    rw (a.0, mine_from, before 0 (omega arith), time, nonce)
      (mine_from_lem met ntime count (n + count) round loads p q a.1 (omega (arith, l))
        (λ r h. before (suc r) (omega (arith, h))) now)

-- A worker counts through the headers of its own residue: it sends the first of them that meets the
-- target, where the header with the number n has the nonce n mod 2^32 and a time that is n / 2^32 later;
-- if the flag stays clear for that many rounds, and the worker has an index below the count of workers.
pub mine_worker_lem :
    (met : ℕ → ℕ → Bool) (ntime index count round : ℕ) (loads : List Bool)
    → index < count
    → count < 2 ^ 32
    → ntime < 2 ^ 32
    → All (λ load. load ≡ false) loads
    → round < length loads
    → ((r : ℕ) → r < round → numbered ntime met (number_of index count r) ≡ false)
    → numbered ntime met (number_of index count round) ≡ true
    → mine_worker false met ntime index count loads
      ≡ share
          (number_of index count round % 2 ^ 32)
          ((ntime + number_of index count round / 2 ^ 32) % 2 ^ 32)
unfolding mine_worker
mine_worker_lem met ntime index count round loads p q t a l before now =
    let nonce : index % 2 ^ 32 ≡ index = omega arith in
    let time : (ntime + index / 2 ^ 32) % 2 ^ 32 ≡ ntime = omega arith in
    (λ i. mine_from false met count loads (sym nonce i) (sym time i))
    ∙ mine_from_lem met ntime count index round loads (omega arith) q a l before now
