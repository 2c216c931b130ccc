-- ===== src/Activity/Counting.antt =====
-- The counter of downstreams: an atomic increment, and a decrement by a compare-exchange loop that
-- stops at zero.
use canary_mining.Common.{
  ℕ, ◌+◌, ◌-◌, ◌%◌, ◌^◌, ◌≤◌, ◌<◌, ◌≡◌, ◌≢◌, refl, arith, Bool, not, Option, none, some, List, [],
  ◌∷◌, length, if◌then◌else◌, nat_beq, ltb, Bool-cases, inl, inr,
}

-- `fetch_add(1)`: the new count, whether the waiters are notified, and what is returned.
unfoldable pub increment_active_downstreams : ℕ → ℕ × (Bool × ℕ)
increment_active_downstreams count = ((count + 1) % 2 ^ 64, (nat_beq count 0, (count + 1) % 2 ^ 64))

unfoldable pub has_active_downstreams : ℕ → Bool
has_active_downstreams count = ltb 0 count

unfoldable pub should_wait_for_active_miners : ℕ → Bool
unfolding has_active_downstreams
should_wait_for_active_miners count = not (has_active_downstreams count)

-- The loop of the decrement, by the count that it loaded and those that its compare-exchanges find:
-- what it returns, or nothing if it needs more rounds.
unfoldable pub decrement_active_downstreams : ℕ → List ℕ → Option ℕ
decrement_active_downstreams current [] = if nat_beq current 0 then some 0 else none
decrement_active_downstreams current (actual ∷ found) =
    let again = decrement_active_downstreams actual found in
    if nat_beq current 0
    then some 0
    else if nat_beq actual current
    then some (current - 1)
    else again

-- How often the count differs from one look at it to the next.
abbrev pub changes : ℕ → List ℕ → ℕ
changes current [] = 0
changes current (actual ∷ found) = (if nat_beq actual current then 0 else 1) + changes actual found

-- The decrement returns as soon as it has had more rounds than the count was changed between them,
-- so that it waits for no one: only a change by another thread costs a round.
pub decrement-returns :
    (current : ℕ) (found : List ℕ)
    → changes current found < length found
    → (n : ℕ) × (decrement_active_downstreams current found ≡ some n)
unfolding decrement_active_downstreams
decrement-returns current [] h = absurd (omega arith)
decrement-returns current (actual ∷ found) h = elim (Bool-cases (nat_beq current 0)) [
  | inl e ↦ (0, ground arith)
  | inr e ↦ elim (Bool-cases (nat_beq actual current)) [
    | inl k ↦ (current - 1, ground arith)
    | inr k ↦ let (n, r) = decrement-returns actual found (ground arith) in (n, ground (arith, r))
  ]
]

-- A thread in the decrement, with the count that it holds.
pub data Pc : Type 0 where
  outside : Pc
  loaded : ℕ → Pc

-- The count, where each thread stands, and how many downstreams were opened and closed so far.
pub record System : Type 0 where
  pub count : ℕ
  pub pc : ℕ → Pc
  pub opened : ℕ
  pub closed : ℕ

abbrev pub move_to : (ℕ → Pc) → ℕ → Pc → ℕ → Pc
move_to pc i p j = if nat_beq i j then p else pc j

-- One access to the shared count by the thread `i`.
pub data Step (s : System) : System → Type 0 where
  increment :
      (i : ℕ)
      → s.pc i ≡ outside
      → Step s
          (record s { count = (increment_active_downstreams s.count).0; opened = s.opened + 1 })
  load : (i : ℕ) → s.pc i ≡ outside → Step s (record s { pc = move_to s.pc i (loaded s.count) })
  stop : (i : ℕ) → s.pc i ≡ loaded 0 → Step s (record s { pc = move_to s.pc i outside })
  exchange :
      (i c : ℕ)
      → s.pc i ≡ loaded c
      → 0 < c
      → s.count ≡ c
      → Step s (record s { count = c - 1; pc = move_to s.pc i outside; closed = s.closed + 1 })
  retry :
      (i c : ℕ)
      → s.pc i ≡ loaded c
      → 0 < c
      → s.count ≢ c
      → Step s (record s { pc = move_to s.pc i (loaded s.count) })

abbrev pub at_start : System
at_start = record { count = 0; pc = λ i. outside; opened = 0; closed = 0 }

pub data Reach : System → Type 0 where
  here : Reach at_start
  next : {s t : System} → Reach s → Step s t → Reach t

Step-opened : {s t : System} → Step s t → s.opened ≤ t.opened
Step-opened (increment i h) = omega arith
Step-opened (load i h) = omega arith
Step-opened (stop i h) = omega arith
Step-opened (exchange i c h p e) = omega arith
Step-opened (retry i c h p e) = omega arith

Step-count :
    {s t : System}
    → Step s t
    → t.opened < 2 ^ 64
    → s.count + s.closed ≡ s.opened
    → t.count + t.closed ≡ t.opened
unfolding increment_active_downstreams
Step-count (increment i h) b k = omega arith
Step-count (load i h) b k = k
Step-count (stop i h) b k = k
Step-count (exchange i c h p e) b k = omega arith
Step-count (retry i c h p e) b k = k

-- However the threads interleave, the count is the number of downstreams opened less those closed, so
-- that no decrement is lost and none goes below zero; provided fewer than 2^64 were opened.
pub Reach-count : {s : System} → Reach s → s.opened < 2 ^ 64 → s.count + s.closed ≡ s.opened
Reach-count here b = refl
Reach-count (next r st) b = Step-count st b (Reach-count r (omega (arith, Step-opened st)))
