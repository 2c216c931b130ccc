-- ===== src/Activity/Waiting.antt =====
-- `wait_for_active_downstream` beside the threads that open and close downstreams. A notification
-- wakes the waiters that are there, as tokio documents of `notify_waiters`.
use canary_mining.Common.{ℕ, zero, suc, ◌+◌, ◌%◌, ◌^◌, ◌<◌, ◌≡◌, refl, arith, ◌⊎◌, inl, inr, subst}

-- Before the test of the loop; after a test that found no downstream, before it waits; waiting for a
-- notification; past the loop.
pub data Waiter : Type 0 where
  testing found_idle asleep done : Waiter

-- The count, the notifications that a first downstream has still to send, and the waiter.
pub record Shared : Type 0 where
  pub count : ℕ
  pub pending : ℕ
  pub waiter : Waiter

abbrev pub wake : Waiter → Waiter
wake asleep = testing
wake testing = testing
wake found_idle = found_idle
wake done = done

pub data Step (s : Shared) : Shared → Type 0 where
  open_first : s.count ≡ 0 → Step s (record s { count = 1; pending = s.pending + 1 })
  open_more : 0 < s.count → Step s (record s { count = (s.count + 1) % 2 ^ 64 })
  notify : (p : ℕ) → s.pending ≡ suc p → Step s (record s { pending = p; waiter = wake s.waiter })
  close : (n : ℕ) → s.count ≡ suc n → Step s (record s { count = n })
  leave : s.waiter ≡ testing → 0 < s.count → Step s (record s { waiter = done })
  find_idle : s.waiter ≡ testing → s.count ≡ 0 → Step s (record s { waiter = found_idle })
  sleep : s.waiter ≡ found_idle → Step s (record s { waiter = asleep })

pub data Steps (s : Shared) : Shared → Type 0 where
  none_yet : Steps s s
  then : {t u : Shared} → Steps s t → Step t u → Steps s u

abbrev pub begin : Shared
begin = record { count = 0; pending = 0; waiter = testing }

abbrev pub missed : ℕ → Shared
missed n = record { count = suc n; pending = 0; waiter = asleep }

missed-reached : (n : ℕ) → suc n < 2 ^ 64 → Steps begin (missed n)
missed-reached zero h =
    then (then (then (then none_yet (find_idle refl refl)) (open_first refl)) (notify 0 refl))
      (sleep refl)
missed-reached (suc n) h =
    subst (λ k. Steps begin (record { count = k; pending = 0; waiter = asleep })) (omega arith)
      (then (missed-reached n (omega arith)) (open_more (omega arith)))

-- A state where the waiter sleeps although there are downstreams, and no one is about to notify it.
pub record IsMissed (s : Shared) : Type 0 where
  pub active : 0 < s.count
  pub silent : s.pending ≡ 0
  pub sleeping : s.waiter ≡ asleep

zero-or_more : (n : ℕ) → (n ≡ 0) ⊎ (0 < n)
zero-or_more zero = inl refl
zero-or_more (suc n) = inr (omega arith)

recounted :
    (s : Shared)
    → IsMissed s
    → (n : ℕ) → (n ≡ 0) ⊎ (0 < n)
    → (n ≡ 0) ⊎ IsMissed (record s { count = n })
recounted s m n (inl e) = inl e
recounted s m n (inr p) = inr record { active = p; silent = m.silent; sleeping = m.sleeping }

Step-IsMissed : {s t : Shared} → IsMissed s → Step s t → (t.count ≡ 0) ⊎ IsMissed t
Step-IsMissed m (open_first e) = absurd (ground (arith, m.active))
Step-IsMissed {s} m (open_more p) =
    recounted s m ((s.count + 1) % 2 ^ 64) (zero-or_more ((s.count + 1) % 2 ^ 64))
Step-IsMissed m (notify p e) = absurd (ground (arith, m.silent))
Step-IsMissed {s} m (close n e) = recounted s m n (zero-or_more n)
Step-IsMissed m (leave e p) = absurd (ground (arith, m.sleeping))
Step-IsMissed m (find_idle e p) = absurd (ground (arith, m.sleeping))
Step-IsMissed m (sleep e) = absurd (ground (arith, m.sleeping))

-- Steps after which there is always some downstream.
pub data Busy (s : Shared) : Shared → Type 0 where
  not_yet : Busy s s
  busy : {t u : Shared} → Busy s t → Step t u → 0 < u.count → Busy s u

Busy-IsMissed : {s t : Shared} → IsMissed s → Busy s t → IsMissed t
Busy-IsMissed m not_yet = m
Busy-IsMissed m (busy b step p) = elim (Step-IsMissed (Busy-IsMissed m b) step) [
  | inl e ↦ absurd (omega (arith, e, p))
  | inr k ↦ k
]

Steps-Busy : {s t u : Shared} → Steps s t → Busy t u → Steps s u
Steps-Busy r not_yet = r
Steps-Busy r (busy b step p) = then (Steps-Busy r b) step

-- With any number of downstreams below 2 ^ 64 the waiter can be asleep, because those came between its
-- test and its wait; and it stays asleep, with no notification on the way, through all steps after
-- which there still is a downstream.
pub missed_wakeup :
    (n : ℕ) (t : Shared) → suc n < 2 ^ 64 → Busy (missed n) t → Steps begin t × IsMissed t
missed_wakeup n t h b = (
  Steps-Busy (missed-reached n h) b,
  Busy-IsMissed record { active = omega arith; silent = refl; sleeping = refl } b,
)
