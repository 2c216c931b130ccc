-- ===== src/Dashboard/Blocks/Runs.antt =====
-- Runs of blocks: heights that follow each other.
use canary_mining.Common.{
  ℕ, suc, ◌+◌, ◌≤◌, ◌<◌, max, ◌≡◌, refl, ap, arith, true, false, some, List, [], ◌∷◌, ◌++◌, retain,
  length, leb, any, nat_beq, Bool-cases, inl, inr,
}
use canary_mining.Common.Sort.{sort, insert_sorted}
use canary_mining.Common.Int64.{u64_max}
use canary_mining.Dashboard.Sessions.{or_else}
use canary_mining.Dashboard.Blocks.{BlockTimelineItem, in_range, by_height, last, next_height}

abbrev pub IsRun : ℕ → List BlockTimelineItem → Type 0
IsRun h [] = Unit
IsRun h (b ∷ bs) = (b.height ≡ h) × IsRun (suc h) bs

pub IsRun-append :
    (h : ℕ) (bs : List BlockTimelineItem) (b : BlockTimelineItem)
    → IsRun h bs
    → b.height ≡ h + length bs
    → IsRun h (bs ++ (b ∷ []))
IsRun-append h [] b r e = (omega (arith, e), tt)
IsRun-append h (c ∷ bs) b r e = (r.0, IsRun-append (suc h) bs b r.1 (omega (arith, e)))

pub sort-IsRun : (h : ℕ) (bs : List BlockTimelineItem) → IsRun h bs → sort by_height bs ≡ bs
unfolding sort insert_sorted
sort-IsRun h [] r = refl
sort-IsRun h (b ∷ []) r = refl
sort-IsRun h (b ∷ c ∷ bs) r =
    let e : leb b.height c.height ≡ true = ground (arith, r.0, r.1.0) in
    rw (sort-IsRun (suc h) (c ∷ bs) r.1) (rw e refl)

beyond :
    (lo hi h : ℕ) (bs : List BlockTimelineItem)
    → IsRun h bs
    → hi < h
    → retain (in_range lo hi) bs ≡ []
unfolding retain
beyond lo hi h [] r p = refl
beyond lo hi h (b ∷ bs) r p =
    let e : in_range lo hi b ≡ false = ground (arith, r.0) in
    rw e (beyond lo hi (suc h) bs r.1 (omega arith))

from_low :
    (lo hi h : ℕ) (bs : List BlockTimelineItem)
    → IsRun h bs
    → lo ≤ h
    → IsRun h (retain (in_range lo hi) bs)
      × (h + length (retain (in_range lo hi) bs) ≤ max h (suc hi))
unfolding retain
from_low lo hi h [] r p = (tt, omega arith)
from_low lo hi h (b ∷ bs) r p = elim (Bool-cases (in_range lo hi b)) [
  | inl e ↦
      let (run, bound) = from_low lo hi (suc h) bs r.1 (omega arith) in
      let q : h ≤ hi = ground (arith, e, r.0) in rw e ((r.0, run), omega (arith, bound, q))
  | inr e ↦ rw (e, beyond lo hi (suc h) bs r.1 (ground (arith, e, r.0, p))) (tt, omega arith)
]

-- A run within a range of heights.
abbrev pub IsRunWithin : ℕ → ℕ → List BlockTimelineItem → Type 0
IsRunWithin lo hi bs = (k : ℕ) × IsRun k bs × (lo ≤ k) × (k + length bs ≤ suc hi)

-- What a range keeps of a run is a run within it.
pub retain-IsRun :
    (lo hi h : ℕ) (bs : List BlockTimelineItem)
    → IsRun h bs
    → lo ≤ suc hi
    → IsRunWithin lo hi (retain (in_range lo hi) bs)
unfolding retain
retain-IsRun lo hi h [] r p = (lo, tt, omega arith, omega arith)
retain-IsRun lo hi h (b ∷ bs) r p = elim (Bool-cases (in_range lo hi b)) [
  | inl e ↦
      let (run, bound) = from_low lo hi (suc h) bs r.1 (ground (arith, e, r.0)) in
      let q : h ≤ hi = ground (arith, e, r.0) in
      rw e (h, (r.0, run), ground (arith, e, r.0), omega (arith, bound, q))
  | inr e ↦ rw e (retain-IsRun lo hi (suc h) bs r.1 p)
]

-- A run within the range is kept.
pub retain-IsRun_all :
    (lo hi h : ℕ) (bs : List BlockTimelineItem)
    → IsRun h bs
    → lo ≤ h
    → h + length bs ≤ suc hi
    → retain (in_range lo hi) bs ≡ bs
unfolding retain
retain-IsRun_all lo hi h [] r p q = refl
retain-IsRun_all lo hi h (b ∷ bs) r p q =
    let e : in_range lo hi b ≡ true = ground (arith, r.0) in
    rw e (ap (◌∷◌ b) (retain-IsRun_all lo hi (suc h) bs r.1 (omega arith) (omega (arith, q))))

-- The block of each height of a run is in it.
pub any-IsRun :
    (h k : ℕ) (bs : List BlockTimelineItem)
    → IsRun h bs
    → h ≤ k
    → k < h + length bs
    → any (λ b. nat_beq b.height k) bs ≡ true
unfolding any
any-IsRun h k [] r p q = absurd (omega (arith, q))
any-IsRun h k (b ∷ bs) r p q = elim (Bool-cases (nat_beq b.height k)) [
  | inl e ↦ rw e refl
  | inr e ↦ rw e (any-IsRun (suc h) k bs r.1 (ground (arith, r.0)) (omega (arith, q)))
]

last-IsRun :
    (h : ℕ) (b : BlockTimelineItem) (bs : List BlockTimelineItem)
    → IsRun h (b ∷ bs)
    → (top : BlockTimelineItem) × (last (b ∷ bs) ≡ some top) × (top.height ≡ h + length bs)
last-IsRun h b [] r = (b, refl, omega (arith, r.0))
last-IsRun h b (c ∷ bs) r =
    let (top, e, at) = last-IsRun (suc h) c bs r.1 in
    (top, ap (λ o. or_else o (some b)) e, omega (arith, at))

-- Behind a run that does not end at the greatest `u64` comes the next height.
pub next_height-IsRun :
    (h : ℕ) (b : BlockTimelineItem) (bs : List BlockTimelineItem)
    → IsRun h (b ∷ bs)
    → h + length (b ∷ bs) ≤ u64_max
    → (lo : ℕ) → next_height lo (last (b ∷ bs)) ≡ h + length (b ∷ bs)
next_height-IsRun h b bs r p lo =
    let (top, e, at) = last-IsRun h b bs r in rw e (omega (arith, at, p))
