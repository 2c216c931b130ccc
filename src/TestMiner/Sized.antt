-- ===== src/TestMiner/Sized.antt =====
-- Messages whose hashes and targets have 32 bytes are handled without an error.
use canary_mining.Common.{
  ℕ, ◌≡◌, ◌⊎◌, refl, Option, none, some, List, [], ◌∷◌, nat_beq, length, Result, ok, err,
  Bool-cases, inl, inr, is_none, retain, All, All-retain, All-append, not,
}
use canary_mining.Common.Text.Basic.{Text}
use canary_mining.TestMiner.Work.{
  MiningWork, MinerState, NewMiningJob, SetNewPrevHash, FrameOutcome, accepted_share, Message,
  TargetLib, open_success, set_target, new_job, set_prev_hash, shares_success, other_message,
  handle_frame, update_job, update_prev_hash, update_pool_target, active_work, ready_work, find_job,
  with_job, frame_of,
}

-- Messages whose hashes and targets have 32 bytes, and the state after such messages.
abbrev pub IsSized : Message → Type 0
IsSized (open_success channel_id target) = length target ≡ 32
IsSized (set_target target) = length target ≡ 32
IsSized (new_job job) = length job.merkle_root ≡ 32
IsSized (set_prev_hash prev_hash) = length prev_hash.prev_hash ≡ 32
IsSized shares_success = Unit
IsSized other_message = Unit

abbrev pub SizedHash : Option SetNewPrevHash → Type 0
SizedHash none = Unit
SizedHash (some prev_hash) = length prev_hash.prev_hash ≡ 32

abbrev pub SizedState : {F T : Type 0} → MinerState F T → Type 0
SizedState s = All (λ job. length job.merkle_root ≡ 32) s.jobs × SizedHash s.prev_hash

find_job-sized :
    (id : ℕ) (jobs : List NewMiningJob)
    → All (λ job. length job.merkle_root ≡ 32) jobs
    → (find_job id jobs ≡ none)
      ⊎ ((job : NewMiningJob) × (find_job id jobs ≡ some job) × (length job.merkle_root ≡ 32))
find_job-sized id [] h = inl refl
find_job-sized id (job ∷ jobs) h = elim (Bool-cases (nat_beq job.job_id id)) [
  | inl b ↦ inr (job, rw b refl, h.0)
  | inr b ↦ rw b (find_job-sized id jobs h.1)
]

-- No error, whatever the value; and a frame that leaves the count of accepted blocks alone.
abbrev pub NoError : {A : Type 0} → Result Text A → Type 0
NoError (ok a) = Unit
NoError (err e) = ⊥

abbrev pub Uncounted : {T : Type 0} → Result Text (FrameOutcome T) → Type 0
Uncounted (ok accepted_share) = ⊥
Uncounted (ok _) = Unit
Uncounted (err e) = ⊥

module _ (F : Type 0) (L : TargetLib) (now : ℕ) where
  frame_of-Uncounted :
      (w : Result Text (Option (MiningWork L.Target))) → NoError w → Uncounted (frame_of F L now w)
  frame_of-Uncounted (ok none) h = tt
  frame_of-Uncounted (ok (some work)) h = tt
  frame_of-Uncounted (err e) h = absurd h

  ready_work-NoError :
      (s : MinerState F L.Target) (channel_id : Option ℕ) (prev_hash : Option SetNewPrevHash)
      (target : Option L.Target)
      → All (λ job. length job.merkle_root ≡ 32) s.jobs
      → SizedHash prev_hash
      → NoError (ready_work F L now s channel_id prev_hash target)
  ready_work-NoError s none prev_hash target h k = tt
  ready_work-NoError s (some channel_id) none target h k = tt
  ready_work-NoError s (some channel_id) (some prev_hash) none h k = tt
  ready_work-NoError s (some channel_id) (some prev_hash) (some target) h k =
      elim (find_job-sized prev_hash.job_id s.jobs h) [
        | inl e ↦ rw e tt
        | inr (job, e, size) ↦ rw e (rw (k, size) tt)
      ]

  active_work-Uncounted :
      (s : MinerState F L.Target)
      → SizedState s
      → Uncounted (frame_of F L now (active_work F L now s))
  unfolding active_work
  active_work-Uncounted s (h, k) =
      frame_of-Uncounted _ (ready_work-NoError s s.channel_id s.prev_hash s.pool_target h k)

  -- Only an accepted share is counted.
  abbrev pub Counts : Message → Result Text (FrameOutcome L.Target) → Type 0
  Counts shares_success r = r ≡ ok accepted_share
  Counts _ r = Uncounted r

  pub handle_frame-sized :
      (s : MinerState F L.Target) (message : Message)
      → SizedState s
      → IsSized message
      → SizedState (handle_frame F L now s message).0
        × Counts message (handle_frame F L now s message).1
  unfolding handle_frame update_prev_hash with_job
  handle_frame-sized s (open_success channel_id target) h size =
      rw (update_pool_target, size)
        (
          h,
          active_work-Uncounted
              (record s {
                channel_id = some channel_id;
                pool_target = some (L.from_le_bytes target);
              })
              h,
        )
  handle_frame-sized s (set_target target) h size =
      rw (update_pool_target, size)
        (h, active_work-Uncounted (record s { pool_target = some (L.from_le_bytes target) }) h)
  handle_frame-sized s (new_job job) h size =
      let kept : All (λ j. length j.merkle_root ≡ 32) (with_job job s.jobs) =
        All-append _ (retain (λ j. not (nat_beq j.job_id job.job_id)) s.jobs) (job ∷ [])
          (All-retain _ _ s.jobs h.0) (size, tt) in
      elim (Bool-cases (is_none job.min_ntime)) [
        | inl b ↦ rw (update_job, b) ((kept, h.1), tt)
        | inr b ↦
            rw (update_job, b)
              (
                (kept, h.1),
                active_work-Uncounted (record s { jobs = with_job job s.jobs }) (kept, h.1),
              )
      ]
  handle_frame-sized s (set_prev_hash prev_hash) h size =
      ((h.0, size), active_work-Uncounted (record s { prev_hash = some prev_hash }) (h.0, size))
  handle_frame-sized s shares_success h size = (h, refl)
  handle_frame-sized s other_message h size = (h, tt)
