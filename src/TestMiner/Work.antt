-- ===== src/TestMiner/Work.antt =====
-- The state of the miner and the work that it makes of the messages of the pool: `MinerState` and
-- `handle_frame`.
use canary_mining.Common.{
  ℕ, ◌+◌, ◌%◌, ◌^◌, max, ◌≡◌, ◌≢◌, refl, ap, sym, subst, arith, false, not, Option, none, some,
  List, [], ◌∷◌, ◌++◌, retain, length, if◌then◌else◌, is_none, nat_beq, Result, ok, err, ◌>>=◌,
  Bool-cases, inl, inr,
}
use canary_mining.Common.Text.Basic.{Text, codes}

pub data ShareMode : Type 0 where
  block_only pool_target : ShareMode

-- The messages of the library that are used, by the fields that are read.
pub record NewMiningJob : Type 0 where
  pub job_id : ℕ
  pub version : ℕ
  pub merkle_root : List ℕ
  pub min_ntime : Option ℕ

pub record SetNewPrevHash : Type 0 where
  pub job_id : ℕ
  pub prev_hash : List ℕ
  pub min_ntime : ℕ
  pub nbits : ℕ

-- A message, but for those that only the log shows.
pub data Message : Type 0 where
  open_success : ℕ → List ℕ → Message
  set_target : List ℕ → Message
  new_job : NewMiningJob → Message
  set_prev_hash : SetNewPrevHash → Message
  shares_success : Message
  other_message : Message

-- `Target` of the crate bitcoin, from bytes and from the compact form.
pub record TargetLib : Type 1 where
  pub Target : Type 0
  pub from_le_bytes : List ℕ → Target
  pub from_nbits : ℕ → Target

pub record MiningWork (T : Type 0) : Type 0 where
  pub channel_id : ℕ
  pub job_id : ℕ
  pub version : ℕ
  pub prev_hash : List ℕ
  pub merkle_root : List ℕ
  pub nbits : ℕ
  pub ntime : ℕ
  pub target : T

pub record MinerState (F T : Type 0) : Type 0 where
  pub user_identity : Text
  pub nominal_hashrate : F
  pub share_mode : ShareMode
  pub channel_id : Option ℕ
  pub sequence_number : ℕ
  pub pool_target : Option T
  pub jobs : List NewMiningJob
  pub prev_hash : Option SetNewPrevHash

pub data FrameOutcome (T : Type 0) : Type 0 where
  no_work : FrameOutcome T
  new_work : MiningWork T → FrameOutcome T
  accepted_share : FrameOutcome T

unfoldable pub new_state : {F T : Type 0} → Text → F → ShareMode → MinerState F T
new_state user_identity nominal_hashrate share_mode = record {
  user_identity = user_identity;
  nominal_hashrate = nominal_hashrate;
  share_mode = share_mode;
  channel_id = none;
  sequence_number = 0;
  pool_target = none;
  jobs = [];
  prev_hash = none;
}

unfoldable pub next_sequence_number : {F T : Type 0} → MinerState F T → MinerState F T × ℕ
next_sequence_number s =
    let next = (s.sequence_number + 1) % 2 ^ 32 in (record s { sequence_number = next }, next)

abbrev pub find_job : ℕ → List NewMiningJob → Option NewMiningJob
find_job id [] = none
find_job id (job ∷ jobs) = if nat_beq job.job_id id then some job else find_job id jobs

unfoldable pub with_job : NewMiningJob → List NewMiningJob → List NewMiningJob
unfolding retain
with_job job jobs = retain (λ existing. not (nat_beq existing.job_id job.job_id)) jobs ++ (job ∷ [])

-- A conversion to an array of 32 bytes.
abbrev pub bytes_32 : Text → List ℕ → Result Text (List ℕ)
bytes_32 message bytes = if nat_beq (length bytes) 32 then ok bytes else err message

module _ (F : Type 0) (L : TargetLib) (now : ℕ) where
  abbrev pub Work : Type 0
  Work = Result Text (Option (MiningWork L.Target))

  abbrev pub target_of : ShareMode → SetNewPrevHash → L.Target → L.Target
  target_of block_only prev_hash target = L.from_nbits prev_hash.nbits
  target_of pool_target prev_hash target = target

  abbrev pub work_of :
      MinerState F L.Target → ℕ → SetNewPrevHash → L.Target → Option NewMiningJob → Work
  work_of s channel_id prev_hash target none = ok none
  work_of s channel_id prev_hash target (some job) = do
    hash ← bytes_32 (codes "prev_hash was not 32 bytes") prev_hash.prev_hash
    root ← bytes_32 (codes "merkle_root was not 32 bytes") job.merkle_root
    ok (
        some (record {
          channel_id = channel_id;
          job_id = job.job_id;
          version = job.version;
          prev_hash = hash;
          merkle_root = root;
          nbits = prev_hash.nbits;
          ntime = max now prev_hash.min_ntime;
          target = target_of s.share_mode prev_hash target;
        }))

  -- The early returns, in their order.
  abbrev pub ready_work :
      MinerState F L.Target → Option ℕ → Option SetNewPrevHash → Option L.Target → Work
  ready_work s none prev_hash target = ok none
  ready_work s (some channel_id) none target = ok none
  ready_work s (some channel_id) (some prev_hash) none = ok none
  ready_work s (some channel_id) (some prev_hash) (some target) =
      work_of s channel_id prev_hash target (find_job prev_hash.job_id s.jobs)

  unfoldable pub active_work : MinerState F L.Target → Work
  active_work s = ready_work s s.channel_id s.prev_hash s.pool_target

  unfoldable pub update_job : MinerState F L.Target → NewMiningJob → MinerState F L.Target × Work
  unfolding active_work with_job
  update_job s job =
      let s' = record s { jobs = with_job job s.jobs } in
      if is_none job.min_ntime then (s', ok none) else (s', active_work s')

  unfoldable pub update_prev_hash :
      MinerState F L.Target → SetNewPrevHash → MinerState F L.Target × Work
  unfolding active_work
  update_prev_hash s prev_hash =
      let s' = record s { prev_hash = some prev_hash } in (s', active_work s')

  unfoldable pub update_pool_target : MinerState F L.Target → List ℕ → MinerState F L.Target × Work
  unfolding active_work
  update_pool_target s bytes =
      let s' = record s { pool_target = some (L.from_le_bytes bytes) } in
      if nat_beq (length bytes) 32
      then (s', active_work s')
      else (s, err (codes "pool target was not 32 bytes"))

  abbrev pub frame_of : Work → Result Text (FrameOutcome L.Target)
  frame_of (err e) = err e
  frame_of (ok none) = ok no_work
  frame_of (ok (some work)) = ok (new_work work)

  abbrev pub outcome_of :
      MinerState F L.Target × Work → MinerState F L.Target × Result Text (FrameOutcome L.Target)
  outcome_of (s, work) = (s, frame_of work)

  -- `handle_frame`, from the message that a frame holds.
  unfoldable pub handle_frame :
      MinerState F L.Target → Message → MinerState F L.Target × Result Text (FrameOutcome L.Target)
  unfolding update_job update_prev_hash update_pool_target
  handle_frame s (open_success channel_id target) =
      outcome_of (update_pool_target (record s { channel_id = some channel_id }) target)
  handle_frame s (set_target target) = outcome_of (update_pool_target s target)
  handle_frame s (new_job job) = outcome_of (update_job s job)
  handle_frame s (set_prev_hash prev_hash) = outcome_of (update_prev_hash s prev_hash)
  handle_frame s shares_success = (s, ok accepted_share)
  handle_frame s other_message = (s, ok no_work)

find_job-skip :
    (id : ℕ) (job : NewMiningJob)
    → nat_beq job.job_id id ≡ false
    → (jobs : List NewMiningJob) → find_job id (with_job job jobs) ≡ find_job id jobs
unfolding with_job retain
find_job-skip id job e [] = rw e refl
find_job-skip id job e (existing ∷ jobs) = elim (Bool-cases (nat_beq existing.job_id job.job_id)) [
  | inl same ↦
      let other : nat_beq existing.job_id id ≡ false = ground (arith, same, e) in
      rw (same, other) (find_job-skip id job e jobs)
  | inr differs ↦ elim (Bool-cases (nat_beq existing.job_id id)) [
    | inl found ↦ rw (differs, found) refl
    | inr not_here ↦ rw (differs, not_here) (find_job-skip id job e jobs)
  ]
]

same_work :
    (F : Type 0) (L : TargetLib) (now : ℕ) (s : MinerState F L.Target) (job : NewMiningJob)
    (channel_id : Option ℕ) (prev_hash : SetNewPrevHash) (target : Option L.Target)
    → job.job_id ≢ prev_hash.job_id
    → ready_work F L now
        (record s { jobs = with_job job s.jobs })
        channel_id
        (some prev_hash)
        target
      ≡ ready_work F L now s channel_id (some prev_hash) target
same_work F L now s job none prev_hash target d = refl
same_work F L now s job (some channel_id) prev_hash none d = refl
same_work F L now s job (some channel_id) prev_hash (some target) d =
    ap (work_of F L now s channel_id prev_hash target)
      (find_job-skip prev_hash.job_id job (ground (arith, d)) s.jobs)

find_job-with_job :
    (job : NewMiningJob) (jobs : List NewMiningJob)
    → find_job job.job_id (with_job job jobs) ≡ some job
unfolding with_job retain
find_job-with_job job [] = ground arith
find_job-with_job job (existing ∷ jobs) = elim (Bool-cases (nat_beq existing.job_id job.job_id)) [
  | inl same ↦ rw same (find_job-with_job job jobs)
  | inr differs ↦ rw (differs, differs) (find_job-with_job job jobs)
]

-- When a job comes that is to be mined at once, but is not the one that the last hash was announced
-- with, then it is not mined at once: the outcome of its frame is that of the work that there was
-- before. The job is kept under its id, and the last hash stays.
pub handle_frame-other_job :
    (F : Type 0) (L : TargetLib) (now : ℕ) (s : MinerState F L.Target) (job : NewMiningJob)
    (prev_hash : SetNewPrevHash) (ntime : ℕ)
    → job.min_ntime ≡ some ntime
    → s.prev_hash ≡ some prev_hash
    → job.job_id ≢ prev_hash.job_id
    → ((handle_frame F L now s (new_job job)).1 ≡ frame_of F L now (active_work F L now s))
      × (find_job job.job_id (handle_frame F L now s (new_job job)).0.jobs ≡ some job)
      × ((handle_frame F L now s (new_job job)).0.prev_hash ≡ some prev_hash)
unfolding handle_frame update_job active_work
handle_frame-other_job F L now s job prev_hash ntime e h d =
    let now_due : is_none job.min_ntime ≡ false = ap (is_none) e in
    let s' : MinerState F L.Target = record s { jobs = with_job job s.jobs } in
    rw now_due (
      ap (frame_of F L now) (
          subst
            (λ o.
              ready_work F L now s' s.channel_id o s.pool_target
              ≡ ready_work F L now s s.channel_id o s.pool_target)
            (sym h) (same_work F L now s job s.channel_id prev_hash s.pool_target d)),
      find_job-with_job job s.jobs,
      h,
    )
