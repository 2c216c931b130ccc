-- ===== src/Tests/Searching.antt =====
-- The test miner at small inputs.
use canary_mining.Common.{ℕ, zero, suc, List, ◌≡◌, refl, arith, false, some, [], ◌∷◌, nat_beq}
use canary_mining.Common.Text.Basic.{codes}
use canary_mining.TestMiner.Search.{mine_worker, share}
use canary_mining.TestMiner.Partition.{first_header}
use canary_mining.TestMiner.Work.{
  block_only, NewMiningJob, SetNewPrevHash, new_job, TargetLib, MinerState, handle_frame, frame_of,
  active_work, find_job, handle_frame-other_job,
}

-- Of three workers the second one finds the nonce 7 in its third round.
first_header_example :
    mine_worker false (λ nonce ntime. nat_beq nonce 7) 1000 1 3 (false ∷ false ∷ false ∷ false ∷ [])
    ≡ share 7 1000
first_header_example =
    first_header (λ nonce ntime. nat_beq nonce 7) 1000 3 7 (false ∷ false ∷ false ∷ false ∷ [])
      (omega arith) (omega arith) (omega arith) (refl, (refl, (refl, (refl, tt)))) (omega arith)
      (λ m h. ground (arith, h)) refl

abbrev pub zeros : ℕ → List ℕ
zeros zero = []
zeros (suc n) = 0 ∷ zeros n

abbrev pub targets : TargetLib
targets = record { Target = ℕ; from_le_bytes = λ bytes. 1; from_nbits = λ nbits. nbits }

abbrev pub hash : SetNewPrevHash
hash = record { job_id = 1; prev_hash = zeros 32; min_ntime = 900; nbits = 5 }

abbrev pub job : ℕ → NewMiningJob
job id = record { job_id = id; version = 2; merkle_root = zeros 32; min_ntime = some 900 }

abbrev mining : MinerState ℕ ℕ
mining = record {
  user_identity = codes "bcrt1q2nf.miner";
  nominal_hashrate = 10;
  share_mode = block_only;
  channel_id = some 4;
  sequence_number = 0;
  pool_target = some 1;
  jobs = job 1 ∷ [];
  prev_hash = some hash;
}

handle_frame-other_job_example :
    ((handle_frame ℕ targets 1000 mining (new_job (job 2))).1
      ≡ frame_of ℕ targets 1000 (active_work ℕ targets 1000 mining))
    × (find_job 2 (handle_frame ℕ targets 1000 mining (new_job (job 2))).0.jobs ≡ some (job 2))
    × ((handle_frame ℕ targets 1000 mining (new_job (job 2))).0.prev_hash ≡ some hash)
handle_frame-other_job_example =
    handle_frame-other_job ℕ targets 1000 mining (job 2) hash 900 refl refl
      (λ e. absurd (omega (arith, e)))
