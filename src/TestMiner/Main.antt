-- ===== src/TestMiner/Main.antt =====
-- The main loop of the test miner, in `run_test_miner`, with its data. What the
-- socket, the timer and the signal do is a list of events, and what the miner does a list of actions.
use canary_mining.Common.{
  ℕ, zero, suc, ◌+◌, ◌%◌, ◌^◌, max, Option, none, some, List, [], ◌∷◌, ◌++◌, if◌then◌else◌, leb,
  nat_beq, Result, ok, err,
}
use canary_mining.Common.Text.Basic.{Text, codes}
use canary_mining.TestMiner.Work.{
  MiningWork, MinerState, FrameOutcome, no_work, new_work, accepted_share, Message, TargetLib,
  next_sequence_number, handle_frame,
}
use canary_mining.TestMiner.Options.{SocketAddr, TestMinerConfig}

pub record FoundShare : Type 0 where
  pub channel_id : ℕ
  pub sequence_number : ℕ
  pub job_id : ℕ
  pub nonce : ℕ
  pub ntime : ℕ
  pub version : ℕ

-- The messages that are sent. The texts are taken to fit the 255 bytes of a message's string.
pub record SetupConnection : Type 0 where
  pub min_version : ℕ
  pub max_version : ℕ
  pub flags : ℕ
  pub endpoint : SocketAddr
  pub vendor : Text
  pub hardware_version : Text
  pub firmware : Text
  pub device_id : Text

pub record OpenStandardMiningChannel (F : Type 0) : Type 0 where
  pub request_id : ℕ
  pub user_identity : Text
  pub nominal_hash_rate : F
  pub max_target : List ℕ

abbrev pub repeated : ℕ → ℕ → List ℕ
repeated zero byte = []
repeated (suc n) byte = byte ∷ repeated n byte

unfoldable pub open_channel : {F T : Type 0} → MinerState F T → OpenStandardMiningChannel F
open_channel s = record {
  request_id = 1;
  user_identity = s.user_identity;
  nominal_hash_rate = s.nominal_hashrate;
  max_target = repeated 32 0xff;
}

pub data SetupResponse : Type 0 where
  setup_success : SetupResponse
  setup_error : Text → SetupResponse
  unexpected_response : SetupResponse

-- What the connection gives: no socket in time, no socket, no handshake, or a response if one comes.
pub data Connecting : Type 0 where
  connect_timeout connect_failed noise_failed : Connecting
  connected : Option SetupResponse → Connecting

-- How the two seconds end in which `stop_workers` waits for the task of the workers: it ends, it was
-- cancelled, it failed, or it has not stopped.
pub data Stopping : Type 0 where
  ended task_cancelled task_failed not_stopped : Stopping

-- The branches of the loop's `select`, each with how the waiting ends if workers are stopped. A frame
-- comes with the time of its handling; it may be the end of the connection, or be no message. A share
-- comes with what its sending gives.
pub data MinerEvent : Type 0 where
  timer : Stopping → MinerEvent
  signal : Stopping → Result Text Unit → MinerEvent
  share_found : FoundShare → Result Text Unit → MinerEvent
  frame : ℕ → Stopping → Option (Result Text Message) → MinerEvent

pub data MinerAction (F T : Type 0) : Type 0 where
  setup : SetupConnection → MinerAction F T
  open_message : OpenStandardMiningChannel F → MinerAction F T
  send : FoundShare → MinerAction F T
  start_workers : MiningWork T → ℕ → MinerAction F T
  stop_workers : MiningWork T → Stopping → MinerAction F T
  linger : ℕ → MinerAction F T

-- The variables of the loop; the workers by their work.
pub record Miner (F T : Type 0) : Type 0 where
  pub state : MinerState F T
  pub current_workers : Option (MiningWork T)
  pub accepted_blocks : ℕ

-- The loop goes on, or returns.
pub record LoopStep (F T : Type 0) : Type 0 where
  pub miner : Miner F T
  pub returned : Option (Result Text ℕ)
  pub actions : List (MinerAction F T)

abbrev pub worker_count : ℕ → ℕ
worker_count cores = max cores 1

module _ {F T : Type 0} where
  -- The workers on a work are told to stop and waited for; however the waiting ends, the caller goes on.
  abbrev pub stop_actions : Stopping → Option (MiningWork T) → List (MinerAction F T)
  stop_actions stopping none = []
  stop_actions stopping (some work) = stop_workers work stopping ∷ []

  -- `stop_workers(current_workers.take())`.
  abbrev pub stopped : Miner F T → Miner F T
  stopped s = record s { current_workers = none }

  unfoldable pub fail_stopped : Stopping → Miner F T → Text → LoopStep F T
  fail_stopped stopping s reason = record {
    miner = stopped s;
    returned = some (err reason);
    actions = stop_actions stopping s.current_workers;
  }

  -- An error that `?` returns: the workers are not stopped.
  unfoldable pub fail : Miner F T → Text → LoopStep F T
  fail s reason = record { miner = s; returned = some (err reason); actions = [] }

  unfoldable pub continue : Miner F T → LoopStep F T
  continue s = record { miner = s; returned = none; actions = [] }

  unfoldable pub restart : Stopping → ℕ → Miner F T → MiningWork T → LoopStep F T
  restart stopping cores s work = record {
    miner = record s { current_workers = some work };
    returned = none;
    actions =
        stop_actions stopping s.current_workers ++ start_workers work (worker_count cores) ∷ [];
  }

  abbrev pub linger_actions : ℕ → List (MinerAction F T)
  linger_actions seconds = if nat_beq seconds 0 then [] else linger seconds ∷ []

  unfoldable pub count_block : Stopping → ℕ → ℕ → Miner F T → LoopStep F T
  unfolding continue
  count_block stopping stop_after linger_after s =
      let s' = record s { accepted_blocks = (s.accepted_blocks + 1) % 2 ^ 32 } in
      if leb stop_after s'.accepted_blocks
      then record {
        miner = stopped s';
        returned = some (ok s'.accepted_blocks);
        actions = stop_actions stopping s.current_workers ++ linger_actions linger_after;
      }
      else continue s'

  unfoldable pub submit : Miner F T → FoundShare → Result Text Unit → LoopStep F T
  unfolding next_sequence_number fail
  submit s found (ok u) =
      let (state, number) = next_sequence_number s.state in
      record {
        miner = record s { state = state };
        returned = none;
        actions = send (record found { sequence_number = number }) ∷ [];
      }
  submit s found (err reason) = fail (record s { state = (next_sequence_number s.state).0 }) reason

  abbrev pub on_outcome :
      {P : Type 0}
      → TestMinerConfig F P
      → Stopping
      → Miner F T
      → Result Text (FrameOutcome T)
      → LoopStep F T
  on_outcome config stopping s (err reason) = fail s reason
  on_outcome config stopping s (ok no_work) = continue s
  on_outcome config stopping s (ok (new_work work)) = restart stopping config.cores s work
  on_outcome config stopping s (ok accepted_share) =
      count_block stopping config.stop_after_accepted_blocks config.linger_after_accepted s

-- A turn that does not return is followed by the rest of the loop.
abbrev pub go_on :
    {F T : Type 0} → Option (Result Text ℕ) → LoopStep F T → LoopStep F T → LoopStep F T
go_on none step rest = record rest { actions = step.actions ++ rest.actions }
go_on (some result) step rest = step

module _ {F P : Type 0} (L : TargetLib) (config : TestMinerConfig F P) where
  -- One turn of the loop.
  unfoldable pub turn : Miner F L.Target → MinerEvent → LoopStep F L.Target
  unfolding fail_stopped fail submit continue restart count_block
  turn s (timer stopping) = fail_stopped stopping s (codes "native SV2 miner timed out")
  turn s (signal stopping (ok u)) = fail_stopped stopping s (codes "native SV2 miner interrupted")
  turn s (signal stopping (err e)) = fail_stopped stopping s (codes "failed to listen for Ctrl-C")
  turn s (share_found found sent) = submit s found sent
  turn s (frame now stopping none) = fail s (codes "SV2 connection closed by pool")
  turn s (frame now stopping (some (err reason))) = fail s reason
  turn s (frame now stopping (some (ok message))) =
      let (state, outcome) = handle_frame F L now s.state message in
      on_outcome config stopping (record s { state = state }) outcome

  -- The loop over the events that come; it has not returned when they are used up.
  unfoldable pub loop : Miner F L.Target → List MinerEvent → LoopStep F L.Target
  unfolding continue
  loop s [] = continue s
  loop s (event ∷ events) =
      let step = turn s event in let rest = loop step.miner events in go_on step.returned step rest
