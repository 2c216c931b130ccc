-- ===== src/Tests/Running.antt =====
-- A run of the test miner, and the routes of the dashboard.
use canary_mining.Common.{
  ℕ, ◌+◌, ◌≤◌, ◌≡◌, refl, arith, Option, some, none, List, [], ◌∷◌, leb, Result, ok, length, retain,
  if◌then◌else◌, sym, Bool-cases, inl, inr,
}
use canary_mining.Common.Text.Basic.{Text, codes, text_beq, text_beq_iff, strip_prefix}
use canary_mining.Common.Text.Inversion.{strip_prefix-eq-some}
use canary_mining.TestMiner.Work.{
  block_only, set_prev_hash, new_job, open_success, shares_success, new_state,
}
use canary_mining.TestMiner.Options.{TestMinerConfig, localhost}
use canary_mining.TestMiner.Main.{MinerEvent, share_found, frame, ended, not_stopped, Miner, loop}
use canary_mining.TestMiner.Main.{connected, setup_success}
use canary_mining.TestMiner.Outcome.{run_test_miner-ok}
use canary_mining.TestMiner.Run.{run_test_miner, setup_connection}
use canary_mining.TestMiner.Loop.{Follows}
use canary_mining.TestMiner.Stops.{running, number_of, timeouts, loop-Follows}
use canary_mining.TestMiner.Shares.{IsNumbered, loop-IsNumbered}
use canary_mining.TestMiner.Accepted.{awaited, accepted_in, loop-returns}
use canary_mining.Dashboard.Routes.{Pattern, exact, wildcard, routes}
use canary_mining.Dashboard.Routing.{RouterLib, answers, answers-routes}
use canary_mining.Tests.Searching.{targets, job, hash, zeros}

abbrev config : TestMinerConfig ℕ ℕ
config = record {
  pool_address = record { ip = localhost; port = 3333 };
  authority_public_key = 1;
  user_identity = codes "bcrt1q2nf.miner";
  device_id = codes "miner";
  nominal_hashrate = 10;
  timeout = 60;
  stop_after_accepted_blocks = 1;
  linger_after_accepted = 0;
  cores = 1;
  share_mode = block_only;
}

abbrev fresh : Miner ℕ ℕ
fresh = record {
  state = new_state (codes "bcrt1q2nf.miner") 10 block_only;
  current_workers = none;
  accepted_blocks = 0;
}

-- A channel is opened, a job comes with its hash, a share is found and accepted.
abbrev events : List MinerEvent
events =
    frame 1000 ended (some (ok (open_success 4 (zeros 32))))
    ∷ frame 1000 ended (some (ok (new_job (job 1))))
    ∷ frame 1000 ended (some (ok (set_prev_hash hash)))
    ∷ share_found
        (record {
          channel_id = 4;
          sequence_number = 0;
          job_id = 1;
          nonce = 7;
          ntime = 1000;
          version = 2;
        })
        (ok tt)
    ∷ frame 1001 not_stopped (some (ok shares_success))
    ∷ []

loop-Follows_example :
    Follows fresh (loop targets config fresh events)
    × (running (number_of fresh.current_workers) (loop targets config fresh events).actions
        ≤ number_of (loop targets config fresh events).miner.current_workers + timeouts events)
loop-Follows_example = loop-Follows targets config fresh events

loop-IsNumbered_example : IsNumbered fresh (loop targets config fresh events)
loop-IsNumbered_example = loop-IsNumbered targets config fresh events

loop-returns_example : (loop targets config fresh events).returned ≡ (
    if leb (awaited targets config) (0 + accepted_in events)
    then some (ok (awaited targets config))
    else none)
unfolding new_state
loop-returns_example =
    loop-returns targets config fresh events (tt, tt) (omega arith) (omega arith)
      (refl, (refl, (refl, (tt, (tt, tt)))))

run_test_miner-ok_example :
    (connected (some setup_success) ≡ connected (some setup_success))
    × (◌≡◌ {A = Result Text Unit} (ok tt) (ok tt))
    × (◌≡◌ {A = Result Text Unit} (ok tt) (ok tt))
    × (1 ≡ awaited targets config)
unfolding run_test_miner setup_connection accepted_in new_state
run_test_miner-ok_example =
    run_test_miner-ok targets config (omega arith) (connected (some setup_success)) (ok tt) (ok tt)
      events 1 loop-returns_example

abbrev capture : Pattern → Text → Option Text
capture (exact p) s = if text_beq p s then some [] else none
capture (wildcard p) s = strip_prefix p s

abbrev router : RouterLib
router = record {
  capture = capture;
  capture_exact = λ p s c h. elim (Bool-cases (text_beq p s)) [
    | inl b ↦ sym ((text_beq_iff p s).0 b)
    | inr b ↦ absurd (ground arith)
  ];
  capture_wildcard = strip_prefix-eq-some;
}

answers-routes_example : length (retain (answers router (codes "/app.js")) routes) ≤ 1
answers-routes_example = answers-routes router (codes "/app.js")
