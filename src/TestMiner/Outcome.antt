-- ===== src/TestMiner/Outcome.antt =====
-- What a run of the test miner returns, whatever happens in it.
use canary_mining.Common.{
  ℕ, ◌+◌, ◌%◌, ◌^◌, ◌<◌, ◌≡◌, refl, sym, subst, arith, Option, none, some, List, [], ◌∷◌, leb,
  Result, ok, err, Bool-cases, Option-cases, inl, inr,
}
use canary_mining.Common.Text.Basic.{Text}
use canary_mining.TestMiner.Work.{
  FrameOutcome, no_work, new_work, accepted_share, TargetLib, handle_frame, next_sequence_number,
}
use canary_mining.TestMiner.Options.{TestMinerConfig}
use canary_mining.TestMiner.Main.{
  Stopping, MinerEvent, timer, signal, share_found, frame, Miner, LoopStep, Connecting,
  connect_timeout, connect_failed, noise_failed, connected, setup_success, setup_error,
  unexpected_response, fail_stopped, fail, continue, restart, count_block, submit, on_outcome, turn,
  loop,
}
use canary_mining.TestMiner.Run.{setup_connection, run_test_miner, fresh_miner}
use canary_mining.TestMiner.Loop.{loop-go, loop-stop}
use canary_mining.TestMiner.Accepted.{awaited}

module _ {F P : Type 0} (L : TargetLib) (config : TestMinerConfig F P) where
  -- A number that is returned is the awaited one; while the miner goes on, fewer were accepted.
  abbrev IsAwaited : Option (Result Text ℕ) → ℕ → Type 0
  IsAwaited none accepted = accepted < awaited L config
  IsAwaited (some (ok n)) accepted = n ≡ awaited L config
  IsAwaited (some (err e)) accepted = Unit

  abbrev Awaits : LoopStep F L.Target → Type 0
  Awaits step = IsAwaited step.returned step.miner.accepted_blocks

  module _ (small : awaited L config < 2 ^ 32) where
    on_outcome-Awaits :
        (stopping : Stopping) (s : Miner F L.Target) (outcome : Result Text (FrameOutcome L.Target))
        → s.accepted_blocks < awaited L config
        → Awaits (on_outcome config stopping s outcome)
    unfolding fail continue restart count_block
    on_outcome-Awaits stopping s (err e) below = tt
    on_outcome-Awaits stopping s (ok no_work) below = below
    on_outcome-Awaits stopping s (ok (new_work work)) below = below
    on_outcome-Awaits stopping s (ok accepted_share) below =
        let n : (s.accepted_blocks + 1) % 2 ^ 32 ≡ s.accepted_blocks + 1 =
          omega (arith, below, small) in
        elim (Bool-cases (leb config.stop_after_accepted_blocks (s.accepted_blocks + 1))) [
          | inl b ↦ rw (n, b) (ground (arith, below))
          | inr b ↦ rw (n, b) (ground (arith, below))
        ]

    turn-Awaits :
        (s : Miner F L.Target) (event : MinerEvent)
        → s.accepted_blocks < awaited L config
        → Awaits (turn L config s event)
    unfolding turn fail_stopped fail submit next_sequence_number
    turn-Awaits s (timer stopping) below = tt
    turn-Awaits s (signal stopping (ok u)) below = tt
    turn-Awaits s (signal stopping (err e)) below = tt
    turn-Awaits s (share_found found (ok u)) below = below
    turn-Awaits s (share_found found (err e)) below = tt
    turn-Awaits s (frame now stopping none) below = tt
    turn-Awaits s (frame now stopping (some (err e))) below = tt
    turn-Awaits s (frame now stopping (some (ok message))) below =
        let (state, outcome) = handle_frame F L now s.state message in
        on_outcome-Awaits stopping (record s { state = state }) outcome below

    loop-Awaits :
        (s : Miner F L.Target) (events : List MinerEvent)
        → s.accepted_blocks < awaited L config
        → Awaits (loop L config s events)
    unfolding loop continue
    loop-Awaits s [] below = below
    loop-Awaits s (event ∷ events) below =
        let step = turn L config s event in
        let turned = turn-Awaits s event below in
        elim (Option-cases (step.returned)) [
          | inl e ↦ subst Awaits (sym (loop-go L config s event events e)) (
              loop-Awaits step.miner events
                (subst (λ o. IsAwaited o step.miner.accepted_blocks) e turned))
          | inr (r, e) ↦ subst Awaits (sym (loop-stop L config s event events r e)) turned
        ]

    -- If the test miner returns a number, then it was connected, its first two messages were sent, the
    -- setup was accepted in between, and the number is that of the accepted blocks that it is told to
    -- wait for, or one if it is told none. That number is taken to be below 2 ^ 32.
    pub run_test_miner-ok :
        (connecting : Connecting) (sent opened : Result Text Unit) (events : List MinerEvent)
        (n : ℕ)
        → (run_test_miner L config connecting sent opened events).returned ≡ some (ok n)
        → (connecting ≡ connected (some setup_success))
          × (sent ≡ ok tt)
          × (opened ≡ ok tt)
          × (n ≡ awaited L config)
    unfolding run_test_miner setup_connection fail
    run_test_miner-ok connect_timeout sent opened events n h = absurd (ground (arith, h))
    run_test_miner-ok connect_failed sent opened events n h = absurd (ground (arith, h))
    run_test_miner-ok noise_failed sent opened events n h = absurd (ground (arith, h))
    run_test_miner-ok (connected response) (err e) opened events n h = absurd (ground (arith, h))
    run_test_miner-ok (connected none) (ok u) opened events n h = absurd (ground (arith, h))
    run_test_miner-ok (connected (some setup_success)) (ok u) (ok v) events n h =
        let step = loop L config (fresh_miner L config) events in
        (
          refl,
          refl,
          refl,
          subst (λ o. IsAwaited o step.miner.accepted_blocks) h
              (loop-Awaits (fresh_miner L config) events (omega arith)),
        )
    run_test_miner-ok (connected (some setup_success)) (ok u) (err e) events n h =
        absurd (ground (arith, h))
    run_test_miner-ok (connected (some (setup_error code))) (ok u) opened events n h =
        absurd (ground (arith, h))
    run_test_miner-ok (connected (some unexpected_response)) (ok u) opened events n h =
        absurd (ground (arith, h))
