-- ===== src/TestMiner/Accepted.antt =====
-- When the test miner returns, and with what number.
use canary_mining.Common.{
  ℕ, ◌+◌, ◌%◌, ◌^◌, ◌<◌, max, true, false, ◌≡◌, ◌⊎◌, refl, sym, ap, ◌∙◌, arith, Option, none, some,
  List, [], ◌∷◌, if◌then◌else◌, leb, Result, ok, err, Bool-cases, inl, inr, All,
}
use canary_mining.Common.Text.Basic.{Text}
use canary_mining.TestMiner.Work.{
  FrameOutcome, no_work, new_work, accepted_share, Message, TargetLib, open_success, set_target,
  new_job, set_prev_hash, shares_success, other_message, handle_frame, next_sequence_number,
}
use canary_mining.TestMiner.Options.{TestMinerConfig}
use canary_mining.TestMiner.Main.{
  Stopping, MinerEvent, timer, signal, share_found, frame, Miner, LoopStep, continue, restart,
  count_block, submit, on_outcome, turn, loop,
}
use canary_mining.TestMiner.Loop.{loop-go, loop-stop}
use canary_mining.TestMiner.Sized.{IsSized, SizedState, Uncounted, handle_frame-sized}

-- The events of a run without errors, before its end.
abbrev pub IsCalm : MinerEvent → Type 0
IsCalm (share_found found (ok u)) = Unit
IsCalm (frame now stopping (some (ok message))) = IsSized message
IsCalm _ = ⊥

unfoldable pub accepted_in : List MinerEvent → ℕ
accepted_in [] = 0
accepted_in (frame now stopping (some (ok shares_success)) ∷ events) = 1 + accepted_in events
accepted_in (_ ∷ events) = accepted_in events

module _ {F P : Type 0} (L : TargetLib) (config : TestMinerConfig F P) where
  -- The number of accepted blocks that the miner waits for: at least one.
  abbrev pub awaited : ℕ
  awaited = max 1 config.stop_after_accepted_blocks

  abbrev Result_of : ℕ → Option (Result Text ℕ)
  Result_of n = if leb awaited n then some (ok awaited) else none

  -- A turn keeps the state and the count, or counts one more block.
  abbrev Uncounting : Miner F L.Target → LoopStep F L.Target → Type 0
  Uncounting s step =
      (step.returned ≡ none)
      × (step.miner.accepted_blocks ≡ s.accepted_blocks)
      × SizedState step.miner.state

  abbrev Counting : Miner F L.Target → LoopStep F L.Target → Type 0
  Counting s step =
      (step.returned ≡ Result_of (s.accepted_blocks + 1))
      × (step.miner.accepted_blocks ≡ s.accepted_blocks + 1)
      × SizedState step.miner.state

  Uncounted-on_outcome :
      (stopping : Stopping) (s : Miner F L.Target) (outcome : Result Text (FrameOutcome L.Target))
      → Uncounted outcome
      → SizedState s.state
      → Uncounting s (on_outcome config stopping s outcome)
  unfolding continue restart
  Uncounted-on_outcome stopping s (ok no_work) u h = (refl, refl, h)
  Uncounted-on_outcome stopping s (ok (new_work work)) u h = (refl, refl, h)
  Uncounted-on_outcome stopping s (ok accepted_share) u h = absurd u
  Uncounted-on_outcome stopping s (err e) u h = absurd u

  Counting-on_outcome :
      (stopping : Stopping) (s : Miner F L.Target)
      → s.accepted_blocks < awaited
      → awaited < 2 ^ 32
      → SizedState s.state
      → Counting s (on_outcome config stopping s (ok accepted_share))
  unfolding count_block continue
  Counting-on_outcome stopping s below small h =
      let n : (s.accepted_blocks + 1) % 2 ^ 32 ≡ s.accepted_blocks + 1 =
        omega (arith, below, small) in
      elim (Bool-cases (leb config.stop_after_accepted_blocks (s.accepted_blocks + 1))) [
        | inl b ↦
            let last : awaited ≡ s.accepted_blocks + 1 = ground (arith, below) in
            let here : leb awaited (s.accepted_blocks + 1) ≡ true = ground (arith, last) in
            rw (n, b) (rw here (ap (λ m. some (ok m)) (sym last)), refl, h)
        | inr b ↦
            let more : leb awaited (s.accepted_blocks + 1) ≡ false = ground arith in
            rw (n, b) (rw more refl, refl, h)
      ]

  abbrev Turned : Miner F L.Target → MinerEvent → List MinerEvent → Type 0
  Turned s event events =
      (Uncounting s (turn L config s event) × (accepted_in (event ∷ events) ≡ accepted_in events))
      ⊎ (Counting s (turn L config s event)
          × (accepted_in (event ∷ events) ≡ 1 + accepted_in events))

  module _ (s : Miner F L.Target) (h : SizedState s.state) (below : s.accepted_blocks < awaited)
      (small : awaited < 2 ^ 32) where
    other_turn :
        (now : ℕ) (stopping : Stopping) (message : Message)
        → IsSized message
        → Uncounted (handle_frame F L now s.state message).1
        → Uncounting s (turn L config s (frame now stopping (some (ok message))))
    unfolding turn
    other_turn now stopping message size u =
        Uncounted-on_outcome stopping
          (record s { state = (handle_frame F L now s.state message).0 }) _ u
          (handle_frame-sized F L now s.state message h size).0

    calm_turn :
        (event : MinerEvent) (events : List MinerEvent) → IsCalm event → Turned s event events
    unfolding accepted_in
    calm_turn (share_found found (ok u)) events c =
        inl (unfold turn submit next_sequence_number in (refl, refl, h), refl)
    calm_turn (frame now stopping (some (ok shares_success))) events c =
        inr (unfold turn handle_frame in Counting-on_outcome stopping s below small h, refl)
    calm_turn (frame now stopping (some (ok (open_success channel_id target)))) events c = inl (
      other_turn now stopping (open_success channel_id target) c
          (handle_frame-sized F L now s.state (open_success channel_id target) h c).1,
      refl,
    )
    calm_turn (frame now stopping (some (ok (set_target target)))) events c = inl (
      other_turn now stopping (set_target target) c
          (handle_frame-sized F L now s.state (set_target target) h c).1,
      refl,
    )
    calm_turn (frame now stopping (some (ok (new_job job)))) events c = inl (
      other_turn now stopping (new_job job) c
          (handle_frame-sized F L now s.state (new_job job) h c).1,
      refl,
    )
    calm_turn (frame now stopping (some (ok (set_prev_hash prev_hash)))) events c = inl (
      other_turn now stopping (set_prev_hash prev_hash) c
          (handle_frame-sized F L now s.state (set_prev_hash prev_hash) h c).1,
      refl,
    )
    calm_turn (frame now stopping (some (ok other_message))) events c = inl (
      other_turn now stopping other_message c
          (handle_frame-sized F L now s.state other_message h c).1,
      refl,
    )
    calm_turn (share_found found (err u)) events c = absurd c
    calm_turn (timer stopping) events c = absurd c
    calm_turn (signal stopping r) events c = absurd c
    calm_turn (frame now stopping none) events c = absurd c
    calm_turn (frame now stopping (some (err e))) events c = absurd c

  -- If no error, timeout or signal comes and the messages have hashes and targets of 32 bytes, then
  -- the miner returns exactly when as many shares were accepted as it waits for, at least one, and
  -- it returns that number.
  pub loop-returns :
      (s : Miner F L.Target) (events : List MinerEvent)
      → SizedState s.state
      → s.accepted_blocks < awaited
      → awaited < 2 ^ 32
      → All IsCalm events
      → (loop L config s events).returned
        ≡ (if leb awaited (s.accepted_blocks + accepted_in events) then some (ok awaited) else none)
  unfolding loop continue accepted_in
  loop-returns s [] h below small calm =
      let more : leb awaited (s.accepted_blocks + 0) ≡ false = ground arith in rw more refl
  loop-returns s (event ∷ events) h below small calm =
      let step = turn L config s event in
      let from : ℕ → Option (Result Text ℕ) =
        λ n. if leb awaited n then some (ok awaited) else none in
      elim (calm_turn s h below small event events calm.0) [
        | inl ((none_yet, same, h'), n) ↦
            ap (λ x. x.returned) (loop-go L config s event events none_yet)
            ∙ (loop-returns step.miner events h' (omega (arith, same, below)) small calm.1
                ∙ ap from (omega (arith, same, n)))
        | inr ((result, more, h'), n) ↦ elim (Bool-cases (leb awaited (s.accepted_blocks + 1))) [
          | inl b ↦
              let full : leb awaited (s.accepted_blocks + accepted_in (event ∷ events)) ≡ true =
                ground (arith, n, b) in
              ap (λ x. x.returned)
                (loop-stop L config s event events (ok awaited) (result ∙ rw b refl))
              ∙ (result ∙ rw (b, full) refl)
          | inr b ↦
              ap (λ x. x.returned) (loop-go L config s event events (result ∙ rw b refl))
              ∙ (loop-returns step.miner events h' (ground (arith, more, b)) small calm.1
                  ∙ ap from (omega (arith, more, n)))
        ]
      ]
