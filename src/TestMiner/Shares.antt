-- ===== src/TestMiner/Shares.antt =====
-- The sequence numbers of the shares that the test miner sends.
use canary_mining.Common.{
  ℕ, ◌+◌, ◌%◌, ◌^◌, ◌≡◌, refl, sym, subst, Option, none, some, List, [], ◌∷◌, ◌++◌, leb, nat_beq,
  length, Result, ok, err, Bool-cases, Option-cases, inl, inr, is_none,
}
use canary_mining.Common.Text.Basic.{Text}
use canary_mining.TestMiner.Work.{
  MiningWork, MinerState, FrameOutcome, no_work, new_work, accepted_share, Message, TargetLib,
  open_success, set_target, new_job, set_prev_hash, shares_success, other_message, handle_frame,
  update_job, update_prev_hash, update_pool_target, next_sequence_number,
}
use canary_mining.TestMiner.Options.{TestMinerConfig}
use canary_mining.TestMiner.Main.{
  Stopping, MinerEvent, timer, signal, share_found, frame, MinerAction, setup, open_message, send,
  start_workers, stop_workers, linger, Miner, LoopStep, stop_actions, fail_stopped, fail, continue,
  restart, count_block, submit, linger_actions, on_outcome, turn, loop,
}
use canary_mining.TestMiner.Loop.{loop-go, loop-stop}

-- While the miner goes on, its number is that of the last share.
abbrev pub last_number : Option (Result Text ℕ) → ℕ → Option ℕ
last_number none n = some n
last_number (some result) n = none

module _ {F T : Type 0} where
  -- The shares that are sent have the numbers after `q`, one by one; and the last is `end`, if given.
  abbrev pub Numbered : ℕ → List (MinerAction F T) → Option ℕ → Type 0
  Numbered q [] none = Unit
  Numbered q [] (some end) = q ≡ end
  Numbered q (send share ∷ actions) end =
      (share.sequence_number ≡ (q + 1) % 2 ^ 32) × Numbered ((q + 1) % 2 ^ 32) actions end
  Numbered q (_ ∷ actions) end = Numbered q actions end

  Numbered-append :
      (xs ys : List (MinerAction F T)) (q v : ℕ) (end : Option ℕ)
      → Numbered q xs (some v)
      → Numbered v ys end
      → Numbered q (xs ++ ys) end
  Numbered-append [] ys q v end h k = subst (λ x. Numbered x ys end) (sym h) k
  Numbered-append (setup m ∷ xs) ys q v end h k = Numbered-append xs ys q v end h k
  Numbered-append (open_message m ∷ xs) ys q v end h k = Numbered-append xs ys q v end h k
  Numbered-append (send share ∷ xs) ys q v end h k =
      (h.0, Numbered-append xs ys ((q + 1) % 2 ^ 32) v end h.1 k)
  Numbered-append (start_workers work n ∷ xs) ys q v end h k = Numbered-append xs ys q v end h k
  Numbered-append (stop_workers work stopping ∷ xs) ys q v end h k =
      Numbered-append xs ys q v end h k
  Numbered-append (linger n ∷ xs) ys q v end h k = Numbered-append xs ys q v end h k

  abbrev pub IsNumbered : Miner F T → LoopStep F T → Type 0
  IsNumbered s step =
      Numbered s.state.sequence_number step.actions
        (last_number step.returned step.miner.state.sequence_number)

module _ (F : Type 0) (L : TargetLib) (now : ℕ) where
  handle_frame-sequence_number :
      (s : MinerState F L.Target) (message : Message)
      → (handle_frame F L now s message).0.sequence_number ≡ s.sequence_number
  unfolding handle_frame update_job update_prev_hash update_pool_target
  handle_frame-sequence_number s (open_success channel_id target) =
      elim (Bool-cases (nat_beq (length target) 32)) [
        | inl b ↦ rw (update_pool_target, b) refl
        | inr b ↦ rw (update_pool_target, b) refl
      ]
  handle_frame-sequence_number s (set_target target) =
      elim (Bool-cases (nat_beq (length target) 32)) [
        | inl b ↦ rw (update_pool_target, b) refl
        | inr b ↦ rw (update_pool_target, b) refl
      ]
  handle_frame-sequence_number s (new_job job) = elim (Bool-cases (is_none job.min_ntime)) [
    | inl b ↦ rw (update_job, b) refl
    | inr b ↦ rw (update_job, b) refl
  ]
  handle_frame-sequence_number s (set_prev_hash prev_hash) = refl
  handle_frame-sequence_number s shares_success = refl
  handle_frame-sequence_number s other_message = refl

module _ (F T : Type 0) where
  stop-Numbered :
      (stopping : Stopping) (q : ℕ) (w : Option (MiningWork T))
      → Numbered {F = F} q (stop_actions stopping w) (some q)
  stop-Numbered stopping q none = refl
  stop-Numbered stopping q (some work) = refl

  stop_end :
      (stopping : Stopping) (q : ℕ) (w : Option (MiningWork T))
      → Numbered {F = F} q (stop_actions stopping w) none
  stop_end stopping q none = tt
  stop_end stopping q (some work) = tt

  linger_end : (q n : ℕ) → Numbered {F = F} {T = T} q (linger_actions n) none
  linger_end q n = elim (Bool-cases (nat_beq n 0)) [ inl b ↦ rw b tt | inr b ↦ rw b tt ]

module _ {F T : Type 0} where
  outcome-IsNumbered :
      {P : Type 0} (config : TestMinerConfig F P) (stopping : Stopping) (s : Miner F T)
      (outcome : Result Text (FrameOutcome T))
      → IsNumbered s (on_outcome config stopping s outcome)
  unfolding fail continue restart count_block
  outcome-IsNumbered config stopping s (err reason) = tt
  outcome-IsNumbered config stopping s (ok no_work) = refl
  outcome-IsNumbered config stopping s (ok (new_work work)) =
      Numbered-append (stop_actions stopping s.current_workers) _ s.state.sequence_number _ _
        (stop-Numbered F T stopping s.state.sequence_number s.current_workers) refl
  outcome-IsNumbered config stopping s (ok accepted_share) =
      elim (Bool-cases (leb config.stop_after_accepted_blocks ((s.accepted_blocks + 1) % 2 ^ 32))) [
        | inl b ↦ rw b (
            Numbered-append (stop_actions stopping s.current_workers) _ s.state.sequence_number _
              none (stop-Numbered F T stopping s.state.sequence_number s.current_workers)
              (linger_end F T s.state.sequence_number config.linger_after_accepted))
        | inr b ↦ rw b refl
      ]

module _ {F P : Type 0} (L : TargetLib) (config : TestMinerConfig F P) where
  turn-IsNumbered :
      (s : Miner F L.Target) (event : MinerEvent) → IsNumbered s (turn L config s event)
  unfolding turn fail_stopped fail submit next_sequence_number
  turn-IsNumbered s (timer stopping) =
      stop_end F L.Target stopping s.state.sequence_number s.current_workers
  turn-IsNumbered s (signal stopping (ok u)) =
      stop_end F L.Target stopping s.state.sequence_number s.current_workers
  turn-IsNumbered s (signal stopping (err e)) =
      stop_end F L.Target stopping s.state.sequence_number s.current_workers
  turn-IsNumbered s (share_found found (ok u)) = (refl, refl)
  turn-IsNumbered s (share_found found (err reason)) = tt
  turn-IsNumbered s (frame now stopping none) = tt
  turn-IsNumbered s (frame now stopping (some (err reason))) = tt
  turn-IsNumbered s (frame now stopping (some (ok message))) =
      let (state, outcome) = handle_frame F L now s.state message in
      let step = on_outcome config stopping (record s { state = state }) outcome in
      subst
        (λ q. Numbered q step.actions (last_number step.returned step.miner.state.sequence_number))
        (handle_frame-sequence_number F L now s.state message)
        (outcome-IsNumbered config stopping (record s { state = state }) outcome)

  -- The shares of a run are sent with the numbers that follow the last one, one by one modulo 2 ^ 32,
  -- whatever else happens between them.
  pub loop-IsNumbered :
      (s : Miner F L.Target) (events : List MinerEvent) → IsNumbered s (loop L config s events)
  unfolding loop continue
  loop-IsNumbered s [] = refl
  loop-IsNumbered s (event ∷ events) =
      let step = turn L config s event in
      let numbers = turn-IsNumbered s event in
      elim (Option-cases (step.returned)) [
        | inl e ↦ subst (IsNumbered s) (sym (loop-go L config s event events e)) (
            Numbered-append step.actions _ s.state.sequence_number step.miner.state.sequence_number
              _
              (subst
                (λ o.
                  Numbered s.state.sequence_number step.actions
                    (last_number o step.miner.state.sequence_number))
                e numbers)
              (loop-IsNumbered step.miner events))
        | inr (r, e) ↦ subst (IsNumbered s) (sym (loop-stop L config s event events r e)) numbers
      ]
