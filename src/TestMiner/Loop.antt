-- ===== src/TestMiner/Loop.antt =====
-- The workers, the shares and the result of a run of the test miner.
use canary_mining.Common.{
  ℕ, ◌+◌, ◌%◌, ◌^◌, ◌≡◌, refl, sym, ap, subst, Option, none, some, List, [], ◌∷◌, ◌++◌, leb,
  nat_beq, Result, ok, err, Bool-cases, Option-cases, inl, inr,
}
use canary_mining.Common.Text.Basic.{Text}
use canary_mining.TestMiner.Work.{
  MiningWork, FrameOutcome, no_work, new_work, accepted_share, TargetLib, handle_frame,
}
use canary_mining.TestMiner.Options.{TestMinerConfig}
use canary_mining.TestMiner.Main.{
  MinerEvent, timer, signal, share_found, frame, MinerAction, setup, open_message, send,
  start_workers, stop_workers, Stopping, linger, Miner, LoopStep, stop_actions, fail_stopped, fail,
  continue, restart, count_block, submit, linger_actions, on_outcome, turn, loop, go_on,
}

-- A result leaves no workers that were not told to stop; an error may.
abbrev pub NoneLeft : {T : Type 0} → Option (Result Text ℕ) → Option (MiningWork T) → Type 0
NoneLeft (some (ok n)) w = w ≡ none
NoneLeft o w = Unit

module _ {F T : Type 0} where
  -- From the work of the workers that were not told to stop to that of those that were not in the end:
  -- workers start only when there are none, and those are told to stop that were not.
  abbrev pub Traced :
      Option (MiningWork T) → List (MinerAction F T) → Option (MiningWork T) → Type 0
  Traced w [] end = w ≡ end
  Traced w (start_workers work n ∷ actions) end = (w ≡ none) × Traced (some work) actions end
  Traced w (stop_workers work stopping ∷ actions) end = (w ≡ some work) × Traced none actions end
  Traced w (_ ∷ actions) end = Traced w actions end

  Traced-append :
      (w v end : Option (MiningWork T)) (xs ys : List (MinerAction F T))
      → Traced w xs v
      → Traced v ys end
      → Traced w (xs ++ ys) end
  Traced-append w v end [] ys h k = subst (λ x. Traced x ys end) (sym h) k
  Traced-append w v end (setup m ∷ xs) ys h k = Traced-append w v end xs ys h k
  Traced-append w v end (open_message m ∷ xs) ys h k = Traced-append w v end xs ys h k
  Traced-append w v end (send share ∷ xs) ys h k = Traced-append w v end xs ys h k
  Traced-append w v end (start_workers work n ∷ xs) ys h k =
      (h.0, Traced-append (some work) v end xs ys h.1 k)
  Traced-append w v end (stop_workers work stopping ∷ xs) ys h k =
      (h.0, Traced-append none v end xs ys h.1 k)
  Traced-append w v end (linger n ∷ xs) ys h k = Traced-append w v end xs ys h k

module _ (F T : Type 0) where
  stop-Traced :
      (stopping : Stopping) (w : Option (MiningWork T))
      → Traced {F = F} w (stop_actions stopping w) none
  stop-Traced stopping none = refl
  stop-Traced stopping (some work) = (refl, refl)

  linger-Traced : (n : ℕ) → Traced {F = F} {T = T} none (linger_actions n) none
  linger-Traced n = elim (Bool-cases (nat_beq n 0)) [ inl b ↦ rw b refl | inr b ↦ rw b refl ]

module _ {F T : Type 0} where
  abbrev pub Follows : Miner F T → LoopStep F T → Type 0
  Follows s step =
      Traced s.current_workers step.actions step.miner.current_workers
      × NoneLeft step.returned step.miner.current_workers

  count_block-Follows :
      (stopping : Stopping) (stop_after linger_after : ℕ) (s : Miner F T)
      → Follows s (count_block stopping stop_after linger_after s)
  unfolding count_block
  count_block-Follows stopping stop_after linger_after s =
      elim (Bool-cases (leb stop_after ((s.accepted_blocks + 1) % 2 ^ 32))) [
        | inl b ↦ rw b (
          Traced-append s.current_workers none none (stop_actions stopping s.current_workers) _
              (stop-Traced F T stopping s.current_workers) (linger-Traced F T linger_after),
          refl,
        )
        | inr b ↦ rw b (refl, tt)
      ]

  outcome-Follows :
      {P : Type 0} (config : TestMinerConfig F P) (stopping : Stopping) (s : Miner F T)
      (outcome : Result Text (FrameOutcome T))
      → Follows s (on_outcome config stopping s outcome)
  unfolding fail continue restart
  outcome-Follows config stopping s (err reason) = (refl, tt)
  outcome-Follows config stopping s (ok no_work) = (refl, tt)
  outcome-Follows config stopping s (ok (new_work work)) = (
    Traced-append s.current_workers none (some work) (stop_actions stopping s.current_workers) _
        (stop-Traced F T stopping s.current_workers) (refl, refl),
    tt,
  )
  outcome-Follows config stopping s (ok accepted_share) =
      count_block-Follows stopping config.stop_after_accepted_blocks config.linger_after_accepted s

module _ {F P : Type 0} (L : TargetLib) (config : TestMinerConfig F P) where
  turn-Follows : (s : Miner F L.Target) (event : MinerEvent) → Follows s (turn L config s event)
  unfolding turn fail_stopped fail submit
  turn-Follows s (timer stopping) = (stop-Traced F L.Target stopping s.current_workers, tt)
  turn-Follows s (signal stopping (ok u)) = (stop-Traced F L.Target stopping s.current_workers, tt)
  turn-Follows s (signal stopping (err e)) = (stop-Traced F L.Target stopping s.current_workers, tt)
  turn-Follows s (share_found found (ok u)) = (refl, tt)
  turn-Follows s (share_found found (err reason)) = (refl, tt)
  turn-Follows s (frame now stopping none) = (refl, tt)
  turn-Follows s (frame now stopping (some (err reason))) = (refl, tt)
  turn-Follows s (frame now stopping (some (ok message))) =
      let (state, outcome) = handle_frame F L now s.state message in
      outcome-Follows config stopping (record s { state = state }) outcome

  pub loop-go :
      (s : Miner F L.Target) (event : MinerEvent) (events : List MinerEvent)
      → (turn L config s event).returned ≡ none
      → loop L config s (event ∷ events)
        ≡ go_on none (turn L config s event) (loop L config (turn L config s event).miner events)
  unfolding loop
  loop-go s event events e =
      let step = turn L config s event in ap (λ o. go_on o step (loop L config step.miner events)) e

  pub loop-stop :
      (s : Miner F L.Target) (event : MinerEvent) (events : List MinerEvent) (r : Result Text ℕ)
      → (turn L config s event).returned ≡ some r
      → loop L config s (event ∷ events) ≡ turn L config s event
  unfolding loop
  loop-stop s event events r e =
      let step = turn L config s event in ap (λ o. go_on o step (loop L config step.miner events)) e

  pub loop-trace :
      (s : Miner F L.Target) (events : List MinerEvent) → Follows s (loop L config s events)
  unfolding loop continue
  loop-trace s [] = (refl, tt)
  loop-trace s (event ∷ events) =
      let step = turn L config s event in
      let (trace, left) = turn-Follows s event in
      elim (Option-cases (step.returned)) [
        | inl e ↦
            let (t, l) = loop-trace step.miner events in
            subst (Follows s) (sym (loop-go s event events e)) (
              Traced-append s.current_workers step.miner.current_workers _ step.actions _ trace t,
              l,
            )
        | inr (r, e) ↦ subst (Follows s) (sym (loop-stop s event events r e)) (trace, left)
      ]
