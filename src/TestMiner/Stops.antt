-- ===== src/TestMiner/Stops.antt =====
-- How many sets of workers of the test miner may run: a set that is told to stop may outlive the two
-- seconds in which `stop_workers` waits for it.
use canary_mining.Common.{
  ℕ, ◌+◌, ◌-◌, ◌%◌, ◌^◌, ◌≤◌, ◌≡◌, refl, sym, ap, ◌∙◌, arith, Bool, true, false, Option, none, some,
  List, [], ◌∷◌, ◌++◌, if◌then◌else◌, leb, nat_beq, Result, ok, err, Bool-cases, Option-cases, inl,
  inr,
}
use canary_mining.Common.Text.Basic.{Text}
use canary_mining.TestMiner.Work.{
  MiningWork, FrameOutcome, no_work, new_work, accepted_share, TargetLib, handle_frame,
}
use canary_mining.TestMiner.Options.{TestMinerConfig}
use canary_mining.TestMiner.Main.{
  MinerEvent, timer, signal, share_found, frame, MinerAction, setup, open_message, send,
  start_workers, stop_workers, Stopping, ended, task_cancelled, task_failed, not_stopped, linger,
  Miner, LoopStep, stop_actions, fail_stopped, fail, continue, restart, count_block, submit,
  linger_actions, on_outcome, turn, loop,
}
use canary_mining.TestMiner.Loop.{Follows, loop-go, loop-stop, loop-trace}

-- Whether the task of the workers is over after the waiting.
abbrev pub is_over : Stopping → Bool
is_over not_stopped = false
is_over _ = true

abbrev pub timed_out : Stopping → ℕ
timed_out stopping = if is_over stopping then 0 else 1

-- How often the task of workers that are told to stop in these events does not stop in time.
abbrev pub timeouts : List MinerEvent → ℕ
timeouts [] = 0
timeouts (timer stopping ∷ events) = timed_out stopping + timeouts events
timeouts (signal stopping r ∷ events) = timed_out stopping + timeouts events
timeouts (share_found found sent ∷ events) = timeouts events
timeouts (frame now stopping message ∷ events) = timed_out stopping + timeouts events

abbrev pub number_of : {T : Type 0} → Option (MiningWork T) → ℕ
number_of none = 0
number_of (some work) = 1

module _ {F T : Type 0} where
  -- How many sets of workers may run after the actions, if so many may run before them.
  abbrev pub running : ℕ → List (MinerAction F T) → ℕ
  running n [] = n
  running n (start_workers work workers ∷ actions) = running (n + 1) actions
  running n (stop_workers work stopping ∷ actions) =
      running (if is_over stopping then n - 1 else n) actions
  running n (_ ∷ actions) = running n actions

  running-append :
      (xs ys : List (MinerAction F T)) (n : ℕ) → running n (xs ++ ys) ≡ running (running n xs) ys
  running-append [] ys n = refl
  running-append (setup m ∷ xs) ys n = running-append xs ys n
  running-append (open_message m ∷ xs) ys n = running-append xs ys n
  running-append (send share ∷ xs) ys n = running-append xs ys n
  running-append (start_workers work w ∷ xs) ys n = running-append xs ys (n + 1)
  running-append (stop_workers work stopping ∷ xs) ys n =
      running-append xs ys (if is_over stopping then n - 1 else n)
  running-append (linger m ∷ xs) ys n = running-append xs ys n

module _ (F T : Type 0) where
  running-stop :
      (stopping : Stopping) (w : Option (MiningWork T)) (late : ℕ)
      → (late' : ℕ) × (running {F = F} (number_of w + late) (stop_actions stopping w) ≡ 0 + late')
        × (late' ≤ timed_out stopping + late)
  running-stop ended none late = (late, refl, omega arith)
  running-stop task_cancelled none late = (late, refl, omega arith)
  running-stop task_failed none late = (late, refl, omega arith)
  running-stop not_stopped none late = (late, refl, omega arith)
  running-stop ended (some work) late = (late, omega arith, omega arith)
  running-stop task_cancelled (some work) late = (late, omega arith, omega arith)
  running-stop task_failed (some work) late = (late, omega arith, omega arith)
  running-stop not_stopped (some work) late = (1 + late, omega arith, omega arith)

  running-linger : (n m : ℕ) → running {F = F} {T = T} n (linger_actions m) ≡ n
  running-linger n m = elim (Bool-cases (nat_beq m 0)) [ inl b ↦ rw b refl | inr b ↦ rw b refl ]

module _ {F T : Type 0} where
  -- Beside the set that was not told to stop, and those that were late before, at most `more` may run.
  abbrev AtMost : ℕ → Miner F T → LoopStep F T → Type 0
  AtMost more s step =
      (late : ℕ)
      → (late' : ℕ) × (running (number_of s.current_workers + late) step.actions
          ≡ number_of step.miner.current_workers + late')
        × (late' ≤ more + late)

  outcome-AtMost :
      {P : Type 0} (config : TestMinerConfig F P) (stopping : Stopping) (s : Miner F T)
      (outcome : Result Text (FrameOutcome T))
      → AtMost (timed_out stopping) s (on_outcome config stopping s outcome)
  unfolding fail continue restart count_block
  outcome-AtMost config stopping s (err reason) late = (late, refl, omega arith)
  outcome-AtMost config stopping s (ok no_work) late = (late, refl, omega arith)
  outcome-AtMost config stopping s (ok (new_work work)) late =
      let (late', e, b) = running-stop F T stopping s.current_workers late in
      (
        late',
        running-append (stop_actions stopping s.current_workers) _ _
            ∙ ap (λ n. n + 1) e
            ∙ (omega arith),
        b,
      )
  outcome-AtMost config stopping s (ok accepted_share) late =
      elim (Bool-cases (leb config.stop_after_accepted_blocks ((s.accepted_blocks + 1) % 2 ^ 32))) [
        | inl b ↦
            let (late', e, k) = running-stop F T stopping s.current_workers late in
            rw b (
              late',
              running-append (stop_actions stopping s.current_workers) _ _
                  ∙ running-linger F T _ config.linger_after_accepted
                  ∙ e,
              k,
            )
        | inr b ↦ rw b (late, refl, omega arith)
      ]

module _ {F P : Type 0} (L : TargetLib) (config : TestMinerConfig F P) where
  turn-AtMost :
      (s : Miner F L.Target) (event : MinerEvent)
      → AtMost (timeouts (event ∷ [])) s (turn L config s event)
  unfolding turn fail_stopped fail submit
  turn-AtMost s (timer stopping) late =
      let (late', e, b) = running-stop F L.Target stopping s.current_workers late in
      (late', e, omega (arith, b))
  turn-AtMost s (signal stopping (ok u)) late =
      let (late', e, b) = running-stop F L.Target stopping s.current_workers late in
      (late', e, omega (arith, b))
  turn-AtMost s (signal stopping (err r)) late =
      let (late', e, b) = running-stop F L.Target stopping s.current_workers late in
      (late', e, omega (arith, b))
  turn-AtMost s (share_found found (ok u)) late = (late, refl, omega arith)
  turn-AtMost s (share_found found (err reason)) late = (late, refl, omega arith)
  turn-AtMost s (frame now stopping none) late = (late, refl, omega arith)
  turn-AtMost s (frame now stopping (some (err reason))) late = (late, refl, omega arith)
  turn-AtMost s (frame now stopping (some (ok message))) late =
      let (state, outcome) = handle_frame F L now s.state message in
      let (late', e, b) =
        outcome-AtMost config stopping (record s { state = state }) outcome late in
      (late', e, omega (arith, b))

  timeouts-∷ :
      (event : MinerEvent) (events : List MinerEvent)
      → timeouts (event ∷ events) ≡ timeouts (event ∷ []) + timeouts events
  timeouts-∷ (timer stopping) events = omega arith
  timeouts-∷ (signal stopping r) events = omega arith
  timeouts-∷ (share_found found sent) events = omega arith
  timeouts-∷ (frame now stopping message) events = omega arith

  loop-AtMost :
      (s : Miner F L.Target) (events : List MinerEvent)
      → AtMost (timeouts events) s (loop L config s events)
  unfolding loop continue
  loop-AtMost s [] late = (late, refl, omega arith)
  loop-AtMost s (event ∷ events) late =
      let step = turn L config s event in
      let (late', e, b) = turn-AtMost s event late in
      let sum = timeouts-∷ event events in
      elim (Option-cases (step.returned)) [
        | inl none_yet ↦
            let (late'', e', b') = loop-AtMost step.miner events late' in
            rw (loop-go L config s event events none_yet) (
              late'',
              running-append step.actions _ _
                  ∙ ap (λ n. running n (loop L config step.miner events).actions) e
                  ∙ e',
              omega (arith, b, b', sum),
            )
        | inr (r, returned) ↦
            rw (loop-stop L config s event events r returned) (late', e, omega (arith, b, sum))
      ]

  -- New workers start only when every set before them was told to stop and waited for; a set is told
  -- so once; when the miner returns a number of accepted blocks, none is left that was not told. So at
  -- most one set runs beside those whose task did not stop within the two seconds, which are at most
  -- as many as the waits that ended so.
  pub loop-Follows :
      (s : Miner F L.Target) (events : List MinerEvent)
      → Follows s (loop L config s events)
        × (running (number_of s.current_workers) (loop L config s events).actions
            ≤ number_of (loop L config s events).miner.current_workers + timeouts events)
  loop-Follows s events =
      let (late, e, b) = loop-AtMost s events 0 in
      let from : number_of s.current_workers + 0 ≡ number_of s.current_workers = omega arith in
      let e' = ap (λ n. running n (loop L config s events).actions) (sym from) ∙ e in
      (loop-trace L config s events, omega (arith, e', b))
