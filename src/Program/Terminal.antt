-- ===== src/Program/Terminal.antt =====
-- `TerminalInterruptMode` and `wait_for_process_signal`: the settings of the terminal while the program
-- waits for its end, and the signals that end it. The calls of libc are given by whether they succeed.
use canary_mining.Common.{
  ℕ, Bool, true, false, ◌≡◌, refl, Option, none, some, Result, ok, err, if◌then◌else◌,
}
use canary_mining.Common.Text.Basic.{Text, codes}

-- `termios`, by the flags and the characters that are changed; what is left is of any type.
pub record Termios (X : Type 0) : Type 0 where
  pub icanon : Bool
  pub isig : Bool
  pub echoctl : Bool
  pub vmin : ℕ
  pub vtime : ℕ
  pub unchanged : X

-- The terminal: its settings, and whether they can be read and set.
pub record Terminal (X : Type 0) : Type 0 where
  pub settings : Termios X
  pub gets : Bool
  pub sets : Bool

module _ {X : Type 0} where
  abbrev pub interrupt_mode : Termios X → Termios X
  interrupt_mode original = record original {
    icanon = false;
    isig = false;
    echoctl = false;
    vmin = 1;
    vtime = 0;
  }

  -- `tcsetattr`.
  abbrev pub set_settings : Terminal X → Termios X → Terminal X
  set_settings t settings = if t.sets then record t { settings = settings } else t

  unfoldable pub enable_terminal_interrupt_mode : Terminal X → Terminal X × Result Text (Termios X)
  enable_terminal_interrupt_mode t =
      let t' = set_settings t (interrupt_mode t.settings) in
      if t.gets
      then if t.sets then (t', ok t.settings) else (t', err (codes "tcsetattr failed"))
      else (t, err (codes "tcgetattr failed"))

  -- The settings that are restored, if they were changed.
  abbrev pub original_of : Terminal X × Result Text (Termios X) → Terminal X × Option (Termios X)
  original_of (t, ok original) = (t, some original)
  original_of (t, err e) = (t, none)

  unfoldable pub enable : Terminal X → Terminal X × Option (Termios X)
  unfolding enable_terminal_interrupt_mode
  enable t = original_of (enable_terminal_interrupt_mode t)

  unfoldable pub drop : Terminal X × Option (Termios X) → Terminal X
  drop (t, none) = t
  drop (t, some original) = set_settings t original

  restored :
      (settings : Termios X) (gets sets : Bool)
      → drop (enable (record { settings = settings; gets = gets; sets = sets }))
        ≡ record { settings = settings; gets = gets; sets = sets }
  unfolding drop enable enable_terminal_interrupt_mode
  restored settings true true = refl
  restored settings true false = refl
  restored settings false sets = refl

  -- Whatever fails, the terminal has its own settings again after the wait.
  pub drop-enable : (t : Terminal X) → drop (enable t) ≡ t
  drop-enable t = restored t.settings t.gets t.sets

-- The two signals that are listened for.
pub data ProcessSignal : Type 0 where
  interrupt terminate : ProcessSignal

-- By what the registrations of the two signals give, and the signal that comes first.
unfoldable pub wait_for_process_signal :
    Result Text Unit → Result Text Unit → Option ProcessSignal → Option (Result Text Unit)
wait_for_process_signal (err e) terminates received =
    some (err (codes "failed to listen for SIGINT"))
wait_for_process_signal (ok u) (err e) received = some (err (codes "failed to listen for SIGTERM"))
wait_for_process_signal (ok u) (ok v) none = none
wait_for_process_signal (ok u) (ok v) (some received) = some (ok tt)
