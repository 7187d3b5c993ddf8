-- ===== src/Start/Process.antt =====
-- cmd/main.go: `main` up to its goroutines, and then as a machine whose events come in any order: the
-- goroutine that waits for a signal, the one that forces the end, `modes.New` and what it started.
-- `panicwrap`, the signals, the clock and what the mode runs are parameters.
pub mod Shutdown
mod Tests
use waterhose.Prelude.{
  ℕ, Bool, true, false, not, ◌&&◌, ◌||◌, ◌≡◌, List, [], ◌∷◌, Option, none, some, if◌then◌else◌,
}
use waterhose.Prelude.Int.{ℤ, pos, negsuc}
use waterhose.Start.{Config, is_master, is_slave, valid_mode}

-- How far `main` gets: it exits, or goes on to its goroutines.
pub data Launch : Type 0 where
  exits : ℕ → Launch
  goes_on : Launch

-- The exit status, unless it is negative.
abbrev pub exit_with : ℤ → Launch
exit_with (pos status) = exits status
exit_with (negsuc n) = goes_on

-- `main` up to its goroutines; `panicwrap.BasicWrap` gives no status if it fails. A fatal log line
-- exits with status 1.
unfoldable pub launch : Config → Option ℤ → Launch
launch c wrapped =
    if not (is_master c) && not (is_slave c)
    then exits 1
    else elim wrapped [ none ↦ exits 2 | some status ↦ exit_with status ]

-- What a mode runs: its goroutines, the exit status where they end the program, and whether the channel
-- that `modes.New` returned is closed.
pub record App : Type 1 where
  pub State : Type 0
  pub Event : Type 0
  pub start : State
  pub event : Bool → Event → State → State
  pub is_done : State → Bool
  pub crash : State → Option ℕ

-- The goroutine that waits for a signal: at `<-sig`, behind it, behind `cancel`, at `<-appDone`, at
-- `close(done)` and behind it.
pub data Watcher : Type 0 where
  idle signalled checking joining closing gone : Watcher

pub data MainEvent (app : App) : Type 0 where
  signal take_signal cancel check join close_done minute_passed second_signal : MainEvent app
  sets_up set_up_fails assigns finishes : MainEvent app
  runs : app.Event → MainEvent app

pub record Process (app : App) : Type 0 where
  pub pending : Bool  -- in the channel `sig`, which has room for one signal
  pub cancelled : Bool
  pub watcher : Watcher
  pub armed : Bool  -- the goroutine that forces the end runs
  pub mode : Option app.State  -- what `modes.New` started
  pub assigned : Bool  -- `appDone` is set
  pub done : Bool
  pub exit : Option ℕ

abbrev pub is_idle : Watcher → Bool
is_idle idle = true
is_idle _ = false

abbrev pub is_signalled : Watcher → Bool
is_signalled signalled = true
is_signalled _ = false

abbrev pub is_checking : Watcher → Bool
is_checking checking = true
is_checking _ = false

abbrev pub is_joining : Watcher → Bool
is_joining joining = true
is_joining _ = false

abbrev pub is_closing : Watcher → Bool
is_closing closing = true
is_closing _ = false

module _ (app : App) where
  abbrev pub new_process : Process app
  new_process = record {
    pending = false;
    cancelled = false;
    watcher = idle;
    armed = false;
    mode = none;
    assigned = false;
    done = false;
    exit = none;
  }

  abbrev pub mode_done : Option app.State → Bool
  mode_done none = false
  mode_done (some s) = app.is_done s

  abbrev is_set : Option app.State → Bool
  is_set none = false
  is_set (some s) = true

  -- An event of the mode; where it ends the program, that is the exit status.
  abbrev run_mode : app.Event → Process app → Process app
  run_mode e p = elim p.mode [
    | none ↦ p
    | some s ↦ let t = app.event p.cancelled e s in record p { mode = some t; exit = app.crash t }
  ]

  -- An event of a process that has not exited; one that is not possible changes nothing.
  abbrev pub live_step : MainEvent app → Process app → Process app
  live_step signal p = record p { pending = true }
  live_step take_signal p =
      if is_idle p.watcher && p.pending
      then record p { pending = false; watcher = signalled }
      else p
  live_step cancel p =
      if is_signalled p.watcher
      then record p { cancelled = true; armed = true; watcher = checking }
      else p
  live_step check p =
      if is_checking p.watcher
      then (if p.assigned then record p { watcher = joining } else record p { watcher = closing })
      else p
  live_step join p =
      if is_joining p.watcher && mode_done p.mode then record p { watcher = closing } else p
  live_step close_done p =
      if is_closing p.watcher then record p { done = true; watcher = gone } else p
  live_step minute_passed p = if p.armed then record p { exit = some 1 } else p
  live_step second_signal p = if p.armed && p.pending then record p { exit = some 1 } else p
  live_step sets_up p = if is_set p.mode then p else record p { mode = some app.start }
  live_step set_up_fails p = if is_set p.mode then p else record p { exit = some 1 }
  live_step assigns p = if is_set p.mode then record p { assigned = true } else p
  live_step finishes p = if p.assigned && p.done then record p { exit = some 0 } else p
  live_step (runs e) p = run_mode e p

  unfoldable pub step : MainEvent app → Process app → Process app
  step e p = elim p.exit [ none ↦ live_step e p | some status ↦ p ]

  unfoldable pub run_main : List (MainEvent app) → Process app → Process app
  unfolding step
  run_main [] p = p
  run_main (e ∷ events) p = run_main events (step e p)
