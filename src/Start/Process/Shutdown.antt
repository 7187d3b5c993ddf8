-- ===== src/Start/Process/Shutdown.antt =====
-- cmd/main.go: how a process ends.
use mathlib.Core.Path.{subst}
use waterhose.Prelude.{
  ◌≡◌, ◌≢◌, refl, Bool, true, false, List, [], ◌∷◌, Option, none, some, arith, Option-cases, inl,
  inr, unless_some,
}
use waterhose.Start.Process.{
  App, Process, MainEvent, mode_done, live_step, step, run_main, new_process, Watcher, idle,
  checking, closing, gone, signal, take_signal, cancel, check, join, close_done, minute_passed,
  second_signal, sets_up, set_up_fails, assigns, finishes, runs,
}

-- What the process relies on of a mode: a property of its states that its events keep, that its end is
-- final, and that it does not end the program with status 0.
pub record AppLaws (app : App) : Type 1 where
  pub Good : app.State → Type 0
  pub start_good : Good app.start
  pub event_good : (b : Bool) (e : app.Event) (s : app.State) → Good s → Good (app.event b e s)
  pub done_stays :
      (b : Bool) (e : app.Event) (s : app.State)
      → app.is_done s ≡ true
      → app.is_done (app.event b e s) ≡ true
  pub crash_status : (s : app.State) → Good s → app.crash s ≢ some 0

-- The goroutine of the signal is behind the end of the mode.
abbrev IsBehind : Watcher → Type 0
IsBehind closing = Unit
IsBehind gone = Unit
IsBehind _ = ⊥

some_inj : {A : Type 0} {a b : A} → some a ≡ some b → a ≡ b
some_inj e = cc

module _ (app : App) where
  -- Between `cancel` and the check of `appDone`, before `appDone` is set: the check does not wait.
  abbrev pub IsEarly : Process app → Type 0
  IsEarly p = (p.watcher ≡ checking) × (p.assigned ≡ false) × (p.exit ≡ none)

  -- If the signal is taken before `appDone` is set, `main` can exit with status 0 right behind
  -- `modes.New`, whatever the mode still does: nothing of it changes.
  pub early_signal :
      (p : Process app) (s : app.State)
      → IsEarly p
      → p.mode ≡ some s
      → let q = run_main app (check ∷ close_done ∷ assigns ∷ finishes ∷ []) p in
        (q.exit ≡ some 0) × (q.mode ≡ some s)
  unfolding run_main step
  early_signal p s h e = ground arith

module _ (app : App) (laws : AppLaws app) where
  abbrev GoodMode : Option app.State → Type 0
  GoodMode none = Unit
  GoodMode (some s) = laws.Good s

  -- The channel of the mode is known to the goroutine of the signal, which goes on when it is closed.
  record Joined (p : Process app) : Type 0 where
    assigned : p.assigned ≡ true
    behind : IsBehind p.watcher → mode_done app p.mode ≡ true
    after_done : p.done ≡ true → mode_done app p.mode ≡ true
    after_exit : p.exit ≡ some 0 → mode_done app p.mode ≡ true

  good_of : (m : Option app.State) (s : app.State) → m ≡ some s → GoodMode m → laws.Good s
  good_of none s e g = absurd cc
  good_of (some t) s e g = subst laws.Good (some_inj e) g

  live_step-GoodMode :
      (e : MainEvent app) (p : Process app) → GoodMode p.mode → GoodMode (live_step app e p).mode
  live_step-GoodMode (runs e) p g = elim (Option-cases p.mode) [
    | inl n ↦ rw n tt
    | inr (s, h) ↦ rw h (laws.event_good p.cancelled e s (good_of p.mode s h g))
  ]
  live_step-GoodMode sets_up p g = elim (Option-cases p.mode) [
    | inl n ↦ rw n laws.start_good
    | inr (s, h) ↦ rw h (good_of p.mode s h g)
  ]
  live_step-GoodMode signal p g = g
  live_step-GoodMode take_signal p g = ground arith
  live_step-GoodMode cancel p g = ground arith
  live_step-GoodMode check p g = ground arith
  live_step-GoodMode join p g = ground arith
  live_step-GoodMode close_done p g = ground arith
  live_step-GoodMode minute_passed p g = ground arith
  live_step-GoodMode second_signal p g = ground arith
  live_step-GoodMode set_up_fails p g = ground arith
  live_step-GoodMode assigns p g = ground arith
  live_step-GoodMode finishes p g = ground arith

  live_step-Joined :
      (e : MainEvent app) (p : Process app)
      → GoodMode p.mode
      → p.exit ≡ none
      → Joined p
      → Joined (live_step app e p)
  live_step-Joined signal p g x j = ground arith
  live_step-Joined take_signal p g x j = ground arith
  live_step-Joined cancel p g x j = ground arith
  live_step-Joined check p g x j = ground arith
  live_step-Joined join p g x j = ground arith
  live_step-Joined close_done p g x j = ground arith
  live_step-Joined minute_passed p g x j = ground arith
  live_step-Joined second_signal p g x j = ground arith
  live_step-Joined sets_up p g x j = elim (Option-cases p.mode) [
    | inl n ↦ ground arith
    | inr (s, h) ↦ ground arith
  ]
  live_step-Joined set_up_fails p g x j = ground arith
  live_step-Joined assigns p g x j = ground arith
  live_step-Joined finishes p g x j = ground arith
  live_step-Joined (runs e) p g x j = elim (Option-cases p.mode) [
    | inl n ↦ ground arith
    | inr (s, h) ↦ ground (
      arith,
      laws.done_stays p.cancelled e s,
      laws.crash_status (app.event p.cancelled e s)
          (laws.event_good p.cancelled e s (good_of p.mode s h g)),
    )
  ]

  step-GoodMode :
      (e : MainEvent app) (p : Process app) → GoodMode p.mode → GoodMode (step app e p).mode
  unfolding step
  step-GoodMode e p g =
      unless_some {B = Process app} (λ q. GoodMode q.mode) p.exit (λ x. live_step-GoodMode e p g) g

  -- The end of `main` is behind `close(done)`, and that behind the wait of the goroutine of the signal.
  record Ordered (p : Process app) : Type 0 where
    closed : p.done ≡ true → p.watcher ≡ gone
    exited : p.exit ≡ some 0 → p.done ≡ true

  live_step-Ordered :
      (e : MainEvent app) (p : Process app)
      → GoodMode p.mode
      → p.exit ≡ none
      → Ordered p
      → Ordered (live_step app e p)
  live_step-Ordered (runs e) p g x o = elim (Option-cases p.mode) [
    | inl n ↦ ground arith
    | inr (s, h) ↦ ground (
      arith,
      laws.crash_status (app.event p.cancelled e s)
          (laws.event_good p.cancelled e s (good_of p.mode s h g)),
    )
  ]
  live_step-Ordered sets_up p g x o = ground arith
  live_step-Ordered signal p g x o = ground arith
  live_step-Ordered take_signal p g x o = ground arith
  live_step-Ordered cancel p g x o = ground arith
  live_step-Ordered check p g x o = ground arith
  live_step-Ordered join p g x o = ground arith
  live_step-Ordered close_done p g x o = ground arith
  live_step-Ordered minute_passed p g x o = ground arith
  live_step-Ordered second_signal p g x o = ground arith
  live_step-Ordered set_up_fails p g x o = ground arith
  live_step-Ordered assigns p g x o = ground arith
  live_step-Ordered finishes p g x o = ground arith

  run_main-Ordered :
      (events : List (MainEvent app)) (p : Process app)
      → GoodMode p.mode
      → Ordered p
      → Ordered (run_main app events p)
  unfolding run_main step
  run_main-Ordered [] p g o = o
  run_main-Ordered (e ∷ events) p g o =
      run_main-Ordered events (step app e p) (step-GoodMode e p g)
        (unless_some Ordered p.exit (λ x. live_step-Ordered e p g x o) o)

  step-Joined :
      (e : MainEvent app) (p : Process app) → GoodMode p.mode → Joined p → Joined (step app e p)
  unfolding step
  step-Joined e p g j = unless_some Joined p.exit (λ x. live_step-Joined e p g x j) j

  run_main-GoodMode :
      (events : List (MainEvent app)) (p : Process app)
      → GoodMode p.mode
      → GoodMode (run_main app events p).mode
  unfolding run_main
  run_main-GoodMode [] p g = g
  run_main-GoodMode (e ∷ events) p g = run_main-GoodMode events (step app e p) (step-GoodMode e p g)

  run_main-Joined :
      (events : List (MainEvent app)) (p : Process app)
      → GoodMode p.mode
      → Joined p
      → Joined (run_main app events p)
  unfolding run_main
  run_main-Joined [] p g j = j
  run_main-Joined (e ∷ events) p g j =
      run_main-Joined events (step app e p) (step-GoodMode e p g) (step-Joined e p g j)

  idle-Joined : (p : Process app) → p.assigned ≡ true → p.watcher ≡ idle → Ordered p → Joined p
  idle-Joined p a w o = ground arith

  module _ (before : List (MainEvent app)) (p : Process app) where
    reached-GoodMode : run_main app before (new_process app) ≡ p → GoodMode p.mode
    reached-GoodMode r =
        subst (λ q. GoodMode q.mode) r (run_main-GoodMode before (new_process app) tt)

    pub reached-good :
        (s : app.State) → run_main app before (new_process app) ≡ p → p.mode ≡ some s → laws.Good s
    reached-good s r m = good_of p.mode s m (reached-GoodMode r)

    reached-Ordered : run_main app before (new_process app) ≡ p → Ordered p
    reached-Ordered r =
        subst Ordered r (run_main-Ordered before (new_process app) tt (ground arith))

    pub reached-open : run_main app before (new_process app) ≡ p → p.watcher ≡ idle → p.done ≡ false
    reached-open r w = let o = reached-Ordered r in ground arith

  done_of :
      (m : Option app.State)
      → GoodMode m
      → mode_done app m ≡ true
      → (s : app.State) × (m ≡ some s) × laws.Good s × (app.is_done s ≡ true)
  done_of none g e = absurd cc
  done_of (some s) g e = (s, refl, g, e)

  -- From a state in which `appDone` is set and the first signal is not taken yet, a process that exits
  -- with status 0 has waited for the end of its mode.
  pub run_main-waits :
      (before after : List (MainEvent app)) (p : Process app)
      → run_main app before (new_process app) ≡ p
      → p.assigned ≡ true
      → p.watcher ≡ idle
      → (run_main app after p).exit ≡ some 0
      → (s : app.State) × ((run_main app after p).mode ≡ some s)
        × laws.Good s
        × (app.is_done s ≡ true)
  run_main-waits before after p r a w z =
      let g = reached-GoodMode before p r in
      done_of (run_main app after p).mode (run_main-GoodMode after p g)
        ((run_main-Joined after p g (idle-Joined p a w (reached-Ordered before p r))).after_exit z)
