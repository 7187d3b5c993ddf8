-- ===== src/System/Shutdown.antt =====
-- cmd/main.go with internal/modes/master/master.go: how a master ends.
mod Tests
use mathlib.Core.Path.{subst}
use waterhose.Prelude.{
  ◌+◌, ◌≡◌, ◌≢◌, ◌⊎◌, inl, inr, refl, ap, ◌∙◌, ◌++◌, ℕ, Bool, true, false, List, [], ◌∷◌, Option,
  none, some, arith, Option-cases, unless_some,
}
use waterhose.Start.{Config, wait_group_done}
use waterhose.Start.Servers.{
  Servers, ServerEvent, Stage, absent, over, new_servers, server_event, run_servers, live_event,
  opening, is_done, opens, fails, ends, stop, shut_http, grpc_server, http_server, health_server,
  monitoring_server,
}
use waterhose.Start.Servers.Ends.{
  Counted, new_servers-Counted, server_event-Counted, running, told_lem, endings,
}
use waterhose.Start.Process.{
  App, Process, MainEvent, new_process, step, run_main, idle, joining, signal, take_signal, cancel,
  check, join, close_done, finishes, runs,
}
use waterhose.Start.Process.Shutdown.{AppLaws, run_main-waits, reached-good, reached-open}

-- What `modes.New` runs in a master.
abbrev pub master_app : Config → App
master_app c = record {
  State = Servers;
  Event = ServerEvent;
  start = new_servers c;
  event = server_event;
  is_done = is_done;
  crash = λ s. s.crash;
}

live_stays :
    (b : Bool) (e : ServerEvent) (s : Servers)
    → is_done s ≡ true
    → is_done (live_event b e s) ≡ true
unfolding wait_group_done
live_stays b (opens grpc_server) s d = ground arith
live_stays b (opens http_server) s d = ground arith
live_stays b (opens health_server) s d = ground arith
live_stays b (opens monitoring_server) s d = ground arith
live_stays b (fails grpc_server) s d = ground arith
live_stays b (fails http_server) s d = ground arith
live_stays b (fails health_server) s d = ground arith
live_stays b (fails monitoring_server) s d = ground arith
live_stays b (ends grpc_server) s d = ground arith
live_stays b (ends http_server) s d = ground arith
live_stays b (ends health_server) s d = ground arith
live_stays b (ends monitoring_server) s d = ground arith
live_stays b stop s d = ground arith
live_stays b shut_http s d = ground arith
live_stays b ServerEvent.close_done s d = ground arith

done_stays :
    (b : Bool) (e : ServerEvent) (s : Servers)
    → is_done s ≡ true
    → is_done (server_event b e s) ≡ true
unfolding server_event
done_stays b e s d = unless_some (λ t. is_done t ≡ true) s.crash (λ x. live_stays b e s d) d

abbrev master_laws : (c : Config) → AppLaws (master_app c)
master_laws c = record {
  Good = Counted;
  start_good = new_servers-Counted c;
  event_good = server_event-Counted;
  done_stays = done_stays;
  crash_status = λ s v. v.exit_status;
}

-- A server that was not started or has ended.
abbrev pub IsOff : Stage → Type 0
IsOff t = (t ≡ absent) ⊎ (t ≡ over)

running-IsOff : (t : Stage) → running t ≡ 0 → IsOff t
running-IsOff t h = ground arith

-- A master that has set `appDone` before it takes a signal exits with status 0 only when each of its four
-- servers has ended, if it was started.
pub master_exit :
    (c : Config) (before after : List (MainEvent (master_app c))) (p : Process (master_app c))
    → run_main (master_app c) before (new_process (master_app c)) ≡ p
    → p.assigned ≡ true
    → p.watcher ≡ idle
    → (run_main (master_app c) after p).exit ≡ some 0
    → (s : Servers) × ((run_main (master_app c) after p).mode ≡ some s)
      × IsOff s.grpc
      × IsOff s.http
      × IsOff s.health
      × IsOff s.monitoring
master_exit c before after p r a w z =
    let (s, e, v, d) = run_main-waits (master_app c) (master_laws c) before after p r a w z in
    let zero = v.waited d in
    (
      s,
      e,
      running-IsOff s.grpc (omega (arith, v.counted, zero)),
      running-IsOff s.http (omega (arith, v.counted, zero)),
      running-IsOff s.health (omega (arith, v.counted, zero)),
      running-IsOff s.monitoring (omega (arith, v.counted, zero)),
    )

-- Events of the servers of a master whose context is cancelled.
abbrev cancelled_events : List ServerEvent → List (Bool × ServerEvent)
cancelled_events [] = []
cancelled_events (e ∷ events) = (true, e) ∷ cancelled_events events

module _ (c : Config) where
  abbrev as_main : List ServerEvent → List (MainEvent (master_app c))
  as_main [] = []
  as_main (e ∷ events) = runs e ∷ as_main events

still_crashed : {o : Option ℕ} {status : ℕ} → o ≡ none → o ≢ some status
still_crashed n e = cc

crashed_event :
    (e : ServerEvent) (s : Servers) {status : ℕ} → s.crash ≡ some status → server_event true e s ≡ s
unfolding server_event
crashed_event e s x = unless_some (λ t. t ≡ s) s.crash (λ y. absurd cc) refl

crash_stays :
    (events : List ServerEvent) (s : Servers) {status : ℕ}
    → s.crash ≡ some status
    → run_servers (cancelled_events events) s ≡ s
unfolding run_servers
crash_stays [] s x = refl
crash_stays (e ∷ events) s x = rw (run_servers, crashed_event e s x) (crash_stays events s x)

module _ (c : Config) where
  -- A master whose goroutine of the signal waits for the servers.
  abbrev joining_process : Servers → Process (master_app c)
  joining_process s = record {
    pending = false;
    cancelled = true;
    watcher = joining;
    armed = true;
    mode = some s;
    assigned = true;
    done = false;
    exit = none;
  }

  signal_lem :
      (p : Process (master_app c)) (s : Servers)
      → p.assigned ≡ true
      → p.watcher ≡ idle
      → p.done ≡ false
      → p.exit ≡ none
      → p.mode ≡ some s
      → run_main (master_app c) (signal ∷ take_signal ∷ cancel ∷ check ∷ []) p ≡ joining_process s
  unfolding run_main step
  signal_lem p s a w d x m = ground arith

  step_lem :
      (e : ServerEvent) (s : Servers)
      → (server_event true e s).crash ≡ none
      → step (master_app c) (runs e) (joining_process s) ≡ joining_process (server_event true e s)
  unfolding step
  step_lem e s y = ap (λ x. record (joining_process (server_event true e s)) { exit = x }) y

  runs_lem :
      (events : List ServerEvent) (s : Servers)
      → (run_servers (cancelled_events events) s).crash ≡ none
      → run_main (master_app c) (as_main c events) (joining_process s)
        ≡ joining_process (run_servers (cancelled_events events) s)
  unfolding run_main run_servers
  runs_lem [] s n = refl
  runs_lem (e ∷ events) s n = elim (Option-cases (server_event true e s).crash) [
    | inl y ↦ rw (run_main, step_lem e s y) (runs_lem events (server_event true e s) n)
    | inr (status, y) ↦
        absurd
          (still_crashed n (ap (λ t. t.crash) (crash_stays events (server_event true e s) y) ∙ y))
  ]

  finish_lem :
      (s : Servers)
      → is_done s ≡ true
      → (run_main (master_app c) (join ∷ close_done ∷ finishes ∷ []) (joining_process s)).exit
        ≡ some 0
  unfolding run_main step
  finish_lem s d = ground arith

  -- The end of the context reaches the servers, and each ends.
  abbrev server_endings : List ServerEvent
  server_endings =
      stop
      ∷ shut_http
      ∷ ends grpc_server
      ∷ ends http_server
      ∷ ends health_server
      ∷ ends monitoring_server
      ∷ ServerEvent.close_done
      ∷ []

  -- A signal, the end of every server, and that of `main`.
  abbrev pub shutdown_events : List (MainEvent (master_app c))
  shutdown_events =
      (signal ∷ take_signal ∷ cancel ∷ check ∷ [])
      ++ (as_main c server_endings ++ join ∷ close_done ∷ finishes ∷ [])

  run_main-append :
      (es fs : List (MainEvent (master_app c))) (p : Process (master_app c))
      → run_main (master_app c) (es ++ fs) p
        ≡ run_main (master_app c) fs (run_main (master_app c) es p)
  unfolding run_main
  run_main-append [] fs p = refl
  run_main-append (e ∷ es) fs p = run_main-append es fs (step (master_app c) e p)

  joined_lem :
      (s : Servers)
      → Counted s
      → s.crash ≡ none
      → is_done s ≡ false
      → s.grpc ≢ opening
      → s.http ≢ opening
      → (run_main
          (master_app c)
          (as_main c server_endings ++ join ∷ close_done ∷ finishes ∷ [])
          (joining_process s)).exit
        ≡ some 0
  joined_lem s v n d g h =
      let (closed, sound) = told_lem s v n d g h in
      rw
        (
          run_main-append (as_main c server_endings) (join ∷ close_done ∷ finishes ∷ [])
              (joining_process s),
          runs_lem server_endings s sound,
        )
        (finish_lem _ closed)

-- From any state of a live master in which `appDone` is set, no signal is taken yet, and both of its
-- servers are assigned, the program can end with status 0 after a signal: every server ends.
pub master_shutdown :
    (c : Config) (before : List (MainEvent (master_app c))) (p : Process (master_app c))
    (s : Servers)
    → run_main (master_app c) before (new_process (master_app c)) ≡ p
    → p.assigned ≡ true
    → p.watcher ≡ idle
    → p.exit ≡ none
    → p.mode ≡ some s
    → s.crash ≡ none
    → is_done s ≡ false
    → s.grpc ≢ opening
    → s.http ≢ opening
    → (run_main (master_app c) (shutdown_events c) p).exit ≡ some 0
master_shutdown c before p s r a w x m n d g h =
    let v : Counted s = reached-good (master_app c) (master_laws c) before p s r m in
    let not_done = reached-open (master_app c) (master_laws c) before p r w in
    rw
      (
        run_main-append c (signal ∷ take_signal ∷ cancel ∷ check ∷ []) _ p,
        signal_lem c p s a w not_done x m,
      )
      (joined_lem c s v n d g h)
