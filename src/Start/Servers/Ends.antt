-- ===== src/Start/Servers/Ends.antt =====
-- internal/modes/master/master.go: the wait group counts the servers that run, and the channel of `New`
-- is closed when none does.
use waterhose.Prelude.{
  ℕ, ◌+◌, ◌≡◌, ◌≤◌, ◌⊎◌, ◌≢◌, unless_some, Bool, true, false, List, [], ◌∷◌, none, some, arith,
}
use waterhose.Start.{Config, wait_group_done}
use waterhose.Start.Servers.{
  Server, Stage, absent, opening, up, over, joining, Servers, ServerEvent, opens, fails, ends, stop,
  shut_http, close_done, grpc_server, http_server, health_server, monitoring_server, is_done,
  new_servers, server_event, run_servers, live_event, stage,
}

abbrev pub running : Stage → ℕ
running absent = 0
running opening = 1
running up = 1
running over = 0

-- The wait group counts the goroutines, has not panicked, and was waited for.
pub record Counted (s : Servers) : Type 0 where
  pub counted : s.count ≡ running s.grpc + running s.http + running s.health + running s.monitoring
  pub waited : is_done s ≡ true → s.count ≡ 0
  pub health_opened : s.health ≢ opening
  pub monitoring_opened : s.monitoring ≢ opening
  pub exit_status : s.crash ≢ some 0
  pub panicked : s.crash ≡ some 2 → (s.grpc ≡ opening) ⊎ (s.http ≡ opening)

pub new_servers-Counted : (c : Config) → Counted (new_servers c)
new_servers-Counted c = ground arith

live_event-Counted :
    (cancelled : Bool) (e : ServerEvent) (s : Servers)
    → s.crash ≡ none
    → Counted s
    → Counted (live_event cancelled e s)
unfolding wait_group_done
live_event-Counted cancelled (opens grpc_server) s n c = ground arith
live_event-Counted cancelled (opens http_server) s n c = ground arith
live_event-Counted cancelled (opens health_server) s n c = ground arith
live_event-Counted cancelled (opens monitoring_server) s n c = ground arith
live_event-Counted cancelled (fails grpc_server) s n c = ground arith
live_event-Counted cancelled (fails http_server) s n c = ground arith
live_event-Counted cancelled (fails health_server) s n c = ground arith
live_event-Counted cancelled (fails monitoring_server) s n c = ground arith
live_event-Counted cancelled (ends grpc_server) s n c = ground arith
live_event-Counted cancelled (ends http_server) s n c = ground arith
live_event-Counted cancelled (ends health_server) s n c = ground arith
live_event-Counted cancelled (ends monitoring_server) s n c = ground arith
live_event-Counted cancelled stop s n c = ground arith
live_event-Counted cancelled shut_http s n c = ground arith
live_event-Counted cancelled close_done s n c = ground arith

pub server_event-Counted :
    (cancelled : Bool) (e : ServerEvent) (s : Servers)
    → Counted s
    → Counted (server_event cancelled e s)
unfolding server_event
server_event-Counted cancelled e s c =
    unless_some Counted s.crash (λ x. live_event-Counted cancelled e s x c) c

-- The program is ending: none of the servers will still open, and all were told to stop.
pub record Closing (s : Servers) : Type 0 where
  pub counted : Counted s
  pub no_crash : s.crash ≡ none
  pub joined : s.closer ≡ joining
  pub shut : s.http_shut ≡ true
  pub grpc_opened : s.grpc ≢ opening
  pub http_opened : s.http ≢ opening

-- No server runs in the second state that did not in the first.
record Fewer (s t : Servers) : Type 0 where
  grpc_fewer : running t.grpc ≤ running s.grpc
  http_fewer : running t.http ≤ running s.http
  health_fewer : running t.health ≤ running s.health
  monitoring_fewer : running t.monitoring ≤ running s.monitoring

abbrev Ended : Server → Servers → Type 0
Ended x s =
    let t = server_event true (ends x) s in Closing t × (running (stage x t) ≡ 0) × Fewer s t

ends-Ended : (x : Server) (s : Servers) → Closing s → Ended x s
unfolding server_event wait_group_done
ends-Ended grpc_server s c = ground arith
ends-Ended http_server s c = ground arith
ends-Ended health_server s c = ground arith
ends-Ended monitoring_server s c = ground arith

-- The ends of the four servers, of which some may be none or were before, and the close of the channel.
abbrev pub endings : List (Bool × ServerEvent)
endings =
    (true, ends grpc_server)
    ∷ (true, ends http_server)
    ∷ (true, ends health_server)
    ∷ (true, ends monitoring_server)
    ∷ (true, close_done)
    ∷ []

close_done_lem :
    (s : Servers)
    → Closing s
    → s.count ≡ 0
    → let t = server_event true close_done s in (is_done t ≡ true) × (t.crash ≡ none)
unfolding server_event
close_done_lem s c z = ground arith

endings_lem :
    (s : Servers)
    → Closing s
    → let t = run_servers endings s in (is_done t ≡ true) × (t.crash ≡ none)
unfolding run_servers
endings_lem s c =
    let (c1, z1, f1) = ends-Ended grpc_server s c in
    let (c2, z2, f2) = ends-Ended http_server _ c1 in
    let (c3, z3, f3) = ends-Ended health_server _ c2 in
    let (c4, z4, f4) = ends-Ended monitoring_server _ c3 in
    close_done_lem _ c4 (
      omega (
        arith, c4.counted.counted, z1, z2, z3, z4, f2.grpc_fewer, f3.grpc_fewer, f4.grpc_fewer,
        f3.http_fewer, f4.http_fewer, f4.health_fewer,
      ))

run_servers-Counted :
    (events : List (Bool × ServerEvent)) (s : Servers) → Counted s → Counted (run_servers events s)
unfolding run_servers
run_servers-Counted [] s c = c
run_servers-Counted ((cancelled, e) ∷ events) s c =
    run_servers-Counted events _ (server_event-Counted cancelled e s c)

tell_Closing :
    (s : Servers)
    → Counted s
    → s.crash ≡ none
    → is_done s ≡ false
    → s.grpc ≢ opening
    → s.http ≢ opening
    → Closing (server_event true shut_http (server_event true stop s))
unfolding server_event
tell_Closing s c n d g h = ground arith

-- In any order of events, the wait group counts the servers that have not ended, the channel of `New` is
-- closed only where none runs, and a panic needs a server that is not assigned yet.
pub servers_lem :
    (c : Config) (events : List (Bool × ServerEvent))
    → let s = run_servers events (new_servers c) in
      (s.count ≡ running s.grpc + running s.http + running s.health + running s.monitoring)
      × ((is_done s ≡ false) ⊎ (s.count ≡ 0))
      × ((s.crash ≢ some 2) ⊎ (s.grpc ≡ opening) ⊎ (s.http ≡ opening))
servers_lem c events =
    let v = run_servers-Counted events (new_servers c) (new_servers-Counted c) in
    (v.counted, ground (arith, v.waited), ground (arith, v.panicked))

-- From a state with assigned servers on, where the program has not ended.
pub told_lem :
    (s : Servers)
    → Counted s
    → s.crash ≡ none
    → is_done s ≡ false
    → s.grpc ≢ opening
    → s.http ≢ opening
    → let t = run_servers ((true, stop) ∷ (true, shut_http) ∷ endings) s in
      (is_done t ≡ true) × (t.crash ≡ none)
unfolding run_servers
told_lem s v n d g h = endings_lem _ (tell_Closing s v n d g h)
