-- ===== src/Start/Servers.antt =====
-- internal/modes/master/master.go: the goroutines of `New` as a machine whose events come in any order.
-- When a listener opens, fails or ends is the environment's choice; an assignment is seen by the other
-- goroutines at once.
pub mod Ends
use waterhose.Prelude.{
  ℕ, ◌+◌, List, [], ◌∷◌, Bool, true, false, not, ◌&&◌, ◌||◌, ◌==◌, Option, none, some, ok, panic,
  if◌then◌else◌,
}
use waterhose.Start.{Config, wait_group_done, one_for}

pub data Server : Type 0 where
  grpc_server http_server health_server monitoring_server : Server

-- The goroutine of a server: not started, up to the assignment of the server, from there on, and behind
-- its deferred `wg.Done`.
pub data Stage : Type 0 where
  absent opening up over : Stage

-- The last goroutine: before `<-gCtx.Done()` returns, in `wg.Wait`, and behind `close(done)`.
pub data Closer : Type 0 where
  waiting joining closed : Closer

pub record Servers : Type 0 where
  pub grpc : Stage
  pub http : Stage
  pub health : Stage
  pub monitoring : Stage
  pub count : ℕ  -- of `wg`
  pub closer : Closer
  pub http_shut : Bool  -- `httpSrv.Shutdown` was called
  pub crash : Option ℕ  -- the exit status of a panic or of a fatal log line

pub data ServerEvent : Type 0 where
  opens fails ends : Server → ServerEvent
  stop shut_http close_done : ServerEvent

abbrev pub stage : Server → Servers → Stage
stage grpc_server s = s.grpc
stage http_server s = s.http
stage health_server s = s.health
stage monitoring_server s = s.monitoring

abbrev pub put_stage : Server → Stage → Servers → Servers
put_stage grpc_server t s = record s { grpc = t }
put_stage http_server t s = record s { http = t }
put_stage health_server t s = record s { health = t }
put_stage monitoring_server t s = record s { monitoring = t }

abbrev pub is_opening : Stage → Bool
is_opening opening = true
is_opening _ = false

abbrev pub is_up : Stage → Bool
is_up up = true
is_up _ = false

abbrev pub is_waiting : Closer → Bool
is_waiting waiting = true
is_waiting _ = false

abbrev pub is_joining : Closer → Bool
is_joining joining = true
is_joining _ = false

abbrev pub started_if : Bool → Stage
started_if enabled = if enabled then up else absent

-- `New`: the health and the monitoring server assign nothing that the others read.
abbrev pub new_servers : Config → Servers
new_servers c = record {
  grpc = opening;
  http = opening;
  health = started_if c.health_enabled;
  monitoring = started_if c.monitoring_enabled;
  count = 2 + one_for c.health_enabled + one_for c.monitoring_enabled;
  closer = waiting;
  http_shut = false;
  crash = none;
}

-- Whether a server was told to stop, so that it may end without an error.
abbrev pub is_told : Bool → Server → Servers → Bool
is_told cancelled grpc_server s = not (is_waiting s.closer)
is_told cancelled http_server s = s.http_shut
is_told cancelled _ s = cancelled

-- Whether a server may end with an error, which is fatal: the gRPC server listens before it is assigned.
abbrev pub may_fail : Server → Servers → Bool
may_fail grpc_server s = is_opening s.grpc || is_up s.grpc
may_fail http_server s = is_up s.http
may_fail health_server s = is_up s.health
may_fail monitoring_server s = is_up s.monitoring

-- The deferred `wg.Done`: a panic ends the program with status 2.
abbrev pub done_server : Server → Servers → Servers
done_server x s = elim (wait_group_done s.count) [
  | ok n ↦ put_stage x over (record s { count = n })
  | panic ↦ record s { crash = some 2 }
]

-- What happens in one event, where `gCtx` is cancelled or not; an event that is not possible changes
-- nothing. A server that is nil panics.
abbrev pub live_event : Bool → ServerEvent → Servers → Servers
live_event cancelled (opens x) s = if is_opening (stage x s) then put_stage x up s else s
live_event cancelled (fails x) s = if may_fail x s then record s { crash = some 1 } else s
live_event cancelled (ends x) s =
    if is_up (stage x s) && is_told cancelled x s then done_server x s else s
live_event cancelled stop s =
    if cancelled && is_waiting s.closer
    then (if is_opening s.grpc then record s { crash = some 2 } else record s { closer = joining })
    else s
live_event cancelled shut_http s =
    if not (is_waiting s.closer) && not s.http_shut
    then (if is_opening s.http then record s { crash = some 2 } else record s { http_shut = true })
    else s
live_event cancelled close_done s =
    if is_joining s.closer && s.count == 0 then record s { closer = closed } else s

unfoldable pub server_event : Bool → ServerEvent → Servers → Servers
unfolding wait_group_done
server_event cancelled e s = elim s.crash [ none ↦ live_event cancelled e s | some status ↦ s ]

-- Whether the channel that `New` returns is closed.
abbrev pub is_done : Servers → Bool
is_done s = elim s.closer [ closed ↦ true | _ ↦ false ]

-- Events in their order, each with whether `gCtx` is cancelled.
unfoldable pub run_servers : List (Bool × ServerEvent) → Servers → Servers
unfolding server_event
run_servers [] s = s
run_servers ((cancelled, e) ∷ events) s = run_servers events (server_event cancelled e s)
