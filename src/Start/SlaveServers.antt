-- ===== src/Start/SlaveServers.antt =====
-- internal/modes/slave/slave.go and `New` of internal/modes/slave/client/client.go: the goroutines that a
-- slave starts beside its streams, as a machine whose events come in any order.
use waterhose.Prelude.{
  ℕ, ◌+◌, Bool, true, false, not, ◌&&◌, Option, none, some, ok, panic, ◌≡◌, ◌≢◌, arith,
  if◌then◌else◌, unless_some,
}
use waterhose.Start.{Config, wait_group_done, one_for, slave_wait_group}
use waterhose.Start.Servers.{Stage, absent, over, is_up, started_if}
use waterhose.Start.Servers.Ends.{running}

pub record SlaveServers : Type 0 where
  pub client_done : Bool  -- the channel of `client.New` is closed
  pub health : Stage
  pub monitoring : Stage
  pub count : ℕ  -- of `wg`
  pub closed : Bool  -- the channel of `slave.New` is closed
  pub crash : Option ℕ  -- the exit status of a panic or of a fatal log line

pub data SlaveEvent : Type 0 where
  client_closes health_ends monitoring_ends health_fails monitoring_fails finishes : SlaveEvent

-- `New`
abbrev pub new_slave : Config → SlaveServers
new_slave c = record {
  client_done = false;
  health = started_if c.health_enabled;
  monitoring = started_if c.monitoring_enabled;
  count = slave_wait_group c;
  closed = false;
  crash = none;
}

-- `wg.Done`: where it does not panic, the state is that with the new count.
abbrev pub done_slave : (ℕ → SlaveServers) → SlaveServers → SlaveServers
done_slave next s = elim (wait_group_done s.count) [
  | ok n ↦ next n
  | panic ↦ record s { crash = some 2 }
]

-- What happens in one event, where `gCtx` is cancelled or not; one that is not possible changes nothing.
abbrev pub live_slave_event : Bool → SlaveEvent → SlaveServers → SlaveServers
live_slave_event cancelled client_closes s =
    if cancelled then record s { client_done = true } else s
live_slave_event cancelled health_ends s =
    if is_up s.health && cancelled
    then done_slave (λ n. record s { health = over; count = n }) s
    else s
live_slave_event cancelled monitoring_ends s =
    if is_up s.monitoring && cancelled
    then done_slave (λ n. record s { monitoring = over; count = n }) s
    else s
live_slave_event cancelled health_fails s =
    if is_up s.health then record s { crash = some 1 } else s
live_slave_event cancelled monitoring_fails s =
    if is_up s.monitoring then record s { crash = some 1 } else s
live_slave_event cancelled finishes s =
    if cancelled && s.client_done && not s.closed
    then done_slave (λ n. record s { closed = true; count = n }) s
    else s

unfoldable pub slave_event : Bool → SlaveEvent → SlaveServers → SlaveServers
unfolding wait_group_done
slave_event cancelled e s = elim s.crash [ none ↦ live_slave_event cancelled e s | some status ↦ s ]

-- The end of the slave takes one place of the wait group, which is that of a server that was started.
pub record SlaveGood (c : Config) (s : SlaveServers) : Type 0 where
  pub counted : s.count + one_for s.closed ≡ running s.health + running s.monitoring
  pub health_on : s.health ≢ absent → c.health_enabled ≡ true
  pub monitoring_on : s.monitoring ≢ absent → c.monitoring_enabled ≡ true
  pub behind_client : s.closed ≡ true → s.client_done ≡ true
  pub exit_status : s.crash ≢ some 0

pub new_slave-SlaveGood : (c : Config) → SlaveGood c (new_slave c)
new_slave-SlaveGood c = ground arith

live_slave_event-SlaveGood :
    (c : Config) (cancelled : Bool) (e : SlaveEvent) (s : SlaveServers)
    → s.crash ≡ none
    → SlaveGood c s
    → SlaveGood c (live_slave_event cancelled e s)
unfolding wait_group_done
live_slave_event-SlaveGood c cancelled client_closes s n v = ground arith
live_slave_event-SlaveGood c cancelled health_ends s n v = ground arith
live_slave_event-SlaveGood c cancelled monitoring_ends s n v = ground arith
live_slave_event-SlaveGood c cancelled health_fails s n v = ground arith
live_slave_event-SlaveGood c cancelled monitoring_fails s n v = ground arith
live_slave_event-SlaveGood c cancelled finishes s n v = ground arith

pub slave_event-SlaveGood :
    (c : Config) (cancelled : Bool) (e : SlaveEvent) (s : SlaveServers)
    → SlaveGood c s
    → SlaveGood c (slave_event cancelled e s)
unfolding slave_event
slave_event-SlaveGood c cancelled e s v =
    unless_some (SlaveGood c) s.crash (λ n. live_slave_event-SlaveGood c cancelled e s n v) v

live_slave_event-closed :
    (cancelled : Bool) (e : SlaveEvent) (s : SlaveServers)
    → s.closed ≡ true
    → (live_slave_event cancelled e s).closed ≡ true
unfolding wait_group_done
live_slave_event-closed cancelled client_closes s h = ground arith
live_slave_event-closed cancelled health_ends s h = ground arith
live_slave_event-closed cancelled monitoring_ends s h = ground arith
live_slave_event-closed cancelled health_fails s h = ground arith
live_slave_event-closed cancelled monitoring_fails s h = ground arith
live_slave_event-closed cancelled finishes s h = ground arith

pub slave_event-closed :
    (cancelled : Bool) (e : SlaveEvent) (s : SlaveServers)
    → s.closed ≡ true
    → (slave_event cancelled e s).closed ≡ true
unfolding slave_event
slave_event-closed cancelled e s h =
    unless_some (λ (t : SlaveServers). t.closed ≡ true) s.crash
      (λ n. live_slave_event-closed cancelled e s h) h
