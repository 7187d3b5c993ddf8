-- ===== src/Slave/Connection/Dial/Tests.antt =====
-- The loops that dial at a concrete Redis.
use waterhose.Prelude.{ℕ, ◌+◌, true, false, Bool, some}
use waterhose.Prelude.Int.{pos}
use waterhose.Svc.Redis.{RedisApi}
use waterhose.Slave.Connection.Dial.{Clocked, on_reconnect}
use waterhose.Slave.Connection.Dial.Permits.{Waited, on_reconnect-Waited}

-- A server with one counter, which has expired behind every wait.
abbrev counter : RedisApi
counter = record {
  State = ℕ;
  incr_ttl = λ s key n. (some (s + n, pos 5), s + n);
  expire = λ s key d. (true, s);
}

abbrev clock : Clocked counter
clock = record { wait = λ s ttl. 0 }

abbrev never : ℕ → Bool
never i = false

on_reconnect-Waited_example :
    Waited counter clock never (on_reconnect counter clock never 2 3 0 150)
on_reconnect-Waited_example = on_reconnect-Waited counter clock never 2 3 0 150
