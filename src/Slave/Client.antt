-- ===== src/Slave/Client.antt =====
-- internal/modes/slave/client/client.go: what a slave does with the messages of the master. The
-- connection to the master and the clock are parameters.
pub mod Grows
pub mod Runs
pub mod Sessions
use waterhose.Prelude.{
  ℕ, zero, suc, Bool, true, false, not, ◌&&◌, List, [], ◌∷◌, ◌++◌, codes, if◌then◌else◌, Outcome,
  ok, panic, ◌>>=◌,
}
use waterhose.Structures.{PbChannel, Payload, join_payload, part_payload, login_payload}
use waterhose.Slave.Connection.{Action}
use waterhose.Slave.Manager.{Manager, ConnectionOptions, join_chat, part_chat, set_login_creds}

-- `for _, v := range channels { c.manager.JoinChat(v) }`; call number `n` is at the time `clock n`.
unfoldable pub join_all : ℕ → (ℕ → ℕ) → List PbChannel → Manager → Outcome (Manager × List Action)
join_all limit clock [] m = ok (m, [])
join_all limit clock (channel ∷ channels) m = do
  (m', actions) ← join_chat limit (clock 0) channel m
  (m'', later) ← join_all limit (λ n. clock (suc n)) channels m'
  ok (m'', actions ++ later)

unfoldable pub part_all : List PbChannel → Manager → Outcome Manager
part_all [] m = ok m
part_all (channel ∷ channels) m = do m' ← part_chat channel m; part_all channels m'

-- One message of `initGrpc`.
unfoldable pub receive : ℕ → (ℕ → ℕ) → Payload → Manager → Outcome (Manager × List Action)
unfolding join_all part_all
receive limit clock (join_payload channels) m = join_all limit clock channels m
receive limit clock (part_payload channels) m = do m' ← part_all channels m; ok (m', [])
receive limit clock (login_payload channel oauth) m =
    ok
      (set_login_creds (record { username = channel.login; oauth = codes "oauth:" ++ oauth }) m, [])

-- The messages of one stream: `initGrpc` from `events.Recv` on, until the stream ends.
unfoldable pub receive_all :
    ℕ → List ((ℕ → ℕ) × Payload) → Manager → Outcome (Manager × List Action)
receive_all limit [] m = ok (m, [])
receive_all limit ((clock, payload) ∷ payloads) m = do
  (m', actions) ← receive limit clock payload m
  (m'', later) ← receive_all limit payloads m'
  ok (m'', actions ++ later)

-- A round of `New`: the messages of a stream that was opened, and whether the program is ending when
-- `initGrpc` returns, which it does with an error always.
pub record Session : Type 0 where
  pub payloads : List ((ℕ → ℕ) × Payload)
  pub ending : Bool

-- The loop of `New`: one manager sees the streams one after the other.
unfoldable pub run : ℕ → List Session → Manager → Outcome (Manager × List Action)
run limit [] m = ok (m, [])
run limit (s ∷ sessions) m = do
  (m', actions) ← receive_all limit s.payloads m
  let rest = run limit sessions m'
  if s.ending then ok (m', actions) else (do (m'', later) ← rest; ok (m'', actions ++ later))
