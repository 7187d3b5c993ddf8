-- ===== src/Slave/Client/Sessions.antt =====
-- internal/modes/slave/client/client.go: the streams that a slave receives, one after the other.
use waterhose.Prelude.{
  ℕ, ◌<◌, ◌^◌, Bool, false, List, [], ◌∷◌, ◌++◌, ◌≡◌, refl, arith, inl, inr, Bytes, Outcome, ok,
  panic, ◌>>=◌, length, length-append, Bool-cases, bytes_eq, string_eq, nat_eq,
}
use waterhose.Structures.{PbChannel, Payload, login_payload}
use waterhose.Slave.Connection.{Action}
use waterhose.Slave.Manager.{Manager, new_manager, set_login_creds}
use waterhose.Slave.Manager.Invariant.{Inv, new_manager-Inv}
use waterhose.Slave.Client.{Session, receive, receive_all, run}
use waterhose.Slave.Client.Runs.{
  Prepared, AllSound, all_joins, login_options, login-Ran, receive_all-Ran, Prepared-room,
}

-- The channels that the streams join.
unfoldable pub run_joins : List Session → List PbChannel
run_joins [] = []
run_joins (s ∷ sessions) = all_joins s.payloads ++ run_joins sessions

unfoldable pub AllSessions : List Session → Type 0
AllSessions [] = Unit
AllSessions (s ∷ sessions) = AllSound s.payloads × AllSessions sessions

run-Inv :
    (limit : ℕ) (sessions : List Session) (m : Manager)
    → AllSessions sessions
    → Prepared (length (run_joins sessions)) m
    → (m' : Manager) × (actions : List Action) × (run limit sessions m ≡ ok (m', actions)) × Inv m'
unfolding run AllSessions run_joins
run-Inv limit [] m h p = (m, [], refl, p.inv)
run-Inv limit (s ∷ sessions) m (h, hs) p =
    let room = length-append (all_joins s.payloads) (run_joins sessions) in
    let (m1, actions, e, r) =
      receive_all-Ran limit (length (run_joins sessions)) s.payloads m h
        (Prepared-room _ _ m room p) in
    let (m2, later, f, v) = run-Inv limit sessions m1 hs r.prepared in
    elim (Bool-cases s.ending) [
      | inl last ↦ (m1, actions, rw (e, last) refl, r.prepared.inv)
      | inr again ↦ (m2, actions ++ later, rw (e, again, f) refl, v)
    ]

pub login_first :
    (limit : ℕ) (clock : ℕ → ℕ) (channel : PbChannel) (oauth : Bytes)
    (payloads : List ((ℕ → ℕ) × Payload)) (m : Manager)
    → receive_all limit ((clock, login_payload channel oauth) ∷ payloads) m
      ≡ receive_all limit payloads (set_login_creds (login_options channel oauth) m)
unfolding receive_all receive
login_first limit clock channel oauth payloads m =
    again (receive_all limit payloads (set_login_creds (login_options channel oauth) m))
  where
    again : (o : Outcome (Manager × List Action)) → (o >>= (λ x. ok (x.0, [] ++ x.1))) ≡ o
    again panic = refl
    again (ok x) = refl

-- A slave whose first stream starts with a login, where every other message is a join or a login too,
-- every login has a name, and the streams join less than 2^32 channels in all: none of them panics,
-- and the maps of the manager agree behind the last.
pub run_lem :
    (limit : ℕ) (clock : ℕ → ℕ) (channel : PbChannel) (oauth : Bytes)
    (payloads : List ((ℕ → ℕ) × Payload)) (ending : Bool) (sessions : List Session)
    → bytes_eq channel.login [] ≡ false
    → AllSound payloads
    → AllSessions sessions
    → length (all_joins payloads ++ run_joins sessions) < 2 ^ 32
    → (m : Manager) × (actions : List Action) × (run limit
          (record { payloads = (clock, login_payload channel oauth) ∷ payloads; ending = ending }
            ∷ sessions)
          new_manager
        ≡ ok (m, actions))
      × Inv m
unfolding run AllSessions run_joins
run_lem limit clock channel oauth payloads ending sessions h hs hss small =
    let m0 : Manager = set_login_creds (login_options channel oauth) new_manager in
    let s : Session = record { payloads = payloads; ending = ending } in
    let l =
      login-Ran (length (run_joins (s ∷ sessions))) channel oauth new_manager h new_manager-Inv
        (omega (arith, small)) (omega (arith, small)) in
    let (m, actions, e, v) = run-Inv limit (s ∷ sessions) m0 (hs, hss) l.prepared in
    (m, actions, rw (run, login_first limit clock channel oauth payloads new_manager) e, v)
