-- ===== src/System/Tests.antt =====
-- A master's stream and a slave at concrete inputs.
use waterhose.Prelude.{
  ℕ, ◌<◌, ◌^◌, true, false, List, [], ◌∷◌, ◌++◌, ◌≡◌, refl, codes, arith, length, bytes_eq, ok,
}
use waterhose.Prelude.Int.{pos}
use waterhose.Structures.{Channel, User, Payload, join_payload, unknown}
use waterhose.Svc.Twitch.Login.{Credentials}
use waterhose.Slave.Connection.{Action}
use waterhose.Slave.Manager.{Manager, new_manager}
use waterhose.Slave.Manager.Invariant.{Inv}
use waterhose.Slave.Client.{Session, receive_all, run}
use waterhose.Slave.Client.Runs.{Allocated, AllSound, Sound, all_joins, joins}
use waterhose.Slave.Client.Sessions.{AllSessions, run_joins, run_lem}
use waterhose.Master.Stream.{
  Stream, Label, quiet, published, new_stream, pb_channel, account_channel, login_message, Run,
  starts, goes_on, channels_come, takes_login, takes_channels, handle_login, handle_joins,
}
use waterhose.Master.Stream.Order.{Sends, inputs, Run-Sends}
use waterhose.System.Delivery.{came, delivered}
use waterhose.System.Slave.{Named}

abbrev bot : User
bot = record { id = codes "7"; login = codes "bot" }

abbrev auth : Credentials
auth = record { access_token = codes "t"; refresh_token = codes "r"; expires_in = pos 9 }

abbrev forsen : Channel
forsen = record {
  twitch_id = codes "1";
  twitch_login = codes "forsen";
  priority = pos 0;
  edge_node = pos 0;
  state = unknown;
  use_anonymous = false;
  bot_banned = false;
}

abbrev emptied : ℕ → ℕ
emptied n = 0

abbrev Any : List Channel → Type 0
Any channels = Unit

abbrev login : Payload
login = login_message (codes "7") emptied auth bot

abbrev logged_in : Stream
logged_in = record {
  login_events = 0;
  join_events = [];
  first = true;
  fetching = true;
  sent = login ∷ [];
}

abbrev waiting : Stream
waiting = record logged_in { join_events = (forsen ∷ []) ∷ [] }

abbrev joined : Stream
joined = record logged_in { sent = login ∷ join_payload (pb_channel forsen ∷ []) ∷ [] }

-- A login, a list that is published, and that list sent.
abbrev labels : List Label
labels = quiet ∷ published (forsen ∷ []) ∷ quiet ∷ []

stream : Run (codes "7") emptied Named Any labels joined
unfolding handle_login handle_joins bytes_eq
stream =
    goes_on (quiet ∷ published (forsen ∷ []) ∷ []) waiting quiet joined
      (goes_on (quiet ∷ []) logged_in (published (forsen ∷ [])) waiting
        (goes_on [] new_stream quiet logged_in starts
          (takes_login new_stream logged_in auth bot true (omega arith) refl refl))
        (channels_come logged_in (forsen ∷ []) (omega arith)))
      (takes_channels waiting joined (forsen ∷ []) [] true refl refl)

Run-Sends_example : Sends (codes "7") emptied Named Any labels joined
Run-Sends_example = Run-Sends (codes "7") emptied Named Any labels joined stream

abbrev clock : ℕ → ℕ
clock n = n

abbrev timed : List ((ℕ → ℕ) × Payload)
timed = (clock, join_payload (pb_channel forsen ∷ [])) ∷ []

few : length (came labels) < 2 ^ 32
unfolding inputs
few = omega arith

delivered_example :
    (m : Manager) × (actions : List Action) × (receive_all 50 ((clock, login) ∷ timed) new_manager
      ≡ ok (m, actions))
    × Inv m
    × Allocated (came labels) m
delivered_example =
    delivered (codes "7") emptied Any 50 labels joined clock (account_channel (codes "7") bot.login)
      auth.access_token timed stream refl refl few

-- A second stream, which starts without a login.
abbrev second_session : Session
second_session = record { payloads = timed; ending = true }

few_again : length (all_joins timed ++ run_joins (second_session ∷ [])) < 2 ^ 32
unfolding all_joins joins run_joins
few_again = omega arith

run_lem_example :
    (m : Manager) × (actions : List Action) × (run 50
        (record { payloads = (clock, login) ∷ timed; ending = false } ∷ second_session ∷ [])
        new_manager
      ≡ ok (m, actions))
    × Inv m
run_lem_example =
    run_lem 50 clock (account_channel (codes "7") bot.login) auth.access_token timed false
      (second_session ∷ []) (unfold bytes_eq in refl) (unfold AllSound Sound in (tt, tt))
      (unfold AllSessions AllSound Sound in ((tt, tt), tt)) few_again
