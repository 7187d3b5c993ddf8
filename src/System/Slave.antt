-- ===== src/System/Slave.antt =====
-- internal/modes/master/server/server.go with internal/modes/slave: a slave that receives what
-- `RegisterSlave` sends.
use mathlib.Core.Path.{subst}
use waterhose.Prelude.{
  ℕ, ◌+◌, ◌<◌, ◌^◌, true, false, List, [], ◌∷◌, map, ◌≡◌, refl, ◌∙◌, Bytes, arith, length, bytes_eq,
  ok, panic, string_eq,
}
use waterhose.Prelude.Dict.{lookup}
use waterhose.Structures.{
  Channel, PbChannel, User, Payload, join_payload, part_payload, login_payload,
}
use waterhose.Irc.Client.{new_client}
use waterhose.Slave.Connection.{Action}
use waterhose.Slave.Manager.{Manager, new_manager, join_chat, allocate_chat, pick_conn, new_conn}
use waterhose.Slave.Manager.Invariant.{Inv, new_manager-Inv}
use waterhose.Slave.Client.{receive_all, receive, join_all}
use waterhose.Slave.Client.Runs.{Allocated, Sound, AllSound, all_joins, login-Ran, receive_all-Ran}
use waterhose.Slave.Client.Sessions.{login_first}
use waterhose.Master.Stream.{
  Stream, Label, quiet, published, new_stream, pb_channel, Run, starts, goes_on, channels_come,
  takes_channels, handle_joins,
}
use waterhose.Master.Stream.Order.{Messages, Run-Sends}

-- A user with a name.
abbrev pub Named : User → Type 0
Named u = bytes_eq u.login [] ≡ false

abbrev pub payloads_of : List ((ℕ → ℕ) × Payload) → List Payload
payloads_of = map (λ t. t.1)

module _ (account_id : Bytes) (empty_channel : ℕ → ℕ) (is_own : List Channel → Type 0) where
  Messages-AllSound :
      (timed : List ((ℕ → ℕ) × Payload))
      → Messages account_id empty_channel Named is_own (payloads_of timed)
      → AllSound timed
  unfolding Messages AllSound Sound
  Messages-AllSound [] h = tt
  Messages-AllSound ((clock, join_payload channels) ∷ timed) h = (tt, Messages-AllSound timed h)
  Messages-AllSound ((clock, part_payload channels) ∷ timed) h = elim h [ ]
  Messages-AllSound ((clock, login_payload channel oauth) ∷ timed) ((u, named, same), h) =
      (rw same named, Messages-AllSound timed h)

  -- A new slave receives what a stream has sent, at any times. If the first message is the login, the
  -- users have names, and the lists hold less than 2^32 channels in all, then the slave does not
  -- panic, the maps of its manager agree, and each channel that was sent has an allocation.
  pub stream-receive_all :
      (limit : ℕ) (labels : List Label) (s : Stream) (clock : ℕ → ℕ) (channel : PbChannel)
      (oauth : Bytes) (timed : List ((ℕ → ℕ) × Payload))
      → Run account_id empty_channel Named is_own labels s
      → s.sent ≡ login_payload channel oauth ∷ payloads_of timed
      → length (all_joins timed) < 2 ^ 32
      → (m : Manager) × (actions : List Action) × (receive_all limit
            ((clock, login_payload channel oauth) ∷ timed)
            new_manager
          ≡ ok (m, actions))
        × Inv m
        × Allocated (all_joins timed) m
  unfolding AllSound Sound
  stream-receive_all limit labels s clock channel oauth timed run e small =
      let all = Messages-AllSound ((clock, login_payload channel oauth) ∷ timed) (
        subst (Messages account_id empty_channel Named is_own) e
          ((Run-Sends account_id empty_channel Named is_own labels s run).messages)) in
      let l =
        login-Ran (length (all_joins timed) + 0) channel oauth new_manager all.0 new_manager-Inv
          (omega (arith, small)) (omega (arith, small)) in
      let (m, actions, f, r) = receive_all-Ran limit 0 timed _ all.1 l.prepared in
      (
        m,
        actions,
        login_first limit clock channel oauth timed new_manager ∙ f,
        r.prepared.inv,
        r.allocated,
      )

  -- A list that is published for the slave as soon as its stream is open can be sent before the login,
  -- and a slave that receives it then panics, if its first channel is to be joined with an account.
  pub early_join :
      (limit : ℕ) (clock : ℕ → ℕ) (channel : Channel) (channels : List Channel)
      → channel.use_anonymous ≡ false
      → (s : Stream) × Run account_id empty_channel Named is_own
          (published (channel ∷ channels) ∷ quiet ∷ [])
          s
        × (receive_all limit (map (λ p. (clock, p)) s.sent) new_manager ≡ panic)
  unfolding receive_all receive join_all join_chat allocate_chat pick_conn new_conn new_client
      lookup bytes_eq handle_joins
  early_join limit clock channel channels e =
      let batch = channel ∷ channels in
      let s1 : Stream = record new_stream { join_events = batch ∷ [] } in
      let s2 : Stream = record new_stream { sent = join_payload (map pb_channel batch) ∷ [] } in
      (
        s2,
        goes_on (published batch ∷ []) s1 quiet s2
            (goes_on [] new_stream (published batch) s1 starts
              (channels_come new_stream batch (omega arith)))
            (takes_channels s1 s2 batch [] true refl refl),
        rw (join_chat, allocate_chat, pick_conn, e) refl,
      )
