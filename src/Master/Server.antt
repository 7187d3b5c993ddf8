-- ===== src/Master/Server.antt =====
-- internal/modes/master/server/server.go: the calls of the gRPC service but for `RegisterSlave`, and
-- `AllocateChannels` of internal/svc/autoscaler/autoscaler.go. MongoDB, the data loader round `Fetch`
-- and `RequestJoin` are parameters.
pub mod Calls
use waterhose.Prelude.{
  ℕ, Bool, true, false, List, [], ◌∷◌, Option, none, some, Bytes, Outcome, ok, panic, ◌>>=◌,
  if◌then◌else◌,
}
use waterhose.Structures.{Channel, ChannelState, PbChannel, suspended, joined, unknown}
use waterhose.Slave.Connection.{
  EventType, joined_event, suspended_event, bot_banned_event, unknown_event,
}

-- The fields of `$set` in an `UpdateOne`.
pub data Update : Type 0 where
  set_bot_banned : Update
  set_state : ChannelState → Update
  set_state_banned : ChannelState → Bool → Update

-- The collection of channels: an `UpdateOne` of the row with a Twitch id; `false` is an error.
pub record Collection : Type 1 where
  pub State : Type 0
  pub update_one : State → Bytes → Update → Bool × State

pub data CallError : Type 0 where
  load_error context_error : CallError

-- The data loader of the autoscaler: its `LoadAll` gives the errors of a list of channels.
pub record Loader : Type 1 where
  pub State : Type 0
  pub load_all : State → List PbChannel → List (Option CallError) × State

-- What a call answers.
pub data Answer : Type 0 where
  success : Answer
  failure : CallError → Answer

abbrev pub answer : Option CallError → Answer
answer none = success
answer (some e) = failure e

module _ (loader : Loader) where
  -- `AllocateChannels`: it gives the first error.
  unfoldable pub allocate_channels :
      loader.State → List PbChannel → Outcome (Option CallError × loader.State)
  allocate_channels s channels =
      let (errs, s') = loader.load_all s channels in elim errs [ [] ↦ panic | e ∷ _ ↦ ok (e, s') ]

  -- `JoinChannel`
  unfoldable pub join_channel : loader.State → List PbChannel → Outcome (Answer × loader.State)
  unfolding allocate_channels
  join_channel s channels = do (e, s') ← allocate_channels s channels; ok (answer e, s')

  module _ (collection : Collection) where
    -- The update of an event.
    abbrev pub event_update : EventType → PbChannel → Update
    event_update bot_banned_event channel = set_bot_banned
    event_update suspended_event channel = set_state suspended
    event_update joined_event channel = set_state_banned joined channel.bot_banned
    event_update unknown_event channel = set_state unknown

    -- `PublishSlaveChannelEvent`: an error of the update is logged only.
    unfoldable pub publish_slave_channel_event :
        EventType
        → PbChannel
        → collection.State
        → loader.State
        → Outcome (Answer × collection.State × loader.State)
    unfolding allocate_channels
    publish_slave_channel_event event channel rows s =
        let (updated, rows') = collection.update_one rows channel.id (event_update event channel) in
        elim event [
          | unknown_event ↦ do
            (e, s') ← allocate_channels s (channel ∷ [])
            ok (answer e, rows', s')
          | _ ↦ ok (success, rows', s)
        ]

-- `SlaveJoinLimit`: `limited` is the error of `RequestJoin`.
abbrev pub slave_join_limit : Option CallError → Answer
slave_join_limit limited = answer limited
