-- ===== src/Master/Stream.antt =====
-- internal/modes/master/server/server.go: `RegisterSlave`, as a machine over the two channels of events
-- that it selects from. The answers of `GetOAuth`, `GetUser`, `GetChannelsForSlave` and of the stream
-- are arguments; so is what `EmptyChannel` leaves. That a send to a full channel waits is not modelled.
pub mod Order
pub mod Routing
use waterhose.Prelude.{
  ℕ, ◌+◌, ◌-◌, ◌<◌, Bool, true, false, not, ◌||◌, List, [], ◌∷◌, ◌++◌, map, ◌≡◌, Option, none, some,
  Bytes, codes, bytes_eq, if◌then◌else◌, length, ◌⊎◌, inl, inr,
}
use waterhose.Prelude.Int.{ℤ, pos}
use waterhose.Structures.{Channel, PbChannel, User, Payload, join_payload, login_payload}
use waterhose.Irc.Slice.{trim_prefix}
use waterhose.Strconv.{atoi}
use waterhose.Svc.Twitch.Login.{Credentials}
use waterhose.Svc.Events.{Event, topic, twitch_chat_login_format, slave_channel_update_format}

-- `slaveIdx`: `none` is `ErrBadNodeName`.
unfoldable pub slave_index : Bytes → Bytes → Option ℤ
slave_index statefulset_name slave_name =
    atoi (trim_prefix slave_name (statefulset_name ++ codes "-"))

pub data StreamError : Type 0 where
  no_login_data send_failed : StreamError

-- The buffers of `loginEventCh` and `joinEventCh`, `first`, whether the goroutine that asks for the
-- channels of the slave is running, and what was sent.
pub record Stream : Type 0 where
  pub login_events : ℕ
  pub join_events : List (List Channel)
  pub first : Bool
  pub fetching : Bool
  pub sent : List Payload

-- The stream when the loop starts.
abbrev pub new_stream : Stream
new_stream = record {
  login_events = 1;
  join_events = [];
  first = false;
  fetching = false;
  sent = [];
}

-- `make(chan struct{}, 50)`
abbrev pub buffer : ℕ
buffer = 50

abbrev pub account_channel : Bytes → Bytes → PbChannel
account_channel id login = record {
  id = id;
  login = login;
  priority = pos 0;
  use_anonymous = false;
  bot_banned = false;
}

abbrev pub pb_channel : Channel → PbChannel
pb_channel c = record {
  id = c.twitch_id;
  login = c.twitch_login;
  priority = c.priority;
  use_anonymous = c.use_anonymous;
  bot_banned = c.bot_banned;
}

-- What a step brings to `joinEventCh`.
pub data Label : Type 0 where
  quiet : Label
  published : List Channel → Label
  fetched : List Channel → Label

module _ (account_id : Bytes) (empty_channel : ℕ → ℕ) where
  abbrev pub login_message : Credentials → User → Payload
  login_message auth user = login_payload (account_channel account_id user.login) auth.access_token

  -- The case of `loginEventCh`: `auth` and `user` are the answers of `GetOAuth` and `GetUser`, `sent`
  -- is whether the message was sent.
  unfoldable pub handle_login :
      Option Credentials → Option User → Bool → Stream → StreamError ⊎ Stream
  handle_login auth user sent s = elim auth [
    | none ↦ inl no_login_data
    | some creds ↦ elim user [
      | none ↦ inl no_login_data
      | some u ↦
          if sent
          then inr (record {
            login_events = empty_channel (s.login_events - 1);
            join_events = s.join_events;
            first = true;
            fetching = if not s.first then true else s.fetching;
            sent = s.sent ++ login_message creds u ∷ [];
          })
          else inl send_failed
    ]
  ]

  -- The case of `joinEventCh`.
  unfoldable pub handle_joins :
      List Channel → List (List Channel) → Bool → Stream → StreamError ⊎ Stream
  handle_joins channels later sent s =
      if sent
      then inr (record s {
        join_events = later;
        sent = s.sent ++ join_payload (map pb_channel channels) ∷ [];
      })
      else inl send_failed

  -- The steps of a stream, each with its label. `is_user` holds of the users that `GetUser` gives,
  -- `is_own` of the channels that `GetChannelsForSlave` gives.
  pub data Step (is_user : User → Type 0) (is_own : List Channel → Type 0)
      : Stream → Label → Stream → Type 0 where
    -- The ticker, or a login that is published.
    login_comes :
        (s : Stream)
        → s.login_events < buffer
        → Step is_user is_own s quiet (record s { login_events = s.login_events + 1 })
    -- Channels that are published for the slave.
    channels_come :
        (s : Stream) (channels : List Channel)
        → length s.join_events < buffer
        → Step is_user is_own s
            (published channels)
            (record s { join_events = s.join_events ++ channels ∷ [] })
    -- The goroutine that asks for the channels of the slave sends them.
    channels_fetched :
        (s : Stream) (channels : List Channel)
        → s.fetching ≡ true
        → is_own channels
        → length s.join_events < buffer
        → Step is_user is_own s
            (fetched channels)
            (record s { join_events = s.join_events ++ channels ∷ []; fetching = false })
    takes_login :
        (s s' : Stream) (auth : Credentials) (user : User) (sent : Bool)
        → 0 < s.login_events
        → is_user user
        → handle_login (some auth) (some user) sent s ≡ inr s'
        → Step is_user is_own s quiet s'
    takes_channels :
        (s s' : Stream) (channels : List Channel) (later : List (List Channel)) (sent : Bool)
        → s.join_events ≡ channels ∷ later
        → handle_joins channels later sent s ≡ inr s'
        → Step is_user is_own s quiet s'

  -- A stream from its start, with the labels of its steps.
  pub data Run (is_user : User → Type 0) (is_own : List Channel → Type 0)
      : List Label → Stream → Type 0 where
    starts : Run is_user is_own [] new_stream
    goes_on :
        (labels : List Label) (s : Stream) (label : Label) (s' : Stream)
        → Run is_user is_own labels s
        → Step is_user is_own s label s'
        → Run is_user is_own (labels ++ label ∷ []) s'

-- Whether a stream listens to an event: the topics of `NewEventListener`.
unfoldable pub hears : Bytes → ℤ → Event → Bool
hears account_id idx e =
    bytes_eq (twitch_chat_login_format account_id) (topic e)
    || bytes_eq (slave_channel_update_format idx) (topic e)
