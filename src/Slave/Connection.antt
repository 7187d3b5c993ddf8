-- ===== src/Slave/Connection.antt =====
-- internal/modes/slave/manager/connection.go: one connection and its channels. Each handler is one
-- step; the goroutine of `JoinChannel` is a task whose two halves are steps of their own, before
-- and behind its wait for the rate limiter. Times are nanoseconds, given to each step.
--
-- A `*Channel` is an entry of the map with a number of its own, so that a task whose entry was
-- deleted does not write to a later entry of the same login. A `*pb.Channel` is a value: two
-- entries share one only where the first is no longer in a map.
pub mod Changes
pub mod Count
pub mod Messages
pub mod Dial
use waterhose.Prelude.{
  ℕ, zero, suc, ◌+◌, Bool, true, false, not, ◌&&◌, ◌||◌, List, [], ◌∷◌, ◌++◌, map, Option, none,
  some, Bytes, codes, bytes_eq, ltb, ◌==◌, if◌then◌else◌, string_eq,
}
use waterhose.Prelude.Dict.{Dict, lookup, insert, erase}
use waterhose.Prelude.Int.{ℤ, pos, succ, pred}
use waterhose.Structures.{PbChannel}
use waterhose.Irc.Slice.{trim_left_hash}
use waterhose.Irc.Message.{
  Message, MessageType, join, part, notice, room_state, type_name, channel_suspended, banned,
}
use waterhose.Irc.Client.{Client, write}

pub data ChannelState : Type 0 where
  waiting_limits join_requested joined parted suspended bot_banned unknown : ChannelState

pub record Channel : Type 0 where
  pub ref : ℕ
  pub state : ChannelState
  pub last_event : ℕ
  pub raw : PbChannel

-- `Update()` and `Update(state)`
abbrev pub touch : ℕ → Channel → Channel
touch now ch = record ch { last_event = now }

abbrev pub update : ℕ → ChannelState → Channel → Channel
update now st ch = record ch { state = st; last_event = now }

-- The goroutine of `JoinChannel`.
pub record JoinTask : Type 0 where
  pub ref : ℕ
  pub channel : PbChannel

pub record Connection : Type 0 where
  pub channels : Dict Bytes Channel
  pub len : ℤ
  pub idx : ℕ
  pub anon : Bool
  pub username : Bytes
  pub client : Client
  pub next_ref : ℕ
  pub tasks : List JoinTask

-- The types of event that a slave publishes to the master.
pub data EventType : Type 0 where
  joined_event suspended_event bot_banned_event unknown_event : EventType

-- What a step does outside the connection: `ep`, a publication on Redis, and `go JoinChat`. An
-- error of the first two is logged and changes nothing.
pub data Action : Type 0 where
  publish_event : EventType → PbChannel → Action
  publish_chat : Bytes → Bytes → Action
  join_chat_later : PbChannel → Action

abbrev pub is_joined : ChannelState → Bool
is_joined joined = true
is_joined _ = false

abbrev pub store : Channel → Bytes → Connection → Connection
store ch login c = record c { channels = insert login ch c.channels }

-- `ch.Update()`, and the goroutine if the client is connected.
abbrev pub request_join : ℕ → Channel → Connection → Connection
request_join now ch c =
    let c' = store (touch now ch) ch.raw.login c in
    if not c.client.connected
    then c'
    else record c' { tasks = c'.tasks ++ (record { ref = ch.ref; channel = ch.raw }) ∷ [] }

abbrev pub new_entry : ℕ → PbChannel → Connection → Channel
new_entry now channel c = record {
  ref = c.next_ref;
  state = waiting_limits;
  last_event = now;
  raw = channel;
}

unfoldable pub join_channel : ℕ → PbChannel → Connection → Connection × List Action
join_channel now channel c = elim (lookup channel.login c.channels) [
  | some old ↦
      let ch = record old { raw = channel } in
      if is_joined old.state
      then (store ch channel.login c, publish_event joined_event channel ∷ [])
      else (request_join now ch c, [])
  | none ↦ (
    request_join now (new_entry now channel c)
        (record c { len = succ c.len; next_ref = c.next_ref + 1 }),
    [],
  )
]

-- A write to the entry that a task holds, if it is in the map still.
abbrev pub update_entry : ℕ → ChannelState → JoinTask → Connection → Connection
update_entry now st t c = elim (lookup t.channel.login c.channels) [
  | none ↦ c
  | some ch ↦ if ch.ref == t.ref then store (update now st ch) t.channel.login c else c
]

-- The goroutine up to its call of the rate limiter.
unfoldable pub start_join : ℕ → JoinTask → Connection → Connection
start_join now t c = if not c.anon then update_entry now waiting_limits t c else c

-- The goroutine behind that call, which an anonymous connection does not make.
unfoldable pub finish_join : ℕ → Bool → JoinTask → Connection → Connection
finish_join now granted t c =
    if not c.anon && not granted
    then c
    else (let c' = update_entry now join_requested t c in
        elim (write (codes "JOIN #" ++ t.channel.login) c'.client) [
          | none ↦ update_entry now parted t c'
          | some client ↦ record c' { client = client }
        ])

unfoldable pub part_channel : Bytes → Connection → Connection
part_channel login c =
    let c' = record c { len = pred c.len; channels = erase login c.channels } in
    elim (write (codes "PART #" ++ login) c'.client) [
      | none ↦ c'
      | some client ↦ record c' { client = client }
    ]

abbrev pub chat_topic : Bytes
chat_topic = codes "twitch-irc-chat-messages:"

-- The four publications of a message on Redis.
abbrev pub chat_actions : Message → PbChannel → List Action
chat_actions m channel =
    publish_chat (chat_topic ++ codes "ALL:GLOBAL") m.raw
    ∷ publish_chat (chat_topic ++ (codes "ALL:" ++ channel.id)) m.raw
    ∷ publish_chat (chat_topic ++ (type_name m.type ++ codes ":GLOBAL")) m.raw
    ∷ publish_chat (chat_topic ++ (type_name m.type ++ (codes ":" ++ channel.id))) m.raw
    ∷ []

-- An entry that was not joined is announced, and is banned no more unless the connection is anonymous.
abbrev pub unban : Connection → Channel → PbChannel
unban c ch =
    if ch.raw.bot_banned && not c.anon then record ch.raw { bot_banned = false } else ch.raw

unfoldable pub mark_joined : ℕ → Bytes → Channel → Connection → Connection × List Action
mark_joined now login ch c =
    if is_joined ch.state
    then (store (update now joined ch) login c, [])
    else (let raw = unban c ch in
        (
          store (update now joined (record ch { raw = raw })) login c,
          publish_event joined_event raw ∷ [],
        ))

abbrev pub is_own_join : Message → Connection → Bool
is_own_join m c = bytes_eq m.user c.username || bytes_eq m.user (codes "justinfan123123")

abbrev pub with_chat : Message → PbChannel → Connection × List Action → Connection × List Action
with_chat m channel (c, actions) = (c, actions ++ chat_actions m channel)

-- The ban of the bot: the entry is marked, and the channel is joined without an account.
abbrev pub anonymous : PbChannel → PbChannel
anonymous raw = record raw { bot_banned = true; use_anonymous = true }

-- The `switch` on the message's type, and the publication behind it. `ch` is the entry, touched.
unfoldable pub handle :
    MessageType → ℕ → Bytes → Message → Channel → Connection → Connection × List Action
unfolding mark_joined
handle room_state now login m ch c = with_chat m ch.raw (mark_joined now login ch c)
handle join now login m ch c =
    with_chat m ch.raw (if is_own_join m c then mark_joined now login ch c else (c, []))
handle part now login m ch c = with_chat m ch.raw (
    if bytes_eq m.user c.username
    then join_channel now ch.raw (store (update now parted ch) login c)
    else (c, []))
handle notice now login m ch c =
    if channel_suspended m.tags
    then (store (update now suspended ch) login c, publish_event suspended_event ch.raw ∷ [])
    else if banned m.tags
    then (let raw = anonymous ch.raw in
        (
          store (update now bot_banned (record ch { raw = raw })) login c,
          publish_event bot_banned_event ch.raw ∷ join_chat_later raw ∷ [],
        ))
    else with_chat m ch.raw (c, [])
handle _ now login m ch c = with_chat m ch.raw (c, [])

unfoldable pub on_message : ℕ → Message → Connection → Connection × List Action
unfolding handle join_channel
on_message now m c =
    let login = trim_left_hash m.channel in
    elim (lookup login c.channels) [
      | none ↦ (c, [])
      | some found ↦ let ch = touch now found in handle m.type now login m ch (store ch login c)
    ]

-- `channels.Range` over the keys of the map; an entry that is gone by its turn is passed over.
pub range_channels :
    (Bytes → Channel → Connection → Connection × List Action)
    → List Bytes
    → Connection
    → Connection × List Action
range_channels f [] c = (c, [])
range_channels f (login ∷ logins) c =
    let (c', actions) : Connection × List Action = elim (lookup login c.channels) [
      | none ↦ (c, [])
      | some ch ↦ f login ch c
    ] in
    let (c'', more) = range_channels f logins c' in (c'', actions ++ more)

abbrev pub rejoin : ℕ → Bytes → Channel → Connection → Connection × List Action
rejoin now login ch c = join_channel now ch.raw (store (update now unknown ch) login c)

-- `onConnect`
unfoldable pub on_connect : ℕ → List Bytes → Connection → Connection × List Action
unfolding range_channels join_channel
on_connect now = range_channels (rejoin now)

-- `time.Hour * 24` and `time.Minute * 20`
abbrev pub one_day : ℕ
one_day = 86_400_000_000_000

abbrev pub twenty_minutes : ℕ
twenty_minutes = 1_200_000_000_000

-- What the ticker does with one entry.
abbrev pub rejoin_dead : ℕ → Bytes → Channel → Connection → Connection × List Action
rejoin_dead now login ch c =
    if ltb (ch.last_event + one_day) now then rejoin now login ch c else (c, [])

abbrev pub sweep_state : ChannelState → ℕ → Bytes → Channel → Connection → Connection × List Action
sweep_state joined now login ch c = rejoin_dead now login ch c
sweep_state suspended now login ch c = rejoin_dead now login ch c
sweep_state join_requested now login ch c =
    if ltb (ch.last_event + twenty_minutes) now
    then (record c { channels = erase login c.channels }, publish_event unknown_event ch.raw ∷ [])
    else (c, [])
sweep_state _ now login ch c = (c, [])

-- The ticker's round.
unfoldable pub sweep : ℕ → List Bytes → Connection → Connection × List Action
unfolding range_channels join_channel
sweep now = range_channels (λ login ch. sweep_state ch.state now login ch)
