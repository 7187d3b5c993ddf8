-- ===== src/Slave/Manager.antt =====
-- internal/modes/slave/manager/manager.go: which connection has which channel. Each call is one
-- step: the mutex covers the choice of a connection only, and that two calls for one channel
-- interleave is not modelled. The goroutines that a new connection starts are those of Connection.
pub mod Invariant
pub mod Allocate
pub mod Join
pub mod Pick
pub mod Faults
pub mod Login
use waterhose.Prelude.{
  ℕ, ◌+◌, ◌-◌, ◌%◌, ◌^◌, Bool, true, false, not, ◌&&◌, List, [], ◌∷◌, ◌++◌, map, Option, none, some,
  Bytes, codes, ◌==◌, if◌then◌else◌, Outcome, ok, panic, ◌>>=◌, string_eq, nat_eq,
}
use waterhose.Prelude.Dict.{Dict, lookup, insert, erase}
use waterhose.Prelude.Int.{pos, pos_leb}
use waterhose.Structures.{PbChannel}
use waterhose.Irc.Client.{Client, new_client, set_oauth}
use waterhose.Slave.Connection.{Connection, Action, join_channel, part_channel}

pub record ConnectionOptions : Type 0 where
  pub username : Bytes
  pub oauth : Bytes

abbrev pub anon_creds : ConnectionOptions
anon_creds = record { username = codes "justinfan123123"; oauth = codes "oauth:59301" }

-- `channelAllocation`
pub record Allocation : Type 0 where
  pub id : ℕ
  pub anon : Bool

pub record Manager : Type 0 where
  pub channels : Dict Bytes Allocation
  pub irc_conns : Dict ℕ Connection
  pub irc_idx : ℕ
  pub irc_anon_conns : Dict ℕ Connection
  pub irc_anon_idx : ℕ
  pub options : ConnectionOptions

-- `New`
abbrev pub new_manager : Manager
new_manager = record {
  channels = [];
  irc_conns = [];
  irc_idx = 0;
  irc_anon_conns = [];
  irc_anon_idx = 0;
  options = record { username = []; oauth = [] };
}

-- The connections with an account, or those without.
abbrev pub conns : Bool → Manager → Dict ℕ Connection
conns true m = m.irc_anon_conns
conns false m = m.irc_conns

abbrev pub idx : Bool → Manager → ℕ
idx true m = m.irc_anon_idx
idx false m = m.irc_idx

abbrev pub store_conn : Bool → ℕ → Connection → Manager → Manager
store_conn true i c m = record m { irc_anon_conns = insert i c m.irc_anon_conns }
store_conn false i c m = record m { irc_conns = insert i c m.irc_conns }

abbrev pub set_idx : Bool → ℕ → Manager → Manager
set_idx true i m = record m { irc_anon_idx = i }
set_idx false i m = record m { irc_idx = i }

abbrev pub creds : Bool → Manager → ConnectionOptions
creds true m = anon_creds
creds false m = m.options

-- `newConnection`
abbrev pub new_connection : Client → ℕ → Bool → ConnectionOptions → Connection
new_connection client i anon options = record {
  channels = [];
  len = pos 0;
  idx = i;
  anon = anon;
  username = options.username;
  client = client;
  next_ref = 0;
  tasks = [];
}

-- `newConn`: the index is a uint32.
unfoldable pub new_conn : Bool → Manager → Outcome (Manager × Connection)
new_conn anon m = do
  client ← new_client (creds anon m).username (creds anon m).oauth
  let i = idx anon m
  let conn = new_connection client i anon (creds anon m)
  ok (store_conn anon i conn (set_idx anon ((i + 1) % 2 ^ 32) m), conn)

-- The newest connection of a kind, or a new one if there is none or the newest is full.
unfoldable pub pick_conn : ℕ → Bool → Manager → Outcome (Manager × Connection)
unfolding new_conn
pick_conn limit anon m =
    if idx anon m == 0 then new_conn anon m else elim (lookup (idx anon m - 1) (conns anon m)) [
      | none ↦ panic
      | some conn ↦ if pos_leb limit conn.len then new_conn anon m else ok (m, conn)
    ]

-- `JoinChat` for a channel that has no allocation.
unfoldable pub allocate_chat : ℕ → ℕ → PbChannel → Manager → Outcome (Manager × List Action)
allocate_chat limit now channel m = do
  (m', conn) ← pick_conn limit channel.use_anonymous m
  let (conn', actions) = join_channel now channel conn
  let allocation : Allocation = record { id = conn.idx; anon = channel.use_anonymous }
  ok (
    store_conn channel.use_anonymous conn.idx conn'
        (record m' { channels = insert channel.id allocation m'.channels }),
    actions,
  )

abbrev pub same_kind : Bool → Bool → Bool
same_kind true b = b
same_kind false b = not b

-- `JoinChat`. `limit` is the configuration's `ChannelLimitPerConn`.
unfoldable pub join_chat : ℕ → ℕ → PbChannel → Manager → Outcome (Manager × List Action)
join_chat limit now channel m = elim (lookup channel.id m.channels) [
  | none ↦ allocate_chat limit now channel m
  | some a ↦ elim (lookup a.id (conns a.anon m)) [
    | none ↦ panic
    | some conn ↦
        if same_kind a.anon channel.use_anonymous
        then (let (conn', actions) = join_channel now channel conn in
            ok (store_conn a.anon a.id conn' m, actions))
        else (let m' = store_conn a.anon a.id (part_channel channel.login conn) m in
            allocate_chat limit now channel (record m' { channels = erase channel.id m'.channels }))
  ]
]

-- `PartChat`: the allocation of an anonymous connection is looked up among the others, and the
-- other way round.
unfoldable pub part_chat : PbChannel → Manager → Outcome Manager
part_chat channel m = elim (lookup channel.id m.channels) [
  | none ↦ ok m
  | some a ↦ elim (lookup a.id (conns (not a.anon) m)) [
    | none ↦ panic
    | some conn ↦ ok (store_conn (not a.anon) a.id (part_channel channel.login conn) m)
  ]
]

abbrev pub refresh_conn : Bytes → ℕ × Connection → ℕ × Connection
refresh_conn oauth (i, c) =
    (i, if not (i == 0) then record c { client = set_oauth oauth c.client } else c)

-- `SetLoginCreds`
unfoldable pub set_login_creds : ConnectionOptions → Manager → Manager
set_login_creds options m = record m {
  options = options;
  irc_conns = map (refresh_conn options.oauth) m.irc_conns;
}
