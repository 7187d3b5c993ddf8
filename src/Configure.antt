-- ===== src/Configure.antt =====
-- internal/configure/config.go and internal/configure/logging.go: the type `Config` as reflection sees
-- it, `BindEnvs` over Go slices that share their arrays, and the level of the log. What Viper does with
-- a key is not modelled: the keys that `BindEnv` is called with are kept in their order.
pub mod Slices
pub mod Keys
pub mod Distinct
mod Tests
use waterhose.Prelude.{
  List, [], ◌∷◌, ◌++◌, Option, none, some, Bytes, codes, bytes_eq, if◌then◌else◌,
}
use waterhose.Configure.Slices.{Slice, Heap, read, append}

-- The fields of a struct type, each with its `mapstructure` tag: those of a struct type and the others.
pub data Fields : Type 0 where
  no_fields : Fields
  plain : Option Bytes → Fields → Fields
  struct : Option Bytes → Fields → Fields → Fields

-- `strings.Join(parts, ".")`
abbrev pub join_dots : List Bytes → Bytes
join_dots [] = []
join_dots (part ∷ []) = part
join_dots (part ∷ next ∷ parts) = part ++ 46 ∷ join_dots (next ∷ parts)

-- The arrays of the slices, and the keys that `BindEnv` was called with.
pub record Bound : Type 0 where
  pub heap : Heap
  pub keys : List Bytes

-- `BindEnvs`, from a field on: `spare` is the capacity that `append` adds where it makes an array.
unfoldable pub bind_envs : (Slice → List Bytes) → Fields → Slice → Bound → Bound
bind_envs spare no_fields parts b = b
bind_envs spare (plain none fields) parts b = bind_envs spare fields parts b
bind_envs spare (struct none inner fields) parts b = bind_envs spare fields parts b
bind_envs spare (plain (some tag) fields) parts b =
    let a : Slice × Heap = append spare parts tag b.heap in
    let key = join_dots (read a.1 a.0) in
    bind_envs spare fields parts (record { heap = a.1; keys = b.keys ++ key ∷ [] })
bind_envs spare (struct (some tag) inner fields) parts b =
    let a : Slice × Heap = append spare parts tag b.heap in
    let inside = bind_envs spare inner a.0 (record b { heap = a.1 }) in
    bind_envs spare fields parts inside

abbrev tagged : List Bytes → Fields → Fields
tagged [] fields = fields
tagged (tag ∷ tags) fields = plain (some tag) (tagged tags fields)

abbrev group : Bytes → List Bytes → Fields → Fields
group tag tags fields = struct (some tag) (tagged tags no_fields) fields

-- `Config.Master`
abbrev pub master_fields : Fields
master_fields = group (codes "api") (codes "bind" ∷ codes "http_bind" ∷ []) (
    group (codes "irc") (codes "channel_limit_per_slave" ∷ codes "bot_account_id" ∷ []) (
      group (codes "twitch") (codes "client_id" ∷ codes "client_secret" ∷ codes "redirect_uri" ∷ [])
        (group (codes "k8s")
          (codes "enabled"
            ∷ codes "namespace"
            ∷ codes "in_cluster"
            ∷ codes "config_path"
            ∷ codes "statefulset_name"
            ∷ [])
          (group (codes "mongo") (codes "uri" ∷ codes "database" ∷ codes "direct" ∷ [])
            no_fields))))

-- `Config.Slave`
abbrev pub slave_fields : Fields
slave_fields =
    group (codes "api") (codes "grpc_dial" ∷ [])
      (group (codes "irc") (codes "channel_limit_per_conn" ∷ []) no_fields)

-- `Config.Redis`
abbrev pub redis_fields : List Bytes
redis_fields =
    codes "master_name"
    ∷ codes "username"
    ∷ codes "password"
    ∷ codes "database"
    ∷ codes "addresses"
    ∷ codes "sentinel"
    ∷ []

-- `Config`
abbrev pub config_fields : Fields
config_fields = tagged (codes "level" ∷ codes "config" ∷ codes "noheader" ∷ codes "mode" ∷ []) (
    group (codes "k8s") (codes "node_name" ∷ []) (
      group (codes "health") (codes "bind" ∷ codes "enabled" ∷ []) (
        group (codes "monitoring") (codes "bind" ∷ codes "enabled" ∷ codes "labels" ∷ []) (
          struct (some (codes "master")) master_fields (
            struct (some (codes "slave")) slave_fields
              (group (codes "redis") redis_fields no_fields))))))

-- zapcore.Level
pub data Level : Type 0 where
  debug_level info_level warn_level error_level panic_level fatal_level : Level

-- The level that `initLogging` sets.
abbrev pub init_logging : Bytes → Level
init_logging level =
    if bytes_eq level (codes "debug")
    then debug_level
    else if bytes_eq level (codes "info")
    then info_level
    else if bytes_eq level (codes "warn")
    then warn_level
    else if bytes_eq level (codes "error")
    then error_level
    else if bytes_eq level (codes "panic")
    then panic_level
    else if bytes_eq level (codes "fatal")
    then fatal_level
    else info_level
