-- ===== src/Slave/Manager/Faults.antt =====
-- internal/modes/slave/manager/manager.go: where `PartChat` and `SetLoginCreds` miss what they are for.
use waterhose.Prelude.{
  ℕ, ◌↔◌, not, if◌then◌else◌, ◌==◌, [], ◌∷◌, Option, none, some, ◌≡◌, refl, map, arith, Bytes, ok,
  panic, nat_eq, string_eq,
}
use waterhose.Prelude.Dict.{Dict, lookup}
use waterhose.Structures.{PbChannel}
use waterhose.Irc.Client.{set_oauth}
use waterhose.Slave.Connection.{Connection}
use waterhose.Slave.Manager.{
  Manager, Allocation, ConnectionOptions, conns, part_chat, set_login_creds, refresh_conn,
}

-- `PartChat` of an allocated channel panics exactly if no connection of the other kind than the
-- allocation's has the number that the allocation names.
pub part_chat_panics :
    (channel : PbChannel) (a : Allocation) (m : Manager)
    → lookup channel.id m.channels ≡ some a
    → (part_chat channel m ≡ panic) ↔ (lookup a.id (conns (not a.anon) m) ≡ none)
unfolding part_chat
part_chat_panics channel a m e = go (lookup a.id (conns (not a.anon) m)) refl
  where
    go :
        (r : Option Connection)
        → lookup a.id (conns (not a.anon) m) ≡ r
        → (part_chat channel m ≡ panic) ↔ (lookup a.id (conns (not a.anon) m) ≡ none)
    go none f = rw (part_chat, e, f) (λ _. refl, λ _. refl)
    go (some c) f = rw (part_chat, e, f) (λ h. cc, λ h. cc)

-- `PartChat` of an allocated channel that returns leaves the allocation, and the connections of
-- the kind that it names.
pub part_chat_keeps :
    (channel : PbChannel) (a : Allocation) (m m' : Manager)
    → lookup channel.id m.channels ≡ some a
    → part_chat channel m ≡ ok m'
    → (conns a.anon m' ≡ conns a.anon m) × (lookup channel.id m'.channels ≡ some a)
unfolding part_chat
part_chat_keeps channel a m m' e h = ground (arith, e)

lookup-map_refresh :
    (oauth : Bytes) (i : ℕ) (c : Connection) (d : Dict ℕ Connection)
    → lookup i d ≡ some c
    → lookup i (map (refresh_conn oauth) d) ≡ some (refresh_conn oauth (i, c)).1
unfolding lookup
lookup-map_refresh oauth i c [] e = absurd (cc)
lookup-map_refresh oauth i c ((j, c') ∷ d) e =
    ground (arith, nat_eq.beq_iff j i, lookup-map_refresh oauth i c d)

-- `SetLoginCreds` gives the new password to each connection with an account but connection 0, which
-- keeps its old one, and no connection changes otherwise.
pub set_login_creds_lem :
    (options : ConnectionOptions) (i : ℕ) (c : Connection) (m : Manager)
    → lookup i m.irc_conns ≡ some c
    → lookup i (set_login_creds options m).irc_conns
      ≡ some (if i == 0 then c else record c { client = set_oauth options.oauth c.client })
unfolding set_login_creds
set_login_creds_lem options i c m e =
    rw (lookup-map_refresh options.oauth i c m.irc_conns e) (ground arith)
