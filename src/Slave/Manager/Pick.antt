-- ===== src/Slave/Manager/Pick.antt =====
-- internal/modes/slave/manager/manager.go: the connection that `JoinChat` picks, or makes by `newConn`.
use waterhose.Prelude.{
  ℕ, ◌+◌, ◌-◌, ◌<◌, ◌^◌, ◌%◌, Bool, true, false, not, ◌==◌, ◌≡◌, ◌⊎◌, ◌∙◌, refl, arith, inl, inr,
  nat_eq, string_eq, Bool-cases, Option-cases, ok, [], bytes_eq,
}
use waterhose.Prelude.Dict.{lookup}
use waterhose.Prelude.Int.{pos, pos_leb}
use waterhose.Irc.Client.{Client, unset, new_client}
use waterhose.Slave.Connection.{Connection}
use waterhose.Slave.Connection.Changes.{Keyed}
use waterhose.Slave.Manager.{
  Manager, conns, idx, store_conn, set_idx, creds, new_conn, new_connection, pick_conn,
}
use waterhose.Slave.Manager.Invariant.{Fits, Inv, grow-Inv, store-others, store-channels, store-idx}

-- What the choice of a connection gives: one that is there and fits, with less than `limit`
-- channels or none, and nothing else changes than its own kind's map.
pub record Picked (limit : ℕ) (anon : Bool) (m m' : Manager) (c : Connection) : Type 0 where
  pub inv : Inv m'
  pub below : c.idx < idx anon m'
  pub fits : Fits anon c.idx c
  pub room : (c.len ≡ pos 0) ⊎ (pos_leb limit c.len ≡ false)
  pub others : conns (not anon) m' ≡ conns (not anon) m
  pub same_channels : m'.channels ≡ m.channels

-- A client can be made for the kind, and its index has room for one more.
pub record Ready (anon : Bool) (m : Manager) : Type 0 where
  pub login : bytes_eq (creds anon m).username [] ≡ false
  pub password : bytes_eq (creds anon m).oauth [] ≡ false
  pub room : idx anon m + 1 < 2 ^ 32

Fits-here : {anon : Bool} {i : ℕ} {c : Connection} → Fits anon i c → Fits anon c.idx c
Fits-here f = record { number = refl; kind = f.kind; keyed = f.keyed }

empty-Keyed : Keyed []
unfolding lookup
empty-Keyed = record { is_map = tt; login_key = λ login ch e. absurd (cc) }

small-mod : (n : ℕ) → n < 2 ^ 32 → n % 2 ^ 32 ≡ n
small-mod n h = omega arith

set-others :
    (anon : Bool) (i : ℕ) (m : Manager) → conns (not anon) (set_idx anon i m) ≡ conns (not anon) m
set-others true i m = refl
set-others false i m = refl

set-channels : (anon : Bool) (i : ℕ) (m : Manager) → (set_idx anon i m).channels ≡ m.channels
set-channels true i m = refl
set-channels false i m = refl

set-idx : (anon : Bool) (i : ℕ) (m : Manager) → idx anon (set_idx anon i m) ≡ i
set-idx true i m = refl
set-idx false i m = refl

grow-Picked :
    (limit : ℕ) (anon : Bool) (c : Connection) (m : Manager)
    → Fits anon (idx anon m) c
    → c.idx ≡ idx anon m
    → c.len ≡ pos 0
    → Inv m
    → Picked limit anon m (store_conn anon (idx anon m) c (set_idx anon (idx anon m + 1) m)) c
grow-Picked limit anon c m f at empty v =
    let m' : Manager = set_idx anon (idx anon m + 1) m in
    record {
      inv = grow-Inv anon c m f v;
      below =
          rw (store-idx anon anon (idx anon m) c m', set-idx anon (idx anon m + 1) m, at)
            (omega arith);
      fits = Fits-here f;
      room = inl empty;
      others = store-others anon (idx anon m) c m' ∙ set-others anon (idx anon m + 1) m;
      same_channels = store-channels anon (idx anon m) c m' ∙ set-channels anon (idx anon m + 1) m;
    }

new_conn_lem :
    (limit : ℕ) (anon : Bool) (m : Manager)
    → Ready anon m
    → Inv m
    → (m' : Manager) × (c : Connection) × (new_conn anon m ≡ ok (m', c)) × Picked limit anon m m' c
unfolding new_conn new_client
new_conn_lem limit anon m r v =
    let i = idx anon m in
    let client : Client = record {
      username = (creds anon m).username;
      oauth = (creds anon m).oauth;
      write_ch = [];
      err = unset;
      ping_sent = false;
      connected = false;
    } in
    let c : Connection = new_connection client i anon (creds anon m) in
    (
      store_conn anon i c (set_idx anon (i + 1) m),
      c,
      rw (r.login, r.password, small-mod (i + 1) r.room) refl,
      grow-Picked limit anon c m (record { number = refl; kind = refl; keyed = empty-Keyed }) refl
          refl v,
    )

-- In a manager whose maps agree, where a client can be made and the index has room for one more
-- below 2^32, the choice of a connection returns without a nil connection: it gives one of the
-- asked kind that stands at its number in the new manager and has either no channel or less than
-- `limit`; the maps agree still, and the allocations and the other kind of connections are
-- unchanged.
pub pick_conn_lem :
    (limit : ℕ) (anon : Bool) (m : Manager)
    → Ready anon m
    → Inv m
    → (m' : Manager) × (c : Connection) × (pick_conn limit anon m ≡ ok (m', c))
      × Picked limit anon m m' c
unfolding pick_conn
pick_conn_lem limit anon m r v = elim (Bool-cases (idx anon m == 0)) [
  | inl first ↦ rw first (new_conn_lem limit anon m r v)
  | inr later ↦ elim (Option-cases (lookup (idx anon m - 1) (conns anon m))) [
    | inl gone ↦ absurd (v.there anon (idx anon m - 1) (ground arith) gone)
    | inr (c, e) ↦ elim (Bool-cases (pos_leb limit c.len)) [
      | inl full ↦ rw (later, e, full) (new_conn_lem limit anon m r v)
      | inr free ↦
          rw (later, e, free)
            (
              m,
              c,
              refl,
              record {
                inv = v;
                below = rw ((v.fits anon (idx anon m - 1) c e).number) (ground arith);
                fits = Fits-here (v.fits anon (idx anon m - 1) c e);
                room = inr free;
                others = refl;
                same_channels = refl;
              },
            )
    ]
  ]
]
