-- ===== src/Slave/Manager/Login.antt =====
-- internal/modes/slave/manager/manager.go: `SetLoginCreds` keeps the maps in agreement.
use waterhose.Prelude.{
  ℕ, Bool, true, false, not, ◌==◌, [], ◌∷◌, none, some, ◌≡◌, ◌≢◌, refl, map, arith, Bytes, nat_eq,
  inl, inr, Option-cases, if_both,
}
use mathlib.Core.Option
use waterhose.Prelude.Dict.{Dict, lookup}
use waterhose.Slave.Connection.{Connection}
use waterhose.Slave.Manager.{Manager, ConnectionOptions, conns, idx, set_login_creds, refresh_conn}
use waterhose.Slave.Manager.Invariant.{Fits, Inv}

lookup-map :
    (oauth : Bytes) (i : ℕ) (d : Dict ℕ Connection)
    → lookup i (map (refresh_conn oauth) d)
      ≡ Option.map (λ c. (refresh_conn oauth (i, c)).1) (lookup i d)
unfolding lookup
lookup-map oauth i [] = refl
lookup-map oauth i ((j, c) ∷ d) = ground (arith, nat_eq.beq_iff j i, lookup-map oauth i d)

refresh-Fits :
    (oauth : Bytes) (anon : Bool) (i : ℕ) (c : Connection)
    → Fits anon i c
    → Fits anon i (refresh_conn oauth (i, c)).1
refresh-Fits oauth anon i c f =
    if_both (Fits anon i) (not (i == 0))
      (record { number = f.number; kind = f.kind; keyed = f.keyed }) f

refreshed_there :
    (options : ConnectionOptions) (anon : Bool) (i : ℕ) (m : Manager)
    → lookup i (conns anon m) ≢ none
    → lookup i (conns anon (set_login_creds options m)) ≢ none
unfolding set_login_creds
refreshed_there options true i m h = h
refreshed_there options false i m h = ground (arith, lookup-map options.oauth i m.irc_conns)

refreshed_from :
    (options : ConnectionOptions) (i : ℕ) (c : Connection) (m : Manager)
    → lookup i (conns false (set_login_creds options m)) ≡ some c
    → (c' : Connection) × (lookup i (conns false m) ≡ some c')
      × ((refresh_conn options.oauth (i, c')).1 ≡ c)
unfolding set_login_creds
refreshed_from options i c m e = elim (Option-cases (lookup i m.irc_conns)) [
  | inl gone ↦ absurd (ground (arith, lookup-map options.oauth i m.irc_conns))
  | inr (c', e') ↦ (c', e', ground (arith, lookup-map options.oauth i m.irc_conns))
]

idx-login :
    (options : ConnectionOptions) (b : Bool) (m : Manager)
    → idx b (set_login_creds options m) ≡ idx b m
unfolding set_login_creds
idx-login options true m = refl
idx-login options false m = refl

refreshed-Fits :
    (options : ConnectionOptions) (anon : Bool) (i : ℕ) (c : Connection) (m : Manager)
    → Inv m
    → lookup i (conns anon (set_login_creds options m)) ≡ some c
    → Fits anon i c
unfolding set_login_creds
refreshed-Fits options true i c m v e = v.fits true i c e
refreshed-Fits options false i c m v e =
    let (c', e', same) = refreshed_from options i c m e in
    rw (← same) (refresh-Fits options.oauth false i c' (v.fits false i c' e'))

pub set_login_creds-Inv :
    (options : ConnectionOptions) (m : Manager) → Inv m → Inv (set_login_creds options m)
unfolding set_login_creds
set_login_creds-Inv options m v = record {
  channels_map = v.channels_map;
  there = λ b i h. refreshed_there options b i m (v.there b i (rw (← idx-login options b m) h));
  fits = λ b i c e. refreshed-Fits options b i c m v e;
  allocated = λ id a e. rw (idx-login options a.anon m) (v.allocated id a e);
}
