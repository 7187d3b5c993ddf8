-- ===== src/Slave/Client/Runs.antt =====
-- internal/modes/slave/client/client.go: the messages of a stream, received one after the other.
use waterhose.Prelude.{
  ℕ, suc, ◌+◌, ◌<◌, ◌^◌, Bool, true, false, List, [], ◌∷◌, ◌++◌, none, ◌≡◌, ◌≢◌, refl, sym, ◌∙◌,
  codes, arith, inl, inr, Bytes, ok, length, length-append, bytes_eq, bytes_cases, string_eq,
  nat_eq,
}
use mathlib.Core.Path.{subst}
use waterhose.Prelude.Dict.{lookup}
use waterhose.Structures.{PbChannel, Payload, join_payload, part_payload, login_payload}
use waterhose.Slave.Connection.{Action}
use waterhose.Slave.Manager.{Manager, ConnectionOptions, join_chat, set_login_creds}
use waterhose.Slave.Manager.Invariant.{Inv}
use waterhose.Slave.Manager.Login.{set_login_creds-Inv}
use waterhose.Slave.Manager.Pick.{Ready}
use waterhose.Slave.Manager.Join.{join_chat_lem}
use waterhose.Slave.Client.{join_all, receive, receive_all}
use waterhose.Slave.Client.Grows.{Grows, Within, join_chat-Within}

-- The maps agree, a client can be made, and there is room for `n` more connections of each kind.
pub record Prepared (n : ℕ) (m : Manager) : Type 0 where
  pub inv : Inv m
  pub login : bytes_eq m.options.username [] ≡ false
  pub password : bytes_eq m.options.oauth [] ≡ false
  pub room : m.irc_idx + n < 2 ^ 32
  pub anon_room : m.irc_anon_idx + n < 2 ^ 32

pub Prepared-room : (k n : ℕ) (m : Manager) → k ≡ n → Prepared k m → Prepared n m
Prepared-room k n m e p = subst (λ i. Prepared i m) e p

-- Each channel has an allocation.
unfoldable pub Allocated : List PbChannel → Manager → Type 0
Allocated [] m = Unit
Allocated (ch ∷ chs) m = (lookup ch.id m.channels ≢ none) × Allocated chs m

-- Messages that joined `channels`, and nothing lost its allocation.
pub record Ran (n : ℕ) (channels : List PbChannel) (m m' : Manager) : Type 0 where
  pub prepared : Prepared n m'
  pub kept : (id : Bytes) → lookup id m.channels ≢ none → lookup id m'.channels ≢ none
  pub allocated : Allocated channels m'

Prepared-Ready : (n : ℕ) (anon : Bool) (m : Manager) → Prepared (suc n) m → Ready anon m
unfolding bytes_eq
Prepared-Ready n true m p = record {
  login = refl;
  password = refl;
  room = omega (arith, p.anon_room);
}
Prepared-Ready n false m p = record {
  login = p.login;
  password = p.password;
  room = omega (arith, p.room);
}

join_one :
    (limit now n : ℕ) (channel : PbChannel) (m : Manager)
    → Prepared (suc n) m
    → (m' : Manager) × (actions : List Action) × (join_chat limit now channel m ≡ ok (m', actions))
      × Ran n (channel ∷ []) m m'
unfolding Allocated
join_one limit now n channel m p =
    let (m', actions, e, j, _) =
      join_chat_lem limit now channel m (Prepared-Ready n channel.use_anonymous m p) p.inv in
    let g : Grows channel.id m m' =
      subst (Within channel.id m) e (join_chat-Within limit now channel m) in
    (
      m',
      actions,
      e,
      record {
        prepared = record {
          inv = j.inv;
          login = rw (g.login) p.login;
          password = rw (g.login) p.password;
          room = omega (arith, g.few, p.room);
          anon_room = omega (arith, g.few_anon, p.anon_room);
        };
        kept = λ id h. elim (bytes_cases channel.id id) [
          | inl same ↦ λ gone. ground (arith, j.named)
          | inr apart ↦ λ gone. h (sym (g.apart id apart) ∙ gone)
        ];
        allocated = (λ gone. ground (arith, j.named), tt);
      },
    )

Allocated-kept :
    (channels : List PbChannel) (m m' : Manager)
    → ((id : Bytes) → lookup id m.channels ≢ none → lookup id m'.channels ≢ none)
    → Allocated channels m
    → Allocated channels m'
unfolding Allocated
Allocated-kept [] m m' k a = tt
Allocated-kept (ch ∷ chs) m m' k (h, a) = (k ch.id h, Allocated-kept chs m m' k a)

Allocated-++ :
    (xs ys : List PbChannel) (m : Manager)
    → Allocated xs m
    → Allocated ys m
    → Allocated (xs ++ ys) m
unfolding Allocated
Allocated-++ [] ys m h k = k
Allocated-++ (x ∷ xs) ys m (h, hs) k = (h, Allocated-++ xs ys m hs k)

Ran-Ran :
    (n k : ℕ) (xs ys : List PbChannel) (m m' m'' : Manager)
    → Ran n xs m m'
    → Ran k ys m' m''
    → Ran k (xs ++ ys) m m''
Ran-Ran n k xs ys m m' m'' r s = record {
  prepared = s.prepared;
  kept = λ id h. s.kept id (r.kept id h);
  allocated = Allocated-++ xs ys m'' (Allocated-kept xs m' m'' s.kept r.allocated) s.allocated;
}

join_all-Ran :
    (limit n : ℕ) (clock : ℕ → ℕ) (channels : List PbChannel) (m : Manager)
    → Prepared (length channels + n) m
    → (m' : Manager) × (actions : List Action) × (join_all limit clock channels m
        ≡ ok (m', actions))
      × Ran n channels m m'
unfolding join_all Allocated
join_all-Ran limit n clock [] m p = (
  m,
  [],
  refl,
  record { prepared = Prepared-room _ n m (omega arith) p; kept = λ id h. h; allocated = tt },
)
join_all-Ran limit n clock (channel ∷ channels) m p =
    let (m1, actions, e, r) =
      join_one limit (clock 0) (length channels + n) channel m
        (Prepared-room _ _ m (omega arith) p) in
    let (m2, later, f, s) = join_all-Ran limit n (λ i. clock (suc i)) channels m1 r.prepared in
    (m2, actions ++ later, rw (e, f) refl, Ran-Ran _ n (channel ∷ []) channels m m1 m2 r s)

-- The channels that a message joins.
unfoldable pub joins : Payload → List PbChannel
joins (join_payload channels) = channels
joins _ = []

unfoldable pub all_joins : List ((ℕ → ℕ) × Payload) → List PbChannel
all_joins [] = []
all_joins ((_, payload) ∷ payloads) = joins payload ++ all_joins payloads

-- The messages that a master sends: joins, and logins of an account that has a name.
unfoldable pub Sound : Payload → Type 0
Sound (join_payload channels) = Unit
Sound (part_payload channels) = ⊥
Sound (login_payload channel oauth) = bytes_eq channel.login [] ≡ false

unfoldable pub AllSound : List ((ℕ → ℕ) × Payload) → Type 0
AllSound [] = Unit
AllSound ((_, payload) ∷ payloads) = Sound payload × AllSound payloads

abbrev pub login_options : PbChannel → Bytes → ConnectionOptions
login_options channel oauth = record { username = channel.login; oauth = codes "oauth:" ++ oauth }

pub login-Ran :
    (n : ℕ) (channel : PbChannel) (oauth : Bytes) (m : Manager)
    → bytes_eq channel.login [] ≡ false
    → Inv m
    → m.irc_idx + n < 2 ^ 32
    → m.irc_anon_idx + n < 2 ^ 32
    → Ran n [] m (set_login_creds (login_options channel oauth) m)
unfolding set_login_creds Allocated bytes_eq
login-Ran n channel oauth m h v room anon_room = record {
  prepared = record {
    inv = set_login_creds-Inv (login_options channel oauth) m v;
    login = h;
    password = refl;
    room = room;
    anon_room = anon_room;
  };
  kept = λ id h'. h';
  allocated = tt;
}

receive-Ran :
    (limit n : ℕ) (clock : ℕ → ℕ) (payload : Payload) (m : Manager)
    → Sound payload
    → Prepared (length (joins payload) + n) m
    → (m' : Manager) × (actions : List Action) × (receive limit clock payload m ≡ ok (m', actions))
      × Ran n (joins payload) m m'
unfolding receive Sound joins
receive-Ran limit n clock (join_payload channels) m h p = join_all-Ran limit n clock channels m p
receive-Ran limit n clock (part_payload channels) m h p = elim h [ ]
receive-Ran limit n clock (login_payload channel oauth) m h p = (
  set_login_creds (login_options channel oauth) m,
  [],
  refl,
  login-Ran n channel oauth m h p.inv (omega (arith, p.room)) (omega (arith, p.anon_room)),
)

pub receive_all-Ran :
    (limit : ℕ) (n : ℕ) (payloads : List ((ℕ → ℕ) × Payload)) (m : Manager)
    → AllSound payloads
    → Prepared (length (all_joins payloads) + n) m
    → (m' : Manager) × (actions : List Action) × (receive_all limit payloads m ≡ ok (m', actions))
      × Ran n (all_joins payloads) m m'
unfolding receive_all AllSound all_joins Allocated
receive_all-Ran limit n [] m h p = (
  m,
  [],
  refl,
  record { prepared = Prepared-room _ n m (omega arith) p; kept = λ id h'. h'; allocated = tt },
)
receive_all-Ran limit n ((clock, payload) ∷ payloads) m (h, hs) p =
    let room = length-append (joins payload) (all_joins payloads) in
    let (m1, actions, e, r) =
      receive-Ran limit (length (all_joins payloads) + n) clock payload m h
        (Prepared-room _ _ m (omega (arith, room)) p) in
    let (m2, later, f, s) = receive_all-Ran limit n payloads m1 hs r.prepared in
    (
      m2,
      actions ++ later,
      rw (e, f) refl,
      Ran-Ran _ n (joins payload) (all_joins payloads) m m1 m2 r s,
    )
