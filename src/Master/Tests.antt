-- ===== src/Master/Tests.antt =====
-- The servers of the master at concrete inputs.
use waterhose.Prelude.{
  ℕ, true, false, List, [], ◌∷◌, ◌≡◌, ◌≢◌, ◌⊎◌, ◌↔◌, refl, inr, ap, Option, none, some, Bytes,
  codes, arith, ok, panic, string_eq, if◌then◌else◌, bytes_eq, map, bytes_eq_refl, bytes_eq_iff,
  suc,
}
use mathlib.Core.Option
use waterhose.Prelude.Int.{ℤ, pos}
use waterhose.Structures.{Channel, PbChannel}
use waterhose.Svc.Twitch.Login.{Credentials, get_oauth, is_stale}
use waterhose.Svc.Twitch.Tests.{codec, codec-IsCodec, store, value, store-IsStore, creds}
use waterhose.Svc.Events.{publish_slave_channel_update, publish_twitch_chat_login}
use waterhose.Master.Http.{
  TwitchConfig, Request, Web, same_state, exchange_code, token_owner, store_login, reply,
  auth_callback, handle,
}
use waterhose.Master.Http.Callback.{published, IsFailed, IsStored, auth_callback_lem}
use waterhose.Master.Http.Session.{handle_publishes}
use waterhose.Master.Server.{Collection, CallError, Loader, answer, join_channel}
use waterhose.Master.Server.Calls.{IsLoader, IsCollection, apply_update, join_channel_lem}
use waterhose.Master.Stream.{slave_index, hears}
use waterhose.System.Login.{Reaches, login_flow}
use waterhose.Master.Stream.Routing.{pod_name, routing_lem}

abbrev config : TwitchConfig
config = record { client_id = codes "i"; client_secret = codes "s"; redirect_uri = codes "u" }

-- Twitch gives the credentials and their one user.
abbrev web : Web
web = record {
  hash = λ s. s;
  hex = λ s. s;
  encode_values = λ vs. [];
  decode_users = λ text. some (record { id = text; login = codes "bot" } ∷ []);
  exchange = λ form. some (codec.encode creds);
  users = λ auth client. some (codes "7");
}

abbrev callback : Request
callback = record {
  path = codes "/auth/callback";
  state = codes "x";
  code = codes "c";
  cookie = codes "x";
}

auth_callback_lem_example :
    ((same_state config web callback ≡ false)
      × (auth_callback config web store codec (pos 9) callback []
          ≡ (reply 403 (codes "bad csrf token"), [], [])))
    ⊎ ((same_state config web callback ≡ true)
        × (IsFailed config web store value codec
              (auth_callback config web store codec (pos 9) callback [])
            ⊎ IsStored config web store value codec
                (pos 9)
                (codes "c")
                (auth_callback config web store codec (pos 9) callback [])))
auth_callback_lem_example =
    auth_callback_lem config web store value codec store-IsStore (pos 9) callback []

published_here : published (handle config web store codec (pos 9) [] callback []).1 ≢ []
unfolding handle auth_callback store_login exchange_code token_owner published bytes_eq
published_here = λ e. absurd (cc)

handle_publishes_example :
    (callback.path ≡ codes "/auth/callback")
    × (same_state config web callback ≡ true)
    × IsStored config web store value codec
        (pos 9)
        (codes "c")
        (handle config web store codec (pos 9) [] callback [])
handle_publishes_example =
    handle_publishes config web store value codec (pos 9) [] callback [] store-IsStore
      published_here

abbrev refused : Bytes → Option Bytes
refused token = none

callback_ok : (auth_callback config web store codec (pos 9) callback []).0.status ≡ 200
unfolding auth_callback store_login exchange_code token_owner bytes_eq
callback_ok = refl

login_flow_example :
    (token : Credentials) × (id : Bytes) × (exchange_code config web codec callback.code
      ≡ inr token)
    × (published (auth_callback config web store codec (pos 9) callback []).1 ≡ id ∷ [])
    × ((slave : ℤ) → hears id slave (publish_twitch_chat_login id) ≡ true)
    × (is_stale codec (pos 9) token (pos 10) ≡ false
        → (answer : Option Credentials) × (s' : store.State) × (get_oauth codec store
              (auth_callback config web store codec (pos 9) callback []).2
              id
              refused
              (pos 10)
              (pos 10)
            ≡ ok (answer, s'))
          × Reaches id token answer)
login_flow_example =
    login_flow config web store value codec (pos 9) (pos 10) (pos 10) callback [] refused
      store-IsStore codec-IsCodec (omega arith) callback_ok

-- A loader that has no error, and a collection of rows by id.
abbrev loader : Loader
loader = record { State = ℕ; load_all = λ s channels. (map (λ c. none) channels, s) }

loader-IsLoader : IsLoader loader
loader-IsLoader s [] = refl
loader-IsLoader s (channel ∷ channels) = ap suc (loader-IsLoader s channels)

abbrev rows : Collection
rows = record {
  State = Bytes → Option Channel;
  update_one = λ s id u.
      (true, λ other. if bytes_eq id other then Option.map (apply_update u) (s other) else s other);
}

rows-IsCollection : IsCollection rows (λ s. s)
rows-IsCollection = record {
  own_row = λ s id u h. rw (bytes_eq_refl id) refl;
  other_row = λ s id other u h. ground (arith, bytes_eq_iff id other);
}

abbrev requested : PbChannel
requested = record {
  id = codes "1";
  login = codes "forsen";
  priority = pos 0;
  use_anonymous = false;
  bot_banned = false;
}

abbrev no_rows : Bytes → Option Channel
no_rows id = none

join_channel_lem_example :
    ((requested ∷ [] ≡ []) × (join_channel loader 0 (requested ∷ []) ≡ panic))
    ⊎ ((e : Option CallError) × (es : List (Option CallError)) × ((loader.load_all 0
            (requested ∷ [])).0
          ≡ e ∷ es)
        × (join_channel loader 0 (requested ∷ [])
            ≡ ok (answer e, (loader.load_all 0 (requested ∷ [])).1)))
join_channel_lem_example = join_channel_lem loader loader-IsLoader 0 (requested ∷ [])

routing_lem_example :
    (slave_index (codes "edge") (pod_name (codes "edge") (pos 12)) ≡ some (pos 12))
    × ((hears (codes "7") (pos 12) (publish_slave_channel_update (pos 3) []) ≡ true)
        ↔ (pos 12 ≡ pos 3))
    × ((hears (codes "7") (pos 12) (publish_twitch_chat_login (codes "8")) ≡ true)
        ↔ (codes "7" ≡ codes "8"))
routing_lem_example =
    routing_lem (codes "edge") (codes "7") (codes "8") (pos 12) (pos 3) [] (omega arith)
      (omega arith)
