-- ===== src/System/Login.antt =====
-- internal/modes/master/http/http.go, internal/svc/twitch/twitch.go, internal/modes/master/server/server.go
-- and internal/modes/slave: a login from the browser to the slaves.
use waterhose.Prelude.{
  ℕ, true, false, List, [], ◌∷◌, ◌++◌, ◌≡◌, refl, ◌∙◌, Option, some, Bytes, codes, ok, inr,
  if◌then◌else◌, ◌==◌, nat_eq,
}
use waterhose.Prelude.Int.{ℤ}
use waterhose.Structures.{User}
use waterhose.Strconv.RoundTrip.{IsInt}
use waterhose.Svc.Events.{publish_twitch_chat_login}
use waterhose.Svc.Twitch.Login.{Credentials, Codec, Redis, is_stale, get_oauth}
use waterhose.Svc.Twitch.Login.Kept.{IsCodec, IsStore}
use waterhose.Slave.Connection.{Action, Connection}
use waterhose.Slave.Manager.Faults.{set_login_creds_lem}
use waterhose.Irc.Client.{set_oauth}
use waterhose.Prelude.Dict.{lookup}
use waterhose.Slave.Manager.{Manager, set_login_creds}
use waterhose.Slave.Client.{receive}
use waterhose.Master.Http.{TwitchConfig, Request, Web, exchange_code, auth_callback}
use waterhose.Master.Http.Callback.{published}
use waterhose.Master.Http.Session.{auth_callback-get_oauth}
use waterhose.Master.Stream.{Stream, hears, handle_login, login_message}
use waterhose.Master.Stream.Routing.{hears_login}

-- A stream of the account that takes the login sends a message that gives a slave the token as its
-- password for new connections and for those that it has, but connection 0, and the name of the user.
abbrev pub Reaches : Bytes → Credentials → Option Credentials → Type 0
Reaches id token answer =
    (empty_channel : ℕ → ℕ) (user : User) (s : Stream)
    → (s' : Stream) × (handle_login id empty_channel answer (some user) true s ≡ inr s')
      × (s'.sent ≡ s.sent ++ login_message id empty_channel token user ∷ [])
      × ((limit : ℕ) (clock : ℕ → ℕ) (m : Manager)
          → (m' : Manager) × (actions : List Action) × (receive limit clock
                (login_message id empty_channel token user) m
              ≡ ok (m', actions))
            × (m'.options.username ≡ user.login)
            × (m'.options.oauth ≡ codes "oauth:" ++ token.access_token)
            × ((i : ℕ) (c : Connection)
                → lookup i m.irc_conns ≡ some c
                → lookup i m'.irc_conns
                  ≡ some (
                      if i == 0 then c else record c {
                        client = set_oauth (codes "oauth:" ++ token.access_token) c.client;
                      })))

token-Reaches : (id : Bytes) (token : Credentials) → Reaches id token (some token)
unfolding handle_login receive set_login_creds
token-Reaches id token empty_channel user s = (
  _,
  refl,
  refl,
  λ limit clock m. (
    _,
    _,
    refl,
    refl,
    refl,
    λ i c e.
        set_login_creds_lem
          (record { username = user.login; oauth = codes "oauth:" ++ token.access_token }) i c m e,
  ),
)

module _ (config : TwitchConfig) (web : Web) (redis : Redis)
    (value : redis.State → Bytes → Option Bytes) (codec : Codec) where
  -- A callback that answers 200 publishes one account. The stream of each slave for that account hears
  -- it, `GetOAuth` then gives the token of the code, if it is not stale, and with this answer the
  -- stream sends a message from which a slave has the user's name and the token as its password for new
  -- connections, and gives it to each connection with an account that it has, but connection 0, which
  -- is left as it is.
  pub login_flow :
      (seconds now later : ℤ) (r : Request) (s : redis.State) (refresh : Bytes → Option Bytes)
      → IsStore redis value
      → IsCodec codec
      → IsInt seconds
      → (auth_callback config web redis codec seconds r s).0.status ≡ 200
      → (token : Credentials) × (id : Bytes) × (exchange_code config web codec r.code ≡ inr token)
        × (published (auth_callback config web redis codec seconds r s).1 ≡ id ∷ [])
        × ((slave : ℤ) → hears id slave (publish_twitch_chat_login id) ≡ true)
        × (is_stale codec seconds token now ≡ false
            → (answer : Option Credentials) × (s' : redis.State) × (get_oauth codec redis
                  (auth_callback config web redis codec seconds r s).2
                  id
                  refresh
                  now
                  later
                ≡ ok (answer, s'))
              × Reaches id token answer)
  login_flow seconds now later r s refresh store c h e =
      let (token, id, got, out, reads) =
        auth_callback-get_oauth config web redis value codec seconds now later r s refresh store c h
          e in
      (
        token,
        id,
        got,
        out,
        λ slave. hears_login id slave,
        λ fresh. (
          some token,
          (auth_callback config web redis codec seconds r s).2,
          reads ∙ rw fresh refl,
          token-Reaches id token,
        ),
      )
