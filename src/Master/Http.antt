-- ===== src/Master/Http.antt =====
-- internal/modes/master/http/http.go: the routes and their handlers. The hash, the bytes of hex and of
-- a query, JSON, Redis and the answers of Twitch are parameters.
pub mod Callback
pub mod Session
use waterhose.Prelude.{
  ℕ, Bool, true, false, List, [], ◌∷◌, ◌++◌, Option, none, some, Bytes, codes, if◌then◌else◌,
  bytes_eq, ◌⊎◌, inl, inr,
}
use waterhose.Prelude.Int.{ℤ}
use waterhose.Structures.{User}
use waterhose.Svc.Twitch.Login.{Credentials, no_credentials, Codec, Redis, login_key, login_value}

-- `Config().Master.Twitch`
pub record TwitchConfig : Type 0 where
  pub client_id : Bytes
  pub client_secret : Bytes
  pub redirect_uri : Bytes

-- A request: an argument or a cookie that is absent is empty.
pub record Request : Type 0 where
  pub path : Bytes
  pub state : Bytes
  pub code : Bytes
  pub cookie : Bytes

-- `url.Values`
abbrev pub Values : Type 0
Values = List (Bytes × Bytes)

-- A response; the status of a handler that sets none is 200. `cookie` and `location` are headers.
pub record Response : Type 0 where
  pub status : ℕ
  pub body : Bytes
  pub cookie : Option Bytes
  pub location : Option Bytes

abbrev pub reply : ℕ → Bytes → Response
reply status body = record { status = status; body = body; cookie = none; location = none }

-- What a handler asks of Twitch, and the event that it emits.
pub data Effect : Type 0 where
  post_token : Values → Effect
  get_users : Bytes → Bytes → Effect
  publish_login : Bytes → Effect

-- The libraries and the answers of Twitch. `exchange` and `users` are the bodies, whatever the status
-- of the answers, and `none` for an error.
pub record Web : Type 0 where
  pub hash : Bytes → Bytes
  pub hex : Bytes → Bytes
  pub encode_values : Values → Bytes
  pub decode_users : Bytes → Option (List User)
  pub exchange : Values → Option Bytes
  pub users : Bytes → Bytes → Option Bytes

abbrev pub internal_error : Response
internal_error = reply 500 (codes "internal server error")

abbrev pub bad_response : Response
bad_response = reply 500 (codes "bad response from twitch")

-- The form that asks Twitch for a token.
abbrev pub token_form : TwitchConfig → Bytes → Values
token_form config code =
    (codes "client_id", config.client_id)
    ∷ (codes "client_secret", config.client_secret)
    ∷ (codes "code", code)
    ∷ (codes "grant_type", codes "authorization_code")
    ∷ (codes "redirect_uri", config.redirect_uri)
    ∷ []

abbrev pub bearer : Credentials → Bytes
bearer token = codes "Bearer " ++ token.access_token

module _ (config : TwitchConfig) (web : Web) where
  -- Whether the state of the query and that of the cookie agree, by their hashes.
  abbrev pub same_state : Request → Bool
  same_state r = bytes_eq (web.hex (web.hash r.cookie)) (web.hex (web.hash r.state))

  -- The token that Twitch gives for a code, or the response of a failure.
  unfoldable pub exchange_code : Codec → Bytes → Response ⊎ Credentials
  exchange_code codec code = elim (web.exchange (token_form config code)) [
    | none ↦ inl internal_error
    | some data' ↦ elim (codec.decode data' no_credentials) [
      | none ↦ inl bad_response
      | some token ↦ inr token
    ]
  ]

  -- The one user that a token belongs to, or the response of a failure.
  unfoldable pub token_owner : Credentials → Response ⊎ User
  token_owner token = elim (web.users (bearer token) config.client_id) [
    | none ↦ inl internal_error
    | some data' ↦ elim (web.decode_users data') [
      | none ↦ inl bad_response
      | some (u ∷ []) ↦ inr u
      | some us ↦ inl bad_response
    ]
  ]

  -- What the handlers leave: the response, the effects in their order, and Redis.
  abbrev pub Handled : Redis → Type 0
  Handled redis = Response × List Effect × redis.State

  -- `AuthCallbackHandler`, behind the check of the state, at a time in seconds.
  unfoldable pub store_login : (redis : Redis) → Codec → ℤ → Bytes → redis.State → Handled redis
  unfolding exchange_code token_owner
  store_login redis codec seconds code s =
      let asked = post_token (token_form config code) in
      elim (exchange_code codec code) [
        | inl failure ↦ (failure, asked ∷ [], s)
        | inr token ↦
            let asked' = asked ∷ get_users (bearer token) config.client_id ∷ [] in
            elim (token_owner token) [
              | inl failure ↦ (failure, asked', s)
              | inr user ↦
                  let (kept, s') =
                    redis.set s (login_key user.id) (login_value codec seconds token) in
                  if kept
                  then (reply 200 [], asked' ++ publish_login user.id ∷ [], s')
                  else (reply 500 (codes "failed to update redis"), asked', s')
            ]
      ]

  -- `AuthCallbackHandler`
  unfoldable pub auth_callback : (redis : Redis) → Codec → ℤ → Request → redis.State → Handled redis
  unfolding store_login
  auth_callback redis codec seconds r s =
      if same_state r
      then store_login redis codec seconds r.code s
      else (reply 403 (codes "bad csrf token"), [], s)

  abbrev pub scopes : Bytes
  scopes = codes "channel:moderate chat:edit chat:read whispers:read whispers:edit"

  -- The arguments of the page of Twitch that `AuthLoginHandler` redirects to.
  abbrev pub authorize_values : Bytes → Values
  authorize_values state =
      (codes "client_id", config.client_id)
      ∷ (codes "redirect_uri", config.redirect_uri)
      ∷ (codes "response_type", codes "code")
      ∷ (codes "scope", scopes)
      ∷ (codes "state", state)
      ∷ []

  -- `AuthLoginHandler`, of which `random` is the 128 bytes of its buffer.
  unfoldable pub auth_login : Bytes → Response
  auth_login random =
      let state = web.hex random in
      record {
        status = 302;
        body = [];
        cookie = some state;
        location = some (
            codes "https://id.twitch.tv/oauth2/authorize?"
            ++ web.encode_values (authorize_values state));
      }

  abbrev pub auth_success : Response
  auth_success = reply 200 (codes "Success!")

  -- The handler of `Start`.
  unfoldable pub handle :
      (redis : Redis) → Codec → ℤ → Bytes → Request → redis.State → Handled redis
  unfolding auth_callback auth_login
  handle redis codec seconds random r s =
      if bytes_eq r.path (codes "/auth/login")
      then (auth_login random, [], s)
      else if bytes_eq r.path (codes "/auth/callback")
      then auth_callback redis codec seconds r s
      else if bytes_eq r.path (codes "/auth/success")
      then (auth_success, [], s)
      else (reply 404 [], [], s)
