-- ===== src/Svc/Twitch/Login.antt =====
-- internal/svc/twitch/twitch.go: `GetOAuth`, and the form in which a login is kept in Redis, which
-- internal/modes/master/http/http.go writes too. The credentials' JSON, the product of a number
-- with 0.7 in floating point, Redis and the answer of Twitch to a refresh are parameters.
pub mod Kept
use waterhose.Prelude.{
  ℕ, Bool, true, false, not, List, [], ◌∷◌, ◌++◌, Option, none, some, Bytes, codes, if◌then◌else◌,
  Outcome, ok, panic, ◌>>=◌,
}
use waterhose.Prelude.Int.{ℤ, pos, int64, times, ltb_ℤ, ◌+ℤ◌}
use waterhose.Irc.Slice.{split_n}
use waterhose.Strconv.{itoa, atoi}

-- `helix.AccessCredentials`, with the fields that the program uses.
pub record Credentials : Type 0 where
  pub access_token : Bytes
  pub refresh_token : Bytes
  pub expires_in : ℤ

abbrev pub no_credentials : Credentials
no_credentials = record { access_token = []; refresh_token = []; expires_in = pos 0 }

-- JSON: `decode` reads a text into credentials, whose fields stay where the text has none.
pub record Codec : Type 0 where
  pub encode : Credentials → Bytes
  pub decode : Bytes → Credentials → Option Credentials
  pub seven_tenths : ℤ → ℤ

-- Redis, as the logins use it: `none` and `false` are errors.
pub record Redis : Type 1 where
  pub State : Type 0
  pub get : State → Bytes → Option Bytes × State
  pub set : State → Bytes → Bytes → Bool × State

-- `redis.Key("twitch-chat:login:" + id)`: the prefix that the library adds is part of `get`, `set`.
abbrev pub login_key : Bytes → Bytes
login_key id = codes "twitch-chat:login:" ++ id

abbrev pub second : ℕ
second = 1_000_000_000

-- Whether the creation, in seconds, and seven tenths of the life are before `now`, in nanoseconds.
abbrev pub is_stale : Codec → ℤ → Credentials → ℤ → Bool
is_stale codec created creds now =
    ltb_ℤ (times second created +ℤ int64 (times second (codec.seven_tenths creds.expires_in))) now

module _ (codec : Codec) where
  open codec use {encode, decode}

  -- The time in seconds, `+`, and the credentials.
  abbrev pub login_value : ℤ → Credentials → Bytes
  login_value seconds creds = itoa seconds ++ (b'+' ∷ encode creds)

  -- A value of Redis: `ok none` is an error, and one without `+` a panic.
  unfoldable pub read_login : Bytes → Outcome (Option (ℤ × Credentials))
  read_login text = elim (split_n text b'+' 2) [
    | [] ↦ panic
    | sec ∷ rest ↦ elim (atoi sec) [
      | none ↦ ok none
      | some created ↦ elim rest [
        | [] ↦ panic
        | json ∷ _ ↦ elim (decode json no_credentials) [
          | none ↦ ok none
          | some creds ↦ ok (some (created, creds))
        ]
      ]
    ]
  ]

  module _ (redis : Redis) where
    -- The refresh: `body` is the answer of Twitch, whatever its status, or `none` for an error.
    pub refresh_login :
        redis.State → Bytes → Option Bytes → ℤ → Credentials → Option Credentials × redis.State
    refresh_login s id body seconds creds = elim body [
      | none ↦ (none, s)
      | some text ↦ elim (decode text creds) [
        | none ↦ (none, s)
        | some fresh ↦
            let (kept, s') = redis.set s (login_key id) (login_value seconds fresh) in
            if kept then (some fresh, s') else (none, s')
      ]
    ]

    -- `GetOAuth` at the time `now`, in nanoseconds, of which `seconds` is the time in seconds when
    -- a refresh is stored. `refresh` is the answer of Twitch to a refresh token.
    unfoldable pub get_oauth :
        redis.State
        → Bytes
        → (Bytes → Option Bytes)
        → ℤ
        → ℤ
        → Outcome (Option Credentials × redis.State)
    unfolding read_login refresh_login
    get_oauth s id refresh now seconds =
        let (found, s') = redis.get s (login_key id) in
        elim found [
          | none ↦ ok (none, s')
          | some text ↦ do
            login ← read_login text
            elim login [
              | none ↦ ok (none, s')
              | some (created, creds) ↦
                  if is_stale codec created creds now
                  then ok (refresh_login s' id (refresh creds.refresh_token) seconds creds)
                  else ok (some creds, s')
            ]
        ]
