-- ===== src/Svc/Twitch.antt =====
-- internal/svc/twitch/twitch.go: the batch of the user loader, over the answers of Helix and Redis.
pub mod Users
pub mod Login
pub mod Tests
use waterhose.Prelude.{
  ℕ, Bool, true, false, not, List, [], ◌∷◌, ◌++◌, map, Option, none, some, Bytes, if◌then◌else◌,
  string_eq,
}
use waterhose.Prelude.Dict.{Dict, lookup, insert}
use waterhose.Structures.{User}

-- What the services answer to one batch: whether a client is made, the token that Redis has, the one
-- that Twitch gives, whether Redis keeps it, and the users for a token and ids. `none` is an error.
pub record Answers : Type 0 where
  pub client_made : Bool
  pub stored_token : Option Bytes
  pub app_token : Option Bytes
  pub token_kept : Bool
  pub users : Bytes → List Bytes → Option (List User)

pub data UserError : Type 0 where
  twitch_error user_not_found : UserError

-- `helix.User{}`
abbrev pub no_user : User
no_user = record { id = []; login = [] }

-- The app token: that of Redis, or a new one, which Redis has to keep.
abbrev pub app_token : Answers → Option Bytes
app_token a = elim a.stored_token [
  | some token ↦ some token
  | none ↦ elim a.app_token [ none ↦ none | some token ↦ if a.token_kept then some token else none ]
]

-- `mp`
pub by_id : Dict Bytes User → List User → Dict Bytes User
by_id mp [] = mp
by_id mp (u ∷ us) = by_id (insert u.id u mp) us

abbrev pub answer_of : Option User → User × Option UserError
answer_of none = (no_user, some user_not_found)
answer_of (some u) = (u, none)

-- `users` and `errs`, in the order of the keys.
abbrev pub answer : Dict Bytes User → List Bytes → List (User × Option UserError)
answer mp = map (λ key. answer_of (lookup key mp))

abbrev pub all_failed : List Bytes → List (User × Option UserError)
all_failed = map (λ key. (no_user, some twitch_error))

-- `Fetch`
unfoldable pub fetch_users : Answers → List Bytes → List (User × Option UserError)
unfolding by_id
fetch_users a keys = if not a.client_made then all_failed keys else elim (app_token a) [
  | none ↦ all_failed keys
  | some token ↦ elim (a.users token keys) [
    | none ↦ all_failed keys
    | some us ↦ answer (by_id [] us) keys
  ]
]

-- `GetUsers`: the data loader splits the ids into batches, each of which meets its own answers.
unfoldable pub get_users : List (Answers × List Bytes) → List (User × Option UserError)
get_users [] = []
get_users ((a, keys) ∷ batches) = fetch_users a keys ++ get_users batches
