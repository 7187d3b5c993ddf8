-- ===== src/Svc/Twitch/Tests.antt =====
-- Twitch's logins at concrete inputs: a codec, a store and answers.
use waterhose.Prelude.{
  zero, suc, bytes_eq, true, [], ◌∷◌, ◌++◌, ◌≡◌, refl, Option, none, some, Bytes, codes, arith,
  length, take, drop, take-append, drop-append, string_eq, ◌∙◌,
}
use waterhose.Prelude.Dict.{Dict, lookup, insert, lookup-insert_self}
use waterhose.Prelude.Int.{ℤ, pos, negsuc}
use waterhose.Svc.Twitch.Login.{Credentials, Codec, Redis, login_key, login_value, get_oauth}
use waterhose.Svc.Twitch.Login.Kept.{IsCodec, IsStore, Returns, get_oauth-Returns}

-- A codec: the lengths in front of the texts, and the sign in front of the number. An empty text has
-- no field.
abbrev int_code : ℤ → Bytes
int_code (pos n) = 0 ∷ n ∷ []
int_code (negsuc n) = 1 ∷ n ∷ []

abbrev int_of : Bytes → Option ℤ
int_of (zero ∷ n ∷ []) = some (pos n)
int_of (suc zero ∷ n ∷ []) = some (negsuc n)
int_of _ = none

abbrev encode : Credentials → Bytes
encode c =
    length c.access_token
    ∷ (c.access_token ++ length c.refresh_token ∷ (c.refresh_token ++ int_code c.expires_in))

abbrev read_expiry : Bytes → Bytes → Bytes → Option Credentials
read_expiry access refresh text = elim (int_of text) [
  | none ↦ none
  | some z ↦ some (record { access_token = access; refresh_token = refresh; expires_in = z })
]

abbrev read_refresh : Bytes → Bytes → Option Credentials
read_refresh access [] = none
read_refresh access (n ∷ rest) = read_expiry access (take n rest) (drop n rest)

abbrev decode : Bytes → Credentials → Option Credentials
decode [] old = some old
decode (n ∷ rest) old = read_refresh (take n rest) (drop n rest)

abbrev pub codec : Codec
codec = record { encode = encode; decode = decode; seven_tenths = λ z. z }

read_expiry-int_code :
    (access refresh : Bytes) (z : ℤ)
    → read_expiry access refresh (int_code z)
      ≡ some (record { access_token = access; refresh_token = refresh; expires_in = z })
read_expiry-int_code access refresh (pos n) = refl
read_expiry-int_code access refresh (negsuc n) = refl

pub codec-IsCodec : IsCodec codec
codec-IsCodec c old =
    let rest = c.refresh_token ++ int_code c.expires_in in
    rw
      (
        take-append c.access_token (length c.refresh_token ∷ rest),
        drop-append c.access_token (length c.refresh_token ∷ rest),
        drop-append c.refresh_token (int_code c.expires_in),
      )
      (read_expiry-int_code c.access_token (take (length c.refresh_token) rest) c.expires_in
        ∙ rw (take-append c.refresh_token (int_code c.expires_in)) refl)

-- A server that keeps what it is given.
abbrev pub store : Redis
store = record {
  State = Dict Bytes Bytes;
  get = λ s key. (lookup key s, s);
  set = λ s key text. (true, insert key text s);
}

abbrev pub value : store.State → Bytes → Option Bytes
value s key = lookup key s

pub store-IsStore : IsStore store value
store-IsStore = record {
  get_finds = λ s key text e. e;
  get_keeps = λ s key text e. refl;
  set_stores = λ s key text kept. lookup-insert_self key text s;
}

abbrev pub creds : Credentials
creds = record { access_token = codes "a"; refresh_token = codes "r"; expires_in = pos 4 }

abbrev kept : store.State
kept = (login_key (codes "7"), login_value codec (pos 9) creds) ∷ []

kept_value : value kept (login_key (codes "7")) ≡ some (login_value codec (pos 9) creds)
unfolding lookup bytes_eq
kept_value = refl

-- A refresh that Twitch refuses with a text that has no field.
abbrev refused : Bytes → Option Bytes
refused token = some []

get_oauth-Returns_example :
    Returns codec store value
      (codes "7")
      (get_oauth codec store kept (codes "7") refused (pos 14_000_000_000) (pos 14))
get_oauth-Returns_example =
    get_oauth-Returns codec store value codec-IsCodec store-IsStore kept (codes "7") refused (pos 9)
      (pos 14_000_000_000) (pos 14) creds (omega arith) kept_value
