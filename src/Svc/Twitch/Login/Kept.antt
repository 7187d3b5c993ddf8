-- ===== src/Svc/Twitch/Login/Kept.antt =====
-- internal/svc/twitch/twitch.go: a login that was kept is read back.
use waterhose.Prelude.{
  true, [], ◌∷◌, ◌++◌, ◌≡◌, refl, ◌∙◌, Option, none, some, Bytes, arith, Outcome, ok, panic,
  Bool-cases, Option-cases, if◌then◌else◌, inl, inr,
}
use waterhose.Prelude.Int.{ℤ}
use waterhose.Irc.Slice.{split_n}
use waterhose.Irc.Slice.Laws.{split_n-cut}
use waterhose.Strconv.{itoa}
use waterhose.Strconv.RoundTrip.{IsInt, atoi-itoa, itoa-Lacks}
use waterhose.Svc.Twitch.Login.{
  Credentials, no_credentials, Codec, Redis, login_key, is_stale, login_value, read_login,
  refresh_login, get_oauth,
}

-- JSON that was written is read back.
abbrev pub IsCodec : Codec → Type 0
IsCodec codec = (creds old : Credentials) → codec.decode (codec.encode creds) old ≡ some creds

-- A server that answers: a read gives what is stored and keeps it, and a write that succeeds stores
-- under its key.
pub record IsStore (redis : Redis) (value : redis.State → Bytes → Option Bytes) : Type 0 where
  pub get_finds :
      (s : redis.State) (key text : Bytes)
      → value s key ≡ some text
      → (redis.get s key).0 ≡ some text
  pub get_keeps :
      (s : redis.State) (key text : Bytes) → value s key ≡ some text → (redis.get s key).1 ≡ s
  pub set_stores :
      (s : redis.State) (key text : Bytes)
      → (redis.set s key text).0 ≡ true
      → value (redis.set s key text).1 key ≡ some text

split_login :
    (seconds : ℤ) (json : Bytes)
    → split_n (itoa seconds ++ (b'+' ∷ json)) b'+' 2 ≡ itoa seconds ∷ json ∷ []
unfolding split_n
split_login seconds json =
    split_n-cut (itoa seconds) json b'+' 0 (itoa-Lacks b'+' seconds (omega arith))

pub read_login-login_value :
    (codec : Codec) (seconds : ℤ) (creds : Credentials)
    → IsCodec codec
    → IsInt seconds
    → read_login codec (login_value codec seconds creds) ≡ ok (some (seconds, creds))
unfolding read_login
read_login-login_value codec seconds creds c h =
    rw (read_login, split_login seconds (codec.encode creds))
      (rw (atoi-itoa seconds h) (rw (c creds no_credentials) refl))

module _ (codec : Codec) (redis : Redis) (value : redis.State → Bytes → Option Bytes) where
  -- What `GetOAuth` returns of a login that is kept: an error, or credentials that are kept behind it.
  abbrev pub Returns : Bytes → Outcome (Option Credentials × redis.State) → Type 0
  Returns id panic = ⊥
  Returns id (ok (none, s')) = Unit
  Returns id (ok (some creds, s')) =
      (at : ℤ) × (value s' (login_key id) ≡ some (login_value codec at creds))

module _ (codec : Codec) (redis : Redis) (value : redis.State → Bytes → Option Bytes)
    (c : IsCodec codec) (store : IsStore redis value) where
  pub get_oauth-read :
      (s : redis.State) (id : Bytes) (refresh : Bytes → Option Bytes) (created now seconds : ℤ)
      (creds : Credentials)
      → IsInt created
      → value s (login_key id) ≡ some (login_value codec created creds)
      → get_oauth codec redis s id refresh now seconds ≡ (
          if is_stale codec created creds now
          then ok (refresh_login codec redis s id (refresh creds.refresh_token) seconds creds)
          else ok (some creds, s))
  unfolding get_oauth
  get_oauth-read s id refresh created now seconds creds h v =
      rw
        (
          get_oauth,
          store.get_finds s (login_key id) _ v,
          read_login-login_value codec created creds c h,
        )
        (rw (store.get_keeps s (login_key id) _ v) refl)

  refresh_login-Returns :
      (s : redis.State) (id : Bytes) (body : Option Bytes) (seconds : ℤ) (creds : Credentials)
      → Returns codec redis value id (ok (refresh_login codec redis s id body seconds creds))
  unfolding refresh_login
  refresh_login-Returns s id none seconds creds = tt
  refresh_login-Returns s id (some text) seconds creds =
      elim (Option-cases (codec.decode text creds)) [
        | inl bad ↦ rw (refresh_login, bad) tt
        | inr (fresh, e) ↦
            elim (Bool-cases (redis.set s (login_key id) (login_value codec seconds fresh)).0) [
              | inl kept ↦
                  rw (refresh_login, e, kept) (seconds, store.set_stores s (login_key id) _ kept)
              | inr lost ↦ rw (refresh_login, e, lost) tt
            ]
      ]

  -- `GetOAuth` of a login that is kept does not panic; where it returns credentials, whether they were
  -- kept before or Twitch gave them now, they are kept behind it.
  pub get_oauth-Returns :
      (s : redis.State) (id : Bytes) (refresh : Bytes → Option Bytes) (created now seconds : ℤ)
      (creds : Credentials)
      → IsInt created
      → value s (login_key id) ≡ some (login_value codec created creds)
      → Returns codec redis value id (get_oauth codec redis s id refresh now seconds)
  get_oauth-Returns s id refresh created now seconds creds h v =
      elim (Bool-cases (is_stale codec created creds now)) [
        | inl stale ↦
            rw (get_oauth-read s id refresh created now seconds creds h v)
              (rw stale (refresh_login-Returns s id (refresh creds.refresh_token) seconds creds))
        | inr good ↦
            rw (get_oauth-read s id refresh created now seconds creds h v) (rw good (created, v))
      ]

  -- Where Twitch answers a refresh with a text that has none of the credentials' fields, as its error
  -- messages are, `GetOAuth` returns the old credentials, and keeps them as if they were new.
  pub get_oauth_refused :
      (s : redis.State) (id text : Bytes) (refresh : Bytes → Option Bytes) (created now seconds : ℤ)
      (creds : Credentials)
      → IsInt created
      → value s (login_key id) ≡ some (login_value codec created creds)
      → is_stale codec created creds now ≡ true
      → refresh creds.refresh_token ≡ some text
      → codec.decode text creds ≡ some creds
      → (redis.set s (login_key id) (login_value codec seconds creds)).0 ≡ true
      → (s' : redis.State) × (get_oauth codec redis s id refresh now seconds ≡ ok (some creds, s'))
        × (value s' (login_key id) ≡ some (login_value codec seconds creds))
  unfolding refresh_login
  get_oauth_refused s id text refresh created now seconds creds h v stale answer same kept = (
    (redis.set s (login_key id) (login_value codec seconds creds)).1,
    get_oauth-read s id refresh created now seconds creds h v
        ∙ rw (stale, answer) (rw (refresh_login, same, kept) refl),
    store.set_stores s (login_key id) _ kept,
  )
