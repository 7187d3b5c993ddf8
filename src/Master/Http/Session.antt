-- ===== src/Master/Http/Session.antt =====
-- internal/modes/master/http/http.go with internal/svc/twitch/twitch.go: a login from the first page
-- to the credentials that `GetOAuth` gives.
use waterhose.Prelude.{
  true, false, [], ◌∷◌, ◌≡◌, ◌≢◌, refl, sym, ap, ◌∙◌, Option, some, Bytes, codes, arith, ok,
  if◌then◌else◌, inl, inr, if_both, bytes_cases, bytes_eq, bytes_eq_refl, bytes_eq_iff,
}
use mathlib.Core.Path.{subst}
use waterhose.Prelude.Int.{ℤ}
use waterhose.Strconv.RoundTrip.{IsInt}
use waterhose.Svc.Twitch.Login.{Credentials, Codec, Redis, is_stale, refresh_login, get_oauth}
use waterhose.Svc.Twitch.Login.Kept.{IsCodec, IsStore, get_oauth-read}
use waterhose.Master.Http.{
  TwitchConfig, Request, Web, same_state, exchange_code, store_login, auth_callback, auth_login,
  handle, Handled,
}
use waterhose.Master.Http.Callback.{published, IsStored, auth_callback_lem}

bytes_eq-other : (s t : Bytes) → s ≢ t → bytes_eq s t ≡ false
bytes_eq-other s t h = ground (arith, bytes_eq_iff s t)

module _ (config : TwitchConfig) (web : Web) (redis : Redis)
    (value : redis.State → Bytes → Option Bytes) (codec : Codec) where
  handle_callback :
      (seconds : ℤ) (random : Bytes) (r : Request) (s : redis.State)
      → r.path ≡ codes "/auth/callback"
      → handle config web redis codec seconds random r s
        ≡ auth_callback config web redis codec seconds r s
  unfolding handle bytes_eq
  handle_callback seconds random r s here = rw (handle, here) refl

  handle_elsewhere :
      (seconds : ℤ) (random : Bytes) (r : Request) (s : redis.State)
      → r.path ≢ codes "/auth/callback"
      → published (handle config web redis codec seconds random r s).1 ≡ []
  unfolding handle published
  handle_elsewhere seconds random r s other =
      rw (handle, bytes_eq-other r.path (codes "/auth/callback") other)
        (if_both (λ (x : Handled config web redis). published x.1 ≡ [])
          (bytes_eq r.path (codes "/auth/login")) refl
          (if_both (λ (x : Handled config web redis). published x.1 ≡ [])
            (bytes_eq r.path (codes "/auth/success")) refl refl))

  -- Where a handler publishes a login, the request is for the callback, the hashes of its cookie and of
  -- its state agree, and the login is in Redis under the account of the token for its code.
  pub handle_publishes :
      (seconds : ℤ) (random : Bytes) (r : Request) (s : redis.State)
      → IsStore redis value
      → published (handle config web redis codec seconds random r s).1 ≢ []
      → (r.path ≡ codes "/auth/callback")
        × (same_state config web r ≡ true)
        × IsStored config web redis value codec seconds r.code
            (handle config web redis codec seconds random r s)
  unfolding handle published
  handle_publishes seconds random r s store h = elim (bytes_cases r.path (codes "/auth/callback")) [
    | inr other ↦ elim (h (handle_elsewhere seconds random r s other)) [ ]
    | inl here ↦ elim (auth_callback_lem config web redis value codec store seconds r s) [
      | inl (_, bad) ↦
          elim (h (ap (λ x. published x.1) (handle_callback seconds random r s here ∙ bad))) [ ]
      | inr (_, inl (_, out)) ↦
          elim (h (ap (λ x. published x.1) (handle_callback seconds random r s here) ∙ out)) [ ]
      | inr (same, inr stored) ↦ (
        here,
        same,
        subst (IsStored config web redis value codec seconds r.code)
            (sym (handle_callback seconds random r s here)) stored,
      )
    ]
  ]

  -- The browser that gives the cookie and the state of `AuthLoginHandler` back passes the check.
  pub handle-auth_login :
      (seconds : ℤ) (random random' : Bytes) (r : Request) (s : redis.State)
      → r.path ≡ codes "/auth/callback"
      → some r.cookie ≡ (auth_login config web random).cookie
      → r.state ≡ web.hex random
      → handle config web redis codec seconds random' r s
        ≡ store_login config web redis codec seconds r.code s
  unfolding handle auth_callback auth_login bytes_eq
  handle-auth_login seconds random random' r s p c q =
      handle_callback seconds random' r s p
      ∙ rw (auth_callback, q, cookie)
          (rw (bytes_eq_refl (web.hex (web.hash (web.hex random)))) refl)
    where
      cookie : r.cookie ≡ web.hex random
      cookie = cc

  -- A callback that answers 200 publishes one account, and from then on `GetOAuth` of that account
  -- gives the token of the callback's code, for as long as it is not stale, and refreshes it then.
  pub auth_callback-get_oauth :
      (seconds now later : ℤ) (r : Request) (s : redis.State) (refresh : Bytes → Option Bytes)
      → IsStore redis value
      → IsCodec codec
      → IsInt seconds
      → (auth_callback config web redis codec seconds r s).0.status ≡ 200
      → (token : Credentials) × (id : Bytes) × (exchange_code config web codec r.code ≡ inr token)
        × (published (auth_callback config web redis codec seconds r s).1 ≡ id ∷ [])
        × (get_oauth codec redis
              (auth_callback config web redis codec seconds r s).2
              id
              refresh
              now
              later
            ≡ (if is_stale codec seconds token now
                then ok (
                    refresh_login codec redis
                      (auth_callback config web redis codec seconds r s).2
                      id
                      (refresh token.refresh_token)
                      later
                      token)
                else ok (some token, (auth_callback config web redis codec seconds r s).2)))
  auth_callback-get_oauth seconds now later r s refresh store c h e =
      elim (auth_callback_lem config web redis value codec store seconds r s) [
        | inl (_, bad) ↦ ground (arith, ap (λ x. x.0.status) bad)
        | inr (_, inl (bad, _)) ↦ ground arith
        | inr (_, inr (token, user, got, owner, good, out, v)) ↦ (
          token,
          user.id,
          got,
          out,
          get_oauth-read codec redis value c store _ user.id refresh seconds now later token h v,
        )
      ]
