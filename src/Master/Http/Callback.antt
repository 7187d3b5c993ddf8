-- ===== src/Master/Http/Callback.antt =====
-- internal/modes/master/http/http.go: what the callback of a login leaves behind.
use waterhose.Prelude.{
  true, false, List, [], ◌∷◌, ◌≡◌, refl, Option, some, Bytes, codes, arith, ◌⊎◌, inl, inr,
  Bool-cases,
}
use waterhose.Prelude.Int.{ℤ}
use waterhose.Structures.{User}
use waterhose.Svc.Twitch.Login.{Credentials, Codec, Redis, login_key, login_value}
use waterhose.Svc.Twitch.Login.Kept.{IsStore}
use waterhose.Master.Http.{
  TwitchConfig, Request, Response, Effect, publish_login, reply, Web, exchange_code, token_owner,
  same_state, store_login, auth_callback, Handled,
}

-- The accounts whose login is published.
unfoldable pub published : List Effect → List Bytes
published [] = []
published (publish_login id ∷ effects) = id ∷ published effects
published (_ ∷ effects) = published effects

module _ (config : TwitchConfig) (web : Web) (redis : Redis)
    (value : redis.State → Bytes → Option Bytes) (codec : Codec) where
  -- A login is in Redis, under the account that the token of the code belongs to, and is published.
  abbrev pub IsStored : ℤ → Bytes → Handled config web redis → Type 0
  IsStored seconds code (response, effects, s') =
      (token : Credentials) × (user : User) × (exchange_code config web codec code ≡ inr token)
      × (token_owner config web token ≡ inr user)
      × (response.status ≡ 200)
      × (published effects ≡ user.id ∷ [])
      × (value s' (login_key user.id) ≡ some (login_value codec seconds token))

  abbrev pub IsFailed : Handled config web redis → Type 0
  IsFailed (response, effects, s') = (response.status ≡ 500) × (published effects ≡ [])

  ⊎-cases : {A B : Type 0} (x : A ⊎ B) → ((a : A) × (x ≡ inl a)) ⊎ ((b : B) × (x ≡ inr b))
  ⊎-cases (inl a) = inl (a, refl)
  ⊎-cases (inr b) = inr (b, refl)

  exchange_code_fails :
      (code : Bytes) (failure : Response)
      → exchange_code config web codec code ≡ inl failure
      → failure.status ≡ 500
  unfolding exchange_code
  exchange_code_fails code failure e = ground arith

  token_owner_fails :
      (token : Credentials) (failure : Response)
      → token_owner config web token ≡ inl failure
      → failure.status ≡ 500
  unfolding token_owner
  token_owner_fails token failure e = ground arith

  module _ (store : IsStore redis value) where
    store_login_lem :
        (seconds : ℤ) (code : Bytes) (s : redis.State)
        → IsFailed (store_login config web redis codec seconds code s)
          ⊎ IsStored seconds code (store_login config web redis codec seconds code s)
    unfolding store_login published
    store_login_lem seconds code s = elim (⊎-cases (exchange_code config web codec code)) [
      | inl (failure, e) ↦ inl (rw (store_login, e) (exchange_code_fails code failure e, refl))
      | inr (token, e) ↦ elim (⊎-cases (token_owner config web token)) [
        | inl (failure, o) ↦ inl (rw (store_login, e, o) (token_owner_fails token failure o, refl))
        | inr (user, o) ↦
            elim (Bool-cases
              (redis.set s (login_key user.id) (login_value codec seconds token)).0) [
                | inl kept ↦ inr (
                    rw (store_login, e, o, kept)
                      (
                        token,
                        user,
                        refl,
                        o,
                        refl,
                        refl,
                        store.set_stores s (login_key user.id) _ kept,
                      ))
                | inr lost ↦ inl (rw (store_login, e, o, lost) (refl, refl))
              ]
      ]
    ]

    -- The whole callback.
    pub auth_callback_lem :
        (seconds : ℤ) (r : Request) (s : redis.State)
        → ((same_state config web r ≡ false)
            × (auth_callback config web redis codec seconds r s
                ≡ (reply 403 (codes "bad csrf token"), [], s)))
          ⊎ ((same_state config web r ≡ true)
              × (IsFailed (auth_callback config web redis codec seconds r s)
                  ⊎ IsStored seconds r.code (auth_callback config web redis codec seconds r s)))
    unfolding auth_callback
    auth_callback_lem seconds r s = elim (Bool-cases (same_state config web r)) [
      | inl same ↦ inr (same, rw (auth_callback, same) (store_login_lem seconds r.code s))
      | inr other ↦ inl (other, rw other refl)
    ]
