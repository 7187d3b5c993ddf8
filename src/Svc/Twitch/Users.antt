-- ===== src/Svc/Twitch/Users.antt =====
-- internal/svc/twitch/twitch.go: the users that `GetUsers` answers with.
use waterhose.Prelude.{
  ◌≤◌, true, List, [], ◌∷◌, ◌++◌, map, ◌≡◌, inl, inr, refl, sym, ◌∙◌, Option, none, some, Bytes,
  arith, All, length, bytes_cases, Bool-cases, Option-cases, string_eq,
}
use waterhose.Prelude.Dict.{Dict, lookup, insert, lookup-insert_self, lookup-insert_ne}
use waterhose.Structures.{User}
use waterhose.Svc.AutoScaler.{has_id}
use waterhose.Svc.AutoScaler.Fetch.Ids.{Occurs}
use waterhose.Svc.AutoScaler.Fetch.Correct.{AnswersUsers}
use waterhose.Svc.Twitch.{
  Answers, UserError, no_user, app_token, by_id, answer, all_failed, fetch_users, get_users,
}

-- An answer to a key: the user of that id, or an error and no user.
abbrev pub Fits : Bytes → User × Option UserError → Type 0
Fits key (u, none) = u.id ≡ key
Fits key (u, some e) = u ≡ no_user

-- One answer to each key, in order.
abbrev pub FitAll : List Bytes → List (User × Option UserError) → Type 0
FitAll [] [] = Unit
FitAll (key ∷ keys) (a ∷ rest) = Fits key a × FitAll keys rest
FitAll _ _ = ⊥

-- Each user of the map stands under its own id.
abbrev OwnIds : Dict Bytes User → Type 0
OwnIds mp = (id : Bytes) (u : User) → lookup id mp ≡ some u → u.id ≡ id

insert-OwnIds : (u : User) (mp : Dict Bytes User) → OwnIds mp → OwnIds (insert u.id u mp)
insert-OwnIds u mp h id v e = elim (bytes_cases u.id id) [
  | inl same ↦ ground (arith, lookup-insert_self u.id u mp)
  | inr apart ↦ h id v (sym (lookup-insert_ne u.id id u mp apart) ∙ e)
]

by_id-OwnIds : (us : List User) (mp : Dict Bytes User) → OwnIds mp → OwnIds (by_id mp us)
unfolding by_id
by_id-OwnIds [] mp h = h
by_id-OwnIds (u ∷ us) mp h = by_id-OwnIds us (insert u.id u mp) (insert-OwnIds u mp h)

no_users-OwnIds : OwnIds []
unfolding lookup
no_users-OwnIds id u e = absurd (cc)

answer-FitAll :
    (mp : Dict Bytes User) (keys : List Bytes) → OwnIds mp → FitAll keys (answer mp keys)
answer-FitAll mp [] h = tt
answer-FitAll mp (key ∷ keys) h = elim (Option-cases (lookup key mp)) [
  | inl gone ↦ (rw gone, answer-FitAll mp keys h)
  | inr (u, e) ↦ (rw e (h key u e), answer-FitAll mp keys h)
]

all_failed-FitAll : (keys : List Bytes) → FitAll keys (all_failed keys)
all_failed-FitAll [] = tt
all_failed-FitAll (key ∷ keys) = (refl, all_failed-FitAll keys)

-- Whatever the services answer, `Fetch` gives one answer to each key, in the keys' order: the user
-- of that id, or an error and an empty user.
pub fetch_users-FitAll : (a : Answers) (keys : List Bytes) → FitAll keys (fetch_users a keys)
unfolding fetch_users
fetch_users-FitAll a keys = elim (Bool-cases a.client_made) [
  | inr off ↦ rw off (all_failed-FitAll keys)
  | inl on ↦ elim (Option-cases (app_token a)) [
    | inl no_token ↦ rw (on, no_token) (all_failed-FitAll keys)
    | inr (token, e) ↦ elim (Option-cases (a.users token keys)) [
      | inl refused ↦ rw (on, e, refused) (all_failed-FitAll keys)
      | inr (us, f) ↦
          rw (on, e, f) (answer-FitAll (by_id [] us) keys (by_id-OwnIds us [] no_users-OwnIds))
    ]
  ]
]

abbrev pub keys_of : List (Answers × List Bytes) → List Bytes
keys_of [] = []
keys_of ((a, keys) ∷ batches) = keys ++ keys_of batches

FitAll-append :
    (ks ls : List Bytes) (xs ys : List (User × Option UserError))
    → FitAll ks xs
    → FitAll ls ys
    → FitAll (ks ++ ls) (xs ++ ys)
FitAll-append [] ls [] ys h k = k
FitAll-append [] ls (x ∷ xs) ys h k = absurd h
FitAll-append (key ∷ ks) ls [] ys h k = absurd h
FitAll-append (key ∷ ks) ls (x ∷ xs) ys h k = (h.0, FitAll-append ks ls xs ys h.1 k)

get_users-FitAll : (bs : List (Answers × List Bytes)) → FitAll (keys_of bs) (get_users bs)
unfolding get_users
get_users-FitAll [] = tt
get_users-FitAll ((a, keys) ∷ bs) =
    FitAll-append keys (keys_of bs) (fetch_users a keys) (get_users bs) (fetch_users-FitAll a keys)
      (get_users-FitAll bs)

-- The users that the autoscaler reads: it drops the errors.
abbrev pub users_of : List (User × Option UserError) → List User
users_of = map (λ r. r.0)

Fits-Occurs :
    (key : Bytes) (r : User × Option UserError) → Fits key r → has_id r.0 ≡ true → key ≡ r.0.id
Fits-Occurs key (u, none) f h = sym f
Fits-Occurs key (u, some e) f h = absurd (ground (arith, f))

All-Occurs :
    (a : Bytes) (xs : List Bytes) (us : List User)
    → All (λ u. has_id u ≡ true → Occurs u.id xs) us
    → All (λ u. has_id u ≡ true → Occurs u.id (a ∷ xs)) us
All-Occurs a xs [] h = tt
All-Occurs a xs (u ∷ us) h = ((λ k. inr (h.0 k)), All-Occurs a xs us h.1)

FitAll-Occurs :
    (keys : List Bytes) (rs : List (User × Option UserError))
    → FitAll keys rs
    → (length (users_of rs) ≤ length keys)
      × All (λ u. has_id u ≡ true → Occurs u.id keys) (users_of rs)
FitAll-Occurs [] [] f = (omega arith, tt)
FitAll-Occurs [] (r ∷ rs) f = absurd f
FitAll-Occurs (key ∷ keys) [] f = absurd f
FitAll-Occurs (key ∷ keys) (r ∷ rs) f =
    let (count, known) = FitAll-Occurs keys rs f.1 in
    (
      omega (arith, count),
      ((λ h. inl (Fits-Occurs key r f.0 h)), All-Occurs key keys (users_of rs) known),
    )

-- `GetUsers`, for any way in which the data loader splits the ids into batches, and whatever the
-- services answer to each, is what the autoscaler relies on: there are no more users than ids, and a
-- user that was found has one of the ids.
pub get_users-AnswersUsers :
    (plan : List Bytes → List (Answers × List Bytes))
    → ((ids : List Bytes) → keys_of (plan ids) ≡ ids)
    → AnswersUsers (λ ids. users_of (get_users (plan ids)))
get_users-AnswersUsers plan splits ids =
    FitAll-Occurs ids (get_users (plan ids)) (rw (splits ids) at (get_users-FitAll (plan ids)))
