-- ===== src/System/Batch.antt =====
-- internal/svc/autoscaler/autoscaler.go with internal/svc/twitch/twitch.go: a batch over the users that
-- the loader gives.
mod Tests
use waterhose.Prelude.{
  ℕ, suc, ◌+◌, ◌≤◌, ◌<◌, ◌^◌, Bool, true, false, List, [], ◌∷◌, ◌++◌, map, ◌≡◌, refl, ap, ◌∙◌,
  Option, none, some, Bytes, arith, length, All, List-cases, inl, inr,
}
use waterhose.Prelude.Int.{ℤ}
use waterhose.Prelude.Dict.{Dict}
use waterhose.Structures.{PbChannel, User}
use waterhose.Svc.AutoScaler.{AutoScaler, Batch, allocate, complete, has_id}
use waterhose.Svc.AutoScaler.Invariant.{Inv}
use waterhose.Svc.AutoScaler.Rescale.{K8sApi}
use waterhose.Svc.AutoScaler.Rescale.Retries.{IsCluster}
use waterhose.Svc.AutoScaler.Fetch.{
  Setting, Fetched, returned, fetch, collect, allocate_users, start_batch,
}
use waterhose.Svc.AutoScaler.Fetch.Correct.{Correct, fetch-Correct}
use waterhose.Svc.Twitch.{Answers, UserError, no_user, all_failed, fetch_users, get_users}
use waterhose.Svc.Twitch.Users.{keys_of, users_of, get_users-AnswersUsers}

-- The autoscaler over the user loader, which splits the ids of a batch as `plan` says.
abbrev pub over_twitch : Setting → (List Bytes → List (Answers × List Bytes)) → Setting
over_twitch e plan = record {
  limit = e.limit;
  enabled = e.enabled;
  users = λ ids. users_of (get_users (plan ids));
  answers = e.answers;
  k8s = e.k8s;
}

-- A batch of the autoscaler over the user loader, whatever Twitch and Redis answer and however the ids
-- are split: where the edges and the channels agree, the limit is at least one channel per slave, the
-- stateful set keeps what an update sets, and there stay fewer than 2^31 edges, it either stops the
-- program by a fatal error, or returns what `Correct` says; it does not panic, and its loops end.
pub fetch-get_users :
    (e : Setting) (replicas : e.k8s.State → Option ℤ)
    (plan : List Bytes → List (Answers × List Bytes)) (s : AutoScaler) (st : e.k8s.State)
    (channels : List PbChannel)
    → IsCluster e.k8s replicas
    → ((ids : List Bytes) → keys_of (plan ids) ≡ ids)
    → 1 ≤ e.limit
    → Inv s
    → length s.edges + length channels < 2 ^ 31
    → Correct (over_twitch e plan) replicas channels s (fetch (over_twitch e plan) s st channels)
fetch-get_users e replicas plan s st channels cluster splits positive v fits =
    fetch-Correct (over_twitch e plan) replicas cluster channels s st positive v
      (get_users-AnswersUsers plan splits) fits

-- Every batch of the loader fails.
abbrev pub AllFail : List (Answers × List Bytes) → Type 0
AllFail [] = Unit
AllFail ((a, keys) ∷ batches) = (fetch_users a keys ≡ all_failed keys) × AllFail batches

Unknown : List User → Type 0
Unknown us = All (λ u. has_id u ≡ false) us

failed-Unknown :
    (keys : List Bytes) (rest : List (User × Option UserError))
    → Unknown (users_of rest)
    → Unknown (users_of (all_failed keys ++ rest))
unfolding Unknown
failed-Unknown [] rest h = h
failed-Unknown (key ∷ keys) rest h = (refl, failed-Unknown keys rest h)

get_users-Unknown :
    (batches : List (Answers × List Bytes))
    → AllFail batches
    → Unknown (users_of (get_users batches))
unfolding Unknown get_users
get_users-Unknown [] h = tt
get_users-Unknown ((a, keys) ∷ batches) (f, fs) =
    rw f (failed-Unknown keys (get_users batches) (get_users-Unknown batches fs))

allocate-Unknown :
    (limit : ℕ) (mp : Dict Bytes PbChannel) (us : List User) (b : Batch)
    → Unknown us
    → allocate limit mp us b ≡ complete b
unfolding allocate Unknown
allocate-Unknown limit mp [] b h = refl
allocate-Unknown limit mp (u ∷ us) b (f, fs) = rw (allocate, f) (allocate-Unknown limit mp us b fs)

-- A batch in which every call of the user loader fails stores nothing and publishes nothing, and
-- returns like any other.
pub fetch_unanswered :
    (e : Setting) (plan : List Bytes → List (Answers × List Bytes)) (s : AutoScaler)
    (st : e.k8s.State) (channels : List PbChannel)
    → ((ids : List Bytes) → AllFail (plan ids))
    → fetch (over_twitch e plan) s st channels ≡ returned s st [] []
unfolding fetch allocate_users Unknown
fetch_unanswered e plan s st channels fails = elim (List-cases (collect [] [] channels).1) [
  | inl e' ↦ rw (fetch, e') refl
  | inr (id, ids, e') ↦ elim (List-cases (users_of (get_users (plan (id ∷ ids))))) [
    | inl f ↦ rw (fetch, e', f) refl
    | inr (u, us, f) ↦
        let unknown = rw f at (get_users-Unknown (plan (id ∷ ids)) (fails (id ∷ ids))) in
        rw
          (
            fetch,
            e',
            f,
            allocate_users,
            allocate-Unknown e.limit (collect [] [] channels).0 (u ∷ us) (start_batch s) unknown,
          )
          refl
  ]
]
