-- ===== src/Svc/AutoScaler/Fetch.antt =====
-- internal/svc/autoscaler/autoscaler.go: the `Fetch` function of the batch loader as a whole. The
-- answers of Twitch, MongoDB and Kubernetes are parameters.
pub mod Ids
pub mod Correct
use waterhose.Prelude.{
  ℕ, Bool, true, false, List, [], ◌∷◌, ◌++◌, Option, none, some, Bytes, if◌then◌else◌, length,
  string_eq,
}
use waterhose.Prelude.Dict.{Dict, lookup, insert}
use waterhose.Prelude.Int.{pos, int32}
use waterhose.Structures.{Channel, PbChannel, User}
use waterhose.Svc.AutoScaler.{
  AutoScaler, Batch, Allocation, complete, crashed, endless, allocate, is_some,
}
use waterhose.Svc.AutoScaler.Rescale.{
  finished, fatal, out_of_fuel, bulk_write, K8sApi, rescale_unsafe,
}

-- `mp` and `filteredIDs`: the channels by id, and the ids without repetition.
unfoldable pub collect :
    Dict Bytes PbChannel → List Bytes → List PbChannel → Dict Bytes PbChannel × List Bytes
collect mp ids [] = (mp, ids)
collect mp ids (v ∷ vs) =
    collect (insert v.id v mp) (if is_some (lookup v.id mp) then ids else ids ++ v.id ∷ []) vs

-- How a batch ends: it returns, with what it published to the slaves; the program stops, by a
-- fatal error or by a panic; or the loops did not end.
pub data Fetched (S : Type 0) : Type 0 where
  returned : AutoScaler → S → List Channel → Dict ℕ (List Channel) → Fetched S
  stopped : Fetched S
  panicked : Fetched S
  looping : Fetched S

-- `users` is `Twitch.GetUsers`, `answers` the outcomes of `BulkWrite`, `limit` the configured
-- `ChannelLimitPerSlave` (0 for a negative one) and `enabled` that of Kubernetes.
pub record Setting : Type 1 where
  pub limit : ℕ
  pub enabled : Bool
  pub users : List Bytes → List User
  pub answers : ℕ → Bool
  pub k8s : K8sApi

abbrev pub start_batch : AutoScaler → Batch
start_batch s = record { scaler = s; allocations = []; new_channels = [] }

module _ (e : Setting) where
  abbrev pub nothing : AutoScaler → e.k8s.State → Fetched e.k8s.State
  nothing s st = returned s st [] []

  -- The write to MongoDB, the rescale and the publication.
  pub store_batch : Batch → e.k8s.State → Fetched e.k8s.State
  store_batch b st = elim (bulk_write 12 e.answers 0) [
    | fatal ↦ stopped
    | out_of_fuel ↦ looping
    | finished _ ↦ elim (rescale_unsafe e.k8s e.enabled st (int32 (pos (length b.scaler.edges)))) [
      | fatal ↦ stopped
      | out_of_fuel ↦ looping
      | finished st' ↦ returned b.scaler st' b.new_channels b.allocations
    ]
  ]

  -- The loop over the users, and what follows it when a channel was placed.
  unfoldable pub allocate_users :
      Dict Bytes PbChannel → List User → AutoScaler → e.k8s.State → Fetched e.k8s.State
  unfolding store_batch
  allocate_users mp users s st = elim (allocate e.limit mp users (start_batch s)) [
    | crashed ↦ panicked
    | endless ↦ looping
    | complete b ↦ elim b.new_channels [ [] ↦ nothing b.scaler st | _ ∷ _ ↦ store_batch b st ]
  ]

  unfoldable pub fetch : AutoScaler → e.k8s.State → List PbChannel → Fetched e.k8s.State
  unfolding allocate_users
  fetch s st channels =
      let (mp, filtered_ids) = collect [] [] channels in
      elim filtered_ids [
        | [] ↦ nothing s st
        | id ∷ ids ↦ elim (e.users (id ∷ ids)) [
          | [] ↦ nothing s st
          | u ∷ us ↦ allocate_users mp (u ∷ us) s st
        ]
      ]
