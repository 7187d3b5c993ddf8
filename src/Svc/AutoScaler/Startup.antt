-- ===== src/Svc/AutoScaler/Startup.antt =====
-- internal/svc/autoscaler/autoscaler.go: `Load` as a whole. The answers of MongoDB and Kubernetes are
-- parameters. The channel `a.ready`, which `Load` closes, is read nowhere.
use waterhose.Prelude.{
  ℕ, ◌+◌, Bool, true, false, not, List, [], ◌∷◌, ◌≡◌, Option, none, some, Bytes, if◌then◌else◌,
  length, get_elem?, All, ok, panic, string_eq, arith, Bool-cases, inl, inr, zero, suc,
}
use waterhose.Prelude.Dict.{Dict, lookup}
use waterhose.Prelude.Int.{ℤ, pos, int32}
use waterhose.Structures.{Channel}
use waterhose.Svc.AutoScaler.{AutoScaler}
use waterhose.Svc.AutoScaler.Invariant.{Inv}
use waterhose.Svc.AutoScaler.Load.{Loadable, load_rows, load_rows_lem, values}
use waterhose.Svc.AutoScaler.Rescale.{Retried, finished, fatal, out_of_fuel, K8sApi, rescale_unsafe}
use waterhose.Svc.AutoScaler.Rescale.Retries.{
  IsCluster, Rescaled, rescale_unsafe_enabled, rescale_unsafe_disabled,
}

-- How `Load` ends: with an error of MongoDB; with what it sends to each slave; with a fatal error or
-- a panic; or not at all.
pub data Loaded (S : Type 0) : Type 0 where
  refused : Loaded S
  loaded : AutoScaler → S → List (ℕ × List Channel) → Loaded S
  stopped : Loaded S
  panicked : Loaded S
  looping : Loaded S

-- `for idx, channelsMp := range a.edges`, from the edge `i` on.
abbrev pub publications : ℕ → List (Dict Bytes Channel) → List (ℕ × List Channel)
publications i [] = []
publications i (m ∷ ms) = (i, values m) ∷ publications (i + 1) ms

module _ (api : K8sApi) where
  -- `updated` says whether the states were reset, and `rows` is the collection, if it can be read.
  unfoldable pub load :
      Bool → Option (List Channel) → Bool → AutoScaler → api.State → Loaded api.State
  load updated rows enabled s st = if not updated then refused else elim rows [
    | none ↦ refused
    | some vs ↦ elim (load_rows s vs) [
      | panic ↦ panicked
      | ok s' ↦ elim (rescale_unsafe api enabled st (int32 (pos (length s'.edges)))) [
        | fatal ↦ stopped
        | out_of_fuel ↦ looping
        | finished st' ↦ loaded s' st' (publications 0 s'.edges)
      ]
    ]
  ]

-- What `Load` leaves of rows `vs`: the edges and the channels agree, every row is stored, each slave
-- is sent the channels of its edge, and under Kubernetes there is a replica for each edge.
abbrev pub Loads :
    (api : K8sApi) → (api.State → Option ℤ) → Bool → List Channel → Loaded api.State → Type 0
Loads api replicas enabled vs (loaded s st published) =
    Inv s
    × All (λ v. lookup v.twitch_id s.channels ≡ some v) vs
    × ((i : ℕ) (m : Dict Bytes Channel)
        → get_elem? s.edges i ≡ some m
        → get_elem? published i ≡ some (i, values m))
    × (enabled ≡ true → replicas st ≡ some (int32 (pos (length s.edges))))
Loads api replicas enabled vs stopped = Unit
Loads api replicas enabled vs _ = ⊥

publications_lem :
    (from i n : ℕ) (ms : List (Dict Bytes Channel)) (m : Dict Bytes Channel)
    → from + i ≡ n
    → get_elem? ms i ≡ some m
    → get_elem? (publications from ms) i ≡ some (n, values m)
publications_lem from i n [] m at e = absurd (ground arith)
publications_lem from zero n (m' ∷ ms) m at e = ground arith
publications_lem from (suc i) n (m' ∷ ms) m at e =
    publications_lem (from + 1) i n ms m (omega arith) e

module _ {api : K8sApi} {replicas : api.State → Option ℤ} (cluster : IsCluster api replicas) where
  -- `Load` of rows that name edges from 0 and no channel twice, into a state where the edges and the
  -- channels agree, where the stateful set keeps what an update sets, either stops the program by a
  -- fatal error or leaves what `Loads` says: it does not panic, and its loops end.
  pub load-Loads :
      (vs : List Channel) (enabled : Bool) (s : AutoScaler) (st : api.State)
      → Inv s
      → Loadable s.channels vs
      → Loads api replicas enabled vs (load api true (some vs) enabled s st)
  unfolding load
  load-Loads vs enabled s st inv h =
      let (s', e, inv', all) = load_rows_lem vs s inv h in
      rw e (
        go s' inv' all (rescale_unsafe api enabled st (int32 (pos (length s'.edges))))
          (λ on. rw on (rescale_unsafe_enabled cluster st _))
          (λ off. rw off (rescale_unsafe_disabled api st _)))
    where
      go :
          (s' : AutoScaler)
          → Inv s'
          → All (λ v. lookup v.twitch_id s'.channels ≡ some v) vs
          → (r : Retried api.State)
          → (enabled ≡ true → Rescaled cluster (int32 (pos (length s'.edges))) r)
          → (enabled ≡ false → r ≡ finished st)
          → Loads api replicas enabled vs (elim r [
            | fatal ↦ stopped
            | out_of_fuel ↦ looping
            | finished st' ↦ loaded s' st' (publications 0 s'.edges)
          ])
      go s' inv' all (finished st') on off =
          (inv', all, (λ i m at. publications_lem 0 i i s'.edges m (omega arith) at), on)
      go s' inv' all fatal on off = tt
      go s' inv' all out_of_fuel on off = elim (Bool-cases enabled) [
        | inl h ↦ absurd (on h)
        | inr h ↦ absurd (ground (arith, off h))
      ]
