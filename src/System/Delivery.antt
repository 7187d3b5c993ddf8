-- ===== src/System/Delivery.antt =====
-- internal/modes/master/server/server.go with internal/modes/slave: the channels that come for a slave
-- and those that it has.
use mathlib.Core.List.{append-nil}
use mathlib.Core.Path.{subst}
use waterhose.Prelude.{
  ℕ, ◌<◌, ◌^◌, List, [], ◌∷◌, ◌++◌, map, ◌≡◌, refl, sym, ap, ◌∙◌, Bytes, length, ok,
}
use waterhose.Structures.{Channel, PbChannel, Payload, join_payload, part_payload, login_payload}
use waterhose.Slave.Connection.{Action}
use waterhose.Slave.Manager.{Manager, new_manager}
use waterhose.Slave.Manager.Invariant.{Inv}
use waterhose.Slave.Client.{receive_all}
use waterhose.Slave.Client.Runs.{Allocated, joins, all_joins}
use waterhose.Master.Stream.{Stream, Label, pb_channel, Run}
use waterhose.Master.Stream.Order.{inputs, sent_joins, Run-Sends}
use waterhose.System.Slave.{Named, payloads_of, stream-receive_all}

abbrev pub flatten {ℓ} : {A : Type ℓ} → List (List A) → List A
flatten [] = []
flatten (xs ∷ xss) = xs ++ flatten xss

-- The channels that came for a slave, as they are sent.
abbrev pub came : List Label → List PbChannel
came labels = flatten (map (map pb_channel) (inputs labels))

all_joins-sent_joins :
    (timed : List ((ℕ → ℕ) × Payload)) → all_joins timed ≡ flatten (sent_joins (payloads_of timed))
unfolding all_joins joins sent_joins
all_joins-sent_joins [] = refl
all_joins-sent_joins ((clock, join_payload channels) ∷ timed) =
    ap (λ r. channels ++ r) (all_joins-sent_joins timed)
all_joins-sent_joins ((clock, part_payload channels) ∷ timed) = all_joins-sent_joins timed
all_joins-sent_joins ((clock, login_payload channel oauth) ∷ timed) = all_joins-sent_joins timed

module _ (account_id : Bytes) (empty_channel : ℕ → ℕ) (is_own : List Channel → Type 0) where
  all_joins-came :
      (labels : List Label) (s : Stream) (channel : PbChannel) (oauth : Bytes)
      (timed : List ((ℕ → ℕ) × Payload))
      → Run account_id empty_channel Named is_own labels s
      → s.sent ≡ login_payload channel oauth ∷ payloads_of timed
      → s.join_events ≡ []
      → all_joins timed ≡ came labels
  unfolding sent_joins
  all_joins-came labels s channel oauth timed run e drained =
      let v = Run-Sends account_id empty_channel Named is_own labels s run in
      let taken : v.taken ≡ inputs labels =
        sym (append-nil v.taken) ∙ ap (λ r. v.taken ++ r) (sym drained) ∙ v.in_order in
      all_joins-sent_joins timed
      ∙ ap (λ r. flatten (sent_joins r)) (sym e)
      ∙ ap flatten (v.as_sent ∙ ap (map (map pb_channel)) taken)

  -- A new slave that receives all that a stream sends, where the stream sent the login first and has
  -- no list left that waits, does not panic, its maps agree, and every channel that was published for
  -- it or fetched for it has an allocation. The users have names, and less than 2^32 channels came.
  pub delivered :
      (limit : ℕ) (labels : List Label) (s : Stream) (clock : ℕ → ℕ) (channel : PbChannel)
      (oauth : Bytes) (timed : List ((ℕ → ℕ) × Payload))
      → Run account_id empty_channel Named is_own labels s
      → s.sent ≡ login_payload channel oauth ∷ payloads_of timed
      → s.join_events ≡ []
      → length (came labels) < 2 ^ 32
      → (m : Manager) × (actions : List Action) × (receive_all limit
            ((clock, login_payload channel oauth) ∷ timed)
            new_manager
          ≡ ok (m, actions))
        × Inv m
        × Allocated (came labels) m
  delivered limit labels s clock channel oauth timed run e drained small =
      let all = all_joins-came labels s channel oauth timed run e drained in
      let (m, actions, f, v, a) =
        stream-receive_all account_id empty_channel is_own limit labels s clock channel oauth timed
          run e (subst (λ cs. length cs < 2 ^ 32) (sym all) small) in
      (m, actions, f, v, subst (λ cs. Allocated cs m) all a)
