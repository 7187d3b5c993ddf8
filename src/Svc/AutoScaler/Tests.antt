-- ===== src/Svc/AutoScaler/Tests.antt =====
-- What GetChannelsForSlave answers for one edge with two channels.
use mathlib.Core.Path.{subst}
use waterhose.Prelude.{
  zero, suc, ◌≤◌, ◌<◌, ◌⊎◌, some, none, ok, length, ◌≡◌, refl, false, [], ◌∷◌, Bytes, codes, arith,
  bytes_eq, string_eq,
}
use waterhose.Prelude.Dict.{Dict, lookup, insert, IsMap}
use waterhose.Prelude.Int.{pos}
use waterhose.Structures.{Channel, unknown}
use waterhose.Svc.AutoScaler.{AutoScaler, new, put_channel}
use waterhose.Svc.AutoScaler.Invariant.{Inv, new-Inv, grow-Inv, put_channel-Inv}
use waterhose.Svc.AutoScaler.Load.{
  values, get_channels_for_slave, get_channels_for_slave_lem, EdgeMaps, OnEdge,
}

abbrev channel : Bytes → Channel
channel id = record {
  twitch_id = id;
  twitch_login = id;
  priority = pos 0;
  edge_node = pos 0;
  state = unknown;
  use_anonymous = false;
  bot_banned = false;
}

abbrev one_edge : AutoScaler
one_edge = record new { edges = [] ∷ [] }

abbrev of : Bytes → Dict Bytes Channel
of id = (id, channel id) ∷ []

abbrev one : Bytes → AutoScaler
one id = record { edges = of id ∷ []; edge_idx = 0; channels = of id }

abbrev both : Bytes → Bytes → AutoScaler
both a b = let m = (a, channel a) ∷ of b in record { edges = m ∷ []; edge_idx = 0; channels = m }

one-Inv : (a : Bytes) → Inv (one a)
unfolding insert
one-Inv a =
    put_channel-Inv one_edge (grow-Inv new new-Inv) 0 [] (channel a) refl refl
      (λ old e. absurd (unfold lookup in cc))

both-Inv : (a b : Bytes) → bytes_eq a b ≡ false → Inv (both a b)
unfolding insert
both-Inv a b h = rw (is_both a b h) at (
    put_channel-Inv (one a) (one-Inv a) 0 (of a) (channel b) refl refl
      (unfold lookup in λ old e. ground arith))
  where
    is_both :
        (a b : Bytes) → bytes_eq a b ≡ false → put_channel (one a) 0 (of a) (channel b) ≡ both a b
    is_both a b h = rw h refl

both-EdgeMaps : (a b : Bytes) → bytes_eq a b ≡ false → bytes_eq b a ≡ false → EdgeMaps (both a b)
both-EdgeMaps a b h k zero m e =
    let is_map : IsMap (both a b).channels = unfold lookup in (rw k refl, (refl, tt)) in
    let same : (both a b).channels ≡ m = ground arith in subst IsMap same is_map
both-EdgeMaps a b h k (suc i) m e = absurd cc

abbrev pair : AutoScaler
pair = both (codes "1") (codes "2")

get_channels_for_slave_lem_example :
    ((length pair.edges ≤ 0) × (get_channels_for_slave pair (pos 0) ≡ ok none))
    ⊎ ((0 < length pair.edges)
        × (m : Dict Bytes Channel) × (get_channels_for_slave pair (pos 0) ≡ ok (some (values m)))
        × IsMap m
        × OnEdge pair 0 m)
unfolding bytes_eq
get_channels_for_slave_lem_example =
    get_channels_for_slave_lem pair 0 (both-Inv (codes "1") (codes "2") refl)
      (both-EdgeMaps (codes "1") (codes "2") refl refl)

-- Both channels, in the order of the map.
pair_answer :
    get_channels_for_slave pair (pos 0) ≡ ok (some (channel (codes "1") ∷ channel (codes "2") ∷ []))
unfolding get_channels_for_slave
pair_answer = refl
