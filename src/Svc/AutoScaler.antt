-- ===== src/Svc/AutoScaler.antt =====
-- internal/svc/autoscaler/autoscaler.go: the edges, the allocation of channels to them, `Load` and
-- `GetChannelsForSlave`. The mutex makes each of them one step. `a.edges` is a list of maps.
pub mod Invariant
pub mod Places
pub mod Place
pub mod Endless
pub mod Rescale
pub mod Load
mod Tests
pub mod Order
pub mod Startup
pub mod Allocate
pub mod Fetch
use waterhose.Prelude.{
  ℕ, zero, suc, ◌+◌, ◌-◌, Bool, true, false, not, ◌||◌, List, [], ◌∷◌, ◌++◌, Option, none, some,
  Bytes, ltb, ◌==◌, if◌then◌else◌, length, get_elem?, set, Outcome, ok, panic, ◌>>=◌, nat_eq,
  string_eq,
}
use waterhose.Prelude.Dict.{Dict, lookup, insert}
use waterhose.Prelude.Int.{ℤ, pos, negsuc, int32, is_pos}
use waterhose.Structures.{Channel, PbChannel, User, unknown}

pub record AutoScaler : Type 0 where
  pub edges : List (Dict Bytes Channel)
  pub edge_idx : ℕ
  pub channels : Dict Bytes Channel

-- `New`
abbrev pub new : AutoScaler
new = record { edges = []; edge_idx = 0; channels = [] }

abbrev pub is_some {ℓ} : {A : Type ℓ} → Option A → Bool
is_some none = false
is_some (some a) = true

-- An index into a slice; a negative one is out of range.
abbrev pub edge_index : ℤ → List (Dict Bytes Channel) → Option (ℕ × Dict Bytes Channel)
edge_index (negsuc n) edges = none
edge_index (pos i) edges = elim (get_elem? edges i) [ none ↦ none | some m ↦ some (i, m) ]

-- The channel that the batch stores for a user.
abbrev pub new_channel : User → PbChannel → ℤ → Channel
new_channel u req edge = record {
  twitch_id = u.id;
  twitch_login = u.login;
  priority = req.priority;
  edge_node = int32 edge;
  state = unknown;
  use_anonymous = req.use_anonymous;
  bot_banned = false;
}

-- What one round of the two loops of `Fetch` does for a user.
pub data Round : Type 0 where
  placed : AutoScaler → ℕ → Channel → Round
  again : AutoScaler → Round
  panics : Round

abbrev pub put_channel : AutoScaler → ℕ → Dict Bytes Channel → Channel → AutoScaler
put_channel s i m c = record s {
  edges = set s.edges i (insert c.twitch_id c m);
  channels = insert c.twitch_id c s.channels;
}

-- The body of `for a.edgeIdx < len(a.edges)`, and the growth of `a.edges` behind that loop.
-- `mp` is the batch by channel id: a user that it lacks is a nil pointer.
unfoldable pub place_round : ℕ → Dict Bytes PbChannel → User → AutoScaler → Round
place_round limit mp u s =
    if ltb s.edge_idx (length s.edges)
    then (let stored = lookup u.id s.channels in
        let preset = is_some stored in
        let preset_edge_idx : ℤ = elim stored [ none ↦ pos s.edge_idx | some c ↦ c.edge_node ] in
        elim (edge_index preset_edge_idx s.edges) [
          | none ↦ panics
          | some (i, m) ↦
              if ltb (length m) limit || preset
              then elim (lookup u.id mp) [
                | none ↦ panics
                | some req ↦
                    let c = new_channel u req preset_edge_idx in placed (put_channel s i m c) i c
              ]
              else if is_pos preset_edge_idx s.edge_idx
              then again (record s { edge_idx = s.edge_idx + 1 })
              else again s
        ])
    else if s.edge_idx == length s.edges
    then again (record s { edges = s.edges ++ [] ∷ [] })
    else again s

pub data Placement : Type 0 where
  stored : AutoScaler → ℕ → Channel → Placement
  panicked : Placement
  unfinished : Placement

-- The loops for one user, with fuel.
unfoldable pub place : ℕ → ℕ → Dict Bytes PbChannel → User → AutoScaler → Placement
place zero limit mp u s = unfinished
place (suc fuel) limit mp u s = elim (place_round limit mp u s) [
  | placed s' i c ↦ stored s' i c
  | panics ↦ panicked
  | again s' ↦ place fuel limit mp u s'
]

-- What the loop over the users has done so far.
pub record Batch : Type 0 where
  pub scaler : AutoScaler
  pub allocations : Dict ℕ (List Channel)
  pub new_channels : List Channel

pub data Allocation : Type 0 where
  complete : Batch → Allocation
  crashed : Allocation
  endless : Allocation

-- `allocations[i] = append(allocations[i], c)`
abbrev pub append_allocation : Dict ℕ (List Channel) → ℕ → Channel → Dict ℕ (List Channel)
append_allocation m i c = elim (lookup i m) [
  | none ↦ insert i (c ∷ []) m
  | some cs ↦ insert i (cs ++ c ∷ []) m
]

abbrev pub add_placed : Batch → AutoScaler → ℕ → Channel → Batch
add_placed b s i c = record {
  scaler = s;
  allocations = append_allocation b.allocations i c;
  new_channels = b.new_channels ++ c ∷ [];
}

-- Enough rounds for one user: each edge at most once, one new edge, and the placement.
abbrev pub place_fuel : AutoScaler → ℕ
place_fuel s = length s.edges + 2

abbrev pub has_id : User → Bool
has_id u = elim u.id [ [] ↦ false | _ ∷ _ ↦ true ]

-- `for userIdx < len(users)`; a user that was not found has an empty id.
unfoldable pub allocate : ℕ → Dict Bytes PbChannel → List User → Batch → Allocation
allocate limit mp [] b = complete b
allocate limit mp (u ∷ us) b = elim (has_id u) [
  | false ↦ allocate limit mp us b
  | true ↦ elim (place (place_fuel b.scaler) limit mp u b.scaler) [
    | stored s i c ↦ allocate limit mp us (add_placed b s i c)
    | panicked ↦ crashed
    | unfinished ↦ endless
  ]
]
