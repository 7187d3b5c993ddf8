-- ===== src/Structures.antt =====
-- internal/structures/mongo.go, and the messages of other packages that the program passes round:
-- `pb.Channel` of the gRPC service and `helix.User`, with the fields that the program uses.
use waterhose.Prelude.{Bool, List, Bytes}
use waterhose.Prelude.Int.{ℤ}

pub data ChannelState : Type 0 where
  suspended joined unknown : ChannelState

-- `structures.Channel`, without the object id and the time stamp, which nothing reads.
pub record Channel : Type 0 where
  pub twitch_id : Bytes
  pub twitch_login : Bytes
  pub priority : ℤ
  pub edge_node : ℤ
  pub state : ChannelState
  pub use_anonymous : Bool
  pub bot_banned : Bool

-- `pb.Channel`
pub record PbChannel : Type 0 where
  pub id : Bytes
  pub login : Bytes
  pub priority : ℤ
  pub use_anonymous : Bool
  pub bot_banned : Bool

-- `helix.User`
pub record User : Type 0 where
  pub id : Bytes
  pub login : Bytes

-- `pb.RegisterSlaveResponse`, by its payload.
pub data Payload : Type 0 where
  join_payload : List PbChannel → Payload
  part_payload : List PbChannel → Payload
  login_payload : PbChannel → Bytes → Payload
