-- ===== src/Types.antt =====
-- src/types/basal-protocol.ts: the enumerations and records that the parts share.
use distributed_rpc_js.Common.{ℕ, Bool, true, false, Option, String}

-- enum ExecutionState
pub data ExecutionState : Type 0 where
  error halt halting initializing listening retrying running starting stopping stopped :
      ExecutionState

-- enum AckType
pub data AckType : Type 0 where
  none single double : AckType

-- enum AckValue
pub data AckValue : Type 0 where
  ack error invalid_req_data none : AckValue

-- interface PeerIdentity
pub record PeerIdentity : Type 0 where
  pub service : String
  pub instance_id : String

-- interface ApiSpec
pub record ApiSpec : Type 0 where
  pub request : String
  pub response : String
  pub ack : AckType

-- `ackType === AckType.None`
abbrev pub is_no_ack : AckType → Bool
is_no_ack AckType.none = true
is_no_ack AckType.single = false
is_no_ack AckType.double = false

-- MAX_HEADER_LEN
abbrev pub max_header_len : ℕ
max_header_len = 64

-- interface ApiCall, over the type of its arguments. What came over the wire may lack `peer`, `api`
-- and `msgId`; a promise is known by a number.
pub record ApiCall (A : Type 0) : Type 0 where
  pub peer : Option PeerIdentity
  pub api : Option String
  pub args : A
  pub msg_id : Option String
  pub promise : Option ℕ
