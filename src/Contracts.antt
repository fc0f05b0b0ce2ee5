-- ===== src/Contracts.antt =====
-- cpp/include/ma2a/contracts.hpp: the messages. A time is an `std::int64_t`.
use ma2a.Base.{ℕ, Bool, Bytes, codes, List}
use ma2a.Base.Int.{ℤ}

pub data Scope : Type 0 where
  local_only private organization public : Scope

-- A `double` is of a type that is left open.
pub record CapabilityAdvertisement (Double : Type 0) : Type 0 where
  pub protocol_version : Bytes
  pub message_id : Bytes
  pub node_id : Bytes
  pub organization_id : Bytes
  pub sequence : ℕ
  pub issued_at : ℤ
  pub expires_at : ℤ
  pub available : Bool
  pub compute_capacity : Double
  pub current_load : Double
  pub models : List Bytes
  pub memory_domains : List Bytes
  pub supported_scopes : List Scope
  pub signature_algorithm : Bytes
  pub signature : Bytes

pub record JobRequest : Type 0 where
  pub protocol_version : Bytes
  pub message_id : Bytes
  pub request_id : Bytes
  pub sender_node_id : Bytes
  pub target_node_id : Bytes
  pub organization_id : Bytes
  pub operation : Bytes
  pub payload : Bytes
  pub issued_at : ℤ
  pub expires_at : ℤ
  pub signature_algorithm : Bytes
  pub signature : Bytes

pub record JobResult : Type 0 where
  pub protocol_version : Bytes
  pub message_id : Bytes
  pub request_id : Bytes
  pub responder_node_id : Bytes
  pub recipient_node_id : Bytes
  pub status : Bytes
  pub payload : Bytes
  pub completed_at : ℤ
  pub signature_algorithm : Bytes
  pub signature : Bytes

pub record FailureNotice : Type 0 where
  pub protocol_version : Bytes
  pub message_id : Bytes
  pub request_id : Bytes
  pub reporting_node_id : Bytes
  pub failed_node_id : Bytes
  pub reason : Bytes
  pub observed_at : ℤ
  pub signature_algorithm : Bytes
  pub signature : Bytes

-- The one supported signature algorithm.
abbrev pub ed25519 : Bytes
ed25519 = codes "Ed25519"
