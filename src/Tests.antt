-- ===== src/Tests.antt =====
-- Concrete messages, a small stand-in for OpenSSL, and a network of two nodes, for the tests.
pub mod Messages
pub mod Signatures
pub mod Transport
pub mod Lifecycle
pub mod Execution
pub mod Python
pub mod Sockets
pub mod Routed
pub mod Conflict
pub mod Handshake
pub mod Crossed
pub mod Capability
pub mod Honest
pub mod Failover
pub mod Routes
use ma2a.Base.{
  ℕ, Bool, true, false, Bytes, codes, bytes_eq, [], ◌∷◌, List, Option, none, some, if◌then◌else◌,
  Result, ok,
}
use ma2a.Base.Int.{ℤ, pos, negsuc}
use ma2a.Contracts.{JobRequest, JobResult, FailureNotice, ed25519}
use ma2a.Crypto.{OpenSsl}

abbrev pub request : JobRequest
request = record {
  protocol_version = codes "0.2";
  message_id = codes "m1";
  request_id = codes "r1";
  sender_node_id = codes "home";
  target_node_id = codes "?";
  organization_id = [];
  operation = codes "ECHO";
  payload = codes "say \"hi\"";
  issued_at = pos 100;
  expires_at = pos 160;
  signature_algorithm = ed25519;
  signature = codes "s";
}

abbrev pub answer : JobResult
answer = record {
  protocol_version = codes "0.2";
  message_id = codes "m2";
  request_id = codes "r1";
  responder_node_id = codes "b";
  recipient_node_id = codes "home";
  status = codes "OK";
  payload = codes "say \"hi\"";
  completed_at = pos 107;
  signature_algorithm = ed25519;
  signature = codes "YWJj";
}

abbrev pub notice : FailureNotice
notice = record {
  protocol_version = codes "0.2";
  message_id = codes "m3";
  request_id = codes "r1";
  reporting_node_id = codes "home";
  failed_node_id = codes "a";
  reason = codes "line\nbreak";
  observed_at = negsuc 4;
  signature_algorithm = ed25519;
  signature = codes "YWJj";
}

-- Every signature is the bytes of "abc", which are "YWJj" in base64.
abbrev pub toy : OpenSsl
toy = record {
  Key = Unit {0};
  new_raw_private_key = λ seed. some tt;
  new_raw_public_key = λ bytes. some tt;
  md_ctx_new = true;
  digest_sign_init = λ key. true;
  digest_sign_size = λ key message. true;
  digest_sign = λ key message. some (codes "abc");
  digest_verify_init = λ key. true;
  digest_verify = λ key message signature. bytes_eq signature (codes "abc");
  encode_block = λ bytes. some (codes "YWJj");
  decode_block = λ text. some (codes "abc");
}
