-- ===== src/Python/Served.antt =====
-- An attempt of cpp/include/ma2a/authenticated_tcp_executor.hpp at a node of the Python reference.
use ma2a.Base.{◌≡◌, ◌∙◌, false, Bytes, codes, is_empty, [], ◌∷◌, All, inl, some, ok, arith}
use ma2a.Base.Int.{IsInt64}
use ma2a.Contracts
use ma2a.Crypto.{OpenSsl, sign_job_request}
use ma2a.Crypto.Signing.{IsKeyPair}
use ma2a.Wire.RoundTrip.{negation_overflows}
use ma2a.Executor.{
  TcpEndpoint, Surroundings, AuthenticatedTcpAttemptExecutor, result_response, attempt,
}
use ma2a.Executor.Honest.{Carries, Fulfils, attempt-Carries}
use ma2a.Python.{Text, IsScalar}
use ma2a.Python.Plain.{IsPlain}
use ma2a.Python.Results.{IsPlainResult}
use ma2a.Python.Messages.{JobResult, result_dict, frame_body, encode_result}
use ma2a.Python.Packages.{Cryptography}
use ma2a.Python.Job.{sign_result}
use ma2a.Python.Envelope.{IsEncodable, parse_job_result-frame_body, wire_envelope_type-frame_body}
use ma2a.Python.Signing.{IsSameKey, sign_result-IsPlain, verify_job_result-sign_result}

IsPlain-IsScalar : (t : Text) → IsPlain t → All IsScalar t
IsPlain-IsScalar [] p = tt
IsPlain-IsScalar (cp ∷ t) (h, p) = (inl (omega arith), IsPlain-IsScalar t p)

IsPlainResult-IsEncodable : (r : JobResult) → IsPlainResult r → IsPlain r.signature → IsEncodable r
IsPlainResult-IsEncodable r (mid, pay, ver, rec, req, resp, alg, st) sig = (
  IsPlain-IsScalar r.protocol_version ver,
  IsPlain-IsScalar r.message_id mid,
  IsPlain-IsScalar r.request_id req,
  IsPlain-IsScalar r.responder_node_id resp,
  IsPlain-IsScalar r.recipient_node_id rec,
  IsPlain-IsScalar r.status st,
  IsPlain-IsScalar r.payload pay,
  IsPlain-IsScalar r.signature_algorithm alg,
  IsPlain-IsScalar r.signature sig,
)

module _ (py : Cryptography) (ssl : OpenSsl) (k : py.PrivateKey) (private_key public_key : ssl.Key)
    (same : IsSameKey py ssl k private_key) (pair : IsKeyPair ssl private_key public_key)
    (executor : AuthenticatedTcpAttemptExecutor ssl) (around : Surroundings)
    (request : Contracts.JobRequest) (target : Bytes) where
  -- An attempt hands over the result that a node of the Python reference signs and sends, its texts
  -- in UTF-8, if the request is addressed to the node, which has a name, and the executor signs it;
  -- if the resolvers know the node, and the network does its part; if the node signs with its key a
  -- result that keeps the contract and whose signed texts have only characters below U+007F, at a
  -- 64-bit time that is not `INT64_MIN`; and if the packages do with the keys what they document.
  pub attempt-served :
      (endpoint : TcpEndpoint) (signed : Contracts.JobRequest) (unsigned r : JobResult)
      → is_empty target ≡ false
      → request.target_node_id ≡ target
      → executor.endpoint_resolver target ≡ ok (some endpoint)
      → sign_job_request ssl (some executor.local_private_key) request ≡ ok signed
      → sign_result py unsigned k ≡ ok r
      → IsPlainResult unsigned
      → IsInt64 r.completed_at
      → negation_overflows r.completed_at ≡ false
      → Fulfils request target (encode_result r)
      → Carries executor
          (around.dial endpoint)
          signed
          (frame_body (codes "JOB_RESULT") (result_dict r))
      → executor.public_key_resolver target ≡ ok (some public_key)
      → attempt ssl executor around request target ≡ ok (result_response (encode_result r))
  attempt-served endpoint signed unsigned r named addressed resolves signs answers plain int64 above
        f c found =
      let (plain_signed, sig) =
        sign_result-IsPlain py ssl k private_key public_key same pair unsigned r plain answers in
      let encodable = IsPlainResult-IsEncodable r plain_signed sig in
      attempt-Carries ssl executor around request target endpoint signed
        (frame_body (codes "JOB_RESULT") (result_dict r)) (encode_result r) public_key named
        addressed resolves signs c (wire_envelope_type-frame_body r)
        (parse_job_result-frame_body r encodable int64 ∙ rw above) f found
        (verify_job_result-sign_result py ssl k private_key public_key same pair unsigned r plain
          answers)
