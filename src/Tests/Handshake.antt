-- ===== src/Tests/Handshake.antt =====
-- A handshake with a small stand-in for the packages: a key signs with its tag.
use ma2a.Base.{
  ◌%◌, ◌<◌, ◌≡◌, refl, ◌↔◌, true, false, Bytes, bytes_eq, codes, All, [], ◌∷◌, none, some,
  if◌then◌else◌, arith, ◌||◌, inl, inr,
}
use ma2a.Base.Int.{pos, ◌+ℤ◌}
use ma2a.Python.{Text, text_lt}
use ma2a.Python.Packages.{Cryptography, encode_ascii, unb64, verify_text}
use ma2a.Python.Auth.{
  Challenge, contains, insert_text, sorted_set, transcript, make_challenge, issue_certificate,
  subject_key, sign_challenge, verify_certificate,
}
use ma2a.Python.Auth.Keys.{IsPair}
use ma2a.Python.Auth.Binding.{IsTextual, transcript-injective}
use ma2a.Python.Auth.Handshake.{Response, lacks, verify_signature, verify_device, verify}
use ma2a.Python.Auth.Handshake.Accepted.{verify_iff}
use ma2a.Python.Auth.Handshake.Conditions.{IsAuthentic}
use ma2a.Python.Auth.Handshake.Replay.{IsDistinct, verify_all, accepted, accepted_once}
use ma2a.Python.Auth.Handshake.Honest.{
  Chain, Terms, IsTimely, issued_challenge, response, verify-response,
}

data Role : Type 0 where
  root : Role
  organization : Role
  device : Role

abbrev tag : Role → Bytes
tag root = 1 ∷ []
tag organization = 2 ∷ []
tag device = 3 ∷ []

abbrev low : Bytes → Bytes
low [] = []
low (c ∷ s) = (c % 128) ∷ low s

low-ascii : (s : Bytes) → All (λ c. c < 0x80) (low s)
low-ascii [] = tt
low-ascii (c ∷ s) = (omega arith, low-ascii s)

abbrev roles : Cryptography
roles = record {
  PrivateKey = Role;
  PublicKey = Role;
  sign = λ key message. tag key;
  verify = λ key signature message. bytes_eq signature (tag key);
  public_bytes_raw = tag;
  from_public_bytes = λ bytes.
      if bytes_eq bytes (tag root)
      then some root
      else if bytes_eq bytes (tag organization)
      then some organization
      else if bytes_eq bytes (tag device)
      then some device
      else none;
  urlsafe_b64encode = low;
  b64decode = λ bytes. some bytes;
}

pair : (key : Role) → IsPair roles key key
unfolding bytes_eq
pair root = record {
  accepts = λ m. refl;
  ascii = low-ascii;
  decodes = λ m. refl;
  has_text = λ m e. cc;
  exports = refl;
  imports = refl;
}
pair organization = record {
  accepts = λ m. refl;
  ascii = low-ascii;
  decodes = λ m. refl;
  has_text = λ m e. cc;
  exports = refl;
  imports = refl;
}
pair device = record {
  accepts = λ m. refl;
  ascii = low-ascii;
  decodes = λ m. refl;
  has_text = λ m e. cc;
  exports = refl;
  imports = refl;
}

abbrev keys : Chain roles
keys = record {
  root = root;
  root_key = root;
  root_pair = pair root;
  organization = organization;
  organization_key = organization;
  organization_pair = pair organization;
  device = device;
  device_key = device;
  device_pair = pair device;
}

abbrev terms : Terms
terms = record {
  challenge_id = codes "c-1";
  server_nonce = codes "server";
  client_nonce = codes "client";
  protocol_version = codes "0.1";
  root_id = codes "root";
  organization_id = codes "org";
  device_id = codes "dev";
  device_kind = codes "agent";
  organization_serial = codes "s-1";
  device_serial = codes "s-2";
  selected = codes "jobs" ∷ [];
  organization_capabilities = codes "jobs" ∷ [];
  device_capabilities = codes "relay" ∷ codes "jobs" ∷ codes "relay" ∷ [];
  required = some (codes "jobs");
  organization_from = pos 0;
  organization_until = pos 1000;
  device_from = pos 0;
  device_until = pos 500;
  issued = pos 100;
  ttl = pos 30;
  now = pos 120;
}

abbrev challenge : Challenge
challenge = record {
  challenge_id = codes "c-1";
  client_nonce = codes "client";
  server_nonce = codes "server";
  organization_id = codes "org";
  agent_or_device_id = codes "dev";
  protocol_version = codes "0.1";
  selected_capabilities = codes "jobs" ∷ [];
  issued_at = pos 100;
  expires_at = pos 130;
}

makes_challenge : issued_challenge roles keys terms ≡ some challenge
unfolding make_challenge sorted_set insert_text ◌+ℤ◌
makes_challenge = refl

terms-IsTimely : IsTimely terms
unfolding ◌+ℤ◌
terms-IsTimely = record {
  issued = omega arith;
  unexpired = omega arith;
  organization_from = omega arith;
  organization_until = omega arith;
  device_from = omega arith;
  device_until = omega arith;
  role = inr (inl refl);
  capable = inr (inr (inl refl));
}

abbrev honest : Response roles
honest = response roles keys terms challenge

verify-response_example :
    verify roles (codes "c-0" ∷ []) honest ≡ (codes "c-1" ∷ codes "c-0" ∷ [], (true, codes "ok"))
verify-response_example =
    verify-response roles keys terms (codes "c-0" ∷ []) challenge makes_challenge terms-IsTimely
      (λ h. ground arith)

-- The same run, by evaluation, and once more.
accepts_honest : verify roles [] honest ≡ (codes "c-1" ∷ [], (true, codes "ok"))
unfolding verify verify_device verify_signature verify_certificate verify_text unb64 encode_ascii
    subject_key contains lacks issue_certificate sign_challenge sorted_set insert_text text_lt
    bytes_eq
accepts_honest = refl

rejects_replay :
    verify roles (codes "c-1" ∷ []) honest ≡ (codes "c-1" ∷ [], (false, codes "replay"))
unfolding verify contains bytes_eq
rejects_replay = refl

-- A device that an organization did not certify.
rejects_stranger :
    verify roles [] (record honest { root_public_key = device })
    ≡ ([], (false, codes "invalid_organization_certificate"))
unfolding verify verify_certificate verify_text unb64 encode_ascii contains issue_certificate
    sorted_set insert_text text_lt bytes_eq
rejects_stranger = refl

verify_iff_example :
    (verify roles [] honest ≡ (codes "c-1" ∷ [], (true, codes "ok"))) ↔ IsAuthentic roles [] honest
verify_iff_example = verify_iff roles [] honest

accepted_once_example :
    IsDistinct (accepted roles [] (honest ∷ honest ∷ []))
    × ((t : Text)
        → contains [] t ≡ true
        → contains (accepted roles [] (honest ∷ honest ∷ [])) t ≡ false)
    × ((t : Text)
        → contains (verify_all roles [] (honest ∷ honest ∷ [])) t
          ≡ contains (accepted roles [] (honest ∷ honest ∷ [])) t || contains [] t)
accepted_once_example = accepted_once roles [] (honest ∷ honest ∷ [])

abbrev later_challenge : Challenge
later_challenge = record challenge { issued_at = pos 200; expires_at = pos 230 }

challenge-IsTextual : IsTextual challenge
challenge-IsTextual = record {
  challenge = omega arith;
  client = omega arith;
  server = omega arith;
  organization = omega arith;
  subject = omega arith;
  version = omega arith;
  selected = omega arith;
}

later_challenge-IsTextual : IsTextual later_challenge
later_challenge-IsTextual = record {
  challenge = omega arith;
  client = omega arith;
  server = omega arith;
  organization = omega arith;
  subject = omega arith;
  version = omega arith;
  selected = omega arith;
}

same_transcript : transcript challenge ≡ transcript later_challenge
unfolding transcript
same_transcript = refl

transcript-injective_example :
    later_challenge ≡ record challenge { issued_at = pos 200; expires_at = pos 230 }
transcript-injective_example =
    transcript-injective challenge later_challenge challenge-IsTextual later_challenge-IsTextual
      same_transcript
