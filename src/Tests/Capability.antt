-- ===== src/Tests/Capability.antt =====
-- An advertisement of a node, with a small stand-in for the packages and for floats.
use ma2a.Base.{ℕ, ◌≡◌, refl, true, false, bytes_eq, codes, ltb, leb, [], ◌∷◌, none, some, ok, arith}
use ma2a.Base.Int.{pos}
use ma2a.Json.{decimal}
use ma2a.Python.{text_lt}
use ma2a.Python.Auth.{contains, insert_text, sorted_set}
use ma2a.Python.Auth.Sets.{SameTexts}
use ma2a.Python.Capability.{
  Floats, CapabilityAdvertisement, has_unknown, is_expired, validate_advertisement, normalized,
  sign_advertisement, verify_advertisement,
}
use ma2a.Python.Capability.Signed.{
  relisted, sign_advertisement-relisted, verify_advertisement-sign_advertisement,
}
use ma2a.Tests.Python.{toy_python}
use ma2a.Tests.Crossed.{toy-IsPair}

-- Tenths.
abbrev tenths : Floats
tenths = record {
  Float = ℕ;
  lt = ltb;
  le = leb;
  zero_float = 0;
  one_float = 10;
  repr = λ f. decimal (pos f);
}

abbrev offer : CapabilityAdvertisement tenths
offer = record {
  protocol_version = codes "0.1";
  message_id = codes "m-1";
  node_id = codes "a";
  organization_id = none;
  sequence = pos 4;
  issued_at = pos 100;
  expires_at = pos 200;
  available = true;
  compute_capacity = 20;
  current_load = 5;
  models = codes "m" ∷ codes "l" ∷ codes "m" ∷ [];
  memory_domains = [];
  supported_scopes = codes "PUBLIC" ∷ codes "LOCAL_ONLY" ∷ [];
  signature_algorithm = codes "Ed25519";
  signature = [];
}

abbrev signed_offer : CapabilityAdvertisement tenths
signed_offer = record offer {
  models = codes "l" ∷ codes "m" ∷ [];
  supported_scopes = codes "LOCAL_ONLY" ∷ codes "PUBLIC" ∷ [];
  signature = codes "YWJj";
}

signs_offer : sign_advertisement tenths toy_python offer tt ≡ ok signed_offer
unfolding sign_advertisement validate_advertisement is_expired has_unknown contains normalized
    sorted_set insert_text text_lt bytes_eq
signs_offer = refl

timely_offer : is_expired tenths offer (some (pos 150)) ≡ false
unfolding is_expired
timely_offer = refl

verify_advertisement-sign_advertisement_example :
    verify_advertisement tenths toy_python signed_offer tt (some (pos 150)) ≡ true
verify_advertisement-sign_advertisement_example =
    verify_advertisement-sign_advertisement tenths toy_python offer signed_offer tt tt
      (some (pos 150)) toy-IsPair signs_offer timely_offer

same_models : SameTexts offer.models (codes "l" ∷ codes "m" ∷ [])
same_models t = ground arith

same_scopes :
    SameTexts offer.supported_scopes (codes "LOCAL_ONLY" ∷ codes "PUBLIC" ∷ codes "PUBLIC" ∷ [])
same_scopes t = ground arith

sign_advertisement-relisted_example :
    sign_advertisement tenths toy_python
      (relisted tenths offer
        (codes "l" ∷ codes "m" ∷ [])
        []
        (codes "LOCAL_ONLY" ∷ codes "PUBLIC" ∷ codes "PUBLIC" ∷ []))
      tt
    ≡ sign_advertisement tenths toy_python offer tt
sign_advertisement-relisted_example =
    sign_advertisement-relisted tenths toy_python offer (codes "l" ∷ codes "m" ∷ []) []
      (codes "LOCAL_ONLY" ∷ codes "PUBLIC" ∷ codes "PUBLIC" ∷ []) tt same_models
      (λ t. (λ h. h, λ h. h)) same_scopes
