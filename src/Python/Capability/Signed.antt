-- ===== src/Python/Capability/Signed.antt =====
-- A capability advertisement that is signed, and tested.
use ma2a.Base.{
  ◌≡◌, refl, inl, inr, true, false, is_empty, is_empty_iff, bytes_eq, List, [], ◌∷◌, Option, none,
  some, ok, arith,
}
use ma2a.Base.Int.{ℤ}
use ma2a.Python.{Text, canonical_json}
use ma2a.Python.Packages.{Cryptography, unless_raised}
use ma2a.Python.Auth.{sorted_set}
use ma2a.Python.Auth.Certificates.{Listed, contains_iff}
use ma2a.Python.Auth.Keys.{IsPair, verify_text-sign}
use ma2a.Python.Auth.Sets.{
  SameTexts, Listed-sorted_set, Listed-sorted_set_inv, sorted_set-SameTexts,
}
use ma2a.Python.Capability.{
  Floats, allowed_scopes, has_unknown, CapabilityAdvertisement, unsigned_advertisement, is_expired,
  validate_advertisement, normalized, sign_advertisement, verify_advertisement,
}

abbrev Known : List Text → Type 0
Known us = (t : Text) → Listed t us → Listed t allowed_scopes

Known-of_test : (us : List Text) → has_unknown us ≡ false → Known us
unfolding has_unknown
Known-of_test [] h t k = absurd k
Known-of_test (u ∷ us) h t (inl e) = rw e ((contains_iff allowed_scopes u).0 (ground (arith, h)))
Known-of_test (u ∷ us) h t (inr k) = Known-of_test us (ground (arith, h)) t k

test_of-Known : (us : List Text) → Known us → has_unknown us ≡ false
unfolding has_unknown
test_of-Known [] k = refl
test_of-Known (u ∷ us) k =
    let first = (contains_iff allowed_scopes u).1 (k u (inl refl)) in
    let rest = test_of-Known us (λ t h. k t (inr h)) in ground (arith, first, rest)

known_again :
    (ts us : List Text) → SameTexts ts us → has_unknown ts ≡ false → has_unknown us ≡ false
known_again ts us same h = test_of-Known us (λ t k. Known-of_test ts h t ((same t).1 k))

same_unknown : (ts us : List Text) → SameTexts ts us → has_unknown ts ≡ has_unknown us
same_unknown ts us same =
    ground (arith, known_again ts us same, known_again us ts (λ t. ((same t).1, (same t).0)))

same_empty : (ts us : List Text) → SameTexts ts us → is_empty ts ≡ is_empty us
same_empty [] [] same = refl
same_empty [] (u ∷ us) same = absurd ((same u).1 (inl refl))
same_empty (t ∷ ts) [] same = absurd ((same t).0 (inl refl))
same_empty (t ∷ ts) (u ∷ us) same = refl

sorted-SameTexts : (us : List Text) → SameTexts (sorted_set us) us
sorted-SameTexts us t = (Listed-sorted_set_inv t us, Listed-sorted_set t us)

module _ (fl : Floats) where
  -- The advertisement with other lists.
  abbrev pub relisted :
      CapabilityAdvertisement fl → (models domains scopes : List Text) → CapabilityAdvertisement fl
  relisted a models domains scopes = record a {
    models = models;
    memory_domains = domains;
    supported_scopes = scopes;
  }

  validate_relisted :
      (a : CapabilityAdvertisement fl) (models domains scopes : List Text) (now : Option ℤ)
      → SameTexts a.supported_scopes scopes
      → validate_advertisement fl (relisted a models domains scopes) now
        ≡ validate_advertisement fl a now
  unfolding validate_advertisement is_expired
  validate_relisted a models domains scopes none same =
      rw (same_empty a.supported_scopes scopes same, same_unknown a.supported_scopes scopes same)
  validate_relisted a models domains scopes (some now) same =
      rw (same_empty a.supported_scopes scopes same, same_unknown a.supported_scopes scopes same)

  normalized-relisted :
      (a : CapabilityAdvertisement fl) (models domains scopes : List Text)
      → SameTexts a.models models
      → SameTexts a.memory_domains domains
      → SameTexts a.supported_scopes scopes
      → normalized fl (relisted a models domains scopes) ≡ normalized fl a
  unfolding normalized
  normalized-relisted a models domains scopes m d s = rw (
    sorted_set-SameTexts a.models models m,
    sorted_set-SameTexts a.memory_domains domains d,
    sorted_set-SameTexts a.supported_scopes scopes s,
  )

  module _ (py : Cryptography) where
    -- Two advertisements that differ only in the order of their models, memory domains and scopes, and
    -- in how often these stand, are refused for the same reason or signed to the same advertisement.
    pub sign_advertisement-relisted :
        (a : CapabilityAdvertisement fl) (models domains scopes : List Text) (k : py.PrivateKey)
        → SameTexts a.models models
        → SameTexts a.memory_domains domains
        → SameTexts a.supported_scopes scopes
        → sign_advertisement fl py (relisted a models domains scopes) k
          ≡ sign_advertisement fl py a k
    unfolding sign_advertisement
    sign_advertisement-relisted a models domains scopes k m d s = rw (
      validate_relisted a models domains scopes none s,
      normalized-relisted a models domains scopes m d s,
    )

    signed_text : CapabilityAdvertisement fl → py.PrivateKey → Text
    signed_text a k =
        py.urlsafe_b64encode (py.sign k (canonical_json (unsigned_advertisement fl a)))

    sign_advertisement_inv :
        (a a' : CapabilityAdvertisement fl) (k : py.PrivateKey)
        → sign_advertisement fl py a k ≡ ok a'
        → (validate_advertisement fl a none ≡ ok tt)
          × (a' ≡ record (normalized fl a) { signature = signed_text (normalized fl a) k })
    unfolding sign_advertisement signed_text
    sign_advertisement_inv a a' k h = ground (arith, h)

    validate_signed :
        (a : CapabilityAdvertisement fl) (x : Text) (now : Option ℤ)
        → validate_advertisement fl a none ≡ ok tt
        → is_expired fl a now ≡ false
        → validate_advertisement fl (record (normalized fl a) { signature = x }) now ≡ ok tt
    unfolding validate_advertisement normalized is_expired bytes_eq
    validate_signed a x none h k = ground (
      arith,
      h,
      same_empty (sorted_set a.supported_scopes) a.supported_scopes
          (sorted-SameTexts a.supported_scopes),
      same_unknown (sorted_set a.supported_scopes) a.supported_scopes
          (sorted-SameTexts a.supported_scopes),
    )
    validate_signed a x (some now) h k = ground (
      arith,
      h,
      k,
      same_empty (sorted_set a.supported_scopes) a.supported_scopes
          (sorted-SameTexts a.supported_scopes),
      same_unknown (sorted_set a.supported_scopes) a.supported_scopes
          (sorted-SameTexts a.supported_scopes),
    )

    unsigned_signed :
        (a : CapabilityAdvertisement fl) (x : Text)
        → unsigned_advertisement fl (record a { signature = x }) ≡ unsigned_advertisement fl a
    unfolding unsigned_advertisement
    unsigned_signed a x = refl

    verify_signed :
        (a : CapabilityAdvertisement fl) (k : py.PrivateKey) (key : py.PublicKey) (now : Option ℤ)
        → IsPair py k key
        → validate_advertisement fl (record a { signature = signed_text a k }) now ≡ ok tt
        → verify_advertisement fl py (record a { signature = signed_text a k }) key now ≡ true
    unfolding verify_advertisement signed_text
    verify_signed a k key now pair h =
        let m = canonical_json (unsigned_advertisement fl a) in
        let some_text = (is_empty_iff (py.urlsafe_b64encode (py.sign k m))).1 (pair.has_text m) in
        rw
          (
            h,
            unsigned_signed a (py.urlsafe_b64encode (py.sign k m)),
            verify_text-sign py k key pair m,
          )
          (unfold unless_raised in ground (arith, some_text))

    -- An advertisement that is signed is accepted, with the public key of a pair that behaves as the
    -- packages document, at each time of its validity, and when no time is asked about.
    pub verify_advertisement-sign_advertisement :
        (a a' : CapabilityAdvertisement fl) (k : py.PrivateKey) (key : py.PublicKey)
        (now : Option ℤ)
        → IsPair py k key
        → sign_advertisement fl py a k ≡ ok a'
        → is_expired fl a now ≡ false
        → verify_advertisement fl py a' key now ≡ true
    verify_advertisement-sign_advertisement a a' k key now pair h timely =
        let (valid, e) = sign_advertisement_inv a a' k h in
        rw e (
          verify_signed (normalized fl a) k key now pair
            (validate_signed a (signed_text (normalized fl a) k) now valid timely))
