-- ===== src/Python/Auth/Keys.antt =====
-- What the packages `cryptography` and `base64` document, and what it makes of the helpers that
-- call them.
use ma2a.Base.{◌≡◌, ◌≢◌, refl, ◌<◌, All, true, Bytes, [], ◌∷◌, some, arith}
use ma2a.Python.{Text}
use ma2a.Python.Auth.{subject_key}
use ma2a.Python.Packages.{Cryptography, encode_ascii, unb64, verify_text}

-- What the packages document of a key pair: the public key accepts a signature of the private one
-- for its message, Base64 is text in ASCII that decodes to its bytes, here a signature, whose text
-- is not empty, or the raw public key, and the raw bytes give the public key.
pub record IsPair (py : Cryptography) (k : py.PrivateKey) (key : py.PublicKey) : Type 0 where
  pub accepts : (m : Bytes) → py.verify key (py.sign k m) m ≡ true
  pub ascii : (s : Bytes) → All (λ c. c < 0x80) (py.urlsafe_b64encode s)
  pub decodes : (m : Bytes) → py.b64decode (py.urlsafe_b64encode (py.sign k m)) ≡ some (py.sign k m)
  pub has_text : (m : Bytes) → py.urlsafe_b64encode (py.sign k m) ≢ []
  pub exports :
      py.b64decode (py.urlsafe_b64encode (py.public_bytes_raw key)) ≡ some (py.public_bytes_raw key)
  pub imports : py.from_public_bytes (py.public_bytes_raw key) ≡ some key

encode_ascii_lem : (t : Text) → All (λ c. c < 0x80) t → encode_ascii t ≡ some t
unfolding encode_ascii
encode_ascii_lem [] h = refl
encode_ascii_lem (c ∷ t) (h, hs) = ground (arith, encode_ascii_lem t hs)

module _ (py : Cryptography) (k : py.PrivateKey) (key : py.PublicKey) (pair : IsPair py k key) where
  unb64-urlsafe_b64encode :
      (s : Bytes)
      → py.b64decode (py.urlsafe_b64encode s) ≡ some s
      → unb64 py (py.urlsafe_b64encode s) ≡ some s
  unfolding unb64
  unb64-urlsafe_b64encode s decodes =
      rw (encode_ascii_lem (py.urlsafe_b64encode s) (pair.ascii s), unb64) decodes

  pub verify_text-sign :
      (m : Bytes) → verify_text py key (py.urlsafe_b64encode (py.sign k m)) m ≡ true
  unfolding verify_text
  verify_text-sign m =
      rw (unb64-urlsafe_b64encode (py.sign k m) (pair.decodes m), verify_text) (pair.accepts m)

  pub subject_key-urlsafe_b64encode :
      subject_key py (py.urlsafe_b64encode (py.public_bytes_raw key)) ≡ some key
  unfolding subject_key
  subject_key-urlsafe_b64encode =
      rw (unb64-urlsafe_b64encode (py.public_bytes_raw key) pair.exports, subject_key) pair.imports
