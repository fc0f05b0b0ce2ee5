-- ===== src/Python/Packages.antt =====
-- The packages `cryptography` and `base64`, as reference/python/ma2a uses them, and the two helpers
-- of auth.py and capability.py that call the second. Only `InvalidSignature`, `ValueError`,
-- `UnicodeError` and `binascii.Error` are raised here: a raised call is `none` or `false`.
use ma2a.Base.{
  Result, ok, throw, undefined, unfinished, Bool, false, Bytes, ltb, [], ◌∷◌, Option, none, some,
  if◌then◌else◌,
}
use ma2a.Python.{Text}

-- `Ed25519PrivateKey`, `Ed25519PublicKey`, `base64.urlsafe_b64encode(data).decode("ascii")`, and
-- `base64.b64decode(data, altchars=b"-_", validate=True)`
pub record Cryptography : Type 1 where
  pub PrivateKey : Type 0
  pub PublicKey : Type 0
  pub sign : PrivateKey → Bytes → Bytes
  -- `verify(signature, data)` does not raise
  pub verify : PublicKey → Bytes → Bytes → Bool
  pub public_bytes_raw : PublicKey → Bytes
  pub from_public_bytes : Bytes → Option PublicKey
  pub urlsafe_b64encode : Bytes → Text
  pub b64decode : Bytes → Option Bytes

-- `text.encode("ascii")`
unfoldable pub encode_ascii : Text → Option Bytes
encode_ascii [] = some []
encode_ascii (cp ∷ text) =
    let rest = encode_ascii text in
    if ltb cp 0x80 then elim rest [ none ↦ none | some s ↦ some (cp ∷ s) ] else none

module _ (py : Cryptography) where
  -- `_unb64`
  unfoldable pub unb64 : Text → Option Bytes
  unb64 text = elim (encode_ascii text) [ none ↦ none | some s ↦ py.b64decode s ]

  -- `public_key.verify(_unb64(text), message)` does not raise
  unfoldable pub verify_text : py.PublicKey → Text → Bytes → Bool
  verify_text public_key text message = elim (unb64 text) [
    | none ↦ false
    | some s ↦ py.verify public_key s message
  ]

-- A method that returns a value unless the check before it raises `ValueError`.
unfoldable pub unless_raised : Result (Unit {0}) → Bool → Bool
unless_raised (ok u) b = b
unless_raised (throw e) b = false
unless_raised undefined b = false
unless_raised unfinished b = false
