-- ===== src/Security.antt =====
-- The verification of signatures: the service that holds the key of the Portainer instance
-- (crypto/ecdsa.go) and the guard in front of the handlers (http/security/notary.go).
pub mod Association
pub mod Lifetime
mod Guard
mod Tests
use agent_portainer.Prelude.{
  ℕ, zero, suc, ◌+◌, ◌-◌, ◌*◌, ◌/◌, ◌%◌, ◌≤◌, ◌<◌, ◌≡◌, refl, sym, ap, ◌∙◌, ◌≢◌, ◌↔◌, ◌⊎◌, inl, inr,
  Bool, true, false, not, ◌&&◌, ◌||◌, Option, none, some, List, [], ◌∷◌, ◌++◌, map, arith, ltb, leb,
  if◌then◌else◌, nat_beq, nat_beq_iff, Text, codes, text_beq, text_beq_iff, Equality, ◌==◌, nat_eq,
  text_eq, Bool-cases, by_test, Option-cases, length, length-append, All, All-append, lookup,
  insert, erase, has_key, lookup-insert, lookup-erase, has_key-insert, has_key-erase,
  has_key-lookup, beq_refl, itoa, itoa-All, has_prefix, strip_prefix, contains, split_by, split,
  drop_empty, fields_by, join, Lacks, split-join, join-split, split_by-skip, split_by-cut,
  split_by-nil, split_by-whole, split_by-append, by_test, Result, ok, err, Method, >>-keeps,
  >>-eq-ok, ◌>>=◌, ◌>>◌, return, lift, get, modify, Result-cases, take, drop, itoa-cons, IsDigit,
  is_digit, ℤ, pos, negsuc, atoi, atoi-itoa, itoa-IsDigit, int_bound, range_error, syntax_error,
  and_then, IfOk, and_then-IfOk,
}
use agent_portainer.Base64.{decode_string}

-- A public key of the package x509, which need not be one for ECDSA.
pub data PublicKey (Key : Type 0) : Type 0 where
  ecdsa_key : Key → PublicKey Key
  other_key : PublicKey Key

-- The cryptography of Go's library: `x509.ParsePKIXPublicKey`, `publicKey.Params().BitSize`, MD5, and
-- `ecdsa.Verify` of a hash with the two numbers of a signature.
pub record Crypto (Key : Type 0) : Type 0 where
  pub parse_public_key : Text → Result (PublicKey Key)
  pub bit_size : Key → ℕ
  pub md5 : Text → Text
  pub verify : Key → Text → ℕ → ℕ → Bool

abbrev hex_digit : ℕ → Option ℕ
hex_digit c =
    if leb b'0' c && leb c b'9'
    then some (c - b'0')
    else if leb b'a' c && leb c b'f'
    then some (c - b'a' + 10)
    else if leb b'A' c && leb c b'F'
    then some (c - b'A' + 10)
    else none

hex_byte : Option ℕ → Option ℕ → Result Text → Result Text
hex_byte (some a) (some b) (ok s) = ok ((a * 16 + b) ∷ s)
hex_byte (some a) (some b) (err x) = err x
hex_byte _ _ rest = err (codes "encoding/hex: invalid byte")

-- `hex.DecodeString`; the error text is kept without the byte.
pub hex_decode : Text → Result Text
unfolding hex_byte
hex_decode [] = ok []
hex_decode (a ∷ []) = err (codes "encoding/hex: odd length hex string")
hex_decode (a ∷ b ∷ s) = hex_byte (hex_digit a) (hex_digit b) (hex_decode s)

-- The number whose digits to the base 256 are the bytes, as `SetBytes` reads it.
pub set_bytes : ℕ → Text → ℕ
set_bytes n [] = n
set_bytes n (b ∷ s) = set_bytes (n * 256 + b) s

abbrev pub portainer_agent_signature_message : Text
portainer_agent_signature_message = codes "Portainer-App"

-- What verifying a signature comes to; a key that is not an ECDSA key makes a type assertion panic.
pub data Verdict : Type 0 where
  accepted rejected : Verdict
  failed : Text → Verdict
  panicked : Verdict

pub record SignatureService (Key : Type 0) : Type 0 where
  pub public_key : Option Key
  pub secret : Text

-- `NewECDSAService`.
abbrev pub new_ecdsa_service : {Key : Type 0} → Text → SignatureService Key
new_ecdsa_service secret = record { public_key = none; secret = secret }

pub is_some : {A : Type 0} → Option A → Bool
is_some none = false
is_some (some a) = true

pub is_associated : {Key : Type 0} → SignatureService Key → Bool
unfolding is_some
is_associated s = is_some s.public_key || not (s.secret == [])

module _ {Key : Type 0} (c : Crypto Key) where
  -- The signed message: the secret, if there is one.
  pub valid_signature : Text → Text
  valid_signature [] = portainer_agent_signature_message
  valid_signature (b ∷ secret) = b ∷ secret

  pub verify_decoded : Text → Key → Text → Verdict
  unfolding set_bytes valid_signature
  verify_decoded secret key signature =
      let key_size = c.bit_size key / 8 in
      let r = set_bytes 0 (take key_size signature) in
      let s = set_bytes 0 (drop key_size signature) in
      let hash = c.md5 (valid_signature secret) in
      if not (nat_beq (length signature) (2 * key_size))
      then rejected
      else if c.verify key hash r s
      then accepted
      else rejected

  pub verify_with : Text → Key → Result Text → Verdict
  unfolding verify_decoded
  verify_with secret key (err x) = failed x
  verify_with secret key (ok signature) = verify_decoded secret key signature

  -- `decodeAndVerifySignature`, by the secret and the key.
  pub decode_and_verify_signature : Text → Key → Text → Verdict
  unfolding verify_with
  decode_and_verify_signature secret key signature =
      verify_with secret key (decode_string signature)

  -- The key of a request, from its decoded bytes.
  pub parsed_key : Result Text → Result (PublicKey Key)
  parsed_key (err x) = err x
  parsed_key (ok bytes) = c.parse_public_key bytes

  -- The service keeps the key if it has no secret.
  pub associate : Key → SignatureService Key → SignatureService Key
  associate key s = if s.secret == [] then record s { public_key = some key } else s

  -- `VerifySignature` with the key that `decodeAndParsePublicKey` finds.
  pub verify_with_parsed :
      Result (PublicKey Key) → Text → SignatureService Key → Verdict × SignatureService Key
  unfolding associate decode_and_verify_signature
  verify_with_parsed (err x) signature s = (failed x, s)
  verify_with_parsed (ok other_key) signature s = (panicked, s)
  verify_with_parsed (ok (ecdsa_key key)) signature s =
      (decode_and_verify_signature s.secret key signature, associate key s)

  -- `VerifySignature` by the key that the service holds.
  pub verify_by_held :
      Option Key → Text → Text → SignatureService Key → Verdict × SignatureService Key
  unfolding verify_with_parsed parsed_key decode_and_verify_signature hex_decode
  verify_by_held (some held) signature key s =
      (decode_and_verify_signature s.secret held signature, s)
  verify_by_held none signature key s = verify_with_parsed (parsed_key (hex_decode key)) signature s

  pub verify_signature : Text → Text → SignatureService Key → Verdict × SignatureService Key
  unfolding verify_by_held
  verify_signature signature key s = verify_by_held s.public_key signature key s

-- What the guard answers, or that the next handler serves the request.
pub data Passage : Type 0 where
  passed : Passage
  refused : (status : ℕ) → (message error : Text) → Passage
  crashed : Passage

abbrev pub missing_headers : Text
missing_headers = codes "Missing request signature headers"

abbrev pub invalid_signature : Text
invalid_signature = codes "Invalid request signature"

pub passage_of : Verdict → Passage
passage_of accepted = passed
passage_of rejected = refused 403 invalid_signature (codes "Unauthorized")
passage_of (failed x) = refused 403 invalid_signature x
passage_of panicked = crashed

-- `DigitalSignatureVerification` for a request with these two headers, "" for a missing one.
unfoldable pub digital_signature_verification :
    {Key : Type 0}
    → Crypto Key
    → Bool
    → Text
    → Text
    → SignatureService Key
    → Passage × SignatureService Key
unfolding passage_of verify_signature
digital_signature_verification c verification key signature s =
    if not verification
    then (passed, s)
    else if key == [] || signature == []
    then (refused 403 missing_headers (codes "Unauthorized"), s)
    else (let (v, t) = verify_signature c signature key s in (passage_of v, t))
