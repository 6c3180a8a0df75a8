-- ===== src/Security/Tests.antt =====
-- The signature service at concrete inputs (crypto/ecdsa.go, http/security/notary.go).
use agent_portainer.Prelude.{
  ℕ, ◌≡◌, refl, ◌↔◌, true, false, ◌&&◌, [], ◌∷◌, if◌then◌else◌, Text, codes, text_beq, ◌==◌, nat_eq,
  text_eq, length, Result, ok, err,
}
use agent_portainer.Base64.{decode_string}
use agent_portainer.Security.{
  PublicKey, ecdsa_key, other_key, Crypto, hex_decode, accepted, rejected, new_ecdsa_service,
  is_associated, parsed_key, verify_signature, verify_by_held, verify_with_parsed,
  decode_and_verify_signature, verify_with, verify_decoded, set_bytes, valid_signature,
  digital_signature_verification, passed, passage_of, crashed, hex_byte,
}
use agent_portainer.Security.Association.{verify_all, by_key, verify_all-first_key}
use agent_portainer.Security.Guard.{digital_signature_verification-passed}

-- Keys are numbers: the first byte, unless it is 255. A signature is two bytes, and is valid if its
-- first one is the key and its second one the length of the message.
abbrev parse_byte : Text → Result (PublicKey ℕ)
parse_byte [] = err (codes "empty")
parse_byte (b ∷ s) = if b == 255 then ok other_key else ok (ecdsa_key b)

abbrev toy : Crypto ℕ
toy = record {
  parse_public_key = parse_byte;
  bit_size = λ k. 8;
  md5 = λ message. length message ∷ [];
  verify = λ k hash r s. r == k && hash == s ∷ [];
}

-- Base64 of the bytes 7 and 13.
abbrev signature : Text
signature = codes "Bw0"

key_test : parsed_key toy (hex_decode (codes "07")) ≡ ok (ecdsa_key 7)
unfolding parsed_key hex_decode hex_byte
key_test = refl

verify_all-first_key_example :
    let t = (verify_signature toy (codes "?") (codes "07") (new_ecdsa_service [])).1 in
    (is_associated t ≡ true)
    × (verify_all toy ((signature, codes "08") ∷ (codes "CA0", codes "08") ∷ []) t
        ≡ (by_key toy [] 7 ((signature, codes "08") ∷ (codes "CA0", codes "08") ∷ []), t))
verify_all-first_key_example =
    verify_all-first_key toy 7 (codes "?") (codes "07")
      ((signature, codes "08") ∷ (codes "CA0", codes "08") ∷ []) key_test

by_key_test :
    by_key toy [] 7 ((signature, codes "08") ∷ (codes "CA0", codes "08") ∷ [])
    ≡ accepted ∷ rejected ∷ []
unfolding decode_and_verify_signature verify_with verify_decoded set_bytes valid_signature
    decode_string text_beq
by_key_test = refl

digital_signature_verification-passed_example :
    (((digital_signature_verification toy true (codes "07") signature (new_ecdsa_service [])).0
        ≡ passed)
      ↔ (((codes "07" == []) ≡ false)
          × ((signature == []) ≡ false)
          × ((verify_signature toy signature (codes "07") (new_ecdsa_service [])).0 ≡ accepted)))
    × (digital_signature_verification toy false (codes "07") signature (new_ecdsa_service [])
        ≡ (passed, new_ecdsa_service []))
digital_signature_verification-passed_example =
    digital_signature_verification-passed toy (codes "07") signature (new_ecdsa_service [])

-- A key that is not an ECDSA key.
crash_test :
    (digital_signature_verification toy true (codes "ff") signature (new_ecdsa_service [])).0
    ≡ crashed
unfolding digital_signature_verification verify_signature verify_by_held verify_with_parsed
    parsed_key hex_decode hex_byte passage_of text_beq
crash_test = refl
