-- ===== src/Security/Guard.antt =====
-- Which requests pass the guard (http/security/notary.go).
use agent_portainer.Prelude.{
  ◌≡◌, refl, ◌↔◌, true, false, [], ◌∷◌, Text, text_beq, ◌==◌, nat_eq, text_eq,
}
use agent_portainer.Security.{
  Crypto, Verdict, accepted, rejected, failed, panicked, SignatureService, verify_signature, passed,
  passage_of, digital_signature_verification,
}

passage_of-passed : (v : Verdict) → (passage_of v ≡ passed) ↔ (v ≡ accepted)
unfolding passage_of
passage_of-passed accepted = (λ h. refl, λ h. refl)
passage_of-passed rejected = (λ h. cc, λ h. cc)
passage_of-passed (failed x) = (λ h. cc, λ h. cc)
passage_of-passed panicked = (λ h. cc, λ h. cc)

-- With verification on, a request reaches the next handler exactly if it has both headers and its
-- signature is accepted; without it, every request does, and the service is left alone.
pub digital_signature_verification-passed :
    {Key : Type 0} (c : Crypto Key) (key signature : Text) (s : SignatureService Key)
    → (((digital_signature_verification c true key signature s).0 ≡ passed) ↔ (
        ((key == []) ≡ false)
        × ((signature == []) ≡ false)
        × ((verify_signature c signature key s).0 ≡ accepted)))
      × (digital_signature_verification c false key signature s ≡ (passed, s))
unfolding digital_signature_verification text_beq
digital_signature_verification-passed c [] signature s = ((λ h. cc, λ h. cc), refl)
digital_signature_verification-passed c (a ∷ key) [] s = ((λ h. cc, λ h. cc), refl)
digital_signature_verification-passed c (a ∷ key) (b ∷ signature) s =
    let (f, g) = passage_of-passed (verify_signature c (b ∷ signature) (a ∷ key) s).0 in
    ((λ h. (refl, refl, f h), λ h. g h.2), refl)
