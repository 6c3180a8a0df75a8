-- ===== src/Security/Lifetime.antt =====
-- When a service is associated, after the requests that the guard saw (crypto/ecdsa.go,
-- http/security/notary.go).
use agent_portainer.Prelude.{
  ℕ, ◌≡◌, refl, ap, ◌∙◌, Bool, true, false, not, ◌&&◌, ◌||◌, some, List, [], ◌∷◌, Text, text_beq,
  ◌==◌, nat_eq, text_eq, Result, ok, err,
}
use agent_portainer.Security.{
  PublicKey, ecdsa_key, other_key, Crypto, SignatureService, new_ecdsa_service, is_associated,
  is_some, digital_signature_verification, verify_signature, verify_by_held, verify_with_parsed,
  parsed_key, hex_decode, associate,
}

-- The requests that the guard sees, each its two headers, the key first.
abbrev pub guard_all :
    {Key : Type 0} → Crypto Key → List (Text × Text) → SignatureService Key → SignatureService Key
guard_all c [] s = s
guard_all c ((key, signature) ∷ rest) s =
    guard_all c rest (digital_signature_verification c true key signature s).1

abbrev pub is_readable : {Key : Type 0} → Result (PublicKey Key) → Bool
is_readable (ok (ecdsa_key k)) = true
is_readable (ok other_key) = false
is_readable (err x) = false

-- Whether a request has both headers and names a key that can be read.
abbrev pub names_key : {Key : Type 0} → Crypto Key → Text → Text → Bool
names_key c key signature =
    not (key == [] || signature == []) && is_readable (parsed_key c (hex_decode key))

abbrev pub some_names_key : {Key : Type 0} → Crypto Key → List (Text × Text) → Bool
some_names_key c [] = false
some_names_key c ((key, signature) ∷ rest) = names_key c key signature || some_names_key c rest

abbrev after :
    {Key : Type 0} → Crypto Key → Text → Text → SignatureService Key → SignatureService Key
after c key signature s = (digital_signature_verification c true key signature s).1

abbrev holding : {Key : Type 0} → Text → Key → SignatureService Key
holding secret k = record { public_key = some k; secret = secret }

-- What one request makes of a service that has neither a key nor a secret.
abbrev First : {Key : Type 0} → Bool → SignatureService Key → Type 0
First {Key} true t = (k : Key) × (t ≡ holding [] k)
First false t = t ≡ new_ecdsa_service []

parsed-First :
    {Key : Type 0} (c : Crypto Key) (signature : Text) (p : Result (PublicKey Key))
    → First (is_readable p) (verify_with_parsed c p signature (new_ecdsa_service [])).1
unfolding verify_with_parsed associate text_beq
parsed-First c signature (err x) = refl
parsed-First c signature (ok other_key) = refl
parsed-First c signature (ok (ecdsa_key k)) = (k, refl)

after-First :
    {Key : Type 0} (c : Crypto Key) (key signature : Text)
    → First (names_key c key signature) (after c key signature (new_ecdsa_service []))
unfolding digital_signature_verification verify_signature verify_by_held text_beq
after-First c [] signature = refl
after-First c (a ∷ key) [] = refl
after-First c (a ∷ key) (b ∷ signature) =
    parsed-First c (b ∷ signature) (parsed_key c (hex_decode (a ∷ key)))

after_held :
    {Key : Type 0} (c : Crypto Key) (key signature : Text) (k : Key)
    → after c key signature (holding [] k) ≡ holding [] k
unfolding digital_signature_verification verify_signature verify_by_held text_beq
after_held c [] signature k = refl
after_held c (a ∷ key) [] k = refl
after_held c (a ∷ key) (b ∷ signature) k = refl

parsed_secret :
    {Key : Type 0} (c : Crypto Key) (b : ℕ) (secret signature : Text) (p : Result (PublicKey Key))
    → (verify_with_parsed c p signature (new_ecdsa_service (b ∷ secret))).1
      ≡ new_ecdsa_service (b ∷ secret)
unfolding verify_with_parsed associate text_beq
parsed_secret c b secret signature (err x) = refl
parsed_secret c b secret signature (ok other_key) = refl
parsed_secret c b secret signature (ok (ecdsa_key k)) = refl

after_secret :
    {Key : Type 0} (c : Crypto Key) (key signature : Text) (b : ℕ) (secret : Text)
    → after c key signature (new_ecdsa_service (b ∷ secret)) ≡ new_ecdsa_service (b ∷ secret)
unfolding digital_signature_verification verify_signature verify_by_held text_beq
after_secret c [] signature b secret = refl
after_secret c (a ∷ key) [] b secret = refl
after_secret c (a ∷ key) (d ∷ signature) b secret =
    parsed_secret c b secret (d ∷ signature) (parsed_key c (hex_decode (a ∷ key)))

guard_all-held :
    {Key : Type 0} (c : Crypto Key) (k : Key) (reqs : List (Text × Text))
    → guard_all c reqs (holding [] k) ≡ holding [] k
guard_all-held c k [] = refl
guard_all-held c k ((key, signature) ∷ rest) =
    ap (guard_all c rest) (after_held c key signature k) ∙ guard_all-held c k rest

guard_all-secret :
    {Key : Type 0} (c : Crypto Key) (b : ℕ) (secret : Text) (reqs : List (Text × Text))
    → guard_all c reqs (new_ecdsa_service (b ∷ secret)) ≡ new_ecdsa_service (b ∷ secret)
guard_all-secret c b secret [] = refl
guard_all-secret c b secret ((key, signature) ∷ rest) =
    ap (guard_all c rest) (after_secret c key signature b secret) ∙ guard_all-secret c b secret rest

guard_all-new :
    {Key : Type 0} (c : Crypto Key) (reqs : List (Text × Text))
    → is_associated (guard_all c reqs (new_ecdsa_service [])) ≡ some_names_key c reqs
unfolding is_associated is_some text_beq
guard_all-new c [] = refl
guard_all-new {Key = Key} c ((key, signature) ∷ rest) =
    step (names_key c key signature) (after c key signature (new_ecdsa_service []))
      (after-First c key signature) (guard_all-new c rest)
  where
    step :
        (b : Bool) (t : SignatureService Key)
        → First b t
        → is_associated (guard_all c rest (new_ecdsa_service [])) ≡ some_names_key c rest
        → is_associated (guard_all c rest t) ≡ (b || some_names_key c rest)
    step true t (k, e) h = ap is_associated (ap (guard_all c rest) e ∙ guard_all-held c k rest)
    step false t e h = ap is_associated (ap (guard_all c rest) e) ∙ h

-- A new service is associated after the requests that the guard saw exactly if it has a secret, or one
-- of them had both headers and named a readable key.
pub is_associated-guard_all :
    {Key : Type 0} (c : Crypto Key) (secret : Text) (reqs : List (Text × Text))
    → is_associated (guard_all c reqs (new_ecdsa_service secret))
      ≡ (not (secret == []) || some_names_key c reqs)
unfolding text_beq is_associated is_some
is_associated-guard_all c [] reqs = guard_all-new c reqs
is_associated-guard_all c (b ∷ secret) reqs = ap is_associated (guard_all-secret c b secret reqs)
