-- ===== src/Security/Association.antt =====
-- Which key the service trusts, over any requests (crypto/ecdsa.go).
use agent_portainer.Prelude.{
  ℕ, ◌≡◌, refl, ap, ◌∙◌, true, some, List, [], ◌∷◌, Text, text_beq, nat_eq, text_eq, Result, ok,
  err,
}
use agent_portainer.Security.{
  PublicKey, ecdsa_key, other_key, Crypto, hex_decode, Verdict, SignatureService, new_ecdsa_service,
  is_associated, is_some, decode_and_verify_signature, parsed_key, associate, verify_with_parsed,
  verify_by_held, verify_signature,
}

-- The requests, each a signature and a key, one after another.
abbrev pub verify_all :
    {Key : Type 0}
    → Crypto Key
    → List (Text × Text)
    → SignatureService Key
    → List Verdict × SignatureService Key
verify_all c [] s = ([], s)
verify_all c ((signature, key) ∷ rest) s =
    let (v, t) = verify_signature c signature key s in
    let (vs, u) = verify_all c rest t in (v ∷ vs, u)

-- The verdicts where the key `k` alone counts.
abbrev pub by_key : {Key : Type 0} → Crypto Key → Text → Key → List (Text × Text) → List Verdict
by_key c secret k [] = []
by_key c secret k ((signature, _) ∷ rest) =
    decode_and_verify_signature c secret k signature ∷ by_key c secret k rest

abbrev holding : {Key : Type 0} → Text → Key → SignatureService Key
holding secret k = record { public_key = some k; secret = secret }

verify_all-held :
    {Key : Type 0} (c : Crypto Key) (k : Key) (secret : Text) (reqs : List (Text × Text))
    → verify_all c reqs (holding secret k) ≡ (by_key c secret k reqs, holding secret k)
unfolding verify_signature verify_by_held
verify_all-held c k secret [] = refl
verify_all-held c k secret ((signature, key) ∷ rest) =
    ap (λ p. (decode_and_verify_signature c secret k signature ∷ p.0, p.1))
      (verify_all-held c k secret rest)

-- The first key that can be read is the one that counts from then on, for a service without a secret:
-- whatever the signature that came with it, the service is associated, and each later request is
-- accepted exactly if its signature is valid under that key, whichever key it names.
pub verify_all-first_key :
    {Key : Type 0} (c : Crypto Key) (k : Key) (signature key : Text) (reqs : List (Text × Text))
    → parsed_key c (hex_decode key) ≡ ok (ecdsa_key k)
    → let t = (verify_signature c signature key (new_ecdsa_service [])).1 in
      (is_associated t ≡ true) × (verify_all c reqs t ≡ (by_key c [] k reqs, t))
unfolding verify_signature verify_by_held verify_with_parsed associate is_associated is_some
    text_beq
verify_all-first_key c k signature key reqs e = rw e (refl, verify_all-held c k [] reqs)

secret_kept :
    {Key : Type 0} (c : Crypto Key) (b : ℕ) (secret signature : Text) (p : Result (PublicKey Key))
    → let s = new_ecdsa_service (b ∷ secret) in (verify_with_parsed c p signature s).1 ≡ s
unfolding verify_with_parsed associate text_beq
secret_kept c b secret signature (err x) = refl
secret_kept c b secret signature (ok other_key) = refl
secret_kept c b secret signature (ok (ecdsa_key k)) = refl

verify_kept :
    {Key : Type 0} (c : Crypto Key) (b : ℕ) (secret signature key : Text)
    → let s = new_ecdsa_service (b ∷ secret) in (verify_signature c signature key s).1 ≡ s
unfolding verify_signature verify_by_held
verify_kept c b secret signature key =
    secret_kept c b secret signature (parsed_key c (hex_decode key))

-- A service with a secret counts as associated and never keeps a key: after any requests it is as it
-- was, so that each request is judged by the key that it names and by the secret alone.
pub verify_all-secret :
    {Key : Type 0} (c : Crypto Key) (b : ℕ) (secret : Text) (reqs : List (Text × Text))
    → let s = new_ecdsa_service (b ∷ secret) in
      (is_associated s ≡ true) × ((verify_all c reqs s).1 ≡ s)
unfolding is_associated is_some text_beq
verify_all-secret c b secret reqs = (refl, all_kept reqs)
  where
    all_kept :
        (reqs : List (Text × Text))
        → (verify_all c reqs (new_ecdsa_service (b ∷ secret))).1 ≡ new_ecdsa_service (b ∷ secret)
    all_kept [] = refl
    all_kept ((signature, key) ∷ rest) =
        ap (λ t. (verify_all c rest t).1) (verify_kept c b secret signature key) ∙ all_kept rest
