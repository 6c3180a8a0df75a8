-- ===== src/Api/Version.antt =====
-- The version of the Docker API in front of a path (http/handler/handler.go).
use agent_portainer.Prelude.{
  ℕ, ◌≡◌, refl, sym, ap, ◌∙◌, true, false, ◌&&◌, some, [], ◌∷◌, ◌++◌, arith, leb, if◌then◌else◌,
  Text, codes, nat_eq, text_eq, All, has_prefix, IsDigit,
}
use agent_portainer.Api.{
  starts_version, strip_matches, strip_docker_api_version, serve_http, serve_stripped, key_handler,
}

-- No version stands anywhere in the path.
abbrev pub IsUnversioned : Text → Type 0
IsUnversioned [] = Unit
IsUnversioned (c ∷ s) = (starts_version (c ∷ s) ≡ false) × IsUnversioned s

strip_matches-digits :
    (ds p : Text)
    → All IsDigit ds
    → strip_matches 0 true (ds ++ b'/' ∷ p) ≡ strip_matches 0 false (b'/' ∷ p)
unfolding strip_matches
strip_matches-digits [] p h = refl
strip_matches-digits (c ∷ ds) p ((lo, hi), hs) =
    let digit : (leb b'0' c && leb c b'9') ≡ true = ground (arith, lo, hi) in
    rw (digit, strip_matches) (strip_matches-digits ds p hs)

version_start : (d : ℕ) (s : Text) → IsDigit d → starts_version (b'/' ∷ b'v' ∷ d ∷ b'.' ∷ s) ≡ true
unfolding starts_version
version_start d s (lo, hi) = ground (arith, lo, hi)

strip_version :
    (d : ℕ) (ds p : Text)
    → IsDigit d
    → All IsDigit ds
    → strip_docker_api_version (b'/' ∷ b'v' ∷ d ∷ b'.' ∷ (ds ++ b'/' ∷ p))
      ≡ strip_docker_api_version (b'/' ∷ p)
unfolding strip_docker_api_version strip_matches
strip_version d ds p h hs =
    rw (version_start d (ds ++ b'/' ∷ p) h, strip_matches) (strip_matches-digits ds p hs)

strip_unversioned : (p : Text) → IsUnversioned p → strip_matches 0 false p ≡ p
unfolding strip_matches
strip_unversioned [] h = refl
strip_unversioned (c ∷ s) (h, hs) = rw (h, strip_matches) (ap (λ t. c ∷ t) (strip_unversioned s hs))

serve_not_key :
    (path : Text)
    → has_prefix (codes "/key") path ≡ false
    → serve_http path ≡ serve_stripped (strip_docker_api_version path)
unfolding serve_http
serve_not_key path h =
    ap (λ b. if b then some (key_handler, path) else serve_stripped (strip_docker_api_version path))
      h

not_key : (d : ℕ) (s : Text) → has_prefix (codes "/key") (b'/' ∷ b'v' ∷ d ∷ b'.' ∷ s) ≡ false
unfolding has_prefix
not_key d s = refl

-- A path with a version of the Docker API in front, such as "/v1.24", is served as the path after it,
-- unless that begins with "/key"; and a path without any version is served as it is.
pub serve_http-version :
    (d : ℕ) (ds p : Text)
    → IsDigit d
    → All IsDigit ds
    → has_prefix (codes "/key") (b'/' ∷ p) ≡ false
    → (serve_http (b'/' ∷ b'v' ∷ d ∷ b'.' ∷ (ds ++ b'/' ∷ p)) ≡ serve_http (b'/' ∷ p))
      × (IsUnversioned (b'/' ∷ p) → serve_http (b'/' ∷ p) ≡ serve_stripped (b'/' ∷ p))
unfolding strip_docker_api_version
serve_http-version d ds p h hs key =
    let long = b'/' ∷ b'v' ∷ d ∷ b'.' ∷ (ds ++ b'/' ∷ p) in
    let plain = serve_not_key (b'/' ∷ p) key in
    (
      serve_not_key long (not_key d (ds ++ b'/' ∷ p))
          ∙ ap serve_stripped (strip_version d ds p h hs)
          ∙ sym plain,
      λ u. plain ∙ ap serve_stripped (strip_unversioned (b'/' ∷ p) u),
    )
