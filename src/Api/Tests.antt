-- ===== src/Api/Tests.antt =====
-- The API server at concrete inputs (http/).
use agent_portainer.Prelude.{
  ℕ, ◌≡◌, refl, not, [], ◌∷◌, arith, Text, codes, text_beq, ◌==◌, nat_eq, text_eq, has_prefix,
  Result, ok, err,
}
use agent_portainer.Security.{PublicKey, ecdsa_key, Crypto, new_ecdsa_service}
use agent_portainer.Security.Lifetime.{guard_all, some_names_key}
use agent_portainer.Api.{
  serve_http, strip_docker_api_version, strip_matches, starts_version, serve_stripped,
}
use agent_portainer.Api.Version.{serve_http-version, IsUnversioned}
use agent_portainer.Api.Server.{security_shutdown}
use agent_portainer.Api.Server.Shutdown.{security_shutdown-guard_all}

-- The version goes wherever it stands in the path.
image_test : strip_docker_api_version (codes "/images/foo/v1.2/json") ≡ codes "/images/foo/json"
unfolding strip_docker_api_version strip_matches starts_version
image_test = refl

serve_http-version_example :
    (serve_http (codes "/v1.24/info") ≡ serve_http (codes "/info"))
    × (IsUnversioned (codes "/info") → serve_http (codes "/info") ≡ serve_stripped (codes "/info"))
unfolding has_prefix
serve_http-version_example =
    serve_http-version b'1' (codes "24") (codes "info") (omega arith, omega arith)
      ((omega arith, omega arith), ((omega arith, omega arith), tt)) refl

abbrev parse_byte : Text → Result (PublicKey ℕ)
parse_byte [] = err (codes "empty")
parse_byte (b ∷ s) = ok (ecdsa_key b)

-- Keys are numbers; a signature is valid if its first byte is the key.
abbrev byte_keys : Crypto ℕ
byte_keys = record {
  parse_public_key = parse_byte;
  bit_size = λ k. 8;
  md5 = λ message. message;
  verify = λ k hash r s. r == k;
}

security_shutdown-guard_all_example :
    security_shutdown (guard_all byte_keys ((codes "07", codes "x") ∷ []) (new_ecdsa_service []))
    ≡ not (some_names_key byte_keys ((codes "07", codes "x") ∷ []))
unfolding text_beq
security_shutdown-guard_all_example =
    security_shutdown-guard_all byte_keys [] ((codes "07", codes "x") ∷ [])
