-- ===== src/Api/Routes/Tests.antt =====
-- A request at a guarded endpoint (http/handler/).
use agent_portainer.Prelude.{
  ℕ, ◌≡◌, refl, ◌≢◌, Bool, true, false, [], Text, codes, text_beq, ◌==◌, nat_eq, text_eq,
  has_prefix, strip_prefix, err,
}
use agent_portainer.Security.{Crypto, new_ecdsa_service, digital_signature_verification}
use agent_portainer.Security as Security
use agent_portainer.Api.{
  serve_http, serve_stripped, serve_http_v2, strip_docker_api_version, strip_matches,
  starts_version, first_prefix,
}
use agent_portainer.Api.Routes.{Route, routes, answer, refused, browse_ls, run_chain, first_route}
use agent_portainer.Api.Routes.Guarded.{IsUnverified, signed_answer, signed_answer-IsUnverified}

abbrev exact : Text → Route → Bool
exact path r = r.pattern == path

-- No key can be read.
abbrev no_crypto : Crypto ℕ
no_crypto = record {
  parse_public_key = λ bytes. err (codes "no key");
  bit_size = λ k. 256;
  md5 = λ message. message;
  verify = λ k hash r s. false;
}

unsigned :
    (digital_signature_verification no_crypto true [] [] (new_ecdsa_service [])).0 ≢ Security.passed
unfolding digital_signature_verification text_beq
unsigned e = cc

signed_answer-IsUnverified_example :
    IsUnverified
      (signed_answer no_crypto (new_ecdsa_service []) [] [] exact true (codes "/v2/browse/ls"))
signed_answer-IsUnverified_example =
    signed_answer-IsUnverified no_crypto (new_ecdsa_service []) [] [] exact true
      (codes "/v2/browse/ls") unsigned

refused_test : answer exact false true (codes "/v2/browse/ls") ≡ refused browse_ls
unfolding answer serve_http serve_stripped serve_http_v2 strip_docker_api_version strip_matches
    starts_version run_chain first_route first_prefix routes has_prefix text_beq strip_prefix
refused_test = refl
