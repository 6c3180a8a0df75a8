-- ===== src/Api/Routes/Guarded.antt =====
-- Which endpoints a request without an accepted signature reaches (http/handler/).
use agent_portainer.Prelude.{
  ◌≡◌, refl, sym, ◌≢◌, inl, inr, Bool, true, false, List, [], ◌∷◌, Text, nat_eq, text_eq, by_test,
  Option-cases, All, by_test,
}
use mathlib.Core.Path.{subst}
use agent_portainer.Security.{Crypto, SignatureService, Passage, digital_signature_verification}
use agent_portainer.Security as Security
use agent_portainer.Api.{
  Handler, agent_handler, browse_handler, browse_handler_v1, docker_proxy_handler,
  dockerhub_handler, key_handler, kubernetes_handler, kubernetes_proxy_handler, websocket_handler,
  host_handler, ping_handler, serve_http,
}
use agent_portainer.Api.Routes.{
  Endpoint, host_info, key_inspect, key_create, ping, Route, routes, Answer, served, refused,
  redirected, not_found, run_chain, first_route, answer,
}

abbrev pub is_open : Endpoint → Bool
is_open key_inspect = true
is_open key_create = true
is_open ping = true
is_open _ = false

abbrev pub is_host_info : Endpoint → Bool
is_host_info host_info = true
is_host_info _ = false

-- The answers to a request whose signature is not accepted.
abbrev pub IsUnverified : Answer → Type 0
IsUnverified (served e) = is_open e ≡ true
IsUnverified (refused e) = Unit
IsUnverified (redirected e) = is_host_info e ≡ true
IsUnverified not_found = Unit

first_route-IsUnverified :
    (matches : Route → Bool) (here : Bool) (rs : List Route)
    → All (λ r. IsUnverified (run_chain false here r.chain r.endpoint)) rs
    → IsUnverified (first_route matches false here rs)
unfolding first_route
first_route-IsUnverified matches here [] h = tt
first_route-IsUnverified matches here (r ∷ rs) (h, hs) =
    by_test IsUnverified (matches r) (λ _. h) (λ _. first_route-IsUnverified matches here rs hs)

routes-IsUnverified :
    (here : Bool) (h : Handler)
    → All (λ r. IsUnverified (run_chain false here r.chain r.endpoint)) (routes h)
unfolding routes run_chain
routes-IsUnverified here agent_handler = (tt, tt)
routes-IsUnverified here browse_handler = (tt, (tt, (tt, (tt, (tt, tt)))))
routes-IsUnverified here browse_handler_v1 = (tt, (tt, (tt, (tt, (tt, tt)))))
routes-IsUnverified here docker_proxy_handler = (tt, tt)
routes-IsUnverified here dockerhub_handler = (tt, tt)
routes-IsUnverified here key_handler = (refl, (refl, tt))
routes-IsUnverified here kubernetes_handler = (tt, tt)
routes-IsUnverified here kubernetes_proxy_handler = (tt, tt)
routes-IsUnverified here websocket_handler = (tt, (tt, (tt, tt)))
routes-IsUnverified true host_handler = (tt, tt)
routes-IsUnverified false host_handler = (refl, tt)
routes-IsUnverified here ping_handler = (refl, tt)

answer-IsUnverified :
    (matches : Text → Route → Bool) (here : Bool) (path : Text)
    → IsUnverified (answer matches false here path)
unfolding answer
answer-IsUnverified matches here path = elim (Option-cases (serve_http path)) [
  | inl e ↦ rw (e, answer) tt
  | inr ((h, rest), e) ↦
      rw (e, answer)
        (first_route-IsUnverified (matches rest) here (routes h) (routes-IsUnverified here h))
]

abbrev pub is_passed : Passage → Bool
is_passed Security.passed = true
is_passed _ = false

not_passed : (p : Passage) → p ≢ Security.passed → is_passed p ≡ false
not_passed Security.passed h = absurd (h refl)
not_passed (Security.refused status message error) h = refl
not_passed Security.crashed h = refl

-- The answer to a request with these two headers, through the guard.
abbrev pub signed_answer :
    {Key : Type 0}
    → Crypto Key
    → SignatureService Key
    → (key signature : Text) → (Text → Route → Bool)
    → Bool
    → Text
    → Answer
signed_answer c s key signature matches here path =
    answer matches (is_passed (digital_signature_verification c true key signature s).0) here path

-- Whatever the path and however the routers match, a request that the guard does not let pass is served
-- only by the ping and the two key endpoints, and is redirected to another agent only for the
-- information of the host.
pub signed_answer-IsUnverified :
    {Key : Type 0} (c : Crypto Key) (s : SignatureService Key) (key signature : Text)
    (matches : Text → Route → Bool) (here : Bool) (path : Text)
    → (digital_signature_verification c true key signature s).0 ≢ Security.passed
    → IsUnverified (signed_answer c s key signature matches here path)
signed_answer-IsUnverified c s key signature matches here path stopped =
    subst (λ b. IsUnverified (answer matches b here path))
      (sym (not_passed (digital_signature_verification c true key signature s).0 stopped))
      (answer-IsUnverified matches here path)
