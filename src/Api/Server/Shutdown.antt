-- ===== src/Api/Server/Shutdown.antt =====
-- When an agent shuts its API down (http/server.go).
use agent_portainer.Prelude.{
  ◌≡◌, refl, ap, ◌∙◌, Bool, true, false, not, ◌&&◌, ◌||◌, List, [], Text, ◌==◌, nat_eq, text_eq,
}
use agent_portainer.Security.{Crypto, new_ecdsa_service}
use agent_portainer.Security.Lifetime.{guard_all, some_names_key, is_associated-guard_all}
use agent_portainer.Api.Server.{security_shutdown}

-- When its time is up, the server is shut down exactly if it has no secret and none of the requests so
-- far had both headers and named a readable key; whether a signature was valid does not count.
pub security_shutdown-guard_all :
    {Key : Type 0} (c : Crypto Key) (secret : Text) (reqs : List (Text × Text))
    → security_shutdown (guard_all c reqs (new_ecdsa_service secret))
      ≡ ((secret == []) && not (some_names_key c reqs))
unfolding security_shutdown
security_shutdown-guard_all c secret reqs =
    ap not (is_associated-guard_all c secret reqs) ∙ negated (secret == []) (some_names_key c reqs)
  where
    negated : (a b : Bool) → not (not a || b) ≡ (a && not b)
    negated true b = refl
    negated false b = refl
