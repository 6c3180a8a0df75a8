-- ===== src/DockerHub/Tests.antt =====
-- The limits of an account at concrete inputs (http/handler/dockerhub/dockerhub_status.go).
use agent_portainer.Prelude.{
  ◌≡◌, refl, inl, inr, true, some, [], if◌then◌else◌, Text, codes, text_beq, ◌==◌, nat_eq, text_eq,
  itoa, ok, bits_64,
}
use agent_portainer.DockerHub.{DockerhubStatusPayload, Env, Reply, json, validate, dockerhub_status}
use agent_portainer.DockerHub.Limits.{dockerhub_status-limits, limits_response}

abbrev header : Text → Text
header key =
    if key == codes "RateLimit-Limit"
    then codes "200;w=21600"
    else if key == codes "RateLimit-Remaining"
    then codes "176"
    else []

-- The body of a reply is the token.
abbrev reply : Reply
reply = record { status = 200; body = codes "abc"; header = header }

abbrev env : Env
env = record { int_size = bits_64; send = λ r. ok reply; decode_token = λ body. ok body }

abbrev payload : DockerhubStatusPayload
payload = record { authentication = true; username = codes "ann"; password = codes "secret" }

dockerhub_status-limits_example :
    dockerhub_status env (ok payload) ≡ json (some (limits_response 200 176))
unfolding validate text_beq itoa
dockerhub_status-limits_example =
    dockerhub_status-limits env payload (codes "abc") reply reply 200 176 refl (refl, refl) refl
      (refl, refl) (inr (codes "w=21600", refl)) (inl refl)
