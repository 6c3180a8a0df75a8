-- ===== src/Startup/Sound.antt =====
-- In which state the agent serves its API (cmd/agent/main.go).
use mathlib.Core.Path.{subst}
use agent_portainer.Prelude.{
  ◌≡◌, refl, sym, ap, ◌∙◌, Bool, true, false, not, Option, none, some, [], ◌∷◌, if◌then◌else◌, Text,
  text_beq, ◌==◌, nat_eq, text_eq, by_test, by_test, Result, ok, err, IfOk, and_then-IfOk,
}
use agent_portainer.Agent.{
  ContainerPlatform, platform_docker, platform_kubernetes, platform_podman, platform_unset,
  RuntimeConfiguration,
}
use agent_portainer.Docker.{get_runtime_configuration_from_docker_engine}
use agent_portainer.Docker.Role.{KnowsRole, configuration-KnowsRole}
use agent_portainer.Edge.Key.Sources.{set_key-is_key_set, is_key_set_none}
use agent_portainer.Edge.Poll.{is_swarm}
use agent_portainer.Edge.Key.{Keeper, is_key_set, set_key, retrieve_edge_key}
use agent_portainer.Startup.{
  Env, Options, Site, join_cluster, swarm_cluster_address, place_container, start_on_docker,
  start_on_kubernetes, start_on_platform, secure, start_with_key, associate, start_edge, serve,
  Serving, start_with, main, key_or_empty, keeper_of, determine_container_platform,
  get_kubernetes_pod_ip,
}

-- The cluster service is there exactly for a swarm.
abbrev pub IsPlaced : ContainerPlatform → Site → Type 0
IsPlaced platform_docker s =
    (s.cluster ≡ (
      if is_swarm s.configuration.docker_configuration.engine_status
      then some s.configuration
      else none))
    × KnowsRole s.configuration
IsPlaced platform_kubernetes s = s.cluster ≡ some s.configuration
IsPlaced _ s = s.cluster ≡ none

join_cluster-Joined :
    (env : Env) (c : RuntimeConfiguration) (advertise addr : Text)
    → IfOk (λ s. (s.cluster ≡ some c) × (s.configuration ≡ c)) (join_cluster env c advertise addr)
unfolding join_cluster
join_cluster-Joined env c advertise addr =
    and_then-IfOk _ (env.lookup_ip_addresses addr) _
      (λ ips _. and_then-IfOk _ (env.create_cluster advertise ips) _ (λ _ _. (refl, refl)))

IfOk-map :
    {A : Type 0} (P Q : A → Type 0) (r : Result A) → ((a : A) → P a → Q a) → IfOk P r → IfOk Q r
IfOk-map P Q (ok a) f h = f a h
IfOk-map P Q (err x) f h = tt

place_container-docker :
    (env : Env) (o : Options) (c : RuntimeConfiguration) (container : Text)
    → KnowsRole c
    → IfOk (IsPlaced platform_docker) (place_container env o platform_docker c container)
unfolding place_container
place_container-docker env o c container role =
    by_test (IfOk (IsPlaced platform_docker)) (is_swarm c.docker_configuration.engine_status)
      (λ e.
        and_then-IfOk (IsPlaced platform_docker) (swarm_cluster_address env o container) _
          (λ addr _.
            IfOk-map _ (IsPlaced platform_docker) (join_cluster env c _ addr)
              (λ s (k, q). rw q (rw e k, role)) (join_cluster-Joined env c _ addr)))
      (λ e. (rw e refl, role))

start_on_docker-IsPlaced :
    (env : Env) (o : Options)
    → IfOk (IsPlaced platform_docker) (start_on_docker env o platform_docker)
unfolding start_on_docker
start_on_docker-IsPlaced env o =
    and_then-IfOk (IsPlaced platform_docker)
      (get_runtime_configuration_from_docker_engine env.engine) _
      (λ c e. and_then-IfOk (IsPlaced platform_docker) env.get_host_name _ (λ container _.
        place_container-docker env o (record c { agent_port = o.agent_server_port }) container
          (subst (IfOk KnowsRole) e (configuration-KnowsRole env.engine))))

start_on_podman-IsPlaced :
    (env : Env) (o : Options)
    → IfOk (IsPlaced platform_podman) (start_on_docker env o platform_podman)
unfolding start_on_docker place_container
start_on_podman-IsPlaced env o =
    and_then-IfOk (IsPlaced platform_podman)
      (get_runtime_configuration_from_docker_engine env.engine) _
      (λ c e. and_then-IfOk (IsPlaced platform_podman) env.get_host_name _ (λ container _. refl))

start_on_kubernetes-IsPlaced :
    (env : Env) (o : Options) (c : RuntimeConfiguration)
    → IfOk (IsPlaced platform_kubernetes) (start_on_kubernetes env o c)
unfolding start_on_kubernetes
start_on_kubernetes-IsPlaced env o c =
    and_then-IfOk (IsPlaced platform_kubernetes) env.new_kube_client _ (λ _ _.
      by_test (IfOk (IsPlaced platform_kubernetes)) (get_kubernetes_pod_ip env.getenv == [])
        (λ _. tt)
        (λ _.
          IfOk-map _ (IsPlaced platform_kubernetes) (join_cluster env c _ _)
            (λ s (k, q). k ∙ ap some (sym q)) (join_cluster-Joined env c _ _)))

start_on_platform-IsPlaced :
    (env : Env) (o : Options) (p : ContainerPlatform)
    → IfOk (IsPlaced p) (start_on_platform env o p)
unfolding start_on_platform
start_on_platform-IsPlaced env o platform_unset = refl
start_on_platform-IsPlaced env o platform_docker = start_on_docker-IsPlaced env o
start_on_platform-IsPlaced env o platform_podman = start_on_podman-IsPlaced env o
start_on_platform-IsPlaced env o platform_kubernetes = start_on_kubernetes-IsPlaced env o _

-- A key that is given is set.
abbrev pub KeyFor : Text → Keeper → Type 0
KeyFor text k = is_key_set k ≡ not (text == [])

associate-KeyFor :
    (env : Env) (k : Keeper) (text : Text)
    → is_key_set k ≡ false
    → IfOk (KeyFor text) (associate env k text)
unfolding associate start_with_key text_beq
associate-KeyFor env k [] fresh = fresh
associate-KeyFor env k (c ∷ key) fresh =
    set_key_started (set_key env.key_env (c ∷ key) k) (set_key-is_key_set env.key_env (c ∷ key) k)
  where
    set_key_started :
        (p : Result (Unit {0}) × Keeper)
        → (p.0 ≡ ok tt → is_key_set p.1 ≡ true)
        → IfOk (KeyFor (c ∷ key)) (start_with_key env p)
    set_key_started (err x, t) h = tt
    set_key_started (ok _, t) h =
        and_then-IfOk (KeyFor (c ∷ key)) (env.start_edge_manager t) _ (λ _ _. h refl)

-- Either an agent that is no Edge agent, with TLS, or an Edge agent without, at the address that it
-- advertises, with the page for a key as long as its key is not set.
abbrev pub EdgeServed : Option Keeper → Serving → Type 0
EdgeServed none t = (t.secured ≡ true) × (t.edge_ui ≡ false)
EdgeServed (some k) t =
    (t.secured ≡ false) × (t.edge_ui ≡ not (is_key_set k)) × (t.addr ≡ t.site.advertise_addr)

abbrev pub IsSound : Serving → Type 0
IsSound t = IsPlaced t.platform t.site × EdgeServed t.edge_manager t

negated_twice : (b c : Bool) → c ≡ not b → b ≡ not c
negated_twice true c e = ap not (sym e)
negated_twice false c e = ap not (sym e)

served-by_mode :
    (env : Env) (o : Options) (p : ContainerPlatform) (s : Site) (b : Bool)
    → o.edge_mode ≡ b
    → IsPlaced p s
    → IfOk (λ k. IsSound (serve env o p s k)) (start_edge env o s)
unfolding start_edge serve
served-by_mode env o p s true e placed =
    let text = key_or_empty (retrieve_edge_key env.key_sources o.edge_key) in
    let k = keeper_of s in
    rw e (
      and_then-IfOk _ (associate env k text) _ (λ t q.
        let set : KeyFor text t =
          subst (IfOk (KeyFor text)) q (associate-KeyFor env k text (is_key_set_none k refl)) in
        (placed, (refl, negated_twice (text == []) (is_key_set t) set, refl))))
served-by_mode env o p s false e placed = rw e (placed, (refl, refl))

start_with-IsSound : (env : Env) (o : Options) → IfOk IsSound (start_with env o)
unfolding start_with
start_with-IsSound env o =
    let p = determine_container_platform env.getenv in
    and_then-IfOk IsSound (start_on_platform env o p) _ (λ s e.
      and_then-IfOk IsSound (secure env o s) _ (λ _ _.
        and_then-IfOk IsSound (start_edge env o s) _ (λ k q.
          subst (IfOk (λ k. IsSound (serve env o p s k))) q (
            served-by_mode env o p s o.edge_mode refl
              (subst (IfOk (IsPlaced p)) e (start_on_platform-IsPlaced env o p))))))

main-IfOk : (env : Env) → IfOk IsSound (main env)
unfolding main
main-IfOk env = and_then-IfOk IsSound env.options _ (λ o _. start_with-IsSound env o)

-- An agent that gets as far as serving its API has a cluster service exactly in a swarm or on
-- Kubernetes, and an agent of a swarm knows its role; and either it is no Edge agent and its API is
-- secured by TLS, or it is an Edge agent, its API is not secured and listens on the address that it
-- advertises, and the page for giving a key is served exactly if its key is not set.
pub main-IsSound : (env : Env) (t : Serving) → main env ≡ ok t → IsSound t
main-IsSound env t e = subst (IfOk IsSound) e (main-IfOk env)
