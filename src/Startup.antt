-- ===== src/Startup.antt =====
-- How the agent starts (cmd/agent/main.go, os/kubernetes.go): from the options and the environment to
-- the API server that it serves. A fatal error is the error of the result. Waiting, logging and leaving
-- the cluster at the end are left out.
mod Sound
mod Tests
use agent_portainer.Prelude.{
  ℕ, zero, suc, ◌+◌, ◌-◌, ◌*◌, ◌/◌, ◌%◌, ◌≤◌, ◌<◌, ◌≡◌, refl, sym, ap, ◌∙◌, ◌≢◌, ◌↔◌, ◌⊎◌, inl, inr,
  Bool, true, false, not, ◌&&◌, ◌||◌, Option, none, some, List, [], ◌∷◌, ◌++◌, map, arith, ltb, leb,
  if◌then◌else◌, nat_beq, nat_beq_iff, Text, codes, text_beq, text_beq_iff, Equality, ◌==◌, nat_eq,
  text_eq, Bool-cases, by_test, Option-cases, length, length-append, All, All-append, lookup,
  insert, erase, has_key, lookup-insert, lookup-erase, has_key-insert, has_key-erase,
  has_key-lookup, beq_refl, itoa, itoa-All, has_prefix, strip_prefix, contains, split_by, split,
  drop_empty, fields_by, join, Lacks, split-join, join-split, split_by-skip, split_by-cut,
  split_by-nil, split_by-whole, split_by-append, by_test, Result, ok, err, Method, >>-keeps,
  >>-eq-ok, ◌>>=◌, ◌>>◌, return, lift, get, modify, Result-cases, take, drop, itoa-cons, IsDigit,
  is_digit, ℤ, pos, negsuc, atoi, atoi-itoa, itoa-IsDigit, int_bound, range_error, syntax_error,
  and_then, IfOk, and_then-IfOk,
}
use agent_portainer.Agent.{
  DockerEngineStatus, engine_status_swarm, ContainerPlatform, platform_docker, platform_kubernetes,
  platform_podman, platform_unset, RuntimeConfiguration,
}
use agent_portainer.Docker.{
  Engine, named, get_runtime_configuration_from_docker_engine, get_container_ip_from_docker_engine,
  get_service_name_from_docker_engine,
}
use agent_portainer.Edge.Poll.{is_swarm}
use agent_portainer.Edge.Key.{Keeper, KeySources, retrieve_edge_key, set_key}
use agent_portainer.Edge.Key as Key

-- The options that the start looks at.
pub record Options : Type 0 where
  pub agent_server_addr : Text
  pub agent_server_port : Text
  pub cluster_address : Text
  pub edge_mode : Bool
  pub edge_key : Text

-- What is read and called: the environment variables, "" for one that is not set, the Docker engine,
-- the cluster service, the certificates, and for an Edge agent where its key may be and `Start`.
pub record Env : Type 0 where
  pub options : Result Options
  pub getenv : Text → Text
  pub engine : Engine
  pub get_host_name : Result Text
  pub lookup_ip_addresses : Text → Result (List Text)
  pub create_cluster : Text → List Text → Result (Unit {0})
  pub new_kube_client : Result (Unit {0})
  pub generate_certs_for_host : Text → Result (Unit {0})
  pub key_sources : KeySources
  pub key_env : Key.Env
  pub start_edge_manager : Keeper → Result (Unit {0})

-- `DetermineContainerPlatform`.
pub determine_container_platform : (Text → Text) → ContainerPlatform
determine_container_platform getenv =
    if getenv (codes "PODMAN") == codes "1"
    then platform_podman
    else if not (getenv (codes "KUBERNETES_SERVICE_HOST") == [])
    then platform_kubernetes
    else platform_docker

pub get_kubernetes_pod_ip : (Text → Text) → Text
get_kubernetes_pod_ip getenv = getenv (codes "KUBERNETES_POD_IP")

-- What the platform gives: the configuration of the agent, the one that the cluster service holds, if
-- there is one, and the address to advertise.
pub record Site : Type 0 where
  pub configuration : RuntimeConfiguration
  pub cluster : Option RuntimeConfiguration
  pub advertise_addr : Text

-- Creating the cluster at the addresses of a host.
pub join_cluster : Env → RuntimeConfiguration → Text → Text → Result Site
join_cluster env c advertise cluster_addr = and_then (env.lookup_ip_addresses cluster_addr) (λ ips.
    and_then (env.create_cluster advertise ips)
      (λ _. ok (record { configuration = c; cluster = some c; advertise_addr = advertise })))

-- The host of the other agents of the service.
pub swarm_cluster_address : Env → Options → Text → Result Text
swarm_cluster_address env o container =
    if o.cluster_address == []
    then and_then (get_service_name_from_docker_engine env.engine container)
        (λ service. ok (codes "tasks." ++ service))
    else ok o.cluster_address

-- An address that is not found is replaced by the address of the API.
abbrev pub or_server_addr : Options → Result Text → Text
or_server_addr o (ok ip) = ip
or_server_addr o (err x) = o.agent_server_addr

abbrev pub is_docker : ContainerPlatform → Bool
is_docker platform_docker = true
is_docker _ = false

pub place_container : Env → Options → ContainerPlatform → RuntimeConfiguration → Text → Result Site
unfolding join_cluster swarm_cluster_address
place_container env o platform c container =
    let cluster_mode = is_swarm c.docker_configuration.engine_status in
    let advertise =
      or_server_addr o (get_container_ip_from_docker_engine env.engine container cluster_mode) in
    if is_docker platform && cluster_mode
    then and_then (swarm_cluster_address env o container) (join_cluster env c advertise)
    else ok (record { configuration = c; cluster = none; advertise_addr = advertise })

pub start_on_docker : Env → Options → ContainerPlatform → Result Site
unfolding place_container
start_on_docker env o platform =
    and_then (get_runtime_configuration_from_docker_engine env.engine) (λ c.
      and_then env.get_host_name
        (place_container env o platform (record c { agent_port = o.agent_server_port })))

abbrev pub pod_ip_missing : Text
pod_ip_missing = codes "KUBERNETES_POD_IP env var must be specified when running on Kubernetes"

abbrev pub headless_service : Text
headless_service = codes "s-portainer-agent-headless"

pub start_on_kubernetes : Env → Options → RuntimeConfiguration → Result Site
unfolding join_cluster get_kubernetes_pod_ip
start_on_kubernetes env o c = and_then env.new_kube_client (λ _.
    let advertise = get_kubernetes_pod_ip env.getenv in
    if advertise == []
    then err pod_ip_missing
    else join_cluster env c advertise
        (if o.cluster_address == [] then headless_service else o.cluster_address))

pub start_on_platform : Env → Options → ContainerPlatform → Result Site
unfolding start_on_docker start_on_kubernetes
start_on_platform env o platform_unset = ok (record {
  configuration = record (named []) { agent_port = o.agent_server_port };
  cluster = none;
  advertise_addr = [];
})
start_on_platform env o platform_docker = start_on_docker env o platform_docker
start_on_platform env o platform_podman = start_on_docker env o platform_podman
start_on_platform env o platform_kubernetes =
    start_on_kubernetes env o (record (named []) { agent_port = o.agent_server_port })

-- The certificates of an agent that is no Edge agent.
pub secure : Env → Options → Site → Result (Unit {0})
secure env o s = if not o.edge_mode then env.generate_certs_for_host s.advertise_addr else ok tt

-- A key that cannot be retrieved counts as no key.
abbrev pub key_or_empty : Result Text → Text
key_or_empty (ok key) = key
key_or_empty (err x) = []

abbrev pub keeper_of : Site → Keeper
keeper_of s = record { key = none; key_file = none; cluster = s.cluster }

-- The key is set, and the Edge manager is started with it.
pub start_with_key : Env → Result (Unit {0}) × Keeper → Result Keeper
start_with_key env (err x, k) = err x
start_with_key env (ok _, k) = and_then (env.start_edge_manager k) (λ _. ok k)

pub associate : Env → Keeper → Text → Result Keeper
unfolding start_with_key
associate env k [] = ok k
associate env k (c ∷ key) = start_with_key env (set_key env.key_env (c ∷ key) k)

-- The Edge manager of an Edge agent.
pub start_edge : Env → Options → Site → Result (Option Keeper)
unfolding associate
start_edge env o s =
    if o.edge_mode
    then and_then
        (associate env (keeper_of s) (key_or_empty (retrieve_edge_key env.key_sources o.edge_key)))
        (λ k. ok (some k))
    else ok none

-- The API server that is served, the Edge manager behind it, and whether the page is served on which a
-- key can be given.
pub record Serving : Type 0 where
  pub platform : ContainerPlatform
  pub site : Site
  pub edge_manager : Option Keeper
  pub edge_ui : Bool
  pub addr : Text
  pub port : Text
  pub secured : Bool

-- The page is served to an Edge agent for which no key was found.
abbrev pub serves_edge_ui : Env → Options → Bool
serves_edge_ui env o =
    o.edge_mode && key_or_empty (retrieve_edge_key env.key_sources o.edge_key) == []

pub serve : Env → Options → ContainerPlatform → Site → Option Keeper → Serving
serve env o platform s k = record {
  platform = platform;
  site = s;
  edge_manager = k;
  edge_ui = serves_edge_ui env o;
  addr = if o.edge_mode then s.advertise_addr else o.agent_server_addr;
  port = o.agent_server_port;
  secured = not o.edge_mode;
}

pub start_with : Env → Options → Result Serving
unfolding start_on_platform secure start_edge serve
start_with env o =
    let platform = determine_container_platform env.getenv in
    and_then (start_on_platform env o platform) (λ s.
      and_then (secure env o s)
        (λ _. and_then (start_edge env o s) (λ k. ok (serve env o platform s k))))

-- `main` up to the API server.
pub main : Env → Result Serving
unfolding start_with
main env = and_then env.options (start_with env)
