-- ===== src/Startup/Tests.antt =====
-- The start at concrete inputs (cmd/agent/main.go).
use agent_portainer.Prelude.{
  ◌≡◌, refl, Bool, true, false, none, some, [], ◌∷◌, Text, codes, text_beq, nat_eq, text_eq, ok,
  and_then, IfOk,
}
use agent_portainer.Agent.{
  RuntimeConfiguration, engine_status_swarm, node_role_manager, platform_docker,
}
use agent_portainer.Docker.{
  Engine, get_runtime_configuration_from_docker_engine, configuration_of, get_swarm_configuration,
  get_container_ip_from_docker_engine, first_address,
}
use agent_portainer.Startup.{
  Env, Options, main, start_with, start_on_platform, start_on_docker, place_container,
  swarm_cluster_address, start_on_kubernetes, join_cluster, get_kubernetes_pod_ip,
  determine_container_platform, secure, start_edge, serve, Serving,
}
use agent_portainer.Startup.Sound.{IsSound, main-IsSound}

-- A swarm of which this node is a manager and the leader.
abbrev engine : Engine
engine = record {
  client = ok tt;
  info = ok (record { name = codes "n1"; swarm_node_id = codes "x1"; control_available = true });
  node_is_leader = λ node. ok true;
  container_inspect = λ name. ok (record { networks = []; labels = [] });
  network_inspect = λ id. ok (record { ingress = false; scope = codes "swarm" });
}

abbrev options : Bool → Options
options edge_mode = record {
  agent_server_addr = codes "0.0.0.0";
  agent_server_port = codes "9001";
  cluster_address = codes "tasks.agent";
  edge_mode = edge_mode;
  edge_key = [];
}

-- An agent with these variables, no key, and calls that succeed.
abbrev env : Bool → (Text → Text) → Env
env edge_mode getenv = record {
  options = ok (options edge_mode);
  getenv = getenv;
  engine = engine;
  get_host_name = ok (codes "agent-1");
  lookup_ip_addresses = λ host. ok (codes "10.0.0.2" ∷ []);
  create_cluster = λ addr ips. ok tt;
  new_kube_client = ok tt;
  generate_certs_for_host = λ addr. ok tt;
  key_sources = record {
    file_exists = ok false;
    read_from_file = ok [];
    cluster_members = none;
    get_edge_key = λ addr. ok [];
  };
  key_env = record {
    write_key_file = λ text. ok tt;
    torn_key_file = λ f. none;
    set_tags = λ tags. ok tt;
  };
  start_edge_manager = λ k. ok tt;
}

-- The leader of a swarm, whose container is in no network.
abbrev leader : RuntimeConfiguration
leader = record {
  agent_port = codes "9001";
  edge_key_set = false;
  node_name = codes "n1";
  docker_configuration = record {
    engine_status = engine_status_swarm;
    leader = true;
    node_role = node_role_manager;
  };
}

abbrev serving : Serving
serving = record {
  platform = platform_docker;
  site = record { configuration = leader; cluster = some leader; advertise_addr = codes "0.0.0.0" };
  edge_manager = none;
  edge_ui = false;
  addr = codes "0.0.0.0";
  port = codes "9001";
  secured = true;
}

swarm_test : main (env false (λ name. [])) ≡ ok serving
unfolding main start_with start_on_platform start_on_docker place_container swarm_cluster_address
    join_cluster determine_container_platform secure start_edge serve and_then text_beq
    get_runtime_configuration_from_docker_engine configuration_of get_swarm_configuration
    get_container_ip_from_docker_engine first_address
swarm_test = refl

main-IsSound_example : IsSound serving
main-IsSound_example = main-IsSound (env false (λ name. [])) serving swarm_test

abbrev pod : Text → Text
pod name = codes "10.1.0.7"

-- On Kubernetes the agent is served with TLS.
kubernetes_test : IfOk (λ s. s.secured ≡ true) (main (env false pod))
unfolding main start_with start_on_platform start_on_kubernetes join_cluster get_kubernetes_pod_ip
    determine_container_platform secure start_edge serve and_then text_beq
kubernetes_test = refl
