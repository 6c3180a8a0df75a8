-- ===== src/Routing/Tests.antt =====
-- A cluster of two nodes at concrete inputs (http/handler/docker/docker_operation.go, http/proxy/).
use agent_portainer.Prelude.{
  ℕ, ◌≡◌, refl, true, false, none, some, List, [], ◌∷◌, map, arith, if◌then◌else◌, Text, codes,
  text_beq, ◌==◌, nat_eq, text_eq, ok,
}
use agent_portainer.Agent.{
  ClusterMember, RuntimeConfiguration, DockerNodeRole, engine_status_swarm, node_role_manager,
  node_role_worker, member_addr,
}
use agent_portainer.Serf.{SerfMember, tag_map}
use agent_portainer.Serf.Members.{published}
use agent_portainer.Serf.{tag}
use agent_portainer.Routing.{
  Request, Node, served_here, forwarded, execute_operation_on_manager_node,
  execute_operation_on_node, operation_in_cluster, docker_operation, redirect, websocket_attach,
  websocket_exec, agent_http_request, websocket_request, http_target_header_name,
}
use agent_portainer.Routing.Delivery.{
  Delivered, is_here, has_manager_role, execute_operation-Delivered, forwarded-served_here,
  agent_http_request-fields,
}
use agent_portainer.Routing.Aggregation.{array, object_item, Env}
use agent_portainer.Routing.Aggregation.Race.{
  interleave, turn_at, turn, ended, start_goroutines, Goroutine, copied,
}

abbrev configuration : Text → DockerNodeRole → RuntimeConfiguration
configuration name role = record {
  agent_port = codes "9001";
  edge_key_set = false;
  node_name = name;
  docker_configuration = record {
    engine_status = engine_status_swarm;
    leader = false;
    node_role = role;
  };
}

abbrev cluster : List SerfMember
cluster =
    record {
      is_alive = true;
      addr = codes "10.0.0.1";
      tags = tag_map (configuration (codes "n1") node_role_worker);
    }
    ∷ record {
      is_alive = true;
      addr = codes "10.0.0.2";
      tags = tag_map (configuration (codes "n2") node_role_manager);
    }
    ∷ []

abbrev node : Text → DockerNodeRole → Node
node name role = record {
  cluster = some cluster;
  configuration = configuration name role;
  use_tls = true;
}

abbrev worker : Node
worker = node (codes "n1") node_role_worker

abbrev manager : Node
manager = node (codes "n2") node_role_manager

abbrev request : Request
request = record {
  method = codes "GET";
  scheme = codes "https";
  host = codes "10.0.0.1:9001";
  path = codes "/services";
  query = codes "limit=1";
  headers = [];
  body = [];
  is_tls = true;
}

execute_operation-Delivered_example :
    Delivered
      (is_here worker (codes "n3"))
      (λ m. m.node_name == codes "n3")
      cluster
      (execute_operation_on_node worker cluster (codes "n3"))
    × Delivered
        (has_manager_role node_role_worker)
        (λ m. m.node_role == codes "manager")
        cluster
        (execute_operation_on_manager_node worker cluster)
execute_operation-Delivered_example = execute_operation-Delivered worker cluster (codes "n3")

abbrev target : ClusterMember
target = published (codes "10.0.0.2") manager.configuration

forwarded-served_here_example :
    (operation_in_cluster worker cluster request ≡ forwarded target
      → docker_operation manager (agent_http_request request target true) ≡ served_here)
    × (redirect manager (agent_http_request request target true) ≡ served_here)
    × (websocket_attach manager (websocket_request request target) ≡ served_here)
    × (websocket_exec manager (websocket_request request target) ≡ served_here)
forwarded-served_here_example =
    forwarded-served_here worker manager cluster request (codes "10.0.0.2") true
      (λ e. ground (arith, e))

agent_http_request-fields_example :
    let s = agent_http_request request target true in
    (s.method ≡ request.method)
    × (s.path ≡ request.path)
    × (s.host ≡ member_addr target)
    × (tag http_target_header_name s.headers ≡ codes "n2")
    × (s.query ≡ codes "limit=1&limit=1")
unfolding text_beq
agent_http_request-fields_example =
    agent_http_request-fields request target true http_target_header_name

-- One node answers with one container, and the other is not reached.
abbrev env : Env
env = record {
  ping_agent = λ tls m. if m.node_name == codes "n1" then some (codes "timeout") else none;
  read_body = λ m. ok [];
  do_request = λ r. ok (array (object_item ((codes "Id", codes "c1") ∷ []) ∷ []));
}

abbrev containers : Request
containers = record request { path = codes "/containers/json" }

abbrev both : List ClusterMember
both = published (codes "10.0.0.1") worker.configuration ∷ target ∷ []

abbrev members : List ClusterMember
members =
    record {
      ip_address = codes "10.0.0.1";
      port = codes "9001";
      node_name = codes "n1";
      node_role = codes "worker";
      edge_key_set = false;
    }
    ∷ record {
      ip_address = codes "10.0.0.2";
      port = codes "9001";
      node_name = codes "n2";
      node_role = codes "manager";
      edge_key_set = false;
    }
    ∷ []

-- A request with a body.
abbrev posted : Request
posted = record request { body = codes "abc" }

-- Both goroutines read of the body, and both set the host before the first one prints the URL.
abbrev crossing : List (ℕ × ℕ)
crossing = (0, 2) ∷ (1, 2) ∷ (0, 2) ∷ (1, 2) ∷ (0, 2) ∷ (1, 2) ∷ (0, 2) ∷ (1, 2) ∷ []

-- The address and the body of a copy.
abbrev shown : Goroutine → Text × Text
shown (m, copied c) = (c.host, c.body)
shown (m, _) = ([], [])

-- The request for the first member goes to the second one, and each has a part of the body.
crossing_test :
    map shown (interleave true none crossing (posted, start_goroutines members)).1
    ≡ (codes "10.0.0.2:9001", codes "ab") ∷ (codes "10.0.0.2:9001", codes "c") ∷ []
unfolding interleave turn_at turn ended start_goroutines text_beq
crossing_test = refl
