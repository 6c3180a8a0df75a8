-- ===== src/Docker.antt =====
-- What the Docker engine says of this node and of the agent's container (docker/docker.go). The calls
-- of the client are parameters.
pub mod Role
use agent_portainer.Prelude.{
  ℕ, zero, suc, ◌+◌, ◌-◌, ◌*◌, ◌/◌, ◌%◌, ◌≤◌, ◌<◌, ◌≡◌, refl, sym, ap, ◌∙◌, ◌≢◌, ◌↔◌, ◌⊎◌, inl, inr,
  Bool, true, false, not, ◌&&◌, ◌||◌, Option, none, some, List, [], ◌∷◌, ◌++◌, map, arith, ltb, leb,
  if◌then◌else◌, nat_beq, nat_beq_iff, Text, codes, text_beq, text_beq_iff, Equality, ◌==◌, nat_eq,
  text_eq, Bool-cases, by_test, Option-cases, length, length-append, All, All-append, lookup,
  insert, erase, has_key, lookup-insert, lookup-erase, has_key-insert, has_key-erase,
  has_key-lookup, beq_refl, itoa, itoa-All, has_prefix, strip_prefix, contains, split_by, split,
  drop_empty, fields_by, join, Lacks, split-join, join-split, split_by-skip, split_by-cut,
  split_by-nil, split_by-whole, split_by-append, by_test, Result, ok, err, Method, >>-keeps,
  >>-eq-ok, ◌>>=◌, ◌>>◌, return, lift, get, modify, Result-cases, take, drop, itoa-cons, IsDigit,
  is_digit, ℤ, pos, negsuc, atoi, atoi-itoa, itoa-IsDigit, int_bound, range_error, syntax_error,
  and_then, IfOk, and_then-IfOk,
}
use agent_portainer.Agent.{
  status_unset, engine_status_standalone, engine_status_swarm, role_unset, node_role_manager,
  node_role_worker, RuntimeConfiguration, DockerRuntimeConfiguration,
}

pub record DockerInfo : Type 0 where
  pub name : Text
  pub swarm_node_id : Text
  pub control_available : Bool

pub record Network : Type 0 where
  pub ingress : Bool
  pub scope : Text

pub record EndpointSettings : Type 0 where
  pub network_id : Text
  pub ip_address : Text

pub record Container : Type 0 where
  pub networks : List (Text × EndpointSettings)
  pub labels : List (Text × Text)

-- The client and its calls: `NewClientWithOpts`, `Info`, whether `NodeInspectWithRaw` names the node
-- as the leader, `ContainerInspect` and `NetworkInspect`.
pub record Engine : Type 0 where
  pub client : Result (Unit {0})
  pub info : Result DockerInfo
  pub node_is_leader : Text → Result Bool
  pub container_inspect : Text → Result Container
  pub network_inspect : Text → Result Network

abbrev pub service_name_label : Text
service_name_label = codes "com.docker.swarm.service.name"

-- The configuration of a node with a name, of which nothing else is known yet.
abbrev pub named : Text → RuntimeConfiguration
named name = record {
  agent_port = [];
  edge_key_set = false;
  node_name = name;
  docker_configuration = record {
    engine_status = status_unset;
    leader = false;
    node_role = role_unset;
  };
}

abbrev pub with_docker : DockerRuntimeConfiguration → RuntimeConfiguration → RuntimeConfiguration
with_docker d c = record c { docker_configuration = d }

unfoldable pub get_standalone_configuration : RuntimeConfiguration → RuntimeConfiguration
get_standalone_configuration c =
    with_docker (record (c.docker_configuration) { engine_status = engine_status_standalone }) c

abbrev pub as_worker : RuntimeConfiguration → RuntimeConfiguration
as_worker c =
    with_docker
      (record (c.docker_configuration) {
        engine_status = engine_status_swarm;
        node_role = node_role_worker;
      })
      c

abbrev pub as_manager : Bool → RuntimeConfiguration → RuntimeConfiguration
as_manager leader c =
    with_docker
      (record (c.docker_configuration) {
        engine_status = engine_status_swarm;
        node_role = node_role_manager;
        leader = if leader then true else c.docker_configuration.leader;
      })
      c

unfoldable pub get_swarm_configuration :
    Engine → DockerInfo → RuntimeConfiguration → Result RuntimeConfiguration
get_swarm_configuration engine info c =
    if info.control_available
    then and_then (engine.node_is_leader info.swarm_node_id) (λ leader. ok (as_manager leader c))
    else ok (as_worker c)

unfoldable pub configuration_of : Engine → DockerInfo → Result RuntimeConfiguration
unfolding get_swarm_configuration get_standalone_configuration
configuration_of engine info =
    if info.swarm_node_id == []
    then ok (get_standalone_configuration (named info.name))
    else get_swarm_configuration engine info (named info.name)

unfoldable pub get_runtime_configuration_from_docker_engine : Engine → Result RuntimeConfiguration
unfolding configuration_of
get_runtime_configuration_from_docker_engine engine =
    and_then engine.client (λ _. and_then engine.info (configuration_of engine))

-- Whether a network is passed over.
abbrev pub is_skipped : Bool → Network → Bool
is_skipped ignore_non_swarm n = n.ingress || (ignore_non_swarm && not (n.scope == codes "swarm"))

abbrev pub no_address : Text
no_address =
    codes
      "unable to retrieve the address on which the agent can advertise. Check your network settings"

-- The loop over the networks of the container.
unfoldable pub first_address : Engine → Bool → List (Text × EndpointSettings) → Result Text
first_address engine ignore [] = err no_address
first_address engine ignore ((name, e) ∷ networks) =
    let rest = first_address engine ignore networks in
    and_then (engine.network_inspect e.network_id) (λ n.
      if is_skipped ignore n
      then rest
      else if not (e.ip_address == [])
      then ok e.ip_address
      else rest)

unfoldable pub get_container_ip_from_docker_engine : Engine → Text → Bool → Result Text
unfolding first_address
get_container_ip_from_docker_engine engine container ignore = and_then engine.client (λ _.
    and_then (engine.container_inspect container) (λ c. first_address engine ignore c.networks))

abbrev pub text_or_empty : Option Text → Text
text_or_empty none = []
text_or_empty (some t) = t

pub get_service_name_from_docker_engine : Engine → Text → Result Text
get_service_name_from_docker_engine engine container = and_then engine.client (λ _.
    and_then (engine.container_inspect container)
      (λ c. ok (text_or_empty (lookup service_name_label c.labels))))
