-- ===== src/Docker/Role.antt =====
-- The role of a node of a swarm (docker/docker.go).
use agent_portainer.Prelude.{◌≢◌, [], ◌==◌, nat_eq, text_eq, by_test, by_test, IfOk, and_then-IfOk}
use agent_portainer.Agent.{
  role_unset, node_role_worker, node_role_manager, RuntimeConfiguration, DockerEngineStatus,
  DockerNodeRole, engine_status_swarm,
}
use agent_portainer.Docker.{
  Engine, DockerInfo, named, get_runtime_configuration_from_docker_engine, configuration_of,
  get_swarm_configuration, get_standalone_configuration,
}

-- An agent of a swarm knows its role.
abbrev pub HasRole : DockerEngineStatus → DockerNodeRole → Type 0
HasRole engine_status_swarm role = role ≢ role_unset
HasRole _ role = Unit

abbrev pub KnowsRole : RuntimeConfiguration → Type 0
KnowsRole c = HasRole c.docker_configuration.engine_status c.docker_configuration.node_role

worker_set : node_role_worker ≢ role_unset
worker_set e = cc

manager_set : node_role_manager ≢ role_unset
manager_set e = cc

get_swarm_configuration-KnowsRole :
    (engine : Engine) (info : DockerInfo) (c : RuntimeConfiguration)
    → IfOk KnowsRole (get_swarm_configuration engine info c)
unfolding get_swarm_configuration
get_swarm_configuration-KnowsRole engine info c =
    by_test (IfOk KnowsRole) info.control_available
      (λ _.
        and_then-IfOk KnowsRole (engine.node_is_leader info.swarm_node_id) _
          (λ leader _. manager_set))
      (λ _. worker_set)

configuration_of-KnowsRole :
    (engine : Engine) (info : DockerInfo) → IfOk KnowsRole (configuration_of engine info)
unfolding configuration_of get_standalone_configuration
configuration_of-KnowsRole engine info =
    by_test (IfOk KnowsRole) (info.swarm_node_id == []) (λ _. tt)
      (λ _. get_swarm_configuration-KnowsRole engine info (named info.name))

pub configuration-KnowsRole :
    (engine : Engine) → IfOk KnowsRole (get_runtime_configuration_from_docker_engine engine)
unfolding get_runtime_configuration_from_docker_engine
configuration-KnowsRole engine = and_then-IfOk KnowsRole engine.client _ (λ _ _.
    and_then-IfOk KnowsRole engine.info _ (λ info _. configuration_of-KnowsRole engine info))
