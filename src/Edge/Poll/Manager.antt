-- ===== src/Edge/Poll/Manager.antt =====
-- The Edge manager over the polling (edge/edge.go): what it starts, and what its background process
-- starts and stops.
use agent_portainer.Prelude.{
  ℕ, ◌≡◌, refl, Bool, true, false, not, ◌||◌, Option, none, some, List, [], ◌++◌, if◌then◌else◌,
  Text, codes, nat_eq, text_eq, Result, ok, err, Method, ◌>>◌, modify, and_then,
}
use agent_portainer.Agent.{
  ContainerPlatform, platform_docker, platform_kubernetes, RuntimeConfiguration,
}
use agent_portainer.Edge.Key.{EdgeKey}
use agent_portainer.Edge.Scheduler.{new_cron_manager}
use agent_portainer.Edge.Stack.{EngineType, docker_standalone, docker_swarm, kubernetes}
use agent_portainer.Edge.Stack as Stack
use agent_portainer.Edge.Stack.Runner.{set_engine_status, stop, new_world}
use agent_portainer.Edge.Poll.{
  PollService, Env, P, set_polling, is_swarm, engine_type_of, start_stacks,
}

module _ (env : Env) where
  -- A call of the stack manager.
  unfoldable pub on_stacks : Method Stack.World (Unit {0}) → P (Unit {0})
  on_stacks call s = let (r, w) = call s.stack_manager in (r, record s { stack_manager = w })

  -- Setting the engine and starting the stack manager.
  unfoldable pub run_engine : EngineType → P (Unit {0})
  unfolding on_stacks
  run_engine engine = do on_stacks (set_engine_status env.deployment engine); modify start_stacks

  -- `checkDockerRuntimeConfig` by the engine's status and whether this node leads the swarm.
  unfoldable pub follow : Bool → Bool → P (Unit {0})
  unfolding run_engine
  follow swarm leader s =
      if not swarm || leader
      then run_engine (engine_type_of swarm) (set_polling true s)
      else (ok tt, record s { is_polling = false; stack_manager = stop s.stack_manager })

  unfoldable pub check_docker_runtime_config : Result RuntimeConfiguration → P (Unit {0})
  unfolding follow
  check_docker_runtime_config (err x) s = (err x, s)
  check_docker_runtime_config (ok c) s =
      follow (is_swarm c.docker_configuration.engine_status) c.docker_configuration.leader s

  -- The cases of `startEdgeBackgroundProcess`. There is none for Podman.
  unfoldable pub background_on : ContainerPlatform → Result RuntimeConfiguration → P (Unit {0})
  unfolding check_docker_runtime_config
  background_on platform_docker c s = check_docker_runtime_config c s
  background_on platform_kubernetes c s = (ok tt, set_polling true s)
  background_on _ c s = (ok tt, s)

  -- `startEdgeBackgroundProcess`, whose parse of the constant interval succeeds, up to the goroutines
  -- that it starts.
  unfoldable pub start_edge_background_process : Result RuntimeConfiguration → P (Unit {0})
  unfolding background_on
  start_edge_background_process c s = background_on s.container_platform c s

  -- A tick of the background process on Kubernetes.
  unfoldable pub kubernetes_tick : P (Unit {0})
  unfolding run_engine
  kubernetes_tick s = run_engine kubernetes (set_polling true s)

-- The configuration of the poll service, less what only the request to the server, a parameter here,
-- reads: the URL, the environment and whether its certificate is checked. Durations are texts.
pub record PollServiceConfig : Type 0 where
  pub api_server_addr : Text
  pub edge_id : Text
  pub inactivity_timeout : Text
  pub poll_frequency : Text
  pub tunnel_capability : Bool
  pub tunnel_server_addr : Text
  pub tunnel_server_fingerprint : Text
  pub container_platform : ContainerPlatform

-- `newPollService`, whose two loops start without polling. A frequency of zero would panic in the
-- making of the ticker; the manager's is a constant. `parse_duration` reads a duration, in
-- seconds; `disk` is the disk of the scheduler.
unfoldable pub new_poll_service :
    (Text → Result ℕ) → List (Text × Text) → Stack.World → PollServiceConfig → Result PollService
new_poll_service parse_duration disk stacks c =
    and_then (parse_duration c.poll_frequency) (λ frequency.
      and_then (parse_duration c.inactivity_timeout) (λ timeout. ok (record {
        container_platform = c.container_platform;
        edge_id = c.edge_id;
        api_server_addr = c.api_server_addr;
        tunnel_server_addr = c.tunnel_server_addr;
        tunnel_server_fingerprint = c.tunnel_server_fingerprint;
        poll_interval = frequency;
        client_timeout = none;
        is_polling = false;
        tunnel = if c.tunnel_capability then some false else none;
        last_activity = none;
        inactivity_timeout = timeout;
        scheduler = record { manager = new_cron_manager; disk = disk };
        stack_manager = stacks;
        log_requests = [];
      })))

-- The options of the agent and the address that it advertises, as the manager reads them.
pub record ManagerParameters : Type 0 where
  pub advertise_addr : Text
  pub agent_server_port : Text
  pub edge_id : Text
  pub edge_inactivity_timeout : Text
  pub edge_tunnel : Bool
  pub assets_path : Text
  pub container_platform : ContainerPlatform

abbrev pub default_edge_poll_interval : Text
default_edge_poll_interval = codes "5s"

abbrev pub poll_service_config : ManagerParameters → EdgeKey → PollServiceConfig
poll_service_config p key = record {
  api_server_addr = p.advertise_addr ++ codes ":" ++ p.agent_server_port;
  edge_id = p.edge_id;
  inactivity_timeout = p.edge_inactivity_timeout;
  poll_frequency = default_edge_poll_interval;
  tunnel_capability = p.edge_tunnel;
  tunnel_server_addr = key.tunnel_server_addr;
  tunnel_server_fingerprint = key.tunnel_server_fingerprint;
  container_platform = p.container_platform;
}

-- The poll service is set before the background process is started.
unfoldable pub start_service :
    Env → Result RuntimeConfiguration → Result PollService → Result (Unit {0}) × Option PollService
unfolding start_edge_background_process
start_service env c (err x) = (err x, none)
start_service env c (ok s) = (let (r, t) = start_edge_background_process env c s in (r, some t))

-- `Start`, for the key, if it is set, and what the Docker engine says.
unfoldable pub start_with_key :
    Env
    → (Text → Result ℕ)
    → List (Text × Text)
    → ManagerParameters
    → Result RuntimeConfiguration
    → Option EdgeKey
    → Result (Unit {0}) × Option PollService
unfolding start_service new_poll_service
start_with_key env parse_duration disk p c none =
    (err (codes "unable to start Edge manager without key"), none)
start_with_key env parse_duration disk p c (some key) =
    start_service env c
      (new_poll_service parse_duration disk (new_world p.assets_path) (poll_service_config p key))

-- A manager whose inactivity timeout is no duration does not start, and has no poll service.
start_timeout_unread :
    (env : Env) (parse_duration : Text → Result ℕ) (disk : List (Text × Text))
    (p : ManagerParameters) (c : Result RuntimeConfiguration) (key : EdgeKey) (n : ℕ) (x : Text)
    → parse_duration default_edge_poll_interval ≡ ok n
    → parse_duration p.edge_inactivity_timeout ≡ err x
    → start_with_key env parse_duration disk p c (some key) ≡ (err x, none)
unfolding start_with_key start_service new_poll_service and_then
start_timeout_unread env parse_duration disk p c key n x frequency timeout =
    rw frequency (rw timeout refl)
