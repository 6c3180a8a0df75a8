-- ===== src/Edge/Poll/Tests.antt =====
-- Polling at concrete inputs (edge/poll.go, edge/edge.go).
use agent_portainer.Prelude.{
  ℕ, ◌≡◌, refl, Bool, true, false, none, some, [], if◌then◌else◌, Text, codes, text_beq, ◌==◌,
  nat_eq, text_eq, Result, ok, err, and_then,
}
use agent_portainer.Agent.{
  ContainerPlatform, platform_docker, platform_kubernetes, RuntimeConfiguration,
  engine_status_swarm, node_role_manager,
}
use agent_portainer.Edge.Scheduler.{new_cron_manager}
use agent_portainer.Edge.Stack.Runner.{new_world}
use agent_portainer.Edge.Poll.{
  PollStatusResponse, PollService, Env, update_tunnel, handle_response, poll, ensure_client,
  response_data, update_tunnel_with, close_if_idle, open_if_required, create_tunnel,
  create_with_decoded, create_with_credentials, create_client, after_create, reset_activity_timer,
  update_schedules, update_interval, update_stacks_of, is_tunnel_open,
}
use agent_portainer.Edge.Poll.Manager.{
  ManagerParameters, start_with_key, start_service, new_poll_service, start_edge_background_process,
  background_on,
}
use agent_portainer.Edge.Poll.Loops.{Monitored, run-Monitored, next, here, polled}
use agent_portainer.Edge.Key.{EdgeKey}
use agent_portainer.Base64.{decode_string}
use agent_portainer.Edge.Poll.Tunnel.{Handled, handle_response-Handled}

-- A tunnel server that refuses the client, and everything else succeeding.
abbrev env : Env
env = record {
  do_request = λ p. err (codes "offline");
  decrypt = λ text key. ok text;
  new_client = λ c. ok tt;
  start_client = λ c. err (codes "refused");
  close_client = ok tt;
  now = 1000;
  scheduling = record { write_file = λ a b c. ok tt; torn = λ p d. d; remove_file = λ p. ok tt };
  deployment = record {
    get_edge_stack_config =
        λ i. ok (record { name = codes "web"; file_content = codes "services: {}" });
    write_file = λ a b c. ok tt;
    set_edge_stack_status = λ i status message. ok tt;
    run_deploy = λ d a b. ok tt;
    run_remove = λ d a b. ok tt;
    remove_file = λ a. ok tt;
    new_compose_deployer = λ a. ok tt;
  };
}

abbrev service : Bool → ContainerPlatform → PollService
service tunnel platform = record {
  container_platform = platform;
  edge_id = codes "edge";
  api_server_addr = codes "10.0.0.1:9001";
  tunnel_server_addr = codes "a";
  tunnel_server_fingerprint = codes "b";
  poll_interval = 5;
  client_timeout = none;
  is_polling = false;
  tunnel = some tunnel;
  last_activity = some 600;
  inactivity_timeout = 300;
  scheduler = record { manager = new_cron_manager; disk = [] };
  stack_manager = new_world (codes "/app");
  log_requests = [];
}

abbrev required : PollStatusResponse
required = record {
  status = codes "REQUIRED";
  port = 8000;
  schedules = [];
  checkin_interval = 5;
  credentials = codes "ZWNobw";
  stacks = none;
}

handle_response-Handled_example :
    Handled required false
      (service false platform_docker)
      (update_tunnel env required (service false platform_docker))
      (handle_response env required (service false platform_docker))
handle_response-Handled_example =
    handle_response-Handled env required (service false platform_docker) false refl

abbrev configuration : RuntimeConfiguration
configuration = record {
  agent_port = codes "9001";
  edge_key_set = true;
  node_name = codes "n1";
  docker_configuration = record {
    engine_status = engine_status_swarm;
    leader = false;
    node_role = node_role_manager;
  };
}

-- A server that requires a tunnel, and a tunnel server that takes the client.
abbrev requiring : Env
requiring = record env {
  do_request = λ p. ok (record { status_code = 200; decoded = ok required });
  start_client = λ c. ok tt;
}

-- The same, ten minutes later.
abbrev later : Env
later = record requiring { now = 1600 }

-- Durations of five seconds and of five minutes.
abbrev seconds : Text → Result ℕ
seconds t = if t == codes "5s" then ok 5 else ok 300

abbrev parameters : ManagerParameters
parameters = record {
  advertise_addr = codes "10.0.0.1";
  agent_server_port = codes "9001";
  edge_id = codes "edge";
  edge_inactivity_timeout = codes "5m";
  edge_tunnel = true;
  assets_path = codes "/app";
  container_platform = platform_kubernetes;
}

abbrev edge_key : EdgeKey
edge_key = record {
  portainer_instance_url = codes "http";
  tunnel_server_addr = codes "a";
  tunnel_server_fingerprint = codes "b";
  endpoint_id = codes "1";
}

abbrev started : PollService
started = record (service false platform_kubernetes) { is_polling = true; last_activity = none }

started_lem :
    (start_with_key env seconds [] parameters (err (codes "unused")) (some edge_key)).1
    ≡ some started
unfolding start_with_key start_service new_poll_service start_edge_background_process background_on
    and_then text_beq
started_lem = refl

polled_opens : (poll requiring started).1.tunnel ≡ some true
unfolding poll handle_response ensure_client response_data update_tunnel update_tunnel_with
    close_if_idle open_if_required create_tunnel create_with_decoded create_with_credentials
    create_client after_create reset_activity_timer update_schedules update_interval
    update_stacks_of decode_string is_tunnel_open text_beq
polled_opens = refl

run-Monitored_example : Monitored later (poll requiring started).1
run-Monitored_example =
    run-Monitored later env seconds [] parameters (err (codes "unused")) (some edge_key) started_lem
      (next here (polled requiring started refl)) polled_opens
