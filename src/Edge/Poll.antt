-- ===== src/Edge/Poll.antt =====
-- The polling of the Portainer server (edge/poll.go) and the reverse tunnel (chisel/client.go).
pub mod Manager
mod Tunnel
mod Background
mod Timed
mod Loops
mod Tests
use agent_portainer.Prelude.{
  ℕ, zero, suc, ◌+◌, ◌-◌, ◌*◌, ◌/◌, ◌%◌, ◌≤◌, ◌<◌, ◌≡◌, refl, sym, ap, ◌∙◌, ◌≢◌, ◌↔◌, ◌⊎◌, inl, inr,
  Bool, true, false, not, ◌&&◌, ◌||◌, Option, none, some, List, [], ◌∷◌, ◌++◌, map, arith, ltb, leb,
  if◌then◌else◌, nat_beq, nat_beq_iff, Text, codes, text_beq, text_beq_iff, Equality, ◌==◌, nat_eq,
  text_eq, Bool-cases, by_test, Option-cases, length, length-append, All, All-append, lookup,
  insert, erase, has_key, lookup-insert, lookup-erase, has_key-insert, has_key-erase,
  has_key-lookup, beq_refl, itoa, itoa-All, has_prefix, strip_prefix, contains, split_by, split,
  drop_empty, fields_by, join, Lacks, split-join, join-split, split_by-skip, split_by-cut,
  split_by-nil, split_by-whole, split_by-append, by_test, Result, ok, err, Method, >>-keeps,
  >>-eq-ok, ◌>>=◌, ◌>>◌, return, lift, get, modify, Result-cases, take, drop, itoa-cons, IsDigit,
  is_digit, ℤ, pos, negsuc, atoi, atoi-itoa, itoa-IsDigit, int_bound, range_error, syntax_error,
  and_then, IfOk, and_then-IfOk,
}
use agent_portainer.Agent.{
  Schedule, TunnelConfig, ContainerPlatform, platform_unset, platform_docker, platform_kubernetes,
  platform_podman, RuntimeConfiguration, DockerEngineStatus, engine_status_swarm,
}
use agent_portainer.Base64.{decode_string}
use agent_portainer.Edge.Scheduler.{schedule}
use agent_portainer.Edge.Scheduler.Logs.{handle_received_logs_requests}
use agent_portainer.Edge.Scheduler as Scheduler
use agent_portainer.Edge.Stack.{
  update_stacks_status, EngineType, docker_standalone, docker_swarm, kubernetes,
}
use agent_portainer.Edge.Stack as Stack
use agent_portainer.Edge.Stack.Runner.{set_engine_status, start, stop}

pub record StackStatus : Type 0 where
  pub id : ℕ
  pub version : ℕ

-- Numbers of seconds are whole here.
pub record PollStatusResponse : Type 0 where
  pub status : Text
  pub port : ℕ
  pub schedules : List Schedule
  pub checkin_interval : ℕ
  pub credentials : Text
  pub stacks : Option (List StackStatus)

pub record HttpResponse : Type 0 where
  pub status_code : ℕ
  pub decoded : Result PollStatusResponse

-- The service with the parts that it drives. `tunnel` is there with the tunnel capability and tells
-- whether the tunnel is open; `is_polling` is whether the loop receives from the ticker.
pub record PollService : Type 0 where
  pub container_platform : ContainerPlatform
  pub edge_id : Text
  pub api_server_addr : Text
  pub tunnel_server_addr : Text
  pub tunnel_server_fingerprint : Text
  pub poll_interval : ℕ
  pub client_timeout : Option ℕ
  pub is_polling : Bool
  pub tunnel : Option Bool
  pub last_activity : Option ℕ
  pub inactivity_timeout : ℕ
  pub scheduler : Scheduler.World
  pub stack_manager : Stack.World
  pub log_requests : List (List ℕ)

-- What the calls of other code return: the request to the server, `libcrypto.Decrypt`, the chisel
-- client and the calls of the parts that are driven. `now` is the time, in seconds.
pub record Env : Type 0 where
  pub do_request : Text → Result HttpResponse
  pub decrypt : Text → Text → Result Text
  pub new_client : TunnelConfig → Result (Unit {0})
  pub start_client : TunnelConfig → Result (Unit {0})
  pub close_client : Result (Unit {0})
  pub now : ℕ
  pub scheduling : Scheduler.Env
  pub deployment : Stack.Env

abbrev pub P : Type 0 → Type 0
P A = Method PollService A

-- The platform that the server is told.
pub platform_number : ContainerPlatform → ℕ
platform_number platform_unset = 0
platform_number platform_docker = 1
platform_number platform_kubernetes = 2
platform_number platform_podman = 3

pub agent_platform_identifier : ContainerPlatform → ContainerPlatform
agent_platform_identifier platform_podman = platform_docker
agent_platform_identifier p = p

-- `IsTunnelOpen`, false without the capability.
pub is_tunnel_open : Option Bool → Bool
is_tunnel_open none = false
is_tunnel_open (some is_open) = is_open

abbrev pub set_tunnel : Bool → PollService → PollService
set_tunnel is_open s = record s { tunnel = some is_open }

abbrev pub set_polling : Bool → PollService → PollService
set_polling on s = record s { is_polling = on }

abbrev pub is_swarm : DockerEngineStatus → Bool
is_swarm engine_status_swarm = true
is_swarm _ = false

abbrev pub engine_type_of : Bool → EngineType
engine_type_of true = docker_swarm
engine_type_of false = docker_standalone

abbrev pub start_stacks : PollService → PollService
start_stacks s = record s { stack_manager = start s.stack_manager }

module _ (env : Env) where
  -- `resetActivityTimer`: the monitoring loop receives the signal and sets the time.
  pub reset_activity_timer : PollService → PollService
  unfolding is_tunnel_open
  reset_activity_timer s =
      if is_tunnel_open s.tunnel then record s { last_activity = some env.now } else s

  -- `CreateTunnel` of the chisel client.
  pub create_client : TunnelConfig → P (Unit {0})
  create_client config = do
    lift (env.new_client config)
    lift (env.start_client config)
    modify (set_tunnel true)

  -- `CloseTunnel`: the tunnel counts as closed whatever closing the client returns.
  pub close_tunnel : P (Unit {0})
  close_tunnel = do modify (set_tunnel false); lift env.close_client

  pub tunnel_config : PollService → Text → ℕ → TunnelConfig
  tunnel_config s credentials port = record {
    server_addr = s.tunnel_server_addr;
    server_fingerprint = s.tunnel_server_fingerprint;
    remote_port = itoa port;
    local_addr = s.api_server_addr;
    credentials = credentials;
  }

  -- `createTunnel`, from its end: after the client is created, with the decrypted credentials, and
  -- with the decoded ones.
  pub after_create : Result (Unit {0}) × PollService → Result (Unit {0}) × PollService
  unfolding reset_activity_timer
  after_create (err x, s) = (err x, s)
  after_create (ok _, s) = (ok tt, reset_activity_timer s)

  pub create_with_credentials : Result Text → ℕ → P (Unit {0})
  unfolding create_client tunnel_config after_create
  create_with_credentials (err x) port s = (err x, s)
  create_with_credentials (ok credentials) port s =
      after_create (create_client (tunnel_config s credentials port) s)

  pub create_with_decoded : Result Text → ℕ → P (Unit {0})
  unfolding create_with_credentials
  create_with_decoded (err x) port s = (err x, s)
  create_with_decoded (ok decoded) port s =
      create_with_credentials (env.decrypt decoded s.edge_id) port s

  pub create_tunnel : Text → ℕ → P (Unit {0})
  unfolding create_with_decoded
  create_tunnel encoded port s = create_with_decoded (decode_string encoded) port s

  -- The first test of the tunnel's part of `poll`; the error of closing is logged only.
  pub close_if_idle : Text → PollService → PollService
  unfolding close_tunnel is_tunnel_open
  close_if_idle status s =
      if status == codes "IDLE" && is_tunnel_open s.tunnel then (close_tunnel s).1 else s

  -- The second one.
  pub open_if_required : PollStatusResponse → P (Unit {0})
  unfolding create_tunnel is_tunnel_open
  open_if_required r s =
      if r.status == codes "REQUIRED" && not (is_tunnel_open s.tunnel)
      then create_tunnel r.credentials r.port s
      else (ok tt, s)

  pub update_tunnel_with : Option Bool → PollStatusResponse → P (Unit {0})
  unfolding close_if_idle open_if_required
  update_tunnel_with none r s = (ok tt, s)
  update_tunnel_with (some is_open) r s = open_if_required r (close_if_idle r.status s)

  pub update_tunnel : PollStatusResponse → P (Unit {0})
  unfolding update_tunnel_with
  update_tunnel r s = update_tunnel_with s.tunnel r s

  -- The identifiers of the schedules whose logs are wanted.
  pub logs_to_collect : List Schedule → List ℕ
  logs_to_collect [] = []
  logs_to_collect (s ∷ ss) =
      let rest = logs_to_collect ss in if s.collect_logs then s.id ∷ rest else rest

  -- The schedules and the logs; an error of the scheduler is logged only.
  pub update_schedules : PollStatusResponse → PollService → PollService
  unfolding logs_to_collect
  update_schedules r s = record s {
    scheduler = (schedule env.scheduling r.schedules s.scheduler).1;
    log_requests = s.log_requests ++ handle_received_logs_requests (logs_to_collect r.schedules);
  }

  -- `Reset` of the ticker, which panics for 0. A panic is an error here, after which nothing runs.
  pub reset_ticker : ℕ → Result (Unit {0})
  reset_ticker zero = err (codes "panic: non-positive interval for Ticker.Reset")
  reset_ticker (suc n) = ok tt

  pub update_interval : PollStatusResponse → P (Unit {0})
  unfolding reset_ticker
  update_interval r s = if r.checkin_interval == s.poll_interval then (ok tt, s) else (
    reset_ticker r.checkin_interval,
    record s { poll_interval = r.checkin_interval; client_timeout = some r.checkin_interval },
  )

  -- The map that is built from the list of stacks.
  pub stack_versions : List StackStatus → List (ℕ × ℕ) → List (ℕ × ℕ)
  stack_versions [] m = m
  stack_versions (s ∷ ss) m = stack_versions ss (insert s.id s.version m)

  pub update_stacks_of : Option (List StackStatus) → P (Unit {0})
  unfolding stack_versions
  update_stacks_of none s = (ok tt, s)
  update_stacks_of (some stacks) s =
      let (r, w) = update_stacks_status env.deployment (stack_versions stacks []) s.stack_manager in
      (r, record s { stack_manager = w })

  -- `poll` from the decoded response on.
  pub handle_response : PollStatusResponse → P (Unit {0})
  unfolding update_tunnel update_schedules update_interval update_stacks_of
  handle_response r = do
    update_tunnel r
    modify (update_schedules r)
    update_interval r
    update_stacks_of r.stacks

  -- The default of five seconds for the first request.
  pub ensure_client : PollService → PollService
  ensure_client s = elim s.client_timeout [
    | none ↦ record s { client_timeout = some 5 }
    | some t ↦ s
  ]

  pub response_data : HttpResponse → Result PollStatusResponse
  response_data r =
      if r.status_code == 200 then r.decoded else err (codes "short poll request failed")

  pub poll : P (Unit {0})
  unfolding ensure_client response_data handle_response platform_number agent_platform_identifier
  poll = do
    modify ensure_client
    s ← get
    response ←
        lift
          (env.do_request (itoa (platform_number (agent_platform_identifier s.container_platform))))
    r ← lift (response_data response)
    handle_response r

  -- A tick of the activity monitoring loop; the error of closing is logged only.
  pub check_activity : Option ℕ → PollService → PollService
  unfolding is_tunnel_open close_tunnel
  check_activity none s = s
  check_activity (some last) s =
      if is_tunnel_open s.tunnel && ltb s.inactivity_timeout (env.now - last)
      then (close_tunnel s).1
      else s

  pub monitor_activity : PollService → PollService
  unfolding check_activity
  monitor_activity s = check_activity s.last_activity s
