-- ===== src/Edge/Poll/Loops.antt =====
-- The loops of the poll service and of the Edge manager (edge/poll.go, edge/edge.go): the runs of an
-- Edge agent, and what the activity monitor meets in them.
use agent_portainer.Prelude.{
  ℕ, ◌-◌, ◌≡◌, ◌≢◌, inl, inr, Bool, true, false, Option, none, some, List, ltb, if◌then◌else◌, Text,
  nat_eq, text_eq, Option-cases, Result, ok, err, IfOk, and_then-IfOk,
}
use agent_portainer.Agent.{
  RuntimeConfiguration, ContainerPlatform, platform_unset, platform_docker, platform_kubernetes,
  platform_podman,
}
use agent_portainer.Edge.Stack.{EngineType}
use agent_portainer.Edge.Stack.Runner.{worker_iteration}
use agent_portainer.Edge.Stack as Stack
use agent_portainer.Edge.Poll.{
  PollService, Env, set_polling, poll, monitor_activity, reset_activity_timer,
}
use agent_portainer.Edge.Poll.Tunnel.{monitor_activity-closes}
use agent_portainer.Edge.Poll.Manager.{
  check_docker_runtime_config, kubernetes_tick, new_poll_service, PollServiceConfig,
}
use agent_portainer.Edge.Poll.Timed.{
  IsTimed, poll-IsTimed, monitor_activity-IsTimed, reset_activity_timer-IsTimed,
  check_docker_runtime_config-IsTimed, run_engine-IsTimed,
}
use agent_portainer.Edge.Poll.Manager.{
  start_edge_background_process, background_on, start_service, start_with_key, ManagerParameters,
  poll_service_config,
}
use agent_portainer.Edge.Key.{EdgeKey}
use agent_portainer.Edge.Stack.Runner.{new_world}
use mathlib.Core.Path.{subst}

-- What may happen while the agent runs: the poll loop receives from the ticker while it is polling; the
-- monitoring loop ticks; a request of the server resets the activity timer; the background process
-- asks the engine; the worker of the stacks takes a turn. What other code returns may differ each time.
pub data Step : PollService → PollService → Type 0 where
  polled : (env : Env) (s : PollService) → s.is_polling ≡ true → Step s (poll env s).1
  monitored : (env : Env) (s : PollService) → Step s (monitor_activity env s)
  used : (env : Env) (s : PollService) → Step s (reset_activity_timer env s)
  checked :
      (env : Env) (c : Result RuntimeConfiguration) (s : PollService)
      → Step s (check_docker_runtime_config env c s).1
  ticked : (env : Env) (s : PollService) → Step s (kubernetes_tick env s).1
  worked :
      (env : Env) (s : PollService)
      → Step s (record s { stack_manager = (worker_iteration env.deployment s.stack_manager).1 })

pub data Run (s : PollService) : PollService → Type 0 where
  here : Run s s
  next : {t u : PollService} → Run s t → Step t u → Run s u

Step-IsTimed : {s t : PollService} → Step s t → IsTimed s → IsTimed t
unfolding kubernetes_tick
Step-IsTimed (polled env s _) h = poll-IsTimed env s h
Step-IsTimed (monitored env s) h = monitor_activity-IsTimed env s h
Step-IsTimed (used env s) h = reset_activity_timer-IsTimed env s h
Step-IsTimed (checked env c s) h = check_docker_runtime_config-IsTimed env c s h
Step-IsTimed (ticked env s) h = run_engine-IsTimed env _ (set_polling true s) h
Step-IsTimed (worked env s) h = h

Run-IsTimed : {s t : PollService} → IsTimed s → Run s t → IsTimed t
Run-IsTimed h here = h
Run-IsTimed h (next r st) = Step-IsTimed st (Run-IsTimed h r)

new_poll_service-IsTimed :
    (parse_duration : Text → Result ℕ) (disk : List (Text × Text)) (stacks : Stack.World)
    (c : PollServiceConfig)
    → IfOk IsTimed (new_poll_service parse_duration disk stacks c)
unfolding new_poll_service
new_poll_service-IsTimed parse_duration disk stacks c =
    and_then-IfOk IsTimed (parse_duration c.poll_frequency) _ (λ frequency _.
      and_then-IfOk IsTimed (parse_duration c.inactivity_timeout) _
        (λ timeout _. capable c.tunnel_capability none))
  where
    capable : (b : Bool) (l : Option ℕ) → (if b then some false else none) ≡ some true → l ≢ none
    capable true l h = cc
    capable false l h = cc

background-IsTimed :
    (env : Env) (c : Result RuntimeConfiguration) (s : PollService)
    → IsTimed s
    → IsTimed (start_edge_background_process env c s).1
unfolding start_edge_background_process background_on
background-IsTimed env c s h = on_platform s.container_platform
  where
    on_platform : (p : ContainerPlatform) → IsTimed (background_on env p c s).1
    on_platform platform_unset = h
    on_platform platform_docker = check_docker_runtime_config-IsTimed env c s h
    on_platform platform_kubernetes = h
    on_platform platform_podman = h

-- What holds of the service, if there is one.
abbrev IfSome : (PollService → Type 0) → Option PollService → Type 0
IfSome Q none = Unit
IfSome Q (some s) = Q s

start_service-IsTimed :
    (env : Env) (c : Result RuntimeConfiguration) (r : Result PollService)
    → IfOk IsTimed r
    → IfSome IsTimed (start_service env c r).1
unfolding start_service
start_service-IsTimed env c (err x) h = tt
start_service-IsTimed env c (ok s) h = background-IsTimed env c s h

start_with_key-IsTimed :
    (env : Env) (parse_duration : Text → Result ℕ) (disk : List (Text × Text))
    (p : ManagerParameters) (c : Result RuntimeConfiguration) (key : Option EdgeKey)
    → IfSome IsTimed (start_with_key env parse_duration disk p c key).1
unfolding start_with_key
start_with_key-IsTimed env parse_duration disk p c none = tt
start_with_key-IsTimed env parse_duration disk p c (some key) =
    start_service-IsTimed env c
      (new_poll_service parse_duration disk (new_world p.assets_path) (poll_service_config p key))
      (new_poll_service-IsTimed parse_duration disk _ _)

-- What a tick of the monitoring loop does.
abbrev pub Monitored : Env → PollService → Type 0
Monitored env t =
    (last : ℕ) × (t.last_activity ≡ some last)
    × (monitor_activity env t ≡ (
        if ltb t.inactivity_timeout (env.now - last) then record t { tunnel = some false } else t))

timed-Monitored :
    (env : Env) (t : PollService) → t.tunnel ≡ some true → t.last_activity ≢ none → Monitored env t
timed-Monitored env t is_open timed = elim (Option-cases t.last_activity) [
  | inl e ↦ absurd (timed e)
  | inr (last, e) ↦ (last, e, monitor_activity-closes env t last e is_open)
]

-- Over every run of an Edge agent that has started with its key, its polls, ticks, requests and turns
-- of the worker in any order, an open tunnel has a last activity, and a tick of the monitoring loop
-- closes the tunnel exactly if that was longer ago than the timeout, and does nothing else.
pub run-Monitored :
    (env start_env : Env) (parse_duration : Text → Result ℕ) (disk : List (Text × Text))
    (p : ManagerParameters) (c : Result RuntimeConfiguration) (key : Option EdgeKey)
    {s t : PollService}
    → (start_with_key start_env parse_duration disk p c key).1 ≡ some s
    → Run s t
    → t.tunnel ≡ some true
    → Monitored env t
run-Monitored env start_env parse_duration disk p c key {s} {t} started run is_open =
    let timed =
      subst (IfSome IsTimed) started
        (start_with_key-IsTimed start_env parse_duration disk p c key) in
    timed-Monitored env t is_open (Run-IsTimed timed run is_open)
