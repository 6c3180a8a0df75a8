-- ===== src/Edge/Poll/Background.antt =====
-- What the background process of the Edge manager starts and stops (edge/edge.go).
use agent_portainer.Edge.Stack.Runner.Signals.{closed_after, Switched, Stopped}
use agent_portainer.Prelude.{
  ℕ, ◌+◌, ◌≡◌, ap, ◌≢◌, ◌⊎◌, Bool, true, false, not, ◌||◌, none, some, List, if◌then◌else◌, nat_eq,
  text_eq, Result, ok, err,
}
use agent_portainer.Agent.{platform_kubernetes, platform_podman, RuntimeConfiguration}
use agent_portainer.Edge.Poll.{PollService, Env, is_swarm, set_polling}
use agent_portainer.Edge.Poll.Manager.{start_edge_background_process, background_on}
use agent_portainer.Edge.Stack.{EngineType, docker_swarm, docker_standalone}
use agent_portainer.Edge.Stack as Stack

-- Whether this node works for the swarm, or stands alone.
abbrev pub is_active : RuntimeConfiguration → Bool
is_active c = not (is_swarm c.docker_configuration.engine_status) || c.docker_configuration.leader

-- The engine that the stacks are deployed on.
abbrev pub engine_of : RuntimeConfiguration → EngineType
engine_of c =
    if is_swarm c.docker_configuration.engine_status then docker_swarm else docker_standalone

-- A new worker: the manager is enabled and waits on a new channel, and so many channels are closed.
abbrev pub HasNewWorker : List ℕ → Stack.World → Stack.World → Type 0
HasNewWorker closed w t =
    (t.manager.is_enabled ≡ true)
    × (t.manager.stop_signal ≡ some w.next_channel)
    × (t.workers ≡ w.workers + 1)
    × (t.closed ≡ closed)

-- The stack manager runs on the engine: it ran there before and is as it was, or it has a new worker,
-- the channel of the one before being closed. If the engine cannot be set, it has no channel.
abbrev pub RunsOn : EngineType → Stack.World → Result (Unit {0}) × Stack.World → Type 0
RunsOn e w (ok _, t) =
    (t.manager.engine_type ≡ e)
    × (((w.manager.engine_type ≡ e) × (w.manager.stop_signal ≢ none) × (t ≡ w))
        ⊎ HasNewWorker (closed_after w.manager.stop_signal w) w t)
RunsOn e w (err x, t) = Switched e w t

abbrev pub Followed : Bool → EngineType → PollService → Result (Unit {0}) × PollService → Type 0
Followed true e s (r, t) = (t.is_polling ≡ true) × RunsOn e s.stack_manager (r, t.stack_manager)
Followed false e s (r, t) =
    (t.is_polling ≡ false) × (r ≡ ok tt) × Stopped s.stack_manager t.stack_manager

-- On Podman, the background process succeeds without starting anything, so the server is never polled;
-- on Kubernetes it polls at once.
pub start_edge_background_process-podman :
    (env : Env) (c : Result RuntimeConfiguration) (s : PollService)
    → (s.container_platform ≡ platform_podman → start_edge_background_process env c s ≡ (ok tt, s))
      × (s.container_platform ≡ platform_kubernetes
          → start_edge_background_process env c s ≡ (ok tt, set_polling true s))
unfolding start_edge_background_process background_on
start_edge_background_process-podman env c s =
    ((λ h. ap (λ p. background_on env p c s) h), (λ h. ap (λ p. background_on env p c s) h))
