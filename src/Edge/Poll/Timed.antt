-- ===== src/Edge/Poll/Timed.antt =====
-- The operations of the poll service keep the last activity of an open tunnel (edge/poll.go).
use agent_portainer.Prelude.{
  ℕ, ◌-◌, ◌≡◌, ◌≢◌, inl, inr, Bool, true, not, ◌&&◌, ◌||◌, Option, none, some, List, ltb, Text,
  codes, ◌==◌, nat_eq, text_eq, by_test, Option-cases, itoa, by_test, Result, ok, err, >>-keeps,
  ◌>>=◌, ◌>>◌, lift, modify,
}
use agent_portainer.Agent.{RuntimeConfiguration}
use agent_portainer.Edge.Stack.{EngineType}
use agent_portainer.Edge.Stack.Runner.{set_engine_status}
use agent_portainer.Edge.Poll.{
  PollService, Env, P, PollStatusResponse, StackStatus, set_polling, is_swarm, start_stacks, poll,
  handle_response, monitor_activity, check_activity, reset_activity_timer, update_tunnel,
  update_tunnel_with, close_if_idle, open_if_required, create_tunnel, create_with_decoded,
  create_with_credentials, after_create, tunnel_config, close_tunnel, is_tunnel_open,
  update_schedules, update_interval, update_stacks_of, ensure_client, response_data, decode_string,
  platform_number, agent_platform_identifier,
}
use agent_portainer.Edge.Poll.Tunnel.{create_client-cases}
use agent_portainer.Edge.Poll.Manager.{check_docker_runtime_config, follow, run_engine, on_stacks}

-- An open tunnel has a last activity.
abbrev pub IsTimed : PollService → Type 0
IsTimed s = s.tunnel ≡ some true → s.last_activity ≢ none

lift-keeps :
    {A B : Type 0} (I : PollService → Type 0) (x : Result A) (k : A → P B) (s : PollService)
    → I s
    → ((a : A) → I (k a s).1)
    → I ((lift x >>= k) s).1
lift-keeps I (ok a) k s h f = f a
lift-keeps I (err x) k s h f = h

pub reset_activity_timer-IsTimed :
    (env : Env) (s : PollService) → IsTimed s → IsTimed (reset_activity_timer env s)
unfolding reset_activity_timer
reset_activity_timer-IsTimed env s h =
    by_test IsTimed (is_tunnel_open s.tunnel) (λ _ _ q. cc) (λ _. h)

-- The timer of a tunnel that has just been opened is set.
opened_lem :
    (env : Env) (s : PollService)
    → IsTimed (reset_activity_timer env (record s { tunnel = some true }))
unfolding reset_activity_timer is_tunnel_open
opened_lem env s _ q = cc

close_tunnel-IsTimed : (env : Env) (s : PollService) → IsTimed (close_tunnel env s).1
unfolding close_tunnel
close_tunnel-IsTimed env s h = cc

create_tunnel-IsTimed :
    (env : Env) (encoded : Text) (port : ℕ) (s : PollService)
    → IsTimed s
    → IsTimed (create_tunnel env encoded port s).1
unfolding create_tunnel create_with_decoded create_with_credentials after_create
create_tunnel-IsTimed env encoded port s h = decoded_timed (decode_string encoded)
  where
    credentials_timed : (c : Result Text) → IsTimed (create_with_credentials env c port s).1
    credentials_timed (err x) = h
    credentials_timed (ok c) = elim (create_client-cases env (tunnel_config env s c port) s) [
      | inr (x, g) ↦ rw g h
      | inl g ↦ rw g (opened_lem env s)
    ]

    decoded_timed : (d : Result Text) → IsTimed (create_with_decoded env d port s).1
    decoded_timed (err x) = h
    decoded_timed (ok d) = credentials_timed (env.decrypt d s.edge_id)

update_tunnel-IsTimed :
    (env : Env) (r : PollStatusResponse) (s : PollService)
    → IsTimed s
    → IsTimed (update_tunnel env r s).1
unfolding update_tunnel update_tunnel_with close_if_idle open_if_required
update_tunnel-IsTimed env r s h = capable s.tunnel
  where
    idle : IsTimed (close_if_idle env r.status s)
    idle =
        by_test IsTimed (r.status == codes "IDLE" && is_tunnel_open s.tunnel)
          (λ _. close_tunnel-IsTimed env s) (λ _. h)

    required : (t : PollService) → IsTimed t → IsTimed (open_if_required env r t).1
    required t g =
        by_test {A = Result (Unit {0}) × PollService} (λ p. IsTimed p.1)
          (r.status == codes "REQUIRED" && not (is_tunnel_open t.tunnel))
          (λ _. create_tunnel-IsTimed env r.credentials r.port t g) (λ _. g)

    capable : (o : Option Bool) → IsTimed (update_tunnel_with env o r s).1
    capable none = h
    capable (some is_open) = required (close_if_idle env r.status s) idle

update_stacks_of-IsTimed :
    (env : Env) (o : Option (List StackStatus)) (s : PollService)
    → IsTimed s
    → IsTimed (update_stacks_of env o s).1
unfolding update_stacks_of
update_stacks_of-IsTimed env none s h = h
update_stacks_of-IsTimed env (some stacks) s h = h

update_interval-IsTimed :
    (env : Env) (r : PollStatusResponse) (s : PollService)
    → IsTimed s
    → IsTimed (update_interval env r s).1
unfolding update_interval
update_interval-IsTimed env r s h =
    by_test {A = Result (Unit {0}) × PollService} (λ p. IsTimed p.1)
      (r.checkin_interval == s.poll_interval) (λ _. h) (λ _. h)

handle_response-IsTimed :
    (env : Env) (r : PollStatusResponse) (s : PollService)
    → IsTimed s
    → IsTimed (handle_response env r s).1
unfolding handle_response update_schedules
handle_response-IsTimed env r s h =
    >>-keeps IsTimed (update_tunnel env r)
      (modify (update_schedules env r) >> (update_interval env r >> update_stacks_of env r.stacks))
      s (update_tunnel-IsTimed env r s h)
      (λ t g.
        >>-keeps IsTimed (update_interval env r) (update_stacks_of env r.stacks)
          (update_schedules env r t) (update_interval-IsTimed env r (update_schedules env r t) g)
          (update_stacks_of-IsTimed env r.stacks))

ensure_client-IsTimed : (env : Env) (s : PollService) → IsTimed s → IsTimed (ensure_client env s)
unfolding ensure_client
ensure_client-IsTimed env s h = elim (Option-cases s.client_timeout) [
  | inl e ↦ rw e h
  | inr (t, e) ↦ rw e h
]

pub poll-IsTimed : (env : Env) (s : PollService) → IsTimed s → IsTimed (poll env s).1
unfolding poll
poll-IsTimed env s h =
    let u = ensure_client env s in
    let g = ensure_client-IsTimed env s h in
    lift-keeps IsTimed
      (env.do_request (itoa (platform_number (agent_platform_identifier u.container_platform))))
      (λ response. lift (response_data env response) >>= handle_response env) u g
      (λ response.
        lift-keeps IsTimed (response_data env response) (handle_response env) u g
          (λ r. handle_response-IsTimed env r u g))

pub monitor_activity-IsTimed :
    (env : Env) (s : PollService) → IsTimed s → IsTimed (monitor_activity env s)
unfolding monitor_activity check_activity
monitor_activity-IsTimed env s h = by_last s.last_activity
  where
    by_last : (l : Option ℕ) → IsTimed (check_activity env l s)
    by_last none = h
    by_last (some last) =
        by_test IsTimed (is_tunnel_open s.tunnel && ltb s.inactivity_timeout (env.now - last))
          (λ _. close_tunnel-IsTimed env s) (λ _. h)

pub run_engine-IsTimed :
    (env : Env) (engine : EngineType) (s : PollService)
    → IsTimed s
    → IsTimed (run_engine env engine s).1
unfolding run_engine on_stacks
run_engine-IsTimed env engine s h =
    >>-keeps IsTimed (on_stacks env (set_engine_status env.deployment engine)) (modify start_stacks)
      s h (λ t g. g)

pub check_docker_runtime_config-IsTimed :
    (env : Env) (c : Result RuntimeConfiguration) (s : PollService)
    → IsTimed s
    → IsTimed (check_docker_runtime_config env c s).1
unfolding check_docker_runtime_config follow
check_docker_runtime_config-IsTimed env (err x) s h = h
check_docker_runtime_config-IsTimed env (ok c) s h =
    by_test {A = Result (Unit {0}) × PollService} (λ p. IsTimed p.1)
      (not (is_swarm c.docker_configuration.engine_status) || c.docker_configuration.leader)
      (λ _. run_engine-IsTimed env _ (set_polling true s) h) (λ _. h)
