-- ===== src/Edge/Stack/Runner/Tests.antt =====
-- The stack manager at concrete inputs (edge/stack/stack.go).
use agent_portainer.Edge.Stack.Marking.{mark}
use agent_portainer.Edge.Stack.Runner.Progress.{worker-drains}
use agent_portainer.Edge.Stack.Runner.Counting.{pending_count}
use agent_portainer.Edge.Stack.Invariant.{IsWf, update_stacks_status-IsWf}
use agent_portainer.Prelude.{
  ℕ, ◌≡◌, refl, ◌≢◌, true, false, some, List, [], ◌∷◌, arith, leb, if◌then◌else◌, codes, nat_eq,
  text_eq, lookup, insert, has_key, ok, err,
}
use mathlib.Core.Option
use agent_portainer.Edge.Stack.{
  Env, StackStatus, World, update_stacks_status, update_stack, StackAction, docker_swarm,
  update_enabled, done, pending, Call, EdgeStack, idle, update_stacks, update, docker_standalone,
  swarm_service, update_found, deploy, fetch_stack, delete, save_file, acknowledge, mark_all,
}
use agent_portainer.Edge.Stack.Sync.{update_stacks_status-unwanted}
use agent_portainer.Edge.Stack.Stale.{marked, update_stack-fetch_failed}
use agent_portainer.Edge.Stack.Runner.{
  stop_ready, worker_iteration, build_deployer_service, iterations, stop, set_engine_status, start,
  slept, new_world, shut_down,
}
use agent_portainer.Edge.Stack.Runner.Kept.{IsSteady}
use agent_portainer.Edge.Stack.Runner.Reconcile.{
  poll_and_drain, version_of, poll_and_drain-version_of,
}
use agent_portainer.Edge.Stack.Runner.Lifecycle.{
  Reach, set_engine_status-failed, worker-never_shut_down, started, stopped,
}

-- A server that knows the stacks 1 and 2 only, a compose binary that is missing, and everything else
-- succeeding.
abbrev env : Env
env = record {
  get_edge_stack_config = λ i.
      if leb i 2
      then ok (record { name = codes "web"; file_content = codes "services: {}" })
      else err (codes "GetEdgeStackConfig operation failed");
  write_file = λ folder name content. ok tt;
  set_edge_stack_status = λ i status message. ok tt;
  run_deploy = λ d name location. ok tt;
  run_remove = λ d name location. ok tt;
  remove_file = λ location. ok tt;
  new_compose_deployer = λ assets. err (codes "docker-compose binary not found");
}

abbrev stack_of : ℕ → ℕ → StackStatus → StackAction → EdgeStack
stack_of i v s a = record {
  id = i;
  name = codes "web";
  version = v;
  file_folder = codes "/tmp/edge_stacks/1";
  file_name = codes "docker-compose.yml";
  status = s;
  action = a;
}

-- A started swarm manager with the stack 1 deployed at version 4 and the stack 3 at version 7.
abbrev world : World
world = record {
  manager = record {
    engine_type = docker_swarm;
    stacks = (1, stack_of 1 4 done idle) ∷ (3, stack_of 3 7 done idle) ∷ [];
    stop_signal = some 0;
    deployer = some swarm_service;
    is_enabled = true;
    assets_path = codes "/app";
  };
  closed = [];
  next_channel = 1;
  workers = 1;
  calls = [];
}

-- The server asks for version 5 of the stack 1, the new stack 2, and no longer for the stack 3.
abbrev wanted : List (ℕ × ℕ)
wanted = (1, 5) ∷ (2, 1) ∷ []

world-IsWf : IsWf world.manager.stacks
unfolding has_key
world-IsWf = ground arith

update_succeeds : (update_stacks_status env wanted world).0 ≡ ok tt
unfolding update_stacks_status update_enabled update_stacks update_stack update_found fetch_stack
    save_file acknowledge lookup insert mark_all
update_succeeds = refl

update_stacks_status-unwanted_example :
    lookup 3 (update_stacks_status env wanted world).1.manager.stacks
    ≡ Option.map (mark false) (lookup 3 world.manager.stacks)
unfolding has_key
update_stacks_status-unwanted_example =
    update_stacks_status-unwanted env wanted world 3 world-IsWf refl update_succeeds refl

update_stacks_status-IsWf_example : IsWf (update_stacks_status env wanted world).1.manager.stacks
update_stacks_status-IsWf_example = update_stacks_status-IsWf env wanted world world-IsWf

update_stack-fetch_failed_example :
    let t = (update_stack env 3 8 world).1 in
    ((update_stack env 3 8 world).0 ≡ err (codes "GetEdgeStackConfig operation failed"))
    × (lookup 3 t.manager.stacks ≡ some (marked 8 (stack_of 3 7 done idle)))
    × (update_stack env 3 8 t ≡ (ok tt, t))
unfolding lookup
update_stack-fetch_failed_example =
    update_stack-fetch_failed env env 3 8 (stack_of 3 7 done idle) world _ refl refl (omega arith)
      refl

-- The world after the update: three pending stacks.
abbrev busy : World
busy = record world {
  manager = record (world.manager) {
    stacks =
        (1, stack_of 1 5 pending update)
        ∷ (2, stack_of 2 1 pending deploy)
        ∷ (3, stack_of 3 7 pending delete)
        ∷ [];
  };
}

busy-IsWf : IsWf busy.manager.stacks
unfolding has_key
busy-IsWf = ground arith

worker-drains_example :
    let t = iterations env 3 busy in
    (pending_count t.manager.stacks ≡ 0) × ((worker_iteration env t).0 ≡ slept)
unfolding stop_ready
worker-drains_example =
    worker-drains env busy ((λ d n l. refl), (λ l. refl)) (refl, (swarm_service, refl)) busy-IsWf

poll_and_drain-version_of_example :
    IsSteady (poll_and_drain env wanted world)
    × ((i : ℕ) → version_of (poll_and_drain env wanted world) i ≡ lookup i wanted)
unfolding stop_ready has_key
poll_and_drain-version_of_example =
    poll_and_drain-version_of env wanted world ((λ d n l. refl), (λ l. refl)) (refl, (refl, tt))
      (world-IsWf, (refl, (swarm_service, refl)), refl, refl) update_succeeds

worker-never_shut_down_example : (worker_iteration env (stop (start (new_world [])))).0 ≢ shut_down
worker-never_shut_down_example =
    worker-never_shut_down [] env (Reach.next (Reach.next Reach.here (started _)) (stopped _))

set_engine_status-failed_example :
    let t = (set_engine_status env docker_standalone world).1 in
    ((set_engine_status env docker_standalone world).0
      ≡ err (codes "docker-compose binary not found"))
    × (t.manager.engine_type ≡ docker_standalone)
    × (t.manager.deployer ≡ some swarm_service)
    × (set_engine_status env docker_standalone t ≡ (ok tt, t))
unfolding build_deployer_service
set_engine_status-failed_example =
    set_engine_status-failed env env docker_standalone world _ (cc) refl

-- The calls of one iteration, the latest first.
deploy_calls :
    (worker_iteration env busy).1.calls
    ≡ Call.set_status 1 1 []
      ∷ Call.run_deploy swarm_service
          (codes "edge_web")
          (codes "/tmp/edge_stacks/1/docker-compose.yml")
      ∷ []
unfolding worker_iteration insert
deploy_calls = refl
