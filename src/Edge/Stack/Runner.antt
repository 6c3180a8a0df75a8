-- ===== src/Edge/Stack/Runner.antt =====
-- The worker goroutine of the Edge stack manager and what starts and stops it
-- (edge/stack/stack.go). An iteration is taken whole: what a poll changes between its lock sections
-- is not seen.
pub mod Signals
mod Frame
mod Counting
mod Progress
mod Kept
mod Reconcile
mod Lifecycle
mod Tests
use agent_portainer.Prelude.{
  ℕ, zero, suc, ◌+◌, ◌-◌, ◌*◌, ◌/◌, ◌%◌, ◌≤◌, ◌<◌, ◌≡◌, refl, sym, ap, ◌∙◌, ◌≢◌, ◌↔◌, ◌⊎◌, inl, inr,
  Bool, true, false, not, ◌&&◌, ◌||◌, Option, none, some, List, [], ◌∷◌, ◌++◌, map, arith, ltb, leb,
  if◌then◌else◌, nat_beq, nat_beq_iff, Text, codes, text_beq, text_beq_iff, Equality, ◌==◌, nat_eq,
  text_eq, Bool-cases, by_test, Option-cases, length, length-append, All, All-append, lookup,
  insert, erase, has_key, lookup-insert, lookup-erase, has_key-insert, has_key-erase,
  has_key-lookup, beq_refl, itoa, itoa-All, has_prefix, strip_prefix, contains, split_by, split,
  drop_empty, fields_by, join, Lacks, split-join, join-split, split_by-skip, split_by-cut,
  split_by-nil, split_by-whole, split_by-append, by_test, Result, ok, err, Method, >>-keeps,
  >>-eq-ok, ◌>>=◌, ◌>>◌, return, lift, get, modify, Result-cases,
}
use agent_portainer.Edge.Stack.{
  pending, EdgeStack, World, Env, EngineType, log_call, Deployer, M, engine_unset, Call, done,
  StackAction, compose_service, put_stack, idle, set_stacks, swarm_service, edge_stack_status_ok,
  kubernetes_service, deploy, failed, update, docker_standalone, edge_stack_status_error, delete,
  docker_swarm, kubernetes,
}

-- `next`, in the order in which `range` visits the map.
pub next : List (ℕ × EdgeStack) → Option EdgeStack
next [] = none
next ((i, s) ∷ m) = elim s.status [ pending ↦ some s | _ ↦ next m ]

pub stack_name : EdgeStack → Text
stack_name s = codes "edge_" ++ s.name

pub stack_file_location : EdgeStack → Text
stack_file_location s = s.file_folder ++ codes "/" ++ s.file_name

-- The end of `deployStack`: the stack goes back into the map, and the server is told. A report that
-- fails is only logged.
pub report : EdgeStack → ℕ → Text → World → World
report s status message w = log_call (Call.set_status s.id status message) (put_stack s w)

pub deploy_stack : Env → Deployer → EdgeStack → Text → Text → World → World
unfolding report
deploy_stack env d s name location w =
    let s' = record s { status = done; action = idle } in
    let w' = log_call (Call.run_deploy d name location) w in
    elim (env.run_deploy d name location) [
      | ok _ ↦ report s' edge_stack_status_ok [] w'
      | err x ↦ report (record s' { status = failed }) edge_stack_status_error x w'
    ]

pub delete_stack : Env → Deployer → EdgeStack → Text → Text → World → World
delete_stack env d s name location w =
    let w1 = log_call (Call.run_remove d name location) w in
    let w2 = log_call (Call.remove_file location) w1 in
    elim (env.run_remove d name location) [
      | err x ↦ w1
      | ok _ ↦ elim (env.remove_file location) [
        | err x ↦ w2
        | ok _ ↦ set_stacks (erase s.id w2.manager.stacks) w2
      ]
    ]

-- How an iteration of the loop ends. A call through a deployer that was never set is a nil
-- dereference.
pub data Outcome : Type 0 where
  shut_down slept worked crashed : Outcome

-- What the loop does with the stack that `next` returned.
pub run_action : Env → Option Deployer → StackAction → EdgeStack → World → Outcome × World
unfolding deploy_stack delete_stack stack_name stack_file_location
run_action env none idle s w = (worked, w)
run_action env none _ s w = (crashed, w)
run_action env (some d) deploy s w =
    (worked, deploy_stack env d s (stack_name s) (stack_file_location s) w)
run_action env (some d) update s w =
    (worked, deploy_stack env d s (stack_name s) (stack_file_location s) w)
run_action env (some d) delete s w =
    (worked, delete_stack env d s (stack_name s) (stack_file_location s) w)
run_action env (some d) idle s w = (worked, w)

pub run_next : Env → Option EdgeStack → World → Outcome × World
unfolding run_action
run_next env none w = (slept, w)
run_next env (some s) w = run_action env w.manager.deployer s.action s w

is_closed : ℕ → List ℕ → Bool
is_closed c [] = false
is_closed c (d ∷ ds) = c == d || is_closed c ds

-- The `select`: a receive from a closed channel is ready, and one from an open channel, on which
-- nothing is ever sent, or from nil is not.
pub stop_ready : Option ℕ → List ℕ → Bool
unfolding is_closed
stop_ready none closed = false
stop_ready (some c) closed = is_closed c closed

pub worker_iteration : Env → World → Outcome × World
unfolding next run_next stop_ready
worker_iteration env w =
    if stop_ready w.manager.stop_signal w.closed
    then (shut_down, w)
    else run_next env (next w.manager.stacks) w

-- So many turns of the loop.
pub iterations : Env → ℕ → World → World
iterations env zero w = w
iterations env (suc n) w = iterations env n (worker_iteration env w).1

-- `Start`, whose parse of the constant interval "5s" succeeds: what it does by the signal that it
-- finds. A new channel is a new number.
pub start_with : Option ℕ → World → World
start_with (some c) w = w
start_with none w = record w {
  manager = record (w.manager) { is_enabled = true; stop_signal = some w.next_channel };
  next_channel = w.next_channel + 1;
  workers = w.workers + 1;
}

pub start : World → World
unfolding start_with
start w = start_with w.manager.stop_signal w

pub stop_with : Option ℕ → World → World
stop_with none w = w
stop_with (some c) w = record w {
  manager = record (w.manager) { stop_signal = none; is_enabled = false };
  closed = c ∷ w.closed;
}

pub stop : World → World
unfolding stop_with
stop w = stop_with w.manager.stop_signal w

pub build_deployer_service : Env → Text → EngineType → Result Deployer
build_deployer_service env assets docker_standalone = elim (env.new_compose_deployer assets) [
  | ok _ ↦ ok compose_service
  | err x ↦ err x
]
build_deployer_service env assets docker_swarm = ok swarm_service
build_deployer_service env assets kubernetes = ok kubernetes_service
build_deployer_service env assets engine_unset = err (codes "engine status 0 not supported")

pub engine_beq : EngineType → EngineType → Bool
engine_beq engine_unset engine_unset = true
engine_beq docker_standalone docker_standalone = true
engine_beq docker_swarm docker_swarm = true
engine_beq kubernetes kubernetes = true
engine_beq _ _ = false

-- The end of `SetEngineStatus`.
pub adopt_deployer : Result Deployer → M (Unit {0})
adopt_deployer (err x) w = (err x, w)
adopt_deployer (ok d) w = (ok tt, record w { manager = record (w.manager) { deployer = some d } })

-- The engine is set before the deployer is built, so it stays set where that fails.
pub set_engine_status : Env → EngineType → M (Unit {0})
unfolding engine_beq stop build_deployer_service adopt_deployer
set_engine_status env e w =
    if engine_beq e w.manager.engine_type
    then (ok tt, w)
    else adopt_deployer (build_deployer_service env w.manager.assets_path e)
        (stop (record w { manager = record (w.manager) { engine_type = e } }))

-- `NewStackManager`, before anything else has happened.
pub new_world : Text → World
new_world assets = record {
  manager = record {
    engine_type = engine_unset;
    stacks = [];
    stop_signal = none;
    deployer = none;
    is_enabled = false;
    assets_path = assets;
  };
  closed = [];
  next_channel = 0;
  workers = 0;
  calls = [];
}
