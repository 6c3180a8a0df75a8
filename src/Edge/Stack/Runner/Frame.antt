-- ===== src/Edge/Stack/Runner/Frame.antt =====
-- What an iteration of the worker leaves alone (edge/stack/stack.go).
use agent_portainer.Prelude.{
  ◌≡◌, refl, ap, true, false, Option, none, some, arith, if◌then◌else◌, nat_eq, text_eq,
}
use agent_portainer.Edge.Stack.{World, Env, EdgeStack, Deployer, StackAction}
use agent_portainer.Edge.Stack.Runner.{
  next, run_action, run_next, worker_iteration, deploy_stack, report, stop_ready, delete_stack,
  shut_down,
}

-- The signal, the deployer and the channels.
abbrev pub SameSignals : World → World → Type 0
SameSignals t w =
    (t.manager.stop_signal ≡ w.manager.stop_signal)
    × (t.manager.deployer ≡ w.manager.deployer)
    × (t.closed ≡ w.closed)
    × (t.next_channel ≡ w.next_channel)

run_action-frame :
    (env : Env) (o : Option Deployer) (a : StackAction) (s : EdgeStack) (w : World)
    → SameSignals (run_action env o a s w).1 w
unfolding run_action deploy_stack report delete_stack
run_action-frame env o a s w = ground arith

pub run_next-frame :
    (env : Env) (o : Option EdgeStack) (w : World) → SameSignals (run_next env o w).1 w
unfolding run_next
run_next-frame env none w = (refl, refl, refl, refl)
run_next-frame env (some s) w = run_action-frame env w.manager.deployer s.action s w

-- An iteration that finds no signal runs the next stack.
pub running_lem :
    (env : Env) (w : World)
    → stop_ready w.manager.stop_signal w.closed ≡ false
    → worker_iteration env w ≡ run_next env (next w.manager.stacks) w
unfolding worker_iteration
running_lem env w h =
    ap (λ b. if b then (shut_down, w) else run_next env (next w.manager.stacks) w) h

pub worker_iteration-frame : (env : Env) (w : World) → SameSignals (worker_iteration env w).1 w
unfolding worker_iteration
worker_iteration-frame env w =
    elim (stop_ready w.manager.stop_signal w.closed)
      as (λ b.
        SameSignals (if b then (shut_down, w) else run_next env (next w.manager.stacks) w).1 w) [
          | true ↦ (refl, refl, refl, refl)
          | false ↦ run_next-frame env (next w.manager.stacks) w
        ]
