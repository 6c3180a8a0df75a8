-- ===== src/Edge/Stack/Runner/Progress.antt =====
-- That the worker gets through the pending stacks
-- (edge/stack/stack.go).
use agent_portainer.Edge.Stack.Runner.Frame.{running_lem, run_next-frame}
use agent_portainer.Prelude.{
  ℕ, zero, suc, ◌+◌, ◌≡◌, refl, sym, ◌∙◌, true, false, some, List, arith, Text, nat_eq, text_eq,
  lookup, insert, erase, Result, ok, err,
}
use mathlib.Core.Path.{subst}
use agent_portainer.Edge.Stack.{
  EdgeStack, done, failed, idle, Env, Deployer, World, StackAction, delete, deploy, update,
}
use agent_portainer.Edge.Stack.Invariant.{IsWf, is_pending, is_idle, erase-IsWf, insert-IsWf}
use agent_portainer.Edge.Stack.Runner.Counting.{
  pending_count, pending_count-insert, pending_count-erase, next-some, next-exists, next-none,
}
use agent_portainer.Edge.Stack.Runner.{
  next, deploy_stack, delete_stack, run_action, report, worked, stop_ready, run_next, Outcome,
  worker_iteration, iterations, slept,
}

-- What the worker does to a stack whose deployment it tried.
abbrev pub settled_by : Result (Unit {0}) → EdgeStack → EdgeStack
settled_by (ok _) s = record s { status = done; action = idle }
settled_by (err _) s = record s { status = failed; action = idle }

pub deploy_stack-stacks :
    (env : Env) (d : Deployer) (s : EdgeStack) (name location : Text) (w : World)
    → (deploy_stack env d s name location w).manager.stacks
      ≡ insert s.id (settled_by (env.run_deploy d name location) s) w.manager.stacks
unfolding deploy_stack report
deploy_stack-stacks env d s name location w = ground arith

-- The deployer and the file system remove what they are asked to.
abbrev pub Removes : Env → Type 0
Removes env =
    ((d : Deployer) (name location : Text) → env.run_remove d name location ≡ ok tt)
    × ((location : Text) → env.remove_file location ≡ ok tt)

pub delete_stack-stacks :
    (env : Env) (d : Deployer) (s : EdgeStack) (name location : Text) (w : World)
    → Removes env
    → (delete_stack env d s name location w).manager.stacks ≡ erase s.id w.manager.stacks
unfolding delete_stack
delete_stack-stacks env d s name location w (r, f) = ground (arith, r d name location, f location)

abbrev NotPending : EdgeStack → Type 0
NotPending s = (is_pending s.status ≡ false) × (is_idle s.action ≡ true)

settled_by-NotPending : (r : Result (Unit {0})) (s : EdgeStack) → NotPending (settled_by r s)
settled_by-NotPending (ok _) s = (refl, refl)
settled_by-NotPending (err _) s = (refl, refl)

settled_by-id : (r : Result (Unit {0})) (s : EdgeStack) → (settled_by r s).id ≡ s.id
settled_by-id (ok _) s = refl
settled_by-id (err _) s = refl

insert_settled-IsWf :
    (r : Result (Unit {0})) (s : EdgeStack) (m : List (ℕ × EdgeStack))
    → IsWf m
    → IsWf (insert s.id (settled_by r s) m)
insert_settled-IsWf (ok _) s m wf = insert-IsWf (settled_by (ok _) s) m refl wf
insert_settled-IsWf (err x) s m wf = insert-IsWf (settled_by (err x) s) m refl wf

deploy_stack-shrinks :
    (env : Env) (d : Deployer) (s : EdgeStack) (name location : Text) (w : World)
    → IsWf w.manager.stacks
    → lookup s.id w.manager.stacks ≡ some s
    → is_pending s.status ≡ true
    → let t = deploy_stack env d s name location w in
      (pending_count t.manager.stacks + 1 ≡ pending_count w.manager.stacks) × IsWf t.manager.stacks
deploy_stack-shrinks env d s name location w wf l p =
    let r = env.run_deploy d name location in
    rw (deploy_stack-stacks env d s name location w) (
      pending_count-insert w.manager.stacks s.id s (settled_by r s) l p
          (settled_by-NotPending r s).0,
      insert_settled-IsWf r s w.manager.stacks wf,
    )

-- A turn of the loop that settles one pending stack and keeps the invariant.
abbrev pub Shrinks : World → Outcome × World → Type 0
Shrinks w (o, t) =
    (o ≡ worked)
    × (pending_count t.manager.stacks + 1 ≡ pending_count w.manager.stacks)
    × IsWf t.manager.stacks

run_action-Shrinks :
    (env : Env) (d : Deployer) (a : StackAction) (s : EdgeStack) (w : World)
    → Removes env
    → is_idle a ≡ false
    → IsWf w.manager.stacks
    → lookup s.id w.manager.stacks ≡ some s
    → is_pending s.status ≡ true
    → Shrinks w (run_action env (some d) a s w)
unfolding run_action
run_action-Shrinks env d idle s w r i wf l p = cc
run_action-Shrinks env d delete s w r i wf l p = (
  refl,
  rw (delete_stack-stacks env d s _ _ w r) (pending_count-erase w.manager.stacks s.id s wf l p),
  rw (delete_stack-stacks env d s _ _ w r) (erase-IsWf s.id _ wf),
)
run_action-Shrinks env d deploy s w r i wf l p =
    let (c, v) = deploy_stack-shrinks env d s _ _ w wf l p in (refl, c, v)
run_action-Shrinks env d update s w r i wf l p =
    let (c, v) = deploy_stack-shrinks env d s _ _ w wf l p in (refl, c, v)

-- What the worker needs to go on: a signal that is not closed, and a deployer.
abbrev pub IsRunning : World → Type 0
IsRunning w =
    (stop_ready w.manager.stop_signal w.closed ≡ false)
    × ((d : Deployer) × (w.manager.deployer ≡ some d))

run_next-Shrinks :
    (env : Env) (s : EdgeStack) (w : World)
    → Removes env
    → (d : Deployer) × (w.manager.deployer ≡ some d)
    → IsWf w.manager.stacks
    → next w.manager.stacks ≡ some s
    → Shrinks w (run_next env (some s) w)
unfolding run_next
run_next-Shrinks env s w r (d, e) wf n =
    let (l, p, i) = next-some w.manager.stacks s wf n in
    subst (λ o. Shrinks w (run_action env o s.action s w)) (sym e)
      (run_action-Shrinks env d s.action s w r i wf l p)

pub iteration-IsRunning :
    (env : Env) (w : World) → IsRunning w → IsRunning (worker_iteration env w).1
iteration-IsRunning env w (live, (d, e)) = rw (running_lem env w live) (
    let (f, g, h, _) = run_next-frame env (next w.manager.stacks) w in
    (cc (live, f, h), (d, g ∙ e)))

pub iteration-Shrinks :
    (env : Env) (w : World) (n : ℕ)
    → Removes env
    → IsRunning w
    → IsWf w.manager.stacks
    → pending_count w.manager.stacks ≡ suc n
    → Shrinks w (worker_iteration env w)
iteration-Shrinks env w n r (live, can) wf count =
    let (s, e) = next-exists w.manager.stacks n count in
    rw (running_lem env w live) (rw e (run_next-Shrinks env s w r can wf e))

drained :
    (env : Env) (n : ℕ) (w : World)
    → Removes env
    → IsRunning w
    → IsWf w.manager.stacks
    → pending_count w.manager.stacks ≡ n
    → IsRunning (iterations env n w) × (pending_count (iterations env n w).manager.stacks ≡ 0)
unfolding iterations
drained env zero w r run wf count = (run, count)
drained env (suc n) w r run wf count =
    let (o, c, v) = iteration-Shrinks env w n r run wf count in
    drained env n (worker_iteration env w).1 r (iteration-IsRunning env w run) v (omega arith)

-- If the deployer and the file system remove what they are asked to, a running worker with a
-- deployer settles every pending stack, whether its deployment succeeds or not, in as many
-- iterations as there are pending stacks, and then sleeps.
pub worker-drains :
    (env : Env) (w : World)
    → Removes env
    → IsRunning w
    → IsWf w.manager.stacks
    → let t = iterations env (pending_count w.manager.stacks) w in
      (pending_count t.manager.stacks ≡ 0) × ((worker_iteration env t).0 ≡ slept)
unfolding run_next
worker-drains env w r run wf =
    let t = iterations env (pending_count w.manager.stacks) w in
    let (still, count) = drained env _ w r run wf refl in
    (count, rw (running_lem env t still.0) (rw (next-none t.manager.stacks count)))
