-- ===== src/Edge/Stack/Runner/Kept.antt =====
-- What turns of the worker make of the versions of the stacks (edge/stack/stack.go).
use agent_portainer.Prelude.{
  ℕ, zero, suc, ◌≡◌, refl, sym, ap, ◌∙◌, ◌⊎◌, inl, inr, true, Option, none, some, List, arith,
  if◌then◌else◌, nat_beq_iff, Text, ◌==◌, nat_eq, text_eq, Bool-cases, lookup, insert, erase,
  lookup-insert, lookup-erase, Result, ok, err,
}
use mathlib.Core.Path.{subst}
use agent_portainer.Edge.Stack.{
  EdgeStack, StackStatus, StackAction, pending, done, failed, idle, deploy, update, delete, Env,
  Deployer, World,
}
use agent_portainer.Edge.Stack.Invariant.{IsWf, is_pending}
use agent_portainer.Edge.Stack.Runner.{
  next, deploy_stack, delete_stack, report, run_action, run_next, iterations, worker_iteration,
}
use agent_portainer.Edge.Stack.Runner.Counting.{pending_count, next-some, next-exists}
use agent_portainer.Edge.Stack.Runner.Frame.{running_lem}
use agent_portainer.Edge.Stack.Runner.Progress.{
  settled_by, deploy_stack-stacks, delete_stack-stacks, Removes, IsRunning, iteration-IsRunning,
  iteration-Shrinks,
}

-- The version at which a stack is left in the end: none if it is still to be deleted.
abbrev pub kept_by : StackStatus → StackAction → ℕ → Option ℕ
kept_by pending delete v = none
kept_by pending _ v = some v
kept_by _ _ v = some v

abbrev pub kept : Option EdgeStack → Option ℕ
kept none = none
kept (some s) = kept_by s.status s.action s.version

kept-insert :
    (m : List (ℕ × EdgeStack)) (s t : EdgeStack) (i : ℕ)
    → lookup s.id m ≡ some s
    → kept (some t) ≡ kept (some s)
    → kept (lookup i (insert s.id t m)) ≡ kept (lookup i m)
kept-insert m s t i l e = elim (Bool-cases (s.id == i)) [
  | inl hit ↦
      ap kept (lookup-insert s.id i t m ∙ ap (λ b. if b then some t else lookup i m) hit)
      ∙ e
      ∙ ap kept (sym l ∙ ap (λ j. lookup j m) ((nat_beq_iff s.id i).0 hit))
  | inr miss ↦ ap kept (lookup-insert s.id i t m ∙ ap (λ b. if b then some t else lookup i m) miss)
]

kept-erase :
    (m : List (ℕ × EdgeStack)) (s : EdgeStack) (i : ℕ)
    → lookup s.id m ≡ some s
    → kept (some s) ≡ none
    → kept (lookup i (erase s.id m)) ≡ kept (lookup i m)
kept-erase m s i l e = elim (Bool-cases (s.id == i)) [
  | inl hit ↦
      ap kept (lookup-erase s.id i m ∙ ap (λ b. if b then none else lookup i m) hit)
      ∙ sym e
      ∙ ap kept (sym l ∙ ap (λ j. lookup j m) ((nat_beq_iff s.id i).0 hit))
  | inr miss ↦ ap kept (lookup-erase s.id i m ∙ ap (λ b. if b then none else lookup i m) miss)
]

kept-settled_by :
    (r : Result (Unit {0})) (s : EdgeStack) (a : StackStatus) (b : StackAction)
    → is_pending a ≡ true
    → (b ≡ deploy) ⊎ (b ≡ update)
    → kept (some (settled_by r s)) ≡ kept_by a b s.version
kept-settled_by (ok _) s pending b p (inl e) = rw e refl
kept-settled_by (ok _) s pending b p (inr e) = rw e refl
kept-settled_by (err x) s pending b p (inl e) = rw e refl
kept-settled_by (err x) s pending b p (inr e) = rw e refl
kept-settled_by r s done b p h = cc
kept-settled_by r s failed b p h = cc

kept-delete :
    (s : EdgeStack) (a : StackStatus) → is_pending a ≡ true → kept_by a delete s.version ≡ none
kept-delete s pending p = refl
kept-delete s done p = cc
kept-delete s failed p = cc

-- An enabled manager with a running worker that has nothing to do.
abbrev pub IsSteady : World → Type 0
IsSteady w =
    IsWf w.manager.stacks
    × IsRunning w
    × (w.manager.is_enabled ≡ true)
    × (pending_count w.manager.stacks ≡ 0)

module _ (env : Env) (removes : Removes env) where
  kept-deploy :
      (d : Deployer) (s : EdgeStack) (name location : Text) (w : World) (i : ℕ)
      → lookup s.id w.manager.stacks ≡ some s
      → is_pending s.status ≡ true
      → (s.action ≡ deploy) ⊎ (s.action ≡ update)
      → kept (lookup i (deploy_stack env d s name location w).manager.stacks)
        ≡ kept (lookup i w.manager.stacks)
  kept-deploy d s name location w i l p a =
      let r = env.run_deploy d name location in
      rw (deploy_stack-stacks env d s name location w) (
        kept-insert w.manager.stacks s (settled_by r s) i l
          (kept-settled_by r s s.status s.action p a))

  kept-run_action :
      (d : Deployer) (a : StackAction) (s : EdgeStack) (w : World) (i : ℕ)
      → s.action ≡ a
      → lookup s.id w.manager.stacks ≡ some s
      → is_pending s.status ≡ true
      → kept (lookup i (run_action env (some d) a s w).1.manager.stacks)
        ≡ kept (lookup i w.manager.stacks)
  unfolding run_action
  kept-run_action d idle s w i e l p = refl
  kept-run_action d deploy s w i e l p = kept-deploy d s _ _ w i l p (inl e)
  kept-run_action d update s w i e l p = kept-deploy d s _ _ w i l p (inr e)
  kept-run_action d delete s w i e l p = rw (delete_stack-stacks env d s _ _ w removes) (
      kept-erase w.manager.stacks s i l
        (ap (λ a. kept_by s.status a s.version) e ∙ kept-delete s s.status p))

  run_action-enabled :
      (o : Option Deployer) (a : StackAction) (s : EdgeStack) (w : World)
      → (run_action env o a s w).1.manager.is_enabled ≡ w.manager.is_enabled
  unfolding run_action deploy_stack report delete_stack
  run_action-enabled o a s w = ground arith

  -- What a turn of the worker that finds a pending stack keeps.
  abbrev Keeps : World → World → Type 0
  Keeps w t =
      (t.manager.is_enabled ≡ w.manager.is_enabled)
      × ((i : ℕ) → kept (lookup i t.manager.stacks) ≡ kept (lookup i w.manager.stacks))

  run_next-Keeps :
      (s : EdgeStack) (w : World)
      → (d : Deployer) × (w.manager.deployer ≡ some d)
      → IsWf w.manager.stacks
      → next w.manager.stacks ≡ some s
      → Keeps w (run_next env (some s) w).1
  unfolding run_next
  run_next-Keeps s w (d, e) wf n =
      let (l, p, a) = next-some w.manager.stacks s wf n in
      (
        run_action-enabled w.manager.deployer s.action s w,
        λ i.
            subst
              (λ o.
                kept (lookup i (run_action env o s.action s w).1.manager.stacks)
                ≡ kept (lookup i w.manager.stacks))
              (sym e) (kept-run_action d s.action s w i refl l p),
      )

  iteration-Keeps :
      (w : World) (n : ℕ)
      → IsRunning w
      → IsWf w.manager.stacks
      → pending_count w.manager.stacks ≡ suc n
      → Keeps w (worker_iteration env w).1
  iteration-Keeps w n (live, can) wf count =
      let (s, e) = next-exists w.manager.stacks n count in
      rw (running_lem env w live) (rw e (run_next-Keeps s w can wf e))

  pub iterations-IsSteady :
      (n : ℕ) (w : World)
      → IsRunning w
      → IsWf w.manager.stacks
      → w.manager.is_enabled ≡ true
      → pending_count w.manager.stacks ≡ n
      → IsSteady (iterations env n w)
        × ((i : ℕ)
            → kept (lookup i (iterations env n w).manager.stacks)
              ≡ kept (lookup i w.manager.stacks))
  unfolding iterations
  iterations-IsSteady zero w run wf on count = ((wf, run, on, count), λ i. refl)
  iterations-IsSteady (suc n) w run wf on count =
      let (o, c, v) = iteration-Shrinks env w n removes run wf count in
      let (same, keeps) = iteration-Keeps w n run wf count in
      let (steady, kept_on) =
        iterations-IsSteady n (worker_iteration env w).1 (iteration-IsRunning env w run) v
          (same ∙ on) (omega arith) in
      (steady, λ i. kept_on i ∙ keeps i)
