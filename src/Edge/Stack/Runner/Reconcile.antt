-- ===== src/Edge/Stack/Runner/Reconcile.antt =====
-- A poll and the turns of the worker after it, as one step of an abstract manager that holds just the
-- versions that the server wants (edge/stack/stack.go).
use agent_portainer.Prelude.{
  ℕ, ◌≡◌, refl, sym, ap, ◌∙◌, inl, inr, false, Option, none, some, List, [], ◌∷◌, arith, nat_eq,
  text_eq, lookup, has_key, ok,
}
use mathlib.Core.Option
use agent_portainer.Edge.Stack.{
  EdgeStack, StackStatus, StackAction, pending, done, failed, Env, World, update_stacks_status,
}
use agent_portainer.Edge.Stack.Marking.{mark}
use agent_portainer.Edge.Stack.Invariant.{is_pending, update_stacks_status-IsWf}
use agent_portainer.Edge.Stack.Update.{Settled, update_stacks_status-frame}
use agent_portainer.Edge.Stack.Sync.{
  HasDistinctKeys, update_stacks_status-wanted, update_stacks_status-unwanted,
}
use agent_portainer.Edge.Stack.Runner.{iterations}
use agent_portainer.Edge.Stack.Runner.Counting.{pending_count}
use agent_portainer.Edge.Stack.Runner.Progress.{Removes, IsRunning}
use agent_portainer.Edge.Stack.Runner.Kept.{kept_by, kept, IsSteady, iterations-IsSteady}

not_pending :
    (m : List (ℕ × EdgeStack)) (i : ℕ) (s : EdgeStack)
    → pending_count m ≡ 0
    → lookup i m ≡ some s
    → is_pending s.status ≡ false
unfolding lookup
not_pending [] i s count l = cc
not_pending ((j, t) ∷ m) i s count l = ground (arith, not_pending m i s)

kept-settled :
    (a : StackStatus) (b : StackAction) (v : ℕ) → is_pending a ≡ false → kept_by a b v ≡ some v
kept-settled pending b v h = cc
kept-settled done b v h = refl
kept-settled failed b v h = refl

-- The versions of the stacks in the map.
abbrev pub version_of : World → ℕ → Option ℕ
version_of w i = Option.map (λ s. s.version) (lookup i w.manager.stacks)

kept-version_of :
    (m : List (ℕ × EdgeStack)) (i : ℕ) (o : Option EdgeStack)
    → pending_count m ≡ 0
    → lookup i m ≡ o
    → kept o ≡ Option.map (λ s. s.version) o
kept-version_of m i none count l = refl
kept-version_of m i (some s) count l =
    kept-settled s.status s.action s.version (not_pending m i s count l)

kept-Settled :
    (env : Env) (w : World) (i v : ℕ) (o : Option EdgeStack) (s : EdgeStack)
    → pending_count w.manager.stacks ≡ 0
    → lookup i w.manager.stacks ≡ o
    → Settled env w.manager.engine_type o i v s
    → kept (some s) ≡ some v
kept-Settled env w i v none s count l (c, g, e) = ap (λ s. kept (some s)) e
kept-Settled env w i v (some o) s count l (inl (same, e)) =
    ap (λ s. kept (some s)) e
    ∙ kept-settled o.status o.action o.version (not_pending w.manager.stacks i o count l)
    ∙ ap some same
kept-Settled env w i v (some o) s count l (inr (c, g, e)) = ap (λ s. kept (some s)) e

lookup-none : (m : List (ℕ × ℕ)) (i : ℕ) → lookup i m ≡ none → has_key i m ≡ false
unfolding lookup has_key
lookup-none [] i h = refl
lookup-none ((j, v) ∷ m) i h = ground (arith, lookup-none m i)

kept-marked : (o : Option EdgeStack) → kept (Option.map (mark false) o) ≡ none
kept-marked none = refl
kept-marked (some s) = refl

module _ (env : Env) (wanted : List (ℕ × ℕ)) (w : World) where
  -- The state after the poll.
  abbrev polled : World
  polled = (update_stacks_status env wanted w).1

  kept-polled :
      (i : ℕ) (o : Option ℕ)
      → IsSteady w
      → HasDistinctKeys wanted
      → (update_stacks_status env wanted w).0 ≡ ok tt
      → lookup i wanted ≡ o
      → kept (lookup i polled.manager.stacks) ≡ o
  kept-polled i (some v) (wf, run, on, count) distinct success l =
      let (s, at_i, settled) =
        update_stacks_status-wanted env wanted w i v wf distinct on success l in
      ap kept at_i ∙ kept-Settled env w i v (lookup i w.manager.stacks) s count refl settled
  kept-polled i none (wf, run, on, count) distinct success l =
      ap kept (update_stacks_status-unwanted env wanted w i wf on success (lookup-none wanted i l))
      ∙ kept-marked (lookup i w.manager.stacks)

-- A poll, and as many turns of the worker as there are stacks pending after it.
abbrev pub poll_and_drain : Env → List (ℕ × ℕ) → World → World
poll_and_drain env wanted w =
    let t = (update_stacks_status env wanted w).1 in
    iterations env (pending_count t.manager.stacks) t

-- The manager refines a map that each poll replaces by the versions that the server wants: from a
-- state in which an enabled manager's worker runs and nothing is pending, a poll without an error,
-- followed by as many turns of the worker as there are stacks pending, ends in such a state again, and
-- the stacks held are those that the server names, at their versions, if the deployer and the file
-- system remove what they are asked to and the server names each stack once.
pub poll_and_drain-version_of :
    (env : Env) (wanted : List (ℕ × ℕ)) (w : World)
    → Removes env
    → HasDistinctKeys wanted
    → IsSteady w
    → (update_stacks_status env wanted w).0 ≡ ok tt
    → IsSteady (poll_and_drain env wanted w)
      × ((i : ℕ) → version_of (poll_and_drain env wanted w) i ≡ lookup i wanted)
poll_and_drain-version_of env wanted w removes distinct steady success =
    let (wf, (live, (d, can)), on, count) = steady in
    let (engine, signal, deployer, enabled, closed, channel, workers) =
      update_stacks_status-frame env wanted w in
    let t = (update_stacks_status env wanted w).1 in
    let ran : IsRunning t = (cc (live, signal, closed), (d, deployer ∙ can)) in
    let (after, keeps) =
      iterations-IsSteady env removes (pending_count t.manager.stacks) t ran
        (update_stacks_status-IsWf env wanted w wf) (enabled ∙ on) refl in
    (
      after,
      λ i.
          sym (kept-version_of (poll_and_drain env wanted w).manager.stacks i _ after.3 refl)
          ∙ keeps i
          ∙ kept-polled env wanted w i (lookup i wanted) steady distinct success refl,
    )
