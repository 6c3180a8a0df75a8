-- ===== src/Edge/Stack/Runner/Lifecycle.antt =====
-- Starting, stopping and switching the engine (edge/stack/stack.go).
use agent_portainer.Edge.Stack.Runner.Frame.{worker_iteration-frame, running_lem}
use agent_portainer.Prelude.{
  ℕ, ◌+◌, ◌<◌, ◌≡◌, refl, sym, ◌≢◌, true, false, Option, none, some, List, [], ◌∷◌, arith,
  if◌then◌else◌, Text, nat_eq, text_eq, All, Result, ok, err,
}
use agent_portainer.Edge.Stack.{EngineType, World, Env, update_stacks_status, Deployer, EdgeStack}
use agent_portainer.Edge.Stack.Update.{update_stacks_status-frame}
use mathlib.Core.Path.{subst, subst₃}
use agent_portainer.Edge.Stack.Runner.{
  stop, is_closed, start, stop_ready, set_engine_status, worker_iteration, start_with, stop_with,
  adopt_deployer, build_deployer_service, run_next, new_world, engine_beq, run_action, shut_down,
}

-- What may happen to the manager, one call or one worker iteration at a time. `Stop` is one step: no
-- iteration falls between its close of the channel and its reset of the field.
pub data Step : World → World → Type 0 where
  started : (w : World) → Step w (start w)
  stopped : (w : World) → Step w (stop w)
  engine_set : (env : Env) (e : EngineType) (w : World) → Step w (set_engine_status env e w).1
  polled :
      (env : Env) (wanted : List (ℕ × ℕ)) (w : World) → Step w (update_stacks_status env wanted w).1
  iterated : (env : Env) (w : World) → Step w (worker_iteration env w).1

pub data Reach (s : World) : World → Type 0 where
  here : Reach s s
  next : {t u : World} → Reach s t → Step t u → Reach s u

-- The channels are numbered in the order in which they are made, and the one in use is open.
abbrev OpenSignal : ℕ → List ℕ → Option ℕ → Type 0
OpenSignal n closed none = Unit
OpenSignal n closed (some c) = (c < n) × (is_closed c closed ≡ false)

abbrev SignalIsOpen : World → Type 0
SignalIsOpen w =
    All (λ c. c < w.next_channel) w.closed
    × OpenSignal w.next_channel w.closed w.manager.stop_signal

is_closed-fresh : (n : ℕ) (cs : List ℕ) → All (λ c. c < n) cs → is_closed n cs ≡ false
unfolding is_closed
is_closed-fresh n [] h = refl
is_closed-fresh n (c ∷ cs) (lt, h) = ground (arith, is_closed-fresh n cs h)

closed_later : (n : ℕ) (cs : List ℕ) → All (λ c. c < n) cs → All (λ c. c < n + 1) cs
closed_later n [] h = tt
closed_later n (c ∷ cs) (lt, h) = (omega arith, closed_later n cs h)

start_with-SignalIsOpen :
    (o : Option ℕ) (w : World) → SignalIsOpen w → SignalIsOpen (start_with o w)
unfolding start_with
start_with-SignalIsOpen (some c) w h = h
start_with-SignalIsOpen none w (old, _) = (
  closed_later w.next_channel w.closed old,
  (omega arith, is_closed-fresh w.next_channel w.closed old),
)

stop_with-SignalIsOpen :
    (o : Option ℕ) (w : World)
    → w.manager.stop_signal ≡ o
    → SignalIsOpen w
    → SignalIsOpen (stop_with o w)
unfolding stop_with
stop_with-SignalIsOpen none w e h = h
stop_with-SignalIsOpen (some c) w e (old, now) =
    let (lt, _) = subst (OpenSignal w.next_channel w.closed) e now in ((lt, old), tt)

stop-SignalIsOpen : (w : World) → SignalIsOpen w → SignalIsOpen (stop w)
unfolding stop
stop-SignalIsOpen w h = stop_with-SignalIsOpen w.manager.stop_signal w refl h

-- An operation that leaves the channels alone keeps the signal open.
kept-SignalIsOpen :
    (t w : World)
    → t.next_channel ≡ w.next_channel
    → t.closed ≡ w.closed
    → t.manager.stop_signal ≡ w.manager.stop_signal
    → SignalIsOpen w
    → SignalIsOpen t
kept-SignalIsOpen t w p q r h =
    subst₃ (λ n cs o. All (λ c. c < n) cs × OpenSignal n cs o) (sym p) (sym q) (sym r) h

adopt_deployer-SignalIsOpen :
    (r : Result Deployer) (w : World) → SignalIsOpen w → SignalIsOpen (adopt_deployer r w).1
unfolding adopt_deployer
adopt_deployer-SignalIsOpen (ok d) w h = h
adopt_deployer-SignalIsOpen (err x) w h = h

set_engine_status-SignalIsOpen :
    (env : Env) (e : EngineType) (w : World)
    → SignalIsOpen w
    → SignalIsOpen (set_engine_status env e w).1
unfolding set_engine_status
set_engine_status-SignalIsOpen env e w h =
    let w' = record w { manager = record (w.manager) { engine_type = e } } in
    let r = build_deployer_service env w.manager.assets_path e in
    elim (engine_beq e w.manager.engine_type)
      as (λ b. SignalIsOpen (if b then (ok tt, w) else adopt_deployer r (stop w')).1) [
        | true ↦ h
        | false ↦ adopt_deployer-SignalIsOpen r (stop w') (stop-SignalIsOpen w' h)
      ]

Step-SignalIsOpen : {w t : World} → Step w t → SignalIsOpen w → SignalIsOpen t
Step-SignalIsOpen (started w) h = unfold start in start_with-SignalIsOpen w.manager.stop_signal w h
Step-SignalIsOpen (stopped w) h = stop-SignalIsOpen w h
Step-SignalIsOpen (engine_set env e w) h = set_engine_status-SignalIsOpen env e w h
Step-SignalIsOpen (polled env wanted w) h =
    let f = update_stacks_status-frame env wanted w in
    kept-SignalIsOpen (update_stacks_status env wanted w).1 w f.5 f.4 f.1 h
Step-SignalIsOpen (iterated env w) h =
    let f = worker_iteration-frame env w in
    kept-SignalIsOpen (worker_iteration env w).1 w f.3 f.2 f.0 h

Reach-SignalIsOpen : {s t : World} → SignalIsOpen s → Reach s t → SignalIsOpen t
Reach-SignalIsOpen h here = h
Reach-SignalIsOpen h (next r st) = Step-SignalIsOpen st (Reach-SignalIsOpen h r)

OpenSignal-stop_ready :
    (n : ℕ) (cs : List ℕ) (o : Option ℕ) → OpenSignal n cs o → stop_ready o cs ≡ false
unfolding stop_ready
OpenSignal-stop_ready n cs none h = refl
OpenSignal-stop_ready n cs (some c) (_, h) = h

run_next-ne-shut_down :
    (env : Env) (o : Option EdgeStack) (w : World) → (run_next env o w).0 ≢ shut_down
unfolding run_next run_action
run_next-ne-shut_down env o w = ground arith

new_world-SignalIsOpen : (assets : Text) → SignalIsOpen (new_world assets)
unfolding new_world
new_world-SignalIsOpen assets = (tt, tt)

-- However the manager of a new agent is started, stopped, switched and polled, with each of these
-- calls whole, no worker iteration ever finds the signal: once started, a worker is never shut down.
pub worker-never_shut_down :
    (assets : Text) (env : Env) {w : World}
    → Reach (new_world assets) w
    → (worker_iteration env w).0 ≢ shut_down
worker-never_shut_down assets env {w} r =
    let h = Reach-SignalIsOpen (new_world-SignalIsOpen assets) r in
    rw (running_lem env w (OpenSignal-stop_ready _ w.closed _ h.1)) (run_next-ne-shut_down env _ w)

engine_beq_refl : (e : EngineType) → engine_beq e e ≡ true
unfolding engine_beq
engine_beq_refl e = ground arith

stop_with-engine :
    (o : Option ℕ) (w : World)
    → ((stop_with o w).manager.engine_type ≡ w.manager.engine_type)
      × ((stop_with o w).manager.deployer ≡ w.manager.deployer)
unfolding stop_with
stop_with-engine none w = (refl, refl)
stop_with-engine (some c) w = (refl, refl)

engine_beq_ne : (e f : EngineType) → e ≢ f → engine_beq e f ≡ false
unfolding engine_beq
engine_beq_ne e f h = ground arith

-- Where the deployer of another engine cannot be built, the engine is set all the same and the
-- deployer is the old one, and asking for the engine again succeeds and changes nothing.
pub set_engine_status-failed :
    (env later : Env) (e : EngineType) (w : World) (x : Text)
    → e ≢ w.manager.engine_type
    → build_deployer_service env w.manager.assets_path e ≡ err x
    → let t = (set_engine_status env e w).1 in
      ((set_engine_status env e w).0 ≡ err x)
      × (t.manager.engine_type ≡ e)
      × (t.manager.deployer ≡ w.manager.deployer)
      × (set_engine_status later e t ≡ (ok tt, t))
unfolding set_engine_status adopt_deployer stop
set_engine_status-failed env later e w x new failed =
    let w' = record w { manager = record (w.manager) { engine_type = e } } in
    let t = stop w' in
    let first : set_engine_status env e w ≡ (err x, t) =
      rw (engine_beq_ne e w.manager.engine_type new, failed) in
    rw first (
      refl,
      (stop_with-engine w.manager.stop_signal w').0,
      (stop_with-engine w.manager.stop_signal w').1,
      rw ((stop_with-engine w.manager.stop_signal w').0, engine_beq_refl e),
    )
