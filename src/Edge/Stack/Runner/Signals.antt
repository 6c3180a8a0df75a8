-- ===== src/Edge/Stack/Runner/Signals.antt =====
-- What `Start`, `Stop` and `SetEngineStatus` leave of the manager (edge/stack/stack.go).
use agent_portainer.Prelude.{
  ℕ, ◌+◌, ◌≡◌, refl, ◌⊎◌, inl, inr, true, false, Option, none, some, List, ◌∷◌, arith, nat_eq,
  text_eq, by_test, by_test, Result, ok, err,
}
use agent_portainer.Edge.Stack.{World, EngineType, Deployer, Env}
use agent_portainer.Edge.Stack.Runner.{
  start, start_with, stop, stop_with, engine_beq, adopt_deployer, set_engine_status,
  build_deployer_service,
}

-- A stopped manager is disabled, and the channel on which its worker waits is closed.
abbrev pub StoppedFrom : Option ℕ → World → World → Type 0
StoppedFrom none w t = t ≡ w
StoppedFrom (some c) w t =
    (t.manager.is_enabled ≡ false)
    × (t.manager.stop_signal ≡ none)
    × (t.closed ≡ c ∷ w.closed)
    × (t.workers ≡ w.workers)
    × (t.next_channel ≡ w.next_channel)

abbrev pub Stopped : World → World → Type 0
Stopped w t = StoppedFrom w.manager.stop_signal w t

stop_with-StoppedFrom : (o : Option ℕ) (w : World) → StoppedFrom o w (stop_with o w)
unfolding stop_with
stop_with-StoppedFrom none w = refl
stop_with-StoppedFrom (some c) w = (refl, refl, refl, refl, refl)

pub stop-Stopped : (w : World) → Stopped w (stop w)
unfolding stop
stop-Stopped w = stop_with-StoppedFrom w.manager.stop_signal w

-- A manager that had no channel has a new one, a worker more, and is enabled; one that had is as it was.
abbrev pub StartedFrom : Option ℕ → World → World → Type 0
StartedFrom none w t =
    (t.manager.is_enabled ≡ true)
    × (t.manager.stop_signal ≡ some w.next_channel)
    × (t.workers ≡ w.workers + 1)
    × (t.closed ≡ w.closed)
StartedFrom (some c) w t = t ≡ w

abbrev pub Started : World → World → Type 0
Started w t = StartedFrom w.manager.stop_signal w t

start_with-StartedFrom : (o : Option ℕ) (w : World) → StartedFrom o w (start_with o w)
unfolding start_with
start_with-StartedFrom none w = (refl, refl, refl, refl)
start_with-StartedFrom (some c) w = refl

pub start-Started : (w : World) → Started w (start w)
unfolding start
start-Started w = start_with-StartedFrom w.manager.stop_signal w

start_with-engine :
    (o : Option ℕ) (w : World) → (start_with o w).manager.engine_type ≡ w.manager.engine_type
unfolding start_with
start_with-engine none w = refl
start_with-engine (some c) w = refl

pub start-engine : (w : World) → (start w).manager.engine_type ≡ w.manager.engine_type
unfolding start
start-engine w = start_with-engine w.manager.stop_signal w

-- The closed channels once a worker that waits on the channel has been stopped.
abbrev pub closed_after : Option ℕ → World → List ℕ
closed_after none w = w.closed
closed_after (some c) w = c ∷ w.closed

-- The engine is the one given; a change of the engine leaves no channel.
abbrev pub Switched : EngineType → World → World → Type 0
Switched e w t =
    (t.manager.engine_type ≡ e)
    × (t.manager.stop_signal ≡ none)
    × (t.closed ≡ closed_after w.manager.stop_signal w)
    × (t.workers ≡ w.workers)
    × (t.next_channel ≡ w.next_channel)

stop_with-Switched :
    (o : Option ℕ) (e : EngineType) (w : World)
    → w.manager.stop_signal ≡ o
    → let t = stop_with o (record w { manager = record (w.manager) { engine_type = e } }) in
      (t.manager.engine_type ≡ e)
      × (t.manager.stop_signal ≡ none)
      × (t.closed ≡ closed_after o w)
      × (t.workers ≡ w.workers)
      × (t.next_channel ≡ w.next_channel)
unfolding stop_with
stop_with-Switched none e w h = (refl, h, refl, refl, refl)
stop_with-Switched (some c) e w h = (refl, refl, refl, refl, refl)

-- The engine is the same and nothing has changed, or it is switched.
abbrev pub EngineSet : EngineType → World → Result (Unit {0}) × World → Type 0
EngineSet e w (r, t) = ((w.manager.engine_type ≡ e) × (r ≡ ok tt) × (t ≡ w)) ⊎ Switched e w t

engine_beq_eq : (e f : EngineType) → engine_beq e f ≡ true → f ≡ e
unfolding engine_beq
engine_beq_eq e f h = ground arith

adopt_deployer-Switched :
    (r : Result Deployer) (e : EngineType) (w t : World)
    → Switched e w t
    → Switched e w (adopt_deployer r t).1
unfolding adopt_deployer
adopt_deployer-Switched (err x) e w t h = h
adopt_deployer-Switched (ok d) e w t h = h

pub set_engine_status-EngineSet :
    (env : Env) (e : EngineType) (w : World) → EngineSet e w (set_engine_status env e w)
unfolding set_engine_status stop
set_engine_status-EngineSet env e w =
    by_test (EngineSet e w) (engine_beq e w.manager.engine_type)
      (λ h. inl (engine_beq_eq e w.manager.engine_type h, refl, refl))
      (λ _. inr (
        adopt_deployer-Switched (build_deployer_service env w.manager.assets_path e) e w _
          (stop_with-Switched w.manager.stop_signal e w refl)))
