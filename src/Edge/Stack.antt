-- ===== src/Edge/Stack.antt =====
-- The Edge stack manager (edge/stack/stack.go): its data, and the operations that change it.
-- A pointer to a stack is the stack's identifier: the map holds one object for each, and the
-- fields that the code writes through such a pointer are written into the map at once.
mod Update
mod Invariant
mod Sync
mod Marking
mod Stale
pub mod Runner
use agent_portainer.Prelude.{
  ℕ, zero, suc, ◌+◌, ◌-◌, ◌*◌, ◌/◌, ◌%◌, ◌≤◌, ◌<◌, ◌≡◌, refl, sym, ap, ◌∙◌, ◌≢◌, ◌↔◌, ◌⊎◌, inl, inr,
  Bool, true, false, not, ◌&&◌, ◌||◌, Option, none, some, List, [], ◌∷◌, ◌++◌, map, arith, ltb, leb,
  if◌then◌else◌, nat_beq, nat_beq_iff, Text, codes, text_beq, text_beq_iff, Equality, ◌==◌, nat_eq,
  text_eq, Bool-cases, Option-cases, length, length-append, All, All-append, lookup, insert, erase,
  has_key, lookup-insert, lookup-erase, has_key-insert, has_key-erase, beq_refl, itoa, Result, ok,
  err, Method, >>-keeps, >>-eq-ok, ◌>>=◌, ◌>>◌, return, lift, get, modify, Result-cases,
}

-- The Go constants count from 1; 0, the zero value of an engine that is not set, is `engine_unset`.
pub data EngineType : Type 0 where
  engine_unset docker_standalone docker_swarm kubernetes : EngineType

pub data StackStatus : Type 0 where
  pending done failed : StackStatus

pub data StackAction : Type 0 where
  deploy update delete idle : StackAction

-- `int(edgeStackStatusOk)` and the two below it.
abbrev pub edge_stack_status_ok : ℕ
edge_stack_status_ok = 1

abbrev pub edge_stack_status_error : ℕ
edge_stack_status_error = 2

abbrev pub edge_stack_status_acknowledged : ℕ
edge_stack_status_acknowledged = 3

pub record EdgeStack : Type 0 where
  pub id : ℕ
  pub name : Text
  pub version : ℕ
  pub file_folder : Text
  pub file_name : Text
  pub status : StackStatus
  pub action : StackAction

-- The interface value `agent.Deployer`: which service was built.
pub data Deployer : Type 0 where
  compose_service swarm_service kubernetes_service : Deployer

-- `stop_signal` is nil or a channel, which its number tells from other channels.
pub record Manager : Type 0 where
  pub engine_type : EngineType
  pub stacks : List (ℕ × EdgeStack)
  pub stop_signal : Option ℕ
  pub deployer : Option Deployer
  pub is_enabled : Bool
  pub assets_path : Text

pub record StackConfig : Type 0 where
  pub name : Text
  pub file_content : Text

-- The calls that leave the manager, as they are made.
pub data Call : Type 0 where
  get_config : ℕ → Call
  write_file : Text → Text → Text → Call
  set_status : ℕ → ℕ → Text → Call
  run_deploy : Deployer → Text → Text → Call
  run_remove : Deployer → Text → Text → Call
  remove_file : Text → Call

-- What those calls return: the Portainer API, the file system and the deployment services.
pub record Env : Type 0 where
  pub get_edge_stack_config : ℕ → Result StackConfig
  pub write_file : Text → Text → Text → Result (Unit {0})
  pub set_edge_stack_status : ℕ → ℕ → Text → Result (Unit {0})
  pub run_deploy : Deployer → Text → Text → Result (Unit {0})
  pub run_remove : Deployer → Text → Text → Result (Unit {0})
  pub remove_file : Text → Result (Unit {0})
  pub new_compose_deployer : Text → Result (Unit {0})

-- The manager with what lies around it: the channels closed so far, the number of the next channel,
-- how many worker goroutines were started, and the calls made, the latest first.
pub record World : Type 0 where
  pub manager : Manager
  pub closed : List ℕ
  pub next_channel : ℕ
  pub workers : ℕ
  pub calls : List Call

abbrev pub M : Type 0 → Type 0
M A = Method World A

abbrev pub set_stacks : List (ℕ × EdgeStack) → World → World
set_stacks m w = record w { manager = record (w.manager) { stacks = m } }

abbrev pub log_call : Call → World → World
log_call c w = record w { calls = c ∷ w.calls }

-- `manager.stacks[stack.ID] = stack`
abbrev pub put_stack : EdgeStack → World → World
put_stack s w = set_stacks (insert s.id s w.manager.stacks) w

-- A write through the pointer `stack`: the map sees it if the pointer came from the map.
abbrev pub write_through : Bool → EdgeStack → World → World
write_through known s w = if known then put_stack s w else w

abbrev pub edge_stack_files_path : Text
edge_stack_files_path = codes "/tmp/edge_stacks"

-- `fmt.Sprintf("%s/%d", agent.EdgeStackFilesPath, stackID)`
pub stack_folder : ℕ → Text
stack_folder i = edge_stack_files_path ++ codes "/" ++ itoa i

pub stack_file_name : EngineType → Text → Text
stack_file_name kubernetes name = name ++ codes ".yml"
stack_file_name _ name = codes "docker-compose.yml"

module _ (env : Env) where
  -- The loop's body in three parts, of which each calls the next. The stack is in the map from here
  -- on, whether the server can be told of it or not.
  pub acknowledge : EdgeStack → M (Unit {0})
  acknowledge s = do
    modify (put_stack s)
    modify (log_call (Call.set_status s.id edge_stack_status_acknowledged []))
    lift (env.set_edge_stack_status s.id edge_stack_status_acknowledged [])

  pub save_file : Bool → EdgeStack → Text → M (Unit {0})
  save_file known s content = do
    modify (write_through known s)
    w ← get
    let folder = stack_folder s.id
    let file_name = stack_file_name w.manager.engine_type s.name
    modify (log_call (Call.write_file folder file_name content))
    lift (env.write_file folder file_name content)
    acknowledge (record s { file_folder = folder; file_name = file_name })

  pub fetch_stack : Bool → EdgeStack → M (Unit {0})
  fetch_stack known s = do
    modify (write_through known s)
    modify (log_call (Call.get_config s.id))
    config ← lift (env.get_edge_stack_config s.id)
    save_file known (record s { name = config.name }) config.file_content

  -- The loop's body: one entry of the map that the server sent, and what the manager has under its
  -- identifier. `continue` is the return without a call.
  pub update_found : ℕ → ℕ → Option EdgeStack → M (Unit {0})
  update_found i v none w =
      fetch_stack false
        (record {
          id = i;
          name = [];
          version = v;
          file_folder = [];
          file_name = [];
          status = pending;
          action = deploy;
        })
        w
  update_found i v (some s) w =
      if s.version == v
      then return tt w
      else fetch_stack true (record s { action = update; version = v; status = pending }) w

  pub update_stack : ℕ → ℕ → M (Unit {0})
  unfolding update_found
  update_stack i v w = update_found i v (lookup i w.manager.stacks) w

  pub update_stacks : List (ℕ × ℕ) → M (Unit {0})
  update_stacks [] = return tt
  update_stacks ((i, v) ∷ rest) = do update_stack i v; update_stacks rest

-- The second loop: what the server no longer names is marked for deletion.
pub mark_missing : List (ℕ × ℕ) → List (ℕ × EdgeStack) → List (ℕ × EdgeStack)
mark_missing wanted [] = []
mark_missing wanted ((i, s) ∷ m) =
    (i, if has_key i wanted then s else record s { action = delete; status = pending })
    ∷ mark_missing wanted m

pub mark_all : List (ℕ × ℕ) → M (Unit {0})
mark_all wanted = modify (λ x. set_stacks (mark_missing wanted x.manager.stacks) x)

-- `UpdateStacksStatus` while the manager is enabled. It holds the lock from beginning to end.
pub update_enabled : Env → List (ℕ × ℕ) → M (Unit {0})
update_enabled env wanted = do update_stacks env wanted; mark_all wanted

pub update_stacks_status : Env → List (ℕ × ℕ) → M (Unit {0})
unfolding update_enabled mark_all
update_stacks_status env wanted w =
    if not w.manager.is_enabled then return tt w else update_enabled env wanted w
