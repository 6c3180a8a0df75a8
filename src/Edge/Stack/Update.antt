-- ===== src/Edge/Stack/Update.antt =====
-- What `UpdateStacksStatus` does to the stacks (edge/stack/stack.go).
use agent_portainer.Prelude.{
  ℕ, ◌≡◌, refl, ap, ◌≢◌, ◌⊎◌, inl, inr, Bool, true, false, not, Option, none, some, List, [], ◌∷◌,
  arith, if◌then◌else◌, nat_beq_iff, Text, ◌==◌, nat_eq, text_eq, Bool-cases, lookup, lookup-insert,
  beq_refl, ok, >>-keeps, return, Result-cases,
}
use agent_portainer.Edge.Stack.{
  EngineType, EdgeStack, Env, World, StackConfig, stack_folder, stack_file_name, fetch_stack,
  save_file, acknowledge, write_through, update_found, StackAction, Option, pending, deploy, update,
  update_stack, update_stacks, update_stacks_status, update_enabled, mark_all,
}

abbrev pub placed : EngineType → EdgeStack → EdgeStack
placed e s = record s { file_folder = stack_folder s.id; file_name = stack_file_name e s.name }

-- A stack as it is stored once its file is on the disk.
abbrev pub stored : EngineType → EdgeStack → StackConfig → EdgeStack
stored e s c = placed e (record s { name = c.name })

-- Reading the map after a write through the pointer.
lookup-write :
    (known : Bool) (s : EdgeStack) (w : World) (j : ℕ)
    → lookup j (write_through known s w).manager.stacks ≡ (
        if known
        then (if s.id == j then some s else lookup j w.manager.stacks)
        else lookup j w.manager.stacks)
lookup-write true s w j = lookup-insert s.id j s w.manager.stacks
lookup-write false s w j = refl

lookup-acknowledge :
    (env : Env) (s : EdgeStack) (w : World) (j : ℕ)
    → lookup j (acknowledge env s w).1.manager.stacks
      ≡ (if s.id == j then some s else lookup j w.manager.stacks)
unfolding acknowledge
lookup-acknowledge env s w j = lookup-insert s.id j s w.manager.stacks

-- The stack as the file's writing leaves it, and whether it is in the map.
lookup-save_file :
    (env : Env) (known : Bool) (s : EdgeStack) (content : Text) (w : World) (j : ℕ)
    → (save_file env known s content w).0 ≡ ok tt
    → lookup j (save_file env known s content w).1.manager.stacks
      ≡ (if s.id == j then some (placed w.manager.engine_type s) else lookup j w.manager.stacks)
unfolding save_file
lookup-save_file env known s content w j h =
    grind (arith, lookup-acknowledge, lookup-write known s w j)

-- A fetch that succeeds stores the stack under its identifier and touches no other.
pub lookup-fetch_stack :
    (env : Env) (known : Bool) (s : EdgeStack) (w : World) (j : ℕ)
    → (fetch_stack env known s w).0 ≡ ok tt
    → (c : StackConfig) × (env.get_edge_stack_config s.id ≡ ok c)
      × (lookup j (fetch_stack env known s w).1.manager.stacks ≡ (
          if s.id == j then some (stored w.manager.engine_type s c) else lookup j w.manager.stacks))
unfolding fetch_stack
lookup-fetch_stack env known s w j h = elim (Result-cases (env.get_edge_stack_config s.id)) [
  | inl (c, e) ↦ (c, e, grind (arith, lookup-save_file, lookup-write known s w j))
  | inr (x, e) ↦ ground arith
]

-- On every path: other stacks and the manager's other fields are left alone, and a stack that is in
-- the map stays there.
abbrev pub SameButStacks : World → World → Type 0
SameButStacks t w =
    (t.manager.engine_type ≡ w.manager.engine_type)
    × (t.manager.stop_signal ≡ w.manager.stop_signal)
    × (t.manager.deployer ≡ w.manager.deployer)
    × (t.manager.is_enabled ≡ w.manager.is_enabled)
    × (t.closed ≡ w.closed)
    × (t.next_channel ≡ w.next_channel)
    × (t.workers ≡ w.workers)

save_file-frame :
    (env : Env) (known : Bool) (s : EdgeStack) (content : Text) (w : World)
    → SameButStacks (save_file env known s content w).1 w
unfolding save_file acknowledge
save_file-frame env true s content w = ground arith
save_file-frame env false s content w = ground arith

fetch_stack-frame :
    (env : Env) (known : Bool) (s : EdgeStack) (w : World)
    → SameButStacks (fetch_stack env known s w).1 w
unfolding fetch_stack
fetch_stack-frame env true s w = grind (arith, save_file-frame)
fetch_stack-frame env false s w = grind (arith, save_file-frame)

update_found-frame :
    (env : Env) (i v : ℕ) (o : Option EdgeStack) (w : World)
    → SameButStacks (update_found env i v o w).1 w
unfolding update_found
update_found-frame env i v none w = fetch_stack-frame env false _ w
update_found-frame env i v (some s) w = grind (arith, fetch_stack-frame env true)

lookup-save_file_ne :
    (env : Env) (known : Bool) (s : EdgeStack) (content : Text) (w : World) (j : ℕ)
    → s.id ≢ j
    → lookup j (save_file env known s content w).1.manager.stacks ≡ lookup j w.manager.stacks
unfolding save_file
lookup-save_file_ne env known s content w j h =
    grind (arith, lookup-acknowledge, lookup-write known s w j, nat_beq_iff s.id j)

pub lookup-fetch_stack_ne :
    (env : Env) (known : Bool) (s : EdgeStack) (w : World) (j : ℕ)
    → s.id ≢ j
    → lookup j (fetch_stack env known s w).1.manager.stacks ≡ lookup j w.manager.stacks
unfolding fetch_stack
lookup-fetch_stack_ne env known s w j h =
    grind (arith, lookup-save_file_ne, lookup-write known s w j, nat_beq_iff s.id j)

pub update_stack-frame :
    (env : Env) (i v : ℕ) (w : World) → SameButStacks (update_stack env i v w).1 w
unfolding update_stack
update_stack-frame env i v w = update_found-frame env i v (lookup i w.manager.stacks) w

pub SameButStacks-trans :
    (u t w : World) → SameButStacks u t → SameButStacks t w → SameButStacks u w
SameButStacks-trans u t w p q = ground arith

update_stacks-frame :
    (env : Env) (wanted : List (ℕ × ℕ)) (w : World) → SameButStacks (update_stacks env wanted w).1 w
unfolding update_stacks
update_stacks-frame env [] w = ground arith
update_stacks-frame env ((i, v) ∷ rest) w =
    >>-keeps (λ t. SameButStacks t w) (update_stack env i v) (update_stacks env rest) w
      (update_stack-frame env i v w)
      (λ t h.
        SameButStacks-trans (update_stacks env rest t).1 t w (update_stacks-frame env rest t) h)

pub update_stacks_status-frame :
    (env : Env) (wanted : List (ℕ × ℕ)) (w : World)
    → SameButStacks (update_stacks_status env wanted w).1 w
unfolding update_stacks_status
update_stacks_status-frame env wanted w =
    elim w.manager.is_enabled
      as (λ b. SameButStacks (if not b then return tt w else update_enabled env wanted w).1 w) [
        | true ↦
            >>-keeps (λ t. SameButStacks t w) (update_stacks env wanted) (mark_all wanted) w
              (update_stacks-frame env wanted w) (λ t h. h)
        | false ↦ ground arith
      ]

-- What the manager should hold for a stack that the server wants at version `v`: the stack as it
-- was if it had that version, and else a pending one with the file just fetched.
abbrev pub Refreshed : Env → EngineType → StackAction → ℕ → ℕ → EdgeStack → Type 0
Refreshed env e a i v s =
    (c : StackConfig) × (env.get_edge_stack_config i ≡ ok c)
    × (s ≡ record {
      id = i;
      name = c.name;
      version = v;
      file_folder = stack_folder i;
      file_name = stack_file_name e c.name;
      status = pending;
      action = a;
    })

abbrev pub Settled : Env → EngineType → Option EdgeStack → ℕ → ℕ → EdgeStack → Type 0
Settled env e none i v s = Refreshed env e deploy i v s
Settled env e (some o) i v s = ((o.version ≡ v) × (s ≡ o)) ⊎ Refreshed env e update i v s

-- The stack that a successful fetch leaves under its own identifier.
fetched :
    (env : Env) (known : Bool) (s : EdgeStack) (w : World)
    → (fetch_stack env known s w).0 ≡ ok tt
    → (c : StackConfig) × (env.get_edge_stack_config s.id ≡ ok c)
      × (lookup s.id (fetch_stack env known s w).1.manager.stacks
          ≡ some (stored w.manager.engine_type s c))
fetched env known s w h =
    let (c, e, l) = lookup-fetch_stack env known s w s.id h in (c, e, rw (beq_refl s.id) at l)

fetched-Refreshed :
    (env : Env) (known : Bool) (s : EdgeStack) (w : World) {i : ℕ}
    → s.id ≡ i
    → s.status ≡ pending
    → (fetch_stack env known s w).0 ≡ ok tt
    → (t : EdgeStack) × (lookup i (fetch_stack env known s w).1.manager.stacks ≡ some t)
      × Refreshed env w.manager.engine_type s.action i s.version t
fetched-Refreshed env known s w {i} p q h =
    let (c, e, l) = fetched env known s w h in
    (
      stored w.manager.engine_type s c,
      cc (ap (λ j. lookup j (fetch_stack env known s w).1.manager.stacks) p),
      (c, cc (ap (λ j. env.get_edge_stack_config j) p), ground arith),
    )

pub lookup-update_found :
    (env : Env) (i v : ℕ) (o : Option EdgeStack) (w : World)
    → lookup i w.manager.stacks ≡ o
    → ((s : EdgeStack) → o ≡ some s → s.id ≡ i)
    → (update_found env i v o w).0 ≡ ok tt
    → (s : EdgeStack) × (lookup i (update_found env i v o w).1.manager.stacks ≡ some s)
      × Settled env w.manager.engine_type o i v s
unfolding update_found
lookup-update_found env i v none w at_i ids h = fetched-Refreshed env false _ w refl refl h
lookup-update_found env i v (some s) w at_i ids h = elim (Bool-cases (s.version == v)) [
  | inl same ↦ (s, rw same at_i, inl ((nat_beq_iff s.version v).0 same, refl))
  | inr new ↦
      let (t, l, r) =
        fetched-Refreshed env true (record s { action = update; version = v; status = pending }) w
          (ids s refl) refl (rw new at h) in
      (t, rw new l, inr r)
]
