-- ===== src/Edge/Stack/Stale.antt =====
-- What a failed fetch leaves behind for a stack that the manager knows (edge/stack/stack.go).
use agent_portainer.Prelude.{
  ℕ, ◌≡◌, refl, ap, ◌∙◌, ◌≢◌, inl, inr, some, arith, nat_beq_iff, Text, ◌==◌, nat_eq, text_eq,
  Bool-cases, lookup, lookup-insert, ok, err,
}
use agent_portainer.Edge.Stack.{
  Env, update_stack, update_found, EdgeStack, World, update, pending, fetch_stack, log_call, Call,
  put_stack,
}

-- The stack as it is marked before the configuration is asked for.
abbrev pub marked : ℕ → EdgeStack → EdgeStack
marked v s = record s { action = update; version = v; status = pending }

update_found-fetch_failed :
    (env : Env) (i v : ℕ) (s : EdgeStack) (w : World) (x : Text)
    → s.version ≢ v
    → env.get_edge_stack_config s.id ≡ err x
    → update_found env i v (some s) w
      ≡ (err x, log_call (Call.get_config s.id) (put_stack (marked v s) w))
unfolding update_found fetch_stack
update_found-fetch_failed env i v s w x old e = elim (Bool-cases (s.version == v)) [
  | inl same ↦ absurd (old ((nat_beq_iff s.version v).0 same))
  | inr new ↦ rw new (rw e)
]

update_found-same_version :
    (env : Env) (i v : ℕ) (s : EdgeStack) (w : World)
    → s.version ≡ v
    → update_found env i v (some s) w ≡ (ok tt, w)
unfolding update_found
update_found-same_version env i v s w same = simp ((nat_beq_iff s.version v).1 same)

-- When the configuration of a known stack cannot be fetched for a new version, the stack is already
-- pending at that version with its old name and file, and any later request for the version finds
-- nothing to do: it succeeds, changes nothing and makes no call.
pub update_stack-fetch_failed :
    (env later : Env) (i v : ℕ) (s : EdgeStack) (w : World) (x : Text)
    → s.id ≡ i
    → lookup i w.manager.stacks ≡ some s
    → s.version ≢ v
    → env.get_edge_stack_config i ≡ err x
    → let t = (update_stack env i v w).1 in
      ((update_stack env i v w).0 ≡ err x)
      × (lookup i t.manager.stacks ≡ some (marked v s))
      × (update_stack later i v t ≡ (ok tt, t))
unfolding update_stack
update_stack-fetch_failed env later i v s w x same at_i old e =
    let failed =
      ap (λ o. update_found env i v o w) at_i
      ∙ update_found-fetch_failed env i v s w x old
          (cc (ap (λ j. env.get_edge_stack_config j) same)) in
    let t = log_call (Call.get_config s.id) (put_stack (marked v s) w) in
    let l : lookup i t.manager.stacks ≡ some (marked v s) =
      ground (arith, lookup-insert s.id i (marked v s) w.manager.stacks, nat_beq_iff s.id i) in
    rw failed (
      refl,
      l,
      ap (λ o. update_found later i v o t) l
          ∙ update_found-same_version later i v (marked v s) t refl,
    )
