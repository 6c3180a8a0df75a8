-- ===== src/Edge/Stack/Invariant.antt =====
-- The invariant of the stack map (edge/stack/stack.go): each stack lies under its own identifier, and
-- is pending exactly while it has an action to run.
use agent_portainer.Prelude.{
  ℕ, ◌≡◌, refl, ap, ◌∙◌, inl, inr, Bool, true, false, not, ◌||◌, Option, none, some, List, [], ◌∷◌,
  arith, if◌then◌else◌, nat_beq_iff, Text, ◌==◌, nat_eq, text_eq, Bool-cases, lookup, insert, erase,
  has_key, has_key-insert, has_key-erase, >>-keeps, return, Result-cases,
}
use agent_portainer.Edge.Stack.Marking.{mark}
use agent_portainer.Edge.Stack.{
  EdgeStack, StackStatus, StackAction, World, Env, mark_missing, write_through, save_file,
  fetch_stack, update_found, update_stacks, acknowledge, log_call, update_stack, stack_folder, Call,
  stack_file_name, update_stacks_status, pending, idle, update_enabled, mark_all,
}

abbrev pub is_pending : StackStatus → Bool
is_pending pending = true
is_pending _ = false

abbrev pub is_idle : StackAction → Bool
is_idle idle = true
is_idle _ = false

abbrev pub Consistent : EdgeStack → Type 0
Consistent s = is_pending s.status ≡ not (is_idle s.action)

abbrev pub IsWf : List (ℕ × EdgeStack) → Type 0
IsWf [] = Unit
IsWf ((i, s) ∷ m) = (s.id ≡ i) × Consistent s × (has_key i m ≡ false) × IsWf m

pub lookup-IsWf :
    (m : List (ℕ × EdgeStack)) (i : ℕ) (s : EdgeStack)
    → IsWf m
    → lookup i m ≡ some s
    → (s.id ≡ i) × Consistent s
unfolding lookup
lookup-IsWf [] i s wf h = cc
lookup-IsWf ((j, t) ∷ m) i s (same, c, _, wf) h =
    ground (arith, nat_beq_iff j i, lookup-IsWf m i s wf)

pub insert-IsWf :
    (s : EdgeStack) (m : List (ℕ × EdgeStack)) → Consistent s → IsWf m → IsWf (insert s.id s m)
unfolding insert has_key
insert-IsWf s [] c wf = (refl, c, refl, tt)
insert-IsWf s ((j, t) ∷ m) c (same, d, fresh, wf) = elim (Bool-cases (j == s.id)) [
  | inl hit ↦ rw hit (refl, c, rw (← (nat_beq_iff j s.id).0 hit) fresh, wf)
  | inr miss ↦ rw miss (
    same,
    d,
    rw has_key-insert (ground (arith, nat_beq_iff j s.id, nat_beq_iff s.id j)),
    insert-IsWf s m c wf,
  )
]

pub erase-IsWf : (k : ℕ) (m : List (ℕ × EdgeStack)) → IsWf m → IsWf (erase k m)
unfolding erase
erase-IsWf k [] wf = tt
erase-IsWf k ((j, t) ∷ m) (same, d, fresh, wf) = elim (Bool-cases (j == k)) [
  | inl hit ↦ rw hit (erase-IsWf k m wf)
  | inr miss ↦ rw miss (same, d, has_key-erase k j m ∙ ground arith, erase-IsWf k m wf)
]

write_through-IsWf :
    (known : Bool) (s : EdgeStack) (w : World)
    → Consistent s
    → IsWf w.manager.stacks
    → IsWf (write_through known s w).manager.stacks
write_through-IsWf true s w c wf = insert-IsWf s _ c wf
write_through-IsWf false s w c wf = wf

module _ (env : Env) where
  save_file-IsWf :
      (known : Bool) (s : EdgeStack) (content : Text) (w : World)
      → Consistent s
      → IsWf w.manager.stacks
      → IsWf (save_file env known s content w).1.manager.stacks
  unfolding save_file acknowledge
  save_file-IsWf known s content w c wf =
      let w1 = write_through known s w in
      let wf1 : IsWf w1.manager.stacks = write_through-IsWf known s w c wf in
      let folder = stack_folder s.id in
      let file_name = stack_file_name w1.manager.engine_type s.name in
      elim (Result-cases (env.write_file folder file_name content)) [
        | inl (_, e) ↦
            rw e (insert-IsWf (record s { file_folder = folder; file_name = file_name }) _ c wf1)
        | inr (x, e) ↦ rw e wf1
      ]

  fetch_stack-IsWf :
      (known : Bool) (s : EdgeStack) (w : World)
      → Consistent s
      → IsWf w.manager.stacks
      → IsWf (fetch_stack env known s w).1.manager.stacks
  unfolding fetch_stack
  fetch_stack-IsWf known s w c wf =
      let w1 = write_through known s w in
      let wf1 : IsWf w1.manager.stacks = write_through-IsWf known s w c wf in
      elim (Result-cases (env.get_edge_stack_config s.id)) [
        | inl (d, e) ↦ rw e (
            save_file-IsWf known (record s { name = d.name }) d.file_content
              (log_call (Call.get_config s.id) w1) c wf1)
        | inr (x, e) ↦ rw e wf1
      ]

  update_found-IsWf :
      (i v : ℕ) (o : Option EdgeStack) (w : World)
      → IsWf w.manager.stacks
      → IsWf (update_found env i v o w).1.manager.stacks
  unfolding update_found
  update_found-IsWf i v none w wf = fetch_stack-IsWf false _ w refl wf
  update_found-IsWf i v (some s) w wf = elim (Bool-cases (s.version == v)) [
    | inl same ↦ rw same wf
    | inr new ↦ rw new (fetch_stack-IsWf true _ w refl wf)
  ]

  pub update_stack-IsWf :
      (i v : ℕ) (w : World) → IsWf w.manager.stacks → IsWf (update_stack env i v w).1.manager.stacks
  unfolding update_stack
  update_stack-IsWf i v w wf = update_found-IsWf i v (lookup i w.manager.stacks) w wf

  pub update_stacks-IsWf :
      (wanted : List (ℕ × ℕ)) (w : World)
      → IsWf w.manager.stacks
      → IsWf (update_stacks env wanted w).1.manager.stacks
  unfolding update_stacks
  update_stacks-IsWf [] w wf = wf
  update_stacks-IsWf ((i, v) ∷ rest) w wf =
      >>-keeps (λ x. IsWf x.manager.stacks) (update_stack env i v) (update_stacks env rest) w
        (update_stack-IsWf i v w wf) (update_stacks-IsWf rest)

mark-Consistent : (wanted : Bool) (s : EdgeStack) → Consistent s → Consistent (mark wanted s)
mark-Consistent true s c = c
mark-Consistent false s c = refl

mark-id : (wanted : Bool) (s : EdgeStack) → (mark wanted s).id ≡ s.id
mark-id true s = refl
mark-id false s = refl

has_key-mark_missing :
    (wanted : List (ℕ × ℕ)) (m : List (ℕ × EdgeStack)) (i : ℕ)
    → has_key i (mark_missing wanted m) ≡ has_key i m
unfolding mark_missing has_key
has_key-mark_missing wanted [] i = refl
has_key-mark_missing wanted ((j, s) ∷ m) i = ap (λ b. j == i || b) (has_key-mark_missing wanted m i)

pub mark_missing-IsWf :
    (wanted : List (ℕ × ℕ)) (m : List (ℕ × EdgeStack)) → IsWf m → IsWf (mark_missing wanted m)
unfolding mark_missing
mark_missing-IsWf wanted [] wf = tt
mark_missing-IsWf wanted ((j, s) ∷ m) (same, c, fresh, wf) = (
  mark-id (has_key j wanted) s ∙ same,
  mark-Consistent (has_key j wanted) s c,
  has_key-mark_missing wanted m j ∙ fresh,
  mark_missing-IsWf wanted m wf,
)

-- An update from the server, also one that stops with an error, keeps the map of stacks well formed:
-- each key stands once and is the identifier of its stack, and a stack is pending exactly if it has an
-- action left.
pub update_stacks_status-IsWf :
    (env : Env) (wanted : List (ℕ × ℕ)) (w : World)
    → IsWf w.manager.stacks
    → IsWf (update_stacks_status env wanted w).1.manager.stacks
unfolding update_stacks_status
update_stacks_status-IsWf env wanted w wf =
    elim w.manager.is_enabled
      as (λ b. IsWf (if not b then return tt w else update_enabled env wanted w).1.manager.stacks) [
        | true ↦
            >>-keeps (λ x. IsWf x.manager.stacks) (update_stacks env wanted) (mark_all wanted) w
              (update_stacks-IsWf env wanted w wf)
              (λ x h. mark_missing-IsWf wanted x.manager.stacks h)
        | false ↦ wf
      ]
