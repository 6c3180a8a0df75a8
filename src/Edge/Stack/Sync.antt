-- ===== src/Edge/Stack/Sync.antt =====
-- What a successful `UpdateStacksStatus` leaves, stack by stack (edge/stack/stack.go).
use agent_portainer.Prelude.{
  ℕ, ◌≡◌, refl, sym, ap, ◌∙◌, ◌≢◌, inl, inr, true, false, not, Option, none, some, List, [], ◌∷◌,
  arith, if◌then◌else◌, nat_beq_iff, ◌==◌, nat_eq, text_eq, Bool-cases, lookup, has_key,
  has_key-lookup, ok, >>-eq-ok, ◌>>=◌, ◌>>◌, return, Result-cases,
}
use mathlib.Core.Option
use mathlib.Core.Path.{subst₂}
use agent_portainer.Edge.Stack.Marking.{mark, lookup-mark_missing}
use agent_portainer.Edge.Stack.{
  EdgeStack, Env, update_found, update_stack, update_stacks, World, mark_all, update_enabled,
  update_stacks_status,
}
use agent_portainer.Edge.Stack.Update.{
  Settled, lookup-fetch_stack_ne, lookup-update_found, update_stack-frame,
}
use agent_portainer.Edge.Stack.Invariant.{lookup-IsWf, IsWf, update_stack-IsWf}

-- A Go map holds a key once.
abbrev pub HasDistinctKeys : List (ℕ × ℕ) → Type 0
HasDistinctKeys [] = Unit
HasDistinctKeys ((i, v) ∷ m) = (has_key i m ≡ false) × HasDistinctKeys m

-- What the server wants of the stack `i` is settled between the states `w` and `t`.
abbrev pub SettledIn : Env → World → World → ℕ → ℕ → Type 0
SettledIn env w t i v =
    (s : EdgeStack) × (lookup i t.manager.stacks ≡ some s)
    × Settled env w.manager.engine_type (lookup i w.manager.stacks) i v s

module _ (env : Env) where
  lookup-update_found_ne :
      (i v : ℕ) (o : Option EdgeStack) (w : World) (j : ℕ)
      → ((s : EdgeStack) → o ≡ some s → s.id ≡ i)
      → i ≢ j
      → lookup j (update_found env i v o w).1.manager.stacks ≡ lookup j w.manager.stacks
  unfolding update_found
  lookup-update_found_ne i v none w j ids ne = lookup-fetch_stack_ne env false _ w j ne
  lookup-update_found_ne i v (some s) w j ids ne = elim (Bool-cases (s.version == v)) [
    | inl same ↦ rw same
    | inr new ↦ rw new (lookup-fetch_stack_ne env true _ w j (rw (ids s refl) ne))
  ]

  lookup-update_stack_ne :
      (i v : ℕ) (w : World) (j : ℕ)
      → IsWf w.manager.stacks
      → i ≢ j
      → lookup j (update_stack env i v w).1.manager.stacks ≡ lookup j w.manager.stacks
  unfolding update_stack
  lookup-update_stack_ne i v w j wf ne =
      lookup-update_found_ne i v _ w j (λ s e. (lookup-IsWf _ i s wf e).0) ne

  lookup-update_stacks_other :
      (wanted : List (ℕ × ℕ)) (w : World) (j : ℕ)
      → IsWf w.manager.stacks
      → has_key j wanted ≡ false
      → lookup j (update_stacks env wanted w).1.manager.stacks ≡ lookup j w.manager.stacks
  unfolding update_stacks has_key
  lookup-update_stacks_other [] w j wf h = refl
  lookup-update_stacks_other ((i, v) ∷ rest) w j wf h =
      let ne : i ≢ j = λ e. ground (arith, nat_beq_iff i j) in
      let t = (update_stack env i v w).1 in
      let first = lookup-update_stack_ne i v w j wf ne in
      elim (Result-cases (update_stack env i v w).0) [
        | inl (_, e) ↦
            rw (e, ◌>>◌, ◌>>=◌)
              (lookup-update_stacks_other rest t j (update_stack-IsWf env i v w wf) (ground arith)
                ∙ first)
        | inr (x, e) ↦ rw (e, ◌>>◌, ◌>>=◌) first
      ]

  update_stack-Settled :
      (i v : ℕ) (w : World)
      → IsWf w.manager.stacks
      → (update_stack env i v w).0 ≡ ok tt
      → SettledIn env w (update_stack env i v w).1 i v
  unfolding update_stack
  update_stack-Settled i v w wf h =
      lookup-update_found env i v _ w refl (λ s e. (lookup-IsWf _ i s wf e).0) h

  pub update_stacks-Settled :
      (wanted : List (ℕ × ℕ)) (w : World) (i v : ℕ)
      → IsWf w.manager.stacks
      → HasDistinctKeys wanted
      → (update_stacks env wanted w).0 ≡ ok tt
      → lookup i wanted ≡ some v
      → SettledIn env w (update_stacks env wanted w).1 i v
  unfolding update_stacks lookup
  update_stacks-Settled [] w i v wf distinct h at_i = cc
  update_stacks-Settled ((k, u) ∷ rest) w i v wf (fresh, distinct) h at_i =
      let (first, second) = >>-eq-ok (update_stack env k u) (update_stacks env rest) w h in
      let t = (update_stack env k u w).1 in
      let wf1 = update_stack-IsWf env k u w wf in
      let end = (update_stacks env ((k, u) ∷ rest) w).1 in
      elim (Bool-cases (k == i)) [
        | inl same ↦
            let q : u ≡ v = ground arith in
            let (s, l, r) = update_stack-Settled k u w wf first in
            let l' =
              ap (λ x. lookup k x.1.manager.stacks) second
              ∙ lookup-update_stacks_other rest t k wf1 fresh
              ∙ l in
            subst₂ (λ a b. SettledIn env w end a b) ((nat_beq_iff k i).0 same) q (s, l', r)
        | inr other ↦
            let ne : k ≢ i = λ e. ground (arith, nat_beq_iff k i) in
            let (s, l, r) =
              update_stacks-Settled rest t i v wf1 distinct (ap (λ x. x.0) (sym second) ∙ h)
                (rw other at at_i) in
            (
              s,
              ap (λ x. lookup i x.1.manager.stacks) second ∙ l,
              subst₂ (λ e o. Settled env e o i v s) (update_stack-frame env k u w).0
                  (lookup-update_stack_ne k u w i wf ne) r,
            )
      ]

-- The result of the second loop for the stack `i`.
lookup-mark_all :
    (wanted : List (ℕ × ℕ)) (w : World) (i : ℕ)
    → lookup i (mark_all wanted w).1.manager.stacks
      ≡ Option.map (mark (has_key i wanted)) (lookup i w.manager.stacks)
unfolding mark_all
lookup-mark_all wanted w i = lookup-mark_missing wanted w.manager.stacks i

module _ (env : Env) (wanted : List (ℕ × ℕ)) (w : World) where
  update_enabled-wanted :
      (i v : ℕ)
      → IsWf w.manager.stacks
      → HasDistinctKeys wanted
      → (update_enabled env wanted w).0 ≡ ok tt
      → lookup i wanted ≡ some v
      → SettledIn env w (update_enabled env wanted w).1 i v
  unfolding update_enabled
  update_enabled-wanted i v wf distinct h at_i =
      let (first, second) = >>-eq-ok (update_stacks env wanted) (mark_all wanted) w h in
      let (s, l, r) = update_stacks-Settled env wanted w i v wf distinct first at_i in
      (
        s,
        ap (λ x. lookup i x.1.manager.stacks) second
            ∙ lookup-mark_all wanted _ i
            ∙ cc (has_key-lookup i wanted v at_i, ap (Option.map (mark true)) l),
        r,
      )

  update_enabled-unwanted :
      (i : ℕ)
      → IsWf w.manager.stacks
      → (update_enabled env wanted w).0 ≡ ok tt
      → has_key i wanted ≡ false
      → lookup i (update_enabled env wanted w).1.manager.stacks
        ≡ Option.map (mark false) (lookup i w.manager.stacks)
  unfolding update_enabled
  update_enabled-unwanted i wf h out =
      let (first, second) = >>-eq-ok (update_stacks env wanted) (mark_all wanted) w h in
      ap (λ x. lookup i x.1.manager.stacks) second
      ∙ lookup-mark_all wanted _ i
      ∙ cc (out, lookup-update_stacks_other env wanted w i wf out)

enabled_lem :
    (env : Env) (wanted : List (ℕ × ℕ)) (w : World)
    → w.manager.is_enabled ≡ true
    → update_stacks_status env wanted w ≡ update_enabled env wanted w
unfolding update_stacks_status
enabled_lem env wanted w = ap (λ b. if not b then return tt w else update_enabled env wanted w)

pub update_stacks_status-wanted :
    (env : Env) (wanted : List (ℕ × ℕ)) (w : World) (i v : ℕ)
    → IsWf w.manager.stacks
    → HasDistinctKeys wanted
    → w.manager.is_enabled ≡ true
    → (update_stacks_status env wanted w).0 ≡ ok tt
    → lookup i wanted ≡ some v
    → SettledIn env w (update_stacks_status env wanted w).1 i v
update_stacks_status-wanted env wanted w i v wf distinct enabled =
    rw (enabled_lem env wanted w enabled) (update_enabled-wanted env wanted w i v wf distinct)

-- While the manager is enabled, an update that returns no error marks each stack that the server
-- does not name for deletion, pending and otherwise as it was, and adds none.
pub update_stacks_status-unwanted :
    (env : Env) (wanted : List (ℕ × ℕ)) (w : World) (i : ℕ)
    → IsWf w.manager.stacks
    → w.manager.is_enabled ≡ true
    → (update_stacks_status env wanted w).0 ≡ ok tt
    → has_key i wanted ≡ false
    → lookup i (update_stacks_status env wanted w).1.manager.stacks
      ≡ Option.map (mark false) (lookup i w.manager.stacks)
update_stacks_status-unwanted env wanted w i wf enabled =
    rw (enabled_lem env wanted w enabled) (update_enabled-unwanted env wanted w i wf)
