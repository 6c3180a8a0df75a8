-- ===== src/Edge/Stack/Marking.antt =====
-- Which stacks the second loop of `UpdateStacksStatus` marks for deletion (edge/stack/stack.go).
use agent_portainer.Prelude.{
  ℕ, ◌≡◌, refl, Bool, List, [], ◌∷◌, arith, if◌then◌else◌, nat_eq, nat_beq_iff, lookup, has_key,
}
use mathlib.Core.Option
use agent_portainer.Edge.Stack.{EdgeStack, delete, pending, mark_missing}

-- What marking does to one stack.
abbrev pub mark : Bool → EdgeStack → EdgeStack
mark wanted s = if wanted then s else record s { action = delete; status = pending }

pub lookup-mark_missing :
    (wanted : List (ℕ × ℕ)) (m : List (ℕ × EdgeStack)) (i : ℕ)
    → lookup i (mark_missing wanted m) ≡ Option.map (mark (has_key i wanted)) (lookup i m)
unfolding mark_missing lookup
lookup-mark_missing wanted [] i = refl
lookup-mark_missing wanted ((j, s) ∷ m) i =
    ground (arith, nat_beq_iff j i, lookup-mark_missing wanted m i)
