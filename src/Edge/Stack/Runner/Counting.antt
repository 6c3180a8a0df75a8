-- ===== src/Edge/Stack/Runner/Counting.antt =====
-- How many stacks are pending, and which one `next` finds (edge/stack/stack.go).
use agent_portainer.Prelude.{
  ℕ, suc, ◌+◌, ◌≡◌, refl, true, false, none, some, List, [], ◌∷◌, arith, if◌then◌else◌, nat_beq_iff,
  nat_eq, text_eq, lookup, insert, erase, has_key, has_key-lookup,
}
use agent_portainer.Edge.Stack.{EdgeStack, StackStatus, pending, done, failed}
use agent_portainer.Edge.Stack.Invariant.{IsWf, is_pending, is_idle}
use agent_portainer.Edge.Stack.Runner.{next}

abbrev pub pending_count : List (ℕ × EdgeStack) → ℕ
pending_count [] = 0
pending_count ((i, s) ∷ m) = if is_pending s.status then suc (pending_count m) else pending_count m

pub next-some :
    (m : List (ℕ × EdgeStack)) (s : EdgeStack)
    → IsWf m
    → next m ≡ some s
    → (lookup s.id m ≡ some s) × (is_pending s.status ≡ true) × (is_idle s.action ≡ false)
unfolding next lookup
next-some [] s wf h = cc
next-some ((i, t) ∷ m) s (same, c, fresh, wf) h =
    ground (arith, next-some m s wf, has_key-lookup s.id m s, nat_beq_iff i s.id)

pub next-none : (m : List (ℕ × EdgeStack)) → pending_count m ≡ 0 → next m ≡ none
unfolding next
next-none [] h = refl
next-none ((i, t) ∷ m) h = ground (arith, next-none m)

pub next-exists :
    (m : List (ℕ × EdgeStack)) (n : ℕ)
    → pending_count m ≡ suc n
    → (s : EdgeStack) × (next m ≡ some s)
unfolding next
next-exists [] n h = absurd (omega arith)
next-exists ((i, t) ∷ m) n h = go t.status refl (next-exists m n)
  where
    go :
        (a : StackStatus)
        → t.status ≡ a
        → (pending_count m ≡ suc n → (s : EdgeStack) × (next m ≡ some s))
        → (s : EdgeStack) × (next ((i, t) ∷ m) ≡ some s)
    go pending e _ = (t, ground arith)
    go done e later = let (s, l) = later (ground arith) in (s, ground arith)
    go failed e later = let (s, l) = later (ground arith) in (s, ground arith)

pub pending_count-insert :
    (m : List (ℕ × EdgeStack)) (i : ℕ) (s t : EdgeStack)
    → lookup i m ≡ some s
    → is_pending s.status ≡ true
    → is_pending t.status ≡ false
    → pending_count (insert i t m) + 1 ≡ pending_count m
unfolding lookup insert
pending_count-insert [] i s t h p q = cc
pending_count-insert ((j, u) ∷ m) i s t h p q = ground (arith, pending_count-insert m i s t)

erase-fresh : (m : List (ℕ × EdgeStack)) (i : ℕ) → has_key i m ≡ false → erase i m ≡ m
unfolding erase has_key
erase-fresh [] i h = refl
erase-fresh ((j, u) ∷ m) i h = ground (arith, erase-fresh m i)

pub pending_count-erase :
    (m : List (ℕ × EdgeStack)) (i : ℕ) (s : EdgeStack)
    → IsWf m
    → lookup i m ≡ some s
    → is_pending s.status ≡ true
    → pending_count (erase i m) + 1 ≡ pending_count m
unfolding lookup erase
pending_count-erase [] i s wf h p = cc
pending_count-erase ((j, u) ∷ m) i s (same, c, fresh, wf) h p =
    ground (arith, nat_beq_iff j i, erase-fresh m j fresh, pending_count-erase m i s wf)
