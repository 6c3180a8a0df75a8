-- ===== src/Routing/Aggregation/Race/Sound.antt =====
-- The copies that the goroutines make, whatever the order of their steps (http/proxy/cluster.go).
use agent_portainer.Prelude.{
  ℕ, zero, suc, ◌≡◌, refl, ap, ◌∙◌, ◌⊎◌, inl, inr, Bool, Option, none, some, List, [], ◌∷◌, Text,
  ◌==◌, nat_eq, text_eq, by_test, All, by_test,
}
use agent_portainer.Agent.{ClusterMember, member_addr}
use agent_portainer.Routing.{Request, set_header, http_target_header_name}
use agent_portainer.Routing.Aggregation.{copy_with}
use agent_portainer.Routing.Aggregation.Race.{
  Stage, reading, addressing, addressed, stopped, copied, Goroutine, ended, set_url, turn, turn_at,
  interleave, start_goroutines,
}
use mathlib.Core.List.{Mem, mem-cons_of_mem, mem-cons_self}

-- The copy that is meant for a member, with some body, but for the address, which is that of one of the
-- members.
abbrev pub IsCopy : Bool → Request → List ClusterMember → ClusterMember → Request → Type 0
IsCopy use_tls r ms m c =
    (other : ClusterMember) × (body : Text) × Mem other ms
    × (c ≡ record (copy_with body r m use_tls) { host = member_addr other })

abbrev pub CopiedOf : Bool → Request → List ClusterMember → Goroutine → Type 0
CopiedOf use_tls r ms (m, copied c) = IsCopy use_tls r ms m c
CopiedOf use_tls r ms (m, _) = Unit

abbrev blank : Request → Request
blank r = record r { body = [] }

module _ (use_tls : Bool) (ending : Option Text) (r : Request) (ms : List ClusterMember) where
  -- But for the body, the shared request is the first one with the address of some member.
  abbrev Addressed : Request → Type 0
  Addressed u =
      (other : ClusterMember) × Mem other ms × (blank u ≡ blank (set_url use_tls ending other r))

  abbrev Shared : Request → Type 0
  Shared u = (blank u ≡ blank r) ⊎ Addressed u

  abbrev IsStage : Request → Goroutine → Type 0
  IsStage u (m, reading b) = Unit
  IsStage u (m, addressing b) = Unit
  IsStage u (m, addressed b) = Addressed u
  IsStage u (m, stopped b x) = Unit
  IsStage u (m, copied c) = IsCopy use_tls r ms m c

  abbrev IsSound : Request → List Goroutine → Type 0
  IsSound u gs = All (λ g. Mem g.0 ms × IsStage u g) gs

  -- From one state of the shared request to a later one.
  abbrev Later : Request → Request → Type 0
  Later u v = (blank v ≡ blank u) ⊎ Addressed v

  keep_address : (u v : Request) → blank v ≡ blank u → Addressed u → Addressed v
  keep_address u v e (other, i, h) = (other, i, e ∙ h)

  keep_one : (u v : Request) (g : Goroutine) → Later u v → IsStage u g → IsStage v g
  keep_one u v (m, reading b) l h = tt
  keep_one u v (m, addressing b) l h = tt
  keep_one u v (m, stopped b x) l h = tt
  keep_one u v (m, addressed b) (inl e) h = keep_address u v e h
  keep_one u v (m, addressed b) (inr a) h = a
  keep_one u v (m, copied c) l h = h

  keep_every : (u v : Request) (gs : List Goroutine) → Later u v → IsSound u gs → IsSound v gs
  keep_every u v [] l h = tt
  keep_every u v (g ∷ gs) l ((i, s), h) = ((i, keep_one u v g l s), keep_every u v gs l h)

  own_address :
      (m : ClusterMember) (u : Request)
      → Mem m ms
      → Shared u
      → Addressed (set_url use_tls ending m u)
  own_address m u i (inl e) = (m, i, ap (set_url use_tls ending m) e)
  own_address m u i (inr (other, _, e)) = (m, i, ap (set_url use_tls ending m) e)

  ended-IsStage :
      (o : Option Text) (m : ClusterMember) (u : Request) (b : Text) → IsStage u (m, ended o b)
  unfolding ended
  ended-IsStage none m u b = tt
  ended-IsStage (some x) m u b = tt

  abbrev Advances : ClusterMember → Request → Request × Stage → Type 0
  Advances m u (v, stage) = Later u v × IsStage v (m, stage)

  turn-Advances :
      (n : ℕ) (m : ClusterMember) (u : Request) (stage : Stage)
      → Mem m ms
      → Shared u
      → IsStage u (m, stage)
      → Advances m u (turn use_tls ending n m u stage)
  unfolding turn
  turn-Advances n m u (reading b) i s h =
      by_test (Advances m u) (u.body == []) (λ _. (inl refl, ended-IsStage ending m u b))
        (λ _. (inl refl, tt))
  turn-Advances n m u (addressing b) i s h = (inr (own_address m u i s), own_address m u i s)
  turn-Advances n m u (addressed b) i s (other, j, e) = (
    inl refl,
    (
      other,
      b,
      j,
      ap (λ v. set_header http_target_header_name m.node_name (record v { body = b })) e,
    ),
  )
  turn-Advances n m u (stopped b x) i s h = (inl refl, tt)
  turn-Advances n m u (copied c) i s h = (inl refl, h)

  turn_at-IsSound :
      (k n : ℕ) (u : Request) (gs : List Goroutine)
      → Shared u
      → IsSound u gs
      → Later u (turn_at use_tls ending k n u gs).0
        × IsSound (turn_at use_tls ending k n u gs).0 (turn_at use_tls ending k n u gs).1
  unfolding turn_at
  turn_at-IsSound k n u [] s h = (inl refl, tt)
  turn_at-IsSound zero n u ((m, stage) ∷ gs) s ((i, g), h) =
      let (l, k) = turn-Advances n m u stage i s g in
      (l, ((i, k), keep_every u (turn use_tls ending n m u stage).0 gs l h))
  turn_at-IsSound (suc k) n u (g ∷ gs) s ((i, a), h) =
      let (l, hs) = turn_at-IsSound k n u gs s h in
      (l, ((i, keep_one u (turn_at use_tls ending k n u gs).0 g l a), hs))

  advance_keeps : (u v : Request) → Later u v → Shared u → Shared v
  advance_keeps u v (inl e) (inl s) = inl (e ∙ s)
  advance_keeps u v (inl e) (inr a) = inr (keep_address u v e a)
  advance_keeps u v (inr a) s = inr a

  interleave-IsSound :
      (order : List (ℕ × ℕ)) (u : Request) (gs : List Goroutine)
      → Shared u
      → IsSound u gs
      → let w = interleave use_tls ending order (u, gs) in IsSound w.0 w.1
  unfolding interleave
  interleave-IsSound [] u gs s h = h
  interleave-IsSound ((k, n) ∷ order) u gs s h =
      let (l, a) = turn_at-IsSound k n u gs s h in
      let w = turn_at use_tls ending k n u gs in
      interleave-IsSound order w.0 w.1 (advance_keeps u w.0 l s) a

  start_goroutines-IsSound :
      (ns : List ClusterMember) → All (λ m. Mem m ms) ns → IsSound r (start_goroutines ns)
  unfolding start_goroutines
  start_goroutines-IsSound [] h = tt
  start_goroutines-IsSound (n ∷ ns) (i, h) = ((i, tt), start_goroutines-IsSound ns h)

  stage_copied : (u : Request) (g : Goroutine) → IsStage u g → CopiedOf use_tls r ms g
  stage_copied u (m, reading b) h = tt
  stage_copied u (m, addressing b) h = tt
  stage_copied u (m, addressed b) h = tt
  stage_copied u (m, stopped b x) h = tt
  stage_copied u (m, copied c) h = h

  IsSound-copied :
      (u : Request) (gs : List Goroutine) → IsSound u gs → All (CopiedOf use_tls r ms) gs
  IsSound-copied u [] h = tt
  IsSound-copied u (g ∷ gs) ((_, s), h) = (stage_copied u g s, IsSound-copied u gs h)

weaken_members :
    (m : ClusterMember) (ms ns : List ClusterMember)
    → All (λ n. Mem n ms) ns
    → All (λ n. Mem n (m ∷ ms)) ns
weaken_members m ms [] h = tt
weaken_members m ms (n ∷ ns) (i, h) = (mem-cons_of_mem m i, weaken_members m ms ns h)

every_one : (ms : List ClusterMember) → All (λ m. Mem m ms) ms
every_one [] = tt
every_one (m ∷ ms) = (mem-cons_self {a = m} {l = ms}, weaken_members m ms ms (every_one ms))

pub interleave-copied :
    (use_tls : Bool) (ending : Option Text) (r : Request) (ms : List ClusterMember)
    (order : List (ℕ × ℕ))
    → All (CopiedOf use_tls r ms) (interleave use_tls ending order (r, start_goroutines ms)).1
interleave-copied use_tls ending r ms order =
    let w = interleave use_tls ending order (r, start_goroutines ms) in
    IsSound-copied use_tls ending r ms w.0 w.1 (
      interleave-IsSound use_tls ending r ms order r (start_goroutines ms) (inl refl)
        (start_goroutines-IsSound use_tls ending r ms ms (every_one ms)))
