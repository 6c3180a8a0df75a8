-- ===== src/Routing/Aggregation/Race/Shares.antt =====
-- How the goroutines share the bytes of the body (http/proxy/cluster.go).
use agent_portainer.Prelude.{
  ℕ, zero, suc, ◌+◌, ◌≡◌, refl, ap, ◌∙◌, Bool, Option, none, some, List, [], ◌∷◌, arith, Text, ◌==◌,
  nat_eq, text_eq, by_test, length, length-append, by_test, take, drop,
}
use agent_portainer.Agent.{ClusterMember}
use agent_portainer.Routing.{Request}
use agent_portainer.Routing.Aggregation.Race.{
  Stage, reading, addressing, addressed, stopped, copied, Goroutine, ended, turn, turn_at,
  interleave, start_goroutines,
}

-- What a goroutine has read.
abbrev pub held : Stage → Text
held (reading b) = b
held (addressing b) = b
held (addressed b) = b
held (stopped b x) = b
held (copied c) = c.body

abbrev pub total : List Goroutine → ℕ
total [] = 0
total (g ∷ gs) = length (held g.1) + total gs

take-drop : (n : ℕ) (t : Text) → length (take n t) + length (drop n t) ≡ length t
take-drop zero [] = ground arith
take-drop (suc n) [] = ground arith
take-drop zero (c ∷ t) = ground arith
take-drop (suc n) (c ∷ t) = ground (arith, take-drop n t)

-- The bytes that are held and those that are left.
abbrev Shares : ℕ → Request × Stage → Type 0
Shares n (u, stage) = length (held stage) + length u.body ≡ n

module _ (use_tls : Bool) (ending : Option Text) where
  ended-held : (o : Option Text) (b : Text) → held (ended o b) ≡ b
  unfolding ended
  ended-held none b = refl
  ended-held (some x) b = refl

  turn-Shares :
      (n : ℕ) (m : ClusterMember) (u : Request) (stage : Stage)
      → Shares (length (held stage) + length u.body) (turn use_tls ending n m u stage)
  unfolding turn
  turn-Shares n m u (reading b) =
      by_test (Shares (length b + length u.body)) (u.body == [])
        (λ _. ap (λ t. length t + length u.body) (ended-held ending b))
        (λ _. omega (arith, take-drop n u.body, length-append b (take n u.body)))
  turn-Shares n m u (addressing b) = refl
  turn-Shares n m u (addressed b) = refl
  turn-Shares n m u (stopped b x) = refl
  turn-Shares n m u (copied c) = refl

  turn_at-total :
      (k n : ℕ) (u : Request) (gs : List Goroutine)
      → let w = turn_at use_tls ending k n u gs in
        total w.1 + length w.0.body ≡ total gs + length u.body
  unfolding turn_at
  turn_at-total k n u [] = refl
  turn_at-total zero n u ((m, stage) ∷ gs) = omega (arith, turn-Shares n m u stage)
  turn_at-total (suc k) n u (g ∷ gs) = omega (arith, turn_at-total k n u gs)

  interleave-total :
      (order : List (ℕ × ℕ)) (u : Request) (gs : List Goroutine)
      → let w = interleave use_tls ending order (u, gs) in
        total w.1 + length w.0.body ≡ total gs + length u.body
  unfolding interleave
  interleave-total [] u gs = refl
  interleave-total ((k, n) ∷ order) u gs =
      let w = turn_at use_tls ending k n u gs in
      interleave-total order w.0 w.1 ∙ turn_at-total k n u gs

start_goroutines-total : (ms : List ClusterMember) → total (start_goroutines ms) ≡ 0
unfolding start_goroutines
start_goroutines-total [] = refl
start_goroutines-total (m ∷ ms) = omega (arith, start_goroutines-total ms)

pub interleave-shares :
    (use_tls : Bool) (ending : Option Text) (r : Request) (ms : List ClusterMember)
    (order : List (ℕ × ℕ))
    → let w = interleave use_tls ending order (r, start_goroutines ms) in
      total w.1 + length w.0.body ≡ length r.body
interleave-shares use_tls ending r ms order = omega (
  arith,
  interleave-total use_tls ending order r (start_goroutines ms),
  start_goroutines-total ms,
)
