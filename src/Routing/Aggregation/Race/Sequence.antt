-- ===== src/Routing/Aggregation/Race/Sequence.antt =====
-- The goroutines one after another (http/proxy/cluster.go).
use agent_portainer.Prelude.{
  ℕ, zero, suc, ◌≤◌, ◌≡◌, refl, ap, ◌∙◌, Bool, Option, none, List, [], ◌∷◌, ◌++◌, map, arith, Text,
  text_beq, nat_eq, text_eq, length, take, drop,
}
use agent_portainer.Agent.{ClusterMember}
use agent_portainer.Routing.{Request, set_header, http_target_header_name}
use agent_portainer.Routing.Aggregation.{copy_with}
use agent_portainer.Routing.Aggregation.Race.{
  reading, copied, Goroutine, World, ended, set_url, turn, turn_at, interleave, start_goroutines,
}
use mathlib.Core.Path.{ap₂}

-- All the steps of one goroutine: it reads so many bytes, finds the end, sets the URL and prints it.
abbrev pub own_steps : ℕ → List (ℕ × ℕ)
own_steps n = (0, n) ∷ (0, n) ∷ (0, n) ∷ (0, n) ∷ []

abbrev pub behind : List (ℕ × ℕ) → List (ℕ × ℕ)
behind order = map (λ s. (suc s.0, s.1)) order

abbrev pub one_by_one : ℕ → List ClusterMember → List (ℕ × ℕ)
one_by_one n [] = []
one_by_one n (m ∷ ms) = own_steps n ++ behind (one_by_one n ms)

-- The first goroutine has the body, and the others have none.
abbrev pub taken : Bool → Request → List ClusterMember → List Goroutine
taken use_tls r [] = []
taken use_tls r (m ∷ ms) =
    (m, copied (copy_with r.body r m use_tls)) ∷ taken use_tls (record r { body = [] }) ms

interleave-behind :
    (use_tls : Bool) (ending : Option Text) (order : List (ℕ × ℕ)) (u : Request) (g : Goroutine)
    (gs : List Goroutine)
    → (interleave use_tls ending (behind order) (u, g ∷ gs)).1
      ≡ g ∷ (interleave use_tls ending order (u, gs)).1
unfolding interleave turn_at
interleave-behind use_tls ending [] u g gs = refl
interleave-behind use_tls ending ((k, n) ∷ order) u g gs =
    let w = turn_at use_tls ending k n u gs in interleave-behind use_tls ending order w.0 g w.1

interleave-append :
    (use_tls : Bool) (ending : Option Text) (xs ys : List (ℕ × ℕ)) (w : World)
    → interleave use_tls ending (xs ++ ys) w
      ≡ interleave use_tls ending ys (interleave use_tls ending xs w)
unfolding interleave
interleave-append use_tls ending [] ys w = refl
interleave-append use_tls ending ((k, n) ∷ xs) ys w =
    interleave-append use_tls ending xs ys (turn_at use_tls ending k n w.0 w.1)

drop_all : (n : ℕ) (t : Text) → length t ≤ n → drop n t ≡ []
drop_all zero [] h = refl
drop_all (suc n) [] h = refl
drop_all zero (c ∷ t) h = absurd (omega (arith, h))
drop_all (suc n) (c ∷ t) h = drop_all n t (omega (arith, h))

take_all : (n : ℕ) (t : Text) → length t ≤ n → take n t ≡ t
take_all zero [] h = refl
take_all (suc n) [] h = refl
take_all zero (c ∷ t) h = absurd (omega (arith, h))
take_all (suc n) (c ∷ t) h = ap (λ l. c ∷ l) (take_all n t (omega (arith, h)))

-- What a goroutine leaves that takes all its steps.
own_steps_lem :
    (use_tls : Bool) (u : Request) (body : Text) (m : ClusterMember) (gs : List Goroutine) (n : ℕ)
    → length body ≤ n
    → interleave use_tls none (own_steps n) (record u { body = body }, (m, reading []) ∷ gs) ≡ (
      set_url use_tls none m (record u { body = [] }),
      (m, copied (copy_with body u m use_tls)) ∷ gs,
    )
unfolding interleave turn_at turn ended text_beq
own_steps_lem use_tls u [] m gs n h = refl
own_steps_lem use_tls u (c ∷ body) m gs n h =
    let last_steps : Text → Text → World = λ left read.
      interleave use_tls none ((0, n) ∷ (0, n) ∷ (0, n) ∷ [])
        (record u { body = left }, (m, reading read) ∷ gs) in
    ap₂ last_steps (drop_all n (c ∷ body) h) (take_all n (c ∷ body) h)

abbrev emptied : Request → Request
emptied v = record v { body = [] }

taken_same :
    (use_tls : Bool) (u r : Request) (ms : List ClusterMember)
    → ((m : ClusterMember) → set_url use_tls none m u ≡ set_url use_tls none m r)
    → taken use_tls u ms ≡ taken use_tls r ms
taken_same use_tls u r [] same = refl
taken_same use_tls u r (m ∷ ms) same =
    ap₂ (λ (c : Request) gs. (m, copied (set_header http_target_header_name m.node_name c)) ∷ gs)
      (same m)
      (taken_same use_tls (record u { body = [] }) (record r { body = [] }) ms
        (λ n. ap emptied (same n)))

pub one_by_one-taken :
    (use_tls : Bool) (r : Request) (ms : List ClusterMember) (n : ℕ)
    → length r.body ≤ n
    → (interleave use_tls none (one_by_one n ms) (r, start_goroutines ms)).1 ≡ taken use_tls r ms
unfolding interleave start_goroutines
one_by_one-taken use_tls r [] n h = refl
one_by_one-taken use_tls r (m ∷ ms) n h =
    let later = behind (one_by_one n ms) in
    let gs = start_goroutines ms in
    let first : Goroutine = (m, copied (copy_with r.body r m use_tls)) in
    let u = set_url use_tls none m (record r { body = [] }) in
    ap (λ w. w.1)
      (interleave-append use_tls none (own_steps n) later (r, (m, reading []) ∷ gs)
        ∙ ap (interleave use_tls none later) (own_steps_lem use_tls r r.body m gs n h))
    ∙ interleave-behind use_tls none (one_by_one n ms) u first gs
    ∙ ap (λ hs. first ∷ hs)
        (one_by_one-taken use_tls u ms n (omega arith)
          ∙ taken_same use_tls u (record r { body = [] }) ms (λ n. refl))
