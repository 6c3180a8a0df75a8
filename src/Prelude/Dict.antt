-- ===== src/Prelude/Dict.antt =====
-- Go maps as association lists. The order of the entries is the order in which `range` visits them,
-- which Go leaves open: statements hold for every order.
use mathlib.Core.Path.{◌≡◌, refl}
use mathlib.Core.Bool.{Bool, true, false, ◌||◌}
use mathlib.Core.Option.{Option, none, some}
use mathlib.Core.List.{List, [], ◌∷◌}
use native.Mathlib.Omega.{arith}
use agent_portainer.Prelude.Tests.{if◌then◌else◌, Equality, ◌==◌}

module _ {ℓ κ} {K : Type ℓ} {V : Type κ} ⦃e : Equality K⦄ where
  unfoldable pub lookup : K → List (K × V) → Option V
  lookup k [] = none
  lookup k ((j, val) ∷ rest) = if j == k then some val else lookup k rest

  -- rest[k] = val
  unfoldable pub insert : (k : K) (val : V) (rest : List (K × V)) → List (K × V)
  insert k val [] = (k, val) ∷ []
  insert k val ((j, other) ∷ rest) =
      if j == k then (k, val) ∷ rest else (j, other) ∷ insert k val rest

  -- delete(rest, k)
  unfoldable pub erase : (k : K) → List (K × V) → List (K × V)
  erase k [] = []
  erase k ((j, val) ∷ rest) = if j == k then erase k rest else (j, val) ∷ erase k rest

  unfoldable pub has_key : K → List (K × V) → Bool
  has_key k [] = false
  has_key k ((j, val) ∷ rest) = j == k || has_key k rest

  pub lookup-insert :
      (k j : K) (val : V) (rest : List (K × V))
      → lookup j (insert k val rest) ≡ (if k == j then some val else lookup j rest)
  unfolding lookup insert
  lookup-insert k j val [] = refl
  lookup-insert k j val ((i, other) ∷ rest) =
      ground (arith, e.same_iff k j, e.same_iff i k, e.same_iff i j, lookup-insert k j val rest)

  pub lookup-erase :
      (k j : K) (rest : List (K × V))
      → lookup j (erase k rest) ≡ (if k == j then none else lookup j rest)
  unfolding lookup erase
  lookup-erase k j [] = ground arith
  lookup-erase k j ((i, other) ∷ rest) =
      ground (arith, e.same_iff k j, e.same_iff i k, e.same_iff i j, lookup-erase k j rest)

module _ {ℓ κ} {K : Type ℓ} {V : Type κ} ⦃e : Equality K⦄ where
  pub has_key-insert :
      (k j : K) (val : V) (rest : List (K × V))
      → has_key j (insert k val rest) ≡ (k == j || has_key j rest)
  unfolding has_key insert
  has_key-insert k j val [] = refl
  has_key-insert k j val ((i, other) ∷ rest) =
      ground (arith, e.same_iff k j, e.same_iff i k, e.same_iff i j, has_key-insert k j val rest)

  pub has_key-erase :
      (k j : K) (rest : List (K × V))
      → has_key j (erase k rest) ≡ (if k == j then false else has_key j rest)
  unfolding has_key erase
  has_key-erase k j [] = ground arith
  has_key-erase k j ((i, other) ∷ rest) =
      ground (arith, e.same_iff k j, e.same_iff i k, e.same_iff i j, has_key-erase k j rest)

module _ {ℓ κ} {K : Type ℓ} {V : Type κ} ⦃e : Equality K⦄ where
  pub has_key-lookup :
      (k : K) (rest : List (K × V)) (val : V) → lookup k rest ≡ some val → has_key k rest ≡ true
  unfolding lookup has_key
  has_key-lookup k [] val h = ground arith
  has_key-lookup k ((j, other) ∷ rest) val h = ground (arith, has_key-lookup k rest val)

pub beq_refl {ℓ} : {K : Type ℓ} ⦃e : Equality K⦄ (k : K) → (k == k) ≡ true
beq_refl ⦃e⦄ k = (e.same_iff k k).1 refl
