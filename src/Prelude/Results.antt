-- ===== src/Prelude/Results.antt =====
-- A Go call that returns `(value, error)`, and a method that also changes a state. A state changed
-- before an error is returned stays changed.
use mathlib.Core.Path.{◌≡◌, refl}
use mathlib.Core.Logic.{◌⊎◌, inl, inr}
use agent_portainer.Prelude.Tests.{Text}

pub data Result {ℓ} (A : Type ℓ) : Type ℓ where
  ok : A → Result A
  err : Text → Result A

-- A method on a state `S`.
abbrev pub Method : Type 0 → Type 0 → Type 0
Method S A = S → Result A × S

infixl 5 ◌>>=◌ ◌>>◌
abbrev pub ◌>>=◌ : {S A B : Type 0} → Method S A → (A → Method S B) → Method S B
◌>>=◌ m f s = let (r, t) = m s in elim r [ ok a ↦ f a t | err x ↦ (err x, t) ]

abbrev pub ◌>>◌ : {S B : Type 0} → Method S (Unit {0}) → Method S B → Method S B
◌>>◌ m k = m >>= λ _. k

abbrev pub return : {S A : Type 0} → A → Method S A
return a s = (ok a, s)

abbrev pub lift : {S A : Type 0} → Result A → Method S A
lift r s = (r, s)

abbrev pub get : {S : Type 0} → Method S S
get s = (ok s, s)

abbrev pub modify : {S : Type 0} → (S → S) → Method S (Unit {0})
modify f s = (ok tt, f s)

pub Result-cases {ℓ} :
    {A : Type ℓ} (r : Result A) → ((a : A) × (r ≡ ok a)) ⊎ ((x : Text) × (r ≡ err x))
Result-cases (ok a) = inl (a, refl)
Result-cases (err x) = inr (x, refl)

-- What a first step establishes and the second keeps holds after both, whether the first fails or not.
pub >>-keeps :
    {S B : Type 0} (P : S → Type 0) (m : Method S (Unit {0})) (k : Method S B) (s : S)
    → P (m s).1
    → ((t : S) → P t → P (k t).1)
    → P ((m >> k) s).1
>>-keeps P m k s h f = elim (Result-cases (m s).0) [
  | inl (_, e) ↦ rw (e, ◌>>◌, ◌>>=◌) (f (m s).1 h)
  | inr (x, e) ↦ rw (e, ◌>>◌, ◌>>=◌) h
]

-- If two steps succeed, the first does, and the second does from the state that it leaves.
pub >>-eq-ok :
    {S B : Type 0} (m : Method S (Unit {0})) (k : Method S B) (s : S) {b : B}
    → ((m >> k) s).0 ≡ ok b
    → ((m s).0 ≡ ok tt) × ((m >> k) s ≡ k (m s).1)
>>-eq-ok m k s h = elim (Result-cases (m s).0) [
  | inl (_, e) ↦ (e, rw (e, ◌>>◌, ◌>>=◌))
  | inr (x, e) ↦ cc (rw (e, ◌>>◌, ◌>>=◌) at h)
]

-- Two calls, the second only if the first returns no error.
unfoldable pub and_then {ℓ κ} : {A : Type ℓ} {B : Type κ} → Result A → (A → Result B) → Result B
and_then (ok a) f = f a
and_then (err x) f = err x

-- What holds of the value, if there is no error.
abbrev pub IfOk {ℓ κ} : {A : Type ℓ} → (A → Type κ) → Result A → Type κ
IfOk P (ok a) = P a
IfOk P (err x) = Unit

pub and_then-IfOk {ℓ κ μ} :
    {A : Type ℓ} {B : Type κ} (P : B → Type μ) (r : Result A) (f : A → Result B)
    → ((a : A) → r ≡ ok a → IfOk P (f a))
    → IfOk P (and_then r f)
unfolding and_then
and_then-IfOk P (ok a) f h = h a refl
and_then-IfOk P (err x) f h = tt
