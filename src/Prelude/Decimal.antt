-- ===== src/Prelude/Decimal.antt =====
-- `strconv.Itoa` and the verb `%d`, on numbers that are not negative, and `strconv.Atoi`.
use Prim.Native.Nat.{ℕ, zero, suc, ◌+◌, ◌-◌, ◌*◌, ◌/◌, ◌%◌, ◌≤◌, ◌<◌}
use mathlib.Core.Path.{◌≡◌, refl, ap, ◌∙◌, sym, subst}
use mathlib.Core.Bool.{Bool, true, false, ◌&&◌}
use mathlib.Core.Option.{Option, none, some}
use mathlib.Core.List.{[], ◌∷◌}
use agent_portainer.Prelude.Results.{Result, ok, err}
use mathlib.Core.Logic.{inl, inr}
use native.Mathlib.Omega.{arith}
use agent_portainer.Prelude.Tests.{Text, codes, ltb, leb, ◌==◌, nat_eq, if◌then◌else◌, Bool-cases}
use agent_portainer.Prelude.Lists.{All}

-- The digits of `n` in front of `out`. One unit of fuel for each digit; `n + 1` is enough.
digits : ℕ → ℕ → Text → Text
digits zero n out = out
digits (suc fuel) n out = elim (ltb n 10) [
  | true ↦ (b'0' + n) ∷ out
  | false ↦ digits fuel (n / 10) ((b'0' + n % 10) ∷ out)
]

unfoldable pub itoa : ℕ → Text
unfolding digits
itoa n = digits (suc n) n []

itoa_test : itoa 9001 ≡ codes "9001"
unfolding itoa
itoa_test = refl

digits-All :
    (fuel n : ℕ) (out : Text) → All (λ c. b'0' ≤ c) out → All (λ c. b'0' ≤ c) (digits fuel n out)
unfolding digits
digits-All zero n out h = h
digits-All (suc fuel) n out h = elim (Bool-cases (ltb n 10)) [
  | inl e ↦ rw (e, digits) (omega arith, h)
  | inr e ↦ rw (e, digits) (digits-All fuel (n / 10) ((b'0' + n % 10) ∷ out) (omega arith, h))
]

-- A printed number holds no character before `0`, such as a space or a line break.
pub itoa-All : (n : ℕ) → All (λ c. b'0' ≤ c) (itoa n)
unfolding itoa
itoa-All n = digits-All (suc n) n [] tt

abbrev pub IsDigit : ℕ → Type 0
IsDigit c = (b'0' ≤ c) × (c ≤ b'9')

digits-IsDigit : (fuel n : ℕ) (out : Text) → All IsDigit out → All IsDigit (digits fuel n out)
unfolding digits
digits-IsDigit zero n out h = h
digits-IsDigit (suc fuel) n out h = elim (Bool-cases (ltb n 10)) [
  | inl e ↦ rw (e, digits) ((omega arith, ground arith), h)
  | inr e ↦
      rw (e, digits)
        (digits-IsDigit fuel (n / 10) ((b'0' + n % 10) ∷ out) ((omega arith, omega arith), h))
]

pub itoa-IsDigit : (n : ℕ) → All IsDigit (itoa n)
unfolding itoa
itoa-IsDigit n = digits-IsDigit (suc n) n [] tt

-- An integer of Go.
pub data ℤ : Type 0 where
  pos negsuc : ℕ → ℤ

abbrev pub is_digit : ℕ → Bool
is_digit c = leb b'0' c && leb c b'9'

-- The number whose digits follow those of `n`.
pub read_digits : ℕ → Text → Option ℕ
read_digits n [] = some n
read_digits n (c ∷ s) = elim (is_digit c) [
  | true ↦ read_digits (n * 10 + (c - b'0')) s
  | false ↦ none
]

-- The size of the type int, which is the target's.
pub data IntSize : Type 0 where
  bits_32 bits_64 : IntSize

-- The bound of the type int.
abbrev pub int_bound : IntSize → ℕ
int_bound bits_32 = 2147483648
int_bound bits_64 = 9223372036854775808

abbrev pub syntax_error : Text
syntax_error = codes "invalid syntax"

abbrev pub range_error : Text
range_error = codes "value out of range"

abbrev pub negated : ℕ → ℤ
negated zero = pos zero
negated (suc n) = negsuc n

abbrev pub as_positive : IntSize → Option ℕ → Result ℤ
as_positive size none = err syntax_error
as_positive size (some n) = if ltb n (int_bound size) then ok (pos n) else err range_error

abbrev pub as_negative : IntSize → Option ℕ → Result ℤ
as_negative size none = err syntax_error
as_negative size (some n) = if leb n (int_bound size) then ok (negated n) else err range_error

abbrev pub unsigned : Text → Option ℕ
unfolding read_digits
unsigned [] = none
unsigned (c ∷ s) = read_digits 0 (c ∷ s)

-- `strconv.Atoi`; an error is its reason.
pub atoi : IntSize → Text → Result ℤ
unfolding read_digits
atoi size [] = err syntax_error
atoi size (c ∷ s) =
    if c == b'-'
    then as_negative size (unsigned s)
    else if c == b'+'
    then as_positive size (unsigned s)
    else as_positive size (unsigned (c ∷ s))

read_digits-digit :
    (n d : ℕ) (out : Text) → d ≤ 9 → read_digits n ((b'0' + d) ∷ out) ≡ read_digits (n * 10 + d) out
unfolding read_digits
read_digits-digit n d out h =
    let digit : is_digit (b'0' + d) ≡ true = ground (arith, h) in
    let value : b'0' + d - b'0' ≡ d = omega arith in
    rw (digit, read_digits) (ap (λ k. read_digits (n * 10 + k) out) value)

read_digits-digits :
    (fuel n : ℕ) (out : Text) → n < fuel → read_digits 0 (digits fuel n out) ≡ read_digits n out
unfolding digits
read_digits-digits zero n out h = absurd (omega arith)
read_digits-digits (suc fuel) n out h = elim (Bool-cases (ltb n 10)) [
  | inl e ↦
      rw (e, digits)
        (read_digits-digit 0 n out (ground arith) ∙ ap (λ k. read_digits k out) (omega arith))
  | inr e ↦
      let lower : n / 10 < fuel = ground arith in
      let value : n / 10 * 10 + n % 10 ≡ n = omega arith in
      rw (e, digits)
        (read_digits-digits fuel (n / 10) ((b'0' + n % 10) ∷ out) lower
          ∙ read_digits-digit (n / 10) (n % 10) out (omega arith)
          ∙ ap (λ k. read_digits k out) value)
]

digits-cons :
    (fuel n : ℕ) (c : ℕ) (out : Text) → (d : ℕ) × (t : Text) × (digits fuel n (c ∷ out) ≡ d ∷ t)
unfolding digits
digits-cons zero n c out = (c, out, refl)
digits-cons (suc fuel) n c out = elim (Bool-cases (ltb n 10)) [
  | inl e ↦ rw (e, digits) (b'0' + n, c ∷ out, refl)
  | inr e ↦ rw (e, digits) (digits-cons fuel (n / 10) (b'0' + n % 10) (c ∷ out))
]

pub itoa-cons : (n : ℕ) → (d : ℕ) × (t : Text) × (itoa n ≡ d ∷ t)
unfolding itoa digits
itoa-cons n = elim (Bool-cases (ltb n 10)) [
  | inl e ↦ rw (e, digits) (b'0' + n, [], refl)
  | inr e ↦ rw (e, digits) (digits-cons n (n / 10) (b'0' + n % 10) [])
]

atoi_digits :
    (size : IntSize) (c : ℕ) (s : Text)
    → IsDigit c
    → atoi size (c ∷ s) ≡ as_positive size (read_digits 0 (c ∷ s))
unfolding atoi
atoi_digits size c s (lo, hi) =
    let minus : (c == b'-') ≡ false = ground (arith, lo) in
    let plus : (c == b'+') ≡ false = ground (arith, lo) in rw minus (rw plus refl)

-- A printed number is read back, if it is in the range of int.
pub atoi-itoa :
    (size : IntSize) (n : ℕ)
    → atoi size (itoa n) ≡ (if ltb n (int_bound size) then ok (pos n) else err range_error)
unfolding itoa read_digits
atoi-itoa size n =
    let (d, t, e) = itoa-cons n in
    let (first, _) = subst (λ s. All IsDigit s) e (itoa-IsDigit n) in
    ap (atoi size) e
    ∙ atoi_digits size d t first
    ∙ ap (λ s. as_positive size (read_digits 0 s)) (sym e)
    ∙ ap (as_positive size) (read_digits-digits (suc n) n [] (omega arith))
