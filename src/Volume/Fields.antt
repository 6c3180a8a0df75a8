-- ===== src/Volume/Fields.antt =====
-- That the test for `..` elements finds them all (filesystem/filesystem.go).
use agent_portainer.Prelude.{
  ℕ, ◌≡◌, refl, sym, ap, ◌∙◌, ◌⊎◌, inl, inr, Bool, true, false, ◌||◌, List, [], ◌∷◌, ◌++◌, arith,
  nat_beq, Text, codes, text_beq, text_beq_iff, ◌==◌, nat_eq, text_eq, Bool-cases, has_prefix,
  contains, split_by, split, drop_empty, fields_by, split_by-skip, split_by-cut, split_by-nil,
}
use mathlib.Core.Path.{subst}
use mathlib.Core.List.{append_assoc}
use agent_portainer.Volume.{is_slash, has_dot_dot, contains_dot_dot}

contains-append :
    (a s : Text) → contains (codes "..") s ≡ true → contains (codes "..") (a ++ s) ≡ true
unfolding contains
contains-append [] s h = h
contains-append (c ∷ a) s h = ground (arith, contains-append a s h)

pub is_dot_dot : (t : Text) → (t == codes "..") ≡ true → t ≡ codes ".."
is_dot_dot t h = (text_beq_iff t (codes "..")).0 h

contains-front : (t s : Text) → (t == codes "..") ≡ true → contains (codes "..") (t ++ s) ≡ true
unfolding contains has_prefix
contains-front t s h = rw (is_dot_dot t h) refl

pub or_cases : (a b : Bool) → (a || b) ≡ true → (a ≡ true) ⊎ (b ≡ true)
or_cases true b h = inl refl
or_cases false b h = inr h

contains-split_by :
    (cur s : Text)
    → has_dot_dot (split_by is_slash cur s) ≡ true
    → contains (codes "..") (cur ++ s) ≡ true
unfolding has_dot_dot
contains-split_by cur [] h =
    contains-front cur [] (ground (arith, (rw (split_by-nil is_slash cur) at h)))
contains-split_by cur (c ∷ s) h = elim (Bool-cases (is_slash c)) [
  | inl e ↦ elim (or_cases _ _ (rw (split_by-cut is_slash cur c s e) at h)) [
    | inl front ↦ contains-front cur (c ∷ s) front
    | inr later ↦
        contains-append cur (c ∷ s) (contains-append (c ∷ []) s (contains-split_by [] s later))
  ]
  | inr e ↦
      rw (← append_assoc cur (c ∷ []) s)
        (contains-split_by (cur ++ c ∷ []) s (rw (split_by-skip is_slash cur c s e) at h))
]

pub has_dot_dot-drop_empty : (ts : List Text) → has_dot_dot (drop_empty ts) ≡ has_dot_dot ts
unfolding has_dot_dot drop_empty text_beq
has_dot_dot-drop_empty [] = refl
has_dot_dot-drop_empty ([] ∷ ts) = has_dot_dot-drop_empty ts
has_dot_dot-drop_empty ((c ∷ t) ∷ ts) =
    ap (λ b. (c ∷ t) == codes ".." || b) (has_dot_dot-drop_empty ts)

-- The first test of `containsDotDot` is a shortcut only.
pub contains_dot_dot-has_dot_dot :
    (v : Text) → contains_dot_dot v ≡ has_dot_dot (fields_by is_slash v)
unfolding contains_dot_dot fields_by
contains_dot_dot-has_dot_dot v =
    rw (has_dot_dot-drop_empty (split_by is_slash [] v)) (ground (arith, contains-split_by [] v))

-- Splitting at a separator, wherever it stands.
pub split_by-sep :
    (is_sep : ℕ → Bool) (cur s : Text) (c : ℕ) (t : Text)
    → is_sep c ≡ true
    → split_by is_sep cur (s ++ c ∷ t) ≡ split_by is_sep cur s ++ split_by is_sep [] t
split_by-sep is_sep cur [] c t h =
    split_by-cut is_sep cur c t h
    ∙ ap (λ l. l ++ split_by is_sep [] t) (sym (split_by-nil is_sep cur))
split_by-sep is_sep cur (d ∷ s) c t h = elim (Bool-cases (is_sep d)) [
  | inl e ↦
      split_by-cut is_sep cur d (s ++ c ∷ t) e
      ∙ ap (λ l. cur ∷ l) (split_by-sep is_sep [] s c t h)
      ∙ ap (λ l. l ++ split_by is_sep [] t) (sym (split_by-cut is_sep cur d s e))
  | inr e ↦
      split_by-skip is_sep cur d (s ++ c ∷ t) e
      ∙ split_by-sep is_sep (cur ++ d ∷ []) s c t h
      ∙ ap (λ l. l ++ split_by is_sep [] t) (sym (split_by-skip is_sep cur d s e))
]

has_char : ℕ → Text → Bool
has_char b [] = false
has_char b (c ∷ s) = nat_beq b c || has_char b s

has_char-append : (b : ℕ) (s t : Text) → has_char b (s ++ t) ≡ (has_char b s || has_char b t)
unfolding has_char
has_char-append b [] t = refl
has_char-append b (c ∷ s) t = ground (arith, has_char-append b s t)

-- What stands before the next slash, for `/` only and for both slashes.
abbrev IsNear : Text → Text → Type 0
IsNear cur near = (cur ≡ near) ⊎ (has_char b'\\' cur ≡ true)

near-dot_dot :
    (cur near : Text) → IsNear cur near → (cur == codes "..") ≡ true → (near == codes "..") ≡ true
unfolding has_char
near-dot_dot cur near (inl e) h = rw (← e) h
near-dot_dot cur near (inr b) h =
    let there : has_char b'\\' (codes "..") ≡ true =
      subst (λ t. has_char b'\\' t ≡ true) (is_dot_dot cur h) b in
    cc

IsNear-append :
    (cur near : Text) (c : ℕ) → IsNear cur near → IsNear (cur ++ c ∷ []) (near ++ c ∷ [])
IsNear-append cur near c (inl e) = inl (ap (λ t. t ++ c ∷ []) e)
IsNear-append cur near c (inr b) = inr (rw (has_char-append b'\\' cur (c ∷ []), b) refl)

backslash :
    (cur near : Text) (c : ℕ)
    → nat_beq b'/' c ≡ false
    → is_slash c ≡ true
    → IsNear (cur ++ c ∷ []) near
unfolding has_char
backslash cur near c e f = inr (ground (arith, has_char-append b'\\' cur (c ∷ []), e, f))

-- An element between two `/` that is `..` is one between slashes of either kind.
has_dot_dot-finer :
    (cur near s : Text)
    → IsNear cur near
    → has_dot_dot (split_by (nat_beq b'/') cur s) ≡ true
    → has_dot_dot (split_by is_slash near s) ≡ true
unfolding has_dot_dot
has_dot_dot-finer cur near [] r h =
    rw (split_by-nil is_slash near)
      (ground (arith, near-dot_dot cur near r, (rw (split_by-nil (nat_beq b'/') cur) at h)))
has_dot_dot-finer cur near (c ∷ s) r h = elim (Bool-cases (nat_beq b'/' c)) [
  | inl e ↦
      let slash : is_slash c ≡ true = ground (arith, e) in
      rw (split_by-cut is_slash near c s slash) (
        ground (
          arith,
          near-dot_dot cur near r,
          has_dot_dot-finer [] [] s (inl refl),
          (rw (split_by-cut (nat_beq b'/') cur c s e) at h),
        ))
  | inr e ↦
      let skipped = rw (split_by-skip (nat_beq b'/') cur c s e) at h in
      elim (Bool-cases (is_slash c)) [
        | inl f ↦ rw (split_by-cut is_slash near c s f) (
            ground (arith, has_dot_dot-finer (cur ++ c ∷ []) [] s (backslash cur [] c e f) skipped))
        | inr f ↦ rw (split_by-skip is_slash near c s f) (
            has_dot_dot-finer (cur ++ c ∷ []) (near ++ c ∷ []) s (IsNear-append cur near c r)
              skipped)
      ]
]

pub has_dot_dot-split : (v : Text) → contains_dot_dot v ≡ false → has_dot_dot (split b'/' v) ≡ false
unfolding split fields_by
has_dot_dot-split v h =
    let fields = has_dot_dot-drop_empty (split_by is_slash [] v) in
    ground (arith, has_dot_dot-finer [] [] v (inl refl), fields, contains_dot_dot-has_dot_dot v, h)
