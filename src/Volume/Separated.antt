-- ===== src/Volume/Separated.antt =====
-- Which paths the test for `..` elements refuses (filesystem/filesystem.go).
use agent_portainer.Prelude.{
  ℕ, ◌≡◌, refl, sym, ap, ◌∙◌, ◌↔◌, ◌⊎◌, inl, inr, Bool, true, false, ◌||◌, List, [], ◌∷◌, ◌++◌,
  arith, nat_beq_iff, Text, codes, text_beq, ◌==◌, nat_eq, text_eq, Bool-cases, split_by, fields_by,
  split_by-skip, split_by-cut, split_by-nil,
}
use mathlib.Core.Path.{subst}
use mathlib.Core.List.{append_assoc}
use agent_portainer.Volume.{is_slash, has_dot_dot, contains_dot_dot}
use agent_portainer.Volume.Fields.{
  or_cases, is_dot_dot, contains_dot_dot-has_dot_dot, has_dot_dot-drop_empty, split_by-sep,
}

has_dot_dot-append :
    (ts us : List Text) → has_dot_dot (ts ++ us) ≡ (has_dot_dot ts || has_dot_dot us)
unfolding has_dot_dot
has_dot_dot-append [] us = refl
has_dot_dot-append (t ∷ ts) us = ground (arith, has_dot_dot-append ts us)

-- A slash or a backslash.
abbrev pub IsSeparator : ℕ → Type 0
IsSeparator c = (c ≡ 47) ⊎ (c ≡ 92)

abbrev pub StartsSeparated : Text → Type 0
StartsSeparated [] = Unit
StartsSeparated (c ∷ s) = IsSeparator c

abbrev pub EndsSeparated : Text → Type 0
EndsSeparated s = (s ≡ []) ⊎ ((front : Text) × (c : ℕ) × (s ≡ front ++ c ∷ []) × IsSeparator c)

-- Two dots in the text, with a separator or the end of the text on either side.
abbrev pub HasDotDot : Text → Type 0
HasDotDot v =
    (before after : Text) × (v ≡ before ++ (codes ".." ++ after))
    × EndsSeparated before
    × StartsSeparated after

is_slash_separates : (c : ℕ) → is_slash c ≡ true → IsSeparator c
is_slash_separates c h = elim (or_cases (c == b'/') (c == b'\\') h) [
  | inl e ↦ inl ((nat_beq_iff c 47).0 e)
  | inr e ↦ inr ((nat_beq_iff c 92).0 e)
]

separator_is_slash : (c : ℕ) → IsSeparator c → is_slash c ≡ true
separator_is_slash c (inl e) = rw e refl
separator_is_slash c (inr e) = rw e refl

found_between :
    (before cur s : Text)
    → EndsSeparated before
    → has_dot_dot (split_by is_slash cur s) ≡ true
    → HasDotDot (before ++ (cur ++ s))
unfolding has_dot_dot
found_between before cur [] b h =
    let e = is_dot_dot cur (ground (arith, (rw (split_by-nil is_slash cur) at h))) in
    (before, [], ap (λ t. before ++ (t ++ [])) e, b, tt)
found_between before cur (c ∷ s) b h = elim (Bool-cases (is_slash c)) [
  | inl e ↦ elim (or_cases _ _ (rw (split_by-cut is_slash cur c s e) at h)) [
    | inl front ↦ (
      before,
      c ∷ s,
      ap (λ t. before ++ (t ++ c ∷ s)) (is_dot_dot cur front),
      b,
      is_slash_separates c e,
    )
    | inr later ↦
        subst HasDotDot (append_assoc (before ++ cur) (c ∷ []) s ∙ append_assoc before cur (c ∷ s))
          (found_between ((before ++ cur) ++ c ∷ []) [] s
            (inr (before ++ cur, c, refl, is_slash_separates c e)) later)
  ]
  | inr e ↦
      subst (λ t. HasDotDot (before ++ t)) (append_assoc cur (c ∷ []) s)
        (found_between before (cur ++ c ∷ []) s b (rw (split_by-skip is_slash cur c s e) at h))
]

front_found :
    (after : Text)
    → StartsSeparated after
    → has_dot_dot (split_by is_slash [] (codes ".." ++ after)) ≡ true
unfolding has_dot_dot text_beq
front_found after h =
    let dots : split_by is_slash [] (codes ".." ++ after) ≡ split_by is_slash (codes "..") after =
      split_by-skip is_slash [] b'.' (b'.' ∷ after) refl
      ∙ split_by-skip is_slash (codes ".") b'.' after refl in
    ap has_dot_dot dots ∙ ended after h
  where
    ended : (s : Text) → StartsSeparated s → has_dot_dot (split_by is_slash (codes "..") s) ≡ true
    ended [] h = ap has_dot_dot (split_by-nil is_slash (codes ".."))
    ended (c ∷ s) h =
        ap has_dot_dot (split_by-cut is_slash (codes "..") c s (separator_is_slash c h))

or_true : (b : Bool) → (b || true) ≡ true
or_true true = refl
or_true false = refl

HasDotDot-split_by : (v : Text) → HasDotDot v → has_dot_dot (split_by is_slash [] v) ≡ true
HasDotDot-split_by v (before, after, e, inl none_before, h) =
    let whole : v ≡ codes ".." ++ after = e ∙ ap (λ t. t ++ (codes ".." ++ after)) none_before in
    ap (λ t. has_dot_dot (split_by is_slash [] t)) whole ∙ front_found after h
HasDotDot-split_by v (before, after, e, inr (front, c, b, separator), h) =
    let rest = codes ".." ++ after in
    let whole : v ≡ front ++ c ∷ rest =
      e ∙ ap (λ t. t ++ rest) b ∙ append_assoc front (c ∷ []) rest in
    let parts = split_by-sep is_slash [] front c rest (separator_is_slash c separator) in
    let found = front_found after h in
    ap (λ t. has_dot_dot (split_by is_slash [] t)) whole
    ∙ ap has_dot_dot parts
    ∙ has_dot_dot-append (split_by is_slash [] front) (split_by is_slash [] rest)
    ∙ (rw found (or_true (has_dot_dot (split_by is_slash [] front))))

-- A path is refused exactly if it has two dots with a slash, a backslash or an end of the path on
-- either side of them.
pub contains_dot_dot-HasDotDot : (v : Text) → (contains_dot_dot v ≡ true) ↔ HasDotDot v
unfolding fields_by
contains_dot_dot-HasDotDot v =
    let fields : contains_dot_dot v ≡ has_dot_dot (split_by is_slash [] v) =
      contains_dot_dot-has_dot_dot v ∙ has_dot_dot-drop_empty (split_by is_slash [] v) in
    (
      (λ h. found_between [] [] v (inl refl) (sym fields ∙ h)),
      (λ h. fields ∙ HasDotDot-split_by v h),
    )
