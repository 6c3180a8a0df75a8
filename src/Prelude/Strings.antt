-- ===== src/Prelude/Strings.antt =====
-- The functions of Go's package strings that the code calls, over bytes, and what they satisfy.
use mathlib.Core.Path.{◌≡◌, refl, sym, ap, ◌∙◌}
use mathlib.Core.Logic.{inl, inr}
use mathlib.Core.Bool.{Bool, true, false, ◌||◌, ◌&&◌}
use mathlib.Core.List.{List, [], ◌∷◌, ◌++◌, append_assoc, append-nil}
use Prim.Native.Nat.{ℕ}
use agent_portainer.Prelude.Tests.{Text, nat_beq, nat_beq_iff, Bool-cases}
use agent_portainer.Prelude.Lists.{All}

-- `strings.HasPrefix(s, p)`, with the prefix first.
unfoldable pub has_prefix : Text → Text → Bool
has_prefix [] s = true
has_prefix (c ∷ p) [] = false
has_prefix (c ∷ p) (d ∷ s) = nat_beq c d && has_prefix p s

-- `strings.TrimPrefix`, and what `http.StripPrefix` leaves of a path that has the prefix.
unfoldable pub strip_prefix : Text → Text → Text
strip_prefix [] s = s
strip_prefix (c ∷ p) [] = []
strip_prefix (c ∷ p) (d ∷ s) = strip_prefix p s

-- `strings.Contains(s, p)`, with the part first.
unfoldable pub contains : Text → Text → Bool
unfolding has_prefix
contains p [] = has_prefix p []
contains p (c ∷ s) = has_prefix p (c ∷ s) || contains p s

-- `strings.FieldsFunc`: the runs between separators, with `cur` the run so far, and
-- `strings.Split(s, sep)` at one byte, which keeps the empty runs.
module _ (is_sep : ℕ → Bool) where
  unfoldable pub split_by : Text → Text → List Text
  split_by cur [] = cur ∷ []
  split_by cur (c ∷ s) = elim (is_sep c) [
    | true ↦ cur ∷ split_by [] s
    | false ↦ split_by (cur ++ c ∷ []) s
  ]

unfoldable pub split : ℕ → Text → List Text
unfolding split_by
split sep s = split_by (nat_beq sep) [] s

unfoldable pub drop_empty : List Text → List Text
drop_empty [] = []
drop_empty ([] ∷ ts) = drop_empty ts
drop_empty ((c ∷ s) ∷ ts) = (c ∷ s) ∷ drop_empty ts

unfoldable pub fields_by : (ℕ → Bool) → Text → List Text
unfolding split_by drop_empty
fields_by is_sep s = drop_empty (split_by is_sep [] s)

-- `strings.Join`.
unfoldable pub join : Text → List Text → Text
join sep [] = []
join sep (t ∷ []) = t
join sep (t ∷ u ∷ us) = t ++ (sep ++ join sep (u ∷ us))

abbrev pub Lacks : ℕ → Text → Type 0
Lacks b = All (λ c. nat_beq b c ≡ false)

pub split_by-skip :
    (is_sep : ℕ → Bool) (cur : Text) (c : ℕ) (s : Text)
    → is_sep c ≡ false
    → split_by is_sep cur (c ∷ s) ≡ split_by is_sep (cur ++ c ∷ []) s
unfolding split_by
split_by-skip is_sep cur c s h = rw (h, split_by)

pub split_by-append :
    (is_sep : ℕ → Bool) (cur p s : Text)
    → All (λ c. is_sep c ≡ false) p
    → split_by is_sep cur (p ++ s) ≡ split_by is_sep (cur ++ p) s
split_by-append is_sep cur [] s h = rw append-nil
split_by-append is_sep cur (c ∷ p) s (hc, hp) =
    split_by-skip is_sep cur c (p ++ s) hc
    ∙ split_by-append is_sep (cur ++ c ∷ []) p s hp
    ∙ ap (λ t. split_by is_sep t s) (append_assoc cur (c ∷ []) p)

pub split_by-cut :
    (is_sep : ℕ → Bool) (cur : Text) (c : ℕ) (s : Text)
    → is_sep c ≡ true
    → split_by is_sep cur (c ∷ s) ≡ cur ∷ split_by is_sep [] s
unfolding split_by
split_by-cut is_sep cur c s h = rw (h, split_by)

pub split_by-nil : (is_sep : ℕ → Bool) (cur : Text) → split_by is_sep cur [] ≡ cur ∷ []
unfolding split_by
split_by-nil is_sep cur = refl

pub split_by-whole :
    (is_sep : ℕ → Bool) (cur t : Text)
    → All (λ c. is_sep c ≡ false) t
    → split_by is_sep cur t ≡ (cur ++ t) ∷ []
split_by-whole is_sep cur t h =
    ap (split_by is_sep cur) (sym (append-nil t))
    ∙ split_by-append is_sep cur t [] h
    ∙ split_by-nil is_sep (cur ++ t)

-- Splitting a join gives the parts back, if there is a part and none holds the separator.
pub split-join :
    (sep : ℕ) (t : Text) (ts : List Text)
    → All (Lacks sep) (t ∷ ts)
    → split sep (join (sep ∷ []) (t ∷ ts)) ≡ t ∷ ts
unfolding split join
split-join sep t [] (h, _) = split_by-whole (nat_beq sep) [] t h
split-join sep t (u ∷ us) (h, hs) =
    split_by-append (nat_beq sep) [] t (sep ∷ join (sep ∷ []) (u ∷ us)) h
    ∙ split_by-cut (nat_beq sep) t sep _ ((nat_beq_iff sep sep).1 refl)
    ∙ ap (λ l. t ∷ l) (split-join sep u us hs)

-- A split has a first part, and what a separator puts in front of it.
split_by-cons :
    (is_sep : ℕ → Bool) (cur s : Text)
    → (t : Text) × (ts : List Text) × (split_by is_sep cur s ≡ t ∷ ts)
split_by-cons is_sep cur [] = (cur, [], split_by-nil is_sep cur)
split_by-cons is_sep cur (c ∷ s) = elim (Bool-cases (is_sep c)) [
  | inl h ↦ (cur, split_by is_sep [] s, split_by-cut is_sep cur c s h)
  | inr h ↦
      let (t, ts, e) = split_by-cons is_sep (cur ++ c ∷ []) s in
      (t, ts, split_by-skip is_sep cur c s h ∙ e)
]

join-cons :
    (sep : ℕ) (t : Text) (ts : List Text)
    → ((u : Text) × (us : List Text) × (ts ≡ u ∷ us))
    → join (sep ∷ []) (t ∷ ts) ≡ t ++ sep ∷ join (sep ∷ []) ts
unfolding join
join-cons sep t ts (u, us, e) = rw e

join-split_by : (sep : ℕ) (cur s : Text) → join (sep ∷ []) (split_by (nat_beq sep) cur s) ≡ cur ++ s
join-split_by sep cur [] =
    ap (join (sep ∷ [])) (split_by-nil (nat_beq sep) cur) ∙ (unfold join in sym (append-nil cur))
join-split_by sep cur (c ∷ s) = elim (Bool-cases (nat_beq sep c)) [
  | inl h ↦
      ap (join (sep ∷ [])) (split_by-cut (nat_beq sep) cur c s h)
      ∙ join-cons sep cur _ (split_by-cons (nat_beq sep) [] s)
      ∙ ap (λ t. cur ++ sep ∷ t) (join-split_by sep [] s)
      ∙ ap (λ d. cur ++ d ∷ s) ((nat_beq_iff sep c).0 h)
  | inr h ↦
      ap (join (sep ∷ [])) (split_by-skip (nat_beq sep) cur c s h)
      ∙ join-split_by sep (cur ++ c ∷ []) s
      ∙ append_assoc cur (c ∷ []) s
]

-- Joining the parts of a split gives the text back.
pub join-split : (sep : ℕ) (s : Text) → join (sep ∷ []) (split sep s) ≡ s
unfolding split
join-split sep s = join-split_by sep [] s
