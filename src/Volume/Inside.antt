-- ===== src/Volume/Inside.antt =====
-- That a path built for a volume stays inside it (filesystem/filesystem.go).
use agent_portainer.Prelude.{
  ◌≡◌, refl, sym, ap, ◌∙◌, inl, inr, true, false, ◌||◌, List, [], ◌∷◌, ◌++◌, arith, nat_beq, Text,
  codes, text_beq, ◌==◌, nat_eq, text_eq, Bool-cases, All, All-append, split_by, split, drop_empty,
  join, Lacks, split-join, split_by-skip, split_by-cut, split_by-nil, split_by-whole, ok,
}
use mathlib.Core.List.{append_assoc}
use agent_portainer.Volume.{
  has_dot_dot, is_valid_path, contains_dot_dot, clean_elements, clean_element, clean, path_join,
  reverse_onto, build_path_to_file_inside_volume, system_volume_path,
}
use agent_portainer.Volume.Fields.{has_dot_dot-split, split_by-sep}

pub slash_sep : (s t : Text) → split b'/' (s ++ b'/' ∷ t) ≡ split b'/' s ++ split b'/' t
unfolding split
slash_sep s t = split_by-sep (nat_beq b'/') [] s b'/' t refl

-- An element that a cleaned path may keep.
abbrev pub IsElement : Text → Type 0
IsElement t = ((t == codes "..") ≡ false) × Lacks b'/' t

split_by-Lacks : (cur s : Text) → Lacks b'/' cur → All (Lacks b'/') (split_by (nat_beq b'/') cur s)
split_by-Lacks cur [] h = rw (split_by-nil (nat_beq b'/') cur) (h, tt)
split_by-Lacks cur (c ∷ s) h = elim (Bool-cases (nat_beq b'/' c)) [
  | inl e ↦ rw (split_by-cut (nat_beq b'/') cur c s e) (h, split_by-Lacks [] s tt)
  | inr e ↦ rw (split_by-skip (nat_beq b'/') cur c s e) (
      split_by-Lacks (cur ++ c ∷ []) s
        (All-append (λ c. nat_beq b'/' c ≡ false) cur (c ∷ []) h (e, tt)))
]

All-IsElement : (ts : List Text) → has_dot_dot ts ≡ false → All (Lacks b'/') ts → All IsElement ts
unfolding has_dot_dot
All-IsElement [] h l = tt
All-IsElement (t ∷ ts) h (l, ls) = elim (Bool-cases (t == codes "..")) [
  | inl e ↦ absurd (ground (arith, e, h))
  | inr e ↦ ((e, l), All-IsElement ts (ground (arith, e, h)) ls)
]

-- Cleaning such elements only adds to what is kept.
clean_elements-front :
    (kept ts : List Text)
    → All IsElement ts
    → (front : List Text) × (clean_elements true kept ts ≡ front ++ kept) × All IsElement front
unfolding clean_elements
clean_elements-front kept [] h = ([], refl, tt)
clean_elements-front kept (t ∷ ts) (h, hs) = elim (Bool-cases (t == [] || t == codes ".")) [
  | inl e ↦ rw e (clean_elements-front kept ts hs)
  | inr e ↦
      let (front, p, a) = clean_elements-front (t ∷ kept) ts hs in
      rw e (
        rw h.0 (
          front ++ t ∷ [],
          p ∙ sym (append_assoc front (t ∷ []) kept),
          All-append IsElement front (t ∷ []) a (h, tt),
        ))
]

reverse_onto-append :
    (front kept out : List Text)
    → reverse_onto (front ++ kept) out ≡ reverse_onto kept (reverse_onto front out)
unfolding reverse_onto
reverse_onto-append [] kept out = refl
reverse_onto-append (t ∷ front) kept out = reverse_onto-append front kept (t ∷ out)

reverse_onto-All :
    (front out : List Text)
    → All IsElement front
    → All IsElement out
    → All IsElement (reverse_onto front out)
unfolding reverse_onto
reverse_onto-All [] out a b = b
reverse_onto-All (t ∷ front) out (h, hs) b = reverse_onto-All front (t ∷ out) hs (h, b)

-- The name of a volume: one element of a path.
abbrev pub IsVolumeName : Text → Type 0
IsVolumeName v = IsElement v × ((v == []) ≡ false) × ((v == codes ".") ≡ false)

abbrev pub volume_elements : Text → List Text → List Text
volume_elements v rest =
    codes ""
    ∷ codes "var"
    ∷ codes "lib"
    ∷ codes "docker"
    ∷ codes "volumes"
    ∷ v
    ∷ codes "_data"
    ∷ rest

-- A path under the data folder of the volume: its elements between `/`, none of them `..`.
abbrev pub IsInside : Text → Text → Type 0
IsInside v p = (rest : List Text) × (split b'/' p ≡ volume_elements v rest) × All IsElement rest

abbrev kept_volume : Text → List Text
kept_volume v =
    codes "_data" ∷ v ∷ codes "volumes" ∷ codes "docker" ∷ codes "lib" ∷ codes "var" ∷ []

clean_element-name :
    (kept : List Text) (v : Text) → IsVolumeName v → clean_element true kept v ≡ v ∷ kept
clean_element-name kept v (element, nonempty, not_dot) =
    ground (arith, element.0, nonempty, not_dot)

clean_elements-volume :
    (v : Text) (ts : List Text)
    → IsVolumeName v
    → clean_elements true [] (volume_elements v ts) ≡ clean_elements true (kept_volume v) ts
unfolding clean_elements text_beq
clean_elements-volume v ts name =
    let base = codes "volumes" ∷ codes "docker" ∷ codes "lib" ∷ codes "var" ∷ [] in
    ap (λ k. clean_elements true k (codes "_data" ∷ ts)) (clean_element-name base v name)

All-Lacks : (ts : List Text) → All IsElement ts → All (Lacks b'/') ts
All-Lacks [] h = tt
All-Lacks (t ∷ ts) (h, hs) = (h.1, All-Lacks ts hs)

-- The path that is cleaned.
clean-join :
    (v s : Text) (ts : List Text)
    → IsVolumeName v
    → split b'/' (b'/' ∷ s) ≡ volume_elements v ts
    → All IsElement ts
    → (rest : List Text) × (clean (b'/' ∷ s) ≡ join (codes "/") (volume_elements v rest))
      × All IsElement rest
unfolding clean reverse_onto join
clean-join v s ts name parts h =
    let (front, p, a) = clean_elements-front (kept_volume v) ts h in
    let kept = ap (clean_elements true []) parts ∙ clean_elements-volume v ts name ∙ p in
    (
      reverse_onto front [],
      ap (λ l. b'/' ∷ join (codes "/") (reverse_onto l [])) kept
          ∙ ap (λ l. b'/' ∷ join (codes "/") l) (reverse_onto-append front (kept_volume v) []),
      reverse_onto-All front [] a tt,
    )

pub clean-IsInside :
    (v s : Text) (ts : List Text)
    → IsVolumeName v
    → split b'/' (b'/' ∷ s) ≡ volume_elements v ts
    → All IsElement ts
    → IsInside v (clean (b'/' ∷ s))
clean-IsInside v s ts name parts h =
    let (rest, e, a) = clean-join v s ts name parts h in
    let lacks : All (Lacks b'/') (volume_elements v rest) = (
      tt,
      (
        ground arith,
        (
          ground arith,
          (ground arith, (ground arith, (name.0.1, (ground arith, All-Lacks rest a)))),
        ),
      ),
    ) in
    (rest, ap (split b'/') e ∙ split-join b'/' (codes "") _ lacks, a)

-- The elements of the joined path, `tail` being `_data` and what follows it.
elements-volume :
    (v tail : Text) (ts : List Text)
    → IsVolumeName v
    → split b'/' tail ≡ codes "_data" ∷ ts
    → split b'/' (system_volume_path ++ b'/' ∷ (v ++ b'/' ∷ tail)) ≡ volume_elements v ts
unfolding split split_by
elements-volume v tail ts name h =
    slash_sep system_volume_path (v ++ b'/' ∷ tail)
    ∙ ap (λ l. split b'/' system_volume_path ++ l)
        (slash_sep v tail ∙ ap (λ l. split b'/' v ++ l) h)
    ∙ ap (λ l. split b'/' system_volume_path ++ (l ++ codes "_data" ∷ ts))
        (split_by-whole (nat_beq b'/') [] v name.0.1)

data_elements :
    (path : Text) → split b'/' (codes "_data/" ++ path) ≡ codes "_data" ∷ split b'/' path
unfolding split split_by
data_elements path = refl

pub path-IsElement : (path : Text) → contains_dot_dot path ≡ false → All IsElement (split b'/' path)
unfolding split
path-IsElement path h =
    All-IsElement (split b'/' path) (has_dot_dot-split path h) (split_by-Lacks [] path tt)

joined-IsInside :
    (volume path : Text)
    → IsVolumeName volume
    → contains_dot_dot path ≡ false
    → IsInside volume (path_join (system_volume_path ∷ volume ∷ codes "_data" ∷ path ∷ []))
unfolding path_join drop_empty join text_beq
joined-IsInside [] path name h = absurd (ground (arith, name.1))
joined-IsInside (c ∷ v) [] name h =
    clean-IsInside (c ∷ v) (codes "var/lib/docker/volumes" ++ b'/' ∷ (c ∷ v ++ codes "/_data")) []
      name
      (elements-volume (c ∷ v) (codes "_data") [] name (unfold split in (unfold split_by in refl)))
      tt
joined-IsInside (c ∷ v) (d ∷ path) name h =
    clean-IsInside (c ∷ v)
      (codes "var/lib/docker/volumes" ++ b'/' ∷ (c ∷ v ++ b'/' ∷ (codes "_data/" ++ d ∷ path)))
      (split b'/' (d ∷ path)) name
      (elements-volume (c ∷ v) (codes "_data/" ++ d ∷ path) _ name (data_elements (d ∷ path)))
      (path-IsElement (d ∷ path) h)

ok-injective : {a b : Text} → ok a ≡ ok b → a ≡ b
ok-injective h = cc

-- For the name of a volume, every path that is accepted is built inside the data folder of the
-- volume: its elements are those of the folder and then further ones, none of which is `..`.
pub build_path-IsInside :
    (volume path p : Text)
    → IsVolumeName volume
    → build_path_to_file_inside_volume volume path ≡ ok p
    → IsInside volume p
unfolding build_path_to_file_inside_volume is_valid_path
build_path-IsInside volume path p name = elim (Bool-cases (contains_dot_dot path)) [
  | inl e ↦ rw e (λ h. cc)
  | inr e ↦ rw e (λ h. rw (← ok-injective h) (joined-IsInside volume path name e))
]
