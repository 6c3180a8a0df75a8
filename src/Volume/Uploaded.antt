-- ===== src/Volume/Uploaded.antt =====
-- That a file written to a folder of a volume stays inside the volume (filesystem/filesystem.go, the
-- path of `WriteFile` and `WriteBigFile`).
use agent_portainer.Prelude.{
  ◌≡◌, sym, ap, ◌∙◌, inl, inr, false, [], ◌∷◌, ◌++◌, Text, codes, nat_eq, text_eq, Bool-cases,
  All-append, split, drop_empty, join, join-split, ok,
}
use mathlib.Core.Path.{subst}
use agent_portainer.Volume.{
  contains_dot_dot, path_join, build_path_to_file_inside_volume, is_valid_path,
}
use agent_portainer.Volume.Inside.{
  IsInside, IsVolumeName, IsElement, clean-IsInside, slash_sep, path-IsElement,
}

-- A path inside a volume is absolute.
rooted_lem : (v folder : Text) → IsInside v folder → (tail : Text) × (folder ≡ b'/' ∷ tail)
unfolding join
rooted_lem v folder (rest, e, _) = (_, sym (join-split b'/' folder) ∙ ap (join (codes "/")) e)

uploaded_rooted :
    (v tail name : Text)
    → IsVolumeName v
    → contains_dot_dot name ≡ false
    → IsInside v (b'/' ∷ tail)
    → IsInside v (path_join ((b'/' ∷ tail) ∷ name ∷ []))
unfolding path_join drop_empty join
uploaded_rooted v tail [] volume h (rest, e, a) = clean-IsInside v tail rest volume e a
uploaded_rooted v tail (c ∷ name) volume h (rest, e, a) =
    clean-IsInside v (tail ++ b'/' ∷ c ∷ name) (rest ++ split b'/' (c ∷ name)) volume
      (slash_sep (b'/' ∷ tail) (c ∷ name) ∙ ap (λ l. l ++ split b'/' (c ∷ name)) e)
      (All-append IsElement rest (split b'/' (c ∷ name)) a (path-IsElement (c ∷ name) h))

-- A name without a `..` element joined to a folder inside a volume is inside the volume.
pub uploaded-IsInside :
    (v folder name : Text)
    → IsVolumeName v
    → contains_dot_dot name ≡ false
    → IsInside v folder
    → IsInside v (path_join (folder ∷ name ∷ []))
uploaded-IsInside v folder name volume h inside =
    let (tail, e) = rooted_lem v folder inside in
    subst (λ f. IsInside v (path_join (f ∷ name ∷ []))) (sym e)
      (uploaded_rooted v tail name volume h (subst (IsInside v) e inside))

-- What is accepted for a volume has no `..` element.
pub build_path_accepts :
    (v path p : Text)
    → build_path_to_file_inside_volume v path ≡ ok p
    → contains_dot_dot path ≡ false
unfolding build_path_to_file_inside_volume is_valid_path
build_path_accepts v path p = elim (Bool-cases (contains_dot_dot path)) [
  | inl e ↦ rw e (λ h. cc)
  | inr e ↦ λ h. e
]
