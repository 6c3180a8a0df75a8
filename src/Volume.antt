-- ===== src/Volume.antt =====
-- Paths inside a volume (filesystem/filesystem.go, constants/constants.go), with `path.Join` and
-- `strings.FieldsFunc` of Go's standard library.
mod Fields
mod Separated
mod Uploaded
mod Inside
pub mod Browse
mod Write
use agent_portainer.Prelude.{
  ℕ, zero, suc, ◌+◌, ◌-◌, ◌*◌, ◌/◌, ◌%◌, ◌≤◌, ◌<◌, ◌≡◌, refl, sym, ap, ◌∙◌, ◌≢◌, ◌↔◌, ◌⊎◌, inl, inr,
  Bool, true, false, not, ◌&&◌, ◌||◌, Option, none, some, List, [], ◌∷◌, ◌++◌, map, arith, ltb, leb,
  if◌then◌else◌, nat_beq, nat_beq_iff, Text, codes, text_beq, text_beq_iff, Equality, ◌==◌, nat_eq,
  text_eq, Bool-cases, by_test, Option-cases, length, length-append, All, All-append, lookup,
  insert, erase, has_key, lookup-insert, lookup-erase, has_key-insert, has_key-erase,
  has_key-lookup, beq_refl, itoa, itoa-All, has_prefix, strip_prefix, contains, split_by, split,
  drop_empty, fields_by, join, Lacks, split-join, join-split, split_by-skip, split_by-cut,
  split_by-nil, split_by-whole, split_by-append, by_test, Result, ok, err, Method, >>-keeps,
  >>-eq-ok, ◌>>=◌, ◌>>◌, return, lift, get, modify, Result-cases, take, drop, itoa-cons, IsDigit,
  is_digit, ℤ, pos, negsuc, atoi, atoi-itoa, itoa-IsDigit, int_bound, range_error, syntax_error,
  and_then, IfOk, and_then-IfOk,
}

abbrev pub system_volume_path : Text
system_volume_path = codes "/var/lib/docker/volumes"

abbrev pub is_slash : ℕ → Bool
is_slash c = c == b'/' || c == b'\\'

pub has_dot_dot : List Text → Bool
has_dot_dot [] = false
has_dot_dot (t ∷ ts) = t == codes ".." || has_dot_dot ts

-- `containsDotDot`.
pub contains_dot_dot : Text → Bool
unfolding has_dot_dot
contains_dot_dot v =
    if not (contains (codes "..") v) then false else has_dot_dot (fields_by is_slash v)

pub is_valid_path : Text → Bool
unfolding contains_dot_dot
is_valid_path path = not (contains_dot_dot path)

-- `path.Clean`, element by element; the elements that are kept stand in front, latest first.
abbrev pub push_dot_dot : Bool → List Text → List Text
push_dot_dot rooted [] = if rooted then [] else codes ".." ∷ []
push_dot_dot rooted (t ∷ ts) = if t == codes ".." then codes ".." ∷ t ∷ ts else ts

abbrev pub clean_element : Bool → List Text → Text → List Text
clean_element rooted kept t =
    if t == [] || t == codes "."
    then kept
    else if t == codes ".."
    then push_dot_dot rooted kept
    else t ∷ kept

unfoldable pub clean_elements : Bool → List Text → List Text → List Text
clean_elements rooted kept [] = kept
clean_elements rooted kept (t ∷ ts) = clean_elements rooted (clean_element rooted kept t) ts

unfoldable pub reverse_onto : List Text → List Text → List Text
reverse_onto [] out = out
reverse_onto (t ∷ ts) out = reverse_onto ts (t ∷ out)

abbrev pub or_dot : Text → Text
or_dot [] = codes "."
or_dot (c ∷ s) = c ∷ s

unfoldable pub clean : Text → Text
unfolding clean_elements reverse_onto
clean [] = codes "."
clean (c ∷ s) =
    let rooted = c == b'/' in
    let kept = clean_elements rooted [] (split b'/' (c ∷ s)) in
    let out = join (codes "/") (reverse_onto kept []) in if rooted then b'/' ∷ out else or_dot out

-- `path.Join`.
abbrev pub clean_joined : Text → Text
clean_joined [] = []
clean_joined (c ∷ s) = clean (c ∷ s)

pub path_join : List Text → Text
unfolding clean
path_join elements = clean_joined (join (codes "/") (drop_empty elements))

abbrev pub invalid_path : Text
invalid_path = codes "Invalid path. Ensure that the path do not contain '..' elements"

-- `BuildPathToFileInsideVolume`.
unfoldable pub build_path_to_file_inside_volume : Text → Text → Result Text
unfolding is_valid_path path_join
build_path_to_file_inside_volume volume path =
    if not (is_valid_path path)
    then err invalid_path
    else ok (path_join (system_volume_path ∷ volume ∷ codes "_data" ∷ path ∷ []))

inside_test :
    build_path_to_file_inside_volume (codes "v1") (codes "/a//b/./c")
    ≡ ok (codes "/var/lib/docker/volumes/v1/_data/a/b/c")
unfolding build_path_to_file_inside_volume split split_by join drop_empty fields_by text_beq
    has_dot_dot contains has_prefix
inside_test = refl
