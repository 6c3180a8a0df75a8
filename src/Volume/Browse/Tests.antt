-- ===== src/Volume/Browse/Tests.antt =====
-- The paths of volumes and the browse handlers at concrete inputs (filesystem/filesystem.go,
-- http/handler/browse/).
use agent_portainer.Volume.Separated.{contains_dot_dot-HasDotDot, HasDotDot}
use agent_portainer.Prelude.{
  ◌≡◌, refl, ◌↔◌, true, false, none, some, [], ◌∷◌, arith, Text, codes, text_beq, nat_eq, text_eq,
  has_prefix, contains, split_by, split, drop_empty, fields_by, join, ok,
}
use agent_portainer.Volume.{build_path_to_file_inside_volume, contains_dot_dot}
use agent_portainer.Volume.Inside.{IsInside, IsVolumeName, build_path-IsInside}
use agent_portainer.Volume.Browse.{
  Request, Upload, Env, write_file, empty, browse_delete, browse_delete_v1, browse_get,
  browse_get_v1, browse_list, browse_list_v1, browse_rename, browse_rename_v1, browse_put,
  browse_put_v1, retrieved,
}
use agent_portainer.Volume.Browse.Confined.{IsConfined, browse-IsConfined, browse_v1-IsConfined}

abbrev built : Text
built = codes "/var/lib/docker/volumes/v1/_data/a/b"

v1-IsVolumeName : IsVolumeName (codes "v1")
unfolding text_beq
v1-IsVolumeName = ((refl, ground arith), refl, refl)

built_test : build_path_to_file_inside_volume (codes "v1") (codes "a//b") ≡ ok built
unfolding build_path_to_file_inside_volume split split_by join drop_empty fields_by text_beq
    contains has_prefix
built_test = refl

build_path-IsInside_example : IsInside (codes "v1") built
build_path-IsInside_example =
    build_path-IsInside (codes "v1") (codes "a//b") built v1-IsVolumeName built_test

-- A request with a path that leaves the volume, and an upload.
abbrev request : Request
request = record {
  volume_id = codes "v1";
  route_id = (codes "v1", none);
  path = (codes "a/../../b", none);
  decoded_payload = ok (record { current_file_path = codes "a"; new_file_path = codes "b" });
  files = some (record { name = codes "f"; content = codes "x" } ∷ []);
  path_values = codes "a" ∷ [];
  form_path = (codes "a", none);
  form_file = ok (record { name = codes "../../f"; content = codes "x" });
}

abbrev env : Env
env = λ c. none

browse-IsConfined_example :
    IsConfined (codes "v1") (browse_delete env request)
    × IsConfined (codes "v1") (browse_get env request)
    × IsConfined (codes "v1") (browse_list env request)
    × IsConfined (codes "v1") (browse_rename env request)
    × IsConfined (codes "v1") (browse_put env request)
browse-IsConfined_example = browse-IsConfined env request v1-IsVolumeName

v1_route : retrieved request.route_id ≡ ok (codes "v1")
unfolding retrieved
v1_route = refl

-- The same with an upload under a plain name.
abbrev plain_request : Request
plain_request = record request { form_file = ok (record { name = codes "f"; content = codes "x" }) }

plain : (f : Upload) → plain_request.form_file ≡ ok f → contains_dot_dot f.name ≡ false
unfolding contains_dot_dot contains has_prefix
plain f h = let same : f.name ≡ codes "f" = cc h in rw same refl

browse_v1-IsConfined_example :
    IsConfined (codes "v1") (browse_delete_v1 env plain_request)
    × IsConfined (codes "v1") (browse_get_v1 env plain_request)
    × IsConfined (codes "v1") (browse_list_v1 env plain_request)
    × IsConfined (codes "v1") (browse_rename_v1 env plain_request)
    × IsConfined (codes "v1") (browse_put_v1 env plain_request)
browse_v1-IsConfined_example =
    browse_v1-IsConfined env plain_request (codes "v1") v1_route v1-IsVolumeName plain

-- The first API writes the uploaded file under a name that leaves the folder.
put_v1_test : browse_put_v1 env request ≡ (
  empty,
  write_file (codes "/var/lib/docker/volumes/v1/_data/a") (codes "../../f") (codes "x") ∷ [],
)
unfolding browse_put_v1 build_path_to_file_inside_volume split split_by join drop_empty fields_by
    text_beq contains has_prefix
put_v1_test = refl

contains_dot_dot-HasDotDot_example :
    (contains_dot_dot (codes "a/..b\\..") ≡ true) ↔ HasDotDot (codes "a/..b\\..")
contains_dot_dot-HasDotDot_example = contains_dot_dot-HasDotDot (codes "a/..b\\..")
