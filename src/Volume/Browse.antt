-- ===== src/Volume/Browse.antt =====
-- The browse handlers (http/handler/browse/): the requests that list, read, rename, write and remove
-- files of the host or of a volume.
mod Confined
mod Tests
use agent_portainer.Prelude.{
  ℕ, zero, suc, ◌+◌, ◌-◌, ◌*◌, ◌/◌, ◌%◌, ◌≤◌, ◌<◌, ◌≡◌, refl, sym, ap, ◌∙◌, ◌≢◌, ◌↔◌, ◌⊎◌, inl, inr,
  Bool, true, false, not, ◌&&◌, ◌||◌, Option, none, some, List, [], ◌∷◌, ◌++◌, map, arith, ltb, leb,
  if◌then◌else◌, nat_beq, nat_beq_iff, Text, codes, text_beq, text_beq_iff, Equality, ◌==◌, nat_eq,
  text_eq, Bool-cases, by_test, Option-cases, length, length-append, All, All-append, lookup,
  insert, erase, has_key, lookup-insert, lookup-erase, has_key-insert, has_key-erase,
  has_key-lookup, beq_refl, itoa, itoa-All, has_prefix, strip_prefix, contains, split_by, split,
  drop_empty, fields_by, join, Lacks, split-join, join-split, Result, ok, err, Method, >>-keeps,
  >>-eq-ok, ◌>>=◌, ◌>>◌, return, lift, get, modify, Result-cases,
}
use agent_portainer.Volume.{build_path_to_file_inside_volume}

-- A Go pair of a value and an error.
abbrev pub Retrieved : Type 0
Retrieved = Text × Option Text

pub record RenamePayload : Type 0 where
  pub current_file_path : Text
  pub new_file_path : Text

-- An uploaded file: its name and its content.
pub record Upload : Type 0 where
  pub name : Text
  pub content : Text

-- What libhttp and net/http retrieve from a request. `files` are the parts of the form called
-- "file", and are missing if the request has no such form; `path_values` are the values of "Path".
pub record Request : Type 0 where
  pub volume_id : Text
  pub route_id : Retrieved
  pub path : Retrieved
  pub decoded_payload : Result RenamePayload
  pub files : Option (List Upload)
  pub path_values : List Text
  pub form_path : Retrieved
  pub form_file : Result Upload

-- The calls of the package filesystem.
pub data FileCall : Type 0 where
  remove_file open_file list_files_inside_directory : (path : Text) → FileCall
  rename_file : (old new : Text) → FileCall
  write_file write_big_file : (folder name content : Text) → FileCall

pub data Response : Type 0 where
  http_error : (status : ℕ) → (message error : Text) → Response
  empty : Response
  served listed : (path : Text) → Response
  panicked : Response

-- A handler's answer and the calls that it made.
abbrev pub Reply : Type 0
Reply = Response × List FileCall

-- The error that a call returns, if it does.
abbrev pub Env : Type 0
Env = FileCall → Option Text

abbrev pub bad_request : Text → Text → Reply
bad_request message x = (http_error 400 message x, [])

-- A call, and the answer after it.
pub call : Env → FileCall → Text → Response → Reply
call env c message done = elim (env c) [
  | none ↦ (done, c ∷ [])
  | some x ↦ (http_error 500 message x, c ∷ [])
]

pub with_result : {A : Type 0} → Result A → Text → (A → Reply) → Reply
with_result (err x) message k = bad_request message x
with_result (ok p) message k = k p

-- A value without an error, or the error.
pub retrieved : Retrieved → Result Text
retrieved (v, none) = ok v
retrieved (v, some x) = err x

-- The path that is meant: inside the volume, if there is one.
pub path_in : Text → Text → Result Text
path_in [] path = ok path
path_in (c ∷ volume) path = build_path_to_file_inside_volume (c ∷ volume) path

abbrev pub invalid_path_parameter : Text
invalid_path_parameter = codes "Invalid query parameter: path"

abbrev pub invalid_route : Text
invalid_route = codes "Invalid volume identifier route variable"

abbrev pub invalid_volume : Text
invalid_volume = codes "Invalid volume"

abbrev pub invalid_payload : Text
invalid_payload = codes "Invalid request payload"

-- The handlers of the current API that take one path.
pub on_path : Request → (Text → Reply) → Reply
unfolding with_result retrieved path_in
on_path r k =
    with_result (retrieved r.path) invalid_path_parameter
      (λ path. with_result (path_in r.volume_id path) invalid_volume k)

-- Those of the first API: an error of the query parameter is overwritten, and the path then is the
-- value that came with it.
pub on_path_v1 : Request → (Text → Reply) → Reply
unfolding with_result retrieved
on_path_v1 r k = with_result (retrieved r.route_id) invalid_route (λ volume.
    with_result (build_path_to_file_inside_volume volume r.path.0) invalid_path_parameter k)

abbrev pub remove_at : Env → Text → Reply
remove_at env path = call env (remove_file path) (codes "Unable to remove file") empty

abbrev pub serve_at : Env → Text → Reply
serve_at env path = call env (open_file path) (codes "Unable to open file") (served path)

abbrev pub list_at : Env → Text → Reply
list_at env path =
    call env (list_files_inside_directory path)
      (codes "Unable to list files inside specified directory") (listed path)

pub browse_delete : Env → Request → Reply
unfolding on_path call
browse_delete env r = on_path r (remove_at env)

pub browse_delete_v1 : Env → Request → Reply
unfolding on_path_v1 call
browse_delete_v1 env r = on_path_v1 r (remove_at env)

pub browse_get : Env → Request → Reply
unfolding on_path call
browse_get env r = on_path r (serve_at env)

pub browse_get_v1 : Env → Request → Reply
unfolding on_path_v1 call
browse_get_v1 env r = on_path_v1 r (serve_at env)

pub browse_list : Env → Request → Reply
unfolding on_path call
browse_list env r = on_path r (list_at env)

pub browse_list_v1 : Env → Request → Reply
unfolding on_path_v1 call
browse_list_v1 env r = on_path_v1 r (list_at env)

-- `browseRenamePayload.Validate`.
pub validate_rename : RenamePayload → Result RenamePayload
validate_rename p =
    if p.current_file_path == []
    then err (codes "Current file path is invalid")
    else if p.new_file_path == []
    then err (codes "New file path is invalid")
    else ok p

-- `DecodeAndValidateJSONPayload` decodes the body and calls `Validate`.
pub rename_payload : Result RenamePayload → Result RenamePayload
unfolding validate_rename
rename_payload (err x) = err x
rename_payload (ok p) = validate_rename p

abbrev pub rename_at : Env → Text → Text → Reply
rename_at env old new = call env (rename_file old new) (codes "Unable to rename file") empty

pub browse_rename : Env → Request → Reply
unfolding with_result path_in call rename_payload
browse_rename env r = with_result (rename_payload r.decoded_payload) invalid_payload (λ p.
    with_result (path_in r.volume_id p.current_file_path) invalid_volume (λ old.
      with_result (path_in r.volume_id p.new_file_path) invalid_volume
        (λ new. rename_at env old new)))

pub browse_rename_v1 : Env → Request → Reply
unfolding with_result retrieved call rename_payload
browse_rename_v1 env r = with_result (retrieved r.route_id) invalid_route (λ volume.
    with_result (rename_payload r.decoded_payload) invalid_payload (λ p.
      with_result (build_path_to_file_inside_volume volume p.current_file_path) invalid_volume
        (λ old.
          with_result (build_path_to_file_inside_volume volume p.new_file_path) invalid_volume
            (λ new. rename_at env old new))))

-- The end of `browsePut`: `WriteBigFile` opens the header of the upload, which is nil without a file.
pub save_upload : Env → List Upload → Text → Reply
unfolding call
save_upload env [] folder = (panicked, [])
save_upload env (f ∷ fs) folder =
    call env (write_big_file folder f.name f.content) (codes "Error saving file to disk") empty

abbrev pub upload_name : List Upload → Text
upload_name [] = []
upload_name (f ∷ fs) = f.name

pub first_value : List Text → Result Text
first_value [] = err (codes "Invalid file path")
first_value (v ∷ vs) = ok v

pub form_files : Option (List Upload) → Result (List Upload)
form_files none = err (codes "Invalid uploaded file")
form_files (some fs) = ok fs

pub browse_put : Env → Request → Reply
unfolding with_result path_in save_upload first_value form_files
browse_put env r = with_result (form_files r.files) invalid_payload (λ fs.
    with_result (first_value r.path_values) invalid_payload (λ path.
      with_result (path_in r.volume_id path) invalid_volume (λ folder.
        with_result (path_in r.volume_id (upload_name fs)) (codes "Invalid filename")
          (λ _. save_upload env fs folder))))

-- An error of the payload that `Validate` writes in its own words.
pub renamed_error : {A : Type 0} → Text → Result A → Result A
renamed_error x (err _) = err x
renamed_error x (ok a) = ok a

-- The name of the file is not checked.
pub browse_put_v1 : Env → Request → Reply
unfolding with_result retrieved call renamed_error
browse_put_v1 env r = with_result (retrieved r.route_id) invalid_route (λ volume.
    with_result (renamed_error (codes "Invalid file path") (retrieved r.form_path)) invalid_payload
      (λ path.
        with_result (renamed_error (codes "Invalid uploaded file") r.form_file) invalid_payload
          (λ f. with_result (build_path_to_file_inside_volume volume path) invalid_volume (λ folder.
            call env (write_file folder f.name f.content) (codes "Error saving file to disk")
              empty))))
