-- ===== src/Volume/Browse/Confined.antt =====
-- What the browse handlers touch (http/handler/browse/).
use agent_portainer.Prelude.{
  ◌≡◌, refl, inl, inr, false, List, [], ◌∷◌, arith, Text, codes, text_beq, nat_eq, text_eq,
  Option-cases, All, Result, ok, err,
}
use agent_portainer.Volume.{build_path_to_file_inside_volume, contains_dot_dot, path_join}
use agent_portainer.Volume.Uploaded.{uploaded-IsInside, build_path_accepts}
use agent_portainer.Volume.Inside.{IsInside, IsVolumeName, build_path-IsInside}
use agent_portainer.Volume.Browse.{
  Upload, Request, FileCall, remove_file, open_file, list_files_inside_directory, rename_file,
  write_file, write_big_file, Response, Reply, Env, call, with_result, retrieved, path_in, on_path,
  on_path_v1, browse_delete, browse_delete_v1, browse_get, browse_get_v1, browse_list,
  browse_list_v1, browse_rename, browse_rename_v1, browse_put, browse_put_v1, save_upload,
  renamed_error, rename_payload, upload_name, form_files, first_value,
}

-- The paths that a call touches are inside the volume; of a write, the folder and the file in it.
abbrev pub CallIsInside : Text → FileCall → Type 0
CallIsInside v (remove_file p) = IsInside v p
CallIsInside v (open_file p) = IsInside v p
CallIsInside v (list_files_inside_directory p) = IsInside v p
CallIsInside v (rename_file old new) = IsInside v old × IsInside v new
CallIsInside v (write_file folder name content) =
    IsInside v folder × IsInside v (path_join (folder ∷ name ∷ []))
CallIsInside v (write_big_file folder name content) =
    IsInside v folder × IsInside v (path_join (folder ∷ name ∷ []))

-- An answer is confined to a volume if every call made for it is.
abbrev pub IsConfined : Text → Reply → Type 0
IsConfined v (r, calls) = All (CallIsInside v) calls

call-IsConfined :
    (v : Text) (env : Env) (c : FileCall) (message : Text) (done : Response)
    → CallIsInside v c
    → IsConfined v (call env c message done)
unfolding call
call-IsConfined v env c message done h = elim (Option-cases (env c)) [
  | inl e ↦ rw (e, call) (h, tt)
  | inr (x, e) ↦ rw (e, call) (h, tt)
]

with_result-IsConfined :
    {A : Type 0} (v : Text) (r : Result A) (message : Text) (k : A → Reply)
    → ((a : A) → r ≡ ok a → IsConfined v (k a))
    → IsConfined v (with_result r message k)
unfolding with_result
with_result-IsConfined v (err x) message k h = tt
with_result-IsConfined v (ok a) message k h = h a refl

-- The path that a handler resolves, for a request that names a volume.
path_in-IsInside : (v path p : Text) → IsVolumeName v → path_in v path ≡ ok p → IsInside v p
unfolding path_in text_beq
path_in-IsInside [] path p name h = absurd (ground (arith, name.1))
path_in-IsInside (c ∷ v) path p name h = build_path-IsInside (c ∷ v) path p name h

on_path-IsConfined :
    (r : Request) (k : Text → Reply)
    → IsVolumeName r.volume_id
    → ((p : Text) → IsInside r.volume_id p → IsConfined r.volume_id (k p))
    → IsConfined r.volume_id (on_path r k)
unfolding on_path
on_path-IsConfined r k name h = with_result-IsConfined r.volume_id (retrieved r.path) _ _ (λ path _.
    with_result-IsConfined r.volume_id (path_in r.volume_id path) _ k
      (λ p e. h p (path_in-IsInside r.volume_id path p name e)))

save_upload-IsConfined :
    (v : Text) (env : Env) (fs : List Upload) (folder : Text)
    → IsVolumeName v
    → contains_dot_dot (upload_name fs) ≡ false
    → IsInside v folder
    → IsConfined v (save_upload env fs folder)
unfolding save_upload
save_upload-IsConfined v env [] folder name plain h = tt
save_upload-IsConfined v env (f ∷ fs) folder name plain h =
    call-IsConfined v env (write_big_file folder f.name f.content) _ _
      (h, uploaded-IsInside v folder f.name name plain h)

-- A name that is accepted for a volume has no `..` element.
path_in_accepts :
    (v path p : Text) → IsVolumeName v → path_in v path ≡ ok p → contains_dot_dot path ≡ false
unfolding path_in text_beq
path_in_accepts [] path p name h = absurd (ground (arith, name.1))
path_in_accepts (c ∷ v) path p name h = build_path_accepts (c ∷ v) path p h

-- A request of the current API that names a volume, by one element of a path, makes no call of the file
-- system for a path outside the data folder of the volume, whatever path it gives and whatever the name
-- of an uploaded file is.
pub browse-IsConfined :
    (env : Env) (r : Request)
    → IsVolumeName r.volume_id
    → IsConfined r.volume_id (browse_delete env r)
      × IsConfined r.volume_id (browse_get env r)
      × IsConfined r.volume_id (browse_list env r)
      × IsConfined r.volume_id (browse_rename env r)
      × IsConfined r.volume_id (browse_put env r)
unfolding browse_delete browse_get browse_list browse_rename browse_put
browse-IsConfined env r name = (
  on_path-IsConfined r _ name (λ p h. call-IsConfined r.volume_id env (remove_file p) _ _ h),
  on_path-IsConfined r _ name (λ p h. call-IsConfined r.volume_id env (open_file p) _ _ h),
  on_path-IsConfined r _ name
      (λ p h. call-IsConfined r.volume_id env (list_files_inside_directory p) _ _ h),
  with_result-IsConfined r.volume_id (rename_payload r.decoded_payload) _ _ (λ q _.
      with_result-IsConfined r.volume_id (path_in r.volume_id q.current_file_path) _ _ (λ old e.
        with_result-IsConfined r.volume_id (path_in r.volume_id q.new_file_path) _ _ (λ new f.
          call-IsConfined r.volume_id env (rename_file old new) _ _ (
            path_in-IsInside r.volume_id _ old name e,
            path_in-IsInside r.volume_id _ new name f,
          )))),
  with_result-IsConfined r.volume_id (form_files r.files) _ _ (λ fs _.
      with_result-IsConfined r.volume_id (first_value r.path_values) _ _ (λ path _.
        with_result-IsConfined r.volume_id (path_in r.volume_id path) _ _ (λ folder e.
          with_result-IsConfined r.volume_id (path_in r.volume_id (upload_name fs)) _ _ (λ q g.
            save_upload-IsConfined r.volume_id env fs folder name
              (path_in_accepts r.volume_id (upload_name fs) q name g)
              (path_in-IsInside r.volume_id path folder name e))))),
)

renamed_error_ok :
    {A : Type 0} (x : Text) (r : Result A) (a : A) → renamed_error x r ≡ ok a → r ≡ ok a
unfolding renamed_error
renamed_error_ok x (ok b) a h = h
renamed_error_ok x (err y) a h = cc

on_path_v1-IsConfined :
    (r : Request) (k : Text → Reply) (v : Text)
    → retrieved r.route_id ≡ ok v
    → IsVolumeName v
    → ((p : Text) → IsInside v p → IsConfined v (k p))
    → IsConfined v (on_path_v1 r k)
unfolding on_path_v1 with_result
on_path_v1-IsConfined r k v e name h = rw e (
    with_result-IsConfined v (build_path_to_file_inside_volume v r.path.0) _ k
      (λ p f. h p (build_path-IsInside v r.path.0 p name f)))

-- A request of the first API makes no call of the file system for a path outside the data folder of the
-- volume that its route names, by one element of a path, whatever path the request gives, if the name
-- of an uploaded file, which is not checked, has no `..` element.
pub browse_v1-IsConfined :
    (env : Env) (r : Request) (v : Text)
    → retrieved r.route_id ≡ ok v
    → IsVolumeName v
    → ((f : Upload) → r.form_file ≡ ok f → contains_dot_dot f.name ≡ false)
    → IsConfined v (browse_delete_v1 env r)
      × IsConfined v (browse_get_v1 env r)
      × IsConfined v (browse_list_v1 env r)
      × IsConfined v (browse_rename_v1 env r)
      × IsConfined v (browse_put_v1 env r)
unfolding browse_delete_v1 browse_get_v1 browse_list_v1 browse_rename_v1 browse_put_v1 with_result
browse_v1-IsConfined env r v route name plain = (
  on_path_v1-IsConfined r _ v route name (λ p h. call-IsConfined v env (remove_file p) _ _ h),
  on_path_v1-IsConfined r _ v route name (λ p h. call-IsConfined v env (open_file p) _ _ h),
  on_path_v1-IsConfined r _ v route name
      (λ p h. call-IsConfined v env (list_files_inside_directory p) _ _ h),
  rw route (
      with_result-IsConfined v (rename_payload r.decoded_payload) _ _ (λ q _.
        with_result-IsConfined v (build_path_to_file_inside_volume v q.current_file_path) _ _
          (λ old e.
            with_result-IsConfined v (build_path_to_file_inside_volume v q.new_file_path) _ _
              (λ new f.
                call-IsConfined v env (rename_file old new) _ _
                  (build_path-IsInside v _ old name e, build_path-IsInside v _ new name f))))),
  rw route (
      with_result-IsConfined v (renamed_error (codes "Invalid file path") (retrieved r.form_path)) _
        _
        (λ path _.
          with_result-IsConfined v (renamed_error (codes "Invalid uploaded file") r.form_file) _ _
            (λ f g.
              with_result-IsConfined v (build_path_to_file_inside_volume v path) _ _ (λ folder e.
                let inside = build_path-IsInside v path folder name e in
                let named = plain f (renamed_error_ok _ r.form_file f g) in
                call-IsConfined v env (write_file folder f.name f.content) _ _
                  (inside, uploaded-IsInside v folder f.name name named inside))))),
)
