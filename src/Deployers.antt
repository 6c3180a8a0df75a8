-- ===== src/Deployers.antt =====
-- The commands that deploy and remove stacks (exec/), on Linux, and the handler that deploys a manifest
-- (http/handler/kubernetes/kubernetes_deploy.go). Running a command is a parameter, and so is the
-- library that deploys with docker-compose.
mod Tests
use agent_portainer.Prelude.{
  ℕ, zero, suc, ◌+◌, ◌-◌, ◌*◌, ◌/◌, ◌%◌, ◌≤◌, ◌<◌, ◌≡◌, refl, sym, ap, ◌∙◌, ◌≢◌, ◌↔◌, ◌⊎◌, inl, inr,
  Bool, true, false, not, ◌&&◌, ◌||◌, Option, none, some, List, [], ◌∷◌, ◌++◌, map, arith, ltb, leb,
  if◌then◌else◌, nat_beq, nat_beq_iff, Text, codes, text_beq, text_beq_iff, Equality, ◌==◌, nat_eq,
  text_eq, Bool-cases, by_test, Option-cases, length, length-append, All, All-append, lookup,
  insert, erase, has_key, lookup-insert, lookup-erase, has_key-insert, has_key-erase,
  has_key-lookup, beq_refl, itoa, itoa-All, has_prefix, strip_prefix, contains, split_by, split,
  drop_empty, fields_by, join, Lacks, split-join, join-split, split_by-skip, split_by-cut,
  split_by-nil, split_by-whole, split_by-append, by_test, Result, ok, err, Method, >>-keeps,
  >>-eq-ok, ◌>>=◌, ◌>>◌, return, lift, get, modify, Result-cases, take, drop, itoa-cons, IsDigit,
  is_digit, ℤ, pos, negsuc, atoi, atoi-itoa, itoa-IsDigit, int_bound, range_error, syntax_error,
  and_then, IfOk, and_then-IfOk,
}
use agent_portainer.Volume.{clean, path_join}

-- A command line with the directory that it runs in, "" for the agent's own, and its input.
pub record Command : Type 0 where
  pub path : Text
  pub args : List Text
  pub working_dir : Text
  pub input : Text

-- What running a command returns: the error of the run, and what was written to stderr, or the output.
pub data Run : Type 0 where
  failed : (error stderr : Text) → Run
  output : Text → Run

pub run_command_and_capture_std_err : (Command → Run) → Command → Result Text
run_command_and_capture_std_err run c = elim (run c) [
  | failed error stderr ↦ err (error ++ codes ": " ++ stderr)
  | output t ↦ ok t
]

-- The part of a path up to its last slash, as `path.Split` cuts it: `kept` is the part before the
-- slashes read so far, `cur` what follows the last one.
pub folder_part : Text → Text → Text → Text
folder_part kept cur [] = kept
folder_part kept cur (c ∷ s) = elim (c == b'/') [
  | true ↦ folder_part (kept ++ cur ++ c ∷ []) [] s
  | false ↦ folder_part kept (cur ++ c ∷ []) s
]

-- `path.Dir`.
pub path_dir : Text → Text
unfolding folder_part
path_dir path = clean (folder_part [] [] path)

abbrev pub done_after : Result Text → Result (Unit {0})
done_after r = and_then r (λ out. ok tt)

abbrev pub missing_file_paths : Text
missing_file_paths = codes "missing file paths"

pub prepare_docker_command : Text → Text
prepare_docker_command binary_path = path_join (binary_path ∷ codes "docker" ∷ [])

abbrev pub plain : Text → List Text → Command
plain path args = record { path = path; args = args; working_dir = []; input = [] }

abbrev pub swarm_args : Bool → Text → Text → List Text
swarm_args prune file name =
    codes "stack" ∷ codes "deploy" ∷ (if prune then codes "--prune" ∷ [] else [])
    ++ codes "--with-registry-auth" ∷ codes "--compose-file" ∷ file ∷ name ∷ []

-- `Deploy`, `Remove` and `Logout` of the DockerSwarmStackService.
pub swarm_deploy : (Command → Run) → Text → Text → List Text → Bool → Result (Unit {0})
unfolding run_command_and_capture_std_err path_dir prepare_docker_command
swarm_deploy run binary_path name [] prune = err missing_file_paths
swarm_deploy run binary_path name (file ∷ files) prune = done_after (
    run_command_and_capture_std_err run (record {
      path = prepare_docker_command binary_path;
      args = swarm_args prune file name;
      working_dir = path_dir file;
      input = [];
    }))

pub swarm_remove : (Command → Run) → Text → Text → List Text → Result (Unit {0})
unfolding run_command_and_capture_std_err prepare_docker_command
swarm_remove run binary_path name files = done_after (
    run_command_and_capture_std_err run
      (plain (prepare_docker_command binary_path) (codes "stack" ∷ codes "rm" ∷ name ∷ [])))

pub swarm_logout : (Command → Run) → Text → Result (Unit {0})
unfolding run_command_and_capture_std_err prepare_docker_command
swarm_logout run binary_path = done_after (
    run_command_and_capture_std_err run
      (plain (prepare_docker_command binary_path) (codes "logout" ∷ [])))

-- The library docker-compose-wrapper: deploying and removing a stack with these files.
pub record ComposeDeployer : Type 0 where
  pub deploy : Text → List Text → Result (Unit {0})
  pub remove : Text → List Text → Result (Unit {0})

-- The DockerComposeStackService hands on the name and the files; it does not prune.
pub compose_deploy : ComposeDeployer → Text → List Text → Bool → Result (Unit {0})
compose_deploy d name files prune = d.deploy name files

pub compose_remove : ComposeDeployer → Text → List Text → Result (Unit {0})
compose_remove d name files = d.remove name files

abbrev pub kubernetes_service_host : Text
kubernetes_service_host = codes "KUBERNETES_SERVICE_HOST"

abbrev pub kubernetes_service_port_https : Text
kubernetes_service_port_https = codes "KUBERNETES_SERVICE_PORT_HTTPS"

abbrev pub not_defined : Text → Text
not_defined name = name ++ codes " env var is not defined"

pub build_token_args : (Text → Text) → Text → Result (List Text)
build_token_args getenv token =
    let host = getenv kubernetes_service_host in
    let port = getenv kubernetes_service_port_https in
    if host == []
    then err (not_defined kubernetes_service_host)
    else if port == []
    then err (not_defined kubernetes_service_port_https)
    else ok (
        codes "--token"
        ∷ token
        ∷ codes "--server"
        ∷ (codes "https://" ++ host ++ codes ":" ++ port)
        ∷ codes "--insecure-skip-tls-verify"
        ∷ [])

abbrev pub namespace_args : Text → List Text
namespace_args [] = []
namespace_args (c ∷ s) = codes "--namespace" ∷ (c ∷ s) ∷ []

-- The arguments for a token, if there is one.
abbrev pub wrapped : Result (List Text) → Result (List Text)
wrapped (ok args) = ok args
wrapped (err x) = err (codes "failed building token args: " ++ x)

pub build_args : (Text → Text) → Text → Text → Result (List Text)
unfolding build_token_args
build_args getenv namespace [] = ok (namespace_args namespace)
build_args getenv namespace (c ∷ token) =
    and_then (wrapped (build_token_args getenv (c ∷ token)))
      (λ args. ok (namespace_args namespace ++ args))

-- `NewKubernetesDeployer`.
pub kubectl : Text → Text
kubectl binary_path = path_join (binary_path ∷ codes "kubectl" ∷ [])

-- `Deploy` and `Remove` of the KubernetesDeployer, by the operation of kubectl.
pub kubernetes_run : (Command → Run) → (Text → Text) → Text → Text → List Text → Result (Unit {0})
unfolding build_args run_command_and_capture_std_err
kubernetes_run run getenv command operation [] = err missing_file_paths
kubernetes_run run getenv command operation (file ∷ files) =
    and_then (build_args getenv (codes "default") []) (λ args. done_after (
      run_command_and_capture_std_err run
        (plain command (args ++ operation ∷ codes "-f" ∷ file ∷ []))))

pub kubernetes_deploy :
    (Command → Run) → (Text → Text) → Text → Text → List Text → Bool → Result (Unit {0})
unfolding kubernetes_run
kubernetes_deploy run getenv command name files prune =
    kubernetes_run run getenv command (codes "apply") files

pub kubernetes_remove :
    (Command → Run) → (Text → Text) → Text → Text → List Text → Result (Unit {0})
unfolding kubernetes_run
kubernetes_remove run getenv command name files =
    kubernetes_run run getenv command (codes "delete") files

pub deploy_raw_config : (Command → Run) → (Text → Text) → Text → Text → Text → Text → Result Text
unfolding build_args run_command_and_capture_std_err
deploy_raw_config run getenv command token config namespace =
    and_then (build_args getenv namespace token) (λ args.
      run_command_and_capture_std_err run (record {
        path = command;
        args = args ++ codes "apply" ∷ codes "-f" ∷ codes "-" ∷ [];
        working_dir = [];
        input = config;
      }))

pub record DeployPayload : Type 0 where
  pub stack_config : Text
  pub namespace : Text

-- What the handler answers.
pub data Answer : Type 0 where
  error : (status : ℕ) → (message reason : Text) → Answer
  deployed : (output : Text) → Answer

-- `Validate`.
pub validate : DeployPayload → Result DeployPayload
validate p = if p.stack_config == [] then err (codes "Missing deployment config") else ok p

pub answer_output : Result Text → Answer
answer_output (ok out) = deployed out
answer_output (err x) = error 500 (codes "Failed deploying") x

pub answer_payload : (Command → Run) → (Text → Text) → Text → Text → Result DeployPayload → Answer
unfolding deploy_raw_config answer_output
answer_payload run getenv command token (err x) = error 400 (codes "Invalid request payload") x
answer_payload run getenv command token (ok p) =
    answer_output (deploy_raw_config run getenv command token p.stack_config p.namespace)

-- `kubernetesDeploy`, for the token of the request and its decoded payload.
pub kubernetes_deploy_handler :
    (Command → Run) → (Text → Text) → Text → Text → Result DeployPayload → Answer
unfolding answer_payload validate
kubernetes_deploy_handler run getenv command token decoded =
    answer_payload run getenv command token (and_then decoded validate)
