-- ===== src/Deployers/Tests.antt =====
-- Commands at concrete inputs (exec/).
use agent_portainer.Prelude.{
  ◌≡◌, refl, false, [], ◌∷◌, if◌then◌else◌, codes, text_beq, ◌==◌, nat_eq, text_eq, split_by, split,
  join, err, and_then,
}
use agent_portainer.Volume.{clean, clean_elements, reverse_onto}
use agent_portainer.Deployers.{
  Command, Run, failed, path_dir, folder_part, swarm_deploy, run_command_and_capture_std_err,
  build_args, build_token_args,
}

-- The working directory of the deployment of a stack of the Edge stack manager.
stack_dir_test :
    path_dir (codes "/tmp/edge_stacks/7/docker-compose.yml") ≡ codes "/tmp/edge_stacks/7"
unfolding path_dir folder_part clean clean_elements reverse_onto split split_by join text_beq
stack_dir_test = refl

-- A run that reports the directory that it is in.
abbrev report : Command → Run
report c = failed c.working_dir (codes "no docker")

swarm_test :
    swarm_deploy report (codes "/app") (codes "edge_web") (codes "/tmp/7/web.yml" ∷ []) false
    ≡ err (codes "/tmp/7: no docker")
unfolding swarm_deploy run_command_and_capture_std_err path_dir folder_part clean clean_elements
    reverse_onto split split_by join text_beq and_then
swarm_test = refl

no_port_test :
    build_args
      (λ name. if name == codes "KUBERNETES_SERVICE_HOST" then codes "10.0.0.1" else [])
      (codes "web")
      (codes "t")
    ≡ err (codes "failed building token args: KUBERNETES_SERVICE_PORT_HTTPS env var is not defined")
unfolding build_args build_token_args and_then text_beq
no_port_test = refl
