-- ===== src/Agent.antt =====
-- The types that the parts of the agent share (agent.go).
use agent_portainer.Prelude.{ℕ, Bool, ◌++◌, Text, codes, nat_eq, text_eq}

-- The constants count from 1; 0 is the zero value of a field that is not set.
pub data DockerEngineStatus : Type 0 where
  status_unset engine_status_standalone engine_status_swarm : DockerEngineStatus

pub data DockerNodeRole : Type 0 where
  role_unset node_role_manager node_role_worker : DockerNodeRole

pub data ContainerPlatform : Type 0 where
  platform_unset platform_docker platform_kubernetes platform_podman : ContainerPlatform

pub record DockerRuntimeConfiguration : Type 0 where
  pub engine_status : DockerEngineStatus
  pub leader : Bool
  pub node_role : DockerNodeRole

pub record RuntimeConfiguration : Type 0 where
  pub agent_port : Text
  pub edge_key_set : Bool
  pub node_name : Text
  pub docker_configuration : DockerRuntimeConfiguration

pub record ClusterMember : Type 0 where
  pub ip_address : Text
  pub port : Text
  pub node_name : Text
  pub node_role : Text
  pub edge_key_set : Bool

pub record Schedule : Type 0 where
  pub id : ℕ
  pub cron_expression : Text
  pub script : Text
  pub version : ℕ
  pub collect_logs : Bool

pub record TunnelConfig : Type 0 where
  pub server_addr : Text
  pub server_fingerprint : Text
  pub remote_port : Text
  pub local_addr : Text
  pub credentials : Text

abbrev pub host_root : Text
host_root = codes "/host"

abbrev pub schedule_script_directory : Text
schedule_script_directory = codes "/opt/portainer/scripts"

-- `fmt.Sprintf("%s:%s", member.IPAddress, member.Port)`
abbrev pub member_addr : ClusterMember → Text
member_addr m = m.ip_address ++ (codes ":" ++ m.port)
