-- ===== src/Api/Handlers.antt =====
-- The handlers that only pass on what a service answers: the members of the cluster
-- (http/handler/agent/agent_list.go), the host (http/handler/host/host_info.go, ghw/), the Kubernetes API
-- (http/handler/kubernetesproxy/kubernetes_operation.go) and the ping (http/handler/ping/ping.go).
use agent_portainer.Prelude.{
  ℕ, Option, none, some, List, [], ◌∷◌, ◌++◌, map, Text, codes, nat_eq, text_eq, strip_prefix,
  Result, ok, err, and_then,
}
use agent_portainer.Agent.{ClusterMember}
use agent_portainer.Serf.{SerfMember, members}

pub data Answer (A : Type 0) : Type 0 where
  error : (status : ℕ) → (message reason : Text) → Answer A
  json : A → Answer A
  no_content : Answer A

-- `agentList`, with the members of the cluster, if there is a cluster service.
pub agent_list : Option (List SerfMember) → Answer (List ClusterMember)
agent_list none =
    error 503
      (codes "Agent management is not available when running the agent on a standalone engine")
      (codes "Agent management is disabled")
agent_list (some ms) = json (members ms)

pub record PciDevice : Type 0 where
  pub vendor : Text
  pub name : Text

pub record PhysicalDisk : Type 0 where
  pub vendor : Text
  pub size : ℕ

pub record HostInfo : Type 0 where
  pub pci_devices : List PciDevice
  pub physical_disks : List PhysicalDisk

-- The library ghw: the vendor and the product of each device, and the vendor and the size of each disk.
pub record Ghw : Type 0 where
  pub pci : Result (List (Text × Text))
  pub block : Result (List (Text × ℕ))

abbrev pub pci_device : Text × Text → PciDevice
pci_device (vendor, product) = record { vendor = vendor; name = product }

abbrev pub physical_disk : Text × ℕ → PhysicalDisk
physical_disk (vendor, size) = record { vendor = vendor; size = size }

pub get_pci_devices : Ghw → Result (List PciDevice)
get_pci_devices g = and_then g.pci (λ devices. ok (map pci_device devices))

pub get_disk_info : Ghw → Result (List PhysicalDisk)
get_disk_info g = and_then g.block (λ disks. ok (map physical_disk disks))

pub fill_host_info : Ghw → Result HostInfo
unfolding get_pci_devices get_disk_info
fill_host_info g = and_then (get_pci_devices g) (λ devices.
    and_then (get_disk_info g)
      (λ disks. ok (record { pci_devices = devices; physical_disks = disks })))

pub answer_host : Result HostInfo → Answer HostInfo
answer_host (ok info) = json info
answer_host (err x) = error 500 (codes "Unable to retrieve host information") x

-- `hostInfo`.
pub host_info : Ghw → Answer HostInfo
unfolding fill_host_info answer_host
host_info g = answer_host (fill_host_info g)

-- `kubernetesOperation`, for the token of the request, "" for none: the authorization of the request to
-- the API and the path that it has, or the error of reading the token of the agent's own account.
pub authorized : Text → Text → Result (Text × Text)
authorized token path = ok (codes "Bearer " ++ token, strip_prefix (codes "/kubernetes") path)

pub kubernetes_operation : Result Text → Text → Text → Result (Text × Text)
unfolding authorized
kubernetes_operation admin_token [] path = and_then admin_token (λ token. authorized token path)
kubernetes_operation admin_token (c ∷ token) path = authorized (c ∷ token) path

-- `ping`.
pub ping : Answer (Unit {0})
ping = no_content
