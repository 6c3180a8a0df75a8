-- ===== src/Serf.antt =====
-- The cluster service (serf/cluster.go): what an agent tells the cluster of itself, and how it reads
-- the other members. The serf library is the list of members that it returns.
pub mod Members
mod Tests
use agent_portainer.Prelude.{
  ℕ, zero, suc, ◌+◌, ◌-◌, ◌*◌, ◌/◌, ◌%◌, ◌≤◌, ◌<◌, ◌≡◌, refl, sym, ap, ◌∙◌, ◌≢◌, ◌↔◌, ◌⊎◌, inl, inr,
  Bool, true, false, not, ◌&&◌, ◌||◌, Option, none, some, List, [], ◌∷◌, ◌++◌, map, arith, ltb, leb,
  if◌then◌else◌, nat_beq, nat_beq_iff, Text, codes, text_beq, text_beq_iff, Equality, ◌==◌, nat_eq,
  text_eq, Bool-cases, Option-cases, length, length-append, All, All-append, lookup, insert, erase,
  has_key, lookup-insert, lookup-erase, has_key-insert, has_key-erase, has_key-lookup, beq_refl,
  itoa, has_prefix, strip_prefix, contains, split_by, split, drop_empty, fields_by, join, Lacks,
  split-join, join-split, Result, ok, err, Method, >>-keeps, >>-eq-ok, ◌>>=◌, ◌>>◌, return, lift,
  get, modify, Result-cases,
}
use agent_portainer.Agent.{
  ClusterMember, DockerEngineStatus, DockerNodeRole, RuntimeConfiguration, engine_status_swarm,
  node_role_worker,
}

abbrev pub member_tag_key_agent_port : Text
member_tag_key_agent_port = codes "AgentPort"

abbrev pub member_tag_key_is_leader : Text
member_tag_key_is_leader = codes "NodeIsLeader"

abbrev pub member_tag_key_node_name : Text
member_tag_key_node_name = codes "NodeName"

abbrev pub member_tag_key_node_role : Text
member_tag_key_node_role = codes "DockerNodeRole"

abbrev pub member_tag_key_engine_status : Text
member_tag_key_engine_status = codes "DockerEngineStatus"

abbrev pub member_tag_key_edge_key_set : Text
member_tag_key_edge_key_set = codes "EdgeKeySet"

-- A member as serf lists it: whether it is alive, its address and its tags.
pub record SerfMember : Type 0 where
  pub is_alive : Bool
  pub addr : Text
  pub tags : List (Text × Text)

abbrev pub engine_status_value : DockerEngineStatus → Text
engine_status_value engine_status_swarm = codes "swarm"
engine_status_value _ = codes "standalone"

abbrev pub node_role_value : DockerNodeRole → Text
node_role_value node_role_worker = codes "worker"
node_role_value _ = codes "manager"

abbrev pub insert_if : Bool → Text → Text → List (Text × Text) → List (Text × Text)
insert_if true k v m = insert k v m
insert_if false k v m = m

-- `convertRuntimeConfigurationToTagMap`: its assignments in order, with the two flags that it tests.
pub tags_of : Bool → Bool → RuntimeConfiguration → List (Text × Text)
tags_of key_set leader c =
    let m1 = insert_if key_set member_tag_key_edge_key_set (codes "set") [] in
    let status = engine_status_value c.docker_configuration.engine_status in
    let m2 = insert member_tag_key_engine_status status m1 in
    let m3 = insert member_tag_key_agent_port c.agent_port m2 in
    let m4 = insert_if leader member_tag_key_is_leader (codes "1") m3 in
    let m5 = insert member_tag_key_node_name c.node_name m4 in
    insert member_tag_key_node_role (node_role_value c.docker_configuration.node_role) m5

pub tag_map : RuntimeConfiguration → List (Text × Text)
unfolding tags_of
tag_map c = tags_of c.edge_key_set c.docker_configuration.leader c

-- `m[k]`, which is "" for a key that is missing.
pub tag : Text → List (Text × Text) → Text
tag k m = elim (lookup k m) [ none ↦ [] | some v ↦ v ]

pub cluster_member : SerfMember → ClusterMember
unfolding tag
cluster_member m = record {
  ip_address = m.addr;
  port = tag member_tag_key_agent_port m.tags;
  node_name = tag member_tag_key_node_name m.tags;
  node_role = tag member_tag_key_node_role m.tags;
  edge_key_set = has_key member_tag_key_edge_key_set m.tags;
}

-- `Members`.
pub members : List SerfMember → List ClusterMember
unfolding cluster_member
members [] = []
members (m ∷ ms) = let rest = members ms in if m.is_alive then cluster_member m ∷ rest else rest

-- The loop of the three searches: the first member that passes the test.
pub find_member : (ClusterMember → Bool) → List ClusterMember → Option ClusterMember
find_member test [] = none
find_member test (m ∷ ms) = let rest = find_member test ms in if test m then some m else rest

pub get_member_by_role : DockerNodeRole → List SerfMember → Option ClusterMember
unfolding members find_member
get_member_by_role role ms = find_member (λ m. m.node_role == node_role_value role) (members ms)

pub get_member_by_node_name : Text → List SerfMember → Option ClusterMember
unfolding members find_member
get_member_by_node_name name ms = find_member (λ m. m.node_name == name) (members ms)

pub get_member_with_edge_key_set : List SerfMember → Option ClusterMember
unfolding members find_member
get_member_with_edge_key_set ms = find_member (λ m. m.edge_key_set) (members ms)
