-- ===== src/Serf/Members.antt =====
-- What the members of a cluster read from one another's tags, and which one a search finds
-- (serf/cluster.go).
use agent_portainer.Prelude.{
  ◌≡◌, refl, ◌⊎◌, inl, inr, Bool, true, false, Option, none, some, List, [], ◌∷◌, map, arith,
  if◌then◌else◌, Text, text_beq, ◌==◌, nat_eq, text_eq, Bool-cases, All, lookup, insert, has_key,
  lookup-insert,
}
use agent_portainer.Agent.{RuntimeConfiguration, ClusterMember, DockerNodeRole}
use agent_portainer.Serf.{
  cluster_member, node_role_value, tag_map, tags_of, find_member, SerfMember, members,
  get_member_by_node_name, get_member_by_role, get_member_with_edge_key_set, tag,
}

-- The member that another agent reads, of an agent at `addr` that publishes the configuration `c`.
abbrev pub published : Text → RuntimeConfiguration → ClusterMember
published addr c = record {
  ip_address = addr;
  port = c.agent_port;
  node_name = c.node_name;
  node_role = node_role_value c.docker_configuration.node_role;
  edge_key_set = c.edge_key_set;
}

published_flags :
    (key_set leader : Bool) (addr : Text) (c : RuntimeConfiguration)
    → cluster_member (record { is_alive = true; addr = addr; tags = tags_of key_set leader c })
      ≡ record {
        ip_address = addr;
        port = c.agent_port;
        node_name = c.node_name;
        node_role = node_role_value c.docker_configuration.node_role;
        edge_key_set = key_set;
      }
unfolding cluster_member tags_of lookup insert has_key text_beq
published_flags true true addr c = refl
published_flags true false addr c = refl
published_flags false true addr c = refl
published_flags false false addr c = refl

-- What an agent publishes of itself is what the others read: its port, its name, its role (a role
-- that is not set reads as a manager) and whether it has an Edge key.
pub cluster_member-tag_map :
    (addr : Text) (c : RuntimeConfiguration)
    → cluster_member (record { is_alive = true; addr = addr; tags = tag_map c }) ≡ published addr c
unfolding tag_map
cluster_member-tag_map addr c = published_flags c.edge_key_set c.docker_configuration.leader addr c

-- Membership with the place kept.
abbrev pub Among : ClusterMember → List ClusterMember → Type 0
Among m [] = ⊥
Among m (n ∷ ns) = (m ≡ n) ⊎ Among m ns

-- A search finds a member that passes its test, or none passes it.
unfoldable pub Found : (ClusterMember → Bool) → List ClusterMember → Option ClusterMember → Type 0
Found test ms none = All (λ m. test m ≡ false) ms
Found test ms (some m) = Among m ms × (test m ≡ true)

find_member-Found :
    (test : ClusterMember → Bool) (ms : List ClusterMember) → Found test ms (find_member test ms)
unfolding find_member Found
find_member-Found test [] = tt
find_member-Found test (m ∷ ms) = elim (Bool-cases (test m)) [
  | inl h ↦ rw h ((inl refl), h)
  | inr h ↦ rw h (later (find_member test ms) (find_member-Found test ms) h)
]
  where
    later : (o : Option ClusterMember) → Found test ms o → test m ≡ false → Found test (m ∷ ms) o
    later none f h = (h, f)
    later (some n) f h = (inr f.0, f.1)

-- The alive members of a list.
abbrev pub alive : List SerfMember → List SerfMember
alive [] = []
alive (m ∷ ms) = if m.is_alive then m ∷ alive ms else alive ms

members-alive : (ms : List SerfMember) → members ms ≡ map cluster_member (alive ms)
unfolding members
members-alive [] = refl
members-alive (m ∷ ms) = ground (arith, members-alive ms)

-- A search of the cluster for a node, for a role or for a member with an Edge key returns an alive
-- member with that name, with the role's tag, or with a key; it returns nil exactly where no alive
-- member is such.
pub get_member-Found :
    (ms : List SerfMember) (name : Text) (role : DockerNodeRole)
    → let among = map cluster_member (alive ms) in
      Found (λ m. m.node_name == name) among (get_member_by_node_name name ms)
      × Found (λ m. m.node_role == node_role_value role) among (get_member_by_role role ms)
      × Found (λ m. m.edge_key_set) among (get_member_with_edge_key_set ms)
unfolding get_member_by_node_name get_member_by_role get_member_with_edge_key_set
get_member-Found ms name role = rw (← members-alive ms) (
  find_member-Found _ (members ms),
  find_member-Found _ (members ms),
  find_member-Found _ (members ms),
)

tag_of :
    (j k v : Text) (m : List (Text × Text)) (b : Bool)
    → lookup j (insert k v m) ≡ (if b then some v else lookup j m)
    → tag j (insert k v m) ≡ (if b then v else tag j m)
unfolding tag
tag_of j k v m true h = rw (h, tag) refl
tag_of j k v m false h = rw (h, tag) refl

-- What is read after a tag or a header is set.
pub tag-insert :
    (k j v : Text) (m : List (Text × Text)) → tag j (insert k v m) ≡ (if k == j then v else tag j m)
tag-insert k j v m = tag_of j k v m (k == j) (lookup-insert k j v m)
