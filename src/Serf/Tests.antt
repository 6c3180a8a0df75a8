-- ===== src/Serf/Tests.antt =====
-- The cluster service at concrete inputs (serf/cluster.go).
use agent_portainer.Prelude.{
  ◌≡◌, refl, true, false, none, some, List, [], ◌∷◌, codes, text_beq, nat_eq, text_eq, lookup,
  insert, has_key,
}
use agent_portainer.Serf.{
  SerfMember, members, cluster_member, find_member, get_member_by_role,
  get_member_with_edge_key_set, tag_map, tags_of, tag,
}
use agent_portainer.Serf.Members.{cluster_member-tag_map, published}
use agent_portainer.Agent.{
  RuntimeConfiguration, engine_status_swarm, node_role_worker, node_role_manager,
}

abbrev configuration : RuntimeConfiguration
configuration = record {
  agent_port = codes "9001";
  edge_key_set = true;
  node_name = codes "n2";
  docker_configuration = record {
    engine_status = engine_status_swarm;
    leader = false;
    node_role = node_role_worker;
  };
}

-- A manager that has failed, and two workers, the second with an Edge key.
abbrev cluster : List SerfMember
cluster =
    record {
      is_alive = false;
      addr = codes "10.0.0.1";
      tags = (codes "NodeName", codes "n0") ∷ (codes "DockerNodeRole", codes "manager") ∷ [];
    }
    ∷ record {
      is_alive = true;
      addr = codes "10.0.0.2";
      tags = (codes "NodeName", codes "n1") ∷ (codes "DockerNodeRole", codes "worker") ∷ [];
    }
    ∷ record { is_alive = true; addr = codes "10.0.0.3"; tags = tag_map configuration }
    ∷ []

cluster_member-tag_map_example :
    cluster_member
      (record { is_alive = true; addr = codes "10.0.0.3"; tags = tag_map configuration })
    ≡ published (codes "10.0.0.3") configuration
cluster_member-tag_map_example = cluster_member-tag_map (codes "10.0.0.3") configuration

-- The manager that has failed is not found.
failed_test : get_member_by_role node_role_manager cluster ≡ none
unfolding get_member_by_role find_member members cluster_member tag_map tags_of tag insert lookup
    has_key text_beq
failed_test = refl

key_set_test :
    get_member_with_edge_key_set cluster ≡ some (published (codes "10.0.0.3") configuration)
unfolding get_member_with_edge_key_set find_member members cluster_member tag_map tags_of tag insert
    lookup has_key text_beq
key_set_test = refl
