-- ===== src/Routing/Aggregation/Race/Copies.antt =====
-- The copies of a request for the members of a cluster (http/proxy/cluster.go).
use agent_portainer.Prelude.{nat_eq, text_eq}
