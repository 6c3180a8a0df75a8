-- ===== src/Routing/Delivery.antt =====
-- Where a request is delivered, and that a forwarded request is not forwarded again
-- (http/handler/docker/docker_operation.go, http/proxy/, http/handler/websocket/).
use agent_portainer.Prelude.{
  ◌≡◌, refl, sym, ap, ◌∙◌, ◌≢◌, inl, inr, Bool, true, false, not, ◌||◌, Option, none, some, List,
  [], ◌∷◌, ◌++◌, map, if◌then◌else◌, Text, codes, text_beq, ◌==◌, nat_eq, text_eq, Option-cases,
  All, beq_refl,
}
use mathlib.Core.Path.{subst}
use agent_portainer.Agent.{
  ClusterMember, DockerNodeRole, role_unset, node_role_manager, node_role_worker, member_addr,
}
use agent_portainer.Serf.{SerfMember, tag, cluster_member, node_role_value}
use agent_portainer.Serf.Members.{Among, Found, alive, published, get_member-Found, tag-insert}
use agent_portainer.Routing.{
  Request, Node, Outcome, served_here, forwarded, aggregated, failed, forward_to, is_manager,
  execute_operation_on_manager_node, execute_operation_on_node, execute_operation_on_cluster,
  dispatch_operation, operation_in_cluster, docker_operation, redirect, websocket_in_cluster,
  websocket_attach, websocket_exec, agent_http_request, websocket_request, director, target_header,
  http_target_header_name, http_manager_operation_header_name, is_cluster_operation,
  has_some_prefix, manager_prefixes, no_agent, no_manager_node, joined_query,
}

-- Where a request that is meant for this agent, or else for the members that pass a test, ends: served
-- here in the first case, and in the second forwarded to an alive member that passes the test, or
-- refused because no alive member does.
abbrev pub Delivered : Bool → (ClusterMember → Bool) → List SerfMember → Outcome → Type 0
Delivered true test ms o = o ≡ served_here
Delivered false test ms served_here = ⊥
Delivered false test ms (forwarded m) = Among m (map cluster_member (alive ms)) × (test m ≡ true)
Delivered false test ms (aggregated _) = ⊥
Delivered false test ms (failed _) = All (λ m. test m ≡ false) (map cluster_member (alive ms))

forward_to-Delivered :
    (test : ClusterMember → Bool) (ms : List SerfMember) (message : Text) (o : Option ClusterMember)
    → Found test (map cluster_member (alive ms)) o
    → Delivered false test ms (forward_to message o)
unfolding forward_to Found
forward_to-Delivered test ms message none h = h
forward_to-Delivered test ms message (some m) h = h

here-Delivered :
    (here : Bool) (test : ClusterMember → Bool) (ms : List SerfMember) (message : Text)
    (o : Option ClusterMember)
    → Found test (map cluster_member (alive ms)) o
    → Delivered here test ms (if here then served_here else forward_to message o)
here-Delivered true test ms message o h = refl
here-Delivered false test ms message o h = forward_to-Delivered test ms message o h

-- Whether the target is this agent's node, or there is none.
abbrev pub is_here : Node → Text → Bool
is_here node target = target == node.configuration.node_name || target == []

abbrev pub has_manager_role : DockerNodeRole → Bool
has_manager_role role_unset = false
has_manager_role node_role_manager = true
has_manager_role node_role_worker = false

is_manager_lem : (role : DockerNodeRole) → is_manager role ≡ has_manager_role role
unfolding is_manager
is_manager_lem role_unset = refl
is_manager_lem node_role_manager = refl
is_manager_lem node_role_worker = refl

-- An operation for a node is served here if it names this agent's node or none, and else is forwarded
-- to the agent of the node; an operation for managers is served here exactly on a manager, and else by
-- an alive member with the role. Both fail only where no alive member of the cluster will do.
pub execute_operation-Delivered :
    (node : Node) (ms : List SerfMember) (target : Text)
    → Delivered
        (is_here node target)
        (λ m. m.node_name == target)
        ms
        (execute_operation_on_node node ms target)
      × Delivered
          (has_manager_role node.configuration.docker_configuration.node_role)
          (λ m. m.node_role == codes "manager")
          ms
          (execute_operation_on_manager_node node ms)
unfolding execute_operation_on_node execute_operation_on_manager_node
execute_operation-Delivered node ms target =
    let (by_name, by_role, _) = get_member-Found ms target node_role_manager in
    let role = node.configuration.docker_configuration.node_role in
    let manager : ClusterMember → Bool = λ m. m.node_role == codes "manager" in
    (
      here-Delivered (is_here node target) (λ m. m.node_name == target) ms no_agent _ by_name,
      subst (λ b. Delivered b manager ms (execute_operation_on_manager_node node ms))
          (is_manager_lem role)
          (here-Delivered (is_manager role) manager ms no_manager_node _ by_role),
    )

-- The headers of a forwarded request.
forwarded_target :
    (r : Request) (m : ClusterMember) (use_tls : Bool)
    → target_header (agent_http_request r m use_tls) ≡ m.node_name
unfolding agent_http_request director text_beq
forwarded_target r m use_tls =
    tag-insert http_target_header_name http_target_header_name m.node_name r.headers

forwarded_manager :
    (r : Request) (m : ClusterMember) (use_tls : Bool)
    → tag http_manager_operation_header_name (agent_http_request r m use_tls).headers
      ≡ tag http_manager_operation_header_name r.headers
unfolding agent_http_request director text_beq
forwarded_manager r m use_tls =
    tag-insert http_target_header_name http_manager_operation_header_name m.node_name r.headers

websocket_target :
    (r : Request) (m : ClusterMember) → target_header (websocket_request r m) ≡ m.node_name
unfolding websocket_request text_beq
websocket_target r m = tag-insert http_target_header_name http_target_header_name m.node_name _

-- A node that reads its own name as the target serves the request.
named_here :
    (node : Node) (ms : List SerfMember)
    → execute_operation_on_node node ms node.configuration.node_name ≡ served_here
unfolding execute_operation_on_node
named_here node ms = rw (beq_refl node.configuration.node_name) refl

cluster_here :
    (node : Node) (ms : List SerfMember)
    → execute_operation_on_cluster node ms node.configuration.node_name ≡ served_here
unfolding execute_operation_on_cluster
cluster_here node ms = rw (beq_refl node.configuration.node_name) refl

websocket_here :
    (node : Node) (ms : List SerfMember)
    → websocket_in_cluster node ms node.configuration.node_name ≡ served_here
unfolding websocket_in_cluster
websocket_here node ms = rw (beq_refl node.configuration.node_name) refl

role_here :
    (role : DockerNodeRole)
    → role ≢ role_unset
    → (node_role_value role == codes "manager") ≡ true
    → is_manager role ≡ true
unfolding is_manager text_beq
role_here role_unset set h = absurd (set refl)
role_here node_role_manager set h = refl
role_here node_role_worker set h = h

forwarded_passes :
    (here : Bool) (test : ClusterMember → Bool) (ms : List SerfMember) (m : ClusterMember)
    → Delivered here test ms (forwarded m)
    → test m ≡ true
forwarded_passes true test ms m h = cc
forwarded_passes false test ms m (_, h) = h

-- The member to which a manager operation is forwarded has the role.
manager_member :
    (node : Node) (ms : List SerfMember) (m : ClusterMember)
    → execute_operation_on_manager_node node ms ≡ forwarded m
    → (m.node_role == codes "manager") ≡ true
manager_member node ms m h =
    forwarded_passes (has_manager_role node.configuration.docker_configuration.node_role)
      (λ n. n.node_role == codes "manager") ms m
      (subst
        (Delivered (has_manager_role node.configuration.docker_configuration.node_role)
          (λ n. n.node_role == codes "manager") ms)
        h (execute_operation-Delivered node ms []).1)

manager_here :
    (node : Node) (ms : List SerfMember)
    → is_manager node.configuration.docker_configuration.node_role ≡ true
    → execute_operation_on_manager_node node ms ≡ served_here
unfolding execute_operation_on_manager_node
manager_here node ms h = rw h refl

-- The three kinds of operation, as `dockerOperation` tells them apart.
abbrev pub choose : Bool → Bool → Bool → Outcome → Outcome → Outcome → Outcome
choose manager cluster prefixed x y z =
    if manager then x else if cluster then y else if prefixed then x else z

operation-choose :
    (node : Node) (ms : List SerfMember) (r : Request)
    → operation_in_cluster node ms r
      ≡ choose
          (not (tag http_manager_operation_header_name r.headers == []))
          (is_cluster_operation r)
          (has_some_prefix manager_prefixes r.path)
          (execute_operation_on_manager_node node ms)
          (execute_operation_on_cluster node ms (target_header r))
          (execute_operation_on_node node ms (target_header r))
unfolding operation_in_cluster dispatch_operation
operation-choose node ms r = refl

choose-served :
    (manager cluster prefixed : Bool) (x y z : Outcome) {x' y' z' : Outcome} {m : ClusterMember}
    → (x ≡ forwarded m → x' ≡ served_here)
    → y' ≡ served_here
    → z' ≡ served_here
    → choose manager cluster prefixed x y z ≡ forwarded m
    → choose manager cluster prefixed x' y' z' ≡ served_here
choose-served true cluster prefixed x y z hx hy hz h = hx h
choose-served false true prefixed x y z hx hy hz h = hy
choose-served false false true x y z hx hy hz h = hx h
choose-served false false false x y z hx hy hz h = hz

operation_served :
    (a b : Node) (ms ns : List SerfMember) (r : Request) (m : ClusterMember) (use_tls : Bool)
    → operation_in_cluster a ms r ≡ forwarded m
    → m.node_name ≡ b.configuration.node_name
    → m.node_role ≡ node_role_value b.configuration.docker_configuration.node_role
    → b.configuration.docker_configuration.node_role ≢ role_unset
    → operation_in_cluster b ns (agent_http_request r m use_tls) ≡ served_here
unfolding agent_http_request director
operation_served a b ms ns r m use_tls h name role set =
    let s = agent_http_request r m use_tls in
    let header = forwarded_target r m use_tls ∙ name in
    let managed = λ (e : execute_operation_on_manager_node a ms ≡ forwarded m). manager_here b ns (
      role_here b.configuration.docker_configuration.node_role set
        (subst (λ t. (t == codes "manager") ≡ true) role (manager_member a ms m e))) in
    let cluster_op = ap (execute_operation_on_cluster b ns) header ∙ cluster_here b ns in
    let node_op = ap (execute_operation_on_node b ns) header ∙ named_here b ns in
    let chosen = sym (operation-choose a ms r) ∙ h in
    operation-choose b ns s
    ∙ ap
        (λ t.
          choose (not (t == [])) (is_cluster_operation s) (has_some_prefix manager_prefixes s.path)
            (execute_operation_on_manager_node b ns)
            (execute_operation_on_cluster b ns (target_header s))
            (execute_operation_on_node b ns (target_header s)))
        (forwarded_manager r m use_tls)
    ∙ choose-served _ _ _ _ _ _ managed cluster_op node_op chosen

served :
    (b : Node) (f : List SerfMember → Outcome)
    → ((ns : List SerfMember) → f ns ≡ served_here)
    → (elim b.cluster [ none ↦ served_here | some ns ↦ f ns ]) ≡ served_here
served b f h = elim (Option-cases b.cluster) [ inl e ↦ rw e refl | inr (ns, e) ↦ rw e (h ns) ]

-- A forwarded request is served by the agent that it is forwarded to, and so is forwarded once only,
-- if that agent publishes the member in the cluster and knows its own role: a Docker operation, a
-- request that the agent proxy redirects, and an attach or exec over a websocket.
pub forwarded-served_here :
    (a b : Node) (ms : List SerfMember) (r : Request) (addr : Text) (use_tls : Bool)
    → b.configuration.docker_configuration.node_role ≢ role_unset
    → let m = published addr b.configuration in
      (operation_in_cluster a ms r ≡ forwarded m
        → docker_operation b (agent_http_request r m use_tls) ≡ served_here)
      × (redirect b (agent_http_request r m use_tls) ≡ served_here)
      × (websocket_attach b (websocket_request r m) ≡ served_here)
      × (websocket_exec b (websocket_request r m) ≡ served_here)
unfolding docker_operation redirect websocket_attach websocket_exec
forwarded-served_here a b ms r addr use_tls set =
    let m = published addr b.configuration in
    let header = forwarded_target r m use_tls in
    let socket = websocket_target r m in
    (
      λ h. served b _ (λ ns. operation_served a b ms ns r m use_tls h refl refl set),
      served b _ (λ ns. ap (execute_operation_on_node b ns) header ∙ named_here b ns),
      served b _ (λ ns. ap (websocket_in_cluster b ns) socket ∙ websocket_here b ns),
      served b _ (λ ns. ap (websocket_in_cluster b ns) socket ∙ websocket_here b ns),
    )

-- A request that is forwarded to another agent keeps its method, its path and all its headers but the
-- target, which is set to the member's node; its query, if it has one, is sent twice.
pub agent_http_request-fields :
    (r : Request) (m : ClusterMember) (use_tls : Bool) (name : Text)
    → let s = agent_http_request r m use_tls in
      (s.method ≡ r.method)
      × (s.path ≡ r.path)
      × (s.host ≡ member_addr m)
      × (tag name s.headers
          ≡ (if http_target_header_name == name then m.node_name else tag name r.headers))
      × (s.query ≡ (if r.query == [] then [] else r.query ++ (codes "&" ++ r.query)))
unfolding agent_http_request director text_beq
agent_http_request-fields r m use_tls name = (
  refl,
  refl,
  refl,
  tag-insert http_target_header_name name m.node_name r.headers,
  doubled r.query,
)
  where
    doubled : (q : Text) → joined_query q q ≡ (if q == [] then [] else q ++ (codes "&" ++ q))
    doubled [] = refl
    doubled (c ∷ q) = refl
