-- ===== src/Routing.antt =====
-- Which node of a cluster serves a request: the Docker operations
-- (http/handler/docker/docker_operation.go), the redirection of the other handlers
-- (http/proxy/agentproxy.go), the websocket handlers (http/handler/websocket/), and the request that
-- is forwarded (http/proxy/proxy.go).
mod Delivery
mod Tests
pub mod Aggregation
use agent_portainer.Prelude.{
  ℕ, zero, suc, ◌+◌, ◌-◌, ◌*◌, ◌/◌, ◌%◌, ◌≤◌, ◌<◌, ◌≡◌, refl, sym, ap, ◌∙◌, ◌≢◌, ◌↔◌, ◌⊎◌, inl, inr,
  Bool, true, false, not, ◌&&◌, ◌||◌, Option, none, some, List, [], ◌∷◌, ◌++◌, map, arith, ltb, leb,
  if◌then◌else◌, nat_beq, nat_beq_iff, Text, codes, text_beq, text_beq_iff, Equality, ◌==◌, nat_eq,
  text_eq, Bool-cases, by_test, Option-cases, length, length-append, All, All-append, lookup,
  insert, erase, has_key, lookup-insert, lookup-erase, has_key-insert, has_key-erase,
  has_key-lookup, beq_refl, itoa, itoa-All, has_prefix, strip_prefix, contains, split_by, split,
  drop_empty, fields_by, join, Lacks, split-join, join-split, split_by-skip, split_by-cut,
  split_by-nil, split_by-whole, split_by-append, by_test, Result, ok, err, Method, >>-keeps,
  >>-eq-ok, ◌>>=◌, ◌>>◌, return, lift, get, modify, Result-cases, take, drop, itoa-cons, IsDigit,
  is_digit, ℤ, pos, negsuc, atoi, atoi-itoa, itoa-IsDigit, int_bound, IntSize, bits_32, bits_64,
  range_error, syntax_error, and_then, IfOk, and_then-IfOk,
}
use agent_portainer.Agent.{
  ClusterMember, RuntimeConfiguration, DockerNodeRole, role_unset, node_role_manager,
  node_role_worker, member_addr,
}
use agent_portainer.Serf.{SerfMember, tag, get_member_by_role, get_member_by_node_name}

abbrev pub http_target_header_name : Text
http_target_header_name = codes "X-PortainerAgent-Target"

abbrev pub http_manager_operation_header_name : Text
http_manager_operation_header_name = codes "X-PortainerAgent-ManagerOperation"

-- A request: `is_tls` tells whether it came over TLS. The headers hold the first value of a name, and
-- `body` is what is left to read of the body.
pub record Request : Type 0 where
  pub method : Text
  pub scheme : Text
  pub host : Text
  pub path : Text
  pub query : Text
  pub headers : List (Text × Text)
  pub body : Text
  pub is_tls : Bool

-- The agent of a node: its cluster, if it has a cluster service, as serf lists the members.
pub record Node : Type 0 where
  pub cluster : Option (List SerfMember)
  pub configuration : RuntimeConfiguration
  pub use_tls : Bool

pub data Outcome : Type 0 where
  served_here : Outcome
  forwarded : (target : ClusterMember) → Outcome
  aggregated : (members : List SerfMember) → Outcome
  failed : (message : Text) → Outcome

abbrev pub no_manager_node : Text
no_manager_node = codes "The agent was unable to contact any other agent located on a manager node"

abbrev pub no_agent : Text
no_agent = codes "The agent was unable to contact any other agent"

pub forward_to : Text → Option ClusterMember → Outcome
forward_to message none = failed message
forward_to message (some m) = forwarded m

pub is_manager : DockerNodeRole → Bool
is_manager node_role_manager = true
is_manager _ = false

abbrev pub target_header : Request → Text
target_header r = tag http_target_header_name r.headers

pub execute_operation_on_manager_node : Node → List SerfMember → Outcome
unfolding is_manager forward_to
execute_operation_on_manager_node node ms =
    if is_manager node.configuration.docker_configuration.node_role
    then served_here
    else forward_to no_manager_node (get_member_by_role node_role_manager ms)

pub execute_operation_on_node : Node → List SerfMember → Text → Outcome
unfolding forward_to
execute_operation_on_node node ms target =
    if target == node.configuration.node_name || target == []
    then served_here
    else forward_to no_agent (get_member_by_node_name target ms)

pub execute_operation_on_cluster : Node → List SerfMember → Text → Outcome
execute_operation_on_cluster node ms target =
    if target == node.configuration.node_name then served_here else aggregated ms

-- The cases of `dispatchOperation`, in order.
abbrev pub is_cluster_operation : Request → Bool
is_cluster_operation r =
    r.path == codes "/containers/json"
    || r.path == codes "/images/json"
    || (r.path == codes "/volumes" && r.method == codes "GET")
    || (r.path == codes "/networks" && r.method == codes "GET")

abbrev pub has_some_prefix : List Text → Text → Bool
has_some_prefix [] path = false
has_some_prefix (p ∷ ps) path = has_prefix p path || has_some_prefix ps path

abbrev pub manager_prefixes : List Text
manager_prefixes =
    codes "/services"
    ∷ codes "/tasks"
    ∷ codes "/secrets"
    ∷ codes "/configs"
    ∷ codes "/swarm"
    ∷ codes "/info"
    ∷ codes "/nodes"
    ∷ []

pub dispatch_operation : Node → List SerfMember → Request → Outcome
unfolding execute_operation_on_cluster execute_operation_on_manager_node execute_operation_on_node
dispatch_operation node ms r =
    if is_cluster_operation r
    then execute_operation_on_cluster node ms (target_header r)
    else if has_some_prefix manager_prefixes r.path
    then execute_operation_on_manager_node node ms
    else execute_operation_on_node node ms (target_header r)

-- `dockerOperation` once there is a cluster service.
pub operation_in_cluster : Node → List SerfMember → Request → Outcome
unfolding dispatch_operation
operation_in_cluster node ms r =
    if not (tag http_manager_operation_header_name r.headers == [])
    then execute_operation_on_manager_node node ms
    else dispatch_operation node ms r

pub docker_operation : Node → Request → Outcome
unfolding operation_in_cluster
docker_operation node r = elim node.cluster [
  | none ↦ served_here
  | some ms ↦ operation_in_cluster node ms r
]

-- `Redirect` of the agent proxy; here the next handler serves the request.
pub redirect : Node → Request → Outcome
unfolding execute_operation_on_node
redirect node r = elim node.cluster [
  | none ↦ served_here
  | some ms ↦ execute_operation_on_node node ms (target_header r)
]

-- `websocketAttach` and `websocketExec`, which do not take a missing header for this node.
pub websocket_in_cluster : Node → List SerfMember → Text → Outcome
unfolding forward_to
websocket_in_cluster node ms target =
    if target == node.configuration.node_name
    then served_here
    else forward_to no_agent (get_member_by_node_name target ms)

pub websocket_attach : Node → Request → Outcome
unfolding websocket_in_cluster
websocket_attach node r = elim node.cluster [
  | none ↦ served_here
  | some ms ↦ websocket_in_cluster node ms (target_header r)
]

pub websocket_exec : Node → Request → Outcome
unfolding websocket_in_cluster
websocket_exec node r = elim node.cluster [
  | none ↦ served_here
  | some ms ↦ websocket_in_cluster node ms (target_header r)
]

abbrev pub set_header : Text → Text → Request → Request
set_header name value r = record r { headers = insert name value r.headers }

-- The director of `newAgentReverseProxy`, on the copy of the request that is sent.
abbrev pub joined_query : Text → Text → Text
joined_query target_query query =
    if target_query == [] || query == []
    then target_query ++ query
    else target_query ++ (codes "&" ++ query)

pub director : Request → Text → Request → Request
director target target_node r = set_header http_target_header_name target_node (record r {
  scheme = target.scheme;
  host = target.host;
  path = target.path;
  query = joined_query target.query r.query;
})

-- `AgentHTTPRequest`: the target is the URL of the request itself, with the scheme and host changed.
pub agent_http_request : Request → ClusterMember → Bool → Request
unfolding director
agent_http_request r m use_tls =
    let target = record r {
      scheme = if use_tls then codes "https" else codes "http";
      host = member_addr m;
    } in
    director target m.node_name target

-- `WebsocketRequest`: the headers that the dialer sends besides those of a websocket.
abbrev pub http_signature_header_name : Text
http_signature_header_name = codes "X-PortainerAgent-Signature"

abbrev pub http_public_key_header_name : Text
http_public_key_header_name = codes "X-PortainerAgent-PublicKey"

pub websocket_request : Request → ClusterMember → Request
websocket_request r m = record r {
  scheme = if r.is_tls then codes "wss" else codes "ws";
  host = member_addr m;
  headers = insert http_target_header_name m.node_name (
      insert http_public_key_header_name (tag http_public_key_header_name r.headers)
        (insert http_signature_header_name (tag http_signature_header_name r.headers) []));
}
