-- ===== src/Api/Routes.antt =====
-- The routers of the handlers (the file handler.go of each folder under http/handler/): which endpoint
-- serves a request, behind which guards.
mod Guarded
mod Tests
use agent_portainer.Prelude.{
  ℕ, zero, suc, ◌+◌, ◌-◌, ◌*◌, ◌/◌, ◌%◌, ◌≤◌, ◌<◌, ◌≡◌, refl, sym, ap, ◌∙◌, ◌≢◌, ◌↔◌, ◌⊎◌, inl, inr,
  Bool, true, false, not, ◌&&◌, ◌||◌, Option, none, some, List, [], ◌∷◌, ◌++◌, map, arith, ltb, leb,
  if◌then◌else◌, nat_beq, nat_beq_iff, Text, codes, text_beq, text_beq_iff, Equality, ◌==◌, nat_eq,
  text_eq, Bool-cases, by_test, Option-cases, length, length-append, All, All-append, lookup,
  insert, erase, has_key, lookup-insert, lookup-erase, has_key-insert, has_key-erase,
  has_key-lookup, beq_refl, itoa, itoa-All, has_prefix, strip_prefix, contains, split_by, split,
  drop_empty, fields_by, join, Lacks, split-join, join-split, split_by-skip, split_by-cut,
  split_by-nil, split_by-whole, split_by-append, by_test, Result, ok, err, Method, >>-keeps,
  >>-eq-ok, ◌>>=◌, ◌>>◌, return, lift, get, modify, Result-cases,
}
use agent_portainer.Api.{
  Handler, agent_handler, browse_handler, browse_handler_v1, docker_proxy_handler,
  dockerhub_handler, key_handler, kubernetes_handler, kubernetes_proxy_handler, websocket_handler,
  host_handler, ping_handler, serve_http,
}

pub data Endpoint : Type 0 where
  agent_list browse_ls browse_get browse_delete browse_rename browse_put : Endpoint
  browse_ls_v1 browse_get_v1 browse_delete_v1 browse_rename_v1 browse_put_v1 : Endpoint
  docker_operation dockerhub_status host_info key_inspect key_create : Endpoint
  kubernetes_deploy kubernetes_operation ping : Endpoint
  websocket_attach websocket_exec websocket_pod : Endpoint

-- What stands in front of an endpoint: the verification of the signature and the redirection to the
-- agent of another node.
pub data Middleware : Type 0 where
  verification redirection : Middleware

-- An entry of a router; an entry for every path below one has `is_prefix`, and one for every method
-- has no method.
pub record Route : Type 0 where
  pub is_prefix : Bool
  pub pattern : Text
  pub method : Text
  pub chain : List Middleware
  pub endpoint : Endpoint

abbrev pub verified : Text → Text → Endpoint → Route
verified pattern method e = record {
  is_prefix = false;
  pattern = pattern;
  method = method;
  chain = verification ∷ [];
  endpoint = e;
}

abbrev pub chained : List Middleware → Route → Route
chained ms r = record r { chain = ms }

abbrev pub browse_route : Text → Text → Endpoint → Route
browse_route pattern method e =
    chained (verification ∷ redirection ∷ []) (verified pattern method e)

-- The entries that the constructor of each handler adds to its router, in their order.
abbrev pub agent_routes : List Route
agent_routes = verified (codes "/agents") (codes "GET") agent_list ∷ []

abbrev pub browse_routes : List Route
browse_routes =
    browse_route (codes "/browse/ls") (codes "GET") browse_ls
    ∷ browse_route (codes "/browse/get") (codes "GET") browse_get
    ∷ browse_route (codes "/browse/delete") (codes "DELETE") browse_delete
    ∷ browse_route (codes "/browse/rename") (codes "PUT") browse_rename
    ∷ browse_route (codes "/browse/put") (codes "POST") browse_put
    ∷ []

abbrev pub browse_v1_routes : List Route
browse_v1_routes =
    browse_route (codes "/browse/{id}/ls") (codes "GET") browse_ls_v1
    ∷ browse_route (codes "/browse/{id}/get") (codes "GET") browse_get_v1
    ∷ browse_route (codes "/browse/{id}/delete") (codes "DELETE") browse_delete_v1
    ∷ browse_route (codes "/browse/{id}/rename") (codes "PUT") browse_rename_v1
    ∷ browse_route (codes "/browse/{id}/put") (codes "POST") browse_put_v1
    ∷ []

abbrev pub docker_proxy_routes : List Route
docker_proxy_routes = record (verified (codes "/") [] docker_operation) { is_prefix = true } ∷ []

abbrev pub dockerhub_routes : List Route
dockerhub_routes = verified (codes "/dockerhub") (codes "POST") dockerhub_status ∷ []

abbrev pub key_routes : List Route
key_routes =
    chained [] (verified (codes "/key") (codes "GET") key_inspect)
    ∷ chained [] (verified (codes "/key") (codes "POST") key_create)
    ∷ []

abbrev pub kubernetes_routes : List Route
kubernetes_routes = verified (codes "/kubernetes/stack") (codes "POST") kubernetes_deploy ∷ []

abbrev pub kubernetes_proxy_routes : List Route
kubernetes_proxy_routes =
    record (verified (codes "/") [] kubernetes_operation) { is_prefix = true } ∷ []

abbrev pub websocket_routes : List Route
websocket_routes =
    verified (codes "/websocket/attach") [] websocket_attach
    ∷ verified (codes "/websocket/exec") [] websocket_exec
    ∷ verified (codes "/websocket/pod") [] websocket_pod
    ∷ []

abbrev pub host_routes : List Route
host_routes =
    chained (redirection ∷ verification ∷ [])
      (verified (codes "/host/info") (codes "GET") host_info)
    ∷ []

abbrev pub ping_routes : List Route
ping_routes = chained [] (verified (codes "/ping") (codes "GET") ping) ∷ []

pub routes : Handler → List Route
routes agent_handler = agent_routes
routes browse_handler = browse_routes
routes browse_handler_v1 = browse_v1_routes
routes docker_proxy_handler = docker_proxy_routes
routes dockerhub_handler = dockerhub_routes
routes key_handler = key_routes
routes kubernetes_handler = kubernetes_routes
routes kubernetes_proxy_handler = kubernetes_proxy_routes
routes websocket_handler = websocket_routes
routes host_handler = host_routes
routes ping_handler = ping_routes

pub data Answer : Type 0 where
  served refused redirected : Endpoint → Answer
  not_found : Answer

-- The middleware in front of an endpoint, for a request whose signature is accepted or not, and that
-- this agent serves itself or not.
pub run_chain : Bool → Bool → List Middleware → Endpoint → Answer
run_chain accepted here [] e = served e
run_chain accepted here (verification ∷ ms) e =
    if accepted then run_chain accepted here ms e else refused e
run_chain accepted here (redirection ∷ ms) e =
    if here then run_chain accepted here ms e else redirected e

-- The router of the package mux takes the first entry that matches; `matches` tells which do.
pub first_route : (Route → Bool) → Bool → Bool → List Route → Answer
unfolding run_chain
first_route matches accepted here [] = not_found
first_route matches accepted here (r ∷ rs) =
    let later = first_route matches accepted here rs in
    if matches r then run_chain accepted here r.chain r.endpoint else later

-- A request with the router's `matches` for its method and the path that the handler gets.
pub answer : (Text → Route → Bool) → Bool → Bool → Text → Answer
unfolding serve_http first_route routes
answer matches accepted here path = elim (serve_http path) [
  | none ↦ not_found
  | some (h, rest) ↦ first_route (matches rest) accepted here (routes h)
]
