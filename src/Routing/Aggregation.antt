-- ===== src/Routing/Aggregation.antt =====
-- Operations on the whole cluster: the request to each member, and what their answers are put together
-- to (http/proxy/cluster.go, http/proxy/response.go).
pub mod Answers
pub mod Race
use agent_portainer.Prelude.{
  ℕ, zero, suc, ◌+◌, ◌-◌, ◌*◌, ◌/◌, ◌%◌, ◌≤◌, ◌<◌, ◌≡◌, refl, sym, ap, ◌∙◌, ◌≢◌, ◌↔◌, ◌⊎◌, inl, inr,
  Bool, true, false, not, ◌&&◌, ◌||◌, Option, none, some, List, [], ◌∷◌, ◌++◌, map, arith, ltb, leb,
  if◌then◌else◌, nat_beq, nat_beq_iff, Text, codes, text_beq, text_beq_iff, Equality, ◌==◌, nat_eq,
  text_eq, Bool-cases, by_test, Option-cases, length, length-append, All, All-append, lookup,
  insert, erase, has_key, lookup-insert, lookup-erase, has_key-insert, has_key-erase,
  has_key-lookup, beq_refl, itoa, itoa-All, has_prefix, strip_prefix, contains, split_by, split,
  drop_empty, fields_by, join, Lacks, split-join, join-split, split_by-skip, split_by-cut,
  split_by-nil, split_by-whole, split_by-append, by_test, Result, ok, err, Method, >>-keeps,
  >>-eq-ok, ◌>>=◌, ◌>>◌, return, lift, get, modify, Result-cases, take, drop, itoa-cons, IsDigit,
  is_digit, ℤ, pos, negsuc, atoi, atoi-itoa, itoa-IsDigit, int_bound, IntSize, bits_32, bits_64,
  range_error, syntax_error, and_then, IfOk, and_then-IfOk,
}
use agent_portainer.Agent.{ClusterMember, member_addr}
use agent_portainer.Routing.{Request, set_header, http_target_header_name}

-- A JSON document as far as the code looks into it: the elements of an array, which it takes for
-- objects, and the fields of an object. Other values are their text.
pub data Item : Type 0 where
  object_item : (fields : List (Text × Text)) → Item
  other_item : Text → Item

pub data Value : Type 0 where
  null_value : Value
  string_value : Text → Value
  array_value : List Item → Value
  other_value : Text → Value

pub data Json : Type 0 where
  object : (fields : List (Text × Value)) → Json
  array : List Item → Json
  other : Text → Json

-- What a computation comes to; a type assertion that does not hold panics.
pub data Run {ℓ} (A : Type ℓ) : Type ℓ where
  done : A → Run A
  failed : Text → Run A
  panicked : Run A

-- `obj[k]`, which is nil for a key that is missing.
pub field : Text → List (Text × Value) → Value
field k m = elim (lookup k m) [ none ↦ null_value | some v ↦ v ]

-- The test for an error of the Docker API, on the field "message".
pub data Message : Type 0 where
  no_message message_panics : Message
  message_is : Text → Message

pub message_value : Value → Message
message_value null_value = no_message
message_value (string_value s) = message_is s
message_value (array_value _) = message_panics
message_value (other_value _) = message_panics

pub error_message : Json → Message
unfolding field message_value
error_message (object fields) = message_value (field (codes "message") fields)
error_message (array _) = no_message
error_message (other _) = no_message

pub volumes_value : Value → Run (List Item)
volumes_value null_value = done []
volumes_value (array_value items) = done items
volumes_value (string_value _) = panicked
volumes_value (other_value _) = panicked

pub volume_items : Json → Run (List Item)
unfolding field volumes_value
volume_items (object fields) = volumes_value (field (codes "Volumes") fields)
volume_items (array _) = panicked
volume_items (other _) = panicked

abbrev pub invalid_response : Text
invalid_response = codes "invalid response from Docker daemon"

pub array_items : Json → Run (List Item)
array_items (array items) = done items
array_items (object _) = failed invalid_response
array_items (other _) = failed invalid_response

-- `responseToJSONArray`, on the decoded body.
pub response_to_json_array : Json → Text → Run (List Item)
unfolding error_message volume_items array_items
response_to_json_array body path = elim (error_message body) [
  | message_is x ↦ failed x
  | message_panics ↦ panicked
  | no_message ↦ if has_prefix (codes "/volumes") path then volume_items body else array_items body
]

-- The request that is sent to one member, with the body that was read for it.
abbrev pub copy_with : Text → Request → ClusterMember → Bool → Request
copy_with body r m use_tls = set_header http_target_header_name m.node_name (record r {
  scheme = if use_tls then codes "https" else codes "http";
  host = member_addr m;
  body = body;
})

-- `copyRequest` with `cloneHeader`, for what `ReadAll` of the body returns, if no other goroutine sets
-- the URL meanwhile; the race is that of Routing.Aggregation.Race. Making a request from the parts of
-- one that has arrived does not fail here.
pub copy_request : Result Text → Request → ClusterMember → Bool → Result Request
copy_request (err x) r m use_tls = err x
copy_request (ok body) r m use_tls = ok (copy_with body r m use_tls)

-- What pinging an agent returns, what the goroutine of a member reads of the body, which all of them
-- share, and the decoded body of an agent's answer to a request.
pub record Env : Type 0 where
  pub ping_agent : Bool → ClusterMember → Option Text
  pub read_body : ClusterMember → Result Text
  pub do_request : Request → Result Json

pub answer : Text → Result Json → Run (List Item)
unfolding response_to_json_array
answer path (err x) = failed x
answer path (ok body) = response_to_json_array body path

pub execute_copy : Env → Text → Result Request → Run (List Item)
unfolding answer
execute_copy env path (err x) = failed x
execute_copy env path (ok copy) = answer path (env.do_request copy)

-- `copyAndExecuteRequest`: what it puts on the channel.
pub copy_and_execute_request : Env → Request → Bool → ClusterMember → Run (List Item)
unfolding copy_request execute_copy
copy_and_execute_request env r use_tls m = elim (env.ping_agent r.is_tls m) [
  | some x ↦ failed x
  | none ↦ execute_copy env r.path (copy_request (env.read_body m) r m use_tls)
]

abbrev pub response_metadata_key : Text
response_metadata_key = codes "Portainer"

-- `decorateObject`; the metadata is the name of the node.
pub decorate_object : Item → Text → Run Item
decorate_object (object_item fields) node =
    done (object_item (insert response_metadata_key node fields))
decorate_object (other_item _) node = panicked

pub cons_run : Run Item → Run (List Item) → Run (List Item)
cons_run (done i) (done is) = done (i ∷ is)
cons_run (done i) r = r
cons_run (failed x) r = failed x
cons_run panicked r = panicked

pub decorate_all : List Item → Text → Run (List Item) → Run (List Item)
unfolding decorate_object cons_run
decorate_all [] node rest = rest
decorate_all (i ∷ is) node rest = cons_run (decorate_object i node) (decorate_all is node rest)

-- One result of the channel: an error is logged and skipped.
pub add_result : Run (List Item) → Text → Run (List Item) → Run (List Item)
unfolding decorate_all
add_result (failed x) node rest = rest
add_result panicked node rest = panicked
add_result (done items) node rest = decorate_all items node rest

-- The aggregation of `ClusterOperation` over the members in the order in which their results arrive,
-- which may be any.
pub aggregate : Env → Request → Bool → List ClusterMember → Run (List Item)
unfolding copy_and_execute_request add_result
aggregate env r use_tls [] = done []
aggregate env r use_tls (m ∷ ms) =
    add_result (copy_and_execute_request env r use_tls m) m.node_name (aggregate env r use_tls ms)

-- `reproduceDockerAPIResponse`.
pub reproduce_docker_api_response : List Item → Text → Json
reproduce_docker_api_response items path =
    if has_prefix (codes "/volumes") path
    then object ((codes "Volumes", array_value items) ∷ [])
    else array items

pub reproduced : Run (List Item) → Text → Run Json
unfolding reproduce_docker_api_response
reproduced (done items) path = done (reproduce_docker_api_response items path)
reproduced (failed x) path = failed x
reproduced panicked path = panicked

pub cluster_operation : Env → Request → Bool → List ClusterMember → Run Json
unfolding aggregate reproduced
cluster_operation env r use_tls ms = reproduced (aggregate env r use_tls ms) r.path
