-- ===== src/Edge/Key.antt =====
-- The Edge key (edge/key.go): its format, where the agent finds one, and how it is set and passed on
-- to the cluster.
mod Format
pub mod Sources
mod Tests
use agent_portainer.Prelude.{
  ℕ, zero, suc, ◌+◌, ◌-◌, ◌*◌, ◌/◌, ◌%◌, ◌≤◌, ◌<◌, ◌≡◌, refl, sym, ap, ◌∙◌, ◌≢◌, ◌↔◌, ◌⊎◌, inl, inr,
  Bool, true, false, not, ◌&&◌, ◌||◌, Option, none, some, List, [], ◌∷◌, ◌++◌, map, arith, ltb, leb,
  if◌then◌else◌, nat_beq, nat_beq_iff, Text, codes, text_beq, text_beq_iff, Equality, ◌==◌, nat_eq,
  text_eq, Bool-cases, by_test, Option-cases, length, length-append, All, All-append, lookup,
  insert, erase, has_key, lookup-insert, lookup-erase, has_key-insert, has_key-erase,
  has_key-lookup, beq_refl, itoa, itoa-All, has_prefix, strip_prefix, contains, split_by, split,
  drop_empty, fields_by, join, Lacks, split-join, join-split, split_by-skip, split_by-cut,
  split_by-nil, split_by-whole, split_by-append, by_test, Result, ok, err, Method, >>-keeps,
  >>-eq-ok, ◌>>=◌, ◌>>◌, return, lift, get, modify, Result-cases, take, drop, itoa-cons, IsDigit,
  is_digit, ℤ, pos, negsuc, atoi, atoi-itoa, itoa-IsDigit, int_bound, range_error, syntax_error,
  and_then, IfOk, and_then-IfOk,
}
use agent_portainer.Agent.{ClusterMember, RuntimeConfiguration, member_addr}
use agent_portainer.Serf.{SerfMember, tag_map, get_member_with_edge_key_set}
use agent_portainer.Base64.{encode_to_string, decode_string}

pub record EdgeKey : Type 0 where
  pub portainer_instance_url : Text
  pub tunnel_server_addr : Text
  pub tunnel_server_fingerprint : Text
  pub endpoint_id : Text

abbrev pub invalid_key_format : Text
invalid_key_format = codes "invalid key format"

-- The four parts of a decoded key.
unfoldable pub key_of_parts : List Text → Result EdgeKey
key_of_parts (url ∷ addr ∷ fingerprint ∷ endpoint ∷ []) = ok (record {
  portainer_instance_url = url;
  tunnel_server_addr = addr;
  tunnel_server_fingerprint = fingerprint;
  endpoint_id = endpoint;
})
key_of_parts _ = err invalid_key_format

-- `parseEdgeKey`.
unfoldable pub parse_edge_key : Text → Result EdgeKey
unfolding key_of_parts
parse_edge_key key = elim (decode_string key) [
  | err x ↦ err x
  | ok decoded ↦ key_of_parts (split b'|' decoded)
]

-- `encodeKey`.
pub encode_key : EdgeKey → Text
encode_key k = encode_to_string (
    join (codes "|") (
      k.portainer_instance_url ∷ k.tunnel_server_addr ∷ k.tunnel_server_fingerprint ∷ k.endpoint_id
      ∷ []))

-- What the manager holds: the key, and the configuration of this agent in the cluster, which is nil
-- outside a cluster. `key_file` is the file under the data path.
pub record Keeper : Type 0 where
  pub key : Option EdgeKey
  pub key_file : Option Text
  pub cluster : Option RuntimeConfiguration

-- What writing the key file returns, what a write that fails leaves of the file, which may be cut off,
-- and what setting the tags of this agent in the cluster returns.
pub record Env : Type 0 where
  pub write_key_file : Text → Result (Unit {0})
  pub torn_key_file : Option Text → Option Text
  pub set_tags : List (Text × Text) → Result (Unit {0})

-- The end of `SetKey`. The service's configuration is the object that the flag is set in, and
-- `UpdateRuntimeConfiguration` keeps it whether the tags can be set or not.
unfoldable pub publish_key : Env → Option RuntimeConfiguration → Keeper → Result (Unit {0}) × Keeper
publish_key env none k = (ok tt, k)
publish_key env (some c) k =
    let tags = record c { edge_key_set = true } in
    (env.set_tags (tag_map tags), record k { cluster = some tags })

-- `SetKey`: the key file is written before the key is set, and the cluster is told last.
unfoldable pub set_key : Env → Text → Keeper → Result (Unit {0}) × Keeper
unfolding publish_key
set_key env text k = elim (parse_edge_key text) [
  | err x ↦ (err x, k)
  | ok key ↦ elim (env.write_key_file text) [
    | err x ↦ (err x, record k { key_file = env.torn_key_file k.key_file })
    | ok _ ↦ publish_key env k.cluster (record k { key = some key; key_file = some text })
  ]
]

-- `GetKey`; "" without a key.
pub get_key : Keeper → Text
get_key k = elim k.key [ none ↦ [] | some key ↦ encode_key key ]

unfoldable pub is_key_set : Keeper → Bool
is_key_set k = elim k.key [ none ↦ false | some _ ↦ true ]

-- What is returned after the request to one member, with the addresses to which the key was sent.
pub send_key :
    Result (Unit {0}) → Text → Result (Unit {0}) × List Text → Result (Unit {0}) × List Text
send_key (err x) addr rest = (err x, addr ∷ [])
send_key (ok _) addr (r, sent) = (r, addr ∷ sent)

-- The loop of `PropagateKeyInCluster`.
pub propagate :
    (Text → Text → Result (Unit {0}))
    → Text
    → Text
    → List ClusterMember
    → Result (Unit {0}) × List Text
unfolding send_key
propagate set_edge_key current key [] = (ok tt, [])
propagate set_edge_key current key (m ∷ ms) =
    let rest = propagate set_edge_key current key ms in
    if m.node_name == current || m.edge_key_set
    then rest
    else send_key (set_edge_key (member_addr m) key) (member_addr m) rest

-- Where a key may come from: the file system, with a check that the file is there, and the members of
-- the cluster, whose agents answer with their key.
pub record KeySources : Type 0 where
  pub file_exists : Result Bool
  pub read_from_file : Result Text
  pub cluster_members : Option (List SerfMember)
  pub get_edge_key : Text → Result Text

pub retrieve_edge_key_from_filesystem : KeySources → Result Text
retrieve_edge_key_from_filesystem s = elim s.file_exists [
  | err x ↦ err x
  | ok there ↦ if there then s.read_from_file else ok []
]

pub retrieve_edge_key_from_cluster : KeySources → List SerfMember → Result Text
retrieve_edge_key_from_cluster s members = elim (get_member_with_edge_key_set members) [
  | none ↦ ok []
  | some m ↦ s.get_edge_key (member_addr m)
]

-- What is done with the key that the file holds.
pub or_from_cluster : KeySources → Text → Result Text
unfolding retrieve_edge_key_from_cluster
or_from_cluster s (c ∷ key) = ok (c ∷ key)
or_from_cluster s [] = elim s.cluster_members [
  | none ↦ ok []
  | some ms ↦ retrieve_edge_key_from_cluster s ms
]

-- `RetrieveEdgeKey`: the options, then the file, then the cluster.
pub retrieve_edge_key : KeySources → Text → Result Text
unfolding retrieve_edge_key_from_filesystem or_from_cluster
retrieve_edge_key s (c ∷ option) = ok (c ∷ option)
retrieve_edge_key s [] = elim (retrieve_edge_key_from_filesystem s) [
  | err x ↦ err x
  | ok key ↦ or_from_cluster s key
]
