-- ===== src/Edge/Key/Tests.antt =====
-- The Edge key at concrete inputs (edge/key.go).
use agent_portainer.Prelude.{
  ◌≡◌, refl, Bool, true, false, none, some, List, [], ◌∷◌, arith, Text, codes, nat_eq, text_eq,
  split, ok, err,
}
use agent_portainer.Edge.Key.{
  EdgeKey, Keeper, Env, KeySources, set_key, parse_edge_key, encode_key, retrieve_edge_key,
  key_of_parts, publish_key,
}
use agent_portainer.Edge.Key.Format.{IsPlain, parse_edge_key-encode_key, encode_key-parse_edge_key}
use agent_portainer.Edge.Key.Sources.{IsStored, set_keys, retrieve_edge_key-set_keys}
use agent_portainer.Base64.{decode_string, encode_to_string}
use agent_portainer.Agent.{ClusterMember}

abbrev key : EdgeKey
key = record {
  portainer_instance_url = codes "http";
  tunnel_server_addr = codes "a";
  tunnel_server_fingerprint = codes "b";
  endpoint_id = codes "1";
}

abbrev text : Text
text = codes "aHR0cHxhfGJ8MQ"

decode_test : parse_edge_key text ≡ ok key
unfolding parse_edge_key key_of_parts decode_string split
decode_test = refl

-- A disk that can be written, and a cluster that cannot be told.
abbrev env : Env
env = record {
  write_key_file = λ t. ok tt;
  torn_key_file = λ f. none;
  set_tags = λ tags. err (codes "unable to set tags");
}

abbrev empty : Keeper
empty = record { key = none; key_file = none; cluster = none }

empty-IsStored : IsStored empty
empty-IsStored = λ k h. cc

abbrev sources : KeySources
sources = record {
  file_exists = ok true;
  read_from_file = ok text;
  cluster_members = none;
  get_edge_key = λ a. err (codes "unreachable");
}

unreadable_test : (set_key env (codes "?") empty).0 ≡ err (codes "illegal base64 data")
unfolding set_key parse_edge_key key_of_parts decode_string split
unreadable_test = refl

key_set : (set_keys ((env, text) ∷ (env, codes "?") ∷ []) empty).key ≡ some key
unfolding set_key parse_edge_key key_of_parts publish_key decode_string split
key_set = refl

reads :
    (t : Text)
    → (set_keys ((env, text) ∷ (env, codes "?") ∷ []) empty).key_file ≡ some t
    → sources.read_from_file ≡ ok t
unfolding set_key parse_edge_key key_of_parts publish_key decode_string split
reads t h = cc

key-IsPlain : IsPlain key
key-IsPlain = ground arith

parse_edge_key-encode_key_example : parse_edge_key (encode_key key) ≡ ok key
parse_edge_key-encode_key_example = parse_edge_key-encode_key key key-IsPlain

encode_key-parse_edge_key_example :
    (decoded : Text) × (decode_string text ≡ ok decoded)
    × (encode_key key ≡ encode_to_string decoded)
encode_key-parse_edge_key_example = encode_key-parse_edge_key text key decode_test

retrieve_edge_key-set_keys_example :
    (t : Text) × (retrieve_edge_key sources [] ≡ ok t) × (parse_edge_key t ≡ ok key)
retrieve_edge_key-set_keys_example =
    retrieve_edge_key-set_keys ((env, text) ∷ (env, codes "?") ∷ []) empty key sources
      (refl, (refl, tt)) empty-IsStored key_set refl reads

abbrev member : Text → Text → Bool → ClusterMember
member name ip set = record {
  ip_address = ip;
  port = codes "9001";
  node_name = name;
  node_role = codes "worker";
  edge_key_set = set;
}

abbrev cluster : List ClusterMember
cluster =
    member (codes "n1") (codes "10.0.0.1") false
    ∷ member (codes "n2") (codes "10.0.0.2") true
    ∷ member (codes "n3") (codes "10.0.0.3") false
    ∷ []
