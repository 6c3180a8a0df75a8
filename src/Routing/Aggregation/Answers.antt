-- ===== src/Routing/Aggregation/Answers.antt =====
-- What a cluster operation answers (http/proxy/cluster.go, http/proxy/response.go).
use agent_portainer.Prelude.{
  ◌≡◌, ◌⊎◌, Bool, true, false, some, List, [], ◌∷◌, if◌then◌else◌, nat_eq, text_eq, by_test, All,
  lookup, by_test,
}
use agent_portainer.Agent.{ClusterMember}
use agent_portainer.Routing.{Request}
use agent_portainer.Routing.Aggregation.{
  Item, object_item, other_item, Run, done, failed, panicked, Env, copy_and_execute_request,
  response_metadata_key,
}

-- The members whose agent gives an error, and the others.
abbrev pub is_error : Run (List Item) → Bool
is_error (failed x) = true
is_error (done items) = false
is_error panicked = false

abbrev pub answering : Env → Request → Bool → List ClusterMember → List ClusterMember
answering env r use_tls [] = []
answering env r use_tls (m ∷ ms) =
    let rest = answering env r use_tls ms in
    if is_error (copy_and_execute_request env r use_tls m) then rest else m ∷ rest

-- An item of the answer with the node that it comes from, which is the name of one of the members.
abbrev pub IsFrom : List ClusterMember → Item → Type 0
IsFrom ms (other_item _) = ⊥
IsFrom [] (object_item fields) = ⊥
IsFrom (m ∷ ms) (object_item fields) =
    (lookup response_metadata_key fields ≡ some m.node_name) ⊎ IsFrom ms (object_item fields)

abbrev pub AllFrom : List ClusterMember → Run (List Item) → Type 0
AllFrom ms (done items) = All (IsFrom ms) items
AllFrom ms (failed x) = ⊥
AllFrom ms panicked = Unit
