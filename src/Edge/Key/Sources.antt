-- ===== src/Edge/Key/Sources.antt =====
-- That a key that was set is found again, and who is sent it (edge/key.go).
use agent_portainer.Prelude.{
  ◌≡◌, refl, sym, ap, ◌≢◌, ◌⊎◌, inl, inr, true, false, ◌||◌, Option, none, some, List, [], ◌∷◌,
  ◌++◌, if◌then◌else◌, Text, ◌==◌, nat_eq, text_eq, All, split, Result, ok, err, Result-cases,
}
use mathlib.Core.Path.{subst}
use agent_portainer.Base64.{decode_string}
use agent_portainer.Agent.{ClusterMember, RuntimeConfiguration, member_addr}
use agent_portainer.Edge.Key.{
  EdgeKey, Keeper, publish_key, Env, set_key, parse_edge_key, or_from_cluster, retrieve_edge_key,
  KeySources, retrieve_edge_key_from_filesystem, key_of_parts, is_key_set,
}

-- The key of a manager is what its key file parses to.
abbrev pub IsStored : Keeper → Type 0
IsStored k =
    (key : EdgeKey)
    → k.key ≡ some key
    → (text : Text) × (k.key_file ≡ some text) × (parse_edge_key text ≡ ok key)

publish_key-fields :
    (env : Env) (o : Option RuntimeConfiguration) (k : Keeper)
    → ((publish_key env o k).1.key ≡ k.key) × ((publish_key env o k).1.key_file ≡ k.key_file)
unfolding publish_key
publish_key-fields env none k = (refl, refl)
publish_key-fields env (some c) k = (refl, refl)

-- The three ways in which `SetKey` ends.
abbrev pub SetKeyEnds : Env → Text → Keeper → Result (Unit {0}) × Keeper → Type 0
SetKeyEnds env text k (r, t) =
    ((x : Text) × (r ≡ err x)
      × (t ≡ record k { key_file = t.key_file })
      × (env.write_key_file text ≡ ok tt → t ≡ k))
    ⊎ ((key : EdgeKey) × (parse_edge_key text ≡ ok key)
        × (t.key ≡ some key)
        × (t.key_file ≡ some text))

-- `SetKey` either fails and changes nothing but the key file, if its write fails, or it has set the parsed key and written the text to the
-- key file, whether the cluster can then be told or not.
pub set_key-SetKeyEnds :
    (env : Env) (text : Text) (k : Keeper) → SetKeyEnds env text k (set_key env text k)
unfolding set_key
set_key-SetKeyEnds env text k = elim (Result-cases (parse_edge_key text)) [
  | inr (x, e) ↦ rw (e, set_key) (inl (x, refl, refl, λ h. refl))
  | inl (key, e) ↦ elim (Result-cases (env.write_key_file text)) [
    | inr (x, f) ↦ rw (e, set_key) (rw f (inl (x, refl, refl, λ h. cc)))
    | inl (_, f) ↦
        let (a, b) =
          publish_key-fields env k.cluster (record k { key = some key; key_file = some text }) in
        rw (e, set_key) (rw f (inr (key, refl, a, b)))
  ]
]

set_key-IsStored :
    (env : Env) (text : Text) (k : Keeper)
    → env.write_key_file text ≡ ok tt
    → IsStored k
    → IsStored (set_key env text k).1
set_key-IsStored env text k writes s = elim (set_key-SetKeyEnds env text k) [
  | inl (x, e, _, same) ↦ subst IsStored (sym (same writes)) s
  | inr (key, p, q, f) ↦ λ key' h. (text, f, cc)
]

-- An accepted text is not empty.
parse_edge_key-nil : (key : EdgeKey) → parse_edge_key [] ≢ ok key
unfolding parse_edge_key decode_string split key_of_parts
parse_edge_key-nil key h = cc

or_from_cluster-ne : (s : KeySources) (text : Text) → text ≢ [] → or_from_cluster s text ≡ ok text
unfolding or_from_cluster
or_from_cluster-ne s [] h = absurd (h refl)
or_from_cluster-ne s (c ∷ t) h = refl

-- Calls of `SetKey` one after another.
abbrev pub set_keys : List (Env × Text) → Keeper → Keeper
set_keys [] k = k
set_keys ((env, text) ∷ calls) k = set_keys calls (set_key env text k).1

-- The key file can be written in each call.
abbrev pub AllWritten : List (Env × Text) → Type 0
AllWritten calls = All (λ c. c.0.write_key_file c.1 ≡ ok tt) calls

set_keys-IsStored :
    (calls : List (Env × Text)) (k : Keeper)
    → AllWritten calls
    → IsStored k
    → IsStored (set_keys calls k)
set_keys-IsStored [] k w s = s
set_keys-IsStored ((env, text) ∷ calls) k (w, ws) s =
    set_keys-IsStored calls (set_key env text k).1 ws (set_key-IsStored env text k w s)

-- After calls of `SetKey` in which the key file can be written, whether the texts are keys or not, on a
-- manager whose key, if it has one, was stored, an agent that starts without the option and reads the
-- key file finds a text that parses to the key that was set.
pub retrieve_edge_key-set_keys :
    (calls : List (Env × Text)) (k : Keeper) (key : EdgeKey) (s : KeySources)
    → AllWritten calls
    → IsStored k
    → (set_keys calls k).key ≡ some key
    → s.file_exists ≡ ok true
    → ((text : Text) → (set_keys calls k).key_file ≡ some text → s.read_from_file ≡ ok text)
    → (text : Text) × (retrieve_edge_key s [] ≡ ok text) × (parse_edge_key text ≡ ok key)
unfolding retrieve_edge_key retrieve_edge_key_from_filesystem
retrieve_edge_key-set_keys calls k key s writes stored h there reads =
    let (text, f, p) = set_keys-IsStored calls k writes stored key h in
    let nonempty : text ≢ [] = λ e. parse_edge_key-nil key (cc (ap parse_edge_key e)) in
    (text, rw (there, reads text f) (or_from_cluster-ne s text nonempty), p)

-- Whom the key is to be sent to: the members other than this agent's node that have no key.
abbrev pub targets : Text → List ClusterMember → List Text
targets current [] = []
targets current (m ∷ ms) =
    if m.node_name == current || m.edge_key_set
    then targets current ms
    else member_addr m ∷ targets current ms

-- The agents at the addresses take the key.
abbrev pub AllTaken : (Text → Text → Result (Unit {0})) → Text → List Text → Type 0
AllTaken set_edge_key key addrs = All (λ addr. set_edge_key addr key ≡ ok tt) addrs

abbrev pub Propagated :
    (Text → Text → Result (Unit {0})) → Text → List Text → Result (Unit {0}) × List Text → Type 0
Propagated set_edge_key key todo (ok _, sent) = (sent ≡ todo) × AllTaken set_edge_key key todo
Propagated set_edge_key key todo (err x, sent) =
    (before : List Text) × (failed : Text) × (after : List Text) × (sent ≡ before ++ failed ∷ [])
    × (todo ≡ before ++ failed ∷ after)
    × (set_edge_key failed key ≡ err x)
    × AllTaken set_edge_key key before

-- A key is set after a call of `SetKey` that succeeds.
pub set_key-is_key_set :
    (env : Env) (text : Text) (k : Keeper)
    → (set_key env text k).0 ≡ ok tt
    → is_key_set (set_key env text k).1 ≡ true
unfolding is_key_set
set_key-is_key_set env text k h = elim (set_key-SetKeyEnds env text k) [
  | inl (x, e, _, same) ↦ cc
  | inr (key, parsed, e, file) ↦ rw (e, is_key_set) refl
]

pub is_key_set_none : (k : Keeper) → k.key ≡ none → is_key_set k ≡ false
unfolding is_key_set
is_key_set_none k e = rw (e, is_key_set) refl
