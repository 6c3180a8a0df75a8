-- ===== src/Api/Server.antt =====
-- The API server in front of the handlers (http/server.go): the API of an Edge agent, and the shutdown
-- of an agent with which no Portainer instance is associated.
pub mod Shutdown
use agent_portainer.Prelude.{
  ℕ, zero, suc, ◌+◌, ◌-◌, ◌*◌, ◌/◌, ◌%◌, ◌≤◌, ◌<◌, ◌≡◌, refl, sym, ap, ◌∙◌, ◌≢◌, ◌↔◌, ◌⊎◌, inl, inr,
  Bool, true, false, not, ◌&&◌, ◌||◌, Option, none, some, List, [], ◌∷◌, ◌++◌, map, arith, ltb, leb,
  if◌then◌else◌, nat_beq, nat_beq_iff, Text, codes, text_beq, text_beq_iff, Equality, ◌==◌, nat_eq,
  text_eq, Bool-cases, by_test, Option-cases, length, length-append, All, All-append, lookup,
  insert, erase, has_key, lookup-insert, lookup-erase, has_key-insert, has_key-erase,
  has_key-lookup, beq_refl, itoa, itoa-All, has_prefix, strip_prefix, contains, split_by, split,
  drop_empty, fields_by, join, Lacks, split-join, join-split, split_by-skip, split_by-cut,
  split_by-nil, split_by-whole, split_by-append, by_test, Result, ok, err, Method, >>-keeps,
  >>-eq-ok, ◌>>=◌, ◌>>◌, return, lift, get, modify, Result-cases,
}
use agent_portainer.Security.{
  Crypto, SignatureService, new_ecdsa_service, is_associated, digital_signature_verification,
}
use agent_portainer.Edge.Poll.{PollService, reset_activity_timer}
use agent_portainer.Edge.Poll as Poll

-- The Edge manager as the server sees it: whether the key is set, and the poll service, which `Start`
-- sets.
pub record EdgeManager : Type 0 where
  pub is_key_set : Bool
  pub poll_service : Option PollService

-- What happens to a request in front of the next handler; a poll service that is nil is a panic.
pub data Entry : Type 0 where
  forbidden : Entry
  panicked : Entry
  entered : EdgeManager → Entry

pub reset_timer_of : Poll.Env → EdgeManager → Option PollService → Entry
reset_timer_of env m none = panicked
reset_timer_of env m (some p) =
    entered (record m { poll_service = some (reset_activity_timer env p) })

-- `enhanceAPIForEdgeMode`.
pub enhance_api_for_edge_mode : Poll.Env → Bool → EdgeManager → Entry
unfolding reset_timer_of
enhance_api_for_edge_mode env is_secure m =
    if not is_secure && not m.is_key_set then forbidden else reset_timer_of env m m.poll_service

-- The handler of `StartUnsecured` and of `StartSecured`, by its mode.
pub enter : Poll.Env → Bool → Bool → EdgeManager → Entry
unfolding enhance_api_for_edge_mode
enter env edge_mode is_secure m =
    if edge_mode then enhance_api_for_edge_mode env is_secure m else entered m

-- Whether the goroutine of `StartSecured` shuts the server down when its time is up.
pub security_shutdown : {Key : Type 0} → SignatureService Key → Bool
security_shutdown s = not (is_associated s)
