-- ===== src/Edge/Setup.antt =====
-- Giving an Edge agent its key over HTTP: through the API (http/handler/key/) and through the page that
-- is served as long as there is no key (edge/http/edge.go).
mod Once
mod Tests
use agent_portainer.Prelude.{
  ℕ, zero, suc, ◌+◌, ◌-◌, ◌*◌, ◌/◌, ◌%◌, ◌≤◌, ◌<◌, ◌≡◌, refl, sym, ap, ◌∙◌, ◌≢◌, ◌↔◌, ◌⊎◌, inl, inr,
  Bool, true, false, not, ◌&&◌, ◌||◌, Option, none, some, List, [], ◌∷◌, ◌++◌, map, arith, ltb, leb,
  if◌then◌else◌, nat_beq, nat_beq_iff, Text, codes, text_beq, text_beq_iff, Equality, ◌==◌, nat_eq,
  text_eq, Bool-cases, by_test, Option-cases, length, length-append, All, All-append, lookup,
  insert, erase, has_key, lookup-insert, lookup-erase, has_key-insert, has_key-erase,
  has_key-lookup, beq_refl, itoa, itoa-All, has_prefix, strip_prefix, contains, split_by, split,
  drop_empty, fields_by, join, Lacks, split-join, join-split, split_by-skip, split_by-cut,
  split_by-nil, split_by-whole, split_by-append, by_test, Result, ok, err, Method, >>-keeps,
  >>-eq-ok, ◌>>=◌, ◌>>◌, return, lift, get, modify, Result-cases, take, drop, itoa-cons, IsDigit,
  is_digit, ℤ, pos, negsuc, atoi, atoi-itoa, itoa-IsDigit, int_bound, range_error, syntax_error,
  and_then, IfOk, and_then-IfOk,
}
use agent_portainer.Edge.Key.{Keeper, Env, set_key, get_key, is_key_set}

-- What `Start` comes to once the key is set.
abbrev pub Starter : Type 0
Starter = Keeper → Result (Unit {0})

abbrev pub start_without_key : Text
start_without_key = codes "unable to start Edge manager without key"

-- `Start` of the Edge manager.
pub start_manager : Starter → Keeper → Result (Unit {0})
start_manager start k = if not (is_key_set k) then err start_without_key else start k

pub data Answer : Type 0 where
  error : (status : ℕ) → (message reason : Text) → Answer
  no_content : Answer
  json : Text → Answer

abbrev pub disabled : Answer
disabled =
    error 503 (codes "Edge key management is disabled on non Edge agent")
      (codes "Edge key management is disabled")

abbrev pub conflict : Answer
conflict =
    error 409 (codes "An Edge key is already associated to this agent")
      (codes "Edge key already associated")

abbrev pub bad_payload : Text → Answer
bad_payload x = error 400 (codes "Invalid request payload") x

-- `Validate`.
pub validate : Text → Result Text
validate [] = err (codes "invalid key")
validate (c ∷ key) = ok (c ∷ key)

pub answer_start : Result (Unit {0}) → Answer
answer_start (err x) = error 500 (codes "Unable to start Edge Manager") x
answer_start (ok _) = no_content

pub answer_set : Starter → Result (Unit {0}) × Keeper → Answer × Keeper
unfolding answer_start start_manager
answer_set start (err x, k) = (error 500 (codes "Unable to associate Edge key") x, k)
answer_set start (ok _, k) = (answer_start (start_manager start k), k)

-- `keyCreate` with a payload that is decoded and validated, or not.
pub create_with : Env → Starter → Keeper → Result Text → Answer × Keeper
unfolding answer_set
create_with env start k (err x) = (bad_payload x, k)
create_with env start k (ok key) = answer_set start (set_key env key k)

-- `keyCreate` on the Edge manager of an Edge agent, for the decoded key.
pub create_in : Env → Starter → Keeper → Result Text → Answer × Keeper
unfolding create_with validate
create_in env start k decoded =
    if is_key_set k then (conflict, k) else create_with env start k (and_then decoded validate)

pub key_create : Env → Starter → Option Keeper → Result Text → Answer × Option Keeper
unfolding create_in
key_create env start none decoded = (disabled, none)
key_create env start (some k) decoded = (let (a, t) = create_in env start k decoded in (a, some t))

pub key_inspect : Option Keeper → Answer
key_inspect none = disabled
key_inspect (some k) =
    if not (is_key_set k)
    then error 404 (codes "No key associated to this agent") (codes "Edge key unavailable")
    else json (get_key k)

-- What the page writes, in order.
pub data Output : Type 0 where
  http_error : Text → ℕ → Output
  written : Text → Output

-- What the handler of the page does: its outputs, and whether it passes the key on to the cluster and
-- shuts the server of the page down.
pub record Setup : Type 0 where
  pub outputs : List Output
  pub keeper : Keeper
  pub propagated : Bool
  pub shut_down : Bool

abbrev pub stopped_with : Text → ℕ → Keeper → Setup
stopped_with x status k = record {
  outputs = http_error x status ∷ [];
  keeper = k;
  propagated = false;
  shut_down = false;
}

abbrev pub setup_ok : Output
setup_ok = written (codes "Agent setup OK. You can close this page.")

-- A manager that does not start is written about, and the handler goes on.
abbrev pub start_outputs : Result (Unit {0}) → List Output
start_outputs (err x) = http_error x 500 ∷ []
start_outputs (ok _) = []

abbrev pub setup_done : List Output → Keeper → Setup
setup_done outputs k = record {
  outputs = outputs ++ setup_ok ∷ [];
  keeper = k;
  propagated = true;
  shut_down = true;
}

pub setup_set : Starter → Result (Unit {0}) × Keeper → Setup
unfolding start_manager
setup_set start (err x, k) = stopped_with x 500 k
setup_set start (ok _, k) = setup_done (start_outputs (start_manager start k)) k

-- `handleKeySetup`, for the key of the form.
pub handle_key_setup : Env → Starter → Keeper → Result Text → Setup
unfolding setup_set
handle_key_setup env start k (err x) = stopped_with (codes "Unable to parse form") 500 k
handle_key_setup env start k (ok []) = stopped_with (codes "Missing key parameter") 400 k
handle_key_setup env start k (ok (c ∷ key)) = setup_set start (set_key env (c ∷ key) k)
