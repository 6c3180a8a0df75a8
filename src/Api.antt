-- ===== src/Api.antt =====
-- The API of the agent: which handler serves a path (http/handler/handler.go, handlerv1.go and
-- handlerv2.go).
pub mod Routes
mod Version
pub mod Server
mod Handlers
mod Tests
use agent_portainer.Prelude.{
  ℕ, zero, suc, ◌+◌, ◌-◌, ◌*◌, ◌/◌, ◌%◌, ◌≤◌, ◌<◌, ◌≡◌, refl, sym, ap, ◌∙◌, ◌≢◌, ◌↔◌, ◌⊎◌, inl, inr,
  Bool, true, false, not, ◌&&◌, ◌||◌, Option, none, some, List, [], ◌∷◌, ◌++◌, map, arith, ltb, leb,
  if◌then◌else◌, nat_beq, nat_beq_iff, Text, codes, text_beq, text_beq_iff, Equality, ◌==◌, nat_eq,
  text_eq, Bool-cases, by_test, Option-cases, length, length-append, All, All-append, lookup,
  insert, erase, has_key, lookup-insert, lookup-erase, has_key-insert, has_key-erase,
  has_key-lookup, beq_refl, itoa, itoa-All, has_prefix, strip_prefix, contains, split_by, split,
  drop_empty, fields_by, join, Lacks, split-join, join-split, split_by-skip, split_by-cut,
  split_by-nil, split_by-whole, split_by-append, by_test, Result, ok, err, Method, >>-keeps,
  >>-eq-ok, ◌>>=◌, ◌>>◌, return, lift, get, modify, Result-cases, take, drop, itoa-cons, IsDigit,
  is_digit, ℤ, pos, negsuc, atoi, atoi-itoa, itoa-IsDigit, int_bound, range_error, syntax_error,
  and_then, IfOk, and_then-IfOk,
}

-- Whether a version of the Docker API stands at the start: "/v", a digit and a dot.
pub starts_version : Text → Bool
starts_version (a ∷ b ∷ c ∷ d ∷ s) = a == b'/' && (b == b'v' && (is_digit c && d == b'.'))
starts_version _ = false

-- The replacement by "" of each match of `(/v[0-9]\.[0-9]*)?`: so many characters are still to be
-- dropped of a match, and then its digits, if a match has just been dropped.
pub strip_matches : ℕ → Bool → Text → Text
unfolding starts_version
strip_matches n after [] = []
strip_matches (suc n) after (c ∷ s) = strip_matches n true s
strip_matches zero after (c ∷ s) = elim (after && is_digit c) [
  | true ↦ strip_matches zero true s
  | false ↦ elim (starts_version (c ∷ s)) [
    | true ↦ strip_matches 3 true s
    | false ↦ c ∷ strip_matches zero false s
  ]
]

-- `dockerAPIVersionRegexp.ReplaceAllString(path, "")`.
pub strip_docker_api_version : Text → Text
unfolding strip_matches
strip_docker_api_version path = strip_matches 0 false path

pub data Handler : Type 0 where
  agent_handler browse_handler browse_handler_v1 docker_proxy_handler dockerhub_handler : Handler
  key_handler kubernetes_handler kubernetes_proxy_handler websocket_handler : Handler
  host_handler ping_handler : Handler

-- The first prefix that the path has, and otherwise `rest`.
pub first_prefix : {A : Type 0} → List (Text × A) → A → Text → A
first_prefix [] rest path = rest
first_prefix ((p, a) ∷ cases) rest path =
    let later = first_prefix cases rest path in if has_prefix p path then a else later

abbrev pub cases_v1 : List (Text × Handler)
cases_v1 =
    (codes "/v1/agents", agent_handler)
    ∷ (codes "/v1/host", host_handler)
    ∷ (codes "/v1/browse", browse_handler_v1)
    ∷ (codes "/v1/websocket", websocket_handler)
    ∷ []

abbrev pub cases_v2 : List (Text × Handler)
cases_v2 =
    (codes "/v2/ping", ping_handler)
    ∷ (codes "/v2/agents", agent_handler)
    ∷ (codes "/v2/dockerhub", dockerhub_handler)
    ∷ (codes "/v2/host", host_handler)
    ∷ (codes "/v2/browse", browse_handler)
    ∷ (codes "/v2/websocket", websocket_handler)
    ∷ (codes "/v2/kubernetes", kubernetes_handler)
    ∷ []

-- A handler of one of the two versions gets the path without the version. The last case, "/", goes to
-- the Docker proxy with the path as it is; a path without a slash in front is served by nothing.
abbrev pub with_stripped :
    Text → Text → List (Text × Handler) → List (Text × Option (Handler × Text))
with_stripped version path [] = (codes "/", some (docker_proxy_handler, path)) ∷ []
with_stripped version path ((p, h) ∷ cases) =
    (p, some (h, strip_prefix version path)) ∷ with_stripped version path cases

pub serve_http_v1 : Text → Option (Handler × Text)
unfolding first_prefix
serve_http_v1 path = first_prefix (with_stripped (codes "/v1") path cases_v1) none path

pub serve_http_v2 : Text → Option (Handler × Text)
unfolding first_prefix
serve_http_v2 path = first_prefix (with_stripped (codes "/v2") path cases_v2) none path

-- The cases of `ServeHTTP` after those of the two versions.
abbrev pub cases : Text → List (Text × Option (Handler × Text))
cases path =
    (codes "/ping", some (ping_handler, path))
    ∷ (codes "/agents", some (agent_handler, path))
    ∷ (codes "/host", some (host_handler, path))
    ∷ (codes "/browse", some (browse_handler, path))
    ∷ (codes "/websocket", some (websocket_handler, path))
    ∷ (codes "/kubernetes", some (kubernetes_proxy_handler, path))
    ∷ (codes "/", some (docker_proxy_handler, path))
    ∷ []

pub serve_stripped : Text → Option (Handler × Text)
unfolding serve_http_v1 serve_http_v2 first_prefix
serve_stripped path =
    if has_prefix (codes "/v1") path
    then serve_http_v1 path
    else if has_prefix (codes "/v2") path
    then serve_http_v2 path
    else first_prefix (cases path) none path

-- `ServeHTTP`: the handler and the path that it gets.
pub serve_http : Text → Option (Handler × Text)
unfolding strip_docker_api_version serve_stripped
serve_http path =
    if has_prefix (codes "/key") path
    then some (key_handler, path)
    else serve_stripped (strip_docker_api_version path)
