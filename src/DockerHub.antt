-- ===== src/DockerHub.antt =====
-- The rate limits of an account of DockerHub (http/handler/dockerhub/dockerhub_status.go). Sending a
-- request and decoding JSON are parameters.
mod Limits
mod Tests
use agent_portainer.Prelude.{
  ℕ, zero, suc, ◌+◌, ◌-◌, ◌*◌, ◌/◌, ◌%◌, ◌≤◌, ◌<◌, ◌≡◌, refl, sym, ap, ◌∙◌, ◌≢◌, ◌↔◌, ◌⊎◌, inl, inr,
  Bool, true, false, not, ◌&&◌, ◌||◌, Option, none, some, List, [], ◌∷◌, ◌++◌, map, arith, ltb, leb,
  if◌then◌else◌, nat_beq, nat_beq_iff, Text, codes, text_beq, text_beq_iff, Equality, ◌==◌, nat_eq,
  text_eq, Bool-cases, by_test, Option-cases, length, length-append, All, All-append, lookup,
  insert, erase, has_key, lookup-insert, lookup-erase, has_key-insert, has_key-erase,
  has_key-lookup, beq_refl, itoa, itoa-All, has_prefix, strip_prefix, contains, split_by, split,
  drop_empty, fields_by, join, Lacks, split-join, join-split, split_by-skip, split_by-cut,
  split_by-nil, split_by-whole, split_by-append, by_test, Result, ok, err, Method, >>-keeps,
  >>-eq-ok, ◌>>=◌, ◌>>◌, return, lift, get, modify, Result-cases, take, drop, itoa-cons, IsDigit,
  is_digit, ℤ, pos, negsuc, atoi, atoi-itoa, itoa-IsDigit, int_bound, range_error, syntax_error,
  and_then, IfOk, and_then-IfOk, IntSize,
}

pub record DockerhubStatusPayload : Type 0 where
  pub authentication : Bool
  pub username : Text
  pub password : Text

pub record DockerhubStatusResponse : Type 0 where
  pub remaining : ℤ
  pub limit : ℤ

abbrev pub token_url : Text
token_url =
    codes
      "https://auth.docker.io/token?service=registry.docker.io&scope=repository:ratelimitpreview/test:pull"

abbrev pub rate_limits_url : Text
rate_limits_url = codes "https://registry-1.docker.io/v2/ratelimitpreview/test/manifests/latest"

pub record Request : Type 0 where
  pub method : Text
  pub url : Text
  pub basic_auth : Option (Text × Text)
  pub authorization : Text

-- A response: the text of its body, and `Get` of its headers, "" for a missing one.
pub record Reply : Type 0 where
  pub status : ℕ
  pub body : Text
  pub header : Text → Text

-- The HTTP client, the token that a body in JSON holds, and the size of an int.
pub record Env : Type 0 where
  pub int_size : IntSize
  pub send : Request → Result Reply
  pub decode_token : Text → Result Text

-- What the handler answers; a nil response is the JSON null.
pub data Answer : Type 0 where
  error : (status : ℕ) → (message reason : Text) → Answer
  json : Option DockerhubStatusResponse → Answer

-- `Validate`.
pub validate : DockerhubStatusPayload → Result DockerhubStatusPayload
validate p =
    if p.authentication && (p.username == [] || p.password == [])
    then err (codes "Missing username or password")
    else ok p

-- `matches[0]`; a split has a part.
pub first_part : List Text → Text
first_part [] = []
first_part (t ∷ ts) = t

pub parse_numeric_header : IntSize → (Text → Text) → Text → Result ℤ
unfolding first_part
parse_numeric_header size header key =
    if header key == []
    then err (codes "Missing " ++ key ++ codes " header")
    else atoi size (first_part (split b';' (header key)))

abbrev pub basic_auth_of : DockerhubStatusPayload → Option (Text × Text)
basic_auth_of p = if p.authentication then some (p.username, p.password) else none

abbrev pub token_request : DockerhubStatusPayload → Request
token_request p = record {
  method = codes "GET";
  url = token_url;
  basic_auth = basic_auth_of p;
  authorization = [];
}

abbrev pub limits_request : Text → Request
limits_request token = record {
  method = codes "HEAD";
  url = rate_limits_url;
  basic_auth = none;
  authorization = codes "Bearer " ++ token;
}

pub token_of : Env → Result Reply → Result Text
token_of env (err x) = err x
token_of env (ok r) =
    if not (r.status == 200)
    then err (codes "failed fetching dockerhub token")
    else env.decode_token r.body

pub get_docker_hub_token : Env → DockerhubStatusPayload → Result Text
unfolding token_of
get_docker_hub_token env p = token_of env (env.send (token_request p))

-- A header that is missing or is no number gives no limits, and no error.
pub limits_from : Result ℤ → Result ℤ → Option DockerhubStatusResponse
limits_from (ok l) (ok m) = some (record { remaining = m; limit = l })
limits_from _ _ = none

pub limits_of : IntSize → Result Reply → Result (Option DockerhubStatusResponse)
unfolding limits_from parse_numeric_header
limits_of size (err x) = err x
limits_of size (ok r) =
    if not (r.status == 200)
    then err (codes "failed fetching dockerhub limits")
    else ok (
        limits_from (parse_numeric_header size r.header (codes "RateLimit-Limit"))
          (parse_numeric_header size r.header (codes "RateLimit-Remaining")))

pub get_docker_hub_limits : Env → Text → Result (Option DockerhubStatusResponse)
unfolding limits_of
get_docker_hub_limits env token = limits_of env.int_size (env.send (limits_request token))

pub answer_limits : Result (Option DockerhubStatusResponse) → Answer
answer_limits (err x) =
    error 500 (codes "Unable to retrieve DockerHub rate limits from DockerHub") x
answer_limits (ok limits) = json limits

pub answer_token : Env → Result Text → Answer
unfolding answer_limits get_docker_hub_limits
answer_token env (err x) = error 500 (codes "Unable to retrieve DockerHub token from DockerHub") x
answer_token env (ok token) = answer_limits (get_docker_hub_limits env token)

pub answer_valid : Env → Result DockerhubStatusPayload → Answer
unfolding answer_token get_docker_hub_token
answer_valid env (err x) = error 400 (codes "Invalid request payload") x
answer_valid env (ok p) = answer_token env (get_docker_hub_token env p)

-- The handler, for the payload decoded from the body.
pub dockerhub_status : Env → Result DockerhubStatusPayload → Answer
unfolding answer_valid validate
dockerhub_status env (err x) = answer_valid env (err x)
dockerhub_status env (ok p) = answer_valid env (validate p)
