-- ===== src/DockerHub/Limits.antt =====
-- Which limits are answered (http/handler/dockerhub/dockerhub_status.go).
use agent_portainer.Prelude.{
  ℕ, ◌≡◌, refl, ap, ◌∙◌, ◌⊎◌, inl, inr, false, ◌&&◌, Option, none, some, [], ◌∷◌, ◌++◌, arith, ltb,
  if◌then◌else◌, nat_beq, Text, codes, text_beq, ◌==◌, nat_eq, text_eq, All, itoa, split,
  split_by-cut, split_by-whole, split_by-append, Result, ok, err, itoa-cons, IsDigit, ℤ, pos, atoi,
  atoi-itoa, itoa-IsDigit, int_bound, range_error,
}
use mathlib.Core.Path.{ap₂}
use agent_portainer.DockerHub.{
  DockerhubStatusPayload, DockerhubStatusResponse, Env, Reply, json, validate, first_part,
  parse_numeric_header, token_request, limits_request, token_of, get_docker_hub_token, limits_from,
  limits_of, get_docker_hub_limits, answer_limits, answer_token, answer_valid, dockerhub_status,
  IntSize,
}

-- A number, alone or with a window behind it, such as "100;w=21600".
abbrev pub Starts : ℕ → Text → Type 0
Starts n v = (v ≡ itoa n) ⊎ ((window : Text) × (v ≡ itoa n ++ b';' ∷ window))

-- A number of the type int.
abbrev pub in_range : IntSize → ℕ → Result ℤ
in_range size n = if ltb n (int_bound size) then ok (pos n) else err range_error

lacks_semicolon : (s : Text) → All IsDigit s → All (λ c. nat_beq b';' c ≡ false) s
lacks_semicolon [] h = tt
lacks_semicolon (c ∷ s) ((lo, hi), h) = (ground (arith, hi), lacks_semicolon s h)

first_part-split : (n : ℕ) (v : Text) → Starts n v → first_part (split b';' v) ≡ itoa n
unfolding first_part split
first_part-split n v (inl e) =
    let lacks = lacks_semicolon (itoa n) (itoa-IsDigit n) in
    ap (λ t. first_part (split b';' t)) e
    ∙ ap first_part (split_by-whole (nat_beq b';') [] (itoa n) lacks)
first_part-split n v (inr (w, e)) =
    let lacks = lacks_semicolon (itoa n) (itoa-IsDigit n) in
    ap (λ t. first_part (split b';' t)) e
    ∙ ap first_part (
        split_by-append (nat_beq b';') [] (itoa n) (b';' ∷ w) lacks
        ∙ split_by-cut (nat_beq b';') (itoa n) b';' w refl)

Starts-filled : (n : ℕ) (v : Text) → Starts n v → (v == []) ≡ false
unfolding text_beq
Starts-filled n [] (inl e) = let (d, t, q) = itoa-cons n in cc (e, q)
Starts-filled n [] (inr (w, e)) = let (d, t, q) = itoa-cons n in cc (rw q at e)
Starts-filled n (c ∷ v) h = refl

parse_numeric_header-Starts :
    (size : IntSize) (header : Text → Text) (key : Text) (n : ℕ)
    → Starts n (header key)
    → parse_numeric_header size header key ≡ in_range size n
unfolding parse_numeric_header
parse_numeric_header-Starts size header key n h =
    rw (Starts-filled n (header key) h)
      (ap (atoi size) (first_part-split n (header key) h) ∙ atoi-itoa size n)

good_token :
    (env : Env) (p : DockerhubStatusPayload) (token : Text) (r : Reply)
    → env.send (token_request p) ≡ ok r
    → r.status ≡ 200
    → env.decode_token r.body ≡ ok token
    → get_docker_hub_token env p ≡ ok token
unfolding get_docker_hub_token token_of
good_token env p token r sent status decoded = rw sent (rw status decoded)

abbrev pub limits_response : ℕ → ℕ → DockerhubStatusResponse
limits_response limit remaining = record { remaining = pos remaining; limit = pos limit }

abbrev both_limits : IntSize → (n m : ℕ) → Option DockerhubStatusResponse
both_limits size n m =
    if ltb n (int_bound size) && ltb m (int_bound size) then some (limits_response n m) else none

limits_from-in_range :
    (size : IntSize) (n m : ℕ)
    → limits_from (in_range size n) (in_range size m) ≡ both_limits size n m
unfolding limits_from
limits_from-in_range size n m = ground arith

good_limits :
    (env : Env) (token : Text) (r : Reply) (n m : ℕ)
    → env.send (limits_request token) ≡ ok r
    → r.status ≡ 200
    → Starts n (r.header (codes "RateLimit-Limit"))
    → Starts m (r.header (codes "RateLimit-Remaining"))
    → get_docker_hub_limits env token ≡ ok (both_limits env.int_size n m)
unfolding get_docker_hub_limits limits_of
good_limits env token r n m sent status limit remaining =
    ap (limits_of env.int_size) sent
    ∙ (rw status (
        ap₂ (λ a b. ok (limits_from a b))
          (parse_numeric_header-Starts env.int_size r.header (codes "RateLimit-Limit") n limit)
          (parse_numeric_header-Starts env.int_size r.header (codes "RateLimit-Remaining") m
            remaining)))
    ∙ ap ok (limits_from-in_range env.int_size n m)

-- If both requests succeed and both headers start with a number, the answer has the two numbers if
-- both are below the bound of the type int, 2^31 or 2^63 by the size that it has on the target, and
-- else it is null, without an error.
pub dockerhub_status-limits :
    (env : Env) (p : DockerhubStatusPayload) (token : Text) (r q : Reply) (n m : ℕ)
    → validate p ≡ ok p
    → (env.send (token_request p) ≡ ok r) × (r.status ≡ 200)
    → env.decode_token r.body ≡ ok token
    → (env.send (limits_request token) ≡ ok q) × (q.status ≡ 200)
    → Starts n (q.header (codes "RateLimit-Limit"))
    → Starts m (q.header (codes "RateLimit-Remaining"))
    → dockerhub_status env (ok p)
      ≡ json (
          if ltb n (int_bound env.int_size) && ltb m (int_bound env.int_size)
          then some (limits_response n m)
          else none)
unfolding dockerhub_status answer_valid answer_token answer_limits
dockerhub_status-limits env p token r q n m valid (sent, status) decoded (asked, found) limit left =
    ap (answer_valid env) valid
    ∙ ap (answer_token env) (good_token env p token r sent status decoded)
    ∙ ap answer_limits (good_limits env token q n m asked found limit left)
