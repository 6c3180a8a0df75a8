-- ===== src/Routing/Aggregation/Race.antt =====
-- The goroutines that copy one request for the members of a cluster (http/proxy/cluster.go,
-- `executeRequestOnCluster` and `copyRequest`): they share the body and the URL of the request.
pub mod Sound
pub mod Shares
pub mod Sequence
pub mod Copies
use agent_portainer.Prelude.{
  ℕ, zero, suc, ◌+◌, ◌-◌, ◌*◌, ◌/◌, ◌%◌, ◌≤◌, ◌<◌, ◌≡◌, refl, sym, ap, ◌∙◌, ◌≢◌, ◌↔◌, ◌⊎◌, inl, inr,
  Bool, true, false, not, ◌&&◌, ◌||◌, Option, none, some, List, [], ◌∷◌, ◌++◌, map, arith, ltb, leb,
  if◌then◌else◌, nat_beq, nat_beq_iff, Text, codes, text_beq, text_beq_iff, Equality, ◌==◌, nat_eq,
  text_eq, Bool-cases, by_test, Option-cases, length, length-append, All, All-append, lookup,
  insert, erase, has_key, lookup-insert, lookup-erase, has_key-insert, has_key-erase,
  has_key-lookup, beq_refl, itoa, itoa-All, has_prefix, strip_prefix, contains, split_by, split,
  drop_empty, fields_by, join, Lacks, split-join, join-split, split_by-skip, split_by-cut,
  split_by-nil, split_by-whole, split_by-append, by_test, Result, ok, err, Method, >>-keeps,
  >>-eq-ok, ◌>>=◌, ◌>>◌, return, lift, get, modify, Result-cases, take, drop, itoa-cons, IsDigit,
  is_digit, ℤ, pos, negsuc, atoi, atoi-itoa, itoa-IsDigit, int_bound, IntSize, bits_32, bits_64,
  range_error, syntax_error, and_then, IfOk, and_then-IfOk,
}
use agent_portainer.Agent.{ClusterMember, member_addr}
use agent_portainer.Routing.{Request, set_header, http_target_header_name}

-- How far a goroutine is: `copyRequest` reads the body to its end, sets the host and the scheme of the
-- shared URL, and then prints the URL into a new request. A read that fails stops it, with the error.
-- Each stage has what was read so far.
pub data Stage : Type 0 where
  reading addressing addressed : (body : Text) → Stage
  stopped : (body error : Text) → Stage
  copied : Request → Stage

abbrev pub Goroutine : Type 0
Goroutine = ClusterMember × Stage

-- The request that is shared, and the goroutines.
abbrev pub World : Type 0
World = Request × List Goroutine

-- What a read at the end of the body returns: the end, or an error.
unfoldable pub ended : Option Text → Text → Stage
ended none body = addressing body
ended (some x) body = stopped body x

module _ (use_tls : Bool) (ending : Option Text) where
  abbrev pub set_url : ClusterMember → Request → Request
  set_url m r = record r {
    scheme = if use_tls then codes "https" else codes "http";
    host = member_addr m;
  }

  -- The next step of one goroutine; a read takes as many bytes as are given, or what is left.
  unfoldable pub turn : ℕ → ClusterMember → Request → Stage → Request × Stage
  unfolding ended
  turn n m r (reading body) =
      if r.body == []
      then (r, ended ending body)
      else (record r { body = drop n r.body }, reading (body ++ take n r.body))
  turn n m r (addressing body) = (set_url m r, addressed body)
  turn n m r (addressed body) =
      (r, copied (set_header http_target_header_name m.node_name (record r { body = body })))
  turn n m r (stopped body x) = (r, stopped body x)
  turn n m r (copied c) = (r, copied c)

  -- The next step of the goroutine at a position.
  unfoldable pub turn_at : ℕ → ℕ → Request → List Goroutine → World
  unfolding turn
  turn_at i n r [] = (r, [])
  turn_at zero n r ((m, stage) ∷ gs) = (let (u, next) = turn n m r stage in (u, (m, next) ∷ gs))
  turn_at (suc i) n r (g ∷ gs) = (let (u, hs) = turn_at i n r gs in (u, g ∷ hs))

  -- The steps in order, each by the position of the goroutine and the bytes that a read takes.
  unfoldable pub interleave : List (ℕ × ℕ) → World → World
  unfolding turn_at
  interleave [] w = w
  interleave ((i, n) ∷ order) w = interleave order (turn_at i n w.0 w.1)

-- `executeRequestOnCluster`: one goroutine for each member that answers the ping.
unfoldable pub start_goroutines : List ClusterMember → List Goroutine
start_goroutines [] = []
start_goroutines (m ∷ ms) = (m, reading []) ∷ start_goroutines ms
