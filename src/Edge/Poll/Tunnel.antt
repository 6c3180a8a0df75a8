-- ===== src/Edge/Poll/Tunnel.antt =====
-- The reverse tunnel after a poll and after a check of its activity (edge/poll.go, chisel/client.go).
use mathlib.Core.Path.{subst}
use agent_portainer.Prelude.{
  ℕ, ◌-◌, ◌≡◌, refl, sym, ap, ◌∙◌, ◌≢◌, ◌⊎◌, inl, inr, Bool, true, false, not, ◌&&◌, Option, none,
  some, List, arith, ltb, if◌then◌else◌, nat_beq_iff, Text, codes, ◌==◌, nat_eq, text_eq, by_test,
  by_test, Result, ok, err, >>-keeps, ◌>>◌, Result-cases,
}
use agent_portainer.Base64.{decode_string}
use agent_portainer.Edge.Poll.{
  PollStatusResponse, PollService, Env, is_tunnel_open, set_tunnel, reset_activity_timer,
  create_client, close_tunnel, create_tunnel, tunnel_config, close_if_idle, open_if_required,
  update_tunnel_with, update_tunnel, update_schedules, update_interval, reset_ticker,
  update_stacks_of, handle_response, monitor_activity, check_activity, P, TunnelConfig,
  create_with_decoded, create_with_credentials, after_create, StackStatus,
}

-- The parts that the tunnel's part of a poll leaves alone.
abbrev pub IsKept : PollService → PollService → Type 0
IsKept s t =
    (t.scheduler ≡ s.scheduler)
    × (t.stack_manager ≡ s.stack_manager)
    × (t.log_requests ≡ s.log_requests)

abbrev TunnelEnds : Bool → PollService → Result (Unit {0}) × PollService → Type 0
TunnelEnds is_open s (r, t) = (r ≡ ok tt → t.tunnel ≡ some is_open) × IsKept s t

pub create_client-cases :
    (env : Env) (config : TunnelConfig) (s : PollService)
    → (create_client env config s ≡ (ok tt, set_tunnel true s))
      ⊎ ((x : Text) × (create_client env config s ≡ (err x, s)))
unfolding create_client
create_client-cases env config s = elim (Result-cases (env.new_client config)) [
  | inr (x, g) ↦ inr (x, rw (g, create_client) refl)
  | inl (_, g) ↦ elim (Result-cases (env.start_client config)) [
    | inr (x, k) ↦ inr (x, rw (g, create_client) (rw k refl))
    | inl (_, k) ↦ inl (rw (g, create_client) (rw k refl))
  ]
]

create_tunnel-TunnelEnds :
    (env : Env) (encoded : Text) (port : ℕ) (s : PollService)
    → TunnelEnds true s (create_tunnel env encoded port s)
unfolding create_tunnel create_with_decoded create_with_credentials after_create
    reset_activity_timer is_tunnel_open
create_tunnel-TunnelEnds env encoded port s = decoded_ends (decode_string encoded)
  where
    credentials_end : (c : Result Text) → TunnelEnds true s (create_with_credentials env c port s)
    credentials_end (err x) = ((λ h. cc), (refl, refl, refl))
    credentials_end (ok c) = elim (create_client-cases env (tunnel_config env s c port) s) [
      | inr (x, g) ↦ rw g ((λ h. cc), (refl, refl, refl))
      | inl g ↦ rw g ((λ h. refl), (refl, refl, refl))
    ]

    decoded_ends : (d : Result Text) → TunnelEnds true s (create_with_decoded env d port s)
    decoded_ends (err x) = ((λ h. cc), (refl, refl, refl))
    decoded_ends (ok d) = credentials_end (env.decrypt d s.edge_id)

-- What the tunnel is after a poll: open if the server requires it, closed if it is idle, and else as
-- it was.
abbrev pub wanted : Text → Bool → Bool
wanted status is_open =
    if status == codes "REQUIRED" then true else if status == codes "IDLE" then false else is_open

idle_same :
    (idle is_open : Bool) → (idle && is_open) ≡ false → is_open ≡ (if idle then false else is_open)
idle_same true is_open h = h
idle_same false is_open h = refl

idle_open :
    (idle is_open : Bool) → (idle && is_open) ≡ true → false ≡ (if idle then false else is_open)
idle_open true is_open h = refl
idle_open false is_open h = cc

open_lem : (t : Option Bool) (o : Bool) → t ≡ some o → is_tunnel_open t ≡ o
unfolding is_tunnel_open
open_lem t o h = rw h refl

close_if_idle-TunnelEnds :
    (env : Env) (status : Text) (s : PollService) (is_open : Bool)
    → s.tunnel ≡ some is_open
    → TunnelEnds
        (if status == codes "IDLE" then false else is_open)
        s
        (ok tt, close_if_idle env status s)
unfolding close_if_idle close_tunnel
close_if_idle-TunnelEnds env status s is_open h =
    let idle = status == codes "IDLE" in
    let same = open_lem s.tunnel is_open h in
    by_test (λ t. TunnelEnds (if idle then false else is_open) s (ok tt, t))
      (idle && is_tunnel_open s.tunnel)
      (λ e. (
        (λ _. ap some (idle_open idle is_open (ap (λ b. idle && b) (sym same) ∙ e))),
        (refl, refl, refl),
      ))
      (λ e. (
        (λ _. h ∙ ap some (idle_same idle is_open (ap (λ b. idle && b) (sym same) ∙ e))),
        (refl, refl, refl),
      ))

required_same :
    (required is_open : Bool)
    → (required && not is_open) ≡ false
    → is_open ≡ (if required then true else is_open)
required_same true true h = refl
required_same true false h = cc
required_same false is_open h = refl

required_open :
    (required b is_open : Bool)
    → (required && b) ≡ true
    → true ≡ (if required then true else is_open)
required_open true b is_open h = refl
required_open false b is_open h = cc

open_if_required-TunnelEnds :
    (env : Env) (r : PollStatusResponse) (s : PollService) (is_open : Bool)
    → s.tunnel ≡ some is_open
    → TunnelEnds
        (if r.status == codes "REQUIRED" then true else is_open)
        s
        (open_if_required env r s)
unfolding open_if_required
open_if_required-TunnelEnds env r s is_open h =
    let required = r.status == codes "REQUIRED" in
    let same = open_lem s.tunnel is_open h in
    let End = TunnelEnds (if required then true else is_open) s in
    by_test End (required && not (is_tunnel_open s.tunnel))
      (λ e.
        let (ends, kept) = create_tunnel-TunnelEnds env r.credentials r.port s in
        (
          (λ q.
              ends q ∙ ap some (required_open required (not (is_tunnel_open s.tunnel)) is_open e)),
          kept,
        ))
      (λ e. (
        (λ _.
            h
            ∙ ap some
                (required_same required is_open (ap (λ b. required && not b) (sym same) ∙ e))),
        (refl, refl, refl),
      ))

update_tunnel-TunnelEnds :
    (env : Env) (r : PollStatusResponse) (s : PollService) (is_open : Bool)
    → s.tunnel ≡ some is_open
    → TunnelEnds (wanted r.status is_open) s (update_tunnel env r s)
unfolding update_tunnel update_tunnel_with
update_tunnel-TunnelEnds env r s is_open h =
    let (tunnel, kept) = close_if_idle-TunnelEnds env r.status s is_open h in
    let (opened, more) =
      open_if_required-TunnelEnds env r (close_if_idle env r.status s) _ (tunnel refl) in
    subst (λ o. TunnelEnds (wanted r.status is_open) s (update_tunnel_with env o r s)) (sym h)
      (opened, (more.0 ∙ kept.0, more.1 ∙ kept.1, more.2 ∙ kept.2))

-- How a response is handled, once the tunnel is.
abbrev pub Handled :
    PollStatusResponse
    → Bool
    → PollService
    → Result (Unit {0}) × PollService
    → Result (Unit {0}) × PollService
    → Type 0
Handled r is_open s (ok _, u) (q, t) = t.tunnel ≡ some (wanted r.status is_open)
Handled r is_open s (err x, u) (q, t) = (q ≡ err x) × IsKept s t

interval_kept :
    (env : Env) (r : PollStatusResponse) (u : PollService)
    → (update_interval env r u).1.tunnel ≡ u.tunnel
unfolding update_interval
interval_kept env r u =
    by_test {A = Result (Unit {0}) × PollService} (λ t. t.1.tunnel ≡ u.tunnel)
      (r.checkin_interval == u.poll_interval) (λ _. refl) (λ _. refl)

stacks_kept :
    (env : Env) (o : Option (List StackStatus)) (u : PollService)
    → (update_stacks_of env o u).1.tunnel ≡ u.tunnel
unfolding update_stacks_of
stacks_kept env none u = refl
stacks_kept env (some stacks) u = refl

-- What follows the tunnel in a poll.
abbrev after_tunnel : Env → PollStatusResponse → P (Unit {0})
after_tunnel env r u =
    (update_interval env r >> update_stacks_of env r.stacks) (update_schedules env r u)

tunnel_kept :
    (env : Env) (r : PollStatusResponse) (u : PollService)
    → (after_tunnel env r u).1.tunnel ≡ u.tunnel
unfolding update_schedules
tunnel_kept env r u =
    >>-keeps (λ t. t.tunnel ≡ u.tunnel) (update_interval env r) (update_stacks_of env r.stacks)
      (update_schedules env r u) (interval_kept env r (update_schedules env r u))
      (λ t h. stacks_kept env r.stacks t ∙ h)

-- With the tunnel capability, a response leaves the tunnel open if the server requires it, closed if
-- the server calls it idle, and else as it was; but where the tunnel cannot be opened, its error ends
-- the poll, and neither the schedules nor the logs nor the stacks are looked at.
pub handle_response-Handled :
    (env : Env) (r : PollStatusResponse) (s : PollService) (is_open : Bool)
    → s.tunnel ≡ some is_open
    → Handled r is_open s (update_tunnel env r s) (handle_response env r s)
unfolding handle_response
handle_response-Handled env r s is_open h =
    handled (update_tunnel env r s) (update_tunnel-TunnelEnds env r s is_open h)
  where
    handled :
        (p : Result (Unit {0}) × PollService)
        → TunnelEnds (wanted r.status is_open) s p
        → Handled r is_open s p (elim p.0 [ ok _ ↦ after_tunnel env r p.1 | err x ↦ (err x, p.1) ])
    handled (ok _, u) (ends, kept) = tunnel_kept env r u ∙ ends refl
    handled (err x, u) (ends, kept) = (refl, kept)

-- A checkin interval of 0, which a response without one has, makes the ticker panic, unless the
-- interval was 0 before.
interval_panics :
    (env : Env) (r : PollStatusResponse) (s : PollService)
    → r.checkin_interval ≡ 0
    → s.poll_interval ≢ 0
    → (update_interval env r s).0 ≡ err (codes "panic: non-positive interval for Ticker.Reset")
unfolding update_interval reset_ticker
interval_panics env r s zero_interval other =
    let new : (r.checkin_interval == s.poll_interval) ≡ false =
      ground (arith, zero_interval, other, nat_beq_iff r.checkin_interval s.poll_interval) in
    rw new (rw zero_interval refl)

-- A tick of the monitoring loop closes an open tunnel exactly if its last activity was longer ago than
-- the timeout, and does nothing else.
pub monitor_activity-closes :
    (env : Env) (s : PollService) (last : ℕ)
    → s.last_activity ≡ some last
    → s.tunnel ≡ some true
    → monitor_activity env s
      ≡ (if ltb s.inactivity_timeout (env.now - last) then record s { tunnel = some false } else s)
unfolding monitor_activity check_activity close_tunnel is_tunnel_open
monitor_activity-closes env s last h o =
    ap (λ l. check_activity env l s) h
    ∙ ap (λ b. if b && ltb s.inactivity_timeout (env.now - last) then (close_tunnel env s).1 else s)
        (open_lem s.tunnel true o)
