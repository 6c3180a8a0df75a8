-- ===== src/Edge/Scheduler/Lines.antt =====
-- The lines of the cron file (edge/scheduler/scheduler.go).
use agent_portainer.Prelude.{
  ◌≤◌, ◌≡◌, false, List, [], ◌∷◌, ◌++◌, arith, nat_beq, Text, codes, nat_eq, text_eq, by_test, All,
  All-append, itoa, itoa-All, split, Lacks, split-join,
}
use agent_portainer.Agent.{Schedule}
use agent_portainer.Edge.Scheduler.{Env, cron_line, cron_file_content, script_name, header}
use agent_portainer.Edge.Scheduler.Flush.{lines_of, is_accepted}

Lacks-append : (s t : Text) → Lacks b'\n' s → Lacks b'\n' t → Lacks b'\n' (s ++ t)
Lacks-append s t = All-append (λ c. nat_beq b'\n' c ≡ false) s t

digits-Lacks : (t : Text) → All (λ c. b'0' ≤ c) t → Lacks b'\n' t
digits-Lacks [] h = tt
digits-Lacks (c ∷ t) (h, hs) = (ground arith, digits-Lacks t hs)

abbrev command : Schedule → Text
command s = codes "/opt/portainer/scripts/" ++ script_name s

command-Lacks : (s : Schedule) → Lacks b'\n' (command s)
unfolding script_name
command-Lacks s =
    Lacks-append (codes "/opt/portainer/scripts/schedule_") (itoa s.id) (ground arith)
      (digits-Lacks (itoa s.id) (itoa-All s.id))

cron_line-Lacks : (s : Schedule) → Lacks b'\n' s.cron_expression → Lacks b'\n' (cron_line s)
unfolding cron_line
cron_line-Lacks s h =
    let log = command s ++ codes ".log 2>&1" in
    let output = Lacks-append (command s) (codes ".log 2>&1") (command-Lacks s) (ground arith) in
    let redirection = Lacks-append (codes " > ") log (ground arith) output in
    let run = Lacks-append (command s) (codes " > " ++ log) (command-Lacks s) redirection in
    Lacks-append s.cron_expression (codes " root " ++ (command s ++ (codes " > " ++ log))) h
      (Lacks-append (codes " root ") (command s ++ (codes " > " ++ log)) (ground arith) run)

lines_of-Lacks :
    (env : Env) (ss : List Schedule)
    → All (λ s. Lacks b'\n' s.cron_expression) ss
    → All (Lacks b'\n') (lines_of env ss)
lines_of-Lacks env [] h = tt
lines_of-Lacks env (s ∷ ss) (h, hs) =
    by_test (All (Lacks b'\n')) (is_accepted env s)
      (λ _. (cron_line-Lacks s h, lines_of-Lacks env ss hs)) (λ _. lines_of-Lacks env ss hs)

-- Where the cron expressions hold no line break, the lines of the content are the header, one line
-- for each accepted schedule, in order, and an empty last one.
pub split-cron_file_content :
    (env : Env) (ss : List Schedule)
    → All (λ s. Lacks b'\n' s.cron_expression) ss
    → split b'\n' (cron_file_content (lines_of env ss))
      ≡ header ++ (lines_of env ss ++ codes "" ∷ [])
unfolding cron_file_content
split-cron_file_content env ss h = split-join b'\n' _ _ (
    All-append (Lacks b'\n') header (lines_of env ss ++ codes "" ∷ []) (ground arith) (
      All-append (Lacks b'\n') (lines_of env ss) (codes "" ∷ []) (lines_of-Lacks env ss h)
        (tt, tt)))
