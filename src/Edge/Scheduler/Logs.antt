-- ===== src/Edge/Scheduler/Logs.antt =====
-- The collection of the logs of schedules (edge/scheduler/logs.go).
use agent_portainer.Prelude.{
  ℕ, ◌≡◌, refl, Bool, true, List, [], ◌∷◌, ◌++◌, map, if◌then◌else◌, Text, codes, nat_eq, text_eq,
  itoa, has_prefix, Result, ok, err,
}
use agent_portainer.Agent.{host_root, schedule_script_directory}

-- What looking for a log file, and reading it return.
pub record Source : Type 0 where
  pub file_exists : Text → Result Bool
  pub read_from_file : Text → Result Text

pub log_file_location : ℕ → Text
log_file_location job =
    host_root ++ (schedule_script_directory ++ (codes "/schedule_" ++ (itoa job ++ codes ".log")))

-- The content that is sent: "" for a file that is not there.
pub log_content : Source → ℕ → Result Text
unfolding log_file_location
log_content s job = elim (s.file_exists (log_file_location job)) [
  | err x ↦ err x
  | ok there ↦ if there then s.read_from_file (log_file_location job) else ok []
]

-- The request that is made with the content, if it could be read.
pub sent : ℕ → Result Text → List (ℕ × Text)
sent job (err x) = []
sent job (ok content) = (job, content) ∷ []

-- The loop over the jobs that were received: the logs that are sent, in order. That a log cannot be
-- read or sent is written to the agent's own log and ends that job only.
pub collect : Source → List ℕ → List (ℕ × Text)
unfolding log_content sent
collect s [] = []
collect s (job ∷ jobs) = sent job (log_content s job) ++ collect s jobs

-- `HandleReceivedLogsRequests`: what is put on the channel of jobs.
pub handle_received_logs_requests : List ℕ → List (List ℕ)
handle_received_logs_requests [] = []
handle_received_logs_requests (job ∷ jobs) = (job ∷ jobs) ∷ []

-- A log that cannot be read does not stop the others.
abbrev source : Source
source = record {
  file_exists = λ path. ok true;
  read_from_file = λ path.
      if has_prefix (codes "/host/opt/portainer/scripts/schedule_2") path
      then err (codes "denied")
      else ok path;
}

collect_test : map (λ s. s.0) (collect source (1 ∷ 2 ∷ 3 ∷ [])) ≡ 1 ∷ 3 ∷ []
unfolding collect sent log_content log_file_location itoa has_prefix
collect_test = refl
