-- ===== src/Edge/Scheduler/Tests.antt =====
-- The cron manager at concrete inputs (edge/scheduler/).
use agent_portainer.Prelude.{
  ℕ, ◌≡◌, refl, true, false, List, [], ◌∷◌, ◌++◌, arith, Text, codes, nat_eq, text_eq, itoa, split,
  ok, err,
}
use agent_portainer.Base64.{decode_string}
use agent_portainer.Agent.{Schedule}
use agent_portainer.Edge.Scheduler.{
  World, Env, schedule, update_required, has_other_version, schedule_some, flush_entries, cron_line,
  cron_file_content, write_cron_file, script_name, new_cron_manager, header,
}
use agent_portainer.Edge.Scheduler.Flush.{lines_of}
use agent_portainer.Edge.Scheduler.Lines.{split-cron_file_content}
use agent_portainer.Edge.Scheduler.Changes.{schedule-failed}

abbrev schedule_of : ℕ → ℕ → Text → Schedule
schedule_of i v script = record {
  id = i;
  cron_expression = codes "0 1 * * *";
  script = script;
  version = v;
  collect_logs = false;
}

-- Two schedules, the second with a script that is not base64.
abbrev jobs : List Schedule
jobs = schedule_of 1 1 (codes "ZWNobw") ∷ schedule_of 2 1 (codes "?") ∷ []

-- The first schedule replaced by another one.
abbrev other_jobs : List Schedule
other_jobs = schedule_of 3 1 (codes "ZWNobw") ∷ schedule_of 2 1 (codes "?") ∷ []

-- A disk that takes every write, and one that takes none.
abbrev env : Env
env = record {
  write_file = λ folder name content. ok tt;
  torn = λ path d. d;
  remove_file = λ path. ok tt;
}

abbrev full : Env
full = record {
  write_file = λ folder name content. err (codes "no space left on device");
  torn = λ path d. d;
  remove_file = λ path. ok tt;
}

abbrev world : World
world = record { manager = new_cron_manager; disk = [] }

abbrev scheduled : World
scheduled = record {
  manager = record { cron_file_exists = true; managed_schedules = jobs };
  disk =
      (
        codes "/host/etc/cron.d/portainer_agent",
        cron_file_content (cron_line (schedule_of 1 1 (codes "ZWNobw")) ∷ []),
      )
      ∷ [];
}

lines_test :
    lines_of env jobs
    ≡ codes
        "0 1 * * * root /opt/portainer/scripts/schedule_1 > /opt/portainer/scripts/schedule_1.log 2>&1"
      ∷ []
unfolding cron_line script_name itoa decode_string
lines_test = refl

split-cron_file_content_example :
    split b'\n' (cron_file_content (lines_of env jobs))
    ≡ header ++ (lines_of env jobs ++ codes "" ∷ [])
split-cron_file_content_example = split-cron_file_content env jobs (ground arith)

-- The schedule 3 is not run, and the schedule 1 still is.
other_jobs_test : schedule env other_jobs scheduled ≡ (ok tt, scheduled)
unfolding schedule schedule_some update_required has_other_version
other_jobs_test = refl

failed : (schedule full jobs world).0 ≡ err (codes "no space left on device")
unfolding schedule schedule_some flush_entries write_cron_file
failed = refl

schedule-failed_example :
    schedule full jobs (schedule full jobs world).1 ≡ (ok tt, (schedule full jobs world).1)
schedule-failed_example =
    schedule-failed full (schedule_of 1 1 (codes "ZWNobw")) (schedule_of 2 1 (codes "?") ∷ []) world
      (codes "no space left on device") (ground arith) failed
