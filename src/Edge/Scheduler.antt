-- ===== src/Edge/Scheduler.antt =====
-- The cron manager of an Edge agent (edge/scheduler/scheduler.go): which schedules it manages, their
-- scripts and the cron file on the disk of the host.
mod Flush
mod Lines
mod Changes
pub mod Logs
mod Tests
use agent_portainer.Prelude.{
  ℕ, zero, suc, ◌+◌, ◌-◌, ◌*◌, ◌/◌, ◌%◌, ◌≤◌, ◌<◌, ◌≡◌, refl, sym, ap, ◌∙◌, ◌≢◌, ◌↔◌, ◌⊎◌, inl, inr,
  Bool, true, false, not, ◌&&◌, ◌||◌, Option, none, some, List, [], ◌∷◌, ◌++◌, map, arith, ltb, leb,
  if◌then◌else◌, nat_beq, nat_beq_iff, Text, codes, text_beq, text_beq_iff, Equality, ◌==◌, nat_eq,
  text_eq, Bool-cases, by_test, Option-cases, length, length-append, All, All-append, lookup,
  insert, erase, has_key, lookup-insert, lookup-erase, has_key-insert, has_key-erase,
  has_key-lookup, beq_refl, itoa, itoa-All, has_prefix, strip_prefix, contains, split_by, split,
  drop_empty, fields_by, join, Lacks, split-join, join-split, split_by-skip, split_by-cut,
  split_by-nil, split_by-whole, split_by-append, by_test, Result, ok, err, Method, >>-keeps,
  >>-eq-ok, ◌>>=◌, ◌>>◌, return, lift, get, modify, Result-cases,
}
use agent_portainer.Agent.{Schedule, host_root, schedule_script_directory}
use agent_portainer.Base64.{decode_string}

abbrev pub cron_directory : Text
cron_directory = codes "/etc/cron.d"

abbrev pub cron_file : Text
cron_file = codes "portainer_agent"

abbrev pub cron_job_user : Text
cron_job_user = codes "root"

pub record CronManager : Type 0 where
  pub cron_file_exists : Bool
  pub managed_schedules : List Schedule

-- The manager, and the files of the host by their paths.
pub record World : Type 0 where
  pub manager : CronManager
  pub disk : List (Text × Text)

-- What `filesystem.WriteFile` returns for a folder, a name and a content, what a write that fails
-- leaves on the disk, and what `filesystem.RemoveFile` returns; a file that cannot be removed stays.
pub record Env : Type 0 where
  pub write_file : Text → Text → Text → Result (Unit {0})
  pub torn : Text → List (Text × Text) → List (Text × Text)
  pub remove_file : Text → Result (Unit {0})

abbrev pub new_cron_manager : CronManager
new_cron_manager = record { cron_file_exists = false; managed_schedules = [] }

-- The path of a file that `WriteFile` writes; the folders here need no cleaning.
abbrev pub path_of : Text → Text → Text
path_of folder name = folder ++ (codes "/" ++ name)

pub after_write : Result (Unit {0}) → Env → Text → Text → List (Text × Text) → List (Text × Text)
after_write (ok _) env path content d = insert path content d
after_write (err _) env path content d = env.torn path d

-- The disk after a call of `WriteFile`.
pub written : Env → Text → Text → Text → List (Text × Text) → List (Text × Text)
unfolding after_write
written env folder name content d =
    after_write (env.write_file folder name content) env (path_of folder name) content d

abbrev pub host_script_directory : Text
host_script_directory = host_root ++ schedule_script_directory

abbrev pub host_cron_directory : Text
host_cron_directory = host_root ++ cron_directory

pub script_name : Schedule → Text
script_name s = codes "schedule_" ++ itoa s.id

-- The line of the cron file for a schedule.
pub cron_line : Schedule → Text
unfolding script_name
cron_line s =
    let command = schedule_script_directory ++ (codes "/" ++ script_name s) in
    s.cron_expression
    ++ (codes " "
        ++ (cron_job_user
            ++ (codes " " ++ (command ++ (codes " > " ++ (command ++ codes ".log 2>&1"))))))

-- The end of `createCronEntry`, once the script is decoded.
pub write_script :
    Env → Schedule → Result Text → List (Text × Text) → Result Text × List (Text × Text)
unfolding written script_name cron_line
write_script env s (err x) d = (err x, d)
write_script env s (ok script) d =
    let t = written env host_script_directory (script_name s) script d in
    elim (env.write_file host_script_directory (script_name s) script) [
      | err x ↦ (err x, t)
      | ok _ ↦ (ok (cron_line s), t)
    ]

-- `createCronEntry`.
pub create_cron_entry : Env → Schedule → List (Text × Text) → Result Text × List (Text × Text)
unfolding write_script
create_cron_entry env s d = write_script env s (decode_string s.script) d

pub add_entry : Result Text → List Text → List Text
add_entry (err _) lines = lines
add_entry (ok line) lines = line ∷ lines

-- The loop of `flushEntries`: an entry that cannot be created is left out.
pub cron_entries : Env → List Schedule → List (Text × Text) → List Text × List (Text × Text)
unfolding create_cron_entry add_entry
cron_entries env [] d = ([], d)
cron_entries env (s ∷ ss) d =
    let (entry, d1) = create_cron_entry env s d in
    let (lines, d2) = cron_entries env ss d1 in (add_entry entry lines, d2)

abbrev pub header : List Text
header =
    codes
      "## This file is managed by the Portainer agent. DO NOT EDIT MANUALLY ALL YOUR CHANGES WILL BE OVERWRITTEN."
    ∷ codes "SHELL=/bin/sh"
    ∷ codes "PATH=/usr/local/sbin:/usr/local/bin:/sbin:/bin:/usr/sbin:/usr/bin"
    ∷ codes ""
    ∷ []

pub cron_file_content : List Text → Text
cron_file_content lines = join (codes "\n") (header ++ (lines ++ codes "" ∷ []))

-- The end of `flushEntries`.
pub write_cron_file : Env → Text → World → Result (Unit {0}) × World
unfolding written
write_cron_file env content w =
    let d = written env host_cron_directory cron_file content w.disk in
    elim (env.write_file host_cron_directory cron_file content) [
      | err x ↦ (err x, record w { disk = d })
      | ok _ ↦ (ok tt, record { manager = record w.manager { cron_file_exists = true }; disk = d })
    ]

-- `flushEntries`.
pub flush_entries : Env → World → Result (Unit {0}) × World
unfolding cron_entries cron_file_content write_cron_file
flush_entries env w =
    let (lines, d) = cron_entries env w.manager.managed_schedules w.disk in
    write_cron_file env (cron_file_content lines) (record w { disk = d })

-- Whether a managed schedule has the id and another version.
pub has_other_version : Schedule → List Schedule → Bool
has_other_version s [] = false
has_other_version s (m ∷ ms) =
    (s.id == m.id && not (s.version == m.version)) || has_other_version s ms

pub update_required : List Schedule → List Schedule → Bool
unfolding has_other_version
update_required [] managed = false
update_required (s ∷ ss) managed = has_other_version s managed || update_required ss managed

abbrev pub manage : List Schedule → World → World
manage ss w = record w { manager = record w.manager { managed_schedules = ss } }

pub remove_cron_file : Env → World → Result (Unit {0}) × World
remove_cron_file env w =
    let path = path_of host_cron_directory cron_file in
    let t = record w { manager = record w.manager { cron_file_exists = false } } in
    elim (env.remove_file path) [
      | err x ↦ (err x, t)
      | ok _ ↦ (ok tt, record t { disk = erase path w.disk })
    ]

-- `Schedule` for a list that is not empty.
pub schedule_some : Env → List Schedule → World → Result (Unit {0}) × World
unfolding update_required flush_entries
schedule_some env ss w =
    if not (nat_beq (length w.manager.managed_schedules) (length ss))
    then flush_entries env (manage ss w)
    else if update_required ss w.manager.managed_schedules
    then flush_entries env (manage ss w)
    else (ok tt, w)

-- `Schedule`.
pub schedule : Env → List Schedule → World → Result (Unit {0}) × World
unfolding schedule_some remove_cron_file
schedule env [] w =
    if w.manager.cron_file_exists then remove_cron_file env (manage [] w) else (ok tt, manage [] w)
schedule env (s ∷ ss) w = schedule_some env (s ∷ ss) w
