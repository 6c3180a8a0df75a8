-- ===== src/Edge/Scheduler/Flush.antt =====
-- What a flush writes to the cron file, and that the file follows the managed schedules
-- (edge/scheduler/scheduler.go).
use agent_portainer.Prelude.{
  ◌≡◌, refl, sym, ap, ◌∙◌, ◌≢◌, ◌⊎◌, inl, inr, Bool, true, false, none, some, List, [], ◌∷◌,
  if◌then◌else◌, Text, nat_eq, text_eq, by_test, length, lookup, lookup-insert, beq_refl, by_test,
  Result, ok, err, Result-cases,
}
use agent_portainer.Base64.{decode_string}
use agent_portainer.Agent.{Schedule}
use agent_portainer.Edge.Scheduler.{
  World, Env, flush_entries, cron_entries, create_cron_entry, write_script, add_entry, cron_line,
  cron_file_content, write_cron_file, written, after_write, update_required, path_of,
  host_cron_directory, host_script_directory, cron_file, script_name,
}

abbrev pub writes : Result (Unit {0}) → Bool
writes (ok _) = true
writes (err _) = false

abbrev pub accepts_script : Env → Schedule → Result Text → Bool
accepts_script env s (err x) = false
accepts_script env s (ok script) =
    writes (env.write_file host_script_directory (script_name s) script)

-- A schedule has an entry if its script decodes and can be written.
abbrev pub is_accepted : Env → Schedule → Bool
is_accepted env s = accepts_script env s (decode_string s.script)

abbrev pub lines_of : Env → List Schedule → List Text
lines_of env [] = []
lines_of env (s ∷ ss) =
    let rest = lines_of env ss in if is_accepted env s then cron_line s ∷ rest else rest

add_entry-write_script :
    (env : Env) (s : Schedule) (r : Result Text) (d : List (Text × Text)) (lines : List Text)
    → add_entry (write_script env s r d).0 lines
      ≡ (if accepts_script env s r then cron_line s ∷ lines else lines)
unfolding add_entry write_script
add_entry-write_script env s (err x) d lines = refl
add_entry-write_script env s (ok t) d lines =
    elim (Result-cases (env.write_file host_script_directory (script_name s) t)) [
      | inl (_, e) ↦ rw (e, write_script) refl
      | inr (x, e) ↦ rw (e, write_script) refl
    ]

cron_entries-lines_of :
    (env : Env) (ss : List Schedule) (d : List (Text × Text))
    → (cron_entries env ss d).0 ≡ lines_of env ss
unfolding cron_entries create_cron_entry
cron_entries-lines_of env [] d = refl
cron_entries-lines_of env (s ∷ ss) d =
    ap (add_entry (create_cron_entry env s d).0)
      (cron_entries-lines_of env ss (create_cron_entry env s d).1)
    ∙ add_entry-write_script env s (decode_string s.script) d (lines_of env ss)

abbrev pub cron_path : Text
cron_path = path_of host_cron_directory cron_file

-- Without managed schedules there is no cron file, and with some it is there, with an entry for each one
-- that is accepted; the manager knows whether it is there.
abbrev pub IsSynced : Env → World → Type 0
IsSynced env w =
    ((w.manager.managed_schedules ≡ [])
      × (w.manager.cron_file_exists ≡ false)
      × (lookup cron_path w.disk ≡ none))
    ⊎ ((w.manager.managed_schedules ≢ [])
        × (w.manager.cron_file_exists ≡ true)
        × (lookup cron_path w.disk
            ≡ some (cron_file_content (lines_of env w.manager.managed_schedules))))

-- What a write of the cron file that succeeds leaves.
abbrev Flushed : Env → List Text → World → Result (Unit {0}) × World → Type 0
Flushed env lines w (r, t) =
    r ≡ ok tt
    → (t.manager.managed_schedules ≡ w.manager.managed_schedules)
      × (t.manager.cron_file_exists ≡ true)
      × (lookup cron_path t.disk ≡ some (cron_file_content lines))

write_cron_file-Flushed :
    (env : Env) (lines : List Text) (w : World)
    → Flushed env lines w (write_cron_file env (cron_file_content lines) w)
unfolding write_cron_file written after_write
write_cron_file-Flushed env lines w =
    elim (Result-cases (env.write_file host_cron_directory cron_file (cron_file_content lines))) [
      | inl (_, e) ↦
          rw (e, write_cron_file)
            (rw (e, written)
              (λ h. (
                refl,
                refl,
                lookup-insert cron_path cron_path (cron_file_content lines) w.disk
                    ∙ (rw (beq_refl cron_path) refl),
              )))
      | inr (x, e) ↦ rw (e, write_cron_file) (λ h. cc)
    ]

pub flush_entries-IsSynced :
    (env : Env) (w : World)
    → w.manager.managed_schedules ≢ []
    → (flush_entries env w).0 ≡ ok tt
    → IsSynced env (flush_entries env w).1
      × ((flush_entries env w).1.manager.managed_schedules ≡ w.manager.managed_schedules)
unfolding flush_entries
flush_entries-IsSynced env w ne h =
    let lines = (cron_entries env w.manager.managed_schedules w.disk).0 in
    let d = (cron_entries env w.manager.managed_schedules w.disk).1 in
    let (same, there, found) = write_cron_file-Flushed env lines (record w { disk = d }) h in
    let entries = cron_entries-lines_of env w.manager.managed_schedules w.disk in
    (
      inr (
        λ e. ne (sym same ∙ e),
        there,
        found ∙ ap (λ l. some (cron_file_content l)) (entries ∙ ap (lines_of env) (sym same)),
      ),
      same,
    )

-- A change is a list of another length, or a new version of a managed schedule.
abbrev pub IsUnchanged : List Schedule → List Schedule → Type 0
IsUnchanged ss managed = (length managed ≡ length ss) × (update_required ss managed ≡ false)

-- What a call that succeeds leaves.
abbrev pub Scheduled : Env → List Schedule → World → Result (Unit {0}) × World → Type 0
Scheduled env ss w (r, t) =
    r ≡ ok tt
    → IsSynced env t
      × ((t.manager.managed_schedules ≡ ss)
          ⊎ (IsUnchanged ss w.manager.managed_schedules × (t ≡ w)))
