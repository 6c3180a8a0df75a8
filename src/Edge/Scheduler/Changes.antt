-- ===== src/Edge/Scheduler/Changes.antt =====
-- Which changes of the schedules a call of `Schedule` sees (edge/scheduler/scheduler.go).
use agent_portainer.Prelude.{
  ◌≡◌, refl, sym, ap, inl, inr, false, not, List, [], ◌∷◌, arith, nat_beq, Text, nat_eq, text_eq,
  by_test, length, All, by_test, Result, ok, err, Result-cases,
}
use mathlib.Core.Path.{subst}
use agent_portainer.Agent.{Schedule}
use agent_portainer.Edge.Scheduler.{
  World, Env, schedule, flush_entries, cron_entries, cron_file_content, write_cron_file,
  update_required, schedule_some, has_other_version, manage, host_cron_directory, cron_file,
}

-- No schedule has the id of a managed one and another version.
abbrev pub HaveSameVersions : List Schedule → List Schedule → Type 0
HaveSameVersions ss managed = All (λ s. All (λ m. s.id ≡ m.id → s.version ≡ m.version) managed) ss

has_other_version-same :
    (s : Schedule) (ms : List Schedule)
    → All (λ m. s.id ≡ m.id → s.version ≡ m.version) ms
    → has_other_version s ms ≡ false
unfolding has_other_version
has_other_version-same s [] h = refl
has_other_version-same s (m ∷ ms) (h, hs) = ground (arith, has_other_version-same s ms hs)

update_required-HaveSameVersions :
    (ss ms : List Schedule) → HaveSameVersions ss ms → update_required ss ms ≡ false
unfolding update_required
update_required-HaveSameVersions [] ms h = refl
update_required-HaveSameVersions (s ∷ ss) ms (h, hs) =
    rw (has_other_version-same s ms h) (update_required-HaveSameVersions ss ms hs)

-- As many schedules as are managed, without a new version of one of them, are not looked at further:
-- the call succeeds and changes nothing, also where an id is new or an expression or a script differs.
schedule-HaveSameVersions :
    (env : Env) (s : Schedule) (ss : List Schedule) (w : World)
    → length w.manager.managed_schedules ≡ length (s ∷ ss)
    → HaveSameVersions (s ∷ ss) w.manager.managed_schedules
    → schedule env (s ∷ ss) w ≡ (ok tt, w)
unfolding schedule schedule_some
schedule-HaveSameVersions env s ss w same versions =
    by_test (λ r. r ≡ (ok tt, w))
      (not (nat_beq (length w.manager.managed_schedules) (length (s ∷ ss))))
      (λ e. ground (arith, e, same))
      (λ _.
        rw (update_required-HaveSameVersions (s ∷ ss) w.manager.managed_schedules versions) refl)

write_cron_file-managed :
    (env : Env) (content : Text) (w : World)
    → (write_cron_file env content w).1.manager.managed_schedules ≡ w.manager.managed_schedules
unfolding write_cron_file
write_cron_file-managed env content w =
    elim (Result-cases (env.write_file host_cron_directory cron_file content)) [
      | inl (_, e) ↦ rw (e, write_cron_file) refl
      | inr (x, e) ↦ rw (e, write_cron_file) refl
    ]

flush_entries-managed :
    (env : Env) (w : World)
    → (flush_entries env w).1.manager.managed_schedules ≡ w.manager.managed_schedules
unfolding flush_entries
flush_entries-managed env w =
    let (lines, d) = cron_entries env w.manager.managed_schedules w.disk in
    write_cron_file-managed env (cron_file_content lines) (record w { disk = d })

-- A call that fails has taken the schedules over all the same.
schedule_some-failed :
    (env : Env) (ss : List Schedule) (w : World) (x : Text)
    → (schedule_some env ss w).0 ≡ err x
    → (schedule_some env ss w).1.manager.managed_schedules ≡ ss
unfolding schedule_some
schedule_some-failed env ss w x =
    let Kept =
      λ (r : Result (Unit {0}) × World). r.0 ≡ err x → r.1.manager.managed_schedules ≡ ss in
    let flushed = flush_entries-managed env (manage ss w) in
    by_test Kept (not (nat_beq (length w.manager.managed_schedules) (length ss))) (λ _ h. flushed)
      (λ _.
        by_test Kept (update_required ss w.manager.managed_schedules) (λ _ h. flushed) (λ _ h. cc))

-- The error of a cron file that cannot be written is returned once: the same schedules, where those
-- with one id have one version, succeed at the next call, which writes nothing.
pub schedule-failed :
    (env : Env) (s : Schedule) (ss : List Schedule) (w : World) (x : Text)
    → HaveSameVersions (s ∷ ss) (s ∷ ss)
    → (schedule env (s ∷ ss) w).0 ≡ err x
    → schedule env (s ∷ ss) (schedule env (s ∷ ss) w).1 ≡ (ok tt, (schedule env (s ∷ ss) w).1)
unfolding schedule
schedule-failed env s ss w x versions failed =
    let t = (schedule_some env (s ∷ ss) w).1 in
    let taken : t.manager.managed_schedules ≡ s ∷ ss =
      schedule_some-failed env (s ∷ ss) w x failed in
    schedule-HaveSameVersions env s ss t (ap length taken)
      (subst (HaveSameVersions (s ∷ ss)) (sym taken) versions)
