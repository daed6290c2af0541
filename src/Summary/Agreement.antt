-- ===== src/Summary/Agreement.antt =====
-- The run list shows what the aggregate has: `RunSummaryProjection.Apply` of
-- internal/simulation/run_summary.go against `State.Apply` of state.go.
use mathlib.Core.Path.{subst}
use hacker_sprint2_sim.Common.{ℕ, ◌≡◌, refl, sym, Bool, true, false, not, List, [], ◌∷◌, String}
use hacker_sprint2_sim.Common.Tests.{if◌then◌else◌, same}
use hacker_sprint2_sim.Common.Result.{ok}
use hacker_sprint2_sim.Model.Types.{Time, SiteLifecycleStatus}
use hacker_sprint2_sim.Platform.{Platform}
use hacker_sprint2_sim.Events.{
  Event, Fact, fact, world_schedule_created, time_advanced, site_started, site_stop_started,
  database_availability_changed, backend_availability_changed, firewall_availability_changed,
}
use hacker_sprint2_sim.State.{State}
use hacker_sprint2_sim.State.Infrastructure.{DatabaseState}
use hacker_sprint2_sim.Common.Map.{Map}
use hacker_sprint2_sim.Apply.Time.{apply_time_advanced}
use hacker_sprint2_sim.Apply.Shared.{record_command}
use hacker_sprint2_sim.Capacity.{prune_derived_state, prune_expired_capacity}
use hacker_sprint2_sim.Events.World.{TimeAdvanced}
use hacker_sprint2_sim.Outcome.{Outcome, done}
use hacker_sprint2_sim.Outcome.Keeps.{Ends, keeps_rules}
use hacker_sprint2_sim.Apply.{apply, apply_fact}
use hacker_sprint2_sim.Apply.Shared.{begin_outage, end_outage, site_boundary}
use hacker_sprint2_sim.Stream.{StoredEvent, new_state}
use hacker_sprint2_sim.Summary.{
  SummaryDatabase, RunSummaryProjection, reduce, apply_summary, running_changed,
  availability_changed, set_ready, drop_load, prune_capacity,
}
use hacker_sprint2_sim.Events.{WorldScheduleCreated}
use hacker_sprint2_sim.Apply.Run.{apply_world_schedule_created}
use hacker_sprint2_sim.Stream.{rehydrate}
use hacker_sprint2_sim.Stream.Replay.{Runs, rest, step, rehydrate-Runs}
use hacker_sprint2_sim.Summary.{new_run_summary_projection}
use hacker_sprint2_sim.Summary.Shows.{
  Shows, Anything, anything, SameSite, begin_outage-status, begin_outage-database_id,
  end_outage-status, end_outage-database_id, sites-Shows, availability_changed-SameSite,
  boundary-Shows, with_backend, with_firewall, record_error-Shows, with_currency, with_server_cost,
  with_backup_cost, with_time,
}

ruleset leaf_rules = (
  keeps_rules, anything, with_currency, with_server_cost, with_backup_cost, with_time,
  record_error-Shows,
)

time_advanced-Shows :
    (env : Platform) (s : State) (p : RunSummaryProjection) (e : TimeAdvanced)
    → Shows p s
    → Ends Anything (Shows (reduce p (time_advanced e))) (apply_time_advanced env s e)
unfolding apply_time_advanced record_command prune_derived_state prune_expired_capacity reduce
    prune_capacity
time_advanced-Shows env s p e h = search leaf_rules depth 20

-- The site follows its own database in both.
database-Shows :
    (p : RunSummaryProjection) (s : State) (a : Bool) (at : Time) (id : String)
    → Shows p s
    → Shows
        (if same p.site.database_id id then running_changed a at p else p)
        (record s { site = if same s.site.database_id id then site_boundary a at s else s.site })
database-Shows p s a at id h =
    subst
      (λ x.
        Shows (if same x id then running_changed a at p else p)
          (record s { site = if same s.site.database_id id then site_boundary a at s else s.site }))
      (sym h.same_site_database) (pick (same s.site.database_id id))
  where
    pick :
        (b : Bool)
        → Shows
            (if b then running_changed a at p else p)
            (record s { site = if b then site_boundary a at s else s.site })
    pick true = boundary-Shows p s a at h
    pick false = h

started-Shows :
    (p : RunSummaryProjection) (s : State) (recovered : Bool) (at : Time)
    → Shows p s
    → Shows
        (availability_changed true at
          (record p { site = record (p.site) { status = SiteLifecycleStatus.running } }))
        (record s {
          site =
              end_outage recovered at
                (record (s.site) { status = SiteLifecycleStatus.running; operation_id = "" });
        })
unfolding SameSite
started-Shows p s recovered at h =
    sites-Shows (record p { site = record (p.site) { status = SiteLifecycleStatus.running } })
      (availability_changed true at
        (record p { site = record (p.site) { status = SiteLifecycleStatus.running } }))
      (record s {
        site = record (s.site) { status = SiteLifecycleStatus.running; operation_id = "" };
      })
      (end_outage recovered at
        (record (s.site) { status = SiteLifecycleStatus.running; operation_id = "" }))
      (record {
        same_seed = h.same_seed;
        same_status = h.same_status;
        same_clock = h.same_clock;
        same_costs = h.same_costs;
        same_site_status = refl;
        same_site_database = h.same_site_database;
        same_backend = h.same_backend;
        same_firewall = h.same_firewall;
      })
      (unfold availability_changed in refl)
      (availability_changed-SameSite true at
        (record p { site = record (p.site) { status = SiteLifecycleStatus.running } }))
      (end_outage-status recovered at _, end_outage-database_id recovered at _)

stopping-Shows :
    (p : RunSummaryProjection) (s : State) (at : Time) (operation : String)
    → Shows p s
    → Shows
        (availability_changed false at
          (record p { site = record (p.site) { status = SiteLifecycleStatus.stopping } }))
        (record s {
          site =
              begin_outage true at (record (s.site) {
                status = SiteLifecycleStatus.stopping;
                operation_id = operation;
              });
        })
unfolding SameSite
stopping-Shows p s at operation h =
    sites-Shows (record p { site = record (p.site) { status = SiteLifecycleStatus.stopping } })
      (availability_changed false at
        (record p { site = record (p.site) { status = SiteLifecycleStatus.stopping } }))
      (record s {
        site = record (s.site) { status = SiteLifecycleStatus.stopping; operation_id = operation };
      })
      (begin_outage true at
        (record (s.site) { status = SiteLifecycleStatus.stopping; operation_id = operation }))
      (record {
        same_seed = h.same_seed;
        same_status = h.same_status;
        same_clock = h.same_clock;
        same_costs = h.same_costs;
        same_site_status = refl;
        same_site_database = h.same_site_database;
        same_backend = h.same_backend;
        same_firewall = h.same_firewall;
      })
      (unfold availability_changed in refl)
      (availability_changed-SameSite false at
        (record p { site = record (p.site) { status = SiteLifecycleStatus.stopping } }))
      (begin_outage-status true at _, begin_outage-database_id true at _)

set_databases-Shows :
    (p : RunSummaryProjection) (s : State) (m : Map SummaryDatabase) (n : Map DatabaseState)
    → Shows p s
    → Shows (record p { databases = m }) (record s { databases = n })
set_databases-Shows p s m n h = record {
  same_seed = h.same_seed;
  same_status = h.same_status;
  same_clock = h.same_clock;
  same_costs = h.same_costs;
  same_site_status = h.same_site_status;
  same_site_database = h.same_site_database;
  same_backend = h.same_backend;
  same_firewall = h.same_firewall;
}

-- Every fact that the aggregate accepts is shown by the projection as the aggregate has it.
reduce-Shows :
    (env : Platform) (s : State) (p : RunSummaryProjection) (e : Fact)
    → Shows p s
    → Ends Anything (Shows (reduce p e)) (apply_fact env s e)
unfolding apply_fact reduce prune_capacity drop_load set_ready
reduce-Shows env s p (time_advanced e) h = time_advanced-Shows env s p e h
reduce-Shows env s p (backend_availability_changed e) h =
    let leaf =
      boundary-Shows (record p { backend_unavailable = not e.available })
        (record s { backend_unavailable = not e.available }) e.available e.changed_at
        (with_backend p s (not e.available) h) in
    search (keeps_rules, anything, leaf) depth 20
reduce-Shows env s p (firewall_availability_changed e) h =
    let leaf =
      boundary-Shows (record p { firewall_unavailable = not e.available })
        (record s { firewall_unavailable = not e.available }) e.available e.changed_at
        (with_firewall p s (not e.available) h) in
    search (keeps_rules, anything, leaf) depth 20
reduce-Shows env s p (database_availability_changed e) h =
    let leaf = λ (m : Map SummaryDatabase) (n : Map DatabaseState).
      database-Shows (record p { databases = m }) (record s { databases = n }) e.available
        e.changed_at e.database_id (set_databases-Shows p s m n h) in
    search (keeps_rules, anything, leaf) depth 20
reduce-Shows env s p (site_started e) h =
    let leaf = λ (recovered : Bool). started-Shows p s recovered e.started_at h in
    search (keeps_rules, anything, leaf) depth 20
reduce-Shows env s p (site_stop_started e) h =
    let leaf = stopping-Shows p s e.started_at e.operation_id h in
    search (keeps_rules, anything, leaf) depth 20
reduce-Shows env s p _ h = search leaf_rules depth 20

-- The projection of a stream, as a journal makes it: each record in its turn.
abbrev pub summarise : RunSummaryProjection → List StoredEvent → RunSummaryProjection
summarise p [] = p
summarise p (r ∷ rs) = summarise (apply_summary p r) rs

schedule-Shows :
    (s : State) (p : RunSummaryProjection) (e : WorldScheduleCreated)
    → Shows p s
    → Ends Anything (Shows p) (apply_world_schedule_created s e)
unfolding apply_world_schedule_created
schedule-Shows s p e h = search leaf_rules depth 20

done-LeftAs : {D : State → Type 0} (o : Outcome) {t : State} → o ≡ done t → Ends Anything D o → D t
done-LeftAs {D} o h k = (subst (Ends Anything D) h k).ended

reversion-Shows :
    (p : RunSummaryProjection) (s : State) (n : ℕ) → Shows p s → Shows (record p { version = n }) s
reversion-Shows p s n h = record {
  same_seed = h.same_seed;
  same_status = h.same_status;
  same_clock = h.same_clock;
  same_costs = h.same_costs;
  same_site_status = h.same_site_status;
  same_site_database = h.same_site_database;
  same_backend = h.same_backend;
  same_firewall = h.same_firewall;
}

restate-Shows :
    (p : RunSummaryProjection) (s : State) (n : ℕ) → Shows p s → Shows p (record s { version = n })
restate-Shows p s n h = record {
  same_seed = h.same_seed;
  same_status = h.same_status;
  same_clock = h.same_clock;
  same_costs = h.same_costs;
  same_site_status = h.same_site_status;
  same_site_database = h.same_site_database;
  same_backend = h.same_backend;
  same_firewall = h.same_firewall;
}

new-Shows : Shows new_run_summary_projection new_state
new-Shows = record {
  same_seed = refl;
  same_status = refl;
  same_clock = refl;
  same_costs = refl;
  same_site_status = refl;
  same_site_database = refl;
  same_backend = refl;
  same_firewall = refl;
}

pruned-Shows :
    (p : RunSummaryProjection) (s : State)
    → Shows p s
    → Shows p (prune_derived_state s s.clock.current_time)
unfolding prune_derived_state prune_expired_capacity
pruned-Shows p s h = record {
  same_seed = h.same_seed;
  same_status = h.same_status;
  same_clock = h.same_clock;
  same_costs = h.same_costs;
  same_site_status = h.same_site_status;
  same_site_database = h.same_site_database;
  same_backend = h.same_backend;
  same_firewall = h.same_firewall;
}

module _ (env : Platform) where
  apply_summary-Shows :
      (s t : State) (p : RunSummaryProjection) (version : ℕ) (e : Event)
      → Shows p s
      → apply env s e ≡ done t
      → Shows (apply_summary p (record { version = version; event = e })) t
  unfolding apply apply_summary
  apply_summary-Shows s t p version (fact e) h a =
      done-LeftAs (apply_fact env s e) a
        (reduce-Shows env s (record p { version = version }) e (reversion-Shows p s version h))
  apply_summary-Shows s t p version (world_schedule_created e) h a =
      done-LeftAs (apply_world_schedule_created s e) a
        (schedule-Shows s (record p { version = version }) e (reversion-Shows p s version h))

  Runs-Shows :
      {s u : State} {rs : List StoredEvent} (p : RunSummaryProjection)
      → Runs env s rs u
      → Shows p s
      → Shows (summarise p rs) u
  Runs-Shows p rest h = h
  Runs-Shows p (step {s} t {r} v a more) h = Runs-Shows (apply_summary p r) more (
      restate-Shows (apply_summary p r) t r.version
        (apply_summary-Shows s t p r.version r.event h a))

  -- Where a stream replays, the projection of its records, which trusts every record, has the same seed,
  -- run status, clock and costs, the same state and database of the site, and the same availability of
  -- the backend and the firewall as the aggregate that checked every record.
  pub rehydrate-Shows :
      (rs : List StoredEvent) (u : State)
      → rehydrate env rs ≡ ok u
      → Shows (summarise new_run_summary_projection rs) u
  rehydrate-Shows rs u h =
      let (t, p, e) = (rehydrate-Runs env rs u).0 h in
      let shown = Runs-Shows new_run_summary_projection p new-Shows in
      subst (Shows (summarise new_run_summary_projection rs)) e (pruned-Shows _ t shown)
