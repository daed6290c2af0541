-- ===== src/Summary/View.antt =====
-- What `View` of internal/simulation/run_summary.go makes of the projection, and `serverCostPerHour`
-- of query.go.
use hacker_sprint2_sim.Common.{◌+◌, ◌-◌, ◌*◌, String, Bool, true, false, not, ◌&&◌, ◌||◌}
use hacker_sprint2_sim.Common.Tests.{ltb, leb, ◌==◌, same, if◌then◌else◌}
use hacker_sprint2_sim.Common.Int.{ℤ, pos, ltz, lez, ◌+ℤ◌, quot}
use hacker_sprint2_sim.Common.Lists.{length}
use hacker_sprint2_sim.Common.Map.{entries_where, total}
use hacker_sprint2_sim.Model.Types.{is_active, is_draining, server_role_database, site_is_running}
use hacker_sprint2_sim.State.{RunStatus}
use hacker_sprint2_sim.Summary.{RunSummaryProjection, SummaryServer, dependencies_available}

-- serverCostPerHour
unfoldable pub server_cost_per_hour : SummaryServer → ℤ
server_cost_per_hour server =
    if ltz (pos 0) server.cost_per_hour_minor
    then server.cost_per_hour_minor
    else if lez server.cost_per_month_minor (pos 0)
    then pos 0
    else quot (server.cost_per_month_minor +ℤ pos (30 * 24 - 1)) (30 * 24)

-- The loops and the branches of `View` that choose the status of the site.
unfoldable pub is_serving : SummaryServer → Bool
is_serving server = is_active server.status && not (same server.role server_role_database)

unfoldable pub recent_error : RunSummaryProjection → Bool
recent_error p =
    not (p.last_error_at == 0)
    && leb p.clock.current_time (p.last_error_at + 300_000_000_000)
    && leb p.last_error_at p.clock.current_time

unfoldable pub site_view_status : RunSummaryProjection → String
site_view_status p =
    let serving = entries_where is_serving p.servers in
    let capacity = total (λ s. s.capacity_units) serving in
    let used =
      total (λ a. a.load_units)
        (entries_where (λ a. ltb p.clock.current_time a.releases_at) p.capacity) in
    if (elim (p.status) [ RunStatus.completed ↦ true | _ ↦ false ])
      || not (site_is_running p.site.status)
      || not (dependencies_available p)
    then "unavailable"
    else if recent_error p
        || not (length p.attacks == 0)
        || length serving == 0
        || (ltz (pos 0) capacity && lez capacity used)
    then "degraded"
    else "healthy"

-- CurrentCostPerHourMinor of `View`.
unfoldable pub current_cost_per_hour : RunSummaryProjection → ℤ
current_cost_per_hour p =
    total server_cost_per_hour
      (entries_where (λ s. is_active s.status || is_draining s.status) p.servers)
    +ℤ p.backup_rate
