-- ===== src/Summary/Shows.antt =====
-- What the run list shows of the aggregate, and the steps that keep it: internal/simulation/run_summary.go
-- and state.go.
use hacker_sprint2_sim.Common.{
  ◌≡◌, refl, sym, ap, ◌∙◌, Bool, true, false, not, ◌&&◌, String, arith, inl, inr,
}
use hacker_sprint2_sim.Common.Tests.{if◌then◌else◌, Bool-cases, ltb, ◌==◌}
use hacker_sprint2_sim.Common.Int.{ℤ, pos, lez, ◌+ℤ◌}
use hacker_sprint2_sim.Model.Types.{Time, site_is_running}
use hacker_sprint2_sim.State.{State}
use hacker_sprint2_sim.State.Records.{ClockState, CostsState}
use hacker_sprint2_sim.State.Infrastructure.{SiteState}
use hacker_sprint2_sim.Outcome.{left}
use hacker_sprint2_sim.Apply.Shared.{begin_outage, end_outage, site_boundary}
use hacker_sprint2_sim.Summary.{
  RunSummaryProjection, record_error, running_changed, availability_changed,
}

-- The run, its clock, its costs and the lifecycle of its site as the aggregate has them.
pub record Shows (p : RunSummaryProjection) (s : State) : Type 0 where
  pub same_seed : p.seed ≡ s.seed
  pub same_status : p.status ≡ s.status
  pub same_clock : p.clock ≡ s.clock
  pub same_costs : p.costs ≡ s.costs
  pub same_site_status : p.site.status ≡ s.site.status
  pub same_site_database : p.site.database_id ≡ s.site.database_id
  pub same_backend : p.backend_unavailable ≡ s.backend_unavailable
  pub same_firewall : p.firewall_unavailable ≡ s.firewall_unavailable

-- Nothing is asked of a call that fails.
abbrev pub Anything : State → Type 0
Anything t = Unit {0}

pub anything : Unit {0}
anything = tt

pub begin_outage-status :
    (b : Bool) (at : Time) (site : SiteState) → (begin_outage b at site).status ≡ site.status
unfolding begin_outage
begin_outage-status b at site = elim (Bool-cases (b && (site.unavailable_since == 0))) [
  | inl e ↦ ground (arith)
  | inr e ↦ ground (arith)
]

pub begin_outage-database_id :
    (b : Bool) (at : Time) (site : SiteState)
    → (begin_outage b at site).database_id ≡ site.database_id
unfolding begin_outage
begin_outage-database_id b at site = elim (Bool-cases (b && (site.unavailable_since == 0))) [
  | inl e ↦ ground (arith)
  | inr e ↦ ground (arith)
]

pub end_outage-status :
    (b : Bool) (at : Time) (site : SiteState) → (end_outage b at site).status ≡ site.status
unfolding end_outage
end_outage-status b at site = elim (Bool-cases (b && not (site.unavailable_since == 0))) [
  | inl e ↦ ground (arith)
  | inr e ↦ ground (arith)
]

pub end_outage-database_id :
    (b : Bool) (at : Time) (site : SiteState)
    → (end_outage b at site).database_id ≡ site.database_id
unfolding end_outage
end_outage-database_id b at site = elim (Bool-cases (b && not (site.unavailable_since == 0))) [
  | inl e ↦ ground (arith)
  | inr e ↦ ground (arith)
]

-- An outage begins or ends without a change of what the overview shows of the site.
unfoldable pub SameSite : SiteState → SiteState → Type 0
SameSite a b = (a.status ≡ b.status) × (a.database_id ≡ b.database_id)

pub outage-SameSite :
    (lost recovered : Bool) (at : Time) (site : SiteState)
    → SameSite (end_outage recovered at (begin_outage lost at site)) site
unfolding SameSite
outage-SameSite lost recovered at site = (
  end_outage-status recovered at (begin_outage lost at site) ∙ begin_outage-status lost at site,
  end_outage-database_id recovered at (begin_outage lost at site)
      ∙ begin_outage-database_id lost at site,
)

if-SameSite :
    (b : Bool) (x site : SiteState) → SameSite x site → SameSite (if b then x else site) site
unfolding SameSite
if-SameSite true x site h = h
if-SameSite false x site h = (refl, refl)

pub site_boundary-SameSite :
    (a : Bool) (at : Time) (s : State) → SameSite (site_boundary a at s) s.site
unfolding site_boundary
site_boundary-SameSite a at s =
    if-SameSite (site_is_running s.site.status) _ s.site (outage-SameSite (not a) _ at s.site)

-- The two sites may each differ by an outage.
pub sites-Shows :
    (p q : RunSummaryProjection) (s : State) (site : SiteState)
    → Shows p s
    → q ≡ record p { site = q.site }
    → SameSite q.site p.site
    → SameSite site s.site
    → Shows q (record s { site = site })
unfolding SameSite
sites-Shows p q s site h shape left right = record {
  same_seed = ap (λ x. x.seed) shape ∙ h.same_seed;
  same_status = ap (λ x. x.status) shape ∙ h.same_status;
  same_clock = ap (λ x. x.clock) shape ∙ h.same_clock;
  same_costs = ap (λ x. x.costs) shape ∙ h.same_costs;
  same_site_status = left.0 ∙ h.same_site_status ∙ sym right.0;
  same_site_database = left.1 ∙ h.same_site_database ∙ sym right.1;
  same_backend = ap (λ x. x.backend_unavailable) shape ∙ h.same_backend;
  same_firewall = ap (λ x. x.firewall_unavailable) shape ∙ h.same_firewall;
}

pub availability_changed-SameSite :
    (a : Bool) (at : Time) (p : RunSummaryProjection)
    → SameSite ((availability_changed a at p).site) p.site
unfolding availability_changed
availability_changed-SameSite a at p = outage-SameSite (not a) _ at p.site

pub same-SameSite : (site : SiteState) → SameSite site site
unfolding SameSite
same-SameSite site = (refl, refl)

-- Only the site changes with the availability.
pub Moves : RunSummaryProjection → RunSummaryProjection → Type 0
Moves p q = (q ≡ record p { site = q.site }) × SameSite q.site p.site

pub running_changed-Moves :
    (a : Bool) (at : Time) (p : RunSummaryProjection) → Moves p (running_changed a at p)
unfolding Moves running_changed
running_changed-Moves a at p = pick (site_is_running p.site.status)
  where
    pick : (b : Bool) → Moves p (if b then availability_changed a at p else p)
    pick true = (unfold availability_changed in refl, availability_changed-SameSite a at p)
    pick false = (refl, same-SameSite p.site)

pub boundary-Shows :
    (p : RunSummaryProjection) (s : State) (a : Bool) (at : Time)
    → Shows p s
    → Shows (running_changed a at p) (record s { site = site_boundary a at s })
unfolding Moves
boundary-Shows p s a at h =
    let moved = running_changed-Moves a at p in
    sites-Shows p (running_changed a at p) s (site_boundary a at s) h moved.0 moved.1
      (site_boundary-SameSite a at s)

pub with_backend :
    (p : RunSummaryProjection) (s : State) (b : Bool)
    → Shows p s
    → Shows (record p { backend_unavailable = b }) (record s { backend_unavailable = b })
with_backend p s b h = record {
  same_seed = h.same_seed;
  same_status = h.same_status;
  same_clock = h.same_clock;
  same_costs = h.same_costs;
  same_site_status = h.same_site_status;
  same_site_database = h.same_site_database;
  same_backend = refl;
  same_firewall = h.same_firewall;
}

pub with_firewall :
    (p : RunSummaryProjection) (s : State) (b : Bool)
    → Shows p s
    → Shows (record p { firewall_unavailable = b }) (record s { firewall_unavailable = b })
with_firewall p s b h = record {
  same_seed = h.same_seed;
  same_status = h.same_status;
  same_clock = h.same_clock;
  same_costs = h.same_costs;
  same_site_status = h.same_site_status;
  same_site_database = h.same_site_database;
  same_backend = h.same_backend;
  same_firewall = refl;
}

pub record_error-Shows :
    (p : RunSummaryProjection) (s : State) (status : ℤ) (at : Time)
    → Shows p s
    → Shows (record_error status at p) s
unfolding record_error
record_error-Shows p s status at h = pick (lez (pos 400) status && ltb p.last_error_at at)
  where
    pick : (b : Bool) → Shows (if b then record p { last_error_at = at } else p) s
    pick true = record {
      same_seed = h.same_seed;
      same_status = h.same_status;
      same_clock = h.same_clock;
      same_costs = h.same_costs;
      same_site_status = h.same_site_status;
      same_site_database = h.same_site_database;
      same_backend = h.same_backend;
      same_firewall = h.same_firewall;
    }
    pick false = h

pub with_currency :
    {a b : CostsState} (c : String)
    → a ≡ b
    → ◌≡◌ {A = CostsState} (record a { currency = c }) (record b { currency = c })
with_currency c h = ap (λ (k : CostsState). record k { currency = c }) h

pub with_server_cost :
    {a b : CostsState} (n : ℤ)
    → a ≡ b
    → ◌≡◌ {A = CostsState}
        (record a { server_cost_minor = a.server_cost_minor +ℤ n })
        (record b { server_cost_minor = b.server_cost_minor +ℤ n })
with_server_cost n h =
    ap (λ (k : CostsState). record k { server_cost_minor = k.server_cost_minor +ℤ n }) h

pub with_backup_cost :
    {a b : CostsState} (n : ℤ)
    → a ≡ b
    → ◌≡◌ {A = CostsState}
        (record a { backup_storage_cost_minor = a.backup_storage_cost_minor +ℤ n })
        (record b { backup_storage_cost_minor = b.backup_storage_cost_minor +ℤ n })
with_backup_cost n h =
    ap
      (λ (k : CostsState). record k {
        backup_storage_cost_minor = k.backup_storage_cost_minor +ℤ n;
      })
      h

pub with_time :
    {a b : ClockState} (t : Time)
    → a ≡ b
    → ◌≡◌ {A = ClockState} (record a { current_time = t }) (record b { current_time = t })
with_time t h = ap (λ (k : ClockState). record k { current_time = t }) h
