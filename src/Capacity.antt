-- ===== src/Capacity.antt =====
-- The capacity of the backends: internal/simulation/state.go, backend_availability.go and
-- diskUsage of query.go. Sums of int64 values are unbounded.
pub mod Index
pub mod Pruning
use hacker_sprint2_sim.Common.{
  ℕ, String, Bool, true, false, not, ◌&&◌, ◌||◌, Option, none, some, List, [], ◌∷◌, ◌+◌,
}
use hacker_sprint2_sim.Common.Tests.{same_bool, ltb, ◌==◌, same, if◌then◌else◌}
use hacker_sprint2_sim.Common.Int.{ℤ, pos, ◌+ℤ◌, ◌-ℤ◌, ◌*ℤ◌, quot, ltz, lez, eqz}
use hacker_sprint2_sim.Common.Lists.{all, any, length}
use hacker_sprint2_sim.Common.Map.{Map, lookup, insert, values, total, entries_where}
use hacker_sprint2_sim.Common.Text.{is_empty, before}
use hacker_sprint2_sim.Common.Sort.{sort}
use hacker_sprint2_sim.Model.Types.{
  Time, ServerId, PageType, is_active, is_in_progress, server_role_backend, attack_scale_or_expiry,
  firewall_deny,
}
use hacker_sprint2_sim.Platform.{Platform}
use hacker_sprint2_sim.Firewall.{evaluate_firewall, attack_client_profile}
use hacker_sprint2_sim.State.{State}
use hacker_sprint2_sim.Events.Resources.{BackendAvailabilityChanged}
use hacker_sprint2_sim.State.Records.{PageConfigState}
use hacker_sprint2_sim.State.Infrastructure.{ServerState, DatabaseState}
use hacker_sprint2_sim.State.Traffic.{
  CapacityAllocationState, AttackState, PageRequestState, VisitorState,
}

-- m[k], with Go's zero value for a missing key.
unfoldable pub count_at : String → Map ℤ → ℤ
count_at k m = elim (lookup k m) [ none ↦ pos 0 | some v ↦ v ]

-- m[k] += v and m[k] -= v
unfoldable pub add_at : String → ℤ → Map ℤ → Map ℤ
add_at k v m = insert k (count_at k m +ℤ v) m

unfoldable pub sub_at : String → ℤ → Map ℤ → Map ℤ
sub_at k v m = insert k (count_at k m -ℤ v) m

-- databaseOnServer
unfoldable pub hosted_in : List DatabaseState → ServerId → Option DatabaseState
hosted_in [] id = none
hosted_in (d ∷ ds) id = if same d.server_id id then some d else hosted_in ds id

unfoldable pub database_on_server : State → ServerId → Option DatabaseState
database_on_server s id = hosted_in (values s.databases) id

unfoldable pub used_bytes : DatabaseState → ℤ
used_bytes d = d.data_bytes +ℤ d.logs_bytes

pub record DiskUsageView : Type 0 where
  pub server_id : ServerId
  pub total_bytes : ℤ
  pub used_bytes : ℤ
  pub free_bytes : ℤ
  pub system_bytes : ℤ
  pub database_bytes : ℤ
  pub logs_bytes : ℤ
  pub cleanable_bytes : ℤ

abbrev server_bytes : (ServerState → ℤ) → Option ServerState → ℤ
server_bytes f none = pos 0
server_bytes f (some v) = f v

abbrev database_bytes : (DatabaseState → ℤ) → Option DatabaseState → ℤ
database_bytes f none = pos 0
database_bytes f (some d) = f d

unfoldable pub disk_usage : State → ServerId → DiskUsageView
disk_usage s id =
    let server = lookup id s.servers in
    let database = database_on_server s id in
    let size = server_bytes (λ v. v.disk_bytes) server in
    let system = server_bytes (λ v. v.system_bytes) server in
    let data_bytes = database_bytes (λ d. d.data_bytes) database in
    let logs =
      server_bytes (λ v. v.logs_bytes) server +ℤ database_bytes (λ d. d.logs_bytes) database in
    let used = system +ℤ data_bytes +ℤ logs in
    record {
      server_id = id;
      total_bytes = size;
      used_bytes = used;
      free_bytes = if ltz (size -ℤ used) (pos 0) then pos 0 else size -ℤ used;
      system_bytes = system;
      database_bytes = data_bytes;
      logs_bytes = logs;
      cleanable_bytes = logs;
    }

-- server.Role == "" || server.Role == ServerRoleBackend
unfoldable pub serves_pages : ServerState → Bool
serves_pages v = is_empty v.role || same v.role server_role_backend

unfoldable pub server_disk_full : State → ServerState → Bool
server_disk_full s v = ltz (pos 0) v.disk_bytes && eqz (disk_usage s v.id).free_bytes (pos 0)

unfoldable pub active_backend : ServerState → Bool
active_backend v = is_active v.status && serves_pages v

unfoldable pub all_active_backends_disk_full : State → Bool
all_active_backends_disk_full s =
    any active_backend (values s.servers)
    && all (λ v. not (active_backend v) || server_disk_full s v) (values s.servers)

-- time.Minute, in nanoseconds
abbrev pub minute : ℕ
minute = 60_000_000_000

-- The servers among which an attack is spread.
unfoldable pub count_servers : State → List ServerState → ℕ
count_servers s [] = 0
count_servers s (v ∷ vs) =
    let rest = count_servers s vs in
    if active_backend v && not (server_disk_full s v) then rest + 1 else rest

unfoldable pub hold_of : Option PageConfigState → ℤ
hold_of none = pos 0
hold_of (some page) = page.hold_duration

-- Whether the allocation holds capacity of the server after `at`.
unfoldable pub live_load : ServerId → Time → CapacityAllocationState → ℤ
live_load id at a = if same a.server_id id && ltb at a.releases_at then a.load_units else pos 0

module _ (env : Platform) where
  unfoldable pub attack_denied : State → AttackState → Time → Bool
  attack_denied s attack at = elim (attack_client_profile env attack) [
    | none ↦ false
    | some profile ↦ same (evaluate_firewall env s profile at).action firewall_deny
  ]

  -- One attack's load while its requests are held.
  unfoldable pub attack_load : State → PageType → Time → AttackState → ℤ
  attack_load s page at attack =
      if not (same attack.target_page page)
        || not (same attack.resolution attack_scale_or_expiry)
        || attack_denied s attack at
      then pos 0
      else quot (attack.requests_per_minute *ℤ hold_of (lookup page s.pages) +ℤ pos minute -ℤ pos 1)
          minute
        *ℤ attack.load_units_per_request

  unfoldable pub ddos_load_per_active_server : State → PageType → Time → ℤ
  ddos_load_per_active_server s page at =
      let active = count_servers s (values s.servers) in
      if active == 0
      then pos 0
      else quot (total (attack_load s page at) s.active_attacks +ℤ pos active -ℤ pos 1) active

  unfoldable pub used_by : State → ServerId → Time → ℤ
  used_by s id at =
      if s.capacity_indexed_at == at
      then count_at id s.used_capacity_by_server
      else total (live_load id at) s.capacity

  unfoldable pub server_available_capacity : State → ServerId → PageType → Time → ℤ
  server_available_capacity s id page at = elim (lookup id s.servers) [
    | none ↦ pos 0
    | some server ↦
        if not (active_backend server) || server_disk_full s server
        then pos 0
        else server.capacity_units -ℤ used_by s id at -ℤ ddos_load_per_active_server s page at
  ]

  unfoldable pub page_fits : State → PageType → ℤ → Time → List ServerState → Bool
  page_fits s page required at [] = false
  page_fits s page required at (v ∷ vs) =
      (active_backend v && lez required (server_available_capacity s v.id page at))
      || page_fits s page required at vs

  unfoldable pub unavailable_among : State → Time → Map PageConfigState → List PageType
  unavailable_among s at [] = []
  unavailable_among s at ((page, config) ∷ pages) =
      let rest = unavailable_among s at pages in
      if page_fits s page config.load_units at (values s.servers) then rest else page ∷ rest

  -- backendUnavailablePages: filtering before sorting gives the same list.
  unfoldable pub backend_unavailable_pages : State → Time → List PageType
  backend_unavailable_pages s at = sort before (unavailable_among s at s.pages)

  same_pages : List PageType → List PageType → Bool
  same_pages [] [] = true
  same_pages (x ∷ xs) (y ∷ ys) = same x y && same_pages xs ys
  same_pages _ _ = false

  -- validBackendAvailabilityEvent
  unfoldable pub valid_backend_availability_event : State → BackendAvailabilityChanged → Bool
  unfolding same_pages
  valid_backend_availability_event s e =
      let pages = backend_unavailable_pages s e.changed_at in
      same_bool e.available (length pages == 0)
      && same_pages e.unavailable_pages pages
      && same_bool e.available s.backend_unavailable

-- serverHasLoad
unfoldable pub server_has_load : State → ServerId → Time → Bool
server_has_load s id at =
    if s.capacity_indexed_at == at
    then ltz (pos 0) (count_at id s.used_capacity_by_server)
    else any (λ a. same a.server_id id && ltb at a.releases_at) (values s.capacity)

-- The second half of the loop of pruneExpiredCapacity: the index gives back each expired load.
unfoldable pub release_expired : Time → Map CapacityAllocationState → Map ℤ → Map ℤ
release_expired at [] used = used
release_expired at ((id, a) ∷ m) used =
    release_expired at m
      (if ltb at a.releases_at then used else sub_at a.server_id a.load_units used)

-- A call for a time before the index's own changes nothing.
unfoldable pub prune_expired_capacity : State → Time → State
prune_expired_capacity s at =
    let stale = ltb at s.capacity_indexed_at in
    record s {
      capacity = if stale then s.capacity else entries_where (λ a. ltb at a.releases_at) s.capacity;
      used_capacity_by_server =
          if stale
          then s.used_capacity_by_server
          else release_expired at s.capacity s.used_capacity_by_server;
      capacity_indexed_at = if stale then s.capacity_indexed_at else at;
    }

-- The requests that pruneDerivedState keeps: those in progress, and those that hold capacity.
unfoldable pub live_requests :
    Map CapacityAllocationState → Map PageRequestState → Map PageRequestState
live_requests capacity [] = []
live_requests capacity ((id, r) ∷ m) =
    let rest = live_requests capacity m in
    let kept : Bool = elim (lookup id capacity) [
      | none ↦ is_in_progress r.status
      | some _ ↦ true
    ] in
    if kept then (id, r) ∷ rest else rest

unfoldable pub live_visitors : Time → Map VisitorState → Map VisitorState
live_visitors at = entries_where (λ v. v.completed_at == 0 || ltb at v.completed_at)

unfoldable pub prune_derived_state : State → Time → State
prune_derived_state s at =
    let pruned = prune_expired_capacity s at in
    record pruned {
      requests = live_requests pruned.capacity pruned.requests;
      visitors = live_visitors at pruned.visitors;
    }
