-- ===== src/Tests/Streams.antt =====
-- Replay, refusals and the stores at small streams.
use hacker_sprint2_sim.Common.{◌≡◌, refl, ◌↔◌, true, false, none, some, List, [], ◌∷◌, ◌++◌, arith}
use hacker_sprint2_sim.Common.Tests.{true_ne_false, same_iff, same, if◌then◌else◌}
use hacker_sprint2_sim.Common.Int.{pos}
use hacker_sprint2_sim.Common.Lists.{length}
use hacker_sprint2_sim.Common.Map.{lookup, insert, has, entries_where}
use hacker_sprint2_sim.Common.Result.{ok}
use hacker_sprint2_sim.Events.{Event, fact, run_ended, world_created}
use hacker_sprint2_sim.Events.Traffic.{PageRequestStarted}
use hacker_sprint2_sim.State.{State, RunStatus}
use hacker_sprint2_sim.Outcome.{Error, left, done, fail, refuse, ensure_running, invalid_event}
use hacker_sprint2_sim.Apply.{apply, apply_fact}
use hacker_sprint2_sim.Apply.Run.{is_not_created}
use hacker_sprint2_sim.Apply.Shared.{valid_fact_time}
use hacker_sprint2_sim.Apply.Traffic.{
  apply_page_request_started, valid_optional_profile, load_matches,
}
use hacker_sprint2_sim.Capacity.{
  prune_derived_state, prune_expired_capacity, release_expired, live_requests, live_visitors,
}
use hacker_sprint2_sim.Stream.{StoredEvent, new_state, replay, rehydrate, when_done}
use hacker_sprint2_sim.Stream.Replay.{Runs, rest, rehydrate-Runs, rehydrate-IsTimely}
use hacker_sprint2_sim.Invariant.Clock.{IsTimely}
use hacker_sprint2_sim.Invariant.Refusal.{apply-refused}
use hacker_sprint2_sim.Invariant.Identifiers.{apply_page_request_started-once, apply-Grows, Grows}
use hacker_sprint2_sim.Store.Memory.{
  MemoryEventStore, memory_append, memory_load, stored_from, memory_store, memory_append-load,
  memory_append-load_ne, IsNumbered, Numbered, next, empty, stream_of, memory_append-IsNumbered,
}
use hacker_sprint2_sim.Store.Cached.{
  Cache, CachedEventStore, touch, finish_append, cached_load, cached_append,
}
use hacker_sprint2_sim.Store.Refinement.{
  IsCoherent, cached_load-IsCoherent, cached_append-IsCoherent,
}
use hacker_sprint2_sim.Store.Eviction.{IsBounded, cached_load-IsBounded, cached_append-IsBounded}
use hacker_sprint2_sim.Tests.{test_platform, a_run}

abbrev nameless_end : Event
nameless_end = fact (run_ended (record { completed_at = 500; reason = "" }))

nameless_end-refused : apply test_platform a_run nameless_end ≡ fail invalid_event a_run
unfolding apply apply_fact ensure_running refuse same
nameless_end-refused = refl

apply-refused_example : a_run ≡ a_run
apply-refused_example =
    apply-refused test_platform a_run a_run nameless_end invalid_event refl nameless_end-refused

abbrev start : PageRequestStarted
start = record {
  request_id = "new";
  source = "visitor";
  visitor_id = "vis";
  page = "product_list";
  product_id = "";
  source_ip = "";
  user_agent = "";
  region_code = "";
  load_units = pos 2;
  started_at = 500;
}

abbrev started : State
started = left (apply_page_request_started test_platform a_run start)

start-done : apply_page_request_started test_platform a_run start ≡ done started
unfolding apply_page_request_started ensure_running refuse same valid_fact_time
    valid_optional_profile load_matches lookup has prune_expired_capacity
start-done = refl

apply_page_request_started-once_example :
    (x : Error) × (v : State) × (apply_page_request_started test_platform started start ≡ fail x v)
apply_page_request_started-once_example =
    apply_page_request_started-once test_platform a_run started started start start [] start-done
      rest refl

apply-Grows_example :
    Grows a_run.seen_requests (left (apply test_platform a_run nameless_end)).seen_requests
    × Grows a_run.seen_visitors (left (apply test_platform a_run nameless_end)).seen_visitors
apply-Grows_example = apply-Grows test_platform a_run nameless_end

abbrev creation : Event
creation =
    fact (world_created (record { run_id = "run"; seed = pos 7; started_at = 100; ends_at = 1000 }))

abbrev pub stream : List StoredEvent
stream = (record { version = 1; event = creation }) ∷ []

abbrev pub rehydrated : State
rehydrated = record (new_state) {
  run_id = "run";
  seed = pos 7;
  version = 1;
  status = RunStatus.running;
  clock = record { started_at = 100; current_time = 100; ends_at = 1000 };
  capacity_indexed_at = 100;
}

pub stream-rehydrated : rehydrate test_platform stream ≡ ok rehydrated
unfolding rehydrate replay when_done apply apply_fact refuse same is_not_created prune_derived_state
    prune_expired_capacity entries_where release_expired live_requests live_visitors
stream-rehydrated = refl

rehydrate-Runs_example : (rehydrate test_platform stream ≡ ok rehydrated) ↔ (
    (t : State) × Runs test_platform new_state stream t
    × (prune_derived_state t t.clock.current_time ≡ rehydrated))
rehydrate-Runs_example = rehydrate-Runs test_platform stream rehydrated

rehydrate-IsTimely_example : IsTimely rehydrated × (rehydrated.version ≡ length stream)
rehydrate-IsTimely_example = rehydrate-IsTimely test_platform stream rehydrated stream-rehydrated

abbrev stored : MemoryEventStore
stored = record { streams = ("a", stream) ∷ [] }

abbrev longer : MemoryEventStore
longer = record {
  streams = ("a", stream ++ ((record { version = 2; event = nameless_end }) ∷ [])) ∷ [];
}

abbrev second : List StoredEvent
second = (record { version = 2; event = nameless_end }) ∷ []

appended : memory_append stored "a" 1 (nameless_end ∷ []) ≡ ok (longer, second)
unfolding memory_append lookup insert same stored_from
appended = refl

loaded : memory_load stored "a" ≡ ok stream
unfolding memory_load lookup same
loaded = refl

memory_append-load_example : (1 ≡ length stream) × (memory_load longer "a" ≡ ok (stream ++ second))
memory_append-load_example =
    memory_append-load stored longer "a" 1 (nameless_end ∷ []) second stream appended loaded

memory_append-load_ne_example : memory_load longer "b" ≡ memory_load stored "b"
unfolding same
memory_append-load_ne_example =
    memory_append-load_ne stored longer "a" "b" 1 (nameless_end ∷ []) second appended
      (λ h. true_ne_false ((same_iff "a" "b").1 h) refl)

stored-IsNumbered : IsNumbered stored
unfolding stream_of lookup
stored-IsNumbered run =
    elim (same "a" run)
      as (λ b. Numbered 0 (elim (if b then some stream else none) [ none ↦ [] | some rs ↦ rs ])) [
        | true ↦ next (omega arith) empty
        | false ↦ empty
      ]

memory_append-IsNumbered_example : IsNumbered longer
memory_append-IsNumbered_example =
    memory_append-IsNumbered stored longer "a" 1 (nameless_end ∷ []) second stored-IsNumbered
      appended

abbrev cache : Cache
cache = record {
  max_runs = 1;
  clock = 5;
  epochs = [];
  streams = ("a", record { records = stream; last_access = 5 }) ∷ [];
}

abbrev cached : CachedEventStore memory_store
cached = (stored, cache)

cached-IsCoherent : IsCoherent memory_store cached
unfolding lookup memory_load stream_of
cached-IsCoherent run found h = ground (arith)

abbrev touched : CachedEventStore memory_store
touched = (stored, touch "a" (record { records = stream; last_access = 5 }) cache)

cached-loads : cached_load memory_store cached "a" ≡ ok (touched, stream)
unfolding cached_load lookup same
cached-loads = refl

cached_load-IsCoherent_example : (stored ≡ stored) × IsCoherent memory_store touched
cached_load-IsCoherent_example =
    cached_load-IsCoherent memory_store cached touched "a" stream cached-IsCoherent cached-loads

cached_load-IsBounded_example : IsBounded touched.1
cached_load-IsBounded_example =
    cached_load-IsBounded memory_store cached touched "a" stream (omega arith) cached-loads

abbrev extended : CachedEventStore memory_store
extended = (longer, finish_append "a" 1 second cache)

cached-appends : cached_append memory_store cached "a" 1 (nameless_end ∷ []) ≡ ok (extended, second)
unfolding cached_append memory_append lookup insert same stored_from
cached-appends = refl

cached_append-IsCoherent_example :
    (memory_append stored "a" 1 (nameless_end ∷ []) ≡ ok (longer, second))
    × IsCoherent memory_store extended
cached_append-IsCoherent_example =
    cached_append-IsCoherent memory_store cached extended "a" 1 (nameless_end ∷ []) second
      cached-IsCoherent cached-appends

cached_append-IsBounded_example : IsBounded extended.1
cached_append-IsBounded_example =
    cached_append-IsBounded memory_store cached extended "a" 1 (nameless_end ∷ []) second
      (omega arith) cached-appends
