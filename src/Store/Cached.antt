-- ===== src/Store/Cached.antt =====
-- `CachedEventStore` of internal/simulation/cached_store.go. The critical sections of an operation
-- are functions of their own, since the mutex is released while the wrapped store works.
use hacker_sprint2_sim.Common.{
  ℕ, zero, suc, ◌+◌, String, true, false, Option, none, some, List, [], ◌∷◌, ◌++◌,
}
use hacker_sprint2_sim.Common.Tests.{ltb, ◌==◌, if◌then◌else◌}
use hacker_sprint2_sim.Common.Lists.{length}
use hacker_sprint2_sim.Common.Map.{Map, lookup, insert, erase}
use hacker_sprint2_sim.Common.Result.{Result, ok, err}
use hacker_sprint2_sim.Events.{Event}
use hacker_sprint2_sim.Stream.{StoredEvent}
use hacker_sprint2_sim.Store.{StoreError, EventStore}

pub record CachedStream : Type 0 where
  pub records : List StoredEvent
  pub last_access : ℕ

-- The cache, apart from the store that it wraps.
pub record Cache : Type 0 where
  pub max_runs : ℕ
  pub clock : ℕ
  pub epochs : Map ℕ
  pub streams : Map CachedStream

-- NewCachedEventStore
unfoldable pub new_cache : ℕ → Cache
new_cache max_runs = record {
  max_runs = if ltb max_runs 1 then 1 else max_runs;
  clock = 0;
  epochs = [];
  streams = [];
}

-- s.epochs[runID]
unfoldable pub epoch_of : String → Cache → ℕ
epoch_of run c = elim (lookup run c.epochs) [ none ↦ 0 | some n ↦ n ]

-- The loop of evictLocked over the map: the stream whose last access is the oldest.
unfoldable pub oldest : Map CachedStream → Option (String × ℕ)
oldest [] = none
oldest ((run, stream) ∷ m) = elim (oldest m) [
  | none ↦ some (run, stream.last_access)
  | some (other, access) ↦
      if ltb access stream.last_access then some (other, access) else some (run, stream.last_access)
]

-- evictLocked: each turn drops one stream, so the number of streams is fuel enough.
unfoldable pub evict_from : ℕ → ℕ → Map CachedStream → Map CachedStream
evict_from zero max_runs m = m
evict_from (suc fuel) max_runs m = elim (ltb max_runs (length m)) [
  | false ↦ m
  | true ↦ elim (oldest m) [
    | none ↦ m
    | some (run, access) ↦ evict_from fuel max_runs (erase run m)
  ]
]

unfoldable pub evict : Cache → Cache
evict c = record c { streams = evict_from (length c.streams) c.max_runs c.streams }

-- The first critical section of Load, where the stream is cached.
unfoldable pub touch : String → CachedStream → Cache → Cache
touch run stream c = record c {
  clock = c.clock + 1;
  streams = insert run (record stream { last_access = c.clock + 1 }) c.streams;
}

-- The second one: the records are kept unless the run has changed since the epoch was read.
unfoldable pub finish_load : String → ℕ → List StoredEvent → Cache → Cache
finish_load run epoch records c =
    if epoch_of run c == epoch
    then evict (record c {
      clock = c.clock + 1;
      streams = insert run (record { records = records; last_access = c.clock + 1 }) c.streams;
    })
    else c

-- The critical section of Append, once the wrapped store has taken the events.
unfoldable pub finish_append : String → ℕ → List StoredEvent → Cache → Cache
finish_append run expected appended c =
    let bumped = record c { epochs = insert run (epoch_of run c + 1) c.epochs } in
    let dropped = record bumped { streams = erase run bumped.streams } in
    elim (lookup run c.streams) [
      | none ↦ dropped
      | some stream ↦
          if length stream.records == expected
          then record bumped {
            clock = bumped.clock + 1;
            streams =
                insert run
                  (record { records = stream.records ++ appended; last_access = bumped.clock + 1 })
                  bumped.streams;
          }
          else dropped
    ]

-- Invalidate
unfoldable pub invalidate : String → Cache → Cache
invalidate run c = record c {
  epochs = insert run (epoch_of run c + 1) c.epochs;
  streams = erase run c.streams;
}

module _ (delegate : EventStore) where
  -- The wrapped store and the cache before it.
  abbrev pub CachedEventStore : Type 0
  CachedEventStore = delegate.Store × Cache

  -- Load, with no other call in between.
  unfoldable pub cached_load :
      CachedEventStore → String → Result StoreError (CachedEventStore × List StoredEvent)
  cached_load (store, c) run = elim (lookup run c.streams) [
    | some stream ↦ ok ((store, touch run stream c), stream.records)
    | none ↦ elim (delegate.load store run) [
      | err e ↦ err e
      | ok records ↦ ok ((store, finish_load run (epoch_of run c) records c), records)
    ]
  ]

  -- Append, with no other call in between.
  unfoldable pub cached_append :
      CachedEventStore
      → String
      → ℕ
      → List Event
      → Result StoreError (CachedEventStore × List StoredEvent)
  cached_append (store, c) run expected new_events =
      elim (delegate.append store run expected new_events) [
        | err e ↦ err e
        | ok (after, appended) ↦ ok ((after, finish_append run expected appended c), appended)
      ]
