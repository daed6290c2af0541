-- ===== src/Journal/Cache.antt =====
-- The runs that a journal store keeps in memory: `acquireStream` and `releaseStream` of
-- internal/persistence/journal/store.go. The lock makes each one step. The identity of a stream, Go's
-- pointer, is the access that made it.
pub mod Eviction
use hacker_sprint2_sim.Common.{
  ℕ, zero, suc, ◌+◌, ◌-◌, ◌^◌, String, Bool, true, false, ◌&&◌, Option, none, some, List, [], ◌∷◌,
}
use hacker_sprint2_sim.Common.Tests.{ltb, ◌==◌, if◌then◌else◌}
use hacker_sprint2_sim.Common.Lists.{length}
use hacker_sprint2_sim.Common.Map.{Map, lookup, insert, erase}
use hacker_sprint2_sim.Common.Text.{is_empty}
use hacker_sprint2_sim.Common.Result.{Result, ok, err}
use hacker_sprint2_sim.Journal.{JournalError, run_id_required}
use hacker_sprint2_sim.Journal.Stream.{RunStream, empty_stream}

-- What `runStream` has for the cache, and the stream.
pub record CachedRun : Type 0 where
  pub identity : ℕ
  pub initialized : Bool
  pub users : ℕ
  pub last_access : ℕ
  pub stream : RunStream

-- Store
pub record JournalCache : Type 0 where
  pub max_runs : ℕ
  pub access : ℕ
  pub runs : Map CachedRun

abbrev used : ℕ → CachedRun → CachedRun
used access run = record run { last_access = access; users = run.users + 1 }

-- acquireStream: the cache, and the identity of the stream.
unfoldable pub acquire_stream : String → JournalCache → Result JournalError (JournalCache × ℕ)
acquire_stream id c =
    let access = c.access + 1 in
    if is_empty id then err run_id_required else elim (lookup id c.runs) [
      | some run ↦
          ok (record c { access = access; runs = insert id (used access run) c.runs }, run.identity)
      | none ↦
          let run : CachedRun = record {
            identity = access;
            initialized = false;
            users = 0;
            last_access = 0;
            stream = empty_stream;
          } in
          ok (record c { access = access; runs = insert id (used access run) c.runs }, access)
    ]

-- The loop of `releaseStream` over the map: the stream without users whose last access is the oldest.
unfoldable pub oldest_idle : Map CachedRun → Option (String × ℕ)
oldest_idle [] = none
oldest_idle ((id, run) ∷ m) =
    let rest = oldest_idle m in
    if run.users == 0
    then elim rest [
      | none ↦ some (id, run.last_access)
      | some (other, access) ↦
          if ltb access run.last_access then some (other, access) else some (id, run.last_access)
    ]
    else rest

-- The loop that evicts: each turn drops one stream, so the number of streams is fuel enough.
unfoldable pub evict_idle : ℕ → ℕ → Map CachedRun → Map CachedRun
evict_idle zero max_runs m = m
evict_idle (suc fuel) max_runs m = elim (ltb max_runs (length m)) [
  | false ↦ m
  | true ↦ elim (oldest_idle m) [
    | none ↦ m
    | some (id, access) ↦ evict_idle fuel max_runs (erase id m)
  ]
]

-- if s.runs[runID] == stream && stream.users > 0 { stream.users-- }
unfoldable pub leave_stream : String → ℕ → Map CachedRun → Map CachedRun
leave_stream id identity runs = elim (lookup id runs) [
  | none ↦ runs
  | some run ↦
      if (run.identity == identity) && ltb 0 run.users
      then insert id (record run { users = run.users - 1 }) runs
      else runs
]

-- releaseStream
unfoldable pub release_stream : String → ℕ → JournalCache → JournalCache
release_stream id identity c =
    let left = leave_stream id identity c.runs in
    record c { runs = evict_idle (length left) c.max_runs left }
