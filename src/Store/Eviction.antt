-- ===== src/Store/Eviction.antt =====
-- The bound of the cache: `evictLocked` of internal/simulation/cached_store.go.
use hacker_sprint2_sim.Common.{
  ℕ, zero, suc, ◌+◌, ◌≤◌, ◌<◌, ◌≡◌, refl, String, none, some, ◌∷◌, [], arith, inl, inr, List, ◌++◌,
}
use hacker_sprint2_sim.Common.Tests.{ltb, same, same_refl, Bool-cases, Option-cases}
use hacker_sprint2_sim.Common.Lists.{length}
use hacker_sprint2_sim.Common.Map.{Map, lookup, insert, erase}
use hacker_sprint2_sim.Common.Result.{ok, Result-cases}
use hacker_sprint2_sim.Events.{Event}
use hacker_sprint2_sim.Stream.{StoredEvent}
use hacker_sprint2_sim.Store.{EventStore}
use hacker_sprint2_sim.Store.Cached.{
  CachedStream, Cache, CachedEventStore, oldest, evict_from, evict, epoch_of, touch, finish_load,
  finish_append, cached_load, cached_append,
}

erase_le : (k : String) (m : Map CachedStream) → length (erase k m) ≤ length m
unfolding erase
erase_le k [] = omega arith
erase_le k ((i, v) ∷ m) = ground (arith, erase_le k m)

-- The stream that is chosen is there, so to drop it makes the map shorter.
erase-oldest :
    (m : Map CachedStream) (k : String) (access : ℕ)
    → oldest m ≡ some (k, access)
    → length (erase k m) < length m
unfolding oldest erase
erase-oldest [] k access h = ground (arith)
erase-oldest ((i, v) ∷ m) k access h = elim (Option-cases (oldest m)) [
  | inl e ↦ ground (arith, same_refl i, erase_le k m)
  | inr ((j, b), e) ↦ elim (Bool-cases (ltb b v.last_access)) [
    | inl o ↦
        let le = erase_le k m in let lt = erase-oldest m k b (ground (arith)) in ground (arith)
    | inr o ↦ ground (arith, same_refl i, erase_le k m)
  ]
]

oldest-none : (m : Map CachedStream) → oldest m ≡ none → length m ≡ 0
unfolding oldest
oldest-none [] h = refl
oldest-none ((i, v) ∷ m) h = elim (Option-cases (oldest m)) [
  | inl e ↦ ground (arith)
  | inr ((j, b), e) ↦ ground (arith)
]

evict_from-length :
    (fuel max_runs : ℕ) (m : Map CachedStream)
    → length m ≤ fuel
    → length (evict_from fuel max_runs m) ≤ max_runs
unfolding evict_from
evict_from-length zero max_runs m h = omega arith
evict_from-length (suc fuel) max_runs m h = elim (Bool-cases (ltb max_runs (length m))) [
  | inr under ↦ ground (arith)
  | inl over ↦ elim (Option-cases (oldest m)) [
    | inl e ↦ ground (arith, oldest-none m e)
    | inr ((k, access), e) ↦
        let shorter = erase-oldest m k access e in
        ground (arith, evict_from-length fuel max_runs (erase k m) (omega arith))
  ]
]

-- After an eviction the cache holds at most max_runs streams.
pub evict-length : (c : Cache) → length (evict c).streams ≤ c.max_runs
unfolding evict
evict-length c = evict_from-length (length c.streams) c.max_runs c.streams (omega arith)

evict-max_runs : (c : Cache) → (evict c).max_runs ≡ c.max_runs
unfolding evict
evict-max_runs c = refl

abbrev pub IsBounded : Cache → Type 0
IsBounded c = length c.streams ≤ c.max_runs

length-insert_old :
    (k : String) (v w : CachedStream) (m : Map CachedStream)
    → lookup k m ≡ some w
    → length (insert k v m) ≡ length m
unfolding lookup insert
length-insert_old k v w [] h = ground (arith)
length-insert_old k v w ((i, x) ∷ m) h = elim (Bool-cases (same i k)) [
  | inl e ↦ ground (arith)
  | inr e ↦ ground (arith, length-insert_old k v w m)
]

finish_load-IsBounded :
    (run : String) (epoch : ℕ) (records : List StoredEvent) (c : Cache)
    → IsBounded c
    → IsBounded (finish_load run epoch records c)
unfolding finish_load
finish_load-IsBounded run epoch records c h =
    let grown : Cache = record c {
      clock = c.clock + 1;
      streams = insert run (record { records = records; last_access = c.clock + 1 }) c.streams;
    } in
    ground (arith, evict-length grown, evict-max_runs grown)

finish_append-IsBounded :
    (run : String) (expected : ℕ) (appended : List StoredEvent) (c : Cache)
    → IsBounded c
    → IsBounded (finish_append run expected appended c)
unfolding finish_append
finish_append-IsBounded run expected appended c h = elim (Option-cases (lookup run c.streams)) [
  | inl e ↦ ground (arith, erase_le run c.streams)
  | inr (stream, e) ↦
      let same_size =
        length-insert_old run
          (record { records = stream.records ++ appended; last_access = c.clock + 1 }) stream
          c.streams e in
      ground (arith, erase_le run c.streams)
]

module _ (delegate : EventStore) where
  -- A load leaves at most max_runs streams cached where there were no more.
  pub cached_load-IsBounded :
      (s t : CachedEventStore delegate) (run : String) (records : List StoredEvent)
      → IsBounded s.1
      → cached_load delegate s run ≡ ok (t, records)
      → IsBounded t.1
  unfolding cached_load touch
  cached_load-IsBounded s t run records h g = elim (Option-cases (lookup run s.1.streams)) [
    | inr (stream, e) ↦
        let same_size =
          length-insert_old run (record stream { last_access = s.1.clock + 1 }) stream s.1.streams
            e in
        ground (arith)
    | inl e ↦ elim (Result-cases (delegate.load s.0 run)) [
      | inl (x, l) ↦ ground (arith)
      | inr (rs, l) ↦ ground (arith, finish_load-IsBounded run (epoch_of run s.1) rs s.1 h)
    ]
  ]

  -- An append leaves at most max_runs streams cached where there were no more.
  pub cached_append-IsBounded :
      (s t : CachedEventStore delegate) (run : String) (expected : ℕ) (es : List Event)
      (appended : List StoredEvent)
      → IsBounded s.1
      → cached_append delegate s run expected es ≡ ok (t, appended)
      → IsBounded t.1
  unfolding cached_append
  cached_append-IsBounded s t run expected es appended h g =
      elim (Result-cases (delegate.append s.0 run expected es)) [
        | inl (x, a) ↦ ground (arith)
        | inr ((after, rs), a) ↦ ground (arith, finish_append-IsBounded run expected rs s.1 h)
      ]
