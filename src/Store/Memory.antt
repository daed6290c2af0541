-- ===== src/Store/Memory.antt =====
-- `MemoryEventStore` of internal/simulation/store.go. The mutex makes each operation one step.
use mathlib.Core.Path.{subst}
use hacker_sprint2_sim.Common.{
  arith, ℕ, ◌+◌, ◌≡◌, refl, sym, ◌≢◌, String, Bool, true, false, none, some, List, [], ◌∷◌, ◌++◌,
}
use hacker_sprint2_sim.Common.Tests.{◌==◌, same, if◌then◌else◌}
use hacker_sprint2_sim.Common.Lists.{length}
use hacker_sprint2_sim.Common.Map.{
  Map, lookup, insert, lookup-insert, lookup-insert_self, lookup-insert_ne,
}
use hacker_sprint2_sim.Common.Result.{Result, ok, err}
use hacker_sprint2_sim.Events.{Event}
use hacker_sprint2_sim.Stream.{StoredEvent}
use hacker_sprint2_sim.Store.{StoreError, version_conflict, EventStore}

pub record MemoryEventStore : Type 0 where
  pub streams : Map (List StoredEvent)

-- NewMemoryEventStore
abbrev pub new_memory_event_store : MemoryEventStore
new_memory_event_store = record { streams = [] }

-- s.streams[runID], the nil stream for a missing run.
unfoldable pub stream_of : String → Map (List StoredEvent) → List StoredEvent
stream_of run m = elim (lookup run m) [ none ↦ [] | some records ↦ records ]

-- The loop of Append: what the new events are stored as, from the length of the stream.
unfoldable pub stored_from : ℕ → List Event → List StoredEvent
stored_from n [] = []
stored_from n (e ∷ es) = (record { version = n + 1; event = e }) ∷ stored_from (n + 1) es

-- MemoryEventStore.Load
unfoldable pub memory_load : MemoryEventStore → String → Result StoreError (List StoredEvent)
unfolding stream_of
memory_load s run = ok (stream_of run s.streams)

-- MemoryEventStore.Append
unfoldable pub memory_append :
    MemoryEventStore
    → String
    → ℕ
    → List Event
    → Result StoreError (MemoryEventStore × List StoredEvent)
unfolding stream_of
memory_append s run expected new_events =
    let stream = stream_of run s.streams in
    elim (length stream == expected) [
      | false ↦ err version_conflict
      | true ↦
          let appended = stored_from (length stream) new_events in
          ok (record { streams = insert run (stream ++ appended) s.streams }, appended)
    ]

-- The records of a stream count the versions on from n.
pub data Numbered : ℕ → List StoredEvent → Type 0 where
  empty : {n : ℕ} → Numbered n []
  next :
      {n : ℕ} {r : StoredEvent} {rs : List StoredEvent}
      → r.version ≡ n + 1
      → Numbered (n + 1) rs
      → Numbered n (r ∷ rs)

stored_from-Numbered : (n : ℕ) (es : List Event) → Numbered n (stored_from n es)
unfolding stored_from
stored_from-Numbered n [] = empty
stored_from-Numbered n (e ∷ es) = next refl (stored_from-Numbered (n + 1) es)

append-Numbered :
    {n m : ℕ} {rs qs : List StoredEvent}
    → Numbered n rs
    → m ≡ n + length rs
    → Numbered m qs
    → Numbered n (rs ++ qs)
append-Numbered {n = n} {qs = qs} empty h q = subst (λ k. Numbered k qs) (omega arith) q
append-Numbered (next g p) h q = next g (append-Numbered p (omega arith) q)

-- Every stream counts its versions from one.
abbrev pub IsNumbered : MemoryEventStore → Type 0
IsNumbered s = (run : String) → Numbered 0 (stream_of run s.streams)

-- An append that succeeds was told the length of the stream, which it extends by what it returns.
pub memory_append-load :
    (s t : MemoryEventStore) (run : String) (expected : ℕ) (es : List Event)
    (appended before : List StoredEvent)
    → memory_append s run expected es ≡ ok (t, appended)
    → memory_load s run ≡ ok before
    → (expected ≡ length before) × (memory_load t run ≡ ok (before ++ appended))
unfolding memory_append memory_load
memory_append-load s t run expected es appended before h l = ground (
  arith,
  lookup-insert_self run
      (stream_of run s.streams ++ stored_from (length (stream_of run s.streams)) es) s.streams,
)

-- The other streams stay as they are.
pub memory_append-load_ne :
    (s t : MemoryEventStore) (run other : String) (expected : ℕ) (es : List Event)
    (appended : List StoredEvent)
    → memory_append s run expected es ≡ ok (t, appended)
    → run ≢ other
    → memory_load t other ≡ memory_load s other
unfolding memory_append memory_load
memory_append-load_ne s t run other expected es appended h ne = ground (
  arith,
  lookup-insert_ne run other
      (stream_of run s.streams ++ stored_from (length (stream_of run s.streams)) es) s.streams ne,
)

stream_of-insert :
    (run other : String) (v : List StoredEvent) (m : Map (List StoredEvent))
    → stream_of other (insert run v m) ≡ (if same run other then v else stream_of other m)
unfolding stream_of
stream_of-insert run other v m = ground (arith, lookup-insert run other v m)

if-Numbered :
    (b : Bool) {v w : List StoredEvent}
    → Numbered 0 v
    → Numbered 0 w
    → Numbered 0 (if b then v else w)
if-Numbered true p q = p
if-Numbered false p q = q

insert-IsNumbered :
    (s : MemoryEventStore) (run : String) (v : List StoredEvent)
    → IsNumbered s
    → Numbered 0 v
    → IsNumbered (record { streams = insert run v s.streams })
insert-IsNumbered s run v h p other =
    subst (Numbered 0) (sym (stream_of-insert run other v s.streams))
      (if-Numbered (same run other) p (h other))

-- An append keeps the versions of every stream counting from one without a gap.
pub memory_append-IsNumbered :
    (s t : MemoryEventStore) (run : String) (expected : ℕ) (es : List Event)
    (appended : List StoredEvent)
    → IsNumbered s
    → memory_append s run expected es ≡ ok (t, appended)
    → IsNumbered t
unfolding memory_append
memory_append-IsNumbered s t run expected es appended h g =
    let stream = stream_of run s.streams in
    let grown = insert-IsNumbered s run (stream ++ stored_from (length stream) es) h (
      append-Numbered {m = length stream} (h run) (omega arith)
        (stored_from-Numbered (length stream) es)) in
    subst IsNumbered (ground arith) grown

abbrev pub memory_store : EventStore
memory_store = record {
  Store = MemoryEventStore;
  load = memory_load;
  append = memory_append;
  append-load = memory_append-load;
  append-load_ne = memory_append-load_ne;
}
