-- ===== src/Store.antt =====
-- The event stores: internal/simulation/store.go.
pub mod Memory
pub mod Cached
pub mod Refinement
pub mod Eviction
use hacker_sprint2_sim.Common.{ℕ, ◌+◌, ◌≡◌, ◌≢◌, String, Bool, List, [], ◌∷◌, ◌++◌}
use hacker_sprint2_sim.Common.Result.{Result, ok, err}
use hacker_sprint2_sim.Common.Lists.{length}
use hacker_sprint2_sim.Events.{Event}
use hacker_sprint2_sim.Stream.{StoredEvent}

-- ErrVersionConflict, and any other failure of a store behind the interface.
pub data StoreError : Type 0 where
  version_conflict unavailable : StoreError

-- EventStore: what a client may rely on. A load leaves the streams as they are, and an append that
-- succeeds was told the length of the stream, which it extends by the records that it returns.
pub record EventStore : Type 1 where
  pub Store : Type 0
  pub load : Store → String → Result StoreError (List StoredEvent)
  pub append : Store → String → ℕ → List Event → Result StoreError (Store × List StoredEvent)
  pub append-load :
      (s t : Store) (run : String) (expected : ℕ) (new_events : List Event)
      (appended before : List StoredEvent)
      → append s run expected new_events ≡ ok (t, appended)
      → load s run ≡ ok before
      → (expected ≡ length before) × (load t run ≡ ok (before ++ appended))
  pub append-load_ne :
      (s t : Store) (run other : String) (expected : ℕ) (new_events : List Event)
      (appended : List StoredEvent)
      → append s run expected new_events ≡ ok (t, appended)
      → run ≢ other
      → load t other ≡ load s other
