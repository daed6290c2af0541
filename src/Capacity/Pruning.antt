-- ===== src/Capacity/Pruning.antt =====
-- pruneExpiredCapacity of internal/simulation/state.go keeps the index of the table exact.
use hacker_sprint2_sim.Common.{
  ◌≤◌, ◌∙◌, ◌≡◌, refl, String, Bool, true, false, [], ◌∷◌, arith, inl, inr,
}
use hacker_sprint2_sim.Common.Tests.{ltb, ◌==◌, if◌then◌else◌, Bool-cases}
use hacker_sprint2_sim.Common.Int.{ℤ, +ℤ_cancel, pos, ◌+ℤ◌, int_laws}
use hacker_sprint2_sim.Common.Map.{Map, lookup, has, total, UniqueKeys, entries_where, total-where}
use hacker_sprint2_sim.Model.Types.{Time, ServerId}
use hacker_sprint2_sim.Platform.{Platform}
use hacker_sprint2_sim.State.{State}
use hacker_sprint2_sim.State.Traffic.{CapacityAllocationState}
use hacker_sprint2_sim.Capacity.{
  count_at, sub_at, release_expired, prune_expired_capacity, live_load, used_by,
}
use hacker_sprint2_sim.Capacity.Index.{IsIndex, load_for, count_at-sub_at}

-- UsedCapacityByServer is the sum of the loads that Capacity allots to each server.
abbrev pub IsIndexed : State → Type 0
IsIndexed s = IsIndex (λ a. a.server_id) (λ a. a.load_units) s.capacity s.used_capacity_by_server

abbrev load_on : ServerId → CapacityAllocationState → ℤ
load_on server = load_for (λ a. a.server_id) (λ a. a.load_units) server

-- What the loop takes from the index is the load of the expired allocations.
count_at-release_expired :
    (at : Time) (server : ServerId) (m : Map CapacityAllocationState) (used : Map ℤ)
    → count_at server (release_expired at m used)
        +ℤ total (λ a. if ltb at a.releases_at then pos 0 else load_on server a) m
      ≡ count_at server used
unfolding release_expired total load_for
count_at-release_expired at server [] used = grind (int_laws)
count_at-release_expired at server ((id, a) ∷ m) used = elim (Bool-cases (ltb at a.releases_at)) [
  | inl e ↦ let later = count_at-release_expired at server m used in grind (int_laws)
  | inr e ↦
      let later = count_at-release_expired at server m (sub_at a.server_id a.load_units used) in
      let given_back = count_at-sub_at a.server_id server a.load_units used in grind int_laws
]

has-entries_where :
    {V : Type 0} (p : V → Bool) (k : String) (m : Map V)
    → has k m ≡ false
    → has k (entries_where p m) ≡ false
unfolding has lookup entries_where
has-entries_where p k [] h = refl
has-entries_where p k ((i, v) ∷ m) h = ground (arith, has-entries_where p k m)

entries_where-UniqueKeys :
    {V : Type 0} (p : V → Bool) (m : Map V) → UniqueKeys m → UniqueKeys (entries_where p m)
unfolding entries_where
entries_where-UniqueKeys p [] h = tt
entries_where-UniqueKeys p ((i, v) ∷ m) h =
    ground (arith, has-entries_where p i m, entries_where-UniqueKeys p m)

IsIndexed-if :
    (b : Bool) {m n : Map CapacityAllocationState} {used rest : Map ℤ}
    → IsIndex (λ a. a.server_id) (λ a. a.load_units) m used
    → IsIndex (λ a. a.server_id) (λ a. a.load_units) n rest
    → IsIndex (λ a. a.server_id) (λ a. a.load_units) (if b then m else n) (if b then used else rest)
IsIndexed-if true g h = g
IsIndexed-if false g h = h

release_expired-IsIndex :
    (at : Time) (m : Map CapacityAllocationState) (used : Map ℤ)
    → IsIndex (λ a. a.server_id) (λ a. a.load_units) m used
    → IsIndex
        (λ a. a.server_id)
        (λ a. a.load_units)
        (entries_where (λ a. ltb at a.releases_at) m)
        (release_expired at m used)
release_expired-IsIndex at m used h = record {
  unique = entries_where-UniqueKeys (λ a. ltb at a.releases_at) m h.unique;
  summed = λ k.
      let before = h.summed k in
      let taken = count_at-release_expired at k m used in
      let split = total-where (load_on k) (λ a. ltb at a.releases_at) m in
      +ℤ_cancel (count_at k (release_expired at m used))
        (total (load_on k) (entries_where (λ a. ltb at a.releases_at) m))
        (total (λ a. if ltb at a.releases_at then pos 0 else load_on k a) m)
        (taken ∙ before ∙ split);
}

-- Pruning keeps the index exact, for a time before the index's own as well.
pub prune_expired_capacity-IsIndexed :
    (s : State) (at : Time) → IsIndexed s → IsIndexed (prune_expired_capacity s at)
unfolding prune_expired_capacity
prune_expired_capacity-IsIndexed s at h =
    IsIndexed-if (ltb at s.capacity_indexed_at) h
      (release_expired-IsIndex at s.capacity s.used_capacity_by_server h)

-- The scan of the table adds up what the pruned table holds.
total-live_load :
    (at : Time) (server : ServerId) (m : Map CapacityAllocationState)
    → total (load_on server) (entries_where (λ a. ltb at a.releases_at) m)
      ≡ total (live_load server at) m
unfolding total entries_where load_for live_load
total-live_load at server [] = refl
total-live_load at server ((id, a) ∷ m) =
    let rest = total-live_load at server m in
    elim (Bool-cases (ltb at a.releases_at)) [ inl e ↦ grind int_laws | inr e ↦ grind int_laws ]

-- Where the index is exact, pruning for a time that is no earlier than the index's own makes the
-- index read the load that a scan of all allocations would have found live.
pub prune_expired_capacity-used_by :
    (env : Platform) (s : State) (server : ServerId) (at : Time)
    → IsIndexed s
    → s.capacity_indexed_at ≤ at
    → used_by env (prune_expired_capacity s at) server at ≡ total (live_load server at) s.capacity
unfolding used_by prune_expired_capacity
prune_expired_capacity-used_by env s server at h le =
    let fresh : ltb at s.capacity_indexed_at ≡ false = ground (arith) in
    let reads : (at == at) ≡ true = ground (arith) in
    rw (fresh, reads)
      ((release_expired-IsIndex at s.capacity s.used_capacity_by_server h).summed server
        ∙ total-live_load at server s.capacity)
