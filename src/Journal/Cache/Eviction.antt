-- ===== src/Journal/Cache/Eviction.antt =====
-- What `releaseStream` of internal/persistence/journal/store.go drops from the cache.
use mathlib.Core.Path.{subst}
use hacker_sprint2_sim.Common.{
  ℕ, zero, suc, ◌≤◌, ◌<◌, ◌≡◌, ◌≢◌, ◌⊎◌, ◌&&◌, ◌-◌, sym, ap, ◌∙◌, String, none, some, [], ◌∷◌,
  arith, inl, inr, true,
}
use hacker_sprint2_sim.Common.Tests.{
  ltb, ◌==◌, same, same_refl, eq_of_same, Bool-cases, Option-cases,
}
use hacker_sprint2_sim.Common.Lists.{length, All}
use hacker_sprint2_sim.Common.Map.{
  Map, has, lookup, erase, lookup-erase, UniqueKeys, erase-UniqueKeys, insert-UniqueKeys,
  lookup-insert_ne,
}
use hacker_sprint2_sim.Journal.Cache.{
  CachedRun, JournalCache, oldest_idle, evict_idle, leave_stream, release_stream,
}

oldest_idle-has :
    (m : Map CachedRun) (id : String) (access : ℕ)
    → oldest_idle m ≡ some (id, access)
    → has id m ≡ true
unfolding oldest_idle has lookup
oldest_idle-has [] id access h = ground (arith)
oldest_idle-has ((i, v) ∷ m) id access h = elim (Option-cases (oldest_idle m)) [
  | inl e ↦ ground (arith, same_refl i)
  | inr ((j, b), e) ↦ ground (arith, same_refl i, oldest_idle-has m j b e)
]

-- The stream that is chosen has no users.
oldest_idle-idle :
    (m : Map CachedRun) (id : String) (access : ℕ) (run : CachedRun)
    → oldest_idle m ≡ some (id, access)
    → UniqueKeys m
    → lookup id m ≡ some run
    → run.users ≡ 0
unfolding oldest_idle lookup
oldest_idle-idle [] id access run h u l = ground (arith)
oldest_idle-idle ((i, v) ∷ m) id access run h u l = elim (Option-cases (oldest_idle m)) [
  | inl e ↦ ground (arith, same_refl i)
  | inr ((j, b), e) ↦
      let there = oldest_idle-has m j b e in
      elim (Bool-cases (same i j)) [
        | inl s ↦ ground (arith, eq_of_same i j s)
        | inr s ↦
            let reflexive = same_refl i in
            elim (Bool-cases (same i id)) [
              | inl q ↦ ground (arith, eq_of_same i id q)
              | inr q ↦
                  let chosen : j ≡ id = ground (arith) in
                  oldest_idle-idle m id b run (e ∙ ap (λ k. some (k, b)) chosen) u.1
                    (ground (arith))
            ]
      ]
]

erase_le : (k : String) (m : Map CachedRun) → length (erase k m) ≤ length m
unfolding erase
erase_le k [] = omega arith
erase_le k ((i, v) ∷ m) = ground (arith, erase_le k m)

erase-oldest_idle :
    (m : Map CachedRun) (k : String) (access : ℕ)
    → oldest_idle m ≡ some (k, access)
    → length (erase k m) < length m
unfolding oldest_idle erase
erase-oldest_idle [] k access h = ground (arith)
erase-oldest_idle ((i, v) ∷ m) k access h = elim (Option-cases (oldest_idle m)) [
  | inl e ↦ ground (arith, same_refl i, erase_le k m)
  | inr ((j, b), e) ↦
      let le = erase_le k m in
      elim (Bool-cases (same i k)) [
        | inl s ↦ ground (arith)
        | inr s ↦
            let reflexive = same_refl i in let shorter = erase-oldest_idle m j b e in ground (arith)
      ]
]

-- A stream that is in use stays.
evict_idle-users :
    (fuel max_runs : ℕ) (m : Map CachedRun) (id : String) (run : CachedRun)
    → UniqueKeys m
    → lookup id m ≡ some run
    → 0 < run.users
    → lookup id (evict_idle fuel max_runs m) ≡ some run
unfolding evict_idle
evict_idle-users zero max_runs m id run u l h = l
evict_idle-users (suc fuel) max_runs m id run u l h = elim (Bool-cases (ltb max_runs (length m))) [
  | inr under ↦ ground (arith)
  | inl over ↦ elim (Option-cases (oldest_idle m)) [
    | inl e ↦ ground (arith)
    | inr ((k, access), e) ↦ elim (Bool-cases (same k id)) [
      | inl s ↦
          let here = eq_of_same k id s in
          absurd (
            omega
              (arith, oldest_idle-idle m id access run (e ∙ ap (λ j. some (j, access)) here) u l))
      | inr s ↦ ground (
        arith,
        evict_idle-users fuel max_runs (erase k m) id run (erase-UniqueKeys k m u)
            (ground (arith, lookup-erase k id m)) h,
      )
    ]
  ]
]

-- The loop stops where the cache is small enough, or every stream is in use.
evict_idle-stops :
    (fuel max_runs : ℕ) (m : Map CachedRun)
    → length m ≤ fuel
    → (length (evict_idle fuel max_runs m) ≤ max_runs)
      ⊎ (oldest_idle (evict_idle fuel max_runs m) ≡ none)
unfolding evict_idle
evict_idle-stops zero max_runs m h = inl (omega arith)
evict_idle-stops (suc fuel) max_runs m h = elim (Bool-cases (ltb max_runs (length m))) [
  | inr under ↦ inl (ground (arith))
  | inl over ↦ elim (Option-cases (oldest_idle m)) [
    | inl e ↦ inr (ground (arith))
    | inr ((k, access), e) ↦
        let shorter = erase-oldest_idle m k access e in
        let same_map : evict_idle (suc fuel) max_runs m ≡ evict_idle fuel max_runs (erase k m) =
          ground (arith) in
        subst (λ x. (length x ≤ max_runs) ⊎ (oldest_idle x ≡ none)) (sym same_map)
          (evict_idle-stops fuel max_runs (erase k m) (omega arith))
  ]
]

-- What the caller's own step leaves of another run.
leave_stream-other :
    (id other : String) (identity : ℕ) (m : Map CachedRun)
    → id ≢ other
    → lookup other (leave_stream id identity m) ≡ lookup other m
unfolding leave_stream
leave_stream-other id other identity m ne = elim (Option-cases (lookup id m)) [
  | inl e ↦ ground (arith)
  | inr (run, e) ↦
      let kept = lookup-insert_ne id other (record run { users = run.users - 1 }) m ne in
      ground (arith)
]

leave_stream-UniqueKeys :
    (id : String) (identity : ℕ) (m : Map CachedRun)
    → UniqueKeys m
    → UniqueKeys (leave_stream id identity m)
unfolding leave_stream
leave_stream-UniqueKeys id identity m u = elim (Option-cases (lookup id m)) [
  | inl e ↦ subst UniqueKeys (ground (arith)) u
  | inr (run, e) ↦ elim (Bool-cases ((run.identity == identity) && ltb 0 run.users)) [
    | inl b ↦
        subst UniqueKeys (ground (arith))
          (insert-UniqueKeys id (record run { users = run.users - 1 }) m u)
    | inr b ↦ subst UniqueKeys (ground (arith)) u
  ]
]

-- A release of one run neither evicts nor changes another run that a call still uses.
pub release_stream-users :
    (id other : String) (identity : ℕ) (c : JournalCache) (run : CachedRun)
    → UniqueKeys c.runs
    → id ≢ other
    → lookup other c.runs ≡ some run
    → 0 < run.users
    → lookup other (release_stream id identity c).runs ≡ some run
unfolding release_stream
release_stream-users id other identity c run u ne l h =
    let left = leave_stream id identity c.runs in
    evict_idle-users (length left) c.max_runs left other run
      (leave_stream-UniqueKeys id identity c.runs u)
      (leave_stream-other id other identity c.runs ne ∙ l) h

abbrev pub InUse : String × CachedRun → Type 0
InUse (id, run) = 0 < run.users

All-InUse : (m : Map CachedRun) → oldest_idle m ≡ none → All InUse m
unfolding oldest_idle
All-InUse [] e = tt
All-InUse ((k, first) ∷ m) e = elim (Bool-cases (first.users == 0)) [
  | inl idle ↦ elim (Option-cases (oldest_idle m)) [
    | inl none_left ↦ absurd (ground (arith))
    | inr (found, is_found) ↦ elim (Bool-cases (ltb found.1 first.last_access)) [
      | inl older ↦ absurd (ground (arith))
      | inr newer ↦ absurd (ground (arith))
    ]
  ]
  | inr busy ↦ (ground (arith), All-InUse m (ground (arith)))
]

-- Every release ends with at most maxRuns runs, or with every run that is left in use.
pub release_stream-bounds :
    (id : String) (identity : ℕ) (c : JournalCache)
    → (length (release_stream id identity c).runs ≤ c.max_runs)
      ⊎ All InUse (release_stream id identity c).runs
unfolding release_stream
release_stream-bounds id identity c =
    let left = leave_stream id identity c.runs in
    elim (evict_idle-stops (length left) c.max_runs left (omega arith)) [
      | inl small ↦ inl small
      | inr busy ↦ inr (All-InUse (evict_idle (length left) c.max_runs left) busy)
    ]
