-- ===== src/Store/Refinement.antt =====
-- The cache of cached_store.go against the store that it wraps.
use mathlib.Core.Path.{subst}
use hacker_sprint2_sim.Common.{
  ap, inl, inr, ℕ, zero, suc, ◌+◌, ◌≡◌, refl, sym, ◌∙◌, String, some, List, ◌++◌, arith,
}
use hacker_sprint2_sim.Common.Tests.{
  ltb, ◌==◌, same, same_iff, eq_of_same, Bool-cases, Option-cases,
}
use hacker_sprint2_sim.Common.Lists.{length}
use hacker_sprint2_sim.Common.Map.{Map, lookup, insert, erase, lookup-insert, lookup-erase}
use hacker_sprint2_sim.Common.Result.{Result, ok, err, Result-cases}
use hacker_sprint2_sim.Events.{Event}
use hacker_sprint2_sim.Stream.{StoredEvent}
use hacker_sprint2_sim.Store.{StoreError, EventStore}
use hacker_sprint2_sim.Store.Cached.{
  CachedStream, Cache, epoch_of, oldest, evict_from, evict, touch, finish_load, finish_append,
  invalidate, cached_load, cached_append, CachedEventStore,
}

-- Everything that one map of streams has is in the other.
abbrev Within : Map CachedStream → Map CachedStream → Type 0
Within m n = (run : String) (c : CachedStream) → lookup run m ≡ some c → lookup run n ≡ some c

erase-Within : (k : String) (m : Map CachedStream) → Within (erase k m) m
erase-Within k m run c h = ground (arith, lookup-erase k run m)

evict_from-Within :
    (fuel max_runs : ℕ) (m : Map CachedStream) → Within (evict_from fuel max_runs m) m
unfolding evict_from
evict_from-Within zero max_runs m run c h = h
evict_from-Within (suc fuel) max_runs m run c h = elim (Bool-cases (ltb max_runs (length m))) [
  | inl over ↦ elim (Option-cases (oldest m)) [
    | inl e ↦ ground (arith)
    | inr ((k, access), e) ↦
        erase-Within k m run c (evict_from-Within fuel max_runs (erase k m) run c (ground (arith)))
  ]
  | inr under ↦ ground (arith)
]

module _ (delegate : EventStore) where
  -- What is cached for a run is the stream of the wrapped store.
  abbrev pub Mirrors : delegate.Store → Map CachedStream → Type 0
  Mirrors store m =
      (run : String) (stream : CachedStream)
      → lookup run m ≡ some stream
      → delegate.load store run ≡ ok stream.records

  abbrev pub IsCoherent : CachedEventStore delegate → Type 0
  IsCoherent s = Mirrors s.0 s.1.streams

  insert-Mirrors :
      (store : delegate.Store) (m : Map CachedStream) (run : String) (v : CachedStream)
      → Mirrors store m
      → delegate.load store run ≡ ok v.records
      → Mirrors store (insert run v m)
  insert-Mirrors store m run v h l other found g = elim (Bool-cases (same run other)) [
    | inl e ↦ ground (arith, lookup-insert run other v m, eq_of_same run other e)
    | inr e ↦ h other found (ground (arith, lookup-insert run other v m))
  ]

  append-Mirrors :
      (store after : delegate.Store) (m : Map CachedStream) (run : String) (expected : ℕ)
      (es : List Event) (appended : List StoredEvent)
      → Mirrors store m
      → delegate.append store run expected es ≡ ok (after, appended)
      → Mirrors after (erase run m)
  append-Mirrors store after m run expected es appended h a other found g =
      elim (Bool-cases (same run other)) [
        | inl e ↦ ground (arith, lookup-erase run other m)
        | inr e ↦
            delegate.append-load_ne store after run other expected es appended a
              (ground (arith, same_iff run other))
            ∙ h other found (ground (arith, lookup-erase run other m))
      ]

  grow-Mirrors :
      (store after : delegate.Store) (m : Map CachedStream) (run : String) (expected : ℕ)
      (es : List Event) (appended before : List StoredEvent) (v : CachedStream)
      → Mirrors store m
      → delegate.append store run expected es ≡ ok (after, appended)
      → delegate.load store run ≡ ok before
      → v.records ≡ before ++ appended
      → Mirrors after (insert run v m)
  grow-Mirrors store after m run expected es appended before v h a l q other found g =
      elim (Bool-cases (same run other)) [
        | inl e ↦ ground (
          arith,
          lookup-insert run other v m,
          eq_of_same run other e,
          delegate.append-load store after run expected es appended before a l,
        )
        | inr e ↦
            append-Mirrors store after m run expected es appended h a other found
              (ground (arith, lookup-insert run other v m, lookup-erase run other m))
      ]

  -- What the caller sees of a load.
  abbrev pub answer :
      Result StoreError (CachedEventStore delegate × List StoredEvent)
      → Result StoreError (List StoredEvent)
  answer (err e) = err e
  answer (ok (s, records)) = ok records

  touch-IsCoherent :
      (store : delegate.Store) (c : Cache) (run : String) (stream : CachedStream)
      → IsCoherent (store, c)
      → lookup run c.streams ≡ some stream
      → IsCoherent (store, touch run stream c)
  unfolding touch
  touch-IsCoherent store c run stream h l =
      insert-Mirrors store c.streams run (record stream { last_access = c.clock + 1 }) h
        (h run stream l)

  finish_load-IsCoherent :
      (store : delegate.Store) (c : Cache) (run : String) (epoch : ℕ) (records : List StoredEvent)
      → IsCoherent (store, c)
      → delegate.load store run ≡ ok records
      → IsCoherent (store, finish_load run epoch records c)
  unfolding finish_load evict
  finish_load-IsCoherent store c run epoch records h l other found g =
      let grown = insert run (record { records = records; last_access = c.clock + 1 }) c.streams in
      elim (Bool-cases (epoch_of run c == epoch)) [
        | inl e ↦
            insert-Mirrors store c.streams run
              (record { records = records; last_access = c.clock + 1 }) h l other found
              (evict_from-Within (length grown) c.max_runs grown other found (ground (arith)))
        | inr e ↦ h other found (ground (arith))
      ]

  finish_append-IsCoherent :
      (store after : delegate.Store) (c : Cache) (run : String) (expected : ℕ) (es : List Event)
      (appended : List StoredEvent)
      → IsCoherent (store, c)
      → delegate.append store run expected es ≡ ok (after, appended)
      → IsCoherent (after, finish_append run expected appended c)
  unfolding finish_append
  finish_append-IsCoherent store after c run expected es appended h a other found g =
      let dropped = append-Mirrors store after c.streams run expected es appended h a other found in
      elim (Option-cases (lookup run c.streams)) [
        | inl e ↦ dropped (ground (arith))
        | inr (stream, e) ↦ elim (Bool-cases (length stream.records == expected)) [
          | inr n ↦ dropped (ground (arith))
          | inl n ↦
              grow-Mirrors store after c.streams run expected es appended stream.records
                (record { records = stream.records ++ appended; last_access = c.clock + 1 }) h a
                (h run stream e) refl other found (ground (arith))
        ]
      ]

  -- A load changes nothing in the wrapped store and leaves a coherent cache coherent.
  pub cached_load-IsCoherent :
      (s t : CachedEventStore delegate) (run : String) (records : List StoredEvent)
      → IsCoherent s
      → cached_load delegate s run ≡ ok (t, records)
      → (t.0 ≡ s.0) × IsCoherent t
  unfolding cached_load
  cached_load-IsCoherent s t run records h g = elim (Option-cases (lookup run s.1.streams)) [
    | inr (stream, e) ↦
        let after : t ≡ (s.0, touch run stream s.1) = ground (arith) in
        (
          ap (λ x. x.0) after,
          subst IsCoherent (sym after) (touch-IsCoherent s.0 s.1 run stream h e),
        )
    | inl e ↦ elim (Result-cases (delegate.load s.0 run)) [
      | inl (x, l) ↦ ground (arith)
      | inr (rs, l) ↦
          let after : t ≡ (s.0, finish_load run (epoch_of run s.1) rs s.1) = ground (arith) in
          (
            ap (λ x. x.0) after,
            subst IsCoherent (sym after)
                (finish_load-IsCoherent s.0 s.1 run (epoch_of run s.1) rs h l),
          )
    ]
  ]

  -- An append does to the wrapped store what it would do without the cache, and the cache follows.
  pub cached_append-IsCoherent :
      (s t : CachedEventStore delegate) (run : String) (expected : ℕ) (es : List Event)
      (appended : List StoredEvent)
      → IsCoherent s
      → cached_append delegate s run expected es ≡ ok (t, appended)
      → (delegate.append s.0 run expected es ≡ ok (t.0, appended)) × IsCoherent t
  unfolding cached_append
  cached_append-IsCoherent s t run expected es appended h g =
      elim (Result-cases (delegate.append s.0 run expected es)) [
        | inl (x, a) ↦ ground (arith)
        | inr ((after, rs), a) ↦
            let result : t ≡ (after, finish_append run expected rs s.1) = ground (arith) in
            (
              ground (arith),
              subst IsCoherent (sym result)
                  (finish_append-IsCoherent s.0 after s.1 run expected es rs h a),
            )
      ]

  -- Invalidate only forgets.
  pub invalidate-IsCoherent :
      (s : CachedEventStore delegate) (run : String)
      → IsCoherent s
      → IsCoherent (s.0, invalidate run s.1)
  unfolding invalidate
  invalidate-IsCoherent s run h other found g =
      h other found (erase-Within run s.1.streams other found g)
