-- ===== src/Journal/Append/Parts.antt =====
-- The parts of a large append in a replay: the loop of `Append` in internal/persistence/journal/store.go,
-- and the case `kindDomainPart` of `applyFrame`.
use mathlib.Core.List.{append_assoc, append-nil}
use mathlib.Core.Path.{subst}
use hacker_sprint2_sim.Common.{
  ℕ, zero, suc, ◌+◌, ◌<◌, ◌≤◌, ◌%◌, ◌^◌, ◌≡◌, refl, sym, ap, ◌∙◌, false, List, [], ◌∷◌, ◌++◌, arith,
}
use hacker_sprint2_sim.Common.Tests.{◌==◌}
use hacker_sprint2_sim.Common.Result.{ok, and_then}
use hacker_sprint2_sim.Common.Lists.{length, length-append, length-take, length-drop, take, drop}
use hacker_sprint2_sim.Model.Types.{Time}
use hacker_sprint2_sim.Events.{Event}
use hacker_sprint2_sim.Stream.{StoredEvent}
use hacker_sprint2_sim.Store.Memory.{stored_from}
use hacker_sprint2_sim.Journal.Bytes.{Bytes}
use hacker_sprint2_sim.Journal.Format.{kind_domain_part}
use hacker_sprint2_sim.Journal.Batch.{EventCodec, AreStable, encode_domain_batch}
use hacker_sprint2_sim.Journal.Batch.RoundTrip.{decode_domain_batch-encode_domain_batch}
use hacker_sprint2_sim.Journal.Audit.{AuditCodec}
use hacker_sprint2_sim.Journal.Stream.{RunStream, apply_frame, apply_domain_part}
use hacker_sprint2_sim.Journal.Append.{
  Fault, JournalState, Written, next_frame, write_parts, events_per_part,
}
use hacker_sprint2_sim.Journal.Append.Memory.{starts_here}
use hacker_sprint2_sim.Journal.Append.Leaves.{
  Leaves, leaves_written, then_write-Leaves, needs_payload-Leaves,
}
use hacker_sprint2_sim.Journal.Append.Disk.{
  on_disk, KeptWith-IsKept, IsKept, KeptWith, append_frame-KeptWith,
}

pub length-stored_from : (n : ℕ) (es : List Event) → length (stored_from n es) ≡ length es
unfolding stored_from
length-stored_from n [] = refl
length-stored_from n (e ∷ es) = ap suc (length-stored_from (n + 1) es)

-- The parts of the events are stored as the whole is.
stored_from-take-drop :
    (k n : ℕ) (es : List Event)
    → stored_from n (take k es) ++ stored_from (n + k) (drop k es) ≡ stored_from n es
unfolding stored_from
stored_from-take-drop zero n es = ap (λ (m : ℕ). stored_from m es) (omega arith)
stored_from-take-drop (suc k) n [] = refl
stored_from-take-drop (suc k) n (e ∷ es) =
    let shifted : n + suc k ≡ n + 1 + k = omega arith in
    ap (λ rs. record { version = n + 1; event = e } ∷ rs)
      (ap (λ (m : ℕ). stored_from (n + 1) (take k es) ++ stored_from m (drop k es)) shifted
        ∙ stored_from-take-drop k (n + 1) es)

AreStable-take :
    (codec : EventCodec) (n : ℕ) (es : List Event)
    → AreStable codec es
    → AreStable codec (take n es)
AreStable-take codec zero es h = tt
AreStable-take codec (suc n) [] h = tt
AreStable-take codec (suc n) (e ∷ es) h = (h.0, AreStable-take codec n es h.1)

AreStable-drop :
    (codec : EventCodec) (n : ℕ) (es : List Event)
    → AreStable codec es
    → AreStable codec (drop n es)
AreStable-drop codec zero es h = h
AreStable-drop codec (suc n) [] h = tt
AreStable-drop codec (suc n) (e ∷ es) h = AreStable-drop codec n es h.1

module _ (checksum : Bytes → ℕ) (codec : EventCodec) (audit : AuditCodec) (segment_size : ℕ)
    (faults : ℕ → Fault) (crc : (bs : Bytes) → checksum bs < 256 ^ 4) where
  -- A part is taken by a replay that has begun the transaction.
  part_applied :
      (n f c : ℕ) (p : List StoredEvent) (at : Time) (es : List Event) (payload : Bytes)
      (s : JournalState)
      → AreStable codec es
      → encode_domain_batch codec ((n + 1) % 2 ^ 64) es ≡ ok payload
      → length payload < 256 ^ 4
      → f + length p ≡ n + 1
      → n + length es + 1 < 2 ^ 64
      → (length es == 0) ≡ false
      → (c == 0) ≡ false
      → apply_frame codec audit
          (next_frame kind_domain_part at payload s.stream)
          (on_disk f c p s.stream)
        ≡ ok (on_disk f c (p ++ stored_from n es) s.stream)
  unfolding apply_frame apply_domain_part and_then
  part_applied n f c p at es payload s stable h small next fits some begun =
      let version : (n + 1) % 2 ^ 64 ≡ n + 1 = omega arith in
      let batch =
        decode_domain_batch-encode_domain_batch codec n es payload stable
          (ap (λ v. encode_domain_batch codec v es) (sym version) ∙ h) small fits in
      let expected : (f + length p) % 2 ^ 64 ≡ (n + 1) % 2 ^ 64 = ap (λ (m : ℕ). m % 2 ^ 64) next in
      ground (arith, starts_here n es (omega arith), length-stored_from n es)

  abbrev pub PartsLeft : JournalState → RunStream → ℕ → ℕ → List StoredEvent → Written → Type 0
  PartsLeft start u f c p w =
      Leaves (IsKept checksum codec audit start u) (KeptWith checksum codec audit start u f c p) w

  -- The loop over the parts leaves all events in the pending transaction, or fails with some of them.
  pub write_parts-KeptWith :
      (rounds n f c : ℕ) (p : List StoredEvent) (at : Time) (es : List Event)
      (start s : JournalState) (u : RunStream)
      → AreStable codec es
      → length es ≤ rounds
      → (0 < length es → (f + length p ≡ n + 1) × (n + length es + 1 < 2 ^ 64))
      → (c == 0) ≡ false
      → KeptWith checksum codec audit start u f c p s
      → PartsLeft start u f c
          (p ++ stored_from n es)
          (write_parts checksum codec segment_size faults rounds (n + 1) at es s)
  unfolding write_parts stored_from
  write_parts-KeptWith zero n f c p at [] start s u stable enough next begun kept =
      leaves_written
        (subst (λ x. KeptWith checksum codec audit start u f c x s) (sym (append-nil p)) kept)
  write_parts-KeptWith zero n f c p at (e ∷ es) start s u stable enough next begun kept =
      absurd (omega arith)
  write_parts-KeptWith (suc rounds) n f c p at [] start s u stable enough next begun kept =
      leaves_written
        (subst (λ x. KeptWith checksum codec audit start u f c x s) (sym (append-nil p)) kept)
  write_parts-KeptWith (suc rounds) n f c p at (e ∷ es) start s u stable enough next begun kept =
      let fits = next (omega arith) in
      let part = take events_per_part (e ∷ es) in
      let rest = drop events_per_part (e ∷ es) in
      let taken = length-take events_per_part (e ∷ es) in
      let left = length-drop events_per_part (e ∷ es) in
      let joined =
        append_assoc p (stored_from n part) (stored_from (n + events_per_part) rest)
        ∙ ap (λ x. p ++ x) (stored_from-take-drop events_per_part n (e ∷ es)) in
      needs_payload-Leaves (encode_domain_batch codec ((n + 1) % 2 ^ 64) part) s _
        (KeptWith-IsKept checksum codec audit start s u f c p kept)
        (λ payload encoded.
          then_write-Leaves _
            (append_frame-KeptWith checksum codec audit segment_size faults crc start s u f c f c p
              (p ++ stored_from n part) kind_domain_part at payload kept (omega arith)
              (λ small.
                part_applied n f c p at part payload s
                  (AreStable-take codec events_per_part (e ∷ es) stable) encoded small fits.0
                  (omega arith) (ground (arith)) begun))
            (λ t more.
              subst
                (λ x. PartsLeft start u f c x (
                  write_parts checksum codec segment_size faults rounds (n + 1 + events_per_part) at
                    rest t))
                joined
                (subst
                  (λ (m : ℕ).
                    PartsLeft start u f c
                      (p ++ stored_from n part ++ stored_from (n + events_per_part) rest)
                      (write_parts checksum codec segment_size faults rounds m at rest t))
                  (omega arith)
                  (write_parts-KeptWith rounds (n + events_per_part) f c (p ++ stored_from n part)
                    at rest start t u (AreStable-drop codec events_per_part (e ∷ es) stable)
                    (omega arith)
                    (λ some. (
                      omega
                          (arith, length-append p (stored_from n part), length-stored_from n part),
                      omega arith,
                    ))
                    begun more))))
