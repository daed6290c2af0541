-- ===== src/Journal/Append/Leaves.antt =====
-- What a writing call of internal/persistence/journal/store.go leaves, whether it succeeds or fails: one
-- rule for each step of a call.
use mathlib.Core.Path.{subst}
use hacker_sprint2_sim.Common.{◌≡◌, refl, ap, Bool, true, false, Option, none, some}
use hacker_sprint2_sim.Common.Tests.{if◌then◌else◌}
use hacker_sprint2_sim.Common.Result.{Result, ok, err}
use hacker_sprint2_sim.Journal.{JournalError}
use hacker_sprint2_sim.Journal.Bytes.{Bytes}
use hacker_sprint2_sim.Journal.Append.{
  JournalState, Written, written, write_failed, then_write, needs_payload,
}

-- What is left of a call: F of one that fails, D of one that succeeds.
pub data Leaves (F D : JournalState → Type 0) : Written → Type 0 where
  leaves_written : {s : JournalState} → D s → Leaves F D (written s)
  leaves_failed : {s : JournalState} (e : JournalError) → F s → Leaves F D (write_failed e s)

state_of : Written → JournalState
state_of (written s) = s
state_of (write_failed e s) = s

pub map-Leaves :
    {F D F' D' : JournalState → Type 0} {w : Written}
    → Leaves F D w
    → ((t : JournalState) → F t → F' t)
    → ((t : JournalState) → D t → D' t)
    → Leaves F' D' w
map-Leaves (leaves_written h) f d = leaves_written (d _ h)
map-Leaves (leaves_failed e h) f d = leaves_failed e (f _ h)

pub Leaves-written :
    {F D : JournalState → Type 0} {w : Written} {t : JournalState}
    → Leaves F D w
    → w ≡ written t
    → D t
unfolding state_of
Leaves-written {D = D} (leaves_written h) e = subst D (ap state_of e) h
Leaves-written (leaves_failed x h) e = cc

pub Leaves-failed :
    {F D : JournalState → Type 0} {w : Written} {e : JournalError} {t : JournalState}
    → Leaves F D w
    → w ≡ write_failed e t
    → F t
unfolding state_of
Leaves-failed (leaves_written h) e = cc
Leaves-failed {F = F} (leaves_failed x h) e = subst F (ap state_of e) h

pub then_write-Leaves :
    {F D E : JournalState → Type 0} {w : Written} (k : JournalState → Written)
    → Leaves F D w
    → ((s : JournalState) → D s → Leaves F E (k s))
    → Leaves F E (then_write w k)
unfolding then_write
then_write-Leaves k (leaves_written h) next = next _ h
then_write-Leaves k (leaves_failed e h) next = leaves_failed e h

pub if-Leaves :
    {F D : JournalState → Type 0} (b : Bool) (v w : Written)
    → (b ≡ true → Leaves F D v)
    → (b ≡ false → Leaves F D w)
    → Leaves F D (if b then v else w)
if-Leaves true v w h k = h refl
if-Leaves false v w h k = k refl

pub found-Leaves :
    {A : Type 0} {F D : JournalState → Type 0} (o : Option A) (v : Written) (k : A → Written)
    → (o ≡ none → Leaves F D v)
    → ((a : A) → o ≡ some a → Leaves F D (k a))
    → Leaves F D (elim o [ none ↦ v | some a ↦ k a ])
found-Leaves none v k h next = h refl
found-Leaves (some a) v k h next = next a refl

pub needs_payload-Leaves :
    {F E : JournalState → Type 0} (r : Result JournalError Bytes) (s : JournalState)
    (k : Bytes → Written)
    → F s
    → ((payload : Bytes) → r ≡ ok payload → Leaves F E (k payload))
    → Leaves F E (needs_payload r s k)
unfolding needs_payload
needs_payload-Leaves (err e) s k h next = leaves_failed e h
needs_payload-Leaves (ok payload) s k h next = next payload refl
