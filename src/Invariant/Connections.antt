-- ===== src/Invariant/Connections.antt =====
-- The connections to the databases: DatabaseConnectionOpened and DatabaseConnectionReleased in
-- applyDatabaseEvent of internal/simulation/database_state.go.
use hacker_sprint2_sim.Common.{◌≡◌, sym, ◌∙◌, ap, String, true, false, some, arith}
use mathlib.Core.Path.{subst}
use hacker_sprint2_sim.Common.Tests.{same, same_refl, eq_of_same}
use hacker_sprint2_sim.Common.Int.{ℤ, pos, ◌+ℤ◌, lez, int_laws}
use hacker_sprint2_sim.Common.Map.{lookup, erase, has, total}
use hacker_sprint2_sim.Platform.{Platform}
use hacker_sprint2_sim.Capacity.{count_at, add_at, sub_at}
use hacker_sprint2_sim.Events.{
  Event, Fact, fact, world_schedule_created, WorldScheduleCreated, database_connection_opened,
  database_connection_released,
}
use hacker_sprint2_sim.State.{State}
use hacker_sprint2_sim.Outcome.{done, left}
use hacker_sprint2_sim.Outcome.Keeps.{
  Ends, LeftAs, Keeps, Keeps-left, keeps_rules, Ends-refuse, Ends-done, Ends-found, Ends-fail,
}
use hacker_sprint2_sim.Apply.{apply, apply_fact}
use hacker_sprint2_sim.Apply.Run.{apply_world_schedule_created}
use hacker_sprint2_sim.State.Infrastructure.{DatabaseConnectionState, ServerState}
use hacker_sprint2_sim.Common.Int.{◌≤ℤ◌}
use hacker_sprint2_sim.Capacity.Index.{
  IsIndex, load_for, count_at-insert, add_at-IsIndex, sub_at-IsIndex,
}
use hacker_sprint2_sim.Events.Database.{DatabaseConnectionOpened, DatabaseConnectionReleased}
use hacker_sprint2_sim.Apply.Database.{
  apply_database_connection_opened, open_connection, close_connection, connection_of,
}

-- The counter of every database is the number of its open connections.
abbrev pub IsCounted : State → Type 0
IsCounted s =
    IsIndex (λ c. c.database_id) (λ c. pos 1) s.database_connections s.database_connection_counts

opened :
    (s : State) (e : DatabaseConnectionOpened)
    → IsCounted s
    → has e.request_id s.database_connections ≡ false
    → IsCounted (open_connection e s)
unfolding connection_of has
opened s e h new =
    add_at-IsIndex (λ c. c.database_id) (λ c. pos 1) e.request_id (connection_of e)
      s.database_connections s.database_connection_counts h (ground (arith))

released :
    (s : State) (e : DatabaseConnectionReleased) (c : DatabaseConnectionState)
    → IsCounted s
    → lookup e.request_id s.database_connections ≡ some c
    → same c.database_id e.database_id ≡ true
    → IsCounted (close_connection e s)
released s e c h old db =
    subst
      (λ k.
        IsIndex (λ c. c.database_id) (λ c. pos 1) (erase e.request_id s.database_connections)
          (sub_at k (pos 1) s.database_connection_counts))
      (eq_of_same c.database_id e.database_id db)
      (sub_at-IsIndex (λ c. c.database_id) (λ c. pos 1) e.request_id c s.database_connections
        s.database_connection_counts h old)

apply_fact-IsCounted :
    (env : Platform) (s : State) (e : Fact) → IsCounted s → Keeps IsCounted (apply_fact env s e)
unfolding apply_fact
apply_fact-IsCounted env s (database_connection_opened e) h = search (keeps_rules, opened) depth 20
apply_fact-IsCounted env s (database_connection_released e) h =
    Ends-found _ _ _ (Ends-fail _ h)
      λ c old. Ends-refuse _ _ s _ h λ g. Ends-done (released s e c h old (ground (arith)))
apply_fact-IsCounted env s _ h = search keeps_rules depth 20

apply_world_schedule_created-IsCounted :
    (s : State) (e : WorldScheduleCreated)
    → IsCounted s
    → Keeps IsCounted (apply_world_schedule_created s e)
unfolding apply_world_schedule_created
apply_world_schedule_created-IsCounted s e h = search keeps_rules depth 20

-- Every event, applied or refused, leaves the counter of every database at the number of its open
-- connections, where it was so before.
pub apply-IsCounted :
    (env : Platform) (s : State) (e : Event) → IsCounted s → IsCounted (left (apply env s e))
unfolding apply
apply-IsCounted env s (fact f) h = Keeps-left (apply_fact env s f) (apply_fact-IsCounted env s f h)
apply-IsCounted env s (world_schedule_created e) h =
    Keeps-left (apply_world_schedule_created s e) (apply_world_schedule_created-IsCounted s e h)

one_more : (limit n : ℤ) → lez limit n ≡ false → n +ℤ pos 1 ≤ℤ limit
one_more limit n h = grind int_laws

-- How many connections to the database are open.
unfoldable pub open_connections : String → State → ℤ
open_connections database s =
    total (load_for (λ c. c.database_id) (λ c. pos 1) database) s.database_connections

opens :
    (s : State) (e : DatabaseConnectionOpened) (server : ServerState)
    → IsCounted s
    → lookup e.server_id s.servers ≡ some server
    → Ends
        (λ t. Unit {0})
        (λ t. open_connections e.database_id t ≤ℤ server.connection_limit)
        (apply_database_connection_opened s e)
unfolding apply_database_connection_opened open_connections add_at
opens s e server h l = Ends-found _ _ _ (Ends-fail _ tt) λ d ld.
    Ends-found _ _ _ (Ends-fail _ tt) λ v lv. Ends-refuse _ _ s _ tt λ g.
      Ends-refuse _ _ s _ tt λ new.
        let same_server : v ≡ server = cc in
        let limit_eq : v.connection_limit ≡ server.connection_limit =
          ap (λ x. x.connection_limit) same_server in
        let count = count_at e.database_id s.database_connection_counts in
        let fits = one_more v.connection_limit count (ground (arith)) in
        let now : count_at e.database_id (open_connection e s).database_connection_counts
            ≡ count +ℤ pos 1 =
          count_at-insert e.database_id e.database_id (count +ℤ pos 1) s.database_connection_counts
          ∙ rw (same_refl e.database_id) in
        let summed = (opened s e h new).summed e.database_id in
        Ends-done (
          subst (λ x. x ≤ℤ server.connection_limit) (sym now ∙ summed)
            (subst (λ x. count +ℤ pos 1 ≤ℤ x) limit_eq fits))

-- A connection that is opened leaves no more connections open to its database than the limit of the
-- server that hosts it, where the counters were right before.
pub apply_database_connection_opened-limit :
    (s t : State) (e : DatabaseConnectionOpened) (server : ServerState)
    → IsCounted s
    → lookup e.server_id s.servers ≡ some server
    → apply_database_connection_opened s e ≡ done t
    → open_connections e.database_id t ≤ℤ server.connection_limit
apply_database_connection_opened-limit s t e server h l d =
    subst
      (LeftAs (λ t. Unit {0}) (λ t. open_connections e.database_id t ≤ℤ server.connection_limit)) d
      (opens s e server h l).ended
