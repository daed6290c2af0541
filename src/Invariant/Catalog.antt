-- ===== src/Invariant/Catalog.antt =====
-- The products of a run: ProductAdded of `State.Apply` in internal/simulation/state.go.
use hacker_sprint2_sim.Common.{◌≡◌, false, arith}
use hacker_sprint2_sim.Common.Int.{pos, ◌+ℤ◌, ltz, int_laws}
use hacker_sprint2_sim.Common.Map.{insert, has, total-insert_new}
use hacker_sprint2_sim.Platform.{Platform}
use hacker_sprint2_sim.Events.{
  Event, Fact, fact, world_schedule_created, WorldScheduleCreated, product_added,
}
use hacker_sprint2_sim.State.{State}
use hacker_sprint2_sim.Outcome.{left}
use hacker_sprint2_sim.Outcome.Keeps.{Keeps, Keeps-left, keeps_rules}
use hacker_sprint2_sim.Apply.{apply, apply_fact}
use hacker_sprint2_sim.Apply.Run.{apply_world_schedule_created}
use hacker_sprint2_sim.Apply.Run.{total_view_probability, probability_scale, product_of}
use hacker_sprint2_sim.Events.World.{ProductAdded}

-- The probabilities of the products leave room for a visitor who looks at none.
abbrev pub IsDistribution : State → Type 0
IsDistribution s = ltz (pos probability_scale) (total_view_probability s.products) ≡ false

added :
    (s : State) (e : ProductAdded)
    → has e.product_id s.products ≡ false
    → ltz (pos probability_scale) (total_view_probability s.products +ℤ pos e.view_probability_ppm)
      ≡ false
    → IsDistribution (record s { products = insert e.product_id (product_of e) s.products })
unfolding total_view_probability has product_of
added s e new fits =
    let grown =
      total-insert_new (λ p. pos p.view_probability_ppm) e.product_id (product_of e) s.products
        (ground (arith)) in
    grind int_laws

apply_fact-IsDistribution :
    (env : Platform) (s : State) (e : Fact)
    → IsDistribution s
    → Keeps IsDistribution (apply_fact env s e)
unfolding apply_fact
apply_fact-IsDistribution env s (product_added e) h = search (keeps_rules, added) depth 20
apply_fact-IsDistribution env s _ h = search keeps_rules depth 20

apply_world_schedule_created-IsDistribution :
    (s : State) (e : WorldScheduleCreated)
    → IsDistribution s
    → Keeps IsDistribution (apply_world_schedule_created s e)
unfolding apply_world_schedule_created
apply_world_schedule_created-IsDistribution s e h = search keeps_rules depth 20

-- Every event keeps the sum of the view probabilities of all products at a million parts or less.
pub apply-IsDistribution :
    (env : Platform) (s : State) (e : Event)
    → IsDistribution s
    → IsDistribution (left (apply env s e))
unfolding apply
apply-IsDistribution env s (fact f) h =
    Keeps-left (apply_fact env s f) (apply_fact-IsDistribution env s f h)
apply-IsDistribution env s (world_schedule_created e) h =
    Keeps-left (apply_world_schedule_created s e)
      (apply_world_schedule_created-IsDistribution s e h)
