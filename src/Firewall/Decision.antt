-- ===== src/Firewall/Decision.antt =====
-- Which rule decides: evaluateFirewall of internal/simulation/firewall.go.
use hacker_sprint2_sim.Common.{
  ℕ, zero, suc, ◌≡◌, refl, String, Bool, true, false, ◌&&◌, Option, none, some, List, [], ◌∷◌,
  arith, inl, inr, ap, ◌∙◌,
}
use hacker_sprint2_sim.Common.Tests.{if◌then◌else◌, Bool-cases, true_ne_false}
use hacker_sprint2_sim.Common.Lists.{All, All-map, get_elem?}
use hacker_sprint2_sim.Common.Sort.{sort, place, IsSorted, behind, sort-IsSorted}
use hacker_sprint2_sim.Common.Text.{before, before_irrefl, before_trans, before_total}
use hacker_sprint2_sim.Platform.{Platform}
use hacker_sprint2_sim.Model.Types.{Time}
use hacker_sprint2_sim.Model.Firewall.{ClientProfile}
use hacker_sprint2_sim.State.Traffic.{FirewallRuleState}
use hacker_sprint2_sim.Firewall.{
  rule_before, is_live, live_rules, first_match, decision_of, evaluate_rules, firewall_rule_matches,
}

before_neg_trans : (p q r : String) → before p q ≡ false → before q r ≡ false → before p r ≡ false
before_neg_trans p q r h k = elim (Bool-cases (before p r)) [
  | inr e ↦ e
  | inl e ↦ elim (Bool-cases (before r q)) [
    | inl f ↦ absurd (true_ne_false (before_trans p r q e f) h)
    | inr f ↦ ground (arith, before_total q r k f)
  ]
]

rule_before_irrefl : (a : FirewallRuleState) → rule_before a a ≡ false
unfolding rule_before
rule_before_irrefl a = ground (arith, before_irrefl a.rule.id)

before_asym : (p q : String) → before p q ≡ true → before q p ≡ false
before_asym p q h = elim (Bool-cases (before q p)) [
  | inr e ↦ e
  | inl e ↦ absurd (true_ne_false (before_trans p q p h e) (before_irrefl p))
]

rule_before_asym : (a b : FirewallRuleState) → rule_before a b ≡ true → rule_before b a ≡ false
unfolding rule_before
rule_before_asym a b h = ground (arith, before_asym a.rule.id b.rule.id)

rule_before_neg_trans :
    (a b c : FirewallRuleState)
    → rule_before a b ≡ false
    → rule_before b c ≡ false
    → rule_before a c ≡ false
unfolding rule_before
rule_before_neg_trans a b c h k = ground (arith, before_neg_trans a.rule.id b.rule.id c.rule.id)

module _ (env : Platform) (profile : ClientProfile) where
  abbrev pub matches : FirewallRuleState → Bool
  matches r = firewall_rule_matches env r.rule profile

  -- The better of a rule and of what was chosen so far.
  prefer : FirewallRuleState → Option FirewallRuleState → Option FirewallRuleState
  prefer x none = some x
  prefer x (some r) = if rule_before r x then some r else some x

  prefer_if : Bool → FirewallRuleState → Option FirewallRuleState → Option FirewallRuleState
  prefer_if true x o = prefer x o
  prefer_if false x o = o

  prefer-behind :
      (x : FirewallRuleState) (ys : List FirewallRuleState)
      → All (λ y. rule_before y x ≡ false) ys
      → prefer x (first_match env profile ys) ≡ some x
  unfolding prefer first_match
  prefer-behind x [] a = refl
  prefer-behind x (y ∷ ys) a = let rest = prefer-behind x ys a.1 in ground (arith)

  first_match-place :
      (x : FirewallRuleState) (ys : List FirewallRuleState)
      → IsSorted rule_before ys
      → first_match env profile (place rule_before x ys)
        ≡ prefer_if (matches x) x (first_match env profile ys)
  unfolding prefer_if prefer place first_match
  first_match-place x [] h = ground (arith)
  first_match-place x (y ∷ ys) h = elim (Bool-cases (rule_before y x)) [
    | inl e ↦ let rest = first_match-place x ys h.1 in ground (arith)
    | inr e ↦
        let first =
          prefer-behind x (y ∷ ys)
            (e, behind rule_before rule_before_asym rule_before_neg_trans x y ys e h.0) in
        ground (arith)
  ]

  abbrev pub applies : Time → FirewallRuleState → Bool
  applies at r = is_live at r && matches r

  -- The best of all rules that apply, found without sorting.
  least : Time → List FirewallRuleState → Option FirewallRuleState
  least at [] = none
  least at (r ∷ rs) = prefer_if (applies at r) r (least at rs)

  first_match-least :
      (at : Time) (rules : List FirewallRuleState)
      → first_match env profile (sort rule_before (live_rules at rules)) ≡ least at rules
  unfolding first_match sort live_rules least prefer_if
  first_match-least at [] = refl
  first_match-least at (r ∷ rs) =
      let rest = first_match-least at rs in
      let placed =
        first_match-place r (sort rule_before (live_rules at rs))
          (sort-IsSorted rule_before rule_before_asym rule_before_neg_trans (live_rules at rs)) in
      elim (Bool-cases (is_live at r)) [
        | inl e ↦ rw e (placed ∙ ap (prefer_if (matches r) r) rest)
        | inr e ↦ rw e rest
      ]

  -- Nothing applies, or the rule is one of the list that applies, and none that applies precedes
  -- it by priority and identifier.
  abbrev pub IsChosen : Time → List FirewallRuleState → Option FirewallRuleState → Type 0
  IsChosen at rules none = All (λ q. applies at q ≡ false) rules
  IsChosen at rules (some r) =
      ((i : ℕ) × (get_elem? rules i ≡ some r))
      × (applies at r ≡ true)
      × All (λ q. applies at q ≡ true → rule_before q r ≡ false) rules

  IsChosen-prefer :
      (at : Time) (r q : FirewallRuleState) (rs : List FirewallRuleState)
      → applies at r ≡ true
      → IsChosen at rs (some q)
      → IsChosen at (r ∷ rs) (if rule_before q r then some q else some r)
  IsChosen-prefer at r q rs h ((i, l), app, best) = elim (Bool-cases (rule_before q r)) [
    | inl e ↦ rw e ((suc i, l), app, ((λ t. rule_before_asym q r e), best))
    | inr e ↦ rw e (
      (zero, refl),
      h,
      ((λ t. rule_before_irrefl r), All-map rs (λ p f t. rule_before_neg_trans p q r (f t) e) best),
    )
  ]

  prefer_if-IsChosen :
      (at : Time) (r : FirewallRuleState) (rs : List FirewallRuleState) (b : Bool)
      (o : Option FirewallRuleState)
      → applies at r ≡ b
      → IsChosen at rs o
      → IsChosen at (r ∷ rs) (prefer_if b r o)
  unfolding prefer_if prefer
  prefer_if-IsChosen at r rs false none h c = (h, c)
  prefer_if-IsChosen at r rs false (some q) h ((i, l), app, best) =
      ((suc i, l), app, ((λ t. absurd (true_ne_false t h)), best))
  prefer_if-IsChosen at r rs true none h c = (
    (zero, refl),
    h,
    ((λ t. rule_before_irrefl r), All-map rs (λ q g t. absurd (true_ne_false t g)) c),
  )
  prefer_if-IsChosen at r rs true (some q) h c = IsChosen-prefer at r q rs h c

  least-IsChosen : (at : Time) (rules : List FirewallRuleState) → IsChosen at rules (least at rules)
  unfolding least
  least-IsChosen at [] = tt
  least-IsChosen at (r ∷ rs) =
      prefer_if-IsChosen at r rs (applies at r) (least at rs) refl (least-IsChosen at rs)

  -- Whatever order the rules come in, the decision is that of a rule that is enabled, not expired
  -- and matching, and that no other such rule precedes by priority and identifier; where there is
  -- none, the request is allowed.
  pub evaluate_rules-IsChosen :
      (at : Time) (rules : List FirewallRuleState)
      → (o : Option FirewallRuleState) × IsChosen at rules o
        × (evaluate_rules env rules profile at ≡ decision_of o)
  unfolding evaluate_rules
  evaluate_rules-IsChosen at rules =
      (least at rules, least-IsChosen at rules, ap decision_of (first_match-least at rules))
