-- ===== src/Plugins/AgentRegistry.antt =====
-- proofops/plugins/agent_registry.py and services/marketplace.py: the agents that are listed.
pub mod Listing
use Prim.Native.String.{compare}
use Prim.Native.Nat.{Ordering}
use safehire_proofops_bnb.Prelude.{
  ℕ, ◌+◌, String, Bool, true, false, not, ◌&&◌, ◌||◌, Option, none, some, List, [], ◌∷◌, map,
  length, ltb, str_eq, if◌then◌else◌, keep,
}
use safehire_proofops_bnb.Prelude.Dict.{Dict, lookup, insert}
use safehire_proofops_bnb.Prelude.Members.{member}
use safehire_proofops_bnb.Prelude.Raising.{Raising, ok, err, guard, ◌>>=◌, ◌>>◌}
use safehire_proofops_bnb.Domain.Agents.{
  AgentCategory, rebalancing, grid_trading, yield_optimisation, health_factor, AgentDescriptor,
  AgentError, duplicate_agent, agent_not_found, compare_two_or_three, ids_not_unique, Scores,
  validate_agent, validate_category_metrics,
}
use safehire_proofops_bnb.Plugins.AgentProof.{ProofBreakdown, score}

abbrev pub Agents : Type 0 → Type 0
Agents F = Dict (AgentDescriptor F)

abbrev pub category_value : AgentCategory → String
category_value rebalancing = "rebalancing"
category_value grid_trading = "grid_trading"
category_value yield_optimisation = "yield_optimisation"
category_value health_factor = "health_factor_monitoring"

abbrev pub same_category : AgentCategory → AgentCategory → Bool
same_category a b = str_eq (category_value a) (category_value b)

unfoldable pub ids_differ : List String → Bool
ids_differ [] = true
ids_differ (x ∷ xs) = let rest = ids_differ xs in not (member x xs) && rest

-- `sorted(…, key=lambda item: (item.category.value, item.name))`
before_or_same : {F : Type 0} → AgentDescriptor F → AgentDescriptor F → Bool
before_or_same a b = elim (compare (category_value a.category) (category_value b.category)) [
  | Ordering.lt ↦ true
  | Ordering.gt ↦ false
  | Ordering.eq ↦ elim (compare a.name b.name) [ Ordering.gt ↦ false | _ ↦ true ]
]

put_agent : {F : Type 0} → AgentDescriptor F → List (AgentDescriptor F) → List (AgentDescriptor F)
unfolding before_or_same
put_agent a [] = a ∷ []
put_agent a (b ∷ bs) =
    let rest = put_agent a bs in if before_or_same a b then a ∷ b ∷ bs else b ∷ rest

unfoldable pub in_order : {F : Type 0} → List (AgentDescriptor F) → List (AgentDescriptor F)
unfolding put_agent
in_order [] = []
in_order (a ∷ as_) = put_agent a (in_order as_)

module _ {F : Type 0} ⦃sc : Scores F⦄ where
  unfoldable pub check_agent : AgentDescriptor F → Raising AgentError (Unit {0})
  check_agent a = do
    validate_agent a
    validate_category_metrics a.category a.metrics.category_metrics

  unfoldable pub check_each : List (AgentDescriptor F) → Raising AgentError (Unit {0})
  unfolding check_agent
  check_each [] = ok tt
  check_each (a ∷ rest) = do check_agent a; check_each rest

  unfoldable pub by_id : List (AgentDescriptor F) → Agents F
  by_id [] = []
  by_id (a ∷ rest) = (a.agent_id, a) ∷ by_id rest

  -- `AgentRegistry(agents)`
  unfoldable pub create : List (AgentDescriptor F) → Raising AgentError (Agents F)
  unfolding by_id check_each ids_differ
  create agents = do
    guard (ids_differ (map (λ a. a.agent_id) agents)) duplicate_agent
    check_each agents
    ok (by_id agents)

  unfoldable pub values : Agents F → List (AgentDescriptor F)
  values [] = []
  values ((_, a) ∷ agents) = a ∷ values agents

  unfoldable pub list_agents : Option AgentCategory → Agents F → List (AgentDescriptor F)
  unfolding values in_order
  list_agents none agents = in_order (values agents)
  list_agents (some category) agents =
      in_order (keep (λ a. same_category a.category category) (values agents))

  unfoldable pub get_agent : String → Agents F → Raising AgentError (AgentDescriptor F)
  get_agent id agents = elim (lookup id agents) [ none ↦ err (agent_not_found id) | some a ↦ ok a ]

  unfoldable pub replace : AgentDescriptor F → Agents F → Raising AgentError (Agents F)
  unfolding check_agent
  replace a agents = do check_agent a; ok (insert a.agent_id a agents)

  pub category_count : AgentCategory → Agents F → ℕ
  unfolding values
  category_count category agents =
      length (keep (λ a. same_category a.category category) (values agents))

  -- `MarketplaceService`: each agent with its score.
  unfoldable pub scored_each :
      List (AgentDescriptor F) → Raising AgentError (List (AgentDescriptor F × ProofBreakdown F))
  scored_each [] = ok []
  scored_each (a ∷ rest) = do proof ← score a; others ← scored_each rest; ok ((a, proof) ∷ others)

  unfoldable pub marketplace_list :
      Option AgentCategory
      → Agents F
      → Raising AgentError (List (AgentDescriptor F × ProofBreakdown F))
  unfolding scored_each list_agents
  marketplace_list category agents = scored_each (list_agents category agents)

  unfoldable pub get_each : List String → Agents F → Raising AgentError (List (AgentDescriptor F))
  unfolding get_agent
  get_each [] agents = ok []
  get_each (id ∷ ids) agents = do a ← get_agent id agents; rest ← get_each ids agents; ok (a ∷ rest)

  unfoldable pub compare_agents :
      List String → Agents F → Raising AgentError (List (AgentDescriptor F × ProofBreakdown F))
  unfolding ids_differ get_each scored_each
  compare_agents ids agents = do
    guard (not (ltb (length ids) 2 || ltb 3 (length ids))) compare_two_or_three
    guard (ids_differ ids) ids_not_unique
    found ← get_each ids agents
    scored_each found
