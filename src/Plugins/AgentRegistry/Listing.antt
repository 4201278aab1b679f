-- ===== src/Plugins/AgentRegistry/Listing.antt =====
-- What proofops/plugins/agent_registry.py lists.
use safehire_proofops_bnb.Prelude.{◌≡◌, List, [], ◌∷◌}
use safehire_proofops_bnb.Prelude.Raising.{Raising, ok, err}
use safehire_proofops_bnb.Domain.Agents.{AgentDescriptor, AgentError, Scores}
use safehire_proofops_bnb.Plugins.AgentRegistry.{Agents, check_agent, replace}

module _ {F : Type 0} ⦃sc : Scores F⦄ where
  -- What `validate` and `validate_category_metrics` accept.
  abbrev pub IsChecked : AgentDescriptor F → Type 0
  IsChecked a = check_agent a ≡ ok tt

  abbrev settled : Agents F → Raising AgentError (Agents F) → Agents F
  settled agents (ok more) = more
  settled agents (err e) = agents

  -- A sequence of `replace` calls; one that raises changes nothing.
  pub replace_each : List (AgentDescriptor F) → Agents F → Agents F
  replace_each [] agents = agents
  replace_each (a ∷ rest) agents = replace_each rest (settled agents (replace a agents))
