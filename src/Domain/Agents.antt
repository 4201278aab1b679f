-- ===== src/Domain/Agents.antt =====
-- proofops/domain/models.py and category_metrics.py: what the marketplace knows of an agent. A score
-- is a float of a type `F`.
use Prim.Native.Char.{code}
use safehire_proofops_bnb.Prelude.{
  ℕ, String, Bool, true, false, not, ◌&&◌, ◌||◌, Option, none, some, List, [], ◌∷◌, ◌==◌, ltb,
  str_eq, if◌then◌else◌, is_empty, keep,
}
use safehire_proofops_bnb.Prelude.Dict.{Dict, lookup}
use safehire_proofops_bnb.Prelude.Raising.{Raising, guard, ◌>>◌}
use safehire_proofops_bnb.Domain.Canonical.{Json, null}
use safehire_proofops_bnb.Domain.Models.{DataSource, demo_fixture}

pub data AgentCategory : Type 0 where
  rebalancing grid_trading yield_optimisation health_factor : AgentCategory

pub data EvidenceLevel : Type 0 where
  self_reported_level signed_endpoint testnet_transaction mainnet_transaction
        verified_track_record :
      EvidenceLevel

-- `EvidenceRef`, less what the code only prints
pub record EvidenceRef : Type 0 where
  pub evidence_id : String
  pub level : EvidenceLevel
  pub source : DataSource
  pub kind : String

pub record AgentMetrics (F : Type 0) : Type 0 where
  pub identity : F
  pub execution_reliability : F
  pub track_record : F
  pub risk : F
  pub cost : F
  pub benchmark_advantage : F
  pub freshness : F
  pub category_metrics : Dict Json

pub record AgentDescriptor (F : Type 0) : Type 0 where
  pub agent_id : String
  pub name : String
  pub category : AgentCategory
  pub description : String
  pub endpoint : String
  pub chain_id : ℕ
  pub owner : String
  pub contract_address : Option String
  pub live_bsc : Bool
  pub metrics : AgentMetrics F
  pub evidence : List EvidenceRef
  pub tags : List String
  pub version : String

-- The floats of a score: `number n` is `n.0`, `hundredths n` is the literal `n / 100`, and `total` is
-- Python's `sum`.
pub record Scores (F : Type 0) : Type 0 where
  pub number : ℕ → F
  pub hundredths : ℕ → F
  pub lt : F → F → Bool
  pub ge : F → F → Bool
  pub total : List F → F
  pub times : F → F → F
  pub round : F → ℕ → F

pub data AgentError : Type 0 where
  metric_out_of_range : String → AgentError
  id_and_name_required unlisted_chain endpoint_not_http : AgentError
  missing_metrics : List String → AgentError
  duplicate_agent : AgentError
  agent_not_found : String → AgentError
  compare_two_or_three ids_not_unique : AgentError

abbrev pub level_number : EvidenceLevel → ℕ
level_number self_reported_level = 0
level_number signed_endpoint = 1
level_number testnet_transaction = 2
level_number mainnet_transaction = 3
level_number verified_track_record = 4

unfoldable pub required_category_metrics : AgentCategory → List String
required_category_metrics rebalancing =
    "net_apr" ∷ "in_range_ratio" ∷ "rebalance_count" ∷ "fee_earned_usd" ∷ "impermanent_loss_pct"
    ∷ "max_drawdown_pct" ∷ "average_execution_cost_usd" ∷ []
required_category_metrics grid_trading =
    "return_7d_pct" ∷ "return_30d_pct" ∷ "win_rate" ∷ "max_drawdown_pct" ∷ "trades"
    ∷ "average_slippage_bps" ∷ "turnover_usd" ∷ "track_record_days" ∷ []
required_category_metrics yield_optimisation =
    "net_apy" ∷ "yield_stability" ∷ "protocol_exposure_count" ∷ "reallocation_cost_usd"
    ∷ "tvl_context_usd" ∷ "risk_tier" ∷ []
required_category_metrics health_factor =
    "minimum_health_factor" ∷ "alert_latency_seconds" ∷ "response_latency_seconds" ∷ "uptime_pct"
    ∷ "failed_actions" ∷ "liquidations_prevented" ∷ "capital_used_usd" ∷ []

abbrev is_missing : Dict Json → String → Bool
is_missing metrics name = elim (lookup name metrics) [
  | none ↦ true
  | some value ↦ elim value [ null ↦ true | _ ↦ false ]
]

unfoldable pub missing_category_metrics : AgentCategory → Dict Json → List String
unfolding required_category_metrics
missing_category_metrics category metrics =
    keep (is_missing metrics) (required_category_metrics category)

unfoldable pub validate_category_metrics : AgentCategory → Dict Json → Raising AgentError (Unit {0})
unfolding missing_category_metrics
validate_category_metrics category metrics =
    let missing = missing_category_metrics category metrics in
    guard (is_empty missing) (missing_metrics missing)

-- The strongest of the levels, the first of two that are alike.
unfoldable pub stronger_of : EvidenceLevel → List EvidenceRef → EvidenceLevel
stronger_of best [] = best
stronger_of best (e ∷ es) =
    stronger_of (if ltb (level_number best) (level_number e.level) then e.level else best) es

unfoldable pub strongest_evidence_level : {F : Type 0} → AgentDescriptor F → EvidenceLevel
unfolding stronger_of
strongest_evidence_level agent = stronger_of self_reported_level agent.evidence

abbrev pub from_fixture : EvidenceRef → Bool
from_fixture e = elim e.source [ demo_fixture ↦ true | _ ↦ false ]

unfoldable pub has_fixture_evidence : {F : Type 0} → AgentDescriptor F → Bool
has_fixture_evidence agent = not (is_empty (keep from_fixture agent.evidence))

starts_with : String → String → Bool
starts_with String.[] s = true
starts_with (String.◌∷◌ c p) String.[] = false
starts_with (String.◌∷◌ c p) (String.◌∷◌ d s) = code c == code d && starts_with p s

module _ {F : Type 0} ⦃sc : Scores F⦄ where
  in_range : String → F → Raising AgentError (Unit {0})
  in_range name value =
      guard (not (sc.lt value (sc.number 0) || sc.lt (sc.number 100) value))
        (metric_out_of_range name)

  unfoldable pub validate_metrics : AgentMetrics F → Raising AgentError (Unit {0})
  unfolding in_range
  validate_metrics m = do
    in_range "identity" m.identity
    in_range "execution_reliability" m.execution_reliability
    in_range "track_record" m.track_record
    in_range "risk" m.risk
    in_range "cost" m.cost
    in_range "benchmark_advantage" m.benchmark_advantage
    in_range "freshness" m.freshness

  unfoldable pub validate_agent : AgentDescriptor F → Raising AgentError (Unit {0})
  unfolding starts_with validate_metrics
  validate_agent a = do
    guard (not (str_eq a.agent_id "" || str_eq a.name "")) id_and_name_required
    guard (a.chain_id == 56 || a.chain_id == 97) unlisted_chain
    guard (starts_with "https://" a.endpoint || starts_with "http://" a.endpoint) endpoint_not_http
    validate_metrics a.metrics
