-- ===== src/Plugins/AgentProof.antt =====
-- proofops/plugins/agent_proof.py: the score of an agent, capped by its evidence. The caps are whole
-- numbers; weights, rounding and Python's `sum` belong to the floats.
pub mod Caps
use safehire_proofops_bnb.Prelude.{
  ℕ, String, Bool, true, false, not, ◌||◌, Option, none, some, List, [], ◌∷◌, ◌++◌, min, leb,
  str_eq, if◌then◌else◌, is_empty, keep, map, ◌==◌,
}
use safehire_proofops_bnb.Prelude.Raising.{Raising, ok, err, ◌>>=◌, ◌>>◌}
use safehire_proofops_bnb.Domain.Models.{
  DataSource, live_onchain, verified_historical, testnet_evidence, benchmark_generated,
  demo_fixture, self_reported,
}
use safehire_proofops_bnb.Domain.Agents.{
  AgentMetrics, AgentDescriptor, AgentError, EvidenceLevel, EvidenceRef, self_reported_level,
  signed_endpoint, testnet_transaction, mainnet_transaction, verified_track_record, Scores,
  level_number, strongest_evidence_level, has_fixture_evidence, missing_category_metrics,
  validate_metrics,
}

pub data Penalty : Type 0 where
  no_evidence fixture_evidence not_live no_contract : Penalty
  missing_category : List String → Penalty

pub data Strength : Type 0 where
  high_reliability strong_risk_controls mainnet_evidence track_record_present : Strength

pub record ProofBreakdown (F : Type 0) : Type 0 where
  pub raw_score : F
  pub final_score : F
  pub evidence_cap : ℕ
  pub weighted_components : List (String × F)
  pub penalties : List Penalty
  pub strengths : List Strength
  pub strongest : EvidenceLevel
  pub source_labels : List DataSource

unfoldable pub level_cap : EvidenceLevel → ℕ
level_cap self_reported_level = 35
level_cap signed_endpoint = 55
level_cap testnet_transaction = 75
level_cap mainnet_transaction = 90
level_cap verified_track_record = 100

-- `not agent.contract_address`: an empty text counts as none.
abbrev pub has_no_contract : {F : Type 0} → AgentDescriptor F → Bool
has_no_contract agent = elim agent.contract_address [ none ↦ true | some a ↦ str_eq a "" ]

abbrev pub lowered_to : ℕ → Bool → ℕ → ℕ
lowered_to most hit cap = if hit then min cap most else cap

-- The cap after every `cap = min(cap, …)`.
unfoldable pub evidence_cap : {F : Type 0} → AgentDescriptor F → ℕ
unfolding level_cap
evidence_cap agent =
    let missing = missing_category_metrics agent.category agent.metrics.category_metrics in
    lowered_to 45 (not (is_empty missing)) (
      lowered_to 60 (has_no_contract agent) (
        lowered_to 50 (not agent.live_bsc) (
          lowered_to 30 (has_fixture_evidence agent) (level_cap (strongest_evidence_level agent)))))

abbrev listed_if : {A : Type 0} → Bool → A → List A
listed_if hit a = if hit then a ∷ [] else []

unfoldable pub penalties_of : {F : Type 0} → AgentDescriptor F → List Penalty
penalties_of agent =
    let missing = missing_category_metrics agent.category agent.metrics.category_metrics in
    listed_if (is_empty agent.evidence) no_evidence
    ++ (listed_if (has_fixture_evidence agent) fixture_evidence
        ++ (listed_if (not agent.live_bsc) not_live
            ++ (listed_if (has_no_contract agent) no_contract
                ++ listed_if (not (is_empty missing)) (missing_category missing))))

is_source : DataSource → EvidenceRef → Bool
is_source live_onchain e = elim e.source [ live_onchain ↦ true | _ ↦ false ]
is_source verified_historical e = elim e.source [ verified_historical ↦ true | _ ↦ false ]
is_source testnet_evidence e = elim e.source [ testnet_evidence ↦ true | _ ↦ false ]
is_source benchmark_generated e = elim e.source [ benchmark_generated ↦ true | _ ↦ false ]
is_source demo_fixture e = elim e.source [ demo_fixture ↦ true | _ ↦ false ]
is_source self_reported e = elim e.source [ self_reported ↦ true | _ ↦ false ]

-- The distinct sources, in the order of their values.
sources_of : List EvidenceRef → List DataSource
unfolding is_source
sources_of evidence =
    keep (λ s. not (is_empty (keep (is_source s) evidence)))
      (benchmark_generated ∷ demo_fixture ∷ live_onchain ∷ self_reported ∷ testnet_evidence
        ∷ verified_historical ∷ [])

module _ {F : Type 0} ⦃sc : Scores F⦄ where
  unfoldable pub components_of : AgentMetrics F → List (String × F)
  components_of m =
      ("identity", sc.round (sc.times m.identity (sc.hundredths 10)) 3)
      ∷ ("execution_reliability", sc.round (sc.times m.execution_reliability (sc.hundredths 20)) 3)
      ∷ ("track_record", sc.round (sc.times m.track_record (sc.hundredths 15)) 3)
      ∷ ("risk", sc.round (sc.times m.risk (sc.hundredths 20)) 3)
      ∷ ("cost", sc.round (sc.times m.cost (sc.hundredths 10)) 3)
      ∷ ("benchmark_advantage", sc.round (sc.times m.benchmark_advantage (sc.hundredths 15)) 3)
      ∷ ("freshness", sc.round (sc.times m.freshness (sc.hundredths 10)) 3)
      ∷ []

  -- Python's `min` returns the second only where it is less.
  unfoldable pub lesser : F → F → F
  lesser a b = if sc.lt b a then b else a

  strengths_of : AgentDescriptor F → List Strength
  strengths_of agent =
      let level = level_number (strongest_evidence_level agent) in
      listed_if (sc.ge agent.metrics.execution_reliability (sc.number 85)) high_reliability
      ++ (listed_if (sc.ge agent.metrics.risk (sc.number 85)) strong_risk_controls
          ++ (listed_if (leb 3 level) mainnet_evidence
              ++ listed_if (level == 4) track_record_present))

  unfoldable pub breakdown_of : AgentDescriptor F → ProofBreakdown F
  unfolding evidence_cap penalties_of components_of lesser strengths_of sources_of
  breakdown_of agent =
      let components = components_of agent.metrics in
      let raw = sc.round (sc.total (map (λ c. c.1) components)) 2 in
      let cap = evidence_cap agent in
      record {
        raw_score = raw;
        final_score = sc.round (lesser raw (sc.number cap)) 2;
        evidence_cap = cap;
        weighted_components = components;
        penalties = penalties_of agent;
        strengths = strengths_of agent;
        strongest = strongest_evidence_level agent;
        source_labels = sources_of agent.evidence;
      }

  unfoldable pub score : AgentDescriptor F → Raising AgentError (ProofBreakdown F)
  unfolding breakdown_of
  score agent = do validate_metrics agent.metrics; ok (breakdown_of agent)
