-- ===== src/Plugins/AgentProof/Caps.antt =====
-- What evidence can buy in proofops/plugins/agent_proof.py.
use mathlib.Core.Path.{subst}
use safehire_proofops_bnb.Prelude.{ℕ, ◌≤◌, ◌≡◌, true, false, is_empty, arith, Bool-cases, inl, inr}
use safehire_proofops_bnb.Prelude.Raising.{ok, bind-ok, ok_inj}
use safehire_proofops_bnb.Domain.Agents.{
  AgentDescriptor, Scores, strongest_evidence_level, has_fixture_evidence, missing_category_metrics,
  validate_metrics,
}
use safehire_proofops_bnb.Plugins.AgentProof.{
  ProofBreakdown, level_cap, evidence_cap, has_no_contract, breakdown_of, score, lesser,
}

-- What rounding a whole number and rounding two numbers in order do.
pub record RoundingLaws {F : Type 0} (sc : Scores F) : Type 0 where
  pub whole : (n k : ℕ) → sc.round (sc.number n) k ≡ sc.number n
  pub monotone : (a b : F) (k : ℕ) → sc.lt b a ≡ false → sc.lt (sc.round b k) (sc.round a k) ≡ false
  pub irreflexive : (a : F) → sc.lt a a ≡ false

-- The caps of an agent, one for each kind of evidence that it lacks.
pub record Capped {F : Type 0} (agent : AgentDescriptor F) (cap : ℕ) : Type 0 where
  pub by_level : cap ≤ level_cap (strongest_evidence_level agent)
  pub fixture : has_fixture_evidence agent ≡ true → cap ≤ 30
  pub offline : agent.live_bsc ≡ false → cap ≤ 50
  pub no_contract : has_no_contract agent ≡ true → cap ≤ 60
  pub incomplete :
      is_empty (missing_category_metrics agent.category agent.metrics.category_metrics) ≡ false
      → cap ≤ 45

evidence_cap-Capped : {F : Type 0} (agent : AgentDescriptor F) → Capped agent (evidence_cap agent)
unfolding evidence_cap
evidence_cap-Capped agent = record {
  by_level = ground arith;
  fixture = λ h. ground arith;
  offline = λ h. ground arith;
  no_contract = λ h. ground arith;
  incomplete = λ h. ground arith;
}

module _ {F : Type 0} ⦃sc : Scores F⦄ (laws : RoundingLaws sc) where
  lesser-capped :
      (raw : F) (cap : ℕ) → sc.lt (sc.number cap) (sc.round (lesser raw (sc.number cap)) 2) ≡ false
  unfolding lesser
  lesser-capped raw cap = elim (Bool-cases (sc.lt (sc.number cap) raw)) [
    | inl above ↦ rw above (rw (laws.whole cap 2) (laws.irreflexive (sc.number cap)))
    | inr below ↦ rw below (
        subst (λ x. sc.lt x (sc.round raw 2) ≡ false) (laws.whole cap 2)
          (laws.monotone raw (sc.number cap) 2 below))
  ]

  -- A score that is returned never exceeds the agent's evidence cap, and the cap never exceeds what
  -- the strongest evidence allows, 30 with fixture evidence, 50 when not live, 60 without a contract
  -- and 45 with category metrics missing, however high the metrics are.
  pub score-Capped :
      (agent : AgentDescriptor F) (proof : ProofBreakdown F)
      → score agent ≡ ok proof
      → Capped agent proof.evidence_cap
        × (sc.lt (sc.number proof.evidence_cap) proof.final_score ≡ false)
  unfolding score breakdown_of
  score-Capped agent proof e =
      let (u, valid, made) = bind-ok (validate_metrics agent.metrics) _ proof e in
      let same : breakdown_of agent ≡ proof = ok_inj made in
      subst
        (λ p.
          Capped agent p.evidence_cap × (sc.lt (sc.number p.evidence_cap) p.final_score ≡ false))
        same (evidence_cap-Capped agent, lesser-capped _ (evidence_cap agent))
