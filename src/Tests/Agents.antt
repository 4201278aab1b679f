-- ===== src/Tests/Agents.antt =====
-- Runs of the agents' registry and score: metrics are natural numbers, a weight is taken in whole
-- hundredths and rounding does nothing.
use safehire_proofops_bnb.Prelude.{
  ℕ, ◌+◌, ◌*◌, ◌/◌, ◌≡◌, refl, true, false, not, some, List, [], ◌∷◌, ltb, arith,
}
use safehire_proofops_bnb.Domain.Canonical.{number}
use safehire_proofops_bnb.Domain.Models.{demo_fixture}
use safehire_proofops_bnb.Domain.Agents.{
  AgentDescriptor, Scores, yield_optimisation, mainnet_transaction, validate_metrics,
}
use safehire_proofops_bnb.Plugins.AgentProof.{breakdown_of, score}
use safehire_proofops_bnb.Plugins.AgentProof.Caps.{RoundingLaws, Capped, score-Capped}

sum : List ℕ → ℕ
sum [] = 0
sum (n ∷ ns) = n + sum ns

instance abbrev naturals : Scores ℕ
naturals = record {
  number = λ n. n;
  hundredths = λ n. n;
  lt = λ a b. ltb a b;
  ge = λ a b. not (ltb a b);
  total = sum;
  times = λ a b. a * b / 100;
  round = λ a _. a;
}

laws : RoundingLaws naturals
laws = record { whole = λ n k. refl; monotone = λ a b k e. e; irreflexive = λ a. ground arith }

-- Perfect metrics, backed by a fixture.
abbrev agent : AgentDescriptor ℕ
agent = record {
  agent_id = "a";
  name = "A";
  category = yield_optimisation;
  description = "";
  endpoint = "https://a";
  chain_id = 56;
  owner = "o";
  contract_address = some "0x";
  live_bsc = true;
  metrics = record {
    identity = 100;
    execution_reliability = 100;
    track_record = 100;
    risk = 100;
    cost = 100;
    benchmark_advantage = 100;
    freshness = 100;
    category_metrics =
        ("net_apy", number "1")
        ∷ ("yield_stability", number "1")
        ∷ ("protocol_exposure_count", number "1")
        ∷ ("reallocation_cost_usd", number "1")
        ∷ ("tvl_context_usd", number "1")
        ∷ ("risk_tier", number "1")
        ∷ [];
  };
  evidence =
      record { evidence_id = "e"; level = mainnet_transaction; source = demo_fixture; kind = "tx" }
      ∷ [];
  tags = [];
  version = "1";
}

score-Capped_example :
    Capped agent (breakdown_of agent).evidence_cap
    × (ltb (breakdown_of agent).evidence_cap (breakdown_of agent).final_score ≡ false)
unfolding score validate_metrics
score-Capped_example = score-Capped laws agent (breakdown_of agent) refl
