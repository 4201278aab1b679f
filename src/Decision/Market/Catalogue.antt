-- ===== src/Decision/Market/Catalogue.antt =====
-- proofops/decision/market.py: the categories and the reviewed agents.
use safehire_proofops_bnb.Prelude.{
  ℕ, String, Bool, true, false, ◌&&◌, Option, none, some, List, [], ◌∷◌, ◌==◌, str_eq,
  if◌then◌else◌,
}

pub record Category : Type 0 where
  pub category_name : String
  pub label : String
  pub required_capability : String
  pub question : String
  pub evidence_needed : List String

abbrev pub catalogue : List Category
catalogue =
    record {
      category_name = "rebalancing";
      label = "LP Rebalancing";
      required_capability = "lp_range_execution";
      question = "Can it reset an LP range, not merely price a portfolio rebalance?";
      evidence_needed =
          "LP position and pool" ∷ "range before / after" ∷ "net cost" ∷ "execution receipt" ∷ [];
    }
    ∷ record {
      category_name = "grid_trading";
      label = "Grid Trading";
      required_capability = "grid_order_management";
      question = "Can it manage orders, with fees, slippage and gas included?";
      evidence_needed =
          "pool and price snapshot" ∷ "round-trip costs" ∷ "order lifecycle"
          ∷ "cancel / stop evidence" ∷ [];
    }
    ∷ record {
      category_name = "yield_optimisation";
      label = "Yield Optimisation";
      required_capability = "liquidity_routing";
      question = "Does a move improve net yield after migration costs and risk?";
      evidence_needed =
          "current position" ∷ "comparable APR / APY" ∷ "break-even horizon" ∷ "routing receipt"
          ∷ [];
    }
    ∷ record {
      category_name = "health_factor_monitoring";
      label = "Health Factor";
      required_capability = "lending_position_protection";
      question = "Does monitoring lead to a bounded protective action?";
      evidence_needed =
          "protocol position" ∷ "oracle / block" ∷ "stress and repay target"
          ∷ "alert / protection receipt" ∷ [];
    }
    ∷ []

pub record Review : Type 0 where
  pub reviewed_token : ℕ
  pub reviewed_skill : String
  pub reviewed_category : String
  pub reviewed_capability : String
  pub fits_category : Bool

abbrev review : ℕ → String → String → String → Bool → Review
review n s c a f = record {
  reviewed_token = n;
  reviewed_skill = s;
  reviewed_category = c;
  reviewed_capability = a;
  fits_category = f;
}

-- `REVIEWED`
abbrev pub reviews : List Review
reviews =
    review 304494 "rebalance_plan" "rebalancing" "portfolio_rebalance_analysis" false
    ∷ review 302258 "grid_plan" "grid_trading" "grid_cost_analysis" true
    ∷ review 304493 "yield_plan" "yield_optimisation" "yield_comparison_analysis" true
    ∷ review 302257 "health_factor" "health_factor_monitoring" "lending_position_analysis" true
    ∷ []

unfoldable pub review_in : ℕ → String → List Review → Option Review
review_in token skill [] = none
review_in token skill (r ∷ rs) =
    if r.reviewed_token == token && str_eq r.reviewed_skill skill
    then some r
    else review_in token skill rs
