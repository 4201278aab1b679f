-- ===== src/Execution/RiskGate/Authorization.antt =====
-- What an allowed decision of `RiskGate.evaluate` certifies.
use safehire_proofops_bnb.Prelude.{
  is_empty, ℕ, ◌<◌, ◌≤◌, String, ◌≡◌, refl, ◌≢◌, ◌⊎◌, ◌↔◌, Bool, true, false, not, List, [], ◌∷◌,
  map, arith, eq_iff, str_eq, All, ◌==◌, leb, ltb, ◌&&◌, ◌||◌,
}
use safehire_proofops_bnb.Prelude.Members.{member, Listed, member_iff}
use safehire_proofops_bnb.Prelude.Text.{lower}
use safehire_proofops_bnb.Domain.Models.{
  Floats, DataSource, demo_fixture, ExecutionMode, demo, bsc_testnet, bsc_mainnet, Policy, Intent,
}
use safehire_proofops_bnb.Execution.RiskGate.{
  GateView, Reason, collect, checks, evaluate, is_fixture, is_demo, is_mainnet, is_testnet,
}

-- No reason is collected exactly when no condition holds.
collect_nil : (cs : List (Bool × Reason)) → (collect cs ≡ []) ↔ All (λ c. c.0 ≡ false) cs
unfolding collect
collect_nil [] = (λ e. tt, λ h. refl)
collect_nil ((true, r) ∷ cs) = (λ e. absurd (cc), λ h. absurd (cc (h.0)))
collect_nil ((false, r) ∷ cs) = let ih = collect_nil cs in (λ e. (refl, ih.0 e), λ h. ih.1 h.1)

-- Each condition of `evaluate` fails exactly when the fact that it guards holds.
not_iff : (b : Bool) → (not b ≡ false) ↔ (b ≡ true)
not_iff true = (λ e. refl, λ e. refl)
not_iff false = (λ e. absurd (cc), λ e. absurd (cc))

leb_iff : (a b : ℕ) → (leb a b ≡ false) ↔ (b < a)
leb_iff a b = (λ e. ground arith, λ h. ground arith)

ltb_iff : (a b : ℕ) → (ltb a b ≡ false) ↔ (b ≤ a)
ltb_iff a b = (λ e. ground arith, λ h. ground arith)

differs_iff : (s t : String) → (not (str_eq s t) ≡ false) ↔ (s ≡ t)
differs_iff s t = (λ e. (eq_iff s t).0 ((not_iff _).0 e), λ h. (not_iff _).1 ((eq_iff s t).1 h))

differs_num_iff : (a b : ℕ) → (not (a == b) ≡ false) ↔ (a ≡ b)
differs_num_iff a b = (λ e. ground arith, λ h. ground arith)

chain_iff : (c : ℕ) → (not (c == 56 || c == 97) ≡ false) ↔ ((c ≡ 56) ⊎ (c ≡ 97))
chain_iff c = (λ e. ground arith, λ h. ground arith)

mainnet_iff : (c : ℕ) (b : Bool) → ((c == 56 && not b) ≡ false) ↔ (c ≡ 56 → b ≡ true)
mainnet_iff c b = (λ e h. ground arith, λ h. ground arith)

unlisted_iff : (x : String) (ys : List String) → (not (member x ys) ≡ false) ↔ Listed x ys
unlisted_iff x ys =
    (λ e. (member_iff x ys).0 ((not_iff _).0 e), λ h. (not_iff _).1 ((member_iff x ys).1 h))

approval_iff : (a b : Bool) → ((a && not b) ≡ false) ↔ (a ≡ true → b ≡ true)
approval_iff a b = (λ e h. ground arith, λ h. ground arith)

key_iff : (k : String) → (str_eq k "" ≡ false) ↔ (k ≢ "")
key_iff k = (λ e h. absurd (cc ((eq_iff k "").1 h)), λ h. ground (arith, eq_iff k ""))

fresh_key_of : (b c : Bool) → b ≡ false → (not b && c) ≡ false → c ≡ false
fresh_key_of b c e h = ground arith

fresh_key_to : (b c : Bool) → c ≡ false → (not b && c) ≡ false
fresh_key_to b c e = ground arith

fixture_iff :
    (s : DataSource) (m : ExecutionMode)
    → ((is_fixture s && not (is_demo m)) ≡ false) ↔ (s ≡ demo_fixture → m ≡ demo)
fixture_iff s m = (λ e h. ground arith, λ h. ground arith)

mainnet_mode_iff :
    (m : ExecutionMode) (c : ℕ)
    → ((is_mainnet m && not (c == 56)) ≡ false) ↔ (m ≡ bsc_mainnet → c ≡ 56)
mainnet_mode_iff m c = (λ e h. ground arith, λ h. ground arith)

testnet_mode_iff :
    (m : ExecutionMode) (c : ℕ)
    → ((is_testnet m && not (c == 97)) ≡ false) ↔ (m ≡ bsc_testnet → c ≡ 97)
testnet_mode_iff m c = (λ e h. ground arith, λ h. ground arith)

is_empty_iff : (rs : List Reason) → (is_empty rs ≡ true) ↔ (rs ≡ [])
is_empty_iff [] = (λ e. refl, λ e. refl)
is_empty_iff (r ∷ rs) = (λ e. absurd (cc), λ e. absurd (cc))

module _ {F : Type 0} ⦃fl : Floats F⦄ where
  -- The authority that a policy grants an intent, stated without the gate's code.
  pub record Authorized (gate : GateView F) (now : ℕ) (i : Intent F) (p : Policy F) : Type 0 where
    pub not_killed : gate.kill_switch ≡ false
    pub not_revoked : p.revoked ≡ false
    pub policy_live : now < p.expires_at
    pub deadline_ahead : now < i.deadline
    pub same_agent : i.agent_id ≡ p.agent_id
    pub same_chain : i.chain_id ≡ p.chain_id
    pub known_chain : (i.chain_id ≡ 56) ⊎ (i.chain_id ≡ 97)
    pub mainnet_enabled : i.chain_id ≡ 56 → gate.allow_bsc_mainnet ≡ true
    pub target_listed : Listed (lower i.target) (map lower p.allowed_targets)
    pub method_listed : Listed (lower i.method) (map lower p.allowed_methods)
    pub not_negative : fl.lt i.value_usd fl.zero_usd ≡ false
    pub within_cap : fl.lt p.max_value_usd i.value_usd ≡ false
    pub within_day :
        fl.lt p.daily_value_usd (fl.add (gate.spent_today p.policy_id) i.value_usd) ≡ false
    pub within_slippage : i.slippage_bps ≤ p.max_slippage_bps
    pub simulated : i.simulation_passed ≡ true
    pub approved : p.require_human_approval ≡ true → i.human_approved ≡ true
    pub has_key : i.idempotency_key ≢ ""
    pub fresh_key : gate.idempotency_seen i.idempotency_key ≡ false
    pub fixture_demo : i.source ≡ demo_fixture → i.mode ≡ demo
    pub mainnet_mode : i.mode ≡ bsc_mainnet → i.chain_id ≡ 56
    pub testnet_mode : i.mode ≡ bsc_testnet → i.chain_id ≡ 97

  module _ (gate : GateView F) (now : ℕ) (i : Intent F) (p : Policy F) where
    abbrev NoneFails : Type 0
    NoneFails = All (λ c. c.0 ≡ false) (checks gate now i p)

    NoneFails→Authorized : NoneFails → Authorized gate now i p
    unfolding checks
    NoneFails→Authorized h = record {
      not_killed = h.0;
      not_revoked = h.1.0;
      policy_live = (leb_iff _ _).0 (h.1.1.0);
      deadline_ahead = (leb_iff _ _).0 (h.1.1.1.0);
      same_agent = (differs_iff _ _).0 (h.1.1.1.1.0);
      same_chain = (differs_num_iff _ _).0 (h.1.1.1.1.1.0);
      known_chain = (chain_iff _).0 (h.1.1.1.1.1.1.0);
      mainnet_enabled = (mainnet_iff _ _).0 (h.1.1.1.1.1.1.1.0);
      target_listed = (unlisted_iff _ _).0 (h.1.1.1.1.1.1.1.1.0);
      method_listed = (unlisted_iff _ _).0 (h.1.1.1.1.1.1.1.1.1.0);
      not_negative = h.1.1.1.1.1.1.1.1.1.1.0;
      within_cap = h.1.1.1.1.1.1.1.1.1.1.1.0;
      within_day = h.1.1.1.1.1.1.1.1.1.1.1.1.0;
      within_slippage = (ltb_iff _ _).0 (h.1.1.1.1.1.1.1.1.1.1.1.1.1.0);
      simulated = (not_iff _).0 (h.1.1.1.1.1.1.1.1.1.1.1.1.1.1.0);
      approved = (approval_iff _ _).0 (h.1.1.1.1.1.1.1.1.1.1.1.1.1.1.1.0);
      has_key = (key_iff _).0 (h.1.1.1.1.1.1.1.1.1.1.1.1.1.1.1.1.0);
      fresh_key =
          fresh_key_of _ _ (h.1.1.1.1.1.1.1.1.1.1.1.1.1.1.1.1.0)
            (h.1.1.1.1.1.1.1.1.1.1.1.1.1.1.1.1.1.0);
      fixture_demo = (fixture_iff _ _).0 (h.1.1.1.1.1.1.1.1.1.1.1.1.1.1.1.1.1.1.0);
      mainnet_mode = (mainnet_mode_iff _ _).0 (h.1.1.1.1.1.1.1.1.1.1.1.1.1.1.1.1.1.1.1.0);
      testnet_mode = (testnet_mode_iff _ _).0 (h.1.1.1.1.1.1.1.1.1.1.1.1.1.1.1.1.1.1.1.1.0);
    }

    Authorized→NoneFails : Authorized gate now i p → NoneFails
    unfolding checks
    Authorized→NoneFails a = (
      a.not_killed,
      (
        a.not_revoked,
        (
          (leb_iff _ _).1 a.policy_live,
          (
            (leb_iff _ _).1 a.deadline_ahead,
            (
              (differs_iff _ _).1 a.same_agent,
              (
                (differs_num_iff _ _).1 a.same_chain,
                (
                  (chain_iff _).1 a.known_chain,
                  (
                    (mainnet_iff _ _).1 a.mainnet_enabled,
                    (
                      (unlisted_iff _ _).1 a.target_listed,
                      (
                        (unlisted_iff _ _).1 a.method_listed,
                        (
                          a.not_negative,
                          (
                            a.within_cap,
                            (
                              a.within_day,
                              (
                                (ltb_iff _ _).1 a.within_slippage,
                                (
                                  (not_iff _).1 a.simulated,
                                  (
                                    (approval_iff _ _).1 a.approved,
                                    (
                                      (key_iff _).1 a.has_key,
                                      (
                                        fresh_key_to _ _ a.fresh_key,
                                        (
                                          (fixture_iff _ _).1 a.fixture_demo,
                                          (
                                            (mainnet_mode_iff _ _).1 a.mainnet_mode,
                                            ((testnet_mode_iff _ _).1 a.testnet_mode, tt),
                                          ),
                                        ),
                                      ),
                                    ),
                                  ),
                                ),
                              ),
                            ),
                          ),
                        ),
                      ),
                    ),
                  ),
                ),
              ),
            ),
          ),
        ),
      ),
    )

    allowed_iff_none : ((evaluate gate now i p).allowed ≡ true) ↔ NoneFails
    unfolding evaluate
    allowed_iff_none =
        let cs = checks gate now i p in
        (
          λ e. (collect_nil cs).0 ((is_empty_iff (collect cs)).0 e),
          λ h. (is_empty_iff (collect cs)).1 ((collect_nil cs).1 h),
        )

    -- The gate allows an intent exactly when the policy grants it every authority it needs.
    pub evaluate-allowed : ((evaluate gate now i p).allowed ≡ true) ↔ Authorized gate now i p
    evaluate-allowed = (
      λ e. NoneFails→Authorized (allowed_iff_none.0 e),
      λ a. allowed_iff_none.1 (Authorized→NoneFails a),
    )
