-- ===== src/Execution/Service/Interleaving/Scenario.antt =====
-- A run of proofops/execution/service.py: one policy, two of its tasks simulated and approved, and
-- an execution of each begun before either has ended.
use mathlib.Core.Bool.{false≢true}
use safehire_proofops_bnb.Prelude.{
  ◌≢◌, String, ◌≡◌, refl, ◌∙◌, eq_iff, true, false, none, some, List, [], ◌∷◌, arith, inl, inr,
}
use safehire_proofops_bnb.Prelude.Dict.{lookup, insert}
use safehire_proofops_bnb.Prelude.Text.{lower}
use safehire_proofops_bnb.Domain.Canonical.{Json, null, bool, Fields, end, field}
use safehire_proofops_bnb.Domain.Models.{
  Floats, FloatLaws, demo, demo_fixture, approval_required, approved, executing, simulated, Policy,
}
use safehire_proofops_bnb.Execution.Errors.{ok}
use safehire_proofops_bnb.Execution.Store.Schema.{Task}
use safehire_proofops_bnb.Execution.Store.Tasks.{
  get_policy, get_task, save_policy, create_task, updated, draft_task, update_task,
}
use safehire_proofops_bnb.Execution.Store.Budget.{spent_today, spent_on, get_flag}
use safehire_proofops_bnb.Execution.Exec.{World}
use safehire_proofops_bnb.Execution.StateMachine.{can_transition}
use safehire_proofops_bnb.Execution.RiskGate.Authorization.{evaluate-allowed}
use safehire_proofops_bnb.Execution.Service.{
  PolicyRequest, policy_of, simulation_of, create_policy, new_task, simulate, approve,
  require_transition, advance,
}
use safehire_proofops_bnb.Execution.Service.Execute.{Call, gate_view, intent_of, Pending, begin}
use safehire_proofops_bnb.Execution.Service.Execute.Laws.{begin_allowed, decide, started_world}
use safehire_proofops_bnb.Execution.Service.Interleaving.{
  Request, ask_policy, ask_task, ask_simulate, ask_approve, System, perform, start, call, Reach,
  next,
}

key_not_empty : ◌≢◌ {A = String} "execute1" ""
key_not_empty e = false≢true ((eq_iff "execute1" "").1 e)

abbrev pub hash : Json → String
hash _ = "h"

module _ {F : Type 0} ⦃fl : Floats F⦄ (laws : FloatLaws fl) (cap v : F) where
  abbrev pub wanted : PolicyRequest F
  wanted = record {
    owner = "o";
    agent_id = "a";
    chain_id = 97;
    allowed_targets = "t" ∷ [];
    allowed_methods = "m" ∷ [];
    max_value_usd = cap;
    daily_value_usd = cap;
    max_slippage_bps = 50;
    ttl_minutes = 60;
    require_human_approval = true;
  }

  abbrev pub passed : Fields
  passed = field "passed" (bool true) end

  abbrev pub spend_v : Call F
  spend_v = record {
    idempotency_key = "execute1";
    chain_id = 97;
    target = "t";
    method = "m";
    value_usd = v;
    slippage_bps = 10;
    mode = demo;
    source = demo_fixture;
    metadata = null;
  }

  -- One policy and two of its tasks, simulated and approved.
  abbrev pub script : List (Request F)
  script =
      ask_policy 0 "p" wanted
      ∷ ask_task 0 "t1" "a" "p" null "key-0001"
      ∷ ask_task 0 "t2" "a" "p" null "key-0002"
      ∷ ask_simulate 0 "t1" passed
      ∷ ask_simulate 0 "t2" passed
      ∷ ask_approve 0 "t1"
      ∷ ask_approve 0 "t2"
      ∷ []

  unfoldable pub play : List (Request F) → System F → System F
  play [] s = s
  play (r ∷ rs) s = play rs (record s { world = perform hash r s.world })

  pub play-Reach :
      (rs : List (Request F)) (s t : System F)
      → Reach hash false s t
      → Reach hash false s (play rs t)
  unfolding play
  play-Reach [] s t h = h
  play-Reach (r ∷ rs) s t h =
      play-Reach rs s (record t { world = perform hash r t.world }) (next h (call t r))

  unfoldable pub ready : World F
  unfolding play perform create_policy new_task simulate approve get_policy get_task save_policy
      create_task lookup insert updated draft_task simulation_of policy_of require_transition
      can_transition advance update_task get_flag spent_today spent_on lower
  ready = (play script start).world

  unfoldable pub policy : Policy F
  unfolding policy_of
  policy = policy_of 0 "p" wanted

  unfoldable pub approved_task : String → Task F
  unfolding updated draft_task simulation_of
  approved_task id =
      let t = draft_task 0 id "a" "p" null in
      let sim = simulation_of hash 0 t passed in
      updated 0 approved none none
        (updated 0 approval_required none none (updated 0 simulated (some sim) none t))

  -- The gate grants either task, as long as nothing has been charged.
  granted :
      (id : String) (w : World F)
      → get_flag "kill_switch" "false" w.db ≡ "false"
      → spent_today 0 "p" w.db ≡ fl.zero_usd
      → fl.lt v fl.zero_usd ≡ false
      → fl.lt cap v ≡ false
      → (decide hash false 0 id spend_v w (approved_task id) policy).allowed ≡ true
  unfolding gate_view intent_of approved_task policy lower
  granted id w off free positive within =
      (evaluate-allowed (gate_view false 0 w.db) 0 (intent_of hash 0 spend_v (approved_task id))
          policy).1
        (record {
          not_killed = rw off;
          not_revoked = refl;
          policy_live = omega arith;
          deadline_ahead = omega arith;
          same_agent = refl;
          same_chain = refl;
          known_chain = inr refl;
          mainnet_enabled = λ e. absurd (omega arith);
          target_listed = inl refl;
          method_listed = inl refl;
          not_negative = positive;
          within_cap = within;
          within_day = rw free (laws.lt-add_zero cap v ∙ within);
          within_slippage = omega arith;
          simulated = refl;
          approved = λ e. refl;
          has_key = λ e. key_not_empty e;
          fresh_key = refl;
          fixture_demo = λ e. refl;
          mainnet_mode = λ e. absurd (cc);
          testnet_mode = λ e. absurd (cc);
        })

  abbrev pub pending_of : String → Pending F
  pending_of id = record {
    task = updated 0 executing none none (approved_task id);
    intent = intent_of hash 0 spend_v (approved_task id);
  }

  -- The first execution, and the second while the first is in flight.
  abbrev pub one : World F
  one = started_world hash false 0 "t1" spend_v ready (approved_task "t1") policy

  abbrev pub two : World F
  two = started_world hash false 0 "t2" spend_v one (approved_task "t2") policy

  module _ (positive : fl.lt v fl.zero_usd ≡ false) (within : fl.lt cap v ≡ false) where
    pub begins_first : begin hash false 0 "t1" spend_v ready ≡ (ok (pending_of "t1"), one)
    unfolding ready approved_task policy
    begins_first =
        begin_allowed hash false 0 "t1" spend_v ready (approved_task "t1") policy refl refl refl
          refl refl (granted "t1" ready refl refl positive within)

    pub begins_second : begin hash false 0 "t2" spend_v one ≡ (ok (pending_of "t2"), two)
    unfolding ready approved_task policy
    begins_second =
        begin_allowed hash false 0 "t2" spend_v one (approved_task "t2") policy refl refl refl refl
          refl (granted "t2" one refl refl positive within)
