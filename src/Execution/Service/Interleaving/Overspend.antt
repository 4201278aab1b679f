-- ===== src/Execution/Service/Interleaving/Overspend.antt =====
-- The daily cap of a policy is checked in `begin` and charged in `finish`: two executions that
-- overlap are each checked against a total that has neither (proofops/execution/service.py).
use safehire_proofops_bnb.Prelude.{String, ◌≡◌, refl, true, false, none, some, [], ◌∷◌}
use safehire_proofops_bnb.Domain.Canonical.{null}
use safehire_proofops_bnb.Domain.Models.{Floats, FloatLaws, demo, demo_fixture, Policy, Receipt}
use safehire_proofops_bnb.Execution.Errors.{ok}
use safehire_proofops_bnb.Execution.Store.Tasks.{get_policy}
use safehire_proofops_bnb.Execution.Store.Budget.{spent_today, add_spend}
use safehire_proofops_bnb.Execution.Exec.{World}
use safehire_proofops_bnb.Execution.Service.Execute.{intent_of, returned, finish}
use safehire_proofops_bnb.Execution.Service.Interleaving.{
  System, start, started, answered, Reach, here, next,
}
use safehire_proofops_bnb.Execution.Service.Interleaving.Scenario.{
  hash, script, spend_v, play, play-Reach, ready, policy, approved_task, pending_of, one, two,
  begins_first, begins_second,
}

module _ {F : Type 0} ⦃fl : Floats F⦄ (laws : FloatLaws fl) (cap v : F) where
  abbrev receipt_of : String → Receipt F
  receipt_of id = record {
    task_id = id;
    success = true;
    mode = demo;
    tx_hash = some "0xh";
    chain_id = 97;
    gas_used = some 0;
    cost_usd = some fl.zero_usd;
    source = demo_fixture;
    result = null;
    error_code = none;
    error_message = none;
  }

  abbrev three : World F
  three = (finish 0 ((pending_of laws cap v) "t1") (returned (receipt_of "t1")) (two laws cap v)).1

  abbrev four : World F
  four = (finish 0 ((pending_of laws cap v) "t2") (returned (receipt_of "t2")) three).1

  ended : System F
  ended = record { world = four; pending = [] }

  ended-Reach : fl.lt v fl.zero_usd ≡ false → fl.lt cap v ≡ false → Reach hash false start ended
  unfolding ended ready play
  ended-Reach positive within =
      next
        (next
          (next
            (next ((play-Reach laws cap v) (script laws cap v) start start here) (
              started ((play laws cap v) (script laws cap v) start) 0 "t1" (spend_v laws cap v)
                ((pending_of laws cap v) "t1") (one laws cap v)
                ((begins_first laws cap v) positive within)))
            (started
              (record { world = (one laws cap v); pending = (pending_of laws cap v) "t1" ∷ [] }) 0
              "t2" (spend_v laws cap v) ((pending_of laws cap v) "t2") (two laws cap v)
              ((begins_second laws cap v) positive within)))
          (answered (two laws cap v) ((pending_of laws cap v) "t2" ∷ [])
            ((pending_of laws cap v) "t1") [] 0 (returned (receipt_of "t1"))))
        (answered three [] ((pending_of laws cap v) "t2") [] 0 (returned (receipt_of "t2")))

  -- Two executions of one policy that overlap: whenever a value is within the daily cap and twice
  -- the value is not, the service can reach a state in which no execution is in flight and the
  -- policy has spent more than its daily cap that day.
  pub overlap_overspends :
      fl.lt v fl.zero_usd ≡ false
      → fl.lt cap v ≡ false
      → fl.lt cap (fl.add v v) ≡ true
      → (s : System F) × (p : Policy F) × Reach hash false start s
        × (s.pending ≡ [])
        × (get_policy "p" s.world.db ≡ ok p)
        × (p.daily_value_usd ≡ cap)
        × (fl.lt p.daily_value_usd (spent_today 0 "p" s.world.db) ≡ true)
  unfolding ready ended finish add_spend intent_of approved_task policy
  overlap_overspends positive within twice =
      (ended, (policy laws cap v), ended-Reach positive within, refl, refl, refl, twice)
