-- ===== src/Tests/Execution.antt =====
-- Runs of proofops/execution: amounts are natural numbers, a policy's caps are 10 and each task
-- spends 6.
use safehire_proofops_bnb.Prelude.{
  ℕ, ◌+◌, ◌≡◌, refl, ◌↔◌, true, false, none, some, List, [], ◌∷◌, ◌++◌, ltb, arith,
}
use safehire_proofops_bnb.Prelude.Members.{member}
use safehire_proofops_bnb.Prelude.Dict.{lookup, insert}
use safehire_proofops_bnb.Domain.Canonical.{null, text, dict, field, end, redact_secrets, IsClean}
use safehire_proofops_bnb.Domain.Canonical.Redaction.{redact_secrets_lem}
use safehire_proofops_bnb.Domain.Models.{
  Floats, FloatLaws, Policy, Intent, simulated, executing, failed, revoked,
}
use safehire_proofops_bnb.Execution.Errors.{ok, err, lock_conflict}
use safehire_proofops_bnb.Execution.Store.Schema.{raised, Task, Database, empty_database}
use safehire_proofops_bnb.Execution.Store.Tasks.{get_policy, draft_task, update_task, updated}
use safehire_proofops_bnb.Execution.Store.Tasks.Laws.{second_writer_conflicts}
use safehire_proofops_bnb.Execution.Store.Budget.{spent_today}
use safehire_proofops_bnb.Execution.RiskGate.{evaluate}
use safehire_proofops_bnb.Execution.RiskGate.Authorization.{Authorized, evaluate-allowed}
use safehire_proofops_bnb.Execution.Service.Tracks.{Tracks}
use safehire_proofops_bnb.Execution.Service.Execute.{
  Answer, threw, Pending, gate_view, intent_of, begin, execute, finish,
}
use safehire_proofops_bnb.Execution.Service.Execute.Safety.{Certified}
use safehire_proofops_bnb.Execution.Service.Interleaving.{System, start, Reach, here, next, started}
use safehire_proofops_bnb.Execution.Service.Interleaving.Scenario.{
  hash, script, play, play-Reach, spend_v, ready, policy, approved_task, pending_of, one,
  begins_first,
}
use safehire_proofops_bnb.Execution.Service.Interleaving.Reachable.{
  executing_closes, reachable-Tracks,
}
use safehire_proofops_bnb.Execution.Service.Interleaving.Guarantees.{reachable-Certified}
use safehire_proofops_bnb.Execution.Service.Interleaving.Overspend.{overlap_overspends}

instance abbrev naturals : Floats ℕ
naturals = record { zero_usd = 0; add = λ a b. a + b; lt = λ a b. ltb a b }

laws : FloatLaws naturals
laws = record { lt-add_zero = λ d v. ground arith }

-- The adapter fails, and the task says so.
abbrev broken : Intent ℕ → Answer ℕ
broken i = threw "RuntimeError" "down"

abbrev ready_system : System ℕ
ready_system = record { world = ready laws 10 6; pending = [] }

ready-Reach : Reach hash false start ready_system
unfolding ready play
ready-Reach = play-Reach laws 10 6 (script laws 10 6) start start here

abbrev running : System ℕ
running = record { world = one laws 10 6; pending = pending_of laws 10 6 "t1" ∷ [] }

running-Reach : Reach hash false start running
running-Reach = next ready-Reach (
    started ready_system 0 "t1" (spend_v laws 10 6) (pending_of laws 10 6 "t1") (one laws 10 6)
      (begins_first laws 10 6 refl refl))

closed_task : Task ℕ
unfolding approved_task updated
closed_task =
    updated 0 failed none (some (raised "RuntimeError" "down"))
      (updated 0 executing none none (approved_task laws 10 6 "t1"))

reachable-Certified_example :
    Certified hash false broken 0 0 "t1" (spend_v laws 10 6) (ready laws 10 6) closed_task
unfolding ready closed_task execute begin evaluate member finish
reachable-Certified_example =
    reachable-Certified hash false broken 0 0 "t1" (spend_v laws 10 6) ready_system ready-Reach
      closed_task refl

executing_closes_example :
    (before : List (Pending ℕ)) × (p : Pending ℕ) × (after : List (Pending ℕ)) × (running.pending
      ≡ before ++ (p ∷ after))
    × ((finish 0 p (threw "RuntimeError" "down") running.world).0 ≡ ok closed_task)
    × (lookup "t1" (finish 0 p (threw "RuntimeError" "down") running.world).1.db.tasks
        ≡ some closed_task)
unfolding ready closed_task approved_task policy lookup insert
executing_closes_example =
    executing_closes hash false running "t1"
      (updated 0 executing none none (approved_task laws 10 6 "t1")) 0 (threw "RuntimeError" "down")
      running-Reach refl refl

reachable-Tracks_example : Tracks ready_system.world running.world
reachable-Tracks_example = reachable-Tracks hash false ready_system running ready-Reach (
    next here (
      started ready_system 0 "t1" (spend_v laws 10 6) (pending_of laws 10 6 "t1") (one laws 10 6)
        (begins_first laws 10 6 refl refl)))

evaluate-allowed_example :
    ((evaluate
        (gate_view false 0 (ready laws 10 6).db)
        0
        (intent_of hash 0 (spend_v laws 10 6) (approved_task laws 10 6 "t1"))
        (policy laws 10 6)).allowed
      ≡ true)
    ↔ Authorized
        (gate_view false 0 (ready laws 10 6).db)
        0
        (intent_of hash 0 (spend_v laws 10 6) (approved_task laws 10 6 "t1"))
        (policy laws 10 6)
evaluate-allowed_example =
    evaluate-allowed (gate_view false 0 (ready laws 10 6).db) 0
      (intent_of hash 0 (spend_v laws 10 6) (approved_task laws 10 6 "t1")) (policy laws 10 6)

overlap_overspends_example :
    (s : System ℕ) × (p : Policy ℕ) × Reach hash false start s
    × (s.pending ≡ [])
    × (get_policy "p" s.world.db ≡ ok p)
    × (p.daily_value_usd ≡ 10)
    × (naturals.lt p.daily_value_usd (spent_today 0 "p" s.world.db) ≡ true)
overlap_overspends_example = overlap_overspends laws 10 6 refl refl refl

abbrev drafted : Task ℕ
drafted = draft_task 3 "t" "a" "p" null

abbrev one_task : Database ℕ
one_task = (record empty_database { tasks = ("t", drafted) ∷ [] })

abbrev simulated_task : Task ℕ
simulated_task = updated 4 simulated none none drafted

second_writer_conflicts_example :
    update_task 5 "t" 0 revoked none none
      (record one_task { tasks = insert "t" simulated_task one_task.tasks })
    ≡ err lock_conflict
unfolding draft_task update_task updated lookup
second_writer_conflicts_example =
    second_writer_conflicts 4 5 "t" 0 simulated revoked none none none none one_task simulated_task
      (record one_task { tasks = insert "t" simulated_task one_task.tasks }) refl

abbrev keyed_db : Database ℕ
keyed_db = record one_task {
  idempotency = ("key-0001", record { task_id = "t"; recorded_at = 3 }) ∷ [];
}

redact_secrets_lem_example :
    IsClean (redact_secrets (dict (field "token" (text "x") end)))
    × ((redact_secrets (dict (field "token" (text "x") end)) ≡ dict (field "token" (text "x") end))
        ↔ IsClean (dict (field "token" (text "x") end)))
redact_secrets_lem_example = redact_secrets_lem (dict (field "token" (text "x") end))
