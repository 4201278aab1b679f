-- ===== src/Tests/Workspace.antt =====
-- Runs of proofops/workspace: a journal with two watches of one space.
use safehire_proofops_bnb.Prelude.{◌+◌, ◌≢◌, refl, none, [], ◌∷◌, keep, arith}
use safehire_proofops_bnb.Workspace.Store.{
  Journal, Watch, Event, empty_journal, new_watch, claim, change, earliest, seconds,
}
use safehire_proofops_bnb.Workspace.Store.Claims.{claim_again}
use safehire_proofops_bnb.Workspace.Quotas.{
  ask_space, ask_add, ask_claim, perform_all, Within, quotas_hold,
}

abbrev health : Watch
health = new_watch 0 "w1" "s" "health" "a"

abbrev order : Watch
order = new_watch 5 "w2" "s" "order" "b"

abbrev two_watches : Journal
two_watches = record empty_journal { watches = order ∷ health ∷ [] }

after_claim : Journal
after_claim = (claim 10 two_watches).1

claim_again_example : order.id ≢ health.id
unfolding claim after_claim keep change earliest
claim_again_example =
    claim_again 10 20 two_watches health order after_claim (claim 20 after_claim).1 refl refl
      (omega arith)

quotas_hold_example : Within (
    perform_all
      (ask_space 0 "s" "d" ∷ ask_add 1 "w1" "s" "health" "a" "{}" ∷ ask_claim 2 ∷ [])
      empty_journal)
quotas_hold_example =
    quotas_hold (ask_space 0 "s" "d" ∷ ask_add 1 "w1" "s" "health" "a" "{}" ∷ ask_claim 2 ∷ [])

abbrev finished_event : Event
finished_event = record {
  seq = 1;
  watch = "w1";
  at = 20;
  kind = "alert";
  data_text = "{}";
  read_at = none;
}

abbrev finished_journal : Journal
finished_journal = record empty_journal {
  watches =
      order
      ∷ record health { latest = "{}"; state = "error"; due = 20 + seconds 300; attempts = 1 }
      ∷ [];
  events = finished_event ∷ [];
  last_seq = 1;
}
