-- ===== src/Tests/Worker.antt =====
-- Rounds of proofops/workspace/worker.py over a funded order whose provider may be notified.
use safehire_proofops_bnb.Prelude.{keep, ℕ, ◌+◌, ◌≤◌, ltb, refl, ◌≡◌, true, false, [], ◌∷◌, arith}
use safehire_proofops_bnb.Prelude.Raising.{ok}
use safehire_proofops_bnb.LiveHire.Chain.{get, as_object, state_name, equals_number}
use safehire_proofops_bnb.LiveHire.Status.{live_job_status}
use safehire_proofops_bnb.LiveHire.Notify.{notify_live_agent}
use safehire_proofops_bnb.Workspace.Store.{
  Journal, Watch, empty_journal, new_watch, claim, change, earliest, seconds, find,
}
use safehire_proofops_bnb.Workspace.FollowUp.{reserve_notification, finish}
use safehire_proofops_bnb.Workspace.FollowUp.Notifications.{attempts_of}
use safehire_proofops_bnb.Workspace.Worker.{World, Clock, yield_read}
use safehire_proofops_bnb.Workspace.Worker.Rounds.{tick}
use safehire_proofops_bnb.Workspace.Worker.Calls.{calls, called_at_most_three}
use safehire_proofops_bnb.Tests.Delivery.{node, network}
use safehire_proofops_bnb.Tests.LiveHire.{read_at, exact_world}

abbrev order : Watch
order = new_watch 5 "w2" "s" "order" "b"

abbrev tracked : Journal
tracked = record empty_journal { watches = order ∷ [] }

abbrev answering : World ℕ
answering = record {
  rpc = read_at 1 exact_world;
  node = node;
  net = network;
  order_spec = λ s. ok (record { job_id = 7; notify_provider = true });
  observe = λ kind s. ok (yield_read true);
  below = ltb;
  print_order = λ row now report. "{}";
  print_reading = λ reading. "{}";
  print_error = λ e now. "{}";
  is_caught = λ s. true;
  is_timeout = λ s. false;
}

abbrev clock : ℕ → Clock
clock n = record {
  at_claim = n;
  at_status = 60;
  at_reserve = n;
  at_notice = 60;
  at_check = n;
  at_delivery = 60;
  at_finish = n;
}

abbrev later : ℕ
later = 10 + seconds 300

called_twice :
    calls 7 ((answering, clock 10) ∷ (answering, clock 20) ∷ (answering, clock later) ∷ []) tracked
    ≡ 2
unfolding calls tick claim live_job_status notify_live_agent get as_object state_name equals_number
    reserve_notification finish keep change earliest
called_twice = refl

called_at_most_three_example :
    calls 7 ((answering, clock 10) ∷ (answering, clock later) ∷ []) tracked + attempts_of 7 tracked
    ≤ 3
unfolding find
called_at_most_three_example =
    called_at_most_three 7 ((answering, clock 10) ∷ (answering, clock later) ∷ []) tracked
      (omega arith)

abbrev leased_order : Journal
leased_order = record tracked { watches = record order { lease = 10 + seconds 180 } ∷ [] }
