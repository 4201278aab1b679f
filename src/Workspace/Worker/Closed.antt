-- ===== src/Workspace/Worker/Closed.antt =====
-- Each round of proofops/workspace/worker.py gives up the lease of the watch that it claimed.
use safehire_proofops_bnb.Prelude.{ℕ, ◌+◌, String, ◌≡◌, ◌⊎◌, false, none, some}
use safehire_proofops_bnb.LiveHire.Chain.{HireError}
use safehire_proofops_bnb.Workspace.Store.{Journal, Watch, find, is_watch, seconds}
use safehire_proofops_bnb.Workspace.Worker.{World, Clock, Processed, escaped}
use safehire_proofops_bnb.Workspace.Worker.Rounds.{caught_by}

-- The watch has no lease, and is due again at a time.
abbrev pub IsFree : String → ℕ → Journal → Type 0
IsFree id time j =
    (v : Watch) × (find (is_watch id) j.watches ≡ some v) × (v.lease ≡ 0) × (v.due ≡ time)

module _ {D : Type 0} (w : World D) (t : Clock) where
  -- The watch is free, or an exception that is not caught has left it as it was.
  abbrev EndsFree : String → Processed → Type 0
  EndsFree id p =
      ((p.failure ≡ none) × IsFree id (t.at_finish + seconds 300) p.journal)
      ⊎ ((e : HireError) × (p.failure ≡ some (escaped e))
          × (caught_by w t e ≡ false)
          × ((v : Watch) × (find (is_watch id) p.journal.watches ≡ some v)))
