-- ===== src/LiveHire/Logs.antt =====
-- proofops/services/live_erc8183.py: `_find_event_log`, from the newest window of blocks back.
pub mod Scan
use safehire_proofops_bnb.Prelude.{
  ℕ, zero, suc, ◌+◌, ◌-◌, String, Bool, Option, none, some, List, [], ◌∷◌, ◌==◌, if◌then◌else◌,
}
use safehire_proofops_bnb.Prelude.Raising.{Raising, ok, err, ◌>>=◌}
use safehire_proofops_bnb.LiveHire.Chain.{HireError}

-- A log of a receipt or of `eth_getLogs`, its quantities read.
pub record Log : Type 0 where
  pub address : String
  pub topics : List String
  pub event_data : String
  pub block_number : ℕ
  pub block_hash : String
  pub transaction_hash : String
  pub removed : Bool

abbrev pub log_scan_window : ℕ
log_scan_window = 1000

abbrev pub log_scan_windows : ℕ
log_scan_windows = 300

-- `candidates[-1]`, if there is one
abbrev pub last? : List Log → Option Log
last? [] = none
last? (l ∷ ls) = elim (last? ls) [ none ↦ some l | some newer ↦ some newer ]

-- The loop, with the windows that are left and the last block of the next.
unfoldable pub scan :
    (ℕ → ℕ → Raising HireError (List Log)) → ℕ → ℕ → Raising HireError (Option Log)
scan get_logs zero to_block = ok none
scan get_logs (suc windows) to_block =
    let from_block = to_block + 1 - log_scan_window in
    let rest = scan get_logs windows (from_block - 1) in
    get_logs from_block to_block >>= λ logs. elim (last? logs) [
      | some newest ↦ ok (some newest)
      | none ↦ if from_block == 0 then ok none else rest
    ]

-- `get_logs` asks for the logs of one address, with one topic and one job.
unfoldable pub find_event_log :
    Raising HireError ℕ → (ℕ → ℕ → Raising HireError (List Log)) → Raising HireError (Option Log)
unfolding scan
find_event_log block_number get_logs = do
  latest ← block_number
  scan get_logs log_scan_windows latest
