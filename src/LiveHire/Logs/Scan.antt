-- ===== src/LiveHire/Logs/Scan.antt =====
-- The log that `_find_event_log` of proofops/services/live_erc8183.py finds.
use mathlib.Core.Path.{fun_ext}
use safehire_proofops_bnb.Prelude.{
  ℕ, zero, suc, ◌+◌, ◌-◌, ◌*◌, ◌≤◌, ◌<◌, ◌≡◌, refl, sym, ap, ◌∙◌, Bool, true, false, ◌&&◌, ◌||◌,
  inl, inr, Option, none, some, List, [], ◌∷◌, leb, ltb, ◌==◌, if◌then◌else◌, keep, All, arith,
  Bool-cases, Option-cases,
}
use safehire_proofops_bnb.Prelude.Raising.{Raising, ok}
use safehire_proofops_bnb.LiveHire.Chain.{HireError}
use safehire_proofops_bnb.LiveHire.Logs.{Log, last?, scan, find_event_log, log_scan_windows}

-- The chain's logs of the event, the oldest first.
abbrev pub Ascending : List Log → Type 0
Ascending [] = Unit
Ascending (l ∷ ls) = All (λ m. l.block_number ≤ m.block_number) ls × Ascending ls

abbrev or_older : Option Log → Option Log → Option Log
or_older none older = older
or_older (some l) older = some l

or_older-none : (o : Option Log) → or_older o none ≡ o
or_older-none none = refl
or_older-none (some l) = refl

nothing_low :
    (low : Log → Bool) (m : ℕ) (ls : List Log)
    → ((l : Log) → low l ≡ true → l.block_number < m)
    → All (λ l. m ≤ l.block_number) ls
    → last? (keep low ls) ≡ none
unfolding keep
nothing_low low m [] below h = refl
nothing_low low m (l ∷ ls) below h = elim (Bool-cases (low l)) [
  | inl hit ↦ absurd (omega (arith, below l hit, h.0))
  | inr miss ↦ rw miss (nothing_low low m ls below h.1)
]

above :
    (m n : ℕ) (ls : List Log)
    → m ≤ n
    → All (λ l. n ≤ l.block_number) ls
    → All (λ l. m ≤ l.block_number) ls
above m n [] le h = tt
above m n (l ∷ ls) le h = (omega (arith, le, h.0), above m n ls le h.1)

-- Of the logs from two ranges of blocks the newest is from the upper range, if that has any.
last-keep_or :
    (high low : Log → Bool) (m : ℕ) (ls : List Log)
    → ((l : Log) → high l ≡ true → m ≤ l.block_number)
    → ((l : Log) → low l ≡ true → l.block_number < m)
    → Ascending ls
    → last? (keep (λ l. high l || low l) ls) ≡ or_older (last? (keep high ls)) (last? (keep low ls))
unfolding keep
last-keep_or high low m [] up below h = refl
last-keep_or high low m (l ∷ ls) up below h =
    let ih = last-keep_or high low m ls up below h.1 in
    elim (Bool-cases (high l)) [
      | inl hit ↦
          let none_low = nothing_low low m ls below (above m l.block_number ls (up l hit) h.0) in
          let miss : low l ≡ false = elim (Bool-cases (low l)) [
            | inr no_hit ↦ no_hit
            | inl also ↦ absurd (omega (arith, up l hit, below l also))
          ] in
          ground (arith, ih, hit, none_low, miss)
      | inr miss ↦ ground (arith, ih, miss)
    ]

abbrev within : ℕ → ℕ → Log → Bool
within from to l = leb from l.block_number && leb l.block_number to

-- The last `1000 * windows` blocks up to `to`.
abbrev pub recent : ℕ → ℕ → Log → Bool
recent windows to l = leb l.block_number to && ltb to (l.block_number + 1000 * windows)

-- A node answers with all logs of the asked blocks, in order.
abbrev pub Answers : (ℕ → ℕ → Raising HireError (List Log)) → List Log → Type 0
Answers get_logs history = (from to : ℕ) → get_logs from to ≡ ok (keep (within from to) history)

keep-eq : (p q : Log → Bool) (ls : List Log) → ((l : Log) → p l ≡ q l) → keep p ls ≡ keep q ls
keep-eq p q ls h = ap (λ f. keep f ls) (fun_ext h)

window_full :
    (windows to : ℕ) (l : Log)
    → to + 1 - 1000 ≡ 0
    → recent (suc windows) to l ≡ within (to + 1 - 1000) to l
window_full windows to l e = ground (arith, e)

window_split :
    (windows to : ℕ) (l : Log)
    → 0 < to + 1 - 1000
    → recent (suc windows) to l
      ≡ (within (to + 1 - 1000) to l || recent windows (to + 1 - 1000 - 1) l)
window_split windows to l more = ground arith

nothing_passes :
    (p : Log → Bool) (ls : List Log) → ((l : Log) → p l ≡ false) → last? (keep p ls) ≡ none
unfolding keep
nothing_passes p [] h = refl
nothing_passes p (l ∷ ls) h = rw (h l) (nothing_passes p ls h)

scan_step :
    (get_logs : ℕ → ℕ → Raising HireError (List Log)) (windows to : ℕ) (logs : List Log)
    (older : Option Log)
    → get_logs (to + 1 - 1000) to ≡ ok logs
    → scan get_logs windows (to + 1 - 1000 - 1) ≡ ok older
    → scan get_logs (suc windows) to
      ≡ ok (or_older (last? logs) (if (to + 1 - 1000) == 0 then none else older))
unfolding scan
scan_step get_logs windows to logs older now later = elim (Option-cases (last? logs)) [
  | inr (l, found) ↦ ground (arith, now, found)
  | inl nothing ↦ elim (Bool-cases ((to + 1 - 1000) == 0)) [
    | inl all ↦ ground (arith, now, nothing, all)
    | inr more ↦ ground (arith, now, nothing, more, later)
  ]
]

scan-recent :
    (get_logs : ℕ → ℕ → Raising HireError (List Log)) (history : List Log) (windows to : ℕ)
    → Answers get_logs history
    → Ascending history
    → scan get_logs windows to ≡ ok (last? (keep (recent windows to) history))
unfolding scan
scan-recent get_logs history zero to answers sorted =
    ap ok (sym (nothing_passes (recent 0 to) history (λ l. ground arith)))
scan-recent get_logs history (suc windows) to answers sorted =
    let from = to + 1 - 1000 in
    let older = last? (keep (recent windows (from - 1)) history) in
    let ih = scan-recent get_logs history windows (from - 1) answers sorted in
    let here = keep (within from to) history in
    let step = scan_step get_logs windows to here older (answers from to) ih in
    step
    ∙ ap ok (elim (Bool-cases (from == 0)) [
      | inl all ↦
          ap (λ b. or_older (last? here) (if b then none else older)) all
          ∙ or_older-none (last? here)
          ∙ ap last? (
              sym (
                keep-eq (recent (suc windows) to) (within from to) history
                  (λ l. window_full windows to l (ground arith))))
      | inr more ↦
          ap (λ b. or_older (last? here) (if b then none else older)) more
          ∙ sym (
              last-keep_or (within from to) (recent windows (from - 1)) from history
                (λ l h. ground (arith, h)) (λ l h. ground (arith, h, more)) sorted)
          ∙ ap last? (
              sym (
                keep-eq (recent (suc windows) to)
                  (λ l. within from to l || recent windows (from - 1) l) history
                  (λ l. window_split windows to l (ground arith))))
    ])

-- Where the node answers with all logs of the asked blocks, the search returns the newest log of the
-- event in the 300,000 blocks up to the latest, and nothing exactly when these have none.
pub find_event_log-newest :
    (block_number : Raising HireError ℕ) (get_logs : ℕ → ℕ → Raising HireError (List Log))
    (history : List Log) (latest : ℕ)
    → block_number ≡ ok latest
    → Answers get_logs history
    → Ascending history
    → find_event_log block_number get_logs
      ≡ ok (
          last?
            (keep (λ l. leb l.block_number latest && ltb latest (l.block_number + 300000)) history))
unfolding find_event_log
find_event_log-newest block_number get_logs history latest now answers sorted =
    rw now (scan-recent get_logs history log_scan_windows latest answers sorted)
