-- ===== src/Workspace/FollowUp/Notifications.antt =====
-- How often `reserve_notification` of proofops/workspace/store.py lets a job's provider be called.
use mathlib.Core.Path.{subst}
use safehire_proofops_bnb.Prelude.{
  ℕ, ◌+◌, ◌≤◌, ◌≡◌, sym, ◌≢◌, inl, inr, Bool, Option, none, some, List, [], ◌∷◌, ◌==◌,
  if◌then◌else◌, arith, Option-cases, Bool-cases,
}
use safehire_proofops_bnb.Workspace.Store.{Journal, Attempt, find, seconds, empty_journal}
use safehire_proofops_bnb.Workspace.FollowUp.{put_attempt, of_job, reserve_notification}

abbrev pub count_of : Option Attempt → ℕ
count_of none = 0
count_of (some a) = a.attempts

-- The attempts on record for a job.
abbrev pub attempts_of : ℕ → Journal → ℕ
attempts_of job j = count_of (find (of_job job) j.notify_attempts)

find-put_attempt :
    (job other n at : ℕ) (rows : List Attempt)
    → count_of (find (of_job other) (put_attempt job n at rows))
      ≡ (if job == other then n else count_of (find (of_job other) rows))
unfolding find put_attempt
find-put_attempt job other n at [] = ground arith
find-put_attempt job other n at (a ∷ rows) = ground (arith, find-put_attempt job other n at rows)

-- How many of a sequence of calls, each a time and a job, are granted to one job.
pub granted : ℕ → List (ℕ × ℕ) → Journal → ℕ
granted job [] j = 0
granted job ((now, other) ∷ calls) j =
    let (allowed, j') = reserve_notification now other j in
    let rest = granted job calls j' in
    if allowed then (if other == job then rest + 1 else rest) else rest

abbrev pub one_if : Bool → ℕ
one_if b = if b then 1 else 0

pub step_own :
    (now job : ℕ) (j : Journal)
    → let m = reserve_notification now job j in
      (attempts_of job m.1 ≡ attempts_of job j + one_if m.0)
      × (attempts_of job j ≤ 3 → attempts_of job m.1 ≤ 3)
unfolding reserve_notification
step_own now job j = elim (Option-cases (find (of_job job) j.notify_attempts)) [
  | inl fresh ↦
      let put = find-put_attempt job job 1 (now + seconds 300) j.notify_attempts in
      (ground (arith, fresh, put), λ h. ground (arith, fresh, put))
  | inr (a, found) ↦
      let put = find-put_attempt job job (a.attempts + 1) (now + seconds 300) j.notify_attempts in
      (ground (arith, found, put), λ h. ground (arith, found, put))
]

pub step_other :
    (now other job : ℕ) (j : Journal)
    → other ≢ job
    → attempts_of job (reserve_notification now other j).1 ≡ attempts_of job j
unfolding reserve_notification
step_other now other job j ne = elim (Option-cases (find (of_job other) j.notify_attempts)) [
  | inl fresh ↦
      ground (arith, fresh, find-put_attempt other job 1 (now + seconds 300) j.notify_attempts)
  | inr (a, found) ↦ ground (
    arith,
    found,
    find-put_attempt other job (a.attempts + 1) (now + seconds 300) j.notify_attempts,
  )
]

-- From any journal in which the job has at most three attempts, at most the rest of them are
-- granted.
granted_rest :
    (job : ℕ) (calls : List (ℕ × ℕ)) (j : Journal)
    → attempts_of job j ≤ 3
    → granted job calls j + attempts_of job j ≤ 3
unfolding granted
granted_rest job [] j h = omega (arith, h)
granted_rest job ((now, other) ∷ calls) j h =
    let next = (reserve_notification now other j).1 in
    elim (Bool-cases (other == job)) [
      | inl hit ↦
          let mine : other ≡ job = ground arith in
          let (more, room) =
            subst
              (λ x.
                let m = reserve_notification now x j in
                (attempts_of job m.1 ≡ attempts_of job j + one_if m.0)
                × (attempts_of job j ≤ 3 → attempts_of job m.1 ≤ 3))
              (sym mine) (step_own now job j) in
          let ih = granted_rest job calls next (room h) in ground arith
      | inr miss ↦
          let same = step_other now other job j (ground arith) in
          let ih = granted_rest job calls next (ground arith) in ground arith
    ]

-- However the calls for several jobs interleave in time, a job is granted at most three.
pub granted_at_most_three : (job : ℕ) (calls : List (ℕ × ℕ)) → granted job calls empty_journal ≤ 3
unfolding find
granted_at_most_three job calls = omega (arith, granted_rest job calls empty_journal (omega arith))
