-- ===== src/Execution/Service/Execute/Safety.antt =====
-- What an execution that returns certifies (proofops/execution/service.py).
use safehire_proofops_bnb.Prelude.{
  ℕ, String, ◌≡◌, refl, ap, ◌∙◌, ◌&&◌, ◌==◌, str_eq, eq_iff, Bool-cases, ◌≢◌, ◌⊎◌, inl, inr, Bool,
  true, false, none, some, arith,
}
use safehire_proofops_bnb.Prelude.Dict.{lookup, insert}
use safehire_proofops_bnb.Domain.Canonical.{Json}
use safehire_proofops_bnb.Domain.Models.{
  Floats, FloatLaws, approved, succeeded, failed, demo, ExecutionMode, Policy, Intent,
}
use safehire_proofops_bnb.Execution.RiskGate.{is_demo}
use safehire_proofops_bnb.Execution.RiskGate.Authorization.{Authorized, evaluate-allowed}
use safehire_proofops_bnb.Execution.Errors.{Result, ok, err}
use safehire_proofops_bnb.Execution.Store.Schema.{Task, Database}
use safehire_proofops_bnb.Execution.Store.Tasks.{get_policy, updated}
use safehire_proofops_bnb.Execution.Store.Budget.{day_of, spent_on, spent_today, add_row, add_spend}
use safehire_proofops_bnb.Execution.Store.Budget.Laws.{lt-spent-add_row, spent-add_row_ne}
use safehire_proofops_bnb.Execution.Exec.{World, continue}
use safehire_proofops_bnb.Execution.Service.Tracks.{WellKeyed}
use safehire_proofops_bnb.Execution.Service.Execute.{
  Call, Answer, returned, threw, Pending, gate_view, intent_of, simulation_valid, begin, finish,
  execute,
}
use safehire_proofops_bnb.Execution.Service.Execute.Laws.{
  Began, Began-stored, Verdict, begin_lem, finish_lem, charge, final_state, final_outcome,
}

-- Each policy stands under its own id.
pub record PoliciesKeyed {F : Type 0} (w : World F) : Type 0 where
  pub keyed : (id : String) (p : Policy F) → get_policy id w.db ≡ ok p → p.policy_id ≡ id

demo_of : (m : ExecutionMode) → is_demo m ≡ true → m ≡ demo
demo_of m e = ground arith

final_closed : {F : Type 0} (a : Answer F) → (final_state a ≡ succeeded) ⊎ (final_state a ≡ failed)
final_closed (returned r) = ground arith
final_closed (threw name why) = inr refl

same_row : (q p : String) (d day : ℕ) → ((q ≡ p) × (d ≡ day)) ⊎ ((q ≢ p) ⊎ (d ≢ day))
same_row q p d day = elim (Bool-cases (str_eq q p && d == day)) [
  | inl hit ↦ inl ((eq_iff q p).0 (ground arith), ground arith)
  | inr miss ↦ inr (ground (arith, eq_iff q p))
]

-- The adapter's answer charges the policy of the task, or nobody.
spends :
    {F : Type 0} ⦃fl : Floats F⦄ (now : ℕ) (p : Pending F) (a : Answer F) (db : Database F)
    → ((charge now p a db).policy_spend ≡ db.policy_spend)
      ⊎ ((charge now p a db).policy_spend
          ≡ add_row p.task.policy_id (day_of now) p.intent.value_usd db.policy_spend)
unfolding add_spend
spends now p (returned r) db = ground arith
spends now p (threw name why) db = inl refl

module _ {F : Type 0} ⦃fl : Floats F⦄ (sha256_hex : Json → String) (allow : Bool)
    (adapter : Intent F → Answer F) (now later : ℕ) (id : String) (c : Call F) (w : World F) where
  abbrev run : Result (Task F) × World F
  run = execute sha256_hex allow adapter now later id c w

  -- The two ways through `execute`: it raises with the database untouched, or `begin` and `finish`
  -- both run.
  abbrev Ends : Result (Task F) × World F → Type 0
  Ends (err e, w') = w'.db ≡ w.db
  Ends (ok t, w') =
      (p : Pending F) × (mid : World F) × Began sha256_hex allow now id c w p mid
      × (t
          ≡ updated later (final_state (adapter p.intent)) none
              (some (final_outcome (adapter p.intent))) p.task)
      × (w'.db
          ≡ charge later p (adapter p.intent)
              (record mid.db { tasks = insert p.task.task_id t mid.db.tasks }))

  Ends-of :
      (m : Result (Pending F) × World F)
      → Verdict sha256_hex allow now id c w m
      → Ends (continue m.0 m.1 (λ p. finish later p (adapter p.intent)))
  Ends-of (err e, w') h = h
  Ends-of (ok p, mid) h =
      rw
        (finish_lem later p (adapter p.intent) mid
          (Began-stored sha256_hex allow now id c w p mid h))
        (p, mid, h, refl, refl)

  execute-Ends : WellKeyed w → Ends run
  unfolding execute
  execute-Ends k =
      Ends-of (begin sha256_hex allow now id c w) (begin_lem sha256_hex allow now id c w k)

  -- An execution that returns was authorised: the task was APPROVED, its policy grants the intent
  -- every authority, the mode is DEMO, and the stored simulation passed for this very request and
  -- policy and had not expired. The task ends SUCCEEDED or FAILED.
  pub record Certified (t : Task F) : Type 0 where
    pub before : Task F
    pub policy : Policy F
    pub stored : lookup id w.db.tasks ≡ some before
    pub has_policy : get_policy before.policy_id w.db ≡ ok policy
    pub was_approved : before.state ≡ approved
    pub demo_mode : c.mode ≡ demo
    pub authorized :
        Authorized (gate_view allow now w.db) now (intent_of sha256_hex now c before) policy
    pub simulation :
        simulation_valid sha256_hex now before.request before.policy_id before.simulation ≡ true
    pub closed : (t.state ≡ succeeded) ⊎ (t.state ≡ failed)

  Certified-of : (m : Result (Task F) × World F) (t : Task F) → Ends m → m.0 ≡ ok t → Certified t
  unfolding intent_of updated
  Certified-of (err x, w') t h e = absurd (cc)
  Certified-of (ok u, w') t (p, mid, b, made, _) e =
      let granted =
        (evaluate-allowed (gate_view allow now w.db) now (intent_of sha256_hex now c b.task)
            b.policy).0
          b.allowed in
      record {
        before = b.task;
        policy = b.policy;
        stored = b.stored;
        has_policy = b.has_policy;
        was_approved = b.was_approved;
        demo_mode = demo_of c.mode b.demo_only;
        authorized = granted;
        simulation = granted.simulated;
        closed = ground (arith, final_closed (adapter p.intent));
      }

  pub execute-Certified : (t : Task F) → WellKeyed w → run.0 ≡ ok t → Certified t
  execute-Certified t k e = Certified-of run t (execute-Ends k) e

  -- The row that is charged: the gate has read its total of the day.
  charged_within :
      (laws : FloatLaws fl) (p : Pending F) (mid : World F)
      → Began sha256_hex allow now id c w p mid
      → PoliciesKeyed w
      → day_of later ≡ day_of now
      → (policy : Policy F) × (get_policy p.task.policy_id w.db ≡ ok policy)
        × (fl.lt policy.daily_value_usd (
              spent_on p.task.policy_id
                (day_of later)
                (add_row p.task.policy_id (day_of later) p.intent.value_usd w.db.policy_spend))
            ≡ false)
  unfolding intent_of gate_view spent_today updated
  charged_within laws p mid b pk same =
      let granted =
        (evaluate-allowed (gate_view allow now w.db) now (intent_of sha256_hex now c b.task)
            b.policy).0
          b.allowed in
      let its_policy : p.task.policy_id ≡ b.task.policy_id =
        ap (λ t. t.policy_id) b.now_executing in
      let its_value : p.intent.value_usd ≡ c.value_usd = ap (λ i. i.value_usd) b.its_intent in
      (
        b.policy,
        rw its_policy b.has_policy,
        cc (
          lt-spent-add_row p.task.policy_id (day_of later) p.intent.value_usd laws
              b.policy.daily_value_usd w.db.policy_spend,
          granted.within_day,
          pk.keyed b.task.policy_id b.policy b.has_policy,
          its_policy,
          its_value,
          same,
        ),
      )

  within_of :
      (m : Result (Task F) × World F) (laws : FloatLaws fl)
      → Ends m
      → PoliciesKeyed w
      → day_of later ≡ day_of now
      → (q : String) (d : ℕ)
      → (spent_on q d m.1.db.policy_spend ≡ spent_on q d w.db.policy_spend)
        ⊎ ((policy : Policy F) × (get_policy q w.db ≡ ok policy)
            × (fl.lt policy.daily_value_usd (spent_on q d m.1.db.policy_spend) ≡ false))
  within_of (err x, w') laws h pk same q d = inl (rw h)
  within_of (ok u, w') laws (p, mid, b, _, after) pk same q d =
      let pid = p.task.policy_id in
      let day = day_of later in
      let db : Database F = record mid.db { tasks = insert p.task.task_id u mid.db.tasks } in
      let start : mid.db.policy_spend ≡ w.db.policy_spend =
        ap (λ x. x.db.policy_spend) b.its_world in
      let last : w'.db.policy_spend ≡ (charge later p (adapter p.intent) db).policy_spend =
        ap (λ x. x.policy_spend) after in
      elim (spends later p (adapter p.intent) db) [
        | inl free ↦ inl (ap (spent_on q d) (last ∙ free ∙ start))
        | inr charged ↦
            let rows : w'.db.policy_spend ≡ add_row pid day p.intent.value_usd w.db.policy_spend =
              last ∙ charged ∙ ap (add_row pid day p.intent.value_usd) start in
            elim (same_row q pid d day) [
              | inl (q_eq, d_eq) ↦
                  let (policy, has, within) = charged_within laws p mid b pk same in
                  inr (policy, rw q_eq has, rw (rows, q_eq, d_eq) within)
              | inr other ↦ inl (
                  rw rows (spent-add_row_ne pid day p.intent.value_usd q d w.db.policy_spend other))
            ]
      ]

  -- An execution never takes a policy past its daily cap, and changes no other policy's or day's
  -- total; one that raises spends nothing.
  pub execute_within_cap :
      (laws : FloatLaws fl)
      → WellKeyed w
      → PoliciesKeyed w
      → day_of later ≡ day_of now
      → (q : String) (d : ℕ)
      → (spent_on q d run.1.db.policy_spend ≡ spent_on q d w.db.policy_spend)
        ⊎ ((policy : Policy F) × (get_policy q w.db ≡ ok policy)
            × (fl.lt policy.daily_value_usd (spent_on q d run.1.db.policy_spend) ≡ false))
  execute_within_cap laws k pk same q d = within_of run laws (execute-Ends k) pk same q d
