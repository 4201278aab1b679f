-- ===== src/LiveHire/Notify/Acknowledged.antt =====
-- What an acknowledged notification of proofops/services/live_erc8183.py shows.
use mathlib.Core.Path.{subst}
use mathlib.Core.Option.{some-injective}
use safehire_proofops_bnb.Prelude.{
  ℕ, ◌≡◌, ◌⊎◌, refl, sym, ap, ◌∙◌, inl, inr, Bool, true, false, not, Option, none, some, str_eq,
  ◌==◌, arith, Bool-cases, Option-cases,
}
use safehire_proofops_bnb.Prelude.Raising.{
  Raising, ok, err, guard, bind-ok, then-ok, guard-ok, ok_inj,
}
use safehire_proofops_bnb.Domain.Canonical.{Json, Fields, Items, nil, cons, dict}
use safehire_proofops_bnb.LiveHire.Chain.{
  HireError, JobState, open_job, funded, submitted, completed, rejected, expired, unknown, Sources,
  get, not_acknowledged, not_notifiable, no_operator, must_be_funded,
}
use safehire_proofops_bnb.LiveHire.Status.{JobStatus, live_job_status}
use safehire_proofops_bnb.LiveHire.Notify.{
  Route, Request, Network, Notified, accepted_by, already_submitted, already_completed, is_text,
  is_true, data_of, parts_of, names_job, read_part, read_parts, acknowledged, answer_of,
  send_notice, notify_live_agent,
}

funded_only :
    (st : JobState) (r : Raising HireError Notified) (route : Route)
    → elim st [
      | submitted ↦ ok already_submitted
      | completed ↦ ok already_completed
      | funded ↦ r
      | _ ↦ err must_be_funded
    ]
      ≡ ok (accepted_by route)
    → (st ≡ funded) × (r ≡ ok (accepted_by route))
funded_only funded r route e = (refl, e)
funded_only submitted r route e = absurd (ground (arith, e))
funded_only completed r route e = absurd (ground (arith, e))
funded_only open_job r route e = absurd (ground (arith, e))
funded_only rejected r route e = absurd (ground (arith, e))
funded_only expired r route e = absurd (ground (arith, e))
funded_only unknown r route e = absurd (ground (arith, e))

module _ (rpc : Sources) (id : ℕ) where
  -- The data of a part that does not reject the request, and names the job if it accepts it.
  abbrev pub FitData : Fields → Type 0
  FitData d =
      (is_text "rejected" (get "status" d) ≡ false)
      × ((is_text "accepted" (get "status" d) ≡ true) → names_job rpc id d ≡ true)

  abbrev pub AllFit : Items → Type 0
  AllFit nil = Unit
  AllFit (cons part rest) = ((d : Fields) → data_of part ≡ some d → FitData d) × AllFit rest

  -- A part that accepts the request and names the job.
  abbrev pub Accepting : Json → Type 0
  Accepting part =
      (d : Fields) × (data_of part ≡ some d)
      × (is_text "accepted" (get "status" d) ≡ true)
      × (names_job rpc id d ≡ true)

  abbrev pub Accepts : Items → Type 0
  Accepts nil = ⊥
  Accepts (cons part rest) = Accepting part ⊎ Accepts rest

  fit_at :
      (part : Json) (d : Fields)
      → data_of part ≡ some d
      → FitData d
      → (d' : Fields) → data_of part ≡ some d'
      → FitData d'
  fit_at part d at h d' at' = subst FitData (some-injective _ _ (sym at ∙ at')) h

  -- What one part does to an acknowledgement.
  read_part_lem :
      (acc : Bool) (part : Json) (now_acc : Bool)
      → read_part rpc id acc part ≡ ok now_acc
      → ((d : Fields) → data_of part ≡ some d → FitData d)
        × (now_acc ≡ true → (acc ≡ true) ⊎ Accepting part)
  unfolding read_part
  read_part_lem acc part now_acc e = elim (Option-cases (data_of part)) [
    | inl none_here ↦
        let same : acc ≡ now_acc = ground (arith, none_here, e) in
        ((λ d at. absurd (cc (none_here, at))), λ h. inl (same ∙ h))
    | inr (d, at) ↦ elim (Bool-cases (is_text "rejected" (get "status" d))) [
      | inl refused ↦ absurd (ground (arith, at, refused, e))
      | inr fine ↦ elim (Bool-cases (is_text "accepted" (get "status" d))) [
        | inl accepts ↦ elim (Bool-cases (names_job rpc id d)) [
          | inr other ↦ absurd (ground (arith, at, fine, accepts, other, e))
          | inl ours ↦ (fit_at part d at (fine, λ _. ours), λ _. inr (d, at, accepts, ours))
        ]
        | inr silent ↦
            let same : acc ≡ now_acc = ground (arith, at, fine, silent, e) in
            (fit_at part d at (fine, λ h. absurd (cc (silent, h))), λ h. inl (same ∙ h))
      ]
    ]
  ]

  read_parts_lem :
      (acc : Bool) (parts : Items) (now_acc : Bool)
      → read_parts rpc id acc parts ≡ ok now_acc
      → AllFit parts × (now_acc ≡ true → (acc ≡ true) ⊎ Accepts parts)
  unfolding read_parts
  read_parts_lem acc nil now_acc e = (tt, λ h. inl (ok_inj e ∙ h))
  read_parts_lem acc (cons part rest) now_acc e =
      let (mid, first, later) =
        bind-ok (read_part rpc id acc part) (λ b. read_parts rpc id b rest) now_acc e in
      let (fits, why) = read_part_lem acc part mid first in
      let (all, why_later) = read_parts_lem mid rest now_acc later in
      (
        (fits, all),
        λ h. elim (why_later h) [
          | inr after ↦ inr (inr after)
          | inl before ↦ elim (why before) [ inl a ↦ inl a | inr here ↦ inr (inl here) ]
        ],
      )

  -- The answer to a notification that is taken as accepted.
  pub record IsAccepted (net : Network) (s : JobStatus) (route : Route) : Type 0 where
    pub payload : Json
    pub answer : Fields
    pub result : Fields
    pub parts : Items
    pub posted :
        net.post route.endpoint (record {
          job_id = id;
          service = s.task_spec.service;
          parameters = s.task_spec.task_input;
        })
        ≡ ok payload
    pub answers : answer_of rpc payload ≡ ok answer
    pub has_result : get "result" answer ≡ some (dict result)
    pub has_parts : parts_of (get "parts" result) ≡ ok parts
    pub fits : AllFit parts
    pub accepts : (is_true rpc (get "accepted" result) ≡ true) ⊎ Accepts parts

  acknowledged_lem :
      (o : Option Json)
      → acknowledged rpc id o ≡ ok true
      → (result : Fields) × (parts : Items) × (o ≡ some (dict result))
        × (parts_of (get "parts" result) ≡ ok parts)
        × AllFit parts
        × ((is_true rpc (get "accepted" result) ≡ true) ⊎ Accepts parts)
  unfolding acknowledged
  acknowledged_lem none e = ground (arith, e)
  acknowledged_lem (some (dict fs)) e =
      let claimed = is_true rpc (get "accepted" fs) in
      let (parts, has, e1) =
        bind-ok (parts_of (get "parts" fs)) (λ parts. read_parts rpc id claimed parts) true e in
      let (fits, why) = read_parts_lem claimed parts true e1 in
      (fs, parts, refl, has, fits, why refl)
  acknowledged_lem (some v) e = absurd (ground (arith, e))

  send_notice-IsAccepted :
      (net : Network) (s : JobStatus) (route : Route)
      → send_notice rpc net id s ≡ ok (accepted_by route)
      → ((s.job.budget == s.price) ≡ true)
        × (net.resolve_agent s.task_spec.service s.task_spec.erc8004_token_id ≡ ok route)
        × IsAccepted net s route
  unfolding send_notice
  send_notice-IsAccepted net s route e =
      let told = accepted_by route in
      let (c1, e1) = then-ok (guard (s.job.budget == s.price) not_notifiable) _ told e in
      let (route', resolved, e2) =
        bind-ok (net.resolve_agent s.task_spec.service s.task_spec.erc8004_token_id) _ told e1 in
      let (_, e3) =
        then-ok (guard (not (str_eq (net.strip route'.operator) "")) no_operator) _ told e2 in
      let request : Request = record {
        job_id = id;
        service = s.task_spec.service;
        parameters = s.task_spec.task_input;
      } in
      let (payload, posted, e4) = bind-ok (net.post route'.endpoint request) _ told e3 in
      let (answer, answers, e5) = bind-ok (answer_of rpc payload) _ told e4 in
      let (b, acked, e6) = bind-ok (acknowledged rpc id (get "result" answer)) _ told e5 in
      let (c2, e7) = then-ok (guard b not_acknowledged) _ told e6 in
      let (result, parts, has, has_parts, fits, accepts) =
        acknowledged_lem (get "result" answer)
          (acked ∙ ap ok (guard-ok b not_acknowledged tt c2)) in
      let same : route' ≡ route = ground (arith, e7) in
      (
        guard-ok _ _ tt c1,
        resolved ∙ ap ok same,
        subst (IsAccepted net s) same (record {
          payload = payload;
          answer = answer;
          result = result;
          parts = parts;
          posted = posted;
          answers = answers;
          has_result = has;
          has_parts = has_parts;
          fits = fits;
          accepts = accepts;
        }),
      )

  -- A notification that is reported as accepted was sent for a job that is FUNDED with exactly its
  -- signed price; the answer's result accepts it, as a whole or in a part that names the job, none
  -- of its parts rejects it, and none that accepts it names another job.
  pub notified-IsAccepted :
      (net : Network) (now : ℕ) (route : Route)
      → notify_live_agent rpc net now id ≡ ok (accepted_by route)
      → (s : JobStatus) × (live_job_status rpc now id ≡ ok s)
        × (s.status ≡ funded)
        × (s.job.budget ≡ s.price)
        × IsAccepted net s route
  unfolding notify_live_agent
  notified-IsAccepted net now route e =
      let (s, at, e1) = bind-ok (live_job_status rpc now id) _ (accepted_by route) e in
      let (is_funded, e2) = funded_only s.status (send_notice rpc net id s) route e1 in
      let (paid, _, accepted) = send_notice-IsAccepted net s route e2 in
      (s, at, is_funded, ground (arith, paid), accepted)
