-- ===== src/LiveHire/Notify.antt =====
-- proofops/services/live_erc8183.py: `notify_live_agent`. The route is resolved by
-- live_agent_market.py, and the request is answered over HTTP: both are arguments.
pub mod Acknowledged
use safehire_proofops_bnb.Prelude.{
  ℕ, String, Bool, true, false, not, ◌&&◌, ◌||◌, Option, none, some, str_eq, ◌==◌, if◌then◌else◌,
}
use safehire_proofops_bnb.Prelude.Raising.{Raising, ok, err, or_raise, guard, ◌>>=◌, ◌>>◌}
use safehire_proofops_bnb.Domain.Canonical.{
  Json, Fields, Items, nil, cons, end, field, dict, null, bool, number, text, list, tuple,
}
use safehire_proofops_bnb.LiveHire.Chain.{
  HireError, JobState, open_job, funded, submitted, completed, rejected, expired, unknown, TaskSpec,
  Sources, get, equals_number, truthy, must_be_funded, not_notifiable, no_operator,
  rejected_notification, different_job_acknowledged, not_acknowledged, raised,
}
use safehire_proofops_bnb.LiveHire.Status.{JobStatus, live_job_status}

pub record Route : Type 0 where
  pub operator : String
  pub endpoint : String

pub record Request : Type 0 where
  pub job_id : ℕ
  pub service : String
  pub parameters : Fields

pub record Network : Type 0 where
  pub resolve_agent : String → ℕ → Raising HireError Route
  pub post : String → Request → Raising HireError Json
  pub strip : String → String

pub data Notified : Type 0 where
  already_submitted already_completed : Notified
  accepted_by : Route → Notified

abbrev pub is_text : String → Option Json → Bool
is_text s none = false
is_text s (some value) = elim value [ text t ↦ str_eq t s | _ ↦ false ]

-- The part's data, if both are objects.
abbrev pub data_of : Json → Option Fields
data_of part = elim part [
  | dict fs ↦ elim (get "data" fs) [
    | none ↦ none
    | some value ↦ elim value [ dict d ↦ some d | _ ↦ none ]
  ]
  | _ ↦ none
]

-- What a loop over the parts runs through: the items of a text or of an object are texts.
unfoldable pub parts_of : Option Json → Raising HireError Items
parts_of none = ok nil
parts_of (some (list xs)) = ok xs
parts_of (some (tuple xs)) = ok xs
parts_of (some (text s)) = ok nil
parts_of (some (dict fs)) = ok nil
parts_of (some null) = err (raised "TypeError")
parts_of (some (bool b)) = err (raised "TypeError")
parts_of (some (number n)) = err (raised "TypeError")

module _ (rpc : Sources) where
  abbrev pub names_job : ℕ → Fields → Bool
  names_job id d = elim (get "job_id" d) [
    | none ↦ false
    | some v ↦ equals_number rpc.natural_of v id
  ]

  -- One part, with whether the request was accepted before and after it.
  unfoldable pub read_part : ℕ → Bool → Json → Raising HireError Bool
  read_part id accepted part = elim (data_of part) [
    | none ↦ ok accepted
    | some d ↦
        if is_text "rejected" (get "status" d)
        then err rejected_notification
        else if is_text "accepted" (get "status" d)
        then (if names_job id d then ok true else err different_job_acknowledged)
        else ok accepted
  ]

  unfoldable pub read_parts : ℕ → Bool → Items → Raising HireError Bool
  unfolding read_part
  read_parts id accepted nil = ok accepted
  read_parts id accepted (cons part rest) =
      read_part id accepted part >>= λ now_accepted. read_parts id now_accepted rest

  abbrev pub is_true : Option Json → Bool
  is_true none = false
  is_true (some value) = elim value [ bool b ↦ b | _ ↦ false ]

  unfoldable pub acknowledged : ℕ → Option Json → Raising HireError Bool
  unfolding parts_of read_parts
  acknowledged id none = ok false
  acknowledged id (some value) = elim value [
    | dict fs ↦
        (parts_of (get "parts" fs) >>= λ parts. read_parts id (is_true (get "accepted" fs)) parts)
    | _ ↦ ok false
  ]

  -- `payload`, an object with no error
  unfoldable pub answer_of : Json → Raising HireError Fields
  answer_of payload = elim payload [
    | dict fs ↦ elim (get "error" fs) [
      | none ↦ ok fs
      | some e ↦ if truthy e then err rejected_notification else ok fs
    ]
    | _ ↦ err rejected_notification
  ]

  unfoldable pub send_notice : Network → ℕ → JobStatus → Raising HireError Notified
  unfolding acknowledged answer_of
  send_notice net id status = do
    guard (status.job.budget == status.price) not_notifiable
    route ← net.resolve_agent status.task_spec.service status.task_spec.erc8004_token_id
    guard (not (str_eq (net.strip route.operator) "")) no_operator
    payload ← net.post route.endpoint (record {
      job_id = id;
      service = status.task_spec.service;
      parameters = status.task_spec.task_input;
    })
    answer ← answer_of payload
    accepted ← acknowledged id (get "result" answer)
    guard accepted not_acknowledged
    ok (accepted_by route)

  unfoldable pub notify_live_agent : Network → ℕ → ℕ → Raising HireError Notified
  unfolding send_notice
  notify_live_agent net now id = do
    status ← live_job_status rpc now id
    elim status.status [
      | submitted ↦ ok already_submitted
      | completed ↦ ok already_completed
      | funded ↦ send_notice net id status
      | _ ↦ err must_be_funded
    ]
