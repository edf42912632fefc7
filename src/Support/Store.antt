-- ===== src/Support/Store.antt =====
-- packages/db/prisma/schema.prisma: the tables that a support job reads and writes, and the
-- computations of a job: each takes the store, and returns or throws with the store it leaves.
-- Every call of the database may fail: the store carries, for each call to come, the error with
-- which it fails, if any. A call that fails changes nothing, since it is one statement or one
-- transaction.
use autonomous_csa.Base.{ℕ, Bool, List, [], ◌∷◌, Option, none, some, String, Text}
use autonomous_csa.Db.{AgentEvent}
use autonomous_csa.Support.Guardrails.{AgentGuardrailCheck}
use autonomous_csa.Support.Classifier.{SerializedError}

pub data AgentRunStatus : Type 0 where
  queued running succeeded failed blocked cancelled : AgentRunStatus

pub data DraftStatus : Type 0 where
  draft pending_approval approved rejected sent : DraftStatus

pub data ApprovalStatus : Type 0 where
  pending approved rejected : ApprovalStatus

pub data ActorType : Type 0 where
  user agent system : ActorType

pub record AgentRun : Type 0 where
  pub id : ℕ
  pub status : AgentRunStatus
  pub started_at : Option ℕ
  pub finished_at : Option ℕ
  pub attempt_count : ℕ
  pub total_cost_cents : ℕ
  pub error_code : Option Text
  pub last_error_code : Option Text
  pub last_error_message : Option Text
  pub failure_stage : Option String

pub record OutboundDraft : Type 0 where
  pub id : ℕ
  pub org_id : ℕ
  pub ticket_id : ℕ
  pub agent_run_id : Option ℕ
  pub body : Text
  pub status : DraftStatus
  pub created_by_type : ActorType
  pub approved_by_type : Option ActorType

pub record HumanApproval : Type 0 where
  pub id : ℕ
  pub org_id : ℕ
  pub ticket_id : ℕ
  pub agent_run_id : Option ℕ
  pub outbound_draft_id : Option ℕ
  pub status : ApprovalStatus
  pub proposed_response : Text

pub record OperationalFailure : Type 0 where
  pub id : ℕ
  pub organization_id : ℕ
  pub queue_name : String
  pub job_name : String
  pub job_id : ℕ
  pub ticket_id : ℕ
  pub run_id : ℕ
  pub error_code : Text
  pub safe_error_message : Text
  pub attempt_count : ℕ
  pub resolved : Bool

-- The settings of an organization that the job reads.
pub record OrganizationSettings : Type 0 where
  pub org_id : ℕ
  pub require_human_approval : Bool
  pub max_auto_send_cost_cents : ℕ
  pub require_approval_for_low_confidence : Bool
  pub block_on_pii_detection : Bool
  pub min_critic_completeness_score : ℕ

-- A call of `add` on the queue of dead letters. The job's identifier, `dead-letter-${job.id}`, is
-- `original_job_id`; BullMQ ignores a call with the identifier of a job that it still has.
pub record DeadLetter : Type 0 where
  pub failure_id : ℕ
  pub original_job_id : ℕ
  pub run_id : ℕ
  pub ticket_id : ℕ

-- The rows of the tables, the newest first; `next_id` is an identifier that no row has.
pub record Store : Type 0 where
  pub runs : List AgentRun
  pub events : List AgentEvent
  pub guardrail_checks : List AgentGuardrailCheck
  pub drafts : List OutboundDraft
  pub approvals : List HumanApproval
  pub failures : List OperationalFailure
  pub settings : List OrganizationSettings
  pub dead_letters : List DeadLetter
  pub next_id : ℕ
  pub faults : List (Option SerializedError)

-- What a computation ends with, the error being of type `E`.
pub data Answer (E A : Type 0) : Type 0 where
  returned : A → Answer E A
  thrown : E → Answer E A

abbrev pub Run : Type 0 → Type 0 → Type 0
Run E A = Store → Answer E A × Store

abbrev pub run_next : {E A B : Type 0} → (A → Run E B) → Answer E A × Store → Answer E B × Store
run_next f (returned a, s) = f a s
run_next f (thrown e, s) = (thrown e, s)

infixl 5 ◌>>=◌ ◌>>◌
unfoldable pub ◌>>=◌ : {E A B : Type 0} → Run E A → (A → Run E B) → Run E B
(m >>= f) s = run_next f (m s)

unfoldable pub ◌>>◌ : {E A B : Type 0} → Run E A → Run E B → Run E B
unfolding ◌>>=◌
(m >> k) s = run_next (λ _. k) (m s)

unfoldable pub return : {E A : Type 0} → A → Run E A
return a s = (returned a, s)

unfoldable pub throw : {E A : Type 0} → E → Run E A
throw e s = (thrown e, s)

abbrev pub after_fault :
    {A : Type 0}
    → Run SerializedError A
    → Store
    → List (Option SerializedError)
    → Answer SerializedError A × Store
after_fault f s [] = f s
after_fault f s (none ∷ rest) = f (record s { faults = rest })
after_fault f s (some e ∷ rest) = (thrown e, record s { faults = rest })

-- One call of the database, after the fault that awaits it.
unfoldable pub call : {A : Type 0} → Run SerializedError A → Run SerializedError A
call f s = after_fault f s s.faults
