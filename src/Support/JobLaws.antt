-- ===== src/Support/JobLaws.antt =====
-- What an invariant of the store owes a job (apps/worker/src/support.processor.ts), write by write, and
-- the steps of the job under these laws.
use autonomous_csa.Base.{
  ◌≡◌, refl, Bool, true, false, List, [], ◌∷◌, Option, none, some, ℕ, ◌+◌, Text, if◌then◌else◌, any,
  find_first,
}
use autonomous_csa.Db.{AgentEventType}
use autonomous_csa.Support.Detectors.{detect_secrets}
use autonomous_csa.Support.Guardrails.{AgentGuardrailCheck}
use autonomous_csa.Support.Classifier.{SerializedError}
use autonomous_csa.Support.Store.{
  AgentRun, DraftStatus, OutboundDraft, HumanApproval, OperationalFailure, OrganizationSettings,
  DeadLetter, Store, returned, thrown, return,
}
use autonomous_csa.Support.Records.{
  TicketJob, is_event, with_event, append_agent_event, find_event, append_agent_event_once,
  is_approved, is_run_draft, rewrite_draft, find_last, new_draft, save_draft, ensure_run_draft,
  is_run_approval, new_approval, save_approval, ensure_approval, is_open_failure, refresh_failure,
  new_failure, save_failure, record_operational_failure,
}
use autonomous_csa.Support.Processor.{
  JobEnv, has_run_id, change_run, update_run, default_settings, has_org_id, settings_in,
  upsert_settings,
}
use autonomous_csa.Support.Keeps.{
  Any, Ends, Keeps, IsFaultFree, with_faults, call-Ends, call-Keeps, query-Keeps,
}

-- The types of events that an attempt appends without looking for an older one.
abbrev pub is_repeatable : AgentEventType → Bool
is_repeatable AgentEventType.guardrail_started = true
is_repeatable AgentEventType.guardrail_pii_detected = true
is_repeatable AgentEventType.guardrail_secret_detected = true
is_repeatable AgentEventType.guardrail_cost_limit_exceeded = true
is_repeatable AgentEventType.guardrail_knowledge_grounding_failed = true
is_repeatable _ = false

-- A text that may stand in a draft of a status: no secret is detected in an approved one.
abbrev pub IsCleared : Text → DraftStatus → Type 0
IsCleared body status = is_approved status ≡ true → detect_secrets body ≡ []

pub record JobLaws (I : Store → Type 0) (env : JobEnv) (job : TicketJob) : Type 0 where
  pub faults : IsFaultFree I
  pub runs : (s : Store) (rows : List AgentRun) → I s → I (record s { runs = rows })
  pub settings :
      (s : Store) (rows : List OrganizationSettings) → I s → I (record s { settings = rows })
  pub checks :
      (s : Store) (rows : List AgentGuardrailCheck) → I s → I (record s { guardrail_checks = rows })
  pub letters : (s : Store) (rows : List DeadLetter) → I s → I (record s { dead_letters = rows })
  pub refreshed :
      (s : Store) (error : SerializedError) (attempts id : ℕ)
      → I s
      → I (record s { failures = refresh_failure job error attempts id s.failures })
  pub failure :
      (s : Store) (error : SerializedError) (attempts : ℕ)
      → find_first (is_open_failure job) s.failures ≡ none
      → I s
      → I (record s {
        failures = new_failure job error attempts s.next_id ∷ s.failures;
        next_id = s.next_id + 1;
      })
  pub once :
      (s : Store) (type : AgentEventType)
      → any (is_event job type) s.events ≡ false
      → I s
      → I (with_event job type s)
  pub repeated :
      (s : Store) (type : AgentEventType)
      → is_repeatable type ≡ true
      → I s
      → I (with_event job type s)
  pub rewriting :
      (s : Store) (id : ℕ) (body : Text) (status : DraftStatus)
      → IsCleared body status
      → I s
      → I (record s { drafts = rewrite_draft id body status s.drafts })
  pub drafting :
      (s : Store) (body : Text) (status : DraftStatus)
      → IsCleared body status
      → find_last (is_run_draft job) s.drafts ≡ none
      → I s
      → I (record s { drafts = new_draft job body status s ∷ s.drafts; next_id = s.next_id + 1 })
  pub approving :
      (s : Store) (draft_id : ℕ) (body : Text)
      → find_first (is_run_approval job draft_id) s.approvals ≡ none
      → I s
      → I (record s {
        approvals = new_approval job draft_id body s.next_id ∷ s.approvals;
        next_id = s.next_id + 1;
      })
  pub pipeline : Keeps I Any (env.run_pipeline job)

module _ (I : Store → Type 0) (env : JobEnv) (job : TicketJob) (law : JobLaws I env job) where
  pub repeated-Keeps :
      (type : AgentEventType)
      → is_repeatable type ≡ true
      → Keeps I Any (append_agent_event job type)
  unfolding append_agent_event
  repeated-Keeps type e =
      call-Keeps I Any (λ s. (returned tt, with_event job type s)) law.faults
        (λ s i. (law.repeated s type e i, tt))

  once_from :
      (type : AgentEventType) (s : Store) (b : Bool)
      → any (is_event job type) s.events ≡ b
      → I s
      → Ends I Any ((if b then return tt else append_agent_event job type) s)
  unfolding return append_agent_event
  once_from type s true e i = (i, tt)
  once_from type s false e i =
      call-Ends I Any (λ t. (returned tt, with_event job type t)) s law.faults i
        (λ fs. (law.once (with_faults s fs) type e (law.faults s fs i), tt))

  pub once-Keeps : (type : AgentEventType) → Keeps I Any (append_agent_event_once job type)
  unfolding append_agent_event_once find_event
  once-Keeps type =
      query-Keeps I Any (λ s. any (is_event job type) s.events)
        (λ b. if b then return tt else append_agent_event job type) law.faults
        (λ s i. once_from type s (any (is_event job type) s.events) refl i)

  draft_from :
      (body : Text) (status : DraftStatus) (s : Store) (o : Option OutboundDraft)
      → IsCleared body status
      → find_last (is_run_draft job) s.drafts ≡ o
      → I s
      → Ends I Any (save_draft job body status o s)
  draft_from body status s (some d) c e i =
      call-Ends I Any _ s law.faults i
        (λ fs. (law.rewriting (with_faults s fs) d.id body status c (law.faults s fs i), tt))
  draft_from body status s none c e i =
      call-Ends I Any _ s law.faults i
        (λ fs. (law.drafting (with_faults s fs) body status c e (law.faults s fs i), tt))

  pub draft-Keeps :
      (body : Text) (status : DraftStatus)
      → IsCleared body status
      → Keeps I Any (ensure_run_draft job body status)
  unfolding ensure_run_draft
  draft-Keeps body status c =
      query-Keeps I Any (λ s. find_last (is_run_draft job) s.drafts) (save_draft job body status)
        law.faults
        (λ s i. draft_from body status s (find_last (is_run_draft job) s.drafts) c refl i)

  approval_from :
      (id : ℕ) (body : Text) (s : Store) (o : Option HumanApproval)
      → find_first (is_run_approval job id) s.approvals ≡ o
      → I s
      → Ends I Any (save_approval job id body o s)
  unfolding return
  approval_from id body s (some a) e i = (i, tt)
  approval_from id body s none e i =
      call-Ends I Any _ s law.faults i
        (λ fs. (law.approving (with_faults s fs) id body e (law.faults s fs i), tt))

  pub approval-Keeps : (id : ℕ) (body : Text) → Keeps I Any (ensure_approval job id body)
  unfolding ensure_approval
  approval-Keeps id body =
      query-Keeps I Any (λ s. find_first (is_run_approval job id) s.approvals)
        (save_approval job id body) law.faults
        (λ s i. approval_from id body s (find_first (is_run_approval job id) s.approvals) refl i)

  failure_from :
      (error : SerializedError) (n : ℕ) (s : Store) (o : Option OperationalFailure)
      → find_first (is_open_failure job) s.failures ≡ o
      → I s
      → Ends I Any (save_failure job error n o s)
  failure_from error n s (some f) e i =
      call-Ends I Any _ s law.faults i
        (λ fs. (law.refreshed (with_faults s fs) error n f.id (law.faults s fs i), tt))
  failure_from error n s none e i =
      call-Ends I Any _ s law.faults i
        (λ fs. (law.failure (with_faults s fs) error n e (law.faults s fs i), tt))

  pub failure-Keeps :
      (error : SerializedError) (n : ℕ) → Keeps I Any (record_operational_failure job error n)
  unfolding record_operational_failure
  failure-Keeps error n =
      query-Keeps I Any (λ s. find_first (is_open_failure job) s.failures)
        (save_failure job error n) law.faults
        (λ s i. failure_from error n s (find_first (is_open_failure job) s.failures) refl i)

  update_in :
      (id : ℕ) (change : AgentRun → AgentRun) (s : Store) (b : Bool)
      → I s
      → Ends I Any (
          if b
          then (returned tt, record s { runs = change_run id change s.runs })
          else (thrown env.record_not_found, s))
  update_in id change s true i = (law.runs s (change_run id change s.runs) i, tt)
  update_in id change s false i = (i, tt)

  pub update-Keeps :
      (id : ℕ) (change : AgentRun → AgentRun) → Keeps I Any (update_run env id change)
  unfolding update_run
  update-Keeps id change =
      call-Keeps I Any _ law.faults (λ s i. update_in id change s (any (has_run_id id) s.runs) i)

  settings_from :
      (org_id : ℕ) (s : Store) (o : Option OrganizationSettings)
      → I s
      → Ends I Any (settings_in org_id o s)
  settings_from org_id s (some found) i = (i, tt)
  settings_from org_id s none i = (law.settings s (default_settings org_id ∷ s.settings) i, tt)

  pub settings-Keeps : (org_id : ℕ) → Keeps I Any (upsert_settings org_id)
  unfolding upsert_settings
  settings-Keeps org_id =
      call-Keeps I Any _ law.faults
        (λ s i. settings_from org_id s (find_first (has_org_id org_id) s.settings) i)
