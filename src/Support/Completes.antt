-- ===== src/Support/Completes.antt =====
-- The steps of a support job (apps/worker/src/support.processor.ts) on a database that answers every
-- call.
use autonomous_csa.Base.{
  sym, subst, Bool, true, false, List, [], ◌∷◌, Option, none, some, ℕ, if◌then◌else◌, find_first,
  Text,
}
use autonomous_csa.Db.{AgentEventType}
use autonomous_csa.Support.Guardrails.{GuardrailDecision, GuardrailContext, GuardrailCheckResult}
use autonomous_csa.Support.Classifier.{SerializedError}
use autonomous_csa.Support.Store.{
  DraftStatus, OutboundDraft, HumanApproval, OrganizationSettings, Store, Answer, returned, thrown,
  Run, run_next, after_fault, ◌>>=◌, ◌>>◌, call, return,
}
use autonomous_csa.Support.Records.{
  TicketJob, append_agent_event, find_event, append_agent_event_once, save_draft, ensure_run_draft,
  save_approval, ensure_approval,
}
use autonomous_csa.Support.Processor.{
  has_org_id, settings_in, upsert_settings, run_guardrails, check_event, report_check,
  report_checks, request_approval, follow_up, keep_draft,
}
use autonomous_csa.Support.JobErrors.{IsReady}

-- No condition.
abbrev pub Always : {A : Type 0} → A → Store → Type 0
Always a s = Unit

module _ (job : TicketJob) where
  -- The computation returned, with a value and a store of which `P` holds, and the store is ready
  -- for the next one.
  abbrev pub Completed : {E A : Type 0} → (A → Store → Type 0) → Answer E A × Store → Type 0
  Completed P (returned a, s) = IsReady job s × P a s
  Completed P (thrown e, s) = ⊥

  abbrev pub Completes : {E A : Type 0} → (A → Store → Type 0) → Run E A → Type 0
  Completes P m = (s : Store) → IsReady job s → Completed P (m s)

  next-Completed :
      {E A B : Type 0} (P : A → Store → Type 0) (Q : B → Store → Type 0) (f : A → Run E B)
      (r : Answer E A × Store)
      → Completed P r
      → ((a : A) → Completes Q (f a))
      → Completed Q (run_next f r)
  next-Completed P Q f (returned a, s) (h, p) k = k a s h
  next-Completed P Q f (thrown e, s) h k = absurd h

  pub bind-Completes :
      {E A B : Type 0} (Q : B → Store → Type 0) (m : Run E A) (f : A → Run E B)
      → Completes Always m
      → ((a : A) → Completes Q (f a))
      → Completes Q (m >>= f)
  unfolding ◌>>=◌
  bind-Completes Q m f h k s r = next-Completed Always Q f (m s) (h s r) k

  pub then-Completes :
      {E A B : Type 0} (Q : B → Store → Type 0) (m : Run E A) (n : Run E B)
      → Completes Always m
      → Completes Q n
      → Completes Q (m >> n)
  unfolding ◌>>◌
  then-Completes Q m n h k s r = next-Completed Always Q (λ _. n) (m s) (h s r) (λ _. k)

  return-Completed :
      {E A B : Type 0} (P : Store → Type 0) (Q : B → Store → Type 0) (b : B)
      (r : Answer E A × Store)
      → Completed (λ a. P) r
      → ((s : Store) → P s → Q b s)
      → Completed Q (run_next (λ _. return b) r)
  unfolding return
  return-Completed P Q b (returned a, s) (i, p) k = (i, k s p)
  return-Completed P Q b (thrown e, s) h k = absurd h

  -- A step, and a value that what the step establishes is about.
  pub last-Completes :
      {E A B : Type 0} (P : Store → Type 0) (Q : B → Store → Type 0) (m : Run E A) (b : B)
      → Completes (λ a. P) m
      → ((s : Store) → P s → Q b s)
      → Completes Q (m >> return b)
  unfolding ◌>>◌
  last-Completes P Q m b h k s r = return-Completed P Q b (m s) (h s r) k

  pub call-Completes :
      {A : Type 0} (P : A → Store → Type 0) (f : Run SerializedError A)
      → Completes P f
      → Completes P (call f)
  unfolding call
  call-Completes P f h s r = subst (λ fs. Completed P (after_fault f s fs)) (sym r.0) (h s r)

  pub if-Completes :
      {E A : Type 0} (P : A → Store → Type 0) (b : Bool) (m n : Run E A)
      → Completes P m
      → Completes P n
      → Completes P (if b then m else n)
  if-Completes P true m n h k = h
  if-Completes P false m n h k = k

  pub append-Completes : (type : AgentEventType) → Completes Always (append_agent_event job type)
  unfolding append_agent_event
  append-Completes type = call-Completes Always _ (λ s r. (r, tt))

  pub once-Completes : (type : AgentEventType) → Completes Always (append_agent_event_once job type)
  unfolding append_agent_event_once find_event return
  once-Completes type =
      bind-Completes Always _ _ (call-Completes Always _ (λ s r. (r, tt)))
        (λ b. if-Completes Always b _ _ (λ s r. (r, tt)) (append-Completes type))

  pub draft-Completes :
      (body : Text) (status : DraftStatus) → Completes Always (ensure_run_draft job body status)
  unfolding ensure_run_draft
  draft-Completes body status =
      bind-Completes Always _ _ (call-Completes Always _ (λ s r. (r, tt))) save
    where
      save : (o : Option OutboundDraft) → Completes Always (save_draft job body status o)
      save (some d) = call-Completes Always _ (λ s r. (r, tt))
      save none = call-Completes Always _ (λ s r. (r, tt))

  pub approval-Completes : (id : ℕ) (body : Text) → Completes Always (ensure_approval job id body)
  unfolding ensure_approval return
  approval-Completes id body =
      bind-Completes Always _ _ (call-Completes Always _ (λ s r. (r, tt))) save
    where
      save : (o : Option HumanApproval) → Completes Always (save_approval job id body o)
      save (some a) = λ s r. (r, tt)
      save none = call-Completes Always _ (λ s r. (r, tt))

  pub guardrails-Completes : (ctx : GuardrailContext) → Completes Always (run_guardrails ctx)
  unfolding run_guardrails
  guardrails-Completes ctx = call-Completes Always _ (λ s r. (r, tt))

  pub settings-Completes : (org_id : ℕ) → Completes Always (upsert_settings org_id)
  unfolding upsert_settings
  settings-Completes org_id =
      call-Completes Always _ (λ s r. found s (find_first (has_org_id org_id) s.settings) r)
    where
      found :
          (s : Store) (o : Option OrganizationSettings)
          → IsReady job s
          → Completed Always (settings_in org_id o s)
      found s (some x) r = (r, tt)
      found s none r = (r, tt)

  pub report_check-Completes :
      (o : Option AgentEventType) (rest : Run SerializedError (Unit {0}))
      → Completes Always rest
      → Completes Always (report_check job o rest)
  report_check-Completes none rest h = h
  report_check-Completes (some type) rest h = then-Completes Always _ _ (append-Completes type) h

  pub report-Completes :
      (checks : List GuardrailCheckResult) → Completes Always (report_checks job checks)
  unfolding report_checks return
  report-Completes [] = λ s r. (r, tt)
  report-Completes (check ∷ checks) =
      report_check-Completes (check_event check) (report_checks job checks)
        (report-Completes checks)

  pub request-Completes :
      (body : Text) (draft : OutboundDraft) (type : AgentEventType)
      → Completes Always (request_approval job body draft type)
  request-Completes body draft type =
      bind-Completes Always _ _ (approval-Completes draft.id body) (λ _. once-Completes type)

  pub follow_up-Completes :
      (body : Text) (aggregate : GuardrailDecision) (require : Bool) (draft : OutboundDraft)
      → Completes Always (follow_up job body aggregate require draft)
  unfolding follow_up
  follow_up-Completes body GuardrailDecision.block require draft =
      once-Completes AgentEventType.guardrail_blocked
  follow_up-Completes body GuardrailDecision.require_approval require draft =
      request-Completes body draft AgentEventType.guardrail_requires_approval
  follow_up-Completes body GuardrailDecision.allow require draft =
      if-Completes Always require _ _
        (request-Completes body draft AgentEventType.human_approval_created)
        (then-Completes Always _ _ (once-Completes AgentEventType.guardrail_check_passed)
          (once-Completes AgentEventType.draft_auto_approved))

  pub keep_draft-Completes :
      (body : Text) (aggregate : GuardrailDecision) (require : Bool)
      → Completes Always (keep_draft job body aggregate require)
  unfolding keep_draft
  keep_draft-Completes body aggregate require =
      bind-Completes Always _ _ (draft-Completes body _) (λ draft.
        then-Completes Always _ _ (once-Completes AgentEventType.draft_created)
          (follow_up-Completes body aggregate require draft))
