-- ===== src/Support/JobOnce.antt =====
-- The rows that a job of the support queue (apps/worker/src/support.processor.ts) writes after it
-- looked for them.
use autonomous_csa.Base.{
  ◌⊎◌, find_first, ==_iff, ◌≡◌, refl, sym, ap, subst, ◌≤◌, Bool, true, false, List, [], ◌∷◌, none,
  some, ℕ, ◌+◌, Text, any, count, count_of_any, count_of_find_first, arith, inl, inr, Bool-cases,
  ◌==◌, ◌∙◌,
}
use autonomous_csa.Db.{
  AgentEvent, AgentEventType, AgentEventType-discrete, append_timeline_event, next_event_sequence,
}
use autonomous_csa.Support.Classifier.{SerializedError}
use autonomous_csa.Support.Store.{DraftStatus, OutboundDraft, OperationalFailure, Store}
use autonomous_csa.Support.Records.{
  TicketJob, decided, same_type, is_event, with_event, is_run_draft, rewrite_draft, find_last,
  new_draft, is_run_approval, new_approval, is_open_failure, refresh_failure, new_failure,
}
use autonomous_csa.Support.Processor.{JobEnv}
use autonomous_csa.Support.Job.{process_ticket_job}
use autonomous_csa.Support.Keeps.{Any, Keeps}
use autonomous_csa.Support.JobLaws.{JobLaws, is_repeatable}
use autonomous_csa.Support.JobKeeps.{process-Keeps}

-- The types of events that a job appends at most once for a run.
abbrev pub is_once : AgentEventType → Bool
is_once AgentEventType.run_started = true
is_once AgentEventType.draft_created = true
is_once AgentEventType.guardrail_blocked = true
is_once AgentEventType.guardrail_requires_approval = true
is_once AgentEventType.human_approval_created = true
is_once AgentEventType.guardrail_check_passed = true
is_once AgentEventType.draft_auto_approved = true
is_once AgentEventType.run_finished = true
is_once AgentEventType.run_failed = true
is_once _ = false

decided-holds : {A : Type 0} (d : Dec A) → decided d ≡ true → A
decided-holds (yes a) h = a
decided-holds (no n) h = ground (arith, h)

same_type-eq : (a b : AgentEventType) → same_type a b ≡ true → a ≡ b
same_type-eq a b h = decided-holds (AgentEventType-discrete a b) h

-- Of the run of a job: each such event, the draft of the agents, the approval of a draft, and the
-- open failure are there at most once.
abbrev pub IsSingle : TicketJob → Store → Type 0
IsSingle job s =
    ((type : AgentEventType) → (is_once type ≡ false) ⊎ (count (is_event job type) s.events ≤ 1))
    × (count (is_run_draft job) s.drafts ≤ 1)
    × ((draft_id : ℕ) → count (is_run_approval job draft_id) s.approvals ≤ 1)
    × (count (is_open_failure job) s.failures ≤ 1)

count_suc : {A : Type 0} (p : A → Bool) (x : A) (xs : List A) → count p (x ∷ xs) ≤ count p xs + 1
count_suc p x xs = ground arith

count_skip :
    {A : Type 0} (p : A → Bool) (x : A) (xs : List A) → p x ≡ false → count p (x ∷ xs) ≡ count p xs
count_skip p x xs h = ground (arith, h)

count_first :
    {A : Type 0} (p : A → Bool) (x : A) (xs : List A) → count p xs ≡ 0 → count p (x ∷ xs) ≤ 1
count_first p x xs h = omega (arith, count_suc p x xs)

-- The row that is appended.
abbrev added_event : TicketJob → AgentEventType → Store → AgentEvent
added_event job new s = record {
  org_id = job.org_id;
  ticket_id = job.ticket_id;
  run_id = some job.run_id;
  type = new;
  sequence = next_event_sequence job.org_id job.ticket_id s.events;
}

-- An event of another type.
other_type-count :
    (job : TicketJob) (s : Store) (new type : AgentEventType)
    → same_type new type ≡ false
    → count (is_event job type) (with_event job new s).events ≡ count (is_event job type) s.events
unfolding append_timeline_event
other_type-count job s new type d =
    count_skip (is_event job type) (added_event job new s) s.events (ground (arith, d))

event_once-count :
    (job : TicketJob) (s : Store) (new type : AgentEventType)
    → any (is_event job new) s.events ≡ false
    → count (is_event job type) s.events ≤ 1
    → count (is_event job type) (with_event job new s).events ≤ 1
unfolding append_timeline_event
event_once-count job s new type e h = elim (Bool-cases (same_type new type)) [
  | inl y ↦
      subst (λ t. count (is_event job t) (with_event job new s).events ≤ 1)
        (same_type-eq new type y)
        (count_first (is_event job new) (added_event job new s) s.events
          (count_of_any (is_event job new) s.events e))
  | inr n ↦ omega (arith, other_type-count job s new type n, h)
]

repeatable-is_once : (a : AgentEventType) → is_repeatable a ≡ true → is_once a ≡ false
repeatable-is_once a h = ground (arith, h)

event_repeated-count :
    (job : TicketJob) (s : Store) (new type : AgentEventType)
    → is_repeatable new ≡ true
    → is_once type ≡ true
    → count (is_event job type) s.events ≤ 1
    → count (is_event job type) (with_event job new s).events ≤ 1
event_repeated-count job s new type e o h = elim (Bool-cases (same_type new type)) [
  | inl y ↦
      ground (arith, sym o ∙ ap is_once (sym (same_type-eq new type y)) ∙ repeatable-is_once new e)
  | inr n ↦ omega (arith, other_type-count job s new type n, h)
]

once_more :
    (job : TicketJob) (s : Store) (new type : AgentEventType)
    → any (is_event job new) s.events ≡ false
    → (is_once type ≡ false) ⊎ (count (is_event job type) s.events ≤ 1)
    → (is_once type ≡ false) ⊎ (count (is_event job type) (with_event job new s).events ≤ 1)
once_more job s new type e (inl n) = inl n
once_more job s new type e (inr h) = inr (event_once-count job s new type e h)

repeated_more :
    (job : TicketJob) (s : Store) (new type : AgentEventType)
    → is_repeatable new ≡ true
    → (is_once type ≡ true) ⊎ (is_once type ≡ false)
    → (is_once type ≡ false) ⊎ (count (is_event job type) s.events ≤ 1)
    → (is_once type ≡ false) ⊎ (count (is_event job type) (with_event job new s).events ≤ 1)
repeated_more job s new type e (inr n) h = inl n
repeated_more job s new type e (inl o) (inl n) = inl n
repeated_more job s new type e (inl o) (inr h) = inr (event_repeated-count job s new type e o h)

find_last-count : {A : Type 0} (p : A → Bool) (xs : List A) → find_last p xs ≡ none → count p xs ≡ 0
find_last-count p [] h = refl
find_last-count p (x ∷ xs) h = ground (arith, h, find_last-count p xs)

rewrite_draft-count :
    (job : TicketJob) (id : ℕ) (body : Text) (status : DraftStatus) (ds : List OutboundDraft)
    → count (is_run_draft job) (rewrite_draft id body status ds) ≡ count (is_run_draft job) ds
rewrite_draft-count job id body status [] = refl
rewrite_draft-count job id body status (d ∷ ds) =
    ground (arith, rewrite_draft-count job id body status ds)

refresh_failure-count :
    (job : TicketJob) (error : SerializedError) (n id : ℕ) (fs : List OperationalFailure)
    → count (is_open_failure job) (refresh_failure job error n id fs)
      ≡ count (is_open_failure job) fs
refresh_failure-count job error n id [] = refl
refresh_failure-count job error n id (f ∷ fs) =
    ground (arith, refresh_failure-count job error n id fs)

approval_new-count :
    (job : TicketJob) (s : Store) (draft_id other : ℕ) (body : Text)
    → find_first (is_run_approval job draft_id) s.approvals ≡ none
    → count (is_run_approval job other) s.approvals ≤ 1
    → count (is_run_approval job other) (new_approval job draft_id body s.next_id ∷ s.approvals) ≤ 1
approval_new-count job s draft_id other body e h = elim (Bool-cases (draft_id == other)) [
  | inl y ↦
      subst
        (λ t.
          count (is_run_approval job t) (new_approval job draft_id body s.next_id ∷ s.approvals)
          ≤ 1)
        (((==_iff draft_id other).0) y)
        (count_first (is_run_approval job draft_id) (new_approval job draft_id body s.next_id)
          s.approvals (count_of_find_first (is_run_approval job draft_id) s.approvals e))
  | inr n ↦ omega (
    arith,
    count_skip (is_run_approval job other) (new_approval job draft_id body s.next_id) s.approvals
        (ground (arith, n)),
    h,
  )
]

IsSingle-laws :
    (env : JobEnv) (job : TicketJob)
    → Keeps (IsSingle job) Any (env.run_pipeline job)
    → JobLaws (IsSingle job) env job
IsSingle-laws env job h = record {
  faults = λ s fs i. i;
  runs = λ s rows i. i;
  settings = λ s rows i. i;
  checks = λ s rows i. i;
  letters = λ s rows i. i;
  refreshed = λ s error n id i. (
    i.0,
    i.1,
    i.2,
    subst (λ k. k ≤ 1) (sym (refresh_failure-count job error n id s.failures)) i.3,
  );
  failure = λ s error n e i. (
    i.0,
    i.1,
    i.2,
    count_first (is_open_failure job) (new_failure job error n s.next_id) s.failures
        (count_of_find_first (is_open_failure job) s.failures e),
  );
  once = λ s type e i. ((λ t. once_more job s type t e (i.0 t)), i.1, i.2, i.3);
  repeated = λ s type e i.
      ((λ t. repeated_more job s type t e (Bool-cases (is_once t)) (i.0 t)), i.1, i.2, i.3);
  rewriting = λ s id body status c i. (
    i.0,
    subst (λ k. k ≤ 1) (sym (rewrite_draft-count job id body status s.drafts)) i.1,
    i.2,
    i.3,
  );
  drafting = λ s body status c e i. (
    i.0,
    count_first (is_run_draft job) (new_draft job body status s) s.drafts
        (find_last-count (is_run_draft job) s.drafts e),
    i.2,
    i.3,
  );
  approving = λ s draft_id body e i.
      (i.0, i.1, (λ other. approval_new-count job s draft_id other body e (i.2 other)), i.3);
  pipeline = h;
}

-- If each event of a type that is written once, the draft of the agents, the approval of each draft
-- and the open failure are there at most once for the run of a job, then so they are after the job,
-- whether it returns or throws, whatever calls of the database fail, as long as the pipeline of the
-- agents keeps this.
pub process_ticket_job-IsSingle :
    (env : JobEnv) (job : TicketJob) (s : Store)
    → Keeps (IsSingle job) Any (env.run_pipeline job)
    → IsSingle job s
    → IsSingle job (process_ticket_job env job s).1
process_ticket_job-IsSingle env job s h i =
    (process-Keeps (IsSingle job) env job (IsSingle-laws env job h) s i).0
