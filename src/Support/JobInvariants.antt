-- ===== src/Support/JobInvariants.antt =====
-- Invariants of the store under a job of the support queue (apps/worker/src/support.processor.ts): the
-- drafts that the agents approve, and the numbers of the timeline.
use autonomous_csa.Base.{
  ◌&&◌, ◌⊎◌, arith, ◌≡◌, Bool, true, false, List, [], ◌∷◌, none, some, ℕ, Text, if◌then◌else◌, All,
  ◌==◌,
}
use autonomous_csa.Db.Sequence.{IsGapless, append_timeline_event-IsGapless}
use autonomous_csa.Support.Detectors.{detect_secrets}
use autonomous_csa.Support.Store.{DraftStatus, OutboundDraft, Store}
use autonomous_csa.Support.Records.{
  TicketJob, is_agent, is_approved, rewritten, rewrite_draft, new_draft,
}
use autonomous_csa.Support.Processor.{JobEnv}
use autonomous_csa.Support.Job.{process_ticket_job}
use autonomous_csa.Support.Keeps.{Any, Keeps}
use autonomous_csa.Support.JobLaws.{JobLaws, IsCleared}
use autonomous_csa.Support.JobKeeps.{process-Keeps}

-- The draft is approved, and by the agents.
abbrev pub is_agent_approved : OutboundDraft → Bool
is_agent_approved d = elim d.approved_by_type [
  | none ↦ false
  | some type ↦ is_agent type && is_approved d.status
]

-- A draft that the agents approved has no detected secret.
abbrev pub IsSafeDraft : OutboundDraft → Type 0
IsSafeDraft d = (is_agent_approved d ≡ false) ⊎ (detect_secrets d.body ≡ [])

abbrev pub HasSafeDrafts : Store → Type 0
HasSafeDrafts s = All IsSafeDraft s.drafts

IsCleared-IsSafeDraft : (d : OutboundDraft) → IsCleared d.body d.status → IsSafeDraft d
IsCleared-IsSafeDraft d c = ground (arith, c)

rewrite_draft-IsSafeDraft :
    (id : ℕ) (body : Text) (status : DraftStatus) (ds : List OutboundDraft)
    → IsCleared body status
    → All IsSafeDraft ds
    → All IsSafeDraft (rewrite_draft id body status ds)
rewrite_draft-IsSafeDraft id body status [] c h = tt
rewrite_draft-IsSafeDraft id body status (d ∷ ds) c (h, hs) =
    (one (d.id == id), rewrite_draft-IsSafeDraft id body status ds c hs)
  where
    one : (b : Bool) → IsSafeDraft (if b then rewritten body status d else d)
    one true = IsCleared-IsSafeDraft (rewritten body status d) c
    one false = h

HasSafeDrafts-laws :
    (env : JobEnv) (job : TicketJob)
    → Keeps HasSafeDrafts Any (env.run_pipeline job)
    → JobLaws HasSafeDrafts env job
HasSafeDrafts-laws env job h = record {
  faults = λ s fs i. i;
  runs = λ s rows i. i;
  settings = λ s rows i. i;
  checks = λ s rows i. i;
  letters = λ s rows i. i;
  refreshed = λ s error n id i. i;
  failure = λ s error n e i. i;
  once = λ s type e i. i;
  repeated = λ s type e i. i;
  rewriting = λ s id body status c i. rewrite_draft-IsSafeDraft id body status s.drafts c i;
  drafting = λ s body status c e i. (IsCleared-IsSafeDraft (new_draft job body status s) c, i);
  approving = λ s id body e i. i;
  pipeline = h;
}

-- If in a store no secret is detected in any draft that is approved by the agents (as the draft's
-- approver says, so that drafts that a person approved may hold any text), then the same holds after a job, whether the job returns or throws, whatever calls of the database fail, as long as
-- the pipeline of the agents keeps this.
pub process_ticket_job-HasSafeDrafts :
    (env : JobEnv) (job : TicketJob) (s : Store)
    → Keeps HasSafeDrafts Any (env.run_pipeline job)
    → HasSafeDrafts s
    → HasSafeDrafts (process_ticket_job env job s).1
process_ticket_job-HasSafeDrafts env job s h i =
    (process-Keeps HasSafeDrafts env job (HasSafeDrafts-laws env job h) s i).0

abbrev pub HasGaplessTimeline : Store → Type 0
HasGaplessTimeline s = IsGapless s.events

HasGaplessTimeline-laws :
    (env : JobEnv) (job : TicketJob)
    → Keeps HasGaplessTimeline Any (env.run_pipeline job)
    → JobLaws HasGaplessTimeline env job
HasGaplessTimeline-laws env job h = record {
  faults = λ s fs i. i;
  runs = λ s rows i. i;
  settings = λ s rows i. i;
  checks = λ s rows i. i;
  letters = λ s rows i. i;
  refreshed = λ s error n id i. i;
  failure = λ s error n e i. i;
  once = λ s type e i.
      (append_timeline_event-IsGapless job.org_id job.ticket_id type (some job.run_id) s.events
        i).1;
  repeated = λ s type e i.
      (append_timeline_event-IsGapless job.org_id job.ticket_id type (some job.run_id) s.events
        i).1;
  rewriting = λ s id body status c i. i;
  drafting = λ s body status c e i. i;
  approving = λ s id body e i. i;
  pipeline = h;
}

-- If the timeline numbers the events of each ticket without gaps, then it still does after a job,
-- whether the job returns or throws, whatever calls of the database fail, as long as the pipeline of
-- the agents keeps this.
pub process_ticket_job-HasGaplessTimeline :
    (env : JobEnv) (job : TicketJob) (s : Store)
    → Keeps HasGaplessTimeline Any (env.run_pipeline job)
    → HasGaplessTimeline s
    → HasGaplessTimeline (process_ticket_job env job s).1
process_ticket_job-HasGaplessTimeline env job s h i =
    (process-Keeps HasGaplessTimeline env job (HasGaplessTimeline-laws env job h) s i).0
