-- ===== src/Inbound/Tickets.antt =====
-- `ensureTicketAndRun` of apps/api/src/channels/channels.service.ts: the message goes to the ticket of
-- its conversation, or to a new one, with a queued run and its dispatch.
use autonomous_csa.Base.{ℕ, ◌+◌, ◌∷◌, Option, none, some, Text, ◌==◌}
use autonomous_csa.Db.{run_queued}
use autonomous_csa.Inbound.Defs.{
  open_ticket, normal, pending, InboundDb, log_run_event, replace_where,
}

pub record TicketInput : Type 0 where
  pub org_id : ℕ
  pub conversation_id : ℕ
  pub webhook_receipt_id : ℕ
  pub ticket_id : Option ℕ
  pub subject : Text
  pub body : Text
  pub customer_email : Text
  pub customer_name : Option Text

pub record RunData : Type 0 where
  pub run_id : ℕ
  pub ticket_id : ℕ
  pub dispatch_id : ℕ

-- The run, its event and its dispatch. The identifier of the run is new, so that its key is.
unfoldable pub queue_run :
    TicketInput → (now ticket_id : ℕ) (subject : Text) → InboundDb → InboundDb × RunData
queue_run input now ticket_id subject db =
    let run_id = db.next_id in
    let dispatch_id = db.next_id + 1 in
    (
      log_run_event input.org_id ticket_id run_queued (some run_id) (record db {
        next_id = db.next_id + 2;
        runs =
            record { id = run_id; org_id = input.org_id; ticket_id = ticket_id; queued_at = now }
            ∷ db.runs;
        dispatches =
            record {
              id = dispatch_id;
              organization_id = input.org_id;
              ticket_id = ticket_id;
              run_id = run_id;
              webhook_receipt_id = input.webhook_receipt_id;
              status = pending;
              available_at = now;
              claimed_at = none;
              completed_at = none;
              attempt_count = 0;
              lock_expires_at = none;
              last_error_code = none;
              payload = record {
                org_id = input.org_id;
                run_id = run_id;
                ticket_id = ticket_id;
                subject = subject;
                body = input.body;
                customer_email = input.customer_email;
              };
            }
            ∷ db.dispatches;
      }),
      record { run_id = run_id; ticket_id = ticket_id; dispatch_id = dispatch_id },
    )

abbrev pub add_ticket_message : TicketInput → ℕ → InboundDb → InboundDb
add_ticket_message input ticket_id db = record db {
  ticket_messages =
      record { org_id = input.org_id; ticket_id = ticket_id; body = input.body }
      ∷ db.ticket_messages;
}

-- `ticket.update` to OPEN.
abbrev pub reopen_ticket : ℕ → InboundDb → InboundDb
reopen_ticket ticket_id db = record db {
  tickets =
      replace_where (λ t. t.id == ticket_id) (λ t. record t { status = open_ticket }) db.tickets;
}

-- The ticket, with its first message.
abbrev pub create_ticket : (Text → Text) → TicketInput → InboundDb → InboundDb
create_ticket sanitize_subject input db = add_ticket_message input db.next_id (record db {
  next_id = db.next_id + 1;
  tickets =
      record {
        id = db.next_id;
        org_id = input.org_id;
        subject = sanitize_subject input.subject;
        status = open_ticket;
        priority = normal;
        customer_email = input.customer_email;
        customer_name = input.customer_name;
      }
      ∷ db.tickets;
})

abbrev pub set_conversation_ticket : ℕ → ℕ → InboundDb → InboundDb
set_conversation_ticket conversation_id ticket_id db = record db {
  conversations =
      replace_where (λ c. c.id == conversation_id) (λ c. record c { ticket_id = some ticket_id })
        db.conversations;
}

-- The two branches, by the ticket of the conversation.
unfoldable pub ensure_for :
    (Text → Text) → TicketInput → ℕ → InboundDb → Option ℕ → InboundDb × RunData
unfolding queue_run replace_where
ensure_for sanitize_subject input now db (some ticket_id) =
    queue_run input now ticket_id input.subject
      (reopen_ticket ticket_id (add_ticket_message input ticket_id db))
ensure_for sanitize_subject input now db none =
    queue_run input now db.next_id (sanitize_subject input.subject) (
      set_conversation_ticket input.conversation_id db.next_id
        (create_ticket sanitize_subject input db))

unfoldable pub ensure_ticket_and_run :
    (Text → Text) → TicketInput → ℕ → InboundDb → InboundDb × RunData
unfolding ensure_for
ensure_ticket_and_run sanitize_subject input now db =
    ensure_for sanitize_subject input now db input.ticket_id
