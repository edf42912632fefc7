-- ===== src/Inbound/Outcome.antt =====
-- What a processed message leaves (`processInboundMessage` of
-- apps/api/src/channels/channels.service.ts).
use autonomous_csa.Base.{
  ℕ, ◌+◌, ◌≡◌, refl, sym, ap, subst, ◌∙◌, Bool, true, false, not, ◌&&◌, ==_refl, List, [], ◌∷◌,
  Option, none, some, is_some, and_then-some, or_else, Text, ◌==◌, arith,
}
use autonomous_csa.Delivery.Defs.{ChannelConnection}
use autonomous_csa.Inbound.Defs.{
  ExternalCustomer, TicketMessage, QueuedRun, InboundDispatch, InboundDispatchStatus, pending,
  InboundDb, AttachmentMetadata, ParsedInboundEvent, truthy,
}
use autonomous_csa.Inbound.Customers.{
  CustomerInput, create_customer, update_customer, upsert_by_id, upsert_by_email,
  upsert_external_customer,
}
use autonomous_csa.Inbound.Threads.{
  ConversationInput, FoundConversation, create_conversation, find_or_create_thread,
  find_or_create_reply, find_or_create_conversation,
}
use autonomous_csa.Inbound.Sanitizer.{sanitize_subject}
use autonomous_csa.Inbound.Tickets.{
  TicketInput, RunData, queue_run, ensure_for, ensure_ticket_and_run,
}
use autonomous_csa.Inbound.Ingest.{
  IngestEnv, InboundResponse, message_body, customer_input, conversation_input, ticket_input,
  log_inbound, settle_inbound, finish_inbound, create_message, record_attachments,
  process_inbound_message,
}

abbrev is_pending_status : InboundDispatchStatus → Bool
is_pending_status pending = true
is_pending_status _ = false

-- The tables of work, which only `ensure_ticket_and_run` changes.
abbrev work : InboundDb → List TicketMessage × List QueuedRun × List InboundDispatch
work db = (db.ticket_messages, db.runs, db.dispatches)

work-create_customer :
    (row : ExternalCustomer) (db : InboundDb) (p : InboundDb × ℕ)
    → create_customer row db ≡ some p
    → work p.0 ≡ work db
unfolding create_customer
work-create_customer row db p e = ground (arith, e)

work-update_customer :
    (row : ExternalCustomer) (db : InboundDb) (p : InboundDb × ℕ)
    → update_customer row db ≡ some p
    → work p.0 ≡ work db
unfolding update_customer
work-update_customer row db p e = ground (arith, e)

upsert_work :
    (input : CustomerInput) (db : InboundDb) (p : InboundDb × ℕ)
    → upsert_external_customer input db ≡ some p
    → work p.0 ≡ work db
unfolding upsert_external_customer upsert_by_id upsert_by_email create_customer update_customer
upsert_work input db p e = ground (arith, e)

work-create_conversation :
    (input : ConversationInput) (thread : Option Text) (db : InboundDb)
    (p : InboundDb × FoundConversation)
    → create_conversation input thread db ≡ some p
    → work p.0 ≡ work db
unfolding create_conversation
work-create_conversation input thread db p e = ground (arith, e)

conversation_work :
    (input : ConversationInput) (db : InboundDb) (p : InboundDb × FoundConversation)
    → find_or_create_conversation input db ≡ some p
    → work p.0 ≡ work db
unfolding find_or_create_conversation find_or_create_thread find_or_create_reply
conversation_work input db p e =
    ground (arith, e, work-create_conversation input (truthy input.provider_thread_id) db p)

work-create_message :
    (connection : ChannelConnection) (id : ℕ) (event : ParsedInboundEvent) (db db' : InboundDb)
    → create_message connection id event db ≡ some db'
    → work db' ≡ work db
unfolding create_message
work-create_message connection id event db db' e = ground (arith, e)

attachments_work :
    (org_id ticket_id message_id : ℕ) (attachments : List AttachmentMetadata) (db : InboundDb)
    → work (record_attachments org_id ticket_id message_id attachments db) ≡ work db
unfolding record_attachments
attachments_work org_id ticket_id message_id [] db = refl
attachments_work org_id ticket_id message_id (a ∷ attachments) db =
    attachments_work org_id ticket_id message_id attachments _

work-log_inbound :
    (org_id : ℕ) (run : RunData) (created is_new : Bool) (db : InboundDb)
    → work (log_inbound org_id run created is_new db) ≡ work db
work-log_inbound org_id run true true db = refl
work-log_inbound org_id run true false db = refl
work-log_inbound org_id run false true db = refl
work-log_inbound org_id run false false db = refl

abbrev queued : TicketInput → ℕ → RunData → QueuedRun
queued input now run = record {
  id = run.run_id;
  org_id = input.org_id;
  ticket_id = run.ticket_id;
  queued_at = now;
}

-- A dispatch that waits for the run, from `now` on.
abbrev pub waits_for : ℕ → QueuedRun → InboundDispatch → Bool
waits_for now run d =
    is_pending_status d.status
    && d.available_at == now
    && d.run_id == run.id
    && d.payload.run_id == run.id
    && d.payload.ticket_id == run.ticket_id
    && d.ticket_id == run.ticket_id

-- One message, run and dispatch more than in the first tables.
abbrev Adds : ℕ → TicketInput → RunData → InboundDb → InboundDb → Type 0
Adds now input run db db' =
    (db'.ticket_messages
      ≡ record { org_id = input.org_id; ticket_id = run.ticket_id; body = input.body }
        ∷ db.ticket_messages)
    × (db'.runs ≡ queued input now run ∷ db.runs)
    × ((d : InboundDispatch) × (db'.dispatches ≡ d ∷ db.dispatches)
        × (waits_for now (queued input now run) d ≡ true))

Adds-from :
    (now : ℕ) (input : TicketInput) (run : RunData) (db first db' : InboundDb)
    → work db ≡ work first
    → Adds now input run db db'
    → Adds now input run first db'
Adds-from now input run db first db' same adds = ground (arith, same, adds)

ticket-Adds :
    (sanitize : Text → Text) (input : TicketInput) (now : ℕ) (db : InboundDb) (o : Option ℕ)
    → let ran = ensure_for sanitize input now db o in
      Adds now input ran.1 db ran.0 × (ran.1.ticket_id ≡ or_else o db.next_id)
unfolding ensure_for queue_run
ticket-Adds sanitize input now db none = (
  (
    refl,
    refl,
    (_, refl, ground (arith, ==_refl now, ==_refl db.next_id, ==_refl (db.next_id + 1))),
  ),
  refl,
)
ticket-Adds sanitize input now db (some ticket_id) = (
  (refl, refl, (_, refl, ground (arith, ==_refl now, ==_refl db.next_id, ==_refl ticket_id))),
  refl,
)

ran_Adds :
    (sanitize : Text → Text) (input : TicketInput) (now : ℕ) (db : InboundDb)
    → Adds now input
        (ensure_ticket_and_run sanitize input now db).1
        db
        (ensure_ticket_and_run sanitize input now db).0
unfolding ensure_ticket_and_run
ran_Adds sanitize input now db = (ticket-Adds sanitize input now db input.ticket_id).0

finish_work :
    (connection : ChannelConnection) (now receipt_id customer_id message_id : ℕ)
    (event : ParsedInboundEvent) (found : FoundConversation) (run : RunData) (db : InboundDb)
    → work (finish_inbound connection now receipt_id customer_id message_id event found run db).0
      ≡ work db
unfolding finish_inbound
finish_work connection now receipt_id customer_id message_id event found run db =
    work-log_inbound connection.organization_id run found.created
      (not (is_some found.conversation.ticket_id))
      (settle_inbound connection now receipt_id customer_id message_id event found run db)
    ∙ attachments_work connection.organization_id run.ticket_id message_id event.attachments db

some_lem {ℓ} : {A : Type ℓ} (a b : A) → ◌≡◌ {A = Option A} (some a) (some b) → a ≡ b
some_lem a b e = ap (λ o. or_else o a) e

-- The tables of work after a message, for the ticket that its response names.
pub IsWorkedOn :
    ℕ → ChannelConnection → (body : Text) → InboundDb → InboundDb × InboundResponse → Type 0
IsWorkedOn now connection body db done =
    (done.0.ticket_messages
      ≡ record { org_id = connection.organization_id; ticket_id = done.1.ticket_id; body = body }
        ∷ db.ticket_messages)
    × ((run : QueuedRun) × (d : InboundDispatch) × (run.ticket_id ≡ done.1.ticket_id)
        × (done.0.runs ≡ run ∷ db.runs)
        × (done.0.dispatches ≡ d ∷ db.dispatches)
        × (waits_for now run d ≡ true))

Adds-IsWorkedOn :
    (now : ℕ) (connection : ChannelConnection) (input : TicketInput) (run : RunData)
    (db mid last : InboundDb) (response : InboundResponse)
    → input.org_id ≡ connection.organization_id
    → response.ticket_id ≡ run.ticket_id
    → Adds now input run db mid
    → work last ≡ work mid
    → IsWorkedOn now connection input.body db (last, response)
unfolding IsWorkedOn
Adds-IsWorkedOn now connection input run db mid last response org ticket adds same =
    let (d, row, waits) = adds.2 in
    (
      ground (arith, org, ticket, adds.0, ap (λ w. w.0) same),
      (
        queued input now run,
        d,
        sym ticket,
        ap (λ w. w.1) same ∙ adds.1,
        ap (λ w. w.2) same ∙ row,
        waits,
      ),
    )

-- A message that the transaction takes in stands on the ticket that the response names, as the newest
-- message of all; one new run of that ticket is queued, and one new dispatch waits for it, available at
-- once and with the run and the ticket in its payload. No other message, run or dispatch is added or
-- changed.
pub process_inbound_message-IsWorkedOn :
    (env : IngestEnv) (connection : ChannelConnection) (now receipt_id : ℕ)
    (event : ParsedInboundEvent) (db : InboundDb) (done : InboundDb × InboundResponse)
    → process_inbound_message env connection now receipt_id event db ≡ some done
    → IsWorkedOn now connection (message_body env event) db done
unfolding process_inbound_message
process_inbound_message-IsWorkedOn env connection now receipt_id event db done e =
    let (customer, found_customer, rest) = and_then-some _ _ done e in
    let (found, found_conversation, rest') = and_then-some _ _ done rest in
    let input = ticket_input env connection receipt_id event found.1.conversation in
    let ran = ensure_ticket_and_run (sanitize_subject env.max_subject_length) input now found.0 in
    let (db', created, last) =
      and_then-some (create_message connection found.1.conversation.id event ran.0) _ done rest' in
    let before =
      conversation_work (conversation_input connection customer.1 event) customer.0 found
        found_conversation
      ∙ upsert_work (customer_input env connection event) db customer found_customer in
    let finished =
      finish_inbound connection now receipt_id customer.1 ran.0.next_id event found.1 ran.1 db' in
    let after =
      finish_work connection now receipt_id customer.1 ran.0.next_id event found.1 ran.1 db'
      ∙ work-create_message connection found.1.conversation.id event ran.0 db' created in
    subst (IsWorkedOn now connection (message_body env event) db) (some_lem finished done last) (
      Adds-IsWorkedOn now connection input ran.1 db ran.0 finished.0 finished.1 refl refl
        (Adds-from now input ran.1 found.0 db ran.0 before
          (ran_Adds (sanitize_subject env.max_subject_length) input now found.0))
        after)
