-- ===== src/Inbound/Once.antt =====
-- An event of a provider and its receipt (apps/api/src/channels/channels.service.ts): what is kept of the
-- receipts by everything that a webhook does.
use autonomous_csa.Base.{
  ℕ, ◌+◌, ◌≡◌, refl, sym, ap, subst, ◌∙◌, Bool, true, false, not, List, [], ◌∷◌, Option, none, some,
  and_then, and_then-some, or_else, is_some, Text, text_eq_refl, ==_refl, ◌==◌, any, arith,
}
use autonomous_csa.Http.{reply, on_found_keeps, throw_if_keeps}
use autonomous_csa.Delivery.Defs.{ChannelConnection, DeliveryDb}
use autonomous_csa.Inbound.Defs.{
  ExternalCustomer, WebhookReceipt, processed, duplicate, WebhookReceiptStatus, InboundDb,
  AttachmentMetadata, ParsedInboundEvent, truthy, replace_where,
}
use autonomous_csa.Inbound.Customers.{
  CustomerInput, create_customer, update_customer, upsert_by_id, upsert_by_email,
  upsert_external_customer,
}
use autonomous_csa.Inbound.Threads.{
  ConversationInput, FoundConversation, create_conversation, find_or_create_thread,
  find_or_create_reply, find_or_create_conversation,
}
use autonomous_csa.Inbound.Tickets.{
  TicketInput, RunData, queue_run, ensure_for, ensure_ticket_and_run,
}
use autonomous_csa.Inbound.Sanitizer.{sanitize_subject}
use autonomous_csa.Inbound.Ingest.{
  IngestEnv, InboundResponse, customer_input, conversation_input, ticket_input, log_inbound,
  settle_inbound, finish_inbound, process_event, processed_message, processed_callback, outcome_of,
  reject_receipt, ingest_parsed, with_outbound, dispatched, create_message, record_attachments,
  process_inbound_message, ParsedChannelEvent, inbound, delivery_callback, event_id_of,
  WebhookRequest, IngestAnswer, duplicate_event, has_event, create_receipt, ChannelDb,
  ingest_transaction, mark_duplicate, ingest_event, ingest_checked, ingest_webhook,
}

create_customer_receipts :
    (row : ExternalCustomer) (db : InboundDb) (p : InboundDb × ℕ)
    → create_customer row db ≡ some p
    → p.0.receipts ≡ db.receipts
unfolding create_customer
create_customer_receipts row db p e = ground (arith, e)

update_customer_receipts :
    (row : ExternalCustomer) (db : InboundDb) (p : InboundDb × ℕ)
    → update_customer row db ≡ some p
    → p.0.receipts ≡ db.receipts
unfolding update_customer
update_customer_receipts row db p e = ground (arith, e)

upsert_receipts :
    (input : CustomerInput) (db : InboundDb) (p : InboundDb × ℕ)
    → upsert_external_customer input db ≡ some p
    → p.0.receipts ≡ db.receipts
unfolding upsert_external_customer upsert_by_id upsert_by_email create_customer update_customer
upsert_receipts input db p e = ground (arith, e)

create_conversation_receipts :
    (input : ConversationInput) (thread : Option Text) (db : InboundDb)
    (p : InboundDb × FoundConversation)
    → create_conversation input thread db ≡ some p
    → p.0.receipts ≡ db.receipts
unfolding create_conversation
create_conversation_receipts input thread db p e = ground (arith, e)

conversation_receipts :
    (input : ConversationInput) (db : InboundDb) (p : InboundDb × FoundConversation)
    → find_or_create_conversation input db ≡ some p
    → p.0.receipts ≡ db.receipts
unfolding find_or_create_conversation find_or_create_thread find_or_create_reply
conversation_receipts input db p e =
    ground (arith, e, create_conversation_receipts input (truthy input.provider_thread_id) db p)

ticket_receipts :
    (sanitize : Text → Text) (input : TicketInput) (now : ℕ) (db : InboundDb)
    → (ensure_ticket_and_run sanitize input now db).0.receipts ≡ db.receipts
unfolding ensure_ticket_and_run ensure_for queue_run
ticket_receipts sanitize input now db = ground arith

create_message_receipts :
    (connection : ChannelConnection) (id : ℕ) (event : ParsedInboundEvent) (db db' : InboundDb)
    → create_message connection id event db ≡ some db'
    → db'.receipts ≡ db.receipts
unfolding create_message
create_message_receipts connection id event db db' e = ground (arith, e)

attachments_receipts :
    (org_id ticket_id message_id : ℕ) (attachments : List AttachmentMetadata) (db : InboundDb)
    → (record_attachments org_id ticket_id message_id attachments db).receipts ≡ db.receipts
unfolding record_attachments
attachments_receipts org_id ticket_id message_id [] db = refl
attachments_receipts org_id ticket_id message_id (a ∷ attachments) db =
    attachments_receipts org_id ticket_id message_id attachments _

-- The connection has a receipt of the event.
abbrev pub HasEvent : ℕ → Text → InboundDb → Type 0
HasEvent connection_id event_id db = any (has_event connection_id event_id) db.receipts ≡ true

-- A change of the rows that leaves their events.
replace_receipts :
    (c : ℕ) (id : Text) (test : WebhookReceipt → Bool) (f : WebhookReceipt → WebhookReceipt)
    → ((r : WebhookReceipt) → has_event c id (f r) ≡ has_event c id r)
    → (rs : List WebhookReceipt)
    → any (has_event c id) (replace_where test f rs) ≡ any (has_event c id) rs
unfolding replace_where
replace_receipts c id test f same [] = refl
replace_receipts c id test f same (r ∷ rs) =
    ground (arith, same r, replace_receipts c id test f same rs)

some_lem {ℓ} : {A : Type ℓ} (a b : A) → ◌≡◌ {A = Option A} (some a) (some b) → a ≡ b
some_lem a b e = ap (λ o. or_else o a) e

log_inbound_receipts :
    (org_id : ℕ) (run : RunData) (created is_new : Bool) (db : InboundDb)
    → (log_inbound org_id run created is_new db).receipts ≡ db.receipts
log_inbound_receipts org_id run true true db = refl
log_inbound_receipts org_id run true false db = refl
log_inbound_receipts org_id run false true db = refl
log_inbound_receipts org_id run false false db = refl

finish_inbound-HasEvent :
    (connection : ChannelConnection) (now receipt_id customer_id message_id : ℕ)
    (event : ParsedInboundEvent) (found : FoundConversation) (run : RunData) (db : InboundDb)
    (c : ℕ) (id : Text)
    → HasEvent c id db
    → HasEvent c id
        (finish_inbound connection now receipt_id customer_id message_id event found run db).0
unfolding finish_inbound
finish_inbound-HasEvent connection now receipt_id customer_id message_id event found run db c id h =
    ap (any (has_event c id)) (
      log_inbound_receipts connection.organization_id run found.created
        (not (is_some found.conversation.ticket_id))
        (settle_inbound connection now receipt_id customer_id message_id event found run db))
    ∙ replace_receipts c id (λ r. r.id == receipt_id) (λ r. record r { status = processed })
        (λ r. refl)
        (record_attachments connection.organization_id run.ticket_id message_id event.attachments
          db).receipts
    ∙ ap (any (has_event c id)) (
        attachments_receipts connection.organization_id run.ticket_id message_id event.attachments
          db)
    ∙ h

-- The steps before the end of a message leave the receipts.
process_inbound-HasEvent :
    (env : IngestEnv) (connection : ChannelConnection) (now receipt_id : ℕ)
    (event : ParsedInboundEvent) (db : InboundDb) (done : InboundDb × InboundResponse) (c : ℕ)
    (id : Text)
    → process_inbound_message env connection now receipt_id event db ≡ some done
    → HasEvent c id db
    → HasEvent c id done.0
unfolding process_inbound_message
process_inbound-HasEvent env connection now receipt_id event db done c id e h =
    let (customer, found_customer, rest) = and_then-some _ _ done e in
    let (found, found_conversation, rest') = and_then-some _ _ done rest in
    let input = ticket_input env connection receipt_id event found.1.conversation in
    let ran = ensure_ticket_and_run (sanitize_subject env.max_subject_length) input now found.0 in
    let (db', created, last) =
      and_then-some (create_message connection found.1.conversation.id event ran.0) _ done rest' in
    let same =
      create_message_receipts connection found.1.conversation.id event ran.0 db' created
      ∙ ticket_receipts (sanitize_subject env.max_subject_length) input now found.0
      ∙ conversation_receipts (conversation_input connection customer.1 event) customer.0 found
          found_conversation
      ∙ upsert_receipts (customer_input env connection event) db customer found_customer in
    subst (λ d. HasEvent c id d.0)
      (some_lem
        (finish_inbound connection now receipt_id customer.1 ran.0.next_id event found.1 ran.1 db')
        done last)
      (finish_inbound-HasEvent connection now receipt_id customer.1 ran.0.next_id event found.1
        ran.1 db' c id (ap (any (has_event c id)) same ∙ h))

create_receipt-HasEvent :
    (connection : ChannelConnection) (event_id event_type : Text) (verified : Bool)
    (status : WebhookReceiptStatus) (code : Option Text) (db db' : InboundDb) (c : ℕ) (id : Text)
    → create_receipt connection event_id event_type verified status code db ≡ some db'
    → HasEvent c id db
    → HasEvent c id db'
unfolding create_receipt
create_receipt-HasEvent connection event_id event_type verified status code db db' c id e h =
    ground (arith, e, h)

created-HasEvent :
    (connection : ChannelConnection) (event_id event_type : Text) (verified : Bool)
    (status : WebhookReceiptStatus) (code : Option Text) (db db' : InboundDb)
    → create_receipt connection event_id event_type verified status code db ≡ some db'
    → HasEvent connection.id event_id db'
unfolding create_receipt
created-HasEvent connection event_id event_type verified status code db db' e =
    ground (arith, e, text_eq_refl event_id, ==_refl connection.id)

process_event-HasEvent :
    (env : IngestEnv) (connection : ChannelConnection) (now receipt_id : ℕ)
    (parsed : ParsedChannelEvent) (outbound : DeliveryDb) (db : InboundDb)
    (done : ChannelDb × IngestAnswer) (c : ℕ) (id : Text)
    → process_event env connection now receipt_id parsed outbound db ≡ some done
    → HasEvent c id db
    → HasEvent c id done.0.0
process_event-HasEvent env connection now receipt_id (inbound event) outbound db done c id e h =
    let (ran, processed_it, last) = and_then-some _ _ done e in
    subst (λ d. HasEvent c id d.0.0) (some_lem (with_outbound outbound ran) done last)
      (process_inbound-HasEvent env connection now receipt_id event db ran c id processed_it h)
process_event-HasEvent env connection now receipt_id (delivery_callback i type callback) outbound db
      done c id e h =
    subst (λ d. HasEvent c id d.0.0) (some_lem _ done e)
      (replace_receipts c id (λ r. r.id == receipt_id) (λ r. record r { status = processed })
          (λ r. refl) db.receipts
        ∙ h)

module _ (dispatch : InboundDb → InboundDb)
    (dispatch_receipts : (db : InboundDb) → (dispatch db).receipts ≡ db.receipts)
    (env : IngestEnv) where
  dispatched-HasEvent :
      (done : ChannelDb × IngestAnswer) (c : ℕ) (id : Text)
      → HasEvent c id done.0.0
      → HasEvent c id (dispatched dispatch done).0.0
  dispatched-HasEvent ((db, outbound), processed_message response) c id h =
      ap (any (has_event c id)) (dispatch_receipts db) ∙ h
  dispatched-HasEvent (state, processed_callback response) c id h = h
  dispatched-HasEvent (state, duplicate_event i) c id h = h

  transaction-HasEvent :
      (connection : ChannelConnection) (now : ℕ) (parsed : ParsedChannelEvent) (state : ChannelDb)
      (done : ChannelDb × IngestAnswer) (c : ℕ) (id : Text)
      → ingest_transaction env connection now parsed state ≡ some done
      → HasEvent c id state.0
      → HasEvent c id done.0.0
  unfolding ingest_transaction
  transaction-HasEvent connection now parsed (db, outbound) done c id e h =
      let (db', created, rest) = and_then-some _ _ done e in
      process_event-HasEvent env connection now db.next_id parsed outbound db' done c id rest
        (create_receipt-HasEvent connection _ _ _ _ _ db db' c id created h)

  recorded-HasEvent :
      (connection : ChannelConnection) (now : ℕ) (parsed : ParsedChannelEvent) (state : ChannelDb)
      (done : ChannelDb × IngestAnswer)
      → ingest_transaction env connection now parsed state ≡ some done
      → HasEvent connection.id (event_id_of parsed) done.0.0
  unfolding ingest_transaction
  recorded-HasEvent connection now parsed (db, outbound) done e =
      let (db', created, rest) = and_then-some _ _ done e in
      process_event-HasEvent env connection now db.next_id parsed outbound db' done connection.id
        (event_id_of parsed) rest (created-HasEvent connection _ _ _ _ _ db db' created)

  ingest_event-HasEvent :
      (connection : ChannelConnection) (breaks : Bool) (now : ℕ) (parsed : ParsedChannelEvent)
      (state : ChannelDb) (c : ℕ) (id : Text)
      → HasEvent c id state.0
      → HasEvent c id (ingest_event dispatch env connection breaks now parsed state).0.0
  unfolding ingest_event mark_duplicate
  ingest_event-HasEvent connection true now parsed (db, outbound) c id h = h
  ingest_event-HasEvent connection false now parsed (db, outbound) c id h =
      go (ingest_transaction env connection now parsed (db, outbound)) refl
    where
      go :
          (o : Option (ChannelDb × IngestAnswer))
          → ingest_transaction env connection now parsed (db, outbound) ≡ o
          → HasEvent c id (outcome_of dispatch connection parsed (db, outbound) o).0.0
      go none e =
          replace_receipts c id (has_event connection.id (event_id_of parsed))
            (λ r. record r { status = duplicate; retry_count = r.retry_count + 1 }) (λ r. refl)
            db.receipts
          ∙ h
      go (some done) e =
          dispatched-HasEvent done c id
            (transaction-HasEvent connection now parsed (db, outbound) done c id e h)

  reject_receipt-HasEvent :
      (connection : ChannelConnection) (event_id event_type : Text) (verified : Bool) (code : Text)
      (db : InboundDb) (c : ℕ) (id : Text)
      → HasEvent c id db
      → HasEvent c id (reject_receipt connection event_id event_type verified code db)
  unfolding create_receipt
  reject_receipt-HasEvent connection event_id event_type verified code db c id h = ground (arith, h)

  ingest_parsed-HasEvent :
      (request : WebhookRequest) (connection : ChannelConnection) (event_id : Text) (now : ℕ)
      (parsed : Option ParsedChannelEvent) (state : ChannelDb) (c : ℕ) (id : Text)
      → HasEvent c id state.0
      → HasEvent c id (ingest_parsed dispatch env request connection event_id now parsed state).0.0
  ingest_parsed-HasEvent request connection event_id now none (db, outbound) c id h =
      reject_receipt-HasEvent connection _ _ _ _ db c id h
  ingest_parsed-HasEvent request connection event_id now (some parsed) state c id h =
      ingest_event-HasEvent connection request.breaks now parsed state c id h

  ingest_checked-HasEvent :
      (request : WebhookRequest) (connection : ChannelConnection) (now : ℕ) (verified : Bool)
      (state : ChannelDb) (c : ℕ) (id : Text)
      → HasEvent c id state.0
      → HasEvent c id (ingest_checked dispatch env request connection now verified state).0.0
  ingest_checked-HasEvent request connection now true state c id h =
      ingest_parsed-HasEvent request connection _ now request.parsed state c id h
  ingest_checked-HasEvent request connection now false (db, outbound) c id h =
      reject_receipt-HasEvent connection _ _ _ _ db c id h

  ingest_webhook-HasEvent :
      (request : WebhookRequest) (now : ℕ) (state : ChannelDb) (c : ℕ) (id : Text)
      → HasEvent c id state.0
      → HasEvent c id (ingest_webhook dispatch env request now state).0.0
  unfolding ingest_webhook
  ingest_webhook-HasEvent request now state c id h =
      throw_if_keeps state (λ s. HasEvent c id s.0) _ _ _ h
        λ _.
          on_found_keeps state (λ s. HasEvent c id s.0) _ _ _ h
            λ connection _.
              ingest_checked-HasEvent request connection now request.verification.verified state c
                id h

  -- Webhooks one after the other, each with the clock of its request.
  unfoldable pub ingest_webhooks : List (WebhookRequest × ℕ) → ChannelDb → ChannelDb
  unfolding ingest_webhook
  ingest_webhooks [] state = state
  ingest_webhooks (r ∷ requests) state =
      ingest_webhooks requests (ingest_webhook dispatch env r.0 r.1 state).0

  ingest_webhooks-HasEvent :
      (requests : List (WebhookRequest × ℕ)) (state : ChannelDb) (c : ℕ) (id : Text)
      → HasEvent c id state.0
      → HasEvent c id (ingest_webhooks requests state).0
  unfolding ingest_webhooks
  ingest_webhooks-HasEvent [] state c id h = h
  ingest_webhooks-HasEvent (r ∷ requests) state c id h =
      ingest_webhooks-HasEvent requests (ingest_webhook dispatch env r.0 r.1 state).0 c id
        (ingest_webhook-HasEvent r.0 r.1 state c id h)

  refused_receipt :
      (connection : ChannelConnection) (now : ℕ) (parsed : ParsedChannelEvent) (state : ChannelDb)
      → HasEvent connection.id (event_id_of parsed) state.0
      → ingest_transaction env connection now parsed state ≡ none
  unfolding ingest_transaction create_receipt and_then
  refused_receipt connection now parsed (db, outbound) h = rw (h) refl

  processed-HasEvent :
      (connection : ChannelConnection) (now : ℕ) (parsed : ParsedChannelEvent)
      (state state' : ChannelDb) (response : InboundResponse)
      → ingest_event dispatch env connection false now parsed state
        ≡ (state', reply (processed_message response))
      → HasEvent connection.id (event_id_of parsed) state'.0
  unfolding ingest_event
  processed-HasEvent connection now parsed (db, outbound) state' response e =
      go (ingest_transaction env connection now parsed (db, outbound)) refl e
    where
      go :
          (o : Option (ChannelDb × IngestAnswer))
          → ingest_transaction env connection now parsed (db, outbound) ≡ o
          → outcome_of dispatch connection parsed (db, outbound) o
            ≡ (state', reply (processed_message response))
          → HasEvent connection.id (event_id_of parsed) state'.0
      go none eq e' = ground (arith, ap (λ p. p.1) e')
      go (some done) eq e' =
          subst (λ p. HasEvent connection.id (event_id_of parsed) p.0.0) e'
            (dispatched-HasEvent done connection.id (event_id_of parsed)
              (recorded-HasEvent connection now parsed (db, outbound) done eq))

  -- A message is taken in once. After an event of a connection that was answered as processed, and after
  -- any further webhooks, the same event of the same connection, in whatever message it comes, is
  -- answered as a duplicate, and changes nothing but the status and the count of its receipt. This is of
  -- a transaction that does not break, and of a dispatch that leaves the receipts.
  pub ingest_event_once :
      (connection connection' : ChannelConnection) (now later : ℕ)
      (parsed parsed' : ParsedChannelEvent) (requests : List (WebhookRequest × ℕ))
      (state state' : ChannelDb) (response : InboundResponse)
      → ingest_event dispatch env connection false now parsed state
        ≡ (state', reply (processed_message response))
      → connection'.id ≡ connection.id
      → event_id_of parsed' ≡ event_id_of parsed
      → let last = ingest_webhooks requests state' in
        ingest_event dispatch env connection' false later parsed' last ≡ (
          (mark_duplicate connection'.id (event_id_of parsed') last.0, last.1),
          reply (duplicate_event (event_id_of parsed')),
        )
  unfolding ingest_event
  ingest_event_once connection connection' now later parsed parsed' requests state state' response
        done same same_event =
      let h =
        ingest_webhooks-HasEvent requests state' connection.id (event_id_of parsed)
          (processed-HasEvent connection now parsed state state' response done) in
      let h' =
        subst (λ c. HasEvent c (event_id_of parsed') (ingest_webhooks requests state').0) (sym same)
          (subst (λ i. HasEvent connection.id i (ingest_webhooks requests state').0)
            (sym same_event) h) in
      rw (refused_receipt connection' later parsed' (ingest_webhooks requests state') h') refl
