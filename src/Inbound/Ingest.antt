-- ===== src/Inbound/Ingest.antt =====
-- `ingestWebhook` and `processInboundMessage` of apps/api/src/channels/channels.service.ts. The tables of
-- inbound messages stand beside those of outbound ones, which the callbacks of a provider change.
use autonomous_csa.Base.{
  ℕ, ◌+◌, Bool, true, false, not, ◌&&◌, ◌||◌, List, [], ◌∷◌, ◌++◌, Option, none, some, is_some,
  and_then, or_else, Text, codes, text_eq, ◌==◌, ltb, any, take, if◌then◌else◌,
}
use autonomous_csa.Http.{
  bad_request, forbidden, not_found, internal_error, Response, refuse, reply, on_found, throw_if,
}
use autonomous_csa.Db.{
  AgentEventType, channel_attachment_recorded, channel_webhook_received, channel_customer_matched,
  channel_conversation_created, channel_message_received, channel_ticket_created,
}
use autonomous_csa.Delivery.Defs.{active, error, ChannelConnection, DeliveryDb}
use autonomous_csa.Delivery.Callback.{DeliveryCallback, CallbackResponse, process_delivery_callback}
use autonomous_csa.Inbound.Defs.{
  Conversation, open_conversation, AttachmentMetadata, WebhookReceipt, WebhookReceiptStatus,
  processing, processed, duplicate, rejected, ConnectionHealth, InboundDb, ParsedInboundEvent,
  same_key, log_run_event, replace_where,
}
use autonomous_csa.Inbound.Customers.{CustomerInput, normalize_email, upsert_external_customer}
use autonomous_csa.Inbound.Threads.{
  ConversationInput, FoundConversation, find_or_create_conversation,
}
use autonomous_csa.Inbound.Sanitizer.{sanitize_subject}
use autonomous_csa.Inbound.Tickets.{TicketInput, RunData, ensure_ticket_and_run}

-- `sanitize_html` replaces patterns in a text and is a parameter, as the lower case is.
pub record IngestEnv : Type 0 where
  pub to_lower_case : Text → Text
  pub sanitize_html : Option Text → Option Text
  pub max_subject_length : ℕ
  pub max_webhook_bytes : ℕ

pub record InboundResponse : Type 0 where
  pub receipt_id : ℕ
  pub ticket_id : ℕ
  pub conversation_id : ℕ
  pub external_message_id : ℕ

abbrev pub customer_input : IngestEnv → ChannelConnection → ParsedInboundEvent → CustomerInput
customer_input env connection event = record {
  org_id = connection.organization_id;
  channel_connection_id = connection.id;
  external_customer_id = event.sender.external_id;
  email = event.sender.email;
  normalized_email = normalize_email env.to_lower_case event.sender.email;
  display_name = event.sender.name;
}

abbrev pub conversation_input : ChannelConnection → ℕ → ParsedInboundEvent → ConversationInput
conversation_input connection customer_id event = record {
  org_id = connection.organization_id;
  channel_connection_id = connection.id;
  customer_id = customer_id;
  provider_thread_id = event.provider_thread_id;
  provider_message_id = event.provider_message_id;
  in_reply_to = event.in_reply_to;
  references = event.references;
  subject = event.subject;
}

abbrev pub message_body : IngestEnv → ParsedInboundEvent → Text
message_body env event =
    or_else event.text_body (or_else (env.sanitize_html event.html_body) (codes "(empty message)"))

abbrev pub ticket_input :
    IngestEnv → ChannelConnection → ℕ → ParsedInboundEvent → Conversation → TicketInput
ticket_input env connection receipt_id event conversation = record {
  org_id = connection.organization_id;
  conversation_id = conversation.id;
  webhook_receipt_id = receipt_id;
  ticket_id = conversation.ticket_id;
  subject = or_else event.subject (codes "(no subject)");
  body = message_body env event;
  customer_email =
      or_else (normalize_email env.to_lower_case event.sender.email)
        (or_else event.sender.email (codes "unknown@example.invalid"));
  customer_name = event.sender.name;
}

-- `externalMessage.create`: a message and an event stand once in a connection.
unfoldable pub create_message :
    ChannelConnection → ℕ → ParsedInboundEvent → InboundDb → Option InboundDb
create_message connection conversation_id event db =
    if any
      (λ m.
        m.channel_connection_id == connection.id
        && (same_key m.provider_message_id event.provider_message_id
            || same_key m.provider_event_id (some event.provider_event_id)))
      db.messages
    then none
    else some (record db {
      next_id = db.next_id + 1;
      messages =
          record {
            id = db.next_id;
            organization_id = connection.organization_id;
            conversation_id = conversation_id;
            channel_connection_id = connection.id;
            provider_message_id = event.provider_message_id;
            provider_event_id = some event.provider_event_id;
            subject = event.subject;
            text_body = event.text_body;
            html_body = event.html_body;
            in_reply_to = event.in_reply_to;
            references = event.references;
            received_at = event.received_at;
          }
          ∷ db.messages;
    })

unfoldable pub record_attachments :
    ℕ → (ticket_id message_id : ℕ) → List AttachmentMetadata → InboundDb → InboundDb
record_attachments org_id ticket_id message_id [] db = db
record_attachments org_id ticket_id message_id (a ∷ attachments) db =
    record_attachments org_id ticket_id message_id attachments (
      log_run_event org_id ticket_id channel_attachment_recorded none (record db {
        next_id = db.next_id + 1;
        attachments =
            record {
              id = db.next_id;
              organization_id = org_id;
              external_message_id = message_id;
              attachment = a;
            }
            ∷ db.attachments;
      }))

abbrev touch_conversation : ℕ → (ticket_id customer_id received_at : ℕ) → InboundDb → InboundDb
touch_conversation id ticket_id customer_id received_at db = record db {
  conversations =
      replace_where (λ c. c.id == id)
        (λ c. record c {
          ticket_id = some ticket_id;
          external_customer_id = some customer_id;
          last_message_at = some received_at;
          status = open_conversation;
        })
        db.conversations;
}

abbrev put_health : ℕ → ConnectionHealth → InboundDb → InboundDb
put_health id health db = record db { health = λ i. if i == id then health else db.health i }

abbrev mark_active : ℕ → ℕ → InboundDb → InboundDb
mark_active id now = put_health id (record {
  status = active;
  last_successful_event_at = some now;
  last_error_at = none;
  last_error_code = none;
})

abbrev pub set_receipt_status : ℕ → WebhookReceiptStatus → InboundDb → InboundDb
set_receipt_status id status db = record db {
  receipts = replace_where (λ r. r.id == id) (λ r. record r { status = status }) db.receipts;
}

-- The events at the end, of which two depend on what was created.
abbrev pub log_inbound : ℕ → RunData → (created is_new_ticket : Bool) → InboundDb → InboundDb
log_inbound org_id run created is_new_ticket db =
    let log =
      λ (type : AgentEventType). log_run_event org_id run.ticket_id type (some run.run_id) in
    let matched = log channel_customer_matched (log channel_webhook_received db) in
    let threaded = if created then log channel_conversation_created matched else matched in
    let received = log channel_message_received threaded in
    if is_new_ticket then log channel_ticket_created received else received

-- The updates that follow the message.
abbrev pub settle_inbound :
    ChannelConnection
    → (now receipt_id customer_id message_id : ℕ) → ParsedInboundEvent
    → FoundConversation
    → RunData
    → InboundDb
    → InboundDb
settle_inbound connection now receipt_id customer_id message_id event found run db =
    set_receipt_status receipt_id processed (
      mark_active connection.id now (
        touch_conversation found.conversation.id run.ticket_id customer_id event.received_at (
          record_attachments connection.organization_id run.ticket_id message_id event.attachments
            db)))

unfoldable pub finish_inbound :
    ChannelConnection
    → (now receipt_id customer_id message_id : ℕ) → ParsedInboundEvent
    → FoundConversation
    → RunData
    → InboundDb
    → InboundDb × InboundResponse
finish_inbound connection now receipt_id customer_id message_id event found run db = (
  log_inbound connection.organization_id run found.created
      (not (is_some found.conversation.ticket_id))
      (settle_inbound connection now receipt_id customer_id message_id event found run db),
  record {
    receipt_id = receipt_id;
    ticket_id = run.ticket_id;
    conversation_id = found.conversation.id;
    external_message_id = message_id;
  },
)

unfoldable pub process_inbound_message :
    IngestEnv
    → ChannelConnection
    → (now receipt_id : ℕ) → ParsedInboundEvent
    → InboundDb
    → Option (InboundDb × InboundResponse)
unfolding upsert_external_customer find_or_create_conversation ensure_ticket_and_run create_message
    finish_inbound
process_inbound_message env connection now receipt_id event db =
    and_then (upsert_external_customer (customer_input env connection event) db) λ customer.
      and_then
        (find_or_create_conversation (conversation_input connection customer.1 event) customer.0)
        λ found.
          let ran =
            ensure_ticket_and_run (sanitize_subject env.max_subject_length)
              (ticket_input env connection receipt_id event found.1.conversation) now found.0 in
          and_then (create_message connection found.1.conversation.id event ran.0) λ db'. some (
            finish_inbound connection now receipt_id customer.1 ran.0.next_id event found.1 ran.1
              db')

pub data ParsedChannelEvent : Type 0 where
  inbound : ParsedInboundEvent → ParsedChannelEvent
  delivery_callback : (provider_event_id event_type : Text) → DeliveryCallback → ParsedChannelEvent

abbrev pub event_id_of : ParsedChannelEvent → Text
event_id_of (inbound event) = event.provider_event_id
event_id_of (delivery_callback id type callback) = id

abbrev pub event_type_of : ParsedChannelEvent → Text
event_type_of (inbound event) = event.event_type
event_type_of (delivery_callback id type callback) = type

pub record VerifiedWebhookResult : Type 0 where
  pub verified : Bool
  pub provider_event_id : Option Text
  pub event_type : Option Text
  pub failure_code : Option Text

-- A request, with what is read of its connection and what the provider makes of it; `parsed` is `none`
-- where parsing throws, and `breaks` says that the transaction ends by another error than a violated
-- constraint.
pub record WebhookRequest : Type 0 where
  pub payload_bytes : ℕ
  pub payload_hash : Text
  pub connection : Option ChannelConnection
  pub verification : VerifiedWebhookResult
  pub parsed : Option ParsedChannelEvent
  pub breaks : Bool

pub data IngestAnswer : Type 0 where
  processed_message : InboundResponse → IngestAnswer
  processed_callback : CallbackResponse → IngestAnswer
  duplicate_event : Text → IngestAnswer

abbrev pub has_event : ℕ → Text → WebhookReceipt → Bool
has_event connection_id event_id r =
    r.channel_connection_id == connection_id && text_eq r.provider_event_id event_id

abbrev pub new_receipt :
    ChannelConnection
    → (event_id event_type : Text) → Bool
    → WebhookReceiptStatus
    → Option Text
    → ℕ
    → WebhookReceipt
new_receipt connection event_id event_type signature_verified status failure_code id = record {
  id = id;
  organization_id = connection.organization_id;
  channel_connection_id = connection.id;
  provider_event_id = event_id;
  event_type = event_type;
  signature_verified = signature_verified;
  status = status;
  failure_code = failure_code;
  retry_count = 0;
}

-- `webhookReceipt.create`: an event has one receipt in a connection.
unfoldable pub create_receipt :
    ChannelConnection
    → (event_id event_type : Text) → Bool
    → WebhookReceiptStatus
    → Option Text
    → InboundDb
    → Option InboundDb
create_receipt connection event_id event_type signature_verified status failure_code db =
    if any (has_event connection.id event_id) db.receipts
    then none
    else some (record db {
      next_id = db.next_id + 1;
      receipts =
          new_receipt connection event_id event_type signature_verified status failure_code
            db.next_id
          ∷ db.receipts;
    })

-- `create(...).catch(() => undefined)`.
abbrev pub reject_receipt :
    ChannelConnection → (event_id event_type : Text) → Bool → Text → InboundDb → InboundDb
reject_receipt connection event_id event_type signature_verified failure_code db =
    or_else
      (create_receipt connection event_id event_type signature_verified rejected (some failure_code)
        db)
      db

-- The tables of both directions.
abbrev pub ChannelDb : Type 0
ChannelDb = InboundDb × DeliveryDb

abbrev pub process_callback :
    ChannelConnection → ℕ → DeliveryCallback → ChannelDb → ChannelDb × IngestAnswer
process_callback connection receipt_id callback (db, outbound) =
    let called = process_delivery_callback connection callback outbound in
    ((set_receipt_status receipt_id processed db, called.0), processed_callback called.1)

abbrev pub with_outbound : DeliveryDb → InboundDb × InboundResponse → ChannelDb × IngestAnswer
with_outbound outbound (db, response) = ((db, outbound), processed_message response)

abbrev pub process_event :
    IngestEnv
    → ChannelConnection
    → (now receipt_id : ℕ) → ParsedChannelEvent
    → DeliveryDb
    → InboundDb
    → Option (ChannelDb × IngestAnswer)
process_event env connection now receipt_id (inbound event) outbound db =
    and_then (process_inbound_message env connection now receipt_id event db)
      λ done. some (with_outbound outbound done)
process_event env connection now receipt_id (delivery_callback id type callback) outbound db =
    some (process_callback connection receipt_id callback (db, outbound))

-- The transaction; `none` is a violated unique constraint, whichever it is.
unfoldable pub ingest_transaction :
    IngestEnv
    → ChannelConnection
    → ℕ
    → ParsedChannelEvent
    → ChannelDb
    → Option (ChannelDb × IngestAnswer)
unfolding create_receipt process_inbound_message process_delivery_callback
ingest_transaction env connection now parsed (db, outbound) =
    and_then
      (create_receipt connection (event_id_of parsed) (event_type_of parsed) true processing none
        db)
      (process_event env connection now db.next_id parsed outbound)

-- What a duplicate changes.
unfoldable pub mark_duplicate : ℕ → Text → InboundDb → InboundDb
unfolding replace_where
mark_duplicate connection_id event_id db = record db {
  receipts =
      replace_where (has_event connection_id event_id)
        (λ r. record r { status = duplicate; retry_count = r.retry_count + 1 }) db.receipts;
}

abbrev pub mark_error : ℕ → ℕ → InboundDb → InboundDb
mark_error id now db =
    put_health id
      (record (db.health id) {
        status = error;
        last_error_at = some now;
        last_error_code = some (codes "WEBHOOK_PROCESSING_FAILED");
      })
      db

abbrev pub dispatched :
    (InboundDb → InboundDb) → ChannelDb × IngestAnswer → ChannelDb × Response IngestAnswer
dispatched dispatch ((db, outbound), processed_message response) =
    ((dispatch db, outbound), reply (processed_message response))
dispatched dispatch (state, answer) = (state, reply answer)

-- The outcome of the transaction.
abbrev pub outcome_of :
    (InboundDb → InboundDb)
    → ChannelConnection
    → ParsedChannelEvent
    → ChannelDb
    → Option (ChannelDb × IngestAnswer)
    → ChannelDb × Response IngestAnswer
outcome_of dispatch connection parsed (db, outbound) none = (
  (mark_duplicate connection.id (event_id_of parsed) db, outbound),
  reply (duplicate_event (event_id_of parsed)),
)
outcome_of dispatch connection parsed state (some done) = dispatched dispatch done

-- The part of a verified event that was parsed. `dispatch` is the dispatch of what is pending, which
-- follows a message.
unfoldable pub ingest_event :
    (dispatch : InboundDb → InboundDb)
    → IngestEnv
    → ChannelConnection
    → (breaks : Bool) → ℕ
    → ParsedChannelEvent
    → ChannelDb
    → ChannelDb × Response IngestAnswer
unfolding ingest_transaction mark_duplicate
ingest_event dispatch env connection breaks now parsed (db, outbound) =
    if breaks
    then (
      (mark_error connection.id now db, outbound),
      refuse (internal_error "Webhook processing failed"),
    )
    else outcome_of dispatch connection parsed (db, outbound)
        (ingest_transaction env connection now parsed (db, outbound))

abbrev pub fallback_event_id : Text → Text
fallback_event_id payload_hash = codes "unverified:" ++ take 32 payload_hash

-- The part of an event that is verified.
abbrev pub ingest_parsed :
    (dispatch : InboundDb → InboundDb)
    → IngestEnv
    → WebhookRequest
    → ChannelConnection
    → Text
    → ℕ
    → Option ParsedChannelEvent
    → ChannelDb
    → ChannelDb × Response IngestAnswer
ingest_parsed dispatch env request connection event_id now none (db, outbound) = (
  (
    reject_receipt connection event_id (or_else request.verification.event_type (codes "malformed"))
        true (codes "MALFORMED_PAYLOAD") db,
    outbound,
  ),
  refuse (bad_request "Malformed webhook payload"),
)
ingest_parsed dispatch env request connection event_id now (some parsed) state =
    ingest_event dispatch env connection request.breaks now parsed state

-- The part behind the check of the signature.
abbrev pub ingest_checked :
    (dispatch : InboundDb → InboundDb)
    → IngestEnv
    → WebhookRequest
    → ChannelConnection
    → ℕ
    → (verified : Bool) → ChannelDb
    → ChannelDb × Response IngestAnswer
ingest_checked dispatch env request connection now true state =
    ingest_parsed dispatch env request connection
      (or_else request.verification.provider_event_id (fallback_event_id request.payload_hash)) now
      request.parsed state
ingest_checked dispatch env request connection now false (db, outbound) = (
  (
    reject_receipt connection
        (or_else request.verification.provider_event_id (fallback_event_id request.payload_hash))
        (or_else request.verification.event_type (codes "unknown")) false
        (or_else request.verification.failure_code (codes "INVALID_SIGNATURE")) db,
    outbound,
  ),
  refuse (forbidden "Invalid webhook signature"),
)

unfoldable pub ingest_webhook :
    (dispatch : InboundDb → InboundDb)
    → IngestEnv
    → WebhookRequest
    → ℕ
    → ChannelDb
    → ChannelDb × Response IngestAnswer
unfolding ingest_event create_receipt
ingest_webhook dispatch env request now state =
    throw_if state (ltb env.max_webhook_bytes request.payload_bytes)
      (bad_request "Webhook payload too large")
      (on_found state (not_found "Channel connection not found") request.connection λ connection.
        ingest_checked dispatch env request connection now request.verification.verified state)
