-- ===== src/Inbound/Tests.antt =====
-- Runs of the webhook on small tables, and the theorems at them.
use autonomous_csa.Base.{
  All, ◌≡◌, refl, true, false, any, List, [], ◌∷◌, Option, none, some, Text, codes, text_eq, arith,
  filter, take, and_then, or_else,
}
use autonomous_csa.Http.{reply}
use autonomous_csa.Delivery.Defs.{active, mock_email, ChannelConnection, DeliveryDb}
use autonomous_csa.Inbound.Defs.{
  InboundDb, ParsedInboundEvent, InboundDispatch, pending, ExternalCustomer,
}
use autonomous_csa.Inbound.Customers.{normalize_email, is_customer_email}
use autonomous_csa.Inbound.Dispatch.{DispatchEnv, added, is_available, dispatch_pending_inbound}
use autonomous_csa.Inbound.DispatchLaws.{IsKeyed, is_left_out, dispatch_pending_inbound_receipts}
use autonomous_csa.Inbound.DispatchOutcome.{dispatch_pending_inbound_lem}
use autonomous_csa.Inbound.DispatchWork.{IsDone}
use autonomous_csa.Inbound.Ingest.{
  IngestEnv, InboundResponse, customer_input, process_inbound_message, inbound, processed_message,
  duplicate_event, ChannelDb, mark_duplicate, ingest_event,
}
use autonomous_csa.Inbound.Once.{ingest_webhooks, ingest_event_once}
use autonomous_csa.Inbound.Loss.{new_customer_id_loses_message}
use autonomous_csa.Inbound.Outcome.{IsWorkedOn, process_inbound_message-IsWorkedOn}

abbrev env_0 : IngestEnv
env_0 = record {
  to_lower_case = λ s. s;
  sanitize_html = λ html. html;
  max_subject_length = 240;
  max_webhook_bytes = 262144;
}

abbrev dispatch_env_0 : DispatchEnv
dispatch_env_0 = record {
  lease_ms = 120000;
  retry_delay_ms = 5000;
  outcome = λ d. added;
  settled_at = λ d. 11;
  order = λ ds. ds;
}

abbrev dispatch_0 : InboundDb → InboundDb
dispatch_0 = dispatch_pending_inbound dispatch_env_0 25 10

abbrev connection_0 : ChannelConnection
connection_0 = record {
  id = 3;
  organization_id = 7;
  provider = mock_email;
  status = active;
  failure_mode = none;
}

abbrev no_outbound : DeliveryDb
no_outbound = record {
  outbound_ids = [];
  outbound = λ id. none;
  connection = λ id. connection_0;
  external_thread_id = λ id. none;
  attempts = [];
  external_messages = [];
  failures = [];
  events = [];
  audit = [];
  queue = [];
}

abbrev db_with : List ExternalCustomer → InboundDb
db_with customers = record {
  next_id = 100;
  health = λ id. record {
    status = active;
    last_successful_event_at = none;
    last_error_at = none;
    last_error_code = none;
  };
  receipts = [];
  customers = customers;
  conversations = [];
  messages = [];
  attachments = [];
  tickets = [];
  ticket_messages = [];
  runs = [];
  dispatches = [];
  events = [];
  queue = [];
}

abbrev event_with : Text → Option Text → ParsedInboundEvent
event_with event_id external_id = record {
  provider_event_id = event_id;
  event_type = codes "message";
  provider_message_id = some event_id;
  provider_thread_id = none;
  sender = record { email = some (codes "a@b.c"); name = none; external_id = external_id };
  subject = some (codes "Help");
  text_body = some (codes "Hello");
  html_body = none;
  in_reply_to = none;
  references = [];
  received_at = 9;
  attachments = [];
}

abbrev first_ingest : ChannelDb
first_ingest =
    (ingest_event dispatch_0 env_0 connection_0 false 10 (inbound (event_with (codes "e1") none))
      (db_with [], no_outbound)).0

abbrev response_0 : InboundResponse
response_0 = record {
  receipt_id = 100;
  ticket_id = 103;
  conversation_id = 102;
  external_message_id = 106;
}

first_done :
    ingest_event dispatch_0 env_0 connection_0 false 10
      (inbound (event_with (codes "e1") none))
      (db_with [], no_outbound)
    ≡ (first_ingest, reply (processed_message response_0))
unfolding ingest_event and_then text_eq normalize_email
first_done = refl

ingest_event_once_example :
    ingest_event dispatch_0 env_0 connection_0 false 20
      (inbound (event_with (codes "e1") none))
      first_ingest
    ≡ (
      (mark_duplicate 3 (codes "e1") first_ingest.0, first_ingest.1),
      reply (duplicate_event (codes "e1")),
    )
unfolding ingest_webhooks
ingest_event_once_example =
    ingest_event_once dispatch_0 (dispatch_pending_inbound_receipts dispatch_env_0 25 10) env_0
      connection_0 connection_0 10 20 (inbound (event_with (codes "e1") none))
      (inbound (event_with (codes "e1") none)) [] (db_with [], no_outbound) first_ingest response_0
      first_done refl refl

abbrev known_customer : ExternalCustomer
known_customer = record {
  id = 1;
  organization_id = 7;
  channel_connection_id = 3;
  external_customer_id = none;
  email = some (codes "a@b.c");
  normalized_email = some (codes "a@b.c");
  display_name = none;
}

abbrev known_db : InboundDb
known_db = db_with (known_customer ∷ [])

known_address : normalize_email (λ s. s) (some (codes "a@b.c")) ≡ some (codes "a@b.c")
unfolding normalize_email
known_address = refl

known_clash :
    any
      (is_customer_email
        (customer_input env_0 connection_0 (event_with (codes "e2") (some (codes "c1"))))
        (some (codes "a@b.c")))
      known_db.customers
    ≡ true
unfolding text_eq
known_clash = refl

new_customer_id_loses_message_example :
    ingest_event dispatch_0 env_0 connection_0 false 20
      (inbound (event_with (codes "e2") (some (codes "c1"))))
      (known_db, no_outbound)
    ≡ ((known_db, no_outbound), reply (duplicate_event (codes "e2")))
new_customer_id_loses_message_example =
    new_customer_id_loses_message dispatch_0 env_0 connection_0 20
      (event_with (codes "e2") (some (codes "c1"))) (codes "c1") (codes "a@b.c") known_db
      no_outbound refl known_address refl known_clash refl

abbrev done_0 : InboundDb × InboundResponse
done_0 =
    or_else
      (process_inbound_message env_0 connection_0 10 99 (event_with (codes "e1") none) (db_with []))
      (db_with [], response_0)

done_lem :
    process_inbound_message env_0 connection_0 10 99 (event_with (codes "e1") none) (db_with [])
    ≡ some done_0
unfolding process_inbound_message and_then text_eq normalize_email
done_lem = refl

process_inbound_message-IsWorkedOn_example :
    IsWorkedOn 10 connection_0 (codes "Hello") (db_with []) done_0
process_inbound_message-IsWorkedOn_example =
    process_inbound_message-IsWorkedOn env_0 connection_0 10 99 (event_with (codes "e1") none)
      (db_with []) done_0 done_lem

abbrev dispatch_row : InboundDispatch
dispatch_row = record {
  id = 5;
  organization_id = 7;
  ticket_id = 4;
  run_id = 6;
  webhook_receipt_id = 2;
  status = pending;
  available_at = 10;
  claimed_at = none;
  completed_at = none;
  attempt_count = 0;
  lock_expires_at = none;
  last_error_code = none;
  payload = record {
    org_id = 7;
    run_id = 6;
    ticket_id = 4;
    subject = codes "Help";
    body = codes "Hello";
    customer_email = codes "a@b.c";
  };
}

abbrev pending_db : InboundDb
pending_db = record (db_with []) { dispatches = dispatch_row ∷ [] }

pending_found :
    any
      (is_left_out 10 (take 25 (filter (is_available 10) pending_db.dispatches)))
      pending_db.dispatches
    ≡ false
unfolding is_available
pending_found = refl

one_dispatch-IsKeyed : IsKeyed pending_db.dispatches
one_dispatch-IsKeyed id = ground arith

dispatch_pending_inbound_lem_example :
    (any (is_available 10) (dispatch_pending_inbound dispatch_env_0 25 10 pending_db).dispatches
      ≡ false)
    × All
        (IsDone dispatch_env_0 10 (dispatch_pending_inbound dispatch_env_0 25 10 pending_db))
        (filter (is_available 10) pending_db.dispatches)
dispatch_pending_inbound_lem_example =
    dispatch_pending_inbound_lem dispatch_env_0 10 (omega arith) (λ d. omega arith) 25 pending_db
      one_dispatch-IsKeyed pending_found

abbrev pending_round : InboundDb
pending_round = dispatch_pending_inbound dispatch_env_0 25 10 pending_db

queued_once : pending_round.queue ≡ dispatch_row.payload ∷ []
unfolding dispatch_pending_inbound
queued_once = refl
