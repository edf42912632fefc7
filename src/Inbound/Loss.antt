-- ===== src/Inbound/Loss.antt =====
-- A message whose sender has a new identifier (`upsertExternalCustomer` and `ingestWebhook` of
-- apps/api/src/channels/channels.service.ts).
use autonomous_csa.Base.{
  ℕ, ◌+◌, ◌≡◌, refl, ap, ◌∙◌, Bool, true, false, List, [], ◌∷◌, Option, none, some, and_then,
  and_then-none, Text, text_eq_sym, any, find_first, arith,
}
use autonomous_csa.Http.{reply}
use autonomous_csa.Delivery.Defs.{ChannelConnection, DeliveryDb}
use autonomous_csa.Inbound.Defs.{
  ExternalCustomer, WebhookReceiptStatus, duplicate, InboundDb, ParsedInboundEvent, truthy,
  same_key, replace_where,
}
use autonomous_csa.Inbound.Customers.{
  CustomerInput, normalize_email, clashes, create_customer, is_customer_id, is_customer_email,
  new_customer, upsert_by_id, upsert_external_customer,
}
use autonomous_csa.Inbound.Ingest.{
  IngestEnv, customer_input, process_inbound_message, inbound, duplicate_event, has_event,
  create_receipt, ingest_transaction, mark_duplicate, ingest_event,
}

same_key_sym : (a : Option Text) (t : Text) → same_key a (some t) ≡ same_key (some t) a
same_key_sym none t = refl
same_key_sym (some s) t = text_eq_sym s t

clash_of_email :
    (input : CustomerInput) (external_id email : Text) (id : ℕ) (customers : List ExternalCustomer)
    → any (is_customer_email input (some email)) customers ≡ true
    → any (clashes (new_customer input (some external_id) input.email (some email) id)) customers
      ≡ true
clash_of_email input external_id email id [] h = h
clash_of_email input external_id email id (c ∷ customers) h = ground (
  arith,
  h,
  clash_of_email input external_id email id customers,
  same_key_sym c.normalized_email email,
)

upsert_refused :
    (input : CustomerInput) (external_id email : Text) (db : InboundDb)
    → truthy input.external_customer_id ≡ some external_id
    → input.normalized_email ≡ some email
    → find_first (is_customer_id input (some external_id)) db.customers ≡ none
    → any (is_customer_email input (some email)) db.customers ≡ true
    → upsert_external_customer input db ≡ none
unfolding upsert_external_customer upsert_by_id create_customer
upsert_refused input external_id email db is_id is_email unknown known =
    rw
      (
        upsert_external_customer,
        is_id,
        upsert_by_id,
        unknown,
        is_email,
        create_customer,
        clash_of_email input external_id email db.next_id db.customers known,
      )
      refl

replace_none :
    {A : Type 0} (test : A → Bool) (f : A → A) (xs : List A)
    → any test xs ≡ false
    → replace_where test f xs ≡ xs
unfolding replace_where
replace_none test f [] h = refl
replace_none test f (x ∷ xs) h = ground (arith, h, replace_none test f xs)

process_refused :
    (env : IngestEnv) (connection : ChannelConnection) (now receipt_id : ℕ)
    (event : ParsedInboundEvent) (db : InboundDb)
    → upsert_external_customer (customer_input env connection event) db ≡ none
    → process_inbound_message env connection now receipt_id event db ≡ none
unfolding process_inbound_message and_then
process_refused env connection now receipt_id event db e = rw (e) refl

create_receipt_customers :
    (connection : ChannelConnection) (event_id event_type : Text) (verified : Bool)
    (status : WebhookReceiptStatus) (code : Option Text) (db db' : InboundDb)
    → create_receipt connection event_id event_type verified status code db ≡ some db'
    → db'.customers ≡ db.customers
unfolding create_receipt
create_receipt_customers connection event_id event_type verified status code db db' e =
    ground (arith, e)

transaction_refused :
    (env : IngestEnv) (connection : ChannelConnection) (now : ℕ) (event : ParsedInboundEvent)
    (external_id email : Text) (db : InboundDb) (outbound : DeliveryDb)
    → truthy event.sender.external_id ≡ some external_id
    → normalize_email env.to_lower_case event.sender.email ≡ some email
    → find_first
        (is_customer_id (customer_input env connection event) (some external_id))
        db.customers
      ≡ none
    → any (is_customer_email (customer_input env connection event) (some email)) db.customers ≡ true
    → ingest_transaction env connection now (inbound event) (db, outbound) ≡ none
unfolding ingest_transaction
transaction_refused env connection now event external_id email db outbound is_id is_email unknown
      known =
    let input = customer_input env connection event in
    and_then-none _ _ λ db' created.
      let same = create_receipt_customers connection _ _ _ _ _ db db' created in
      let refused =
        upsert_refused input external_id email db' is_id is_email
          (ap (find_first (is_customer_id input (some external_id))) same ∙ unknown)
          (ap (any (is_customer_email input (some email))) same ∙ known) in
      and_then-none _ _ λ done processed_it.
        ground
          (arith, processed_it, process_refused env connection now db.next_id event db' refused)

-- A message that names its sender by an identifier that the connection does not know, and whose address
-- is that of a customer of the connection, is answered as a duplicate, and all tables stay as they are:
-- no ticket gets the message. This is of an event without a receipt and a transaction that does not
-- break.
pub new_customer_id_loses_message :
    (dispatch : InboundDb → InboundDb) (env : IngestEnv) (connection : ChannelConnection) (now : ℕ)
    (event : ParsedInboundEvent) (external_id email : Text) (db : InboundDb) (outbound : DeliveryDb)
    → truthy event.sender.external_id ≡ some external_id
    → normalize_email env.to_lower_case event.sender.email ≡ some email
    → find_first
        (is_customer_id (customer_input env connection event) (some external_id))
        db.customers
      ≡ none
    → any (is_customer_email (customer_input env connection event) (some email)) db.customers ≡ true
    → any (has_event connection.id event.provider_event_id) db.receipts ≡ false
    → ingest_event dispatch env connection false now (inbound event) (db, outbound)
      ≡ ((db, outbound), reply (duplicate_event event.provider_event_id))
unfolding ingest_event mark_duplicate
new_customer_id_loses_message dispatch env connection now event external_id email db outbound is_id
      is_email unknown known fresh =
    rw
      (
        transaction_refused env connection now event external_id email db outbound is_id is_email
            unknown known,
        replace_none (has_event connection.id event.provider_event_id)
            (λ r. record r { status = duplicate; retry_count = r.retry_count + 1 }) db.receipts
            fresh,
      )
      refl
