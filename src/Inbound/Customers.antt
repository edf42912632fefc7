-- ===== src/Inbound/Customers.antt =====
-- `normalizeEmail` of apps/api/src/channels/channel-sanitizer.ts and `upsertExternalCustomer` of
-- apps/api/src/channels/channels.service.ts. `none` is a violated unique constraint.
use autonomous_csa.Base.{
  ℕ, ◌+◌, Bool, true, false, not, ◌&&◌, ◌||◌, [], ◌∷◌, Option, none, some, Text, trim, is_space,
  ◌==◌, any, find_first, if◌then◌else◌, split_on,
}
use autonomous_csa.Inbound.Defs.{ExternalCustomer, InboundDb, truthy, same_key, replace_where}

-- Whether a dot stands between two other units.
abbrev has_inner_dot : Text → Bool
has_inner_dot [] = false
has_inner_dot (c ∷ []) = false
has_inner_dot (c ∷ d ∷ []) = false
has_inner_dot (c ∷ d ∷ e ∷ s) = d == b'.' || has_inner_dot (d ∷ e ∷ s)

abbrev is_local_part : Text → Bool
is_local_part [] = false
is_local_part (c ∷ s) = true

-- `/^[^@\s]+@[^@\s]+\.[^@\s]+$/`.
unfoldable pub is_address : Text → Bool
unfolding split_on is_space
is_address s = not (any is_space s) && elim (split_on b'@' s) [
  | user ∷ domain ∷ [] ↦ is_local_part user && has_inner_dot domain
  | _ ↦ false
]

unfoldable pub normalize_email : (Text → Text) → Option Text → Option Text
unfolding is_address trim
normalize_email to_lower_case none = none
normalize_email to_lower_case (some value) =
    let trimmed = to_lower_case (trim value) in if is_address trimmed then some trimmed else none

-- Two rows that a unique index of the table does not take together.
abbrev pub clashes : ExternalCustomer → ExternalCustomer → Bool
clashes a b =
    a.organization_id == b.organization_id
    && a.channel_connection_id == b.channel_connection_id
    && (same_key a.external_customer_id b.external_customer_id
        || same_key a.normalized_email b.normalized_email)

unfoldable pub create_customer : ExternalCustomer → InboundDb → Option (InboundDb × ℕ)
create_customer row db =
    if any (clashes row) db.customers
    then none
    else some (record db { next_id = db.next_id + 1; customers = row ∷ db.customers }, row.id)

-- `update` of a row by its identifier.
unfoldable pub update_customer : ExternalCustomer → InboundDb → Option (InboundDb × ℕ)
unfolding replace_where
update_customer row db =
    if any (λ c. not (c.id == row.id) && clashes row c) db.customers
    then none
    else some (
      record db { customers = replace_where (λ c. c.id == row.id) (λ _. row) db.customers },
      row.id,
    )

pub record CustomerInput : Type 0 where
  pub org_id : ℕ
  pub channel_connection_id : ℕ
  pub external_customer_id : Option Text
  pub email : Option Text
  pub normalized_email : Option Text
  pub display_name : Option Text

-- `undefined` leaves a column as it is.
abbrev pub or_kept : Option Text → Option Text → Option Text
or_kept none old = old
or_kept (some a) old = some a

abbrev pub is_customer_id : CustomerInput → Option Text → ExternalCustomer → Bool
is_customer_id input id c =
    c.organization_id == input.org_id
    && c.channel_connection_id == input.channel_connection_id
    && same_key c.external_customer_id id

abbrev pub is_customer_email : CustomerInput → Option Text → ExternalCustomer → Bool
is_customer_email input email c =
    c.organization_id == input.org_id
    && c.channel_connection_id == input.channel_connection_id
    && same_key c.normalized_email email

abbrev pub new_customer :
    CustomerInput → Option Text → Option Text → Option Text → ℕ → ExternalCustomer
new_customer input external_id email normalized id = record {
  id = id;
  organization_id = input.org_id;
  channel_connection_id = input.channel_connection_id;
  external_customer_id = external_id;
  email = email;
  normalized_email = normalized;
  display_name = input.display_name;
}

-- The two upserts, by the customer's identifier and by the address.
unfoldable pub upsert_by_id : CustomerInput → Text → InboundDb → Option (InboundDb × ℕ)
unfolding create_customer update_customer
upsert_by_id input id db = elim (find_first (is_customer_id input (some id)) db.customers) [
  | none ↦
      create_customer (new_customer input (some id) input.email input.normalized_email db.next_id)
        db
  | some c ↦
      update_customer
        (record c {
          email = or_kept input.email c.email;
          normalized_email = input.normalized_email;
          display_name = or_kept input.display_name c.display_name;
        })
        db
]

unfoldable pub upsert_by_email : CustomerInput → Text → InboundDb → Option (InboundDb × ℕ)
unfolding create_customer update_customer
upsert_by_email input email db =
    elim (find_first (is_customer_email input (some email)) db.customers) [
      | none ↦ create_customer (new_customer input none input.email (some email) db.next_id) db
      | some c ↦
          update_customer
            (record c {
              email = or_kept input.email c.email;
              display_name = or_kept input.display_name c.display_name;
            })
            db
    ]

unfoldable pub upsert_external_customer : CustomerInput → InboundDb → Option (InboundDb × ℕ)
unfolding upsert_by_id upsert_by_email create_customer
upsert_external_customer input db = elim (truthy input.external_customer_id) [
  | some id ↦ upsert_by_id input id db
  | none ↦ elim (truthy input.normalized_email) [
    | some email ↦ upsert_by_email input email db
    | none ↦ create_customer (new_customer input none none none db.next_id) db
  ]
]
