-- ===== src/Delivery/CallbackLaws.antt =====
-- What the callbacks of the provider do to a message.
use autonomous_csa.Base.{
  ℕ, ◌≡◌, refl, sym, subst, Bool-cases, inl, inr, Bool, List, [], ◌∷◌, Option, none, some, arith,
  find_first, Option-cases,
}
use autonomous_csa.Delivery.Defs.{delivered, Outbound, ChannelConnection, DeliveryDb, scan}
use autonomous_csa.Delivery.Callback.{
  DeliveryCallback, CallbackResponse, unknown_provider_message, has_provider_id, apply_callback,
  process_delivery_callback,
}

module _ (connection : ChannelConnection) (callback : DeliveryCallback) (db : DeliveryDb) where
  -- The two branches of the look-up.
  pub process_delivery_callback_cases :
      (P : DeliveryDb × CallbackResponse → Type 0)
      → P (db, unknown_provider_message)
      → ((outbound : Outbound)
          → find_first
              (has_provider_id connection.id callback.provider_message_id)
              (scan db.outbound_ids db.outbound)
            ≡ some outbound
          → P (apply_callback connection callback outbound db))
      → P (process_delivery_callback connection callback db)
  unfolding process_delivery_callback
  process_delivery_callback_cases P missing found =
      go
        (find_first (has_provider_id connection.id callback.provider_message_id)
          (scan db.outbound_ids db.outbound))
        refl
    where
      go :
          (o : Option Outbound)
          → find_first
              (has_provider_id connection.id callback.provider_message_id)
              (scan db.outbound_ids db.outbound)
            ≡ o
          → P (elim o [
            | none ↦ (db, unknown_provider_message)
            | some outbound ↦ apply_callback connection callback outbound db
          ])
      go none e = missing
      go (some outbound) e = found outbound e

-- A row that a scan finds is in the table.
find_first-scan :
    (p : Outbound → Bool) (ids : List ℕ) (table : ℕ → Option Outbound) (row : Outbound)
    → find_first p (scan ids table) ≡ some row
    → (id : ℕ) × (table id ≡ some row)
unfolding scan
find_first-scan p [] table row e = cc
find_first-scan p (id ∷ ids) table row e = elim (Option-cases (table id)) [
  | inl missing ↦ find_first-scan p ids table row (ground arith)
  | inr (r, there) ↦ elim (Bool-cases (p r)) [
    | inl hit ↦ (id, ground arith)
    | inr miss ↦ find_first-scan p ids table row (ground arith)
  ]
]

-- Every row stands under its own identifier.
abbrev pub IsKeyed : DeliveryDb → Type 0
IsKeyed db = (id : ℕ) (row : Outbound) → db.outbound id ≡ some row → row.id ≡ id

apply_callback-delivered :
    (connection : ChannelConnection) (callback : DeliveryCallback) (db : DeliveryDb) (id : ℕ)
    (row outbound : Outbound)
    → db.outbound id ≡ some row
    → row.status ≡ delivered
    → row.id ≡ id
    → db.outbound outbound.id ≡ some outbound
    → (apply_callback connection callback outbound db).0.outbound id ≡ some row
unfolding apply_callback
apply_callback-delivered connection callback db id row outbound found d same there = ground arith

apply_callback-IsKeyed :
    (connection : ChannelConnection) (callback : DeliveryCallback) (db : DeliveryDb)
    (outbound : Outbound)
    → IsKeyed db
    → IsKeyed (apply_callback connection callback outbound db).0
unfolding apply_callback
apply_callback-IsKeyed connection callback db outbound keyed id row e =
    ground (arith, keyed id row, keyed outbound.id)

-- The callbacks of several connections, in the order of their arrival.
abbrev pub process_callbacks : List (ChannelConnection × DeliveryCallback) → DeliveryDb → DeliveryDb
process_callbacks [] db = db
process_callbacks ((connection, callback) ∷ rest) db =
    process_callbacks rest (process_delivery_callback connection callback db).0

process_delivery_callback-delivered :
    (connection : ChannelConnection) (callback : DeliveryCallback) (db : DeliveryDb) (id : ℕ)
    (row : Outbound)
    → IsKeyed db
    → db.outbound id ≡ some row
    → row.status ≡ delivered
    → IsKeyed (process_delivery_callback connection callback db).0
      × ((process_delivery_callback connection callback db).0.outbound id ≡ some row)
process_delivery_callback-delivered connection callback db id row keyed found d =
    process_delivery_callback_cases connection callback db
      (λ p. IsKeyed p.0 × (p.0.outbound id ≡ some row)) (keyed, found)
      (λ outbound hit.
        let (i, there) = find_first-scan _ db.outbound_ids db.outbound outbound hit in
        (
          apply_callback-IsKeyed connection callback db outbound keyed,
          apply_callback-delivered connection callback db id row outbound found d
              (keyed id row found)
              (subst (λ j. db.outbound j ≡ some outbound) (sym (keyed i outbound there)) there),
        ))

-- A delivered message stays as it is, whatever callbacks follow on whatever connections.
pub delivered_absorbs_callbacks :
    (callbacks : List (ChannelConnection × DeliveryCallback)) (db : DeliveryDb) (id : ℕ)
    (row : Outbound)
    → IsKeyed db
    → db.outbound id ≡ some row
    → row.status ≡ delivered
    → (process_callbacks callbacks db).outbound id ≡ some row
delivered_absorbs_callbacks [] db id row keyed found d = found
delivered_absorbs_callbacks ((connection, callback) ∷ rest) db id row keyed found d =
    let (keyed', found') =
      process_delivery_callback-delivered connection callback db id row keyed found d in
    delivered_absorbs_callbacks rest (process_delivery_callback connection callback db).0 id row
      keyed' found' d
