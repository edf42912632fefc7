-- ===== src/Delivery/LateCallback.antt =====
-- A callback that comes after a message was cancelled (apps/api/src/channels/channels.service.ts).
use autonomous_csa.Base.{
  ℕ, ◌≡◌, refl, sym, ap, ◌∙◌, ◌⊎◌, inl, inr, true, false, Bool-cases, Bool, Option, some, or_else,
  List, [], ◌∷◌, arith, find_first, ◌==◌, if◌then◌else◌, Option-cases,
}
use autonomous_csa.Http.{refuse, reply, bad_request}
use autonomous_csa.Delivery.Defs.{sent, Outbound, ChannelConnection, DeliveryDb, scan}
use autonomous_csa.Delivery.Outcome.{HasRow}
use autonomous_csa.Delivery.Callback.{
  DeliveryCallback, is_sent, is_accepted, has_provider_id, apply_callback,
  process_delivery_callback,
}
use autonomous_csa.Delivery.Control.{
  is_cancel_blocked, cancelled_row, commit_cancel, cancel_outbound_message,
}

first_hit :
    (p : Outbound → Bool) (id : ℕ) (ids : List ℕ) (table : ℕ → Option Outbound) (r : Outbound)
    → table id ≡ some r
    → p r ≡ true
    → find_first p (scan (id ∷ ids) table) ≡ some r
unfolding scan
first_hit p id ids table r found hits = ground (arith, found, hits)

hit_lem :
    (p : Outbound → Bool) (rows : List Outbound) (row : Outbound)
    → find_first p rows ≡ some row
    → p row ≡ true
hit_lem p [] row e = ground (arith, e)
hit_lem p (r ∷ rows) row e = elim (Bool-cases (p r)) [
  | inl hits ↦
      let here : find_first p (r ∷ rows) ≡ some r = rw (hits) refl in
      ap p (sym (ap (λ o. or_else o row) (sym here ∙ e))) ∙ hits
  | inr misses ↦ hit_lem p rows row (ground (arith, misses, e))
]

-- The rows that are scanned after one of them is replaced by a row of the same look-up.
same_hit :
    (p : Outbound → Bool) (ids : List ℕ) (table : ℕ → Option Outbound) (row row' : Outbound)
    → table row.id ≡ some row
    → row'.id ≡ row.id
    → p row ≡ true
    → p row' ≡ true
    → ((id : ℕ) (r : Outbound) → table id ≡ some r → r.id ≡ id)
    → find_first p (scan ids table) ≡ some row
    → find_first p (scan ids (λ id. if id == row.id then some row' else table id)) ≡ some row'
unfolding scan
same_hit p [] table row row' there same hit hit' keyed e = ground (arith, e)
same_hit p (id ∷ ids) table row row' there same hit hit' keyed e =
    elim (Bool-cases (id == row.id)) [
      | inl at ↦ ground (arith, at, hit')
      | inr off ↦ elim (Option-cases (table id)) [
        | inl missing ↦
            ground (arith, off, missing, e, same_hit p ids table row row' there same hit hit' keyed)
        | inr (r, found) ↦ elim (Bool-cases (p r)) [
          | inl hits ↦
              let hit_row : r ≡ row =
                ap (λ o. or_else o row) (sym (first_hit p id ids table r found hits) ∙ e) in
              ground (arith, off, sym (keyed id r found) ∙ ap (λ x. x.id) hit_row)
          | inr later ↦
              ground (
                arith,
                off,
                found,
                later,
                e,
                same_hit p ids table row row' there same hit hit' keyed,
              )
        ]
      ]
    ]

-- A request cancels a message that the provider has taken before, which is found by its connection and
-- its identifier of the provider: the request succeeds. If then a callback reports it accepted or sent, the
-- message is sent after all, and a second request to cancel it is refused.
pub late_callback_revives :
    (org_id actor now later : ℕ) (connection : ChannelConnection) (callback : DeliveryCallback)
    (row : Outbound) (db : DeliveryDb)
    → ((id : ℕ) (r : Outbound) → db.outbound id ≡ some r → r.id ≡ id)
    → db.outbound row.id ≡ some row
    → row.organization_id ≡ org_id
    → is_cancel_blocked row.status ≡ false
    → find_first
        (has_provider_id connection.id callback.provider_message_id)
        (scan db.outbound_ids db.outbound)
      ≡ some row
    → (callback.status ≡ is_sent) ⊎ (callback.status ≡ is_accepted)
    → (cancel_outbound_message org_id row.id actor now db
        ≡ reply (commit_cancel org_id actor now row db))
      × HasRow
          (λ r. r.status ≡ sent)
          ((process_delivery_callback connection callback
              (commit_cancel org_id actor now row db)).0.outbound
            row.id)
      × (cancel_outbound_message org_id row.id actor later
            (process_delivery_callback connection callback
              (commit_cancel org_id actor now row db)).0
          ≡ refuse (bad_request "Terminal outbound message cannot be cancelled"))
unfolding process_delivery_callback apply_callback commit_cancel cancel_outbound_message
late_callback_revives org_id actor now later connection callback row db keyed there own live hit s =
    let p = has_provider_id connection.id callback.provider_message_id in
    let matches = hit_lem p (scan db.outbound_ids db.outbound) row hit in
    let again =
      same_hit p db.outbound_ids db.outbound row (cancelled_row now row) there refl matches matches
        keyed hit in
    ground (arith, there, own, live, s, again)
