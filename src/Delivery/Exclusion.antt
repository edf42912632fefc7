-- ===== src/Delivery/Exclusion.antt =====
-- Two jobs and one message (apps/worker/src/channels/channel-delivery.processor.ts): a claim after
-- another claim.
use autonomous_csa.Base.{ℕ, ◌+◌, ◌≡◌, some, is_some, ltb, arith}
use autonomous_csa.Delivery.Defs.{JobId, Outbound, DeliveryDb}
use autonomous_csa.Delivery.Claim.{claim_delivery}

-- After a claim at `now` for `lease` milliseconds, and as long as nobody else writes the message,
-- another job's claim of it succeeds exactly when its clock is past `now + lease`.
pub claim_again_iff_expired :
    (now lease now' lease' : ℕ) (job job' : JobId) (outbound outbound' : Outbound)
    (db db' : DeliveryDb)
    → (row : Outbound) → db.outbound outbound.id ≡ some row
    → row.id ≡ outbound.id
    → claim_delivery now lease job outbound db ≡ some db'
    → outbound'.id ≡ outbound.id
    → is_some (claim_delivery now' lease' job' outbound' db') ≡ ltb (now + lease) now'
unfolding claim_delivery
claim_again_iff_expired now lease now' lease' job job' outbound outbound' db db' row e i c same =
    ground arith
