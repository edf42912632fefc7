-- ===== src/Delivery/Pickup.antt =====
-- No message is forgotten: what a run of the reconciler
-- (apps/worker/src/channels/outbound-delivery-reconciler.service.ts) does for a message that is not done.
use autonomous_csa.Base.{ℕ, Bool, List, ◌∷◌, any, ◌==◌, if◌then◌else◌}
use autonomous_csa.Delivery.Defs.{Outbound, QueuedDelivery}

-- The row of an identifier is in a list.
has_row : ℕ → List Outbound → Bool
has_row id rows = any (λ r. r.id == id) rows

-- A call of the queue for a message is in a list of calls.
abbrev pub has_job : ℕ → List QueuedDelivery → Bool
has_job id queue = any (λ job. job.outbound_message_id == id) queue

-- The calls after that for one row.
abbrev next_queue : (ℕ → Bool) → Outbound → List QueuedDelivery → List QueuedDelivery
next_queue accepts row queue =
    if accepts row.id
    then record {
      job_id = record { outbound_message_id = row.id; suffix = row.attempt_count };
      outbound_message_id = row.id;
      delay = 0;
    }
      ∷ queue
    else queue
