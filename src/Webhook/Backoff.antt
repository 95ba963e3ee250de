-- ===== src/Webhook/Backoff.antt =====
-- The retries of a delivery (server/internal/webhook/webhook.go).
use wsms_gateway.Base.{ℕ, ◌+◌, ◌≤◌, ◌<◌, ◌≡◌, refl, arith, leb, Bool-cases, inl, inr, ◌⊎◌}
use wsms_gateway.Models.Records.{Text, DeliveryStatus, WebhookDelivery}
use wsms_gateway.Webhook.{Attempt, backoff, failed}

-- A failed attempt counts; the delivery then fails if that was the last attempt, and otherwise is
-- tried again within five minutes.
pub failed_again :
    (a : Attempt) (w : WebhookDelivery) (code : ℕ) (reason : Text)
    → w.attempts < w.max_attempts
    → ((failed a w code reason w).attempts ≤ w.max_attempts)
      × ((failed a w code reason w).attempts ≡ w.attempts + 1)
      × (((failed a w code reason w).status ≡ DeliveryStatus.failed)
          ⊎ (((failed a w code reason w).attempts < w.max_attempts)
              × ((failed a w code reason w).next_attempt_at ≤ a.now + 300000)))
unfolding failed backoff
failed_again a w code reason left = elim (Bool-cases (leb w.max_attempts (w.attempts + 1))) [
  | inl last ↦ rw last (ground arith, refl, inl refl)
  | inr more ↦ rw more (ground arith, refl, inr (ground arith, ground arith))
]
