-- ===== src/Api/Device/Ownership.antt =====
-- A device reports only on messages that are assigned to it (server/internal/api/device.go).
use mathlib.Core.Bool.{false≢true}
use wsms_gateway.Base.{
  ℕ, ◌≡◌, sym, ◌∙◌, subst, true, false, some, arith, ◌==◌, is_id, Bool-cases, inl, inr,
}
use wsms_gateway.Models.Records.{Message, Db}
use wsms_gateway.Ws.Protocol.{SendAckData, DeliveryReportData}
use wsms_gateway.Dispatch.State.{find_message}
use wsms_gateway.Dispatch.Inbound.Other.{on_send_ack_other, on_delivery_report_other}
use wsms_gateway.Api.Device.{owns_message, touch_device, device_ack, device_delivery}

not_owner :
    (db : Db) (device id : ℕ) {m : Message}
    → find_message id db ≡ some m
    → is_id m.assigned_device_id device ≡ false
    → owns_message db device id ≡ false
unfolding owns_message
not_owner db device id found foreign = rw (found, owns_message) foreign

-- What a device owns is another message.
apart :
    (db : Db) (device id k : ℕ) {m : Message}
    → find_message id db ≡ some m
    → is_id m.assigned_device_id device ≡ false
    → owns_message db device k ≡ true
    → (id == k) ≡ false
apart db device id k found foreign owner = elim (Bool-cases (id == k)) [
  | inl t ↦
      let same : id ≡ k = ground arith in
      absurd (
        false≢true (
          sym (not_owner db device id found foreign)
          ∙ subst (λ i. owns_message db device i ≡ true) (sym same) owner))
  | inr f ↦ f
]

-- Whatever a device acknowledges or reports over REST, a message that is not assigned to it stays as
-- it is.
pub device_ack_foreign :
    (now device id : ℕ) (a : SendAckData) (dr : DeliveryReportData) (db : Db) {m : Message}
    → find_message id db ≡ some m
    → is_id m.assigned_device_id device ≡ false
    → (find_message id (device_ack now device (some a) db).1 ≡ some m)
      × (find_message id (device_delivery now device (some dr) db).1 ≡ some m)
unfolding device_ack device_delivery touch_device
device_ack_foreign now device id a dr db {m} found foreign = (
  elim (Bool-cases (owns_message db device a.message_id)) [
    | inl owner ↦
        let other = apart db device id a.message_id found foreign owner in
        rw owner (on_send_ack_other now id a (touch_device now device db) other ∙ found)
    | inr foe ↦ rw foe found
  ],
  elim (Bool-cases (owns_message db device dr.message_id)) [
    | inl owner ↦
        let other = apart db device id dr.message_id found foreign owner in
        rw owner (on_delivery_report_other now id dr db other ∙ found)
    | inr foe ↦ rw foe found
  ],
)
