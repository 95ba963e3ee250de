-- ===== src/Api/Device/Messages.antt =====
-- What the endpoints of devices (server/internal/api/device.go, ws.go) make of the messages.
use wsms_gateway.Base.{
  ℕ, refl, Option, none, some, List, [], ◌∷◌, first, Option-cases, Bool-cases, inl, inr,
}
use wsms_gateway.Models.Records.{Text, Db}
use wsms_gateway.Ws.Protocol.{SimInfo, SendAckData, DeliveryReportData, SetQuotaData}
use wsms_gateway.Fleet.{Ids, upsert_sims}
use wsms_gateway.Dispatch.Inbound.Preserves.{
  on_send_ack-Inv, on_delivery_report-Inv, upsert_sims-Same, apply_quota-Same,
}
use wsms_gateway.Dispatch.Inbound.Follows.{on_send_ack-Goes, on_delivery_report-Goes}
use wsms_gateway.Dispatch.Invariant.{SameMessages}
use wsms_gateway.Dispatch.Keeps.{Keeps, Keeps-same}
use wsms_gateway.Api.Device.{
  touch_device, register_token, report_sims, owns_message, device_ack, device_delivery,
  device_set_quota, EnrollReq, Enroll, is_usable, with_sims, enroll_device,
}

pub register_token-Same :
    (now device : ℕ) (t : Option Text) (db : Db)
    → SameMessages db (register_token now device t db).1
unfolding register_token
register_token-Same now device none db = (refl, refl)
register_token-Same now device (some []) db = (refl, refl)
register_token-Same now device (some (c ∷ t)) db = (refl, refl)

pub report_sims-Same :
    (now : ℕ) (ids : Ids) (device : ℕ) (r : Option (List SimInfo)) (db : Db)
    → SameMessages db (report_sims now ids device r db).1
unfolding report_sims touch_device
report_sims-Same now ids device none db = (refl, refl)
report_sims-Same now ids device (some sims) db =
    let same = upsert_sims-Same now ids device sims db in
    elim (Bool-cases (upsert_sims now ids device sims db).1) [
      | inl t ↦ rw t same
      | inr f ↦ rw f same
    ]

pub device_set_quota-Same :
    (now device : ℕ) (q : Option SetQuotaData) (db : Db)
    → SameMessages db (device_set_quota now device q db).1
unfolding device_set_quota
device_set_quota-Same now device none db = (refl, refl)
device_set_quota-Same now device (some sq) db = apply_quota-Same now device sq db

with_sims-Same :
    (w : Enroll) (sims : List SimInfo) (db : Db) → SameMessages db (with_sims w sims db)
with_sims-Same w [] db = (refl, refl)
with_sims-Same w (s ∷ sims) db = upsert_sims-Same w.now w.ids w.new_id (s ∷ sims) db

pub enroll_device-Same :
    (w : Enroll) (req : EnrollReq) (db : Db) → SameMessages db (enroll_device w req db).1
unfolding enroll_device
enroll_device-Same w req db =
    elim (Option-cases (first (is_usable w.now req.token_hash) db.tokens)) [
      | inl q ↦ rw (q, enroll_device) (refl, refl)
      | inr (t, q) ↦ elim (Bool-cases w.creates) [
        | inl y ↦ rw (q, enroll_device, y) (with_sims-Same w req.sims _)
        | inr n ↦ rw (q, enroll_device, n) (refl, refl)
      ]
    ]

pub device_ack-Keeps :
    (now device : ℕ) (a : Option SendAckData) (db : Db) → Keeps db (device_ack now device a db).1
unfolding device_ack
device_ack-Keeps now device none db = Keeps-same _ _ _ _ (refl, refl)
device_ack-Keeps now device (some a) db = elim (Bool-cases (owns_message db device a.message_id)) [
  | inl t ↦ rw t (
      unfold touch_device in
      (
        λ v. on_send_ack-Inv now a (touch_device now device db) v,
        on_send_ack-Goes now (touch_device now device db) a,
      ))
  | inr f ↦ rw f (Keeps-same _ _ _ _ (refl, refl))
]

pub device_delivery-Keeps :
    (now device : ℕ) (d : Option DeliveryReportData) (db : Db)
    → Keeps db (device_delivery now device d db).1
unfolding device_delivery
device_delivery-Keeps now device none db = Keeps-same _ _ _ _ (refl, refl)
device_delivery-Keeps now device (some dr) db =
    elim (Bool-cases (owns_message db device dr.message_id)) [
      | inl t ↦ rw t (λ v. on_delivery_report-Inv now dr db v, on_delivery_report-Goes now db dr)
      | inr f ↦ rw f (Keeps-same _ _ _ _ (refl, refl))
    ]
