-- ===== src/Api/Device.antt =====
-- server/internal/api/device.go and ws.go: the endpoints of devices, and enrollment. A request
-- whose body does not bind is none.
pub mod Ownership
pub mod Messages
pub mod Enrolling
use wsms_gateway.Base.{
  ℕ, Bool, true, false, not, ◌&&◌, Option, none, some, List, [], ◌∷◌, ◌++◌, ltb, ◌==◌, first,
  update_where, is_id, if◌then◌else◌,
}
use wsms_gateway.Models.Enums.{DeviceStatus, is_disabled}
use wsms_gateway.Models.Records.{Text, is_empty, Device, Message, EnrollmentToken, Db}
use wsms_gateway.Text.{text_eq}
use wsms_gateway.Ws.Protocol.{SimInfo, SendAckData, DeliveryReportData, SetQuotaData}
use wsms_gateway.Fleet.{Ids, upsert_sims, device_sim_states}
use wsms_gateway.Dispatch.State.{find_message}
use wsms_gateway.Dispatch.Inbound.{on_send_ack, on_delivery_report, apply_quota}
use wsms_gateway.Api.Auth.{Crypto, parse_device_bearer}
use wsms_gateway.Api.Reply.{Reply}

-- `deviceAuth` and the authentication of `deviceWS`: the device, or none for a 401. `read_id` turns
-- the id text into an id.
abbrev pub check_secret : Crypto → Text → Option Device → Option ℕ
check_secret x sec none = none
check_secret x sec (some d) = if x.verify sec d.secret_hash then some d.id else none

abbrev pub find_device : Db → ℕ → Option Device
find_device db id =
    first (λ (d : Device). d.id == id && (not (is_disabled d.status) && not d.deleted)) db.devices

unfoldable pub device_auth : Crypto → (Text → ℕ) → Text → Db → Option ℕ
device_auth x read_id header db = elim (parse_device_bearer header) [
  | none ↦ none
  | some (id, sec) ↦ check_secret x sec (find_device db (read_id id))
]

-- `touchDevice`.
unfoldable pub touch_device : ℕ → ℕ → Db → Db
touch_device now device db = record db {
  devices =
      update_where (λ d. d.id == device && not d.deleted)
        (λ d. record d { last_seen_at = some now; wake_misses = 0; updated_at = now }) db.devices;
}

unfoldable pub register_token : ℕ → ℕ → Option Text → Db → Reply × Db
register_token now device none db = (Reply.refused 400, db)
register_token now device (some []) db = (Reply.refused 400, db)
register_token now device (some (c ∷ token)) db = (
  Reply.done,
  record db {
    devices =
        update_where (λ d. d.id == device && not d.deleted)
          (λ d. record d {
            push_token = c ∷ token;
            last_seen_at = some now;
            wake_misses = 0;
            updated_at = now;
          })
          db.devices;
  },
)

unfoldable pub report_sims : ℕ → Ids → ℕ → Option (List SimInfo) → Db → Reply × Db
unfolding touch_device
report_sims now ids device none db = (Reply.refused 400, db)
report_sims now ids device (some sims) db =
    let (db', done) = upsert_sims now ids device sims db in
    let touched = touch_device now device db' in
    if done
    then (Reply.sims (device_sim_states touched device), touched)
    else (Reply.refused 500, db')

unfoldable pub device_sims : ℕ → Db → Reply
device_sims device db = Reply.sims (device_sim_states db device)

-- `ownsMessage`: a device may only report on a message that is assigned to it.
unfoldable pub owns_message : Db → ℕ → ℕ → Bool
owns_message db device id = elim (find_message id db) [
  | none ↦ false
  | some m ↦ is_id m.assigned_device_id device
]

unfoldable pub device_ack : ℕ → ℕ → Option SendAckData → Db → Reply × Db
unfolding owns_message touch_device
device_ack now device none db = (Reply.refused 400, db)
device_ack now device (some a) db =
    if owns_message db device a.message_id
    then (Reply.done, on_send_ack now a (touch_device now device db))
    else (Reply.refused 403, db)

unfoldable pub device_delivery : ℕ → ℕ → Option DeliveryReportData → Db → Reply × Db
unfolding owns_message
device_delivery now device none db = (Reply.refused 400, db)
device_delivery now device (some dr) db =
    if owns_message db device dr.message_id
    then (Reply.done, on_delivery_report now dr db)
    else (Reply.refused 403, db)

unfoldable pub device_set_quota : ℕ → ℕ → Option SetQuotaData → Db → Reply × Db
device_set_quota now device none db = (Reply.refused 400, db)
device_set_quota now device (some sq) db =
    let db' = apply_quota now device sq db in (Reply.sims (device_sim_states db' device), db')

pub record EnrollReq : Type 0 where
  pub token_hash : Text
  pub name : Text
  pub app_version : Text
  pub sims : List SimInfo

-- What an enrollment takes from outside: the clock, the new id, the hash of the new secret,
-- whether the device row is inserted, and the ids of its SIMs.
pub record Enroll : Type 0 where
  pub now : ℕ
  pub new_id : ℕ
  pub secret_hash : Text
  pub creates : Bool
  pub ids : Ids

abbrev pub is_usable : ℕ → Text → EnrollmentToken → Bool
is_usable now hash t = text_eq t.token_hash hash && (not t.used && ltb now t.expires_at)

new_device : Enroll → EnrollReq → Device
new_device w req = record {
  id = w.new_id;
  name = req.name;
  status = DeviceStatus.enrolled;
  last_seen_at = some w.now;
  app_version = req.app_version;
  push_token = [];
  secret_hash = w.secret_hash;
  wake_misses = 0;
  created_at = w.now;
  updated_at = w.now;
  deleted = false;
}

abbrev with_sims : Enroll → List SimInfo → Db → Db
with_sims w [] db = db
with_sims w (si ∷ sims) db = (upsert_sims w.now w.ids w.new_id (si ∷ sims) db).0

-- `enrollDevice`; `token_hash` is the SHA-256 of the token that was sent.
unfoldable pub enroll_device : Enroll → EnrollReq → Db → Reply × Db
unfolding new_device
enroll_device w req db = elim (first (is_usable w.now req.token_hash) db.tokens) [
  | none ↦ (Reply.refused 401, db)
  | some t ↦
      if w.creates
      then (
        Reply.enrolled w.new_id,
        with_sims w req.sims (record db {
          devices = db.devices ++ new_device w req ∷ [];
          tokens =
              update_where (λ u. u.id == t.id)
                (λ u. record u {
                  used = true;
                  used_at = some w.now;
                  device_id = some w.new_id;
                  updated_at = w.now;
                })
                db.tokens;
        }),
      )
      else (Reply.refused 500, db)
]
