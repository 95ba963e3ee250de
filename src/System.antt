-- ===== src/System.antt =====
-- The server as a whole: the calls of the dispatcher's workers and reaper, the frames, requests and
-- connections of devices, the requests of clients and of the console, and the purges of old messages
-- (server/internal/maintenance/retention.go), in any order.
mod Tests
pub mod Lifecycle
use wsms_gateway.Base.{
  ℕ, ◌≡◌, refl, Bool, true, false, Option, none, some, List, [], ◌∷◌, arith, any, ◌==◌, Bool-cases,
  Option-cases, inl, inr, first, by_key, if◌then◌else◌,
}
use wsms_gateway.Models.Records.{Text, Message, Db}
use wsms_gateway.Ws.Protocol.{SimInfo, SendAckData, DeliveryReportData, SetQuotaData, Inbound}
use wsms_gateway.Ws.Hub.{Conn, Hub, register, set_device_status, serve, unregister_conn, unregister}
use wsms_gateway.Fleet.{Ids}
use wsms_gateway.Dispatch.State.{State, Env}
use wsms_gateway.Dispatch.Send.{dispatch_one}
use wsms_gateway.Dispatch.Send.Preserves.{dispatch_one-Inv}
use wsms_gateway.Dispatch.Send.Follows.{dispatch_one-Follows}
use wsms_gateway.Dispatch.Inbound.{handle_frame}
use wsms_gateway.Dispatch.Inbound.Preserves.{handle_frame-Inv}
use wsms_gateway.Dispatch.Inbound.Follows.{handle_frame-Follows}
use wsms_gateway.Dispatch.Reaper.{reap}
use wsms_gateway.Dispatch.Reaper.Preserves.{reap-Inv}
use wsms_gateway.Dispatch.Reaper.Follows.{reap-Follows}
use wsms_gateway.Dispatch.Invariant.{InvDb, SameMessages}
use wsms_gateway.Dispatch.Lifecycle.{Follows, Each}
use wsms_gateway.Dispatch.Keeps.{Keeps-same}
use wsms_gateway.Api.Messages.{SubmitReq, Submit, submit_message, cancel_message}
use wsms_gateway.Api.Messages.Stored.{submit_message-Inv, cancel_message-Inv}
use wsms_gateway.Api.Messages.Follows.{submit_message-Follows, cancel_message-Follows}
use wsms_gateway.Api.Device.{
  register_token, report_sims, device_ack, device_delivery, device_set_quota, EnrollReq, Enroll,
  enroll_device,
}
use wsms_gateway.Api.Device.Messages.{
  register_token-Same, report_sims-Same, device_set_quota-Same, enroll_device-Same,
  device_ack-Keeps, device_delivery-Keeps,
}
use wsms_gateway.Retention.{purge}
use wsms_gateway.Retention.Preserves.{purge-Inv}
use wsms_gateway.Admin.Console.{Console, ConsoleEnv}
use wsms_gateway.Admin.Actions.{Action, request}
use wsms_gateway.Admin.Actions.Messages.{request-Keeps}

abbrev pub with_db : State → Db → State
with_db st db = record st { db = db }

abbrev pub alone : Submit → Submit
alone w = record w { others = λ db. db }

-- One call of the dispatcher, a device, a client or the console; a worker can store the ledger row of
-- its dispatch, and a submission brings an id that no message has.
pub data Step : State → State → Type 0 where
  work : (e : Env) (st : State) → e.ledger_stored ≡ true → Step st (dispatch_one e st).0
  frame : (e : Env) (device : ℕ) (f : Inbound) (st : State) → Step st (handle_frame e device f st)
  tick : (wait now : ℕ) (st : State) → Step st (record st { db = reap wait now st.db })
  submit :
      (w : Submit) (client : ℕ) (req : SubmitReq) (st : State)
      → any (λ (m : Message). m.id == w.new_id) st.db.messages ≡ false
      → Step st (record st { db = (submit_message (alone w) client req st.db).1 })
  cancel :
      (now : ℕ) (pick : Bool) (client id : ℕ) (st : State)
      → Step st (record st {
        db = (cancel_message now pick (λ db. db) client id st.db st.hub).1;
        hub = (cancel_message now pick (λ db. db) client id st.db st.hub).2;
      })
  ack :
      (now device : ℕ) (a : Option SendAckData) (st : State)
      → Step st (with_db st (device_ack now device a st.db).1)
  report :
      (now device : ℕ) (d : Option DeliveryReportData) (st : State)
      → Step st (with_db st (device_delivery now device d st.db).1)
  sims :
      (now : ℕ) (ids : Ids) (device : ℕ) (r : Option (List SimInfo)) (st : State)
      → Step st (with_db st (report_sims now ids device r st.db).1)
  quota :
      (now device : ℕ) (q : Option SetQuotaData) (st : State)
      → Step st (with_db st (device_set_quota now device q st.db).1)
  token :
      (now device : ℕ) (t : Option Text) (st : State)
      → Step st (with_db st (register_token now device t st.db).1)
  enroll :
      (w : Enroll) (r : EnrollReq) (st : State) → Step st (with_db st (enroll_device w r st.db).1)
  connect :
      (now serial device : ℕ) (st : State)
      → Step st (record st {
        db = (serve now serial device st.hub st.db).1;
        hub = (serve now serial device st.hub st.db).0;
      })
  leave :
      (now : ℕ) (c : Conn) (st : State)
      → Step st (record st {
        db = (unregister now c st.hub st.db).1;
        hub = (unregister now c st.hub st.db).0;
      })
  console :
      (e : ConsoleEnv) (cookie : Option Text) (a : Action) (c : Console) (st : State)
      → c.db ≡ st.db
      → c.hub ≡ st.hub
      → any (λ (x : Message). x.id == e.new_id 0) c.db.messages ≡ false
      → Step st (record st { db = (request e cookie a c).1.db; hub = (request e cookie a c).1.hub })

-- The states that calls and purges of old messages lead to, in any order; the purges are those at
-- the start of the server and every six hours.
pub data Reachable : State → State → Type 0 where
  here : (st : State) → Reachable st st
  next : (a b c : State) → Reachable a b → Step b c → Reachable a c
  purged : (a b : State) (cutoff : ℕ) → Reachable a b → Reachable a (with_db b (purge cutoff b.db))

serve-Same :
    (now serial device : ℕ) (h : Hub) (db : Db) → SameMessages db (serve now serial device h db).1
unfolding serve
serve-Same now serial device h db = unfold set_device_status in (refl, refl)

unregister-Same :
    (now : ℕ) (c : Conn) (h : Hub) (db : Db) → SameMessages db (unregister now c h db).1
unfolding unregister set_device_status
unregister-Same now c h db = elim (Bool-cases (unregister_conn c h).1) [
  | inl t ↦ rw t (refl, refl)
  | inr f ↦ rw f (refl, refl)
]

-- What a step makes of the messages.
abbrev pub Advances : State → State → Type 0
Advances a b = InvDb b.db × Each Follows a.db.messages b.db.messages

-- A call that leaves messages and ledger.
same :
    (db after : Db)
    → SameMessages db after
    → InvDb db
    → InvDb after × Each Follows db.messages after.messages
same db after s v =
    let (i, f) = Keeps-same db.messages after.messages db.sends after.sends s in (i v, f)

-- Over each call, of which the purge is none, the invariant of the messages stays, and each message follows the
-- diagram: its status moves along it, an attempt is counted where it is handed to a device and
-- nowhere else, and what the client submitted stays.
pub Step-Advances : (a b : State) → Step a b → InvDb a.db → Advances a b
Step-Advances a b (Step.work e st stored) v =
    (dispatch_one-Inv e st stored v, dispatch_one-Follows e st v)
Step-Advances a b (Step.frame e device f st) v =
    (handle_frame-Inv e device f st v, handle_frame-Follows e device f st)
Step-Advances a b (Step.tick wait now st) v =
    (reap-Inv wait now st.db v, reap-Follows wait now st.db)
Step-Advances a b (Step.submit w client req st fresh) v =
    (submit_message-Inv w st.db fresh v client req, submit_message-Follows w st.db client req)
Step-Advances a b (Step.cancel now pick client id st) v = (
  cancel_message-Inv now pick client id st.db st.hub v,
  cancel_message-Follows now pick client id st.db st.hub,
)
Step-Advances a b (Step.ack now device r st) v =
    let (i, f) = device_ack-Keeps now device r st.db in (i v, f)
Step-Advances a b (Step.report now device r st) v =
    let (i, f) = device_delivery-Keeps now device r st.db in (i v, f)
Step-Advances a b (Step.sims now ids device r st) v =
    same st.db (report_sims now ids device r st.db).1 (report_sims-Same now ids device r st.db) v
Step-Advances a b (Step.quota now device q st) v =
    same st.db (device_set_quota now device q st.db).1 (device_set_quota-Same now device q st.db) v
Step-Advances a b (Step.token now device t st) v =
    same st.db (register_token now device t st.db).1 (register_token-Same now device t st.db) v
Step-Advances a b (Step.enroll w r st) v =
    same st.db (enroll_device w r st.db).1 (enroll_device-Same w r st.db) v
Step-Advances a b (Step.connect now serial device st) v =
    same st.db (serve now serial device st.hub st.db).1 (serve-Same now serial device st.hub st.db)
      v
Step-Advances a b (Step.leave now c st) v =
    same st.db (unregister now c st.hub st.db).1 (unregister-Same now c st.hub st.db) v
Step-Advances a b (Step.console e cookie act c st d h fresh) v =
    let (i, f) = request-Keeps e c fresh cookie act in rw (← d) (i (rw d v), f)

-- After any sequence of such calls and purges, every message has at most its maximum of attempts, less than that
-- where it waits; and every message whose command may be on its way, or went, has a SIM, a device, a
-- time of dispatch and a ledger row, if this holds at the start.
pub Reachable-Inv : (a b : State) → Reachable a b → InvDb a.db → InvDb b.db
Reachable-Inv a b (Reachable.here st) v = v
Reachable-Inv a b (Reachable.next x y z r s) v = (Step-Advances y z s (Reachable-Inv x y r v)).0
Reachable-Inv a b (Reachable.purged x y cutoff r) v = purge-Inv cutoff y.db (Reachable-Inv x y r v)
