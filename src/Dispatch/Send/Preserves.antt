-- ===== src/Dispatch/Send/Preserves.antt =====
-- `dispatchOne` (server/internal/dispatch/dispatcher.go) keeps the invariant of the messages.
use mathlib.Core.Bool.{false≢true}
use wsms_gateway.Base.{
  ℕ, ◌+◌, ◌≡◌, refl, sym, ap, ◌∙◌, subst, true, not, ◌||◌, some, List, [], ◌∷◌, ◌++◌, arith, ◌==◌,
  ltb, In, In-same_key, In-update_where, select, update_where, Option-cases, Bool-cases, inl, inr,
}
use wsms_gateway.Models.Enums.{MessageStatus, is_queued}
use wsms_gateway.Models.Records.{Device, Message, MessageSend, Db}
use wsms_gateway.Ws.Protocol.{SendCommandData}
use wsms_gateway.Router.Engine.{World, Choice, RouteError, Result, best, release}
use wsms_gateway.Router.Engine.Reserve.{best_sound}
use wsms_gateway.Router.Engine.Promise.{Routes}
use wsms_gateway.Router.Engine.Route.{route-Routes}
use wsms_gateway.Dispatch.State.{State, Env, now_of, message_key, set_status}
use wsms_gateway.Dispatch.Send.{
  claimable, older, claimed, claim, is_candidate, take_devices, wake_one, wake_each, wake_for,
  deliver_command, command_of, send_row, insert_send, pinned, pin, unreachable, hand_over, routed,
  process, dispatch_one,
}
use wsms_gateway.Dispatch.Invariant.{
  has_send, Inv, InvDb, IsFresh, SameMessages, Same-Inv, update-Inv, delete-Inv, set_status-Inv,
  terminate-Inv,
}

pub Routes-Same :
    (w : World) (msg : Message) (db : Db) (r : Result Choice × Db)
    → Routes w msg db r
    → SameMessages db r.1
Routes-Same w msg db (Result.ok c, after) t = rw t.charged (refl, refl)
Routes-Same w msg db (Result.err RouteError.no_capacity, after) t = rw t.unchanged (refl, refl)
Routes-Same w msg db (Result.err RouteError.db_error, after) t = rw t (refl, refl)

wake_one-Same : (e : Env) (d : Device) (st : State) → SameMessages st.db (wake_one e d st).db
unfolding wake_one
wake_one-Same e d st = ground arith

wake_each-Same :
    (e : Env) (ds : List Device) (st : State) → SameMessages st.db (wake_each e ds st).db
unfolding wake_each
wake_each-Same e [] st = (refl, refl)
wake_each-Same e (d ∷ ds) st =
    let (m, s) = wake_each-Same e ds (wake_one e d st) in
    let (m', s') = wake_one-Same e d st in (m ∙ m', s ∙ s')

pub wake_for-Same :
    (e : Env) (msg : Message) (st : State) → SameMessages st.db (wake_for e msg st).db
unfolding wake_for
wake_for-Same e msg st =
    ground
      (arith, wake_each-Same e (take_devices 5 (select (is_candidate st.db msg) st.db.devices)) st)

pub deliver_command-db :
    (e : Env) (device : ℕ) (sc : SendCommandData) (st : State)
    → (deliver_command e device sc st).0.db ≡ st.db
unfolding deliver_command
deliver_command-db e device sc st = ground arith

has_send-append :
    (id : ℕ) (sends : List MessageSend) (row : MessageSend)
    → has_send id (sends ++ row ∷ []) ≡ (has_send id sends || row.message_id == id)
has_send-append id [] row = ground arith
has_send-append id (s ∷ sends) row = ground (arith, has_send-append id sends row)

pub has_send-insert :
    (e : Env) (msg : Message) (c : Choice) (db : Db)
    → e.ledger_stored ≡ true
    → has_send msg.id (insert_send e msg c db).sends ≡ true
unfolding insert_send
has_send-insert e msg c db stored = elim (Bool-cases (has_send msg.id db.sends)) [
  | inl t ↦ rw t t
  | inr f ↦
      rw (f, stored)
        (rw (has_send-append msg.id db.sends (send_row (now_of e) msg c), f) (ground arith))
]

has_send_mono :
    (e : Env) (id : ℕ) (msg : Message) (c : Choice) (db : Db)
    → has_send id db.sends ≡ true
    → has_send id (insert_send e msg c db).sends ≡ true
unfolding insert_send
has_send_mono e id msg c db h =
    elim (Bool-cases (has_send msg.id db.sends || not e.ledger_stored)) [
      | inl t ↦ rw t h
      | inr f ↦ rw f (rw (has_send-append id db.sends (send_row (now_of e) msg c), h) refl)
    ]

insert_send-Inv :
    (e : Env) (msg : Message) (c : Choice) (db : Db)
    → InvDb db
    → Inv db.messages (insert_send e msg c db).sends
insert_send-Inv e msg c db v = record {
  keyed = v.keyed;
  each = λ m i. record {
    capped = (v.each m i).capped;
    fresh = (v.each m i).fresh;
    assigned = (v.each m i).assigned;
    ledgered = λ q. has_send_mono e m.id msg c db ((v.each m i).ledgered q);
  };
}

pin-Inv :
    (now : ℕ) (msg : Message) (c : Choice) (db : Db)
    → has_send msg.id db.sends ≡ true
    → IsFresh msg.id db.messages
    → InvDb db
    → InvDb (pin now msg c db)
unfolding pin
pin-Inv now msg c db sent fresh v =
    update-Inv (λ m. m.id == msg.id) (pinned now c) db.messages db.sends (λ m. refl)
      (λ m i t.
        let same : m.id ≡ msg.id = ground arith in
        let left = fresh m i same in
        record {
          capped = ground arith;
          fresh = λ q. absurd (false≢true q);
          assigned = λ q. (refl, refl, refl);
          ledgered = λ q. rw same sent;
        })
      v

unreachable-Inv :
    (now : ℕ) (msg : Message) (c : Choice) (db : Db)
    → IsFresh msg.id db.messages
    → InvDb db
    → InvDb (unreachable now msg c db)
unfolding unreachable set_status release
unreachable-Inv now msg c db fresh v =
    delete-Inv msg.id _ db.messages db.sends (λ m. refl)
      (λ m i e. (refl, (v.each m i).capped, λ q. fresh m i e)) v

Fresh-Same :
    (id : ℕ) (db after : Db)
    → SameMessages db after
    → IsFresh id db.messages
    → IsFresh id after.messages
Fresh-Same id db after (m, s) fresh = rw m fresh

hand_over-Inv :
    (e : Env) (msg : Message) (c : Choice) (st : State)
    → e.ledger_stored ≡ true
    → IsFresh msg.id st.db.messages
    → InvDb st.db
    → InvDb (hand_over e msg c st).db
unfolding hand_over
hand_over-Inv e msg c st stored fresh v =
    let ledger : State = record st { db = insert_send e msg c st.db } in
    let same = deliver_command-db e c.device_id (command_of msg c) ledger in
    let entered = insert_send-Inv e msg c st.db v in
    elim (Bool-cases (deliver_command e c.device_id (command_of msg c) ledger).1) [
      | inl sent ↦ rw sent (
          subst (λ d. InvDb (pin (now_of e) msg c d)) (sym same)
            (pin-Inv (now_of e) msg c ledger.db (has_send-insert e msg c st.db stored) fresh
              entered))
      | inr failed ↦ rw failed (
          subst (λ d. InvDb (unreachable (now_of e) msg c d)) (sym same)
            (unreachable-Inv (now_of e) msg c ledger.db fresh entered))
    ]

routed-Inv :
    (e : Env) (msg : Message) (r : Result Choice × Db) (st : State)
    → Routes e.engine msg st.db r
    → e.ledger_stored ≡ true
    → IsFresh msg.id st.db.messages
    → InvDb st.db
    → InvDb (routed e msg r st).db
unfolding routed
routed-Inv e msg (Result.ok c, db) st t stored fresh v =
    let same = Routes-Same e.engine msg st.db (Result.ok c, db) t in
    hand_over-Inv e msg c (record st { db = db }) stored (Fresh-Same msg.id st.db db same fresh)
      (Same-Inv st.db db same v)
routed-Inv e msg (Result.err RouteError.no_capacity, db) st t stored fresh v =
    let same = Routes-Same e.engine msg st.db (Result.err RouteError.no_capacity, db) t in
    let after = wake_for e msg (record st { db = db }) in
    let woken = wake_for-Same e msg (record st { db = db }) in
    set_status-Inv _ msg.id MessageStatus.queued _ after.db refl
      (λ q. Fresh-Same msg.id db after.db woken (Fresh-Same msg.id st.db db same fresh))
      (Same-Inv db after.db woken (Same-Inv st.db db same v))
routed-Inv e msg (Result.err RouteError.db_error, db) st t stored fresh v =
    let same = Routes-Same e.engine msg st.db (Result.err RouteError.db_error, db) t in
    set_status-Inv _ msg.id MessageStatus.queued _ db refl
      (λ q. Fresh-Same msg.id st.db db same fresh) (Same-Inv st.db db same v)

process-Inv :
    (e : Env) (msg : Message) (st : State)
    → e.ledger_stored ≡ true
    → IsFresh msg.id st.db.messages
    → InvDb st.db
    → InvDb (process e msg st).db
unfolding process
process-Inv e msg st stored fresh v =
    elim (Bool-cases (ltb msg.expires_at (now_of e + e.min_remaining_ttl))) [
      | inl late ↦ rw late (terminate-Inv _ (some msg) _ _ _ st.db refl refl v)
      | inr live ↦
          rw live
            (routed-Inv e msg _ st (route-Routes e.engine e.fallback msg st.db) stored fresh v)
    ]

claimed_row :
    (now id : ℕ) (messages : List Message) (sends : List MessageSend)
    → ((m : Message) → In m messages → m.id ≡ id → is_queued m.status ≡ true)
    → Inv messages sends
    → Inv (update_where (λ x. x.id == id) (claimed now) messages) sends
      × IsFresh id (update_where (λ x. x.id == id) (claimed now) messages)
unfolding claimed
claimed_row now id messages sends queued v = (
  update-Inv (λ x. x.id == id) (claimed now) messages sends (λ m. refl)
      (λ m i t.
        let sound = v.each m i in
        let waits = queued m i (ground arith) in
        record {
          capped = sound.capped;
          fresh = λ q. ground arith;
          assigned = λ q. absurd (false≢true q);
          ledgered = λ q. absurd (false≢true q);
        })
      v,
  λ b i same.
      let (a, j, e) = In-update_where (λ x. x.id == id) (claimed now) b messages i in
      let sound = v.each a j in
      let waits = queued a j in
      elim (Bool-cases (a.id == id)) [
        | inl t ↦ rw (e, t) (ground (arith, waits (ground arith)))
        | inr n ↦ absurd (ground (arith, ap (λ (m : Message). m.id) e))
      ],
)

pub claimable_queued : (e : Env) (m : Message) → claimable e m ≡ true → is_queued m.status ≡ true
unfolding claimable
claimable_queued e m h = ground arith

-- A call of `dispatchOne` keeps the invariant, whatever it meets.
pub dispatch_one-Inv :
    (e : Env) (st : State) → e.ledger_stored ≡ true → InvDb st.db → InvDb (dispatch_one e st).0.db
unfolding dispatch_one claim
dispatch_one-Inv e st stored v = elim (Option-cases (best older (claimable e) st.db.messages)) [
  | inl idle ↦ rw (idle, dispatch_one, claim) v
  | inr (m, found) ↦
      let (row, ok) = best_sound older (claimable e) st.db.messages m found in
      let (kept, fresh) =
        claimed_row (now_of e) m.id st.db.messages st.db.sends
          (λ x i same.
            rw (In-same_key message_key x m st.db.messages v.keyed i row same)
              (claimable_queued e m ok))
          v in
      rw (found, dispatch_one, claim) (process-Inv e (claimed (now_of e) m) _ stored fresh kept)
]
