-- ===== src/Dispatch/Send/Outcome.antt =====
-- What `dispatchOne` (server/internal/dispatch/dispatcher.go) does with the message that it claims:
-- all of a dispatch, or none of it.
use mathlib.Core.Option
use wsms_gateway.Base.{
  ℕ, ◌+◌, ◌≡◌, refl, sym, subst, ap, ◌∙◌, true, false, ◌⊎◌, Option, some, List, [], ◌∷◌, arith,
  ◌==◌, ltb, In, first_sound, by_key, by_key-update_where, select, update_where, Option-cases,
  Bool-cases, inl, inr,
}
use wsms_gateway.Models.Enums.{MessageStatus, EventType}
use wsms_gateway.Models.Records.{Text, Device, Sim, Message, Db}
use wsms_gateway.Text.{text}
use wsms_gateway.Router.Engine.{
  Choice, RouteError, Result, eligible, route, release, choice_of, segments_of,
}
use wsms_gateway.Router.Engine.Promise.{Routed, Routes}
use wsms_gateway.Router.Engine.Route.{route-Routes}
use wsms_gateway.Router.Engine.Quota.{counters, release-route}
use wsms_gateway.Dispatch.State.{
  State, Env, now_of, message_key, find_message, with_status, set_status, terminate,
}
use wsms_gateway.Dispatch.Invariant.{has_send, SameMessages, has_send-delete_self}
use wsms_gateway.Dispatch.Send.{
  wake_for, wake_each, wake_one, note_miss, is_candidate, take_devices, deliver_command, command_of,
  insert_send, pinned, pin, unreachable, hand_over, routed, process,
}
use wsms_gateway.Dispatch.Send.Preserves.{
  Routes-Same, wake_for-Same, deliver_command-db, has_send-insert,
}
use wsms_gateway.Dispatch.Send.Delivery.{Delivered, Silent, deliver_sent, deliver_failed}

-- The whole of a dispatch: the message is pinned to an eligible SIM with one more attempt, it has
-- its ledger row where that can be stored, and its command went out once.
pub record Dispatched (e : Env) (msg : Message) (st after : State) : Type 0 where
  pub choice : Choice
  pub sim : Sim
  pub row : In sim st.db.sims
  pub fits : eligible e.engine st.db.devices [] (segments_of msg.segments) sim ≡ true
  pub chosen : record choice { on_net = false } ≡ choice_of sim
  pub pins :
      find_message msg.id after.db
      ≡ Option.map (pinned (now_of e) choice) (find_message msg.id st.db)
  pub ledger : e.ledger_stored ≡ true → has_send msg.id after.db.sends ≡ true
  pub delivered : Delivered e st.db.devices choice.device_id (command_of msg choice) st after

abbrev pub status_of : ℕ → Db → Option MessageStatus
status_of id db = Option.map (λ (m : Message). m.status) (find_message id db)

abbrev pub attempts_of : ℕ → Db → Option ℕ
attempts_of id db = Option.map (λ (m : Message). m.attempts) (find_message id db)

-- None of it: the message waits again or is EXPIRED, with the attempts that it had; no command
-- went out, and the counters of all SIMs are as they were.
pub record Held (msg : Message) (st after : State) : Type 0 where
  pub status : MessageStatus
  pub rest : (status ≡ MessageStatus.queued) ⊎ (status ≡ MessageStatus.expired)
  pub waits : status_of msg.id after.db ≡ Option.map (λ _. status) (status_of msg.id st.db)
  pub tried : attempts_of msg.id after.db ≡ attempts_of msg.id st.db
  pub silent : Silent st after
  pub counted : (k : ℕ) → counters k after.db ≡ counters k st.db
  pub ledger : has_send msg.id st.db.sends ≡ false → has_send msg.id after.db.sends ≡ false

abbrev pub Outcome : Env → Message → State → State → Type 0
Outcome e msg st after = Dispatched e msg st after ⊎ Held msg st after

-- A statement for the id of a message changes the row that is found.
pub find-by_id :
    (id : ℕ) (f : Message → Message) (messages : List Message)
    → ((m : Message) → message_key (f m) ≡ message_key m)
    → by_key message_key id (update_where (λ m. m.id == id) f messages)
      ≡ Option.map f (by_key message_key id messages)
find-by_id id f messages same =
    let row = by_key-update_where message_key (λ m. m.id == id) f id messages same in
    elim (Option-cases (by_key message_key id messages)) [
      | inl missing ↦ rw (row, missing) refl
      | inr (m, found) ↦
          let self = first_sound (λ x. x.id == id) messages found in rw (row, found, self) refl
    ]

-- What a change of status alone leaves.
requeued :
    (now id : ℕ) (status : MessageStatus) (reason : Text) (db : Db)
    → (status_of id (set_status now id status reason db)
        ≡ Option.map (λ _. status) (status_of id db))
      × (attempts_of id (set_status now id status reason db) ≡ attempts_of id db)
unfolding set_status
requeued now id status reason db =
    let row = find-by_id id (with_status now status reason) db.messages (λ m. refl) in
    elim (Option-cases (find_message id db)) [
      | inl missing ↦ rw (row, missing) (refl, refl)
      | inr (m, found) ↦ rw (row, found) (refl, refl)
    ]

pin-row :
    (e : Env) (msg : Message) (c : Choice) (db : Db)
    → find_message msg.id (pin (now_of e) msg c db)
      ≡ Option.map (pinned (now_of e) c) (find_message msg.id db)
unfolding pin
pin-row e msg c db = find-by_id msg.id (pinned (now_of e) c) db.messages (λ m. refl)

-- The command did not leave: the reserve and the ledger row are taken back.
taken_back :
    (e : Env) (msg : Message) (c : Choice) (st after : State) (db : Db)
    → db.messages ≡ st.db.messages
    → ((k : ℕ) → counters k (release (now_of e) c.sim_id msg.segments db) ≡ counters k st.db)
    → Silent st after
    → Held msg st (record after { db = unreachable (now_of e) msg c (insert_send e msg c db) })
unfolding unreachable insert_send release set_status
taken_back e msg c st after db kept back silent =
    let rows =
      requeued (now_of e) msg.id MessageStatus.queued (text "device unreachable at dispatch") db in
    record {
      status = MessageStatus.queued;
      rest = inl refl;
      waits = rows.0 ∙ rw kept refl;
      tried = rows.1 ∙ rw kept refl;
      silent = silent;
      counted = back;
      ledger = λ q. has_send-delete_self msg.id _;
    }

hand_over-Outcome :
    (e : Env) (msg : Message) (c : Choice) (db : Db) (st : State)
    → Routed e.engine msg st.db c db
    → ((k : ℕ) → counters k (release (now_of e) c.sim_id msg.segments db) ≡ counters k st.db)
    → Outcome e msg st (hand_over e msg c (record st { db = db }))
unfolding hand_over insert_send
hand_over-Outcome e msg c db st t back =
    let ledger : State = record st { db = insert_send e msg c db } in
    let same = deliver_command-db e c.device_id (command_of msg c) ledger in
    let kept = (Routes-Same e.engine msg st.db (Result.ok c, db) t).0 in
    let devices : db.devices ≡ st.db.devices = ap (λ (x : Db). x.devices) t.charged in
    elim (Bool-cases (deliver_command e c.device_id (command_of msg c) ledger).1) [
      | inl sent ↦
          rw (sent, same)
            (inl (record {
              choice = c;
              sim = t.sim;
              row = t.row;
              fits = t.fits;
              chosen = t.chosen;
              pins =
                  pin-row e msg c ledger.db
                  ∙ ap (λ ms. Option.map (pinned (now_of e) c) (by_key message_key msg.id ms)) kept;
              ledger = λ stored. has_send-insert e msg c db stored;
              delivered =
                  subst
                    (λ ds.
                      Delivered e ds c.device_id (command_of msg c) st
                        (deliver_command e c.device_id (command_of msg c) ledger).0)
                    devices (deliver_sent e c.device_id (command_of msg c) ledger sent);
            }))
      | inr failed ↦
          rw (failed, same)
            (inr (
              taken_back e msg c st (deliver_command e c.device_id (command_of msg c) ledger).0 db
                kept back (deliver_failed e c.device_id (command_of msg c) ledger failed)))
    ]

abbrev pub Idle : State → State → Type 0
Idle st after = (after.pushed ≡ st.pushed) × (after.hub ≡ st.hub) × (after.db.sims ≡ st.db.sims)

wake_one-Idle : (e : Env) (d : Device) (st : State) → Idle st (wake_one e d st)
unfolding wake_one note_miss
wake_one-Idle e d st = ground arith

wake_each-Idle : (e : Env) (ds : List Device) (st : State) → Idle st (wake_each e ds st)
unfolding wake_each
wake_each-Idle e [] st = (refl, refl, refl)
wake_each-Idle e (d ∷ ds) st =
    let (p, h, s) = wake_each-Idle e ds (wake_one e d st) in
    let (p', h', s') = wake_one-Idle e d st in (p ∙ p', h ∙ h', s ∙ s')

pub wake_for-Idle : (e : Env) (msg : Message) (st : State) → Idle st (wake_for e msg st)
unfolding wake_for
wake_for-Idle e msg st = elim (Bool-cases e.has_waker) [
  | inl t ↦
      rw t (wake_each-Idle e (take_devices 5 (select (is_candidate st.db msg) st.db.devices)) st)
  | inr f ↦ rw f (refl, refl, refl)
]

-- Only the status of the message changes.
Held-by_status :
    (now : ℕ) (msg : Message) (status : MessageStatus) (reason : Text) (st mid : State)
    → ((status ≡ MessageStatus.queued) ⊎ (status ≡ MessageStatus.expired))
    → Idle st mid
    → SameMessages st.db mid.db
    → Held msg st (record mid { db = set_status now msg.id status reason mid.db })
unfolding set_status
Held-by_status now msg status reason st mid rest (p, h, s) (ms, ss) =
    let rows = requeued now msg.id status reason mid.db in
    record {
      status = status;
      rest = rest;
      waits = rows.0 ∙ rw ms refl;
      tried = rows.1 ∙ rw ms refl;
      silent = (p, λ serial. rw h refl);
      counted = λ k. rw s refl;
      ledger = λ q. rw ss q;
    }

routed-Outcome :
    (e : Env) (msg : Message) (r : Result Choice × Db) (st : State)
    → route e.engine e.fallback msg st.db ≡ r
    → Routes e.engine msg st.db r
    → Outcome e msg st (routed e msg r st)
unfolding routed
routed-Outcome e msg (Result.ok c, db) st q t =
    hand_over-Outcome e msg c db st t
      (λ k. release-route e.engine e.fallback msg st.db db c (now_of e) k q)
routed-Outcome e msg (Result.err RouteError.no_capacity, db) st q t =
    let same = Routes-Same e.engine msg st.db (Result.err RouteError.no_capacity, db) t in
    let mid = wake_for e msg (record st { db = db }) in
    let (p, h, s) = wake_for-Idle e msg (record st { db = db }) in
    let (m, l) = wake_for-Same e msg (record st { db = db }) in
    inr (
      Held-by_status (now_of e) msg MessageStatus.queued _ st mid (inl refl)
        (p, h, rw (sym t.unchanged) s) (m ∙ same.0, l ∙ same.1))
routed-Outcome e msg (Result.err RouteError.db_error, db) st q t =
    let same = Routes-Same e.engine msg st.db (Result.err RouteError.db_error, db) t in
    inr (
      Held-by_status (now_of e) msg MessageStatus.queued _ st (record st { db = db }) (inl refl)
        (refl, refl, rw t refl) same)

expired-Held :
    (now : ℕ) (msg : Message) (st : State)
    → Held msg st (record st {
      db =
          terminate now
            (some msg)
            MessageStatus.expired
            EventType.expired
            (text "insufficient remaining TTL")
            st.db;
    })
unfolding terminate set_status
expired-Held now msg st =
    let rows =
      requeued now msg.id MessageStatus.expired (text "insufficient remaining TTL") st.db in
    record {
      status = MessageStatus.expired;
      rest = inr refl;
      waits = rows.0;
      tried = rows.1;
      silent = (refl, λ serial. refl);
      counted = λ k. refl;
      ledger = λ q. q;
    }

pub process-Outcome : (e : Env) (msg : Message) (st : State) → Outcome e msg st (process e msg st)
unfolding process
process-Outcome e msg st = elim (Bool-cases (ltb msg.expires_at (now_of e + e.min_remaining_ttl))) [
  | inl late ↦ rw late (inr (expired-Held (now_of e) msg st))
  | inr live ↦ rw live (routed-Outcome e msg _ st refl (route-Routes e.engine e.fallback msg st.db))
]
