-- ===== src/Dispatch/Send/Untouched.antt =====
-- `dispatchOne` (server/internal/dispatch/dispatcher.go) touches one message, which was QUEUED.
use mathlib.Core.Bool.{false≢true}
use wsms_gateway.Base.{
  ℕ, ◌+◌, ◌≡◌, refl, sym, ap, ◌∙◌, true, false, some, List, [], ◌∷◌, arith, ◌==◌, ltb, first_sound,
  first-In, In-same_key, IsKeyed, by_key, update_where, Option-cases, Bool-cases, inl, inr,
}
use wsms_gateway.Models.Enums.{MessageStatus, EventType, is_queued}
use wsms_gateway.Models.Records.{Text, Message, Db}
use wsms_gateway.Router.Engine.{Choice, RouteError, Result, best, release}
use wsms_gateway.Router.Engine.Reserve.{best_sound}
use wsms_gateway.Router.Engine.Promise.{Routes}
use wsms_gateway.Router.Engine.Route.{route-Routes}
use wsms_gateway.Dispatch.State.{
  State, Env, now_of, message_key, find_message, set_status, terminate,
}
use wsms_gateway.Dispatch.Send.{
  claimable, older, claimed, claim, wake_for, deliver_command, command_of, insert_send, pin,
  unreachable, hand_over, routed, process, dispatch_one,
}
use wsms_gateway.Dispatch.Send.Preserves.{
  Routes-Same, wake_for-Same, deliver_command-db, claimable_queued,
}

-- A statement for one id leaves the rows of other ids.
pub by_id-update_other :
    (k id : ℕ) (f : Message → Message) (messages : List Message)
    → ((m : Message) → message_key (f m) ≡ message_key m)
    → (id == k) ≡ false
    → by_key message_key id (update_where (λ m. m.id == k) f messages)
      ≡ by_key message_key id messages
by_id-update_other k id f [] same other = refl
by_id-update_other k id f (m ∷ messages) same other =
    ground (arith, same m, by_id-update_other k id f messages same other)

-- Only the message `k` may differ.
abbrev pub Only : ℕ → Db → Db → Type 0
Only k db after = (id : ℕ) → (id == k) ≡ false → find_message id after ≡ find_message id db

pub Only-same : (k : ℕ) (db after : Db) → after.messages ≡ db.messages → Only k db after
Only-same k db after m id other = rw m refl

pub set_status-Only :
    (now id : ℕ) (status : MessageStatus) (reason : Text) (db : Db)
    → Only id db (set_status now id status reason db)
unfolding set_status
set_status-Only now id status reason db other ne =
    by_id-update_other id other _ db.messages (λ m. refl) ne

terminate-Only :
    (now : ℕ) (m : Message) (status : MessageStatus) (ev : EventType) (reason : Text) (db : Db)
    → Only m.id db (terminate now (some m) status ev reason db)
unfolding terminate
terminate-Only now m status ev reason db other ne =
    set_status-Only now m.id status reason db other ne

pin-Only : (now : ℕ) (msg : Message) (c : Choice) (db : Db) → Only msg.id db (pin now msg c db)
unfolding pin
pin-Only now msg c db other ne = by_id-update_other msg.id other _ db.messages (λ m. refl) ne

unreachable-Only :
    (now : ℕ) (msg : Message) (c : Choice) (db : Db) → Only msg.id db (unreachable now msg c db)
unfolding unreachable set_status release
unreachable-Only now msg c db other ne =
    by_id-update_other msg.id other _ db.messages (λ m. refl) ne

hand_over-Only :
    (e : Env) (msg : Message) (c : Choice) (st : State)
    → Only msg.id st.db (hand_over e msg c st).db
unfolding hand_over insert_send
hand_over-Only e msg c st =
    let ledger : State = record st { db = insert_send e msg c st.db } in
    let entered = Only-same msg.id st.db ledger.db refl in
    let same = deliver_command-db e c.device_id (command_of msg c) ledger in
    elim (Bool-cases (deliver_command e c.device_id (command_of msg c) ledger).1) [
      | inl t ↦ rw (t, same) (pin-Only (now_of e) msg c ledger.db)
      | inr f ↦ rw (f, same) (unreachable-Only (now_of e) msg c ledger.db)
    ]

routed-Only :
    (e : Env) (msg : Message) (r : Result Choice × Db) (st : State)
    → Routes e.engine msg st.db r
    → Only msg.id st.db (routed e msg r st).db
unfolding routed
routed-Only e msg (Result.ok c, db) st t id other =
    let same = Routes-Same e.engine msg st.db (Result.ok c, db) t in
    hand_over-Only e msg c (record st { db = db }) id other
    ∙ Only-same msg.id st.db db same.0 id other
routed-Only e msg (Result.err RouteError.no_capacity, db) st t id other =
    let same = Routes-Same e.engine msg st.db (Result.err RouteError.no_capacity, db) t in
    let woken = wake_for e msg (record st { db = db }) in
    let woke = (wake_for-Same e msg (record st { db = db })).0 in
    set_status-Only (now_of e) msg.id MessageStatus.queued _ woken.db id other
    ∙ (Only-same msg.id db woken.db woke id other ∙ Only-same msg.id st.db db same.0 id other)
routed-Only e msg (Result.err RouteError.db_error, db) st t id other =
    let same = Routes-Same e.engine msg st.db (Result.err RouteError.db_error, db) t in
    set_status-Only (now_of e) msg.id MessageStatus.queued _ db id other
    ∙ Only-same msg.id st.db db same.0 id other

process-Only : (e : Env) (msg : Message) (st : State) → Only msg.id st.db (process e msg st).db
unfolding process
process-Only e msg st = elim (Bool-cases (ltb msg.expires_at (now_of e + e.min_remaining_ttl))) [
  | inl late ↦ rw late (terminate-Only _ msg _ _ _ st.db)
  | inr live ↦ rw live (routed-Only e msg _ st (route-Routes e.engine e.fallback msg st.db))
]

-- A call of `dispatchOne` leaves every message that is not QUEUED as it is: what is pinned, SENT or
-- terminal is never routed again by it.
pub dispatch_one_pinned :
    (e : Env) (st : State) (id : ℕ) {m : Message}
    → IsKeyed message_key st.db.messages
    → find_message id st.db ≡ some m
    → is_queued m.status ≡ false
    → find_message id (dispatch_one e st).0.db ≡ some m
unfolding dispatch_one claim claimed
dispatch_one_pinned e st id {m} u found busy =
    elim (Option-cases (best older (claimable e) st.db.messages)) [
      | inl idle ↦ rw (idle, dispatch_one, claim) found
      | inr (q, taken) ↦
          let (row, ok) = best_sound older (claimable e) st.db.messages q taken in
          let waits = claimable_queued e q ok in
          let same =
            In-same_key message_key m q st.db.messages u (first-In _ m st.db.messages found) row in
          let self : (m.id == id) ≡ true = first_sound (λ x. x.id == id) st.db.messages found in
          let other : (id == q.id) ≡ false = distinct q same waits self in
          let db : Db = record st.db {
            messages = update_where (λ x. x.id == q.id) (claimed (now_of e)) st.db.messages;
          } in
          let kept =
            by_id-update_other q.id id (claimed (now_of e)) st.db.messages (λ x. refl) other in
          let rest = process-Only e (claimed (now_of e) q) (record st { db = db }) in
          rw (taken, dispatch_one, claim) (rest id other ∙ (kept ∙ found))
    ]
  where
    distinct :
        (q : Message)
        → (m.id ≡ q.id → m ≡ q)
        → is_queued q.status ≡ true
        → (m.id == id) ≡ true
        → (id == q.id) ≡ false
    distinct q same waits self = elim (Bool-cases (id == q.id)) [
      | inl t ↦
          let one = same (ground arith) in
          absurd (false≢true (sym busy ∙ (ap (λ (x : Message). is_queued x.status) one ∙ waits)))
      | inr f ↦ f
    ]
