-- ===== src/Dispatch/Send/Follows.antt =====
-- What `dispatchOne` (server/internal/dispatch/dispatcher.go) makes of each message.
use mathlib.Core.Bool.{false≢true}
use wsms_gateway.Base.{
  ℕ, ◌+◌, ◌≡◌, refl, sym, ◌∙◌, true, false, ◌⊎◌, List, arith, ◌==◌, ltb, In, In-same_key, first-In,
  IsKeyed, by_key-update_where, ==_iff, update_where, Option-cases, Bool-cases, inl, inr,
}
use wsms_gateway.Models.Enums.{MessageStatus, is_queued}
use wsms_gateway.Models.Records.{Text, Message, Db}
use wsms_gateway.Text.{text}
use wsms_gateway.Router.Engine.{Choice, RouteError, Result, best, release}
use wsms_gateway.Router.Engine.Reserve.{best_sound}
use wsms_gateway.Router.Engine.Promise.{Routes}
use wsms_gateway.Router.Engine.Route.{route-Routes}
use wsms_gateway.Dispatch.State.{
  State, Env, now_of, message_key, with_status, set_status, terminate,
}
use wsms_gateway.Dispatch.Invariant.{InvDb}
use wsms_gateway.Dispatch.Lifecycle.{Follows, Follows-refl, Each, Each-same, Each-update}
use wsms_gateway.Dispatch.Send.{
  claimable, older, claimed, claim, wake_for, deliver_command, command_of, insert_send, pinned, pin,
  unreachable, hand_over, routed, process, dispatch_one,
}
use wsms_gateway.Dispatch.Send.Preserves.{
  Routes-Same, wake_for-Same, deliver_command-db, claimable_queued,
}

-- The message that was claimed is handed over, waits again or is EXPIRED; others stay.
pub data Fate (now : ℕ) (m after : Message) : Type 0 where
  handed : (c : Choice) → after ≡ pinned now c m → Fate now m after
  waits : (reason : Text) → after ≡ with_status now MessageStatus.queued reason m → Fate now m after
  late : (reason : Text) → after ≡ with_status now MessageStatus.expired reason m → Fate now m after

abbrev Moved : ℕ → ℕ → Message → Message → Type 0
Moved now k m after =
    (((m.id == k) ≡ true) × Fate now m after) ⊎ (((m.id == k) ≡ false) × (after ≡ m))

-- One statement for the message that was claimed.
pub record Updated (now k : ℕ) (xs ys : List Message) : Type 0 where
  pub change : Message → Message
  pub keyed : (m : Message) → message_key (change m) ≡ message_key m
  pub fate : (m : Message) → Fate now m (change m)
  pub rows : ys ≡ update_where (λ m. m.id == k) change xs

by_update :
    (now k : ℕ) (f : Message → Message) (xs ys : List Message)
    → ((m : Message) → message_key (f m) ≡ message_key m)
    → ((m : Message) → Fate now m (f m))
    → ys ≡ update_where (λ m. m.id == k) f xs
    → Updated now k xs ys
by_update now k f xs ys keyed fate new = record {
  change = f;
  keyed = keyed;
  fate = fate;
  rows = new;
}

Each-Moved : (now k : ℕ) (xs ys : List Message) → Updated now k xs ys → Each (Moved now k) xs ys
Each-Moved now k xs ys u =
    let f = u.change in
    let keyed = u.keyed in
    let fate = u.fate in
    let new = u.rows in
    Each-update (Moved now k) xs ys (λ m. m.id == k) f keyed
      (λ m. elim (Bool-cases (m.id == k)) [
        | inl t ↦ rw t (inl (refl, fate m))
        | inr n ↦ rw n (inr (refl, refl))
      ])
      new

module _ (e : Env) (msg : Message) where
  abbrev Becomes : State → State → Type 0
  Becomes st after = Updated (now_of e) msg.id st.db.messages after.db.messages

  hand_over-Updated :
      (c : Choice) (db : Db) (st : State)
      → db.messages ≡ st.db.messages
      → Becomes st (hand_over e msg c (record st { db = db }))
  unfolding hand_over pin unreachable insert_send set_status release
  hand_over-Updated c db st kept =
      let ledger : State = record st { db = insert_send e msg c db } in
      let same = deliver_command-db e c.device_id (command_of msg c) ledger in
      elim (Bool-cases (deliver_command e c.device_id (command_of msg c) ledger).1) [
        | inl sent ↦
            rw (sent, same)
              (by_update (now_of e) msg.id (pinned (now_of e) c) st.db.messages _ (λ m. refl)
                (λ m. Fate.handed c refl) (rw kept refl))
        | inr failed ↦
            rw (failed, same)
              (by_update (now_of e) msg.id
                (with_status (now_of e) MessageStatus.queued
                  (text "device unreachable at dispatch"))
                st.db.messages _ (λ m. refl) (λ m. Fate.waits _ refl) (rw kept refl))
      ]

  requeue-Updated :
      (reason : Text) (st mid : State)
      → mid.db.messages ≡ st.db.messages
      → Becomes st
          (record mid { db = set_status (now_of e) msg.id MessageStatus.queued reason mid.db })
  unfolding set_status
  requeue-Updated reason st mid kept =
      by_update (now_of e) msg.id (with_status (now_of e) MessageStatus.queued reason)
        st.db.messages _ (λ m. refl) (λ m. Fate.waits reason refl) (rw kept refl)

  routed-Updated :
      (r : Result Choice × Db) (st : State)
      → Routes e.engine msg st.db r
      → Becomes st (routed e msg r st)
  unfolding routed
  routed-Updated (Result.ok c, db) st t =
      hand_over-Updated c db st (Routes-Same e.engine msg st.db (Result.ok c, db) t).0
  routed-Updated (Result.err RouteError.no_capacity, db) st t =
      requeue-Updated _ st (wake_for e msg (record st { db = db })) (
        (wake_for-Same e msg (record st { db = db })).0
        ∙ (Routes-Same e.engine msg st.db (Result.err RouteError.no_capacity, db) t).0)
  routed-Updated (Result.err RouteError.db_error, db) st t =
      requeue-Updated _ st (record st { db = db })
        (Routes-Same e.engine msg st.db (Result.err RouteError.db_error, db) t).0

  pub process-Updated : (st : State) → Becomes st (process e msg st)
  unfolding process terminate set_status
  process-Updated st = elim (Bool-cases (ltb msg.expires_at (now_of e + e.min_remaining_ttl))) [
    | inl short ↦ rw short (
        by_update (now_of e) msg.id
          (with_status (now_of e) MessageStatus.expired (text "insufficient remaining TTL"))
          st.db.messages _ (λ m. refl) (λ m. Fate.late _ refl) refl)
    | inr live ↦ rw live (routed-Updated _ st (route-Routes e.engine e.fallback msg st.db))
  ]

-- The claim and what becomes of the claimed message, as one move.
claimed-Follows :
    (now : ℕ) (m after : Message)
    → is_queued m.status ≡ true
    → Fate now (claimed now m) after
    → Follows m after
unfolding claimed pinned
claimed-Follows now m after q (Fate.handed c h) = rw h (ground arith)
claimed-Follows now m after q (Fate.waits reason h) = rw h (ground arith)
claimed-Follows now m after q (Fate.late reason h) = rw h (ground arith)

module _ (now k : ℕ) (m after : Message) where
  taken_Follows :
      is_queued m.status ≡ true
      → (m.id == k) ≡ true
      → Moved now k (claimed now m) after
      → Follows m after
  unfolding claimed
  taken_Follows q t (inl (t', fate)) = claimed-Follows now m after q fate
  taken_Follows q t (inr (n, same)) = absurd (false≢true (sym n ∙ t))

  left_Follows : (m.id == k) ≡ false → Moved now k m after → Follows m after
  left_Follows n (inl (t, fate)) = absurd (false≢true (sym n ∙ t))
  left_Follows n (inr (n', same)) = rw same (Follows-refl m)

claim-Follows :
    (e : Env) (q : Message) (xs ys : List Message)
    → IsKeyed message_key xs
    → In q xs
    → claimable e q ≡ true
    → Each (Moved (now_of e) q.id) (update_where (λ x. x.id == q.id) (claimed (now_of e)) xs) ys
    → Each Follows xs ys
unfolding claimed
claim-Follows e q xs ys keyed row ok moved id m found =
    let first =
      by_key-update_where message_key (λ (x : Message). x.id == q.id) (claimed (now_of e)) id xs
        (λ x. refl) in
    elim (Bool-cases (m.id == q.id)) [
      | inl t ↦
          let waits : is_queued m.status ≡ true =
            rw
              (In-same_key message_key m q xs keyed (first-In _ m xs found) row
                ((==_iff m.id q.id).0 t))
              (claimable_queued e q ok) in
          let (m', there, r) = moved id (claimed (now_of e) m) (first ∙ rw (found, t) refl) in
          (m', there, taken_Follows (now_of e) q.id m m' waits t r)
      | inr n ↦
          let (m', there, r) = moved id m (first ∙ rw (found, n) refl) in
          (m', there, left_Follows (now_of e) q.id m m' n r)
    ]

-- Each message follows the diagram over a call of `dispatchOne`.
pub dispatch_one-Follows :
    (e : Env) (st : State)
    → InvDb st.db
    → Each Follows st.db.messages (dispatch_one e st).0.db.messages
unfolding dispatch_one claim
dispatch_one-Follows e st v = elim (Option-cases (best older (claimable e) st.db.messages)) [
  | inl idle ↦
      rw (idle, dispatch_one, claim)
        (Each-same Follows st.db.messages st.db.messages Follows-refl refl)
  | inr (q, taken) ↦
      let (row, ok) = best_sound older (claimable e) st.db.messages q taken in
      rw (taken, dispatch_one, claim)
        (claim-Follows e q st.db.messages _ v.keyed row ok
          (Each-Moved (now_of e) q.id _ _ (process-Updated e (claimed (now_of e) q) _)))
]
