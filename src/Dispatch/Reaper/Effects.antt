-- ===== src/Dispatch/Reaper/Effects.antt =====
-- What one tick of the reaper (server/internal/dispatch/dispatcher.go) does to each message.
use mathlib.Core.Option
use wsms_gateway.Base.{
  ℕ, ◌+◌, ◌≡◌, refl, ap, ◌∙◌, true, Option, none, some, arith, if◌then◌else◌, update_where, subst,
  inl, inr, ◌⊎◌, ◌<◌, ◌≤◌, by_key-update_where, Option-cases,
}
use wsms_gateway.Models.Enums.{MessageStatus, is_waiting, is_pinned, is_terminal}
use wsms_gateway.Models.Records.{Message, Db}
use wsms_gateway.Dispatch.State.{message_key, find_message}
use wsms_gateway.Dispatch.Reaper.{
  is_overdue, is_stuck, is_unconfirmed, expire, recover, give_up, reap,
}

-- One message under a tick: at most one of the three statements applies to it.
abbrev pub reaped : ℕ → ℕ → Message → Message
reaped wait now m =
    if is_overdue now m
    then expire now m
    else if is_stuck now m
    then recover now m
    else if is_unconfirmed wait now m
    then give_up now m
    else m

reap_three :
    (wait now : ℕ) (m : Message)
    → (let a = (if is_overdue now m then expire now m else m) in
        let b = (if is_stuck now a then recover now a else a) in
        if is_unconfirmed wait now b then give_up now b else b)
      ≡ reaped wait now m
unfolding is_overdue is_stuck is_unconfirmed expire recover give_up
reap_three wait now m = ground arith

-- The message with an id, after a tick, is the one before the tick under `reaped`.
pub find-reap :
    (wait now id : ℕ) (db : Db)
    → find_message id (reap wait now db) ≡ Option.map (reaped wait now) (find_message id db)
unfolding reap
find-reap wait now id db =
    let a =
      by_key-update_where message_key (is_overdue now) (expire now) id db.messages (λ x. refl) in
    let b =
      by_key-update_where message_key (is_stuck now) (recover now) id
        (update_where (is_overdue now) (expire now) db.messages) (λ x. refl) in
    let c =
      by_key-update_where message_key (is_unconfirmed wait now) (give_up now) id
        (update_where (is_stuck now) (recover now)
          (update_where (is_overdue now) (expire now) db.messages))
        (λ x. refl) in
    elim (Option-cases (find_message id db)) [
      | inl missing ↦ c ∙ rw (b, a, missing) refl
      | inr (m, found) ↦ c ∙ rw (b, a, found) (ap some (reap_three wait now m))
    ]

-- What holds of a message between its states before and after a tick.
pub record Reaped (wait now : ℕ) (m after : Message) : Type 0 where
  pub same_id : after.id ≡ m.id
  pub terminal_kept : is_terminal m.status ≡ true → after ≡ m
  pub none_overdue : is_waiting after.status ≡ true → now < after.expires_at
  pub none_unconfirmed :
      is_pinned after.status ≡ true → (t : ℕ) → after.dispatched_at ≡ some t → now ≤ t + wait
  pub never_rerouted :
      is_pinned m.status ≡ true → (after ≡ m) ⊎ (after.status ≡ MessageStatus.sent_unconfirmed)
  pub never_sent :
      is_waiting m.status ≡ true
      → (is_waiting after.status ≡ true) ⊎ (after.status ≡ MessageStatus.expired)
  pub queued_kept : m.status ≡ MessageStatus.queued → now < m.expires_at → after ≡ m
  pub routing_kept :
      m.status ≡ MessageStatus.routing
      → now < m.expires_at
      → now ≤ m.updated_at + 120000
      → after ≡ m
  pub routing_recovered :
      m.status ≡ MessageStatus.routing
      → now < m.expires_at
      → m.updated_at + 120000 < now
      → (after.status ≡ MessageStatus.queued) × (after.attempts ≡ m.attempts)
  pub pinned_kept :
      is_pinned m.status ≡ true → ((t : ℕ) → m.dispatched_at ≡ some t → now ≤ t + wait) → after ≡ m

reaped-Reaped : (wait now : ℕ) (m : Message) → Reaped wait now m (reaped wait now m)
unfolding is_overdue is_stuck is_unconfirmed expire recover give_up
reaped-Reaped wait now m = record {
  same_id = ground arith;
  terminal_kept = ground arith;
  none_overdue = ground arith;
  none_unconfirmed = λ p t e. ground arith;
  never_rerouted = ground arith;
  never_sent = ground arith;
  queued_kept = λ q l. ground arith;
  routing_kept = λ q l k. ground arith;
  routing_recovered = λ q l k. (ground arith, ground arith);
  pinned_kept = λ p k. elim (Option-cases m.dispatched_at) [
    | inl never ↦ ground arith
    | inr (t, e) ↦ let early = k t e in ground arith
  ];
}

-- After a tick no QUEUED or ROUTING message is past its TTL and no pinned message has waited longer
-- than the delivery wait. A terminal message is as it was, a pinned one is unchanged or
-- SENT_UNCONFIRMED and so never routed again, and a waiting one still waits or is EXPIRED. Only what
-- is late is touched: a QUEUED message within its TTL is unchanged, a ROUTING one within its TTL is
-- unchanged for two minutes after its last change and QUEUED again, with its attempts, later, and a
-- pinned one is unchanged until its delivery wait is over.
pub reap-Reaped :
    (wait now id : ℕ) (db : Db) {after : Message}
    → find_message id (reap wait now db) ≡ some after
    → (m : Message) × (find_message id db ≡ some m) × Reaped wait now m after
reap-Reaped wait now id db {after} found = elim (Option-cases (find_message id db)) [
  | inl missing ↦ absurd (none-ne-some (rw (find-reap wait now id db, missing) at found))
  | inr (m, e) ↦ (
    m,
    e,
    subst (Reaped wait now m) (some-eq (rw (find-reap wait now id db, e) at found))
        (reaped-Reaped wait now m),
  )
]
  where
    none-ne-some : ◌≡◌ {A = Option Message} none (some after) → ⊥
    none-ne-some h = cc

    some-eq : {a : Message} → some a ≡ some after → a ≡ after
    some-eq h = cc
