-- ===== src/Dispatch/Reaper/Settled.antt =====
-- A late tick of the reaper (server/internal/dispatch/dispatcher.go) ends every message.
use wsms_gateway.Base.{
  ℕ, ◌+◌, ◌≤◌, ◌<◌, ◌≡◌, true, false, Option, none, some, is_some, arith, In, first-In,
  Option-cases, Bool-cases, inl, inr,
}
use mathlib.Core.Bool.{false≢true}
use wsms_gateway.Models.Enums.{MessageStatus, is_terminal, is_waiting, is_pinned}
use wsms_gateway.Models.Records.{Message, Db}
use wsms_gateway.Dispatch.State.{find_message}
use wsms_gateway.Dispatch.Invariant.{is_committed}
use wsms_gateway.Dispatch.Reaper.{
  is_overdue, is_stuck, is_unconfirmed, expire, recover, give_up, reap,
}
use wsms_gateway.Dispatch.Reaper.Effects.{reaped, find-reap}

module _ (wait now : ℕ) where
  waiting_ends :
      (m : Message)
      → is_waiting m.status ≡ true
      → m.expires_at ≤ now
      → is_terminal (reaped wait now m).status ≡ true
  unfolding is_overdue is_stuck is_unconfirmed expire recover give_up
  waiting_ends m w late = ground arith

  pinned_ends :
      (m : Message) (t : ℕ)
      → is_pinned m.status ≡ true
      → m.dispatched_at ≡ some t
      → t + wait < now
      → is_terminal (reaped wait now m).status ≡ true
  unfolding is_overdue is_stuck is_unconfirmed expire recover give_up
  pinned_ends m t p at late = ground arith

  over_stays :
      (m : Message)
      → is_waiting m.status ≡ false
      → is_pinned m.status ≡ false
      → is_terminal (reaped wait now m).status ≡ true
  unfolding is_overdue is_stuck is_unconfirmed expire recover give_up
  over_stays m w p = ground arith

  ends :
      (m : Message)
      → (is_committed m.status ≡ true
          → (is_some m.assigned_sim_id ≡ true)
            × (is_some m.assigned_device_id ≡ true)
            × (is_some m.dispatched_at ≡ true))
      → m.expires_at ≤ now
      → ((t : ℕ) → m.dispatched_at ≡ some t → t + wait < now)
      → is_terminal (reaped wait now m).status ≡ true
  ends m assigned late waited = elim (Bool-cases (is_waiting m.status)) [
    | inl w ↦ waiting_ends m w late
    | inr w ↦ elim (Bool-cases (is_pinned m.status)) [
      | inr p ↦ over_stays m w p
      | inl p ↦ elim (Option-cases m.dispatched_at) [
        | inr (t, at) ↦ pinned_ends m t p at (waited t at)
        | inl never ↦
            let (s, d, at) = assigned (pinned_committed m.status p) in
            absurd (false≢true (rw never at at))
      ]
    ]
  ]
    where
      pinned_committed : (s : MessageStatus) → is_pinned s ≡ true → is_committed s ≡ true
      pinned_committed s h = ground arith

  -- A tick past the expiry of every message and the wait of every one that was handed over, where
  -- each of these has its time of dispatch, leaves none that is not in a terminal status.
  pub reap-settles :
      (db : Db) (id : ℕ) (after : Message)
      → ((m : Message)
          → In m db.messages
          → is_committed m.status ≡ true
          → (is_some m.assigned_sim_id ≡ true)
            × (is_some m.assigned_device_id ≡ true)
            × (is_some m.dispatched_at ≡ true))
      → ((m : Message) → In m db.messages → m.expires_at ≤ now)
      → ((m : Message) (t : ℕ) → In m db.messages → m.dispatched_at ≡ some t → t + wait < now)
      → find_message id (reap wait now db) ≡ some after
      → is_terminal after.status ≡ true
  reap-settles db id after assigned late waited found = elim (Option-cases (find_message id db)) [
    | inl missing ↦ absurd (none-ne-some (rw (find-reap wait now id db, missing) at found))
    | inr (m, there) ↦
        let row = first-In _ m db.messages there in
        let same : reaped wait now m ≡ after =
          some-eq (rw (find-reap wait now id db, there) at found) in
        rw (← same) (ends m (assigned m row) (late m row) (λ t. waited m t row))
  ]
    where
      none-ne-some : ◌≡◌ {A = Option Message} none (some after) → ⊥
      none-ne-some h = cc

      some-eq : {a : Message} → some a ≡ some after → a ≡ after
      some-eq h = cc
