-- ===== src/Api/Messages/Cancellation.antt =====
-- Cancellation (server/internal/api/messages.go) against what other transactions do between its
-- read and its update.
use mathlib.Core.Bool.{false≢true}
use wsms_gateway.Base.{
  ℕ, ◌≡◌, refl, sym, subst, ◌∙◌, Bool, true, false, ◌&&◌, some, arith, any, ◌==◌, first,
  by_key-update_where, any-In, first-In, In-any, by_key-In, IsKeyed, if◌then◌else◌, Option-cases,
  Bool-cases, inl, inr,
}
use wsms_gateway.Models.Enums.{MessageStatus, is_queued}
use wsms_gateway.Models.Records.{Message, Db}
use wsms_gateway.Text.{text}
use wsms_gateway.Ws.Hub.{Hub}
use wsms_gateway.Dispatch.State.{message_key, find_message, with_status}
use wsms_gateway.Api.Reply.{Reply}
use wsms_gateway.Api.Messages.{owned_by, is_over, cancel_found, cancel_message}

-- The message under its id when the update runs.
cancel_found_row :
    (now : ℕ) (pick : Bool) (id k : ℕ) (read : Message) (db : Db) (hub : Hub) {m : Message}
    → find_message k db ≡ some m
    → find_message k (cancel_found now pick id read db hub).1
      ≡ some (
          if m.id == id && is_queued m.status
          then with_status now MessageStatus.cancelled (text "cancelled by client") m
          else m)
unfolding cancel_found
cancel_found_row now pick id k read db hub {m} found =
    let p : Message → Bool = λ x. x.id == id && is_queued x.status in
    let change = with_status now MessageStatus.cancelled (text "cancelled by client") in
    let row = by_key-update_where message_key p change k db.messages (λ x. refl) in
    elim (Bool-cases (any p db.messages)) [
      | inl t ↦ rw t (row ∙ rw found refl)
      | inr f ↦ elim (Bool-cases (p m)) [
        | inl t ↦
            absurd (false≢true (sym f ∙ any-In p m db.messages (first-In _ m db.messages found) t))
        | inr idle ↦ elim (Bool-cases (is_over read.status)) [
          | inl over ↦ rw (f, idle, over) found
          | inr live ↦ rw (f, idle, live) found
        ]
      ]
    ]

-- A cancellation changes no message but its own, and its own only if that is QUEUED when the update
-- runs, whatever status was read before.
pub cancel_message_other :
    (now : ℕ) (pick : Bool) (others : Db → Db) (client id k : ℕ) (db : Db) (hub : Hub)
    {read m : Message}
    → first (owned_by id client) db.messages ≡ some read
    → find_message k (others db) ≡ some m
    → (m.id == id && is_queued m.status) ≡ false
    → find_message k (cancel_message now pick others client id db hub).1 ≡ some m
unfolding cancel_message
cancel_message_other now pick others client id k db hub {read} {m} own found idle =
    rw (own, cancel_message)
      (cancel_found_row now pick id k read (others db) hub found ∙ rw idle refl)

-- The answer that a message is cancelled is true: it was QUEUED when the update ran and is CANCELLED.
pub cancel_message_done :
    (now : ℕ) (pick : Bool) (others : Db → Db) (client id : ℕ) (db : Db) (hub : Hub)
    → IsKeyed message_key (others db).messages
    → (cancel_message now pick others client id db hub).0 ≡ Reply.cancelled id
    → (m : Message) × (find_message id (others db) ≡ some m)
      × (is_queued m.status ≡ true)
      × (find_message id (cancel_message now pick others client id db hub).1
          ≡ some (with_status now MessageStatus.cancelled (text "cancelled by client") m))
unfolding cancel_message cancel_found
cancel_message_done now pick others client id db hub u done =
    elim (Option-cases (first (owned_by id client) db.messages)) [
      | inl missing ↦ absurd (refused-ne-cancelled (rw (missing, cancel_message) at done))
      | inr (read, own) ↦
          let p : Message → Bool = λ x. x.id == id && is_queued x.status in
          elim (Bool-cases (any p (others db).messages)) [
            | inl t ↦
                let (m, i, ok) = In-any p (others db).messages t in
                let same : m.id ≡ id = ground arith in
                let found : find_message id (others db) ≡ some m =
                  subst (λ k. find_message k (others db) ≡ some m) same
                    (by_key-In message_key m (others db).messages u i) in
                let row = cancel_found_row now pick id id read (others db) hub found in
                (m, found, ground arith, rw (own, cancel_message) (row ∙ rw ok refl))
            | inr f ↦ absurd (not_cancelled read f (rw (own, cancel_message) at done))
          ]
    ]
  where
    refused-ne-cancelled : {n : ℕ} → Reply.refused n ≡ Reply.cancelled id → ⊥
    refused-ne-cancelled q = cc

    requested-ne-cancelled : Reply.cancel_requested id ≡ Reply.cancelled id → ⊥
    requested-ne-cancelled q = cc

    not_cancelled :
        (read : Message)
        → any (λ x. x.id == id && is_queued x.status) (others db).messages ≡ false
        → (cancel_found now pick id read (others db) hub).0 ≡ Reply.cancelled id
        → ⊥
    not_cancelled read f h = elim (Bool-cases (is_over read.status)) [
      | inl over ↦ refused-ne-cancelled (rw (f, over) at h)
      | inr live ↦ requested-ne-cancelled (rw (f, live) at h)
    ]
