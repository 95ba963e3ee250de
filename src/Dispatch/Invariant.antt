-- ===== src/Dispatch/Invariant.antt =====
-- What holds of every message between two calls of the dispatcher
-- (server/internal/dispatch/dispatcher.go), and the rules by which its statements keep it.
use mathlib.Core.Bool.{false≢true}
use wsms_gateway.Base.{
  ℕ, ◌≤◌, ◌<◌, ◌≡◌, refl, sym, ◌∙◌, Bool, true, false, ◌&&◌, Option, none, some, is_some, List, [],
  ◌∷◌, arith, any, ◌==◌, IsKeyed, In, update_where, delete_where, update_where-IsKeyed,
  In-update_where, Bool-cases, inl, inr,
}
use wsms_gateway.Models.Enums.{MessageStatus, EventType, is_waiting, is_pinned}
use wsms_gateway.Models.Records.{Text, Message, MessageSend, Db}
use wsms_gateway.Dispatch.State.{message_key, with_status, advance_if_pinned, set_status, terminate}

-- A command for the message may be on its way to the network: pinned, DELIVERED, SENT_UNCONFIRMED.
abbrev pub is_committed : MessageStatus → Bool
is_committed MessageStatus.delivered = true
is_committed MessageStatus.sent_unconfirmed = true
is_committed s = is_pinned s

abbrev pub has_send : ℕ → List MessageSend → Bool
has_send id sends = any (λ (s : MessageSend). s.message_id == id) sends

pub record IsSound (sends : List MessageSend) (m : Message) : Type 0 where
  pub capped : m.attempts ≤ m.max_attempts
  pub fresh : is_waiting m.status ≡ true → m.attempts < m.max_attempts
  pub assigned :
      is_committed m.status ≡ true
      → (is_some m.assigned_sim_id ≡ true)
        × (is_some m.assigned_device_id ≡ true)
        × (is_some m.dispatched_at ≡ true)
  pub ledgered : is_committed m.status ≡ true → has_send m.id sends ≡ true

pub record Inv (messages : List Message) (sends : List MessageSend) : Type 0 where
  pub keyed : IsKeyed message_key messages
  pub each : (m : Message) → In m messages → IsSound sends m

abbrev pub InvDb : Db → Type 0
InvDb db = Inv db.messages db.sends

-- What does not touch messages and ledger keeps the invariant.
abbrev pub SameMessages : Db → Db → Type 0
SameMessages db after = (after.messages ≡ db.messages) × (after.sends ≡ db.sends)

pub Same-Inv : (db after : Db) → SameMessages db after → InvDb db → InvDb after
Same-Inv db after (m, s) v = rw (m, s) v

-- A statement keeps the invariant if it keeps it for the rows that it changes.
pub update-Inv :
    (p : Message → Bool) (f : Message → Message) (messages : List Message)
    (sends : List MessageSend)
    → ((m : Message) → message_key (f m) ≡ message_key m)
    → ((m : Message) → In m messages → p m ≡ true → IsSound sends (f m))
    → Inv messages sends
    → Inv (update_where p f messages) sends
update-Inv p f messages sends same changed v = record {
  keyed = update_where-IsKeyed message_key p f messages same v.keyed;
  each = λ b i.
      let (a, j, e) = In-update_where p f b messages i in
      elim (Bool-cases (p a)) [
        | inl t ↦ rw (e, t) (changed a j t)
        | inr n ↦ rw (e, n) (v.each a j)
      ];
}

-- Rows of other messages keep their ledger row.
has_send-delete :
    (id other : ℕ) (sends : List MessageSend)
    → (other == id) ≡ false
    → has_send other (delete_where (λ s. s.message_id == id) sends) ≡ has_send other sends
has_send-delete id other [] h = refl
has_send-delete id other (s ∷ sends) h = ground (arith, has_send-delete id other sends h)

pub has_send-delete_self :
    (id : ℕ) (sends : List MessageSend)
    → has_send id (delete_where (λ s. s.message_id == id) sends) ≡ false
has_send-delete_self id [] = refl
has_send-delete_self id (s ∷ sends) = ground (arith, has_send-delete_self id sends)

-- The rows of one message change, and its ledger row goes: it must not stay committed.
pub delete-Inv :
    (id : ℕ) (f : Message → Message) (messages : List Message) (sends : List MessageSend)
    → ((m : Message) → message_key (f m) ≡ message_key m)
    → ((m : Message)
        → In m messages
        → m.id ≡ id
        → (is_committed (f m).status ≡ false)
          × ((f m).attempts ≤ (f m).max_attempts)
          × (is_waiting (f m).status ≡ true → (f m).attempts < (f m).max_attempts))
    → Inv messages sends
    → Inv (update_where (λ m. m.id == id) f messages) (delete_where (λ s. s.message_id == id) sends)
delete-Inv id f messages sends same changed v = record {
  keyed = update_where-IsKeyed message_key _ f messages same v.keyed;
  each = λ b i.
      let (a, j, e) = In-update_where (λ m. m.id == id) f b messages i in
      elim (Bool-cases (a.id == id)) [
        | inl t ↦
            let (idle, capped, fresh) = changed a j (ground arith) in
            rw (e, t)
              (record {
                capped = capped;
                fresh = fresh;
                assigned = λ q. absurd (false≢true (sym idle ∙ q));
                ledgered = λ q. absurd (false≢true (sym idle ∙ q));
              })
        | inr n ↦
            let old = v.each a j in
            rw (e, n)
              (record {
                capped = old.capped;
                fresh = old.fresh;
                assigned = old.assigned;
                ledgered = λ q. has_send-delete id a.id sends n ∙ old.ledgered q;
              })
      ];
}

advance-IsSound :
    (now : ℕ) (to : MessageStatus) (reason : Text) (sends : List MessageSend) (m : Message)
    → is_waiting to ≡ false
    → is_pinned m.status ≡ true
    → IsSound sends m
    → IsSound sends (with_status now to reason m)
advance-IsSound now to reason sends m w p v = ground arith

pub advance_if_pinned-Inv :
    (now id : ℕ) (to : MessageStatus) (ev : EventType) (reason : Text) (db : Db)
    → is_waiting to ≡ false
    → InvDb db
    → InvDb (advance_if_pinned now id to ev reason db)
unfolding advance_if_pinned
advance_if_pinned-Inv now id to ev reason db w v =
    let p : Message → Bool = λ m. m.id == id && is_pinned m.status in
    let kept : Inv (update_where p (with_status now to reason) db.messages) db.sends =
      update-Inv p (with_status now to reason) db.messages db.sends (λ m. refl)
        (λ m i t. advance-IsSound now to reason db.sends m w (ground arith) (v.each m i)) v in
    elim (Bool-cases (any p db.messages)) [ inl t ↦ rw t kept | inr n ↦ rw n kept ]

-- The message may wait again, since an attempt is left.
abbrev pub IsFresh : ℕ → List Message → Type 0
IsFresh id messages = (m : Message) → In m messages → m.id ≡ id → m.attempts < m.max_attempts

pub set_status-Inv :
    (now id : ℕ) (status : MessageStatus) (reason : Text) (db : Db)
    → is_committed status ≡ false
    → (is_waiting status ≡ true → IsFresh id db.messages)
    → InvDb db
    → InvDb (set_status now id status reason db)
unfolding set_status
set_status-Inv now id status reason db c w v =
    update-Inv (λ m. m.id == id) (with_status now status reason) db.messages db.sends (λ m. refl)
      (λ m i t. record {
        capped = (v.each m i).capped;
        fresh = λ q. w q m i (ground arith);
        assigned = λ q. absurd (false≢true (sym c ∙ q));
        ledgered = λ q. absurd (false≢true (sym c ∙ q));
      })
      v

pub terminate-Inv :
    (now : ℕ) (m : Option Message) (status : MessageStatus) (ev : EventType) (reason : Text)
    (db : Db)
    → is_committed status ≡ false
    → is_waiting status ≡ false
    → InvDb db
    → InvDb (terminate now m status ev reason db)
unfolding terminate
terminate-Inv now none status ev reason db c w v = v
terminate-Inv now (some m) status ev reason db c w v =
    set_status-Inv now m.id status reason db c (λ q. absurd (false≢true (sym w ∙ q))) v
