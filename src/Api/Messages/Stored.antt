-- ===== src/Api/Messages/Stored.antt =====
-- Submission and cancellation (server/internal/api/messages.go) keep the invariant of the messages.
use mathlib.Core.Bool.{false≢true}
use wsms_gateway.Base.{
  ℕ, ◌≡◌, refl, Bool, false, ◌&&◌, ◌||◌, not, Option, none, some, List, [], ◌∷◌, ◌++◌, arith, any,
  any-append, ◌==◌, IsKeyed, In, first, update_where, Option-cases, Bool-cases, inl, inr, ◌⊎◌,
}
use wsms_gateway.Models.Enums.{MessageStatus, RoutingPolicy, is_queued}
use wsms_gateway.Models.Records.{Text, is_empty, Message, MessageSend, Db}
use wsms_gateway.Router.Msisdn.{normalize_msisdn}
use wsms_gateway.Ws.Hub.{Hub}
use wsms_gateway.Dispatch.State.{message_key, with_status}
use wsms_gateway.Dispatch.Invariant.{IsSound, Inv, InvDb, update-Inv}
use wsms_gateway.Api.Messages.{
  SubmitReq, Submit, policy_of, owned_by, is_over, conflicts, new_message, create, look_up,
  validated, has_dedup, submit_message, cancel_found, cancel_message,
}

In-append_one : (a m : Message) (xs : List Message) → In a (xs ++ m ∷ []) → In a xs ⊎ (a ≡ m)
In-append_one a m [] (inl e) = inr e
In-append_one a m [] (inr n) = absurd n
In-append_one a m (x ∷ xs) (inl e) = inl (inl e)
In-append_one a m (x ∷ xs) (inr i) = elim (In-append_one a m xs i) [
  | inl j ↦ inl (inr j)
  | inr e ↦ inr e
]

append-IsKeyed :
    (m : Message) (xs : List Message)
    → any (λ (x : Message). x.id == m.id) xs ≡ false
    → IsKeyed message_key xs
    → IsKeyed message_key (xs ++ m ∷ [])
append-IsKeyed m [] f u = (refl, tt)
append-IsKeyed m (x ∷ xs) f (u, us) = (
  rw (any-append (λ (y : Message). y.id == x.id) xs (m ∷ [])) (ground arith),
  append-IsKeyed m xs (ground arith) us,
)

pub append-Inv :
    (m : Message) (messages : List Message) (sends : List MessageSend)
    → any (λ (x : Message). x.id == m.id) messages ≡ false
    → IsSound sends m
    → Inv messages sends
    → Inv (messages ++ m ∷ []) sends
append-Inv m messages sends fresh sound v = record {
  keyed = append-IsKeyed m messages fresh v.keyed;
  each = λ a i. elim (In-append_one a m messages i) [ inl j ↦ v.each a j | inr e ↦ rw e sound ];
}

abbrev alone : Submit → Submit
alone w = record w { others = λ db. db }

module _ (w : Submit) (db : Db)
    (fresh : any (λ (m : Message). m.id == w.new_id) db.messages ≡ false) (v : InvDb db) where
  new_message-IsSound :
      (client : ℕ) (req : SubmitReq) (to : Text) (p : RoutingPolicy)
      → IsSound db.sends (new_message (alone w) client req to p)
  unfolding new_message
  new_message-IsSound client req to p = record {
    capped = ground arith;
    fresh = λ q. ground arith;
    assigned = λ q. absurd (false≢true q);
    ledgered = λ q. absurd (false≢true q);
  }

  create-Inv :
      (m : Message) → m.id ≡ w.new_id → IsSound db.sends m → InvDb (create (alone w) m db).1
  unfolding create
  create-Inv m same sound =
      elim (Bool-cases (w.creates && not (conflicts m.dedup_key m.client_id db.messages))) [
        | inl t ↦ rw t (append-Inv m db.messages db.sends (rw same fresh) sound v)
        | inr f ↦ rw f v
      ]

  look_up-Inv :
      (m : Message) (k : Option Text)
      → m.id ≡ w.new_id
      → IsSound db.sends m
      → InvDb (look_up (alone w) m k db).1
  unfolding look_up
  look_up-Inv m none same sound = create-Inv m same sound
  look_up-Inv m (some key) same sound = elim (Bool-cases w.finds) [
    | inl t ↦ elim (Option-cases (first (has_dedup m.client_id key) db.messages)) [
      | inl missing ↦ rw (t, missing) (create-Inv m same sound)
      | inr (old, found) ↦ rw (t, found) v
    ]
    | inr f ↦ rw f v
  ]

  validated-Inv :
      (client : ℕ) (req : SubmitReq) (to : Option Text) (p : Option RoutingPolicy)
      → InvDb (validated (alone w) client req to p db).1
  unfolding validated
  validated-Inv client req none p = v
  validated-Inv client req (some to) none = v
  validated-Inv client req (some to) (some p) =
      look_up-Inv (new_message (alone w) client req to p) _ (unfold new_message in refl)
        (new_message-IsSound client req to p)

  pub submit_message-Inv :
      (client : ℕ) (req : SubmitReq) → InvDb (submit_message (alone w) client req db).1
  unfolding submit_message
  submit_message-Inv client req = elim (Bool-cases (is_empty req.to || is_empty req.message)) [
    | inl t ↦ rw t v
    | inr f ↦
        rw f (validated-Inv client req (normalize_msisdn req.to) (policy_of req.routing_policy))
  ]

-- The update of a cancellation, by a client or in the console.
pub cancel_where-Inv :
    (now id : ℕ) (reason : Text) (messages : List Message) (sends : List MessageSend)
    → Inv messages sends
    → Inv
        (update_where
          (λ x. x.id == id && is_queued x.status)
          (with_status now MessageStatus.cancelled reason)
          messages)
        sends
cancel_where-Inv now id reason messages sends v =
    update-Inv (λ x. x.id == id && is_queued x.status)
      (with_status now MessageStatus.cancelled reason) messages sends (λ x. refl)
      (λ x i q. record {
        capped = (v.each x i).capped;
        fresh = λ z. absurd (false≢true z);
        assigned = λ z. absurd (false≢true z);
        ledgered = λ z. absurd (false≢true z);
      })
      v

pub cancel_message-Inv :
    (now : ℕ) (pick : Bool) (client id : ℕ) (db : Db) (hub : Hub)
    → InvDb db
    → InvDb (cancel_message now pick (λ d. d) client id db hub).1
unfolding cancel_message cancel_found
cancel_message-Inv now pick client id db hub v =
    elim (Option-cases (first (owned_by id client) db.messages)) [
      | inl missing ↦ rw (missing, cancel_message) v
      | inr (m, own) ↦ elim (Bool-cases (any (λ x. x.id == id && is_queued x.status) db.messages)) [
        | inl t ↦ rw (own, cancel_message, t) (cancel_where-Inv now id _ db.messages db.sends v)
        | inr f ↦ elim (Bool-cases (is_over m.status)) [
          | inl over ↦ rw (own, cancel_message, f, over) v
          | inr live ↦ rw (own, cancel_message, f, live) v
        ]
      ]
    ]
