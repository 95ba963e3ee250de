-- ===== src/Api/Messages/Follows.antt =====
-- What submissions and cancellations (server/internal/api/messages.go) make of the messages that are
-- stored.
use wsms_gateway.Base.{
  ℕ, refl, Bool, ◌&&◌, ◌||◌, not, Option, none, some, List, [], ◌∷◌, arith, ◌==◌, any, first,
  update_where, Option-cases, Bool-cases, inl, inr,
}
use wsms_gateway.Models.Enums.{MessageStatus, RoutingPolicy, is_queued}
use wsms_gateway.Models.Records.{Text, is_empty, Message, Db}
use wsms_gateway.Router.Msisdn.{normalize_msisdn}
use wsms_gateway.Ws.Hub.{Hub}
use wsms_gateway.Dispatch.State.{with_status}
use wsms_gateway.Dispatch.Lifecycle.{
  Follows, Follows-refl, Each, Each-same, Each-update, Each-append,
}
use wsms_gateway.Api.Messages.{
  SubmitReq, Submit, policy_of, owned_by, is_over, conflicts, new_message, create, look_up,
  validated, has_dedup, submit_message, cancel_found, cancel_message,
}

abbrev alone : Submit → Submit
alone w = record w { others = λ db. db }

pub cancelled-Follows :
    (now : ℕ) (reason : Text) (x : Message)
    → Follows x (with_status now MessageStatus.cancelled reason x)
cancelled-Follows now reason x = ground arith

module _ (w : Submit) (db : Db) where
  abbrev Goes : Db → Type 0
  Goes after = Each Follows db.messages after.messages

  stays : Goes db
  stays = Each-same Follows db.messages db.messages Follows-refl refl

  create-Goes : (m : Message) → Goes (create (alone w) m db).1
  unfolding create
  create-Goes m =
      elim (Bool-cases (w.creates && not (conflicts m.dedup_key m.client_id db.messages))) [
        | inl t ↦ rw t (Each-append Follows db.messages _ (m ∷ []) Follows-refl refl)
        | inr f ↦ rw f stays
      ]

  look_up-Goes : (m : Message) (k : Option Text) → Goes (look_up (alone w) m k db).1
  unfolding look_up
  look_up-Goes m none = create-Goes m
  look_up-Goes m (some key) = elim (Bool-cases w.finds) [
    | inl t ↦ elim (Option-cases (first (has_dedup m.client_id key) db.messages)) [
      | inl missing ↦ rw (t, missing) (create-Goes m)
      | inr (old, found) ↦ rw (t, found) stays
    ]
    | inr f ↦ rw f stays
  ]

  validated-Goes :
      (client : ℕ) (req : SubmitReq) (to : Option Text) (p : Option RoutingPolicy)
      → Goes (validated (alone w) client req to p db).1
  unfolding validated
  validated-Goes client req none p = stays
  validated-Goes client req (some to) none = stays
  validated-Goes client req (some to) (some p) =
      look_up-Goes (new_message (alone w) client req to p) _

  -- A submission leaves every stored message.
  pub submit_message-Follows :
      (client : ℕ) (req : SubmitReq) → Goes (submit_message (alone w) client req db).1
  unfolding submit_message
  submit_message-Follows client req = elim (Bool-cases (is_empty req.to || is_empty req.message)) [
    | inl t ↦ rw t stays
    | inr f ↦
        rw f (validated-Goes client req (normalize_msisdn req.to) (policy_of req.routing_policy))
  ]

-- The update of a cancellation.
pub cancel_where-Follows :
    (now id : ℕ) (reason : Text) (xs : List Message)
    → Each Follows xs (
        update_where
          (λ x. x.id == id && is_queued x.status)
          (with_status now MessageStatus.cancelled reason)
          xs)
cancel_where-Follows now id reason xs =
    Each-update Follows xs _ (λ x. x.id == id && is_queued x.status)
      (with_status now MessageStatus.cancelled reason) (λ x. refl)
      (λ x. elim (Bool-cases (x.id == id && is_queued x.status)) [
        | inl t ↦ rw t (cancelled-Follows now reason x)
        | inr n ↦ rw n (Follows-refl x)
      ])
      refl

-- A cancellation follows the diagram.
pub cancel_message-Follows :
    (now : ℕ) (pick : Bool) (client id : ℕ) (db : Db) (hub : Hub)
    → Each Follows db.messages (cancel_message now pick (λ d. d) client id db hub).1.messages
unfolding cancel_message cancel_found
cancel_message-Follows now pick client id db hub =
    let same = Each-same Follows db.messages db.messages Follows-refl refl in
    elim (Option-cases (first (owned_by id client) db.messages)) [
      | inl missing ↦ rw (missing, cancel_message) same
      | inr (m, own) ↦ elim (Bool-cases (any (λ x. x.id == id && is_queued x.status) db.messages)) [
        | inl t ↦ rw (own, cancel_message, t) (cancel_where-Follows now id _ db.messages)
        | inr f ↦ elim (Bool-cases (is_over m.status)) [
          | inl over ↦ rw (own, cancel_message, f, over) same
          | inr live ↦ rw (own, cancel_message, f, live) same
        ]
      ]
    ]
