-- ===== src/Dispatch/Send/Delivery.antt =====
-- What `deliverCommand` (server/internal/dispatch/dispatcher.go) sends where it succeeds, and where
-- it fails.
use wsms_gateway.Base.{
  ℕ, ◌≡◌, refl, ap, Bool, ◌==◌, List, In, first, first-In, first_sound, Option-cases, true, false,
  not, ◌&&◌, ◌⊎◌, [], ◌∷◌, ◌++◌, arith, Bool-cases, inl, inr,
}
use wsms_gateway.Models.Records.{Text, Device, Db, is_empty}
use wsms_gateway.Ws.Protocol.{SendCommandData, Frame}
use wsms_gateway.Ws.Hub.{SendResult, send_to}
use wsms_gateway.Ws.Hub.Buffers.{frames, send_to_offline}
use wsms_gateway.Dispatch.State.{State, Env}
use wsms_gateway.Dispatch.Send.{token_of, deliver_command}

-- A push that FCM accepted, under the token that is stored for the device.
pub record Pushed (e : Env) (devices : List Device) (device : ℕ) (token : Text) : Type 0 where
  pub waker : e.has_waker ≡ true
  pub target : Device
  pub row : In target devices
  pub named : target.id ≡ device
  pub kept : target.deleted ≡ false
  pub stored : target.push_token ≡ token
  pub nonempty : is_empty token ≡ false
  pub accepted : e.push_accepted token ≡ true

pushable :
    (e : Env) (device : ℕ) (db : Db)
    → (e.has_waker && not (is_empty (token_of db device))) ≡ true
    → e.push_accepted (token_of db device) ≡ true
    → Pushed e db.devices device (token_of db device)
pushable e device db push accepts =
    let test : Device → Bool = λ d. d.id == device && not d.deleted in
    elim (Option-cases (first test db.devices)) [
      | inl missing ↦ absurd (ground arith)
      | inr (d, found) ↦
          let met = first_sound test db.devices found in
          record {
            waker = ground arith;
            target = d;
            row = first-In test d db.devices found;
            named = ground arith;
            kept = ground arith;
            stored = rw (token_of, found) refl;
            nonempty = ground arith;
            accepted = accepts;
          }
    ]

-- The command went out once: to FCM under the stored token of the device, or to the buffer of its
-- connection.
abbrev pub Delivered : Env → List Device → ℕ → SendCommandData → State → State → Type 0
Delivered e devices device sc st after =
    ((t : Text) × Pushed e devices device t
      × (after.pushed ≡ st.pushed ++ (t, sc) ∷ [])
      × (after.hub ≡ st.hub))
    ⊎ ((after.pushed ≡ st.pushed)
        × (send_to e.pick device (Frame.send_command sc) st.hub ≡ (after.hub, SendResult.sent)))

-- Nothing went out.
abbrev pub Silent : State → State → Type 0
Silent st after =
    (after.pushed ≡ st.pushed) × ((serial : ℕ) → frames serial after.hub ≡ frames serial st.hub)

sent_only :
    (r : SendResult) → (elim r [ SendResult.sent ↦ true | _ ↦ false ]) ≡ true → r ≡ SendResult.sent
sent_only SendResult.sent h = refl
sent_only SendResult.device_offline h = cc

offline_only :
    (r : SendResult)
    → (elim r [ SendResult.sent ↦ true | _ ↦ false ]) ≡ false
    → r ≡ SendResult.device_offline
offline_only SendResult.sent h = cc
offline_only SendResult.device_offline h = refl

pub deliver_sent :
    (e : Env) (device : ℕ) (sc : SendCommandData) (st : State)
    → (deliver_command e device sc st).1 ≡ true
    → Delivered e st.db.devices device sc st (deliver_command e device sc st).0
unfolding deliver_command
deliver_sent e device sc st ok =
    elim (Bool-cases (e.has_waker && not (is_empty (token_of st.db device)))) [
      | inl push ↦ elim (Bool-cases (e.push_accepted (token_of st.db device))) [
        | inl accepts ↦
            rw (push, accepts) (inl (_, pushable e device st.db push accepts, refl, refl))
        | inr refuses ↦ absurd (ground arith)
      ]
      | inr socket ↦
          let put =
            sent_only (send_to e.pick device (Frame.send_command sc) st.hub).1 (rw socket at ok) in
          rw socket (
            inr (refl, ap (λ r. ((send_to e.pick device (Frame.send_command sc) st.hub).0, r)) put))
    ]

pub deliver_failed :
    (e : Env) (device : ℕ) (sc : SendCommandData) (st : State)
    → (deliver_command e device sc st).1 ≡ false
    → Silent st (deliver_command e device sc st).0
unfolding deliver_command
deliver_failed e device sc st bad =
    elim (Bool-cases (e.has_waker && not (is_empty (token_of st.db device)))) [
      | inl push ↦ elim (Bool-cases (e.push_accepted (token_of st.db device))) [
        | inl accepts ↦ absurd (ground arith)
        | inr refuses ↦ rw (push, refuses) (refl, λ serial. refl)
      ]
      | inr socket ↦
          let off =
            offline_only (send_to e.pick device (Frame.send_command sc) st.hub).1
              (rw socket at bad) in
          rw socket (refl, λ serial. send_to_offline e.pick device _ st.hub serial off)
    ]
