-- ===== src/Dispatch/Send/Claim.antt =====
-- The message that `dispatchOne` (server/internal/dispatch/dispatcher.go) claims, and what becomes
-- of it.
use wsms_gateway.Base.{
  ◌≡◌, refl, ◌∙◌, true, false, ◌⊎◌, arith, any, ◌==◌, In, update_where, Option-cases, inl, inr,
}
use wsms_gateway.Models.Records.{Message, Db}
use wsms_gateway.Router.Engine.{best}
use wsms_gateway.Router.Engine.Reserve.{best_sound}
use wsms_gateway.Dispatch.State.{State, Env, now_of, find_message}
use wsms_gateway.Dispatch.Send.{claimable, older, claimed, claim, command_of, pinned, dispatch_one}
use wsms_gateway.Dispatch.Send.Outcome.{Outcome, find-by_id, process-Outcome}
use wsms_gateway.Router.Engine.Reserve.{best_none, best_least}

pub older_weak : (a b c : Message) → older a b ≡ false → older b c ≡ false → older a c ≡ false
older_weak a b c p q = ground arith

-- Relative to the state before the claim, whose row of the message the claim made ROUTING.
unclaimed :
    (e : Env) (m : Message) (st after : State)
    → let db : Db = record st.db {
      messages = update_where (λ x. x.id == m.id) (claimed (now_of e)) st.db.messages;
    } in
      Outcome e (claimed (now_of e) m) (record st { db = db }) after → Outcome e m st after
unfolding claimed pinned command_of
unclaimed e m st after (inl d) =
    let row = find-by_id m.id (claimed (now_of e)) st.db.messages (λ x. refl) in
    inl (record {
      choice = d.choice;
      sim = d.sim;
      row = d.row;
      fits = d.fits;
      chosen = d.chosen;
      pins = elim (Option-cases (find_message m.id st.db)) [
        | inl missing ↦ d.pins ∙ rw (row, missing) refl
        | inr (x, found) ↦ d.pins ∙ rw (row, found) refl
      ];
      ledger = d.ledger;
      delivered = d.delivered;
    })
unclaimed e m st after (inr h) =
    let row = find-by_id m.id (claimed (now_of e)) st.db.messages (λ x. refl) in
    inr (record {
      status = h.status;
      rest = h.rest;
      waits = elim (Option-cases (find_message m.id st.db)) [
        | inl missing ↦ h.waits ∙ rw (row, missing) refl
        | inr (x, found) ↦ h.waits ∙ rw (row, found) refl
      ];
      tried = elim (Option-cases (find_message m.id st.db)) [
        | inl missing ↦ h.tried ∙ rw (row, missing) refl
        | inr (x, found) ↦ h.tried ∙ rw (row, found) refl
      ];
      silent = h.silent;
      counted = h.counted;
      ledger = h.ledger;
    })

-- A message was claimed: a claimable row that no claimable row is older than, with what became of it.
pub record Claims (e : Env) (st : State) : Type 0 where
  pub message : Message
  pub row : In message st.db.messages
  pub ready : claimable e message ≡ true
  pub oldest : (x : Message) → In x st.db.messages → claimable e x ≡ true → older x message ≡ false
  pub more : (dispatch_one e st).1 ≡ true
  pub outcome : Outcome e message st (dispatch_one e st).0

-- `dispatchOne` either finds no message to claim and changes nothing; or it claims a message that no
-- claimable one is older than, and then makes the whole of a dispatch or none of it.
pub dispatch_one-Claims :
    (e : Env) (st : State)
    → ((dispatch_one e st ≡ (st, false)) × (any (claimable e) st.db.messages ≡ false)) ⊎ Claims e st
unfolding dispatch_one claim
dispatch_one-Claims e st = elim (Option-cases (best older (claimable e) st.db.messages)) [
  | inl idle ↦
      rw (idle, dispatch_one, claim) (inl (refl, best_none older (claimable e) st.db.messages idle))
  | inr (m, taken) ↦
      let (row, ok) = best_sound older (claimable e) st.db.messages m taken in
      let changed : (dispatch_one e st).1 ≡ true = rw (taken, dispatch_one, claim) refl in
      let after : Outcome e m st (dispatch_one e st).0 =
        rw (taken, dispatch_one, claim)
          (unclaimed e m st _ (process-Outcome e (claimed (now_of e) m) _)) in
      inr (record {
        message = m;
        row = row;
        ready = ok;
        oldest = λ x i t.
            best_least older (claimable e) older_asym older_weak st.db.messages m x taken i t;
        more = changed;
        outcome = after;
      })
]
  where
    older_asym : (a b : Message) → older a b ≡ true → older b a ≡ false
    older_asym a b h = ground arith
