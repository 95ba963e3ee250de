-- ===== src/Api/Messages/Retry.antt =====
-- A client that repeats a submission with its dedup key (server/internal/api/messages.go).
use mathlib.Core.Bool.{false≢true}
use wsms_gateway.Base.{
  ℕ, ◌≡◌, refl, sym, ap, ◌∙◌, subst, true, false, ◌&&◌, ◌||◌, not, Option, none, some, List, [],
  ◌∷◌, ◌++◌, arith, any, any-is_some-first, is_some, first, first-append_none, ==_refl,
  Option-cases, Bool-cases, inl, inr,
}
use wsms_gateway.Models.Enums.{Operator, Encoding, EventType, MessageStatus, RoutingPolicy}
use wsms_gateway.Dispatch.State.{event}
use wsms_gateway.Models.Records.{Text, is_empty, Detail, Message, Db}
use wsms_gateway.Text.{text_eq}
use wsms_gateway.Text.Laws.{text_eq_refl}
use wsms_gateway.Router.Msisdn.{normalize_msisdn}
use wsms_gateway.Api.Reply.{Reply}
use wsms_gateway.Api.Messages.{
  SubmitReq, Submit, policy_of, has_dedup, new_message, dedup_of, conflicts, replay_or_fail, create,
  replayed, look_up, validated, submit_message,
}

module _ {id : ℕ} {op : Operator} {enc : Encoding} {seg exp : ℕ} where
  replayed_only :
      (client : ℕ) (k : Option Text) (ms : List Message)
      → replay_or_fail client k ms ≡ Reply.accepted id op enc seg exp
      → ⊥
  replayed_only client none ms h = cc
  replayed_only client (some key) ms h = elim (Option-cases (first (has_dedup client key) ms)) [
    | inl missing ↦ refused-ne-accepted (rw (missing, replay_or_fail) at h)
    | inr (m, found) ↦ replay-ne-accepted (rw (found, replay_or_fail) at h)
  ]
    where
      refused-ne-accepted : Reply.refused 500 ≡ Reply.accepted id op enc seg exp → ⊥
      refused-ne-accepted q = cc

      replay-ne-accepted :
          {i : ℕ} {s : MessageStatus} → Reply.replay i s ≡ Reply.accepted id op enc seg exp → ⊥
      replay-ne-accepted q = cc

  create_accepted :
      (w : Submit) (m : Message) (db : Db) {after : Db}
      → create w m db ≡ (Reply.accepted id op enc seg exp, after)
      → (after.messages ≡ db.messages ++ m ∷ [])
        × (conflicts m.dedup_key m.client_id db.messages ≡ false)
        × (m.id ≡ id)
  unfolding create
  create_accepted w m db {after} h =
      elim (Bool-cases (w.creates && not (conflicts m.dedup_key m.client_id db.messages))) [
        | inl t ↦
            let h' : (
              Reply.accepted m.id m.target_operator m.encoding m.segments m.expires_at,
              stored,
            )
                ≡ (Reply.accepted id op enc seg exp, after) =
              rw t at h in
            (
              sym (ap (λ (r : Reply × Db). r.1.messages) h'),
              ground arith,
              accepted_id (ap (λ (r : Reply × Db). r.0) h'),
            )
        | inr f ↦ absurd (
            replayed_only m.client_id m.dedup_key db.messages
              (ap (λ (r : Reply × Db). r.0) (rw f at h)))
      ]
    where
      stored : Db
      stored =
          event w.now m.id EventType.submitted Detail.none
            (record db { messages = db.messages ++ m ∷ [] })

      accepted_id :
          {o : Operator} {c : Encoding} {n x : ℕ}
          → Reply.accepted m.id o c n x ≡ Reply.accepted id op enc seg exp
          → m.id ≡ id
      accepted_id q = cc

  -- The look-up of a stored message by its key replays it.
  replay_stored :
      (w w' : Submit) (m m' : Message) (key : Text) (db : Db) {after : Db}
      → create w m db ≡ (Reply.accepted id op enc seg exp, after)
      → m.dedup_key ≡ some key
      → m.status ≡ MessageStatus.queued
      → m'.client_id ≡ m.client_id
      → m'.payload_hash ≡ m.payload_hash
      → w'.finds ≡ true
      → look_up w' m' (some key) after ≡ (Reply.replay id MessageStatus.queued, after)
  unfolding look_up replayed
  replay_stored w w' m m' key db {after} h k st client hash finds =
      let (rows, free, same) = create_accepted w m db h in
      let absent : any (has_dedup m.client_id key) db.messages ≡ false = rw k at free in
      let nobody : first (has_dedup m.client_id key) db.messages ≡ none =
        unfound m.client_id key db.messages absent in
      let mine : has_dedup m.client_id key m ≡ true =
        rw (k, ==_refl m.client_id) (text_eq_refl key) in
      let found : first (has_dedup m'.client_id key) after.messages ≡ some m =
        rw
          (
            rows,
            client,
            first-append_none (has_dedup m.client_id key) db.messages (m ∷ []) nobody,
            mine,
          )
          refl in
      rw (finds, found, hash, text_eq_refl m.payload_hash, same, st) refl
    where
      unfound :
          (client : ℕ) (key : Text) (ms : List Message)
          → any (has_dedup client key) ms ≡ false
          → first (has_dedup client key) ms ≡ none
      unfound client key ms h = elim (Option-cases (first (has_dedup client key) ms)) [
        | inl missing ↦ missing
        | inr (x, found) ↦
            absurd (
              false≢true (sym h ∙ (any-is_some-first (has_dedup client key) ms ∙ ap is_some found)))
      ]

  refused_only :
      {n : ℕ} {db after : Db}
      → ◌≡◌ {A = Reply × Db} (Reply.refused n, db) (Reply.accepted id op enc seg exp, after)
      → ⊥
  refused_only {n} {db} {after} h = reply (ap (λ (r : Reply × Db). r.0) h)
    where
      reply : Reply.refused n ≡ Reply.accepted id op enc seg exp → ⊥
      reply q = cc

  replayed_ne :
      (w : Submit) (m old : Message) → replayed w m old ≡ Reply.accepted id op enc seg exp → ⊥
  unfolding replayed
  replayed_ne w m old h = elim (Bool-cases (text_eq old.payload_hash m.payload_hash)) [
    | inl t ↦ replay (rw t at h)
    | inr f ↦ refuse (rw f at h)
  ]
    where
      replay : Reply.replay old.id old.status ≡ Reply.accepted id op enc seg exp → ⊥
      replay q = cc

      refuse : Reply.refused 409 ≡ Reply.accepted id op enc seg exp → ⊥
      refuse q = cc

  -- What was accepted was created.
  created :
      (w : Submit) (m : Message) (key : Text) (db : Db) {after : Db}
      → look_up w m (some key) db ≡ (Reply.accepted id op enc seg exp, after)
      → create w m (w.others db) ≡ (Reply.accepted id op enc seg exp, after)
  unfolding look_up
  created w m key db h = elim (Bool-cases w.finds) [
    | inl t ↦ elim (Option-cases (first (has_dedup m.client_id key) db.messages)) [
      | inl missing ↦ rw (t, missing) at h
      | inr (old, found) ↦
          absurd (replayed_ne w m old (ap (λ (r : Reply × Db). r.0) (rw (t, found) at h)))
    ]
    | inr f ↦ absurd (refused_only (rw f at h))
  ]

  -- The same submission again, after one that was accepted: it replays the message that was stored
  -- and stores nothing, although other transactions ran inside the first.
  pub submit_message_retry :
      (w w' : Submit) (client : ℕ) (req : SubmitReq) (db : Db) {after : Db}
      → submit_message w client req db ≡ (Reply.accepted id op enc seg exp, after)
      → is_empty req.dedup_key ≡ false
      → w'.finds ≡ true
      → ((to : Text) → w'.hash client to req.message ≡ w.hash client to req.message)
      → submit_message w' client req after ≡ (Reply.replay id MessageStatus.queued, after)
  unfolding submit_message validated new_message
  submit_message_retry w w' client req db {after} h keyed finds hash =
      elim (Bool-cases (is_empty req.to || is_empty req.message)) [
        | inl t ↦ absurd (refused_only (rw t at h))
        | inr f ↦ rw f (valid (normalize_msisdn req.to) (policy_of req.routing_policy) (rw f at h))
      ]
    where
      valid :
          (to : Option Text) (p : Option RoutingPolicy)
          → validated w client req to p db ≡ (Reply.accepted id op enc seg exp, after)
          → validated w' client req to p after ≡ (Reply.replay id MessageStatus.queued, after)
      valid none p q = absurd (refused_only q)
      valid (some to) none q = absurd (refused_only q)
      valid (some to) (some p) q =
          let m = new_message w client req to p in
          let m' = new_message w' client req to p in
          let key : dedup_of req.dedup_key ≡ some req.dedup_key = rw keyed refl in
          let q' : look_up w m (some req.dedup_key) db ≡ (Reply.accepted id op enc seg exp, after) =
            subst (λ k. look_up w m k db ≡ (Reply.accepted id op enc seg exp, after)) key q in
          subst (λ k. look_up w' m' k after ≡ (Reply.replay id MessageStatus.queued, after))
            (sym key)
            (replay_stored w w' m m' req.dedup_key (w.others db) (created w m req.dedup_key db q')
              key refl refl (hash to) finds)
