-- ===== src/Api/Messages/Expiry.antt =====
-- The expiry of a submitted message (server/internal/api/messages.go).
use wsms_gateway.Base.{
  ℕ, ◌+◌, ◌*◌, ◌<◌, ◌≤◌, ◌≡◌, refl, ◌&&◌, ◌||◌, not, Option, none, some, List, [], ◌∷◌, ◌++◌, arith,
  In, first, Option-cases, Bool-cases, inl, inr,
}
use wsms_gateway.Base.Int.{ℤ, pos, negsuc}
use wsms_gateway.Models.Enums.{RoutingPolicy}
use wsms_gateway.Models.Records.{Text, is_empty, Message, Db}
use wsms_gateway.Text.{text_eq}
use wsms_gateway.Router.Msisdn.{normalize_msisdn}
use wsms_gateway.Api.Reply.{Reply}
use wsms_gateway.Api.Messages.{
  SubmitReq, Submit, policy_of, expiry, has_dedup, new_message, conflicts, replay_or_fail, create,
  replayed, look_up, validated, submit_message,
}

-- The expiry for a time to live in seconds: exact up to 9223372036 seconds, the default without a
-- positive one, and not after the submission from where the nanoseconds wrap to where they wrap again.
pub record ExpiresFor (w : Submit) (ttl : ℤ) (exp : ℕ) : Type 0 where
  pub exact : (s : ℕ) → ttl ≡ pos s → 0 < s → s ≤ 9223372036 → exp ≡ w.now + s * 1000
  pub wrapped : (s : ℕ) → ttl ≡ pos s → 9223372037 ≤ s → s ≤ 18446744073 → exp ≤ w.now
  pub zero_default : ttl ≡ pos 0 → exp ≡ w.now + w.default_ttl_ms
  pub negative_default : (n : ℕ) → ttl ≡ negsuc n → exp ≡ w.now + w.default_ttl_ms

expiry_wrapped : (now s : ℕ) → 9223372037 ≤ s → s ≤ 18446744073 → expiry now s ≤ now
unfolding expiry
expiry_wrapped now s h k = ground arith

expiry_exact : (now s : ℕ) → s ≤ 9223372036 → expiry now s ≡ now + s * 1000
unfolding expiry
expiry_exact now s h = ground arith

new_message-ExpiresFor :
    (w : Submit) (client : ℕ) (req : SubmitReq) (to : Text) (p : RoutingPolicy)
    → ExpiresFor w req.ttl_seconds (new_message w client req to p).expires_at
unfolding new_message
new_message-ExpiresFor w client req to p = record {
  exact = λ s e some_time h. rw e (let x = expiry_exact w.now s h in ground arith);
  wrapped = λ s e h k. rw e (let x = expiry_wrapped w.now s h k in ground arith);
  zero_default = λ e. rw e refl;
  negative_default = λ n e. rw e refl;
}

-- An accepted submission: its message is stored with the expiry that the answer names.
abbrev pub Stores : (ℕ → Type 0) → Reply × Db → Type 0
Stores P (Reply.accepted id op enc seg exp, after) =
    (m : Message) × In m after.messages × (m.id ≡ id) × (m.expires_at ≡ exp) × P exp
Stores P r = Unit

In-last : (m : Message) (ms : List Message) → In m (ms ++ m ∷ [])
In-last m [] = inl refl
In-last m (x ∷ ms) = inr (In-last m ms)

replay-Stores :
    (P : ℕ → Type 0) (client : ℕ) (key : Option Text) (db : Db)
    → Stores P (replay_or_fail client key db.messages, db)
replay-Stores P client none db = tt
replay-Stores P client (some key) db =
    elim (Option-cases (first (has_dedup client key) db.messages)) [
      | inl missing ↦ rw (replay_or_fail, missing) tt
      | inr (m, found) ↦ rw (replay_or_fail, found) tt
    ]

create-Stores :
    (P : ℕ → Type 0) (w : Submit) (m : Message) (db : Db)
    → P m.expires_at
    → Stores P (create w m db)
unfolding create
create-Stores P w m db p =
    elim (Bool-cases (w.creates && not (conflicts m.dedup_key m.client_id db.messages))) [
      | inl t ↦ rw t (m, In-last m db.messages, refl, refl, p)
      | inr f ↦ rw f (replay-Stores P m.client_id m.dedup_key db)
    ]

look_up-Stores :
    (P : ℕ → Type 0) (w : Submit) (m : Message) (key : Option Text) (db : Db)
    → P m.expires_at
    → Stores P (look_up w m key db)
unfolding look_up replayed
look_up-Stores P w m none db p = create-Stores P w m (w.others db) p
look_up-Stores P w m (some key) db p = elim (Bool-cases w.finds) [
  | inr f ↦ rw f tt
  | inl t ↦ elim (Option-cases (first (has_dedup m.client_id key) db.messages)) [
    | inl missing ↦ rw (t, missing) (create-Stores P w m (w.others db) p)
    | inr (old, found) ↦ elim (Bool-cases (text_eq old.payload_hash m.payload_hash)) [
      | inl same ↦ rw (t, found, same) tt
      | inr other ↦ rw (t, found, other) tt
    ]
  ]
]

-- An accepted submission stores its message with the expiry that the answer names. A time to live of
-- up to 9223372036 seconds counts in full from the submission, and one of 0 or less stands for the
-- default; from 9223372037 to 18446744073 seconds it wraps and the message has expired when it is
-- stored.
pub submit_message-Expires :
    (w : Submit) (client : ℕ) (req : SubmitReq) (db : Db)
    → Stores (ExpiresFor w req.ttl_seconds) (submit_message w client req db)
unfolding submit_message validated
submit_message-Expires w client req db =
    elim (Bool-cases (is_empty req.to || is_empty req.message)) [
      | inl t ↦ rw t tt
      | inr f ↦ rw f (valid (normalize_msisdn req.to) (policy_of req.routing_policy))
    ]
  where
    valid :
        (to : Option Text) (p : Option RoutingPolicy)
        → Stores (ExpiresFor w req.ttl_seconds) (validated w client req to p db)
    valid none p = tt
    valid (some c) none = tt
    valid (some c) (some p) =
        look_up-Stores _ w (new_message w client req c p) _ db
          (new_message-ExpiresFor w client req c p)
