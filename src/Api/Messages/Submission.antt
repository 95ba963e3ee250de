-- ===== src/Api/Messages/Submission.antt =====
-- Submissions (server/internal/api/messages.go): what is accepted, and what the dedup key promises.
use wsms_gateway.Base.{
  ℕ, ◌≡◌, ◌⊎◌, refl, subst, true, false, ◌&&◌, ◌||◌, not, Option, none, some, List, [], ◌∷◌, ◌++◌,
  arith, any, any-append, first, ◌==◌, Option-cases, Bool-cases, inl, inr,
}
use wsms_gateway.Models.Enums.{RoutingPolicy}
use wsms_gateway.Models.Records.{Text, is_empty, Message, Db}
use wsms_gateway.Text.{text_eq}
use wsms_gateway.Text.Laws.{text_eq_sound, text_eq_refl}
use wsms_gateway.Router.Msisdn.{normalize_msisdn}
use wsms_gateway.Api.Messages.{
  SubmitReq, Submit, policy_of, has_dedup, new_message, conflicts, create, look_up, validated,
  submit_message,
}

-- No two messages of a client share a dedup key.
abbrev pub IsDeduped : List Message → Type 0
IsDeduped [] = Unit
IsDeduped (m ∷ ms) = (conflicts m.dedup_key m.client_id ms ≡ false) × IsDeduped ms

has_dedup_sym :
    (m x : Message) (key other : Text)
    → m.dedup_key ≡ some key
    → x.dedup_key ≡ some other
    → has_dedup m.client_id key x ≡ false
    → has_dedup x.client_id other m ≡ false
has_dedup_sym m x key other k o h = elim (Bool-cases (has_dedup x.client_id other m)) [
  | inl t ↦
      let t' : (m.client_id == x.client_id && text_eq key other) ≡ true = rw k at t in
      let h' : (x.client_id == m.client_id && text_eq other key) ≡ false = rw o at h in
      let one = text_eq_sound key other (ground arith) in
      let again = subst (λ z. text_eq z key ≡ true) one (text_eq_refl key) in absurd (ground arith)
  | inr f ↦ f
]

conflicts-append :
    (m x : Message) (xs : List Message)
    → conflicts x.dedup_key x.client_id xs ≡ false
    → conflicts m.dedup_key m.client_id (x ∷ []) ≡ false
    → conflicts x.dedup_key x.client_id (xs ++ m ∷ []) ≡ false
conflicts-append m x xs old new = elim (Option-cases x.dedup_key) [
  | inl no_key ↦ rw no_key refl
  | inr (other, o) ↦
      let old' : any (has_dedup x.client_id other) xs ≡ false = rw o at old in
      let apart : has_dedup x.client_id other m ≡ false =
        apart_by other o (Option-cases m.dedup_key) in
      rw (o, any-append (has_dedup x.client_id other) xs (m ∷ []), old', apart) refl
]
  where
    apart_by :
        (other : Text)
        → x.dedup_key ≡ some other
        → ((m.dedup_key ≡ none) ⊎ ((key : Text) × (m.dedup_key ≡ some key)))
        → has_dedup x.client_id other m ≡ false
    apart_by other o (inl no_key) = rw no_key (ground arith)
    apart_by other o (inr (key, k)) =
        let new' : (has_dedup m.client_id key x || false) ≡ false = rw k at new in
        has_dedup_sym m x key other k o (ground arith)

conflicts_none :
    (k : Option Text) (client : ℕ) (x : Message) (xs : List Message)
    → conflicts k client (x ∷ xs) ≡ false
    → (conflicts k client (x ∷ []) ≡ false) × (conflicts k client xs ≡ false)
conflicts_none none client x xs h = (refl, refl)
conflicts_none (some key) client x xs h = ground arith

append-IsDeduped :
    (m : Message) (ms : List Message)
    → IsDeduped ms
    → conflicts m.dedup_key m.client_id ms ≡ false
    → IsDeduped (ms ++ m ∷ [])
append-IsDeduped m [] d free = (conflicts_nothing m.dedup_key, tt)
  where
    conflicts_nothing : (k : Option Text) → conflicts k m.client_id [] ≡ false
    conflicts_nothing none = refl
    conflicts_nothing (some k) = refl
append-IsDeduped m (x ∷ xs) (d, ds) free =
    let (here, there) = conflicts_none m.dedup_key m.client_id x xs free in
    (conflicts-append m x xs d here, append-IsDeduped m xs ds there)

create-IsDeduped :
    (w : Submit) (m : Message) (db : Db)
    → IsDeduped db.messages
    → IsDeduped (create w m db).1.messages
unfolding create
create-IsDeduped w m db d =
    elim (Bool-cases (w.creates && not (conflicts m.dedup_key m.client_id db.messages))) [
      | inl t ↦ rw t (append-IsDeduped m db.messages d (ground arith))
      | inr f ↦ rw f d
    ]

look_up-IsDeduped :
    (w : Submit) (m : Message) (key : Option Text) (db : Db)
    → ((other : Db) → IsDeduped other.messages → IsDeduped (w.others other).messages)
    → IsDeduped db.messages
    → IsDeduped (look_up w m key db).1.messages
unfolding look_up
look_up-IsDeduped w m none db o d = create-IsDeduped w m (w.others db) (o db d)
look_up-IsDeduped w m (some key) db o d = elim (Bool-cases w.finds) [
  | inl t ↦ elim (Option-cases (first (has_dedup m.client_id key) db.messages)) [
    | inl missing ↦ rw (t, missing) (create-IsDeduped w m (w.others db) (o db d))
    | inr (old, found) ↦ rw (t, found) d
  ]
  | inr f ↦ rw f d
]

-- A submission never stores a second message under a client's dedup key, whatever other
-- transactions that keep this do between its look-up and its insertion.
pub submit_message-IsDeduped :
    (w : Submit) (client : ℕ) (req : SubmitReq) (db : Db)
    → ((other : Db) → IsDeduped other.messages → IsDeduped (w.others other).messages)
    → IsDeduped db.messages
    → IsDeduped (submit_message w client req db).1.messages
unfolding submit_message validated
submit_message-IsDeduped w client req db o d =
    elim (Bool-cases (is_empty req.to || is_empty req.message)) [
      | inl t ↦ rw t d
      | inr f ↦ rw f (valid (normalize_msisdn req.to) (policy_of req.routing_policy))
    ]
  where
    valid :
        (to : Option Text) (p : Option RoutingPolicy)
        → IsDeduped (validated w client req to p db).1.messages
    valid none p = d
    valid (some c) none = d
    valid (some c) (some p) = look_up-IsDeduped w (new_message w client req c p) _ db o d
