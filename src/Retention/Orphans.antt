-- ===== src/Retention/Orphans.antt =====
-- The rows that the purge (server/internal/maintenance/retention.go) takes and the rows that it
-- leaves.
use mathlib.Core.Bool.{true≢false}
use wsms_gateway.Base.{
  ℕ, ◌≤◌, ◌≡◌, ◌↔◌, refl, sym, ◌∙◌, Bool, false, ◌&&◌, List, [], ◌∷◌, arith, ◌==◌, any-In, In,
  delete_where, Bool-cases, inl, inr, ◌⊎◌,
}
use wsms_gateway.Models.Records.{Message, MessageEvent, MessageSend, WebhookDelivery, Db}
use wsms_gateway.Retention.{is_old, in_old, purge}

module _ {A : Type 0} (p : A → Bool) where
  -- The rows that a deletion leaves.
  pub In-delete_where : (a : A) (xs : List A) → In a (delete_where p xs) → In a xs × (p a ≡ false)
  In-delete_where a [] i = absurd i
  In-delete_where a (x ∷ xs) i = elim (Bool-cases (p x)) [
    | inl gone ↦ let (j, f) = In-delete_where a xs (rw gone at i) in (inr j, f)
    | inr kept ↦
        let i' : (a ≡ x) ⊎ In a (delete_where p xs) = rw kept at i in
        elim i' [
          | inl e ↦ (inl e, rw e kept)
          | inr j ↦ let (k, f) = In-delete_where a xs j in (inr k, f)
        ]
  ]

  pub delete_where-In : (a : A) (xs : List A) → In a xs → p a ≡ false → In a (delete_where p xs)
  delete_where-In a [] i f = absurd i
  delete_where-In a (x ∷ xs) (inl e) f = let kept : p x ≡ false = rw (← e) f in rw kept (inl e)
  delete_where-In a (x ∷ xs) (inr i) f = elim (Bool-cases (p x)) [
    | inl gone ↦ rw gone (delete_where-In a xs i f)
    | inr kept ↦ rw kept (inr (delete_where-In a xs i f))
  ]

-- No message with the id is older than the cutoff.
abbrev pub IsRecent : ℕ → List Message → ℕ → Type 0
IsRecent cutoff messages id = (m : Message) → In m messages → m.id ≡ id → cutoff ≤ m.created_at

in_old_sound :
    (cutoff : ℕ) (messages : List Message) (id : ℕ)
    → in_old cutoff messages id ≡ false
    → IsRecent cutoff messages id
in_old_sound cutoff messages id f m i e = elim (Bool-cases (m.id == id && is_old cutoff m)) [
  | inl t ↦ absurd (
      true≢false (sym (any-In (λ (x : Message). x.id == id && is_old cutoff x) m messages i t) ∙ f))
  | inr n ↦ ground arith
]

pub in_old_complete :
    (cutoff : ℕ) (messages : List Message) (id : ℕ)
    → IsRecent cutoff messages id
    → in_old cutoff messages id ≡ false
in_old_complete cutoff [] id h = refl
in_old_complete cutoff (m ∷ messages) id h =
    let rest = in_old_complete cutoff messages id (λ x i e. h x (inr i) e) in
    elim (Bool-cases (m.id == id)) [
      | inl same ↦ let recent = h m (inl refl) (ground arith) in ground arith
      | inr other ↦ ground arith
    ]

-- A row stays exactly where no old message has its message id.
Stays-delete :
    {A : Type 0} (cutoff : ℕ) (messages : List Message) (message_of : A → ℕ) (rows : List A) (a : A)
    → In a (delete_where (λ x. in_old cutoff messages (message_of x)) rows)
      ↔ (In a rows × IsRecent cutoff messages (message_of a))
Stays-delete cutoff messages message_of rows a = (
  λ i.
      let (j, f) = In-delete_where (λ x. in_old cutoff messages (message_of x)) a rows i in
      (j, in_old_sound cutoff messages (message_of a) f),
  λ (i, h).
      delete_where-In (λ x. in_old cutoff messages (message_of x)) a rows i
        (in_old_complete cutoff messages (message_of a) h),
)

-- What a purge leaves, and what it takes.
pub record Purged (cutoff : ℕ) (db after : Db) : Type 0 where
  pub messages : (m : Message) → In m after.messages ↔ (In m db.messages × (cutoff ≤ m.created_at))
  pub events :
      (v : MessageEvent)
      → In v after.events ↔ (In v db.events × IsRecent cutoff db.messages v.message_id)
  pub sends :
      (s : MessageSend)
      → In s after.sends ↔ (In s db.sends × IsRecent cutoff db.messages s.message_id)
  pub deliveries :
      (w : WebhookDelivery)
      → In w after.deliveries ↔ (In w db.deliveries × IsRecent cutoff db.messages w.message_id)
  pub rest : after ≡ record db {
    messages = after.messages;
    events = after.events;
    sends = after.sends;
    deliveries = after.deliveries;
  }

-- A purge leaves exactly the messages that are not older than the cutoff; it leaves an event, a
-- ledger row or a delivery exactly where no message with its message id is older than the cutoff;
-- and it changes no other table.
pub purge-Purged : (cutoff : ℕ) (db : Db) → Purged cutoff db (purge cutoff db)
unfolding purge
purge-Purged cutoff db = record {
  messages = λ m. (
    (λ i. let (j, f) = In-delete_where (is_old cutoff) m db.messages i in (j, ground arith)),
    (λ (i, h). delete_where-In (is_old cutoff) m db.messages i (ground arith)),
  );
  events = λ v. Stays-delete cutoff db.messages (λ (x : MessageEvent). x.message_id) db.events v;
  sends = λ s. Stays-delete cutoff db.messages (λ (x : MessageSend). x.message_id) db.sends s;
  deliveries =
      λ w. Stays-delete cutoff db.messages (λ (x : WebhookDelivery). x.message_id) db.deliveries w;
  rest = refl;
}
