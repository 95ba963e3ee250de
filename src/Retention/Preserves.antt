-- ===== src/Retention/Preserves.antt =====
-- The purge (server/internal/maintenance/retention.go) and the invariant of the messages.
use wsms_gateway.Base.{
  ℕ, ◌≤◌, ◌≡◌, refl, Bool, true, false, List, [], ◌∷◌, arith, ◌==◌, any, some, IsKeyed, In,
  In-same_key, first-delete_where_kept, delete_where, Bool-cases, inl, inr,
}
use wsms_gateway.Models.Records.{Message, MessageSend, Db}
use wsms_gateway.Dispatch.State.{message_key, find_message}
use wsms_gateway.Dispatch.Invariant.{InvDb, has_send}
use wsms_gateway.Retention.{is_old, in_old, purge}
use wsms_gateway.Retention.Orphans.{In-delete_where, in_old_complete}

any-delete_where :
    (k : ℕ) (p : Message → Bool) (xs : List Message)
    → any (λ (y : Message). y.id == k) xs ≡ false
    → any (λ (y : Message). y.id == k) (delete_where p xs) ≡ false
any-delete_where k p [] h = h
any-delete_where k p (x ∷ xs) h = ground (arith, any-delete_where k p xs)

delete_where-IsKeyed :
    (p : Message → Bool) (xs : List Message)
    → IsKeyed message_key xs
    → IsKeyed message_key (delete_where p xs)
delete_where-IsKeyed p [] u = u
delete_where-IsKeyed p (x ∷ xs) (alone, u) = elim (Bool-cases (p x)) [
  | inl gone ↦ rw gone (delete_where-IsKeyed p xs u)
  | inr kept ↦ rw kept (any-delete_where x.id p xs alone, delete_where-IsKeyed p xs u)
]

-- A message that stays is the only one with its id, so that its ledger row stays.
recent_alone :
    (cutoff : ℕ) (m : Message) (xs : List Message)
    → IsKeyed message_key xs
    → In m xs
    → is_old cutoff m ≡ false
    → in_old cutoff xs m.id ≡ false
recent_alone cutoff m xs u i f =
    in_old_complete cutoff xs m.id
      λ x j e. let same = In-same_key message_key x m xs u j i e in rw same (ground arith)

has_send-purge :
    (cutoff id : ℕ) (messages : List Message) (sends : List MessageSend)
    → in_old cutoff messages id ≡ false
    → has_send id sends ≡ true
    → has_send id (delete_where (λ (s : MessageSend). in_old cutoff messages s.message_id) sends)
      ≡ true
has_send-purge cutoff id messages [] f h = h
has_send-purge cutoff id messages (s ∷ sends) f h = elim (Bool-cases (s.message_id == id)) [
  | inl here ↦
      let same : s.message_id ≡ id = ground arith in
      let stays : in_old cutoff messages s.message_id ≡ false = rw same f in rw (stays, here) refl
  | inr other ↦
      let rest = has_send-purge cutoff id messages sends f (ground arith) in
      elim (Bool-cases (in_old cutoff messages s.message_id)) [
        | inl gone ↦ rw gone rest
        | inr stays ↦ rw (stays, other) rest
      ]
]

pub purge-Inv : (cutoff : ℕ) (db : Db) → InvDb db → InvDb (purge cutoff db)
unfolding purge
purge-Inv cutoff db v = record {
  keyed = delete_where-IsKeyed (is_old cutoff) db.messages v.keyed;
  each = λ m i.
      let (j, f) = In-delete_where (is_old cutoff) m db.messages i in
      let old = v.each m j in
      record {
        capped = old.capped;
        fresh = old.fresh;
        assigned = old.assigned;
        ledgered = λ c.
            has_send-purge cutoff m.id db.messages db.sends
              (recent_alone cutoff m db.messages v.keyed j f) (old.ledgered c);
      };
}

-- A message that is not older than the cutoff is still found.
pub find-purge :
    (cutoff id : ℕ) (db : Db) {m : Message}
    → find_message id db ≡ some m
    → cutoff ≤ m.created_at
    → find_message id (purge cutoff db) ≡ some m
unfolding purge
find-purge cutoff id db {m} found recent =
    first-delete_where_kept (λ x. x.id == id) (is_old cutoff) db.messages found (ground arith)
