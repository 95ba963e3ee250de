-- ===== src/Dispatch/State/Advance.antt =====
-- `advanceIfPinned` (server/internal/dispatch/dispatcher.go) on a message of each status.
use wsms_gateway.Base.{
  ℕ, ◌≡◌, refl, ◌∙◌, Bool, true, false, ◌&&◌, some, [], ◌∷◌, ◌++◌, arith, any, ◌==◌, IsKeyed,
  update_where_none, any-by_key, by_key-update_where, first_sound,
}
use wsms_gateway.Models.Enums.{MessageStatus, EventType, is_pinned}
use wsms_gateway.Models.Records.{Text, Message, Detail, Db}
use wsms_gateway.Dispatch.State.{message_key, find_message, with_status, advance_if_pinned}

-- A message that is not pinned is left alone, and nothing is recorded.
pub advance_if_pinned_late :
    (now id : ℕ) (to : MessageStatus) (ev : EventType) (reason : Text) (db : Db) {m : Message}
    → IsKeyed message_key db.messages
    → find_message id db ≡ some m
    → is_pinned m.status ≡ false
    → advance_if_pinned now id to ev reason db ≡ db
unfolding advance_if_pinned
advance_if_pinned_late now id to ev reason db {m} u found late =
    let p : Message → Bool = λ x. x.id == id && is_pinned x.status in
    let idle : any p db.messages ≡ false =
      any-by_key message_key id (λ x. is_pinned x.status) db.messages u found ∙ late in
    rw (idle, update_where_none p (with_status now to reason) db.messages idle) refl

-- A pinned message takes the new status, with one event.
pub advance_if_pinned_live :
    (now id : ℕ) (to : MessageStatus) (ev : EventType) (reason : Text) (db : Db) {m : Message}
    → IsKeyed message_key db.messages
    → find_message id db ≡ some m
    → is_pinned m.status ≡ true
    → let after = advance_if_pinned now id to ev reason db in
      (find_message id after ≡ some (with_status now to reason m))
      × (after.events
          ≡ db.events
            ++ record {
              message_id = id;
              event_type = ev;
              detail = Detail.reason reason;
              created_at = now;
            }
              ∷ [])
unfolding advance_if_pinned
advance_if_pinned_live now id to ev reason db {m} u found live =
    let p : Message → Bool = λ x. x.id == id && is_pinned x.status in
    let hit : any p db.messages ≡ true =
      any-by_key message_key id (λ x. is_pinned x.status) db.messages u found ∙ live in
    let row =
      by_key-update_where message_key p (with_status now to reason) id db.messages (λ x. refl) in
    let same = first_sound (λ x. x.id == id) db.messages found in
    (rw hit (row ∙ rw found (ground arith)), rw hit refl)
