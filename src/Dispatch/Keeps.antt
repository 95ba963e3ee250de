-- ===== src/Dispatch/Keeps.antt =====
-- What a call makes of the messages: the invariant of server/internal/dispatch/dispatcher.go stays, and
-- each message follows the diagram.
use wsms_gateway.Base.{◌≡◌, List}
use wsms_gateway.Models.Records.{Message, MessageSend, Db}
use wsms_gateway.Dispatch.Invariant.{Inv, InvDb}
use wsms_gateway.Dispatch.Lifecycle.{Follows, Follows-refl, Each, Each-same}

abbrev pub Keeps : Db → Db → Type 0
Keeps db after = (InvDb db → InvDb after) × Each Follows db.messages after.messages

pub Keeps-same :
    (xs ys : List Message) (ss ts : List MessageSend)
    → (ys ≡ xs) × (ts ≡ ss)
    → (Inv xs ss → Inv ys ts) × Each Follows xs ys
Keeps-same xs ys ss ts (m, s) = (λ v. rw (m, s) v, Each-same Follows xs ys Follows-refl m)
