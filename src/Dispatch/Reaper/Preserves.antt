-- ===== src/Dispatch/Reaper/Preserves.antt =====
-- The reaper (server/internal/dispatch/dispatcher.go) keeps the invariant of the messages.
use wsms_gateway.Base.{ℕ, ◌≡◌, refl, true, arith, List}
use wsms_gateway.Models.Records.{Message, MessageSend, Db}
use wsms_gateway.Dispatch.Reaper.{
  is_overdue, is_stuck, is_unconfirmed, expire, recover, give_up, reap,
}
use wsms_gateway.Dispatch.Invariant.{IsSound, InvDb, update-Inv}

expire-IsSound :
    (now : ℕ) (sends : List MessageSend) (m : Message)
    → IsSound sends m
    → IsSound sends (expire now m)
unfolding expire
expire-IsSound now sends m v = ground arith

recover-IsSound :
    (now : ℕ) (sends : List MessageSend) (m : Message)
    → is_stuck now m ≡ true
    → IsSound sends m
    → IsSound sends (recover now m)
unfolding is_stuck recover
recover-IsSound now sends m t v = ground arith

give_up-IsSound :
    (wait now : ℕ) (sends : List MessageSend) (m : Message)
    → is_unconfirmed wait now m ≡ true
    → IsSound sends m
    → IsSound sends (give_up now m)
unfolding is_unconfirmed give_up
give_up-IsSound wait now sends m t v = ground arith

pub reap-Inv : (wait now : ℕ) (db : Db) → InvDb db → InvDb (reap wait now db)
unfolding reap
reap-Inv wait now db v =
    let expired =
      update-Inv (is_overdue now) (expire now) db.messages db.sends (λ m. refl)
        (λ m i t. expire-IsSound now db.sends m (v.each m i)) v in
    let recovered =
      update-Inv (is_stuck now) (recover now) _ db.sends (λ m. refl)
        (λ m i t. recover-IsSound now db.sends m t (expired.each m i)) expired in
    update-Inv (is_unconfirmed wait now) (give_up now) _ db.sends (λ m. refl)
      (λ m i t. give_up-IsSound wait now db.sends m t (recovered.each m i)) recovered
