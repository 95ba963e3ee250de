-- ===== src/Dispatch/Send/Starved.antt =====
-- The drain loop of a worker (server/internal/dispatch/dispatcher.go) while no SIM is READY.
use mathlib.Core.Bool.{false≢true}
use wsms_gateway.Base.{
  ℕ, zero, suc, ◌+◌, ◌≤◌, ◌<◌, ◌≡◌, refl, sym, ◌∙◌, ap, subst, Bool, true, false, List, [], ◌∷◌,
  arith, ◌==◌, ==_refl, ==_iff, some, ltb, In, In-update_where, In-same_key, IsKeyed, any-In,
  update_where, update_where-IsKeyed, Option-cases, Bool-cases, inl, inr, if◌then◌else◌,
}
use wsms_gateway.Models.Enums.{MessageStatus, is_queued, is_ready}
use wsms_gateway.Models.Records.{Text, Device, Message, Sim, Db}
use wsms_gateway.Text.{text}
use wsms_gateway.Router.Engine.{World, Choice, RouteError, Result, best, eligible}
use wsms_gateway.Router.Engine.Reserve.{best_none, best_sound, best_least}
use wsms_gateway.Router.Engine.Promise.{Routes}
use wsms_gateway.Router.Engine.Route.{route-Routes}
use wsms_gateway.Dispatch.State.{State, Env, now_of, message_key, with_status, set_status}
use wsms_gateway.Dispatch.Send.{
  claimable, older, claimed, claim, routed, process, dispatch_one, drain,
}
use wsms_gateway.Dispatch.Send.Preserves.{Routes-Same, wake_for-Same}
use wsms_gateway.Dispatch.Send.Outcome.{wake_for-Idle}
use wsms_gateway.Dispatch.Send.Claim.{older_weak}

-- No SIM is READY, and the message is QUEUED and older than any other.
pub record Blocks (m : Message) (db : Db) : Type 0 where
  pub row : In m db.messages
  pub queued : is_queued m.status ≡ true
  pub keyed : IsKeyed message_key db.messages
  pub oldest : (y : Message) → In y db.messages → (y.id == m.id) ≡ false → older m y ≡ true
  pub nobody : (s : Sim) → In s db.sims → is_ready s.status ≡ false

-- The message is not locked by another worker, and has time left.
abbrev pub Live : Message → Env → Type 0
Live m e =
    (now_of e < m.expires_at)
    × (now_of e + e.min_remaining_ttl ≤ m.expires_at)
    × (e.locked_message m.id ≡ false)

update_where-In :
    (p : Message → Bool) (f : Message → Message) (y : Message) (xs : List Message)
    → In y xs
    → In (if p y then f y else y) (update_where p f xs)
update_where-In p f y [] i = absurd i
update_where-In p f y (x ∷ xs) (inl e) = inl (rw e refl)
update_where-In p f y (x ∷ xs) (inr i) = inr (update_where-In p f y xs i)

-- Two statements for one row, of which the second sets all that the first does.
requeued_row :
    (now k : ℕ) (reason : Text) (xs : List Message)
    → update_where
        (λ x. x.id == k)
        (with_status now MessageStatus.queued reason)
        (update_where (λ x. x.id == k) (claimed now) xs)
      ≡ update_where (λ x. x.id == k) (with_status now MessageStatus.queued reason) xs
unfolding claimed
requeued_row now k reason [] = refl
requeued_row now k reason (x ∷ xs) = elim (Bool-cases (x.id == k)) [
  | inl q ↦ rw (q, q, requeued_row now k reason xs) refl
  | inr q ↦ rw (q, q, requeued_row now k reason xs) refl
]

-- A row with another id is not touched.
untouched :
    (k : ℕ) (f : Message → Message) (x y : Message)
    → (f x).id ≡ x.id
    → y ≡ (if x.id == k then f x else x)
    → (y.id == k) ≡ false
    → y ≡ x
untouched k f x y keeps e other = elim (Bool-cases (x.id == k)) [
  | inl q ↦
      let changed : y ≡ f x = e ∙ rw q refl in
      absurd (false≢true (sym other ∙ ap (λ (z : Message). z.id == k) changed ∙ rw keeps q))
  | inr q ↦ e ∙ rw q refl
]

-- The message that blocks, back in the queue.
update-Blocks :
    (m : Message) (now : ℕ) (reason : Text) (db after : Db)
    → after.messages
      ≡ update_where (λ x. x.id == m.id) (with_status now MessageStatus.queued reason) db.messages
    → after.sims ≡ db.sims
    → Blocks m db
    → Blocks (with_status now MessageStatus.queued reason m) after
update-Blocks m now reason db after new same b =
    let f = with_status now MessageStatus.queued reason in
    record {
      row = rw new (
          subst (λ t. In (if t then f m else m) (update_where (λ x. x.id == m.id) f db.messages))
            (==_refl m.id) (update_where-In (λ x. x.id == m.id) f m db.messages b.row));
      queued = refl;
      keyed = rw new (update_where-IsKeyed message_key _ f db.messages (λ x. refl) b.keyed);
      oldest = λ y i other.
          let (x, j, e) =
            In-update_where (λ x. x.id == m.id) f y db.messages (subst (In y) new i) in
          let kept = untouched m.id f x y refl e other in
          subst (λ z. older m z ≡ true) (sym kept)
            (b.oldest x j (subst (λ (z : Message). (z.id == m.id) ≡ false) kept other));
      nobody = λ s i. b.nobody s (subst (In s) same i);
    }

eligible-ready :
    (w : World) (ds : List Device) (seg : ℕ) (s : Sim)
    → eligible w ds [] seg s ≡ true
    → is_ready s.status ≡ true
unfolding eligible
eligible-ready w ds seg s h = ground arith

-- What becomes of the message and of the SIMs.
abbrev Waits : Env → Message → State → State → Type 0
Waits e m st after =
    (reason : Text) × (after.db.messages
      ≡ update_where (λ x. x.id == m.id) (with_status (now_of e) MessageStatus.queued reason)
          st.db.messages)
    × (after.db.sims ≡ st.db.sims)

routed-Waits :
    (e : Env) (m : Message) (r : Result Choice × Db) (st : State)
    → ((s : Sim) → In s st.db.sims → is_ready s.status ≡ false)
    → Routes e.engine m st.db r
    → Waits e m st (routed e m r st)
unfolding routed set_status
routed-Waits e m (Result.ok c, db) st nobody t =
    absurd (false≢true (sym (nobody t.sim t.row) ∙ eligible-ready e.engine _ _ t.sim t.fits))
routed-Waits e m (Result.err RouteError.no_capacity, db) st nobody t =
    let same = Routes-Same e.engine m st.db (Result.err RouteError.no_capacity, db) t in
    let (p, h, s) = wake_for-Idle e m (record st { db = db }) in
    let kept = (wake_for-Same e m (record st { db = db })).0 ∙ same.0 in
    (text "no capacity, awaiting SIM", rw kept refl, s ∙ rw t.unchanged refl)
routed-Waits e m (Result.err RouteError.db_error, db) st nobody t =
    (text "route error", rw t refl, rw t refl)

process-Waits :
    (e : Env) (m : Message) (st : State)
    → now_of e + e.min_remaining_ttl ≤ m.expires_at
    → ((s : Sim) → In s st.db.sims → is_ready s.status ≡ false)
    → Waits e m st (process e m st)
unfolding process
process-Waits e m st time nobody =
    let live : ltb m.expires_at (now_of e + e.min_remaining_ttl) ≡ false = ground arith in
    rw live (routed-Waits e m _ st nobody (route-Routes e.engine e.fallback m st.db))

-- The claim takes the message that blocks.
claim_blocking :
    (e : Env) (m : Message) (db : Db)
    → Blocks m db
    → Live m e
    → best older (claimable e) db.messages ≡ some m
unfolding claimable
claim_blocking e m db b live =
    let ready : claimable e m ≡ true = ground (arith, b.queued, live.0, live.2) in
    elim (Option-cases (best older (claimable e) db.messages)) [
      | inl idle ↦ absurd (
          false≢true (
            sym (best_none older (claimable e) db.messages idle)
            ∙ any-In (claimable e) m db.messages b.row ready))
      | inr (q, found) ↦
          let (i, ok) = best_sound older (claimable e) db.messages q found in
          elim (Bool-cases (q.id == m.id)) [
            | inl here ↦
                found
                ∙ ap (λ z. some z)
                    (In-same_key message_key q m db.messages b.keyed i b.row
                      ((==_iff q.id m.id).0 here))
            | inr other ↦ absurd (
                false≢true (
                  sym (
                    best_least older (claimable e) (λ x y h. ground arith) older_weak db.messages q
                      m found b.row ready)
                  ∙ b.oldest q i other))
          ]
    ]

-- One round: the message is claimed and waits again, and the other messages stay.
abbrev Again : Env → Message → State → State × Bool → Type 0
Again e m st (after, more) =
    (more ≡ true)
    × ((reason : Text) × Blocks (with_status (now_of e) MessageStatus.queued reason m) after.db)
    × ((y : Message) → In y st.db.messages → (y.id == m.id) ≡ false → In y after.db.messages)

dispatch_one-Again :
    (e : Env) (m : Message) (st : State)
    → Blocks m st.db
    → Live m e
    → Again e m st (dispatch_one e st)
unfolding dispatch_one claim claimed
dispatch_one-Again e m st b live =
    let found = claim_blocking e m st.db b live in
    let mid : State = record st {
      db = record st.db {
        messages = update_where (λ x. x.id == m.id) (claimed (now_of e)) st.db.messages;
      };
    } in
    let (reason, rows, sims) = process-Waits e (claimed (now_of e) m) mid live.1 b.nobody in
    let f = with_status (now_of e) MessageStatus.queued reason in
    let new = rows ∙ requeued_row (now_of e) m.id reason st.db.messages in
    rw (found, dispatch_one, claim)
      (
        refl,
        (
          reason,
          update-Blocks m (now_of e) reason st.db (process e (claimed (now_of e) m) mid).db new sims
              b,
        ),
        λ y i other. subst (In y) (sym new) (
            subst
              (λ t. In (if t then f y else y) (update_where (λ x. x.id == m.id) f st.db.messages))
              other (update_where-In (λ x. x.id == m.id) f y st.db.messages i)),
      )

-- While no SIM is READY, each round of the drain loop of a worker claims the same message again: a
-- QUEUED one that is strictly older than every other stored message, and that in every round has not
-- expired, has at least the minimum of its time to live left and is held by no other worker, where
-- ids are unique.
-- However many rounds are made, the loop does not end, the message is QUEUED as before, and no other
-- message is touched.
pub drain_starves :
    (n : ℕ) (envs : ℕ → Env) (m : Message) (st : State)
    → Blocks m st.db
    → ((k : ℕ) → Live m (envs k))
    → ((drain n envs st).1 ≡ true)
      × ((y : Message)
          → In y st.db.messages
          → (y.id == m.id) ≡ false
          → In y (drain n envs st).0.db.messages)
      × ((z : Message) × In z (drain n envs st).0.db.messages
          × (z.id ≡ m.id)
          × (is_queued z.status ≡ true))
unfolding drain
drain_starves zero envs m st b live = (refl, (λ y i other. i), (m, b.row, refl, b.queued))
drain_starves (suc n) envs m st b live =
    let (more, (reason, blocks), others) = dispatch_one-Again (envs n) m st b (live n) in
    let waiting = with_status (now_of (envs n)) MessageStatus.queued reason m in
    let (going, kept, still) =
      drain_starves n envs waiting (dispatch_one (envs n) st).0 blocks (λ k. live k) in
    rw more (going, (λ y i other. kept y (others y i other) other), still)
