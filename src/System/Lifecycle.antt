-- ===== src/System/Lifecycle.antt =====
-- What becomes of the messages of the server in the long run.
use wsms_gateway.Base.{
  ℕ, ◌+◌, ◌≤◌, ◌<◌, ◌≡◌, refl, ap, ◌∙◌, true, ◌&&◌, some, arith, In, first-In, if◌then◌else◌,
}
use wsms_gateway.Models.Enums.{is_terminal, is_queued}
use wsms_gateway.Models.Records.{Message}
use wsms_gateway.Dispatch.State.{State, find_message}
use wsms_gateway.Dispatch.Invariant.{InvDb}
use wsms_gateway.Dispatch.Lifecycle.{is_awaiting_ack, Follows, SamePayload}
use wsms_gateway.Dispatch.Reaper.{reap}
use wsms_gateway.Dispatch.Reaper.Settled.{reap-settles}
use wsms_gateway.Retention.Preserves.{find-purge}
use wsms_gateway.System.{Reachable, Step-Advances, Reachable-Inv}

-- The payload is the one that was stored, and no attempt is taken back.
pub record Lasts (m after : Message) : Type 0 where
  pub payload : SamePayload m after
  pub grown : m.attempts ≤ after.attempts

Lasts-refl : (m : Message) → Lasts m m
Lasts-refl m = record { payload = refl; grown = omega arith }

attempts_grow :
    (a b c : Message)
    → a.attempts ≤ b.attempts
    → c.attempts
      ≡ (if is_queued b.status && is_awaiting_ack c.status then b.attempts + 1 else b.attempts)
    → a.attempts ≤ c.attempts
attempts_grow a b c h k = ground arith

Follows-Lasts : (a b c : Message) → Lasts a b → Follows b c → Lasts a c
Follows-Lasts a b c l f = record {
  payload =
      f.payload
      ∙ ap
          (λ (x : Message). record x {
            status = c.status;
            assigned_sim_id = c.assigned_sim_id;
            assigned_device_id = c.assigned_device_id;
            assigned_operator = c.assigned_operator;
            attempts = c.attempts;
            last_error = c.last_error;
            dispatched_at = c.dispatched_at;
            updated_at = c.updated_at;
          })
          l.payload;
  grown = attempts_grow a b c l.grown f.counted;
}

-- No purge of the sequence takes a message of the time or later.
abbrev pub Spares : (t : ℕ) (a b : State) → Reachable a b → Type 0
Spares t a b (Reachable.here st) = Unit
Spares t a b (Reachable.next x y z r s) = Spares t x y r
Spares t a b (Reachable.purged x y cutoff r) = Spares t x y r × (cutoff ≤ t)

lasting :
    (a b : State) (id : ℕ) (m : Message) (r : Reachable a b)
    → Spares m.created_at a b r
    → InvDb a.db
    → find_message id a.db ≡ some m
    → (m' : Message) × (find_message id b.db ≡ some m') × Lasts m m'
lasting a b id m (Reachable.here st) spares v found = (m, found, Lasts-refl m)
lasting a b id m (Reachable.next x y z r s) spares v found =
    let (m', there, l) = lasting x y id m r spares v found in
    let (w, each) = Step-Advances y z s (Reachable-Inv x y r v) in
    let (m'', then_there, f) = each id m' there in (m'', then_there, Follows-Lasts m m' m'' l f)
lasting a b id m (Reachable.purged x y cutoff r) (spares, recent) v found =
    let (m', there, l) = lasting x y id m r spares v found in
    let same : m'.created_at ≡ m.created_at = ap (λ (x : Message). x.created_at) l.payload in
    (m', find-purge cutoff id y.db there (rw same recent), l)

-- A message that is stored stays stored: after any sequence of calls and purges, of which no purge
-- has a cutoff after the creation of the message, it is found under its id, with the number, text,
-- policy, expiry and all else that the client submitted, and with at least the attempts that it had,
-- of which there are at most its maximum, if the invariant holds at the start.
pub Reachable-Lasts :
    (a b : State) (id : ℕ) (m : Message) (r : Reachable a b)
    → Spares m.created_at a b r
    → InvDb a.db
    → find_message id a.db ≡ some m
    → (m' : Message) × (find_message id b.db ≡ some m')
      × Lasts m m'
      × (m'.attempts ≤ m.max_attempts)
Reachable-Lasts a b id m r spares v found =
    let (m', there, l) = lasting a b id m r spares v found in
    let sound = (Reachable-Inv a b r v).each m' (first-In _ m' b.db.messages there) in
    let cap : m'.max_attempts ≡ m.max_attempts = ap (λ (x : Message). x.max_attempts) l.payload in
    (m', there, l, rw (← cap) sound.capped)

-- Liveness: a tick that comes when every expiry is past, and the delivery wait of every message that
-- was handed over, leaves every message of a reachable state in a terminal status.
pub Reachable-settles :
    (a b : State) (wait now : ℕ)
    → Reachable a b
    → InvDb a.db
    → ((m : Message) → In m b.db.messages → m.expires_at ≤ now)
    → ((m : Message) (t : ℕ) → In m b.db.messages → m.dispatched_at ≡ some t → t + wait < now)
    → (id : ℕ) (m : Message) → find_message id (reap wait now b.db) ≡ some m
    → is_terminal m.status ≡ true
Reachable-settles a b wait now r v late waited id m found =
    let inv = Reachable-Inv a b r v in
    reap-settles wait now b.db id m (λ x i. (inv.each x i).assigned) late waited found
