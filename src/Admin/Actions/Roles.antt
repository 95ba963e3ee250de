-- ===== src/Admin/Actions/Roles.antt =====
-- Who changes what in the console: the sessions and the roles.
use wsms_gateway.Base.{
  ◌≡◌, refl, ◌⊎◌, inl, inr, true, false, Option, none, some, if◌then◌else◌, Bool-cases,
  Option-cases, ap, arith, In, first, first-In, first_sound, ◌<◌, and_split,
}
use wsms_gateway.Models.Records.{Text, AdminSession, Db}
use wsms_gateway.Text.Laws.{text_eq_sound}
use wsms_gateway.Admin.Console.{Console, ConsoleEnv, User, can_mutate, can_unmask}
use wsms_gateway.Admin.Session.{require_session, is_session, user_of}
use wsms_gateway.Admin.Traffic.{unmask_msisdn}
use wsms_gateway.Admin.Actions.{Action, handle, is_unmask, perform, request, as_user}

-- The session behind a request: of the cookie's token, not expired, with the role that may change
-- things, or for a number the role that may see it.
pub record Permitted (e : ConsoleEnv) (cookie : Option Text) (a : Action) (db : Db) : Type 0 where
  pub token : Text
  pub session : AdminSession
  pub carried : cookie ≡ some token
  pub row : In session db.sessions
  pub hashed : session.token_hash ≡ e.digest token
  pub current : e.now < session.expires_at
  pub allowed : (if is_unmask a then can_unmask session.role else can_mutate session.role) ≡ true

session_of :
    (e : ConsoleEnv) (cookie : Option Text) (a : Action) (db : Db) (u : User)
    → require_session e cookie db ≡ some u
    → (if is_unmask a then can_unmask u.role else can_mutate u.role) ≡ true
    → Permitted e cookie a db
unfolding require_session
session_of e none a db u h r = absurd (cc h)
session_of e (some tok) a db u h r = elim (Option-cases (first (is_session e tok) db.sessions)) [
  | inl q ↦ absurd (no_user (rw (q, require_session) at h))
  | inr (s, q) ↦
      let same : user_of s ≡ u = one_user (rw (q, require_session) at h) in
      let (named, timely) = and_split _ _ (first_sound (is_session e tok) db.sessions q) in
      record {
        token = tok;
        session = s;
        carried = refl;
        row = first-In _ s db.sessions q;
        hashed = text_eq_sound _ _ named;
        current = ground arith;
        allowed = rw (ap (λ (v : User). v.role) same) r;
      }
]
  where
    no_user : {v : User} → ◌≡◌ {A = Option User} none (some v) → ⊥
    no_user k = cc

    one_user : {v w : User} → some v ≡ some w → v ≡ w
    one_user k = cc

handle_blind :
    (e : ConsoleEnv) (u : User) (a : Action) (c : Console)
    → is_unmask a ≡ true
    → can_unmask u.role ≡ false
    → (handle e u a c).1 ≡ c
unfolding handle unmask_msisdn
handle_blind e u (Action.unmask id reason) c h r = rw r
handle_blind e u _ c h r = absurd (cc h)

perform_blind :
    (e : ConsoleEnv) (u : User) (a : Action) (c : Console)
    → (if is_unmask a then can_unmask u.role else can_mutate u.role) ≡ false
    → (perform e u a c).1 ≡ c
unfolding perform
perform_blind e u a c h = elim (Bool-cases (is_unmask a)) [
  | inl q ↦ rw (q, perform) (handle_blind e u a c q (rw q at h))
  | inr q ↦ let r : can_mutate u.role ≡ false = rw q at h in rw (q, r, perform)
]

-- A request of the console either changes nothing, or its cookie carries the token of a session that
-- is stored and has not expired, and whose role may change things (or see numbers, for the request
-- that shows one).
pub request-Permitted :
    (e : ConsoleEnv) (cookie : Option Text) (a : Action) (c : Console)
    → ((request e cookie a c).1 ≡ c) ⊎ Permitted e cookie a c.db
unfolding request as_user
request-Permitted e cookie a c = elim (Option-cases (require_session e cookie c.db)) [
  | inl q ↦ inl (rw (q, request))
  | inr (u, q) ↦ elim (Bool-cases (if is_unmask a then can_unmask u.role else can_mutate u.role)) [
    | inl r ↦ inr (session_of e cookie a c.db u q r)
    | inr r ↦ inl (rw (q, request) (perform_blind e u a c r))
  ]
]
