-- ===== src/Admin/Session/Lifecycle.antt =====
-- From the sign-in to the sign-out (server/internal/admin/auth.go).
use wsms_gateway.Base.{
  subst, ℕ, ◌≡◌, refl, ◌∙◌, ap, Bool, true, false, Option, none, some, List, [], ◌∷◌, ◌+◌, ltb,
  first, any, delete_where, if◌then◌else◌, Bool-cases, Option-cases, inl, inr, arith,
  first-append_none, first_sound, In, first-In,
}
use wsms_gateway.Models.Records.{Text, AdminUser, AdminSession, Db}
use wsms_gateway.Text.{text_eq}
use wsms_gateway.Text.Laws.{text_eq_refl}
use wsms_gateway.Admin.Console.{ConsoleEnv}
use wsms_gateway.Admin.Session.{
  session_ttl, is_session, require_session, may_log_in, session_for, log_in_as, do_login, do_logout,
}

abbrev pub is_hash : ConsoleEnv → Text → AdminSession → Bool
is_hash e tok s = text_eq s.token_hash (e.digest tok)

-- The account behind a session: active, of the name and the password that were given; the session
-- holds for thirty days, as that account, and not after the sign-out.
pub record SignedIn (e : ConsoleEnv) (verify : Text → Text → Bool) (name password : Text)
    (db db' : Db) (tok : Text) : Type 0 where
  pub account : AdminUser
  pub row : In account db.users
  pub named : text_eq account.username name ≡ true
  pub active : account.active ≡ true
  pub live : account.deleted ≡ false
  pub verified : verify password account.password_hash ≡ true
  pub opened :
      (t : ℕ)
      → require_session (record e { now = t }) (some tok) db' ≡ (
          if ltb t (e.now + session_ttl)
          then some (record { id = account.id; username = account.username; role = account.role })
          else none)
  pub closed :
      (t : ℕ)
      → require_session (record e { now = t }) (some tok) (do_logout e (some tok) db') ≡ none

none_of_hash :
    (e : ConsoleEnv) (t : ℕ) (tok : Text) (xs : List AdminSession)
    → any (is_hash e tok) xs ≡ false
    → first (is_session (record e { now = t }) tok) xs ≡ none
none_of_hash e t tok [] h = refl
none_of_hash e t tok (x ∷ xs) h = ground (arith, none_of_hash e t tok xs)

deleted_of_hash :
    (e : ConsoleEnv) (tok : Text) (xs : List AdminSession)
    → any (is_hash e tok) (delete_where (is_hash e tok) xs) ≡ false
deleted_of_hash e tok [] = refl
deleted_of_hash e tok (x ∷ xs) = ground (arith, deleted_of_hash e tok xs)

found_session :
    (e : ConsoleEnv) (u : AdminUser) (db : Db) (t : ℕ)
    → e.stores 0 ≡ true
    → any (is_hash e (e.token 0)) db.sessions ≡ false
    → first (is_session (record e { now = t }) (e.token 0)) (log_in_as e u db).sessions
      ≡ (if ltb t (e.now + session_ttl) then some (session_for e u) else none)
unfolding log_in_as
found_session e u db t y h = rw y (
    first-append_none (is_session (record e { now = t }) (e.token 0)) db.sessions _
      (none_of_hash e t (e.token 0) db.sessions h)
    ∙ rw (text_eq_refl (e.digest (e.token 0))) refl)

opened_by :
    (e : ConsoleEnv) (u : AdminUser) (db : Db) (t : ℕ)
    → e.stores 0 ≡ true
    → any (is_hash e (e.token 0)) db.sessions ≡ false
    → require_session (record e { now = t }) (some (e.token 0)) (log_in_as e u db) ≡ (
        if ltb t (e.now + session_ttl)
        then some (record { id = u.id; username = u.username; role = u.role })
        else none)
unfolding require_session
opened_by e u db t y h = elim (Bool-cases (ltb t (e.now + session_ttl))) [
  | inl q ↦ let f = found_session e u db t y h in rw (q, require_session, rw q at f) refl
  | inr q ↦ let f = found_session e u db t y h in rw (q, require_session, rw q at f) refl
]

closed_by :
    (e : ConsoleEnv) (tok : Text) (db : Db) (t : ℕ)
    → require_session (record e { now = t }) (some tok) (do_logout e (some tok) db) ≡ none
unfolding require_session do_logout
closed_by e tok db t =
    rw (require_session, none_of_hash e t tok _ (deleted_of_hash e tok db.sessions)) refl

-- A sign-in that sets a cookie was made with the name and the password of an active account; the
-- cookie then opens the console as that account, with its role, for thirty days and no longer, and
-- not once it has signed out, provided that the session was stored and that no older one has the
-- hash of its token.
pub do_login-SignedIn :
    (e : ConsoleEnv) (verify : Text → Text → Bool) (name password : Text) (db db' : Db) (tok : Text)
    → e.stores 0 ≡ true
    → any (is_hash e (e.token 0)) db.sessions ≡ false
    → do_login e verify name password db ≡ (some tok, db')
    → SignedIn e verify name password db db' tok
unfolding do_login
do_login-SignedIn e verify name password db db' tok y h k =
    elim (Option-cases (first (may_log_in name) db.users)) [
      | inl q ↦ absurd (no_cookie (rw (q, do_login) at k))
      | inr (u, q) ↦ elim (Bool-cases (verify password u.password_hash)) [
        | inr bad ↦ absurd (no_cookie (rw (q, do_login, bad) at k))
        | inl good ↦
            let met = first_sound (may_log_in name) db.users q in
            let (to, into) = same_pair (rw (q, do_login, good) at k) in
            subst (λ x. SignedIn e verify name password db x tok) into
              (subst (λ x. SignedIn e verify name password db (log_in_as e u db) x) to
                (record {
                  account = u;
                  row = first-In _ u db.users q;
                  named = ground arith;
                  active = ground arith;
                  live = ground arith;
                  verified = good;
                  opened = λ t. opened_by e u db t y h;
                  closed = λ t. closed_by e (e.token 0) (log_in_as e u db) t;
                }))
      ]
    ]
  where
    no_cookie : {a b : Db} {x : Text} → ◌≡◌ {A = Option Text × Db} (none, a) (some x, b) → ⊥
    no_cookie z = absurd (no_text (ap (λ (y : Option Text × Db). y.0) z))
      where
        no_text : {x : Text} → ◌≡◌ {A = Option Text} none (some x) → ⊥
        no_text z = cc

    same_pair :
        {a b : Db} {x y : Text}
        → ◌≡◌ {A = Option Text × Db} (some x, a) (some y, b)
        → (x ≡ y) × (a ≡ b)
    same_pair z = ground arith
