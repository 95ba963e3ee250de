-- ===== src/Dispatch/Send/Drain.antt =====
-- The rounds of the drain loop of a worker (server/internal/dispatch/dispatcher.go), and the expiry of messages.
use mathlib.Core.Bool.{false≢true}
use wsms_gateway.Base.{
  ℕ, zero, suc, ◌≤◌, ◌≡◌, refl, sym, ◌∙◌, subst, true, false, List, [], ◌∷◌, arith, any-In, ◌==◌,
  All, any, update_where, Option-cases, Bool-cases, inl, inr,
}
use wsms_gateway.Models.Records.{Message}
use wsms_gateway.Router.Engine.{best}
use wsms_gateway.Dispatch.State.{State, Env, now_of}
use wsms_gateway.Dispatch.Send.{claimable, older, claimed, claim, pinned, dispatch_one, drain}
use wsms_gateway.Dispatch.Send.Claim.{dispatch_one-Claims}
use wsms_gateway.Dispatch.Send.Follows.{Fate, process-Updated}

-- All messages expire by a time.
abbrev pub ExpireBy : ℕ → List Message → Type 0
ExpireBy t = All (λ (m : Message). m.expires_at ≤ t)

update-ExpireBy :
    (t k : ℕ) (f : Message → Message) (xs : List Message)
    → ((m : Message) → (f m).expires_at ≡ m.expires_at)
    → ExpireBy t xs
    → ExpireBy t (update_where (λ m. m.id == k) f xs)
update-ExpireBy t k f [] keeps h = tt
update-ExpireBy t k f (x ∷ xs) keeps (h, hs) = elim (Bool-cases (x.id == k)) [
  | inl q ↦ rw q (rw (keeps x) h, update-ExpireBy t k f xs keeps hs)
  | inr q ↦ rw q (h, update-ExpireBy t k f xs keeps hs)
]

Fate-expires : (now : ℕ) (m after : Message) → Fate now m after → after.expires_at ≡ m.expires_at
unfolding pinned
Fate-expires now m after (Fate.handed c h) = rw h refl
Fate-expires now m after (Fate.waits reason h) = rw h refl
Fate-expires now m after (Fate.late reason h) = rw h refl

dispatch_one-ExpireBy :
    (e : Env) (st : State) (t : ℕ)
    → ExpireBy t st.db.messages
    → ExpireBy t (dispatch_one e st).0.db.messages
unfolding dispatch_one claim claimed
dispatch_one-ExpireBy e st t h = elim (Option-cases (best older (claimable e) st.db.messages)) [
  | inl idle ↦ rw (idle, dispatch_one, claim) h
  | inr (q, taken) ↦
      let u = process-Updated e (claimed (now_of e) q) _ in
      let met = update-ExpireBy t q.id (claimed (now_of e)) st.db.messages (λ m. refl) h in
      rw (taken, dispatch_one, claim)
        (subst (ExpireBy t) (sym u.rows)
          (update-ExpireBy t q.id u.change _ (λ m. Fate-expires _ m _ (u.fate m)) met))
]

none_claimable :
    (e : Env) (xs : List Message) → ExpireBy (now_of e) xs → any (claimable e) xs ≡ false
unfolding claimable
none_claimable e [] h = refl
none_claimable e (x ∷ xs) (h, hs) = ground (arith, none_claimable e xs hs)

-- The rounds n, n − 1, … from a state: each claims a message, up to round k, which finds none and
-- leaves the state as it is.
pub data Ends (envs : ℕ → Env) : ℕ → State → ℕ → State → Type 0 where
  stop : (k : ℕ) (st : State) → dispatch_one (envs k) st ≡ (st, false) → Ends envs k st k st
  go :
      (n k : ℕ) (st after : State)
      → (dispatch_one (envs (suc n)) st).1 ≡ true
      → Ends envs n (dispatch_one (envs (suc n)) st).0 k after
      → Ends envs (suc n) st k after

-- The n + 1 rounds of a drain loop have the environments n, n − 1, …, 0. Where every message of the
-- store has expired by the clock of environment 0, the loop ends in one of them, the round k: each
-- round before it claims a message, and round k finds none that can be claimed in its environment
-- and leaves the store, which is the one that the loop leaves.
pub drain-Ends :
    (n : ℕ) (envs : ℕ → Env) (st : State)
    → ExpireBy (now_of (envs 0)) st.db.messages
    → ((drain (suc n) envs st).1 ≡ false)
      × ((k : ℕ) × (k ≤ n)
          × Ends envs n st k (drain (suc n) envs st).0
          × (any (claimable (envs k)) (drain (suc n) envs st).0.db.messages ≡ false))
unfolding drain
drain-Ends zero envs st h = elim (dispatch_one-Claims (envs 0) st) [
  | inl (idle, none_left) ↦ rw idle (refl, (0, ground arith, Ends.stop 0 st idle, none_left))
  | inr c ↦ absurd (
      false≢true (
        sym (none_claimable (envs 0) st.db.messages h)
        ∙ any-In (claimable (envs 0)) c.message st.db.messages c.row c.ready))
]
drain-Ends (suc n) envs st h = elim (dispatch_one-Claims (envs (suc n)) st) [
  | inl (idle, none_left) ↦
      rw idle (refl, (suc n, ground arith, Ends.stop (suc n) st idle, none_left))
  | inr c ↦
      let (ended, (k, le, ends, left)) =
        drain-Ends n envs _ (dispatch_one-ExpireBy (envs (suc n)) st (now_of (envs 0)) h) in
      rw c.more (ended, (k, ground arith, Ends.go n k st _ c.more ends, left))
]
