-- ===== src/Admin/Fleet/Unlink.antt =====
-- What is left of a device that was unlinked (unlinkDevice of server/internal/admin/actions.go): it
-- cannot connect, it has no connection, and no message goes to its SIMs.
use mathlib.Core.Bool.{false≢true}
use wsms_gateway.Base.{
  sym, ap, ◌∙◌, subst, first_sound, ℕ, ◌≡◌, refl, true, false, not, ◌&&◌, ◌==◌, Option, none, some,
  List, [], ◌∷◌, any, first, by_key, ◌≢◌, update_where, Option-cases, inl, inr, arith,
  first-delete_where, delete_where,
}
use wsms_gateway.Models.Enums.{Operator, is_disabled}
use wsms_gateway.Models.Records.{Text, Device, Sim, Message, Db}
use wsms_gateway.Ws.Hub.{Entry, lookup_conn, Hub, entry_key, close, disconnect}
use wsms_gateway.Router.Engine.{
  World, FallbackConfig, Choice, Result, eligible, is_reachable, route,
}
use wsms_gateway.Router.Engine.Promise.{Routed, Routes}
use wsms_gateway.Router.Engine.Route.{route-Routes}
use wsms_gateway.Api.Auth.{Crypto, parse_device_bearer}
use wsms_gateway.Api.Device.{find_device, check_secret, device_auth}
use wsms_gateway.Admin.Console.{Console}
use wsms_gateway.Admin.Fleet.{unlink_device}

device_gone :
    (id : ℕ) (xs : List Device)
    → first
        (λ (d : Device). d.id == id && (not (is_disabled d.status) && not d.deleted))
        (update_where (λ d. d.id == id && not d.deleted) (λ d. record d { deleted = true }) xs)
      ≡ none
device_gone id [] = refl
device_gone id (x ∷ xs) = ground (arith, device_gone id xs)

unreachable :
    (id : ℕ) (xs : List Device)
    → any
        (λ d. d.id == id && is_reachable d)
        (update_where (λ d. d.id == id && not d.deleted) (λ d. record d { deleted = true }) xs)
      ≡ false
unfolding is_reachable
unreachable id [] = refl
unreachable id (x ∷ xs) = ground (arith, unreachable id xs)

no_connection : (id : ℕ) (h : Hub) → by_key entry_key id h.conns ≡ none → lookup_conn h id ≡ none
unfolding lookup_conn
no_connection id h q = rw (q, lookup_conn)

disconnected : (id : ℕ) (h : Hub) → lookup_conn (disconnect id h) id ≡ none
unfolding lookup_conn disconnect close
disconnected id h = elim (Option-cases (by_key entry_key id h.conns)) [
  | inl q ↦ rw (disconnect, lookup_conn, q) (no_connection id h q)
  | inr (c, q) ↦
      rw (disconnect, lookup_conn, q)
        (no_connection id
          (record {
            conns = delete_where (λ (e : Entry). e.device_id == id) h.conns;
            heap = h.heap;
          })
          (first-delete_where (λ (e : Entry). e.device_id == id) h.conns))
]

known :
    (x : Crypto) (db : Db) (at id : ℕ) (sec : Text)
    → check_secret x sec (find_device db at) ≡ some id
    → (d : Device) × (find_device db at ≡ some d) × (d.id ≡ id) × (at ≡ id)
known x db at id sec h = elim (Option-cases (find_device db at)) [
  | inl q ↦ absurd (nobody (rw q at h))
  | inr (d, q) ↦
      let same : d.id ≡ id = ground arith in
      let met =
        first_sound (λ (d : Device). d.id == at && (not (is_disabled d.status) && not d.deleted))
          db.devices q in
      (d, q, same, ground arith)
]
  where
    nobody : {k : ℕ} → ◌≡◌ {A = Option ℕ} none (some k) → ⊥
    nobody z = cc

no_longer_known :
    (x : Crypto) (read_id : Text → ℕ) (header : Text) (id : ℕ) (c : Console)
    → device_auth x read_id header (unlink_device id c).db ≢ some id
unfolding device_auth unlink_device
no_longer_known x read_id header id c h = elim (Option-cases (parse_device_bearer header)) [
  | inl q ↦ absurd (none-ne (rw (q, device_auth) at h))
  | inr ((i, sec), q) ↦
      let (d, found, same, named) =
        known x (unlink_device id c).db (read_id i) id sec (rw (q, device_auth) at h) in
      none-ne (
        sym (device_gone id c.db.devices)
        ∙ subst (λ k. find_device (unlink_device id c).db k ≡ some d) named found)
]
  where
    none-ne : {A : Type 0} {a : A} → ◌≡◌ {A = Option A} none (some a) → ⊥
    none-ne z = cc

eligible-reachable :
    (w : World) (ds : List Device) (ops : List Operator) (seg : ℕ) (s : Sim)
    → eligible w ds ops seg s ≡ true
    → any (λ d. d.id == s.device_id && is_reachable d) ds ≡ true
unfolding eligible
eligible-reachable w ds ops seg s h = ground arith

never_chosen :
    (w : World) (fb : FallbackConfig) (msg : Message) (id : ℕ) (c : Console) (choice : Choice)
    (after : Db)
    → route w fb msg (unlink_device id c).db ≡ (Result.ok choice, after)
    → choice.device_id ≢ id
unfolding unlink_device
never_chosen w fb msg id c choice after h e =
    let r : Routed w msg (unlink_device id c).db choice after =
      subst (Routes w msg (unlink_device id c).db) h
        (route-Routes w fb msg (unlink_device id c).db) in
    let at : r.sim.device_id ≡ id = cc (ap (λ (d : Choice). d.device_id) r.chosen) in
    let fits = eligible-reachable w _ [] _ r.sim r.fits in
    let reach =
      subst (λ k. any (λ d. d.id == k && is_reachable d) (unlink_device id c).db.devices ≡ true) at
        fits in
    false≢true (sym (unreachable id c.db.devices) ∙ reach)

abbrev pub NotTo : ℕ → Result Choice → Type 0
NotTo id (Result.ok choice) = choice.device_id ≢ id
NotTo id (Result.err e) = Unit

unrouted :
    (w : World) (fb : FallbackConfig) (msg : Message) (id : ℕ) (c : Console)
    (r : Result Choice × Db)
    → route w fb msg (unlink_device id c).db ≡ r
    → NotTo id r.0
unrouted w fb msg id c (Result.ok choice, after) h = never_chosen w fb msg id c choice after h
unrouted w fb msg id c (Result.err e, after) h = tt

-- A device that was unlinked in the console has no connection, no header is authenticated as it, and
-- no message is routed to it.
pub unlink_device_lem :
    (id : ℕ) (c : Console)
    → (lookup_conn (unlink_device id c).hub id ≡ none)
      × ((x : Crypto) (read_id : Text → ℕ) (header : Text)
          → device_auth x read_id header (unlink_device id c).db ≢ some id)
      × ((w : World) (fb : FallbackConfig) (msg : Message)
          → NotTo id (route w fb msg (unlink_device id c).db).0)
unlink_device_lem id c = (
  unfold unlink_device in disconnected id c.hub,
  λ x read_id header. no_longer_known x read_id header id c,
  λ w fb msg. unrouted w fb msg id c (route w fb msg (unlink_device id c).db) refl,
)
