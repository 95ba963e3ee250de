-- ===== src/Ws/Hub/Presence.antt =====
-- The status column of devices against the registry (server/internal/ws/hub.go), under `Serve` and
-- `unregister`. `Shutdown` and a restart are not considered here.
use wsms_gateway.Base.{
  ℕ, ◌≡◌, ◌≢◌, refl, sym, ap, subst, ◌∙◌, Bool, true, false, ◌&&◌, not, Option, none, some, [], ◌∷◌,
  arith, ◌==◌, is_some, In, In-update_where, Option-cases, Bool-cases, inl, inr,
}
use wsms_gateway.Models.Enums.{DeviceStatus, is_online, is_disabled}
use wsms_gateway.Models.Records.{Device, Db}
use wsms_gateway.Ws.Hub.{
  Conn, Hub, lookup_conn, online, register_conn, unregister_conn, set_device_status, register,
  serve, unregister,
}
use wsms_gateway.Ws.Hub.Registry.{
  lookup_conn-register_conn, unregister_conn_stale, unregister_conn_current,
}

-- A device is ONLINE exactly while it holds a registered connection, unless it is disabled or
-- deleted.
abbrev pub IsPresent : Hub → Db → Type 0
IsPresent h db =
    (d : Device)
    → In d db.devices
    → d.deleted ≡ false
    → is_disabled d.status ≡ false
    → is_online d.status ≡ online h d.id

abbrev Agrees : Hub → Device → Type 0
Agrees h d = d.deleted ≡ false → is_disabled d.status ≡ false → is_online d.status ≡ online h d.id

-- A registry operation on one device, followed by the status that it asks for.
set_status-IsPresent :
    (now device : ℕ) (status : DeviceStatus) (h after : Hub) (db : Db)
    → online after device ≡ is_online status
    → ((k : ℕ) → (k == device) ≡ false → online after k ≡ online h k)
    → IsPresent h db
    → IsPresent after (set_device_status now device status db)
unfolding set_device_status
set_status-IsPresent now device status h after db here there v d i =
    let chosen : Device → Bool =
      λ x. x.id == device && (not (is_disabled x.status) && not x.deleted) in
    let (a, j, e) = In-update_where chosen _ d db.devices i in
    subst (Agrees after) (sym e) (elim (Bool-cases (chosen a)) [
      | inl t ↦ rw t (λ l q. same a (ground arith))
      | inr f ↦ rw f (λ l q. v a j l q ∙ sym (there a.id (ground arith)))
    ])
  where
    same : (a : Device) → a.id ≡ device → is_online status ≡ online after a.id
    same a e = sym (subst (λ k. online after k ≡ is_online status) (sym e) here)

-- `Serve`, with both steps of its `register`.
pub serve-IsPresent :
    (now serial device : ℕ) (h : Hub) (db : Db)
    → IsPresent h db
    → IsPresent (serve now serial device h db).0 (serve now serial device h db).1
unfolding serve register online
serve-IsPresent now serial device h db v =
    let c : Conn = record { serial = serial; device_id = device; send = []; done = false } in
    let h' : Hub = record h { heap = c ∷ h.heap } in
    let (mine, others) = lookup_conn-register_conn c h' in
    set_status-IsPresent now device DeviceStatus.online h (register_conn c h') db (ap is_some mine)
      (λ k ne. ap is_some (others k ne)) v

-- `unregister`, with both of its steps, for any connection.
pub unregister-IsPresent :
    (now : ℕ) (c : Conn) (h : Hub) (db : Db)
    → IsPresent h db
    → IsPresent (unregister now c h db).0 (unregister now c h db).1
unfolding unregister online
unregister-IsPresent now c h db v = elim (Option-cases (lookup_conn h c.device_id)) [
  | inl nobody ↦ stale (λ q. absurd (none-ne-some (sym nobody ∙ q)))
  | inr (s, here) ↦ elim (Bool-cases (s == c.serial)) [
    | inl t ↦ current (here ∙ ap some (ground arith))
    | inr f ↦ stale (λ q. absurd (other s f (some-eq (sym here ∙ q))))
  ]
]
  where
    none-ne-some : ◌≡◌ {A = Option ℕ} none (some c.serial) → ⊥
    none-ne-some q = cc

    some-eq : {s : ℕ} → some s ≡ some c.serial → s ≡ c.serial
    some-eq q = cc

    other : (s : ℕ) → (s == c.serial) ≡ false → s ≢ c.serial
    other s f = λ q. absurd (ground arith)

    stale :
        lookup_conn h c.device_id ≢ some c.serial
        → IsPresent (unregister now c h db).0 (unregister now c h db).1
    stale q = rw (unregister, unregister_conn_stale c h q) v

    current :
        lookup_conn h c.device_id ≡ some c.serial
        → IsPresent (unregister now c h db).0 (unregister now c h db).1
    current q =
        let (asks, gone, others) = unregister_conn_current c h q in
        rw (unregister, asks)
          (set_status-IsPresent now c.device_id DeviceStatus.offline h (unregister_conn c h).0 db
            (ap is_some gone) (λ k ne. ap is_some (others k ne)) v)

-- The interleaving that the mutex does not exclude: the old connection of a device leaves the
-- registry, a new one is registered and sets ONLINE, and only then the old one sets OFFLINE. The
-- device is then registered and, if it is usable, OFFLINE.
pub unregister_after_serve :
    (now later : ℕ) (old : Conn) (serial : ℕ) (h : Hub) (db : Db)
    → lookup_conn h old.device_id ≡ some old.serial
    → let left = unregister_conn old h in
      let entered = serve now serial old.device_id left.0 db in
      let settled = set_device_status later old.device_id DeviceStatus.offline entered.1 in
      (left.1 ≡ true)
      × (online entered.0 old.device_id ≡ true)
      × ((d : Device)
          → In d settled.devices
          → d.id ≡ old.device_id
          → d.deleted ≡ false
          → is_disabled d.status ≡ false
          → d.status ≡ DeviceStatus.offline)
unfolding serve register online set_device_status
unregister_after_serve now later old serial h db q =
    let left = unregister_conn old h in
    let c : Conn = record { serial = serial; device_id = old.device_id; send = []; done = false } in
    let h' : Hub = record left.0 { heap = c ∷ left.0.heap } in
    (
      (unregister_conn_current old h q).0,
      ap is_some (lookup_conn-register_conn c h').0,
      λ d i same live enabled.
          let chosen : Device → Bool =
            λ x. x.id == old.device_id && (not (is_disabled x.status) && not x.deleted) in
          let (a, j, e) =
            In-update_where chosen _ d
              (set_device_status now old.device_id DeviceStatus.online db).devices i in
          subst Goes (sym e)
            (elim (Bool-cases (chosen a)) [
              | inl t ↦ rw t (λ x l y. refl)
              | inr f ↦ rw f (λ x l y. absurd (ground (arith, x, l, y)))
            ])
            same live enabled,
    )
  where
    Goes : Device → Type 0
    Goes d =
        d.id ≡ old.device_id
        → d.deleted ≡ false
        → is_disabled d.status ≡ false
        → d.status ≡ DeviceStatus.offline
