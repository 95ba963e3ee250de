-- ===== src/Api/Socket/Connected.antt =====
-- The request for a socket (server/internal/api/ws.go), and the device behind it.
use wsms_gateway.Base.{
  ℕ, ◌≡◌, refl, Bool, true, false, not, ◌&&◌, ◌==◌, inl, inr, some, ap, List, first-In, first_sound,
  In, In-update_where, update_where, arith, [], ◌∷◌, Bool-cases, Option-cases,
}
use wsms_gateway.Models.Enums.{DeviceStatus, is_disabled, is_online}
use wsms_gateway.Models.Records.{Text, Device, Db}
use wsms_gateway.Ws.Hub.{Hub, Conn, lookup_conn, register, serve, set_device_status}
use wsms_gateway.Ws.Hub.Registry.{lookup_conn-register_conn}
use wsms_gateway.Api.Auth.{Crypto, parse_device_bearer}
use wsms_gateway.Api.Device.{device_auth, find_device}
use wsms_gateway.Api.Socket.{Opened, Upgrade, connect, device_ws}

-- The device of an open socket: stored, neither deleted nor disabled, and with the secret of the header.
pub record Backed (x : Crypto) (read_id : Text → ℕ) (header : Text) (db : Db) : Type 0 where
  pub device : Device
  pub id : Text
  pub secret : Text
  pub header_of : parse_device_bearer header ≡ some (id, secret)
  pub row : In device db.devices
  pub named : device.id ≡ read_id id
  pub enabled : is_disabled device.status ≡ false
  pub kept : device.deleted ≡ false
  pub verified : x.verify secret device.secret_hash ≡ true

device_auth-Backed :
    (x : Crypto) (read_id : Text → ℕ) (header : Text) (db : Db) (k : ℕ)
    → device_auth x read_id header db ≡ some k
    → (b : Backed x read_id header db) × (b.device.id ≡ k)
unfolding device_auth
device_auth-Backed x read_id header db k h = elim (Option-cases (parse_device_bearer header)) [
  | inl bad ↦ absurd (cc (rw (bad, device_auth) at h))
  | inr ((id, sec), parsed) ↦ elim (Option-cases (find_device db (read_id id))) [
    | inl missing ↦ absurd (cc (rw (parsed, device_auth, missing) at h))
    | inr (d, found) ↦ elim (Bool-cases (x.verify sec d.secret_hash)) [
      | inr wrong ↦ absurd (cc (rw (parsed, device_auth, found, wrong) at h))
      | inl right ↦
          let test : Device → Bool =
            λ e. e.id == read_id id && (not (is_disabled e.status) && not e.deleted) in
          let met = first_sound test db.devices found in
          (
            record {
              device = d;
              id = id;
              secret = sec;
              header_of = parsed;
              row = first-In test d db.devices found;
              named = ground arith;
              enabled = ground arith;
              kept = ground arith;
              verified = right;
            },
            some_only (rw (parsed, device_auth, found, right) at h),
          )
    ]
  ]
]
  where
    some_only : {a b : ℕ} → some a ≡ some b → a ≡ b
    some_only z = cc

-- The rows of a device that came online: ONLINE unless disabled or deleted, and all others as they
-- were.
abbrev pub CameOnline : ℕ → Db → Db → Type 0
CameOnline k db db' =
    ((d : Device)
      → In d db'.devices
      → d.id ≡ k
      → d.deleted ≡ false
      → is_disabled d.status ≡ false
      → is_online d.status ≡ true)
    × ((d : Device) → (d.id == k) ≡ false → In d db.devices → In d db'.devices)
    × ((d : Device) → (d.id == k) ≡ false → In d db'.devices → In d db.devices)

-- What a request for a socket comes to.
abbrev pub Comes : Crypto → (Text → ℕ) → Upgrade → Text → Hub → Db → Opened × Hub × Db → Type 0
Comes x read_id u header h db (Opened.refused, h', db') = (h' ≡ h) × (db' ≡ db)
Comes x read_id u header h db (Opened.failed, h', db') = (h' ≡ h) × (db' ≡ db)
Comes x read_id u header h db (Opened.connected, h', db') =
    (b : Backed x read_id header db) × (lookup_conn h' b.device.id ≡ some u.serial)
    × ((k : ℕ) → (k == b.device.id) ≡ false → lookup_conn h' k ≡ lookup_conn h k)
    × CameOnline b.device.id db db'

update_where-In :
    (p : Device → Bool) (f : Device → Device) (d : Device) (xs : List Device)
    → p d ≡ false
    → In d xs
    → In d (update_where p f xs)
update_where-In p f d [] n i = absurd i
update_where-In p f d (x ∷ xs) n (inl e) = let same : p x ≡ false = rw (← e) n in inl (rw same e)
update_where-In p f d (x ∷ xs) n (inr i) = inr (update_where-In p f d xs n i)

set_online-CameOnline :
    (now k : ℕ) (db : Db) → CameOnline k db (set_device_status now k DeviceStatus.online db)
unfolding set_device_status
set_online-CameOnline now k db = (
  λ d i same kept enabled.
      let (a, j, e) = In-update_where chosen shown d db.devices i in
      elim (Bool-cases (chosen a)) [
        | inl t ↦ rw (e, t) refl
        | inr f ↦ let is : d ≡ a = rw f at e in absurd (not_chosen d a is f same kept enabled)
      ],
  λ d other i. update_where-In chosen shown d db.devices (ground arith) i,
  λ d other i.
      let (a, j, e) = In-update_where chosen shown d db.devices i in
      elim (Bool-cases (chosen a)) [
        | inl t ↦
            let is : d ≡ shown a = rw t at e in
            let renamed : d.id ≡ a.id = ap (λ (x : Device). x.id) is in absurd (ground arith)
        | inr f ↦ let is : d ≡ a = rw f at e in rw is j
      ],
)
  where
    chosen : Device → Bool
    chosen x = x.id == k && (not (is_disabled x.status) && not x.deleted)

    shown : Device → Device
    shown d = record d {
      status = DeviceStatus.online;
      last_seen_at = some now;
      wake_misses = 0;
      updated_at = now;
    }

    not_chosen :
        (d a : Device)
        → d ≡ a
        → chosen a ≡ false
        → d.id ≡ k
        → d.deleted ≡ false
        → is_disabled d.status ≡ false
        → ⊥
    not_chosen d a e f same kept enabled =
        let g : chosen d ≡ false = rw e f in absurd (ground arith)

-- deviceWS registers a connection only for a stored device that is neither deleted nor disabled and
-- whose secret the header carries; that device then has the new connection and is ONLINE, every
-- other device has the connection that it had, and its row is unchanged. Where it registers none,
-- the registry and the tables are as they were.
pub device_ws-Comes :
    (x : Crypto) (read_id : Text → ℕ) (u : Upgrade) (header : Text) (h : Hub) (db : Db)
    → Comes x read_id u header h db (device_ws x read_id u header h db)
unfolding device_ws connect serve register
device_ws-Comes x read_id u header h db = elim (Option-cases (device_auth x read_id header db)) [
  | inl none_found ↦ rw (none_found, device_ws) (refl, refl)
  | inr (k, found) ↦ elim (Bool-cases u.upgrades) [
    | inr down ↦ rw (found, device_ws, down) (refl, refl)
    | inl up ↦
        let (b, same) = device_auth-Backed x read_id header db k found in
        let c : Conn = record { serial = u.serial; device_id = k; send = []; done = false } in
        let (mine, others) = lookup_conn-register_conn c (record h { heap = c ∷ h.heap }) in
        rw (found, device_ws, up)
          (b, (rw same mine), (rw same others), (rw same (set_online-CameOnline u.now k db)))
  ]
]
