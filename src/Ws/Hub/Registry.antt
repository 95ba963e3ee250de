-- ===== src/Ws/Hub/Registry.antt =====
-- The registry of server/internal/ws/hub.go: one connection for a device, the last to register.
use wsms_gateway.Base.{
  ℕ, ◌≡◌, ◌≢◌, refl, ap, ◌∙◌, true, false, Option, none, some, List, [], ◌∷◌, arith, ◌==◌, ==_refl,
  by_key, delete_where, Option-cases, Bool-cases, inl, inr,
}
use wsms_gateway.Ws.Hub.{
  Conn, Entry, Hub, close_old, entry_key, lookup_conn, close, register_conn, unregister_conn,
}

lookup_without :
    (d k : ℕ) (es : List Entry)
    → (k == d) ≡ false
    → by_key entry_key k (delete_where (λ e. e.device_id == d) es) ≡ by_key entry_key k es
lookup_without d k [] ne = refl
lookup_without d k (e ∷ es) ne = ground (arith, lookup_without d k es ne)

lookup_removed :
    (d : ℕ) (es : List Entry) → by_key entry_key d (delete_where (λ e. e.device_id == d) es) ≡ none
lookup_removed d [] = refl
lookup_removed d (e ∷ es) = ground (arith, lookup_removed d es)

conns-close_old : (o : Option ℕ) (new : ℕ) (h : Hub) → (close_old o new h).conns ≡ h.conns
unfolding close_old close
conns-close_old none new h = refl
conns-close_old (some old) new h = elim (Bool-cases (old == new)) [
  | inl t ↦ rw t refl
  | inr f ↦ rw f refl
]

-- After `register` the device has the new connection, and other devices have theirs.
pub lookup_conn-register_conn :
    (c : Conn) (h : Hub)
    → (lookup_conn (register_conn c h) c.device_id ≡ some c.serial)
      × ((k : ℕ) → (k == c.device_id) ≡ false → lookup_conn (register_conn c h) k ≡ lookup_conn h k)
unfolding lookup_conn register_conn
lookup_conn-register_conn c h =
    let o = lookup_conn h c.device_id in
    let kept = conns-close_old o c.serial h in
    (
      rw (lookup_conn, ==_refl c.device_id) refl,
      λ k ne. rw (lookup_conn, kept, new_entry k ne, lookup_without c.device_id k h.conns ne) refl,
    )
  where
    new_entry : (k : ℕ) → (k == c.device_id) ≡ false → (c.device_id == k) ≡ false
    new_entry k ne = ground arith

lookup_conn-unregister_conn :
    (c : Conn) (h : Hub)
    → ((lookup_conn h c.device_id ≢ some c.serial) → unregister_conn c h ≡ (h, false))
      × (lookup_conn h c.device_id ≡ some c.serial
          → ((unregister_conn c h).1 ≡ true)
            × (lookup_conn (unregister_conn c h).0 c.device_id ≡ none)
            × ((k : ℕ)
                → (k == c.device_id) ≡ false
                → lookup_conn (unregister_conn c h).0 k ≡ lookup_conn h k))
unfolding lookup_conn unregister_conn
lookup_conn-unregister_conn c h = (
  λ stale. elim (Option-cases (lookup_conn h c.device_id)) [
    | inl nobody ↦ rw (nobody, unregister_conn) refl
    | inr (s, here) ↦
        let differs : (s == c.serial) ≡ false = other s (λ e. stale (here ∙ ap some e)) in
        rw (here, differs, unregister_conn) refl
  ],
  λ current.
      let out = lookup_removed c.device_id h.conns in
      (
        rw (current, ==_refl c.serial, unregister_conn) refl,
        rw (current, ==_refl c.serial, unregister_conn, lookup_conn, out) refl,
        λ k ne.
            rw
              (
                current,
                ==_refl c.serial,
                unregister_conn,
                lookup_conn,
                lookup_without c.device_id k h.conns ne,
              )
              refl,
      ),
)
  where
    other : (s : ℕ) → s ≢ c.serial → (s == c.serial) ≡ false
    other s ne = elim (Bool-cases (s == c.serial)) [
      | inl t ↦ absurd (ne (ground arith))
      | inr f ↦ f
    ]

-- `unregister` of a connection that was superseded changes nothing and asks for no status.
pub unregister_conn_stale :
    (c : Conn) (h : Hub)
    → lookup_conn h c.device_id ≢ some c.serial
    → unregister_conn c h ≡ (h, false)
unregister_conn_stale c h = (lookup_conn-unregister_conn c h).0

-- `unregister` of the connection that is registered takes its device's entry away, and only that.
pub unregister_conn_current :
    (c : Conn) (h : Hub)
    → lookup_conn h c.device_id ≡ some c.serial
    → ((unregister_conn c h).1 ≡ true)
      × (lookup_conn (unregister_conn c h).0 c.device_id ≡ none)
      × ((k : ℕ)
          → (k == c.device_id) ≡ false
          → lookup_conn (unregister_conn c h).0 k ≡ lookup_conn h k)
unregister_conn_current c h = (lookup_conn-unregister_conn c h).1
