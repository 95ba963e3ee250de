-- ===== src/Ws/Hub/Buffers.antt =====
-- The send buffers of connections (server/internal/ws/conn.go) under `SendTo`.
use mathlib.Core.Option
use wsms_gateway.Base.{
  ℕ, suc, ◌≡◌, refl, sym, ap, ◌∙◌, Bool, true, false, Option, some, List, [], ◌∷◌, ◌++◌, arith,
  ◌==◌, by_key, by_key-update_where, update_where, Option-cases, Bool-cases, first_sound, subst,
  inl, inr, ◌≤◌, length,
}
use wsms_gateway.Ws.Protocol.{Frame}
use wsms_gateway.Ws.Hub.{
  send_buffer, Conn, Hub, SendResult, conn_key, lookup_conn, enqueue, send_to,
}

-- What waits in the send buffer of a connection.
abbrev pub frames : ℕ → Hub → Option (List Frame)
frames serial h = Option.map (λ c. c.send) (by_key conn_key serial h.heap)

enqueue_offline :
    (pick : Bool) (f : Frame) (c : Conn)
    → (enqueue pick f c).1 ≡ SendResult.device_offline
    → ((enqueue pick f c).0.send ≡ c.send) × ((enqueue pick f c).0.serial ≡ c.serial)
unfolding enqueue
enqueue_offline pick f c h = ground arith

enqueue_sent :
    (pick : Bool) (f : Frame) (c : Conn)
    → (enqueue pick f c).1 ≡ SendResult.sent
    → (enqueue pick f c).0.send ≡ c.send ++ f ∷ []
unfolding enqueue
enqueue_sent pick f c h = ground arith

enqueue_serial : (pick : Bool) (f : Frame) (c : Conn) → (enqueue pick f c).0.serial ≡ c.serial
unfolding enqueue
enqueue_serial pick f c = ground arith

-- The row of one serial number is one row.
one_row :
    (s serial : ℕ) (heap : List Conn) {c x : Conn}
    → by_key conn_key s heap ≡ some c
    → by_key conn_key serial heap ≡ some x
    → (x.serial == s) ≡ true
    → x ≡ c
one_row s serial heap {c} {x} found there same =
    let self = first_sound (λ y. y.serial == serial) heap there in
    let one : serial ≡ s = ground arith in
    let again : by_key conn_key s heap ≡ some x =
      subst (λ k. by_key conn_key k heap ≡ some x) one there in
    cc (sym found ∙ again)

-- A `SendTo` that fails puts nothing into any buffer.
pub send_to_offline :
    (pick : Bool) (device : ℕ) (f : Frame) (h : Hub) (serial : ℕ)
    → (send_to pick device f h).1 ≡ SendResult.device_offline
    → frames serial (send_to pick device f h).0 ≡ frames serial h
unfolding send_to
send_to_offline pick device f h serial off = elim (Option-cases (lookup_conn h device)) [
  | inl nobody ↦ rw (nobody, send_to) refl
  | inr (s, here) ↦ elim (Option-cases (by_key conn_key s h.heap)) [
    | inl lost ↦ rw (here, lost, send_to) refl
    | inr (c, found) ↦
        let full : (enqueue pick f c).1 ≡ SendResult.device_offline =
          rw (here, found, send_to) at off in
        let row =
          by_key-update_where conn_key (λ x. x.serial == s) (λ x. (enqueue pick f x).0) serial
            h.heap (enqueue_serial pick f) in
        rw (here, found, send_to, row)
          (elim (Option-cases (by_key conn_key serial h.heap)) [
            | inl none_there ↦ rw none_there refl
            | inr (x, there) ↦ elim (Bool-cases (x.serial == s)) [
              | inl same ↦
                  rw (there, same, one_row s serial h.heap found there same)
                    (ap some (enqueue_offline pick f c full).0)
              | inr differs ↦ rw (there, differs) refl
            ]
          ])
  ]
]

offline-ne-sent : SendResult.device_offline ≡ SendResult.sent → ⊥
offline-ne-sent h = cc

-- A `SendTo` that succeeds appends the frame to the buffer of the connection that is registered for
-- the device, and to no other.
pub send_to_sent :
    (pick : Bool) (device : ℕ) (f : Frame) (h : Hub)
    → (send_to pick device f h).1 ≡ SendResult.sent
    → (s : ℕ) × (c : Conn) × (lookup_conn h device ≡ some s)
      × (by_key conn_key s h.heap ≡ some c)
      × (frames s (send_to pick device f h).0 ≡ some (c.send ++ f ∷ []))
      × ((serial : ℕ)
          → (serial == s) ≡ false
          → frames serial (send_to pick device f h).0 ≡ frames serial h)
unfolding send_to
send_to_sent pick device f h ok = elim (Option-cases (lookup_conn h device)) [
  | inl nobody ↦ absurd (offline-ne-sent (rw (nobody, send_to) at ok))
  | inr (s, here) ↦ elim (Option-cases (by_key conn_key s h.heap)) [
    | inl lost ↦ absurd (offline-ne-sent (rw (here, lost, send_to) at ok))
    | inr (c, found) ↦
        let put : (enqueue pick f c).1 ≡ SendResult.sent = rw (here, found, send_to) at ok in
        let self = first_sound (λ y. y.serial == s) h.heap found in
        let row = λ (serial : ℕ).
          by_key-update_where conn_key (λ x. x.serial == s) (λ x. (enqueue pick f x).0) serial
            h.heap (enqueue_serial pick f) in
        (
          s,
          c,
          here,
          found,
          rw (here, found, send_to, row s, found, self) (ap some (enqueue_sent pick f c put)),
          λ serial other.
              rw (here, found, send_to, row serial)
                (elim (Option-cases (by_key conn_key serial h.heap)) [
                  | inl none_there ↦ rw none_there refl
                  | inr (x, there) ↦
                      let at_serial = first_sound (λ y. y.serial == serial) h.heap there in
                      let differs : (x.serial == s) ≡ false = ground arith in
                      rw (there, differs) refl
                ]),
        )
  ]
]

-- Buffers stay within their 64 frames.
abbrev pub WithinBuffer : List Conn → Type 0
WithinBuffer [] = Unit
WithinBuffer (c ∷ cs) = (length c.send ≤ send_buffer) × WithinBuffer cs

length-append_one : (fs : List Frame) (f : Frame) → length (fs ++ f ∷ []) ≡ suc (length fs)
length-append_one [] f = refl
length-append_one (g ∷ fs) f = ap suc (length-append_one fs f)

enqueue-WithinBuffer :
    (pick : Bool) (f : Frame) (c : Conn)
    → length c.send ≤ send_buffer
    → length (enqueue pick f c).0.send ≤ send_buffer
unfolding enqueue
enqueue-WithinBuffer pick f c h = ground (arith, length-append_one c.send f)

update-WithinBuffer :
    (pick : Bool) (f : Frame) (s : ℕ) (cs : List Conn)
    → WithinBuffer cs
    → WithinBuffer (update_where (λ x. x.serial == s) (λ x. (enqueue pick f x).0) cs)
update-WithinBuffer pick f s [] w = tt
update-WithinBuffer pick f s (c ∷ cs) (w, ws) =
    let rest = update-WithinBuffer pick f s cs ws in
    elim (Bool-cases (c.serial == s)) [
      | inl t ↦ rw t (enqueue-WithinBuffer pick f c w, rest)
      | inr n ↦ rw n (w, rest)
    ]

-- `SendTo` never fills a buffer beyond its capacity: where it is full, the frame is refused and the
-- connection closes.
pub send_to-WithinBuffer :
    (pick : Bool) (device : ℕ) (f : Frame) (h : Hub)
    → WithinBuffer h.heap
    → WithinBuffer (send_to pick device f h).0.heap
unfolding send_to
send_to-WithinBuffer pick device f h w = elim (Option-cases (lookup_conn h device)) [
  | inl nobody ↦ rw (nobody, send_to) w
  | inr (s, here) ↦ elim (Option-cases (by_key conn_key s h.heap)) [
    | inl lost ↦ rw (here, lost, send_to) w
    | inr (c, found) ↦ rw (here, found, send_to) (update-WithinBuffer pick f s h.heap w)
  ]
]
