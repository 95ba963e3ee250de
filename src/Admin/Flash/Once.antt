-- ===== src/Admin/Flash/Once.antt =====
-- The secrets that are stashed for one page (server/internal/admin/flash.go).
use wsms_gateway.Base.{
  ℕ, ◌≡◌, refl, true, false, Option, none, some, List, [], ◌∷◌, ◌+◌, ltb, first, if◌then◌else◌,
  Bool-cases, inl, inr, first-delete_where, first-delete_where_kept, first_sound, sym, ap, ◌∙◌,
}
use mathlib.Core.Bool.{false≢true}
use wsms_gateway.Models.Records.{Text, is_empty}
use wsms_gateway.Text.{text_eq}
use wsms_gateway.Text.Laws.{text_eq_refl, text_eq_sound}
use wsms_gateway.Admin.Console.{FlashKind, FlashItem}
use wsms_gateway.Admin.Flash.{flash_ttl, has_expired, is_flash, put_flash, pop_flash}

apart :
    (id other : Text) (it : FlashItem)
    → text_eq id other ≡ false
    → is_flash other it ≡ true
    → is_flash id it ≡ false
apart id other it new named = elim (Bool-cases (is_flash id it)) [
  | inr f ↦ f
  | inl t ↦
      let a = text_eq_sound it.id id t in
      let b = text_eq_sound it.id other named in
      absurd (false≢true (sym new ∙ rw (sym a ∙ b) (text_eq_refl other)))
]

module _ (now later : ℕ) (id : Text) (kind : FlashKind) (label plain : Text)
    (flashes : List FlashItem) where
  abbrev stash : List FlashItem
  stash = put_flash now id kind label plain flashes

  abbrev shown : Option FlashItem
  shown =
      some
        (record { id = id; kind = kind; label = label; secret = plain; expires = now + flash_ttl })

  -- The secret behind a flash is shown within three minutes, and then not; and a second request with
  -- the id, at any time, shows nothing.
  pub pop_flash-put_flash :
      is_empty id ≡ false
      → ((pop_flash later id stash).0 ≡ (if ltb (now + flash_ttl) later then none else shown))
        × ((t : ℕ) → (pop_flash t id (pop_flash later id stash).1).0 ≡ none)
  unfolding pop_flash put_flash
  pop_flash-put_flash h = (
    rw (h, text_eq_refl id) refl,
    λ t. rw (h, text_eq_refl id, first-delete_where (is_flash id) _) refl,
  )

-- A new secret leaves those of other ids, unless they have expired.
pub first-put_flash_other :
    (now : ℕ) (id : Text) (kind : FlashKind) (label plain : Text) (flashes : List FlashItem)
    (other : Text) (it : FlashItem)
    → text_eq id other ≡ false
    → has_expired now it ≡ false
    → first (is_flash other) flashes ≡ some it
    → first (is_flash other) (put_flash now id kind label plain flashes) ≡ some it
unfolding put_flash
first-put_flash_other now id kind label plain flashes other it new live found = rw new (
    first-delete_where_kept (is_flash other) (is_flash id) _
      (first-delete_where_kept (is_flash other) (has_expired now) flashes found live)
      (apart id other it new (first_sound (is_flash other) flashes found)))

-- What is shown was asked for by an id.
pub pop_named :
    (t : ℕ) (id : Text) (flashes : List FlashItem) (it : FlashItem)
    → (pop_flash t id flashes).0 ≡ some it
    → is_empty id ≡ false
unfolding pop_flash
pop_named t [] flashes it h = absurd (cc h)
pop_named t (c ∷ id) flashes it h = refl

-- What is shown under the id of a new flash is its secret.
pub pop_flash-secret :
    (now t : ℕ) (id : Text) (kind : FlashKind) (label plain : Text) (flashes : List FlashItem)
    (it : FlashItem)
    → (pop_flash t id (put_flash now id kind label plain flashes)).0 ≡ some it
    → it.secret ≡ plain
pop_flash-secret now t id kind label plain flashes it h =
    let popped =
      (pop_flash-put_flash now t id kind label plain flashes (pop_named t id _ it h)).0 in
    elim (Bool-cases (ltb (now + flash_ttl) t)) [
      | inl late ↦ absurd (cc (sym (rw late at popped) ∙ h))
      | inr timely ↦ let same = sym (rw timely at popped) ∙ h in sym (ap secret_of same)
    ]
  where
    secret_of : Option FlashItem → Text
    secret_of none = plain
    secret_of (some item) = item.secret
