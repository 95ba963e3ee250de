-- ===== src/Admin/Flash.antt =====
-- server/internal/admin/flash.go: secrets that are shown once.
pub mod Once
use wsms_gateway.Base.{
  ℕ, ◌+◌, Bool, Option, none, some, List, ◌∷◌, ltb, first, delete_where, if◌then◌else◌,
}
use wsms_gateway.Models.Records.{Text, is_empty}
use wsms_gateway.Text.{text_eq}
use wsms_gateway.Admin.Console.{FlashKind, FlashItem, Console, ConsoleEnv, Answer}

abbrev pub flash_ttl : ℕ
flash_ttl = 180000

-- `now.After(expires)`.
abbrev pub has_expired : ℕ → FlashItem → Bool
has_expired now it = ltb it.expires now

abbrev pub is_flash : Text → FlashItem → Bool
is_flash id it = text_eq it.id id

-- `putFlash`, for the random id that it draws: the expired items go, and an item of that id.
unfoldable pub put_flash : ℕ → Text → FlashKind → Text → Text → List FlashItem → List FlashItem
put_flash now id kind label plain flashes =
    record { id = id; kind = kind; label = label; secret = plain; expires = now + flash_ttl }
    ∷ delete_where (is_flash id) (delete_where (has_expired now) flashes)

still_valid : ℕ → Option FlashItem → Option FlashItem
still_valid now none = none
still_valid now (some it) = if has_expired now it then none else some it

-- `popFlash`; none is its false.
unfoldable pub pop_flash : ℕ → Text → List FlashItem → Option FlashItem × List FlashItem
unfolding still_valid
pop_flash now id flashes =
    if is_empty id
    then (none, flashes)
    else (still_valid now (first (is_flash id) flashes), delete_where (is_flash id) flashes)

-- The redirect that carries the id.
abbrev pub flash : ConsoleEnv → Text → FlashKind → Text → Text → Console → Answer × Console
flash e id kind label plain c =
    (Answer.revealed id, record c { flashes = put_flash e.now id kind label plain c.flashes })
