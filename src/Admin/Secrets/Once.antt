-- ===== src/Admin/Secrets/Once.antt =====
-- The secrets that the pages reveal (server/internal/admin/handlers.go) when they are loaded again.
use wsms_gateway.Base.{ℕ, ◌≡◌, refl, none, List, first-delete_where, Bool-cases, inl, inr}
use wsms_gateway.Models.Enums.{Role}
use wsms_gateway.Models.Records.{Text, is_empty}
use wsms_gateway.Admin.Console.{FlashItem, Console}
use wsms_gateway.Admin.Flash.{is_flash, pop_flash}
use wsms_gateway.Admin.Settings.{Transport, Printer}
use wsms_gateway.Admin.Secrets.{issued_of, reveal_of, enrollment_page, clients_page}

pop_twice :
    (now later : ℕ) (id : Text) (flashes : List FlashItem)
    → (pop_flash later id (pop_flash now id flashes).1).0 ≡ none
unfolding pop_flash
pop_twice now later id flashes = elim (Bool-cases (is_empty id)) [
  | inl e ↦ rw e refl
  | inr e ↦ rw (e, first-delete_where (is_flash id) flashes) refl
]

-- A page of the clients that is loaded again, by whom and whenever, reveals nothing under the id that
-- it was loaded with before, and neither does the page of the enrollment; loading it changes no table.
pub clients_page-once :
    (now later : ℕ) (role role' : Role) (error error' id public_url : Text) (lib : Printer)
    (t : Transport) (c : Console)
    → let seen = (clients_page now role error id c).1 in
      ((clients_page later role' error' id seen).0.reveal ≡ none)
      × ((enrollment_page lib public_url t later role' id seen).0.issued ≡ none)
      × (seen.db ≡ c.db)
unfolding clients_page enrollment_page issued_of reveal_of
clients_page-once now later role role' error error' id public_url lib t c =
    rw (pop_twice now later id c.flashes) (refl, refl, refl)
