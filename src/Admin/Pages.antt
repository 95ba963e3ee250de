-- ===== src/Admin/Pages.antt =====
-- server/internal/admin/handlers.go: what the pages of the console show. Rows stand in a table in the
-- order in which they were created; `id_text` prints a UUID, and `fold` is the folding of cases of
-- ILIKE.
pub mod Shown
use wsms_gateway.Base.{
  ℕ, zero, suc, Bool, true, false, not, ◌&&◌, ◌||◌, Option, none, some, List, [], ◌∷◌, ◌++◌, ltb,
  ◌==◌, any, first, select, order_by, limit, if◌then◌else◌,
}
use wsms_gateway.Models.Enums.{Operator, Role, operator_eq}
use wsms_gateway.Models.Records.{
  Text, is_empty, Device, Sim, Message, MessageEvent, EnrollmentToken, Client, ApiKey, Db,
}
use wsms_gateway.Models.Names.{status_text, operator_text}
use wsms_gateway.Text.{codes, text_eq}
use wsms_gateway.Ws.Hub.{Hub, online}
use wsms_gateway.Dispatch.State.{find_message}
use wsms_gateway.Api.Listing.{matches, newer, by_name, text_before}
use wsms_gateway.Admin.Console.{FlashKind, FlashItem, Console, can_mutate}
use wsms_gateway.Admin.Flash.{pop_flash}
use wsms_gateway.Admin.Settings.{Transport, Printer, base_url, pair_qr}

-- The parts of a pattern of LIKE: %, _ and a character, where \ takes the next one as it is.
pub data Part : Type 0 where
  any_text any_char : Part
  exactly : ℕ → Part

-- `escaped` says that a \ stands before.
parts : (escaped : Bool) → Text → List Part
parts escaped [] = []
parts true (c ∷ s) = Part.exactly c ∷ parts false s
parts false (c ∷ s) =
    let rest = parts false s in
    let taken = parts true s in
    if c == b'%'
    then Part.any_text ∷ rest
    else if c == b'_'
    then Part.any_char ∷ rest
    else if c == 92
    then taken
    else Part.exactly c ∷ rest

some_suffix : (Text → Bool) → Text → Bool
some_suffix p [] = p []
some_suffix p (c ∷ s) = p (c ∷ s) || some_suffix p s

one_then : (ℕ → Bool) → (Text → Bool) → Text → Bool
one_then test p [] = false
one_then test p (c ∷ s) = test c && p s

fits : List Part → Text → Bool
unfolding some_suffix one_then
fits [] s = is_empty s
fits (Part.any_text ∷ ps) s = some_suffix (fits ps) s
fits (Part.any_char ∷ ps) s = one_then (λ c. true) (fits ps) s
fits (Part.exactly d ∷ ps) s = one_then (λ c. c == d) (fits ps) s

abbrev map_text : (ℕ → ℕ) → Text → Text
map_text f [] = []
map_text f (c ∷ s) = f c ∷ map_text f s

-- `ILIKE '%' || v || '%'`.
unfoldable pub ilike : (ℕ → ℕ) → Text → Text → Bool
unfolding parts fits
ilike fold value v =
    fits (parts false (map_text fold (b'%' ∷ (v ++ b'%' ∷ [])))) (map_text fold value)

unfoldable pub mentions : (ℕ → ℕ) → (ℕ → Text) → Text → Message → Bool
unfolding ilike
mentions fold id_text v m =
    is_empty v
    || (ilike fold m.target_msisdn v
        || (ilike fold (id_text m.id) v
            || elim m.dedup_key [ none ↦ false | some k ↦ ilike fold k v ]))

-- The query of the page.
pub record Search : Type 0 where
  pub status : Text
  pub operator : Text
  pub q : Text

abbrev pub wanted : (ℕ → ℕ) → (ℕ → Text) → Search → Message → Bool
wanted fold id_text s m =
    matches s.status (status_text m.status)
    && (matches s.operator (operator_text m.target_operator) && mentions fold id_text s.q m)

-- `queryMessages`.
unfoldable pub query_messages : (ℕ → ℕ) → (ℕ → Text) → Search → Db → List Message
query_messages fold id_text s db =
    limit 100 (order_by newer (select (wanted fold id_text s) db.messages))

pub record MessagesPage : Type 0 where
  pub messages : List Message
  pub search : Search

-- `messagesPage`, and `messagesRows` with the role.
unfoldable pub messages_page : (ℕ → ℕ) → (ℕ → Text) → Search → Db → MessagesPage
messages_page fold id_text s db = record { messages = query_messages fold id_text s db; search = s }

unfoldable pub messages_rows : (ℕ → ℕ) → (ℕ → Text) → Search → Role → Db → List Message × Role
messages_rows fold id_text s role db = (query_messages fold id_text s db, role)

abbrev earlier : MessageEvent → MessageEvent → Bool
earlier a b = ltb a.created_at b.created_at

-- `messageDetail`; none is its 404.
unfoldable pub message_detail : ℕ → Role → Db → Option (Message × List MessageEvent × Role)
message_detail id role db = elim (find_message id db) [
  | none ↦ none
  | some m ↦
      some
        (m, order_by earlier (select (λ (e : MessageEvent). e.message_id == m.id) db.events), role)
]

pub record DeviceView : Type 0 where
  pub device : Device
  pub online : Bool
  pub sims : List Sim
  pub ops : List Operator

-- The loop over the SIMs with `seen`; every SIM has an operator.
unfoldable pub distinct_ops : (seen : List Operator) → List Sim → List Operator
distinct_ops seen [] = []
distinct_ops seen (s ∷ sims) =
    let rest = distinct_ops seen sims in
    let more = distinct_ops (s.operator ∷ seen) sims in
    if any (operator_eq s.operator) seen then rest else s.operator ∷ more

abbrev pub by_slot_of : Sim → Sim → Bool
by_slot_of a b = ltb a.slot b.slot

pub device_view : Hub → Db → Device → DeviceView
unfolding distinct_ops
device_view hub db d =
    let sims =
      order_by by_slot_of (select (λ (s : Sim). s.device_id == d.id && not s.deleted) db.sims) in
    record { device = d; online = online hub d.id; sims = sims; ops = distinct_ops [] sims }

view_each : Hub → Db → List Device → List DeviceView
unfolding device_view
view_each hub db [] = []
view_each hub db (d ∷ ds) = device_view hub db d ∷ view_each hub db ds

abbrev pub is_chosen : Option ℕ → Device → Bool
is_chosen none d = not d.deleted
is_chosen (some id) d = d.id == id && not d.deleted

-- `deviceViews`; none is the empty id.
unfoldable pub device_views : Hub → Option ℕ → Db → List DeviceView
unfolding view_each
device_views hub id db = view_each hub db (order_by by_name (select (is_chosen id) db.devices))

-- `fleet`, and `fleetDetail` with its 404.
unfoldable pub fleet : Hub → Role → Db → List DeviceView × Bool
fleet hub role db = (device_views hub none db, can_mutate role)

first_view : Role → List DeviceView → Option (DeviceView × Bool)
first_view role [] = none
first_view role (v ∷ vs) = some (v, can_mutate role)

unfoldable pub fleet_detail : Hub → ℕ → Role → Db → Option (DeviceView × Bool)
unfolding first_view
fleet_detail hub id role db = first_view role (device_views hub (some id) db)
