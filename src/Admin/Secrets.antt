-- ===== src/Admin/Secrets.antt =====
-- server/internal/admin/handlers.go: the pages that reveal a secret once, for enrollment and for the
-- API clients.
pub mod Once
use wsms_gateway.Base.{
  ℕ, Bool, not, ◌&&◌, Option, none, some, List, [], ◌∷◌, ◌++◌, ◌==◌, select, order_by, limit,
  if◌then◌else◌,
}
use wsms_gateway.Models.Enums.{Role}
use wsms_gateway.Models.Records.{Text, is_empty, EnrollmentToken, Client, ApiKey, Db}
use wsms_gateway.Text.{codes}
use wsms_gateway.Api.Listing.{text_before}
use wsms_gateway.Admin.Console.{FlashKind, FlashItem, Console, can_mutate}
use wsms_gateway.Admin.Flash.{pop_flash}
use wsms_gateway.Admin.Settings.{Transport, Printer, base_url, pair_qr}

abbrev backwards : List EnrollmentToken → List EnrollmentToken
backwards [] = []
backwards (t ∷ ts) = backwards ts ++ t ∷ []

pub record EnrollmentPage : Type 0 where
  pub tokens : List EnrollmentToken
  pub can_mutate : Bool
  pub issued : Option (Text × Text)

issued_of : Printer → Text → Option FlashItem → Option (Text × Text)
issued_of lib base none = none
issued_of lib base (some it) = some (it.secret, (pair_qr lib base it.secret).1)

-- `enrollmentPage`: the newest tokens, and the token of the flash with its QR code.
unfoldable pub enrollment_page :
    Printer
    → (public_url : Text) → Transport
    → (now : ℕ) → Role
    → (issued : Text) → Console
    → EnrollmentPage × Console
unfolding issued_of
enrollment_page lib public_url t now role id c =
    let (found, left) = pop_flash now id c.flashes in
    (
      record {
        tokens = limit 50 (backwards c.db.tokens);
        can_mutate = can_mutate role;
        issued = issued_of lib (base_url public_url t) found;
      },
      record c { flashes = left },
    )

pub record ClientRow : Type 0 where
  pub client : Client
  pub keys : List ApiKey
  pub webhook_secret : Bool

client_rows : Db → List Client → List ClientRow
client_rows db [] = []
client_rows db (cl ∷ cls) =
    record {
      client = cl;
      keys = select (λ (k : ApiKey). k.client_id == cl.id && not k.deleted) db.keys;
      webhook_secret = not (is_empty cl.webhook_secret_enc);
    }
    ∷ client_rows db cls

-- `knownScopes`.
abbrev pub known_scopes : List Text
known_scopes =
    codes "messages:write"
    ∷ codes "messages:read"
    ∷ codes "devices:read"
    ∷ codes "sims:read"
    ∷ codes "admin"
    ∷ []

pub record ClientsPage : Type 0 where
  pub clients : List ClientRow
  pub scopes : List Text
  pub can_mutate : Bool
  pub error : Text
  pub reveal : Option (Text × FlashKind × Text)

reveal_of : Option FlashItem → Option (Text × FlashKind × Text)
reveal_of none = none
reveal_of (some it) = some (it.secret, it.kind, it.label)

abbrev client_by_name : Client → Client → Bool
client_by_name a b = text_before a.name b.name

-- `clientsPage`.
unfoldable pub clients_page :
    (now : ℕ) → Role → (error revealed : Text) → Console → ClientsPage × Console
unfolding reveal_of client_rows
clients_page now role error id c =
    let (found, left) = pop_flash now id c.flashes in
    (
      record {
        clients =
            client_rows c.db
              (order_by client_by_name (select (λ (cl : Client). not cl.deleted) c.db.clients));
        scopes = known_scopes;
        can_mutate = can_mutate role;
        error = error;
        reveal = reveal_of found;
      },
      record c { flashes = left },
    )
