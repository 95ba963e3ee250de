-- ===== src/Admin/Settings.antt =====
-- server/internal/admin/settings.go and qr.go: setLang, the settings fragment, and the address in the
-- pairing code. JSON and the PNG of the QR code are parameters.
pub mod Redirect
use wsms_gateway.Base.{
  ℕ, Bool, true, false, not, ◌&&◌, ◌||◌, Option, none, some, List, [], ◌∷◌, ◌++◌, ltb, any,
  if◌then◌else◌,
}
use wsms_gateway.Models.Enums.{Operator, FallbackMode, Role, operator_eq, is_ready}
use wsms_gateway.Models.Records.{Text, is_empty, Sim, Db}
use wsms_gateway.Text.{codes, text_eq, has_prefix}
use wsms_gateway.Router.Engine.{FallbackConfig}
use wsms_gateway.I18n.{default_lang, is_supported}
use wsms_gateway.Admin.Console.{can_mutate}

-- What the handlers read of the transport: TLS, the header X-Forwarded-Proto and the host.
pub record Transport : Type 0 where
  pub tls : Bool
  pub forwarded_proto : Text
  pub host : Text

abbrev pub is_secure : Transport → Bool
is_secure t = t.tls || text_eq t.forwarded_proto (codes "https")

pub record Cookie : Type 0 where
  pub value : Text
  pub max_age : ℕ
  pub path : Text
  pub secure : Bool

local_path : Text → Text
local_path next =
    if not (has_prefix next (codes "/")) || has_prefix next (codes "//")
    then codes "/admin"
    else next

-- `setLang`: the cookie that it sets, and where it redirects to.
unfoldable pub set_lang : Transport → (code next : Text) → Cookie × Text
unfolding local_path
set_lang t code next = (
  record {
    value = if is_supported code then code else default_lang;
    max_age = 31536000;
    path = codes "/";
    secure = is_secure t;
  },
  local_path next,
)

pub record Settings : Type 0 where
  pub can_mutate : Bool
  pub saved : Bool
  pub mode : FallbackMode
  pub operator : Operator
  pub owned : List Operator

-- `Distinct` over the operators that there are, in the order of their names.
abbrev pub by_operator_name : List Operator
by_operator_name =
    Operator.axis ∷ Operator.indosat ∷ Operator.smartfren ∷ Operator.telkomsel ∷ Operator.tri
    ∷ Operator.unknown ∷ Operator.xl ∷ []

owned_of : Db → List Operator → List Operator
owned_of db [] = []
owned_of db (op ∷ ops) =
    let rest = owned_of db ops in
    if any (λ (s : Sim). not s.deleted && (is_ready s.status && operator_eq s.operator op)) db.sims
    then op ∷ rest
    else rest

-- `renderSettings`; `settingsFragment` renders it with `saved` false.
unfoldable pub render_settings : FallbackConfig → Role → Bool → Db → Settings
unfolding owned_of
render_settings fb role saved db = record {
  can_mutate = can_mutate role;
  saved = saved;
  mode = fb.mode;
  operator = fb.op;
  owned = owned_of db by_operator_name;
}

abbrev pub settings_fragment : FallbackConfig → Role → Db → Settings
settings_fragment fb role db = render_settings fb role false db

-- `baseURL`.
unfoldable pub base_url : Text → Transport → Text
base_url public_url t =
    if not (is_empty public_url)
    then public_url
    else (if is_secure t then codes "https" else codes "http") ++ (codes "://" ++ t.host)

pub record PairPayload : Type 0 where
  pub v : ℕ
  pub url : Text
  pub token : Text

-- `json.Marshal`, and `qrcode.Encode` with the base64 of its PNG.
pub record Printer : Type 0 where
  pub marshal : PairPayload → Text
  pub png : Text → Option Text

-- `pairQR`.
unfoldable pub pair_qr : Printer → Text → Text → Text × Text
pair_qr lib base token =
    let payload = lib.marshal (record { v = 1; url = base; token = token }) in
    (
      payload,
      elim (lib.png payload) [ none ↦ [] | some image ↦ codes "data:image/png;base64," ++ image ],
    )
