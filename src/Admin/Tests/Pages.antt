-- ===== src/Admin/Tests/Pages.antt =====
-- The pages of the console, and the gauges of the server, at the small fleet.
use wsms_gateway.Base.{
  ◌+◌, ◌≡◌, refl, true, false, not, ◌&&◌, ◌==◌, some, [], any, count, if◌then◌else◌,
}
use wsms_gateway.Models.Enums.{Operator, operator_eq, is_terminal}
use wsms_gateway.Models.Records.{Sim, Message}
use wsms_gateway.Text.{codes, has_prefix, trim_space}
use wsms_gateway.Router.Msisdn.{normalize_msisdn}
use wsms_gateway.I18n.{is_supported, default_lang, resolve}
use wsms_gateway.Admin.Overview.{overview}
use wsms_gateway.Admin.Overview.Figures.{Adds, overview-Adds}
use wsms_gateway.Admin.Settings.{Transport, set_lang}
use wsms_gateway.Admin.Settings.Redirect.{carrying, set_lang-resolve}
use wsms_gateway.Admin.Render.{mask_msisdn, status_badge, ratio}
use wsms_gateway.Admin.Render.Masked.{Masks, normalize_msisdn-Masks}
use wsms_gateway.Admin.Pages.{ilike, device_view}
use wsms_gateway.Admin.Pages.Shown.{device_view-ops}
use wsms_gateway.Metrics.{collect}
use wsms_gateway.Metrics.Depth.{sum_depth, is_sent, collect-depth}
use wsms_gateway.Samples.{fleet_db, phone_hub, phone}

overview-Adds_example : Adds 100000 fleet_db (overview 100000 phone_hub fleet_db)
overview-Adds_example = overview-Adds 100000 phone_hub fleet_db

abbrev front : Transport
front = record { tls = false; forwarded_proto = codes "https"; host = codes "sms" }

set_lang-resolve_example :
    (resolve (carrying (set_lang front (codes "en") (codes "//evil")).0 (codes "id"))
      ≡ (if is_supported (codes "en") then codes "en" else default_lang))
    × ((set_lang front (codes "en") (codes "//evil")).0.path ≡ codes "/")
    × ((has_prefix (set_lang front (codes "en") (codes "//evil")).1 (codes "/") ≡ true)
        × (has_prefix (set_lang front (codes "en") (codes "//evil")).1 (codes "//") ≡ false))
set_lang-resolve_example = set_lang-resolve front (codes "en") (codes "//evil") (codes "id")

-- A browser takes this path for the address of another host.
backslash : (set_lang front (codes "en") (codes "/\\evil")).1 ≡ codes "/\\evil"
unfolding set_lang
backslash = refl

local_number : normalize_msisdn (codes "0812-3456-7890") ≡ some (codes "+6281234567890")
unfolding normalize_msisdn trim_space
local_number = refl

masked_number : mask_msisdn (codes "+6281234567890") ≡ codes "+6281*******90"
unfolding mask_msisdn
masked_number = refl

normalize_msisdn-Masks_example : Masks (codes "+6281234567890")
normalize_msisdn-Masks_example =
    normalize_msisdn-Masks (codes "0812-3456-7890") (codes "+6281234567890") local_number

badge_sent : status_badge (codes "SENT_UNCONFIRMED") ≡ codes "warn"
unfolding status_badge
badge_sent = refl

small_share : ratio 1 1000 ≡ 2
unfolding ratio
small_share = refl

ilike_middle : ilike (λ c. c) (codes "+6281234567890") (codes "812%78") ≡ true
unfolding ilike
ilike_middle = refl

device_view-ops_example :
    count (λ o. operator_eq o Operator.telkomsel) (device_view phone_hub fleet_db phone).ops ≡ (
      if any
        (λ (s : Sim).
          (s.device_id == phone.id && not s.deleted) && operator_eq s.operator Operator.telkomsel)
        fleet_db.sims
      then 1
      else 0)
device_view-ops_example = device_view-ops phone_hub fleet_db phone Operator.telkomsel

collect-depth_example :
    sum_depth (collect (λ n. []) 100000 phone_hub fleet_db)
      + count (λ (m : Message). is_sent m.status) fleet_db.messages
    ≡ count (λ (m : Message). not (is_terminal m.status)) fleet_db.messages
collect-depth_example = collect-depth (λ n. []) 100000 phone_hub fleet_db
